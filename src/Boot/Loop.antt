-- ===== src/Boot/Loop.antt =====
-- `main` in src/main.cpp on the i75 board as a whole: the machine that the command loop begins with.
pub mod Safe
use pixel_multiverse_firmwar.Prelude.{
  ℕ, Bool, false, Option, none, some, List, [], map, ◌==◌, if◌then◌else◌,
}
use pixel_multiverse_firmwar.Config.Flash.{Memory}
use pixel_multiverse_firmwar.Config.Device.{power_on}
use pixel_multiverse_firmwar.Display.Canvas.{Colour, Draw}
use pixel_multiverse_firmwar.Display.I75.Geometry.{Geometry, buffer_size}
use pixel_multiverse_firmwar.Display.I75.Layout.{drawn}
use pixel_multiverse_firmwar.Display.I75.Board.{info_calls}
use pixel_multiverse_firmwar.Net.Multicast.{with_scratch}
use pixel_multiverse_firmwar.Net.Wifi.{Station, arrivals, net_facts}
use pixel_multiverse_firmwar.Command.Handlers.{Display}
use pixel_multiverse_firmwar.Command.Machine
use pixel_multiverse_firmwar.Command.Machine.{Env, Machine, Link, run}
use pixel_multiverse_firmwar.Boot.Main.{Running, World, main}

module _ (hue : ℕ → ℕ → Colour) (luminance : Colour → ℕ) (version : List ℕ) (ntoa : ℕ → List ℕ)
    (station : Station) where
  -- The display of the commands, which is the board's with its geometry.
  abbrev pub i75_display : (List Draw → List ℕ → List ℕ) → Geometry → Display
  i75_display paint g = record {
    size = buffer_size g;
    info_calls = info_calls g;
    test_calls = λ id. if id == 41 then info_calls g version else drawn hue luminance g id;
    paint = paint;
  }

  -- `e` with the display and the network that have been started.
  abbrev pub i75_env : Env → Running → Env
  i75_env e b = record e {
    display = i75_display e.display.paint b.geometry;
    facts = record (net_facts ntoa b.wifi station e.facts) {
      width = b.geometry.display_w;
      height = b.geometry.display_h;
      size = buffer_size b.geometry;
    };
  }

  -- What runs when `run` is called; nothing is held, and the scratch is there where it was allocated.
  abbrev pub machine_of : Env → Running → Machine
  machine_of e b = record {
    system = record {
      board = record { deferred = false; frames = b.frames };
      receiver = with_scratch b.group e.malloc (buffer_size b.geometry);
    };
    device = b.device;
    halted = none;
  }

  unfoldable pub booted : Env → World → Memory → Running
  unfolding main
  booted e w memory =
      main e.ops e.crc e.overlaps e.display.paint hue luminance version w (power_on memory)

  -- From power-on, with what is in flash, on.
  unfoldable pub firmware :
      {T U : Type 0} (e : Env) (first : Link T) (second : Link U) (w : World) (memory : Memory)
      (t : T) (u : Option U)
      → List (List (Option (List ℕ)))
      → Option (Machine.Running T U)
  unfolding booted with_scratch run
  firmware e first second w memory t u polls =
      let b = booted e w memory in
      run (i75_env e b) first second (map (arrivals b.wifi) polls) (
        some (record {
          machine = machine_of e b;
          primary = t;
          secondary = u;
          to_primary = [];
          to_secondary = [];
        }))
