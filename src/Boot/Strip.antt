-- ===== src/Boot/Strip.antt =====
-- `main` in src/main.cpp on the plasma board, with the command loop behind it.
pub mod Safe
use pixel_multiverse_firmwar.Prelude.{
  ℕ, Bool, false, Option, none, some, List, [], map, if◌then◌else◌, ascii,
}
use pixel_multiverse_firmwar.Config.Flash.{Memory}
use pixel_multiverse_firmwar.Config.Device.{Device, power_on}
use pixel_multiverse_firmwar.Display.Canvas.{Colour, Draw}
use pixel_multiverse_firmwar.Display.Plasma
use pixel_multiverse_firmwar.Display.Plasma.Board.{Board, frame_bytes, init, info}
use pixel_multiverse_firmwar.Net.Settings.{WifiStart, wifi_init, multicast_init}
use pixel_multiverse_firmwar.Net.Multicast.{with_scratch}
use pixel_multiverse_firmwar.Net.Wifi.{Station, arrivals, net_facts}
use pixel_multiverse_firmwar.Command.Handlers.{Display}
use pixel_multiverse_firmwar.Command.Machine
use pixel_multiverse_firmwar.Command.Machine.{Env, Machine, Link, run}
use pixel_multiverse_firmwar.Boot.{startup}
use pixel_multiverse_firmwar.Boot.Main.{World, setting}

-- What runs when the command loop begins.
pub record Started : Type 0 where
  pub device : Device
  pub board : Board
  pub wifi : WifiStart
  pub group : Option (List ℕ × ℕ)

module _ (hue : ℕ → ℕ → Colour) (luminance : Colour → ℕ) (ntoa : ℕ → List ℕ)
    (station : Station) where
  abbrev pub strip_display : (List Draw → List ℕ → List ℕ) → ℕ → Display
  strip_display paint strip_len = record {
    size = frame_bytes strip_len;
    info_calls = λ letters. Plasma.info letters strip_len;
    test_calls = λ id. Plasma.selftest hue luminance strip_len id;
    paint = paint;
  }

  unfoldable pub strip_main : Env → World → Memory → Started
  unfolding startup init info setting wifi_init multicast_init
  strip_main e w memory =
      let s = startup e.ops e.crc e.overlaps w.level (power_on memory) in
      let config = setting s.1.store in
      let strip = init e.display.paint config w.got in
      record {
        device = s.1;
        board = if s.0 then info e.display.paint (ascii "config reset") strip else strip;
        wifi = wifi_init config w.chip;
        group = multicast_init config w.chip w.netif;
      }

  abbrev pub strip_env : Env → Started → Env
  strip_env e b = record e {
    display = strip_display e.display.paint b.board.strip_len;
    facts = record (net_facts ntoa b.wifi station e.facts) {
      width = b.board.strip_len;
      height = 1;
      size = frame_bytes b.board.strip_len;
    };
  }

  abbrev pub strip_machine : Env → Started → Machine
  strip_machine e b = record {
    system = record {
      board = record { deferred = false; frames = b.board.frames };
      receiver = with_scratch b.group e.malloc (frame_bytes b.board.strip_len);
    };
    device = b.device;
    halted = none;
  }

  unfoldable pub strip_firmware :
      {T U : Type 0} (e : Env) (first : Link T) (second : Link U) (w : World) (memory : Memory)
      (t : T) (u : Option U)
      → List (List (Option (List ℕ)))
      → Option (Machine.Running T U)
  unfolding strip_main with_scratch run
  strip_firmware e first second w memory t u polls =
      let b = strip_main e w memory in
      run (strip_env e b) first second (map (arrivals b.wifi) polls) (
        some (record {
          machine = strip_machine e b;
          primary = t;
          secondary = u;
          to_primary = [];
          to_secondary = [];
        }))
