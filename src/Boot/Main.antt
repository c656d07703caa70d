-- ===== src/Boot/Main.antt =====
-- The start of `main` in src/main.cpp on the i75 board: each part is started with the settings that
-- the configuration holds by then. The library calls between them change nothing that is modelled.
use pixel_multiverse_firmwar.Prelude.{ℕ, Bool, Option, none, some, List, if◌then◌else◌, take, ascii}
use pixel_multiverse_firmwar.Config.Flash.{FlashOps}
use pixel_multiverse_firmwar.Config.Store.{Store, get}
use pixel_multiverse_firmwar.Config.Device.{Device}
use pixel_multiverse_firmwar.Display.Canvas.{Colour, Draw}
use pixel_multiverse_firmwar.Display.Frames.{Frames}
use pixel_multiverse_firmwar.Display.I75.Geometry.{Geometry}
use pixel_multiverse_firmwar.Display.I75.Board.{init, info}
use pixel_multiverse_firmwar.Net.Settings.{WifiStart, wifi_init, udp_transport_init, multicast_init}
use pixel_multiverse_firmwar.Boot.{startup}

-- kv::config().get(key): the significant bytes of the value.
abbrev pub significant : Option (List ℕ × ℕ) → Option (List ℕ)
significant none = none
significant (some (value, n)) = some (take n value)

unfoldable pub setting : Store → List ℕ → Option (List ℕ)
unfolding get
setting s key = significant (get s key)

-- What is running when the command loop begins.
pub record Running : Type 0 where
  pub was_reset : Bool
  pub device : Device
  pub geometry : Geometry
  pub frames : Frames
  pub wifi : WifiStart
  pub udp_port : Option ℕ
  pub group : Option (List ℕ × ℕ)

-- What the libraries and the board answer: the level of the reset button, whether the second frame
-- buffer can be allocated, the WiFi chip starts, and there is a network interface.
pub record World : Type 0 where
  pub level : ℕ → Bool
  pub got : Bool
  pub chip : Bool
  pub netif : Bool

module _ (ops : FlashOps) (crc : List ℕ → ℕ) (overlaps : Bool) (paint : List Draw → List ℕ → List ℕ)
    (hue : ℕ → ℕ → Colour) (luminance : Colour → ℕ) (version : List ℕ) where
  unfoldable pub main : World → Device → Running
  unfolding startup init setting wifi_init udp_transport_init multicast_init
  main w d =
      let s = startup ops crc overlaps w.level d in
      let config = setting s.1.store in
      let display = init paint hue luminance version config w.got in
      record {
        was_reset = s.0;
        device = s.1;
        geometry = display.0;
        frames = if s.0 then info paint display.0 (ascii "config reset") display.1 else display.1;
        wifi = wifi_init config w.chip;
        udp_port = udp_transport_init config w.chip;
        group = multicast_init config w.chip w.netif;
      }
