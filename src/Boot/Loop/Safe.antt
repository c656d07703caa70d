-- ===== src/Boot/Loop/Safe.antt =====
-- The firmware of the i75 board from power-on, and the buffers that its commands and the network write
-- to, for datagrams whose offset and payload do not add up to 2 ^ 32.
use pixel_multiverse_firmwar.Prelude.{
  ℕ, ◌≡◌, refl, Bool, Option, none, some, List, [], ◌∷◌, map, length, ◌≤◌, length-replicate, All,
  Bool-cases, inl, inr, ascii,
}
use pixel_multiverse_firmwar.Config.Flash.{FlashOps, Memory}
use pixel_multiverse_firmwar.Config.Device.{Device, power_on}
use pixel_multiverse_firmwar.Config.Device.Kept.{config_boot-IsWellFormed, empty_store-IsWellFormed}
use pixel_multiverse_firmwar.Config.Commands.Kept.{config_factory_reset-IsWellFormed}
use pixel_multiverse_firmwar.Config.Store.Laws.{IsWellFormed}
use pixel_multiverse_firmwar.Display.Canvas.{Colour}
use pixel_multiverse_firmwar.Display.Frames.Sizes.{IsSized}
use pixel_multiverse_firmwar.Display.I75.Geometry.{buffer_size}
use pixel_multiverse_firmwar.Display.I75.Board.{init}
use pixel_multiverse_firmwar.Display.I75.Board.Sized.{info-IsSized, init-IsSized}
use pixel_multiverse_firmwar.Net.Multicast.{with_scratch}
use pixel_multiverse_firmwar.Net.Settings.{WifiStart, wifi_enabled}
use pixel_multiverse_firmwar.Net.Wifi.{Station, arrivals, length-wifi_ip}
use pixel_multiverse_firmwar.Command.Loop.Ready.{IsFor, InRange}
use pixel_multiverse_firmwar.Command.Machine
use pixel_multiverse_firmwar.Command.Machine.{Env, Link}
use pixel_multiverse_firmwar.Command.Machine.Safe.{IsSound, IsBounded, IsSafe, run-IsSafe}
use pixel_multiverse_firmwar.Boot.{held, check_factory_reset, startup}
use pixel_multiverse_firmwar.Boot.Main.{World, main, setting}
use pixel_multiverse_firmwar.Boot.Loop.{i75_env, machine_of, booted, firmware}

pub startup-IsWellFormed :
    (ops : FlashOps) (crc : List ℕ → ℕ) (overlaps : Bool) (level : ℕ → Bool) (d : Device)
    → IsWellFormed d.store
    → IsWellFormed (startup ops crc overlaps level d).1.store
unfolding startup check_factory_reset
startup-IsWellFormed ops crc overlaps level d w = elim (Bool-cases (held level 0 30)) [
  | inl pressed ↦ rw pressed (
      config_boot-IsWellFormed ops crc overlaps _
        (config_factory_reset-IsWellFormed ops overlaps d w))
  | inr released ↦ rw released (config_boot-IsWellFormed ops crc overlaps d w)
]

-- The scratch has the size of the frame, where there is one.
pub with_scratch-IsFor :
    (group : Option (List ℕ × ℕ)) (malloc : ℕ → Bool) (size : ℕ)
    → IsFor size (with_scratch group malloc size)
unfolding with_scratch
with_scratch-IsFor none malloc size = record { scratch = refl; cap = refl; has_scratch = refl }
with_scratch-IsFor (some group) malloc size = elim (Bool-cases (malloc size)) [
  | inl got ↦ rw got (record {
    scratch = length-replicate {A = ℕ} size 0;
    cap = length-replicate {A = ℕ} size 0;
    has_scratch = refl;
  })
  | inr refused ↦ rw refused (record { scratch = refl; cap = refl; has_scratch = refl })
]

pub arrivals-InRange :
    (w : WifiStart) (polls : List (List (Option (List ℕ))))
    → All (All InRange) polls
    → All (All InRange) (map (arrivals w) polls)
arrivals-InRange w [] in_range = tt
arrivals-InRange w (ps ∷ polls) in_range = (
  elim (Bool-cases (wifi_enabled w)) [ inl on ↦ rw on (in_range.0) | inr off ↦ rw off tt ],
  arrivals-InRange w polls in_range.1,
)

module _ (hue : ℕ → ℕ → Colour) (luminance : Colour → ℕ) (version : List ℕ) (ntoa : ℕ → List ℕ)
    (short : (addr : ℕ) → length (ntoa addr) ≤ 15) (station : Station) (e : Env)
    (sound : IsSound e) where
  booted-IsSized :
      (w : World) (memory : Memory)
      → let b = booted hue luminance version ntoa station e w memory in
        IsSized (buffer_size b.geometry) b.frames
  unfolding booted main
  booted-IsSized w memory =
      let s = startup e.ops e.crc e.overlaps w.level (power_on memory) in
      let config = setting s.1.store in
      let display = init e.display.paint hue luminance version config w.got in
      let v = init-IsSized e.display.paint sound.paint_keeps hue luminance version config w.got in
      elim (Bool-cases s.0) [
        | inl was_reset ↦ rw was_reset (
            info-IsSized e.display.paint sound.paint_keeps (buffer_size display.0) display.0
              (ascii "config reset") display.1 v)
        | inr kept ↦ rw kept v
      ]

  booted-IsSafe :
      (w : World) (memory : Memory)
      → let b = booted hue luminance version ntoa station e w memory in
        IsSafe
          (i75_env hue luminance version ntoa station e b)
          (machine_of hue luminance version ntoa station e b)
  unfolding booted main
  booted-IsSafe w memory =
      let b = booted hue luminance version ntoa station e w memory in
      record {
        ready = record {
          fits = booted-IsSized w memory;
          receiving = with_scratch-IsFor b.group e.malloc (buffer_size b.geometry);
        };
        store =
            startup-IsWellFormed e.ops e.crc e.overlaps w.level (power_on memory)
              empty_store-IsWellFormed;
      }

  -- From power-on on the i75 board, whatever is in flash, whatever the reset button, the WiFi chip and
  -- the allocations do, whatever bytes the two transports bring, and for datagrams whose offset and
  -- payload do not add up to 2 ^ 32: however many rounds the loop runs, nothing is written behind the
  -- end of key[8] and value[64] of the k/v commands, of the text of `keys` or of `vers`, of the buffers
  -- of `zdat`, or of the frame and the scratch that datagrams are copied to, the buffers keep the size
  -- of the display and the store stays well formed. It is used that
  -- drawing and inflating keep the length of a buffer, that the text of an address has at most 15
  -- characters and the others of `vers` are short, and that a read gives at most what it is asked for.
  pub firmware-IsSafe :
      {T U : Type 0} (first : Link T) (second : Link U) (one : IsBounded first)
      (two : IsBounded second) (w : World) (memory : Memory) (t : T) (u : Option U)
      (polls : List (List (Option (List ℕ))))
      → All (All InRange) polls
      → (s : Machine.Running T U) × (firmware hue luminance version ntoa station e first second w
            memory t u polls
          ≡ some s)
        × IsSafe
            (i75_env hue luminance version ntoa station e
              (booted hue luminance version ntoa station e w memory))
            s.machine
  unfolding firmware
  firmware-IsSafe first second one two w memory t u polls in_range =
      let b = booted hue luminance version ntoa station e w memory in
      let e' = i75_env hue luminance version ntoa station e b in
      let sound' : IsSound e' = record {
        paint_keeps = sound.paint_keeps;
        uncompress_keeps = sound.uncompress_keeps;
        short_ip = length-wifi_ip ntoa b.wifi station short;
        short_names = sound.short_names;
      } in
      let out =
        run-IsSafe e' sound' first second one two (map (arrivals b.wifi) polls) _
          (arrivals-InRange b.wifi polls in_range) (booted-IsSafe w memory) in
      (out.0, out.1, out.2)
