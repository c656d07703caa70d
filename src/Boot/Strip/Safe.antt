-- ===== src/Boot/Strip/Safe.antt =====
-- The firmware of the plasma board from power-on, and the buffers that its commands and the network
-- write to, for datagrams whose offset and payload do not add up to 2 ^ 32.
use pixel_multiverse_firmwar.Prelude.{
  ℕ, ◌≤◌, ◌≡◌, ◌∙◌, Bool, Option, some, List, [], length, map, All, Bool-cases, inl, inr, ascii,
}
use pixel_multiverse_firmwar.Config.Flash.{Memory}
use pixel_multiverse_firmwar.Config.Device.{power_on}
use pixel_multiverse_firmwar.Config.Device.Kept.{empty_store-IsWellFormed}
use pixel_multiverse_firmwar.Display.Canvas.{Colour, Draw}
use pixel_multiverse_firmwar.Display.Frames.{back, write_back, allocate}
use pixel_multiverse_firmwar.Display.Frames.Sizes.{
  IsSized, length-back, present-IsSized, write_back-IsSized, allocate-IsSized,
}
use pixel_multiverse_firmwar.Display.Plasma
use pixel_multiverse_firmwar.Display.Plasma.{load_length, indicator}
use pixel_multiverse_firmwar.Display.Plasma.Board.{Board, frame_bytes, update, draw, init, info}
use pixel_multiverse_firmwar.Net.Wifi.{Station, arrivals, length-wifi_ip}
use pixel_multiverse_firmwar.Command.Loop.Ready.{InRange}
use pixel_multiverse_firmwar.Command.Machine
use pixel_multiverse_firmwar.Command.Machine.{Env, Link}
use pixel_multiverse_firmwar.Command.Machine.Safe.{IsSound, IsBounded, IsSafe, run-IsSafe}
use pixel_multiverse_firmwar.Boot.{startup}
use pixel_multiverse_firmwar.Boot.Main.{World, setting}
use pixel_multiverse_firmwar.Boot.Loop.Safe.{
  startup-IsWellFormed, with_scratch-IsFor, arrivals-InRange,
}
use pixel_multiverse_firmwar.Boot.Strip.{strip_env, strip_machine, strip_main, strip_firmware}

-- The frames of the strip have the size of its length.
abbrev IsFitting : Board → Type 0
IsFitting b = IsSized (frame_bytes b.strip_len) b.frames

module _ (paint : List Draw → List ℕ → List ℕ)
    (keeps : (calls : List Draw) (m : List ℕ) → length (paint calls m) ≡ length m) where
  draw-IsFitting : (calls : List Draw) (b : Board) → IsFitting b → IsFitting (draw paint calls b)
  unfolding draw update
  draw-IsFitting calls b v =
      let size = frame_bytes b.strip_len in
      let m = paint calls (back b.frames) in
      present-IsSized size (write_back b.frames m) (
        write_back-IsSized size b.frames v m
          (keeps calls (back b.frames) ∙ length-back size b.frames v))

  init-IsFitting : (get : List ℕ → Option (List ℕ)) (got : Bool) → IsFitting (init paint get got)
  unfolding init
  init-IsFitting get got =
      let l = load_length get in
      draw-IsFitting (indicator l.1)
        (record { strip_len = l.0; frames = allocate (frame_bytes l.0) got; leds = [] })
        (allocate-IsSized (frame_bytes l.0) got)

  info-IsFitting : (letters : List ℕ) (b : Board) → IsFitting b → IsFitting (info paint letters b)
  unfolding info
  info-IsFitting letters b v = draw-IsFitting (Plasma.info letters b.strip_len) b v

module _ (hue : ℕ → ℕ → Colour) (luminance : Colour → ℕ) (ntoa : ℕ → List ℕ)
    (short : (addr : ℕ) → length (ntoa addr) ≤ 15) (station : Station) (e : Env)
    (sound : IsSound e) where
  strip_main-IsFitting :
      (w : World) (memory : Memory)
      → IsFitting (strip_main hue luminance ntoa station e w memory).board
  unfolding strip_main
  strip_main-IsFitting w memory =
      let s = startup e.ops e.crc e.overlaps w.level (power_on memory) in
      let strip = init e.display.paint (setting s.1.store) w.got in
      let v = init-IsFitting e.display.paint sound.paint_keeps (setting s.1.store) w.got in
      elim (Bool-cases s.0) [
        | inl was_reset ↦
            rw was_reset
              (info-IsFitting e.display.paint sound.paint_keeps (ascii "config reset") strip v)
        | inr kept ↦ rw kept v
      ]

  strip_main-IsSafe :
      (w : World) (memory : Memory)
      → let b = strip_main hue luminance ntoa station e w memory in
        IsSafe
          (strip_env hue luminance ntoa station e b)
          (strip_machine hue luminance ntoa station e b)
  unfolding strip_main
  strip_main-IsSafe w memory =
      let b = strip_main hue luminance ntoa station e w memory in
      record {
        ready = record {
          fits = strip_main-IsFitting w memory;
          receiving = with_scratch-IsFor b.group e.malloc (frame_bytes b.board.strip_len);
        };
        store =
            startup-IsWellFormed e.ops e.crc e.overlaps w.level (power_on memory)
              empty_store-IsWellFormed;
      }

  -- From power-on on the plasma board, whatever is in flash, whatever the reset button, the WiFi chip
  -- and the allocations do, whatever bytes the two transports bring, and for datagrams whose offset
  -- and payload do not add up to 2 ^ 32: however many rounds the loop runs, nothing is written behind
  -- the end of key[8] and value[64] of the k/v commands, of the text of `keys` or of `vers`, of the
  -- buffers of `zdat`, or of the frame and the scratch that datagrams are copied to, the buffers keep
  -- the size of the strip and the store stays well formed. It is used that
  -- drawing and inflating keep the length of a buffer, that the text of an address has at most 15
  -- characters and the others of `vers` are short, and that a read gives at most what it is asked for.
  pub strip_firmware-IsSafe :
      {T U : Type 0} (first : Link T) (second : Link U) (one : IsBounded first)
      (two : IsBounded second) (w : World) (memory : Memory) (t : T) (u : Option U)
      (polls : List (List (Option (List ℕ))))
      → All (All InRange) polls
      → (s : Machine.Running T U) × (strip_firmware hue luminance ntoa station e first second w
            memory t u polls
          ≡ some s)
        × IsSafe
            (strip_env hue luminance ntoa station e
              (strip_main hue luminance ntoa station e w memory))
            s.machine
  unfolding strip_firmware
  strip_firmware-IsSafe first second one two w memory t u polls in_range =
      let b = strip_main hue luminance ntoa station e w memory in
      let e' = strip_env hue luminance ntoa station e b in
      let sound' : IsSound e' = record {
        paint_keeps = sound.paint_keeps;
        uncompress_keeps = sound.uncompress_keeps;
        short_ip = length-wifi_ip ntoa b.wifi station short;
        short_names = sound.short_names;
      } in
      let out =
        run-IsSafe e' sound' first second one two (map (arrivals b.wifi) polls) _
          (arrivals-InRange b.wifi polls in_range) (strip_main-IsSafe w memory) in
      (out.0, out.1, out.2)
