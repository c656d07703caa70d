-- ===== src/Display/Plasma/Board.antt =====
-- The plasma board as a whole (display/plasma/plasma.cpp): the frame buffers after `init`, `info` and
-- `selftest`, and what `update` sends to the strip. `paint` is what pico_graphics makes of drawing
-- calls, and `got` whether the second frame buffer could be allocated.
use pixel_multiverse_firmwar.Prelude.{
  ℕ, zero, suc, ◌*◌, ◌%◌, ◌^◌, ◌≡◌, refl, ap, Bool, true, false, Option, List, [], length,
  replicate, Bool-cases, inl, inr,
}
use pixel_multiverse_firmwar.Display.Canvas.{Colour, Draw}
use pixel_multiverse_firmwar.Display.Frames.{Frames, allocate, back, shown, write_back, present}
use pixel_multiverse_firmwar.Display.Plasma.{load_length, indicator, selftest, set_leds}
use pixel_multiverse_firmwar.Display.Plasma

-- The strip's length, its frames, and the colours that the driver was sent last, LED by LED.
pub record Board : Type 0 where
  pub strip_len : ℕ
  pub frames : Frames
  pub leds : List (ℕ × ℕ × ℕ)

abbrev pub frame_bytes : ℕ → ℕ
frame_bytes strip_len = strip_len * 4 % 2 ^ 32

unfoldable pub update : Board → Board
unfolding set_leds present shown
update b =
    let f = present b.frames in record b { frames = f; leds = set_leds (shown f) 0 b.strip_len }

module _ (paint : List Draw → List ℕ → List ℕ) where
  unfoldable pub draw : List Draw → Board → Board
  unfolding update
  draw calls b = update (record b { frames = write_back b.frames (paint calls (back b.frames)) })

  unfoldable pub info : List ℕ → Board → Board
  unfolding draw
  info letters b = draw (Plasma.info letters b.strip_len) b

  unfoldable pub run_selftest : (ℕ → ℕ → Colour) → (Colour → ℕ) → ℕ → Board → Board
  unfolding draw selftest
  run_selftest hue luminance id b = draw (selftest hue luminance b.strip_len id) b

  unfoldable pub init : (List ℕ → Option (List ℕ)) → Bool → Board
  unfolding load_length draw
  init get got =
      let l = load_length get in
      draw (indicator l.1)
        (record { strip_len = l.0; frames = allocate (frame_bytes l.0) got; leds = [] })

  length-set_leds : (f : List ℕ) (i n : ℕ) → length (set_leds f i n) ≡ n
  unfolding set_leds
  length-set_leds f i zero = refl
  length-set_leds f i (suc n) = ap suc (length-set_leds f (suc i) n)

  -- Whatever is configured, and with one buffer or two: init() ends with the indicator, green where
  -- the length is good and red where it is not, sent to every LED of the strip.
  pub init-indicator :
      (get : List ℕ → Option (List ℕ)) (got : Bool)
      → ((init get got).leds
          ≡ set_leds
              (paint
                (indicator (load_length get).1)
                (replicate (frame_bytes (load_length get).0) 0))
              0
              (load_length get).0)
        × (length (init get got).leds ≡ (init get got).strip_len)
  unfolding init draw update present shown back write_back
  init-indicator get got = elim (Bool-cases got) [
    | inl two ↦ rw two (
      refl,
      length-set_leds
          (shown (
            present (
              write_back (allocate (frame_bytes (load_length get).0) true) (
                paint (indicator (load_length get).1)
                  (replicate (frame_bytes (load_length get).0) 0)))))
          0 (load_length get).0,
    )
    | inr one ↦ rw one (
      refl,
      length-set_leds
          (shown (
            present (
              write_back (allocate (frame_bytes (load_length get).0) false) (
                paint (indicator (load_length get).1)
                  (replicate (frame_bytes (load_length get).0) 0)))))
          0 (load_length get).0,
    )
  ]
