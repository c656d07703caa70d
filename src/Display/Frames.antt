-- ===== src/Display/Frames.antt =====
-- The two frame buffers of a board (display/i75/i75.cpp and display/plasma/plasma.cpp, which share
-- this code). `first` is the memory of buf[0]; `second` that of buf[1], or none where the
-- allocation failed and buf[1] is buf[0]. `front` false is 0 and true is 1.
pub mod Presenting
pub mod Sizes
use pixel_multiverse_firmwar.Prelude.{
  ℕ, ◌≡◌, refl, Bool, true, false, not, Option, none, some, List, if◌then◌else◌, replicate,
}

pub record Frames : Type 0 where
  pub first : List ℕ
  pub second : Option (List ℕ)
  pub front : Bool

-- `got` is whether the second allocation succeeds; the buffers are taken to start at 0.
abbrev pub allocate : ℕ → Bool → Frames
allocate bytes got = record {
  first = replicate bytes 0;
  second = if got then some (replicate bytes 0) else none;
  front = false;
}

-- dbuf
unfoldable pub double : Frames → Bool
double f = elim f.second [ none ↦ false | some m ↦ true ]

-- buf[i]
unfoldable pub buffer : Frames → Bool → List ℕ
buffer f false = f.first
buffer f true = elim f.second [ none ↦ f.first | some m ↦ m ]

-- buf[front], which update() sends out, and buf[1 - front]
unfoldable pub shown : Frames → List ℕ
unfolding buffer
shown f = buffer f f.front

unfoldable pub back : Frames → List ℕ
unfolding buffer
back f = buffer f (not f.front)

-- A write through the pointer of back(), or through `gfx`.
unfoldable pub write_buffer : Frames → Bool → List ℕ → Frames
write_buffer f false m = record f { first = m }
write_buffer f true m = elim f.second [
  | none ↦ record f { first = m }
  | some old ↦ record f { second = some m }
]

unfoldable pub write_back : Frames → List ℕ → Frames
unfolding write_buffer
write_back f m = write_buffer f (not f.front) m

-- if (dbuf) front ^= 1
unfoldable pub present : Frames → Frames
unfolding double
present f = if double f then record f { front = not f.front } else f
