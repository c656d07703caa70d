-- ===== src/Display/Frames/Presenting.antt =====
-- What is shown, before and after a frame is presented.
use pixel_multiverse_firmwar.Prelude.{ℕ, ◌≡◌, true, List, Bool-cases, inl, inr, arith}
use pixel_multiverse_firmwar.Display.Frames.{
  Frames, double, buffer, shown, back, write_buffer, write_back, present,
}

-- A frame that is loaded into the back buffer and presented is the one shown, with two buffers and
-- with one.
pub present-write_back : (f : Frames) (m : List ℕ) → shown (present (write_back f m)) ≡ m
unfolding shown present write_back write_buffer buffer double
present-write_back f m = elim (Bool-cases f.front) [
  | inl one ↦ ground arith
  | inr zero ↦ ground arith
]

-- With two buffers, loading a frame does not change what is shown until it is presented, and the
-- frame that was shown is then the one to draw over.
pub write_back-shown :
    (f : Frames) (m : List ℕ)
    → double f ≡ true
    → (shown (write_back f m) ≡ shown f) × (back (present (write_back f m)) ≡ shown f)
unfolding shown back present write_back write_buffer buffer double
write_back-shown f m d = elim (Bool-cases f.front) [
  | inl one ↦ (ground arith, ground arith)
  | inr zero ↦ (ground arith, ground arith)
]
