-- ===== src/Display/Frames/Sizes.antt =====
-- Both frame buffers keep their size.
use pixel_multiverse_firmwar.Prelude.{
  ℕ, ◌≡◌, Bool, false, length-replicate, true, List, length, arith, Bool-cases, Option-cases, inl,
  inr,
}
use pixel_multiverse_firmwar.Display.Frames.{
  Frames, allocate, double, buffer, back, write_buffer, write_back, present,
}

pub record IsSized (size : ℕ) (f : Frames) : Type 0 where
  pub first_size : length f.first ≡ size
  pub second_size : length (buffer f true) ≡ size

module _ (size : ℕ) (f : Frames) (v : IsSized size f) where
  pub length-back : length (back f) ≡ size
  unfolding back buffer
  length-back = elim (Bool-cases f.front) [
    | inl one ↦ rw one v.first_size
    | inr zero ↦ rw zero v.second_size
  ]

  pub present-IsSized : IsSized size (present f)
  unfolding present double buffer
  present-IsSized = elim (Option-cases f.second) [
    | inl one ↦ record {
      first_size = ground (arith, v.first_size);
      second_size = ground (arith, v.second_size);
    }
    | inr (m, two) ↦ record {
      first_size = ground (arith, v.first_size);
      second_size = ground (arith, v.second_size);
    }
  ]

  pub write_back-IsSized : (m : List ℕ) → length m ≡ size → IsSized size (write_back f m)
  unfolding write_back write_buffer buffer
  write_back-IsSized m e = elim (Bool-cases f.front) [
    | inl one ↦ record {
      first_size = ground (arith, e, v.first_size);
      second_size = ground (arith, e, v.second_size);
    }
    | inr zero ↦ record {
      first_size = ground (arith, e, v.first_size);
      second_size = ground (arith, e, v.second_size);
    }
  ]

-- What is written through back() is what back() holds.
pub back-write_back : (f : Frames) (m : List ℕ) → back (write_back f m) ≡ m
unfolding back write_back write_buffer buffer
back-write_back f m = elim (Bool-cases f.front) [ inl one ↦ ground arith | inr zero ↦ ground arith ]

pub allocate-IsSized : (bytes : ℕ) (got : Bool) → IsSized bytes (allocate bytes got)
unfolding buffer
allocate-IsSized bytes true = record {
  first_size = length-replicate {A = ℕ} bytes 0;
  second_size = length-replicate {A = ℕ} bytes 0;
}
allocate-IsSized bytes false = record {
  first_size = length-replicate {A = ℕ} bytes 0;
  second_size = length-replicate {A = ℕ} bytes 0;
}
