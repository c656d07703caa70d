-- ===== src/Net/Multicast/Target.antt =====
-- Where the payloads of a frame go: the back buffer, or the scratch for a compressed frame.
use pixel_multiverse_firmwar.Prelude.{
  ℕ, ◌+◌, ◌≤◌, ◌≡◌, refl, ◌∙◌, Bool, true, false, Option, none, some, List, [], length, arith,
}
use pixel_multiverse_firmwar.Net.Multicast.Place.{overwrite, length-overwrite}

abbrev pub target : Bool → List ℕ → Option (List ℕ) → List ℕ
target false back zbuf = back
target true back none = []
target true back (some z) = z

-- The buffers behind a payload of `p` at `off`.
abbrev pub back_with : Bool → List ℕ → ℕ → List ℕ → List ℕ
back_with false back off p = overwrite back off p
back_with true back off p = back

abbrev pub zbuf_with : Bool → Option (List ℕ) → ℕ → List ℕ → Option (List ℕ)
zbuf_with false zbuf off p = zbuf
zbuf_with true none off p = none
zbuf_with true (some z) off p = some (overwrite z off p)

-- Room for `n` bytes; `before` is what the back buffer keeps while a compressed frame comes.
module _ (before : List ℕ) (n : ℕ) where
  abbrev pub Roomy : Bool → List ℕ → Option (List ℕ) → ℕ → Type 0
  Roomy false back zbuf cap = length back ≡ n
  Roomy true back zbuf cap =
      (back ≡ before) × (z : List ℕ) × (zbuf ≡ some z) × (length z ≡ cap) × (n ≤ cap)

  pub length-target :
      (zl : Bool) (back : List ℕ) (zbuf : Option (List ℕ)) (cap : ℕ)
      → Roomy zl back zbuf cap
      → n ≤ length (target zl back zbuf)
  length-target false back zbuf cap v = omega (arith, v)
  length-target true back zbuf cap (same, z, held, size, room) = rw held (omega (arith, size, room))

  module _ (off : ℕ) (p : List ℕ) where
    pub target-with :
        (zl : Bool) (back : List ℕ) (zbuf : Option (List ℕ)) (cap : ℕ)
        → Roomy zl back zbuf cap
        → target zl (back_with zl back off p) (zbuf_with zl zbuf off p)
          ≡ overwrite (target zl back zbuf) off p
    target-with false back zbuf cap v = refl
    target-with true back zbuf cap (same, z, held, size, room) = rw held refl

    pub Roomy-with :
        (zl : Bool) (back : List ℕ) (zbuf : Option (List ℕ)) (cap : ℕ)
        → off + length p ≤ n
        → Roomy zl back zbuf cap
        → Roomy zl (back_with zl back off p) (zbuf_with zl zbuf off p) cap
    Roomy-with false back zbuf cap le v = length-overwrite back off p (omega (arith, le, v)) ∙ v
    Roomy-with true back zbuf cap le (same, z, held, size, room) = (
      same,
      overwrite z off p,
      rw held refl,
      length-overwrite z off p (omega (arith, le, size, room)) ∙ size,
      room,
    )
