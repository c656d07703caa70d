-- ===== src/Net/Udp/Sizes.antt =====
-- A `read` gives at most as many bytes as it is asked for, whatever the polls bring.
use pixel_multiverse_firmwar.Prelude.{
  ℕ, zero, suc, ◌-◌, ◌≤◌, [], ◌∷◌, ◌==◌, length, length-append, arith, Bool-cases, inl, inr,
}
use pixel_multiverse_firmwar.Net.Udp.{Ring, Polls, drain, pop, receive, read}

module _ (rb : ℕ) where
  length-drain-le : (want n : ℕ) (r : Ring) → length (drain rb want n r).0 ≤ want
  unfolding drain
  length-drain-le zero n r = omega arith
  length-drain-le (suc want) zero r = omega arith
  length-drain-le (suc want) (suc n) r =
      let ih = length-drain-le want n (pop rb r).1 in omega (arith, ih)

  pub length-read-le : (len : ℕ) (r : Ring) (ps : Polls) → length (read rb len r ps).0 ≤ len
  unfolding read
  length-read-le len r [] = length-drain-le len r.count r
  length-read-le len r (p ∷ ps) =
      let m = drain rb len r.count r in
      let some_got = length-drain-le len r.count r in
      let rest = read rb (len - length m.0) (receive rb m.1 p) ps in
      let ih = length-read-le (len - length m.0) (receive rb m.1 p) ps in
      elim (Bool-cases (length m.0 == len)) [
        | inl full ↦ rw full some_got
        | inr short ↦ rw short (omega (arith, length-append m.0 rest.0, ih, some_got))
      ]
