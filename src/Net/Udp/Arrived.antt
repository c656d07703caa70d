-- ===== src/Net/Udp/Arrived.antt =====
-- What waits in the ring, when no burst is assumed: a read or a wait that it suffices for leaves the rest
-- of it, and a poll only adds to it.
use pixel_multiverse_firmwar.Prelude.{
  ℕ, ◌-◌, ◌≤◌, ◌≡◌, ◌≢◌, refl, sym, ap, ◌∙◌, true, List, [], ◌∷◌, ◌++◌, ◌==◌, length, take, drop,
  All, arith, Bool-cases, inl, inr, append-nil, append_assoc, length-take,
}
use pixel_multiverse_firmwar.Net.Udp.{
  Ring, Polls, push, drain, drain_match, receive, read, wait_loop, wait_for,
}
use pixel_multiverse_firmwar.Net.Udp.Queue.{IsValid, view, view-push, push-IsValid, receive-IsValid}
use pixel_multiverse_firmwar.Net.Udp.Stream.{drain-view}
use pixel_multiverse_firmwar.Net.Udp.Matching.{drain_match-IsValid}
use pixel_multiverse_firmwar.Net.Udp.Channel.{Channel, channel_wait_for-append}

module _ (rb : ℕ) where
  pub read-IsValid :
      (len : ℕ) (r : Ring) (ps : Polls) → IsValid rb r → IsValid rb (read rb len r ps).1
  unfolding read
  read-IsValid len r [] v = (drain-view rb len r.count r v refl).2
  read-IsValid len r (p ∷ ps) v =
      let m = drain rb len r.count r in
      let drained = (drain-view rb len r.count r v refl).2 in
      elim (Bool-cases (length m.0 == len)) [
        | inl full ↦ rw full drained
        | inr short ↦ rw short (
            read-IsValid (len - length m.0) (receive rb m.1 p) ps
              (receive-IsValid rb p m.1 drained))
      ]

  wait_loop-IsValid :
      (pattern : List ℕ) (ps : Polls) (k : ℕ) (r : Ring)
      → IsValid rb r
      → IsValid rb (wait_loop rb pattern k r ps).1
  unfolding wait_loop
  wait_loop-IsValid pattern [] k r v = drain_match-IsValid rb pattern k r v
  wait_loop-IsValid pattern (p ∷ ps) k r v =
      let m = drain_match rb pattern r.count k r in
      let drained = drain_match-IsValid rb pattern k r v in
      elim (Bool-cases (m.0 == length pattern)) [
        | inl full ↦ rw full drained
        | inr short ↦
            rw short (
              wait_loop-IsValid pattern ps m.0 (receive rb m.1 p)
                (receive-IsValid rb p m.1 drained))
      ]

  pub wait_for-IsValid :
      (pattern : List ℕ) (r : Ring) (ps : Polls)
      → IsValid rb r
      → IsValid rb (wait_for rb pattern r ps).1
  unfolding wait_for
  wait_for-IsValid [] r ps v = v
  wait_for-IsValid (c ∷ cs) r ps v = wait_loop-IsValid (c ∷ cs) ps 0 r v

  -- A read of no more than what waits.
  pub read-arrived :
      (n : ℕ) (r : Ring) (ps : Polls)
      → IsValid rb r
      → n ≤ length (view rb r)
      → ((read rb n r ps).0 ≡ take n (view rb r))
        × (view rb (read rb n r ps).1 ≡ drop n (view rb r))
  unfolding read
  read-arrived n r [] v there = let m = drain-view rb n r.count r v refl in (m.0, m.1)
  read-arrived n r (p ∷ ps) v there =
      let m = drain-view rb n r.count r v refl in
      let all : length (drain rb n r.count r).0 ≡ n =
        ap length m.0 ∙ length-take n (view rb r) there in
      let full : (length (drain rb n r.count r).0 == n) ≡ true = ground (arith, all) in
      rw full (m.0, m.1)

  wait_for-drained :
      (b : ℕ) (bs rest : List ℕ) (r : Ring)
      → All (λ x. x ≢ b) bs
      → IsValid rb r
      → view rb r ≡ (b ∷ bs) ++ rest
      → ((wait_for rb (b ∷ bs) r []).0 ≡ true) × (view rb (wait_for rb (b ∷ bs) r []).1 ≡ rest)
  unfolding wait_for wait_loop
  wait_for-drained b bs rest r once v e =
      let c : Channel rb = record { ring = r; polls = []; valid = v; calm = tt } in
      let got = channel_wait_for-append rb b bs rest c once (append-nil (view rb r) ∙ e) in
      (got.0, sym (append-nil _) ∙ got.1)

  -- A wait for a pattern that waits in front, its first byte not again in it.
  pub wait_for-arrived :
      (b : ℕ) (bs rest : List ℕ) (r : Ring) (ps : Polls)
      → All (λ x. x ≢ b) bs
      → IsValid rb r
      → view rb r ≡ (b ∷ bs) ++ rest
      → ((wait_for rb (b ∷ bs) r ps).0 ≡ true) × (view rb (wait_for rb (b ∷ bs) r ps).1 ≡ rest)
  unfolding wait_for wait_loop
  wait_for-arrived b bs rest r [] once v e = wait_for-drained b bs rest r once v e
  wait_for-arrived b bs rest r (p ∷ ps) once v e =
      let got = wait_for-drained b bs rest r once v e in
      let heard : ((drain_match rb (b ∷ bs) r.count 0 r).0 == length (b ∷ bs)) ≡ true = got.0 in
      rw heard (refl, got.1)

  receive-grows :
      (qs : List (List ℕ)) (r : Ring)
      → IsValid rb r
      → (more : List ℕ) × (view rb (receive rb r qs) ≡ view rb r ++ more)
  unfolding receive
  receive-grows [] r v = ([], sym (append-nil (view rb r)))
  receive-grows (q ∷ qs) r v =
      let ih = receive-grows qs (push rb r q) (push-IsValid rb q r v) in
      let fits = take (rb - r.count) q in
      (
        fits ++ ih.0,
        ih.1 ∙ (ap (λ t. t ++ ih.0) (view-push rb q r v) ∙ append_assoc (view rb r) fits ih.0),
      )

  -- The polls that one call of the transport's poll makes.
  unfoldable pub absorb : Ring → Polls → Ring
  unfolding receive
  absorb r [] = r
  absorb r (p ∷ ps) = absorb (receive rb r p) ps

  pub absorb-grows :
      (ps : Polls) (r : Ring)
      → IsValid rb r
      → IsValid rb (absorb r ps) × ((more : List ℕ) × (view rb (absorb r ps) ≡ view rb r ++ more))
  unfolding absorb
  absorb-grows [] r v = (v, ([], sym (append-nil (view rb r))))
  absorb-grows (p ∷ ps) r v =
      let first = receive-grows p r v in
      let ih = absorb-grows ps (receive rb r p) (receive-IsValid rb p r v) in
      (
        ih.0,
        (
          first.0 ++ ih.1.0,
          ih.1.1 ∙ (ap (λ t. t ++ ih.1.0) first.1 ∙ append_assoc (view rb r) first.0 ih.1.0),
        ),
      )
