-- ===== src/Net/Udp/Channel.antt =====
-- The UDP transport as the stream that the k/v commands are stated over.
use pixel_multiverse_firmwar.Prelude.{
  ℕ, ◌-◌, ◌≡◌, ◌≢◌, refl, ap, ◌∙◌, Bool, true, some, arith, ◌++◌, All, drop-append, ==_iff, List,
  [], ◌∷◌, ◌==◌, length, take, drop, Bool-cases, inl, inr,
}
use pixel_multiverse_firmwar.Net.Udp.{
  Ring, Polls, drain, drain_match, receive, read, wait_loop, wait_for,
}
use pixel_multiverse_firmwar.Net.Udp.Queue.{IsValid, receive-IsValid}
use pixel_multiverse_firmwar.Net.Udp.Matching.{
  starts_with, after, outcome, drain_match-IsValid, wait_for-stream,
}
use pixel_multiverse_firmwar.Net.Udp.Stream.{stream, NoBurst, read-stream}

module _ (rb : ℕ) where
  -- A ring that is well formed, and polls with no burst above its size.
  pub record Channel : Type 0 where
    pub ring : Ring
    pub polls : Polls
    pub valid : IsValid rb ring
    pub calm : NoBurst rb polls

  pub read-NoBurst :
      (len : ℕ) (r : Ring) (ps : Polls) → NoBurst rb ps → NoBurst rb (read rb len r ps).2
  unfolding read
  read-NoBurst len r [] n = tt
  read-NoBurst len r (p ∷ ps) n =
      let m = drain rb len r.count r in
      elim (Bool-cases (length m.0 == len)) [
        | inl full ↦ rw full n
        | inr short ↦ rw short (read-NoBurst (len - length m.0) (receive rb m.1 p) ps n.1)
      ]

  abbrev pub coming : Channel → List ℕ
  coming c = stream rb c.ring c.polls

  abbrev pub channel_read : ℕ → Channel → List ℕ × Channel
  channel_read len c =
      let m = read rb len c.ring c.polls in
      (
        m.0,
        record {
          ring = m.1;
          polls = m.2;
          valid = (read-stream rb len c.ring c.polls c.valid c.calm).2;
          calm = read-NoBurst len c.ring c.polls c.calm;
        },
      )

  pub channel_read-takes : (len : ℕ) (c : Channel) → (channel_read len c).0 ≡ take len (coming c)
  channel_read-takes len c = (read-stream rb len c.ring c.polls c.valid c.calm).0

  pub channel_read-drops :
      (len : ℕ) (c : Channel) → coming (channel_read len c).1 ≡ drop len (coming c)
  channel_read-drops len c = (read-stream rb len c.ring c.polls c.valid c.calm).1

  wait_loop-IsValid :
      (p : List ℕ) (ps : Polls) (k : ℕ) (r : Ring)
      → IsValid rb r
      → NoBurst rb ps
      → IsValid rb (wait_loop rb p k r ps).1 × NoBurst rb (wait_loop rb p k r ps).2
  unfolding wait_loop
  wait_loop-IsValid p [] k r v n = (drain_match-IsValid rb p k r v, tt)
  wait_loop-IsValid p (q ∷ ps) k r v n =
      let drained = drain_match-IsValid rb p k r v in
      let m = drain_match rb p r.count k r in
      elim (Bool-cases (m.0 == length p)) [
        | inl full ↦ rw full (drained, n)
        | inr short ↦
            rw short
              (wait_loop-IsValid p ps m.0 (receive rb m.1 q) (receive-IsValid rb q m.1 drained) n.1)
      ]

  pub wait_for-IsValid :
      (p : List ℕ) (c : Channel)
      → IsValid rb (wait_for rb p c.ring c.polls).1 × NoBurst rb (wait_for rb p c.ring c.polls).2
  unfolding wait_for
  wait_for-IsValid [] c = (c.valid, c.calm)
  wait_for-IsValid (b ∷ bs) c = wait_loop-IsValid (b ∷ bs) c.polls 0 c.ring c.valid c.calm

  abbrev pub channel_wait_for : List ℕ → Channel → Bool × Channel
  channel_wait_for p c =
      let w = wait_for rb p c.ring c.polls in
      let kept = wait_for-IsValid p c in
      (w.0, record { ring = w.1; polls = w.2; valid = kept.0; calm = kept.1 })

  answered :
      (w : Bool × Ring × Polls) (rest : List ℕ)
      → outcome rb w ≡ some rest
      → (w.0 ≡ true) × (stream rb w.1 w.2 ≡ rest)
  answered w rest e = elim (Bool-cases w.0) [
    | inl heard ↦ (heard, ground (arith, heard, e))
    | inr nothing ↦ absurd (ground (arith, nothing, e))
  ]

  starts_with-append : (p s : List ℕ) → starts_with p (p ++ s) ≡ true
  starts_with-append [] s = refl
  starts_with-append (b ∷ bs) s = rw ((==_iff b b).1 refl) (starts_with-append bs s)

  after-append : (b : ℕ) (bs rest : List ℕ) → after (b ∷ bs) ((b ∷ bs) ++ rest) ≡ some rest
  unfolding after
  after-append b bs rest =
      rw (starts_with-append (b ∷ bs) rest) (ap some (drop-append (length bs) bs rest refl))

  -- A pattern that comes next is heard, if its first byte does not come again in it.
  pub channel_wait_for-append :
      (b : ℕ) (bs rest : List ℕ) (c : Channel)
      → All (λ x. x ≢ b) bs
      → coming c ≡ (b ∷ bs) ++ rest
      → ((channel_wait_for (b ∷ bs) c).0 ≡ true) × (coming (channel_wait_for (b ∷ bs) c).1 ≡ rest)
  channel_wait_for-append b bs rest c once e = answered (wait_for rb (b ∷ bs) c.ring c.polls) rest (
      wait_for-stream rb b bs c.ring c.polls once c.valid c.calm
      ∙ (ap (after (b ∷ bs)) e ∙ after-append b bs rest))
