-- ===== src/Net/Udp/Matching.antt =====
-- `wait_for` against the first occurrence of its pattern in the stream, for a pattern whose first byte
-- does not come again in it.
use pixel_multiverse_firmwar.Prelude.{
  ℕ, zero, suc, ◌+◌, ◌<◌, ◌≡◌, ◌≢◌, refl, sym, ap, ap₂, subst, ◌∙◌, Bool, true, false, ◌&&◌, Option,
  none, some, List, [], ◌∷◌, ◌++◌, ◌==◌, ==_iff, if◌then◌else◌, length, get_or, take, drop, arith,
  Bool-cases, inl, inr, All, take-All, length-append, length-take, take_all,
}
use pixel_multiverse_firmwar.Net.Udp.{
  Ring, Polls, pop, matched, drain_match, wait_loop, wait_for, receive,
}
use pixel_multiverse_firmwar.Net.Udp.Queue.{
  IsValid, view, concat, view-pop, pop-IsValid, receive-IsValid,
}
use pixel_multiverse_firmwar.Net.Udp.Stream.{
  stream, arrivals, NoBurst, view_empty, popped, view-receive_empty, concat-append,
}

-- The reference: the text behind the first occurrence of a pattern.
abbrev pub starts_with : List ℕ → List ℕ → Bool
starts_with [] s = true
starts_with (p ∷ ps) [] = false
starts_with (p ∷ ps) (x ∷ s) = p == x && starts_with ps s

unfoldable pub after : List ℕ → List ℕ → Option (List ℕ)
after pattern [] = none
after pattern (x ∷ s) =
    if starts_with pattern (x ∷ s) then some (drop (length pattern) (x ∷ s)) else after pattern s

-- The matching loop over the bytes as they come.
feed : List ℕ → ℕ → List ℕ → ℕ × List ℕ
feed pattern idx [] = (idx, [])
feed pattern idx (x ∷ s) =
    let idx' = matched pattern idx x in
    let rest = feed pattern idx' s in if idx' == length pattern then (idx', s) else rest

abbrev found : List ℕ → ℕ × List ℕ → Option (List ℕ)
found pattern f = if f.0 == length pattern then some f.1 else none

starts_with-append :
    (p s : List ℕ) → (starts_with p (p ++ s) ≡ true) × (drop (length p) (p ++ s) ≡ s)
starts_with-append [] s = (refl, refl)
starts_with-append (x ∷ p) s = let rest = starts_with-append p s in (ground (arith, rest.0), rest.1)

starts_with-mismatch :
    (p s : List ℕ) (k x : ℕ)
    → k < length p
    → (x == get_or p k 0) ≡ false
    → starts_with p (take k p ++ (x ∷ s)) ≡ false
starts_with-mismatch [] s k x lt ne = absurd (omega arith)
starts_with-mismatch (y ∷ p) s zero x lt ne = ground (arith, ne)
starts_with-mismatch (y ∷ p) s (suc k) x lt ne =
    ground (arith, starts_with-mismatch p s k x (omega arith) ne)

starts_with-short : (p s : List ℕ) → length s < length p → starts_with p s ≡ false
starts_with-short [] s h = absurd (omega arith)
starts_with-short (y ∷ p) [] h = refl
starts_with-short (y ∷ p) (x ∷ s) h = ground (arith, starts_with-short p s (omega arith))

after-short : (p s : List ℕ) → length s < length p → after p s ≡ none
unfolding after
after-short p [] h = refl
after-short p (x ∷ s) h = rw (starts_with-short p (x ∷ s) h) (after-short p s (omega arith))

take_next :
    (p : List ℕ) (k : ℕ) (s : List ℕ)
    → k < length p
    → take (suc k) p ++ s ≡ take k p ++ (get_or p k 0 ∷ s)
take_next [] k s h = absurd (omega arith)
take_next (y ∷ p) zero s h = refl
take_next (y ∷ p) (suc k) s h = ap (λ t. y ∷ t) (take_next p k s (omega arith))

module _ (c : ℕ) (cs : List ℕ) (once : All (λ b. b ≢ c) cs) where
  abbrev pattern_of : List ℕ
  pattern_of = c ∷ cs

  after-skip : (l t : List ℕ) → All (λ b. b ≢ c) l → after (c ∷ cs) (l ++ t) ≡ after (c ∷ cs) t
  unfolding after
  after-skip [] t h = refl
  after-skip (x ∷ l) t h =
      let other : (c == x) ≡ false = ground (arith, h.0) in rw other (after-skip l t h.1)

  -- A byte that does not go on with a partial match: no occurrence begins in the part matched.
  after-mismatch :
      (k x : ℕ) (s : List ℕ)
      → k < length (c ∷ cs)
      → (x == get_or (c ∷ cs) k 0) ≡ false
      → after (c ∷ cs) (take k (c ∷ cs) ++ (x ∷ s)) ≡ after (c ∷ cs) (x ∷ s)
  after-mismatch zero x s lt ne = refl
  after-mismatch (suc k) x s lt ne =
      unfold after in
      rw (starts_with-mismatch (c ∷ cs) s (suc k) x lt ne)
        (after-skip (take k cs) (x ∷ s) (take-All (λ b. b ≢ c) k cs once))

  after-whole : (s : List ℕ) → after (c ∷ cs) (c ∷ (cs ++ s)) ≡ some s
  unfolding after
  after-whole s = let whole = starts_with-append (c ∷ cs) s in rw (whole.0, whole.1) refl

  after-next : (x : ℕ) (s : List ℕ) → (x == c) ≡ false → after (c ∷ cs) (x ∷ s) ≡ after (c ∷ cs) s
  unfolding after
  after-next x s ne = let other : (c == x) ≡ false = ground (arith, ne) in rw other refl

  -- A byte that is the pattern's first and does not go on comes behind its first.
  first_breaks :
      (k x : ℕ)
      → k < length (c ∷ cs)
      → (x == get_or (c ∷ cs) k 0) ≡ false
      → (x == c) ≡ true
      → (1 == length (c ∷ cs)) ≡ false
  first_breaks zero x lt ne eq = absurd (ground (arith, ne, eq))
  first_breaks (suc k) x lt ne eq = ground (arith, lt)

  -- The loop, with `k` bytes of the pattern matched, finds what the reference finds in those bytes
  -- and the rest.
  feed-after :
      (s : List ℕ) (k : ℕ)
      → k < length (c ∷ cs)
      → found (c ∷ cs) (feed (c ∷ cs) k s) ≡ after (c ∷ cs) (take k (c ∷ cs) ++ s)
  unfolding feed
  feed-after [] k lt =
      let short : (k == length (c ∷ cs)) ≡ false = ground (arith, lt) in
      let none_there =
        after-short (c ∷ cs) (take k (c ∷ cs) ++ [])
          (omega (arith, length-append (take k (c ∷ cs)) [], length-take k (c ∷ cs), lt)) in
      rw short (sym none_there)
  feed-after (x ∷ s) k lt = elim (Bool-cases (x == get_or (c ∷ cs) k 0)) [
    | inl goes_on ↦
        let same : get_or (c ∷ cs) k 0 ≡ x = sym ((==_iff x (get_or (c ∷ cs) k 0)).0 goes_on) in
        let joined : take (suc k) (c ∷ cs) ++ s ≡ take k (c ∷ cs) ++ (x ∷ s) =
          take_next (c ∷ cs) k s lt ∙ ap (λ t. take k (c ∷ cs) ++ (t ∷ s)) same in
        let plus : k + 1 ≡ suc k = omega arith in
        elim (Bool-cases (suc k == length (c ∷ cs))) [
          | inl full ↦
              let len : suc k ≡ length (c ∷ cs) = (==_iff (suc k) (length (c ∷ cs))).0 full in
              let all : take (suc k) (c ∷ cs) ≡ c ∷ cs = take_all (suc k) (c ∷ cs) (sym len) in
              rw (goes_on, plus, full, full)
                (sym (after-whole s) ∙ ap (after (c ∷ cs)) (ap (λ t. t ++ s) (sym all) ∙ joined))
          | inr more ↦
              rw (goes_on, plus, more)
                (feed-after s (suc k) (ground (arith, lt, more)) ∙ ap (after (c ∷ cs)) joined)
        ]
    | inr breaks ↦
        let skip = after-mismatch k x s lt breaks in
        elim (Bool-cases (x == c)) [
          | inl again ↦
              let same : c ≡ x = sym ((==_iff x c).0 again) in
              let long : (1 == length (c ∷ cs)) ≡ false = first_breaks k x lt breaks again in
              rw (breaks, again, long)
                (feed-after s 1 (ground (arith, long))
                  ∙ (ap (λ t. after (c ∷ cs) (t ∷ s)) same ∙ sym skip))
          | inr other ↦
              let start : (0 == length (c ∷ cs)) ≡ false = ground arith in
              rw (breaks, other, start)
                (feed-after s 0 (omega arith) ∙ (sym (after-next x s other) ∙ sym skip))
        ]
  ]

feed-append :
    (p : List ℕ) (xs ys : List ℕ) (k : ℕ)
    → (k == length p) ≡ false
    → found p (feed p k (xs ++ ys)) ≡ (
        if (feed p k xs).0 == length p
        then some ((feed p k xs).1 ++ ys)
        else found p (feed p (feed p k xs).0 ys))
unfolding feed
feed-append p [] ys k h = rw h refl
feed-append p (x ∷ xs) ys k h = elim (Bool-cases (matched p k x == length p)) [
  | inl full ↦ rw (full, full) refl
  | inr more ↦ rw more (feed-append p xs ys (matched p k x) more)
]

feed_nil : (p : List ℕ) (k : ℕ) → (k == length p) ≡ false → found p (feed p k []) ≡ none
unfolding feed
feed_nil p k h = rw h refl

feed-unmatched :
    (p xs : List ℕ) (k : ℕ) → ((feed p k xs).0 == length p) ≡ false → (feed p k xs).1 ≡ []
unfolding feed
feed-unmatched p [] k h = refl
feed-unmatched p (x ∷ xs) k h = elim (Bool-cases (matched p k x == length p)) [
  | inl full ↦ absurd (ground arith)
  | inr more ↦ rw more (feed-unmatched p xs (matched p k x) (ground (arith, h, more)))
]

module _ (rb : ℕ) where
  drain_match-feed :
      (p : List ℕ) (n k : ℕ) (r : Ring)
      → IsValid rb r
      → r.count ≡ n
      → ((drain_match rb p n k r).0 ≡ (feed p k (view rb r)).0)
        × (view rb (drain_match rb p n k r).1 ≡ (feed p k (view rb r)).1)
        × IsValid rb (drain_match rb p n k r).1
  unfolding drain_match feed
  drain_match-feed p zero k r v e =
      let nothing = view_empty rb r e in
      (ap (λ t. (feed p k t).0) (sym nothing), nothing ∙ ap (λ t. (feed p k t).1) (sym nothing), v)
  drain_match-feed p (suc n) k r v e =
      let opened = view-pop rb r n e in
      let rest =
        drain_match-feed p n (matched p k (pop rb r).0) (pop rb r).1 (pop-IsValid rb r v)
          (popped rb r n e) in
      elim (Bool-cases (matched p k (pop rb r).0 == length p)) [
        | inl full ↦ rw (opened, full) (refl, refl, pop-IsValid rb r v)
        | inr more ↦ rw (opened, more) rest
      ]

  pub drain_match-IsValid :
      (p : List ℕ) (k : ℕ) (r : Ring) → IsValid rb r → IsValid rb (drain_match rb p r.count k r).1
  drain_match-IsValid p k r v = (drain_match-feed p r.count k r v refl).2

  abbrev pub outcome : Bool × Ring × Polls → Option (List ℕ)
  outcome w = if w.0 then some (stream rb w.1 w.2) else none

  wait_loop-feed :
      (p : List ℕ) (ps : Polls) (k : ℕ) (r : Ring)
      → (k == length p) ≡ false
      → IsValid rb r
      → NoBurst rb ps
      → outcome (wait_loop rb p k r ps) ≡ found p (feed p k (stream rb r ps))
  unfolding wait_loop
  wait_loop-feed p [] k r h v n =
      let d = drain_match-feed p r.count k r v refl in
      let m = drain_match rb p r.count k r in
      let split = feed-append p (view rb r) [] k h in
      elim (Bool-cases (m.0 == length p)) [
        | inl full ↦
            let same : ((feed p k (view rb r)).0 == length p) ≡ true =
              subst (λ t. (t == length p) ≡ true) d.0 full in
            rw full (ap (λ t. some (t ++ [])) d.1 ∙ sym (split ∙ rw same refl))
        | inr short ↦
            let same : ((feed p k (view rb r)).0 == length p) ≡ false =
              subst (λ t. (t == length p) ≡ false) d.0 short in
            rw short (sym (split ∙ rw (same, feed_nil p (feed p k (view rb r)).0 same) refl))
      ]
  wait_loop-feed p (q ∷ ps) k r h v n =
      let d = drain_match-feed p r.count k r v refl in
      let m = drain_match rb p r.count k r in
      let split = feed-append p (view rb r) (arrivals (q ∷ ps)) k h in
      elim (Bool-cases (m.0 == length p)) [
        | inl full ↦
            let same : ((feed p k (view rb r)).0 == length p) ≡ true =
              subst (λ t. (t == length p) ≡ true) d.0 full in
            rw full (ap (λ t. some (t ++ arrivals (q ∷ ps))) d.1 ∙ sym (split ∙ rw same refl))
        | inr short ↦
            let same : ((feed p k (view rb r)).0 == length p) ≡ false =
              subst (λ t. (t == length p) ≡ false) d.0 short in
            let drained : view rb m.1 ≡ [] = d.1 ∙ feed-unmatched p (view rb r) k same in
            let next : stream rb (receive rb m.1 q) ps ≡ arrivals (q ∷ ps) =
              ap (λ t. t ++ arrivals ps) (view-receive_empty rb m.1 q d.2 drained n.0)
              ∙ sym (concat-append q (concat ps)) in
            let ih =
              wait_loop-feed p ps m.0 (receive rb m.1 q) short (receive-IsValid rb q m.1 d.2) n.1 in
            rw short
              (ih ∙ (ap₂ (λ i t. found p (feed p i t)) d.0 next ∙ sym (split ∙ rw same refl)))
      ]

  -- With no burst above the ring's size, and for a pattern whose first byte does not come again in
  -- it: `wait_for` answers true exactly when the pattern occurs in what waits in the ring and in what
  -- the polls bring, and the stream that it leaves begins behind the first occurrence.
  pub wait_for-stream :
      (c : ℕ) (cs : List ℕ) (r : Ring) (ps : Polls)
      → All (λ b. b ≢ c) cs
      → IsValid rb r
      → NoBurst rb ps
      → outcome (wait_for rb (c ∷ cs) r ps) ≡ after (c ∷ cs) (stream rb r ps)
  unfolding wait_for
  wait_for-stream c cs r ps once v n =
      wait_loop-feed (c ∷ cs) ps 0 r (ground arith) v n
      ∙ feed-after c cs once (stream rb r ps) 0 (omega arith)
