-- ===== src/Usb/Cdc/Stream.antt =====
-- The transport as a stream of bytes: what is queued, and then what the polls bring.
use pixel_multiverse_firmwar.Prelude.{
  ℕ, zero, suc, ◌-◌, ◌≤◌, ◌<◌, ◌≡◌, ◌≢◌, ◌⊎◌, length-append, refl, sym, ap, ◌∙◌, Bool, true, false,
  none, some, List, [], ◌∷◌, ◌++◌, ◌==◌, if◌then◌else◌, length, take, drop, arith, Bool-cases, inl,
  inr, append_assoc, All, take-append-drop, length-take-le, due, put_off, append-nil,
}
use pixel_multiverse_firmwar.Net.Udp.Queue.{concat}
use pixel_multiverse_firmwar.Net.Udp.Matching.{starts_with}
use pixel_multiverse_firmwar.Usb.Cdc.{
  Source, first_byte, next_byte, wait_for, read, wait_rounds, min_of, max_uart_packet, Port, joined,
}

abbrev pub stream : Source → List ℕ
stream s = s.0 ++ concat s.1

-- `wait_for` on the stream: the bytes up to the first that differs are gone.
abbrev pub expect : List ℕ → List ℕ → Bool × List ℕ
expect [] s = (true, s)
expect (c ∷ cs) [] = (false, [])
expect (c ∷ cs) (x ∷ s) = let rest = expect cs s in if x == c then rest else (false, s)

-- The next byte of the stream, whatever poll brings it.
next_cases :
    (queue : List ℕ) (ps : List (List ℕ))
    → ((queue ++ concat ps ≡ [])
        × ((next_byte queue ps).0 ≡ none)
        × (stream (next_byte queue ps).1 ≡ []))
      ⊎ ((x : ℕ) × ((next_byte queue ps).0 ≡ some x)
          × (queue ++ concat ps ≡ x ∷ stream (next_byte queue ps).1))
unfolding next_byte first_byte
next_cases [] [] = inl (refl, refl, refl)
next_cases (x ∷ queue) [] = inr (x, refl, refl)
next_cases [] ([] ∷ ps) = next_cases [] ps
next_cases [] ((x ∷ p) ∷ ps) = inr (x, refl, refl)
next_cases (x ∷ queue) (p ∷ ps) =
    inr (x, refl, ap (λ t. x ∷ t) (sym (append_assoc queue p (concat ps))))

wait_for-expect :
    (p : List ℕ) (s : Source)
    → ((wait_for p s).0 ≡ (expect p (stream s)).0)
      × (stream (wait_for p s).1 ≡ (expect p (stream s)).1)
unfolding wait_for
wait_for-expect [] s = (refl, refl)
wait_for-expect (c ∷ cs) s = elim (next_cases s.0 s.1) [
  | inl (nothing, timed_out, left) ↦ rw (timed_out, nothing) (refl, left)
  | inr (x, got, opened) ↦ elim (Bool-cases (x == c)) [
    | inl same ↦ rw (got, opened, same) (wait_for-expect cs (next_byte s.0 s.1).1)
    | inr other ↦ rw (got, opened, other) (refl, refl)
  ]
]

expect-starts_with : (p s : List ℕ) → ((expect p s).0 ≡ starts_with p s)
expect-starts_with [] s = refl
expect-starts_with (c ∷ cs) [] = refl
expect-starts_with (c ∷ cs) (x ∷ s) = ground (arith, expect-starts_with cs s)

expect-append : (p s : List ℕ) → expect p (p ++ s) ≡ (true, s)
expect-append [] s = refl
expect-append (c ∷ cs) s = ground (arith, expect-append cs s)

-- `read` gives the beginning of the stream and leaves the rest, and never gives more than `len` bytes.
pub read-stream :
    (len : ℕ) (queue : List ℕ) (ps : List (List ℕ))
    → ((read len queue ps).0 ++ stream (read len queue ps).1 ≡ queue ++ concat ps)
      × (length (read len queue ps).0 ≤ len)
unfolding read
read-stream len queue [] = (refl, omega arith)
read-stream len queue (p ∷ ps) =
    let n = min_of len max_uart_packet in
    let got = take n (queue ++ p) in
    let ih = read-stream (len - length got) (drop n (queue ++ p)) ps in
    let bound : length got ≤ len = ground (arith, length-take-le n (queue ++ p)) in
    elim (Bool-cases (len == 0)) [
      | inl done ↦ rw done (refl, omega arith)
      | inr more ↦ rw more (
        append_assoc got (read (len - length got) (drop n (queue ++ p)) ps).0
              (stream (read (len - length got) (drop n (queue ++ p)) ps).1)
            ∙ (ap (λ t. got ++ t) ih.0
                ∙ (sym (append_assoc got (drop n (queue ++ p)) (concat ps))
                    ∙ (ap (λ t. t ++ concat ps) (take-append-drop n (queue ++ p))
                        ∙ append_assoc queue p (concat ps)))),
        omega (
          arith,
          length-append got (read (len - length got) (drop n (queue ++ p)) ps).0,
          ih.1,
          bound,
        ),
      )
    ]

-- A byte in the queue is the next one, whatever the polls bring.
next_byte-queue :
    (x : ℕ) (queue : List ℕ) (ps : List (List ℕ))
    → (more : List ℕ) × (left : List (List ℕ)) × (next_byte (x ∷ queue) ps
        ≡ (some x, (queue ++ more, left)))
unfolding next_byte first_byte
next_byte-queue x queue [] = ([], [], ap (λ q. (some x, (q, []))) (sym (append-nil queue)))
next_byte-queue x queue (p ∷ ps) = (p, ps, refl)

wait_for-other :
    (x c : ℕ) (cs queue : List ℕ) (ps : List (List ℕ))
    → x ≢ c
    → (more : List ℕ) × (left : List (List ℕ)) × (wait_for (c ∷ cs) (x ∷ queue, ps)
        ≡ (false, (queue ++ more, left)))
unfolding wait_for
wait_for-other x c cs queue ps other =
    let n = next_byte-queue x queue ps in
    let differs : (x == c) ≡ false = ground (arith, other) in (n.0, n.1, rw (n.2, differs) refl)

wait_for-queue :
    (cs rest : List ℕ) (ps : List (List ℕ))
    → (more : List ℕ) × (left : List (List ℕ)) × (wait_for cs (cs ++ rest, ps)
        ≡ (true, (rest ++ more, left)))
unfolding wait_for
wait_for-queue [] rest ps = ([], ps, ap (λ q. (true, (q, ps))) (sym (append-nil rest)))
wait_for-queue (c ∷ cs) rest ps =
    let n = next_byte-queue c (cs ++ rest) ps in
    let itself : (c == c) ≡ true = ground arith in
    let ih = wait_for-queue cs (rest ++ n.0) n.1 in
    (
      n.0 ++ ih.0,
      ih.1,
      rw (n.2, itself)
          (ap (λ q. wait_for cs (q, n.1)) (append_assoc cs rest n.0)
            ∙ (ih.2 ∙ ap (λ q. (true, (q, ih.1))) (append_assoc rest n.0 ih.0))),
    )

-- With bytes in the queue of which none is the pattern's first, the pattern and more bytes behind
-- them: whatever each round's poll and wait bring and wherever the deadlines lie, the wait after as
-- many rounds as there are bytes before the pattern finds it, and leaves what was queued behind it in
-- front of what came since.
pub wait_rounds-resync :
    (c : ℕ) (cs noise rest : List ℕ) (s : Port)
    → All (λ b. b ≢ c) noise
    → s.0 ≡ noise ++ ((c ∷ cs) ++ rest)
    → ((wait_rounds (suc (length noise)) (c ∷ cs) s).0 ≡ true)
      × (more : List ℕ) × ((wait_rounds (suc (length noise)) (c ∷ cs) s).1.0 ≡ rest ++ more)
unfolding wait_rounds
wait_rounds-resync c cs [] rest s h e =
    let came = joined (due s.1) in
    let later = due (put_off [] s.1) in
    let queue : s.0 ++ came ≡ (c ∷ cs) ++ (rest ++ came) =
      ap (λ q. q ++ came) e ∙ append_assoc (c ∷ cs) rest came in
    let w = wait_for-queue (c ∷ cs) (rest ++ came) later in
    let heard = ap (λ q. wait_for (c ∷ cs) (q, later)) queue ∙ w.2 in
    rw heard (refl, came ++ w.0, append_assoc rest came w.0)
wait_rounds-resync c cs (b ∷ noise) rest s h e =
    let came = joined (due s.1) in
    let later = due (put_off [] s.1) in
    let tail = noise ++ ((c ∷ cs) ++ rest) in
    let queue : s.0 ++ came ≡ b ∷ (tail ++ came) = ap (λ q. q ++ came) e in
    let w = wait_for-other b c cs (tail ++ came) later h.0 in
    let missed = ap (λ q. wait_for (c ∷ cs) (q, later)) queue ∙ w.2 in
    let left : (tail ++ came) ++ w.0 ≡ noise ++ ((c ∷ cs) ++ (rest ++ (came ++ w.0))) =
      append_assoc tail came w.0
      ∙ (append_assoc noise ((c ∷ cs) ++ rest) (came ++ w.0)
          ∙ ap (λ q. noise ++ q) (append_assoc (c ∷ cs) rest (came ++ w.0))) in
    let s' : Port = ((tail ++ came) ++ w.0, put_off w.1 (put_off [] s.1)) in
    let ih = wait_rounds-resync c cs noise (rest ++ (came ++ w.0)) s' h.1 left in
    rw missed (ih.0, (came ++ w.0) ++ ih.1, ih.2 ∙ append_assoc rest (came ++ w.0) ih.1)

expect-cut :
    (c : ℕ) (cs t : List ℕ) (k : ℕ)
    → All (λ b. b ≢ c) cs
    → k < length cs
    → expect cs (take k cs ++ (c ∷ t)) ≡ (false, t)
expect-cut c [] t k h lt = absurd (omega arith)
expect-cut c (y ∷ cs) t zero h lt = ground (arith, h.0)
expect-cut c (y ∷ cs) t (suc k) h lt = ground (arith, expect-cut c cs t k h.1 (omega arith))

-- A part of the pattern before the whole of it, cut off after its first byte or later, and the
-- pattern's first byte not again in it: the wait fails with the first byte of the whole one gone, so
-- the next wait begins in the middle of it and fails as well.
pub wait_for-cut :
    (c : ℕ) (cs rest : List ℕ) (k : ℕ) (s : Source)
    → All (λ b. b ≢ c) cs
    → k < length cs
    → stream s ≡ take (suc k) (c ∷ cs) ++ ((c ∷ cs) ++ rest)
    → ((wait_for (c ∷ cs) s).0 ≡ false)
      × (stream (wait_for (c ∷ cs) s).1 ≡ cs ++ rest)
      × ((wait_for (c ∷ cs) (wait_for (c ∷ cs) s).1).0 ≡ false)
wait_for-cut c [] rest k s once lt e = absurd (omega arith)
wait_for-cut c (y ∷ cs) rest k s once lt e =
    let w = wait_for-expect (c ∷ y ∷ cs) s in
    let itself : (c == c) ≡ true = ground arith in
    let miss : expect (c ∷ y ∷ cs) (stream s) ≡ (false, (y ∷ cs) ++ rest) =
      ap (expect (c ∷ y ∷ cs)) e ∙ rw itself (expect-cut c (y ∷ cs) ((y ∷ cs) ++ rest) k once lt) in
    let s' = (wait_for (c ∷ y ∷ cs) s).1 in
    let left : stream s' ≡ (y ∷ cs) ++ rest = w.1 ∙ ap (λ t. t.1) miss in
    let other : (y == c) ≡ false = ground (arith, once.0) in
    let again : expect (c ∷ y ∷ cs) (stream s') ≡ (false, cs ++ rest) =
      ap (expect (c ∷ y ∷ cs)) left ∙ rw other refl in
    (w.0 ∙ ap (λ t. t.0) miss, left, (wait_for-expect (c ∷ y ∷ cs) s').0 ∙ ap (λ t. t.0) again)
