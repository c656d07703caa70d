-- ===== src/Net/Udp/Queue.antt =====
-- The ring is a bounded queue.
use pixel_multiverse_firmwar.Prelude.{
  ℕ, zero, suc, ◌+◌, ◌-◌, ◌%◌, ◌≤◌, ◌<◌, ◌≡◌, ◌≢◌, refl, sym, ap, ap₂, ◌∙◌, List, [], ◌∷◌, ◌++◌,
  ◌==◌, ltb, if◌then◌else◌, length, get_or, set, take, arith, Bool-cases, inl, inr, length-append,
  length-set, get_or-set_self, get_or-set_ne, append-nil, append_assoc,
}
use native.Mathlib.Nat.{mod-eq_of_lt, mod-eq-sub-mod, mod-add-mod, mod-lt}
use pixel_multiverse_firmwar.Net.Udp.{Ring, push, pop, receive}

-- The bytes of a chain of segments.
abbrev pub concat {ℓ} : {A : Type ℓ} → List (List A) → List A
concat [] = []
concat (q ∷ qs) = q ++ concat qs

take_nil : (n : ℕ) → take {A = ℕ} n [] ≡ []
take_nil zero = refl
take_nil (suc n) = refl

take_short : (n : ℕ) (xs : List ℕ) → length xs ≤ n → take n xs ≡ xs
take_short zero [] h = refl
take_short zero (x ∷ xs) h = absurd (omega arith)
take_short (suc n) [] h = refl
take_short (suc n) (x ∷ xs) h = ap (λ t. x ∷ t) (take_short n xs (omega arith))

-- The `n` bytes from a place on, round the ring.
unfoldable pub window : ℕ → List ℕ → ℕ → ℕ → List ℕ
window rb buf h zero = []
window rb buf h (suc n) = get_or buf h 0 ∷ window rb buf ((h + 1) % rb) n

-- The bytes that wait in the ring, the oldest first.
abbrev pub view : ℕ → Ring → List ℕ
view rb r = window rb r.buf r.head r.count

pub record IsValid (rb : ℕ) (r : Ring) : Type 0 where
  pub size : length r.buf ≡ rb
  pub head_in : r.head < rb
  pub room : r.count ≤ rb

length-window : (rb : ℕ) (buf : List ℕ) (h n : ℕ) → length (window rb buf h n) ≡ n
unfolding window
length-window rb buf h zero = refl
length-window rb buf h (suc n) = ap suc (length-window rb buf ((h + 1) % rb) n)

pub length-view : (rb : ℕ) (r : Ring) → length (view rb r) ≡ r.count
length-view rb r = length-window rb r.buf r.head r.count

-- A place further round the ring is another place.
around_ne : (rb h k : ℕ) → h < rb → 0 < k → k < rb → (h + k) % rb ≢ h
around_ne rb h k hh hk lt = elim (Bool-cases (ltb (h + k) rb)) [
  | inl fits ↦
      λ e. let small : (h + k) % rb ≡ h + k = mod-eq_of_lt (ground arith) in omega (arith, small, e)
  | inr wraps ↦ λ e.
      let over : rb ≤ h + k = ground arith in
      let once : (h + k) % rb ≡ (h + k - rb) % rb = mod-eq-sub-mod over in
      let small : (h + k - rb) % rb ≡ h + k - rb = mod-eq_of_lt (omega arith) in
      omega (arith, once, small, e)
]

next_place : (rb h n : ℕ) → ((h + 1) % rb + n) % rb ≡ (h + suc n) % rb
next_place rb h n = mod-add-mod (h + 1) rb n ∙ ap (λ t. t % rb) (omega arith)

-- A byte written behind the window is its next byte.
window-set :
    (rb : ℕ) (buf : List ℕ) (h n d : ℕ)
    → length buf ≡ rb
    → h < rb
    → n < rb
    → window rb (set buf ((h + n) % rb) d) h (suc n) ≡ window rb buf h n ++ (d ∷ [])
unfolding window
window-set rb buf h zero d len hh lt =
    let here : (h + 0) % rb ≡ h = ap (λ t. t % rb) (omega arith) ∙ mod-eq_of_lt hh in
    rw (here, get_or-set_self buf h d 0 (omega (arith, len))) refl
window-set rb buf h (suc n) d len hh lt =
    let other = around_ne rb h (suc n) hh (omega arith) lt in
    let ih =
      window-set rb buf ((h + 1) % rb) n d len (mod-lt (h + 1) (omega arith)) (omega arith) in
    let keep : get_or (set buf ((h + suc n) % rb) d) h 0 ≡ get_or buf h 0 =
      get_or-set_ne buf ((h + suc n) % rb) h d 0 other in
    let tail : window rb (set buf ((h + suc n) % rb) d) ((h + 1) % rb) (suc n)
        ≡ window rb buf ((h + 1) % rb) n ++ (d ∷ []) =
      ap (λ t. window rb (set buf t d) ((h + 1) % rb) (suc n)) (sym (next_place rb h n)) ∙ ih in
    ap₂ (λ a t. a ∷ t) keep tail

module _ (rb : ℕ) where
  pub pop-IsValid : (r : Ring) → IsValid rb r → IsValid rb (pop rb r).1
  unfolding pop
  pop-IsValid r v = record {
    size = v.size;
    head_in = mod-lt (r.head + 1) (omega (arith, v.head_in));
    room = omega (arith, v.room);
  }

  -- A pop takes the oldest byte.
  pub view-pop :
      (r : Ring) (n : ℕ) → r.count ≡ suc n → view rb r ≡ (pop rb r).0 ∷ view rb (pop rb r).1
  unfolding pop window
  view-pop r n e = let less : suc n - 1 ≡ n = omega arith in rw (e, less) refl

  -- One round of the loop of `push`.
  stored : Ring → ℕ → Ring
  stored r d = record r { buf = set r.buf ((r.head + r.count) % rb) d; count = r.count + 1 }

  stored-IsValid : (r : Ring) (d : ℕ) → IsValid rb r → r.count < rb → IsValid rb (stored r d)
  unfolding stored
  stored-IsValid r d v lt = record {
    size = length-set r.buf ((r.head + r.count) % rb) d ∙ v.size;
    head_in = v.head_in;
    room = omega (arith, lt);
  }

  view-stored :
      (r : Ring) (d : ℕ)
      → IsValid rb r
      → r.count < rb
      → view rb (stored r d) ≡ view rb r ++ (d ∷ [])
  unfolding stored
  view-stored r d v lt =
      ap (λ t. window rb (set r.buf ((r.head + r.count) % rb) d) r.head t) (omega arith)
      ∙ window-set rb r.buf r.head r.count d v.size v.head_in lt

  push-cons :
      (r : Ring) (d : ℕ) (ds : List ℕ)
      → push rb r (d ∷ ds) ≡ (if r.count == rb then r else push rb (stored r d) ds)
  unfolding push stored
  push-cons r d ds = refl

  pub push-IsValid : (ds : List ℕ) (r : Ring) → IsValid rb r → IsValid rb (push rb r ds)
  unfolding push
  push-IsValid [] r v = v
  push-IsValid (d ∷ ds) r v = elim (Bool-cases (r.count == rb)) [
    | inl full ↦ rw (push-cons r d ds, full) v
    | inr room ↦
        rw (push-cons r d ds, room)
          (push-IsValid ds (stored r d) (stored-IsValid r d v (ground (arith, v.room))))
  ]

  -- The queue behind the ring holds at most `rb` bytes: a push adds what there is room for, in order,
  -- and drops the rest.
  pub view-push :
      (ds : List ℕ) (r : Ring)
      → IsValid rb r
      → view rb (push rb r ds) ≡ view rb r ++ take (rb - r.count) ds
  unfolding stored push
  view-push [] r v =
      let none_taken : take (rb - r.count) [] ≡ [] = take_nil (rb - r.count) in
      rw none_taken (sym (append-nil (view rb r)))
  view-push (d ∷ ds) r v = elim (Bool-cases (r.count == rb)) [
    | inl full ↦
        let no_room : rb - r.count ≡ 0 = ground arith in
        ap (view rb) (push-cons r d ds ∙ rw full refl)
        ∙ (sym (append-nil (view rb r)) ∙ ap (λ t. view rb r ++ take t (d ∷ ds)) (sym no_room))
    | inr room ↦
        let lt : r.count < rb = ground (arith, v.room) in
        let ih = view-push ds (stored r d) (stored-IsValid r d v lt) in
        let one_less : rb - r.count ≡ suc (rb - (r.count + 1)) = omega (arith, lt) in
        ap (view rb) (push-cons r d ds ∙ rw room refl)
        ∙ (ih
            ∙ (ap (λ t. t ++ take (rb - (r.count + 1)) ds) (view-stored r d v lt)
                ∙ (append_assoc (view rb r) (d ∷ []) (take (rb - (r.count + 1)) ds)
                    ∙ ap (λ t. view rb r ++ take t (d ∷ ds)) (sym one_less))))
  ]

  pub receive-IsValid :
      (qs : List (List ℕ)) (r : Ring) → IsValid rb r → IsValid rb (receive rb r qs)
  unfolding receive
  receive-IsValid [] r v = v
  receive-IsValid (q ∷ qs) r v = receive-IsValid qs (push rb r q) (push-IsValid q r v)

  -- Segments that there is room for are queued whole.
  pub view-receive :
      (qs : List (List ℕ)) (r : Ring)
      → IsValid rb r
      → r.count + length (concat qs) ≤ rb
      → view rb (receive rb r qs) ≡ view rb r ++ concat qs
  unfolding receive
  view-receive [] r v fits = sym (append-nil (view rb r))
  view-receive (q ∷ qs) r v fits =
      let both = length-append q (concat qs) in
      let pushed : view rb (push rb r q) ≡ view rb r ++ q =
        view-push q r v
        ∙ ap (λ t. view rb r ++ t) (take_short (rb - r.count) q (omega (arith, both))) in
      let count : (push rb r q).count ≡ r.count + length q =
        sym (length-view rb (push rb r q))
        ∙ (ap length pushed
            ∙ (length-append (view rb r) q ∙ ap (λ t. t + length q) (length-view rb r))) in
      view-receive qs (push rb r q) (push-IsValid q r v) (omega (arith, count, both))
      ∙ (ap (λ t. t ++ concat qs) pushed ∙ append_assoc (view rb r) q (concat qs))
