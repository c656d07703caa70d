-- ===== src/Net/Udp/Stream.antt =====
-- The transport as a stream of bytes, where no poll brings more than an empty ring takes: what waits in
-- the ring, and then what the polls bring.
use pixel_multiverse_firmwar.Prelude.{
  ℕ, zero, suc, ◌-◌, ◌≤◌, ◌≡◌, ◌≢◌, refl, ==_iff, sym, ap, ap₂, ◌∙◌, false, List, [], ◌∷◌, ◌++◌,
  ◌==◌, length, take, drop, arith, Bool-cases, inl, inr, append-nil, append_assoc, All, take_long,
  take_past, take_whole, empty_of_length,
}
use pixel_multiverse_firmwar.Net.Udp.{Ring, Polls, pop, drain, read, receive}
use pixel_multiverse_firmwar.Net.Udp.Queue.{
  IsValid, view, concat, length-view, view-pop, pop-IsValid, view-receive, receive-IsValid,
}

abbrev pub arrivals : Polls → List ℕ
arrivals ps = concat (concat ps)

abbrev pub stream : ℕ → Ring → Polls → List ℕ
stream rb r ps = view rb r ++ arrivals ps

-- No poll brings more than an empty ring takes.
abbrev pub NoBurst : ℕ → Polls → Type 0
NoBurst rb = All (λ p. length (concat p) ≤ rb)

module _ {ℓ} {A : Type ℓ} where
  pub concat-append : (xs ys : List (List A)) → concat (xs ++ ys) ≡ concat xs ++ concat ys
  concat-append [] ys = refl
  concat-append (x ∷ xs) ys =
      ap (λ t. x ++ t) (concat-append xs ys) ∙ sym (append_assoc x (concat xs) (concat ys))

cut_ne : (a b : ℕ) → (a == b) ≡ false → a ≢ b
cut_ne a b h e = ground arith

take_full : (n : ℕ) (xs : List ℕ) → length (take n xs) ≡ n → n ≤ length xs
take_full zero xs h = omega arith
take_full (suc n) [] h = omega (arith, h)
take_full (suc n) (x ∷ xs) h = omega (arith, take_full n xs (omega (arith, h)))

take_cut : (n : ℕ) (xs : List ℕ) → length (take n xs) ≢ n → length xs ≤ n
take_cut zero [] h = omega arith
take_cut zero (x ∷ xs) h = absurd (h refl)
take_cut (suc n) [] h = omega arith
take_cut (suc n) (x ∷ xs) h = omega (arith, take_cut n xs (λ e. h (ap suc e)))

module _ (rb : ℕ) where
  pub view_empty : (r : Ring) → r.count ≡ 0 → view rb r ≡ []
  view_empty r e = empty_of_length (view rb r) (length-view rb r ∙ e)

  pub popped : (r : Ring) (n : ℕ) → r.count ≡ suc n → (pop rb r).1.count ≡ n
  unfolding pop
  popped r n e = omega (arith, e)

  drained_empty :
      (want : ℕ) (r : Ring)
      → view rb r ≡ []
      → IsValid rb r
      → ([] ≡ take want (view rb r)) × (view rb r ≡ drop want (view rb r)) × IsValid rb r
  drained_empty want r e v =
      let nothing = take_whole want (view rb r) (omega (arith, ap length e)) in
      (sym (nothing.0 ∙ e), e ∙ sym nothing.1, v)

  pub drain-view :
      (want n : ℕ) (r : Ring)
      → IsValid rb r
      → r.count ≡ n
      → ((drain rb want n r).0 ≡ take want (view rb r))
        × (view rb (drain rb want n r).1 ≡ drop want (view rb r))
        × IsValid rb (drain rb want n r).1
  unfolding drain
  drain-view zero n r v e = (refl, refl, v)
  drain-view (suc want) zero r v e = drained_empty (suc want) r (view_empty r e) v
  drain-view (suc want) (suc n) r v e =
      let rest = drain-view want n (pop rb r).1 (pop-IsValid rb r v) (popped r n e) in
      let opened = view-pop rb r n e in
      rw opened (ap (λ t. (pop rb r).0 ∷ t) rest.0, rest.1, rest.2)

  -- Any burst fits where the ring is drained.
  pub view-receive_empty :
      (r : Ring) (p : List (List ℕ))
      → IsValid rb r
      → view rb r ≡ []
      → length (concat p) ≤ rb
      → view rb (receive rb r p) ≡ concat p
  view-receive_empty r p v none_left fits =
      let zero_count : r.count ≡ 0 = sym (length-view rb r) ∙ ap length none_left in
      view-receive rb p r v (omega (arith, zero_count, fits)) ∙ ap (λ t. t ++ concat p) none_left

  -- With no burst above the ring's size: `read` gives the next `len` bytes of the stream, or all that
  -- come before the deadline, and leaves the rest of the stream for the next call.
  pub read-stream :
      (len : ℕ) (r : Ring) (ps : Polls)
      → IsValid rb r
      → NoBurst rb ps
      → ((read rb len r ps).0 ≡ take len (stream rb r ps))
        × (stream rb (read rb len r ps).1 (read rb len r ps).2 ≡ drop len (stream rb r ps))
        × IsValid rb (read rb len r ps).1
  unfolding read
  read-stream len r [] v n =
      let m = drain-view len r.count r v refl in
      let whole = append-nil (view rb r) in
      (
        m.0 ∙ ap (take len) (sym whole),
        append-nil (view rb (drain rb len r.count r).1) ∙ (m.1 ∙ ap (drop len) (sym whole)),
        m.2,
      )
  read-stream len r (p ∷ ps) v n =
      let m = drain-view len r.count r v refl in
      let got = (drain rb len r.count r).0 in
      let r' = (drain rb len r.count r).1 in
      elim (Bool-cases (length got == len)) [
        | inl full ↦
            let enough : len ≤ length (view rb r) =
              take_full len (view rb r) (sym (ap length m.0) ∙ (==_iff (length got) len).0 full) in
            let parts = take_long len (view rb r) (arrivals (p ∷ ps)) enough in
            rw full (m.0 ∙ sym parts.0, ap (λ t. t ++ arrivals (p ∷ ps)) m.1 ∙ sym parts.1, m.2)
        | inr short ↦
            let all : length (view rb r) ≤ len =
              take_cut len (view rb r) (λ e. cut_ne (length got) len short (ap length m.0 ∙ e)) in
            let whole = take_whole len (view rb r) all in
            let got_all : got ≡ view rb r = m.0 ∙ whole.0 in
            let r2 = receive rb r' p in
            let refilled : view rb r2 ≡ concat p =
              view-receive_empty r' p m.2 (m.1 ∙ whole.1) n.0 in
            let next : stream rb r2 ps ≡ arrivals (p ∷ ps) =
              ap (λ t. t ++ arrivals ps) refilled ∙ sym (concat-append p (concat ps)) in
            let ih = read-stream (len - length got) r2 ps (receive-IsValid rb p r' m.2) n.1 in
            let parts = take_past len (view rb r) (arrivals (p ∷ ps)) all in
            rw short (
              ap₂ (λ a t. a ++ t) got_all (ih.0 ∙ ap₂ (λ k t. take (len - length k) t) got_all next)
                  ∙ sym parts.0,
              ih.1 ∙ (ap₂ (λ k t. drop (len - length k) t) got_all next ∙ sym parts.1),
              ih.2,
            )
      ]
