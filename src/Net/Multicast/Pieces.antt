-- ===== src/Net/Multicast/Pieces.antt =====
-- A frame cut into pieces, each with its offset, and which of them have come.
use pixel_multiverse_firmwar.Prelude.{
  ℕ, zero, suc, ◌+◌, ◌≤◌, ◌<◌, ◌≡◌, ◌≢◌, ◌⊎◌, refl, sym, ap, ap₂, ◌∙◌, subst, Bool, true, false,
  List, [], ◌∷◌, ◌++◌, if◌then◌else◌, length, take, drop, get_or, All, arith, inl, inr,
  length-append, length-drop, take-append-drop, empty_of_length,
}
use pixel_multiverse_firmwar.Net.Udp.Queue.{concat}

-- A piece of the frame: its offset and its bytes. `base` is the offset of the first.
abbrev pub At : ℕ → List (List ℕ) → ℕ → List ℕ → Type 0
At base [] off p = ⊥
At base (q ∷ qs) off p = ((off ≡ base) × (p ≡ q)) ⊎ At (base + length q) qs off p

abbrev pub NonEmpty : List ℕ → Type 0
NonEmpty p = 1 ≤ length p

-- Every piece's offset is one of those that `g` has.
abbrev pub Covered : (ℕ → Bool) → ℕ → List (List ℕ) → Type 0
Covered g base [] = Unit
Covered g base (q ∷ qs) = (g base ≡ true) × Covered g (base + length q) qs

-- The weight of the pieces that `g` has.
abbrev pub weigh : (List ℕ → ℕ) → (ℕ → Bool) → ℕ → List (List ℕ) → ℕ
weigh w g base [] = 0
weigh w g base (q ∷ qs) = (if g base then w q else 0) + weigh w g (base + length q) qs

abbrev pub total : (List ℕ → ℕ) → List (List ℕ) → ℕ
total w [] = 0
total w (q ∷ qs) = w q + total w qs

pub Covered-mono :
    (g h : ℕ → Bool) (base : ℕ) (qs : List (List ℕ))
    → ((o : ℕ) → g o ≡ true → h o ≡ true)
    → Covered g base qs
    → Covered h base qs
Covered-mono g h base [] i c = tt
Covered-mono g h base (q ∷ qs) i c = (i base c.0, Covered-mono g h (base + length q) qs i c.1)

pub At-Covered :
    (g : ℕ → Bool) (base : ℕ) (qs : List (List ℕ)) (off : ℕ) (p : List ℕ)
    → Covered g base qs
    → At base qs off p
    → g off ≡ true
At-Covered g base [] off p c a = absurd a
At-Covered g base (q ∷ qs) off p c (inl (o, e)) = ap g o ∙ c.0
At-Covered g base (q ∷ qs) off p c (inr a) = At-Covered g (base + length q) qs off p c.1 a

pub At-range :
    (base : ℕ) (qs : List (List ℕ)) (off : ℕ) (p : List ℕ)
    → At base qs off p
    → (base ≤ off) × (off + length p ≤ base + length (concat qs))
At-range base [] off p a = absurd a
At-range base (q ∷ qs) off p a = elim a [
  | inl (o, e) ↦ (omega (arith, o), omega (arith, o, ap length e, length-append q (concat qs)))
  | inr later ↦
      let r = At-range (base + length q) qs off p later in
      (omega (arith, r.0), omega (arith, r.1, length-append q (concat qs)))
]

-- Two pieces are one, or lie apart.
pub At-apart :
    (base : ℕ) (qs : List (List ℕ)) (off off' : ℕ) (p p' : List ℕ)
    → All NonEmpty qs
    → At base qs off p
    → At base qs off' p'
    → ((off ≡ off') × (p ≡ p'))
      ⊎ (((off + length p ≤ off') ⊎ (off' + length p' ≤ off)) × (off ≢ off'))
At-apart base [] off off' p p' n a b = absurd a
At-apart base (q ∷ qs) off off' p p' n (inl (o, e)) (inl (o', e')) = inl (o ∙ sym o', e ∙ sym e')
At-apart base (q ∷ qs) off off' p p' n (inl (o, e)) (inr b) =
    let r = At-range (base + length q) qs off' p' b in
    inr (inl (omega (arith, o, ap length e, r.0)), λ s. omega (arith, n.0, o, s, r.0))
At-apart base (q ∷ qs) off off' p p' n (inr a) (inl (o', e')) =
    let r = At-range (base + length q) qs off p a in
    inr (inr (omega (arith, o', ap length e', r.0)), λ s. omega (arith, n.0, o', s, r.0))
At-apart base (q ∷ qs) off off' p p' n (inr a) (inr b) =
    At-apart (base + length q) qs off off' p p' n.1 a b

pub weigh-le :
    (w : List ℕ → ℕ) (g : ℕ → Bool) (base : ℕ) (qs : List (List ℕ)) → weigh w g base qs ≤ total w qs
weigh-le w g base [] = omega arith
weigh-le w g base (q ∷ qs) = ground (arith, weigh-le w g (base + length q) qs)

-- All pieces together weigh the total, and no others do.
pub weigh-Covered :
    (w : List ℕ → ℕ) (g : ℕ → Bool) (base : ℕ) (qs : List (List ℕ))
    → Covered g base qs
    → weigh w g base qs ≡ total w qs
weigh-Covered w g base [] c = refl
weigh-Covered w g base (q ∷ qs) c = rw (c.0, weigh-Covered w g (base + length q) qs c.1) refl

pub weigh-whole :
    (g : ℕ → Bool) (base : ℕ) (qs : List (List ℕ))
    → All NonEmpty qs
    → weigh length g base qs ≡ total length qs
    → Covered g base qs
weigh-whole g base [] n e = tt
weigh-whole g base (q ∷ qs) n e =
    let le = weigh-le length g (base + length q) qs in
    (
      ground (arith, n.0, le, e),
      weigh-whole g (base + length q) qs n.1 (ground (arith, n.0, le, e)),
    )

module _ (w : List ℕ → ℕ) (g h : ℕ → Bool) (off : ℕ) (p : List ℕ)
    (others : (o : ℕ) → o ≢ off → h o ≡ g o) where
  weigh-before :
      (base : ℕ) (qs : List (List ℕ)) → off < base → weigh w h base qs ≡ weigh w g base qs
  weigh-before base [] lt = refl
  weigh-before base (q ∷ qs) lt =
      rw
        (
          others base (λ e. omega (arith, e, lt)),
          weigh-before (base + length q) qs (omega (arith, lt)),
        )
        refl

  -- A piece that comes adds its weight.
  pub weigh-more :
      (base : ℕ) (qs : List (List ℕ))
      → All NonEmpty qs
      → At base qs off p
      → g off ≡ false
      → h off ≡ true
      → weigh w h base qs ≡ weigh w g base qs + w p
  weigh-more base [] n a old new = absurd a
  weigh-more base (q ∷ qs) n (inl (o, e)) old new =
      let same = weigh-before (base + length q) qs (omega (arith, o, n.0)) in
      let was : g base ≡ false = subst (λ t. g t ≡ false) o old in
      let is : h base ≡ true = subst (λ t. h t ≡ true) o new in rw (was, is, same, e) (omega arith)
  weigh-more base (q ∷ qs) n (inr a) old new =
      let r = At-range (base + length q) qs off p a in
      let ih = weigh-more (base + length q) qs n.1 a old new in
      let same = others base (λ e. omega (arith, e, n.0, r.0)) in rw (same, ih) (omega arith)

-- A list that has the pieces' bytes where they belong is the frame.
pub take_of_bytes :
    (b p : List ℕ)
    → length p ≤ length b
    → ((j : ℕ) → j < length p → get_or b j 0 ≡ get_or p j 0)
    → take (length p) b ≡ p
take_of_bytes b [] le h = refl
take_of_bytes [] (x ∷ p) le h = absurd (omega (arith, le))
take_of_bytes (y ∷ b) (x ∷ p) le h =
    ap₂ (λ a t. a ∷ t) (h 0 (omega arith))
      (take_of_bytes b p (omega (arith, le)) (λ j lt. h (suc j) (omega (arith, lt))))

pub get_or-drop : (n j : ℕ) (b : List ℕ) → get_or (drop n b) j 0 ≡ get_or b (n + j) 0
get_or-drop zero j b = ap (λ t. get_or b t 0) (omega arith)
get_or-drop (suc n) j [] = refl
get_or-drop (suc n) j (x ∷ b) =
    let next : suc (n + j) ≡ suc n + j = omega arith in
    get_or-drop n j b ∙ ap (λ t. get_or (x ∷ b) t 0) next

drop_nil : (n : ℕ) → drop {A = ℕ} n [] ≡ []
drop_nil zero = refl
drop_nil (suc n) = refl

drop-drop : (n m : ℕ) (b : List ℕ) → drop m (drop n b) ≡ drop (n + m) b
drop-drop zero m b = ap (λ t. drop t b) (omega arith)
drop-drop (suc n) m [] = drop_nil m ∙ sym (drop_nil (suc n + m))
drop-drop (suc n) m (x ∷ b) =
    let next : suc (n + m) ≡ suc n + m = omega arith in
    drop-drop n m b ∙ ap (λ t. drop t (x ∷ b)) next

pub drop-concat :
    (b : List ℕ) (base : ℕ) (qs : List (List ℕ))
    → length b ≡ base + length (concat qs)
    → ((off : ℕ) (p : List ℕ) (j : ℕ)
        → At base qs off p
        → j < length p
        → get_or b (off + j) 0 ≡ get_or p j 0)
    → drop base b ≡ concat qs
drop-concat b base [] e h = empty_of_length (drop base b) (length-drop base b ∙ omega (arith, e))
drop-concat b base (q ∷ qs) e h =
    let len = length-append q (concat qs) in
    let d = drop base b in
    let front : take (length q) d ≡ q =
      take_of_bytes d q (omega (arith, length-drop base b, e, len))
        (λ j lt. get_or-drop base j b ∙ h base q j (inl (refl, refl)) lt) in
    let rest =
      drop-concat b (base + length q) qs (omega (arith, e, len))
        (λ off p j a lt. h off p j (inr a) lt) in
    sym (take-append-drop (length q) d)
    ∙ ap₂ (λ x y. x ++ y) front (drop-drop base (length q) b ∙ rest)
