-- ===== src/Net/Multicast/Place.antt =====
-- The copy of a datagram's bytes into a buffer.
use pixel_multiverse_firmwar.Prelude.{
  ℕ, zero, suc, ◌+◌, ◌-◌, ◌≤◌, ◌<◌, ◌≡◌, refl, ap, ◌∙◌, List, [], ◌∷◌, ◌++◌, length, take, drop,
  get_or, arith, length-take, length-append, length-drop, get_or-take,
}
use pixel_multiverse_firmwar.Net.Multicast.Pieces.{get_or-drop}

get_or-append_left :
    (xs ys : List ℕ) (j : ℕ) → j < length xs → get_or (xs ++ ys) j 0 ≡ get_or xs j 0
get_or-append_left [] ys j lt = absurd (omega (arith, lt))
get_or-append_left (x ∷ xs) ys zero lt = refl
get_or-append_left (x ∷ xs) ys (suc j) lt = get_or-append_left xs ys j (omega (arith, lt))

get_or-append_right :
    (xs ys : List ℕ) (n j : ℕ) → length xs ≡ n → get_or (xs ++ ys) (n + j) 0 ≡ get_or ys j 0
get_or-append_right [] ys n j e = ap (λ t. get_or ys t 0) (omega (arith, e))
get_or-append_right (x ∷ xs) ys zero j e = absurd (omega (arith, e))
get_or-append_right (x ∷ xs) ys (suc n) j e =
    let next : suc n + j ≡ suc (n + j) = omega arith in
    ap (λ t. get_or (x ∷ (xs ++ ys)) t 0) next ∙ get_or-append_right xs ys n j (omega (arith, e))

-- What `place` writes, and that it leaves the rest.
unfoldable pub overwrite : List ℕ → ℕ → List ℕ → List ℕ
overwrite b off p = take off b ++ (p ++ drop (off + length p) b)

module _ (b : List ℕ) (off : ℕ) (p : List ℕ) (fits : off + length p ≤ length b) where
  front_length : length (take off b) ≡ off
  front_length = length-take off b (omega (arith, fits))

  pub overwrite_at : (j : ℕ) → j < length p → get_or (overwrite b off p) (off + j) 0 ≡ get_or p j 0
  unfolding overwrite
  overwrite_at j lt =
      get_or-append_right (take off b) (p ++ drop (off + length p) b) off j front_length
      ∙ get_or-append_left p (drop (off + length p) b) j lt

  pub overwrite_before : (i : ℕ) → i < off → get_or (overwrite b off p) i 0 ≡ get_or b i 0
  unfolding overwrite
  overwrite_before i lt =
      get_or-append_left (take off b) (p ++ drop (off + length p) b) i
        (omega (arith, lt, front_length))
      ∙ get_or-take off b i 0 lt

  pub overwrite_after : (i : ℕ) → off + length p ≤ i → get_or (overwrite b off p) i 0 ≡ get_or b i 0
  unfolding overwrite
  overwrite_after i le =
      let k = i - (off + length p) in
      let place_of : i ≡ off + (length p + k) = omega (arith, le) in
      let back_again : off + length p + k ≡ i = omega (arith, le) in
      ap (λ t. get_or (take off b ++ (p ++ drop (off + length p) b)) t 0) place_of
      ∙ (get_or-append_right (take off b) (p ++ drop (off + length p) b) off (length p + k)
            front_length
          ∙ (get_or-append_right p (drop (off + length p) b) (length p) k refl
              ∙ (get_or-drop (off + length p) k b ∙ ap (λ t. get_or b t 0) back_again)))

  pub length-overwrite : length (overwrite b off p) ≡ length b
  unfolding overwrite
  length-overwrite =
      let a = length-append (take off b) (p ++ drop (off + length p) b) in
      let c = length-append p (drop (off + length p) b) in
      let d = length-drop (off + length p) b in omega (arith, front_length, a, c, d, fits)
