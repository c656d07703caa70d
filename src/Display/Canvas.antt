-- ===== src/Display/Canvas.antt =====
-- Drawing on a pico_graphics surface, as the list of the calls that are made. The coordinates are
-- those of the calls; text is clipped by pico_graphics, so it has no bound.
use pixel_multiverse_firmwar.Prelude.{
  ℕ, zero, suc, ◌+◌, ◌/◌, ◌%◌, ◌≤◌, ◌<◌, Bool, true, false, List, [], ◌∷◌, ◌++◌, ltb, if◌then◌else◌,
  All, append-All, arith,
}

pub record Colour : Type 0 where
  pub red : ℕ
  pub green : ℕ
  pub blue : ℕ

pub data Draw : Type 0 where
  set_pen : ℕ → ℕ → ℕ → Draw
  clear : Draw
  pixel : ℕ → ℕ → Draw
  rectangle : ℕ → ℕ → ℕ → ℕ → Draw
  set_font : List ℕ → Draw
  text : List ℕ → ℕ → ℕ → ℕ → Draw

-- for (int i = from; i < from + n; i++) body(i)
abbrev pub each : ℕ → ℕ → (ℕ → List Draw) → List Draw
each from zero body = []
each from (suc n) body = let rest = each (suc from) n body in body from ++ rest

-- std::to_string of a 32-bit number, which has at most ten digits.
abbrev pub decimal : ℕ → ℕ → List ℕ
decimal zero n = []
decimal (suc fuel) n =
    let rest = decimal fuel (n / 10) in
    let digit = 48 + n % 10 in if ltb n 10 then digit ∷ [] else rest ++ (digit ∷ [])

abbrev pub to_string : ℕ → List ℕ
to_string n = decimal 10 n

-- A call that stays inside a surface of this width and height.
unfoldable pub Inside : ℕ → ℕ → Draw → Type 0
Inside w h (set_pen r g b) = Unit
Inside w h clear = Unit
Inside w h (pixel x y) = (x < w) × (y < h)
Inside w h (rectangle x y rw rh) = (x + rw ≤ w) × (y + rh ≤ h)
Inside w h (set_font name) = Unit
Inside w h (text letters x y wrap) = Unit

each-All :
    (P : Draw → Type 0) (from n : ℕ) (body : ℕ → List Draw)
    → ((i : ℕ) → from ≤ i → i < from + n → All P (body i))
    → All P (each from n body)
each-All P from zero body h = tt
each-All P from (suc n) body h =
    append-All P (body from) (each (suc from) n body) (h from (omega arith) (omega arith))
      (each-All P (suc from) n body (λ i l u. h i (omega arith) (omega arith)))

-- From 0, as every loop here runs.
pub loop-All :
    (P : Draw → Type 0) (n : ℕ) (body : ℕ → List Draw)
    → ((i : ℕ) → i < n → All P (body i))
    → All P (each 0 n body)
loop-All P n body h = each-All P 0 n body (λ i l u. h i (omega arith))

pub if-All :
    (P : Draw → Type 0) (t : Bool) (xs ys : List Draw)
    → All P xs
    → All P ys
    → All P (if t then xs else ys)
if-All P true xs ys p q = p
if-All P false xs ys p q = q
