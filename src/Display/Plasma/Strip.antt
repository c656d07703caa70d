-- ===== src/Display/Plasma/Strip.antt =====
-- The strip's length, what is drawn on it, and what is sent to it.
use pixel_multiverse_firmwar.Prelude.{
  ℕ, zero, suc, ◌||◌, ◌+◌, ◌-◌, ◌*◌, ◌%◌, ◌≤◌, ◌<◌, ◌≡◌, refl, Option, some, List, [], ◌∷◌, ltb,
  leb, ◌==◌, if◌then◌else◌, get_or, length, ascii, All, append-All, arith, Bool-cases, Option-cases,
  inl, inr, ap,
}
use pixel_multiverse_firmwar.Display.Canvas.{Colour, set_pen, pixel, Inside, loop-All, if-All}
use pixel_multiverse_firmwar.Display.Selftest.Bounds.{render-Inside}
use pixel_multiverse_firmwar.Display.Plasma.{
  max_leds, parse_length, load_length, render_spectrum, decade_pen, render_decades,
  render_endpoints, selftest, set_leds,
}

parse_length-le :
    (cs : List ℕ) (parsed n : ℕ)
    → parsed ≤ max_leds
    → parse_length cs parsed ≡ some n
    → n ≤ max_leds
unfolding parse_length
parse_length-le [] parsed n h e = ground (arith, h, e)
parse_length-le (c ∷ cs) parsed n h e = elim (Bool-cases (ltb c 48 || ltb 57 c)) [
  | inl bad ↦ absurd (ground arith)
  | inr digit ↦ elim (Bool-cases (ltb max_leds (parsed * 10 + (c - 48)))) [
    | inl big ↦ absurd (ground arith)
    | inr small ↦ parse_length-le cs (parsed * 10 + (c - 48)) n (ground arith) (ground arith)
  ]
]

-- Whatever the k/v store holds, the strip has at least one LED and at most 1024.
pub load_length-range :
    (get : List ℕ → Option (List ℕ)) → (1 ≤ (load_length get).0) × ((load_length get).0 ≤ max_leds)
unfolding load_length
load_length-range get = elim (Option-cases (get (ascii "length"))) [
  | inl absent ↦ rw absent (omega arith, omega arith)
  | inr (v, set) ↦ elim (Option-cases (parse_length v 0)) [
    | inl bad ↦ (ground arith, ground arith)
    | inr (n, good) ↦
        let small = parse_length-le v 0 n (omega arith) good in (ground arith, ground arith)
  ]
]

decade_pen-Inside : (w h i : ℕ) → Inside w h (decade_pen i)
unfolding Inside
decade_pen-Inside w h i = elim (Bool-cases (i % 10 == 0)) [
  | inl tick ↦ rw tick tt
  | inr band ↦ rw band tt
]

module _ (hue : ℕ → ℕ → Colour) (luminance : Colour → ℕ) where
  -- On a strip of at least one LED, every pixel and every rectangle that a self-test draws lies on
  -- the strip, whatever the test id.
  pub selftest-Inside :
      (strip_len id : ℕ)
      → 0 < strip_len
      → All (Inside strip_len 1) (selftest hue luminance strip_len id)
  unfolding selftest render_spectrum render_decades render_endpoints Inside
  selftest-Inside n id lt =
      let P = Inside n 1 in
      let one : 0 < 1 = omega arith in
      let spectrum =
        loop-All P n (λ i. let c = hue i n in set_pen c.red c.green c.blue ∷ pixel i 0 ∷ [])
          (λ i u. (tt, ((u, one), tt))) in
      let decades =
        loop-All P n (λ i. decade_pen i ∷ pixel i 0 ∷ [])
          (λ i u. (decade_pen-Inside n 1 i, ((u, one), tt))) in
      let first : All P (if leb 1 n then set_pen 0 255 0 ∷ pixel 0 0 ∷ [] else []) =
        if-All P (leb 1 n) (set_pen 0 255 0 ∷ pixel 0 0 ∷ []) [] (tt, ((lt, one), tt)) tt in
      let last : All P (if leb 2 n then set_pen 255 0 0 ∷ pixel (n - 1) 0 ∷ [] else []) =
        if-All P (leb 2 n) (set_pen 255 0 0 ∷ pixel (n - 1) 0 ∷ []) []
          (tt, ((omega (arith, lt), one), tt)) tt in
      if-All P (id == 41) _ _ (tt, (tt, (tt, ((lt, one), tt))))
        (if-All P (id == 70) _ _ (tt, (tt, spectrum))
          (if-All P (id == 71) _ _ (tt, (tt, decades))
            (if-All P (id == 72) _ _ (tt, (tt, append-All P _ _ first last))
              (render-Inside n 1 hue luminance id lt one))))

-- A frame as a host sends it: B, G, R and 0 for each LED.
abbrev pub frame_of : List (ℕ × ℕ × ℕ) → List ℕ
frame_of [] = []
frame_of ((r, g, b) ∷ rest) = b ∷ g ∷ r ∷ 0 ∷ frame_of rest

get_or-drop4 :
    (a b c d : ℕ) (rest : List ℕ) (k : ℕ)
    → get_or (a ∷ b ∷ c ∷ d ∷ rest) (4 + k) 0 ≡ get_or rest k 0
get_or-drop4 a b c d rest k = let e : 4 + k ≡ suc (suc (suc (suc k))) = omega arith in rw e refl

set_leds-shift :
    (a b c d : ℕ) (rest : List ℕ) (i n : ℕ)
    → set_leds (a ∷ b ∷ c ∷ d ∷ rest) (suc i) n ≡ set_leds rest i n
unfolding set_leds
set_leds-shift a b c d rest i zero = refl
set_leds-shift a b c d rest i (suc n) =
    let red : suc i * 4 + 2 ≡ 4 + (i * 4 + 2) = omega arith in
    let green : suc i * 4 + 1 ≡ 4 + (i * 4 + 1) = omega arith in
    let blue : suc i * 4 + 0 ≡ 4 + (i * 4 + 0) = omega arith in
    rw (
      red,
      green,
      blue,
      get_or-drop4 a b c d rest (i * 4 + 2),
      get_or-drop4 a b c d rest (i * 4 + 1),
      get_or-drop4 a b c d rest (i * 4 + 0),
      set_leds-shift a b c d rest (suc i) n,
    )

-- The strip is given the colours that the host put in the frame, each at its LED.
pub set_leds-frame_of :
    (colours : List (ℕ × ℕ × ℕ)) → set_leds (frame_of colours) 0 (length colours) ≡ colours
unfolding set_leds
set_leds-frame_of [] = refl
set_leds-frame_of ((r, g, b) ∷ rest) =
    let tail : set_leds (frame_of ((r, g, b) ∷ rest)) 1 (length rest) ≡ rest =
      rw (set_leds-shift b g r 0 (frame_of rest) 0 (length rest), set_leds-frame_of rest) in
    ap (λ t. (r, g, b) ∷ t) tail
