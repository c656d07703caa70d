-- ===== src/Display/I75/Layout/Bijection.antt =====
-- The display's pixels and the chain's: no two of them share a place.
use pixel_multiverse_firmwar.Prelude.{
  ℕ, suc, ◌+◌, ◌*◌, ◌/◌, ◌%◌, ◌≤◌, ◌<◌, ◌≡◌, ◌∙◌, sym, ap, subst, arith, Bool-cases, inl, inr, ltb,
}
use native.Mathlib.Nat.{
  mul_assoc, mul-le-mul_right, mul_comm, div-lt_iff_lt-mul, mod-lt, div-add-mod',
}
use pixel_multiverse_firmwar.Display.I75.Geometry.{
  ChainOrder, raster_td, serpentine_td, raster_bu, serpentine_bu, Geometry,
}
use pixel_multiverse_firmwar.Display.I75.Geometry.Renderable.{IsRenderable}
use pixel_multiverse_firmwar.Display.I75.Layout.{chain_row, col_in_row, chain_seq, map_to_chain}

-- A number `a * n + b` with `b < n`, below `m * n` where `a < m`.
pub place_lt : (n a b m : ℕ) → a < m → b < n → a * n + b < m * n
place_lt n a b m ha hb = let next : suc a * n ≤ m * n = mul-le-mul_right n ha in omega (arith, next)

place_le : (n a b a' b' : ℕ) → b < n → a * n + b ≡ a' * n + b' → b' < n → a' ≤ a
place_le n a b a' b' hb e hb' = elim (Bool-cases (ltb a a')) [
  | inl less ↦
      let next : suc a * n ≤ a' * n = mul-le-mul_right n (ground arith) in
      absurd (omega (arith, next))
  | inr more ↦ ground arith
]

place_inj : (n a b a' b' : ℕ) → b < n → b' < n → a * n + b ≡ a' * n + b' → (a ≡ a') × (b ≡ b')
place_inj n a b a' b' hb hb' e =
    let le = place_le n a b a' b' hb e hb' in
    let ge = place_le n a' b' a b hb' (sym e) hb in
    let same : a ≡ a' = omega (arith, le, ge) in
    (same, (let at : a * n ≡ a' * n = ap (λ t. t * n) same in omega (arith, at, e)))

chain_row-lt : (prow rows : ℕ) (order : ChainOrder) → prow < rows → chain_row prow rows order < rows
chain_row-lt prow rows raster_td lt = lt
chain_row-lt prow rows serpentine_td lt = lt
chain_row-lt prow rows raster_bu lt = omega arith
chain_row-lt prow rows serpentine_bu lt = omega arith

col_in_row-lt :
    (pcol cols row : ℕ) (order : ChainOrder) → pcol < cols → col_in_row pcol cols row order < cols
col_in_row-lt pcol cols row order lt = ground arith

chain_row_inj :
    (p q rows : ℕ) (order : ChainOrder)
    → p < rows
    → q < rows
    → chain_row p rows order ≡ chain_row q rows order
    → p ≡ q
chain_row_inj p q rows raster_td hp hq e = e
chain_row_inj p q rows serpentine_td hp hq e = e
chain_row_inj p q rows raster_bu hp hq e = omega (arith, e)
chain_row_inj p q rows serpentine_bu hp hq e = omega (arith, e)

col_in_row_inj :
    (p q cols row : ℕ) (order : ChainOrder)
    → p < cols
    → q < cols
    → col_in_row p cols row order ≡ col_in_row q cols row order
    → p ≡ q
col_in_row_inj p q cols row order hp hq e = ground (arith, e)

-- Every panel of the grid has a place in the chain, below the number of panels.
pub chain_seq-lt :
    (pcol prow cols rows : ℕ) (order : ChainOrder)
    → pcol < cols
    → prow < rows
    → chain_seq pcol prow cols rows order < cols * rows
unfolding chain_seq
chain_seq-lt pcol prow cols rows order hc hr =
    let row = chain_row prow rows order in
    rw (mul_comm cols rows) (
      place_lt cols row (col_in_row pcol cols row order) rows (chain_row-lt prow rows order hr)
        (col_in_row-lt pcol cols row order hc))

-- Two panels of the grid with one place in the chain are one panel.
pub chain_seq_inj :
    (c r c' r' cols rows : ℕ) (order : ChainOrder)
    → c < cols
    → r < rows
    → c' < cols
    → r' < rows
    → chain_seq c r cols rows order ≡ chain_seq c' r' cols rows order
    → (c ≡ c') × (r ≡ r')
unfolding chain_seq
chain_seq_inj c r c' r' cols rows order hc hr hc' hr' e =
    let row = chain_row r rows order in
    let row' = chain_row r' rows order in
    let parts =
      place_inj cols row (col_in_row c cols row order) row' (col_in_row c' cols row' order)
        (col_in_row-lt c cols row order hc) (col_in_row-lt c' cols row' order hc') e in
    let cols_eq : col_in_row c cols row order ≡ col_in_row c' cols row order =
      parts.1 ∙ ap (λ t. col_in_row c' cols t order) (sym parts.0) in
    (
      col_in_row_inj c c' cols row order hc hc' cols_eq,
      chain_row_inj r r' rows order hr hr' parts.0,
    )

module _ (g : Geometry) (v : IsRenderable g) where
  pw_pos : 0 < g.panel_w
  pw_pos = omega (arith, v.width_low)

  ph_pos : 0 < g.panel_h
  ph_pos = omega (arith, v.height_low)

  panel_col : (x : ℕ) → x < g.display_w → x / g.panel_w < g.panels_x
  panel_col x lt =
      (div-lt_iff_lt-mul pw_pos).1
        (subst (λ t. x < t) (v.display_width ∙ mul_comm g.panel_w g.panels_x) lt)

  panel_row : (y : ℕ) → y < g.display_h → y / g.panel_h < g.panels_y
  panel_row y lt =
      (div-lt_iff_lt-mul ph_pos).1
        (subst (λ t. y < t) (v.display_height ∙ mul_comm g.panel_h g.panels_y) lt)

  -- On a renderable geometry, every pixel of the display has its place in the chain's frame buffer.
  pub map_to_chain-lt :
      (lx ly : ℕ)
      → lx < g.display_w
      → ly < g.display_h
      → ((map_to_chain g lx ly).0 < g.chain_w) × ((map_to_chain g lx ly).1 < g.chain_h)
  unfolding map_to_chain
  map_to_chain-lt lx ly hx hy =
      let seq = chain_seq (lx / g.panel_w) (ly / g.panel_h) g.panels_x g.panels_y g.chain in
      let lt : seq < g.panels_x * g.panels_y =
        chain_seq-lt (lx / g.panel_w) (ly / g.panel_h) g.panels_x g.panels_y g.chain
          (panel_col lx hx) (panel_row ly hy) in
      let at : seq * g.panel_w + lx % g.panel_w < g.panels_x * g.panels_y * g.panel_w =
        place_lt g.panel_w seq (lx % g.panel_w) (g.panels_x * g.panels_y) lt (mod-lt lx pw_pos) in
      let wide : g.panels_x * g.panels_y * g.panel_w ≡ g.chain_w =
        mul_comm (g.panels_x * g.panels_y) g.panel_w
        ∙ (sym (mul_assoc g.panel_w g.panels_x g.panels_y) ∙ sym v.chain_width) in
      (
        subst (λ t. seq * g.panel_w + lx % g.panel_w < t) wide at,
        subst (λ t. ly % g.panel_h < t) (sym v.chain_height) (mod-lt ly ph_pos),
      )

  -- On a renderable geometry, two pixels of the display with one place in the chain's frame buffer
  -- are one pixel.
  pub map_to_chain_inj :
      (x y x' y' : ℕ)
      → x < g.display_w
      → y < g.display_h
      → x' < g.display_w
      → y' < g.display_h
      → map_to_chain g x y ≡ map_to_chain g x' y'
      → (x ≡ x') × (y ≡ y')
  unfolding map_to_chain
  map_to_chain_inj x y x' y' hx hy hx' hy' e =
      let pw = g.panel_w in
      let ph = g.panel_h in
      let seq = chain_seq (x / pw) (y / ph) g.panels_x g.panels_y g.chain in
      let seq' = chain_seq (x' / pw) (y' / ph) g.panels_x g.panels_y g.chain in
      let across =
        place_inj pw seq (x % pw) seq' (x' % pw) (mod-lt x pw_pos) (mod-lt x' pw_pos)
          (ap (λ t. t.0) e) in
      let down : y % ph ≡ y' % ph = ap (λ t. t.1) e in
      let panel =
        chain_seq_inj (x / pw) (y / ph) (x' / pw) (y' / ph) g.panels_x g.panels_y g.chain
          (panel_col x hx) (panel_row y hy) (panel_col x' hx') (panel_row y' hy') across.0 in
      let px : x / pw * pw ≡ x' / pw * pw = ap (λ t. t * pw) panel.0 in
      let py : y / ph * ph ≡ y' / ph * ph = ap (λ t. t * ph) panel.1 in
      (
        omega (arith, px, across.1, div-add-mod' x pw, div-add-mod' x' pw),
        omega (arith, py, down, div-add-mod' y ph, div-add-mod' y' ph),
      )
