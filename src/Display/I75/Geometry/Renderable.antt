-- ===== src/Display/I75/Geometry/Renderable.antt =====
-- What `load_geometry` leaves in `geo`: a geometry the panel driver and the frame buffers can take.
use pixel_multiverse_firmwar.Prelude.{
  ℕ, ◌*◌, ◌%◌, ◌^◌, ◌≤◌, ◌≡◌, ◌∙◌, ap, refl, Bool, false, ◌||◌, Option, List, arith, Bool-cases,
  inl, inr, bit_and,
}
use native.Mathlib.Nat.{mul-le-mul_right, mul-le-mul_left, mul_comm, mul_assoc, mod-eq_of_lt}
use pixel_multiverse_firmwar.Display.I75.Geometry.{
  ChainOrder, raster_td, Geometry, max_pixels, out_of_range, build, checked, load_geometry,
  buffer_size,
}

pub record IsRenderable (g : Geometry) : Type 0 where
  pub width_low : 8 ≤ g.panel_w
  pub width_high : g.panel_w ≤ 256
  pub height_low : 8 ≤ g.panel_h
  pub height_high : g.panel_h ≤ 64
  pub even : bit_and g.panel_h 1 ≡ 0
  pub across : 1 ≤ g.panels_x
  pub across_high : g.panels_x ≤ 64
  pub down : 1 ≤ g.panels_y
  pub down_high : g.panels_y ≤ 64
  pub display_width : g.display_w ≡ g.panel_w * g.panels_x
  pub display_height : g.display_h ≡ g.panel_h * g.panels_y
  pub chain_width : g.chain_w ≡ g.panel_w * g.panels_x * g.panels_y
  pub chain_height : g.chain_h ≡ g.panel_h
  pub fits : g.display_w * g.display_h ≤ max_pixels

-- A product of bounded factors is bounded.
mul_le : (a b m n : ℕ) → a ≤ m → b ≤ n → a * b ≤ m * n
mul_le a b m n ha hb =
    let one : a * b ≤ m * b = mul-le-mul_right b ha in
    let two : m * b ≤ m * n = mul-le-mul_left m hb in omega (arith, one, two)

module _ (pw ph nx ny dw dh : ℕ) (order : ChainOrder) where
  -- The 32-bit product of the check is exact, since the factors have passed theirs.
  product_exact : out_of_range pw ph nx ny dw dh ≡ false → (dw * dh) % 2 ^ 32 ≡ dw * dh
  unfolding out_of_range
  product_exact h =
      let wide : pw * nx ≤ 256 * 64 = mul_le pw nx 256 64 (ground arith) (ground arith) in
      let high : ph * ny ≤ 64 * 64 = mul_le ph ny 64 64 (ground arith) (ground arith) in
      let dws : dw ≡ pw * nx = ground arith in
      let dhs : dh ≡ ph * ny = ground arith in
      let area : dw * dh ≤ 16384 * 4096 =
        mul_le dw dh 16384 4096 (omega (arith, dws, wide)) (omega (arith, dhs, high)) in
      mod-eq_of_lt (omega (arith, area))

  in_range-IsRenderable :
      out_of_range pw ph nx ny dw dh ≡ false → IsRenderable (build pw ph nx ny dw dh order)
  unfolding out_of_range
  in_range-IsRenderable h = record {
    width_low = ground arith;
    width_high = ground arith;
    height_low = ground arith;
    height_high = ground arith;
    even = ground arith;
    across = ground arith;
    across_high = ground arith;
    down = ground arith;
    down_high = ground arith;
    display_width = ground arith;
    display_height = ground arith;
    chain_width = refl;
    chain_height = refl;
    fits = ground (arith, product_exact h);
  }

fallback-IsRenderable : IsRenderable (build 256 64 1 1 256 64 raster_td)
fallback-IsRenderable = record {
  width_low = omega arith;
  width_high = omega arith;
  height_low = omega arith;
  height_high = omega arith;
  even = refl;
  across = omega arith;
  across_high = omega arith;
  down = omega arith;
  down_high = omega arith;
  display_width = refl;
  display_height = refl;
  chain_width = refl;
  chain_height = refl;
  fits = omega arith;
}

checked-IsRenderable :
    (pw ph nx ny dw dh : ℕ) (order : ChainOrder) (bad : Bool)
    → IsRenderable (checked pw ph nx ny dw dh (order, bad)).0
unfolding checked
checked-IsRenderable pw ph nx ny dw dh order bad =
    elim (Bool-cases (bad || out_of_range pw ph nx ny dw dh)) [
      | inl wrong ↦ rw wrong fallback-IsRenderable
      | inr right ↦ rw right (in_range-IsRenderable pw ph nx ny dw dh order (ground arith))
    ]

-- Whatever the k/v store holds, the geometry that is loaded is one the board can show: the panel
-- and grid sizes are in the driver's range, the panel height is even, the display is the grid of
-- panels, the chain is all the panels in a row, and the frame fits the buffer.
pub load_geometry-IsRenderable :
    (get : List ℕ → Option (List ℕ)) → IsRenderable (load_geometry get).0
unfolding load_geometry
load_geometry-IsRenderable get = search checked-IsRenderable

-- The bytes of a frame, counted in `size_t`: four for each pixel of the display, at most 65536.
pub buffer_size-eq :
    (g : Geometry)
    → IsRenderable g
    → (buffer_size g ≡ g.display_w * g.display_h * 4) × (buffer_size g ≤ 4 * max_pixels)
buffer_size-eq g v =
    let w = v.display_width in
    let h = v.display_height in
    let swap : g.panel_w * g.panels_x * g.panels_y * g.panel_h
        ≡ g.panel_w * g.panels_x * (g.panel_h * g.panels_y) =
      mul_assoc (g.panel_w * g.panels_x) g.panels_y g.panel_h
      ∙ ap (λ t. g.panel_w * g.panels_x * t) (mul_comm g.panels_y g.panel_h) in
    let area : g.chain_w * g.chain_h ≡ g.display_w * g.display_h =
      rw (v.chain_width, v.chain_height, w, h) swap in
    let exact : g.chain_w * g.chain_h * 4 % 2 ^ 32 ≡ g.chain_w * g.chain_h * 4 =
      mod-eq_of_lt (omega (arith, area, v.fits)) in
    (omega (arith, exact, area), omega (arith, exact, area, v.fits))
