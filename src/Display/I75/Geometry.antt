-- ===== src/Display/I75/Geometry.antt =====
-- The panel geometry that `load_geometry` of display/i75/i75.cpp reads from the k/v store.
-- `get key` is kv::config().get(key). The `int` products are exact here: past 2 ^ 31 C++ leaves
-- them undefined, and a factor that large makes the configuration bad in any case.
pub mod Renderable
use pixel_multiverse_firmwar.Prelude.{
  ℕ, suc, ◌+◌, ◌-◌, ◌*◌, ◌%◌, ◌^◌, Bool, true, false, ◌||◌, not, Option, none, some, List, [], ◌∷◌,
  ltb, ◌==◌, if◌then◌else◌, length, ascii, bit_and, bytes_eq,
}

pub data ChainOrder : Type 0 where
  raster_td : ChainOrder
  serpentine_td : ChainOrder
  raster_bu : ChainOrder
  serpentine_bu : ChainOrder

pub record Geometry : Type 0 where
  pub panel_w : ℕ
  pub panel_h : ℕ
  pub panels_x : ℕ
  pub panels_y : ℕ
  pub display_w : ℕ
  pub display_h : ℕ
  pub chain_w : ℕ
  pub chain_h : ℕ
  pub chain : ChainOrder

abbrev pub max_pixels : ℕ
max_pixels = 256 * 64

-- The result of `read_opt`: -1, -2 or the number.
pub data Setting : Type 0 where
  absent : Setting
  invalid : Setting
  value : ℕ → Setting

unfoldable pub digits_opt : List ℕ → ℕ → Setting
digits_opt [] n = value n
digits_opt (c ∷ cs) n =
    let rest = digits_opt cs (n * 10 + (c - 48)) in
    if ltb c 48 || ltb 57 c
    then invalid
    else if ltb 100000 (n * 10 + (c - 48))
    then invalid
    else rest

unfoldable pub value_opt : Option (List ℕ) → Setting
unfolding digits_opt
value_opt none = absent
value_opt (some v) = if length v == 0 then absent else digits_opt v 0

-- The legacy key counts only where the new key is absent.
abbrev pub or_legacy : Setting → Setting → Setting
or_legacy absent legacy = legacy
or_legacy invalid legacy = invalid
or_legacy (value n) legacy = value n

-- The value to use, and whether the setting is bad.
abbrev pub settled : Setting → ℕ → ℕ × Bool
settled absent def = (def, false)
settled invalid def = (def, true)
settled (value n) def = (n, false)

-- An order that is set and unknown is bad.
unfoldable pub chain_opt : Option (List ℕ) → ChainOrder × Bool
chain_opt none = (raster_td, false)
chain_opt (some v) =
    if length v == 0
    then (raster_td, false)
    else if bytes_eq v (ascii "raster-td")
    then (raster_td, false)
    else if bytes_eq v (ascii "serpentine-td")
    then (serpentine_td, false)
    else if bytes_eq v (ascii "raster-bu")
    then (raster_bu, false)
    else if bytes_eq v (ascii "serpentine-bu")
    then (serpentine_bu, false)
    else (raster_td, true)

-- The range, consistency and buffer checks; static_cast<size_t>(dw) * dh has 32 bits.
unfoldable pub out_of_range : ℕ → ℕ → ℕ → ℕ → ℕ → ℕ → Bool
out_of_range pw ph nx ny dw dh =
    ltb pw 8
    || (ltb 256 pw
        || (ltb ph 8
            || (ltb 64 ph
                || (not (bit_and ph 1 == 0)
                    || (ltb nx 1
                        || (ltb 64 nx
                            || (ltb ny 1
                                || (ltb 64 ny
                                    || (not (dw == pw * nx)
                                        || (not (dh == ph * ny)
                                            || ltb max_pixels ((dw * dh) % 2 ^ 32)))))))))))

abbrev pub build : ℕ → ℕ → ℕ → ℕ → ℕ → ℕ → ChainOrder → Geometry
build pw ph nx ny dw dh order = record {
  panel_w = pw;
  panel_h = ph;
  panels_x = nx;
  panels_y = ny;
  display_w = dw;
  display_h = dh;
  chain_w = pw * nx * ny;
  chain_h = ph;
  chain = order;
}

-- The fallback is one flat panel.
unfoldable pub checked : ℕ → ℕ → ℕ → ℕ → ℕ → ℕ → ChainOrder × Bool → Geometry × Bool
unfolding out_of_range
checked pw ph nx ny dw dh (order, bad) =
    if bad || out_of_range pw ph nx ny dw dh
    then (build 256 64 1 1 256 64 raster_td, true)
    else (build pw ph nx ny dw dh order, false)

module _ (get : List ℕ → Option (List ℕ)) where
  unfoldable pub read_opt : List ℕ → Setting
  unfolding value_opt
  read_opt key = value_opt (get key)

  unfoldable pub resolve : List ℕ → Option (List ℕ) → ℕ → ℕ × Bool
  unfolding read_opt
  resolve primary none def = settled (read_opt primary) def
  resolve primary (some legacy) def = settled (or_legacy (read_opt primary) (read_opt legacy)) def

  unfoldable pub parse_chain : ChainOrder × Bool
  unfolding chain_opt
  parse_chain = chain_opt (get (ascii "chain"))

  -- The geometry, and whether the configuration was bad.
  unfoldable pub load_geometry : Geometry × Bool
  unfolding resolve parse_chain checked
  load_geometry =
      let pw = resolve (ascii "panel_w") (some (ascii "width")) 256 in
      let ph = resolve (ascii "panel_h") (some (ascii "height")) 64 in
      let nx = resolve (ascii "panels_x") none 1 in
      let ny = resolve (ascii "panels_y") none 1 in
      let dw = resolve (ascii "disp_w") none (pw.0 * nx.0) in
      let dh = resolve (ascii "disp_h") none (ph.0 * ny.0) in
      let order = parse_chain in
      checked pw.0 ph.0 nx.0 ny.0 dw.0 dh.0
        (order.0, pw.1 || (ph.1 || (nx.1 || (ny.1 || (dw.1 || (dh.1 || order.1))))))

-- buffer_size() of a geometry, in `size_t`.
abbrev pub buffer_size : Geometry → ℕ
buffer_size g = (g.chain_w * g.chain_h * 4) % 2 ^ 32
