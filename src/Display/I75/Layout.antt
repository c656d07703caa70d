-- ===== src/Display/I75/Layout.antt =====
-- The layout of display/i75/i75.cpp: where a pixel of the display lies in the flat chain, and the
-- self-test patterns that are drawn across the panels. `hue` and `luminance` are of pico_graphics,
-- as in Display.Selftest.
pub mod Bijection
pub mod Drawn
use pixel_multiverse_firmwar.Prelude.{
  ℕ, ◌+◌, ◌-◌, ◌*◌, ◌/◌, ◌%◌, Bool, true, false, ◌&&◌, not, List, [], ◌∷◌, ◌++◌, ltb, leb, ◌==◌,
  if◌then◌else◌, get_or, ascii, bit_and,
}
use pixel_multiverse_firmwar.Display.Canvas.{
  Colour, Draw, set_pen, clear, pixel, rectangle, set_font, text, each, to_string,
}
use pixel_multiverse_firmwar.Display.Selftest.{smaller, at_least, cell, tile, render, layout_screen}
use pixel_multiverse_firmwar.Display.I75.Geometry.{
  ChainOrder, raster_td, serpentine_td, raster_bu, serpentine_bu, Geometry,
}

abbrev pub bottom_up : ChainOrder → Bool
bottom_up raster_td = false
bottom_up serpentine_td = false
bottom_up raster_bu = true
bottom_up serpentine_bu = true

abbrev pub serpentine : ChainOrder → Bool
serpentine raster_td = false
serpentine serpentine_td = true
serpentine raster_bu = false
serpentine serpentine_bu = true

-- The row of the chain, and the place in it, of the panel at (pcol, prow).
abbrev pub chain_row : ℕ → ℕ → ChainOrder → ℕ
chain_row prow rows order = if bottom_up order then rows - 1 - prow else prow

abbrev pub col_in_row : ℕ → ℕ → ℕ → ChainOrder → ℕ
col_in_row pcol cols row order =
    if serpentine order && not (bit_and row 1 == 0) then cols - 1 - pcol else pcol

unfoldable pub chain_seq : ℕ → ℕ → ℕ → ℕ → ChainOrder → ℕ
chain_seq pcol prow cols rows order =
    let row = chain_row prow rows order in row * cols + col_in_row pcol cols row order

unfoldable pub map_to_chain : Geometry → ℕ → ℕ → ℕ × ℕ
unfolding chain_seq
map_to_chain g lx ly =
    let seq = chain_seq (lx / g.panel_w) (ly / g.panel_h) g.panels_x g.panels_y g.chain in
    (seq * g.panel_w + lx % g.panel_w, ly % g.panel_h)

unfoldable pub plot_logical : Geometry → ℕ → ℕ → Draw
unfolding map_to_chain
plot_logical g lx ly = let at = map_to_chain g lx ly in pixel at.0 at.1

-- pal of render_layout
abbrev pub shades : List (ℕ × ℕ × ℕ)
shades =
    (40, 40, 40)
    ∷ (0, 55, 75)
    ∷ (70, 45, 0)
    ∷ (45, 0, 70)
    ∷ (0, 60, 0)
    ∷ (70, 0, 45)
    ∷ (0, 45, 70)
    ∷ (65, 65, 0)
    ∷ []

abbrev pub pen_of : ℕ × ℕ × ℕ → Draw
pen_of (r, g, b) = set_pen r g b

-- One panel of the layout test.
unfoldable pub panel_map : Geometry → ℕ → ℕ → List Draw
unfolding chain_seq
panel_map g pcol prow =
    let pw = g.panel_w in
    let ph = g.panel_h in
    let seq = chain_seq pcol prow g.panels_x g.panels_y g.chain in
    let x0 = seq * pw in
    pen_of (get_or shades (seq % 8) (0, 0, 0))
    ∷ rectangle x0 0 pw ph
    ∷ set_pen 255 255 255
    ∷ rectangle x0 0 pw 1
    ∷ rectangle x0 (ph - 1) pw 1
    ∷ rectangle x0 0 1 ph
    ∷ rectangle (x0 + pw - 1) 0 1 ph
    ∷ text (to_string pcol ++ (ascii "," ++ to_string prow)) (x0 + 2) 2 pw
    ∷ (if leb 18 ph then text (ascii "s" ++ to_string seq) (x0 + 2) 11 pw ∷ [] else [])

unfoldable pub render_layout : Geometry → List Draw
unfolding panel_map
render_layout g =
    set_pen 0 0 0
    ∷ clear
    ∷ set_font (ascii "bitmap8")
    ∷ each 0 g.panels_y (λ prow. each 0 g.panels_x (λ pcol. panel_map g pcol prow))

-- The border of the display, across the panels.
unfoldable pub border_logical : Geometry → List Draw
unfolding plot_logical
border_logical g =
    each 0 g.display_w (λ lx. plot_logical g lx 0 ∷ plot_logical g lx (g.display_h - 1) ∷ [])
    ++ each 0 g.display_h (λ ly. plot_logical g 0 ly ∷ plot_logical g (g.display_w - 1) ly ∷ [])

unfoldable pub render_dims_logical : Geometry → List Draw
unfolding border_logical map_to_chain
render_dims_logical g =
    let at = map_to_chain g 3 (at_least 2 (g.panel_h / 2 - 4)) in
    set_pen 0 0 0
    ∷ clear
    ∷ set_pen 255 255 255
    ∷ (border_logical g
        ++ (set_font (ascii "bitmap8")
            ∷ text (to_string g.display_w ++ (ascii "x" ++ to_string g.display_h)) at.0 at.1
                g.panel_w
            ∷ []))

unfoldable pub fill_logical_rect : Geometry → ℕ → ℕ → ℕ → ℕ → ℕ × ℕ × ℕ → List Draw
unfolding plot_logical
fill_logical_rect g lx ly w h pen =
    pen_of pen ∷ each 0 h (λ yy. each 0 w (λ xx. plot_logical g (lx + xx) (ly + yy) ∷ []))

unfoldable pub render_geometry_logical : Geometry → List Draw
unfolding border_logical
render_geometry_logical g =
    set_pen 0 0 0
    ∷ clear
    ∷ set_pen 255 255 255
    ∷ (border_logical g ++ each 0 (smaller g.display_w g.display_h) (λ i. plot_logical g i i ∷ []))

unfoldable pub render_corners_logical : Geometry → List Draw
unfolding fill_logical_rect
render_corners_logical g =
    let dw = g.display_w in
    let dh = g.display_h in
    let s = at_least 1 (smaller dw dh / 8) in
    set_pen 0 0 0
    ∷ clear
    ∷ (fill_logical_rect g 0 0 s s (255, 0, 0)
        ++ (fill_logical_rect g (dw - s) 0 s s (0, 255, 0)
            ++ (fill_logical_rect g 0 (dh - s) s s (0, 0, 255)
                ++ fill_logical_rect g (dw - s) (dh - s) s s (255, 255, 255))))

module _ (hue : ℕ → ℕ → Colour) (luminance : Colour → ℕ) where
  unfoldable pub render_grid_logical : Geometry → List Draw
  unfolding tile map_to_chain
  render_grid_logical g =
      let cols = g.display_w / cell in
      let rows = g.display_h / cell in
      let total = at_least 1 (cols * rows) in
      set_pen 0 0 0
      ∷ clear
      ∷ set_font (ascii "bitmap8")
      ∷ each 0 rows (λ ry. each 0 cols (λ cxk.
        let at = map_to_chain g (cxk * cell) (ry * cell) in
        tile hue luminance total (ry * cols + cxk) at.0 at.1))

  -- What `selftest` draws before its update(), for an id other than INFO_SCREEN.
  unfoldable pub drawn : Geometry → ℕ → List Draw
  unfolding render_layout render_dims_logical render_geometry_logical render_corners_logical
      render_grid_logical
  drawn g id =
      let multi = ltb 1 (g.panels_x * g.panels_y) in
      if id == layout_screen
      then render_layout g
      else if multi && id == 42
      then render_dims_logical g
      else if multi && id == 30
      then render_geometry_logical g
      else if multi && id == 31
      then render_corners_logical g
      else if multi && id == 50
      then render_grid_logical g
      else render hue luminance g.chain_w g.chain_h id
