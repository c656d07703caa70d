-- ===== src/Display/I75/Layout/Drawn.antt =====
-- What the self-tests of the i75 board, other than the raw tile numbering (50), draw: pixels and
-- rectangles of the chain's frame buffer.
use pixel_multiverse_firmwar.Prelude.{
  ℕ, suc, ◌+◌, ◌-◌, ◌*◌, ◌/◌, ◌%◌, ◌≤◌, ◌<◌, ◌≡◌, ◌≢◌, ◌∙◌, sym, false, ◌&&◌, [], ◌∷◌, ◌++◌, ltb,
  leb, ◌==◌, get_or, ascii, All, append-All, arith,
}
use native.Mathlib.Nat.{mul-le-mul_right, mul-le-mul_left, mul_comm, mul_assoc}
use pixel_multiverse_firmwar.Display.Canvas.{
  Colour, Draw, text, set_font, Inside, each, loop-All, if-All, to_string,
}
use pixel_multiverse_firmwar.Display.Selftest.{smaller, at_least, render, layout_screen}
use pixel_multiverse_firmwar.Display.Selftest.Bounds.{render-Inside}
use pixel_multiverse_firmwar.Display.I75.Geometry.{Geometry}
use pixel_multiverse_firmwar.Display.I75.Geometry.Renderable.{IsRenderable}
use pixel_multiverse_firmwar.Display.I75.Layout.{
  chain_seq, map_to_chain, plot_logical, shades, pen_of, panel_map, render_layout, border_logical,
  render_dims_logical, fill_logical_rect, render_geometry_logical, render_corners_logical, drawn,
}
use pixel_multiverse_firmwar.Display.I75.Layout.Bijection.{chain_seq-lt, map_to_chain-lt}

pen_of-Inside : (w h : ℕ) (p : ℕ × ℕ × ℕ) → Inside w h (pen_of p)
unfolding Inside
pen_of-Inside w h (r, g, b) = tt

module _ (g : Geometry) (v : IsRenderable g) where
  abbrev OnChain : Draw → Type 0
  OnChain = Inside g.chain_w g.chain_h

  plot_logical-Inside :
      (lx ly : ℕ) → lx < g.display_w → ly < g.display_h → OnChain (plot_logical g lx ly)
  unfolding plot_logical Inside
  plot_logical-Inside lx ly hx hy = map_to_chain-lt g v lx ly hx hy

  panel_end :
      (pcol prow : ℕ)
      → pcol < g.panels_x
      → prow < g.panels_y
      → chain_seq pcol prow g.panels_x g.panels_y g.chain * g.panel_w + g.panel_w ≤ g.chain_w
  panel_end pcol prow hc hr =
      let seq = chain_seq pcol prow g.panels_x g.panels_y g.chain in
      let lt = chain_seq-lt pcol prow g.panels_x g.panels_y g.chain hc hr in
      let next : suc seq * g.panel_w ≤ g.panels_x * g.panels_y * g.panel_w =
        mul-le-mul_right g.panel_w lt in
      let wide : g.panels_x * g.panels_y * g.panel_w ≡ g.chain_w =
        mul_comm (g.panels_x * g.panels_y) g.panel_w
        ∙ (sym (mul_assoc g.panel_w g.panels_x g.panels_y) ∙ sym v.chain_width) in
      omega (arith, next, wide)

  panel_map-Inside :
      (pcol prow : ℕ) → pcol < g.panels_x → prow < g.panels_y → All OnChain (panel_map g pcol prow)
  unfolding panel_map Inside
  panel_map-Inside pcol prow hc hr =
      let seq = chain_seq pcol prow g.panels_x g.panels_y g.chain in
      let end = panel_end pcol prow hc hr in
      let high = v.chain_height in
      let wide = v.width_low in
      let tall = v.height_low in
      (
        pen_of-Inside g.chain_w g.chain_h (get_or shades (seq % 8) (0, 0, 0)),
        (
          (end, omega (arith, high)),
          (
            tt,
            (
              (end, omega (arith, high, tall)),
              (
                (end, omega (arith, high, tall)),
                (
                  (omega (arith, end, wide), omega (arith, high)),
                  (
                    (omega (arith, end, wide), omega (arith, high)),
                    (
                      tt,
                      if-All OnChain (leb 18 g.panel_h)
                          (text (ascii "s" ++ to_string seq) (seq * g.panel_w + 2) 11 g.panel_w
                            ∷ [])
                          [] (tt, tt) tt,
                    ),
                  ),
                ),
              ),
            ),
          ),
        ),
      )

  render_layout-Inside : All OnChain (render_layout g)
  unfolding render_layout Inside
  render_layout-Inside = (
    tt,
    (
      tt,
      (
        tt,
        loop-All OnChain g.panels_y (λ prow. each 0 g.panels_x (λ pcol. panel_map g pcol prow))
            (λ prow hr.
              loop-All OnChain g.panels_x (λ pcol. panel_map g pcol prow)
                (λ pcol hc. panel_map-Inside pcol prow hc hr)),
      ),
    ),
  )

  display_pos : (0 < g.display_w) × (0 < g.display_h)
  display_pos =
      let w : g.panel_w * 1 ≤ g.panel_w * g.panels_x = mul-le-mul_left g.panel_w v.across in
      let h : g.panel_h * 1 ≤ g.panel_h * g.panels_y = mul-le-mul_left g.panel_h v.down in
      (
        omega (arith, w, v.display_width, v.width_low),
        omega (arith, h, v.display_height, v.height_low),
      )

  chain_pos : (0 < g.chain_w) × (0 < g.chain_h)
  chain_pos =
      let w : g.panel_w * g.panels_x * 1 ≤ g.panel_w * g.panels_x * g.panels_y =
        mul-le-mul_left (g.panel_w * g.panels_x) v.down in
      (
        omega (arith, w, v.chain_width, v.display_width, display_pos.0),
        omega (arith, v.chain_height, v.height_low),
      )

  border_logical-Inside : All OnChain (border_logical g)
  unfolding border_logical
  border_logical-Inside =
      let pos = display_pos in
      let wp = pos.0 in
      let hp = pos.1 in
      append-All OnChain
        (each 0 g.display_w (λ lx. plot_logical g lx 0 ∷ plot_logical g lx (g.display_h - 1) ∷ []))
        (each 0 g.display_h (λ ly. plot_logical g 0 ly ∷ plot_logical g (g.display_w - 1) ly ∷ []))
        (loop-All OnChain g.display_w
          (λ lx. plot_logical g lx 0 ∷ plot_logical g lx (g.display_h - 1) ∷ [])
          (λ lx u. (
            plot_logical-Inside lx 0 u hp,
            (plot_logical-Inside lx (g.display_h - 1) u (omega (arith, hp)), tt),
          )))
        (loop-All OnChain g.display_h
          (λ ly. plot_logical g 0 ly ∷ plot_logical g (g.display_w - 1) ly ∷ [])
          (λ ly u. (
            plot_logical-Inside 0 ly wp u,
            (plot_logical-Inside (g.display_w - 1) ly (omega (arith, wp)) u, tt),
          )))

  render_dims_logical-Inside : All OnChain (render_dims_logical g)
  unfolding render_dims_logical Inside
  render_dims_logical-Inside =
      let at = map_to_chain g 3 (at_least 2 (g.panel_h / 2 - 4)) in
      (
        tt,
        (
          tt,
          (
            tt,
            append-All OnChain (border_logical g)
                (set_font (ascii "bitmap8")
                  ∷ text (to_string g.display_w ++ (ascii "x" ++ to_string g.display_h)) at.0 at.1
                      g.panel_w
                  ∷ [])
                border_logical-Inside (tt, (tt, tt)),
          ),
        ),
      )

  render_geometry_logical-Inside : All OnChain (render_geometry_logical g)
  unfolding render_geometry_logical Inside
  render_geometry_logical-Inside = (
    tt,
    (
      tt,
      (
        tt,
        append-All OnChain (border_logical g)
            (each 0 (smaller g.display_w g.display_h) (λ i. plot_logical g i i ∷ []))
            border_logical-Inside
            (loop-All OnChain (smaller g.display_w g.display_h) (λ i. plot_logical g i i ∷ [])
              (λ i u. (plot_logical-Inside i i (ground (arith, u)) (ground (arith, u)), tt))),
      ),
    ),
  )

  fill_logical_rect-Inside :
      (lx ly w h : ℕ) (pen : ℕ × ℕ × ℕ)
      → lx + w ≤ g.display_w
      → ly + h ≤ g.display_h
      → All OnChain (fill_logical_rect g lx ly w h pen)
  unfolding fill_logical_rect
  fill_logical_rect-Inside lx ly w h pen hx hy = (
    pen_of-Inside g.chain_w g.chain_h pen,
    loop-All OnChain h (λ yy. each 0 w (λ xx. plot_logical g (lx + xx) (ly + yy) ∷ []))
        (λ yy uy.
          loop-All OnChain w (λ xx. plot_logical g (lx + xx) (ly + yy) ∷ [])
            (λ xx ux. (
              plot_logical-Inside (lx + xx) (ly + yy) (omega (arith, hx, ux))
                  (omega (arith, hy, uy)),
              tt,
            ))),
  )

  render_corners_logical-Inside : All OnChain (render_corners_logical g)
  unfolding render_corners_logical Inside
  render_corners_logical-Inside =
      let dw = g.display_w in
      let dh = g.display_h in
      let s = at_least 1 (smaller dw dh / 8) in
      let pos = display_pos in
      let wp : 0 < dw = pos.0 in
      let hp : 0 < dh = pos.1 in
      let sw : s ≤ dw = ground (arith, wp) in
      let sh : s ≤ dh = ground (arith, hp) in
      let right : dw - s + s ≤ dw = omega (arith, sw) in
      let low : dh - s + s ≤ dh = omega (arith, sh) in
      let tl =
        fill_logical_rect-Inside 0 0 s s (255, 0, 0) (omega (arith, sw)) (omega (arith, sh)) in
      let tr = fill_logical_rect-Inside (dw - s) 0 s s (0, 255, 0) right (omega (arith, sh)) in
      let bl = fill_logical_rect-Inside 0 (dh - s) s s (0, 0, 255) (omega (arith, sw)) low in
      let br = fill_logical_rect-Inside (dw - s) (dh - s) s s (255, 255, 255) right low in
      (tt, (tt, search (append-All, tl, tr, bl, br)))

  module _ (hue : ℕ → ℕ → Colour) (luminance : Colour → ℕ) where
    -- On a renderable geometry, every pixel and every rectangle that a self-test other than the
    -- tile numbering (50) and the info screen (41, which is text) draws lies on the frame buffer of
    -- the chain, whatever the test id.
    pub drawn-Inside :
        (id : ℕ) → id ≢ 50 → All (Inside g.chain_w g.chain_h) (drawn hue luminance g id)
    unfolding drawn
    drawn-Inside id h =
        let P = OnChain in
        let multi = ltb 1 (g.panels_x * g.panels_y) in
        let flat : All P (render hue luminance g.chain_w g.chain_h id) =
          render-Inside g.chain_w g.chain_h hue luminance id chain_pos.0 chain_pos.1 in
        let off : (multi && id == 50) ≡ false = ground (arith, h) in
        rw off (
          if-All P (id == layout_screen) _ _ render_layout-Inside (
            if-All P (multi && id == 42) _ _ render_dims_logical-Inside (
              if-All P (multi && id == 30) _ _ render_geometry_logical-Inside
                (if-All P (multi && id == 31) _ _ render_corners_logical-Inside flat))))
