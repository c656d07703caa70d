-- ===== src/Display/Selftest/Bounds.antt =====
-- The pixels and the rectangles that the patterns draw, on the surface; text has no bound.
use pixel_multiverse_firmwar.Prelude.{
  ℕ, suc, ◌+◌, ◌-◌, ◌*◌, ◌/◌, ◌≤◌, ◌<◌, Bool, true, false, List, [], ◌∷◌, ◌++◌, ltb, ◌==◌,
  if◌then◌else◌, All, append-All, arith, ascii, bit_and,
}
use pixel_multiverse_firmwar.Display.Canvas.{
  Colour, Draw, set_pen, pixel, Inside, each, loop-All, if-All, set_font, text, to_string,
}
use pixel_multiverse_firmwar.Display.Selftest.{
  fill_column, fill_row, row_ramp, row_parity, row_halves, column_ramp, column_parity,
  column_halves, border, smaller, border_diagonal, corners, word_lines, colour_words, dimensions,
  cell, tile, grid, pattern, render, words, at_least, ramp,
}

module _ (w h : ℕ) where
  fill_row-Inside : (y : ℕ) → y < h → All (Inside w h) (fill_row y w)
  unfolding fill_row Inside
  fill_row-Inside y lt = loop-All (Inside w h) w (λ x. pixel x y ∷ []) (λ x u. ((u, lt), tt))

  fill_column-Inside : (x : ℕ) → x < w → All (Inside w h) (fill_column x h)
  unfolding fill_column Inside
  fill_column-Inside x lt = loop-All (Inside w h) h (λ y. pixel x y ∷ []) (λ y u. ((lt, u), tt))

  -- A pen for each row, or for each column.
  pen_rows-Inside :
      (pen : ℕ → Draw)
      → ((y : ℕ) → Inside w h (pen y))
      → All (Inside w h) (each 0 h (λ y. pen y ∷ fill_row y w))
  pen_rows-Inside pen p =
      loop-All (Inside w h) h (λ y. pen y ∷ fill_row y w) (λ y u. (p y, fill_row-Inside y u))

  pen_columns-Inside :
      (pen : ℕ → Draw)
      → ((x : ℕ) → Inside w h (pen x))
      → All (Inside w h) (each 0 w (λ x. pen x ∷ fill_column x h))
  pen_columns-Inside pen p =
      loop-All (Inside w h) w (λ x. pen x ∷ fill_column x h) (λ x u. (p x, fill_column-Inside x u))

  pen_if-Inside :
      (t : Bool) (r g b r' g' b' : ℕ) → Inside w h (if t then set_pen r g b else set_pen r' g' b')
  unfolding Inside
  pen_if-Inside true r g b r' g' b' = tt
  pen_if-Inside false r g b r' g' b' = tt

  row_ramp-Inside : All (Inside w h) (row_ramp w h)
  unfolding row_ramp Inside
  row_ramp-Inside =
      loop-All (Inside w h) h (λ y. let v = ramp y h in set_pen v v v ∷ fill_row y w)
        (λ y u. (tt, fill_row-Inside y u))

  row_parity-Inside : All (Inside w h) (row_parity w h)
  unfolding row_parity
  row_parity-Inside =
      pen_rows-Inside (λ y. if bit_and y 1 == 0 then set_pen 255 0 0 else set_pen 0 255 0)
        (λ y. pen_if-Inside (bit_and y 1 == 0) 255 0 0 0 255 0)

  row_halves-Inside : All (Inside w h) (row_halves w h)
  unfolding row_halves
  row_halves-Inside =
      pen_rows-Inside (λ y. if ltb y (h / 2) then set_pen 255 0 0 else set_pen 0 0 255)
        (λ y. pen_if-Inside (ltb y (h / 2)) 255 0 0 0 0 255)

  column_ramp-Inside : All (Inside w h) (column_ramp w h)
  unfolding column_ramp Inside
  column_ramp-Inside =
      loop-All (Inside w h) w (λ x. let v = ramp x w in set_pen v v v ∷ fill_column x h)
        (λ x u. (tt, fill_column-Inside x u))

  column_parity-Inside : All (Inside w h) (column_parity w h)
  unfolding column_parity
  column_parity-Inside =
      pen_columns-Inside (λ x. if bit_and x 1 == 0 then set_pen 255 0 0 else set_pen 0 255 0)
        (λ x. pen_if-Inside (bit_and x 1 == 0) 255 0 0 0 255 0)

  column_halves-Inside : All (Inside w h) (column_halves w h)
  unfolding column_halves
  column_halves-Inside =
      pen_columns-Inside (λ x. if ltb x (w / 2) then set_pen 255 0 0 else set_pen 0 0 255)
        (λ x. pen_if-Inside (ltb x (w / 2)) 255 0 0 0 0 255)

  word_lines-Inside :
      (line_h i : ℕ) (ws : List (List ℕ × ℕ × ℕ × ℕ)) → All (Inside w h) (word_lines w line_h i ws)
  unfolding word_lines Inside
  word_lines-Inside line_h i [] = tt
  word_lines-Inside line_h i ((name, r, g, b) ∷ rest) =
      (tt, (tt, word_lines-Inside line_h (suc i) rest))

  colour_words-Inside : All (Inside w h) (colour_words w h)
  unfolding colour_words Inside
  colour_words-Inside = (tt, word_lines-Inside (at_least 8 (h / 8)) 0 words)

  module _ (w_pos : 0 < w) (h_pos : 0 < h) where
    border-Inside : All (Inside w h) (border w h)
    unfolding border Inside
    border-Inside =
        let right = fill_column-Inside (w - 1) (omega arith) in
        let left =
          append-All (Inside w h) (fill_column 0 h) (fill_column (w - 1) h)
            (fill_column-Inside 0 w_pos) right in
        let bottom =
          append-All (Inside w h) (fill_row (h - 1) w) (fill_column 0 h ++ fill_column (w - 1) h)
            (fill_row-Inside (h - 1) (omega arith)) left in
        (
          tt,
          append-All (Inside w h) (fill_row 0 w)
              (fill_row (h - 1) w ++ (fill_column 0 h ++ fill_column (w - 1) h))
              (fill_row-Inside 0 h_pos) bottom,
        )

    border_diagonal-Inside : All (Inside w h) (border_diagonal w h)
    unfolding border_diagonal Inside
    border_diagonal-Inside =
        append-All (Inside w h) (border w h) (each 0 (smaller w h) (λ i. pixel i i ∷ []))
          border-Inside
          (loop-All (Inside w h) (smaller w h) (λ i. pixel i i ∷ [])
            (λ i u. ((ground arith, ground arith), tt)))

    corners-Inside : All (Inside w h) (corners w h)
    unfolding corners Inside
    corners-Inside =
        let s = at_least 1 (smaller w h / 8) in
        let sw : s ≤ w = ground arith in
        let sh : s ≤ h = ground arith in
        let right : w - s + s ≤ w = omega arith in
        let low : h - s + s ≤ h = omega arith in
        (
          tt,
          (
            (omega arith, omega arith),
            (tt, ((right, omega arith), (tt, ((omega arith, low), (tt, ((right, low), tt)))))),
          ),
        )

    dimensions-Inside : All (Inside w h) (dimensions w h)
    unfolding dimensions Inside
    dimensions-Inside =
        append-All (Inside w h) (border w h)
          (set_font (ascii "bitmap8")
            ∷ text (to_string w ++ (ascii "x" ++ to_string h)) 3 (at_least 2 (h / 2 - 4)) w
            ∷ [])
          border-Inside (tt, (tt, tt))

  module _ (hue : ℕ → ℕ → Colour) (luminance : Colour → ℕ) where
    grid-Inside : All (Inside w h) (grid hue luminance w h)
    unfolding grid tile Inside
    grid-Inside =
        let cols = w / cell in
        let rows = h / cell in
        let total = at_least 1 (cols * rows) in
        let row : ℕ → List Draw = λ ry.
          each 0 cols (λ cx. tile hue luminance total (ry * cols + cx) (cx * cell) (ry * cell)) in
        (
          tt,
          loop-All (Inside w h) rows row (λ ry u.
              loop-All (Inside w h) cols
                (λ cx. tile hue luminance total (ry * cols + cx) (cx * cell) (ry * cell))
                (λ cx u'.
                  let pen =
                    pen_if-Inside (ltb 12750 (luminance (hue (ry * cols + cx) total))) 0 0 0 255 255
                      255 in
                  (tt, ((omega arith, omega arith), (pen, (tt, tt)))))),
        )

    -- On a surface at least one pixel wide and high, every pixel and every rectangle that a
    -- self-test draws lies on the surface, whatever the test id.
    pub render-Inside : (id : ℕ) → 0 < w → 0 < h → All (Inside w h) (render hue luminance w h id)
    unfolding render pattern Inside
    render-Inside id wp hp =
        let P = Inside w h in
        (
          tt,
          (
            tt,
            if-All P (id == 1) _ _ (tt, (tt, tt))
                (if-All P (id == 2) _ _ (tt, (tt, tt))
                  (if-All P (id == 3) _ _ (tt, (tt, tt))
                    (if-All P (id == 4) _ _ (tt, (tt, tt))
                      (if-All P (id == 5) _ _ (tt, (tt, tt))
                        (if-All P (id == 10) _ _ row_ramp-Inside (
                          if-All P (id == 11) _ _ row_parity-Inside (
                            if-All P (id == 12) _ _ row_halves-Inside (
                              if-All P (id == 20) _ _ column_ramp-Inside (
                                if-All P (id == 21) _ _ column_parity-Inside (
                                  if-All P (id == 22) _ _ column_halves-Inside (
                                    if-All P (id == 30) _ _ (border_diagonal-Inside wp hp) (
                                      if-All P (id == 31) _ _ (corners-Inside wp hp) (
                                        if-All P (id == 40) _ _ colour_words-Inside (
                                          if-All P (id == 42) _ _ (dimensions-Inside wp hp)
                                            (if-All P (id == 50) _ _ grid-Inside tt))))))))))))))),
          ),
        )
