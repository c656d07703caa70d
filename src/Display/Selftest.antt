-- ===== src/Display/Selftest.antt =====
-- The self-test patterns of src/display/selftest.hpp, as the drawing calls they make.
-- `hue idx total` is RGB::from_hsv(idx / total, 1, 1) and `luminance` RGB::luminance, both of
-- pico_graphics. A surface is at least one pixel wide and high (see the boards' geometry), so the
-- coordinates never go below 0; (height / 2 - 4) below 2 is replaced by 2 either way.
pub mod Bounds
use pixel_multiverse_firmwar.Prelude.{
  ℕ, zero, suc, ◌+◌, ◌-◌, ◌*◌, ◌/◌, ◌%◌, Bool, List, [], ◌∷◌, ◌++◌, ltb, ◌==◌, if◌then◌else◌, ascii,
  bit_and,
}
use pixel_multiverse_firmwar.Display.Canvas.{
  Colour, Draw, set_pen, clear, pixel, rectangle, set_font, text, each, to_string,
}

abbrev pub info_screen : ℕ
info_screen = 41

abbrev pub layout_screen : ℕ
layout_screen = 60

unfoldable pub fill_column : ℕ → ℕ → List Draw
fill_column x height = each 0 height (λ y. pixel x y ∷ [])

unfoldable pub fill_row : ℕ → ℕ → List Draw
fill_row y width = each 0 width (λ x. pixel x y ∷ [])

-- uint8_t v = size > 1 ? (uint8_t)(i * 255 / (size - 1)) : 255
abbrev pub ramp : ℕ → ℕ → ℕ
ramp i size = if ltb 1 size then (i * 255 / (size - 1)) % 256 else 255

-- Tests 10, 11 and 12.
unfoldable pub row_ramp : ℕ → ℕ → List Draw
row_ramp width height =
    each 0 height (λ y. let v = ramp y height in set_pen v v v ∷ fill_row y width)

unfoldable pub row_parity : ℕ → ℕ → List Draw
row_parity width height =
    each 0 height
      (λ y. (if bit_and y 1 == 0 then set_pen 255 0 0 else set_pen 0 255 0) ∷ fill_row y width)

unfoldable pub row_halves : ℕ → ℕ → List Draw
row_halves width height =
    each 0 height
      (λ y. (if ltb y (height / 2) then set_pen 255 0 0 else set_pen 0 0 255) ∷ fill_row y width)

-- Tests 20, 21 and 22.
unfoldable pub column_ramp : ℕ → ℕ → List Draw
column_ramp width height =
    each 0 width (λ x. let v = ramp x width in set_pen v v v ∷ fill_column x height)

unfoldable pub column_parity : ℕ → ℕ → List Draw
column_parity width height =
    each 0 width
      (λ x. (if bit_and x 1 == 0 then set_pen 255 0 0 else set_pen 0 255 0) ∷ fill_column x height)

unfoldable pub column_halves : ℕ → ℕ → List Draw
column_halves width height =
    each 0 width
      (λ x. (if ltb x (width / 2) then set_pen 255 0 0 else set_pen 0 0 255) ∷ fill_column x height)

-- The one-pixel white border of tests 30 and 42.
unfoldable pub border : ℕ → ℕ → List Draw
unfolding fill_row fill_column
border width height =
    set_pen 255 255 255
    ∷ (fill_row 0 width
        ++ (fill_row (height - 1) width
            ++ (fill_column 0 height ++ fill_column (width - 1) height)))

abbrev pub smaller : ℕ → ℕ → ℕ
smaller width height = if ltb width height then width else height

-- Test 30.
unfoldable pub border_diagonal : ℕ → ℕ → List Draw
unfolding border
border_diagonal width height =
    border width height ++ each 0 (smaller width height) (λ i. pixel i i ∷ [])

abbrev pub at_least : ℕ → ℕ → ℕ
at_least least n = if ltb n least then least else n

-- Test 31.
unfoldable pub corners : ℕ → ℕ → List Draw
corners width height =
    let s = at_least 1 (smaller width height / 8) in
    set_pen 255 0 0
    ∷ rectangle 0 0 s s
    ∷ set_pen 0 255 0
    ∷ rectangle (width - s) 0 s s
    ∷ set_pen 0 0 255
    ∷ rectangle 0 (height - s) s s
    ∷ set_pen 255 255 255
    ∷ rectangle (width - s) (height - s) s s
    ∷ []

-- Test 40: the words, each in its colour.
abbrev pub words : List (List ℕ × ℕ × ℕ × ℕ)
words =
    (ascii "red", 255, 0, 0)
    ∷ (ascii "green", 0, 255, 0)
    ∷ (ascii "blue", 0, 0, 255)
    ∷ (ascii "yellow", 255, 255, 0)
    ∷ (ascii "cyan", 0, 255, 255)
    ∷ (ascii "magenta", 255, 0, 255)
    ∷ (ascii "white", 255, 255, 255)
    ∷ (ascii "grey", 128, 128, 128)
    ∷ []

unfoldable pub word_lines : ℕ → ℕ → ℕ → List (List ℕ × ℕ × ℕ × ℕ) → List Draw
word_lines width line_h i [] = []
word_lines width line_h i ((name, r, g, b) ∷ rest) =
    set_pen r g b ∷ text name 1 (i * line_h) width ∷ word_lines width line_h (suc i) rest

unfoldable pub colour_words : ℕ → ℕ → List Draw
unfolding word_lines
colour_words width height =
    set_font (ascii "bitmap8") ∷ word_lines width (at_least 8 (height / 8)) 0 words

-- Test 42.
unfoldable pub dimensions : ℕ → ℕ → List Draw
unfolding border
dimensions width height =
    border width height
    ++ (set_font (ascii "bitmap8")
        ∷ text (to_string width ++ (ascii "x" ++ to_string height)) 3 (at_least 2 (height / 2 - 4))
            width
        ∷ [])

abbrev pub cell : ℕ
cell = 16

module _ (hue : ℕ → ℕ → Colour) (luminance : Colour → ℕ) where
  -- One tile of test 50, its origin at (px, py); the counter `idx` runs in reading order.
  unfoldable pub tile : ℕ → ℕ → ℕ → ℕ → List Draw
  tile total idx px py =
      let bg = hue idx total in
      set_pen bg.red bg.green bg.blue
      ∷ rectangle px py cell cell
      ∷ (if ltb 12750 (luminance bg) then set_pen 0 0 0 else set_pen 255 255 255)
      ∷ text (to_string idx) (px + 2) (py + 4) cell
      ∷ []

  -- Test 50.
  unfoldable pub grid : ℕ → ℕ → List Draw
  unfolding tile
  grid width height =
      let cols = width / cell in
      let rows = height / cell in
      let total = at_least 1 (cols * rows) in
      set_font (ascii "bitmap8")
      ∷ each 0 rows (λ ry. each 0 cols (λ cx. tile total (ry * cols + cx) (cx * cell) (ry * cell)))

  -- The switch on the id; an unknown id draws nothing more.
  unfoldable pub pattern : ℕ → ℕ → ℕ → List Draw
  unfolding row_ramp row_parity row_halves column_ramp column_parity column_halves border_diagonal
      corners colour_words dimensions grid
  pattern width height id =
      if id == 1
      then set_pen 255 255 255 ∷ clear ∷ []
      else if id == 2
      then set_pen 255 0 0 ∷ clear ∷ []
      else if id == 3
      then set_pen 0 255 0 ∷ clear ∷ []
      else if id == 4
      then set_pen 0 0 255 ∷ clear ∷ []
      else if id == 5
      then set_pen 128 128 128 ∷ clear ∷ []
      else if id == 10
      then row_ramp width height
      else if id == 11
      then row_parity width height
      else if id == 12
      then row_halves width height
      else if id == 20
      then column_ramp width height
      else if id == 21
      then column_parity width height
      else if id == 22
      then column_halves width height
      else if id == 30
      then border_diagonal width height
      else if id == 31
      then corners width height
      else if id == 40
      then colour_words width height
      else if id == 42
      then dimensions width height
      else if id == 50
      then grid width height
      else []

  unfoldable pub render : ℕ → ℕ → ℕ → List Draw
  unfolding pattern
  render width height id = set_pen 0 0 0 ∷ clear ∷ pattern width height id
