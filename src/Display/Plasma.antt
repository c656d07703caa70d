-- ===== src/Display/Plasma.antt =====
-- The plasma board (src/display/plasma): a WS2812 strip of up to 1024 LEDs, one pixel high.
-- `get key` is kv::config().get(key); `hue` and `luminance` are of pico_graphics.
pub mod Strip
pub mod Board
use pixel_multiverse_firmwar.Prelude.{
  ℕ, zero, suc, ◌+◌, ◌-◌, ◌*◌, ◌/◌, ◌%◌, Bool, true, false, ◌||◌, ◌&&◌, Option, none, some, List,
  [], ◌∷◌, ◌++◌, ltb, leb, ◌==◌, if◌then◌else◌, get_or, length, ascii, bytes_eq,
}
use pixel_multiverse_firmwar.Display.Canvas.{
  Colour, Draw, set_pen, clear, pixel, set_font, text, each,
}
use pixel_multiverse_firmwar.Display.Selftest.{render}

abbrev pub max_leds : ℕ
max_leds = 1024

-- The digits of the `length` key: none is a character that is no digit, or a number above MAX_LEDS.
unfoldable pub parse_length : List ℕ → ℕ → Option ℕ
parse_length [] parsed = some parsed
parse_length (c ∷ cs) parsed =
    let rest = parse_length cs (parsed * 10 + (c - 48)) in
    if ltb c 48 || ltb 57 c
    then none
    else if ltb max_leds (parsed * 10 + (c - 48))
    then none
    else rest

abbrev pub accept_length : Option ℕ → ℕ × Bool
accept_length none = (64, true)
accept_length (some parsed) = if leb 1 parsed then (parsed, false) else (64, true)

abbrev pub length_opt : Option (List ℕ) → ℕ × Bool
length_opt none = (64, false)
length_opt (some v) = if ltb 0 (length v) then accept_length (parse_length v 0) else (64, false)

pub data ColourOrder : Type 0 where
  rgb : ColourOrder
  rbg : ColourOrder
  grb : ColourOrder
  gbr : ColourOrder
  brg : ColourOrder
  bgr : ColourOrder

-- An order that is absent or unknown is `def`: RGB on the i75, GRB on the plasma.
unfoldable pub order_opt : ColourOrder → Option (List ℕ) → ColourOrder
order_opt def none = def
order_opt def (some v) =
    if length v == 0
    then def
    else if bytes_eq v (ascii "rgb")
    then rgb
    else if bytes_eq v (ascii "rbg")
    then rbg
    else if bytes_eq v (ascii "grb")
    then grb
    else if bytes_eq v (ascii "gbr")
    then gbr
    else if bytes_eq v (ascii "brg")
    then brg
    else if bytes_eq v (ascii "bgr")
    then bgr
    else def

module _ (get : List ℕ → Option (List ℕ)) where
  -- The strip length, and whether the configuration was bad.
  unfoldable pub load_length : ℕ × Bool
  load_length = length_opt (get (ascii "length"))

  unfoldable pub parse_order : ColourOrder
  unfolding order_opt
  parse_order = order_opt grb (get (ascii "order"))

unfoldable pub render_spectrum : (ℕ → ℕ → Colour) → ℕ → List Draw
render_spectrum hue strip_len =
    set_pen 0 0 0
    ∷ clear
    ∷ each 0 strip_len
        (λ i. let c = hue i strip_len in set_pen c.red c.green c.blue ∷ pixel i 0 ∷ [])

-- pal of render_decades
abbrev pub bands : List (ℕ × ℕ × ℕ)
bands = (70, 0, 0) ∷ (0, 70, 0) ∷ (0, 0, 70) ∷ (60, 60, 0) ∷ (0, 60, 60) ∷ (60, 0, 60) ∷ []

abbrev pub decade_pen : ℕ → Draw
decade_pen i =
    if i % 10 == 0
    then set_pen 255 255 255
    else let c = get_or bands (i / 10 % 6) (0, 0, 0) in set_pen c.0 c.1 c.2

unfoldable pub render_decades : ℕ → List Draw
render_decades strip_len =
    set_pen 0 0 0 ∷ clear ∷ each 0 strip_len (λ i. decade_pen i ∷ pixel i 0 ∷ [])

unfoldable pub render_endpoints : ℕ → List Draw
render_endpoints strip_len =
    set_pen 0 0 0
    ∷ clear
    ∷ ((if leb 1 strip_len then set_pen 0 255 0 ∷ pixel 0 0 ∷ [] else [])
        ++ (if leb 2 strip_len then set_pen 255 0 0 ∷ pixel (strip_len - 1) 0 ∷ [] else []))

-- The indicator on LED 0 at the end of init(), and what info() draws.
abbrev pub indicator : Bool → List Draw
indicator bad_cfg =
    set_pen 0 0 0
    ∷ clear
    ∷ set_pen (if bad_cfg then 60 else 0) (if bad_cfg then 0 else 40) 0
    ∷ pixel 0 0
    ∷ []

abbrev pub info : List ℕ → ℕ → List Draw
info letters strip_len =
    set_pen 0 0 0
    ∷ clear
    ∷ set_pen 255 255 255
    ∷ set_font (ascii "bitmap8")
    ∷ text letters 0 0 strip_len
    ∷ []

-- What selftest() draws before its update().
unfoldable pub selftest : (ℕ → ℕ → Colour) → (Colour → ℕ) → ℕ → ℕ → List Draw
unfolding render_spectrum render_decades render_endpoints
selftest hue luminance strip_len id =
    if id == 41
    then indicator false
    else if id == 70
    then render_spectrum hue strip_len
    else if id == 71
    then render_decades strip_len
    else if id == 72
    then render_endpoints strip_len
    else render hue luminance strip_len 1 id

-- The set_rgb calls of update(): the red, green and blue of LEDs `i` to `i + n - 1`, from a frame
-- that holds B, G, R and 0 for each.
unfoldable pub set_leds : List ℕ → ℕ → ℕ → List (ℕ × ℕ × ℕ)
set_leds f i zero = []
set_leds f i (suc n) =
    let rest = set_leds f (suc i) n in
    (get_or f (i * 4 + 2) 0, get_or f (i * 4 + 1) 0, get_or f (i * 4 + 0) 0) ∷ rest
