-- ===== src/Display/Tests.antt =====
-- The displays at concrete configurations: two stacked panels, an empty store, a short strip.
use pixel_multiverse_firmwar.Prelude.{
  ℕ, ◌<◌, ◌≡◌, refl, subst, Option, none, some, List, All, arith, ascii, if◌then◌else◌, bytes_eq,
}
use pixel_multiverse_firmwar.Display.Canvas.{Colour, Inside}
use pixel_multiverse_firmwar.Display.Selftest.{render}
use pixel_multiverse_firmwar.Display.Selftest.Bounds.{render-Inside}
use pixel_multiverse_firmwar.Display.I75.Geometry.{Geometry, load_geometry, serpentine_td}
use pixel_multiverse_firmwar.Display.I75.Geometry.Renderable.{
  IsRenderable, load_geometry-IsRenderable,
}
use pixel_multiverse_firmwar.Display.I75.Layout.{map_to_chain, drawn}
use pixel_multiverse_firmwar.Display.I75.Layout.Bijection.{map_to_chain-lt, map_to_chain_inj}
use pixel_multiverse_firmwar.Display.I75.Layout.Drawn.{drawn-Inside}

-- Two panels of 64 x 32, one above the other.
abbrev stacked : List ℕ → Option (List ℕ)
stacked key =
    if bytes_eq key (ascii "panel_w")
    then some (ascii "64")
    else if bytes_eq key (ascii "panel_h")
    then some (ascii "32")
    else if bytes_eq key (ascii "panels_y")
    then some (ascii "2")
    else if bytes_eq key (ascii "chain")
    then some (ascii "serpentine-td")
    else if bytes_eq key (ascii "length")
    then some (ascii "12")
    else none

abbrev two_panels : Geometry
two_panels = record {
  panel_w = 64;
  panel_h = 32;
  panels_x = 1;
  panels_y = 2;
  display_w = 64;
  display_h = 64;
  chain_w = 128;
  chain_h = 32;
  chain = serpentine_td;
}

two_panels_test : (load_geometry stacked).0 ≡ two_panels
unfolding load_geometry bytes_eq
two_panels_test = refl

two_panels-IsRenderable : IsRenderable two_panels
two_panels-IsRenderable = subst IsRenderable two_panels_test (load_geometry-IsRenderable stacked)

abbrev flat_hue : ℕ → ℕ → Colour
flat_hue idx total = record { red = 255; green = 0; blue = 0 }

abbrev dark : Colour → ℕ
dark c = 0

load_geometry-IsRenderable_example : IsRenderable (load_geometry stacked).0
load_geometry-IsRenderable_example = load_geometry-IsRenderable stacked

map_to_chain-lt_example :
    ((map_to_chain two_panels 5 40).0 < 128) × ((map_to_chain two_panels 5 40).1 < 32)
map_to_chain-lt_example =
    map_to_chain-lt two_panels two_panels-IsRenderable 5 40 (omega arith) (omega arith)

abbrev column : ℕ
column = 5

abbrev line : ℕ
line = 40

map_to_chain_inj_example : (column ≡ column) × (line ≡ line)
map_to_chain_inj_example =
    map_to_chain_inj two_panels two_panels-IsRenderable 5 40 5 40 (omega arith) (omega arith)
      (omega arith) (omega arith) refl

drawn-Inside_example : All (Inside 128 32) (drawn flat_hue dark two_panels 31)
drawn-Inside_example =
    drawn-Inside two_panels two_panels-IsRenderable flat_hue dark 31 (omega arith)

render-Inside_example : All (Inside 64 32) (render flat_hue dark 64 32 50)
render-Inside_example = render-Inside 64 32 flat_hue dark 50 (omega arith) (omega arith)
