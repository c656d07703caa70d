-- ===== src/Display/I75/Board.antt =====
-- The i75 board as a whole (display/i75/i75.cpp): what `init`, `info` and `selftest` leave in the
-- frame buffers. `paint` is what pico_graphics makes of drawing calls, `version` MULTIVERSE_VERSION,
-- and `got` whether the second frame buffer could be allocated. The driver sends out `shown`.
pub mod Sized
use pixel_multiverse_firmwar.Prelude.{
  ℕ, ◌≡◌, refl, Bool, not, Option, List, [], ◌∷◌, ◌++◌, ◌==◌, if◌then◌else◌, replicate, ascii,
  Bool-cases, inl, inr,
}
use pixel_multiverse_firmwar.Display.Canvas.{Colour, Draw, set_pen, clear, set_font, text}
use pixel_multiverse_firmwar.Display.Frames.{
  Frames, allocate, double, back, shown, write_back, present,
}
use pixel_multiverse_firmwar.Display.Plasma.{ColourOrder, order_opt, rgb}
use pixel_multiverse_firmwar.Display.I75.Geometry.{Geometry, load_geometry, buffer_size}
use pixel_multiverse_firmwar.Display.I75.Layout.{drawn}

-- An order that is absent or unknown is RGB.
unfoldable pub parse_order : (List ℕ → Option (List ℕ)) → ColourOrder
unfolding order_opt
parse_order get = order_opt rgb (get (ascii "order"))

-- What info() draws.
abbrev pub info_calls : Geometry → List ℕ → List Draw
info_calls g letters =
    set_pen 0 0 0
    ∷ clear
    ∷ set_pen 255 255 255
    ∷ set_font (ascii "bitmap8")
    ∷ text letters 0 0 g.chain_w
    ∷ []

module _ (paint : List Draw → List ℕ → List ℕ) where
  -- Calls through `gfx`, which is the back buffer's, and then update().
  abbrev pub draw : List Draw → Frames → Frames
  draw calls f = present (write_back f (paint calls (back f)))

  abbrev pub info : Geometry → List ℕ → Frames → Frames
  info g letters f = draw (info_calls g letters) f

  module _ (hue : ℕ → ℕ → Colour) (luminance : Colour → ℕ) (version : List ℕ) where
    unfoldable pub selftest : Geometry → ℕ → Frames → Frames
    unfolding drawn
    selftest g id f = if id == 41 then info g version f else draw (drawn hue luminance g id) f

    -- The boot screen at the end of init().
    unfoldable pub boot_screen : Geometry → Bool → Frames → Frames
    unfolding selftest double
    boot_screen g bad_cfg f =
        if bad_cfg
        then info g (ascii "cfg: bad geometry") f
        else if not (double f)
        then info g (ascii "1buf " ++ version) f
        else selftest g 41 f

    unfoldable pub init : (List ℕ → Option (List ℕ)) → Bool → Geometry × Frames
    unfolding load_geometry boot_screen
    init get got =
        let l = load_geometry get in (l.0, boot_screen l.0 l.1 (allocate (buffer_size l.0) got))

    -- The text of the boot screen.
    abbrev pub boot_text : Bool → Bool → List ℕ
    boot_text bad_cfg got =
        if bad_cfg
        then ascii "cfg: bad geometry"
        else if got
        then version
        else ascii "1buf " ++ version

    -- Whatever is configured: init() ends with its text shown, drawn on a fresh frame of the
    -- geometry's size, and there are two buffers exactly when the second could be allocated.
    pub init-boot_text :
        (get : List ℕ → Option (List ℕ)) (got : Bool)
        → (shown (init get got).1
            ≡ paint
                (info_calls (init get got).0 (boot_text (load_geometry get).1 got))
                (replicate (buffer_size (init get got).0) 0))
          × (double (init get got).1 ≡ got)
    unfolding init boot_screen selftest double present back shown write_back
    init-boot_text get got = elim (Bool-cases got) [
      | inl two ↦ elim (Bool-cases (load_geometry get).1) [
        | inl bad ↦ rw (two, bad) (refl, refl)
        | inr good ↦ rw (two, good) (refl, refl)
      ]
      | inr one ↦ elim (Bool-cases (load_geometry get).1) [
        | inl bad ↦ rw (one, bad) (refl, refl)
        | inr good ↦ rw (one, good) (refl, refl)
      ]
    ]
