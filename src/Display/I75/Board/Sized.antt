-- ===== src/Display/I75/Board/Sized.antt =====
-- The frame buffers have the geometry's size from the start of the i75 board on.
use pixel_multiverse_firmwar.Prelude.{
  ℕ, ◌≡◌, ◌∙◌, Bool, true, false, Option, List, ◌++◌, length, ascii, Bool-cases, inl, inr,
}
use pixel_multiverse_firmwar.Display.Canvas.{Colour, Draw}
use pixel_multiverse_firmwar.Display.Frames.{Frames, allocate, double, back, write_back}
use pixel_multiverse_firmwar.Display.Frames.Sizes.{
  allocate-IsSized, IsSized, length-back, present-IsSized, write_back-IsSized,
}
use pixel_multiverse_firmwar.Display.I75.Geometry.{Geometry, load_geometry, buffer_size}
use pixel_multiverse_firmwar.Display.I75.Board.{info_calls, draw, info, selftest, boot_screen, init}

module _ (paint : List Draw → List ℕ → List ℕ)
    (keeps : (calls : List Draw) (m : List ℕ) → length (paint calls m) ≡ length m) where
  draw-IsSized :
      (size : ℕ) (calls : List Draw) (f : Frames)
      → IsSized size f
      → IsSized size (draw paint calls f)
  draw-IsSized size calls f v =
      let drawn_size = keeps calls (back f) ∙ length-back size f v in
      present-IsSized size (write_back f (paint calls (back f)))
        (write_back-IsSized size f v (paint calls (back f)) drawn_size)

  pub info-IsSized :
      (size : ℕ) (g : Geometry) (letters : List ℕ) (f : Frames)
      → IsSized size f
      → IsSized size (info paint g letters f)
  info-IsSized size g letters f v = draw-IsSized size (info_calls g letters) f v

  module _ (hue : ℕ → ℕ → Colour) (luminance : Colour → ℕ) (version : List ℕ) where
    boot_screen-IsSized :
        (size : ℕ) (g : Geometry) (bad_cfg : Bool) (f : Frames)
        → IsSized size f
        → IsSized size (boot_screen paint hue luminance version g bad_cfg f)
    unfolding boot_screen selftest
    boot_screen-IsSized size g true f v = info-IsSized size g (ascii "cfg: bad geometry") f v
    boot_screen-IsSized size g false f v = elim (Bool-cases (double f)) [
      | inl two ↦ rw two (info-IsSized size g version f v)
      | inr one ↦ rw one (info-IsSized size g (ascii "1buf " ++ version) f v)
    ]

    pub init-IsSized :
        (get : List ℕ → Option (List ℕ)) (got : Bool)
        → IsSized
            (buffer_size (init paint hue luminance version get got).0)
            (init paint hue luminance version get got).1
    unfolding init
    init-IsSized get got =
        let l = load_geometry get in
        boot_screen-IsSized (buffer_size l.0) l.0 l.1 (allocate (buffer_size l.0) got)
          (allocate-IsSized (buffer_size l.0) got)
