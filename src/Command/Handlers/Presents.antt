-- ===== src/Command/Handlers/Presents.antt =====
-- What is shown after a frame command.
use pixel_multiverse_firmwar.Prelude.{
  ℕ, ◌-◌, ◌≡◌, ◌⊎◌, ◌∙◌, refl, Bool, true, false, List, ltb, ◌==◌, length, append-nil, le32, arith,
  Bool-cases, inl, inr, some, leb,
}
use pixel_multiverse_firmwar.Display.Frames.{shown, back, double}
use pixel_multiverse_firmwar.Display.Frames.Presenting.{present-write_back, write_back-shown}
use pixel_multiverse_firmwar.Net.Multicast.{Inflated}
use pixel_multiverse_firmwar.Command.Handlers.{
  Display, Board, filled, handle_data, inflate_back, inflate_read, handle_zdat, handle_flip,
}

filled_whole : (size : ℕ) (got : List ℕ) → length got ≡ size → filled size got ≡ got
filled_whole size got h =
    let none_left : size - length got ≡ 0 = omega arith in rw none_left (append-nil got)

module _ {T : Type 0} (d : Display) (read : ℕ → T → List ℕ × T) where
  -- In live mode, a `data` frame that comes whole is the one shown, with one buffer or two.
  pub handle_data-live :
      (b : Board) (t : T)
      → b.deferred ≡ false
      → length (read d.size t).0 ≡ d.size
      → shown (handle_data d read b t).0.frames ≡ (read d.size t).0
  unfolding handle_data
  handle_data-live b t live whole =
      let got = (read d.size t).0 in
      let test : (length got == d.size) ≡ true = ground (arith, whole) in
      rw (test, live)
        (present-write_back b.frames (filled d.size got) ∙ filled_whole d.size got whole)

  -- In hold mode and with two buffers, a `data` frame, whole or cut short, changes nothing that is
  -- shown; a `flip` then shows the bytes that came, and zeros for those that did not.
  pub handle_data-held :
      (b : Board) (t : T)
      → b.deferred ≡ true
      → double b.frames ≡ true
      → (shown (handle_data d read b t).0.frames ≡ shown b.frames)
        × (shown (handle_flip (handle_data d read b t).0).frames ≡ filled d.size (read d.size t).0)
  unfolding handle_data
  handle_data-held b t held two =
      let got = (read d.size t).0 in
      let kept = write_back-shown b.frames (filled d.size got) two in
      let flipped = present-write_back b.frames (filled d.size got) in
      elim (Bool-cases (length got == d.size)) [
        | inl whole ↦ rw (whole, held) (kept.0, flipped)
        | inr cut ↦ rw cut (kept.0, flipped)
      ]

  module _ (uncompress : List ℕ → List ℕ → Inflated) (malloc : ℕ → Bool) where
    inflate_back-whole :
        (b : Board) (compressed : List ℕ)
        → double b.frames ≡ true
        → (shown (inflate_back d read uncompress malloc b compressed).frames ≡ shown b.frames)
          ⊎ (((uncompress (back b.frames) compressed).z_ok ≡ true)
              × ((uncompress (back b.frames) compressed).dlen ≡ d.size)
              × (shown (inflate_back d read uncompress malloc b compressed).frames
                  ≡ (uncompress (back b.frames) compressed).dest))
    unfolding inflate_back
    inflate_back-whole b compressed two =
        let out = uncompress (back b.frames) compressed in
        let kept = write_back-shown b.frames out.dest two in
        elim (Bool-cases out.z_ok) [
          | inr failed ↦ rw failed (inl kept.0)
          | inl good ↦ elim (Bool-cases (out.dlen == d.size)) [
            | inr short ↦ rw (good, short) (inl kept.0)
            | inl full ↦ elim (Bool-cases b.deferred) [
              | inl held ↦ rw (good, full, held) (inl kept.0)
              | inr live ↦
                  rw (good, full, live)
                    (inr (refl, ground (arith, full), present-write_back b.frames out.dest))
            ]
          ]
        ]

    -- With two buffers and the four bytes of the size read: a `zdat` command writes nothing behind the
    -- buffer that it allocates, and leaves what is shown, or shows a frame that zlib inflated without
    -- an error and to the full size.
    pub handle_zdat-whole :
        (b : Board) (t : T)
        → double b.frames ≡ true
        → length (read 4 t).0 ≡ 4
        → (r : Board × T) × (handle_zdat d read uncompress malloc b t ≡ some r)
          × ((shown r.0.frames ≡ shown b.frames)
              ⊎ ((compressed : List ℕ) × ((uncompress (back b.frames) compressed).z_ok ≡ true)
                  × ((uncompress (back b.frames) compressed).dlen ≡ d.size)
                  × (shown r.0.frames ≡ (uncompress (back b.frames) compressed).dest)))
    unfolding handle_zdat inflate_read
    handle_zdat-whole b t two four =
        let s = read 4 t in
        let csize = le32 s.0 in
        let r = read csize s.1 in
        let sized : (length s.0 == 4) ≡ true = ground (arith, four) in
        let within : leb csize csize ≡ true = ground arith in
        elim (Bool-cases (ltb d.size csize)) [
          | inl large ↦ rw (sized, large) (_, refl, inl refl)
          | inr small ↦ elim (Bool-cases (malloc csize)) [
            | inr refused ↦ rw (sized, small, refused) (_, refl, inl refl)
            | inl room ↦ elim (Bool-cases (length r.0 == csize)) [
              | inr cut ↦ rw (sized, small, room, within, cut) (_, refl, inl refl)
              | inl whole ↦
                  rw (sized, small, room, within, whole)
                    (
                      _,
                      refl,
                      elim (inflate_back-whole b r.0 two) [
                        | inl kept ↦ inl kept
                        | inr done ↦ inr (r.0, done.0, done.1, done.2)
                      ],
                    )
            ]
          ]
        ]
