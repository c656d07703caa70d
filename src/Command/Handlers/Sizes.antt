-- ===== src/Command/Handlers/Sizes.antt =====
-- The handlers that draw and load frames keep the size of the buffers.
use pixel_multiverse_firmwar.Prelude.{
  ℕ, ◌-◌, ◌≤◌, ◌≡◌, ◌∙◌, Bool, ◌||◌, not, List, length, get_or, le32, ltb, replicate, arith,
  Bool-cases, inl, inr, length-append, length-replicate, ◌==◌, true, some, leb, refl,
}
use pixel_multiverse_firmwar.Display.Canvas.{Draw}
use pixel_multiverse_firmwar.Display.Frames.{back}
use pixel_multiverse_firmwar.Display.Frames.Sizes.{
  IsSized, length-back, present-IsSized, write_back-IsSized,
}
use pixel_multiverse_firmwar.Net.Multicast.{Inflated}
use pixel_multiverse_firmwar.Command.Handlers.{
  Display, Board, filled, load_back, update, present_unless_held, draw, is_digit, run_test,
  handle_data, handle_test, inflate_back, inflate_read, handle_zdat,
}

pub length-filled : (size : ℕ) (got : List ℕ) → length got ≤ size → length (filled size got) ≡ size
length-filled size got le = omega (
  arith,
  length-append got (replicate (size - length got) 0),
  length-replicate {A = ℕ} (size - length got) 0,
  le,
)

abbrev pub Fits : ℕ → Board → Type 0
Fits size b = IsSized size b.frames

update-Fits : (size : ℕ) (b : Board) → Fits size b → Fits size (update b)
update-Fits size b v = present-IsSized size b.frames v

load_back-Fits :
    (size : ℕ) (b : Board) (m : List ℕ) → Fits size b → length m ≡ size → Fits size (load_back b m)
load_back-Fits size b m v e = write_back-IsSized size b.frames v m e

present_unless_held-Fits : (size : ℕ) (b : Board) → Fits size b → Fits size (present_unless_held b)
present_unless_held-Fits size b v = elim (Bool-cases b.deferred) [
  | inl held ↦ rw held v
  | inr live ↦ rw live (update-Fits size b v)
]

module _ {T : Type 0} (d : Display) (read : ℕ → T → List ℕ × T)
    (keeps : (calls : List Draw) (m : List ℕ) → length (d.paint calls m) ≡ length m)
    (bounded : (n : ℕ) (t : T) → length (read n t).0 ≤ n) where
  pub draw-Fits :
      (calls : List Draw) (b : Board) → Fits d.size b → Fits d.size (draw d read calls b)
  draw-Fits calls b v =
      let m = d.paint calls (back b.frames) in
      update-Fits d.size (load_back b m)
        (load_back-Fits d.size b m v (keeps calls (back b.frames) ∙ length-back d.size b.frames v))

  pub handle_data-Fits :
      (b : Board) (t : T) → Fits d.size b → Fits d.size (handle_data d read b t).0
  unfolding handle_data
  handle_data-Fits b t v =
      let got = (read d.size t).0 in
      let loaded =
        load_back-Fits d.size b (filled d.size got) v
          (length-filled d.size got (bounded d.size t)) in
      elim (Bool-cases (length got == d.size)) [
        | inl whole ↦
            rw whole (present_unless_held-Fits d.size (load_back b (filled d.size got)) loaded)
        | inr short ↦ rw short loaded
      ]

  run_test-Fits :
      (digits : List ℕ) (b : Board) → Fits d.size b → Fits d.size (run_test d read digits b)
  run_test-Fits digits b v =
      elim (Bool-cases
        (not (is_digit d read (get_or digits 0 0)) || not (is_digit d read (get_or digits 1 0)))) [
          | inl bad ↦ rw bad (draw-Fits _ b v)
          | inr good ↦ rw good (draw-Fits _ b v)
        ]

  pub handle_test-Fits :
      (b : Board) (t : T) → Fits d.size b → Fits d.size (handle_test d read b t).0
  unfolding handle_test
  handle_test-Fits b t v = elim (Bool-cases (length (read 2 t).0 == 2)) [
    | inl whole ↦ rw whole (run_test-Fits (read 2 t).0 b v)
    | inr short ↦ rw short v
  ]

  module _ (uncompress : List ℕ → List ℕ → Inflated) (malloc : ℕ → Bool)
      (same : (dest src : List ℕ) → length (uncompress dest src).dest ≡ length dest) where
    inflate_back-Fits :
        (b : Board) (compressed : List ℕ)
        → Fits d.size b
        → Fits d.size (inflate_back d read uncompress malloc b compressed)
    unfolding inflate_back
    inflate_back-Fits b compressed v =
        let out = uncompress (back b.frames) compressed in
        let loaded =
          load_back-Fits d.size b out.dest v
            (same (back b.frames) compressed ∙ length-back d.size b.frames v) in
        elim (Bool-cases out.z_ok) [
          | inr bad ↦ rw bad loaded
          | inl good ↦ elim (Bool-cases (out.dlen == d.size)) [
            | inr short ↦ rw (good, short) loaded
            | inl whole ↦
                rw (good, whole) (present_unless_held-Fits d.size (load_back b out.dest) loaded)
          ]
        ]

    pub handle_zdat-Fits :
        (b : Board) (t : T)
        → Fits d.size b
        → (r : Board × T) × (handle_zdat d read uncompress malloc b t ≡ some r) × Fits d.size r.0
    unfolding handle_zdat inflate_read
    handle_zdat-Fits b t v =
        let s = read 4 t in
        let n = le32 s.0 in
        let within : leb n n ≡ true = ground arith in
        elim (Bool-cases (length s.0 == 4)) [
          | inr cut ↦ rw cut (_, refl, draw-Fits _ b v)
          | inl sized ↦ elim (Bool-cases (ltb d.size n)) [
            | inl large ↦ rw (sized, large) (_, refl, v)
            | inr small ↦ elim (Bool-cases (malloc n)) [
              | inr refused ↦ rw (sized, small, refused) (_, refl, v)
              | inl room ↦ elim (Bool-cases (length (read n s.1).0 == n)) [
                | inr short ↦ rw (sized, small, room, within, short) (_, refl, v)
                | inl whole ↦
                    rw (sized, small, room, within, whole)
                      (_, refl, inflate_back-Fits b (read n s.1).0 v)
              ]
            ]
          ]
        ]
