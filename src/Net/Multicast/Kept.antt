-- ===== src/Net/Multicast/Kept.antt =====
-- What the callback leaves as it is: the size of the back buffer, and a FLIP that waits.
use pixel_multiverse_firmwar.Prelude.{
  ℕ, ◌≡◌, ap, sym, ◌∙◌, ◌&&◌, some, List, ◌==◌, length, ◌+◌, arith, Bool-cases, Option-cases, inl,
  inr, take,
}
use pixel_multiverse_firmwar.Net.Multicast.{
  Receiver, Inflated, Chunk, refused, enter_frame, start_frame, note_offset, seen, write_chunk,
  count_frame, inflate, finish, take_chunk, accept_chunk, on_chunk, on_recv, chunk_of,
}
use pixel_multiverse_firmwar.Net.Multicast.Safety.{length-place}

enter_frame-back : (r : Receiver) (c : Chunk) → (enter_frame r c).back ≡ r.back
unfolding enter_frame start_frame
enter_frame-back r c = ground arith

note_offset-back : (r : Receiver) (off : ℕ) → (note_offset r off).back ≡ r.back
unfolding note_offset
note_offset-back r off = ground arith

write_chunk-back :
    (r r' : Receiver) (c : Chunk) → write_chunk r c ≡ some r' → length r'.back ≡ length r.back
unfolding write_chunk
write_chunk-back r r' c e = elim (Option-cases r.zbuf) [
  | inl no_buffer ↦ ground (arith, length-place r.back c.off c.payload)
  | inr (z, has) ↦ ground (arith, length-place r.back c.off c.payload)
]

module _ (uncompress : List ℕ → List ℕ → Inflated) (elapsed : ℕ) {A : Type 0} (g : Receiver → A)
    (enter : (r : Receiver) (c : Chunk) → g (enter_frame r c) ≡ g r)
    (note : (r : Receiver) (off : ℕ) → g (note_offset r off) ≡ g r)
    (write : (r r' : Receiver) (c : Chunk) → write_chunk r c ≡ some r' → g r' ≡ g r)
    (taken : (r : Receiver) (c : Chunk) → g (take_chunk uncompress elapsed r c) ≡ g r) where
  accept_chunk-keeps :
      (r r' : Receiver) (c : Chunk) → accept_chunk uncompress elapsed r c ≡ some r' → g r' ≡ g r
  unfolding accept_chunk
  accept_chunk-keeps r r' c e = elim (Bool-cases (seen c.off r.seen_off)) [
    | inl again ↦ let same : r ≡ r' = ground arith in ap g (sym same)
    | inr first ↦ elim (Option-cases (write_chunk (note_offset r c.off) c)) [
      | inl fault ↦ absurd (ground arith)
      | inr (w, written) ↦
          let same : take_chunk uncompress elapsed w c ≡ r' = ground arith in
          ap g (sym same) ∙ (taken w c ∙ (write (note_offset r c.off) w c written ∙ note r c.off))
    ]
  ]

  -- What the steps of the callback keep, the callback keeps.
  on_chunk-keeps :
      (r r' : Receiver) (c : Chunk) → on_chunk uncompress elapsed r c ≡ some r' → g r' ≡ g r
  unfolding on_chunk
  on_chunk-keeps r r' c e = elim (Bool-cases (refused r c)) [
    | inl bad ↦ let same : r ≡ r' = ground arith in ap g (sym same)
    | inr good ↦ elim (Bool-cases (r.have_done && c.fid == r.done_fid)) [
      | inl old ↦ let same : r ≡ r' = ground arith in ap g (sym same)
      | inr new ↦
          accept_chunk-keeps (enter_frame r c) r' c (ground (arith, good, new, e)) ∙ enter r c
    ]
  ]

module _ (uncompress : List ℕ → List ℕ → Inflated)
    (keeps : (dest src : List ℕ) → length (uncompress dest src).dest ≡ length dest)
    (elapsed : ℕ) where
  finish-back :
      (r : Receiver) (total : ℕ) → length (finish uncompress elapsed r total).back ≡ length r.back
  unfolding finish inflate count_frame
  finish-back r total = elim (Option-cases r.zbuf) [
    | inl no_buffer ↦ ground arith
    | inr (z, has) ↦ ground (arith, keeps r.back (take total z))
  ]

  take_chunk-back :
      (r : Receiver) (c : Chunk) → length (take_chunk uncompress elapsed r c).back ≡ length r.back
  unfolding take_chunk
  take_chunk-back r c =
      let counted : Receiver = record r { received = r.received + length c.payload } in
      ground (arith, finish-back counted c.total)

  pub on_recv-back :
      (r r' : Receiver) (p : List ℕ)
      → on_recv uncompress elapsed r (some p) ≡ some r'
      → length r'.back ≡ length r.back
  unfolding on_recv
  on_recv-back r r' p e = elim (Option-cases (on_chunk uncompress elapsed r (chunk_of p))) [
    | inl fault ↦ ground (arith, fault)
    | inr (w, ran) ↦
        let kept =
          on_chunk-keeps uncompress elapsed (λ t. length t.back)
            (λ t c. ap length (enter_frame-back t c)) (λ t off. ap length (note_offset-back t off))
            write_chunk-back take_chunk-back r w (chunk_of p) ran in
        ground (arith, ran, kept)
  ]

enter_frame-flip_ready : (r : Receiver) (c : Chunk) → (enter_frame r c).flip_ready ≡ r.flip_ready
unfolding enter_frame start_frame
enter_frame-flip_ready r c = ground arith

note_offset-flip_ready : (r : Receiver) (off : ℕ) → (note_offset r off).flip_ready ≡ r.flip_ready
unfolding note_offset
note_offset-flip_ready r off = ground arith

write_chunk-flip_ready :
    (r r' : Receiver) (c : Chunk) → write_chunk r c ≡ some r' → r'.flip_ready ≡ r.flip_ready
unfolding write_chunk
write_chunk-flip_ready r r' c e = elim (Option-cases r.zbuf) [
  | inl no_buffer ↦ ground arith
  | inr (z, has) ↦ ground arith
]

module _ (uncompress : List ℕ → List ℕ → Inflated) (elapsed : ℕ) where
  take_chunk-flip_ready :
      (r : Receiver) (c : Chunk) → (take_chunk uncompress elapsed r c).flip_ready ≡ r.flip_ready
  unfolding take_chunk finish inflate count_frame
  take_chunk-flip_ready r c = elim (Option-cases r.zbuf) [
    | inl no_buffer ↦ ground arith
    | inr (z, has) ↦ ground arith
  ]

  -- A part of a frame leaves a FLIP that waits, or none.
  pub on_chunk-flip_ready :
      (r r' : Receiver) (c : Chunk)
      → on_chunk uncompress elapsed r c ≡ some r'
      → r'.flip_ready ≡ r.flip_ready
  on_chunk-flip_ready r r' c e =
      on_chunk-keeps uncompress elapsed (λ t. t.flip_ready) enter_frame-flip_ready
        note_offset-flip_ready write_chunk-flip_ready take_chunk-flip_ready r r' c e
