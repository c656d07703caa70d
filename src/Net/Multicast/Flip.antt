-- ===== src/Net/Multicast/Flip.antt =====
-- Datagrams that come twice, and when a FLIP datagram presents a frame.
use pixel_multiverse_firmwar.Prelude.{
  ℕ, ◌+◌, ◌<◌, ◌≡◌, ◌∙◌, sym, ap, subst, Bool, true, false, ◌&&◌, ◌||◌, some, List, [], ◌∷◌, ◌++◌,
  leb, ◌==◌, length, arith, Bool-cases, Option-cases, inl, inr,
}
use pixel_multiverse_firmwar.Net.Multicast.{
  Receiver, Inflated, Chunk, enter_frame, start_frame, seen, note_offset, write_chunk, inflate,
  finish, max_chunks, count_frame, take_chunk, accept_chunk, on_chunk, refused, take_flip,
}

seen-append : (off : ℕ) (os : List ℕ) → seen off (os ++ (off ∷ [])) ≡ true
unfolding seen
seen-append off [] = ground arith
seen-append off (o ∷ os) = ground (arith, seen-append off os)

-- A receiver on which this chunk changes nothing: its frame is done, or is under way with the
-- chunk's offset noted.
unfoldable settled_by : Receiver → Chunk → Bool
unfolding seen
settled_by r c =
    (r.have_done && c.fid == r.done_fid)
    || (r.in_frame && (c.fid == r.cur_fid && seen c.off r.seen_off))

settled_in :
    (r : Receiver) (c : Chunk)
    → r.cur_fid ≡ c.fid
    → r.in_frame ≡ true
    → seen c.off r.seen_off ≡ true
    → settled_by r c ≡ true
unfolding settled_by
settled_in r c f i s = ground (arith, f, i, s)

module _ (uncompress : List ℕ → List ℕ → Inflated) (elapsed : ℕ) where
  on_chunk-settled :
      (r : Receiver) (c : Chunk) → settled_by r c ≡ true → on_chunk uncompress elapsed r c ≡ some r
  unfolding on_chunk settled_by enter_frame accept_chunk
  on_chunk-settled r c h = ground (arith, h)

  finish-done :
      (r : Receiver) (total : ℕ)
      → ((finish uncompress elapsed r total).have_done ≡ true)
        × ((finish uncompress elapsed r total).done_fid ≡ r.cur_fid)
  unfolding finish inflate count_frame
  finish-done r total = elim (Option-cases r.zbuf) [
    | inl none_yet ↦ (ground arith, ground arith)
    | inr (z, has) ↦ (ground arith, ground arith)
  ]

  take_chunk-settled :
      (r : Receiver) (c : Chunk)
      → r.cur_fid ≡ c.fid
      → r.in_frame ≡ true
      → seen c.off r.seen_off ≡ true
      → settled_by (take_chunk uncompress elapsed r c) c ≡ true
  unfolding take_chunk settled_by
  take_chunk-settled r c f i s =
      let counted : Receiver = record r { received = r.received + length c.payload } in
      let d = finish-done counted c.total in
      elim (Bool-cases (leb c.total counted.received)) [
        | inl full ↦ rw full (ground (arith, d.0, d.1, f))
        | inr more ↦ rw more (ground (arith, f, i, s))
      ]

  write_chunk-keeps :
      (r w : Receiver) (c : Chunk)
      → write_chunk r c ≡ some w
      → (w.cur_fid ≡ r.cur_fid) × (w.in_frame ≡ r.in_frame) × (w.seen_off ≡ r.seen_off)
  unfolding write_chunk
  write_chunk-keeps r w c e = elim (Option-cases r.zbuf) [
    | inl none_yet ↦ (ground arith, ground arith, ground arith)
    | inr (z, has) ↦ (ground arith, ground arith, ground arith)
  ]

  entered :
      (r : Receiver) (c : Chunk)
      → ((enter_frame r c).cur_fid ≡ c.fid) × ((enter_frame r c).in_frame ≡ true)
  unfolding enter_frame start_frame
  entered r c = (ground arith, ground arith)

  noted :
      (r : Receiver) (off : ℕ)
      → length r.seen_off < max_chunks
      → (seen off (note_offset r off).seen_off ≡ true)
        × ((note_offset r off).cur_fid ≡ r.cur_fid)
        × ((note_offset r off).in_frame ≡ r.in_frame)
  unfolding note_offset
  noted r off lt = (ground (arith, lt, seen-append off r.seen_off), ground arith, ground arith)

  -- A chunk that comes a second time changes nothing, while the frame has had fewer than 128 chunks
  -- before it.
  pub on_chunk-again :
      (r r' : Receiver) (c : Chunk)
      → length (enter_frame r c).seen_off < max_chunks
      → on_chunk uncompress elapsed r c ≡ some r'
      → on_chunk uncompress elapsed r' c ≡ some r'
  unfolding on_chunk accept_chunk
  on_chunk-again r r' c lt e = elim (Bool-cases (refused r c)) [
    | inl bad ↦ let same : r ≡ r' = ground arith in rw (sym same) (ground arith)
    | inr good ↦ elim (Bool-cases (r.have_done && c.fid == r.done_fid)) [
      | inl old ↦ let same : r ≡ r' = ground arith in rw (sym same) (ground arith)
      | inr new ↦
          let f = enter_frame r c in
          let n = entered r c in
          on_chunk-settled r' c (elim (Bool-cases (seen c.off f.seen_off)) [
            | inl again ↦
                let same : f ≡ r' = ground arith in
                let noted_f : settled_by f c ≡ true = settled_in f c n.0 n.1 again in
                subst (λ t. settled_by t c ≡ true) same noted_f
            | inr first ↦ elim (Option-cases (write_chunk (note_offset f c.off) c)) [
              | inl fault ↦ absurd (ground arith)
              | inr (w, written) ↦
                  let k = write_chunk-keeps (note_offset f c.off) w c written in
                  let o = noted f c.off lt in
                  let same : take_chunk uncompress elapsed w c ≡ r' = ground arith in
                  subst (λ t. settled_by t c ≡ true) same
                    (take_chunk-settled w c (k.0 ∙ (o.1 ∙ n.0)) (k.1 ∙ (o.2 ∙ n.1))
                      (ap (λ t. seen c.off t) k.2 ∙ o.0))
            ]
          ])
    ]
  ]

-- With a FLIP pending: once it is answered, with a frame or without, the next FLIP is gated unless
-- a frame is complete by then, and so is the pending one when a frame is begun first.
pub take_flip-gated :
    (r : Receiver) (c : Chunk)
    → r.flip_ready ≡ true
    → ((take_flip (record (take_flip r).1 { flip_ready = true })).0 ≡ false)
      × ((take_flip (start_frame r c)).0 ≡ false)
unfolding take_flip start_frame
take_flip-gated r c f = (ground (arith, f), ground (arith, f))
