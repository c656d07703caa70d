-- ===== src/Net/Multicast/Safety.antt =====
-- Which datagrams write inside the buffers, and what the others do.
use pixel_multiverse_firmwar.Prelude.{
  ℕ, ◌+◌, ◌^◌, ◌≤◌, ◌<◌, ◌≡◌, ◌≢◌, Bool, true, false, ◌&&◌, Option, none, some, List, ◌++◌, ltb,
  leb, ◌==◌, length, take, drop, arith, Bool-cases, Option-cases, inl, inr, subst, ◌∙◌, bytes_eq,
  bit_and, length-append, length-take, length-drop,
}
use pixel_multiverse_firmwar.Net.Multicast.{
  Receiver, Inflated, Chunk, refused, enter_frame, note_offset, place, write_chunk, finish,
  take_chunk, accept_chunk, on_chunk, start_frame, inflate, count_frame, on_recv, chunk_of, seen,
  flags_of, frame_magic, flag_flip, header_size,
}

abbrev pub zbuf_length : Option (List ℕ) → ℕ → ℕ
zbuf_length none cap = cap
zbuf_length (some z) cap = length z

abbrev pub is_none : Option (List ℕ) → Bool
is_none none = true
is_none (some z) = false

-- `multicast_init` gives the scratch buffer, if there is one, the size of the back buffer, and a
-- frame is begun as compressed only with a scratch buffer.
pub record IsValid (r : Receiver) : Type 0 where
  pub scratch : zbuf_length r.zbuf r.zbuf_cap ≡ r.zbuf_cap
  pub same_size : zbuf_length r.zbuf (length r.back) ≡ length r.back
  pub has_scratch : (r.in_frame && (r.cur_zlib && is_none r.zbuf)) ≡ false

-- A write keeps the buffer's length.
pub length-place :
    (buf : List ℕ) (off : ℕ) (bytes : List ℕ)
    → zbuf_length (place buf off bytes) (length buf) ≡ length buf
unfolding place
length-place buf off bytes = ground (
  arith,
  length-append (take off buf) (bytes ++ drop (off + length bytes) buf),
  length-append bytes (drop (off + length bytes) buf),
  length-take off buf,
  length-drop (off + length bytes) buf,
)

-- A datagram that passes the size checks and does not wrap ends inside both buffers.
refused-fits :
    (r : Receiver) (c : Chunk)
    → IsValid r
    → refused r c ≡ false
    → c.off + length c.payload < 2 ^ 32
    → c.off + length c.payload ≤ length r.back
unfolding refused
refused-fits r c v h lt = ground (arith, v.same_size)

module _ (r : Receiver) (c : Chunk) (v : IsValid r) (h : refused r c ≡ false) where
  enter_frame-IsValid : IsValid (enter_frame r c)
  unfolding enter_frame start_frame refused
  enter_frame-IsValid = record {
    scratch = ground (arith, v.scratch);
    same_size = ground (arith, v.same_size);
    has_scratch = ground (arith, v.has_scratch);
  }

  entered : ((enter_frame r c).in_frame ≡ true) × ((enter_frame r c).back ≡ r.back)
  unfolding enter_frame start_frame
  entered = ground arith

note_offset-IsValid : (r : Receiver) (off : ℕ) → IsValid r → IsValid (note_offset r off)
unfolding note_offset
note_offset-IsValid r off v = record {
  scratch = ground (arith, v.scratch);
  same_size = ground (arith, v.same_size);
  has_scratch = ground (arith, v.has_scratch);
}

note_offset-keeps :
    (r : Receiver) (off : ℕ)
    → ((note_offset r off).back ≡ r.back) × ((note_offset r off).in_frame ≡ r.in_frame)
unfolding note_offset
note_offset-keeps r off = ground arith

write_chunk-ne-none :
    (r : Receiver) (c : Chunk)
    → IsValid r
    → r.in_frame ≡ true
    → c.off + length c.payload ≤ length r.back
    → write_chunk r c ≢ none
unfolding write_chunk place
write_chunk-ne-none r c v i fits = ground (arith, v.scratch, v.same_size, v.has_scratch)

write_chunk-IsValid :
    (r r' : Receiver) (c : Chunk) → IsValid r → write_chunk r c ≡ some r' → IsValid r'
unfolding write_chunk
write_chunk-IsValid r r' c v e = elim (Option-cases r.zbuf) [
  | inl none_yet ↦ record {
    scratch = ground (arith, v.scratch);
    same_size = ground (arith, v.same_size, length-place r.back c.off c.payload);
    has_scratch = ground (arith, v.has_scratch);
  }
  | inr (b, has) ↦ record {
    scratch = ground (arith, v.scratch, length-place b c.off c.payload);
    same_size =
        ground
          (arith, v.same_size, length-place r.back c.off c.payload, length-place b c.off c.payload);
    has_scratch = ground (arith, v.has_scratch);
  }
]

module _ (uncompress : List ℕ → List ℕ → Inflated)
    (keeps : (dest src : List ℕ) → length (uncompress dest src).dest ≡ length dest)
    (elapsed : ℕ) where
  inflate-IsValid :
      (r : Receiver) (blob : List ℕ) → IsValid r → IsValid (inflate uncompress elapsed r blob)
  unfolding inflate count_frame
  inflate-IsValid r blob v = record {
    scratch = ground (arith, v.scratch);
    same_size = ground (arith, v.same_size, keeps r.back blob);
    has_scratch = ground (arith, v.has_scratch);
  }

  finish-IsValid :
      (r : Receiver) (total : ℕ) → IsValid r → IsValid (finish uncompress elapsed r total)
  unfolding finish count_frame inflate
  finish-IsValid r total v = elim (Option-cases r.zbuf) [
    | inl none_yet ↦ record {
      scratch = ground (arith, v.scratch);
      same_size = ground (arith, v.same_size);
      has_scratch = ground (arith, v.has_scratch);
    }
    | inr (b, has) ↦ record {
      scratch = ground (arith, v.scratch);
      same_size = ground (arith, v.same_size, keeps r.back (take total b));
      has_scratch = ground (arith, v.has_scratch);
    }
  ]

  take_chunk-IsValid :
      (r : Receiver) (c : Chunk) → IsValid r → IsValid (take_chunk uncompress elapsed r c)
  unfolding take_chunk
  take_chunk-IsValid r c v =
      let counted : Receiver = record r { received = r.received + length c.payload } in
      let v' : IsValid counted = record {
        scratch = v.scratch;
        same_size = v.same_size;
        has_scratch = v.has_scratch;
      } in
      elim (Bool-cases (leb c.total counted.received)) [
        | inl full ↦ rw full (finish-IsValid counted c.total v')
        | inr more ↦ rw more v'
      ]

  -- Either dropped, or written where it belongs: never outside a buffer.
  pub on_chunk-ne-none :
      (r : Receiver) (c : Chunk)
      → IsValid r
      → c.off + length c.payload < 2 ^ 32
      → on_chunk uncompress elapsed r c ≢ none
  unfolding on_chunk accept_chunk
  on_chunk-ne-none r c v lt = elim (Bool-cases (refused r c)) [
    | inl bad ↦ ground arith
    | inr good ↦
        let v1 = enter_frame-IsValid r c v good in
        let v2 = note_offset-IsValid (enter_frame r c) c.off v1 in
        let k = note_offset-keeps (enter_frame r c) c.off in
        let n = entered r c v good in
        let fits = refused-fits r c v good lt in
        let safe : write_chunk (note_offset (enter_frame r c) c.off) c ≢ none =
          write_chunk-ne-none (note_offset (enter_frame r c) c.off) c v2 (k.1 ∙ n.0)
            (rw (k.0, n.1) fits) in
        ground (arith, safe)
  ]

  pub on_chunk-IsValid :
      (r r' : Receiver) (c : Chunk)
      → IsValid r
      → on_chunk uncompress elapsed r c ≡ some r'
      → IsValid r'
  unfolding on_chunk accept_chunk
  on_chunk-IsValid r r' c v e = elim (Bool-cases (refused r c)) [
    | inl bad ↦ let same : r ≡ r' = ground arith in subst IsValid same v
    | inr good ↦ elim (Bool-cases (r.have_done && c.fid == r.done_fid)) [
      | inl old ↦ let same : r ≡ r' = ground arith in subst IsValid same v
      | inr new ↦ elim (Bool-cases (seen c.off (enter_frame r c).seen_off)) [
        | inl again ↦
            let same : enter_frame r c ≡ r' = ground arith in
            subst IsValid same (enter_frame-IsValid r c v good)
        | inr first ↦ elim (Option-cases (write_chunk (note_offset (enter_frame r c) c.off) c)) [
          | inl fault ↦ absurd (ground arith)
          | inr (w, written) ↦
              let same : take_chunk uncompress elapsed w c ≡ r' = ground arith in
              subst IsValid same (
                take_chunk-IsValid w c (
                  write_chunk-IsValid (note_offset (enter_frame r c) c.off) w c
                    (note_offset-IsValid (enter_frame r c) c.off (enter_frame-IsValid r c v good))
                    written))
        ]
      ]
    ]
  ]

  on_recv-ne-none :
      (r : Receiver) (p : List ℕ)
      → IsValid r
      → (chunk_of p).off + length (chunk_of p).payload < 2 ^ 32
      → on_recv uncompress elapsed r (some p) ≢ none
  unfolding on_recv
  on_recv-ne-none r p v lt = ground (arith, on_chunk-ne-none r (chunk_of p) v lt)

  on_recv-IsValid :
      (r r' : Receiver) (p : List ℕ)
      → IsValid r
      → on_recv uncompress elapsed r (some p) ≡ some r'
      → IsValid r'
  unfolding on_recv
  on_recv-IsValid r r' p v e = elim (Bool-cases (ltb (length p) header_size)) [
    | inl short ↦ let same : r ≡ r' = ground arith in subst IsValid same v
    | inr long ↦ elim (Bool-cases (bytes_eq (take 4 p) frame_magic)) [
      | inr other ↦ let same : r ≡ r' = ground arith in subst IsValid same v
      | inl magic ↦ elim (Bool-cases (bit_and (flags_of p) flag_flip == 0)) [
        | inl body ↦
            let sent : on_chunk uncompress elapsed r (chunk_of p) ≡ some r' = ground arith in
            on_chunk-IsValid r r' (chunk_of p) v sent
        | inr flip ↦
            let armed : Receiver = record r { flip_ready = true } in
            let same : armed ≡ r' = ground arith in
            subst IsValid same
              (record { scratch = v.scratch; same_size = v.same_size; has_scratch = v.has_scratch })
      ]
    ]
  ]

  -- A receiver whose scratch buffer, if it has one, has the size of the back buffer, and a datagram whose offset and
  -- payload length do not add up to 2 ^ 32: the callback runs through without a write outside its
  -- buffers, and the buffers keep those sizes. `uncompress` is taken to keep the length of its
  -- destination.
  pub on_recv-in_bounds :
      (r : Receiver) (p : List ℕ)
      → IsValid r
      → (chunk_of p).off + length (chunk_of p).payload < 2 ^ 32
      → (r' : Receiver) × (on_recv uncompress elapsed r (some p) ≡ some r') × IsValid r'
  on_recv-in_bounds r p v lt = elim (Option-cases (on_recv uncompress elapsed r (some p))) [
    | inl fault ↦ absurd (on_recv-ne-none r p v lt fault)
    | inr (r', ran) ↦ (r', ran, on_recv-IsValid r r' p v ran)
  ]

module _ (uncompress : List ℕ → List ℕ → Inflated) (elapsed : ℕ) where
  -- The first datagram of a raw frame whose offset and payload length add up to 2 ^ 32 or a little
  -- more: the sum wraps in a 32-bit `size_t`, the bound check passes, and the callback writes outside
  -- the back buffer.
  pub on_recv-overflow :
      (r : Receiver) (p : List ℕ)
      → (header_size ≤ length p) × (bytes_eq (take 4 p) frame_magic ≡ true)
      → flags_of p ≡ 0
      → (chunk_of p).total ≡ length r.back
      → length r.back < 2 ^ 32
      → 2 ^ 32 ≤ (chunk_of p).off + length (chunk_of p).payload
      → (chunk_of p).off + length (chunk_of p).payload ≤ 2 ^ 32 + length r.back
      → (r.have_done ≡ false) × (r.in_frame ≡ false)
      → on_recv uncompress elapsed r (some p) ≡ none
  unfolding on_recv on_chunk refused enter_frame start_frame accept_chunk seen note_offset
      write_chunk place chunk_of
  on_recv-overflow r p head raw total short wraps near idle =
      ground (arith, head.0, head.1, raw, total, short, wraps, near, idle.0, idle.1)
