-- ===== src/Net/Multicast/Loading.antt =====
-- The receiver while the pieces of a frame come in, and what a new piece does. `zl` is whether the
-- frame is compressed, `qs` are the pieces of what is sent, and `before` is the back buffer at the
-- start.
pub mod Step
use pixel_multiverse_firmwar.Prelude.{
  ℕ, ◌+◌, ◌^◌, ◌≤◌, ◌<◌, ◌≡◌, ◌≢◌, ◌⊎◌, refl, sym, ap, ◌∙◌, subst, Bool, true, false, ◌&&◌, ◌||◌,
  Option, none, some, List, [], ◌∷◌, ◌++◌, ◌==◌, leb, length, get_or, All, arith, Bool-cases, inl,
  inr, length-append, take, take_all, get_or-take, length-take, not, ltb,
}
use pixel_multiverse_firmwar.Net.Udp.Queue.{concat}
use pixel_multiverse_firmwar.Net.Multicast.{
  Receiver, Inflated, Chunk, seen, note_offset, place, write_chunk, count_frame, inflate, finish,
  take_chunk, accept_chunk,
}
use pixel_multiverse_firmwar.Net.Multicast.Pieces.{
  At, NonEmpty, Covered, weigh, total, At-range, At-Covered, At-apart, weigh-le, weigh-whole,
  weigh-more, drop-concat,
}
use pixel_multiverse_firmwar.Net.Multicast.Target.{
  target, back_with, zbuf_with, Roomy, length-target, target-with, Roomy-with,
}
use pixel_multiverse_firmwar.Net.Multicast.Place.{
  overwrite, overwrite_at, overwrite_before, overwrite_after, length-overwrite,
}

-- The datagram of a piece, which is its offset and its bytes.
abbrev pub piece : Bool → ℕ → List (List ℕ) → ℕ × List ℕ → Chunk
piece zl fid qs c = record {
  fid = fid;
  zlib = zl;
  total = length (concat qs);
  off = c.0;
  payload = c.1;
}

-- What the receiver writes the pieces to.
abbrev pub filling : Bool → Receiver → List ℕ
filling zl r = target zl r.back r.zbuf

module _ (uncompress : List ℕ → List ℕ → Inflated) (elapsed : ℕ) (zl : Bool) (before frame : List ℕ)
    (fid : ℕ) (qs : List (List ℕ)) where
  -- The frame is under way, and what has come of it is in its buffer.
  pub record Loading (r : Receiver) : Type 0 where
    pub which : r.cur_fid ≡ fid
    pub under_way : r.in_frame ≡ true
    pub kind : r.cur_zlib ≡ zl
    pub fresh : (r.have_done && fid == r.done_fid) ≡ false
    pub room : Roomy before (length (concat qs)) zl r.back r.zbuf r.zbuf_cap
    pub counted : r.received ≡ weigh length (λ o. seen o r.seen_off) 0 qs
    pub noted : length r.seen_off ≡ weigh (λ q. 1) (λ o. seen o r.seen_off) 0 qs
    pub more : r.received < length (concat qs)
    pub bytes :
        (off : ℕ) (p : List ℕ) (j : ℕ)
        → At 0 qs off p
        → seen off r.seen_off ≡ true
        → j < length p
        → get_or (filling zl r) (off + j) 0 ≡ get_or p j 0

  pub record Loaded (r : Receiver) : Type 0 where
    pub done : (r.have_done && fid == r.done_fid) ≡ true
    pub whole : r.back ≡ frame
    pub ready : r.frame_ready ≡ true
    pub complete : r.back_complete ≡ true

  -- The receiver with a piece in its place, before it is counted.
  unfoldable pub placed : Receiver → ℕ → List ℕ → Receiver
  placed r off p = record r {
    seen_off = r.seen_off ++ (off ∷ []);
    back = back_with zl r.back off p;
    zbuf = zbuf_with zl r.zbuf off p;
  }

-- What is sent is the frame, or inflates to it.
abbrev pub Stands : (List ℕ → List ℕ → Inflated) → Bool → (before frame sent : List ℕ) → Type 0
Stands uncompress false before frame sent = sent ≡ frame
Stands uncompress true before frame sent =
    uncompress before sent ≡ record { z_ok = true; dlen = length before; dest = frame }

-- Where the last byte of a raw or a compressed frame has come.
pub finish-Loaded :
    (uncompress : List ℕ → List ℕ → Inflated) (elapsed : ℕ) (zl : Bool) (before frame : List ℕ)
    (fid : ℕ) (qs : List (List ℕ)) (r : Receiver)
    → r.cur_fid ≡ fid
    → r.cur_zlib ≡ zl
    → Roomy before (length (concat qs)) zl r.back r.zbuf r.zbuf_cap
    → take (length (concat qs)) (filling zl r) ≡ concat qs
    → Stands uncompress zl before frame (concat qs)
    → Loaded uncompress elapsed zl before frame fid qs
        (finish uncompress elapsed r (length (concat qs)))
unfolding finish inflate count_frame
finish-Loaded uncompress elapsed false before frame fid qs r which kind room sent stands =
    rw kind (record {
      done = ground (arith, which);
      whole = sym (take_all (length (concat qs)) r.back room) ∙ (sent ∙ stands);
      ready = refl;
      complete = refl;
    })
finish-Loaded uncompress elapsed true before frame fid qs r which kind (same, z, held, size, room)
      sent stands =
    let blob : take (length (concat qs)) z ≡ concat qs =
      subst (λ t. take (length (concat qs)) (target true r.back t) ≡ concat qs) held sent in
    let fits : (length before == length before) ≡ true = ground arith in
    rw (kind, held, blob, same, stands, fits)
      (record { done = ground (arith, which); whole = refl; ready = refl; complete = refl })

pub note_offset-room :
    (r : Receiver) (off : ℕ)
    → length r.seen_off < 128
    → note_offset r off ≡ record r { seen_off = r.seen_off ++ (off ∷ []) }
unfolding note_offset
note_offset-room r off lt = ground (arith, lt)

pub write_chunk-placed :
    (uncompress : List ℕ → List ℕ → Inflated) (elapsed : ℕ) (zl : Bool) (before frame : List ℕ)
    (fid : ℕ) (qs : List (List ℕ)) (r : Receiver) (off : ℕ) (p : List ℕ)
    → r.cur_zlib ≡ zl
    → Roomy before (length (concat qs)) zl r.back r.zbuf r.zbuf_cap
    → off + length p ≤ length (concat qs)
    → write_chunk (record r { seen_off = r.seen_off ++ (off ∷ []) }) (piece zl fid qs (off, p))
      ≡ some (placed uncompress elapsed zl before frame fid qs r off p)
unfolding write_chunk place placed overwrite
write_chunk-placed uncompress elapsed false before frame fid qs r off p kind room le =
    ground (arith, kind, room, le)
write_chunk-placed uncompress elapsed true before frame fid qs r off p kind
      (same, z, held, size, room) le =
    let fits : leb (off + length p) (length z) ≡ true = ground (arith, le, size, room) in
    ground (arith, kind, held, fits)
