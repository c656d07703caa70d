-- ===== src/Net/Multicast.antt =====
-- src/net/multicast.cpp, the W build: reassembly of a frame from datagrams, and the synced flip.
-- A datagram is its bytes. `uncompress` is zlib's, and `elapsed` the time that the call took.
-- The display's back buffer belongs to the receiver's state, since the callback writes it.
pub mod Safety
pub mod Flip
pub mod Pieces
pub mod Place
pub mod Target
pub mod Loading
pub mod Rebuilt
pub mod Arrival
pub mod Kept
use pixel_multiverse_firmwar.Prelude.{
  ℕ, ◌+◌, ◌-◌, ◌%◌, ◌^◌, Bool, true, false, ◌&&◌, ◌||◌, not, Option, none, some, List, [], ◌∷◌,
  ◌++◌, ltb, leb, ◌==◌, if◌then◌else◌, replicate, length, take, drop, bytes_eq, le16, le32, bit_and,
}

abbrev pub header_size : ℕ
header_size = 16

abbrev pub frame_magic : List ℕ
frame_magic = b'M' ∷ b'V' ∷ b'F' ∷ b'1' ∷ []

abbrev pub flag_flip : ℕ
flag_flip = 1

abbrev pub flag_zlib : ℕ
flag_zlib = 2

abbrev pub max_chunks : ℕ
max_chunks = 128

-- The file's variables. `zbuf` is none for nullptr.
pub record Receiver : Type 0 where
  pub cur_fid : ℕ
  pub in_frame : Bool
  pub done_fid : ℕ
  pub have_done : Bool
  pub cur_zlib : Bool
  pub seen_off : List ℕ
  pub received : ℕ
  pub frame_ready : Bool
  pub flip_ready : Bool
  pub back_complete : Bool
  pub zbuf : Option (List ℕ)
  pub zbuf_cap : ℕ
  pub back : List ℕ
  pub stat_frames : ℕ
  pub stat_dropped : ℕ
  pub stat_dmax_us : ℕ
  pub stat_flip_ok : ℕ
  pub stat_flip_gate : ℕ

-- uint32_t counters
abbrev pub bump32 : ℕ → ℕ
bump32 n = (n + 1) % 2 ^ 32

-- What `uncompress` reports: whether it returned Z_OK, the length that it wrote, and the destination.
pub record Inflated : Type 0 where
  pub z_ok : Bool
  pub dlen : ℕ
  pub dest : List ℕ

-- The fields of a datagram's header.
pub record Chunk : Type 0 where
  pub fid : ℕ
  pub zlib : Bool
  pub total : ℕ
  pub off : ℕ
  pub payload : List ℕ

unfoldable pub flags_of : List ℕ → ℕ
flags_of p = le16 (drop 6 p)

unfoldable pub chunk_of : List ℕ → Chunk
unfolding flags_of
chunk_of p = record {
  fid = le16 (drop 4 p);
  zlib = not (bit_and (flags_of p) flag_zlib == 0);
  total = le32 (drop 8 p);
  off = le32 (drop 12 p);
  payload = drop header_size p;
}

-- static_cast<size_t>(off) + clen: `size_t` has 32 bits on the RP2040 and RP2350.
abbrev pub end_of : Chunk → ℕ
end_of c = (c.off + length c.payload) % 2 ^ 32

-- The checks on the sizes; true is a datagram that is dropped.
unfoldable pub refused : Receiver → Chunk → Bool
refused r c =
    if c.zlib
    then elim r.zbuf [
      | none ↦ true
      | some z ↦ c.total == 0 || (ltb r.zbuf_cap c.total || ltb c.total (end_of c))
    ]
    else not (c.total == length r.back) || ltb (length r.back) (end_of c)

-- A new frame id abandons an incomplete frame.
unfoldable pub start_frame : Receiver → Chunk → Receiver
start_frame r c = record r {
  stat_dropped = if r.in_frame then bump32 r.stat_dropped else r.stat_dropped;
  cur_fid = c.fid;
  in_frame = true;
  received = 0;
  seen_off = [];
  cur_zlib = c.zlib;
  back_complete = false;
}

unfoldable pub enter_frame : Receiver → Chunk → Receiver
unfolding start_frame
enter_frame r c = if not (c.fid == r.cur_fid) || not r.in_frame then start_frame r c else r

unfoldable pub seen : ℕ → List ℕ → Bool
seen off [] = false
seen off (o ∷ os) = o == off || seen off os

unfoldable pub note_offset : Receiver → ℕ → Receiver
note_offset r off =
    if ltb (length r.seen_off) max_chunks
    then record r { seen_off = r.seen_off ++ (off ∷ []) }
    else r

-- pbuf_copy_partial(p, dst + off, clen, HDR). A write that leaves the buffer is none.
unfoldable pub place : List ℕ → ℕ → List ℕ → Option (List ℕ)
place buf off bytes =
    if leb (off + length bytes) (length buf)
    then some (take off buf ++ (bytes ++ drop (off + length bytes) buf))
    else none

unfoldable pub write_chunk : Receiver → Chunk → Option Receiver
unfolding place
write_chunk r c =
    if r.cur_zlib
    then elim r.zbuf [
      | none ↦ none
      | some z ↦ elim (place z c.off c.payload) [
        | none ↦ none
        | some z' ↦ some (record r { zbuf = some z' })
      ]
    ]
    else elim (place r.back c.off c.payload) [ none ↦ none | some b ↦ some (record r { back = b }) ]

unfoldable pub count_frame : Receiver → Receiver
count_frame r = record r {
  frame_ready = true;
  back_complete = true;
  stat_frames = bump32 r.stat_frames;
}

module _ (uncompress : List ℕ → List ℕ → Inflated) (elapsed : ℕ) where
  -- The reassembled blob goes through zlib straight into the back buffer.
  unfoldable pub inflate : Receiver → List ℕ → Receiver
  unfolding count_frame
  inflate r blob =
      let out = uncompress r.back blob in
      let timed : Receiver = record r {
        back = out.dest;
        stat_dmax_us = if ltb r.stat_dmax_us elapsed then elapsed else r.stat_dmax_us;
      } in
      if out.z_ok && out.dlen == length r.back then count_frame timed else timed

  unfoldable pub finish : Receiver → ℕ → Receiver
  unfolding inflate count_frame
  finish r total =
      let closed : Receiver = record r {
        in_frame = false;
        done_fid = r.cur_fid;
        have_done = true;
      } in
      if r.cur_zlib
      then elim r.zbuf [ none ↦ closed | some z ↦ inflate closed (take total z) ]
      else count_frame closed

  unfoldable pub take_chunk : Receiver → Chunk → Receiver
  unfolding finish
  take_chunk r c =
      let counted : Receiver = record r { received = r.received + length c.payload } in
      if leb c.total counted.received then finish counted c.total else counted

  -- From the duplicate test on.
  unfoldable pub accept_chunk : Receiver → Chunk → Option Receiver
  unfolding seen note_offset write_chunk take_chunk
  accept_chunk r c =
      if seen c.off r.seen_off then some r else elim (write_chunk (note_offset r c.off) c) [
        | none ↦ none
        | some r' ↦ some (take_chunk r' c)
      ]

  unfoldable pub on_chunk : Receiver → Chunk → Option Receiver
  unfolding refused enter_frame accept_chunk
  on_chunk r c =
      if refused r c
      then some r
      else if r.have_done && c.fid == r.done_fid
      then some r
      else accept_chunk (enter_frame r c) c

  -- The receive callback. None is a write outside a buffer.
  unfoldable pub on_recv : Receiver → Option (List ℕ) → Option Receiver
  unfolding flags_of chunk_of on_chunk
  on_recv r none = some r
  on_recv r (some p) =
      if ltb (length p) header_size
      then some r
      else if not (bytes_eq (take 4 p) frame_magic)
      then some r
      else if not (bit_and (flags_of p) flag_flip == 0)
      then some (record r { flip_ready = true })
      else on_chunk r (chunk_of p)

-- The receiver before `multicast_init`; its back buffer is the display's.
abbrev pub new_receiver : Receiver
new_receiver = record {
  cur_fid = 0;
  in_frame = false;
  done_fid = 0;
  have_done = false;
  cur_zlib = false;
  seen_off = [];
  received = 0;
  frame_ready = false;
  flip_ready = false;
  back_complete = false;
  zbuf = none;
  zbuf_cap = 0;
  back = [];
  stat_frames = 0;
  stat_dropped = 0;
  stat_dmax_us = 0;
  stat_flip_ok = 0;
  stat_flip_gate = 0;
}

-- The scratch that `multicast_init` allocates, with the group and the port that it goes on with; there
-- is none of it where the function returns at its beginning.
unfoldable pub with_scratch : Option (List ℕ × ℕ) → (ℕ → Bool) → ℕ → Receiver
with_scratch none malloc buffer_size = new_receiver
with_scratch (some group) malloc buffer_size = record new_receiver {
  zbuf = if malloc buffer_size then some (replicate buffer_size 0) else none;
  zbuf_cap = buffer_size;
}

unfoldable pub take_frame : Receiver → Bool × Receiver
take_frame r = if not r.frame_ready then (false, r) else (true, record r { frame_ready = false })

unfoldable pub take_flip : Receiver → Bool × Receiver
take_flip r =
    if not r.flip_ready
    then (false, r)
    else if not r.back_complete
    then (false, record r { flip_ready = false; stat_flip_gate = bump32 r.stat_flip_gate })
    else (
      true,
      record r { flip_ready = false; stat_flip_ok = bump32 r.stat_flip_ok; back_complete = false },
    )

-- multicast_stats and multicast_flip_stats
abbrev pub stats : Receiver → ℕ × ℕ × ℕ
stats r = (r.stat_frames, r.stat_dropped, r.stat_dmax_us)

abbrev pub flip_stats : Receiver → ℕ × ℕ
flip_stats r = (r.stat_flip_ok, r.stat_flip_gate)
