-- ===== src/Config/Log.antt =====
-- src/config/kv_log.hpp and kv_log.cpp: the append-only log of records in flash.
-- A `Log` is the object's two counters with the memory of its backend; `ops` and `crc` are what its
-- constructor takes. Page 0 holds the header, and each later page one record in its low 128 bytes.
pub mod Slot
pub mod Replay
pub mod Canonical
pub mod Compact
pub mod Load
pub mod Durable
pub mod Restart
pub mod Torn
use pixel_multiverse_firmwar.Prelude.{
  ℕ, zero, suc, ◌+◌, ◌-◌, ◌*◌, ◌/◌, ◌%◌, ◌^◌, Bool, true, false, ◌&&◌, not, Option, none, some,
  List, [], ◌∷◌, ◌++◌, ltb, leb, ◌==◌, if◌then◌else◌, take, get_or, replicate, bytes_eq, bit_and,
}
use pixel_multiverse_firmwar.Config.Format.{
  Header, Record, header_bytes, record_bytes, header_at, record_at, key_width, value_width,
  crc_width, record_size, crc_coverage, reserved_width, magic, format_version, flag_deleted,
  slot_erased,
}
use pixel_multiverse_firmwar.Config.Store
use pixel_multiverse_firmwar.Config.Store.{Store, normalize_key, clear}
use pixel_multiverse_firmwar.Config.Flash.{Memory, FlashOps, page_bytes, read, page_at}

pub record Log : Type 0 where
  pub memory : Memory
  pub append_page : ℕ
  pub next_seq : ℕ

-- A fresh object over a backend.
abbrev pub new_log : Memory → Log
new_log m = record { memory = m; append_page = 1; next_seq = 1 }

unfoldable pub key_view : Record → List ℕ
key_view r = take (if ltb key_width r.key_len then key_width else r.key_len) r.key

-- The loop of `page_erased` over the bytes of a page.
unfoldable pub all_erased : List ℕ → Bool
all_erased [] = true
all_erased (b ∷ bs) = if not (b == 0xFF) then false else all_erased bs

unfoldable pub page_erased : Memory → ℕ → Bool
unfolding all_erased
page_erased m page = all_erased (page_at m page)

-- memset of the value field, then memcpy if there is a pointer and a length
unfoldable pub fill_value : Option (List ℕ) → ℕ → List ℕ
fill_value none n = replicate value_width 0
fill_value (some value) n = take n value ++ replicate (value_width - n) 0

unfoldable pub fill_record : List ℕ → Option (List ℕ) → ℕ → ℕ → Record
unfolding fill_value normalize_key
fill_record key value value_len flags = record {
  key = (normalize_key key).0;
  value = fill_value value value_len;
  seq = 0;
  key_len = (normalize_key key).1;
  value_len = value_len % 256;
  flags = flags;
  reserved = replicate reserved_width 0;
  crc32 = 0;
}

unfoldable pub page_tail : List ℕ
page_tail = replicate (page_bytes - record_size) 0xFF

-- What `load` has gathered on its way through the pages.
pub record Scan : Type 0 where
  pub store : Store
  pub max_seq : ℕ
  pub first_free : ℕ

module _ (ops : FlashOps) (crc : List ℕ → ℕ) where
  abbrev pub page_count : ℕ
  page_count = ops.size / page_bytes

  unfoldable pub header_valid : Memory → Bool
  header_valid m =
      let h = header_at (read m 0 record_size) in
      bytes_eq h.magic_bytes magic
      && (h.version == format_version
          && (h.slot_size == record_size && crc (read m 0 crc_coverage) == h.crc32))

  -- The test on the 128 bytes of a slot.
  unfoldable pub record_valid : List ℕ → Bool
  record_valid b =
      if get_or (record_at b).key 0 0 == slot_erased
      then false
      else crc (take crc_coverage b) == (record_at b).crc32

  unfoldable pub write_slot : Memory → ℕ → List ℕ → Memory
  unfolding page_tail
  write_slot m page slot = ops.program m (page * page_bytes) (slot ++ page_tail)

  -- r.seq = seq; r.crc32 = crc_(r, CRC_COVERAGE)
  unfoldable pub stamp : Record → ℕ → Record
  stamp r seq = record r {
    seq = seq;
    crc32 = crc (take crc_coverage (record_bytes (record r { seq = seq })));
  }

  -- The stamped record goes to the append page, and both counters move on.
  unfoldable pub append_record : Record → Log → Log
  unfolding stamp write_slot
  append_record r log = record {
    memory = write_slot log.memory log.append_page (record_bytes (stamp r log.next_seq));
    append_page = log.append_page + 1;
    next_seq = (log.next_seq + 1) % 2 ^ 32;
  }

  -- The loop of `compact`, whose variable `page` is the append page.
  unfoldable pub compact_loop : List Record → Log → Log
  unfolding append_record
  compact_loop [] log = log
  compact_loop (r ∷ rs) log =
      let rest = compact_loop rs (append_record (record r { flags = 0 }) log) in
      if ltb log.append_page page_count then rest else log

  unfoldable pub blank_header : Header
  blank_header = record {
    magic_bytes = magic;
    version = format_version;
    slot_size = record_size;
    reserved = replicate (record_size - 8 - crc_width) 0;
    crc32 = 0;
  }

  unfoldable pub new_header : Header
  unfolding blank_header
  new_header = record blank_header { crc32 = crc (take crc_coverage (header_bytes blank_header)) }

  -- The region right after its erase and the write of its header.
  unfoldable pub erased_region : Memory → Log
  unfolding new_header write_slot
  erased_region m = record {
    memory = write_slot (ops.erase m 0 ops.size) 0 (header_bytes new_header);
    append_page = 1;
    next_seq = 1;
  }

  unfoldable pub compact : Log → Store → Log
  unfolding compact_loop erased_region
  compact log s = compact_loop (take s.count s.records) (erased_region log.memory)

  unfoldable pub format : Log → Store → Log × Store
  unfolding compact
  format log s = (compact log (clear s), clear s)

  unfoldable pub stamp_and_append : Record → Log → Store → Log
  unfolding compact append_record
  stamp_and_append r log s =
      if leb page_count log.append_page then compact log s else append_record r log

  -- A valid record replayed into the store.
  unfoldable pub replay_record : Record → Scan → Scan
  unfolding key_view Store.put Store.del
  replay_record r st = record st {
    max_seq = if ltb st.max_seq r.seq then r.seq else st.max_seq;
    store =
        if not (bit_and r.flags flag_deleted == 0)
        then (Store.del st.store (key_view r)).1
        else (Store.put st.store (key_view r) r.value r.value_len).1;
  }

  -- One round of the loop of `load`.
  unfoldable pub scan_page : Memory → ℕ → Scan → Scan
  unfolding page_erased record_valid replay_record
  scan_page m p st =
      if page_erased m p
      then (if st.first_free == 0 then record st { first_free = p } else st)
      else if not (record_valid (read m (p * page_bytes) record_size))
      then st
      else replay_record (record_at (read m (p * page_bytes) record_size)) st

  -- The `n` pages from `p` on.
  unfoldable pub scan : Memory → ℕ → ℕ → Scan → Scan
  unfolding scan_page
  scan m zero p st = st
  scan m (suc n) p st = scan m n (p + 1) (scan_page m p st)

  unfoldable pub load_pages : Log → Store → Log × Store
  unfolding scan
  load_pages log s =
      let st =
        scan log.memory (page_count - 1) 1 (record { store = s; max_seq = 0; first_free = 0 }) in
      (
        record log {
          append_page = if not (st.first_free == 0) then st.first_free else page_count;
          next_seq = (st.max_seq + 1) % 2 ^ 32;
        },
        st.store,
      )

  unfoldable pub load : Log → Store → Log × Store
  unfolding header_valid format load_pages
  load log s =
      if not (header_valid log.memory) then format log (clear s) else load_pages log (clear s)

  unfoldable pub put : Log → Store → List ℕ → List ℕ → ℕ → Bool × Log × Store
  unfolding fill_record stamp_and_append Store.put
  put log s key value value_len =
      let (done, s') = Store.put s key value value_len in
      if not done
      then (false, log, s')
      else (true, stamp_and_append (fill_record key (some value) value_len 0) log s', s')

  unfoldable pub del : Log → Store → List ℕ → Bool × Log × Store
  unfolding fill_record stamp_and_append Store.del
  del log s key =
      let (done, s') = Store.del s key in
      if not done
      then (false, log, s')
      else (true, stamp_and_append (fill_record key none 0 flag_deleted) log s', s')
