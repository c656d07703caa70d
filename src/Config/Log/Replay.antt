-- ===== src/Config/Log/Replay.antt =====
-- What the pages of the log say, read in order: the live list that `load` rebuilds. An appended
-- record is the last thing that they say.
use pixel_multiverse_firmwar.Prelude.{
  ℕ, zero, suc, ◌+◌, ◌-◌, ◌*◌, ◌^◌, ◌≤◌, ◌<◌, ◌≡◌, ◌≢◌, refl, ap, ◌∙◌, true, false, not, List, [],
  ◌==◌, if◌then◌else◌, get_or, arith, bit_and,
}
use native.Mathlib.Decide.{dec_lt}
use pixel_multiverse_firmwar.Config.Format.{
  Record, IsRecord, record_bytes, record_at, record_size, flag_deleted,
}
use pixel_multiverse_firmwar.Config.Format.Codec.{length-record_bytes, record_bytes-IsBytes}
use pixel_multiverse_firmwar.Config.Store.Live.{put_live, del_live}
use pixel_multiverse_firmwar.Config.Flash.{Memory, FlashOps, IsNor, page_bytes, read, page_at}
use pixel_multiverse_firmwar.Config.Flash.Pages.{IsErased}
use pixel_multiverse_firmwar.Config.Log.{
  Log, key_view, page_erased, page_count, record_valid, write_slot, stamp, append_record,
  header_valid,
}
use pixel_multiverse_firmwar.Config.Log.Slot.{
  read-slot, page_erased_ext, page_erased-IsErased, page_at-write_slot, read-write_slot,
  page_at-write_slot_ne, write_slot-IsErased, stamp-IsRecord, record_at-stamped, record_valid-stamp,
  page_erased-record, header_valid_ext,
}

-- A record replayed into the live list.
unfoldable pub apply_record : List Record → Record → List Record
apply_record l r =
    if not (bit_and r.flags flag_deleted == 0)
    then (del_live l (key_view r)).1
    else (put_live l (key_view r) r.value r.value_len).1

module _ (ops : FlashOps) (crc : List ℕ → ℕ) where
  -- A page replayed into the live list. An erased page and a torn record say nothing.
  unfoldable pub apply_page : Memory → ℕ → List Record → List Record
  apply_page m p l =
      if page_erased m p
      then l
      else if not (record_valid ops crc (read m (p * page_bytes) record_size))
      then l
      else apply_record l (record_at (read m (p * page_bytes) record_size))

  -- The `n` pages from `p` on.
  unfoldable pub replay : Memory → ℕ → ℕ → List Record → List Record
  replay m zero p l = l
  replay m (suc n) p l = replay m n (p + 1) (apply_page m p l)

  pub apply_page_ext :
      (m m' : Memory) (p : ℕ) (l : List Record)
      → page_at m p ≡ page_at m' p
      → apply_page m p l ≡ apply_page m' p l
  unfolding apply_page page_erased
  apply_page_ext m m' p l e = rw (read-slot m p, read-slot m' p, e)

  pub replay_ext :
      (m m' : Memory) (n p : ℕ) (l : List Record)
      → ((q : ℕ) → p ≤ q → q < p + n → page_at m q ≡ page_at m' q)
      → replay m n p l ≡ replay m' n p l
  unfolding replay
  replay_ext m m' zero p l h = refl
  replay_ext m m' (suc n) p l h =
      replay_ext m m' n (p + 1) (apply_page m p l) (λ q a b. h q (omega arith) (omega arith))
      ∙ ap (replay m' n (p + 1)) (apply_page_ext m m' p l (h p (omega arith) (omega arith)))

  -- The last page is replayed last.
  pub replay_end :
      (m : Memory) (n p : ℕ) (l : List Record)
      → replay m (suc n) p l ≡ apply_page m (p + n) (replay m n p l)
  unfolding replay
  replay_end m zero p l = let e : p ≡ p + 0 = omega arith in rw (← e)
  replay_end m (suc n) p l =
      let e : p + 1 + n ≡ p + suc n = omega arith in
      replay_end m n (p + 1) (apply_page m p l) ∙ rw e

  pub replay_add :
      (m : Memory) (n k p : ℕ) (l : List Record)
      → replay m (n + k) p l ≡ replay m k (p + n) (replay m n p l)
  unfolding replay
  replay_add m zero k p l =
      let e : zero + k ≡ k = omega arith in
      let f : p ≡ p + zero = omega arith in ap (λ j. replay m j p l) e ∙ ap (λ j. replay m k j l) f
  replay_add m (suc n) k p l =
      let e : suc n + k ≡ suc (n + k) = omega arith in
      let f : p + 1 + n ≡ p + suc n = omega arith in
      ap (λ j. replay m j p l) e
      ∙ replay_add m n k (p + 1) (apply_page m p l)
      ∙ ap (λ j. replay m k j (replay m n (p + 1) (apply_page m p l))) f

  pub replay_erased :
      (m : Memory) (n p : ℕ) (l : List Record)
      → ((q : ℕ) → p ≤ q → q < p + n → IsErased m q)
      → replay m n p l ≡ l
  unfolding replay apply_page
  replay_erased m zero p l h = refl
  replay_erased m (suc n) p l h =
      rw (page_erased-IsErased m p (h p (omega arith) (omega arith)))
        (replay_erased m n (p + 1) l (λ q a b. h q (omega arith) (omega arith)))

  -- The pages below the append page say `l`, and those from it on are free.
  pub record Holds (log : Log) (l : List Record) : Type 0 where
    pub header : header_valid ops crc log.memory ≡ true
    pub first : 1 ≤ log.append_page
    pub within : log.append_page ≤ page_count ops crc
    pub blank : (p : ℕ) → log.append_page ≤ p → p < page_count ops crc → IsErased log.memory p
    pub taken : (p : ℕ) → 1 ≤ p → p < log.append_page → page_erased log.memory p ≡ false
    pub replayed : replay log.memory (log.append_page - 1) 1 [] ≡ l
    pub seq_fits : log.next_seq < 2 ^ 32

-- A record that `load` takes for one: its key does not begin like an erased slot.
pub record IsStorable (r : Record) : Type 0 where
  pub widths : IsRecord r
  pub starts : get_or r.key 0 0 ≢ 0xFF

module _ (ops : FlashOps) (crc : List ℕ → ℕ) (nor : IsNor ops)
    (fits : (d : List ℕ) → crc d < 2 ^ 32) (log : Log) (r : Record) (ok : IsStorable r)
    (seq_fits : log.next_seq < 2 ^ 32) (blank : IsErased log.memory log.append_page) where
  stamped : Record
  stamped = stamp ops crc r log.next_seq

  stamped-IsRecord : IsRecord stamped
  unfolding stamped
  stamped-IsRecord = stamp-IsRecord crc fits ops r log.next_seq ok.widths seq_fits

  after : Memory
  unfolding stamped
  after = write_slot ops crc log.memory log.append_page (record_bytes stamped)

  slot_after : read after (log.append_page * page_bytes) record_size ≡ record_bytes stamped
  unfolding after
  slot_after =
      read-write_slot ops crc nor log.memory log.append_page (record_bytes stamped)
        (length-record_bytes stamped stamped-IsRecord)
        (record_bytes-IsBytes stamped stamped-IsRecord) blank

  page_after : page_erased after log.append_page ≡ false
  unfolding after
  page_after =
      page_erased-record after log.append_page stamped _ stamped-IsRecord
        (unfold stamped stamp in ok.starts)
        (page_at-write_slot ops crc nor log.memory log.append_page (record_bytes stamped)
          (length-record_bytes stamped stamped-IsRecord)
          (record_bytes-IsBytes stamped stamped-IsRecord) blank)

  -- The new page says the record.
  apply_page-after :
      (l : List Record) → apply_page ops crc after log.append_page l ≡ apply_record l r
  unfolding apply_page
  apply_page-after l = rw (page_after, slot_after, valid_after, readback) stamp_silent
    where
      valid_after : record_valid ops crc (record_bytes stamped) ≡ true
      valid_after =
          unfold stamped in
          record_valid-stamp crc fits ops r log.next_seq ok.widths seq_fits ok.starts

      readback : record_at (record_bytes stamped) ≡ stamped
      readback = record_at-stamped crc fits ops stamped stamped-IsRecord

      stamp_silent : apply_record l stamped ≡ apply_record l r
      stamp_silent = unfold apply_record stamped stamp key_view in refl

  page_kept : (q : ℕ) → log.append_page ≢ q → page_at after q ≡ page_at log.memory q
  unfolding after
  page_kept =
      page_at-write_slot_ne ops crc nor log.memory log.append_page (record_bytes stamped)
        (length-record_bytes stamped stamped-IsRecord)
        (record_bytes-IsBytes stamped stamped-IsRecord) blank

  blank_kept : (q : ℕ) → log.append_page ≢ q → IsErased log.memory q → IsErased after q
  unfolding after
  blank_kept =
      write_slot-IsErased ops crc nor log.memory log.append_page (record_bytes stamped)
        (length-record_bytes stamped stamped-IsRecord)
        (record_bytes-IsBytes stamped stamped-IsRecord) blank

  module _ (l : List Record) (h : Holds ops crc log l)
      (room : log.append_page < page_count ops crc) where
    replayed_after : replay ops crc after log.append_page 1 [] ≡ apply_record l r
    replayed_after =
        let n : log.append_page ≡ suc (log.append_page - 1) = omega (arith, h.first) in
        let end : 1 + (log.append_page - 1) ≡ log.append_page = omega (arith, h.first) in
        let before : replay ops crc after (log.append_page - 1) 1 [] ≡ l =
          replay_ext ops crc after log.memory (log.append_page - 1) 1 []
            (λ q a b. page_kept q (omega (arith, h.first)))
          ∙ h.replayed in
        ap (λ k. replay ops crc after k 1 []) n
        ∙ replay_end ops crc after (log.append_page - 1) 1 []
        ∙ ap (λ k. apply_page ops crc after k (replay ops crc after (log.append_page - 1) 1 [])) end
        ∙ ap (apply_page ops crc after log.append_page) before
        ∙ apply_page-after l

    taken_after : (p : ℕ) → 1 ≤ p → p < log.append_page + 1 → page_erased after p ≡ false
    taken_after p a b = elim (dec_lt p log.append_page) [
      | yes lt ↦ page_erased_ext after log.memory p (page_kept p (omega arith)) ∙ h.taken p a lt
      | no ge ↦ let e : p ≡ log.append_page = omega arith in ap (page_erased after) e ∙ page_after
    ]

    -- An append extends what the log says by the record, and leaves the rest of the log alone.
    pub append_record-Holds : Holds ops crc (append_record ops crc r log) (apply_record l r)
    unfolding append_record after stamped
    append_record-Holds = record {
      header =
          header_valid_ext ops crc after log.memory (page_kept 0 (omega (arith, h.first)))
          ∙ h.header;
      first = omega arith;
      within = omega arith;
      blank = λ p a b. blank_kept p (omega arith) (h.blank p (omega arith) b);
      taken = taken_after;
      replayed =
          let e : log.append_page + 1 - 1 ≡ log.append_page = omega arith in
          ap (λ k. replay ops crc after k 1 []) e ∙ replayed_after;
      seq_fits = omega arith;
    }
