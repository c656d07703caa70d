-- ===== src/Config/Device/Kept.antt =====
-- The boot keeps the store well formed, whatever is in flash.
use pixel_multiverse_firmwar.Prelude.{
  ℕ, zero, suc, ◌+◌, ◌-◌, ◌*◌, Bool, true, false, ◌==◌, List, bit_and, Bool-cases, inl, inr,
}
use pixel_multiverse_firmwar.Config.Format.{record_at, flag_deleted, record_size, Record}
use pixel_multiverse_firmwar.Config.Flash.{Memory, FlashOps, page_bytes, read}
use pixel_multiverse_firmwar.Config.Store.{Store, empty_store, clear}
use pixel_multiverse_firmwar.Config.Store.Laws.{IsWellFormed, put-IsWellFormed, del-IsWellFormed}
use pixel_multiverse_firmwar.Config.Store.View.{empty_store-IsValid}
use pixel_multiverse_firmwar.Config.Log.{
  Log, Scan, key_view, page_erased, record_valid, header_valid, replay_record, scan_page, scan,
  load_pages, load, format, page_count,
}
use pixel_multiverse_firmwar.Config.Device.{Device, config_boot}
use pixel_multiverse_firmwar.Config.Commands.Kept.{clear-IsWellFormed}

module _ (ops : FlashOps) (crc : List ℕ → ℕ) where
  replay_record-IsWellFormed :
      (r : Record) (st : Scan)
      → IsWellFormed st.store
      → IsWellFormed (replay_record ops crc r st).store
  unfolding replay_record
  replay_record-IsWellFormed r st w = elim (Bool-cases (bit_and r.flags flag_deleted == 0)) [
    | inl live ↦ rw live (put-IsWellFormed st.store (key_view r) w r.value r.value_len)
    | inr gone ↦ rw gone (del-IsWellFormed st.store (key_view r) w)
  ]

  scan_page-IsWellFormed :
      (m : Memory) (p : ℕ) (st : Scan)
      → IsWellFormed st.store
      → IsWellFormed (scan_page ops crc m p st).store
  unfolding scan_page
  scan_page-IsWellFormed m p st w = elim (Bool-cases (page_erased m p)) [
    | inl blank ↦ elim (Bool-cases (st.first_free == 0)) [
      | inl none_yet ↦ rw (blank, none_yet) w
      | inr found ↦ rw (blank, found) w
    ]
    | inr used ↦ elim (Bool-cases (record_valid ops crc (read m (p * page_bytes) record_size))) [
      | inl valid ↦
          rw (used, valid)
            (replay_record-IsWellFormed (record_at (read m (p * page_bytes) record_size)) st w)
      | inr torn ↦ rw (used, torn) w
    ]
  ]

  scan-IsWellFormed :
      (m : Memory) (n p : ℕ) (st : Scan)
      → IsWellFormed st.store
      → IsWellFormed (scan ops crc m n p st).store
  unfolding scan
  scan-IsWellFormed m zero p st w = w
  scan-IsWellFormed m (suc n) p st w =
      scan-IsWellFormed m n (p + 1) (scan_page ops crc m p st) (scan_page-IsWellFormed m p st w)

  pub load-IsWellFormed :
      (log : Log) (s : Store) → IsWellFormed s → IsWellFormed (load ops crc log s).1
  unfolding load load_pages format
  load-IsWellFormed log s w =
      let cleared = clear-IsWellFormed s w in
      elim (Bool-cases (header_valid ops crc log.memory)) [
        | inl valid ↦ rw valid (
            scan-IsWellFormed log.memory (page_count ops crc - 1) 1
              (record { store = clear s; max_seq = 0; first_free = 0 }) cleared)
        | inr foreign ↦ rw foreign (clear-IsWellFormed (clear s) cleared)
      ]

  pub config_boot-IsWellFormed :
      (overlaps : Bool) (d : Device)
      → IsWellFormed d.store
      → IsWellFormed (config_boot ops crc overlaps d).store
  unfolding config_boot
  config_boot-IsWellFormed true d w = clear-IsWellFormed d.store w
  config_boot-IsWellFormed false d w = load-IsWellFormed d.log d.store w

pub empty_store-IsWellFormed : IsWellFormed empty_store
empty_store-IsWellFormed = record { valid = empty_store-IsValid; distinct = tt }
