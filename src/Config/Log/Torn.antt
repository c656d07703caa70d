-- ===== src/Config/Log/Torn.antt =====
-- An append that power loss cut short leaves the earlier records authoritative.
use pixel_multiverse_firmwar.Prelude.{
  ℕ, suc, ◌+◌, ◌-◌, ◌*◌, ◌≤◌, ◌<◌, ◌≡◌, ◌≢◌, sym, ap, ◌∙◌, false, List, [], arith,
}
use mathlib.Core.Option
use native.Mathlib.Decide.{dec_lt}
use pixel_multiverse_firmwar.Config.Format.{Record, record_size}
use pixel_multiverse_firmwar.Config.Store.{Store, get, empty_store}
use pixel_multiverse_firmwar.Config.Store.Live.{lookup_live}
use pixel_multiverse_firmwar.Config.Store.View.{view, get_refines, empty_store-IsValid}
use pixel_multiverse_firmwar.Config.Store.Laws.{norm}
use pixel_multiverse_firmwar.Config.Flash.{Memory, FlashOps, page_bytes, read, page_at}
use pixel_multiverse_firmwar.Config.Flash.Pages.{read_ext}
use pixel_multiverse_firmwar.Config.Log.{Log, new_log, page_count, page_erased, record_valid, load}
use pixel_multiverse_firmwar.Config.Log.Slot.{page_erased_ext, header_valid_ext}
use pixel_multiverse_firmwar.Config.Log.Replay.{replay, replay_ext, replay_end, apply_page, Holds}
use pixel_multiverse_firmwar.Config.Log.Load.{load-Holds}
use pixel_multiverse_firmwar.Config.Log.Durable.{IsSynced, load-IsSynced}

-- The two memories differ at most in one page.
abbrev pub AgreeOff : ℕ → Memory → Memory → Type 0
AgreeOff a m m' =
    (p : ℕ) → a ≢ p → (i : ℕ) → i < page_bytes → m' (p * page_bytes + i) ≡ m (p * page_bytes + i)

page_at-AgreeOff :
    (a : ℕ) (m m' : Memory) (p : ℕ) → AgreeOff a m m' → a ≢ p → page_at m' p ≡ page_at m p
page_at-AgreeOff a m m' p h ne = read_ext m' m (p * page_bytes) page_bytes (λ i lo hi.
    let split : p * page_bytes + (i - p * page_bytes) ≡ i = omega arith in
    ap m' (sym split) ∙ h p ne (i - p * page_bytes) (omega arith) ∙ ap m split)

module _ (ops : FlashOps) (crc : List ℕ → ℕ) (log : Log) (s : Store) (y : IsSynced ops crc log s)
    (m : Memory) (same : AgreeOff log.append_page log.memory m)
    (room : log.append_page < page_count ops crc) (touched : page_erased m log.append_page ≡ false)
    (torn : record_valid ops crc (read m (log.append_page * page_bytes) record_size) ≡ false) where
  past : Log
  past = record { memory = m; append_page = log.append_page + 1; next_seq = log.next_seq }

  kept : (p : ℕ) → log.append_page ≢ p → page_at m p ≡ page_at log.memory p
  kept p = page_at-AgreeOff log.append_page log.memory m p same

  says_nothing : (l : List Record) → apply_page ops crc m log.append_page l ≡ l
  unfolding apply_page
  says_nothing l = rw (touched, torn)

  past-replayed : replay ops crc m (log.append_page + 1 - 1) 1 [] ≡ view s
  past-replayed =
      let n : log.append_page + 1 - 1 ≡ suc (log.append_page - 1) = omega (arith, y.holds.first) in
      let end : 1 + (log.append_page - 1) ≡ log.append_page = omega (arith, y.holds.first) in
      let before : replay ops crc m (log.append_page - 1) 1 [] ≡ view s =
        replay_ext ops crc m log.memory (log.append_page - 1) 1 []
          (λ q a b. kept q (omega (arith, y.holds.first)))
        ∙ y.holds.replayed in
      ap (λ k. replay ops crc m k 1 []) n
      ∙ replay_end ops crc m (log.append_page - 1) 1 []
      ∙ ap (λ k. apply_page ops crc m k (replay ops crc m (log.append_page - 1) 1 [])) end
      ∙ says_nothing (replay ops crc m (log.append_page - 1) 1 [])
      ∙ before

  past-Holds : Holds ops crc past (view s)
  unfolding past
  past-Holds = record {
    header =
        header_valid_ext ops crc m log.memory (kept 0 (omega (arith, y.holds.first)))
        ∙ y.holds.header;
    first = omega arith;
    within = omega arith;
    blank = λ p a b i lt. same p (omega arith) i lt ∙ y.holds.blank p (omega arith) b i lt;
    taken = taken;
    replayed = past-replayed;
    seq_fits = y.holds.seq_fits;
  }
    where
      taken : (p : ℕ) → 1 ≤ p → p < log.append_page + 1 → page_erased m p ≡ false
      taken p a b = elim (dec_lt p log.append_page) [
        | yes lt ↦ page_erased_ext m log.memory p (kept p (omega arith)) ∙ y.holds.taken p a lt
        | no ge ↦ let e : p ≡ log.append_page = omega arith in ap (page_erased m) e ∙ touched
      ]

  -- Flash in which an append was cut short: the append page was touched, what it holds fails the
  -- record test, and the other pages are as before. The next boot answers every key as the store did
  -- before the append, and its log and store are in step again.
  pub get-torn :
      let (log', s') = load ops crc (new_log m) empty_store in
      IsSynced ops crc log' s' × ((key : List ℕ) → get s' key ≡ get s key)
  unfolding past
  get-torn =
      let loaded = load-Holds ops crc past (view s) past-Holds empty_store empty_store-IsValid in
      (
        load-IsSynced ops crc past (view s) past-Holds y.canonical y.well_formed.distinct,
        λ key.
            get_refines (load ops crc (new_log m) empty_store).1 key loaded.2
            ∙ ap
                (λ l.
                  Option.map (λ (r : Record). (r.value, r.value_len)) (lookup_live l (norm key)))
                loaded.1
            ∙ sym (get_refines s key y.well_formed.valid),
      )
