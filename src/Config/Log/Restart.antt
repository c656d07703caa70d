-- ===== src/Config/Log/Restart.antt =====
-- A run of sound commands, of keys that do not begin with 0xFF, then a power cycle.
use pixel_multiverse_firmwar.Prelude.{
  ℕ, ◌^◌, ◌≤◌, ◌<◌, ◌≡◌, refl, sym, ap, ◌∙◌, false, List, [], ◌∷◌, arith, All, length, IsBytes,
}
use mathlib.Core.Option
use pixel_multiverse_firmwar.Config.Format.{Record}
use pixel_multiverse_firmwar.Config.Store.{Store, clear, capacity, empty_store, get}
use pixel_multiverse_firmwar.Config.Store.Live.{lookup_live}
use pixel_multiverse_firmwar.Config.Store.View.{
  view, IsValid, clear-IsValid, empty_store-IsValid, get_refines,
}
use pixel_multiverse_firmwar.Config.Store.Laws.{norm}
use pixel_multiverse_firmwar.Config.Flash.{Memory, FlashOps, IsNor}
use pixel_multiverse_firmwar.Config.Log.{
  Log, new_log, page_count, header_valid, format, load, put, del,
}
use pixel_multiverse_firmwar.Config.Log.Canonical.{IsKey}
use pixel_multiverse_firmwar.Config.Log.Compact.{compact-Holds}
use pixel_multiverse_firmwar.Config.Log.Load.{load-Holds}
use pixel_multiverse_firmwar.Config.Log.Durable.{IsSynced, put-IsSynced, del-IsSynced}

-- A change to the configuration.
pub data Change : Type 0 where
  put_value : List ℕ → List ℕ → ℕ → Change
  del_key : List ℕ → Change

-- The keys and values are bytes, a key does not begin like an erased slot, and a value is as long
-- as it says.
abbrev pub IsSound : Change → Type 0
IsSound (put_value key value m) = IsKey key × IsBytes value × (m ≤ length value)
IsSound (del_key key) = IsKey key

module _ (ops : FlashOps) (crc : List ℕ → ℕ) where
  unfoldable pub change : Log × Store → Change → Log × Store
  unfolding put del
  change (log, s) (put_value key value m) =
      let (done, log', s') = put ops crc log s key value m in (log', s')
  change (log, s) (del_key key) = let (done, log', s') = del ops crc log s key in (log', s')

  unfoldable pub run : Log × Store → List Change → Log × Store
  unfolding change
  run state [] = state
  run state (c ∷ cs) = run (change state c) cs

  -- A power cycle: the flash stays, the objects are new.
  unfoldable pub restart : Log → Log × Store
  unfolding load
  restart log = load ops crc (new_log log.memory) empty_store

module _ (ops : FlashOps) (crc : List ℕ → ℕ) (nor : IsNor ops)
    (fits : (d : List ℕ) → crc d < 2 ^ 32) (room : capacity < page_count ops crc) where
  change-IsSynced :
      (log : Log) (s : Store) (c : Change)
      → IsSound c
      → IsSynced ops crc log s
      → IsSynced ops crc (change ops crc (log, s) c).0 (change ops crc (log, s) c).1
  unfolding change
  change-IsSynced log s (put_value key value m) h y =
      put-IsSynced ops crc nor fits room log s key h.0 y value m h.1 h.2
  change-IsSynced log s (del_key key) h y = del-IsSynced ops crc nor fits room log s key h y

  -- From a store and a log in step, any run of sound changes leaves them in step: the store is well
  -- formed, the pages below the append page replay to its live view, and the pages from it on are
  -- erased. The flash is NOR with more than 33 pages, and the CRC has 32 bits.
  pub run-IsSynced :
      (cs : List Change) (log : Log) (s : Store)
      → All IsSound cs
      → IsSynced ops crc log s
      → IsSynced ops crc (run ops crc (log, s) cs).0 (run ops crc (log, s) cs).1
  unfolding run
  run-IsSynced [] log s h y = y
  run-IsSynced (c ∷ cs) log s h y =
      run-IsSynced cs (change ops crc (log, s) c).0 (change ops crc (log, s) c).1 h.1
        (change-IsSynced log s c h.0 y)

  -- A region with no valid header is formatted: the store is empty and in step with the log.
  pub load_blank-IsSynced :
      (log : Log) (s : Store)
      → IsValid s
      → header_valid ops crc log.memory ≡ false
      → let (log', s') = load ops crc log s in IsSynced ops crc log' s' × (view s' ≡ [])
  unfolding load format
  load_blank-IsSynced log s v h = rw h (
    record {
      well_formed = record { valid = clear-IsValid v; distinct = tt };
      canonical = tt;
      holds = compact-Holds ops crc nor fits log (clear s) tt tt (omega arith) room;
    },
    refl,
  )

  -- The view after a power cycle is the view before it.
  pub view-restart :
      (log : Log) (s : Store)
      → IsSynced ops crc log s
      → (view (restart ops crc log).1 ≡ view s) × IsValid (restart ops crc log).1
  unfolding restart
  view-restart log s y =
      let loaded = load-Holds ops crc log (view s) y.holds empty_store empty_store-IsValid in
      (loaded.1, loaded.2)

  -- A power cycle of a store and a log in step changes no answer.
  pub get-restart_synced :
      (log : Log) (s : Store) (key : List ℕ)
      → IsSynced ops crc log s
      → get (restart ops crc log).1 key ≡ get s key
  get-restart_synced log s key y =
      let again = view-restart log s y in
      get_refines (restart ops crc log).1 key again.1
      ∙ ap (λ l. Option.map (λ (r : Record). (r.value, r.value_len)) (lookup_live l (norm key)))
          again.0
      ∙ sym (get_refines s key y.well_formed.valid)

  -- The first boot over a region with no valid header, then the changes.
  session : List Change → Memory → Log × Store
  session cs m = run ops crc (restart ops crc (new_log m)) cs

  session-IsSynced :
      (cs : List Change) (m : Memory)
      → All IsSound cs
      → header_valid ops crc m ≡ false
      → IsSynced ops crc (session cs m).0 (session cs m).1
  unfolding session restart
  session-IsSynced cs m h blank =
      let booted = load_blank-IsSynced (new_log m) empty_store empty_store-IsValid blank in
      run-IsSynced cs (load ops crc (new_log m) empty_store).0
        (load ops crc (new_log m) empty_store).1 h booted.0

  -- On NOR flash with more than 33 pages, with a CRC of 32 bits, and a region that has no valid
  -- header: boot, make any sound changes, and restart. `get` answers every key after the restart as
  -- the store did before it, however often the log was compacted on the way.
  pub get-restart :
      (cs : List Change) (m : Memory) (key : List ℕ)
      → All IsSound cs
      → header_valid ops crc m ≡ false
      → let (log, s) = run ops crc (restart ops crc (new_log m)) cs in
        get (restart ops crc log).1 key ≡ get s key
  unfolding session
  get-restart cs m key h blank =
      get-restart_synced (session cs m).0 (session cs m).1 key (session-IsSynced cs m h blank)
