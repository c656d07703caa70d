-- ===== src/Config/Commands/Persistent.antt =====
-- When a value that a host was told is stored outlives a power cycle: the key does not begin with 0xFF
-- and the region is clear of the program.
use pixel_multiverse_firmwar.Prelude.{
  ℕ, ◌^◌, ◌≤◌, ◌<◌, ◌≡◌, refl, ap, sym, ◌∙◌, Bool, true, false, none, some, some_inj, List, [], ◌∷◌,
  ◌++◌, length, take, drop, IsBytes, arith,
}
use pixel_multiverse_firmwar.Config.Flash.{FlashOps, Memory, IsNor}
use pixel_multiverse_firmwar.Config.Store
use pixel_multiverse_firmwar.Config.Store.{Store, capacity, get, find, find_in}
use pixel_multiverse_firmwar.Config.Store.Laws.{IsWellFormed}
use pixel_multiverse_firmwar.Config.Log.{page_count}
use pixel_multiverse_firmwar.Config.Log.Canonical.{IsKey}
use pixel_multiverse_firmwar.Config.Log.Durable.{IsSynced, put-IsSynced}
use pixel_multiverse_firmwar.Config.Log.Restart.{restart, get-restart_synced}
use pixel_multiverse_firmwar.Config.Device.{
  Device, power_on, config_put, config_boot, region_overlaps_image,
}
use pixel_multiverse_firmwar.Config.Commands.{is_secret_key, status, handle_get, handle_put}
use pixel_multiverse_firmwar.Config.Commands.Wire.{
  get_frame, put_frame, padded, handle_get-stream, handle_get-absent, handle_get-handle_put,
  handle_put-stream, config_put-store, get-config_put,
}

status_lem : (ok : Bool) → status ok ≡ 1 ∷ [] → ok ≡ true
status_lem true e = refl
status_lem false e = absurd (ground arith)

module _ (ops : FlashOps) (crc : List ℕ → ℕ) (nor : IsNor ops)
    (crc_lt : (d : List ℕ) → crc d < 2 ^ 32) (room : capacity < page_count ops crc) where
  config_put-IsSynced :
      (d : Device) (key value : List ℕ)
      → IsKey key
      → IsBytes value
      → IsSynced ops crc d.log d.store
      → IsSynced ops crc
          (config_put ops crc d key value (length value)).1.log
          (config_put ops crc d key value (length value)).1.store
  unfolding config_put
  config_put-IsSynced d key value k b y =
      put-IsSynced ops crc nor crc_lt room d.log d.store key k y value (length value) b
        (omega arith)

  config_boot-restart :
      (d : Device) (key : List ℕ)
      → IsSynced ops crc d.log d.store
      → get (config_boot ops crc false (power_on d.log.memory)).store key ≡ get d.store key
  unfolding config_boot restart
  config_boot-restart d key y = get-restart_synced ops crc nor crc_lt room d.log d.store key y

  module _ {T : Type 0} (read : ℕ → T → List ℕ × T) (stream : T → List ℕ)
      (takes : (n : ℕ) (t : T) → n ≤ length (stream t) → (read n t).0 ≡ take n (stream t))
      (drops : (n : ℕ) (t : T)
        → n ≤ length (stream t)
        → (more : List ℕ) × (stream (read n t).1 ≡ drop n (stream t) ++ more)) where
    -- On NOR flash with more than 33 pages, with a 32-bit CRC, a region that is clear of the program's
    -- image and a device whose log is in step with its store: a host that sends a `put` over one
    -- stream, of a key of one to eight bytes that is not secret and does not begin with 0xFF, and of at
    -- most 64 bytes, and is answered with 1, gets the value after a power cycle, over another stream,
    -- whatever the log had to do to store it.
    pub handle_get-config_boot :
        (flash_size image_end : ℕ) (d d' : Device) (t t' u : T) (key value rest rest' : List ℕ)
        → region_overlaps_image flash_size image_end ≡ false
        → IsSynced ops crc d.log d.store
        → (1 ≤ length key) × (length key ≤ 8)
        → IsKey key
        → (length value ≤ 64) × IsBytes value
        → is_secret_key key (length key) ≡ false
        → stream t ≡ put_frame key value ++ rest
        → handle_put read ops crc d t ≡ some (1 ∷ [], d', t')
        → stream u ≡ get_frame key ++ rest'
        → let overlaps = region_overlaps_image flash_size image_end in
          (u' : T) × (handle_get read (config_boot ops crc overlaps (power_on d'.log.memory)) u
            ≡ some (1 ∷ length value ∷ value, u'))
          × ((more : List ℕ) × (stream u' ≡ rest' ++ more))
    handle_get-config_boot flash_size image_end d d' t t' u key value rest rest' clear y k starts v
          open_key e told e' =
        let put = config_put ops crc d key value (length value) in
        let sent =
          handle_put-stream read stream takes drops ops crc d t key value rest k.0 k.1 v.0 e in
        let same = some_inj (sym sent.1 ∙ told) in
        let accepted : (Store.put d.store key value (length value)).0 ≡ true =
          sym (config_put-store read stream takes drops ops crc d key value (length value)).0
          ∙ status_lem put.0 (ap (λ r. r.0) same) in
        let memory : put.1.log.memory ≡ d'.log.memory = ap (λ r. r.1.log.memory) same in
        let booted = config_boot ops crc false (power_on d'.log.memory) in
        let found : get booted.store key ≡ some (padded value, length value) =
          ap (λ m. get (config_boot ops crc false (power_on m)).store key) (sym memory)
          ∙ (config_boot-restart put.1 key (config_put-IsSynced d key value starts v.1 y)
              ∙ get-config_put read stream takes drops ops crc d key value y.well_formed
                  accepted) in
        rw clear (
          handle_get-stream read stream takes drops booted u key value rest' k v.0 open_key found
            e')

-- After a boot with a region that the program reaches into, no key is found.
get-config_boot_overlap :
    (ops : FlashOps) (crc : List ℕ → ℕ) (memory : Memory) (key : List ℕ)
    → get (config_boot ops crc true (power_on memory)).store key ≡ none
unfolding config_boot get find find_in
get-config_boot_overlap ops crc memory key = refl

module _ {T : Type 0} (read : ℕ → T → List ℕ × T) (stream : T → List ℕ)
    (takes : (n : ℕ) (t : T) → n ≤ length (stream t) → (read n t).0 ≡ take n (stream t))
    (drops : (n : ℕ) (t : T)
      → n ≤ length (stream t)
      → (more : List ℕ) × (stream (read n t).1 ≡ drop n (stream t) ++ more)) where
  -- Where the program reaches into the region, a host that sends a `put` and a `get` of a key of one to
  -- eight bytes that is not secret, the value of at most 64 bytes, which the store takes, is answered
  -- with 1 and with the value; and over another stream after the next power cycle, a `get` of any key
  -- of one to eight bytes is answered with 0, so the value is lost.
  pub handle_get-overlap :
      (ops : FlashOps) (crc : List ℕ → ℕ) (flash_size image_end : ℕ) (d : Device) (t u : T)
      (key value other rest rest' : List ℕ)
      → region_overlaps_image flash_size image_end ≡ true
      → IsWellFormed d.store
      → (1 ≤ length key) × (length key ≤ 8)
      → (1 ≤ length other) × (length other ≤ 8)
      → length value ≤ 64
      → is_secret_key key (length key) ≡ false
      → (Store.put d.store key value (length value)).0 ≡ true
      → stream t ≡ put_frame key value ++ (get_frame key ++ rest)
      → stream u ≡ get_frame other ++ rest'
      → let overlaps = region_overlaps_image flash_size image_end in
        (d' : Device) × (t' : T) × (handle_put read ops crc d t ≡ some (1 ∷ [], d', t'))
        × (t'' : T) × (handle_get read d' t' ≡ some (1 ∷ length value ∷ value, t''))
        × (u' : T) × (handle_get read (config_boot ops crc overlaps (power_on d'.log.memory)) u
            ≡ some (0 ∷ [], u'))
  handle_get-overlap ops crc flash_size image_end d t u key value other rest rest' reaches w k j
        fits open_key accepted e e' =
      let (d', t', told, t'', got, left) =
        handle_get-handle_put read stream takes drops ops crc d t key value rest w k fits open_key
          accepted e in
      let booted = config_boot ops crc true (power_on d'.log.memory) in
      let gone =
        handle_get-absent read stream takes drops booted u other rest' j
          (get-config_boot_overlap ops crc d'.log.memory other) e' in
      (d', t', told, t'', got, gone.0, rw reaches (gone.1))
