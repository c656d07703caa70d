-- ===== src/Config/Commands/Kept.antt =====
-- The commands stay inside their buffers and keep the store well formed, whatever the host sends.
use pixel_multiverse_firmwar.Prelude.{
  ℕ, ◌≡◌, refl, ◌||◌, ltb, leb, arith, Bool, true, false, Option, none, some, List, length, ◌==◌,
  Bool-cases, inl, inr,
}
use pixel_multiverse_firmwar.Config.Flash.{FlashOps}
use pixel_multiverse_firmwar.Config.Format.{key_width, value_width}
use pixel_multiverse_firmwar.Config.Store
use pixel_multiverse_firmwar.Config.Store.{Store, clear}
use pixel_multiverse_firmwar.Config.Store.View.{clear-IsValid}
use pixel_multiverse_firmwar.Config.Store.Laws.{IsWellFormed, put-IsWellFormed, del-IsWellFormed}
use pixel_multiverse_firmwar.Config.Log
use pixel_multiverse_firmwar.Config.Device.{Device, config_put, config_del, config_factory_reset}
use pixel_multiverse_firmwar.Config.Commands.{
  read_u8, key_after, read_key, value_after, read_value, put_value, handle_get, put_under,
  handle_put, handle_del,
}

pub clear-IsWellFormed : (s : Store) → IsWellFormed s → IsWellFormed (clear s)
clear-IsWellFormed s w = record { valid = clear-IsValid w.valid; distinct = tt }

pub config_factory_reset-IsWellFormed :
    (ops : FlashOps) (overlaps : Bool) (d : Device)
    → IsWellFormed d.store
    → IsWellFormed (config_factory_reset ops overlaps d).store
unfolding config_factory_reset
config_factory_reset-IsWellFormed ops true d w = clear-IsWellFormed d.store w
config_factory_reset-IsWellFormed ops false d w = clear-IsWellFormed d.store w

module _ (ops : FlashOps) (crc : List ℕ → ℕ) where
  config_put-IsWellFormed :
      (d : Device) (key value : List ℕ) (n : ℕ)
      → IsWellFormed d.store
      → IsWellFormed (config_put ops crc d key value n).1.store
  unfolding config_put Log.put
  config_put-IsWellFormed d key value n w =
      let kept = put-IsWellFormed d.store key w value n in
      elim (Bool-cases (Store.put d.store key value n).0) [
        | inl accepted ↦ rw accepted kept
        | inr refused ↦ rw refused kept
      ]

  config_del-IsWellFormed :
      (d : Device) (key : List ℕ)
      → IsWellFormed d.store
      → IsWellFormed (config_del ops crc d key).1.store
  unfolding config_del Log.del
  config_del-IsWellFormed d key w =
      let kept = del-IsWellFormed d.store key w in
      elim (Bool-cases (Store.del d.store key).0) [
        | inl there ↦ rw there kept
        | inr absent ↦ rw absent kept
      ]

  put_value-IsWellFormed :
      (d : Device) (key : List ℕ) (v : Option (List ℕ))
      → IsWellFormed d.store
      → IsWellFormed (put_value ops crc d key v).1.store
  unfolding put_value
  put_value-IsWellFormed d key none w = w
  put_value-IsWellFormed d key (some value) w = config_put-IsWellFormed d key value (length value) w

  module _ {T : Type 0} (read : ℕ → T → List ℕ × T) where
    -- A key that is read stays in key[8], and a value in value[64].
    key_after-fits : (n : Option ℕ) (t : T) → (k : List ℕ × T) × (key_after read n t ≡ some k)
    unfolding key_after
    key_after-fits none t = (_, refl)
    key_after-fits (some n) t = elim (Bool-cases (ltb n 1 || ltb key_width n)) [
      | inl out ↦ rw out (_, refl)
      | inr within ↦
          let room : leb n key_width ≡ true = ground (arith, within) in rw (within, room) (_, refl)
    ]

    pub read_key-fits : (t : T) → (k : List ℕ × T) × (read_key read t ≡ some k)
    unfolding read_key
    read_key-fits t = key_after-fits (read_u8 read t).0 (read_u8 read t).1

    value_after-fits :
        (n : Option ℕ) (t : T) → (v : Option (List ℕ) × T) × (value_after read n t ≡ some v)
    unfolding value_after
    value_after-fits none t = (_, refl)
    value_after-fits (some n) t = elim (Bool-cases (ltb value_width n)) [
      | inl large ↦ rw large (_, refl)
      | inr small ↦
          let room : leb n value_width ≡ true = ground (arith, small) in
          elim (Bool-cases (n == 0)) [
            | inl no_bytes ↦ rw (small, no_bytes) (_, refl)
            | inr bytes ↦ rw (small, bytes, room) (_, refl)
          ]
    ]

    read_value-fits : (t : T) → (v : Option (List ℕ) × T) × (read_value read t ≡ some v)
    unfolding read_value
    read_value-fits t = value_after-fits (read_u8 read t).0 (read_u8 read t).1

    pub handle_get-fits : (d : Device) (t : T) → (r : List ℕ × T) × (handle_get read d t ≡ some r)
    unfolding handle_get
    handle_get-fits d t = let k = read_key-fits t in rw (k.1) (_, refl)

    put_under-IsWellFormed :
        (d : Device) (k : List ℕ × T)
        → IsWellFormed d.store
        → (r : List ℕ × Device × T) × (put_under read ops crc d k ≡ some r) × IsWellFormed r.1.store
    unfolding put_under
    put_under-IsWellFormed d k w = elim (Bool-cases (length k.0 == 0)) [
      | inl no_key ↦ rw no_key (_, refl, w)
      | inr some_key ↦
          let v = read_value-fits k.1 in
          rw (some_key, v.1) (_, refl, put_value-IsWellFormed d k.0 v.0.0 w)
    ]

    pub handle_put-IsWellFormed :
        (d : Device) (t : T)
        → IsWellFormed d.store
        → (r : List ℕ × Device × T) × (handle_put read ops crc d t ≡ some r)
          × IsWellFormed r.1.store
    unfolding handle_put
    handle_put-IsWellFormed d t w =
        let k = read_key-fits t in rw (k.1) (put_under-IsWellFormed d k.0 w)

    pub handle_del-IsWellFormed :
        (d : Device) (t : T)
        → IsWellFormed d.store
        → (r : List ℕ × Device × T) × (handle_del read ops crc d t ≡ some r)
          × IsWellFormed r.1.store
    unfolding handle_del
    handle_del-IsWellFormed d t w =
        let k = read_key-fits t in
        elim (Bool-cases (length k.0.0 == 0)) [
          | inl no_key ↦ rw (k.1, no_key) (_, refl, w)
          | inr some_key ↦ rw (k.1, some_key) (_, refl, config_del-IsWellFormed d k.0.0 w)
        ]
