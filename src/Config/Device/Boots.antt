-- ===== src/Config/Device/Boots.antt =====
-- What the device starts with after a factory reset.
use pixel_multiverse_firmwar.Prelude.{ℕ, ◌^◌, ◌<◌, ◌≡◌, refl, false, List, [], arith, bytes_eq}
use pixel_multiverse_firmwar.Config.Format.{header_at}
use pixel_multiverse_firmwar.Config.Flash.{Memory, FlashOps, IsNor, read}
use pixel_multiverse_firmwar.Config.Store.{clear}
use pixel_multiverse_firmwar.Config.Store.View.{IsValid, view, clear-IsValid}
use pixel_multiverse_firmwar.Config.Log.{header_valid}
use pixel_multiverse_firmwar.Config.Log.Durable.{IsSynced}
use pixel_multiverse_firmwar.Config.Log.Restart.{load_blank-IsSynced}
use pixel_multiverse_firmwar.Config.Device.{Device, region_size, config_boot, config_factory_reset}

module _ (ops : FlashOps) (crc : List ℕ → ℕ) where
  pub header_valid-erased : (m : Memory) → m 0 ≡ 0xFF → header_valid ops crc m ≡ false
  unfolding header_valid header_at read bytes_eq
  header_valid-erased m h = rw h refl

module _ (ops : FlashOps) (crc : List ℕ → ℕ) (nor : IsNor ops)
    (crc_lt : (d : List ℕ) → crc d < 2 ^ 32) (whole : ops.size ≡ region_size) where
  -- On NOR flash, with a 32-bit CRC and the region clear of the program: after a factory reset the
  -- next boot has an empty store in step with a fresh log, whatever the flash and the store held.
  pub config_factory_reset-boot :
      (d : Device)
      → IsValid d.store
      → let d' = config_boot ops crc false (config_factory_reset ops false d) in
        IsSynced ops crc d'.log d'.store × (view d'.store ≡ [])
  unfolding config_boot config_factory_reset
  config_factory_reset-boot d v =
      let m = ops.erase d.log.memory 0 region_size in
      let first : m 0 ≡ 0xFF =
        nor.erase_sets d.log.memory 0 region_size 0 (omega arith) (omega arith) in
      load_blank-IsSynced ops crc nor crc_lt (omega (arith, whole)) (record d.log { memory = m })
        (clear d.store) (clear-IsValid v) (header_valid-erased ops crc m first)
