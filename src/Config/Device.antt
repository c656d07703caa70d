-- ===== src/Config/Device.antt =====
-- src/config/kv_flash.cpp: the store and the log of the device, in the region at the top of its
-- flash. `ops` is the driver of that region and `crc` zlib's; `overlaps` is `region_overlaps_image`.
pub mod Boots
pub mod Kept
use pixel_multiverse_firmwar.Prelude.{ℕ, ◌-◌, ◌*◌, Bool, true, false, List, ltb, if◌then◌else◌}
use pixel_multiverse_firmwar.Config.Flash.{Memory, FlashOps}
use pixel_multiverse_firmwar.Config.Store.{Store, empty_store, clear}
use pixel_multiverse_firmwar.Config.Log
use pixel_multiverse_firmwar.Config.Log.{Log, new_log}

abbrev pub region_size : ℕ
region_size = 16 * 1024

abbrev pub region_offset : ℕ → ℕ
region_offset flash_size = flash_size - region_size

-- `image_end` is the offset of __flash_binary_end from XIP_BASE.
abbrev pub region_overlaps_image : ℕ → ℕ → Bool
region_overlaps_image flash_size image_end = ltb (region_offset flash_size) image_end

-- g_log with the memory behind it, and g_store
pub record Device : Type 0 where
  pub log : Log
  pub store : Store

abbrev pub power_on : Memory → Device
power_on m = record { log = new_log m; store = empty_store }

module _ (ops : FlashOps) (crc : List ℕ → ℕ) where
  unfoldable pub config_put : Device → List ℕ → List ℕ → ℕ → Bool × Device
  unfolding Log.put
  config_put d key value value_len =
      let p = Log.put ops crc d.log d.store key value value_len in
      (p.0, record { log = p.1; store = p.2 })

  unfoldable pub config_del : Device → List ℕ → Bool × Device
  unfolding Log.del
  config_del d key =
      let p = Log.del ops crc d.log d.store key in (p.0, record { log = p.1; store = p.2 })

  unfoldable pub config_boot : Bool → Device → Device
  unfolding Log.load
  config_boot overlaps d =
      let l = Log.load ops crc d.log d.store in
      if overlaps then record d { store = clear d.store } else record { log = l.0; store = l.1 }

-- Erases the region; the log object keeps its counters.
unfoldable pub config_factory_reset : FlashOps → Bool → Device → Device
config_factory_reset ops overlaps d =
    if overlaps then record d { store = clear d.store } else record {
      log = record d.log { memory = ops.erase d.log.memory 0 region_size };
      store = clear d.store;
    }
