-- ===== src/Command/Reboots.antt =====
-- The commands of src/command/command_core.cpp that end in a reboot: what they leave on the display
-- and in the device's configuration, and where the reboot goes. None reads from the transport.
use pixel_multiverse_firmwar.Prelude.{ℕ, ◌^◌, ◌<◌, ◌≡◌, refl, Bool, false, List, [], ascii, arith}
use pixel_multiverse_firmwar.Config.Flash.{FlashOps, IsNor}
use pixel_multiverse_firmwar.Config.Store.{empty_store}
use pixel_multiverse_firmwar.Config.Store.View.{view, empty_store-IsValid}
use pixel_multiverse_firmwar.Config.Log.{new_log}
use pixel_multiverse_firmwar.Config.Log.Durable.{IsSynced}
use pixel_multiverse_firmwar.Config.Log.Restart.{load_blank-IsSynced}
use pixel_multiverse_firmwar.Config.Device.{
  Device, region_size, power_on, config_boot, config_factory_reset,
}
use pixel_multiverse_firmwar.Config.Device.Boots.{header_valid-erased}
use pixel_multiverse_firmwar.Command.Handlers.{Display, Board, draw}

-- watchdog_reboot and reset_usb_boot
pub data Reboot : Type 0 where
  into_program : Reboot
  into_bootloader : Reboot

module _ {T : Type 0} (d : Display) (read : ℕ → T → List ℕ × T) where
  abbrev pub info : List ℕ → Board → Board
  info letters b = draw d read (d.info_calls letters) b

  abbrev pub handle_rst : Board → Board × Reboot
  handle_rst b = (info (ascii "RST") b, into_program)

  abbrev pub handle_usb : Board → Board × Reboot
  handle_usb b = (info (ascii "USB") b, into_bootloader)

  unfoldable pub handle_fac : FlashOps → Bool → Board → Device → Board × Device × Reboot
  unfolding config_factory_reset
  handle_fac ops overlaps b dev =
      (info (ascii "factory reset") b, config_factory_reset ops overlaps dev, into_program)

  module _ (ops : FlashOps) (crc : List ℕ → ℕ) (nor : IsNor ops)
      (crc_lt : (bytes : List ℕ) → crc bytes < 2 ^ 32) (whole : ops.size ≡ region_size) where
    -- On NOR flash, with a 32-bit CRC and the region clear of the program: after the `_fac` command and
    -- its reboot, which starts the program with a fresh memory on the same flash, the configuration is
    -- an empty store in step with a fresh log, whatever the device held.
    pub handle_fac-reboot :
        (b : Board) (dev : Device)
        → let booted =
            config_boot ops crc false (power_on (handle_fac ops false b dev).1.log.memory) in
          ((handle_fac ops false b dev).2 ≡ into_program)
          × IsSynced ops crc booted.log booted.store
          × (view booted.store ≡ [])
    unfolding handle_fac config_boot
    handle_fac-reboot b dev =
        let m = ops.erase dev.log.memory 0 region_size in
        let first : m 0 ≡ 0xFF =
          nor.erase_sets dev.log.memory 0 region_size 0 (omega arith) (omega arith) in
        let blank =
          load_blank-IsSynced ops crc nor crc_lt (omega (arith, whole)) (new_log m) empty_store
            empty_store-IsValid (header_valid-erased ops crc m first) in
        (refl, blank.0, blank.1)
