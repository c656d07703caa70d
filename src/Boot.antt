-- ===== src/Boot.antt =====
-- The start-up of src/main.cpp as far as the configuration goes, and src/recovery/recovery.cpp on a
-- board with a reset button. `level i` is what gpio_get reads in round `i` of the loop: the pin is
-- pulled up, and the button pulls it to ground.
pub mod Recovery
pub mod Main
pub mod Defaults
pub mod Loop
pub mod Strip
mod Tests
use pixel_multiverse_firmwar.Prelude.{ℕ, zero, suc, ◌+◌, Bool, true, false, List, if◌then◌else◌}
use pixel_multiverse_firmwar.Config.Flash.{FlashOps}
use pixel_multiverse_firmwar.Config.Device.{Device, config_boot, config_factory_reset}

-- The loop: true if the pin is low in all of the `n` rounds from `i` on.
unfoldable pub held : (ℕ → Bool) → ℕ → ℕ → Bool
held level i zero = true
held level i (suc n) = if level i then false else held level (i + 1) n

unfoldable pub check_factory_reset : FlashOps → Bool → (ℕ → Bool) → Device → Bool × Device
unfolding held config_factory_reset
check_factory_reset ops overlaps level d =
    if held level 0 30 then (true, config_factory_reset ops overlaps d) else (false, d)

-- `was_reset`, and the device after `config_boot`.
unfoldable pub startup : FlashOps → (List ℕ → ℕ) → Bool → (ℕ → Bool) → Device → Bool × Device
unfolding check_factory_reset config_boot
startup ops crc overlaps level d =
    let r = check_factory_reset ops overlaps level d in (r.0, config_boot ops crc overlaps r.1)
