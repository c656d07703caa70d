-- ===== src/Boot/Recovery.antt =====
-- When the button wipes the configuration.
use pixel_multiverse_firmwar.Prelude.{
  ℕ, zero, suc, ◌+◌, ◌^◌, ◌≤◌, ◌<◌, ◌≡◌, refl, ap, ◌∙◌, sym, Bool, true, false, List, [], arith,
  Bool-cases, inl, inr, ◌==◌, ==_iff,
}
use pixel_multiverse_firmwar.Config.Flash.{FlashOps, IsNor}
use pixel_multiverse_firmwar.Config.Store.View.{IsValid, view}
use pixel_multiverse_firmwar.Config.Log.Durable.{IsSynced}
use pixel_multiverse_firmwar.Config.Device.{Device, region_size, config_boot}
use pixel_multiverse_firmwar.Config.Device.Boots.{config_factory_reset-boot}
use pixel_multiverse_firmwar.Boot.{held, startup}

held_low :
    (level : ℕ → Bool) (n i : ℕ)
    → ((j : ℕ) → i ≤ j → j < i + n → level j ≡ false)
    → held level i n ≡ true
unfolding held
held_low level zero i h = refl
held_low level (suc n) i h =
    rw (h i (omega arith) (omega arith))
      (held_low level n (i + 1) (λ j a b. h j (omega arith) (omega arith)))

later : (level : ℕ → Bool) (i j : ℕ) → i ≤ j → level i ≡ false → level j ≡ true → i + 1 ≤ j
later level i j a low high = elim (Bool-cases (i == j)) [
  | inl same ↦
      let clash : true ≡ false = sym high ∙ (ap level (sym ((==_iff i j).0 same)) ∙ low) in cc
  | inr other ↦ ground (arith, a, other)
]

held_high :
    (level : ℕ → Bool) (n i j : ℕ) → i ≤ j → j < i + n → level j ≡ true → held level i n ≡ false
unfolding held
held_high level zero i j a b h = absurd (omega arith)
held_high level (suc n) i j a b h = elim (Bool-cases (level i)) [
  | inl high ↦ rw high refl
  | inr low ↦ rw low (held_high level n (i + 1) j (later level i j a low h) (omega arith) h)
]

module _ (ops : FlashOps) (crc : List ℕ → ℕ) where
  -- A button that is let go in one of the 30 rounds wipes nothing: the start-up is that without it.
  pub startup-released :
      (overlaps : Bool) (level : ℕ → Bool) (d : Device) (i : ℕ)
      → i < 30
      → level i ≡ true
      → startup ops crc overlaps level d ≡ (false, config_boot ops crc overlaps d)
  unfolding startup
  startup-released overlaps level d i lt high =
      rw (held_high level 30 0 i (omega arith) lt high) refl

  -- On NOR flash, with a 32-bit CRC and the region clear of the program: a button held through all 30
  -- rounds starts the device with an empty store in step with a fresh log, whatever was in flash.
  pub startup-held :
      (nor : IsNor ops) (crc_lt : (d : List ℕ) → crc d < 2 ^ 32) (whole : ops.size ≡ region_size)
      (level : ℕ → Bool) (d : Device)
      → IsValid d.store
      → ((i : ℕ) → i < 30 → level i ≡ false)
      → ((startup ops crc false level d).0 ≡ true)
        × IsSynced ops crc
            (startup ops crc false level d).1.log
            (startup ops crc false level d).1.store
        × (view (startup ops crc false level d).1.store ≡ [])
  unfolding startup
  startup-held nor crc_lt whole level d v low =
      let reset = config_factory_reset-boot ops crc nor crc_lt whole d v in
      rw (held_low level 30 0 (λ j a b. low j b)) (refl, reset.0, reset.1)
