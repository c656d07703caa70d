-- ===== src/Config/Tests/Commands.antt =====
-- The device and its k/v commands at concrete inputs.
use pixel_multiverse_firmwar.Prelude.{
  sym, append-nil, ◌≤◌, ℕ, ◌≡◌, refl, false, List, [], ◌∷◌, drop, le16, to_le16, length, bytes_eq,
  take, replicate, ◌*◌, ◌++◌, some, arith, ascii,
}
use pixel_multiverse_firmwar.Config.Format.{header_at}
use pixel_multiverse_firmwar.Config.Flash.{read}
use pixel_multiverse_firmwar.Config.Store.{
  find, find_in, normalize_key, Store, empty_store, put, get,
}
use pixel_multiverse_firmwar.Config.Tests.{
  ram, ram-IsNor, checksum, checksum_from-lt, blank, booted, booted-IsSynced, empty-IsWellFormed,
  one-accepted,
}
use pixel_multiverse_firmwar.Config.Log.Canonical.{IsKey}
use pixel_multiverse_firmwar.Config.Log.Restart.{restart, run}
use pixel_multiverse_firmwar.Config.Device.{
  Device, power_on, config_put, config_boot, region_overlaps_image,
}
use pixel_multiverse_firmwar.Config.Commands.{
  read_key, is_secret_key, dump_bytes, handle_keys, handle_get, handle_put,
}
use pixel_multiverse_firmwar.Config.Commands.Frames.{listing, handle_keys-listing}
use pixel_multiverse_firmwar.Config.Commands.Secrets.{
  redacted, handle_keys-redacted, handle_get-leak,
}
use pixel_multiverse_firmwar.Config.Commands.Persistent.{handle_get-config_boot, handle_get-overlap}
use pixel_multiverse_firmwar.Config.Commands.Wire.{get_frame, put_frame}

-- A transport whose bytes are all there.
abbrev take_read : ℕ → List ℕ → List ℕ × List ℕ
take_read n t = (take n t, drop n t)

drop_drops : (n : ℕ) (t : List ℕ) → n ≤ length t → (more : List ℕ) × (drop n t ≡ drop n t ++ more)
drop_drops n t there = ([], sym (append-nil (drop n t)))

abbrev fresh : Device
fresh = power_on blank

hi-open : is_secret_key (ascii "hi") 2 ≡ false
unfolding is_secret_key bytes_eq
hi-open = refl

-- The device of `Config.Tests` after its session.
abbrev working : Device
working = record { log = booted.0; store = booted.1 }

hi-IsKey : IsKey (ascii "hi")
unfolding normalize_key
hi-IsKey = record { bytes = omega arith; starts = λ e. ground (arith, e) }

after_put : Device
after_put = (config_put ram checksum working (ascii "hi") (ascii "x") 1).1

told :
    handle_put take_read ram checksum working (put_frame (ascii "hi") (ascii "x"))
    ≡ some (1 ∷ [], after_put, [])
unfolding handle_put put find find_in bytes_eq restart run config_put header_at read after_put
told = refl

-- 4 MB of flash, and a program of 1 MB.
handle_get-config_boot_example :
    (t : List ℕ) × (handle_get take_read
        (config_boot ram checksum
          (region_overlaps_image (4 * 1024 * 1024) (1024 * 1024))
          (power_on after_put.log.memory))
        (get_frame (ascii "hi"))
      ≡ some (1 ∷ 1 ∷ ascii "x", t))
    × ((more : List ℕ) × (t ≡ more))
handle_get-config_boot_example =
    handle_get-config_boot ram checksum ram-IsNor (checksum_from-lt 0) (omega arith) take_read
      (λ t. t) (λ n t there. refl) drop_drops (4 * 1024 * 1024) (1024 * 1024) working after_put
      (put_frame (ascii "hi") (ascii "x")) [] (get_frame (ascii "hi")) (ascii "hi") (ascii "x") []
      [] refl booted-IsSynced (omega arith, omega arith) hi-IsKey (omega arith, omega arith) hi-open
      refl told refl

-- A program that reaches to the end of the flash.
handle_get-overlap_example :
    (d : Device) × (t : List ℕ) × (handle_put take_read ram checksum fresh
        (put_frame (ascii "hi") (ascii "x") ++ get_frame (ascii "hi"))
      ≡ some (1 ∷ [], d, t))
    × (t' : List ℕ) × (handle_get take_read d t ≡ some (1 ∷ 1 ∷ ascii "x", t'))
    × (u : List ℕ) × (handle_get take_read
          (config_boot ram checksum
            (region_overlaps_image (4 * 1024 * 1024) (4 * 1024 * 1024))
            (power_on d.log.memory))
          (get_frame (ascii "hi"))
        ≡ some (0 ∷ [], u))
handle_get-overlap_example =
    handle_get-overlap take_read (λ t. t) (λ n t there. refl) drop_drops ram checksum
      (4 * 1024 * 1024) (4 * 1024 * 1024) fresh
      (put_frame (ascii "hi") (ascii "x") ++ get_frame (ascii "hi")) (get_frame (ascii "hi"))
      (ascii "hi") (ascii "x") (ascii "hi") [] [] refl empty-IsWellFormed (omega arith, omega arith)
      (omega arith, omega arith) (omega arith) hi-open one-accepted refl refl

-- A store with a password.
abbrev secrets : Store
secrets = (put empty_store (ascii "pass") (ascii "swordfish") 9).1

secrets-get : get secrets (ascii "pass") ≡ some (ascii "swordfish" ++ replicate 55 0, 9)
unfolding put get find find_in bytes_eq
secrets-get = refl

handle_keys_test : handle_keys secrets ≡ some (14 ∷ 0 ∷ ascii "pass=<hidden>" ++ (10 ∷ []))
unfolding handle_keys is_secret_key put find find_in bytes_eq
handle_keys_test = refl

handle_keys-redacted_example : handle_keys (redacted secrets) ≡ handle_keys secrets
handle_keys-redacted_example = handle_keys-redacted secrets

handle_keys-listing_example :
    let cut = take dump_bytes (listing (take secrets.count secrets.records)) in
    (handle_keys secrets ≡ some (to_le16 (length cut) ++ cut))
    × (le16 (to_le16 (length cut) ++ cut) ≡ length cut)
handle_keys-listing_example = handle_keys-listing secrets

abbrev exposed : Device
exposed = record fresh { store = secrets }

handle_get-leak_example :
    handle_get take_read exposed (5 ∷ ascii "pass ") ≡ some (1 ∷ 9 ∷ ascii "swordfish", [])
unfolding read_key normalize_key
handle_get-leak_example =
    handle_get-leak take_read exposed (5 ∷ ascii "pass ") [] (ascii "pass ")
      (ascii "swordfish" ++ replicate 55 0) 9 refl refl (omega arith) (omega arith) secrets-get
