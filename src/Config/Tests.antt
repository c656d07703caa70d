-- ===== src/Config/Tests.antt =====
-- The store and the log at concrete inputs: the RAM-backed flash and the cases of
-- test/kv_store_test.cpp and test/kv_log_test.cpp, and the theorems at inputs that meet their
-- hypotheses. The CRC is a plain checksum here.
mod Commands
use pixel_multiverse_firmwar.Prelude.{
  ℕ, ◌+◌, ◌-◌, ◌*◌, ◌%◌, ◌^◌, ◌<◌, ◌≡◌, ◌≢◌, ◌⊎◌, refl, ap, true, false, ◌&&◌, List, [], ◌∷◌, ltb,
  leb, if◌then◌else◌, get_or, length, bit_and, bytes_eq, take, ◌==◌, ◌↔◌, All, replicate, ◌++◌,
  none, some, arith, ascii,
}
use pixel_multiverse_firmwar.Config.Format.{header_at, record_at, header_bytes, record_bytes}
use pixel_multiverse_firmwar.Config.Flash.{Memory, FlashOps, IsNor, read}
use pixel_multiverse_firmwar.Config.Store.{
  find, find_in, normalize_key, Store, empty_store, put, get, del,
}
use pixel_multiverse_firmwar.Config.Log.{
  Log, new_log, header_valid, load, page_erased, record_valid,
}
use pixel_multiverse_firmwar.Config.Log.Torn.{AgreeOff, get-torn}
use pixel_multiverse_firmwar.Config.Store.{zero_record}
use pixel_multiverse_firmwar.Config.Store.View.{empty_store-IsValid}
use pixel_multiverse_firmwar.Config.Store.Laws.{
  IsWellFormed, norm, get-put, get-del, put-IsWellFormed, del-IsWellFormed, del_answers,
  put_rejects,
}
use pixel_multiverse_firmwar.Config.Format.Codec.{record_at-record_bytes}
use pixel_multiverse_firmwar.Config.Log.Canonical.{normalize_key-take}
use pixel_multiverse_firmwar.Config.Log.Durable.{IsSynced}
use pixel_multiverse_firmwar.Config.Log.Restart.{
  run-IsSynced, load_blank-IsSynced, Change, put_value, del_key, IsSound, restart, run, get-restart,
}

-- `RamFlashOps`: erased is 0xFF, and programming only clears bits.
pub ram_program : Memory → ℕ → List ℕ → Memory
ram_program m off d i =
    if leb off i && ltb i (off + length d) then bit_and (m i) (get_or d (i - off) 0) else m i

pub ram_erase : Memory → ℕ → ℕ → Memory
ram_erase m off len i = if leb off i && ltb i (off + len) then 0xFF else m i

abbrev pub ram : FlashOps
ram = record { size = 16384; erase = ram_erase; program = ram_program }

pub ram-IsNor : IsNor ram
unfolding ram_program ram_erase
ram-IsNor = record {
  erase_sets = λ m off len i a b. ground arith;
  program_clears = λ m off d i lt.
      let e : off + i - off ≡ i = omega arith in
      ground (arith, ap (λ j. bit_and (m (off + i)) (get_or d j 0)) e);
  program_keeps = λ m off d i h. ground arith;
}

-- A checksum in place of the CRC.
pub checksum_from : ℕ → List ℕ → ℕ
checksum_from acc [] = acc % 2 ^ 32
checksum_from acc (b ∷ bs) = checksum_from (acc * 31 + b + 1) bs

pub checksum_from-lt : (acc : ℕ) (d : List ℕ) → checksum_from acc d < 2 ^ 32
unfolding checksum_from
checksum_from-lt acc [] = omega arith
checksum_from-lt acc (b ∷ bs) = checksum_from-lt (acc * 31 + b + 1) bs

abbrev pub checksum : List ℕ → ℕ
checksum = checksum_from 0

abbrev pub blank : Memory
blank i = 0xFF

abbrev session : List Change
session =
    put_value (ascii "board") (ascii "i75") 3
    ∷ put_value (ascii "width") (ascii "256") 3
    ∷ put_value (ascii "board") (ascii "plasma") 6
    ∷ del_key (ascii "width")
    ∷ []

blank-invalid : header_valid ram checksum blank ≡ false
unfolding header_valid read bytes_eq header_at
blank-invalid = refl

abbrev pub booted : Log × Store
booted = run ram checksum (restart ram checksum (new_log blank)) session

-- kv_log_test: the values survive, and the tombstone hides its key.
session_survives :
    get (restart ram checksum booted.0).1 (ascii "board")
    ≡ some (ascii "plasma" ++ replicate 58 0, 6)
unfolding restart run ram_program ram_erase checksum_from get read header_at record_at header_bytes
    record_bytes bytes_eq find find_in
session_survives = refl

session-IsSound : All IsSound session
unfolding normalize_key
session-IsSound = omega arith

get-restart_example :
    get (restart ram checksum booted.0).1 (ascii "board") ≡ get booted.1 (ascii "board")
get-restart_example =
    get-restart ram checksum ram-IsNor (checksum_from-lt 0) (omega arith) session blank
      (ascii "board") session-IsSound blank-invalid

-- kv_log_test: an append that was cut short after its first byte.
torn_memory : Memory
torn_memory i = if i == 5 * 256 then 0 else booted.0.memory i

pub booted-IsSynced : IsSynced ram checksum booted.0 booted.1
unfolding restart
booted-IsSynced =
    run-IsSynced ram checksum ram-IsNor (checksum_from-lt 0) (omega arith) session
      (restart ram checksum (new_log blank)).0 (restart ram checksum (new_log blank)).1
      session-IsSound
      (load_blank-IsSynced ram checksum ram-IsNor (checksum_from-lt 0) (omega arith) (new_log blank)
        empty_store empty_store-IsValid blank-invalid).0

append_page-booted : booted.0.append_page ≡ 5
unfolding restart run ram_program ram_erase checksum_from get read header_at record_at header_bytes
    record_bytes bytes_eq find find_in
append_page-booted = refl

torn-same : (a : ℕ) → a ≡ 5 → AgreeOff a booted.0.memory torn_memory
unfolding torn_memory
torn-same a e p ne i lt = let other : (p * 256 + i == 5 * 256) ≡ false = ground arith in rw other

torn-touched : page_erased torn_memory 5 ≡ false
unfolding torn_memory page_erased read
torn-touched = refl

torn-invalid : record_valid ram checksum (read torn_memory (5 * 256) 128) ≡ false
unfolding torn_memory read record_valid restart run ram_program ram_erase checksum_from header_at
    record_at header_bytes record_bytes bytes_eq find find_in
torn-invalid = refl

get-torn_example :
    let (log', s') = load ram checksum (new_log torn_memory) empty_store in
    IsSynced ram checksum log' s' × ((key : List ℕ) → get s' key ≡ get booted.1 key)
get-torn_example =
    get-torn ram checksum booted.0 booted.1 booted-IsSynced torn_memory
      (torn-same booted.0.append_page append_page-booted) (rw append_page-booted (omega arith))
      (rw append_page-booted torn-touched) (rw append_page-booted torn-invalid)

pub empty-IsWellFormed : IsWellFormed empty_store
empty-IsWellFormed = record { valid = empty_store-IsValid; distinct = tt }

abbrev one : Store
one = (put empty_store (ascii "hi") (ascii "x") 1).1

pub one-accepted : (put empty_store (ascii "hi") (ascii "x") 1).0 ≡ true
unfolding put find find_in
one-accepted = refl

-- the padded form hits the same record
get-put_example : get one (ascii "hi      ") ≡ (
    if bytes_eq (norm (ascii "hi")) (norm (ascii "hi      "))
    then some (take 1 (ascii "x") ++ replicate 63 0, 1)
    else get empty_store (ascii "hi      "))
get-put_example =
    get-put empty_store (ascii "hi") empty-IsWellFormed (ascii "x") 1 (ascii "hi      ")
      one-accepted

one-IsWellFormed : IsWellFormed one
one-IsWellFormed = put-IsWellFormed empty_store (ascii "hi") empty-IsWellFormed (ascii "x") 1

get-del_example :
    get (del one (ascii "hi")).1 (ascii "ho")
    ≡ (if bytes_eq (norm (ascii "hi")) (norm (ascii "ho")) then none else get one (ascii "ho"))
get-del_example = get-del one (ascii "hi") one-IsWellFormed (ascii "ho")

put_rejects_example :
    (((put one (ascii "k") (ascii "abc") 65).0 ≡ false)
      ↔ ((64 < 65) ⊎ ((get one (ascii "k") ≡ none) × (one.count ≡ 32))))
    × ((put one (ascii "k") (ascii "abc") 65).0 ≡ false
        → (put one (ascii "k") (ascii "abc") 65).1 ≡ one)
put_rejects_example = put_rejects one (ascii "k") one-IsWellFormed (ascii "abc") 65

run-IsSynced_example :
    IsSynced ram checksum
      (run ram checksum (booted.0, booted.1) session).0
      (run ram checksum (booted.0, booted.1) session).1
run-IsSynced_example =
    run-IsSynced ram checksum ram-IsNor (checksum_from-lt 0) (omega arith) session booted.0 booted.1
      session-IsSound booted-IsSynced
