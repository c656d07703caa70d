-- ===== src/Config/Store.antt =====
-- src/config/kv_store.hpp and kv_store.cpp: the live view in RAM. `records_` is an array of
-- `capacity` records of which the first `count_` are live; the slots past them keep what they held.
pub mod Live
pub mod Lookup
pub mod View
pub mod Laws
use mathlib.Core.Option
use pixel_multiverse_firmwar.Prelude.{
  ℕ, zero, suc, ◌+◌, ◌-◌, ◌%◌, Bool, true, false, ◌&&◌, Option, none, some, List, [], ◌∷◌, ◌++◌,
  ltb, leb, ◌==◌, if◌then◌else◌, length, take, set, get_or, replicate, bytes_eq, not,
}
use pixel_multiverse_firmwar.Config.Format.{Record, key_width, value_width, reserved_width}

abbrev pub capacity : ℕ
capacity = 32

pub record Store : Type 0 where
  pub records : List Record
  pub count : ℕ

-- `records_[CAPACITY] = {}`
abbrev pub zero_record : Record
zero_record = record {
  key = replicate key_width 0;
  value = replicate value_width 0;
  seq = 0;
  key_len = 0;
  value_len = 0;
  flags = 0;
  reserved = replicate reserved_width 0;
  crc32 = 0;
}

abbrev pub empty_store : Store
empty_store = record { records = replicate capacity zero_record; count = 0 }

-- What `normalize_key` writes to `out`: out[i] = (i < n) ? key[i] : ' '.
abbrev pub pad_key : ℕ → List ℕ → List ℕ
pad_key zero key = []
pad_key (suc w) [] = b' ' ∷ pad_key w []
pad_key (suc w) (c ∷ key) = c ∷ pad_key w key

-- The normalised key, beside the significant length.
unfoldable pub normalize_key : List ℕ → List ℕ × ℕ
normalize_key key =
    (pad_key key_width key, if ltb (length key) key_width then length key else key_width)

-- The loop of `find` over the live records. `none` is -1.
unfoldable pub find_in : List Record → List ℕ → Option ℕ
find_in [] key = none
find_in (r ∷ rs) key = if bytes_eq r.key key then some 0 else Option.map suc (find_in rs key)

unfoldable pub find : Store → List ℕ → Option ℕ
find s key = find_in (take s.count s.records) key

-- The fields that `put` writes to its record. Flags and reserved bytes stay as they are.
unfoldable pub write_entry : Record → List ℕ → ℕ → List ℕ → ℕ → Record
write_entry r norm key_len value value_len = record r {
  key = norm;
  key_len = key_len;
  value = take value_len value ++ replicate (value_width - value_len) 0;
  value_len = value_len % 256;
  seq = 0;
  crc32 = 0;
}

unfoldable pub put_at : Store → ℕ → List ℕ × ℕ → List ℕ → ℕ → Store
unfolding write_entry
put_at s i (norm, key_len) value value_len = record s {
  records =
      set s.records i (write_entry (get_or s.records i zero_record) norm key_len value value_len);
}

unfoldable pub put_found : Option ℕ → Store → List ℕ × ℕ → List ℕ → ℕ → Bool × Store
unfolding put_at
put_found (some i) s norm value value_len = (true, put_at s i norm value value_len)
put_found none s norm value value_len =
    if leb capacity s.count
    then (false, s)
    else (true, put_at (record s { count = s.count + 1 }) s.count norm value value_len)

-- `value` is the bytes at the pointer, of which the first `value_len` are read.
unfoldable pub put : Store → List ℕ → List ℕ → ℕ → Bool × Store
unfolding put_found normalize_key
put s key value value_len =
    if ltb value_width value_len
    then (false, s)
    else put_found (find s (normalize_key key).0) s (normalize_key key) value value_len

-- The whole value array with the significant length; `none` is nullptr.
unfoldable pub get_found : Option ℕ → Store → Option (List ℕ × ℕ)
get_found none s = none
get_found (some i) s =
    some ((get_or s.records i zero_record).value, (get_or s.records i zero_record).value_len)

unfoldable pub get : Store → List ℕ → Option (List ℕ × ℕ)
unfolding get_found normalize_key
get s key = get_found (find s (normalize_key key).0) s

unfoldable pub del_found : Option ℕ → Store → Bool × Store
del_found none s = (false, s)
del_found (some i) s = (
  true,
  record {
    records =
        if not (i == s.count - 1)
        then set s.records i (get_or s.records (s.count - 1) zero_record)
        else s.records;
    count = s.count - 1;
  },
)

unfoldable pub del : Store → List ℕ → Bool × Store
unfolding del_found normalize_key
del s key = del_found (find s (normalize_key key).0) s

abbrev pub clear : Store → Store
clear s = record s { count = 0 }
