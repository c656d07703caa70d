-- ===== src/Config/Log/Canonical.antt =====
-- The records of the live view in the form that `put` gives them: replaying such a record makes
-- the same record again.
use pixel_multiverse_firmwar.Prelude.{
  ℕ, zero, suc, ◌-◌, ◌%◌, ◌≤◌, ◌≡◌, ◌≢◌, refl, ap, ap₂, ◌∙◌, min, List, [], ◌∷◌, ◌++◌, ltb,
  if◌then◌else◌, take, get_or, length, IsBytes, arith, replicate, length-take, length-append,
  length-replicate, take-append, take-IsBytes, append-IsBytes, replicate-IsBytes, some, none,
}
use pixel_multiverse_firmwar.Config.Format.{Record, IsRecord, reserved_width}
use pixel_multiverse_firmwar.Config.Store.{normalize_key, pad_key}
use pixel_multiverse_firmwar.Config.Store.Live.{entry}
use pixel_multiverse_firmwar.Config.Log.{key_view, fill_record}
use pixel_multiverse_firmwar.Config.Log.Replay.{IsStorable}

-- A key that the log can hold: bytes, the first of them not that of an erased slot.
pub record IsKey (key : List ℕ) : Type 0 where
  pub bytes : IsBytes key
  pub starts : get_or (normalize_key key).0 0 0 ≢ 0xFF

pub record IsCanonical (r : Record) : Type 0 where
  pub storable : IsStorable r
  pub shape : normalize_key (key_view r) ≡ (r.key, r.key_len)
  pub itself : entry (r.key, r.key_len) r.value r.value_len ≡ r
  pub short : r.value_len ≤ 64
  pub no_flags : r.flags ≡ 0

length-pad_key : (w : ℕ) (key : List ℕ) → length (pad_key w key) ≡ w
length-pad_key zero key = refl
length-pad_key (suc w) [] = ap suc (length-pad_key w [])
length-pad_key (suc w) (c ∷ key) = ap suc (length-pad_key w key)

pad_key-IsBytes : (w : ℕ) (key : List ℕ) → IsBytes key → IsBytes (pad_key w key)
pad_key-IsBytes zero key b = tt
pad_key-IsBytes (suc w) [] b = (omega arith, pad_key-IsBytes w [] b)
pad_key-IsBytes (suc w) (c ∷ key) b = (b.0, pad_key-IsBytes w key b.1)

-- The significant part of a padded key is padded to the same.
pad_key-take :
    (w n : ℕ) (key : List ℕ)
    → min (length key) w ≤ n
    → n ≤ w
    → pad_key w (take n (pad_key w key)) ≡ pad_key w key
pad_key-take zero zero key a b = refl
pad_key-take zero (suc n) key a b = refl
pad_key-take (suc w) zero [] a b = refl
pad_key-take (suc w) zero (c ∷ key) a b = absurd (omega arith)
pad_key-take (suc w) (suc n) [] a b =
    ap (λ l. b' ' ∷ l) (pad_key-take w n [] (omega arith) (omega arith))
pad_key-take (suc w) (suc n) (c ∷ key) a b =
    ap (λ l. c ∷ l) (pad_key-take w n key (omega arith) (omega arith))

key_len-le : (key : List ℕ) → (normalize_key key).1 ≤ 8
unfolding normalize_key
key_len-le key = ground arith

key_len-min : (key : List ℕ) → (normalize_key key).1 ≡ min (length key) 8
unfolding normalize_key
key_len-min key = ground arith

length-norm : (key : List ℕ) → length (normalize_key key).0 ≡ 8
unfolding normalize_key
length-norm key = length-pad_key 8 key

norm-IsBytes : (key : List ℕ) → IsBytes key → IsBytes (normalize_key key).0
unfolding normalize_key
norm-IsBytes key b = pad_key-IsBytes 8 key b

-- Normalising the significant part of a normalised key, as a replay of its record does, gives the
-- same padded key and the same length.
pub normalize_key-take :
    (key : List ℕ)
    → normalize_key (take (normalize_key key).1 (normalize_key key).0) ≡ normalize_key key
normalize_key-take key =
    let n : ℕ = (normalize_key key).1 in
    let x : List ℕ = take n (normalize_key key).0 in
    let pads : (normalize_key x).0 ≡ (normalize_key key).0 =
      unfold normalize_key in
      pad_key-take 8 n key (omega (arith, key_len-min key)) (key_len-le key) in
    let size : length x ≡ n =
      length-take n (normalize_key key).0 (omega (arith, key_len-le key, length-norm key)) in
    let counts : (normalize_key x).1 ≡ n = omega (arith, key_len-min x, size, key_len-le key) in
    ap₂ {C = List ℕ × ℕ} (λ a b. (a, b)) pads counts

-- The value field that `put` writes, read back at its length.
value_again :
    (value : List ℕ) (m : ℕ)
    → m ≤ length value
    → take m (take m value ++ replicate (64 - m) 0) ++ replicate (64 - m) 0
      ≡ take m value ++ replicate (64 - m) 0
value_again value m h =
    ap (λ l. l ++ replicate (64 - m) 0)
      (take-append m (take m value) (replicate (64 - m) 0) (length-take m value h))

module _ (key value : List ℕ) (m : ℕ) (k : IsKey key) (b : IsBytes value) (short : m ≤ 64)
    (enough : m ≤ length value) where
  written : Record
  written = entry (normalize_key key) value m

  value_length : length written.value ≡ 64
  unfolding written entry
  value_length = omega (
    arith,
    length-append (take m value) (replicate (64 - m) 0),
    length-take m value enough,
    length-replicate {A = ℕ} (64 - m) 0,
  )

  written-IsRecord : IsRecord written
  unfolding written entry
  written-IsRecord = record {
    key_length = length-norm key;
    key_bytes = norm-IsBytes key k.bytes;
    value_length = value_length;
    value_bytes =
        append-IsBytes (take m value) (replicate (64 - m) 0) (take-IsBytes m value b)
          (replicate-IsBytes (64 - m) 0 (omega arith));
    seq_fits = omega arith;
    key_len_fits = omega (arith, key_len-le key);
    value_len_fits = omega arith;
    flags_fits = omega arith;
    reserved_length = refl;
    reserved_bytes = replicate-IsBytes reserved_width 0 (omega arith);
    crc_fits = omega arith;
  }

  written-shape : normalize_key (key_view written) ≡ normalize_key key
  unfolding written entry key_view
  written-shape =
      let n : (if ltb 8 (normalize_key key).1 then 8 else (normalize_key key).1)
          ≡ (normalize_key key).1 =
        ground (arith, key_len-le key) in
      ap (λ t. normalize_key (take t (normalize_key key).0)) n ∙ normalize_key-take key

  written-itself : entry (normalize_key key) written.value written.value_len ≡ written
  unfolding written entry
  written-itself i =
      let n : m % 256 ≡ m = omega arith in
      record {
        key = (normalize_key key).0;
        value =
            (ap (λ t. take t (take m value ++ replicate (64 - m) 0) ++ replicate (64 - t) 0) n
                ∙ value_again value m enough)
              i;
        seq = 0;
        key_len = (normalize_key key).1;
        value_len = ap (λ (t : ℕ). t % 256) n i;
        flags = 0;
        reserved = replicate reserved_width 0;
        crc32 = 0;
      }

  -- What `put` writes is canonical.
  pub entry-IsCanonical : IsCanonical (entry (normalize_key key) value m)
  entry-IsCanonical = record {
    storable = record {
      widths = unfold written in written-IsRecord;
      starts = unfold entry in k.starts;
    };
    shape = unfold written entry in written-shape;
    itself = unfold written entry in written-itself;
    short = unfold entry in omega arith;
    no_flags = unfold entry in refl;
  }

  pub fill_record-eq-entry : fill_record key (some value) m 0 ≡ entry (normalize_key key) value m
  unfolding fill_record entry
  fill_record-eq-entry = refl

-- The tombstone of a key.
pub tombstone-IsStorable : (key : List ℕ) → IsKey key → IsStorable (fill_record key none 0 1)
unfolding fill_record
tombstone-IsStorable key k = record {
  widths = record {
    key_length = length-norm key;
    key_bytes = norm-IsBytes key k.bytes;
    value_length = refl;
    value_bytes = replicate-IsBytes 64 0 (omega arith);
    seq_fits = omega arith;
    key_len_fits = omega (arith, key_len-le key);
    value_len_fits = omega arith;
    flags_fits = omega arith;
    reserved_length = refl;
    reserved_bytes = replicate-IsBytes reserved_width 0 (omega arith);
    crc_fits = omega arith;
  };
  starts = k.starts;
}

pub tombstone-shape :
    (key : List ℕ) → normalize_key (key_view (fill_record key none 0 1)) ≡ normalize_key key
unfolding fill_record key_view
tombstone-shape key =
    let n : (if ltb 8 (normalize_key key).1 then 8 else (normalize_key key).1)
        ≡ (normalize_key key).1 =
      ground (arith, key_len-le key) in
    ap (λ t. normalize_key (take t (normalize_key key).0)) n ∙ normalize_key-take key
