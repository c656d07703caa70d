-- ===== src/Config/Format/Codec.antt =====
-- The byte image of a record or a header is one slot, and reading it back gives the structure.
use pixel_multiverse_firmwar.Prelude.{
  ℕ, ◌+◌, ◌≡◌, ap, ◌∙◌, List, ◌∷◌, ◌++◌, append_assoc, take, drop, get_or, length, length-append,
  take-append, drop-append, drop_past, IsBytes, append-IsBytes, to_le32, le32, le32-to_le32,
  to_le32-IsBytes, arith,
}
use pixel_multiverse_firmwar.Config.Format.{
  Record, IsRecord, record_bytes, record_at, record_size, crc_coverage,
}

module _ (r : Record) (rest : List ℕ) (v : IsRecord r) where
  tail_bytes : List ℕ
  tail_bytes =
      to_le32 r.seq
      ++ (r.key_len ∷ r.value_len ∷ r.flags ∷ (r.reserved ++ (to_le32 r.crc32 ++ rest)))

  image : record_bytes r ++ rest ≡ r.key ++ (r.value ++ tail_bytes)
  unfolding record_bytes tail_bytes
  image = simp append_assoc

  drop_key : drop 8 (r.key ++ (r.value ++ tail_bytes)) ≡ r.value ++ tail_bytes
  drop_key = drop-append 8 r.key (r.value ++ tail_bytes) v.key_length

  drop_value : (m : ℕ) → drop (8 + (64 + m)) (r.key ++ (r.value ++ tail_bytes)) ≡ drop m tail_bytes
  drop_value m =
      drop_past 8 (64 + m) r.key (r.value ++ tail_bytes) v.key_length
      ∙ drop_past 64 m r.value tail_bytes v.value_length

  drop_reserved : drop 52 tail_bytes ≡ to_le32 r.crc32 ++ rest
  unfolding tail_bytes
  drop_reserved = drop-append 45 r.reserved (to_le32 r.crc32 ++ rest) v.reserved_length

  whole : List ℕ
  whole = r.key ++ (r.value ++ tail_bytes)

  key_field : take 8 whole ≡ r.key
  unfolding whole
  key_field = take-append 8 r.key (r.value ++ tail_bytes) v.key_length

  value_field : take 64 (drop 8 whole) ≡ r.value
  unfolding whole
  value_field = ap (take 64) drop_key ∙ take-append 64 r.value tail_bytes v.value_length

  seq_field : le32 (drop 72 whole) ≡ r.seq
  unfolding whole tail_bytes
  seq_field =
      ap le32 (drop_value 0)
      ∙ le32-to_le32 r.seq
          (r.key_len ∷ r.value_len ∷ r.flags ∷ (r.reserved ++ (to_le32 r.crc32 ++ rest))) v.seq_fits

  key_len_field : get_or (drop 76 whole) 0 0 ≡ r.key_len
  unfolding whole tail_bytes
  key_len_field = ap (λ l. get_or l 0 0) (drop_value 4)

  value_len_field : get_or (drop 77 whole) 0 0 ≡ r.value_len
  unfolding whole tail_bytes
  value_len_field = ap (λ l. get_or l 0 0) (drop_value 5)

  flags_field : get_or (drop 78 whole) 0 0 ≡ r.flags
  unfolding whole tail_bytes
  flags_field = ap (λ l. get_or l 0 0) (drop_value 6)

  reserved_field : take 45 (drop 79 whole) ≡ r.reserved
  unfolding whole tail_bytes
  reserved_field =
      ap (take 45) (drop_value 7)
      ∙ take-append 45 r.reserved (to_le32 r.crc32 ++ rest) v.reserved_length

  crc_field : le32 (drop 124 whole) ≡ r.crc32
  unfolding whole
  crc_field = ap le32 (drop_value 52 ∙ drop_reserved) ∙ le32-to_le32 r.crc32 rest v.crc_fits

  record_at-whole : record_at whole ≡ r
  unfolding record_at
  record_at-whole i = record {
    key = key_field i;
    value = value_field i;
    seq = seq_field i;
    key_len = key_len_field i;
    value_len = value_len_field i;
    flags = flags_field i;
    reserved = reserved_field i;
    crc32 = crc_field i;
  }

  -- A record of the declared field widths, read back from its byte image with any bytes behind it, is
  -- the same record, field by field.
  pub record_at-record_bytes : record_at (record_bytes r ++ rest) ≡ r
  unfolding whole
  record_at-record_bytes = ap record_at image ∙ record_at-whole

-- The byte image of a record fills one slot.
pub length-record_bytes : (r : Record) → IsRecord r → length (record_bytes r) ≡ record_size
unfolding record_bytes
length-record_bytes r v = omega (
  arith,
  v,
  length-append r.key (
      r.value
      ++ (to_le32 r.seq ++ (r.key_len ∷ r.value_len ∷ r.flags ∷ (r.reserved ++ to_le32 r.crc32)))),
  length-append r.value
      (to_le32 r.seq ++ (r.key_len ∷ r.value_len ∷ r.flags ∷ (r.reserved ++ to_le32 r.crc32))),
  length-append r.reserved (to_le32 r.crc32),
)

pub record_bytes-IsBytes : (r : Record) → IsRecord r → IsBytes (record_bytes r)
unfolding record_bytes
record_bytes-IsBytes r v = append-IsBytes r.key _ v.key_bytes (
    append-IsBytes r.value _ v.value_bytes (
      append-IsBytes (to_le32 r.seq)
        (r.key_len ∷ r.value_len ∷ r.flags ∷ (r.reserved ++ to_le32 r.crc32))
        (to_le32-IsBytes r.seq)
        (
          v.key_len_fits,
          (
            v.value_len_fits,
            (v.flags_fits, append-IsBytes r.reserved _ v.reserved_bytes (to_le32-IsBytes r.crc32)),
          ),
        )))

-- The bytes that the CRC covers.
unfoldable pub covered_bytes : Record → List ℕ
covered_bytes r =
    r.key ++ (r.value ++ (to_le32 r.seq ++ (r.key_len ∷ r.value_len ∷ r.flags ∷ r.reserved)))

covered_image : (r : Record) → record_bytes r ≡ covered_bytes r ++ to_le32 r.crc32
unfolding record_bytes covered_bytes
covered_image r = simp append_assoc

pub take-record_bytes :
    (r : Record) (rest : List ℕ)
    → IsRecord r
    → take crc_coverage (record_bytes r ++ rest) ≡ covered_bytes r
take-record_bytes r rest v =
    rw (covered_image r, append_assoc)
      (take-append crc_coverage (covered_bytes r) (to_le32 r.crc32 ++ rest) covered_length)
  where
    covered_length : length (covered_bytes r) ≡ crc_coverage
    covered_length =
        let whole : length (record_bytes r) ≡ record_size = length-record_bytes r v in
        let parts : length (covered_bytes r ++ to_le32 r.crc32) ≡ length (covered_bytes r) + 4 =
          length-append (covered_bytes r) (to_le32 r.crc32) in
        omega (arith, ap length (covered_image r))
