-- ===== src/Config/Format.antt =====
-- src/config/kv_format.hpp: the constants, `kv::Header` and `kv::Record`, and their byte images.
pub mod Codec
use pixel_multiverse_firmwar.Prelude.{
  ℕ, ◌+◌, ◌-◌, List, [], ◌∷◌, ◌++◌, take, drop, get_or, length, IsBytes, to_le16, to_le32, le16,
  le32, ◌≡◌, ◌≤◌, ◌<◌, ◌^◌,
}

abbrev pub key_width : ℕ
key_width = 8

abbrev pub value_width : ℕ
value_width = 64

abbrev pub crc_width : ℕ
crc_width = 4

abbrev pub record_size : ℕ
record_size = 128

abbrev pub crc_coverage : ℕ
crc_coverage = record_size - crc_width

abbrev pub reserved_width : ℕ
reserved_width = record_size - key_width - value_width - 4 - 1 - 1 - 1 - crc_width

abbrev pub flag_deleted : ℕ
flag_deleted = 1

abbrev pub format_version : ℕ
format_version = 1

abbrev pub magic : List ℕ
magic = b'M' ∷ b'V' ∷ b'K' ∷ b'V' ∷ []

abbrev pub slot_erased : ℕ
slot_erased = 0xFF

-- `kv::Header`, the region's slot 0
pub record Header : Type 0 where
  pub magic_bytes : List ℕ
  pub version : ℕ
  pub slot_size : ℕ
  pub reserved : List ℕ
  pub crc32 : ℕ

-- `kv::Record`. Its character and byte arrays are lists.
pub record Record : Type 0 where
  pub key : List ℕ
  pub value : List ℕ
  pub seq : ℕ
  pub key_len : ℕ
  pub value_len : ℕ
  pub flags : ℕ
  pub reserved : List ℕ
  pub crc32 : ℕ

-- The bytes of a structure in memory, fields in order, words little-endian.
unfoldable pub header_bytes : Header → List ℕ
header_bytes h =
    h.magic_bytes ++ (to_le16 h.version ++ (to_le16 h.slot_size ++ (h.reserved ++ to_le32 h.crc32)))

-- The 128 bytes of a record as the struct lies in memory, little-endian.
unfoldable pub record_bytes : Record → List ℕ
record_bytes r =
    r.key
    ++ (r.value
        ++ (to_le32 r.seq ++ (r.key_len ∷ r.value_len ∷ r.flags ∷ (r.reserved ++ to_le32 r.crc32))))

-- `reinterpret_cast<const Header*>` and `<const Record*>`: the fields at their offsets.
unfoldable pub header_at : List ℕ → Header
header_at b = record {
  magic_bytes = take 4 b;
  version = le16 (drop 4 b);
  slot_size = le16 (drop 6 b);
  reserved = take (record_size - 8 - crc_width) (drop 8 b);
  crc32 = le32 (drop crc_coverage b);
}

unfoldable pub record_at : List ℕ → Record
record_at b = record {
  key = take key_width b;
  value = take value_width (drop 8 b);
  seq = le32 (drop 72 b);
  key_len = get_or (drop 76 b) 0 0;
  value_len = get_or (drop 77 b) 0 0;
  flags = get_or (drop 78 b) 0 0;
  reserved = take reserved_width (drop 79 b);
  crc32 = le32 (drop crc_coverage b);
}

-- The widths of a record's fields: what the C++ types give.
pub record IsRecord (r : Record) : Type 0 where
  pub key_length : length r.key ≡ key_width
  pub key_bytes : IsBytes r.key
  pub value_length : length r.value ≡ value_width
  pub value_bytes : IsBytes r.value
  pub seq_fits : r.seq < 2 ^ 32
  pub key_len_fits : r.key_len < 256
  pub value_len_fits : r.value_len < 256
  pub flags_fits : r.flags < 256
  pub reserved_length : length r.reserved ≡ reserved_width
  pub reserved_bytes : IsBytes r.reserved
  pub crc_fits : r.crc32 < 2 ^ 32
