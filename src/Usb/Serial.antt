-- ===== src/Usb/Serial.antt =====
-- The serial number of src/get_serial.cpp: the board's unique id in hexadecimal, the high nibble of
-- each byte first.
use pixel_multiverse_firmwar.Prelude.{
  ℕ, zero, suc, ◌+◌, ◌-◌, ◌*◌, ◌/◌, ◌%◌, ◌^◌, ◌<◌, ◌≡◌, List, [], ◌∷◌, ltb, if◌then◌else◌, get_or,
  set, arith, IsByte,
}

abbrev pub id_bytes : ℕ
id_bytes = 8

abbrev pub hex_digit : ℕ → ℕ
hex_digit nibble = if ltb nibble 10 then nibble + 48 else nibble + 65 - 10

-- The `n` rounds of the loop from `i` on. A byte is shifted left once its high nibble is out.
unfoldable pub serial_loop : ℕ → ℕ → List ℕ → List ℕ
serial_loop i zero id = []
serial_loop i (suc n) id =
    let b = get_or id (i / 2) 0 in
    let rest = serial_loop (i + 1) n (set id (i / 2) (b * 2 ^ 4 % 256)) in
    hex_digit (b / 2 ^ 4 % 16) ∷ rest

unfoldable pub usb_serial : List ℕ → List ℕ
unfolding serial_loop
usb_serial id = serial_loop 0 (id_bytes * 2) id

-- The reading of two digits, and of pairs of them.
abbrev pub digit_value : ℕ → ℕ
digit_value c = if ltb c 58 then c - 48 else c - 55

abbrev pub parse_hex : List ℕ → List ℕ
parse_hex [] = []
parse_hex (h ∷ []) = []
parse_hex (h ∷ l ∷ rest) = (digit_value h * 16 + digit_value l) ∷ parse_hex rest

digit_value-hex_digit : (n : ℕ) → n < 16 → digit_value (hex_digit n) ≡ n
digit_value-hex_digit n h = ground arith

pair_value :
    (b : ℕ)
    → b < 256
    → digit_value (hex_digit (b / 2 ^ 4 % 16)) * 16
        + digit_value (hex_digit (b * 2 ^ 4 % 256 / 2 ^ 4 % 16))
      ≡ b
pair_value b h =
    let high = digit_value-hex_digit (b / 2 ^ 4 % 16) (omega arith) in
    let low = digit_value-hex_digit (b * 2 ^ 4 % 256 / 2 ^ 4 % 16) (omega arith) in
    omega (arith, high, low)

-- The serial number of an id of eight bytes reads back as the id, so two boards with different ids
-- have different serial numbers.
pub parse_hex-usb_serial :
    (a b c d e f g h : ℕ)
    → IsByte a × IsByte b × IsByte c × IsByte d
    → IsByte e × IsByte f × IsByte g × IsByte h
    → let id = a ∷ b ∷ c ∷ d ∷ e ∷ f ∷ g ∷ h ∷ [] in parse_hex (usb_serial id) ≡ id
unfolding usb_serial
parse_hex-usb_serial a b c d e f g h p q = rw (
  pair_value a p.0,
  pair_value b p.1,
  pair_value c p.2,
  pair_value d p.3,
  pair_value e q.0,
  pair_value f q.1,
  pair_value g q.2,
  pair_value h q.3,
)
