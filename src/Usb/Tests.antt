-- ===== src/Usb/Tests.antt =====
-- The USB transport at concrete bytes: a stray byte before the prefix, and a prefix that is cut short.
use pixel_multiverse_firmwar.Prelude.{ℕ, ◌≡◌, refl, true, List, [], ◌∷◌, ◌++◌, arith, ascii}
use pixel_multiverse_firmwar.Usb.Cdc.{Port, wait_rounds, read}
use pixel_multiverse_firmwar.Usb.Cdc.Stream.{wait_rounds-resync}
use pixel_multiverse_firmwar.Usb.Serial.{usb_serial}

-- A stray byte, and waits that end at their deadlines before more bytes come.
abbrev stray : Port
stray = (9 ∷ ascii "abc!", [] ∷ [] ∷ [] ∷ ((ascii "?") ∷ []) ∷ [])

resync_test : (wait_rounds 2 (ascii "abc") stray).0 ≡ true
unfolding wait_rounds
resync_test = refl

-- Nothing comes before the first wait's deadline, then the pattern.
silence_test :
    (wait_rounds 2 (ascii "abc") ([], [] ∷ ([] ∷ []) ∷ ((ascii "abc") ∷ []) ∷ [])).0 ≡ true
unfolding wait_rounds
silence_test = refl

wait_rounds-resync_example :
    ((wait_rounds 2 (ascii "abc") stray).0 ≡ true)
    × (more : List ℕ) × ((wait_rounds 2 (ascii "abc") stray).1.0 ≡ ascii "!" ++ more)
wait_rounds-resync_example =
    wait_rounds-resync b'a' (ascii "bc") (9 ∷ []) (ascii "!") stray (omega arith, tt) refl

read_test : (read 3 (1 ∷ []) ((2 ∷ []) ∷ (3 ∷ 4 ∷ []) ∷ [])).0 ≡ 1 ∷ 2 ∷ 3 ∷ []
unfolding read
read_test = refl

abbrev board_id : List ℕ
board_id = 0xE6 ∷ 0x61 ∷ 0x38 ∷ 0x0A ∷ 0xFF ∷ 0 ∷ 0x9C ∷ 7 ∷ []

serial_test : usb_serial board_id ≡ ascii "E661380AFF009C07"
unfolding usb_serial
serial_test = refl
