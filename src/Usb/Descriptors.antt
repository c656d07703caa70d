-- ===== src/Usb/Descriptors.antt =====
-- The string descriptors of src/usb_descriptors.cpp. `product` is MULTIVERSE_USB_PRODUCT and `serial`
-- the serial number, of characters other than NUL; a word of a descriptor is a number below 65536.
use pixel_multiverse_firmwar.Prelude.{
  ℕ, ◌+◌, ◌*◌, ◌/◌, ◌%◌, ◌≤◌, ◌≡◌, Option, none, some, List, [], ◌∷◌, ltb, ◌==◌, if◌then◌else◌,
  length, take, get_or, ascii, arith, Bool-cases, Option-cases, inl, inr, length-take, subst,
}

abbrev pub lang_id : ℕ
lang_id = 0x09 + 0x04 * 256

-- string_desc_arr, from its second entry on
abbrev pub string_desc_arr : List ℕ → List ℕ → ℕ → Option (List ℕ)
string_desc_arr product serial index =
    if index == 1
    then some (ascii "Pimoroni")
    else if index == 2
    then some product
    else if index == 3
    then some serial
    else none

-- strlen, cut off to a byte, and then to 31
abbrev pub chr_count : List ℕ → ℕ
chr_count str = if ltb 31 (length str % 256) then 31 else length str % 256

-- (TUSB_DESC_STRING << 8) | (2 * count + 2), whose two parts share no bit
abbrev pub string_header : ℕ → ℕ
string_header count = 3 * 256 + (2 * count + 2)

abbrev pub string_words : Option (List ℕ) → Option (List ℕ)
string_words none = none
string_words (some str) = some (string_header (chr_count str) ∷ take (chr_count str) str)

-- The words of `_desc_str` that the descriptor's length covers; none is NULL.
unfoldable pub tud_descriptor_string_cb : List ℕ → List ℕ → ℕ → Option (List ℕ)
tud_descriptor_string_cb product serial index =
    if index == 0
    then some (string_header 1 ∷ lang_id ∷ [])
    else string_words (string_desc_arr product serial index)

-- A descriptor that is given out fits its 32 words, its first word has the number of its bytes in the
-- low byte and the type 3 in the high one, and there is one for the indices 0 to 3 only.
pub tud_descriptor_string_cb-fits :
    (product serial words : List ℕ) (index : ℕ)
    → tud_descriptor_string_cb product serial index ≡ some words
    → (length words ≤ 32)
      × (get_or words 0 0 % 256 ≡ 2 * length words)
      × (get_or words 0 0 / 256 ≡ 3)
      × (index ≤ 3)
unfolding tud_descriptor_string_cb
tud_descriptor_string_cb-fits product serial words index e = elim (Bool-cases (index == 0)) [
  | inl first ↦
      let same : string_header 1 ∷ lang_id ∷ [] ≡ words = ground arith in
      subst
        (λ w.
          (length w ≤ 32)
          × (get_or w 0 0 % 256 ≡ 2 * length w)
          × (get_or w 0 0 / 256 ≡ 3)
          × (index ≤ 3))
        same (omega arith, omega arith, omega arith, ground arith)
  | inr later ↦ elim (Option-cases (string_desc_arr product serial index)) [
    | inl missing ↦ absurd (ground arith)
    | inr (str, there) ↦
        let n = chr_count str in
        let small : n ≤ 31 = ground arith in
        let enough : n ≤ length str = ground arith in
        let same : string_header n ∷ take n str ≡ words = ground (arith, there) in
        let len = length-take n str enough in
        let known : index ≤ 3 = ground (arith, there) in
        subst
          (λ w.
            (length w ≤ 32)
            × (get_or w 0 0 % 256 ≡ 2 * length w)
            × (get_or w 0 0 / 256 ≡ 3)
            × (index ≤ 3))
          same (omega (arith, len, small), omega (arith, len, small), omega (arith, small), known)
  ]
]
