-- ===== src/Prelude/Bytes.antt =====
-- Bytes as numbers below 256: comparison of byte ranges, little-endian words, and what a NOR
-- `program` does to an erased byte.
use Prim.Native.Nat.{ℕ, zero, suc, ◌+◌, ◌*◌, ◌/◌, ◌%◌, ◌^◌, ◌<◌, bit_and}
use mathlib.Core.Path.{◌≡◌, refl}
use mathlib.Core.Logic.{◌↔◌}
use mathlib.Core.Bool.{Bool, true, false, ◌&&◌}
use mathlib.Core.List.{List, [], ◌∷◌, ◌++◌}
use native.Mathlib.Omega.{arith}
use pixel_multiverse_firmwar.Prelude.Tests.{◌==◌, ==_iff}
use pixel_multiverse_firmwar.Prelude.Lists.{get_or, take, replicate, All}

-- memcmp(a, b, n) == 0 over ranges of one length
unfoldable pub bytes_eq : List ℕ → List ℕ → Bool
bytes_eq [] [] = true
bytes_eq [] (b ∷ bs) = false
bytes_eq (a ∷ as') [] = false
bytes_eq (a ∷ as') (b ∷ bs) = a == b && bytes_eq as' bs

pub bytes_eq→eq : (a b : List ℕ) → bytes_eq a b ≡ true → a ≡ b
unfolding bytes_eq
bytes_eq→eq [] [] h = refl
bytes_eq→eq [] (y ∷ ys) h = cc
bytes_eq→eq (x ∷ xs) [] h = cc
bytes_eq→eq (x ∷ xs) (y ∷ ys) h = ground (arith, bytes_eq→eq xs ys)

pub bytes_eq_refl : (a : List ℕ) → bytes_eq a a ≡ true
unfolding bytes_eq
bytes_eq_refl [] = refl
bytes_eq_refl (x ∷ xs) = ground (arith, bytes_eq_refl xs)

pub bytes_eq_iff : (a b : List ℕ) → (bytes_eq a b ≡ true) ↔ (a ≡ b)
bytes_eq_iff a b = (bytes_eq→eq a b, λ e. rw e (bytes_eq_refl b))

abbrev pub IsByte : ℕ → Type 0
IsByte b = b < 256

abbrev pub IsBytes : List ℕ → Type 0
IsBytes = All IsByte

pub append-IsBytes : (xs ys : List ℕ) → IsBytes xs → IsBytes ys → IsBytes (xs ++ ys)
append-IsBytes [] ys h k = k
append-IsBytes (x ∷ xs) ys h k = (h.0, append-IsBytes xs ys h.1 k)

pub replicate-IsBytes : (n b : ℕ) → b < 256 → IsBytes (replicate n b)
replicate-IsBytes zero b h = tt
replicate-IsBytes (suc n) b h = (h, replicate-IsBytes n b h)

pub take-IsBytes : (n : ℕ) (xs : List ℕ) → IsBytes xs → IsBytes (take n xs)
take-IsBytes zero xs h = tt
take-IsBytes (suc n) [] h = tt
take-IsBytes (suc n) (x ∷ xs) h = (h.0, take-IsBytes n xs h.1)

pub get_or-IsByte : (xs : List ℕ) (i : ℕ) → IsBytes xs → get_or xs i 0 < 256
get_or-IsByte [] i h = omega arith
get_or-IsByte (x ∷ xs) zero h = h.0
get_or-IsByte (x ∷ xs) (suc i) h = get_or-IsByte xs i h.1

-- A little-endian 16-bit and 32-bit word, and the numbers that such bytes stand for.
abbrev pub to_le16 : ℕ → List ℕ
to_le16 x = x % 256 ∷ x / 256 % 256 ∷ []

abbrev pub to_le32 : ℕ → List ℕ
to_le32 x = x % 256 ∷ x / 256 % 256 ∷ x / 65536 % 256 ∷ x / 16777216 % 256 ∷ []

abbrev pub le16 : List ℕ → ℕ
le16 p = get_or p 0 0 + get_or p 1 0 * 256

abbrev pub le32 : List ℕ → ℕ
le32 p = get_or p 0 0 + get_or p 1 0 * 256 + get_or p 2 0 * 65536 + get_or p 3 0 * 16777216

pub le32-to_le32 : (x : ℕ) (rest : List ℕ) → x < 2 ^ 32 → le32 (to_le32 x ++ rest) ≡ x
le32-to_le32 x rest h = omega arith

pub le16-to_le16 : (x : ℕ) (rest : List ℕ) → x < 2 ^ 16 → le16 (to_le16 x ++ rest) ≡ x
le16-to_le16 x rest h = omega arith

pub to_le32-IsBytes : (x : ℕ) → IsBytes (to_le32 x)
to_le32-IsBytes x = omega arith

-- The test of the values from `n - 1` down.
writes_below : ℕ → Bool
writes_below zero = true
writes_below (suc n) = bit_and 255 n == n && writes_below n

every_byte : writes_below 256 ≡ true
unfolding writes_below
every_byte = refl

writes_below→eq : (n b : ℕ) → b < n → writes_below n ≡ true → bit_and 255 b ≡ b
unfolding writes_below
writes_below→eq zero b lt t = elim lt [ ]
writes_below→eq (suc n) b lt t = ground (arith, ==_iff (bit_and 255 n) n, writes_below→eq n b)

-- Programming an erased byte writes the byte.
pub bit_and-erased : (b : ℕ) → b < 256 → bit_and 255 b ≡ b
bit_and-erased b lt = writes_below→eq 256 b lt every_byte
