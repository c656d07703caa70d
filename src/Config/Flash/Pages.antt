-- ===== src/Config/Flash/Pages.antt =====
-- What a page reads after an erase of the region and after a program of one page.
use pixel_multiverse_firmwar.Prelude.{
  ℕ, zero, suc, ◌+◌, ◌-◌, ◌*◌, ◌≤◌, ◌<◌, ◌≡◌, ◌≢◌, ◌⊎◌, inl, inr, refl, ap, ap₂, sym, ◌∙◌, List, [],
  ◌∷◌, length, get_or, bit_and, bit_and-erased, IsBytes, get_or-IsByte, arith,
}
use native.Mathlib.Decide.{dec_lt}
use pixel_multiverse_firmwar.Config.Flash.{Memory, FlashOps, IsNor, read, page_at, page_bytes}

-- Every byte of the page is 0xFF.
abbrev pub IsErased : Memory → ℕ → Type 0
IsErased m p = (i : ℕ) → i < page_bytes → m (p * page_bytes + i) ≡ 0xFF

pub length-read : (m : Memory) (off n : ℕ) → length (read m off n) ≡ n
unfolding read
length-read m off zero = refl
length-read m off (suc n) = ap suc (length-read m (off + 1) n)

pub read_ext :
    (m m' : Memory) (off n : ℕ)
    → ((i : ℕ) → off ≤ i → i < off + n → m i ≡ m' i)
    → read m off n ≡ read m' off n
unfolding read
read_ext m m' off zero h = refl
read_ext m m' off (suc n) h =
    ap₂ ◌∷◌ (h off (omega arith) (omega arith))
      (read_ext m m' (off + 1) n (λ i a b. h i (omega arith) (omega arith)))

-- Reading bytes that are known one by one.
pub read-eq :
    (m : Memory) (off : ℕ) (l : List ℕ)
    → ((i : ℕ) → i < length l → m (off + i) ≡ get_or l i 0)
    → read m off (length l) ≡ l
unfolding read
read-eq m off [] h = refl
read-eq m off (x ∷ l) h =
    ap₂ ◌∷◌ (let e : off ≡ off + 0 = omega arith in ap m e ∙ h 0 (omega arith)) (
      read-eq m (off + 1) l (λ i a.
        let e : off + 1 + i ≡ off + suc i = omega arith in ap m e ∙ h (suc i) (omega arith)))

module _ (ops : FlashOps) (nor : IsNor ops) (m : Memory) where
  -- After the erase of the whole region each of its pages is erased.
  pub erase-IsErased :
      (p : ℕ) → p * page_bytes + page_bytes ≤ ops.size → IsErased (ops.erase m 0 ops.size) p
  erase-IsErased p h i lt =
      nor.erase_sets m 0 ops.size (p * page_bytes + i) (omega arith) (omega arith)

  -- An erased page reads what is programmed into it.
  pub page_at-program_self :
      (p : ℕ) (d : List ℕ)
      → length d ≡ page_bytes
      → IsBytes d
      → IsErased m p
      → page_at (ops.program m (p * page_bytes) d) p ≡ d
  page_at-program_self p d e b blank =
      ap (read (ops.program m (p * page_bytes) d) (p * page_bytes)) (sym e)
      ∙ read-eq (ops.program m (p * page_bytes) d) (p * page_bytes) d (λ i lt.
        nor.program_clears m (p * page_bytes) d i lt
        ∙ ap (λ b'. bit_and b' (get_or d i 0)) (blank i (omega arith))
        ∙ bit_and-erased (get_or d i 0) (get_or-IsByte d i b))

  pub program_elsewhere :
      (p q : ℕ) (d : List ℕ)
      → length d ≡ page_bytes
      → p ≢ q
      → (i : ℕ) → i < page_bytes
      → ops.program m (p * page_bytes) d (q * page_bytes + i) ≡ m (q * page_bytes + i)
  program_elsewhere p q d e ne i lt =
      nor.program_keeps m (p * page_bytes) d (q * page_bytes + i) (apart (dec_lt q p))
    where
      apart :
          Dec (q < p)
          → (q * page_bytes + i < p * page_bytes) ⊎ (p * page_bytes + length d ≤ q * page_bytes + i)
      apart (yes lt') = inl (omega arith)
      apart (no ge) = inr (omega arith)

  -- The other pages stay as they were.
  pub page_at-program_ne :
      (p q : ℕ) (d : List ℕ)
      → length d ≡ page_bytes
      → p ≢ q
      → page_at (ops.program m (p * page_bytes) d) q ≡ page_at m q
  page_at-program_ne p q d e ne =
      read_ext (ops.program m (p * page_bytes) d) m (q * page_bytes) page_bytes (λ i a b.
        let split : q * page_bytes + (i - q * page_bytes) ≡ i = omega arith in
        ap (ops.program m (p * page_bytes) d) (sym split)
        ∙ program_elsewhere p q d e ne (i - q * page_bytes) (omega arith)
        ∙ ap m split)

  pub program-IsErased :
      (p q : ℕ) (d : List ℕ)
      → length d ≡ page_bytes
      → p ≢ q
      → IsErased m q
      → IsErased (ops.program m (p * page_bytes) d) q
  program-IsErased p q d e ne blank i lt = program_elsewhere p q d e ne i lt ∙ blank i lt
