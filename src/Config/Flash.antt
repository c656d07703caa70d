-- ===== src/Config/Flash.antt =====
-- `kv::FlashOps` of src/config/kv_log.hpp: the storage backend, and the pages of its region.
-- The region is a memory of bytes, which `read` exposes at an offset; the backend erases and
-- programs it. What the log needs of a backend is `IsNor`, the behaviour of NOR flash.
pub mod Pages
use pixel_multiverse_firmwar.Prelude.{
  ℕ, zero, suc, ◌+◌, ◌*◌, ◌≤◌, ◌<◌, ◌≡◌, ◌⊎◌, List, [], ◌∷◌, length, get_or, bit_and,
}

abbrev pub page_bytes : ℕ
page_bytes = 256

abbrev pub sector_bytes : ℕ
sector_bytes = 4096

-- The bytes of the region by offset.
abbrev pub Memory : Type 0
Memory = ℕ → ℕ

pub record FlashOps : Type 0 where
  pub size : ℕ
  pub erase : Memory → ℕ → ℕ → Memory
  pub program : Memory → ℕ → List ℕ → Memory

-- Erasing sets every byte of a range, programming only clears bits.
pub record IsNor (ops : FlashOps) : Type 0 where
  pub erase_sets :
      (m : Memory) (off len i : ℕ) → off ≤ i → i < off + len → ops.erase m off len i ≡ 0xFF
  pub program_clears :
      (m : Memory) (off : ℕ) (d : List ℕ) (i : ℕ)
      → i < length d
      → ops.program m off d (off + i) ≡ bit_and (m (off + i)) (get_or d i 0)
  pub program_keeps :
      (m : Memory) (off : ℕ) (d : List ℕ) (i : ℕ)
      → (i < off) ⊎ (off + length d ≤ i)
      → ops.program m off d i ≡ m i

-- The `n` bytes at an offset.
unfoldable pub read : Memory → ℕ → ℕ → List ℕ
read m off zero = []
read m off (suc n) = m off ∷ read m (off + 1) n

abbrev pub page_at : Memory → ℕ → List ℕ
page_at m page = read m (page * page_bytes) page_bytes
