-- ===== src/Config/Log/Slot.antt =====
-- A page that was written reads back: not erased, with a matching CRC, and the record that was
-- stamped.
use pixel_multiverse_firmwar.Prelude.{
  ℕ, zero, suc, ◌+◌, ◌*◌, ◌^◌, ◌<◌, ◌≡◌, ◌≢◌, refl, sym, ap, ◌∙◌, true, false, List, [], ◌∷◌, ◌++◌,
  take, get_or, bytes_eq, length, length-append, take-append, append-IsBytes, replicate-IsBytes,
  IsBytes, arith, append-nil, append_assoc, le32-to_le32,
}
use pixel_multiverse_firmwar.Config.Format.{
  Record, IsRecord, header_bytes, record_bytes, header_at, record_at, record_size, crc_coverage,
}
use pixel_multiverse_firmwar.Config.Format.Codec.{
  record_at-record_bytes, covered_bytes, take-record_bytes,
}
use pixel_multiverse_firmwar.Config.Flash.{Memory, FlashOps, IsNor, page_bytes, read, page_at}
use pixel_multiverse_firmwar.Config.Flash.Pages.{
  IsErased, page_at-program_self, page_at-program_ne, program-IsErased,
}
use pixel_multiverse_firmwar.Config.Log.{
  all_erased, page_erased, page_tail, record_valid, write_slot, stamp, header_valid, new_header,
  blank_header,
}

-- A shorter read at the same offset.
pub take-read : (m : Memory) (off n k : ℕ) → take n (read m off (n + k)) ≡ read m off n
unfolding read
take-read m off zero k = refl
take-read m off (suc n) k =
    let e : suc n + k ≡ suc (n + k) = omega arith in
    rw e (ap (λ l. m off ∷ l) (take-read m (off + 1) n k))

pub read-slot :
    (m : Memory) (p : ℕ) → read m (p * page_bytes) record_size ≡ take record_size (page_at m p)
read-slot m p = sym (take-read m (p * page_bytes) 128 128)

pub all_erased-cons : (b : ℕ) (bs : List ℕ) → b ≢ 0xFF → all_erased (b ∷ bs) ≡ false
unfolding all_erased
all_erased-cons b bs h = ground arith

pub all_erased-read :
    (m : Memory) (off n : ℕ)
    → ((i : ℕ) → i < n → m (off + i) ≡ 0xFF)
    → all_erased (read m off n) ≡ true
unfolding all_erased read
all_erased-read m off zero h = refl
all_erased-read m off (suc n) h =
    let e : off ≡ off + 0 = omega arith in
    ground (
      arith,
      ap m e ∙ h 0 (omega arith),
      all_erased-read m (off + 1) n (λ i lt. ap m (shift i) ∙ h (suc i) (omega arith)),
    )
  where
    shift : (i : ℕ) → off + 1 + i ≡ off + suc i
    shift i = omega arith

-- An erased page is seen as one.
pub page_erased-IsErased : (m : Memory) (p : ℕ) → IsErased m p → page_erased m p ≡ true
unfolding page_erased
page_erased-IsErased m p h = all_erased-read m (p * page_bytes) page_bytes h

pub page_erased_ext :
    (m m' : Memory) (p : ℕ) → page_at m p ≡ page_at m' p → page_erased m p ≡ page_erased m' p
unfolding page_erased
page_erased_ext m m' p e = ap all_erased e

length-page_tail : length page_tail ≡ 128
unfolding page_tail
length-page_tail = refl

page_tail-IsBytes : IsBytes page_tail
unfolding page_tail
page_tail-IsBytes = replicate-IsBytes 128 255 (omega arith)

module _ (ops : FlashOps) (crc : List ℕ → ℕ) (nor : IsNor ops) (m : Memory) (p : ℕ) (slot : List ℕ)
    (size : length slot ≡ record_size) (bytes : IsBytes slot) (blank : IsErased m p) where
  written : Memory
  written = write_slot ops crc m p slot

  full_length : length (slot ++ page_tail) ≡ page_bytes
  full_length = omega (arith, length-append slot page_tail, length-page_tail)

  pub page_at-write_slot : page_at (write_slot ops crc m p slot) p ≡ slot ++ page_tail
  unfolding write_slot
  page_at-write_slot =
      page_at-program_self ops nor m p (slot ++ page_tail) full_length
        (append-IsBytes slot page_tail bytes page_tail-IsBytes) blank

  pub read-write_slot : read (write_slot ops crc m p slot) (p * page_bytes) record_size ≡ slot
  read-write_slot =
      read-slot (write_slot ops crc m p slot) p
      ∙ ap (take record_size) page_at-write_slot
      ∙ take-append record_size slot page_tail size

  pub page_at-write_slot_ne :
      (q : ℕ) → p ≢ q → page_at (write_slot ops crc m p slot) q ≡ page_at m q
  unfolding write_slot
  page_at-write_slot_ne q ne = page_at-program_ne ops nor m p q (slot ++ page_tail) full_length ne

  pub write_slot-IsErased :
      (q : ℕ) → p ≢ q → IsErased m q → IsErased (write_slot ops crc m p slot) q
  unfolding write_slot
  write_slot-IsErased q ne = program-IsErased ops nor m p q (slot ++ page_tail) full_length ne

module _ (crc : List ℕ → ℕ) (crc_fits : (d : List ℕ) → crc d < 2 ^ 32) (ops : FlashOps) where
  pub stamp-IsRecord :
      (r : Record) (seq : ℕ) → IsRecord r → seq < 2 ^ 32 → IsRecord (stamp ops crc r seq)
  unfolding stamp
  stamp-IsRecord r seq v h = record {
    key_length = v.key_length;
    key_bytes = v.key_bytes;
    value_length = v.value_length;
    value_bytes = v.value_bytes;
    seq_fits = h;
    key_len_fits = v.key_len_fits;
    value_len_fits = v.value_len_fits;
    flags_fits = v.flags_fits;
    reserved_length = v.reserved_length;
    reserved_bytes = v.reserved_bytes;
    crc_fits = crc_fits (take crc_coverage (record_bytes (record r { seq = seq })));
  }

  pub record_at-stamped : (r : Record) → IsRecord r → record_at (record_bytes r) ≡ r
  record_at-stamped r v =
      ap record_at (sym (append-nil (record_bytes r))) ∙ record_at-record_bytes r [] v

  covered : (r : Record) → IsRecord r → take crc_coverage (record_bytes r) ≡ covered_bytes r
  covered r v =
      ap (take crc_coverage) (sym (append-nil (record_bytes r))) ∙ take-record_bytes r [] v

  module _ (r : Record) (seq : ℕ) (v : IsRecord r) (h : seq < 2 ^ 32) where
    seq-IsRecord : IsRecord (record r { seq = seq })
    seq-IsRecord = record {
      key_length = v.key_length;
      key_bytes = v.key_bytes;
      value_length = v.value_length;
      value_bytes = v.value_bytes;
      seq_fits = h;
      key_len_fits = v.key_len_fits;
      value_len_fits = v.value_len_fits;
      flags_fits = v.flags_fits;
      reserved_length = v.reserved_length;
      reserved_bytes = v.reserved_bytes;
      crc_fits = v.crc_fits;
    }

    -- The stamp does not change the bytes that it covers.
    covered-stamp : covered_bytes (stamp ops crc r seq) ≡ covered_bytes (record r { seq = seq })
    unfolding covered_bytes stamp
    covered-stamp = refl

    crc-stamp :
        crc (take crc_coverage (record_bytes (stamp ops crc r seq))) ≡ (stamp ops crc r seq).crc32
    crc-stamp =
        ap crc (covered (stamp ops crc r seq) (stamp-IsRecord r seq v h) ∙ covered-stamp)
        ∙ sym stamped
      where
        stamped : (stamp ops crc r seq).crc32 ≡ crc (covered_bytes (record r { seq = seq }))
        stamped = unfold stamp in ap crc (covered (record r { seq = seq }) seq-IsRecord)

    key-stamp : (stamp ops crc r seq).key ≡ r.key
    unfolding stamp
    key-stamp = refl

    pub record_valid-stamp :
        get_or r.key 0 0 ≢ 0xFF → record_valid ops crc (record_bytes (stamp ops crc r seq)) ≡ true
    unfolding record_valid stamp
    record_valid-stamp ne =
        rw
          (record_at-stamped (stamp ops crc r seq) (stamp-IsRecord r seq v h), key-stamp, crc-stamp)
          (ground arith)

all_erased-append :
    (key rest : List ℕ) → length key ≡ 8 → get_or key 0 0 ≢ 0xFF → all_erased (key ++ rest) ≡ false
all_erased-append [] rest e h = absurd (omega arith)
all_erased-append (c ∷ key) rest e h = all_erased-cons c (key ++ rest) h

-- A page that begins with a record's key is not erased.
pub page_erased-record :
    (m : Memory) (p : ℕ) (r : Record) (rest : List ℕ)
    → IsRecord r
    → get_or r.key 0 0 ≢ 0xFF
    → page_at m p ≡ record_bytes r ++ rest
    → page_erased m p ≡ false
unfolding page_erased record_bytes
page_erased-record m p r rest v ne e =
    rw e (ap all_erased (append_assoc r.key _ rest) ∙ all_erased-append r.key _ v.key_length ne)

module _ (ops : FlashOps) (crc : List ℕ → ℕ) where
  -- The header test reads page 0 alone.
  pub header_valid_ext :
      (m m' : Memory)
      → page_at m 0 ≡ page_at m' 0
      → header_valid ops crc m ≡ header_valid ops crc m'
  unfolding header_valid
  header_valid_ext m m' e =
      let slot : read m 0 record_size ≡ read m' 0 record_size =
        read-slot m 0 ∙ ap (take record_size) e ∙ sym (read-slot m' 0) in
      let part : read m 0 crc_coverage ≡ read m' 0 crc_coverage =
        sym (take-read m 0 124 132) ∙ ap (take crc_coverage) e ∙ take-read m' 0 124 132 in
      rw (slot, part)

  pub length-new_header : length (header_bytes (new_header ops crc)) ≡ record_size
  unfolding header_bytes new_header blank_header
  length-new_header = refl

  pub new_header-IsBytes : IsBytes (header_bytes (new_header ops crc))
  unfolding header_bytes new_header blank_header
  new_header-IsBytes = omega arith

  pub header_valid-new_header :
      (m : Memory)
      → ((d : List ℕ) → crc d < 2 ^ 32)
      → read m 0 record_size ≡ header_bytes (new_header ops crc)
      → header_valid ops crc m ≡ true
  unfolding header_valid header_at header_bytes new_header blank_header bytes_eq
  header_valid-new_header m fits e =
      let part : read m 0 crc_coverage ≡ take crc_coverage (header_bytes (blank_header ops crc)) =
        sym (take-read m 0 124 4) ∙ ap (take crc_coverage) e in
      let c : ℕ = crc (take crc_coverage (header_bytes (blank_header ops crc))) in
      rw (e, part) (ground (arith, le32-to_le32 c [] (fits _)))
