-- ===== src/Config/Store/View.antt =====
-- The array and count of `kv::Store` hold the live list: each operation refines the one on lists,
-- and keeps the representation invariant.
use mathlib.Core.Option
use pixel_multiverse_firmwar.Prelude.{
  ℕ, zero, suc, ◌+◌, ◌-◌, ◌%◌, ◌≤◌, ◌<◌, ◌≡◌, refl, true, some, List, [], ◌∷◌, ◌++◌, if◌then◌else◌,
  length, take, set, get_or, replicate, arith, Bool-cases, Option-cases, ap, inl, inr, sym, ◌∙◌,
  All, length-set, length-take, take-set, take-set_end, take-take, get_or-take, get_or-All, set-All,
  ltb, leb, replicate-All, ◌==◌, not,
}
use pixel_multiverse_firmwar.Config.Format.{Record, reserved_width}
use pixel_multiverse_firmwar.Config.Store.{
  Store, capacity, zero_record, empty_store, clear, write_entry, find_in, find, normalize_key, put,
  put_at, del, del_found, get,
}
use pixel_multiverse_firmwar.Config.Store.Live.{
  entry, put_live, del_live, swap_remove, last_first, find_in-lt, lookup_live,
}
use pixel_multiverse_firmwar.Config.Store.Lookup.{find_in-none, find_in-some}

-- The live records, in order.
abbrev pub view : Store → List Record
view s = take s.count s.records

-- `put` writes neither flags nor reserved bytes, so a slot keeps the zeros that it began with.
pub record IsClean (r : Record) : Type 0 where
  pub no_flags : r.flags ≡ 0
  pub no_reserved : r.reserved ≡ replicate reserved_width 0

pub record IsValid (s : Store) : Type 0 where
  pub slots : length s.records ≡ capacity
  pub room : s.count ≤ capacity
  pub clean : All IsClean s.records

zero_record-IsClean : IsClean zero_record
zero_record-IsClean = record { no_flags = refl; no_reserved = refl }

pub empty_store-IsValid : IsValid empty_store
empty_store-IsValid = record {
  slots = refl;
  room = omega arith;
  clean = replicate-All IsClean capacity zero_record zero_record-IsClean;
}

pub clear-IsValid : {s : Store} → IsValid s → IsValid (clear s)
clear-IsValid v = record { slots = v.slots; room = omega arith; clean = v.clean }

write_entry-entry :
    (r : Record) (norm : List ℕ) (n : ℕ) (value : List ℕ) (m : ℕ)
    → IsClean r
    → write_entry r norm n value m ≡ entry (norm, n) value m
unfolding entry
write_entry-entry r norm n value m c i = record {
  key = norm;
  value = take m value ++ replicate (64 - m) 0;
  seq = 0;
  key_len = n;
  value_len = m % 256;
  flags = c.no_flags i;
  reserved = c.no_reserved i;
  crc32 = 0;
}

entry-IsClean : (k : List ℕ × ℕ) (value : List ℕ) (m : ℕ) → IsClean (entry k value m)
unfolding entry
entry-IsClean k value m = record { no_flags = refl; no_reserved = refl }

pub length-view : {s : Store} → IsValid s → length (view s) ≡ s.count
length-view {s} v = length-take s.count s.records (omega (arith, v))

module _ (s : Store) (v : IsValid s) (key : List ℕ) (n : ℕ) (value : List ℕ) (m : ℕ) where
  slot-entry :
      (i : ℕ) → write_entry (get_or s.records i zero_record) key n value m ≡ entry (key, n) value m
  slot-entry i =
      write_entry-entry (get_or s.records i zero_record) key n value m
        (get_or-All IsClean s.records i zero_record zero_record-IsClean v.clean)

  view-put_at :
      (i : ℕ) → view (put_at s i (key, n) value m) ≡ set (view s) i (entry (key, n) value m)
  unfolding put_at
  view-put_at i = rw (slot-entry i) (take-set s.count s.records i (entry (key, n) value m))

  put_at-IsValid : (i : ℕ) → IsValid (put_at s i (key, n) value m)
  unfolding put_at
  put_at-IsValid i = record {
    slots = length-set s.records i _ ∙ v.slots;
    room = v.room;
    clean =
        rw (slot-entry i) (set-All IsClean s.records i _ (entry-IsClean (key, n) value m) v.clean);
  }

  view-put_end :
      s.count < capacity
      → view (put_at (record s { count = s.count + 1 }) s.count (key, n) value m)
        ≡ view s ++ (entry (key, n) value m ∷ [])
  unfolding put_at
  view-put_end h =
      let e : s.count + 1 ≡ suc s.count = omega arith in
      rw (slot-entry s.count, e)
        (take-set_end s.count s.records (entry (key, n) value m) (omega (arith, v.slots)))

  put_end-IsValid :
      s.count < capacity
      → IsValid (put_at (record s { count = s.count + 1 }) s.count (key, n) value m)
  unfolding put_at
  put_end-IsValid h = record {
    slots = length-set s.records s.count _ ∙ v.slots;
    room = omega arith;
    clean =
        rw (slot-entry s.count)
          (set-All IsClean s.records s.count _ (entry-IsClean (key, n) value m) v.clean);
  }

-- `put` on the array and count does what the operation on the live list does.
pub put_refines :
    (s : Store) (key value : List ℕ) (m : ℕ)
    → IsValid s
    → let (b, s') = put s key value m in (b, view s') ≡ put_live (view s) key value m
unfolding put put_live find
put_refines s key value m v = elim (Bool-cases (ltb 64 m)) [
  | inl long ↦ rw long
  | inr fits ↦ elim (Option-cases (find_in (view s) (normalize_key key).0)) [
    | inr (i, e) ↦
        rw (fits, e)
          (ap (λ l. (true, l))
            (view-put_at s v (normalize_key key).0 (normalize_key key).1 value m i))
    | inl e ↦ elim (Bool-cases (leb capacity s.count)) [
      | inl full ↦ rw (fits, e, full, length-view v, full)
      | inr room ↦
          rw (fits, e, room, length-view v, room)
            (ap (λ l. (true, l))
              (view-put_end s v (normalize_key key).0 (normalize_key key).1 value m (ground arith)))
    ]
  ]
]

-- `put` keeps the representation invariant, accepted or not.
pub put-IsValid :
    (s : Store) (key value : List ℕ) (m : ℕ) → IsValid s → IsValid (put s key value m).1
unfolding put find
put-IsValid s key value m v = elim (Bool-cases (ltb 64 m)) [
  | inl long ↦ rw long v
  | inr fits ↦ elim (Option-cases (find_in (view s) (normalize_key key).0)) [
    | inr (i, e) ↦
        rw (fits, e) (put_at-IsValid s v (normalize_key key).0 (normalize_key key).1 value m i)
    | inl e ↦ elim (Bool-cases (leb capacity s.count)) [
      | inl full ↦ rw (fits, e, full) v
      | inr room ↦
          rw (fits, e, room)
            (put_end-IsValid s v (normalize_key key).0 (normalize_key key).1 value m (ground arith))
    ]
  ]
]

-- Moving the last record into the freed slot and dropping the end removes one record.
take-swap_remove :
    (n : ℕ) (l : List Record) (i : ℕ)
    → length l ≡ suc n
    → i ≤ n
    → take n (if not (i == n) then set l i (get_or l n zero_record) else l) ≡ swap_remove l i
unfolding swap_remove last_first
take-swap_remove n [] i e h = absurd (omega arith)
take-swap_remove zero (r ∷ []) zero e h = refl
take-swap_remove zero (r ∷ []) (suc i) e h = absurd (omega arith)
take-swap_remove zero (r ∷ s ∷ rs) i e h = absurd (omega arith)
take-swap_remove (suc n) (r ∷ []) i e h = absurd (omega arith)
take-swap_remove (suc n) (r ∷ s ∷ rs) zero e h =
    let m : n ≡ length rs = omega arith in rw m (ground arith)
take-swap_remove (suc n) (r ∷ s ∷ rs) (suc i) e h = elim (Bool-cases (i == n)) [
  | inl q ↦ ground (arith, take-swap_remove n (s ∷ rs) i (omega arith) (omega arith))
  | inr q ↦ ground (arith, take-swap_remove n (s ∷ rs) i (omega arith) (omega arith))
]

module _ (s : Store) (v : IsValid s) (i : ℕ) (h : i < s.count) where
  view-del_found : view (del_found (some i) s).1 ≡ swap_remove (view s) i
  unfolding del_found
  view-del_found =
      let shorter : s.count - 1 ≤ s.count = omega arith in
      let last : get_or (view s) (s.count - 1) zero_record
          ≡ get_or s.records (s.count - 1) zero_record =
        get_or-take s.count s.records (s.count - 1) zero_record (omega arith) in
      let list : take (s.count - 1) (
            if not (i == s.count - 1)
            then set (view s) i (get_or (view s) (s.count - 1) zero_record)
            else view s)
          ≡ swap_remove (view s) i =
        take-swap_remove (s.count - 1) (view s) i (omega (arith, length-view v)) (omega arith) in
      elim (Bool-cases (not (i == s.count - 1))) [
        | inl other ↦ rw other (
            sym (take-take (s.count - 1) s.count (set s.records i _) shorter)
            ∙ ap (take (s.count - 1)) (take-set s.count s.records i _)
            ∙ (rw (other, last) at list))
        | inr same ↦
            rw same (sym (take-take (s.count - 1) s.count s.records shorter) ∙ (rw same at list))
      ]

  del_found-IsValid : IsValid (del_found (some i) s).1
  unfolding del_found
  del_found-IsValid = elim (Bool-cases (not (i == s.count - 1))) [
    | inl other ↦ rw other (record {
      slots = length-set s.records i _ ∙ v.slots;
      room = omega (arith, v.room);
      clean =
          set-All IsClean s.records i _
            (get_or-All IsClean s.records (s.count - 1) zero_record zero_record-IsClean v.clean)
            v.clean;
    })
    | inr last ↦ rw last (record { slots = v.slots; room = omega (arith, v.room); clean = v.clean })
  ]

-- `del` on the array and count does what the operation on the live list does.
pub del_refines :
    (s : Store) (key : List ℕ)
    → IsValid s
    → let (b, s') = del s key in (b, view s') ≡ del_live (view s) key
unfolding del del_live find
del_refines s key v = elim (Option-cases (find_in (view s) (normalize_key key).0)) [
  | inl e ↦ rw e
  | inr (i, e) ↦ rw e (
      ap (λ l. (true, l))
        (view-del_found s v i
          (omega (arith, length-view v, find_in-lt (view s) (normalize_key key).0 i e))))
]

pub del-IsValid : (s : Store) (key : List ℕ) → IsValid s → IsValid (del s key).1
unfolding del find
del-IsValid s key v = elim (Option-cases (find_in (view s) (normalize_key key).0)) [
  | inl e ↦ rw e v
  | inr (i, e) ↦ rw e (
      del_found-IsValid s v i
        (omega (arith, length-view v, find_in-lt (view s) (normalize_key key).0 i e)))
]

-- `get` answers what the live list says of the normalised key.
pub get_refines :
    (s : Store) (key : List ℕ)
    → IsValid s
    → get s key
      ≡ Option.map
          (λ (r : Record). (r.value, r.value_len))
          (lookup_live (view s) (normalize_key key).0)
unfolding get find
get_refines s key v = elim (Option-cases (find_in (view s) (normalize_key key).0)) [
  | inl e ↦ rw (e, find_in-none (view s) (normalize_key key).0 e)
  | inr (i, e) ↦
      rw (e, find_in-some (view s) (normalize_key key).0 i e)
        (rw (
          get_or-take s.count s.records i zero_record
            (omega (arith, length-view v, find_in-lt (view s) (normalize_key key).0 i e))))
]
