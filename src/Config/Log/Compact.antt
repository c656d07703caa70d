-- ===== src/Config/Log/Compact.antt =====
-- Compaction: after the erase and the rewrite the log says the live list again.
use pixel_multiverse_firmwar.Prelude.{
  ℕ, ◌+◌, ◌^◌, ◌≤◌, ◌<◌, ◌≡◌, refl, sym, ap, ◌∙◌, Bool, not, List, [], ◌∷◌, ◌++◌, ltb, ◌==◌,
  if◌then◌else◌, length, arith, All, bit_and, none, length-append, Option-cases, inl, inr,
  Bool-cases, append_assoc, append-nil, lt→ltb, bytes_eq_iff, subst,
}
use mathlib.Core.List.{foldl}
use pixel_multiverse_firmwar.Config.Format.{Record, header_bytes}
use pixel_multiverse_firmwar.Config.Store.{Store, normalize_key, capacity, find_in}
use pixel_multiverse_firmwar.Config.Store.Live.{
  entry, put_live, put_live_at, del_live, lookup_live, Distinct,
}
use pixel_multiverse_firmwar.Config.Store.Lookup.{find_in-some, lookup_live-append}
use pixel_multiverse_firmwar.Config.Store.View.{view}
use pixel_multiverse_firmwar.Config.Flash.{Memory, FlashOps, IsNor}
use pixel_multiverse_firmwar.Config.Flash.Pages.{IsErased, erase-IsErased}
use pixel_multiverse_firmwar.Config.Log.{
  Log, key_view, page_count, append_record, new_header, compact, compact_loop, erased_region,
}
use pixel_multiverse_firmwar.Config.Log.Slot.{
  read-write_slot, write_slot-IsErased, length-new_header, new_header-IsBytes,
  header_valid-new_header,
}
use pixel_multiverse_firmwar.Config.Log.Replay.{apply_record, replay, Holds, append_record-Holds}
use pixel_multiverse_firmwar.Config.Log.Canonical.{IsCanonical}

pub put_live_short :
    (l : List Record) (key value : List ℕ) (m : ℕ)
    → m ≤ 64
    → put_live l key value m
      ≡ put_live_at (find_in l (normalize_key key).0) l (entry (normalize_key key) value m)
unfolding put_live
put_live_short l key value m h = elim (Bool-cases (ltb 64 m)) [
  | inl long ↦ absurd (ground arith)
  | inr short ↦ rw short
]

-- A live record replayed is a `put` of the record itself.
pub apply_record-canonical :
    (l : List Record) (r : Record)
    → IsCanonical r
    → apply_record l r ≡ (put_live_at (find_in l r.key) l r).1
unfolding apply_record
apply_record-canonical l r c =
    ap
      (λ f.
        if not (bit_and f 1 == 0)
        then (del_live l (key_view r)).1
        else (put_live l (key_view r) r.value r.value_len).1)
      c.no_flags
    ∙ ap (λ (p : Bool × List Record). p.1)
        (put_live_short l (key_view r) r.value r.value_len c.short
          ∙ ap (λ (k : List ℕ × ℕ). put_live_at (find_in l k.0) l (entry k r.value r.value_len))
              c.shape
          ∙ ap (put_live_at (find_in l r.key) l) c.itself)

-- A new key in a list with room goes to the end.
apply_record-new :
    (l : List Record) (r : Record)
    → IsCanonical r
    → lookup_live l r.key ≡ none
    → length l < capacity
    → apply_record l r ≡ l ++ (r ∷ [])
unfolding put_live_at
apply_record-new l r c fresh room =
    apply_record-canonical l r c ∙ elim (Option-cases (find_in l r.key)) [
      | inl e ↦ ground arith
      | inr (i, e) ↦ ground (arith, find_in-some l r.key i e)
    ]

-- No key of the second list is in the first.
abbrev Apart : List Record → List Record → Type 0
Apart l = All (λ r. lookup_live l r.key ≡ none)

Apart-append :
    (l rs : List Record) (r : Record)
    → lookup_live l r.key ≡ none
    → lookup_live rs r.key ≡ none
    → Apart l rs
    → Apart (l ++ (r ∷ [])) rs
unfolding lookup_live
Apart-append l [] r f h a = tt
Apart-append l (x ∷ rs) r f h a = (
  ground (
    arith,
    lookup_live-append l r.key r x.key refl f,
    bytes_eq_iff r.key x.key,
    bytes_eq_iff x.key r.key,
    a.0,
  ),
  Apart-append l rs r f (ground arith) a.1,
)

-- A canonical list of distinct keys is rebuilt by replaying it.
pub replay_canonical :
    (l rs : List Record)
    → All IsCanonical rs
    → Distinct rs
    → Apart l rs
    → length l + length rs ≤ capacity
    → foldl apply_record l rs ≡ l ++ rs
replay_canonical l [] c d a h = sym (append-nil l)
replay_canonical l (r ∷ rs) c d a h =
    ap (λ t. foldl apply_record t rs) (apply_record-new l r c.0 a.0 (omega arith))
    ∙ replay_canonical (l ++ (r ∷ [])) rs c.1 d.1 (Apart-append l rs r a.0 d.0 a.1)
        (omega (arith, length-append l (r ∷ [])))
    ∙ append_assoc l (r ∷ []) rs

Apart-nil : (rs : List Record) → Apart [] rs
unfolding lookup_live
Apart-nil [] = tt
Apart-nil (r ∷ rs) = (refl, Apart-nil rs)

module _ (ops : FlashOps) (crc : List ℕ → ℕ) (nor : IsNor ops)
    (fits : (d : List ℕ) → crc d < 2 ^ 32) where
  -- The loop appends the records one after the other.
  compact_loop-Holds :
      (rs : List Record) (log : Log) (l : List Record)
      → All IsCanonical rs
      → Holds ops crc log l
      → log.append_page + length rs ≤ page_count ops crc
      → Holds ops crc (compact_loop ops crc rs log) (foldl apply_record l rs)
  unfolding compact_loop
  compact_loop-Holds [] log l c h room = h
  compact_loop-Holds (r ∷ rs) log l c h room =
      let plain : record r { flags = 0 } ≡ r = λ i. record r { flags = sym c.0.no_flags i } in
      let one : Holds ops crc (append_record ops crc r log) (apply_record l r) =
        append_record-Holds ops crc nor fits log r c.0.storable h.seq_fits
          (h.blank log.append_page (omega arith) (omega arith)) l h (omega arith) in
      let loop : Holds ops crc (compact_loop ops crc rs (append_record ops crc r log))
          (foldl apply_record (apply_record l r) rs) =
        compact_loop-Holds rs (append_record ops crc r log) (apply_record l r) c.1 one
          (unfold append_record in omega arith) in
      rw (lt→ltb log.append_page (page_count ops crc) (omega arith)) (
        subst
          (λ t.
            Holds ops crc (compact_loop ops crc rs (append_record ops crc t log))
              (foldl apply_record (apply_record l r) rs))
          (sym plain) loop)

  erased_region-Holds :
      (m : Memory) → 1 ≤ page_count ops crc → Holds ops crc (erased_region ops crc m) []
  unfolding erased_region
  erased_region-Holds m h = record {
    header = header_valid-new_header ops crc (erased_region ops crc m).memory fits (
        read-write_slot ops crc nor blank_memory 0 (header_bytes (new_header ops crc))
          (length-new_header ops crc) (new_header-IsBytes ops crc) (all_blank 0 (omega arith)));
    first = omega arith;
    within = h;
    blank = λ p a b.
        write_slot-IsErased ops crc nor blank_memory 0 (header_bytes (new_header ops crc))
          (length-new_header ops crc) (new_header-IsBytes ops crc) (all_blank 0 (omega arith)) p
          (omega arith) (all_blank p b);
    taken = λ p a b. absurd (omega arith);
    replayed = unfold replay in refl;
    seq_fits = omega arith;
  }
    where
      blank_memory : Memory
      blank_memory = ops.erase m 0 ops.size

      all_blank : (p : ℕ) → p < page_count ops crc → IsErased blank_memory p
      all_blank p lt = erase-IsErased ops nor m p (omega arith)

  -- After a compaction the log says the live view, if the region has a page for every record.
  pub compact-Holds :
      (log : Log) (s : Store)
      → All IsCanonical (view s)
      → Distinct (view s)
      → length (view s) ≤ capacity
      → capacity < page_count ops crc
      → Holds ops crc (compact ops crc log s) (view s)
  unfolding compact
  compact-Holds log s c d n room =
      subst (Holds ops crc (compact_loop ops crc (view s) (erased_region ops crc log.memory)))
        (replay_canonical [] (view s) c d (Apart-nil (view s)) (omega arith))
        (compact_loop-Holds (view s) (erased_region ops crc log.memory) [] c
          (erased_region-Holds log.memory (omega arith)) (unfold erased_region in omega arith))
