-- ===== src/Config/Store/Laws.antt =====
-- What the store promises its callers: a map from normalised keys to values, of bounded size.
use mathlib.Core.Option
use pixel_multiverse_firmwar.Prelude.{
  ℕ, ◌-◌, ◌≤◌, ◌<◌, ◌≡◌, ◌≢◌, ◌↔◌, ◌⊎◌, Bool, true, false, none, some, List, ◌++◌, if◌then◌else◌,
  length, take, replicate, arith, Bool-cases, Option-cases, ap, inl, inr, sym, ◌∙◌, ltb, leb,
  bytes_eq, bytes_eq_iff, subst,
}
use pixel_multiverse_firmwar.Config.Format.{Record}
use pixel_multiverse_firmwar.Config.Store.{
  Store, capacity, find_in, find, normalize_key, put, del, get,
}
use pixel_multiverse_firmwar.Config.Store.Live.{
  entry, put_live, del_live, lookup_live, Distinct, key-entry,
}
use pixel_multiverse_firmwar.Config.Store.Lookup.{
  find_in-none, find_in-some, lookup_live-set, lookup_live-append, lookup_live-swap_remove,
  Distinct-set, Distinct-append, Distinct-swap_remove,
}
use pixel_multiverse_firmwar.Config.Store.View.{
  view, IsValid, length-view, put_refines, put-IsValid, del_refines, del-IsValid, get_refines,
}

-- The array represents a live list, and no key is live twice.
pub record IsWellFormed (s : Store) : Type 0 where
  pub valid : IsValid s
  pub distinct : Distinct (view s)

abbrev pub norm : List ℕ → List ℕ
norm key = (normalize_key key).0

module _ (l : List Record) (key value : List ℕ) (m : ℕ) where
  pub put_live-Distinct : Distinct l → Distinct (put_live l key value m).1
  unfolding put_live
  put_live-Distinct d = elim (Bool-cases (ltb 64 m)) [
    | inl long ↦ rw long d
    | inr fits ↦ elim (Option-cases (find_in l (norm key))) [
      | inr (i, e) ↦
          rw (fits, e) (Distinct-set l (norm key) i _ e (key-entry (normalize_key key) value m) d)
      | inl e ↦ elim (Bool-cases (leb capacity (length l))) [
        | inl full ↦ rw (fits, e, full) d
        | inr room ↦
            rw (fits, e, room)
              (Distinct-append l (norm key) _ (key-entry (normalize_key key) value m)
                (find_in-none l (norm key) e) d)
      ]
    ]
  ]

  pub lookup_live-put_live :
      (j : List ℕ)
      → (put_live l key value m).0 ≡ true
      → lookup_live (put_live l key value m).1 j ≡ (
          if bytes_eq (norm key) j
          then some (entry (normalize_key key) value m)
          else lookup_live l j)
  unfolding put_live
  lookup_live-put_live j = elim (Bool-cases (ltb 64 m)) [
    | inl long ↦ rw long (λ a. cc)
    | inr fits ↦ elim (Option-cases (find_in l (norm key))) [
      | inr (i, e) ↦
          rw (fits, e)
            (λ a. lookup_live-set l (norm key) i _ j e (key-entry (normalize_key key) value m))
      | inl e ↦ elim (Bool-cases (leb capacity (length l))) [
        | inl full ↦ rw (fits, e, full) (λ a. cc)
        | inr room ↦
            rw (fits, e, room)
              (λ a.
                lookup_live-append l (norm key) _ j (key-entry (normalize_key key) value m)
                  (find_in-none l (norm key) e))
      ]
    ]
  ]

  pub put_live-false :
      ((put_live l key value m).0 ≡ false)
      ↔ ((64 < m) ⊎ ((lookup_live l (norm key) ≡ none) × (capacity ≤ length l)))
  unfolding put_live
  put_live-false = elim (Option-cases (find_in l (norm key))) [
    | inr (i, e) ↦ ground (arith, find_in-some l (norm key) i e)
    | inl e ↦ ground (arith, find_in-none l (norm key) e)
  ]

  pub put_live-rejected : (put_live l key value m).0 ≡ false → (put_live l key value m).1 ≡ l
  unfolding put_live
  put_live-rejected = elim (Option-cases (find_in l (norm key))) [
    | inr (i, e) ↦ ground arith
    | inl e ↦ ground arith
  ]

module _ (l : List Record) (key : List ℕ) where
  pub del_live_answers : ((del_live l key).0 ≡ true) ↔ (lookup_live l (norm key) ≢ none)
  unfolding del_live
  del_live_answers = elim (Option-cases (find_in l (norm key))) [
    | inl e ↦ ground (arith, find_in-none l (norm key) e)
    | inr (i, e) ↦ ground (arith, find_in-some l (norm key) i e)
  ]

  pub del_live-rejected : (del_live l key).0 ≡ false → (del_live l key).1 ≡ l
  unfolding del_live
  del_live-rejected = elim (Option-cases (find_in l (norm key))) [
    | inl e ↦ ground arith
    | inr (i, e) ↦ ground arith
  ]

  pub del_answers_live : (s : Store) → IsValid s → view s ≡ l → (del s key).0 ≡ (del_live l key).0
  del_answers_live s v e =
      ap (λ (p : Bool × List Record). p.0) (del_refines s key v) ∙ ap (λ t. (del_live t key).0) e

  pub del_live-Distinct : Distinct l → Distinct (del_live l key).1
  unfolding del_live
  del_live-Distinct d = elim (Option-cases (find_in l (norm key))) [
    | inl e ↦ rw e d
    | inr (i, e) ↦ rw e (Distinct-swap_remove l (norm key) i e d)
  ]

  pub lookup_live-del_live :
      (j : List ℕ)
      → Distinct l
      → lookup_live (del_live l key).1 j ≡ (if bytes_eq (norm key) j then none else lookup_live l j)
  unfolding del_live
  lookup_live-del_live j d = elim (Option-cases (find_in l (norm key))) [
    | inl e ↦ rw e (ground (arith, find_in-none l (norm key) e, bytes_eq_iff (norm key) j))
    | inr (i, e) ↦ rw e (lookup_live-swap_remove l (norm key) i j d e)
  ]

abbrev answer : Record → List ℕ × ℕ
answer r = (r.value, r.value_len)

module _ (s : Store) (key : List ℕ) (w : IsWellFormed s) where
  open w use {valid, distinct}

  -- `put`, accepted or refused, keeps the store's invariant: 32 slots, a count within them, no slot
  -- with flags or reserved bytes set, and no key live twice.
  pub put-IsWellFormed : (value : List ℕ) (m : ℕ) → IsWellFormed (put s key value m).1
  put-IsWellFormed value m = record {
    valid = put-IsValid s key value m valid;
    distinct =
        subst Distinct
          (sym (ap (λ (p : Bool × List Record). p.1) (put_refines s key value m valid)))
          (put_live-Distinct (view s) key value m distinct);
  }

  -- `del`, of a key that is there or not, keeps the same invariant.
  pub del-IsWellFormed : IsWellFormed (del s key).1
  del-IsWellFormed = record {
    valid = del-IsValid s key valid;
    distinct =
        subst Distinct (sym (ap (λ (p : Bool × List Record). p.1) (del_refines s key valid)))
          (del_live-Distinct (view s) key distinct);
  }

  pub put_answers :
      (value : List ℕ) (m : ℕ) → (put s key value m).0 ≡ (put_live (view s) key value m).0
  put_answers value m = ap (λ (p : Bool × List Record). p.0) (put_refines s key value m valid)

  pub view-put :
      (value : List ℕ) (m : ℕ) → view (put s key value m).1 ≡ (put_live (view s) key value m).1
  view-put value m = ap (λ (p : Bool × List Record). p.1) (put_refines s key value m valid)

  pub view-del : view (del s key).1 ≡ (del_live (view s) key).1
  view-del = ap (λ (p : Bool × List Record). p.1) (del_refines s key valid)

  get-put-map :
      (value : List ℕ) (m : ℕ) (j : List ℕ)
      → (put s key value m).0 ≡ true
      → get (put s key value m).1 j
        ≡ Option.map answer (
            if bytes_eq (norm key) (norm j)
            then some (entry (normalize_key key) value m)
            else lookup_live (view s) (norm j))
  get-put-map value m j a =
      get_refines (put s key value m).1 j (put-IsValid s key value m valid)
      ∙ ap (λ l. Option.map answer (lookup_live l (norm j))) (view-put value m)
      ∙ ap (Option.map answer)
          (lookup_live-put_live (view s) key value m (norm j) (sym (put_answers value m) ∙ a))

  -- After an accepted `put` a key with the same normalised form reads the written bytes, padded with
  -- zeros to the 64-byte array, and their number; every other key reads what it read before.
  pub get-put :
      (value : List ℕ) (m : ℕ) (j : List ℕ)
      → (put s key value m).0 ≡ true
      → get (put s key value m).1 j ≡ (
          if bytes_eq (norm key) (norm j)
          then some (take m value ++ replicate (64 - m) 0, m)
          else get s j)
  unfolding entry
  get-put value m j a =
      let fits : m ≤ 64 =
        ground (arith, put_answers value m, put_live-false (view s) key value m) in
      elim (Bool-cases (bytes_eq (norm key) (norm j))) [
        | inl same ↦
            get-put-map value m j a
            ∙ rw same (ap (λ n. some (take m value ++ replicate (64 - m) 0, n)) (omega arith))
        | inr other ↦ get-put-map value m j a ∙ rw other (sym (get_refines s j valid))
      ]

  -- After a `del` no key with the same normalised form is found, and every other key reads what it
  -- read before, although the last record has moved to the freed slot.
  pub get-del :
      (j : List ℕ) → get (del s key).1 j ≡ (if bytes_eq (norm key) (norm j) then none else get s j)
  get-del j =
      get_refines (del s key).1 j (del-IsValid s key valid)
      ∙ ap (λ l. Option.map answer (lookup_live l (norm j))) view-del
      ∙ ap (Option.map answer) (lookup_live-del_live (view s) key (norm j) distinct)
      ∙ ground (arith, get_refines s j valid)

  -- `del` answers true exactly when `get` finds the key.
  pub del_answers : ((del s key).0 ≡ true) ↔ (get s key ≢ none)
  del_answers =
      ground
        (arith, del_live_answers (view s) key, del_refines s key valid, get_refines s key valid)

  put_unchanged :
      (value : List ℕ) (m : ℕ) → (put s key value m).0 ≡ false → (put s key value m).1 ≡ s
  unfolding put
  put_unchanged value m = elim (Option-cases (find s (norm key))) [
    | inl e ↦ ground arith
    | inr (i, e) ↦ ground arith
  ]

  -- `put` is refused exactly when the value is longer than 64 bytes, or when the key is new and all
  -- 32 slots are live; and a refused `put` leaves the store as it was.
  pub put_rejects :
      (value : List ℕ) (m : ℕ)
      → (((put s key value m).0 ≡ false) ↔ ((64 < m) ⊎ ((get s key ≡ none) × (s.count ≡ capacity))))
        × ((put s key value m).0 ≡ false → (put s key value m).1 ≡ s)
  put_rejects value m = (
    ground (
      arith,
      put_live-false (view s) key value m,
      put_answers value m,
      get_refines s key valid,
      length-view valid,
      valid.room,
    ),
    put_unchanged value m,
  )
