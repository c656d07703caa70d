-- ===== src/Config/Store/Live.antt =====
-- The live view as a list of records, without the array behind it: what `kv::Store` promises.
use mathlib.Core.Option
use pixel_multiverse_firmwar.Prelude.{
  ℕ, zero, suc, ◌<◌, ◌≡◌, refl, Bool, true, false, Option, none, some, List, [], ◌∷◌, ◌++◌, ltb,
  leb, if◌then◌else◌, length, take, set, get_or, bytes_eq, arith, Option-cases, inl, inr,
}
use pixel_multiverse_firmwar.Config.Format.{Record, value_width}
use pixel_multiverse_firmwar.Config.Store.{
  capacity, zero_record, write_entry, find_in, normalize_key,
}

-- A record as `put` makes it from a slot that holds no flags.
unfoldable pub entry : List ℕ × ℕ → List ℕ → ℕ → Record
unfolding write_entry
entry (norm, key_len) value value_len = write_entry zero_record norm key_len value value_len

unfoldable pub put_live_at : Option ℕ → List Record → Record → Bool × List Record
put_live_at (some i) l e = (true, set l i e)
put_live_at none l e = if leb capacity (length l) then (false, l) else (true, l ++ (e ∷ []))

unfoldable pub put_live : List Record → List ℕ → List ℕ → ℕ → Bool × List Record
unfolding put_live_at
put_live l key value value_len =
    if ltb value_width value_len
    then (false, l)
    else put_live_at (find_in l (normalize_key key).0) l (entry (normalize_key key) value value_len)

-- The last record of a nonempty list, then the others.
unfoldable pub last_first : List Record → List Record
last_first [] = []
last_first (r ∷ rs) = get_or (r ∷ rs) (length rs) zero_record ∷ take (length rs) (r ∷ rs)

-- The last record takes the place of the one at `i`.
unfoldable pub swap_remove : List Record → ℕ → List Record
unfolding last_first
swap_remove [] i = []
swap_remove (r ∷ rs) zero = last_first rs
swap_remove (r ∷ rs) (suc i) = r ∷ swap_remove rs i

unfoldable pub del_live_at : Option ℕ → List Record → Bool × List Record
del_live_at none l = (false, l)
del_live_at (some i) l = (true, swap_remove l i)

unfoldable pub del_live : List Record → List ℕ → Bool × List Record
unfolding del_live_at
del_live l key = del_live_at (find_in l (normalize_key key).0) l

-- The first record with a key: what the store says of the key.
unfoldable pub lookup_live : List Record → List ℕ → Option Record
lookup_live [] k = none
lookup_live (r ∷ rs) k = if bytes_eq r.key k then some r else lookup_live rs k

-- No two live records have one key.
abbrev pub Distinct : List Record → Type 0
Distinct [] = Unit
Distinct (r ∷ rs) = (lookup_live rs r.key ≡ none) × Distinct rs

pub find_in-lt : (l : List Record) (k : List ℕ) (i : ℕ) → find_in l k ≡ some i → i < length l
unfolding find_in
find_in-lt [] k i h = cc
find_in-lt (r ∷ rs) k zero h = omega arith
find_in-lt (r ∷ rs) k (suc i) h = ground (arith, find_in-lt rs k i)

pub lookup_live-find_in :
    (l : List Record) (k : List ℕ)
    → lookup_live l k ≡ Option.map (λ i. get_or l i zero_record) (find_in l k)
unfolding find_in lookup_live
lookup_live-find_in [] k = refl
lookup_live-find_in (r ∷ rs) k = elim (Option-cases (find_in rs k)) [
  | inl e ↦ ground (arith, lookup_live-find_in rs k)
  | inr (j, e) ↦ ground (arith, lookup_live-find_in rs k)
]

pub key-entry : (k : List ℕ × ℕ) (value : List ℕ) (m : ℕ) → (entry k value m).key ≡ k.0
unfolding entry
key-entry k value m = refl
