-- ===== src/Config/Store/Lookup.antt =====
-- How a write, an append and a swap-removal change what the live list says of each key.
use pixel_multiverse_firmwar.Prelude.{
  ℕ, zero, suc, ◌≡◌, refl, none, some, List, [], ◌∷◌, ◌++◌, if◌then◌else◌, length, take, set,
  get_or, bytes_eq, bytes_eq_iff, arith, ◌∙◌, subst,
}
use pixel_multiverse_firmwar.Config.Format.{Record}
use pixel_multiverse_firmwar.Config.Store.{zero_record, find_in}
use pixel_multiverse_firmwar.Config.Store.Live.{
  lookup_live, Distinct, last_first, swap_remove, lookup_live-find_in,
}

pub lookup_live-set :
    (l : List Record) (k : List ℕ) (i : ℕ) (e : Record) (j : List ℕ)
    → find_in l k ≡ some i
    → e.key ≡ k
    → lookup_live (set l i e) j ≡ (if bytes_eq k j then some e else lookup_live l j)
unfolding find_in lookup_live
lookup_live-set [] k i e j f h = cc
lookup_live-set (r ∷ rs) k zero e j f h = ground (arith, bytes_eq_iff r.key k, bytes_eq_iff e.key k)
lookup_live-set (r ∷ rs) k (suc i) e j f h = ground (
  arith,
  lookup_live-set rs k i e j,
  bytes_eq_iff r.key k,
  bytes_eq_iff r.key j,
  bytes_eq_iff k j,
)

pub lookup_live-append :
    (l : List Record) (k : List ℕ) (e : Record) (j : List ℕ)
    → e.key ≡ k
    → lookup_live l k ≡ none
    → lookup_live (l ++ (e ∷ [])) j ≡ (if bytes_eq k j then some e else lookup_live l j)
unfolding lookup_live
lookup_live-append [] k e j q h = ground arith
lookup_live-append (r ∷ rs) k e j q h = ground (
  arith,
  lookup_live-append rs k e j q,
  bytes_eq_iff r.key k,
  bytes_eq_iff r.key j,
  bytes_eq_iff k j,
)

-- Moving the last record to the front changes no lookup when the keys are distinct.
pub lookup_live-last_first :
    (l : List Record) (j : List ℕ) → Distinct l → lookup_live (last_first l) j ≡ lookup_live l j
unfolding last_first lookup_live
lookup_live-last_first [] j d = refl
lookup_live-last_first (r ∷ []) j d = refl
lookup_live-last_first (r ∷ s ∷ rs) j d =
    let last : Record = get_or (s ∷ rs) (length rs) zero_record in
    ground (
      arith,
      lookup_live-last_first (s ∷ rs) j d.1,
      lookup_live-last_first (s ∷ rs) r.key d.1,
      bytes_eq_iff last.key r.key,
      bytes_eq_iff last.key j,
      bytes_eq_iff r.key j,
    )

pub lookup_live-swap_remove :
    (l : List Record) (k : List ℕ) (i : ℕ) (j : List ℕ)
    → Distinct l
    → find_in l k ≡ some i
    → lookup_live (swap_remove l i) j ≡ (if bytes_eq k j then none else lookup_live l j)
unfolding find_in lookup_live swap_remove
lookup_live-swap_remove [] k i j d f = cc
lookup_live-swap_remove (r ∷ rs) k zero j d f =
    ground (arith, bytes_eq_iff r.key k, bytes_eq_iff r.key j, lookup_live-last_first rs j)
lookup_live-swap_remove (r ∷ rs) k (suc i) j d f = ground (
  arith,
  lookup_live-swap_remove rs k i j,
  bytes_eq_iff r.key k,
  bytes_eq_iff r.key j,
  bytes_eq_iff k j,
)

pub find_in-none : (l : List Record) (k : List ℕ) → find_in l k ≡ none → lookup_live l k ≡ none
find_in-none l k f = lookup_live-find_in l k ∙ rw f

pub find_in-some :
    (l : List Record) (k : List ℕ) (i : ℕ)
    → find_in l k ≡ some i
    → lookup_live l k ≡ some (get_or l i zero_record)
find_in-some l k i f = lookup_live-find_in l k ∙ rw f

pub Distinct-set :
    (l : List Record) (k : List ℕ) (i : ℕ) (e : Record)
    → find_in l k ≡ some i
    → e.key ≡ k
    → Distinct l
    → Distinct (set l i e)
unfolding find_in
Distinct-set [] k i e f h d = d
Distinct-set (r ∷ rs) k zero e f h d =
    let same : r.key ≡ e.key = ground (arith, bytes_eq_iff r.key k) in
    (subst (λ t. lookup_live rs t ≡ none) same d.0, d.1)
Distinct-set (r ∷ rs) k (suc i) e f h d = (
  ground (arith, lookup_live-set rs k i e r.key, bytes_eq_iff r.key k, bytes_eq_iff k r.key),
  Distinct-set rs k i e (ground arith) h d.1,
)

pub Distinct-append :
    (l : List Record) (k : List ℕ) (e : Record)
    → e.key ≡ k
    → lookup_live l k ≡ none
    → Distinct l
    → Distinct (l ++ (e ∷ []))
unfolding lookup_live
Distinct-append [] k e q h d = (refl, tt)
Distinct-append (r ∷ rs) k e q h d = (
  ground (arith, lookup_live-append rs k e r.key q, bytes_eq_iff r.key k, bytes_eq_iff k r.key),
  Distinct-append rs k e q (ground arith) d.1,
)

Distinct-last_first : (l : List Record) → Distinct l → Distinct (last_first l)
unfolding last_first lookup_live
Distinct-last_first [] d = tt
Distinct-last_first (r ∷ []) d = (refl, tt)
Distinct-last_first (r ∷ s ∷ rs) d =
    let last : Record = get_or (s ∷ rs) (length rs) zero_record in
    let rest : Distinct (last ∷ take (length rs) (s ∷ rs)) = Distinct-last_first (s ∷ rs) d.1 in
    (
      ground (
        arith,
        rest.0,
        lookup_live-last_first (s ∷ rs) r.key d.1,
        bytes_eq_iff last.key r.key,
        bytes_eq_iff r.key last.key,
      ),
      (
        ground (arith, lookup_live-last_first (s ∷ rs) r.key d.1, bytes_eq_iff last.key r.key),
        rest.1,
      ),
    )

pub Distinct-swap_remove :
    (l : List Record) (k : List ℕ) (i : ℕ)
    → find_in l k ≡ some i
    → Distinct l
    → Distinct (swap_remove l i)
unfolding find_in swap_remove
Distinct-swap_remove [] k i f d = tt
Distinct-swap_remove (r ∷ rs) k zero f d = Distinct-last_first rs d.1
Distinct-swap_remove (r ∷ rs) k (suc i) f d = (
  ground (arith, lookup_live-swap_remove rs k i r.key d.1),
  Distinct-swap_remove rs k i (ground arith) d.1,
)
