-- ===== src/Config/Log/Durable.antt =====
-- When the store in RAM and the log in flash are in step, and the commands that keep them so.
use pixel_multiverse_firmwar.Prelude.{
  ℕ, zero, suc, ◌^◌, ◌≤◌, ◌<◌, ◌≡◌, refl, sym, ap, ◌∙◌, Bool, true, false, List, [], ◌∷◌, leb,
  arith, Bool-cases, inl, inr, subst, All, length, set-All, append-All, get_or-All_lt, take-All,
  Option, none, some, Option-cases, IsBytes,
}
use pixel_multiverse_firmwar.Config.Format.{Record}
use pixel_multiverse_firmwar.Config.Store
use pixel_multiverse_firmwar.Config.Store.{
  Store, clear, empty_store, capacity, normalize_key, find_in, zero_record,
}
use pixel_multiverse_firmwar.Config.Store.Live.{
  entry, put_live_at, del_live, del_live_at, swap_remove, last_first, key-entry, Distinct,
}
use pixel_multiverse_firmwar.Config.Store.View.{view, empty_store-IsValid, length-view}
use pixel_multiverse_firmwar.Config.Store.Laws.{
  IsWellFormed, put-IsWellFormed, del-IsWellFormed, put_answers, view-put, view-del, put_live-false,
  put_live-rejected, del_live-rejected, del_answers_live, norm,
}
use pixel_multiverse_firmwar.Config.Flash.{FlashOps, IsNor}
use pixel_multiverse_firmwar.Config.Log.{
  Log, new_log, page_count, append_record, stamp_and_append, load, put, del, fill_record,
}
use pixel_multiverse_firmwar.Config.Log.Replay.{
  apply_record, Holds, append_record-Holds, IsStorable,
}
use pixel_multiverse_firmwar.Config.Log.Canonical.{
  IsKey, IsCanonical, entry-IsCanonical, fill_record-eq-entry, tombstone-IsStorable,
  tombstone-shape,
}
use pixel_multiverse_firmwar.Config.Log.Compact.{
  apply_record-canonical, put_live_short, compact-Holds,
}
use pixel_multiverse_firmwar.Config.Log.Load.{load-Holds}

swap_remove-All :
    (P : Record → Type 0) (l : List Record) (i : ℕ) → All P l → All P (swap_remove l i)
unfolding swap_remove last_first
swap_remove-All P [] i h = h
swap_remove-All P (r ∷ []) zero h = tt
swap_remove-All P (r ∷ x ∷ rs) zero h = (
  get_or-All_lt P (x ∷ rs) (length rs) zero_record (omega arith) h.1,
  take-All P (length rs) (x ∷ rs) h.1,
)
swap_remove-All P (r ∷ rs) (suc i) h = (h.0, swap_remove-All P rs i h.1)

put_live_at-All :
    (P : Record → Type 0) (o : Option ℕ) (l : List Record) (e : Record)
    → P e
    → All P l
    → All P (put_live_at o l e).1
unfolding put_live_at
put_live_at-All P (some i) l e p h = set-All P l i e p h
put_live_at-All P none l e p h = elim (Bool-cases (leb capacity (length l))) [
  | inl full ↦ rw full h
  | inr room ↦ rw room (append-All P l (e ∷ []) h (p, tt))
]

del_live-All :
    (P : Record → Type 0) (l : List Record) (key : List ℕ) → All P l → All P (del_live l key).1
unfolding del_live
del_live-All P l key h = elim (Option-cases (find_in l (norm key))) [
  | inl e ↦ rw e h
  | inr (i, e) ↦ rw e (swap_remove-All P l i h)
]

module _ (ops : FlashOps) (crc : List ℕ → ℕ) where
  -- The live view is canonical, and the log says it.
  pub record IsSynced (log : Log) (s : Store) : Type 0 where
    pub well_formed : IsWellFormed s
    pub canonical : All IsCanonical (view s)
    pub holds : Holds ops crc log (view s)

  -- Moves along an equation of views.
  IsSynced-view :
      (log : Log) (s s' : Store)
      → IsWellFormed s'
      → view s' ≡ view s
      → IsSynced log s
      → IsSynced log s'
  IsSynced-view log s s' w e y = record {
    well_formed = w;
    canonical = subst (All IsCanonical) (sym e) y.canonical;
    holds = subst (Holds ops crc log) (sym e) y.holds;
  }

  -- What a new object loads from such a log is in step with it.
  pub load-IsSynced :
      (log : Log) (l : List Record)
      → Holds ops crc log l
      → All IsCanonical l
      → Distinct l
      → let (log', s') = load ops crc (new_log log.memory) empty_store in IsSynced log' s'
  load-IsSynced log l h c d =
      let loaded = load-Holds ops crc log l h empty_store empty_store-IsValid in
      record {
        well_formed = record { valid = loaded.2; distinct = subst Distinct (sym loaded.1) d };
        canonical = subst (All IsCanonical) (sym loaded.1) c;
        holds =
            subst (Holds ops crc (load ops crc (new_log log.memory) empty_store).0) (sym loaded.1)
              loaded.0;
      }

module _ (ops : FlashOps) (crc : List ℕ → ℕ) (nor : IsNor ops)
    (fits : (d : List ℕ) → crc d < 2 ^ 32) (room : capacity < page_count ops crc) where
  -- A change that the store has made, written to the log as its record or by a compaction.
  stamp_and_append-IsSynced :
      (log : Log) (s : Store) (r : Record) (l : List Record)
      → IsStorable r
      → Holds ops crc log l
      → IsWellFormed s
      → All IsCanonical (view s)
      → apply_record l r ≡ view s
      → IsSynced ops crc (stamp_and_append ops crc r log s) s
  unfolding stamp_and_append
  stamp_and_append-IsSynced log s r l ok h w c e =
      elim (Bool-cases (leb (page_count ops crc) log.append_page)) [
        | inl full ↦ rw full (record {
          well_formed = w;
          canonical = c;
          holds =
              compact-Holds ops crc nor fits log s c w.distinct
                (omega (arith, length-view w.valid, w.valid.room)) room;
        })
        | inr free ↦
            let below : log.append_page < page_count ops crc = ground arith in
            rw free (record {
              well_formed = w;
              canonical = c;
              holds = subst (Holds ops crc (append_record ops crc r log)) e (
                  append_record-Holds ops crc nor fits log r ok h.seq_fits
                    (h.blank log.append_page (omega arith) below) l h below);
            })
      ]

  module _ (log : Log) (s : Store) (key : List ℕ) (k : IsKey key) (y : IsSynced ops crc log s) where
    module _ (value : List ℕ) (m : ℕ) (b : IsBytes value) (enough : m ≤ length value) where
      stored : Store
      stored = (Store.put s key value m).1

      accepted-IsSynced :
          (Store.put s key value m).0 ≡ true
          → IsSynced ops crc
              (stamp_and_append ops crc (fill_record key (some value) m 0) log stored)
              stored
      unfolding stored
      accepted-IsSynced done =
          let short : m ≤ 64 = ground (
            arith,
            done,
            put_answers s key y.well_formed value m,
            put_live-false (view s) key value m,
          ) in
          let e : Record = entry (normalize_key key) value m in
          let c : IsCanonical e = entry-IsCanonical key value m k b short enough in
          let now : view stored ≡ (put_live_at (find_in (view s) (norm key)) (view s) e).1 =
            view-put s key y.well_formed value m
            ∙ ap (λ (p : Bool × List Record). p.1) (put_live_short (view s) key value m short) in
          let key_of : e.key ≡ norm key = key-entry (normalize_key key) value m in
          stamp_and_append-IsSynced log stored (fill_record key (some value) m 0) (view s)
            (subst IsStorable (sym (fill_record-eq-entry key value m k b short enough)) c.storable)
            y.holds (put-IsWellFormed s key y.well_formed value m)
            (subst (All IsCanonical) (sym now)
              (put_live_at-All IsCanonical (find_in (view s) (norm key)) (view s) e c y.canonical))
            (ap (apply_record (view s)) (fill_record-eq-entry key value m k b short enough)
              ∙ apply_record-canonical (view s) e c
              ∙ ap (λ t. (put_live_at (find_in (view s) t) (view s) e).1) key_of
              ∙ sym now)

      -- A `put`, accepted or not, leaves the log saying what the store holds.
      pub put-IsSynced :
          let (done, log', s') = put ops crc log s key value m in IsSynced ops crc log' s'
      unfolding put
      put-IsSynced = elim (Bool-cases (Store.put s key value m).0) [
        | inr rejected ↦ rw rejected (
            IsSynced-view ops crc log s (Store.put s key value m).1
              (put-IsWellFormed s key y.well_formed value m)
              (view-put s key y.well_formed value m
                ∙ put_live-rejected (view s) key value m
                    (sym (put_answers s key y.well_formed value m) ∙ rejected))
              y)
        | inl done ↦ rw done (unfold stored in accepted-IsSynced done)
      ]

    tombstone_says : apply_record (view s) (fill_record key none 0 1) ≡ (del_live (view s) key).1
    unfolding apply_record fill_record del_live
    tombstone_says =
        ap (λ (t : List ℕ × ℕ). (del_live_at (find_in (view s) t.0) (view s)).1)
          (tombstone-shape key)

    -- A `del`, of a key that is there or not, leaves the log saying what the store holds.
    pub del-IsSynced : let (done, log', s') = del ops crc log s key in IsSynced ops crc log' s'
    unfolding del
    del-IsSynced = elim (Bool-cases (Store.del s key).0) [
      | inr absent ↦ rw absent (
          IsSynced-view ops crc log s (Store.del s key).1 (del-IsWellFormed s key y.well_formed)
            (view-del s key y.well_formed ∙ unchanged absent) y)
      | inl done ↦ rw done (
          stamp_and_append-IsSynced log (Store.del s key).1 (fill_record key none 0 1) (view s)
            (tombstone-IsStorable key k) y.holds (del-IsWellFormed s key y.well_formed)
            (subst (All IsCanonical) (sym (view-del s key y.well_formed))
              (del_live-All IsCanonical (view s) key y.canonical))
            (tombstone_says ∙ sym (view-del s key y.well_formed)))
    ]
      where
        unchanged : (Store.del s key).0 ≡ false → (del_live (view s) key).1 ≡ view s
        unchanged absent =
            del_live-rejected (view s) key
              (sym (del_answers_live (view s) key s y.well_formed.valid refl) ∙ absent)
