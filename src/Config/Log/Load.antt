-- ===== src/Config/Log/Load.antt =====
-- `load` rebuilds what the log says, and finds the append page again.
use pixel_multiverse_firmwar.Prelude.{
  ℕ, zero, suc, ◌+◌, ◌-◌, ◌*◌, ◌≤◌, ◌<◌, ◌≡◌, ◌≢◌, refl, ap, ◌∙◌, Bool, true, false, not, List, [],
  ◌==◌, if◌then◌else◌, arith, bit_and, Bool-cases, inl, inr, subst,
}
use pixel_multiverse_firmwar.Config.Format.{Record, record_at, record_size, flag_deleted}
use pixel_multiverse_firmwar.Config.Store.{Store, clear}
use pixel_multiverse_firmwar.Config.Store.Live.{put_live, del_live}
use pixel_multiverse_firmwar.Config.Store.View.{
  view, IsValid, clear-IsValid, put_refines, put-IsValid, del_refines, del-IsValid,
}
use pixel_multiverse_firmwar.Config.Flash.{Memory, FlashOps, page_bytes, read}
use pixel_multiverse_firmwar.Config.Log.{
  Log, new_log, Scan, key_view, page_erased, page_count, record_valid, replay_record, scan_page,
  scan, load_pages, load,
}
use pixel_multiverse_firmwar.Config.Log.Slot.{page_erased-IsErased}
use pixel_multiverse_firmwar.Config.Log.Replay.{
  apply_record, apply_page, replay, replay_add, replay_erased, Holds,
}

-- A scan whose store represents the list `l`.
record Shows (st : Scan) (l : List Record) : Type 0 where
  valid : IsValid st.store
  shows : view st.store ≡ l

module _ (ops : FlashOps) (crc : List ℕ → ℕ) where
  replay_record-Shows :
      (r : Record) (st : Scan) (l : List Record)
      → Shows st l
      → Shows (replay_record ops crc r st) (apply_record l r)
  unfolding replay_record apply_record
  replay_record-Shows r st l h = elim (Bool-cases (not (bit_and r.flags flag_deleted == 0))) [
    | inl gone ↦ rw gone (record {
      valid = del-IsValid st.store (key_view r) h.valid;
      shows =
          ap (λ (p : Bool × List Record). p.1) (del_refines st.store (key_view r) h.valid)
          ∙ ap (λ t. (del_live t (key_view r)).1) h.shows;
    })
    | inr kept ↦ rw kept (record {
      valid = put-IsValid st.store (key_view r) r.value r.value_len h.valid;
      shows =
          ap (λ (p : Bool × List Record). p.1)
            (put_refines st.store (key_view r) r.value r.value_len h.valid)
          ∙ ap (λ t. (put_live t (key_view r) r.value r.value_len).1) h.shows;
    })
  ]

  scan_page-Shows :
      (m : Memory) (p : ℕ) (st : Scan) (l : List Record)
      → Shows st l
      → Shows (scan_page ops crc m p st) (apply_page ops crc m p l)
  unfolding scan_page apply_page
  scan_page-Shows m p st l h = elim (Bool-cases (page_erased m p)) [
    | inl blank ↦ elim (Bool-cases (st.first_free == 0)) [
      | inl first ↦ rw (blank, first) (record { valid = h.valid; shows = h.shows })
      | inr later ↦ rw (blank, later) h
    ]
    | inr used ↦ elim (Bool-cases (record_valid ops crc (read m (p * page_bytes) record_size))) [
      | inl good ↦
          rw (used, good)
            (replay_record-Shows (record_at (read m (p * page_bytes) record_size)) st l h)
      | inr torn ↦ rw (used, torn) h
    ]
  ]

  scan-Shows :
      (m : Memory) (n p : ℕ) (st : Scan) (l : List Record)
      → Shows st l
      → Shows (scan ops crc m n p st) (replay ops crc m n p l)
  unfolding scan replay
  scan-Shows m zero p st l h = h
  scan-Shows m (suc n) p st l h =
      scan-Shows m n (p + 1) (scan_page ops crc m p st) (apply_page ops crc m p l)
        (scan_page-Shows m p st l h)

  first_free-used :
      (m : Memory) (p : ℕ) (st : Scan)
      → page_erased m p ≡ false
      → (scan_page ops crc m p st).first_free ≡ st.first_free
  unfolding scan_page replay_record
  first_free-used m p st h =
      elim (Bool-cases (record_valid ops crc (read m (p * page_bytes) record_size))) [
        | inl good ↦ rw (h, good)
        | inr torn ↦ rw (h, torn)
      ]

  -- Over pages in use the scan finds no free page.
  scan-used :
      (m : Memory) (n p : ℕ) (st : Scan)
      → ((q : ℕ) → p ≤ q → q < p + n → page_erased m q ≡ false)
      → (scan ops crc m n p st).first_free ≡ st.first_free
  unfolding scan
  scan-used m zero p st h = refl
  scan-used m (suc n) p st h =
      scan-used m n (p + 1) (scan_page ops crc m p st) (λ q a b. h q (omega arith) (omega arith))
      ∙ first_free-used m p st (h p (omega arith) (omega arith))

  -- Over free pages it keeps the first one.
  scan-found :
      (m : Memory) (n p : ℕ) (st : Scan)
      → ((q : ℕ) → p ≤ q → q < p + n → page_erased m q ≡ true)
      → st.first_free ≢ 0
      → scan ops crc m n p st ≡ st
  unfolding scan scan_page
  scan-found m zero p st h f = refl
  scan-found m (suc n) p st h f =
      let stays : (st.first_free == 0) ≡ false = ground arith in
      rw (h p (omega arith) (omega arith), stays)
        (scan-found m n (p + 1) st (λ q a b. h q (omega arith) (omega arith)) f)

  scan-free :
      (m : Memory) (n p : ℕ) (st : Scan)
      → ((q : ℕ) → p ≤ q → q < p + suc n → page_erased m q ≡ true)
      → 1 ≤ p
      → st.first_free ≡ 0
      → (scan ops crc m (suc n) p st).first_free ≡ p
  unfolding scan scan_page
  scan-free m n p st h pos f =
      let test : (st.first_free == 0) ≡ true = ground arith in
      let step : scan_page ops crc m p st ≡ record st { first_free = p } =
        rw (h p (omega arith) (omega arith), test) in
      ap (λ t. (scan ops crc m n (p + 1) t).first_free) step
      ∙ ap (λ (t : Scan). t.first_free)
          (scan-found m n (p + 1) (record st { first_free = p })
            (λ q a b. h q (omega arith) (omega arith)) (omega arith))

  scan_add :
      (m : Memory) (n k p : ℕ) (st : Scan)
      → scan ops crc m (n + k) p st ≡ scan ops crc m k (p + n) (scan ops crc m n p st)
  unfolding scan
  scan_add m zero k p st =
      let e : zero + k ≡ k = omega arith in
      let f : p ≡ p + zero = omega arith in
      ap (λ j. scan ops crc m j p st) e ∙ ap (λ j. scan ops crc m k j st) f
  scan_add m (suc n) k p st =
      let e : suc n + k ≡ suc (n + k) = omega arith in
      let f : p + 1 + n ≡ p + suc n = omega arith in
      ap (λ j. scan ops crc m j p st) e
      ∙ scan_add m n k (p + 1) (scan_page ops crc m p st)
      ∙ ap (λ j. scan ops crc m k j (scan ops crc m n (p + 1) (scan_page ops crc m p st))) f

module _ (ops : FlashOps) (crc : List ℕ → ℕ) (log : Log) (l : List Record) (h : Holds ops crc log l)
    (s : Store) (v : IsValid s) where
  start : Scan
  start = record { store = clear s; max_seq = 0; first_free = 0 }

  -- The pages in use, then the free ones.
  used : ℕ
  used = log.append_page - 1

  free : ℕ
  free = page_count ops crc - log.append_page

  pages : page_count ops crc - 1 ≡ used + free
  unfolding used free
  pages = omega (arith, h.first, h.within)

  middle : Scan
  middle = scan ops crc log.memory used 1 start

  last : Scan
  last = scan ops crc log.memory (page_count ops crc - 1) 1 start

  last-middle : last ≡ scan ops crc log.memory free (1 + used) middle
  unfolding last middle
  last-middle =
      ap (λ j. scan ops crc log.memory j 1 start) pages
      ∙ scan_add ops crc log.memory used free 1 start

  last-Shows : Shows last l
  unfolding last start used free
  last-Shows = subst (Shows last) says (
      scan-Shows ops crc log.memory (page_count ops crc - 1) 1 start []
        (record { valid = clear-IsValid v; shows = refl }))
    where
      says : replay ops crc log.memory (page_count ops crc - 1) 1 [] ≡ l
      says =
          ap (λ j. replay ops crc log.memory j 1 []) pages
          ∙ replay_add ops crc log.memory used free 1 []
          ∙ replay_erased ops crc log.memory free (1 + used) (replay ops crc log.memory used 1 [])
              (λ q a b. h.blank q (omega (arith, h.first)) (omega (arith, h.first, h.within)))
          ∙ h.replayed

  middle-unfound : middle.first_free ≡ 0
  unfolding middle start used
  middle-unfound =
      scan-used ops crc log.memory used 1 start
        (λ q a b. h.taken q (omega arith) (omega (arith, h.first)))

  first_free-last : (k : ℕ) → free ≡ k → last.first_free ≡ (if k == 0 then 0 else log.append_page)
  unfolding free used
  first_free-last zero e =
      ap (λ (t : Scan). t.first_free) last-middle
      ∙ ap (λ j. (scan ops crc log.memory j (1 + used) middle).first_free) e
      ∙ unfold scan in middle-unfound
  first_free-last (suc k) e =
      let top : 1 + used ≡ log.append_page = omega (arith, h.first) in
      ap (λ (t : Scan). t.first_free) last-middle
      ∙ ap (λ j. (scan ops crc log.memory j (1 + used) middle).first_free) e
      ∙ scan-free ops crc log.memory k (1 + used) middle
          (λ q a b.
            page_erased-IsErased log.memory q
              (h.blank q (omega (arith, h.first)) (omega (arith, h.first, h.within))))
          (omega arith) middle-unfound
      ∙ top
      ∙ ground arith

  found :
      (if not (last.first_free == 0) then last.first_free else page_count ops crc) ≡ log.append_page
  unfolding free
  found = ground (arith, first_free-last free refl, h.first, h.within)

  -- A new object that loads a log which says `l` shows `l`, and goes on where the old one was.
  pub load-Holds :
      let (log', s') = load ops crc (new_log log.memory) s in
      Holds ops crc log' l × (view s' ≡ l) × IsValid s'
  unfolding load load_pages last start
  load-Holds = rw h.header (
    record {
      header = h.header;
      first = rw found h.first;
      within = rw found h.within;
      blank = λ p a b. h.blank p (subst (λ t. t ≤ p) found a) b;
      taken = λ p a b. h.taken p a (subst (λ t. p < t) found b);
      replayed = ap (λ k. replay ops crc log.memory (k - 1) 1 []) found ∙ h.replayed;
      seq_fits = omega arith;
    },
    last-Shows.shows,
    last-Shows.valid,
  )
