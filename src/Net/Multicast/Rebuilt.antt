-- ===== src/Net/Multicast/Rebuilt.antt =====
-- The pieces of a frame, in any order and with repeats, make up what was sent.
use pixel_multiverse_firmwar.Prelude.{
  ℕ, ◌+◌, ◌%◌, ◌^◌, ◌≤◌, ◌<◌, ◌≡◌, refl, sym, ap, ◌∙◌, subst, Bool, true, false, ◌&&◌, Option, none,
  some, List, [], ◌∷◌, ◌++◌, ◌==◌, ==_iff, length, All, arith, Bool-cases, inl, inr, append-nil,
  append_assoc,
}
use pixel_multiverse_firmwar.Net.Udp.Queue.{concat}
use pixel_multiverse_firmwar.Net.Multicast.{
  Receiver, Inflated, refused, enter_frame, start_frame, seen, accept_chunk, take_chunk, on_chunk,
}
use pixel_multiverse_firmwar.Net.Multicast.Pieces.{
  At, NonEmpty, Covered, weigh, Covered-mono, At-range, weigh-Covered,
}
use pixel_multiverse_firmwar.Net.Multicast.Target.{Roomy}
use pixel_multiverse_firmwar.Net.Multicast.Loading.{Loading, Loaded, Stands, piece, placed}
use pixel_multiverse_firmwar.Net.Multicast.Loading.Step.{
  accepted, step, seen-append_either, total-length,
}

abbrev pub offsets : List (ℕ × List ℕ) → List ℕ
offsets [] = []
offsets (c ∷ cs) = c.0 ∷ offsets cs

-- The checks on the sizes let a piece through.
unrefused :
    (zl : Bool) (before : List ℕ) (fid : ℕ) (qs : List (List ℕ)) (r : Receiver) (c : ℕ × List ℕ)
    → Roomy before (length (concat qs)) zl r.back r.zbuf r.zbuf_cap
    → length (concat qs) < 2 ^ 32
    → 1 ≤ length (concat qs)
    → At 0 qs c.0 c.1
    → refused r (piece zl fid qs c) ≡ false
unfolding refused
unrefused false before fid qs r c room small some_bytes a =
    let e = At-range 0 qs c.0 c.1 a in
    let exact : (c.0 + length c.1) % 2 ^ 32 ≡ c.0 + length c.1 = omega (arith, e.1, small) in
    ground (arith, room, exact, e.1)
unrefused true before fid qs r c (same, z, held, size, room) small some_bytes a =
    let e = At-range 0 qs c.0 c.1 a in
    let exact : (c.0 + length c.1) % 2 ^ 32 ≡ c.0 + length c.1 = omega (arith, e.1, small) in
    rw held (ground (arith, some_bytes, room, exact, e.1))

module _ (uncompress : List ℕ → List ℕ → Inflated) (elapsed : ℕ) (zl : Bool) (before frame : List ℕ)
    (fid : ℕ) (qs : List (List ℕ)) where
  -- The callback for one piece after the other, each given by its offset and bytes.
  unfoldable pub run : Option Receiver → List (ℕ × List ℕ) → Option Receiver
  run none cs = none
  run (some r) [] = some r
  run (some r) (c ∷ cs) = run (on_chunk uncompress elapsed r (piece zl fid qs c)) cs

  weigh-none :
      (w : List ℕ → ℕ) (base : ℕ) (ps : List (List ℕ)) → weigh w (λ o. seen o []) base ps ≡ 0
  unfolding seen
  weigh-none w base [] = refl
  weigh-none w base (p ∷ ps) = omega (arith, weigh-none w (base + length p) ps)

  Loaded-stays :
      (r : Receiver) (c : ℕ × List ℕ)
      → Loaded uncompress elapsed zl before frame fid qs r
      → on_chunk uncompress elapsed r (piece zl fid qs c) ≡ some r
  unfolding on_chunk
  Loaded-stays r c l = ground (arith, l.done)

  run-Loaded :
      (cs : List (ℕ × List ℕ)) (r : Receiver)
      → Loaded uncompress elapsed zl before frame fid qs r
      → run (some r) cs ≡ some r
  unfolding run
  run-Loaded [] r l = refl
  run-Loaded (c ∷ cs) r l = ap (λ t. run t cs) (Loaded-stays r c l) ∙ run-Loaded cs r l

  uncovered :
      (base : ℕ) (ps : List (List ℕ))
      → 1 ≤ length (concat ps)
      → Covered (λ o. seen o []) base ps
      → ⊥
  unfolding seen
  uncovered base [] some_bytes cov = omega (arith, some_bytes)
  uncovered base (p ∷ ps) some_bytes cov = ground (arith, cov.0)

  seen-again :
      (o off : ℕ) (os rest : List ℕ)
      → seen off os ≡ true
      → seen o (os ++ (off ∷ rest)) ≡ true
      → seen o (os ++ rest) ≡ true
  unfolding seen
  seen-again o off os rest s h =
      let one = seen-append_either o os (off ∷ rest) in
      let two = seen-append_either o os rest in
      elim (Bool-cases (off == o)) [
        | inl same ↦
            let here : seen o os ≡ true = subst (λ t. seen t os ≡ true) ((==_iff off o).0 same) s in
            rw (two, here) refl
        | inr other ↦ ground (arith, one, two, h, other)
      ]

  -- A chunk of the frame under way goes to `accept_chunk`.
  Loading-accept :
      (r : Receiver) (c : ℕ × List ℕ)
      → Loading uncompress elapsed zl before frame fid qs r
      → length (concat qs) < 2 ^ 32
      → 1 ≤ length (concat qs)
      → At 0 qs c.0 c.1
      → on_chunk uncompress elapsed r (piece zl fid qs c)
        ≡ accept_chunk uncompress elapsed r (piece zl fid qs c)
  unfolding on_chunk enter_frame
  Loading-accept r c l small some_bytes a =
      let good = unrefused zl before fid qs r c l.room small some_bytes a in
      ground (arith, good, l.fresh, l.which, l.under_way)

  repeated :
      (r : Receiver) (c : ℕ × List ℕ)
      → seen c.0 r.seen_off ≡ true
      → accept_chunk uncompress elapsed r (piece zl fid qs c) ≡ some r
  unfolding accept_chunk
  repeated r c s = rw s refl

  started :
      (r : Receiver) (c : ℕ × List ℕ)
      → (r.have_done && fid == r.done_fid) ≡ false
      → Roomy before (length (concat qs)) zl r.back r.zbuf r.zbuf_cap
      → 1 ≤ length (concat qs)
      → Loading uncompress elapsed zl before frame fid qs (start_frame r (piece zl fid qs c))
  unfolding start_frame seen
  started r c fresh room some_bytes = record {
    which = refl;
    under_way = refl;
    kind = refl;
    fresh = fresh;
    room = room;
    counted = sym (weigh-none length 0 qs);
    noted = sym (weigh-none (λ q. 1) 0 qs);
    more = some_bytes;
    bytes = λ off p j a s lt. absurd (ground (arith, s));
  }

  module _ (nonempty : All NonEmpty qs) (few : length qs ≤ 128)
      (small : length (concat qs) < 2 ^ 32)
      (stands : Stands uncompress zl before frame (concat qs)) where
    abbrev Rebuilt : Option Receiver → Type 0
    Rebuilt o =
        (r' : Receiver) × (o ≡ some r') × Loaded uncompress elapsed zl before frame fid qs r'

    CoveredBy : (os : List ℕ) (cs : List (ℕ × List ℕ)) → Type 0
    CoveredBy os cs = Covered (λ o. seen o (os ++ offsets cs)) 0 qs

    -- What `accept_chunk` does with a piece, and the rest of the run.
    Loading-run :
        (cs : List (ℕ × List ℕ)) (r : Receiver)
        → Loading uncompress elapsed zl before frame fid qs r
        → All (λ c. At 0 qs c.0 c.1) cs
        → CoveredBy r.seen_off cs
        → Rebuilt (run (some r) cs)
    unfolding run CoveredBy
    Loading-run [] r l a cov =
        let os : r.seen_off ++ [] ≡ r.seen_off = append-nil r.seen_off in
        let all =
          weigh-Covered length (λ o. seen o r.seen_off) 0 qs
            (subst (λ t. Covered (λ o. seen o t) 0 qs) os cov) in
        absurd (omega (arith, all, l.counted, l.more, total-length qs))
    Loading-run (c ∷ cs) r l a cov = elim (Bool-cases (seen c.0 r.seen_off)) [
      | inl again ↦
          let same : on_chunk uncompress elapsed r (piece zl fid qs c) ≡ some r =
            Loading-accept r c l small (ground (arith, l.more)) a.0 ∙ repeated r c again in
          let weaker =
            Covered-mono (λ o. seen o (r.seen_off ++ (c.0 ∷ offsets cs)))
              (λ o. seen o (r.seen_off ++ offsets cs)) 0 qs
              (λ o s. seen-again o c.0 r.seen_off (offsets cs) again s) cov in
          subst Rebuilt (ap (λ t. run t cs) (sym same)) (Loading-run cs r l a.1 weaker)
      | inr new ↦
          let r' =
            take_chunk uncompress elapsed
              (placed uncompress elapsed zl before frame fid qs r c.0 c.1) (piece zl fid qs c) in
          let same : on_chunk uncompress elapsed r (piece zl fid qs c) ≡ some r' =
            Loading-accept r c l small (ground (arith, l.more)) a.0
            ∙ accepted uncompress elapsed zl before frame fid qs nonempty few small stands r l c.0
                c.1 a.0 new in
          subst Rebuilt (ap (λ t. run t cs) (sym same))
            (elim (step uncompress elapsed zl before frame fid qs nonempty few small stands r l c.0
              c.1 a.0 new) [
                | inl (l', os) ↦ Loading-run cs r' l' a.1 (
                    subst (λ t. Covered (λ o. seen o t) 0 qs)
                      (sym (append_assoc r.seen_off (c.0 ∷ []) (offsets cs))
                        ∙ ap (λ t. t ++ offsets cs) (sym os))
                      cov)
                | inr l' ↦ (r', run-Loaded cs r' l', l')
              ])
    ]

    first_piece :
        (r : Receiver) (c : ℕ × List ℕ)
        → (r.have_done && fid == r.done_fid) ≡ false
        → (fid == r.cur_fid && r.in_frame) ≡ false
        → Roomy before (length (concat qs)) zl r.back r.zbuf r.zbuf_cap
        → 1 ≤ length (concat qs)
        → At 0 qs c.0 c.1
        → on_chunk uncompress elapsed r (piece zl fid qs c)
          ≡ on_chunk uncompress elapsed (start_frame r (piece zl fid qs c)) (piece zl fid qs c)
    unfolding on_chunk enter_frame start_frame
    first_piece r c fresh idle room some_bytes a =
        let good = unrefused zl before fid qs r c room small some_bytes a in
        let good' =
          unrefused zl before fid qs (start_frame r (piece zl fid qs c)) c room small some_bytes
            a in
        ground (arith, good, good', fresh, idle)

    run-started :
        (cs : List (ℕ × List ℕ)) (r : Receiver)
        → (r.have_done && fid == r.done_fid) ≡ false
        → (fid == r.cur_fid && r.in_frame) ≡ false
        → Roomy before (length (concat qs)) zl r.back r.zbuf r.zbuf_cap
        → 1 ≤ length (concat qs)
        → All (λ c. At 0 qs c.0 c.1) cs
        → Covered (λ o. seen o (offsets cs)) 0 qs
        → Rebuilt (run (some r) cs)
    unfolding run
    run-started [] r fresh idle room some_bytes a cov = absurd (uncovered 0 qs some_bytes cov)
    run-started (c ∷ cs) r fresh idle room some_bytes a cov =
        let r0 = start_frame r (piece zl fid qs c) in
        let l = started r c fresh room some_bytes in
        subst Rebuilt (ap (λ t. run t cs) (sym (first_piece r c fresh idle room some_bytes a.0)))
          (Loading-run (c ∷ cs) r0 l a (unfold CoveredBy start_frame in cov))

    -- The pieces of a frame, none empty and at most 128 of them, that reach a receiver which has
    -- not had the frame yet, in any order, with any repeats, and every one of them at least once: the
    -- back buffer is then the frame that they stand for, and it is announced.
    pub run-rebuilds :
        (cs : List (ℕ × List ℕ)) (r : Receiver)
        → (r.have_done && fid == r.done_fid) ≡ false
        → (fid == r.cur_fid && r.in_frame) ≡ false
        → Roomy before (length (concat qs)) zl r.back r.zbuf r.zbuf_cap
        → 1 ≤ length (concat qs)
        → All (λ c. At 0 qs c.0 c.1) cs
        → Covered (λ o. seen o (offsets cs)) 0 qs
        → (r' : Receiver) × (run (some r) cs ≡ some r')
          × (r'.back ≡ frame)
          × (r'.frame_ready ≡ true)
          × (r'.back_complete ≡ true)
    run-rebuilds cs r fresh idle room some_bytes a cov =
        let out = run-started cs r fresh idle room some_bytes a cov in
        (out.0, out.1, out.2.whole, out.2.ready, out.2.complete)
