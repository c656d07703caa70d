-- ===== src/Net/Multicast/Loading/Step.antt =====
-- What a new piece of a frame does: the frame is still under way, or it is complete.
use pixel_multiverse_firmwar.Prelude.{
  ℕ, ◌+◌, ◌^◌, ◌≤◌, ◌<◌, ◌≡◌, ◌≢◌, ◌⊎◌, refl, sym, ap, ◌∙◌, subst, Bool, true, false, ◌||◌, Option,
  none, some, List, [], ◌∷◌, ◌++◌, leb, length, get_or, All, arith, Bool-cases, inl, inr,
  length-append, take, get_or-take, length-take,
}
use pixel_multiverse_firmwar.Net.Udp.Queue.{concat}
use pixel_multiverse_firmwar.Net.Multicast.{
  Receiver, Inflated, seen, write_chunk, take_chunk, accept_chunk,
}
use pixel_multiverse_firmwar.Net.Multicast.Pieces.{
  At, NonEmpty, Covered, weigh, total, At-range, At-Covered, At-apart, weigh-le, weigh-whole,
  weigh-more, drop-concat,
}
use pixel_multiverse_firmwar.Net.Multicast.Target.{
  back_with, zbuf_with, Roomy, length-target, target-with, Roomy-with,
}
use pixel_multiverse_firmwar.Net.Multicast.Place.{
  overwrite, overwrite_at, overwrite_before, overwrite_after, length-overwrite,
}
use pixel_multiverse_firmwar.Net.Multicast.Loading.{
  Loading, Loaded, Stands, piece, filling, placed, finish-Loaded, note_offset-room,
  write_chunk-placed,
}

seen-append_self : (off : ℕ) (os : List ℕ) → seen off (os ++ (off ∷ [])) ≡ true
unfolding seen
seen-append_self off [] = ground arith
seen-append_self off (o ∷ os) = ground (arith, seen-append_self off os)

seen-append_other : (o off : ℕ) (os : List ℕ) → o ≢ off → seen o (os ++ (off ∷ [])) ≡ seen o os
unfolding seen
seen-append_other o off [] ne = ground (arith, ne)
seen-append_other o off (x ∷ os) ne = ground (arith, seen-append_other o off os ne)

pub seen-append_either : (o : ℕ) (os qs : List ℕ) → seen o (os ++ qs) ≡ (seen o os || seen o qs)
unfolding seen
seen-append_either o [] qs = refl
seen-append_either o (x ∷ os) qs = ground (arith, seen-append_either o os qs)

pub total-length : (qs : List (List ℕ)) → total length qs ≡ length (concat qs)
total-length [] = refl
total-length (q ∷ qs) = rw (total-length qs) (sym (length-append q (concat qs)))

total_one : (qs : List (List ℕ)) → total (λ q. 1) qs ≡ length qs
total_one [] = refl
total_one (q ∷ qs) = omega (arith, total_one qs)

module _ (uncompress : List ℕ → List ℕ → Inflated) (elapsed : ℕ) (zl : Bool) (before frame : List ℕ)
    (fid : ℕ) (qs : List (List ℕ)) (nonempty : All NonEmpty qs) (few : length qs ≤ 128)
    (small : length (concat qs) < 2 ^ 32) (stands : Stands uncompress zl before frame (concat qs))
    (r : Receiver) (l : Loading uncompress elapsed zl before frame fid qs r) (off : ℕ) (p : List ℕ)
    (a : At 0 qs off p) (new : seen off r.seen_off ≡ false) where
  in_frame : off + length p ≤ length (concat qs)
  in_frame = let e = At-range 0 qs off p a in omega (arith, e.1)

  in_range : off + length p ≤ length (filling zl r)
  in_range =
      let fits = length-target before (length (concat qs)) zl r.back r.zbuf r.zbuf_cap l.room in
      omega (arith, in_frame, fits)

  -- What the buffer of the frame is then.
  filling-placed :
      filling zl (placed uncompress elapsed zl before frame fid qs r off p)
      ≡ overwrite (filling zl r) off p
  unfolding placed
  filling-placed = target-with before (length (concat qs)) off p zl r.back r.zbuf r.zbuf_cap l.room

  placed-room :
      Roomy before
        (length (concat qs))
        zl
        (back_with zl r.back off p)
        (zbuf_with zl r.zbuf off p)
        r.zbuf_cap
  placed-room =
      Roomy-with before (length (concat qs)) off p zl r.back r.zbuf r.zbuf_cap in_frame l.room

  more_seen :
      (w : List ℕ → ℕ)
      → weigh w (λ o. seen o (r.seen_off ++ (off ∷ []))) 0 qs
        ≡ weigh w (λ o. seen o r.seen_off) 0 qs + w p
  more_seen w =
      weigh-more w (λ o. seen o r.seen_off) (λ o. seen o (r.seen_off ++ (off ∷ []))) off p
        (λ o ne. seen-append_other o off r.seen_off ne) 0 qs nonempty a new
        (seen-append_self off r.seen_off)

  room_to_note : length r.seen_off < 128
  room_to_note =
      let le = weigh-le (λ q. 1) (λ o. seen o (r.seen_off ++ (off ∷ []))) 0 qs in
      omega (arith, l.noted, more_seen (λ q. 1), le, total_one qs, few)

  bytes_placed :
      (off' : ℕ) (p' : List ℕ) (j : ℕ)
      → At 0 qs off' p'
      → seen off' (r.seen_off ++ (off ∷ [])) ≡ true
      → j < length p'
      → get_or (overwrite (filling zl r) off p) (off' + j) 0 ≡ get_or p' j 0
  bytes_placed off' p' j a' s lt = elim (At-apart 0 qs off off' p p' nonempty a a') [
    | inl (o, e) ↦
        subst (λ k. get_or (overwrite (filling zl r) off p) (k + j) 0 ≡ get_or p' j 0) o
          (overwrite_at (filling zl r) off p in_range j (omega (arith, lt, ap length e))
            ∙ ap (λ t. get_or t j 0) e)
    | inr (apart, ne) ↦
        let was : seen off' r.seen_off ≡ true =
          sym (seen-append_other off' off r.seen_off (λ e. ne (sym e))) ∙ s in
        let kept : get_or (overwrite (filling zl r) off p) (off' + j) 0
            ≡ get_or (filling zl r) (off' + j) 0 =
          elim apart [
            | inl after ↦
                overwrite_after (filling zl r) off p in_range (off' + j) (omega (arith, after))
            | inr before ↦
                overwrite_before (filling zl r) off p in_range (off' + j)
                  (omega (arith, before, lt))
          ] in
        kept ∙ l.bytes off' p' j a' was lt
  ]

  pub accepted :
      accept_chunk uncompress elapsed r (piece zl fid qs (off, p))
      ≡ some (
          take_chunk uncompress elapsed
            (placed uncompress elapsed zl before frame fid qs r off p)
            (piece zl fid qs (off, p)))
  unfolding accept_chunk
  accepted =
      let c = piece zl fid qs (off, p) in
      let noted = note_offset-room r off room_to_note in
      let written =
        write_chunk-placed uncompress elapsed zl before frame fid qs r off p l.kind l.room
          in_frame in
      let taken : Option Receiver → Option Receiver =
        λ o. elim o [ none ↦ none | some r' ↦ some (take_chunk uncompress elapsed r' c) ] in
      rw new (ap (λ t. taken (write_chunk t c)) noted ∙ ap taken written)

  -- What has been received once the piece is counted.
  received_now : r.received + length p ≡ weigh length (λ o. seen o (r.seen_off ++ (off ∷ []))) 0 qs
  received_now = omega (arith, l.counted, more_seen length)

  still-Loading :
      r.received + length p < length (concat qs)
      → Loading uncompress elapsed zl before frame fid qs
          (record (placed uncompress elapsed zl before frame fid qs r off p) {
            received = r.received + length p;
          })
  unfolding placed
  still-Loading lt = record {
    which = l.which;
    under_way = l.under_way;
    kind = l.kind;
    fresh = l.fresh;
    room = placed-room;
    counted = received_now;
    noted = omega (arith, length-append r.seen_off (off ∷ []), l.noted, more_seen (λ q. 1));
    more = lt;
    bytes = λ off' p' j a' s lt'.
        ap (λ t. get_or t (off' + j) 0) (unfold placed in filling-placed)
        ∙ bytes_placed off' p' j a' s lt';
  }

  whole_now :
      length (concat qs) ≤ r.received + length p
      → take (length (concat qs)) (overwrite (filling zl r) off p) ≡ concat qs
  whole_now le =
      let n = length (concat qs) in
      let b = overwrite (filling zl r) off p in
      let now : ℕ → Bool = λ o. seen o (r.seen_off ++ (off ∷ [])) in
      let most = weigh-le length now 0 qs in
      let all : Covered now 0 qs =
        weigh-whole now 0 qs nonempty (omega (arith, most, received_now, le, total-length qs)) in
      let fits = length-target before n zl r.back r.zbuf r.zbuf_cap l.room in
      let same = length-overwrite (filling zl r) off p in_range in
      drop-concat (take n b) 0 qs (length-take n b (omega (arith, same, fits)) ∙ omega arith)
        (λ off' p' j a' lt.
          get_or-take n b (off' + j) 0 (omega (arith, lt, (At-range 0 qs off' p' a').1))
          ∙ bytes_placed off' p' j a' (At-Covered now 0 qs off' p' all a') lt)

  pub step :
      let r' = placed uncompress elapsed zl before frame fid qs r off p in
      Loading uncompress elapsed zl before frame fid qs
          (take_chunk uncompress elapsed r' (piece zl fid qs (off, p)))
        × ((take_chunk uncompress elapsed r' (piece zl fid qs (off, p))).seen_off
            ≡ r.seen_off ++ (off ∷ []))
      ⊎ Loaded uncompress elapsed zl before frame fid qs
          (take_chunk uncompress elapsed r' (piece zl fid qs (off, p)))
  unfolding take_chunk placed
  step = elim (Bool-cases (leb (length (concat qs)) (r.received + length p))) [
    | inl full ↦
        let r' : Receiver = record (placed uncompress elapsed zl before frame fid qs r off p) {
          received = r.received + length p;
        } in
        rw full (
          inr (
            finish-Loaded uncompress elapsed zl before frame fid qs r' l.which l.kind placed-room
              (ap (take (length (concat qs))) (unfold placed in filling-placed)
                ∙ whole_now (ground (arith, full)))
              stands))
    | inr short ↦ rw short (inl (still-Loading (ground (arith, short)), refl))
  ]
