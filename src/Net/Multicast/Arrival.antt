-- ===== src/Net/Multicast/Arrival.antt =====
-- The datagrams of a frame, raw or compressed, as bytes, through the receive callback.
use pixel_multiverse_firmwar.Prelude.{
  ℕ, ◌^◌, ◌≤◌, ◌<◌, ◌≡◌, refl, ap, ◌∙◌, Bool, true, false, ◌&&◌, Option, none, some, List, [], ◌∷◌,
  ◌++◌, ◌==◌, length, All, map, arith, bytes_eq, to_le16, to_le32, le16-to_le16, le32-to_le32, ltb,
}
use pixel_multiverse_firmwar.Net.Udp.Queue.{concat}
use pixel_multiverse_firmwar.Net.Multicast.{
  Receiver, Inflated, frame_magic, flags_of, chunk_of, seen, on_chunk, on_recv,
}
use pixel_multiverse_firmwar.Net.Multicast.Pieces.{At, NonEmpty, Covered, At-range}
use pixel_multiverse_firmwar.Net.Multicast.Loading.{Stands, piece}
use pixel_multiverse_firmwar.Net.Multicast.Target.{Roomy}
use pixel_multiverse_firmwar.Net.Multicast.Rebuilt.{offsets, run, run-rebuilds}

-- FLAG_ZLIB of a compressed frame, or no flags.
abbrev pub kind_flags : Bool → ℕ
kind_flags false = 0
kind_flags true = 2

-- 'MVF1', the frame id, the flags, the size of what is sent, the offset, and the bytes.
abbrev pub frame_datagram : Bool → ℕ → ℕ → ℕ × List ℕ → List ℕ
frame_datagram zl fid size c =
    frame_magic ++ (to_le16 fid ++ (kind_flags zl ∷ 0 ∷ (to_le32 size ++ (to_le32 c.0 ++ c.1))))

abbrev pub datagram : ℕ → ℕ → ℕ × List ℕ → List ℕ
datagram = frame_datagram false

module _ (uncompress : List ℕ → List ℕ → Inflated) (elapsed : ℕ) where
  -- The callback for one datagram after the other.
  unfoldable pub receive_all : Option Receiver → List (List ℕ) → Option Receiver
  unfolding on_recv
  receive_all none ps = none
  receive_all (some r) [] = some r
  receive_all (some r) (p ∷ ps) = receive_all (on_recv uncompress elapsed r (some p)) ps

chunk_of-frame_datagram :
    (zl : Bool) (fid : ℕ) (qs : List (List ℕ)) (c : ℕ × List ℕ)
    → fid < 2 ^ 16
    → length (concat qs) < 2 ^ 32
    → c.0 < 2 ^ 32
    → chunk_of (frame_datagram zl fid (length (concat qs)) c) ≡ piece zl fid qs c
unfolding chunk_of flags_of
chunk_of-frame_datagram false fid qs c id small lt =
    let f = le16-to_le16 fid [] id in
    let s = le32-to_le32 (length (concat qs)) [] small in
    let o = le32-to_le32 c.0 [] lt in rw (f, s, o) refl
chunk_of-frame_datagram true fid qs c id small lt =
    let f = le16-to_le16 fid [] id in
    let s = le32-to_le32 (length (concat qs)) [] small in
    let o = le32-to_le32 c.0 [] lt in rw (f, s, o) refl

pub on_recv-frame_datagram :
    (uncompress : List ℕ → List ℕ → Inflated) (elapsed : ℕ) (zl : Bool) (r : Receiver)
    (fid size : ℕ) (c : ℕ × List ℕ)
    → on_recv uncompress elapsed r (some (frame_datagram zl fid size c))
      ≡ on_chunk uncompress elapsed r (chunk_of (frame_datagram zl fid size c))
unfolding on_recv bytes_eq flags_of
on_recv-frame_datagram uncompress elapsed false r fid size c =
    let long : ltb (length (frame_datagram false fid size c)) 16 ≡ false = ground arith in
    rw long refl
on_recv-frame_datagram uncompress elapsed true r fid size c =
    let long : ltb (length (frame_datagram true fid size c)) 16 ≡ false = ground arith in
    rw long refl

module _ (uncompress : List ℕ → List ℕ → Inflated) (elapsed : ℕ) (fid : ℕ) (qs : List (List ℕ))
    (id : fid < 2 ^ 16) (small : length (concat qs) < 2 ^ 32) where
  receive_all-run :
      (zl : Bool) (before frame : List ℕ) (cs : List (ℕ × List ℕ)) (o : Option Receiver)
      → All (λ c. At 0 qs c.0 c.1) cs
      → receive_all uncompress elapsed o (map (frame_datagram zl fid (length (concat qs))) cs)
        ≡ run uncompress elapsed zl before frame fid qs o cs
  unfolding receive_all run
  receive_all-run zl before frame cs none a = refl
  receive_all-run zl before frame [] (some r) a = refl
  receive_all-run zl before frame (c ∷ cs) (some r) a =
      let e = At-range 0 qs c.0 c.1 a.0 in
      let n = length (concat qs) in
      let one =
        on_recv-frame_datagram uncompress elapsed zl r fid n c
        ∙ ap (on_chunk uncompress elapsed r)
            (chunk_of-frame_datagram zl fid qs c id small (omega (arith, e.1, small))) in
      receive_all-run zl before frame cs
        (on_recv uncompress elapsed r (some (frame_datagram zl fid n c))) a.1
      ∙ ap (λ t. run uncompress elapsed zl before frame fid qs t cs) one

  -- A frame of either kind, from its datagrams.
  pub receive_all-rebuilds :
      (zl : Bool) (frame : List ℕ) (cs : List (ℕ × List ℕ)) (r : Receiver)
      → All NonEmpty qs
      → length qs ≤ 128
      → Stands uncompress zl r.back frame (concat qs)
      → (r.have_done && fid == r.done_fid) ≡ false
      → (fid == r.cur_fid && r.in_frame) ≡ false
      → Roomy r.back (length (concat qs)) zl r.back r.zbuf r.zbuf_cap
      → 1 ≤ length (concat qs)
      → All (λ c. At 0 qs c.0 c.1) cs
      → Covered (λ o. seen o (offsets cs)) 0 qs
      → (r' : Receiver) × (receive_all uncompress elapsed
            (some r)
            (map (frame_datagram zl fid (length (concat qs))) cs)
          ≡ some r')
        × (r'.back ≡ frame)
        × (r'.frame_ready ≡ true)
        × (r'.back_complete ≡ true)
  receive_all-rebuilds zl frame cs r nonempty few stands fresh idle room some_bytes a cov =
      let out =
        run-rebuilds uncompress elapsed zl r.back frame fid qs nonempty few small stands cs r fresh
          idle room some_bytes a cov in
      (out.0, receive_all-run zl r.back frame cs (some r) a ∙ out.1, out.2, out.3, out.4)

  -- The datagrams of a raw frame that is cut into pieces, none empty and at most 128 of them, reach a
  -- receiver that has not had this frame yet and is not in the middle of it, in any order, with any
  -- repeats, and every one of them at least once: the back buffer is then the frame, and the frame is
  -- announced as complete.
  pub on_recv-rebuilds :
      (cs : List (ℕ × List ℕ)) (r : Receiver)
      → All NonEmpty qs
      → length qs ≤ 128
      → (r.have_done && fid == r.done_fid) ≡ false
      → (fid == r.cur_fid && r.in_frame) ≡ false
      → length r.back ≡ length (concat qs)
      → 1 ≤ length (concat qs)
      → All (λ c. At 0 qs c.0 c.1) cs
      → Covered (λ o. seen o (offsets cs)) 0 qs
      → (r' : Receiver) × (receive_all uncompress elapsed
            (some r)
            (map (datagram fid (length (concat qs))) cs)
          ≡ some r')
        × (r'.back ≡ concat qs)
        × (r'.frame_ready ≡ true)
        × (r'.back_complete ≡ true)
  on_recv-rebuilds cs r nonempty few fresh idle size some_bytes a cov =
      receive_all-rebuilds false (concat qs) cs r nonempty few refl fresh idle size some_bytes a cov

  -- The datagrams of a compressed frame that is cut into pieces, none empty and at most 128 of them,
  -- reach a receiver whose scratch has room for it, and which has not had this frame yet and is not
  -- in the middle of it, in any order, with any repeats, and every one of them at least once: where
  -- zlib inflates what was sent to a frame of the back buffer's size, the back buffer is then that
  -- frame, and it is announced as complete.
  pub on_recv-inflates :
      (cs : List (ℕ × List ℕ)) (r : Receiver) (scratch frame : List ℕ)
      → All NonEmpty qs
      → length qs ≤ 128
      → (r.have_done && fid == r.done_fid) ≡ false
      → (fid == r.cur_fid && r.in_frame) ≡ false
      → (r.zbuf ≡ some scratch) × (length scratch ≡ r.zbuf_cap)
      → length (concat qs) ≤ r.zbuf_cap
      → 1 ≤ length (concat qs)
      → uncompress r.back (concat qs) ≡ record { z_ok = true; dlen = length r.back; dest = frame }
      → All (λ c. At 0 qs c.0 c.1) cs
      → Covered (λ o. seen o (offsets cs)) 0 qs
      → (r' : Receiver) × (receive_all uncompress elapsed
            (some r)
            (map (frame_datagram true fid (length (concat qs))) cs)
          ≡ some r')
        × (r'.back ≡ frame)
        × (r'.frame_ready ≡ true)
        × (r'.back_complete ≡ true)
  on_recv-inflates cs r scratch frame nonempty few fresh idle held room some_bytes inflates a cov =
      receive_all-rebuilds true frame cs r nonempty few inflates fresh idle
        (refl, scratch, held.0, held.1, room) some_bytes a cov
