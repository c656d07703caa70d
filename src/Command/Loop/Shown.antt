-- ===== src/Command/Loop/Shown.antt =====
-- A frame of the multicast group, from its datagrams to the display.
use pixel_multiverse_firmwar.Prelude.{
  ℕ, ◌^◌, ◌≤◌, ◌<◌, ◌≡◌, refl, sym, ap, ◌∙◌, Bool, true, false, ◌&&◌, ◌==◌, some, List, [], ◌∷◌,
  length, map, All, arith, Bool-cases, Option-cases, inl, inr, if◌then◌else◌,
}
use pixel_multiverse_firmwar.Display.Frames.{Frames, shown, back, double, write_buffer, write_back}
use pixel_multiverse_firmwar.Display.Frames.Sizes.{back-write_back}
use pixel_multiverse_firmwar.Net.Udp.Queue.{concat}
use pixel_multiverse_firmwar.Net.Multicast.{Receiver, Inflated, seen, chunk_of, on_recv}
use pixel_multiverse_firmwar.Net.Multicast.Pieces.{At, NonEmpty, Covered}
use pixel_multiverse_firmwar.Net.Multicast.Target.{Roomy}
use pixel_multiverse_firmwar.Net.Multicast.Loading.{Stands}
use pixel_multiverse_firmwar.Net.Multicast.Rebuilt.{offsets}
use pixel_multiverse_firmwar.Net.Multicast.Kept.{on_chunk-flip_ready}
use pixel_multiverse_firmwar.Net.Multicast.Arrival.{
  frame_datagram, receive_all, receive_all-rebuilds, on_recv-frame_datagram,
}
use pixel_multiverse_firmwar.Command.Loop.{
  System, put_back, after_recv, deliver, wifi_poll, present_multicast,
}
use pixel_multiverse_firmwar.Command.Loop.Ready.{on_display}
use pixel_multiverse_firmwar.Command.Loop.Sync.{present_multicast-live}

double-write_back : (f : Frames) (m : List ℕ) → double (write_back f m) ≡ double f
unfolding double write_back write_buffer
double-write_back f m = elim (Bool-cases f.front) [
  | inl one ↦ ground arith
  | inr zero ↦ ground arith
]

-- What the callback left is what it finds at the next datagram.
on_display-put_back : (s : System) (r : Receiver) → on_display (put_back s r) ≡ r
on_display-put_back s r =
    ap (λ (m : List ℕ). record r { back = m }) (back-write_back s.board.frames r.back)

module _ (uncompress : List ℕ → List ℕ → Inflated) (elapsed : ℕ) (zl : Bool) (fid size : ℕ) where
  abbrev sent : ℕ × List ℕ → List ℕ
  sent = frame_datagram zl fid size

  -- The poll that brings these datagrams leaves the receiver as the callback does, with its back
  -- buffer in the display's.
  wifi_poll-receive_all :
      (cs : List (ℕ × List ℕ)) (s : System) (r : Receiver)
      → receive_all uncompress elapsed (some (on_display s)) (map sent cs) ≡ some r
      → (s' : System) × (wifi_poll uncompress elapsed (some s) (map (λ c. some (sent c)) cs)
          ≡ some s')
        × (on_display s' ≡ r)
        × (s'.board.deferred ≡ s.board.deferred)
        × (double s'.board.frames ≡ double s.board.frames)
        × (s'.receiver.flip_ready ≡ s.receiver.flip_ready)
  unfolding wifi_poll receive_all deliver
  wifi_poll-receive_all [] s r e = (s, refl, ground (arith, e), refl, refl, refl)
  wifi_poll-receive_all (c ∷ cs) s r e =
      elim (Option-cases (on_recv uncompress elapsed (on_display s) (some (sent c)))) [
        | inl fault ↦
            let lost = ap (λ t. receive_all uncompress elapsed t (map sent cs)) (sym fault) ∙ e in
            absurd (ground (arith, lost))
        | inr (r1, ran) ↦
            let s1 = put_back s r1 in
            let left =
              ap (λ t. receive_all uncompress elapsed (some t) (map sent cs))
                (on_display-put_back s r1)
              ∙ (ap (λ t. receive_all uncompress elapsed t (map sent cs)) (sym ran) ∙ e) in
            let (s', polled, same, deferred, two, calm) = wifi_poll-receive_all cs s1 r left in
            let kept =
              on_chunk-flip_ready uncompress elapsed (on_display s) r1 (chunk_of (sent c)) (
                sym (on_recv-frame_datagram uncompress elapsed zl (on_display s) fid size c)
                ∙ ran) in
            (
              s',
              ap (λ t. wifi_poll uncompress elapsed t (map (λ c. some (sent c)) cs))
                    (ap (after_recv s) ran)
                  ∙ polled,
              same,
              deferred,
              two ∙ double-write_back s.board.frames r1.back,
              calm ∙ kept,
            )
      ]

-- In live mode and with two buffers, with no FLIP pending: a poll that brings the datagrams of a frame,
-- raw or compressed, which is cut into pieces, none empty and at most 128 of them, in any order, with
-- any repeats, and every one of them at least once, to a receiver with room for it, which has not had
-- this frame yet and is not in the middle of it: the round then shows the frame that was sent, or that
-- zlib inflates from what was sent.
pub present_multicast-wifi_poll :
    (uncompress : List ℕ → List ℕ → Inflated) (elapsed : ℕ) (zl : Bool) (fid : ℕ)
    (qs : List (List ℕ)) (cs : List (ℕ × List ℕ)) (frame : List ℕ) (s : System)
    → fid < 2 ^ 16
    → (1 ≤ length (concat qs)) × (length (concat qs) < 2 ^ 32)
    → All NonEmpty qs
    → length qs ≤ 128
    → Stands uncompress zl (back s.board.frames) frame (concat qs)
    → (s.receiver.have_done && fid == s.receiver.done_fid) ≡ false
    → (fid == s.receiver.cur_fid && s.receiver.in_frame) ≡ false
    → Roomy
        (back s.board.frames)
        (length (concat qs))
        zl
        (back s.board.frames)
        s.receiver.zbuf
        s.receiver.zbuf_cap
    → All (λ c. At 0 qs c.0 c.1) cs
    → Covered (λ o. seen o (offsets cs)) 0 qs
    → s.board.deferred ≡ false
    → double s.board.frames ≡ true
    → s.receiver.flip_ready ≡ false
    → (s' : System) × (wifi_poll uncompress elapsed
          (some s)
          (map (λ c. some (frame_datagram zl fid (length (concat qs)) c)) cs)
        ≡ some s')
      × (shown (present_multicast s').board.frames ≡ frame)
present_multicast-wifi_poll uncompress elapsed zl fid qs cs frame s id size nonempty few stands
      fresh idle room a cov live two calm =
    let (r, ran, whole, ready, complete) =
      receive_all-rebuilds uncompress elapsed fid qs id size.1 zl frame cs (on_display s) nonempty
        few stands fresh idle room size.0 a cov in
    let (s', polled, same, deferred, two', calm') =
      wifi_poll-receive_all uncompress elapsed zl fid (length (concat qs)) cs s r ran in
    let announced : s'.receiver.frame_ready ≡ true = ap (λ t. t.frame_ready) same ∙ ready in
    let loaded : back s'.board.frames ≡ frame = ap (λ t. t.back) same ∙ whole in
    let presented = present_multicast-live s' (two' ∙ two) (deferred ∙ live) (calm' ∙ calm) in
    (
      s',
      polled,
      presented
          ∙ (ap (λ b. if b then back s'.board.frames else shown s'.board.frames) announced
              ∙ loaded),
    )
