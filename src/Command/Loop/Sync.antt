-- ===== src/Command/Loop/Sync.antt =====
-- When the frames of the multicast group are shown.
use pixel_multiverse_firmwar.Prelude.{
  ◌≡◌, true, false, ◌&&◌, if◌then◌else◌, arith, Bool-cases, inl, inr,
}
use pixel_multiverse_firmwar.Display.Frames.{Frames, shown, back, double, present, buffer}
use pixel_multiverse_firmwar.Net.Multicast.{take_frame, take_flip}
use pixel_multiverse_firmwar.Command.Loop.{System, present_frame, present_flip, present_multicast}

-- With two buffers, a presentation swaps what is shown and what is drawn on.
pub present-swap :
    (f : Frames)
    → double f ≡ true
    → (shown (present f) ≡ back f) × (back (present f) ≡ shown f) × (double (present f) ≡ true)
unfolding shown back present buffer double
present-swap f d = elim (Bool-cases f.front) [
  | inl one ↦ (ground arith, ground arith, ground arith)
  | inr zero ↦ (ground arith, ground arith, ground arith)
]

module _ (s : System) (two : double s.board.frames ≡ true) where
  -- In hold mode and with two buffers: a round shows the back buffer where a FLIP is pending and a
  -- whole frame is loaded, and otherwise what was shown.
  pub present_multicast-held :
      s.board.deferred ≡ true
      → shown (present_multicast s).board.frames ≡ (
          if s.receiver.flip_ready && s.receiver.back_complete
          then back s.board.frames
          else shown s.board.frames)
  unfolding present_multicast present_frame present_flip take_frame take_flip
  present_multicast-held held =
      let swap = present-swap s.board.frames two in ground (arith, held, swap.0)

  -- In live mode and with two buffers, with no FLIP pending: a round shows the back buffer where a
  -- frame has come whole, and otherwise what was shown.
  pub present_multicast-live :
      s.board.deferred ≡ false
      → s.receiver.flip_ready ≡ false
      → shown (present_multicast s).board.frames
        ≡ (if s.receiver.frame_ready then back s.board.frames else shown s.board.frames)
  unfolding present_multicast present_frame present_flip take_frame take_flip
  present_multicast-live live calm =
      let swap = present-swap s.board.frames two in ground (arith, live, calm, swap.0)

  -- In live mode and with two buffers: a frame that has come whole is presented, and a FLIP that is
  -- pending after that shows the frame before it again.
  pub present_multicast-stale :
      s.board.deferred ≡ false
      → s.receiver.frame_ready ≡ true
      → s.receiver.back_complete ≡ true
      → let s' = present_frame s in
        (shown s'.board.frames ≡ back s.board.frames)
        × (shown
              (present_flip
                (record s' { receiver = record s'.receiver { flip_ready = true } })).board.frames
            ≡ shown s.board.frames)
  unfolding present_frame present_flip take_frame take_flip
  present_multicast-stale live ready whole =
      let swap = present-swap s.board.frames two in
      let again = present-swap (present s.board.frames) swap.2 in
      (ground (arith, live, ready, swap.0), ground (arith, live, ready, whole, swap.1, again.0))
