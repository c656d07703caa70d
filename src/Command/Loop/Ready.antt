-- ===== src/Command/Loop/Ready.antt =====
-- What the network and the presentation leave of the display and of the receiver: buffers of their
-- sizes, so that no datagram whose offset and payload do not add up to 2 ^ 32 writes outside them.
use pixel_multiverse_firmwar.Prelude.{
  ℕ, ◌+◌, ◌^◌, ◌<◌, ◌≡◌, refl, subst, ap, sym, ◌∙◌, Bool, true, false, ◌&&◌, not, Option, none,
  some, List, [], ◌∷◌, length, if◌then◌else◌, All, arith,
}
use pixel_multiverse_firmwar.Display.Frames.{back}
use pixel_multiverse_firmwar.Display.Frames.Sizes.{length-back, present-IsSized, write_back-IsSized}
use pixel_multiverse_firmwar.Net.Multicast.{
  Receiver, Inflated, chunk_of, on_recv, take_frame, take_flip,
}
use pixel_multiverse_firmwar.Net.Multicast.Safety.{IsValid, zbuf_length, is_none, on_recv-in_bounds}
use pixel_multiverse_firmwar.Net.Multicast.Kept.{on_recv-back}
use pixel_multiverse_firmwar.Command.Handlers.{update}
use pixel_multiverse_firmwar.Command.Handlers.Sizes.{Fits}
use pixel_multiverse_firmwar.Command.Loop.{
  System, put_back, after_recv, present_frame, present_flip, present_multicast, deliver, wifi_poll,
}

-- A receiver whose scratch, if it has one, is of this size.
pub record IsFor (size : ℕ) (r : Receiver) : Type 0 where
  pub scratch : zbuf_length r.zbuf r.zbuf_cap ≡ r.zbuf_cap
  pub cap : zbuf_length r.zbuf size ≡ size
  pub has_scratch : (r.in_frame && (r.cur_zlib && is_none r.zbuf)) ≡ false

pub record IsReady (size : ℕ) (s : System) : Type 0 where
  pub fits : Fits size s.board
  pub receiving : IsFor size s.receiver

-- An offset and a payload that do not wrap; a null datagram is ignored.
abbrev pub InRange : Option (List ℕ) → Type 0
InRange none = Unit
InRange (some p) = (chunk_of p).off + length (chunk_of p).payload < 2 ^ 32

abbrev pub on_display : System → Receiver
on_display s = record s.receiver { back = back s.board.frames }

on_display-IsValid : (size : ℕ) (s : System) → IsReady size s → IsValid (on_display s)
on_display-IsValid size s v = record {
  scratch = v.receiving.scratch;
  same_size =
      subst (λ n. zbuf_length s.receiver.zbuf n ≡ n) (sym (length-back size s.board.frames v.fits))
        v.receiving.cap;
  has_scratch = v.receiving.has_scratch;
}

put_back-IsReady :
    (size : ℕ) (s : System) (r : Receiver)
    → IsReady size s
    → IsValid r
    → length r.back ≡ size
    → IsReady size (put_back s r)
put_back-IsReady size s r v w e = record {
  fits = write_back-IsSized size s.board.frames v.fits r.back e;
  receiving = record {
    scratch = w.scratch;
    cap = subst (λ n. zbuf_length r.zbuf n ≡ n) e w.same_size;
    has_scratch = w.has_scratch;
  };
}

module _ (size : ℕ) (s : System) (v : IsReady size s) where
  taken-IsFor : IsFor size (take_frame s.receiver).1
  unfolding take_frame
  taken-IsFor = record {
    scratch = ground (arith, v.receiving.scratch);
    cap = ground (arith, v.receiving.cap);
    has_scratch = ground (arith, v.receiving.has_scratch);
  }

  flipped-IsFor : IsFor size (take_flip s.receiver).1
  unfolding take_flip
  flipped-IsFor = record {
    scratch = ground (arith, v.receiving.scratch);
    cap = ground (arith, v.receiving.cap);
    has_scratch = ground (arith, v.receiving.has_scratch);
  }

  update_if-Fits : (t : Bool) → Fits size (if t then update s.board else s.board)
  update_if-Fits true = present-IsSized size s.board.frames v.fits
  update_if-Fits false = v.fits

  present_frame-IsReady : IsReady size (present_frame s)
  unfolding present_frame
  present_frame-IsReady = record {
    fits = update_if-Fits ((take_frame s.receiver).0 && not s.board.deferred);
    receiving = taken-IsFor;
  }

  present_flip-IsReady : IsReady size (present_flip s)
  unfolding present_flip
  present_flip-IsReady = record {
    fits = update_if-Fits (take_flip s.receiver).0;
    receiving = flipped-IsFor;
  }

pub present_multicast-IsReady :
    (size : ℕ) (s : System) → IsReady size s → IsReady size (present_multicast s)
unfolding present_multicast
present_multicast-IsReady size s v =
    present_flip-IsReady size (present_frame s) (present_frame-IsReady size s v)

module _ (uncompress : List ℕ → List ℕ → Inflated)
    (keeps : (dest src : List ℕ) → length (uncompress dest src).dest ≡ length dest)
    (elapsed size : ℕ) where
  deliver-IsReady :
      (s : System) (p : Option (List ℕ))
      → IsReady size s
      → InRange p
      → (s' : System) × (deliver uncompress elapsed s p ≡ some s') × IsReady size s'
  unfolding deliver on_recv
  deliver-IsReady s none v h = (
    put_back s (on_display s),
    refl,
    put_back-IsReady size s (on_display s) v (on_display-IsValid size s v)
        (length-back size s.board.frames v.fits),
  )
  deliver-IsReady s (some p) v h =
      let w = on_display-IsValid size s v in
      let ran = on_recv-in_bounds uncompress keeps elapsed (on_display s) p w h in
      let kept = on_recv-back uncompress keeps elapsed (on_display s) ran.0 p ran.1 in
      (
        put_back s ran.0,
        ap (after_recv s) ran.1,
        put_back-IsReady size s ran.0 v ran.2 (kept ∙ length-back size s.board.frames v.fits),
      )

  -- No datagram of a poll whose offset and payload do not add up to 2 ^ 32 writes outside the buffers.
  pub wifi_poll-IsReady :
      (ps : List (Option (List ℕ))) (s : System)
      → IsReady size s
      → All InRange ps
      → (s' : System) × (wifi_poll uncompress elapsed (some s) ps ≡ some s') × IsReady size s'
  unfolding wifi_poll
  wifi_poll-IsReady [] s v h = (s, refl, v)
  wifi_poll-IsReady (p ∷ ps) s v h =
      let one = deliver-IsReady s p v h.0 in
      let rest = wifi_poll-IsReady ps one.0 one.2 h.1 in
      (rest.0, ap (λ t. wifi_poll uncompress elapsed t ps) one.1 ∙ rest.1, rest.2)
