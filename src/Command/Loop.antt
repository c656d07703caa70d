-- ===== src/Command/Loop.antt =====
-- The part of `run` in src/command/command_core.cpp that polls the network and presents what came
-- over it. The board is the display with the multicast receiver, whose back buffer is the display's.
-- None is a write outside a buffer. `Command.Machine` has the rest of the loop.
pub mod Sync
pub mod Ready
pub mod Shown
use pixel_multiverse_firmwar.Prelude.{
  ℕ, Bool, true, false, ◌&&◌, not, Option, none, some, List, [], ◌∷◌, if◌then◌else◌, ascii,
}
use pixel_multiverse_firmwar.Display.Frames.{back, write_back}
use pixel_multiverse_firmwar.Net.Multicast
use pixel_multiverse_firmwar.Net.Multicast.{Receiver, Inflated, take_frame, take_flip}
use pixel_multiverse_firmwar.Command.Registry.{dispatch_from}
use pixel_multiverse_firmwar.Command.Handlers.{Board, update}

pub record System : Type 0 where
  pub board : Board
  pub receiver : Receiver

abbrev pub prefix : List ℕ
prefix = ascii "multiverse:"

-- What the receive callback does with a datagram, on the display's own back buffer.
abbrev pub put_back : System → Receiver → System
put_back s r = record {
  board = record s.board { frames = write_back s.board.frames r.back };
  receiver = r;
}

abbrev pub after_recv : System → Option Receiver → Option System
after_recv s none = none
after_recv s (some r) = some (put_back s r)

-- net::multicast_take_frame() with its test of `deferred`
unfoldable pub present_frame : System → System
unfolding take_frame
present_frame s =
    let t = take_frame s.receiver in
    record {
      board = if t.0 && not s.board.deferred then update s.board else s.board;
      receiver = t.1;
    }

-- net::multicast_take_flip()
unfoldable pub present_flip : System → System
unfolding take_flip
present_flip s =
    let t = take_flip s.receiver in
    record { board = if t.0 then update s.board else s.board; receiver = t.1 }

unfoldable pub present_multicast : System → System
unfolding present_frame present_flip
present_multicast s = present_flip (present_frame s)

module _ (uncompress : List ℕ → List ℕ → Inflated) (elapsed : ℕ) where
  unfoldable pub deliver : System → Option (List ℕ) → Option System
  unfolding Multicast.on_recv
  deliver s p =
      after_recv s
        (Multicast.on_recv uncompress elapsed (record s.receiver { back = back s.board.frames }) p)

  -- The datagrams that one poll of the network brings.
  unfoldable pub wifi_poll : Option System → List (Option (List ℕ)) → Option System
  unfolding deliver
  wifi_poll none ps = none
  wifi_poll (some s) [] = some s
  wifi_poll (some s) (p ∷ ps) = wifi_poll (deliver s p) ps
