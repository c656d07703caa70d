-- ===== src/Command/Tests.antt =====
-- The registry, and the frame handlers on a display of two bytes.
pub mod Machine
use pixel_multiverse_firmwar.Prelude.{
  inl, to_le16, ◌++◌, ◌&&◌, if◌then◌else◌, ℕ, ◌≤◌, ◌≡◌, ◌⊎◌, refl, Bool, true, false, not, ◌||◌,
  some, List, [], ◌∷◌, leb, length, take, drop, bytes_eq, ascii, arith,
}
use pixel_multiverse_firmwar.Display.Frames.{shown, back, double, buffer}
use pixel_multiverse_firmwar.Net.Multicast.{Inflated}
use pixel_multiverse_firmwar.Command.Registry.{max_commands, lookup, is_some, register_command}
use pixel_multiverse_firmwar.Command.Registry.Laws.{register_command-refused}
use pixel_multiverse_firmwar.Command.Handlers.{
  Display, Board, handle_data, handle_zdat, handle_flip,
}
use pixel_multiverse_firmwar.Command.Handlers.Presents.{
  handle_data-live, handle_data-held, handle_zdat-whole,
}
use pixel_multiverse_firmwar.Command.Loop.{System, present_frame, present_flip, present_multicast}
use pixel_multiverse_firmwar.Net.Multicast.{seen}
use pixel_multiverse_firmwar.Net.Multicast.Arrival.{frame_datagram}
use pixel_multiverse_firmwar.Command.Loop.{wifi_poll}
use pixel_multiverse_firmwar.Command.Loop.Shown.{present_multicast-wifi_poll}
use pixel_multiverse_firmwar.Command.Loop.Sync.{present_multicast-held, present_multicast-stale}
use pixel_multiverse_firmwar.Command.Version.{Facts, handle_vers, full_text}
use pixel_multiverse_firmwar.Command.Version.Whole.{handle_vers-whole}

-- Handlers named by numbers.
abbrev table : List (List ℕ × ℕ)
table = (ascii "data", 1) ∷ (ascii "flip", 2) ∷ []

register_command-refused_example :
    (length (register_command (ascii "data") 3 table).1 ≤ max_commands)
    × ((register_command (ascii "data") 3 table).0
        ≡ not (leb max_commands (length table) || is_some (lookup (ascii "data") table)))
    × (((register_command (ascii "data") 3 table).0 ≡ true)
        ⊎ ((register_command (ascii "data") 3 table).1 ≡ table))
register_command-refused_example = register_command-refused (ascii "data") 3 table (omega arith)

abbrev pub little : Display
little = record {
  size = 2;
  info_calls = λ letters. [];
  test_calls = λ id. [];
  paint = λ calls old. old;
}

-- A transport whose bytes are all there.
abbrev pub read : ℕ → List ℕ → List ℕ × List ℕ
read n t = (take n t, drop n t)

abbrev board : Bool → Board
board held = record {
  deferred = held;
  frames = record { first = 0 ∷ 0 ∷ []; second = some (0 ∷ 0 ∷ []); front = false };
}

abbrev pub keep : List ℕ → List ℕ → Inflated
keep dest src = record { z_ok = true; dlen = 2; dest = src }

board-double : (held : Bool) → double (board held).frames ≡ true
unfolding double
board-double held = refl

handle_data-held_example :
    (shown (handle_data little read (board true) (8 ∷ [])).0.frames ≡ shown (board true).frames)
    × (shown (handle_flip (handle_data little read (board true) (8 ∷ [])).0).frames ≡ 8 ∷ 0 ∷ [])
handle_data-held_example =
    handle_data-held little read (board true) (8 ∷ []) refl (board-double true)

abbrev sent : List ℕ
sent = 2 ∷ 0 ∷ 0 ∷ 0 ∷ 8 ∷ 9 ∷ []

handle_zdat-whole_example :
    (r : Board × List ℕ) × (handle_zdat little read keep (λ n. true) (board false) sent ≡ some r)
    × ((shown r.0.frames ≡ shown (board false).frames)
        ⊎ ((compressed : List ℕ) × ((keep (back (board false).frames) compressed).z_ok ≡ true)
            × ((keep (back (board false).frames) compressed).dlen ≡ 2)
            × (shown r.0.frames ≡ (keep (back (board false).frames) compressed).dest)))
handle_zdat-whole_example =
    handle_zdat-whole little read keep (λ n. true) (board false) sent (board-double false) refl

-- A frame that has come whole into the back buffer.
abbrev pub loaded : Bool → System
loaded held = record {
  board = record {
    deferred = held;
    frames = record { first = 1 ∷ 1 ∷ []; second = some (2 ∷ 2 ∷ []); front = false };
  };
  receiver = record {
    cur_fid = 7;
    in_frame = false;
    done_fid = 7;
    have_done = true;
    cur_zlib = false;
    seen_off = 0 ∷ [];
    received = 2;
    frame_ready = true;
    flip_ready = held;
    back_complete = true;
    zbuf = some (0 ∷ 0 ∷ []);
    zbuf_cap = 2;
    back = 2 ∷ 2 ∷ [];
    stat_frames = 1;
    stat_dropped = 0;
    stat_dmax_us = 0;
    stat_flip_ok = 0;
    stat_flip_gate = 0;
  };
}

loaded-double : (held : Bool) → double (loaded held).board.frames ≡ true
unfolding double
loaded-double held = refl

present_multicast-held_example : shown (present_multicast (loaded true)).board.frames ≡ (
    if (loaded true).receiver.flip_ready && (loaded true).receiver.back_complete
    then back (loaded true).board.frames
    else shown (loaded true).board.frames)
present_multicast-held_example = present_multicast-held (loaded true) (loaded-double true) refl

present_multicast-stale_example :
    let s' = present_frame (loaded false) in
    (shown s'.board.frames ≡ back (loaded false).board.frames)
    × (shown
          (present_flip
            (record s' { receiver = record s'.receiver { flip_ready = true } })).board.frames
        ≡ shown (loaded false).board.frames)
present_multicast-stale_example =
    present_multicast-stale (loaded false) (loaded-double false) refl refl refl

abbrev pub facts : Facts
facts = record {
  board_id = ascii "i75-rp2350";
  version = ascii "v0.1.0";
  width = 256;
  height = 64;
  size = 65536;
  enabled = true;
  connected = true;
  ip = ascii "192.168.1.20";
  frames = 7;
  dropped = 0;
  dmax_us = 4100;
  flip_ok = 3;
  flip_gate = 1;
}

handle_vers-whole_example :
    handle_vers facts ≡ some (to_le16 (length (full_text facts)) ++ full_text facts)
handle_vers-whole_example = handle_vers-whole facts (omega arith) (omega arith)

-- zlib's stand-in gives its input twice; the frame comes in one datagram, which comes twice.
abbrev twice : List ℕ → List ℕ → Inflated
twice dest src = record { z_ok = true; dlen = length (src ++ src); dest = src ++ src }

present_multicast-wifi_poll_example :
    (s' : System) × (wifi_poll twice 40 (some (loaded false)) (
        some (frame_datagram true 8 1 (0, 5 ∷ []))
        ∷ some (frame_datagram true 8 1 (0, 5 ∷ []))
        ∷ [])
      ≡ some s')
    × (shown (present_multicast s').board.frames ≡ 5 ∷ 5 ∷ [])
unfolding seen back buffer
present_multicast-wifi_poll_example =
    present_multicast-wifi_poll twice 40 true 8 ((5 ∷ []) ∷ []) ((0, 5 ∷ []) ∷ (0, 5 ∷ []) ∷ [])
      (5 ∷ 5 ∷ []) (loaded false) (omega arith) (omega arith, omega arith) (omega arith, tt)
      (omega arith) refl refl refl (refl, 0 ∷ 0 ∷ [], refl, refl, omega arith)
      (inl (refl, refl), (inl (refl, refl), tt)) (refl, tt) refl (loaded-double false) refl
