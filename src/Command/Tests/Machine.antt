-- ===== src/Command/Tests/Machine.antt =====
-- The loop on a display of two bytes, with a host on the primary transport and a frame in the back
-- buffer.
use pixel_multiverse_firmwar.Prelude.{
  ℕ, ◌≡◌, ◌↔◌, refl, true, false, Option, none, some, List, [], ◌∷◌, ◌++◌, ◌&&◌, replicate, length,
  take, drop, ascii, arith, All, bytes_eq, if◌then◌else◌,
}
use pixel_multiverse_firmwar.Config.Tests.{one-accepted, ram, checksum, blank, empty-IsWellFormed}
use pixel_multiverse_firmwar.Config.Device.{power_on}
use pixel_multiverse_firmwar.Display.Frames.{buffer, double, back, present, write_back}
use pixel_multiverse_firmwar.Net.Multicast.{chunk_of}
use pixel_multiverse_firmwar.Net.Multicast.Arrival.{datagram}
use pixel_multiverse_firmwar.Command.Registry.{lookup, register_command}
use pixel_multiverse_firmwar.Command.Loop.{prefix}
use pixel_multiverse_firmwar.Command.Loop.Ready.{InRange}
use pixel_multiverse_firmwar.Command.Machine.{
  do_fac, Env, Machine, Link, Running, table, is_halted, run,
}
use pixel_multiverse_firmwar.Command.Machine.Safe.{IsSound, IsSafe, run-IsSafe}
use pixel_multiverse_firmwar.Command.Machine.OverUdp.{
  Line, arrived, udp_link-IsStream, udp_link, udp_link-IsBounded, line_poll, line_wait_for,
  line_read,
}
use pixel_multiverse_firmwar.Config.Store.{put, find, find_in}
use pixel_multiverse_firmwar.Config.Device.{config_put}
use pixel_multiverse_firmwar.Config.Commands.{put_under, is_secret_key}
use pixel_multiverse_firmwar.Command.Machine.Conversation.{
  put_message, get_message, IsOpen, IsQuiet, run-put_message,
}
use pixel_multiverse_firmwar.Net.Udp.Queue.{window}
use pixel_multiverse_firmwar.Command.Machine.OverUsb.{usb_link, usb_link-IsBounded}
use pixel_multiverse_firmwar.Usb.Cdc.{Port, port_wait_for}
use pixel_multiverse_firmwar.Command.Machine.Table.{id_of, lookup-table}
use pixel_multiverse_firmwar.Command.Tests.{little, read, loaded, facts}

abbrev pub env : Env
env = record {
  display = little;
  uncompress = λ dest src. record { z_ok = true; dlen = length dest; dest = dest };
  elapsed = 40;
  malloc = λ n. true;
  ops = ram;
  crc = checksum;
  overlaps = false;
  facts = facts;
}

pub env-IsSound : IsSound env
env-IsSound = record {
  paint_keeps = λ calls m. refl;
  uncompress_keeps = λ dest src. refl;
  short_ip = omega arith;
  short_names = omega arith;
}

-- A transport whose bytes are all there, in step with the prefix.
abbrev link : Link (List ℕ)
link = record {
  read = read;
  wait_for = λ timeout word t. (
    bytes_eq (take (length word) t) word,
    if bytes_eq (take (length word) t) word then drop (length word) t else [],
  );
  poll = λ t. t;
}

abbrev machine : Machine
machine = record { system = loaded false; device = power_on blank; halted = none }

machine-IsSafe : IsSafe env machine
unfolding buffer
machine-IsSafe = record {
  ready = record {
    fits = record { first_size = refl; second_size = refl };
    receiving = record { scratch = refl; cap = refl; has_scratch = refl };
  };
  store = empty-IsWellFormed;
}

-- A frame to the one transport, a reboot to the other.
abbrev start : Running (List ℕ) (List ℕ)
start = record {
  machine = machine;
  primary = prefix ++ (ascii "data" ++ (8 ∷ 9 ∷ []));
  secondary = some (prefix ++ ascii "_rst");
  to_primary = [];
  to_secondary = [];
}

abbrev pub polls : List (List (Option (List ℕ)))
polls = [] ∷ (some (datagram 8 2 (0, 5 ∷ 6 ∷ [])) ∷ none ∷ []) ∷ [] ∷ []

pub polls-InRange : All (All InRange) polls
unfolding chunk_of
polls-InRange = (tt, ((omega arith, (tt, tt)), (tt, tt)))

-- The frame of the network is shown, and then the message of the reboot over the one before it.
run_test :
    elim (run env link link polls (some start)) [
      | none ↦ false
      | some s ↦
          is_halted env link link s && bytes_eq (back s.machine.system.board.frames) (5 ∷ 6 ∷ [])
    ]
    ≡ true
unfolding run bytes_eq lookup buffer double register_command back present write_back
run_test = refl

-- The transports of the firmware: USB with a frame, and UDP with a `put` and a `get` in a datagram that
-- the poll of the loop's first round brings.
abbrev hello : List ℕ
hello = put_message (ascii "hi") (ascii "x") (get_message (ascii "hi") [])

abbrev pub line : Line 64
line = record {
  ring = record { buf = replicate 64 0; head = 0; count = 0 };
  valid = record { size = refl; head_in = omega arith; room = omega arith };
  visits = (((hello ∷ []) ∷ []) ∷ []);
}

abbrev both : List ℕ → Running Port (Line 64)
both queue = record {
  machine = machine;
  primary = (queue, []);
  secondary = some line;
  to_primary = [];
  to_secondary = [];
}

-- The first round hears the `put` and answers it.
udp_test :
    elim (run env usb_link (udp_link 64) ([] ∷ []) (some (both []))) [
      | none ↦ []
      | some s ↦ s.to_secondary
    ]
    ≡ 1 ∷ []
unfolding run bytes_eq lookup register_command put find find_in config_put port_wait_for line_poll
    line_wait_for line_read put_under
udp_test = refl

idle-IsQuiet : IsQuiet usb_link ([], [])
unfolding port_wait_for
idle-IsQuiet = record { now = refl; later = refl }

hi-IsOpen : IsOpen (ascii "hi") (ascii "x")
unfolding is_secret_key bytes_eq
hi-IsOpen = record {
  key_fits = (omega arith, omega arith);
  value_fits = omega arith;
  open_key = refl;
}

hello-arrives : arrived 64 ((udp_link 64).poll line) ≡ hello
unfolding line_poll window
hello-arrives = refl

run-put_message_example :
    (s' : Running Port (Line 64)) × (run env usb_link
        (udp_link 64)
        ((some (datagram 8 2 (0, 5 ∷ 6 ∷ [])) ∷ none ∷ []) ∷ [] ∷ [])
        (some (both []))
      ≡ some s')
    × (s'.to_secondary ≡ 1 ∷ 1 ∷ 1 ∷ ascii "x")
    × (l : Line 64) × (s'.secondary ≡ some l)
    × (more : List ℕ) × (arrived 64 l ≡ more)
run-put_message_example =
    run-put_message env env-IsSound usb_link (udp_link 64) (arrived 64) (udp_link-IsStream 64)
      (some (datagram 8 2 (0, 5 ∷ 6 ∷ [])) ∷ none ∷ []) [] (both []) line (ascii "hi") (ascii "x")
      [] (polls-InRange.1.0, tt) machine-IsSafe refl idle-IsQuiet refl hi-IsOpen one-accepted
      hello-arrives

run-IsSafe_example :
    let s = both (prefix ++ (ascii "data" ++ (8 ∷ 9 ∷ []))) in
    (s' : Running Port (Line 64)) × (run env usb_link (udp_link 64) polls (some s) ≡ some s')
    × IsSafe env s'.machine
run-IsSafe_example =
    run-IsSafe env env-IsSound usb_link (udp_link 64) usb_link-IsBounded (udp_link-IsBounded 64)
      polls (both (prefix ++ (ascii "data" ++ (8 ∷ 9 ∷ [])))) polls-InRange machine-IsSafe

lookup-table_example : (lookup (ascii "_fac") table ≡ some do_fac) ↔ (ascii "_fac" ≡ id_of do_fac)
lookup-table_example = lookup-table (ascii "_fac") do_fac
