-- ===== src/Command/Machine.antt =====
-- The firmware as a whole: the handlers of src/command/command_core.cpp and src/config/kv_commands.cpp
-- behind the command table, and the loop of `run`. A handler is named by a constructor; what it gives
-- is the machine, the transport behind what it read, and the bytes that it wrote to the transport.
-- None is a write behind the end of a buffer: key[8] and value[64] of the k/v commands, the text of
-- `keys` or of `vers`, the buffers of `zdat`, and the frame or the scratch that a datagram is copied
-- to. A reboot ends the loop.
pub mod Table
pub mod Safe
pub mod Dialogue
pub mod OverUdp
pub mod Conversation
pub mod OverUsb
use pixel_multiverse_firmwar.Prelude.{
  ℕ, Bool, true, false, Option, none, some, List, [], ◌∷◌, ◌++◌, if◌then◌else◌, ascii, ◌>>=◌,
}
use pixel_multiverse_firmwar.Config.Flash.{FlashOps}
use pixel_multiverse_firmwar.Config.Device.{Device}
use pixel_multiverse_firmwar.Config.Commands.{handle_get, handle_put, handle_del, handle_keys}
use pixel_multiverse_firmwar.Net.Multicast.{Inflated, Receiver}
use pixel_multiverse_firmwar.Command.Registry.{register_each, dispatch_from}
use pixel_multiverse_firmwar.Command.Handlers.{
  Display, Board, handle_data, handle_zdat, handle_test, handle_flip, handle_hold, handle_live,
}
use pixel_multiverse_firmwar.Command.Reboots.{Reboot, handle_rst, handle_usb, handle_fac}
use pixel_multiverse_firmwar.Command.Version.{Facts, handle_vers}
use pixel_multiverse_firmwar.Command.Loop.{System, prefix, present_multicast, wifi_poll}

pub data Handler : Type 0 where
  do_put : Handler
  do_get : Handler
  do_del : Handler
  do_keys : Handler
  do_data : Handler
  do_zdat : Handler
  do_test : Handler
  do_flip : Handler
  do_hold : Handler
  do_live : Handler
  do_vers : Handler
  do_rst : Handler
  do_usb : Handler
  do_fac : Handler

-- kv::register_commands
abbrev pub register_commands : List (List ℕ × Handler) → List (List ℕ × Handler)
register_commands = register_each (
    (ascii "put ", do_put)
    ∷ (ascii "get ", do_get)
    ∷ (ascii "del ", do_del)
    ∷ (ascii "keys", do_keys)
    ∷ [])

-- The table is as it was when `done` is set.
abbrev pub register_builtins : Bool → List (List ℕ × Handler) → List (List ℕ × Handler)
register_builtins true entries = entries
register_builtins false entries =
    register_each
      ((ascii "data", do_data)
        ∷ (ascii "zdat", do_zdat)
        ∷ (ascii "test", do_test)
        ∷ (ascii "flip", do_flip)
        ∷ (ascii "hold", do_hold)
        ∷ (ascii "live", do_live)
        ∷ (ascii "vers", do_vers)
        ∷ (ascii "_rst", do_rst)
        ∷ (ascii "_usb", do_usb)
        ∷ (ascii "_fac", do_fac)
        ∷ [])
      entries

-- The table that the loop runs with: main registers the k/v commands before `run`.
abbrev pub table : List (List ℕ × Handler)
table = register_builtins false (register_commands [])

-- What the firmware is built and linked with, and what the network says of itself.
pub record Env : Type 0 where
  pub display : Display
  pub uncompress : List ℕ → List ℕ → Inflated
  pub elapsed : ℕ
  pub malloc : ℕ → Bool
  pub ops : FlashOps
  pub crc : List ℕ → ℕ
  pub overlaps : Bool
  pub facts : Facts

pub record Machine : Type 0 where
  pub system : System
  pub device : Device
  pub halted : Option Reboot

-- The calls of the Transport interface that give bytes; `wait_for` takes its timeout first.
pub record Link (T : Type 0) : Type 0 where
  pub read : ℕ → T → List ℕ × T
  pub wait_for : ℕ → List ℕ → T → Bool × T
  pub poll : T → T

abbrev pub Outcome : Type 0 → Type 0
Outcome T = Option (Machine × T × List ℕ)

abbrev pub with_board : Machine → Board → Machine
with_board m b = record m { system = record m.system { board = b } }

-- What `vers` reports, the counters from the receiver.
abbrev pub facts_of : Facts → Receiver → Facts
facts_of f r = record f {
  frames = r.stat_frames;
  dropped = r.stat_dropped;
  dmax_us = r.stat_dmax_us;
  flip_ok = r.stat_flip_ok;
  flip_gate = r.stat_flip_gate;
}

module _ {T : Type 0} (e : Env) (l : Link T) where
  -- `read_bytes` of the k/v commands
  abbrev pub read_bytes : ℕ → T → List ℕ × T
  read_bytes n t = l.read n (l.poll t)

  unfoldable pub execute : Handler → Machine → T → Outcome T
  unfolding handle_put handle_get handle_del handle_keys handle_data handle_zdat handle_test
      handle_fac handle_vers
  execute do_put m t = do
    r ← handle_put read_bytes e.ops e.crc m.device t
    some (record m { device = r.1 }, r.2, r.0)
  execute do_get m t = do r ← handle_get read_bytes m.device t; some (m, r.1, r.0)
  execute do_del m t = do
    r ← handle_del read_bytes e.ops e.crc m.device t
    some (record m { device = r.1 }, r.2, r.0)
  execute do_keys m t = do bytes ← handle_keys m.device.store; some (m, t, bytes)
  execute do_data m t =
      let r = handle_data e.display l.read m.system.board t in some (with_board m r.0, r.1, [])
  execute do_zdat m t = do
    r ← handle_zdat e.display l.read e.uncompress e.malloc m.system.board t
    some (with_board m r.0, r.1, [])
  execute do_test m t =
      let r = handle_test e.display l.read m.system.board t in some (with_board m r.0, r.1, [])
  execute do_flip m t = some (with_board m (handle_flip m.system.board), t, [])
  execute do_hold m t = some (with_board m (handle_hold m.system.board), t, [])
  execute do_live m t = some (with_board m (handle_live m.system.board), t, [])
  execute do_vers m t = do
    bytes ← handle_vers (facts_of e.facts m.system.receiver)
    some (m, t, bytes)
  execute do_rst m t =
      let r = handle_rst e.display l.read m.system.board in
      some (record (with_board m r.0) { halted = some r.1 }, t, [])
  execute do_usb m t =
      let r = handle_usb e.display l.read m.system.board in
      some (record (with_board m r.0) { halted = some r.1 }, t, [])
  execute do_fac m t =
      let r = handle_fac e.display l.read e.ops e.overlaps m.system.board m.device in
      some (record (with_board m r.0) { device = r.1; halted = some r.2 }, t, [])

  -- An id that is not in the table is no command.
  abbrev pub call : Option Handler → Machine → T → Outcome T
  call none m t = some (m, t, [])
  call (some handler) m t = execute handler m t

  -- dispatch_from
  unfoldable pub dispatch : Machine → T → Outcome T
  unfolding execute dispatch_from
  dispatch m t = let h = dispatch_from l.read table t in call h.0 m h.1

  -- A wait for the prefix, and the command behind it.
  unfoldable pub listen : ℕ → Machine → T → Bool × Outcome T
  unfolding dispatch
  listen timeout m t =
      let w = l.wait_for timeout prefix t in
      (w.0, if w.0 then dispatch m w.1 else some (m, w.1, []))

-- The machine between two rounds of the loop, with its transports and what was written to each.
pub record Running (T U : Type 0) : Type 0 where
  pub machine : Machine
  pub primary : T
  pub secondary : Option U
  pub to_primary : List ℕ
  pub to_secondary : List ℕ

module _ {T U : Type 0} (e : Env) (first : Link T) (second : Link U) where
  abbrev pub primary_timeout : Option U → ℕ
  primary_timeout none = 1000
  primary_timeout (some u) = 5

  abbrev pub heard_primary : Running T U → Outcome T → Option (Running T U)
  heard_primary s none = none
  heard_primary s (some (m, t, bytes)) =
      some (record s { machine = m; primary = t; to_primary = s.to_primary ++ bytes })

  abbrev pub heard_secondary : Running T U → Outcome U → Option (Running T U)
  heard_secondary s none = none
  heard_secondary s (some (m, u, bytes)) =
      some (record s { machine = m; secondary = some u; to_secondary = s.to_secondary ++ bytes })

  -- The check of the secondary transport, which waits for nothing.
  abbrev pub check_secondary : Running T U → Option U → Option (Running T U)
  check_secondary s none = some s
  check_secondary s (some u) = heard_secondary s (listen e second 0 s.machine u).1

  abbrev pub after_primary : Running T U → Bool → Outcome T → Option (Running T U)
  after_primary s true out = heard_primary s out
  after_primary s false none = none
  after_primary s false (some (m, t, bytes)) =
      check_secondary (record s { primary = t }) s.secondary

  -- A round after its polls.
  unfoldable pub serve : Running T U → Option (Running T U)
  unfolding listen present_multicast
  serve s =
      let m = record s.machine { system = present_multicast s.machine.system } in
      let w = listen e first (primary_timeout s.secondary) m s.primary in
      after_primary (record s { machine = m }) w.0 w.1

  abbrev pub polled : Running T U → Option System → Option (Running T U)
  polled s none = none
  polled s (some system) = serve (record s { machine = record s.machine { system = system } })

  -- The poll of the network fills the secondary transport's buffer.
  abbrev pub polled_secondary : Option U → Option U
  polled_secondary none = none
  polled_secondary (some u) = some (second.poll u)

  -- `datagrams` is what the poll of the network brings to the multicast receiver.
  unfoldable pub round : List (Option (List ℕ)) → Running T U → Option (Running T U)
  unfolding serve wifi_poll
  round datagrams s =
      let s' : Running T U = record s {
        primary = first.poll s.primary;
        secondary = polled_secondary s.secondary;
      } in
      polled s' (wifi_poll e.uncompress e.elapsed (some s.machine.system) datagrams)

  abbrev pub is_halted : Running T U → Bool
  is_halted s = elim s.machine.halted [ none ↦ false | some r ↦ true ]

  -- The loop, for as many rounds as there are polls in the list, or up to a reboot.
  unfoldable pub run : List (List (Option (List ℕ))) → Option (Running T U) → Option (Running T U)
  unfolding round
  run polls none = none
  run [] (some s) = some s
  run (datagrams ∷ polls) (some s) =
      let next = run polls (round datagrams s) in if is_halted s then some s else next
