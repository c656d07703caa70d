-- ===== src/Command/Machine/Safe.antt =====
-- The loop of the firmware and the buffers that its commands and the network write to, for datagrams
-- whose offset and payload do not add up to 2 ^ 32.
use pixel_multiverse_firmwar.Prelude.{
  ℕ, ◌+◌, ◌≤◌, ◌≡◌, refl, ap, ◌∙◌, Bool, true, false, Option, none, some, List, [], ◌∷◌, length,
  All, Bool-cases, inl, inr,
}
use pixel_multiverse_firmwar.Config.Store.Laws.{IsWellFormed}
use pixel_multiverse_firmwar.Config.Commands.Kept.{
  handle_get-fits, handle_put-IsWellFormed, handle_del-IsWellFormed,
  config_factory_reset-IsWellFormed,
}
use pixel_multiverse_firmwar.Config.Commands.Frames.{handle_keys-listing}
use pixel_multiverse_firmwar.Display.Canvas.{Draw}
use pixel_multiverse_firmwar.Display.Frames.Sizes.{present-IsSized}
use pixel_multiverse_firmwar.Command.Registry.{dispatch_from}
use pixel_multiverse_firmwar.Command.Handlers.{Board}
use pixel_multiverse_firmwar.Command.Handlers.Sizes.{
  Fits, draw-Fits, handle_data-Fits, handle_test-Fits, handle_zdat-Fits,
}
use pixel_multiverse_firmwar.Command.Reboots.{info}
use pixel_multiverse_firmwar.Command.Version.Whole.{handle_vers-whole}
use pixel_multiverse_firmwar.Command.Loop.{prefix, present_multicast}
use pixel_multiverse_firmwar.Command.Loop.Ready.{
  IsReady, InRange, present_multicast-IsReady, wifi_poll-IsReady,
}
use pixel_multiverse_firmwar.Command.Machine.{
  Handler, do_put, do_get, do_del, do_keys, do_data, do_zdat, do_test, do_flip, do_hold, do_live,
  do_vers, do_rst, do_usb, do_fac, table, Env, Machine, Link, Outcome, with_board, facts_of,
  read_bytes, polled_secondary, execute, call, dispatch, listen, Running, primary_timeout,
  check_secondary, after_primary, serve, round, is_halted, run,
}

-- What is used of the libraries and of the build: drawing and inflating keep the length of a buffer,
-- and the texts that `vers` reports are short.
pub record IsSound (e : Env) : Type 0 where
  pub paint_keeps : (calls : List Draw) (m : List ℕ) → length (e.display.paint calls m) ≡ length m
  pub uncompress_keeps : (dest src : List ℕ) → length (e.uncompress dest src).dest ≡ length dest
  pub short_ip : length e.facts.ip ≤ 15
  pub short_names : length e.facts.board_id + length e.facts.version ≤ 120

-- A transport gives at most as many bytes as it is asked for.
pub record IsBounded {T : Type 0} (l : Link T) : Type 0 where
  pub at_most : (n : ℕ) (t : T) → length (l.read n t).0 ≤ n

-- The buffers have the display's size, the receiver works for it, and the store is well formed.
pub record IsSafe (e : Env) (m : Machine) : Type 0 where
  pub ready : IsReady e.display.size m.system
  pub store : IsWellFormed m.device.store

module _ (e : Env) (sound : IsSound e) where
  with_board-IsSafe :
      (m : Machine) (b : Board) → IsSafe e m → Fits e.display.size b → IsSafe e (with_board m b)
  with_board-IsSafe m b v f = record {
    ready = record { fits = f; receiving = v.ready.receiving };
    store = v.store;
  }

  module _ {T : Type 0} (l : Link T) (bounded : IsBounded l) where
    abbrev Safely : Outcome T → Type 0
    Safely o = (out : Machine × T × List ℕ) × (o ≡ some out) × IsSafe e out.0

    drawn :
        (m : Machine) (letters : List ℕ)
        → IsSafe e m
        → Fits e.display.size (info e.display l.read letters m.system.board)
    drawn m letters v =
        draw-Fits e.display l.read sound.paint_keeps bounded.at_most (e.display.info_calls letters)
          m.system.board v.ready.fits

    execute-IsSafe : (h : Handler) (m : Machine) (t : T) → IsSafe e m → Safely (execute e l h m t)
    unfolding execute
    execute-IsSafe do_put m t v =
        let put = handle_put-IsWellFormed e.ops e.crc (read_bytes e l) m.device t v.store in
        rw (put.1) (_, refl, record { ready = v.ready; store = put.2 })
    execute-IsSafe do_get m t v =
        let got = handle_get-fits e.ops e.crc (read_bytes e l) m.device t in rw (got.1) (_, refl, v)
    execute-IsSafe do_del m t v =
        let del = handle_del-IsWellFormed e.ops e.crc (read_bytes e l) m.device t v.store in
        rw (del.1) (_, refl, record { ready = v.ready; store = del.2 })
    execute-IsSafe do_keys m t v = rw ((handle_keys-listing m.device.store).0) (_, refl, v)
    execute-IsSafe do_data m t v = (
      _,
      refl,
      with_board-IsSafe m _ v (
          handle_data-Fits e.display l.read sound.paint_keeps bounded.at_most m.system.board t
            v.ready.fits),
    )
    execute-IsSafe do_zdat m t v =
        let inflated =
          handle_zdat-Fits e.display l.read sound.paint_keeps bounded.at_most e.uncompress e.malloc
            sound.uncompress_keeps m.system.board t v.ready.fits in
        rw (inflated.1) (_, refl, with_board-IsSafe m _ v inflated.2)
    execute-IsSafe do_test m t v = (
      _,
      refl,
      with_board-IsSafe m _ v (
          handle_test-Fits e.display l.read sound.paint_keeps bounded.at_most m.system.board t
            v.ready.fits),
    )
    execute-IsSafe do_flip m t v = (
      _,
      refl,
      with_board-IsSafe m _ v (present-IsSized e.display.size m.system.board.frames v.ready.fits),
    )
    execute-IsSafe do_hold m t v = (_, refl, with_board-IsSafe m _ v v.ready.fits)
    execute-IsSafe do_live m t v = (_, refl, with_board-IsSafe m _ v v.ready.fits)
    execute-IsSafe do_vers m t v =
        let whole =
          handle_vers-whole (facts_of e.facts m.system.receiver) sound.short_ip sound.short_names in
        rw whole (_, refl, v)
    execute-IsSafe do_rst m t v = (
      _,
      refl,
      record {
        ready = record { fits = drawn m _ v; receiving = v.ready.receiving };
        store = v.store;
      },
    )
    execute-IsSafe do_usb m t v = (
      _,
      refl,
      record {
        ready = record { fits = drawn m _ v; receiving = v.ready.receiving };
        store = v.store;
      },
    )
    execute-IsSafe do_fac m t v = (
      _,
      refl,
      record {
        ready = record { fits = drawn m _ v; receiving = v.ready.receiving };
        store = config_factory_reset-IsWellFormed e.ops e.overlaps m.device v.store;
      },
    )

    call-IsSafe : (h : Option Handler) (m : Machine) (t : T) → IsSafe e m → Safely (call e l h m t)
    call-IsSafe none m t v = ((m, t, []), refl, v)
    call-IsSafe (some h) m t v = execute-IsSafe h m t v

    listen-IsSafe :
        (timeout : ℕ) (m : Machine) (t : T) → IsSafe e m → Safely (listen e l timeout m t).1
    unfolding listen dispatch
    listen-IsSafe timeout m t v =
        let w = l.wait_for timeout prefix t in
        let h = dispatch_from l.read table w.1 in
        elim (Bool-cases w.0) [
          | inl heard ↦ rw heard (call-IsSafe h.0 m h.1 v)
          | inr nothing ↦ rw nothing ((m, w.1, []), refl, v)
        ]

  module _ {T U : Type 0} (first : Link T) (second : Link U) (one : IsBounded first)
      (two : IsBounded second) where
    abbrev Keeps : Option (Running T U) → Type 0
    Keeps o = (s' : Running T U) × (o ≡ some s') × IsSafe e s'.machine

    check_secondary-IsSafe :
        (s : Running T U) (u : Option U)
        → IsSafe e s.machine
        → Keeps (check_secondary e first second s u)
    check_secondary-IsSafe s none v = (s, refl, v)
    check_secondary-IsSafe s (some u) v =
        let out = listen-IsSafe second two 0 s.machine u v in rw (out.1) (_, refl, out.2)

    after_primary-IsSafe :
        (s : Running T U) (heard : Bool) (o : Outcome T) (out : Machine × T × List ℕ)
        → o ≡ some out
        → IsSafe e s.machine
        → IsSafe e out.0
        → Keeps (after_primary e first second s heard o)
    after_primary-IsSafe s true o out ran v w = rw ran (_, refl, w)
    after_primary-IsSafe s false o out ran v w =
        rw ran (check_secondary-IsSafe (record s { primary = out.1 }) s.secondary v)

    serve-IsSafe : (s : Running T U) → IsSafe e s.machine → Keeps (serve e first second s)
    unfolding serve
    serve-IsSafe s v =
        let m : Machine = record s.machine { system = present_multicast s.machine.system } in
        let v' : IsSafe e m = record {
          ready = present_multicast-IsReady e.display.size s.machine.system v.ready;
          store = v.store;
        } in
        let timeout = primary_timeout e first second s.secondary in
        let out = listen-IsSafe first one timeout m s.primary v' in
        after_primary-IsSafe (record s { machine = m }) (listen e first timeout m s.primary).0
          (listen e first timeout m s.primary).1 out.0 out.1 v' out.2

    round-IsSafe :
        (ps : List (Option (List ℕ))) (s : Running T U)
        → All InRange ps
        → IsSafe e s.machine
        → Keeps (round e first second ps s)
    unfolding round
    round-IsSafe ps s h v =
        let got =
          wifi_poll-IsReady e.uncompress sound.uncompress_keeps e.elapsed e.display.size ps
            s.machine.system v.ready h in
        rw (got.1) (
          serve-IsSafe
            (record s {
              machine = record s.machine { system = got.0 };
              primary = first.poll s.primary;
              secondary = polled_secondary e first second s.secondary;
            })
            (record { ready = got.2; store = v.store }))

    -- From a machine whose buffers have the display's size and whose store is well formed, and for
    -- datagrams whose offset and payload do not add up to 2 ^ 32: however many rounds the loop runs,
    -- and whatever bytes the two transports bring, nothing is written behind the end of key[8] and
    -- value[64] of the k/v commands, of the text of `keys` or of `vers`, of the buffers of `zdat`, or
    -- of the frame and the scratch that datagrams are copied to, and the machine stays such a one. It
    -- is used that drawing and inflating keep the length of a buffer, that the texts of `vers` are
    -- short, and that a read gives at most what it is asked for.
    pub run-IsSafe :
        (polls : List (List (Option (List ℕ)))) (s : Running T U)
        → All (All InRange) polls
        → IsSafe e s.machine
        → (s' : Running T U) × (run e first second polls (some s) ≡ some s') × IsSafe e s'.machine
    unfolding run
    run-IsSafe [] s h v = (s, refl, v)
    run-IsSafe (ps ∷ polls) s h v = elim (Bool-cases (is_halted e first second s)) [
      | inl stopped ↦ rw stopped (s, refl, v)
      | inr running ↦
          let out = round-IsSafe ps s h.0 v in
          let rest = run-IsSafe polls out.0 h.1 out.2 in
          rw running (rest.0, ap (run e first second polls) out.1 ∙ rest.1, rest.2)
    ]
