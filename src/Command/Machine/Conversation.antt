-- ===== src/Command/Machine/Conversation.antt =====
-- A host that stores a setting and asks for it, over two rounds of the firmware's loop.
use pixel_multiverse_firmwar.Prelude.{
  ℕ, ◌≤◌, ◌≡◌, refl, ap, ◌∙◌, true, false, Option, some, List, [], ◌∷◌, ◌++◌, length, All,
  append_assoc, ◌>>=◌,
}
use pixel_multiverse_firmwar.Config.Device.{Device, config_put}
use pixel_multiverse_firmwar.Config.Store
use pixel_multiverse_firmwar.Config.Commands.{is_secret_key, status}
use pixel_multiverse_firmwar.Config.Commands.Wire.{
  get_frame, put_frame, padded, handle_put-stream, handle_get-stream, config_put-store,
  get-config_put,
}
use pixel_multiverse_firmwar.Command.Loop.{prefix}
use pixel_multiverse_firmwar.Command.Loop.Ready.{IsReady, InRange}
use pixel_multiverse_firmwar.Command.Machine.Safe.{IsSound, IsSafe}
use pixel_multiverse_firmwar.Command.Machine.{
  do_put, do_get, Env, Link, read_bytes, Machine, polled_secondary, heard_secondary, execute,
  Running, round, is_halted, run,
}
use pixel_multiverse_firmwar.Command.Machine.Table.{id_of}
use pixel_multiverse_firmwar.Command.Machine.Dialogue.{
  IsStream, read_bytes-takes, read_bytes-drops, waited, round-stream, run-round,
}

-- A key and a value that a host may send, the key not a secret one.
pub record IsOpen (key value : List ℕ) : Type 0 where
  pub key_fits : (1 ≤ length key) × (length key ≤ 8)
  pub value_fits : length value ≤ 64
  pub open_key : is_secret_key key (length key) ≡ false

-- The bytes of a `put` and of a `get`, with their prefix and id.
abbrev pub put_message : List ℕ → List ℕ → List ℕ → List ℕ
put_message key value rest = prefix ++ (id_of do_put ++ (put_frame key value ++ rest))

abbrev pub get_message : List ℕ → List ℕ → List ℕ
get_message key rest = prefix ++ (id_of do_get ++ (get_frame key ++ rest))

get_message-append :
    (key rest more : List ℕ) → get_message key rest ++ more ≡ get_message key (rest ++ more)
get_message-append key rest more =
    append_assoc prefix (id_of do_get ++ (get_frame key ++ rest)) more
    ∙ ap (λ t. prefix ++ t)
        (append_assoc (id_of do_get) (get_frame key ++ rest) more
          ∙ ap (λ t. id_of do_get ++ t) (append_assoc (get_frame key) rest more))

-- Nothing is heard on the primary transport in two rounds, a poll and a wait each.
pub record IsQuiet {T : Type 0} (l : Link T) (t : T) : Type 0 where
  pub now : (l.wait_for 5 prefix (l.poll t)).0 ≡ false
  pub later : (l.wait_for 5 prefix (l.poll (l.wait_for 5 prefix (l.poll t)).1)).0 ≡ false

module _ {T U : Type 0} (e : Env) (sound : IsSound e) (first : Link T) (second : Link U)
    (stream : U → List ℕ) (whole : IsStream second stream) where
  waited-linked :
      (s : Running T U) (u : U)
      → s.secondary ≡ some u
      → waited e first second s ≡ first.wait_for 5 prefix (first.poll s.primary)
  waited-linked s u linked = rw linked refl

  -- A round with a `put` that the store accepts.
  round-put_message :
      (ps : List (Option (List ℕ))) (s : Running T U) (u : U) (key value rest : List ℕ)
      → All InRange ps
      → IsReady e.display.size s.machine.system
      → (waited e first second s).0 ≡ false
      → s.secondary ≡ some u
      → IsOpen key value
      → (Store.put s.machine.device.store key value (length value)).0 ≡ true
      → stream (second.poll u) ≡ put_message key value rest
      → (s' : Running T U) × (round e first second ps s ≡ some s')
        × IsReady e.display.size s'.machine.system
        × (is_halted e first second s' ≡ is_halted e first second s)
        × (s'.primary ≡ (waited e first second s).1)
        × (s'.to_secondary ≡ s.to_secondary ++ (1 ∷ []))
        × (u' : U) × (s'.secondary ≡ some u')
        × (more : List ℕ) × (stream u' ≡ rest ++ more)
        × (s'.machine.device ≡ (config_put e.ops e.crc s.machine.device key value (length value)).1)
  unfolding execute
  round-put_message ps s u key value rest in_range ready quiet linked k accepted sent =
      let takes = read_bytes-takes e second stream whole in
      let drops = read_bytes-drops e second stream whole in
      let (x, ready', t, left, ran) =
        round-stream e sound first second stream whole ps do_put s u (put_frame key value ++ rest)
          in_range ready quiet linked sent in
      let answer =
        handle_put-stream (read_bytes e second) stream takes drops e.ops e.crc s.machine.device t
          key value rest k.key_fits.0 k.key_fits.1 k.value_fits left in
      let stored =
        config_put-store (read_bytes e second) stream takes drops e.ops e.crc s.machine.device key
          value (length value) in
      let m : Machine = record s.machine { system = x } in
      let between : Running T U = record s {
        machine = m;
        primary = (waited e first second s).1;
        secondary = polled_secondary e first second s.secondary;
      } in
      (
        _,
        ran
            ∙ ap
                (λ o.
                  heard_secondary e first second between
                    (o >>= λ r. some (record m { device = r.1 }, r.2, r.0)))
                answer.1,
        ready',
        refl,
        refl,
        ap (λ ok. s.to_secondary ++ status ok) (stored.0 ∙ accepted),
        answer.0,
        refl,
        answer.2.0,
        answer.2.1,
        refl,
      )

  -- A round with a `get` of a key that has this value.
  round-get_message :
      (ps : List (Option (List ℕ))) (s : Running T U) (u : U) (key value rest : List ℕ)
      → All InRange ps
      → IsReady e.display.size s.machine.system
      → (waited e first second s).0 ≡ false
      → s.secondary ≡ some u
      → IsOpen key value
      → Store.get s.machine.device.store key ≡ some (padded value, length value)
      → stream (second.poll u) ≡ get_message key rest
      → (s' : Running T U) × (round e first second ps s ≡ some s')
        × (s'.to_secondary ≡ s.to_secondary ++ (1 ∷ length value ∷ value))
        × (u' : U) × (s'.secondary ≡ some u')
        × (more : List ℕ) × (stream u' ≡ rest ++ more)
  unfolding execute
  round-get_message ps s u key value rest in_range ready quiet linked k found sent =
      let takes = read_bytes-takes e second stream whole in
      let drops = read_bytes-drops e second stream whole in
      let (x, ready', t, left, ran) =
        round-stream e sound first second stream whole ps do_get s u (get_frame key ++ rest)
          in_range ready quiet linked sent in
      let answer =
        handle_get-stream (read_bytes e second) stream takes drops s.machine.device t key value rest
          k.key_fits k.value_fits k.open_key found left in
      let m : Machine = record s.machine { system = x } in
      let between : Running T U = record s {
        machine = m;
        primary = (waited e first second s).1;
        secondary = polled_secondary e first second s.secondary;
      } in
      (
        _,
        ran
            ∙ ap (λ o. heard_secondary e first second between (o >>= λ r. some (m, r.1, r.0)))
                answer.1,
        refl,
        answer.0,
        refl,
        answer.2.0,
        answer.2.1,
      )

  -- Over a secondary transport whose reads and waits take what has arrived, with a primary one that
  -- hears nothing in two rounds, a machine that is safe and not about to reboot, and whatever datagrams
  -- the two polls of the network bring to the receiver, as long as the offset and the payload of each
  -- do not add up to 2 ^ 32: when the first round's poll has brought a `put` and then a `get` of the
  -- same key, each behind the prefix, the key of one to eight bytes and not secret and the value of at
  -- most 64, the two rounds answer with 1, and with 1 and the value behind its length, where the store
  -- takes the value; and what was sent behind them waits in front of what came since.
  pub run-put_message :
      (ps qs : List (Option (List ℕ))) (s : Running T U) (u : U) (key value rest : List ℕ)
      → All InRange ps × All InRange qs
      → IsSafe e s.machine
      → is_halted e first second s ≡ false
      → IsQuiet first s.primary
      → s.secondary ≡ some u
      → IsOpen key value
      → (Store.put s.machine.device.store key value (length value)).0 ≡ true
      → stream (second.poll u) ≡ put_message key value (get_message key rest)
      → (s' : Running T U) × (run e first second (ps ∷ qs ∷ []) (some s) ≡ some s')
        × (s'.to_secondary ≡ (s.to_secondary ++ (1 ∷ [])) ++ (1 ∷ length value ∷ value))
        × (u' : U) × (s'.secondary ≡ some u')
        × (more : List ℕ) × (stream u' ≡ rest ++ more)
  unfolding run
  run-put_message ps qs s u key value rest in_range safe going quiet linked k accepted sent =
      let silent = ap (λ w. w.0) (waited-linked s u linked) ∙ quiet.now in
      let (s1, ran, ready, halted, left_of, told, u1, linked1, more, left, stored) =
        round-put_message ps s u key value (get_message key rest) in_range.0 safe.ready silent
          linked k accepted sent in
      let found : Store.get s1.machine.device.store key ≡ some (padded value, length value) =
        ap (λ (d : Device). Store.get d.store key) stored
        ∙ get-config_put (read_bytes e second) stream (read_bytes-takes e second stream whole)
            (read_bytes-drops e second stream whole) e.ops e.crc s.machine.device key value
            safe.store accepted in
      let silent1 =
        ap (λ w. w.0) (waited-linked s1 u1 linked1)
        ∙ (ap (λ t. (first.wait_for 5 prefix (first.poll t)).0)
              (left_of ∙ ap (λ w. w.1) (waited-linked s u linked))
            ∙ quiet.later) in
      let came = whole.grows u1 in
      let waiting : stream (second.poll u1) ≡ get_message key (rest ++ (more ++ came.0)) =
        came.1
        ∙ (ap (λ t. t ++ came.0) (left ∙ get_message-append key rest more)
            ∙ (get_message-append key (rest ++ more) came.0
                ∙ ap (get_message key) (append_assoc rest more came.0))) in
      let (s2, ran', told', u2, linked2, last, left') =
        round-get_message qs s1 u1 key value (rest ++ (more ++ came.0)) in_range.1 ready silent1
          linked1 k found waiting in
      (
        s2,
        run-round e first second ps s s1 (qs ∷ []) going ran
            ∙ run-round e first second qs s1 s2 [] (halted ∙ going) ran',
        told' ∙ ap (λ a. a ++ (1 ∷ length value ∷ value)) told,
        u2,
        linked2,
        (more ++ came.0) ++ last,
        left' ∙ append_assoc rest (more ++ came.0) last,
      )
