-- ===== src/Command/Machine/Dialogue.antt =====
-- What a host hears over a transport where a command has arrived behind the prefix: it is dispatched,
-- and what was sent behind it waits for the next round.
use pixel_multiverse_firmwar.Prelude.{
  ◌≤◌, length, length-append, take_long, arith, ℕ, ◌≡◌, Bool, refl, ap, ◌∙◌, true, false, Option,
  some, List, ◌∷◌, ◌++◌, take, drop, All, take-append, drop-append,
}
use pixel_multiverse_firmwar.Command.Registry.{lookup, dispatch_from}
use pixel_multiverse_firmwar.Command.Loop.{System, prefix, present_multicast}
use pixel_multiverse_firmwar.Command.Loop.Ready.{
  IsReady, InRange, present_multicast-IsReady, wifi_poll-IsReady,
}
use pixel_multiverse_firmwar.Command.Machine.Safe.{IsSound}
use pixel_multiverse_firmwar.Command.Machine.{
  Handler, table, Env, Machine, Link, execute, dispatch, listen, Running, primary_timeout,
  read_bytes, polled_secondary, heard_secondary, check_secondary, serve, round, is_halted, run,
}
use pixel_multiverse_firmwar.Command.Machine.Table.{id_of, length-id_of, lookup-table}

-- A transport over the bytes that have arrived at it: its reads and waits that they suffice for leave
-- the rest of them, and a poll only adds to them.
pub record IsStream {T : Type 0} (l : Link T) (arrived : T → List ℕ) : Type 0 where
  pub takes : (n : ℕ) (t : T) → n ≤ length (arrived t) → (l.read n t).0 ≡ take n (arrived t)
  pub drops : (n : ℕ) (t : T) → n ≤ length (arrived t) → arrived (l.read n t).1 ≡ drop n (arrived t)
  pub hears :
      (timeout : ℕ) (t : T) (rest : List ℕ)
      → arrived t ≡ prefix ++ rest
      → ((l.wait_for timeout prefix t).0 ≡ true) × (arrived (l.wait_for timeout prefix t).1 ≡ rest)
  pub grows : (t : T) → (more : List ℕ) × (arrived (l.poll t) ≡ arrived t ++ more)

module _ {T : Type 0} (e : Env) (l : Link T) (stream : T → List ℕ) (whole : IsStream l stream) where
  -- The reads of the k/v commands, each behind a poll.
  pub read_bytes-takes :
      (n : ℕ) (t : T) → n ≤ length (stream t) → (read_bytes e l n t).0 ≡ take n (stream t)
  read_bytes-takes n t there =
      let g = whole.grows t in
      let long : n ≤ length (stream (l.poll t)) =
        omega (arith, there, ap length g.1, length-append (stream t) g.0) in
      whole.takes n (l.poll t) long ∙ (ap (take n) g.1 ∙ (take_long n (stream t) g.0 there).0)

  pub read_bytes-drops :
      (n : ℕ) (t : T)
      → n ≤ length (stream t)
      → (more : List ℕ) × (stream (read_bytes e l n t).1 ≡ drop n (stream t) ++ more)
  read_bytes-drops n t there =
      let g = whole.grows t in
      let long : n ≤ length (stream (l.poll t)) =
        omega (arith, there, ap length g.1, length-append (stream t) g.0) in
      (
        g.0,
        whole.drops n (l.poll t) long ∙ (ap (drop n) g.1 ∙ (take_long n (stream t) g.0 there).1),
      )

  dispatch_from-stream :
      (h : Handler) (t : T) (rest : List ℕ)
      → stream t ≡ id_of h ++ rest
      → ((dispatch_from l.read table t).0 ≡ some h)
        × (stream (dispatch_from l.read table t).1 ≡ rest)
  unfolding dispatch_from
  dispatch_from-stream h t rest sent =
      let there : 4 ≤ length (stream t) =
        omega (arith, ap length sent, length-append (id_of h) rest, length-id_of h) in
      let got : (l.read 4 t).0 ≡ id_of h =
        whole.takes 4 t there
        ∙ (ap (take 4) sent ∙ take-append 4 (id_of h) rest (length-id_of h)) in
      let found : lookup (id_of h) table ≡ some h = (lookup-table (id_of h) h).1 refl in
      (
        rw (got, length-id_of h, found) refl,
        whole.drops 4 t there ∙ (ap (drop 4) sent ∙ drop-append 4 (id_of h) rest (length-id_of h)),
      )

  -- The command that comes next is executed, on the transport behind its id.
  pub listen-stream :
      (timeout : ℕ) (h : Handler) (m : Machine) (t : T) (rest : List ℕ)
      → stream t ≡ prefix ++ (id_of h ++ rest)
      → (t' : T) × (listen e l timeout m t ≡ (true, execute e l h m t')) × (stream t' ≡ rest)
  unfolding listen dispatch
  listen-stream timeout h m t rest sent =
      let w = l.wait_for timeout prefix t in
      let heard = whole.hears timeout t (id_of h ++ rest) sent in
      let found = dispatch_from-stream h w.1 rest heard.1 in
      ((dispatch_from l.read table w.1).1, rw (heard.0, found.0) refl, found.1)

-- A round of a machine that is not about to reboot.
pub run-round :
    {T U : Type 0} (e : Env) (first : Link T) (second : Link U) (ps : List (Option (List ℕ)))
    (s s' : Running T U) (polls : List (List (Option (List ℕ))))
    → is_halted e first second s ≡ false
    → round e first second ps s ≡ some s'
    → run e first second (ps ∷ polls) (some s) ≡ run e first second polls (some s')
unfolding run
run-round e first second ps s s' polls going ran = rw going (ap (run e first second polls) ran)

-- The poll and the wait of the primary transport in a round.
abbrev pub waited : {T U : Type 0} → Env → Link T → Link U → Running T U → Bool × T
waited e first second s =
    first.wait_for (primary_timeout e first second (polled_secondary e first second s.secondary))
      prefix (first.poll s.primary)

module _ {T U : Type 0} (e : Env) (sound : IsSound e) (first : Link T) (second : Link U)
    (stream : U → List ℕ) (whole : IsStream second stream) where
  -- A round in which nothing is heard on the primary transport executes the command that comes next
  -- on the secondary one, whatever the poll brings.
  pub round-stream :
      (ps : List (Option (List ℕ))) (h : Handler) (s : Running T U) (u : U) (rest : List ℕ)
      → All InRange ps
      → IsReady e.display.size s.machine.system
      → (waited e first second s).0 ≡ false
      → s.secondary ≡ some u
      → stream (second.poll u) ≡ prefix ++ (id_of h ++ rest)
      → (x : System) × IsReady e.display.size x
        × (u' : U) × (stream u' ≡ rest)
        × (round e first second ps s
            ≡ heard_secondary e first second
                (record s {
                  machine = record s.machine { system = x };
                  primary = (waited e first second s).1;
                  secondary = polled_secondary e first second s.secondary;
                })
                (execute e second h (record s.machine { system = x }) u'))
  unfolding round serve listen
  round-stream ps h s u rest in_range ready quiet linked sent =
      let got =
        wifi_poll-IsReady e.uncompress sound.uncompress_keeps e.elapsed e.display.size ps
          s.machine.system ready in_range in
      let x = present_multicast got.0 in
      let m : Machine = record s.machine { system = x } in
      let s' : Running T U = record s {
        machine = m;
        primary = (waited e first second s).1;
        secondary = polled_secondary e first second s.secondary;
      } in
      let linked' = ap (polled_secondary e first second) linked in
      let heard = listen-stream e second stream whole 0 h m (second.poll u) rest sent in
      (
        x,
        present_multicast-IsReady e.display.size got.0 got.2,
        heard.0,
        heard.2,
        rw (got.1, quiet)
            (ap (check_secondary e first second s') linked'
              ∙ ap (λ w. heard_secondary e first second s' w.1) heard.1),
      )
