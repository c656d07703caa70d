-- ===== src/Command/Machine/OverUdp.antt =====
-- The loop behind the UDP transport.
use pixel_multiverse_firmwar.Prelude.{
  ℕ, ◌≡◌, List, ◌++◌, ◌==◌, if◌then◌else◌, Bool, true, [], ascii, arith, Bool-cases, inl, inr, due,
  put_off,
}
use pixel_multiverse_firmwar.Net.Udp
use pixel_multiverse_firmwar.Net.Udp.{Ring, Polls}
use pixel_multiverse_firmwar.Net.Udp.Queue.{IsValid, view}
use pixel_multiverse_firmwar.Net.Udp.Sizes.{length-read-le}
use pixel_multiverse_firmwar.Net.Udp.Arrived.{
  read-IsValid, wait_for-IsValid, read-arrived, wait_for-arrived, absorb, absorb-grows,
}
use pixel_multiverse_firmwar.Command.Loop.{prefix}
use pixel_multiverse_firmwar.Command.Machine.{Link}
use pixel_multiverse_firmwar.Command.Machine.Safe.{IsBounded}
use pixel_multiverse_firmwar.Command.Machine.Dialogue.{IsStream}

module _ (rb : ℕ) where
  -- The ring, and for each call that polls what the polls before its deadline bring.
  pub record Line : Type 0 where
    pub ring : Ring
    pub valid : IsValid rb ring
    pub visits : List Polls

  -- cyw43_arch_poll()
  unfoldable pub line_poll : Line → Line
  unfolding absorb
  line_poll l = record {
    ring = absorb rb l.ring (due l.visits);
    valid = (absorb-grows rb (due l.visits) l.ring l.valid).0;
    visits = put_off [] l.visits;
  }

  unfoldable pub line_read : ℕ → Line → List ℕ × Line
  unfolding Udp.read
  line_read n l =
      let m = Udp.read rb n l.ring (due l.visits) in
      (
        m.0,
        record {
          ring = m.1;
          valid = read-IsValid rb n l.ring (due l.visits) l.valid;
          visits = put_off m.2 l.visits;
        },
      )

  -- A wait with no time drains the ring and does not poll.
  unfoldable pub line_wait_for : ℕ → List ℕ → Line → Bool × Line
  unfolding Udp.wait_for
  line_wait_for timeout pattern l =
      let drained = Udp.wait_for rb pattern l.ring [] in
      let w = Udp.wait_for rb pattern l.ring (due l.visits) in
      if timeout == 0
      then (
        drained.0,
        record {
          ring = drained.1;
          valid = wait_for-IsValid rb pattern l.ring [] l.valid;
          visits = l.visits;
        },
      )
      else (
        w.0,
        record {
          ring = w.1;
          valid = wait_for-IsValid rb pattern l.ring (due l.visits) l.valid;
          visits = put_off w.2 l.visits;
        },
      )

  abbrev pub udp_link : Link Line
  udp_link = record { read = line_read; wait_for = line_wait_for; poll = line_poll }

  pub udp_link-IsBounded : IsBounded udp_link
  unfolding line_read
  udp_link-IsBounded = record { at_most = λ n l. length-read-le rb n l.ring (due l.visits) }

  abbrev pub arrived : Line → List ℕ
  arrived l = view rb l.ring

  line_wait_for-arrived :
      (timeout : ℕ) (l : Line) (rest : List ℕ)
      → arrived l ≡ prefix ++ rest
      → ((line_wait_for timeout prefix l).0 ≡ true)
        × (arrived (line_wait_for timeout prefix l).1 ≡ rest)
  unfolding line_wait_for
  line_wait_for-arrived timeout l rest e =
      let hears = λ (ps : Polls).
        wait_for-arrived rb b'm' (ascii "ultiverse:") rest l.ring ps (omega arith) l.valid e in
      elim (Bool-cases (timeout == 0)) [
        | inl at_once ↦ rw at_once (hears [])
        | inr later ↦ rw later (hears (due l.visits))
      ]

  pub udp_link-IsStream : IsStream udp_link arrived
  unfolding line_read line_poll
  udp_link-IsStream = record {
    takes = λ n l there. (read-arrived rb n l.ring (due l.visits) l.valid there).0;
    drops = λ n l there. (read-arrived rb n l.ring (due l.visits) l.valid there).1;
    hears = line_wait_for-arrived;
    grows = λ l. (absorb-grows rb (due l.visits) l.ring l.valid).1;
  }
