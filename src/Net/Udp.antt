-- ===== src/Net/Udp.antt =====
-- The UDP command transport of src/net/udp_transport.cpp: a ring of bytes that the receive callback
-- fills and `read` and `wait_for` drain. `rb` is the ring's size RB. The list of polls is what the
-- calls of cyw43_arch_poll() before the deadline bring: for each, the segments of the datagrams whose
-- callback runs in it. The deadline is reached when the list is at its end.
pub mod Queue
pub mod Stream
pub mod Matching
pub mod Channel
pub mod Sizes
pub mod Arrived
use pixel_multiverse_firmwar.Prelude.{
  ℕ, zero, suc, ◌+◌, ◌-◌, ◌*◌, ◌%◌, ◌^◌, Bool, true, false, not, ◌||◌, Option, none, some, List, [],
  ◌∷◌, ◌++◌, ◌==◌, if◌then◌else◌, length, get_or, set, take,
}

abbrev pub ring_bytes : ℕ
ring_bytes = 72 * 1024

pub record Ring : Type 0 where
  pub buf : List ℕ
  pub head : ℕ
  pub count : ℕ

abbrev pub Polls : Type 0
Polls = List (List (List ℕ))

-- How many bytes of the pattern are matched after the byte `c`.
abbrev pub matched : List ℕ → ℕ → ℕ → ℕ
matched pattern idx c =
    if c == get_or pattern idx 0 then idx + 1 else (if c == get_or pattern 0 0 then 1 else 0)

module _ (rb : ℕ) where
  -- A full ring drops the tail of the burst.
  unfoldable pub push : Ring → List ℕ → Ring
  push r [] = r
  push r (d ∷ ds) =
      if r.count == rb
      then r
      else push (record r { buf = set r.buf ((r.head + r.count) % rb) d; count = r.count + 1 }) ds

  unfoldable pub pop : Ring → ℕ × Ring
  pop r = (get_or r.buf r.head 0, record r { head = (r.head + 1) % rb; count = r.count - 1 })

  -- The segments of one chain of buffers, or of all that one poll brings.
  unfoldable pub receive : Ring → List (List ℕ) → Ring
  unfolding push
  receive r [] = r
  receive r (q ∷ qs) = receive (push r q) qs

  -- while (count_ > 0): up to a full match, `n` being the count.
  unfoldable pub drain_match : List ℕ → ℕ → ℕ → Ring → ℕ × Ring
  unfolding pop
  drain_match pattern zero idx r = (idx, r)
  drain_match pattern (suc n) idx r =
      let idx' = matched pattern idx (pop r).0 in
      let rest = drain_match pattern n idx' (pop r).1 in
      if idx' == length pattern then (idx', (pop r).1) else rest

  unfoldable pub wait_loop : List ℕ → ℕ → Ring → Polls → Bool × Ring × Polls
  unfolding drain_match receive
  wait_loop pattern idx r [] =
      let m = drain_match pattern r.count idx r in (m.0 == length pattern, m.1, [])
  wait_loop pattern idx r (p ∷ ps) =
      let m = drain_match pattern r.count idx r in
      let rest = wait_loop pattern m.0 (receive m.1 p) ps in
      if m.0 == length pattern then (true, m.1, p ∷ ps) else rest

  unfoldable pub wait_for : List ℕ → Ring → Polls → Bool × Ring × Polls
  unfolding wait_loop
  wait_for [] r ps = (true, r, ps)
  wait_for (c ∷ cs) r ps = wait_loop (c ∷ cs) 0 r ps

  -- while (count_ > 0 && got < len), `want` being len - got and `n` the count.
  unfoldable pub drain : ℕ → ℕ → Ring → List ℕ × Ring
  unfolding pop
  drain zero n r = ([], r)
  drain (suc want) zero r = ([], r)
  drain (suc want) (suc n) r = let rest = drain want n (pop r).1 in ((pop r).0 ∷ rest.0, rest.1)

  -- The bytes that came, in front of the zeros that the buffer holds, and their number is `got`.
  unfoldable pub read : ℕ → Ring → Polls → List ℕ × Ring × Polls
  unfolding drain receive
  read len r [] = let m = drain len r.count r in (m.0, m.1, [])
  read len r (p ∷ ps) =
      let m = drain len r.count r in
      let rest = read (len - length m.0) (receive m.1 p) ps in
      if length m.0 == len then (m.0, m.1, p ∷ ps) else (m.0 ++ rest.0, rest.1, rest.2)

-- The peer that answers go to: on_recv sets it with each datagram.
pub record Peer : Type 0 where
  pub address : ℕ
  pub port : ℕ

pub record Transport : Type 0 where
  pub ring : Ring
  pub bound : Bool
  pub peer : Option Peer

-- The callback; null for no datagram.
unfoldable pub on_recv : ℕ → Transport → Option (List (List ℕ)) → Peer → Transport
unfolding receive
on_recv rb t none from = t
on_recv rb t (some chain) from = record t { ring = receive rb t.ring chain; peer = some from }

-- `write`: what goes out and to whom, and the number that it returns. `alloc` is whether pbuf_alloc
-- succeeds and `sent` whether udp_sendto does; the length is cast to 16 bits for both.
unfoldable pub write : (ℕ → Bool) → Bool → Transport → List ℕ → Option (Peer × List ℕ) × ℕ
write alloc sent t buffer =
    let n = length buffer % 2 ^ 16 in
    elim t.peer [
      | none ↦ (none, 0)
      | some to ↦
          if not t.bound || not (alloc n)
          then (none, 0)
          else (some (to, take n buffer), if sent then length buffer else 0)
    ]
