-- ===== src/Usb/Cdc.antt =====
-- The USB transport of src/command/usb_cdc_transport.cpp over `cdc_task` of src/cdc_uart.cpp. TinyUSB
-- keeps the bytes that came in a queue; the list of polls is what each call of tud_task() before the
-- deadline adds to it. The deadline is reached when the list is at its end.
pub mod Stream
use pixel_multiverse_firmwar.Prelude.{
  ℕ, zero, suc, ◌+◌, ◌-◌, Bool, true, false, Option, none, some, List, [], ◌∷◌, ◌++◌, ltb, ◌==◌,
  if◌then◌else◌, length, take, drop, due, put_off,
}

abbrev pub max_uart_packet : ℕ
max_uart_packet = 64

-- `cdc_task` on a connected port: the bytes read, and the queue after it.
abbrev pub cdc_task : List ℕ → ℕ → List ℕ × List ℕ
cdc_task queue n = (take n queue, drop n queue)

abbrev pub Source : Type 0
Source = List ℕ × List (List ℕ)

-- The inner loop of `wait_for`: the next byte, or none at the deadline.
unfoldable pub first_byte : List ℕ → List (List ℕ) → Option ℕ × Source
first_byte [] ps = (none, ([], ps))
first_byte (x ∷ queue) ps = (some x, (queue, ps))

abbrev pub or_next : Option ℕ × Source → Option ℕ × Source → Option ℕ × Source
or_next (none, s) next = next
or_next (some x, s) next = (some x, s)

unfoldable pub next_byte : List ℕ → List (List ℕ) → Option ℕ × Source
unfolding first_byte
next_byte queue [] = first_byte queue []
next_byte queue (p ∷ ps) = let rest = next_byte [] ps in or_next (first_byte (queue ++ p) ps) rest

-- What a round of `wait_for` does with its byte; `rest` is what the next rounds give.
unfoldable pub after_byte : Option ℕ → ℕ → Bool × Source → Source → Bool × Source
after_byte none c rest s = (false, s)
after_byte (some x) c rest s = if x == c then rest else (false, s)

-- for (auto expected_char : data), stopping at a byte that differs.
unfoldable pub wait_for : List ℕ → Source → Bool × Source
unfolding next_byte after_byte
wait_for [] s = (true, s)
wait_for (c ∷ cs) s =
    let n = next_byte s.0 s.1 in let rest = wait_for cs n.1 in after_byte n.0 c rest n.1

abbrev pub min_of : ℕ → ℕ → ℕ
min_of a b = if ltb a b then a else b

-- A round of `read` takes up to 64 bytes; there is one for each poll until `len` bytes are there.
unfoldable pub read : ℕ → List ℕ → List (List ℕ) → List ℕ × Source
read len queue [] = ([], (queue, []))
read len queue (p ∷ ps) =
    let c = cdc_task (queue ++ p) (min_of len max_uart_packet) in
    let rest = read (len - length c.0) c.1 ps in
    if len == 0 then ([], (queue, p ∷ ps)) else (c.0 ++ rest.0, rest.1)

-- The port between two calls: the queue, and for each call what the polls before its deadline bring.
abbrev pub Port : Type 0
Port = List ℕ × List (List (List ℕ))

abbrev pub joined : List (List ℕ) → List ℕ
joined [] = []
joined (p ∷ ps) = p ++ joined ps

abbrev pub port_poll : Port → Port
port_poll s = (s.0 ++ joined (due s.1), put_off [] s.1)

unfoldable pub port_wait_for : List ℕ → Port → Bool × Port
unfolding wait_for
port_wait_for pattern s =
    let w = wait_for pattern (s.0, due s.1) in (w.0, (w.1.0, put_off w.1.1 s.1))

unfoldable pub port_read : ℕ → Port → List ℕ × Port
unfolding read
port_read len s = let r = read len s.0 (due s.1) in (r.0, (r.1.0, put_off r.1.1 s.1))

-- The rounds of the command loop, a poll and a wait each, up to the first that finds the pattern. A
-- wait that ends at its deadline gives false as one that hears another byte does.
unfoldable pub wait_rounds : ℕ → List ℕ → Port → Bool × Port
unfolding port_wait_for
wait_rounds zero pattern s = (false, s)
wait_rounds (suc n) pattern s =
    let w = port_wait_for pattern (port_poll s) in
    let rest = wait_rounds n pattern w.1 in if w.0 then w else rest
