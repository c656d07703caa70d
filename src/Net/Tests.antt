-- ===== src/Net/Tests.antt =====
-- The receiver at concrete datagrams: a whole frame, the same frame twice, and an offset that wraps;
-- and the UDP transport with a ring of four bytes.
use pixel_multiverse_firmwar.Prelude.{
  ◌*◌, ◌++◌, map, inl, inr, ◌^◌, ◌-◌, take, drop, ascii, ℕ, ◌≡◌, refl, true, false, none, some,
  List, [], ◌∷◌, length, arith, bytes_eq,
}
use pixel_multiverse_firmwar.Net.Multicast.{
  Receiver, Inflated, Chunk, on_chunk, on_recv, chunk_of, take_flip, start_frame, flags_of,
  enter_frame, seen,
}
use pixel_multiverse_firmwar.Net.Multicast.Safety.{IsValid, on_recv-in_bounds, on_recv-overflow}
use pixel_multiverse_firmwar.Net.Multicast.Flip.{on_chunk-again, take_flip-gated}
use pixel_multiverse_firmwar.Net.Multicast.Arrival.{
  datagram, frame_datagram, receive_all, on_recv-rebuilds, on_recv-inflates,
}
use pixel_multiverse_firmwar.Net.Udp.{Ring, Polls, read, wait_for}
use pixel_multiverse_firmwar.Net.Udp.Queue
use pixel_multiverse_firmwar.Net.Udp.Stream.{stream, NoBurst, read-stream}
use pixel_multiverse_firmwar.Net.Udp.Matching.{after, outcome, wait_for-stream}
use pixel_multiverse_firmwar.Net.Settings.{port_setting}

abbrev idle : Receiver
idle = record {
  cur_fid = 0;
  in_frame = false;
  done_fid = 0;
  have_done = false;
  cur_zlib = false;
  seen_off = [];
  received = 0;
  frame_ready = false;
  flip_ready = false;
  back_complete = false;
  zbuf = some (0 ∷ 0 ∷ 0 ∷ 0 ∷ []);
  zbuf_cap = 4;
  back = 0 ∷ 0 ∷ 0 ∷ 0 ∷ [];
  stat_frames = 0;
  stat_dropped = 0;
  stat_dmax_us = 0;
  stat_flip_ok = 0;
  stat_flip_gate = 0;
}

idle-IsValid : IsValid idle
idle-IsValid = record { scratch = refl; same_size = refl; has_scratch = refl }

abbrev keep : List ℕ → List ℕ → Inflated
keep dest src = record { z_ok = true; dlen = length dest; dest = dest }

-- Frame 1, raw, four bytes in all.
abbrev whole : List ℕ
whole = datagram 1 4 (0, 9 ∷ 8 ∷ 7 ∷ 6 ∷ [])

abbrev wrapped : List ℕ
wrapped = datagram 1 4 (2 ^ 32 - 4, 9 ∷ 8 ∷ 7 ∷ 6 ∷ 5 ∷ 4 ∷ 3 ∷ 2 ∷ [])

abbrev half : Chunk
half = record { fid = 1; zlib = false; total = 4; off = 0; payload = 9 ∷ 8 ∷ [] }

abbrev half_way : Receiver
half_way = record idle {
  cur_fid = 1;
  in_frame = true;
  seen_off = 0 ∷ [];
  received = 2;
  back = 9 ∷ 8 ∷ 0 ∷ 0 ∷ [];
}

on_recv-in_bounds_example :
    (r' : Receiver) × (on_recv keep 0 idle (some whole) ≡ some r') × IsValid r'
unfolding chunk_of
on_recv-in_bounds_example =
    on_recv-in_bounds keep (λ dest src. refl) 0 idle whole idle-IsValid (omega arith)

on_recv-overflow_example : on_recv keep 0 idle (some wrapped) ≡ none
unfolding bytes_eq flags_of chunk_of
on_recv-overflow_example =
    on_recv-overflow keep 0 idle wrapped (omega arith, refl) refl refl (omega arith) (omega arith)
      (omega arith) (refl, refl)

half_test : on_chunk keep 0 idle half ≡ some half_way
unfolding on_chunk
half_test = refl

on_chunk-again_example : on_chunk keep 0 half_way half ≡ some half_way
unfolding enter_frame
on_chunk-again_example = on_chunk-again keep 0 idle half_way half (omega arith) half_test

take_flip-gated_example :
    ((take_flip (record (take_flip (record idle { flip_ready = true })).1 { flip_ready = true })).0
      ≡ false)
    × ((take_flip (start_frame (record idle { flip_ready = true }) half)).0 ≡ false)
take_flip-gated_example = take_flip-gated (record idle { flip_ready = true }) half refl

-- A frame in two pieces; the second comes first, and twice.
abbrev pieces : List (List ℕ)
pieces = (9 ∷ 8 ∷ []) ∷ (7 ∷ 6 ∷ []) ∷ []

abbrev came : List (ℕ × List ℕ)
came = (2, 7 ∷ 6 ∷ []) ∷ (2, 7 ∷ 6 ∷ []) ∷ (0, 9 ∷ 8 ∷ []) ∷ []

on_recv-rebuilds_example :
    (r' : Receiver) × (receive_all keep 0 (some idle) (map (datagram 1 4) came) ≡ some r')
    × (r'.back ≡ 9 ∷ 8 ∷ 7 ∷ 6 ∷ [])
    × (r'.frame_ready ≡ true)
    × (r'.back_complete ≡ true)
unfolding seen
on_recv-rebuilds_example =
    on_recv-rebuilds keep 0 1 pieces (omega arith) (omega arith) came idle
      (omega arith, (omega arith, tt)) (omega arith) refl refl refl (omega arith)
      (inr (inl (refl, refl)), (inr (inl (refl, refl)), (inl (refl, refl), tt))) (refl, (refl, tt))

-- A stand-in for zlib that gives its input twice, and a frame in two pieces of one byte.
abbrev twice : List ℕ → List ℕ → Inflated
twice dest src = record { z_ok = true; dlen = length src * 2; dest = src ++ src }

abbrev halves : List (List ℕ)
halves = (9 ∷ []) ∷ (8 ∷ []) ∷ []

abbrev came_late : List (ℕ × List ℕ)
came_late = (1, 8 ∷ []) ∷ (0, 9 ∷ []) ∷ (1, 8 ∷ []) ∷ []

on_recv-inflates_example :
    (r' : Receiver) × (receive_all twice 0 (some idle) (map (frame_datagram true 1 2) came_late)
      ≡ some r')
    × (r'.back ≡ 9 ∷ 8 ∷ 9 ∷ 8 ∷ [])
    × (r'.frame_ready ≡ true)
    × (r'.back_complete ≡ true)
unfolding seen
on_recv-inflates_example =
    on_recv-inflates twice 0 1 halves (omega arith) (omega arith) came_late idle
      (0 ∷ 0 ∷ 0 ∷ 0 ∷ []) (9 ∷ 8 ∷ 9 ∷ 8 ∷ []) (omega arith, (omega arith, tt)) (omega arith) refl
      refl (refl, refl) (omega arith) (omega arith) refl
      (inr (inl (refl, refl)), (inl (refl, refl), (inr (inl (refl, refl)), tt))) (refl, (refl, tt))

-- The two bytes that wait lie round the end of the ring.
abbrev round : Ring
round = record { buf = 2 ∷ 0 ∷ 0 ∷ 1 ∷ []; head = 3; count = 2 }

round-IsValid : Queue.IsValid 4 round
round-IsValid = record { size = refl; head_in = omega arith; room = omega arith }

abbrev coming : Polls
coming = ((3 ∷ []) ∷ (4 ∷ 5 ∷ []) ∷ []) ∷ [] ∷ ((6 ∷ []) ∷ []) ∷ []

coming-NoBurst : NoBurst 4 coming
coming-NoBurst = (omega arith, (omega arith, (omega arith, tt)))

read_test : (read 4 3 round coming).0 ≡ 1 ∷ 2 ∷ 3 ∷ []
unfolding read
read_test = refl

read-stream_example :
    ((read 4 3 round coming).0 ≡ take 3 (stream 4 round coming))
    × (stream 4 (read 4 3 round coming).1 (read 4 3 round coming).2
        ≡ drop 3 (stream 4 round coming))
    × Queue.IsValid 4 (read 4 3 round coming).1
read-stream_example = read-stream 4 3 round coming round-IsValid coming-NoBurst

wait_for_test : outcome 4 (wait_for 4 (2 ∷ 3 ∷ []) round coming) ≡ some (4 ∷ 5 ∷ 6 ∷ [])
unfolding wait_for Queue.window
wait_for_test = refl

wait_for-stream_example :
    outcome 4 (wait_for 4 (2 ∷ 3 ∷ []) round coming) ≡ after (2 ∷ 3 ∷ []) (stream 4 round coming)
wait_for-stream_example =
    wait_for-stream 4 2 (3 ∷ []) round coming (omega arith, tt) round-IsValid coming-NoBurst

port_test : port_setting 54321 (some (ascii "8080")) ≡ 8080
unfolding port_setting
port_test = refl

port_default : port_setting 54321 (some (ascii "65536")) ≡ 54321
unfolding port_setting
port_default = refl
