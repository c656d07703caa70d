-- ===== src/Net/Settings/Ranges.antt =====
-- The settings that come out of any configuration.
use pixel_multiverse_firmwar.Prelude.{
  ℕ, zero, suc, ◌+◌, ◌-◌, ◌*◌, ◌/◌, ◌%◌, ◌^◌, ◌≤◌, ◌<◌, ◌≡◌, refl, ap, ◌∙◌, Bool, true, false, ◌||◌,
  Option, none, some, List, [], ◌∷◌, ◌++◌, ltb, ◌==◌, length, get_or, ascii, arith, Bool-cases,
  Option-cases, inl, inr, length-take-le,
}
use pixel_multiverse_firmwar.Display.Canvas.{decimal, to_string}
use pixel_multiverse_firmwar.Net.Settings.{
  parse_long, port_setting, group_setting, read_str, c_string, Auth, connecting, key_truthy,
  wifi_init, udp_transport_init, multicast_init,
}

port_setting-range :
    (def : ℕ) (v : Option (List ℕ))
    → 1 ≤ def
    → def ≤ 65535
    → (1 ≤ port_setting def v) × (port_setting def v ≤ 65535)
unfolding port_setting
port_setting-range def none low high = (low, high)
port_setting-range def (some v) low high = elim (Option-cases (parse_long v 0)) [
  | inl bad ↦ (ground arith, ground arith)
  | inr (n, good) ↦ (ground arith, ground arith)
]

group_setting-fits :
    (v : Option (List ℕ)) → (1 ≤ length (group_setting v)) × (length (group_setting v) ≤ 23)
unfolding group_setting
group_setting-fits none = (omega arith, omega arith)
group_setting-fits (some v) = (ground arith, ground arith)

-- No digits are no number but 0.
longer : (v : List ℕ) (n : ℕ) → parse_long v 0 ≡ some n → 1 ≤ n → ltb 0 (length v) ≡ true
unfolding parse_long
longer [] n e h = absurd (ground (arith, e, h))
longer (c ∷ cs) n e h = ground arith

-- The digits of a number, read behind what is read before them.
parse_long-append :
    (xs ys : List ℕ) (n m : ℕ)
    → parse_long xs n ≡ some m
    → parse_long (xs ++ ys) n ≡ parse_long ys m
unfolding parse_long
parse_long-append [] ys n m e = ground arith
parse_long-append (c ∷ xs) ys n m e = elim (Bool-cases (ltb c 48 || ltb 57 c)) [
  | inl bad ↦ absurd (ground arith)
  | inr digit ↦ rw digit (parse_long-append xs ys ((n * 10 + (c - 48)) % 2 ^ 32) m (ground arith))
]

abbrev pow10 : ℕ → ℕ
pow10 zero = 1
pow10 (suc k) = 10 * pow10 k

parse_long-digit :
    (m d : ℕ) → d < 10 → m * 10 + d < 2 ^ 32 → parse_long ((48 + d) ∷ []) m ≡ some (m * 10 + d)
unfolding parse_long
parse_long-digit m d h s =
    let value : 48 + d - 48 ≡ d = omega arith in
    let small : (m * 10 + d) % 2 ^ 32 ≡ m * 10 + d = omega arith in
    let is_digit : (ltb (48 + d) 48 || ltb 57 (48 + d)) ≡ false = ground arith in
    rw (is_digit, value, small) refl

parse_long-decimal :
    (fuel n : ℕ) → n < pow10 (suc fuel) → n < 2 ^ 31 → parse_long (decimal (suc fuel) n) 0 ≡ some n
parse_long-decimal zero n h s =
    let one : ltb n 10 ≡ true = ground (arith, h) in
    let digit : n % 10 ≡ n = omega arith in
    rw (one, digit) (parse_long-digit 0 n (omega arith) (omega arith) ∙ ap some (omega arith))
parse_long-decimal (suc fuel) n h s = elim (Bool-cases (ltb n 10)) [
  | inl one ↦
      let low : n < 10 = ground arith in
      let digit : n % 10 ≡ n = omega arith in
      rw (one, digit) (parse_long-digit 0 n low (omega arith) ∙ ap some (omega arith))
  | inr more ↦ rw more (
      parse_long-append (decimal (suc fuel) (n / 10)) ((48 + n % 10) ∷ []) 0 (n / 10)
        (parse_long-decimal fuel (n / 10) (omega arith) (omega arith))
      ∙ (parse_long-digit (n / 10) (n % 10) (omega arith) (omega arith) ∙ ap some (omega arith)))
]

-- A port from 1 to 65535, written in decimal, is the port that is used.
pub port_setting-to_string :
    (def n : ℕ) → 1 ≤ n → n ≤ 65535 → port_setting def (some (to_string n)) ≡ n
unfolding port_setting
port_setting-to_string def n low high =
    let parsed : parse_long (to_string n) 0 ≡ some n =
      parse_long-decimal 9 n (omega arith) (omega arith) in
    let text : ltb 0 (length (to_string n)) ≡ true = longer (to_string n) n parsed low in
    rw (parsed, text) (ground arith)

-- Whatever the k/v store holds: where the UDP transport binds a port and the receiver joins a group,
-- the ports are from 1 to 65535, and the group has 1 to 23 characters.
pub init-ports :
    (get : List ℕ → Option (List ℕ)) (chip netif : Bool) (udp mport : ℕ) (group : List ℕ)
    → udp_transport_init get chip ≡ some udp
    → multicast_init get chip netif ≡ some (group, mport)
    → (1 ≤ udp)
      × (udp ≤ 65535)
      × (1 ≤ mport)
      × (mport ≤ 65535)
      × (1 ≤ length group)
      × (length group ≤ 23)
unfolding udp_transport_init multicast_init
init-ports get chip netif udp mport group e f =
    let p = port_setting-range 54321 (get (ascii "port")) (omega arith) (omega arith) in
    let q = port_setting-range 54322 (get (ascii "mport")) (omega arith) (omega arith) in
    let g = group_setting-fits (get (ascii "mgroup")) in
    (
      ground (arith, p.0, e),
      ground (arith, p.1, e),
      ground (arith, q.0, f),
      ground (arith, q.1, f),
      ground (arith, g.0, f),
      ground (arith, g.1, f),
    )

length-c_string-le : (s : List ℕ) → length (c_string s) ≤ length s
length-c_string-le [] = omega arith
length-c_string-le (c ∷ cs) = ground (arith, length-c_string-le cs)

c_string_pos : (s : List ℕ) → (get_or s 0 0 == 0) ≡ false → 1 ≤ length (c_string s)
c_string_pos [] h = absurd (ground arith)
c_string_pos (c ∷ cs) h = ground (arith, h)

length-read_str-le : (v : Option (List ℕ)) (cap : ℕ) → length (read_str v cap) ≤ cap - 1
unfolding read_str
length-read_str-le none cap = omega arith
length-read_str-le (some v) cap =
    ground (arith, length-take-le (cap - 1) v, length-take-le (length v) v)

-- Where `wifi_init` connects, it was enabled, the name of the network has 1 to 32 characters, and the
-- password at most 63.
pub wifi_init-connecting :
    (get : List ℕ → Option (List ℕ)) (chip : Bool) (ssid pass : List ℕ) (auth : Auth)
    → wifi_init get chip ≡ connecting ssid pass auth
    → (key_truthy get (ascii "wifi") ≡ true)
      × (1 ≤ length ssid)
      × (length ssid ≤ 32)
      × (length pass ≤ 63)
unfolding wifi_init
wifi_init-connecting get chip ssid pass auth e =
    let name = read_str (get (ascii "ssid")) 33 in
    let secret = read_str (get (ascii "pass")) 64 in
    let name_le = length-read_str-le (get (ascii "ssid")) 33 in
    let name_c = length-c_string-le name in
    let pass_le = length-read_str-le (get (ascii "pass")) 64 in
    let pass_c = length-c_string-le secret in
    let pos = c_string_pos name in
    (
      ground (arith, e),
      ground (arith, e, pos),
      ground (arith, e, name_le, name_c),
      ground (arith, e, pass_le, pass_c),
    )
