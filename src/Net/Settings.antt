-- ===== src/Net/Settings.antt =====
-- The settings of src/net: the ports of udp_transport.cpp and multicast.cpp, the group, and the WiFi
-- of wifi.cpp. `get key` is kv::config().get(key), the bytes of the value.
-- `long` has 32 bits on the boards; a number past its range is taken to wrap, which C++ leaves
-- undefined, so that the test of the range sees the low 32 bits.
pub mod Ranges
use pixel_multiverse_firmwar.Prelude.{
  ℕ, zero, suc, ◌+◌, ◌-◌, ◌*◌, ◌%◌, ◌^◌, ◌≡◌, Bool, true, false, ◌&&◌, ◌||◌, not, Option, none,
  some, List, [], ◌∷◌, ◌++◌, ltb, leb, ◌==◌, if◌then◌else◌, length, take, get_or, ascii, bytes_eq,
}

-- The loop over the digits; none is a byte that is no digit.
unfoldable pub parse_long : List ℕ → ℕ → Option ℕ
parse_long [] n = some n
parse_long (c ∷ cs) n =
    let rest = parse_long cs ((n * 10 + (c - 48)) % 2 ^ 32) in
    if ltb c 48 || ltb 57 c then none else rest

unfoldable pub port_number : ℕ → Option ℕ → ℕ
port_number def none = def
port_number def (some n) = if leb 1 n && leb n 65535 then n else def

-- A port that is not set, empty, no number or out of range is the default.
unfoldable pub port_setting : ℕ → Option (List ℕ) → ℕ
unfolding parse_long port_number
port_setting def none = def
port_setting def (some v) =
    let parsed = parse_long v 0 in if ltb 0 (length v) then port_number def parsed else def

-- group[24] with its NUL; a group that does not fit is the default.
unfoldable pub group_setting : Option (List ℕ) → List ℕ
group_setting none = ascii "239.255.0.1"
group_setting (some v) = if ltb 0 (length v) && ltb (length v) 24 then v else ascii "239.255.0.1"

-- The text in a buffer of `cap` bytes, its NUL left out.
unfoldable pub read_str : Option (List ℕ) → ℕ → List ℕ
read_str none cap = []
read_str (some v) cap =
    if cap == 0 then [] else take (if ltb (cap - 1) (length v) then cap - 1 else length v) v

-- The characters up to a NUL, which is what a C string is.
abbrev pub c_string : List ℕ → List ℕ
c_string [] = []
c_string (c ∷ cs) = if c == 0 then [] else c ∷ c_string cs

abbrev pub is_yes : ℕ → Bool
is_yes c =
    c == b'1'
    || (c == b'y' || (c == b'Y' || (c == b't' || (c == b'T' || (c == b'o' || c == b'O')))))

pub data Auth : Type 0 where
  open_network : Auth
  wpa2 : Auth
  wpa3 : Auth
  mixed : Auth

abbrev pub auth_of : List ℕ → Auth
auth_of a =
    if bytes_eq a (ascii "wpa3")
    then wpa3
    else if bytes_eq a (ascii "mixed")
    then mixed
    else if bytes_eq a (ascii "open")
    then open_network
    else wpa2

-- What `wifi_init` comes to: `enabled` stays false on the first two.
pub data WifiStart : Type 0 where
  disabled : WifiStart
  init_failed : WifiStart
  no_ssid : WifiStart
  connecting : List ℕ → List ℕ → Auth → WifiStart

abbrev pub wifi_enabled : WifiStart → Bool
wifi_enabled disabled = false
wifi_enabled init_failed = false
wifi_enabled no_ssid = true
wifi_enabled (connecting ssid pass auth) = true

module _ (get : List ℕ → Option (List ℕ)) where
  unfoldable pub key_truthy : List ℕ → Bool
  unfolding read_str
  key_truthy key = is_yes (get_or (read_str (get key) 8) 0 0)

  unfoldable pub read_auth : Auth
  unfolding read_str
  read_auth = auth_of (c_string (read_str (get (ascii "auth")) 8))

  -- `chip` is whether cyw43_arch_init() succeeds.
  unfoldable pub wifi_init : Bool → WifiStart
  unfolding key_truthy read_auth read_str
  wifi_init chip =
      let ssid = read_str (get (ascii "ssid")) 33 in
      let pass = read_str (get (ascii "pass")) 64 in
      if not (key_truthy (ascii "wifi"))
      then disabled
      else if not chip
      then init_failed
      else if get_or ssid 0 0 == 0
      then no_ssid
      else connecting (c_string ssid) (c_string pass) read_auth

  -- The port that `udp_transport_init` binds, if any.
  unfoldable pub udp_transport_init : Bool → Option ℕ
  unfolding wifi_init port_setting
  udp_transport_init chip =
      if not (wifi_enabled (wifi_init chip))
      then none
      else some (port_setting 54321 (get (ascii "port")))

  -- The group and the port that `multicast_init` joins; `netif` is whether there is a network
  -- interface.
  unfoldable pub multicast_init : Bool → Bool → Option (List ℕ × ℕ)
  unfolding wifi_init port_setting group_setting
  multicast_init chip netif =
      if not (wifi_enabled (wifi_init chip)) || not netif
      then none
      else some (group_setting (get (ascii "mgroup")), port_setting 54322 (get (ascii "mport")))
