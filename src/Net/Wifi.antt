-- ===== src/Net/Wifi.antt =====
-- What src/net/wifi.cpp says of the network while the loop runs. The driver and lwIP are parameters:
-- the state of the link, the network interface with its address, and `ntoa`, which is ip4addr_ntoa.
use pixel_multiverse_firmwar.Prelude.{
  ℕ, ◌≤◌, Bool, ◌&&◌, Option, none, some, List, [], ◌==◌, if◌then◌else◌, length, arith, Bool-cases,
  inl, inr,
}
use pixel_multiverse_firmwar.Net.Settings.{WifiStart, wifi_enabled}
use pixel_multiverse_firmwar.Command.Version.{Facts}

-- Whether the link is up, and netif_default with the address that netif_ip4_addr gives; either
-- pointer may be null.
pub record Station : Type 0 where
  pub link_up : Bool
  pub netif : Option (Option ℕ)

-- What the poll brings: nothing where the chip was not started.
abbrev pub arrivals : WifiStart → List (Option (List ℕ)) → List (Option (List ℕ))
arrivals w ps = if wifi_enabled w then ps else []

abbrev pub wifi_connected : WifiStart → Station → Bool
wifi_connected w s = wifi_enabled w && s.link_up

abbrev pub address_text : (ℕ → List ℕ) → Option ℕ → List ℕ
address_text ntoa none = []
address_text ntoa (some addr) = if addr == 0 then [] else ntoa addr

abbrev pub interface_text : (ℕ → List ℕ) → Option (Option ℕ) → List ℕ
interface_text ntoa none = []
interface_text ntoa (some ip) = address_text ntoa ip

unfoldable pub wifi_ip : (ℕ → List ℕ) → WifiStart → Station → List ℕ
wifi_ip ntoa w s = if wifi_connected w s then interface_text ntoa s.netif else []

-- What handle_vers asks of the network.
abbrev pub net_facts : (ℕ → List ℕ) → WifiStart → Station → Facts → Facts
net_facts ntoa w s f = record f {
  enabled = wifi_enabled w;
  connected = wifi_connected w s;
  ip = wifi_ip ntoa w s;
}

interface_text-length :
    (ntoa : ℕ → List ℕ) (netif : Option (Option ℕ))
    → ((addr : ℕ) → length (ntoa addr) ≤ 15)
    → length (interface_text ntoa netif) ≤ 15
interface_text-length ntoa none short = omega arith
interface_text-length ntoa (some none) short = omega arith
interface_text-length ntoa (some (some addr)) short = elim (Bool-cases (addr == 0)) [
  | inl unset ↦ rw unset (omega arith)
  | inr set ↦ rw set (short addr)
]

-- The text of the address is as short as those of `ntoa`.
pub length-wifi_ip :
    (ntoa : ℕ → List ℕ) (w : WifiStart) (s : Station)
    → ((addr : ℕ) → length (ntoa addr) ≤ 15)
    → length (wifi_ip ntoa w s) ≤ 15
unfolding wifi_ip
length-wifi_ip ntoa w s short = elim (Bool-cases (wifi_connected w s)) [
  | inl up ↦ rw up (interface_text-length ntoa s.netif short)
  | inr down ↦ rw down (omega arith)
]
