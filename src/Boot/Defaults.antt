-- ===== src/Boot/Defaults.antt =====
-- The settings after a start-up with the button held, on NOR flash that is clear of the program.
use pixel_multiverse_firmwar.Prelude.{
  ℕ, ◌^◌, ◌<◌, ◌≡◌, refl, ap, ◌∙◌, Bool, true, false, Option, none, List, [],
}
use mathlib.Core.Path.{fun_ext}
use pixel_multiverse_firmwar.Config.Flash.{FlashOps, IsNor}
use pixel_multiverse_firmwar.Config.Store.{Store}
use pixel_multiverse_firmwar.Config.Store.Live.{lookup_live}
use pixel_multiverse_firmwar.Config.Store.View.{IsValid, view, get_refines}
use pixel_multiverse_firmwar.Config.Device.{Device, region_size}
use pixel_multiverse_firmwar.Display.Canvas.{Colour, Draw}
use pixel_multiverse_firmwar.Display.I75.Geometry.{load_geometry, build, raster_td}
use pixel_multiverse_firmwar.Display.I75.Board.{init}
use pixel_multiverse_firmwar.Net.Settings.{disabled, wifi_init, udp_transport_init, multicast_init}
use pixel_multiverse_firmwar.Boot.{startup}
use pixel_multiverse_firmwar.Boot.Recovery.{startup-held}
use pixel_multiverse_firmwar.Boot.Main.{setting, World, main}

setting-none : (s : Store) → IsValid s → view s ≡ [] → (key : List ℕ) → setting s key ≡ none
unfolding setting lookup_live
setting-none s v e key = rw (get_refines s key v, e) refl

abbrev unset : List ℕ → Option (List ℕ)
unset key = none

geometry_unset : (load_geometry unset).0 ≡ build 256 64 1 1 256 64 raster_td
unfolding load_geometry
geometry_unset = refl

network_unset :
    (chip netif : Bool)
    → (wifi_init unset chip ≡ disabled)
      × (udp_transport_init unset chip ≡ none)
      × (multicast_init unset chip netif ≡ none)
unfolding wifi_init udp_transport_init multicast_init
network_unset chip netif = (refl, refl, refl)

module _ (ops : FlashOps) (crc : List ℕ → ℕ) (paint : List Draw → List ℕ → List ℕ)
    (hue : ℕ → ℕ → Colour) (luminance : Colour → ℕ) (version : List ℕ) where
  -- On NOR flash, with a 32-bit CRC and the region clear of the program: with the button held through
  -- all 30 rounds the i75 board comes up with one panel of 256 by 64, without WiFi, UDP or a group,
  -- whatever was in flash.
  pub main-held :
      (nor : IsNor ops) (crc_lt : (bytes : List ℕ) → crc bytes < 2 ^ 32)
      (whole : ops.size ≡ region_size) (w : World) (d : Device)
      → IsValid d.store
      → ((i : ℕ) → i < 30 → w.level i ≡ false)
      → let r = main ops crc false paint hue luminance version w d in
        (r.was_reset ≡ true)
        × (r.geometry ≡ build 256 64 1 1 256 64 raster_td)
        × (r.wifi ≡ disabled)
        × (r.udp_port ≡ none)
        × (r.group ≡ none)
  unfolding main init
  main-held nor crc_lt whole w d v low =
      let s = startup-held ops crc nor crc_lt whole w.level d v low in
      let after = (startup ops crc false w.level d).1.store in
      let config : setting after ≡ unset =
        fun_ext λ key. setting-none after s.1.well_formed.valid s.2 key in
      let network = network_unset w.chip w.netif in
      (
        s.0,
        ap (λ g. (load_geometry g).0) config ∙ geometry_unset,
        ap (λ g. wifi_init g w.chip) config ∙ network.0,
        ap (λ g. udp_transport_init g w.chip) config ∙ network.1,
        ap (λ g. multicast_init g w.chip w.netif) config ∙ network.2,
      )
