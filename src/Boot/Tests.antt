-- ===== src/Boot/Tests.antt =====
-- A start-up with the button held, on flash that programs and erases as NOR does.
use pixel_multiverse_firmwar.Prelude.{
  none, some, ascii, ℕ, ◌%◌, ◌^◌, ◌≡◌, refl, Bool, true, false, [], length, arith,
}
use pixel_multiverse_firmwar.Config.Tests.{ram, ram-IsNor}
use pixel_multiverse_firmwar.Config.Store.View.{view, empty_store-IsValid}
use pixel_multiverse_firmwar.Config.Log.Durable.{IsSynced}
use pixel_multiverse_firmwar.Config.Device.{Device, power_on}
use pixel_multiverse_firmwar.Boot.{startup}
use pixel_multiverse_firmwar.Boot.Recovery.{startup-held}
use pixel_multiverse_firmwar.Display.Canvas.{Colour}
use pixel_multiverse_firmwar.Display.I75.Geometry.{build, raster_td}
use pixel_multiverse_firmwar.Net.Settings.{disabled}
use pixel_multiverse_firmwar.Boot.Loop.{i75_env, booted, firmware}
use pixel_multiverse_firmwar.Boot.Loop.Safe.{firmware-IsSafe}
use pixel_multiverse_firmwar.Boot.Strip.{strip_env, strip_main, strip_firmware}
use pixel_multiverse_firmwar.Boot.Strip.Safe.{strip_firmware-IsSafe}
use pixel_multiverse_firmwar.Net.Wifi.{Station}
use pixel_multiverse_firmwar.Usb.Cdc.{Port}
use pixel_multiverse_firmwar.Command.Machine
use pixel_multiverse_firmwar.Command.Machine.Safe.{IsSafe}
use pixel_multiverse_firmwar.Command.Machine.OverUdp.{Line, udp_link, udp_link-IsBounded}
use pixel_multiverse_firmwar.Command.Machine.OverUsb.{usb_link, usb_link-IsBounded}
use pixel_multiverse_firmwar.Command.Tests.Machine.{env, env-IsSound, line, polls, polls-InRange}
use pixel_multiverse_firmwar.Boot.Main.{World, Running, main}
use pixel_multiverse_firmwar.Boot.Defaults.{main-held}

abbrev worn : Device
worn = power_on (λ i. 0x42)

abbrev pressed : ℕ → Bool
pressed i = false

startup-held_example :
    ((startup ram (λ d. length d % 2 ^ 32) false pressed worn).0 ≡ true)
    × IsSynced ram
        (λ d. length d % 2 ^ 32)
        (startup ram (λ d. length d % 2 ^ 32) false pressed worn).1.log
        (startup ram (λ d. length d % 2 ^ 32) false pressed worn).1.store
    × (view (startup ram (λ d. length d % 2 ^ 32) false pressed worn).1.store ≡ [])
startup-held_example =
    startup-held ram (λ d. length d % 2 ^ 32) ram-IsNor (λ d. omega arith) refl pressed worn
      empty_store-IsValid (λ i lt. refl)

abbrev black : ℕ → ℕ → Colour
black i n = record { red = 0; green = 0; blue = 0 }

abbrev world : World
world = record { level = pressed; got = true; chip = true; netif = true }

abbrev running : Running
running =
    main ram (λ d. length d % 2 ^ 32) false (λ calls old. old) black (λ c. 0) (ascii "v1") world
      worn

main-held_example :
    (running.was_reset ≡ true)
    × (running.geometry ≡ build 256 64 1 1 256 64 raster_td)
    × (running.wifi ≡ disabled)
    × (running.udp_port ≡ none)
    × (running.group ≡ none)
main-held_example =
    main-held ram (λ d. length d % 2 ^ 32) (λ calls old. old) black (λ c. 0) (ascii "v1") ram-IsNor
      (λ d. omega arith) refl world worn empty_store-IsValid (λ i lt. refl)

abbrev station : Station
station = record { link_up = true; netif = some (some 7) }

-- The same board in the loop, on worn flash, with the transports of `Command.Tests.Machine`.
firmware-IsSafe_example :
    let ntoa = λ (addr : ℕ). ascii "10.0.0.7" in
    (s : Machine.Running Port (Line 64)) × (firmware black
        (λ c. 0)
        (ascii "v1")
        ntoa
        station
        env
        usb_link
        (udp_link 64)
        world
        worn.log.memory
        ([], [])
        (some line)
        polls
      ≡ some s)
    × IsSafe
        (i75_env black
          (λ c. 0)
          (ascii "v1")
          ntoa
          station
          env
          (booted black (λ c. 0) (ascii "v1") ntoa station env world worn.log.memory))
        s.machine
firmware-IsSafe_example =
    firmware-IsSafe black (λ c. 0) (ascii "v1") (λ addr. ascii "10.0.0.7") (λ addr. omega arith)
      station env env-IsSound usb_link (udp_link 64) usb_link-IsBounded (udp_link-IsBounded 64)
      world worn.log.memory ([], []) (some line) polls polls-InRange

strip_firmware-IsSafe_example :
    let ntoa = λ (addr : ℕ). ascii "10.0.0.7" in
    (s : Machine.Running Port (Line 64)) × (strip_firmware black
        (λ c. 0)
        ntoa
        station
        env
        usb_link
        (udp_link 64)
        world
        worn.log.memory
        ([], [])
        (some line)
        polls
      ≡ some s)
    × IsSafe
        (strip_env black
          (λ c. 0)
          ntoa
          station
          env
          (strip_main black (λ c. 0) ntoa station env world worn.log.memory))
        s.machine
strip_firmware-IsSafe_example =
    strip_firmware-IsSafe black (λ c. 0) (λ addr. ascii "10.0.0.7") (λ addr. omega arith) station
      env env-IsSound usb_link (udp_link 64) usb_link-IsBounded (udp_link-IsBounded 64) world
      worn.log.memory ([], []) (some line) polls polls-InRange
