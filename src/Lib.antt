-- ===== src/Lib.antt =====
-- Pixel Multiverse firmware: a verification library for the C++ under src/.
--
-- The firmware drives an LED display from frames that arrive over USB or the network, and keeps its
-- settings in a small store in flash. Its parts, and the files here that model them:
--
-- * src/config/kv_format.hpp, kv_store.{hpp,cpp}, kv_log.{hpp,cpp}: Config. `Config.Format` has the
--   record and header with their byte images, `Config.Store` the live view (an array of 32 records
--   and a count), `Config.Flash` the storage backend `FlashOps`, and `Config.Log` the append-only
--   log. `kv::Log::load`, `put`, `del` and `compact` are `Config.Log.load`, `put`, `del` and
--   `compact`; a `Log` carries the memory of its backend, which C++ reaches through a reference.
-- * src/config/kv_flash.{hpp,cpp} and kv_commands.cpp: Config.Device and Config.Commands. `Device`
--   is the global store and log; the handlers give the bytes that they write, over the `read` of a
--   transport, or none for a write behind the end of a buffer (`key_after`, `value_after`,
--   `append_byte`). `Config.Commands.Wire` is stated for any transport that is a stream of bytes,
--   and `OverUdp` for the UDP transport.
-- * src/net/multicast.cpp, in the WiFi build: Net.Multicast. `on_recv` is the receive callback
--   over the bytes of a datagram, cut at the points where it returns early (`refused`,
--   `enter_frame`, `accept_chunk`, `finish`); its result is none when the code would write outside
--   a buffer. `take_frame` and `take_flip` are what the command loop asks. `Pieces`, `Place`,
--   `Target`, `Loading`, `Rebuilt` and `Arrival` follow the pieces of a frame, raw or compressed,
--   into its buffer.
-- * The UDP transport of src/net/udp_transport.cpp: Net.Udp. The ring with its callback; the polls
--   of the network until the deadline are a list, each with the datagrams that it brings.
--   `Net.Udp.Queue` has the ring as a bounded queue, and `Net.Udp.Matching` the search for a
--   pattern.
-- * The settings of src/net/wifi.cpp, udp_transport.cpp and multicast.cpp: Net.Settings; and
--   wifi_poll, wifi_connected and wifi_ip of wifi.cpp: Net.Wifi.
-- * The displays of src/display: Display. `Display.Canvas` has the drawing calls,
--   `Display.Selftest` the patterns of selftest.hpp as the calls they make, `Display.Frames` the
--   double buffering that both boards have, `Display.I75` the panel geometry and its mapping onto
--   the chain (i75/i75.cpp), and `Display.Plasma` the LED strip (plasma/plasma.cpp); the `Board`
--   of each has `init`, `info` and `selftest`.
-- * The commands of src/command/command_core.cpp: Command. `Command.Registry` has the table of
--   handlers, its registration and dispatch, and `Command.Handlers` the commands data, zdat, test,
--   flip, hold and live on the display's buffers, over the `read` of a transport. `Command.Loop` is
--   the part of `run` that polls the network (`wifi_poll`) and presents what came over it
--   (`present_multicast`), with `Shown` from a frame's datagrams to the display, and
--   `Command.Machine` the whole of it: the table of all handlers, the
--   machine that they work on (store, display, receiver), and the rounds of the loop with their
--   waits and dispatches (`serve`, `round`, `run`). A transport is a `Link` there, its calls read,
--   wait_for and poll; `OverUsb` and `OverUdp` are the two that there are. A round polls both, and
--   the wait on the secondary one, whose timeout is 0, only drains what has come.
--   `Command.Version` has the command vers and `Command.Reboots` the commands _rst, _usb and _fac.
-- * src/command/usb_cdc_transport.cpp and cdc_uart.cpp: Usb.Cdc, over the queue of bytes of
--   TinyUSB and what each call of tud_task adds to it. src/get_serial.cpp: Usb.Serial. The string
--   descriptors of src/usb_descriptors.cpp: Usb.Descriptors; its device and configuration:
--   Usb.Device.
-- * The reset button of src/recovery/recovery.cpp and the start of `main` in src/main.cpp: Boot.
--   `Boot.Main` starts the parts one after the other, each with the settings that the store has by
--   then, and `Boot.Loop` runs the command loop behind them, from power-on on the i75 board;
--   `Boot.Strip` is both for the plasma board.
--
-- The display reads its settings from the store (`get` of a configuration is kv::config().get), the
-- receiver writes the display's back buffer, and the command loop presents it.
--
-- Not modelled: the calls of lwIP, of the CYW43 driver, of TinyUSB, of the display drivers and of
-- the GPIO, the watchdog and the boot ROM; the bytes of the configuration descriptor, which macros
-- of TinyUSB lay out; lwipopts.h and the rest of tusb_config.h, which are switches of libraries. A
-- datagram of the multicast group that comes while a handler waits for bytes of its payload over
-- UDP is taken with the poll of the next round.
--
-- Conventions. A byte is a number below 256 and a byte range a list; unsigned words keep their
-- wrap-around as `%`. A function that writes through a reference returns the new value beside its
-- result. Pointers that may be null are options. The loops of the sources run over lists or
-- counters and are structural recursions, so no fuel is used, and every function here is total. A
-- loop up to a deadline runs over the list of the polls before it, which is any list: what a
-- theorem says of it holds wherever the deadline falls. A transport of the command loop carries
-- such a list for each of its calls, so that every call has its own deadline.
--
-- What is a parameter. The flash driver behind `FlashOps` (erase and program), with the NOR
-- behaviour `IsNor` as a hypothesis where a theorem needs it; and zlib's CRC-32, of which only the
-- 32-bit range is used. zlib's `uncompress`, of which it is used that it keeps the length of its
-- destination, and the clock around it. The level of the reset button in each round. The colour
-- functions of pico_graphics, `from_hsv` and `luminance`, and what its drawing calls make of a
-- buffer. The state of the WiFi link, and the text that ip4addr_ntoa makes of an address.
pub mod Prelude
pub mod Config
pub mod Net
pub mod Display
pub mod Command
pub mod Boot
pub mod Usb
