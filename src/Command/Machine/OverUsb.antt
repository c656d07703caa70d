-- ===== src/Command/Machine/OverUsb.antt =====
-- The loop behind the USB transport. A timeout is in what the port's polls bring: a call sees only those
-- before its deadline.
use pixel_multiverse_firmwar.Prelude.{due}
use pixel_multiverse_firmwar.Usb.Cdc.{Port, port_read, port_wait_for, port_poll}
use pixel_multiverse_firmwar.Usb.Cdc.Stream.{read-stream}
use pixel_multiverse_firmwar.Command.Machine.{Link}
use pixel_multiverse_firmwar.Command.Machine.Safe.{IsBounded}

abbrev pub usb_link : Link Port
usb_link = record {
  read = port_read;
  wait_for = λ timeout pattern s. port_wait_for pattern s;
  poll = port_poll;
}

pub usb_link-IsBounded : IsBounded usb_link
unfolding port_read
usb_link-IsBounded = record { at_most = λ n s. (read-stream n s.0 (due s.1)).1 }
