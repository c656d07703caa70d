-- ===== src/Usb.antt =====
-- The USB side (src): the CDC transport, the serial number and the string descriptors.
pub mod Cdc
pub mod Serial
pub mod Descriptors
pub mod Device
mod Tests
