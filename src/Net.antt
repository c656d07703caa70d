-- ===== src/Net.antt =====
-- The network side (src/net): multicast frames, the UDP command transport, and their settings.
pub mod Multicast
pub mod Udp
pub mod Settings
pub mod Wifi
mod Tests
