-- ===== src/Config.antt =====
-- The key/value configuration store (src/config): the record format, the live view in RAM, the
-- log in flash, the boot wiring and the wire commands.
pub mod Format
pub mod Store
pub mod Flash
pub mod Log
pub mod Device
pub mod Commands
pub mod Tests
