-- ===== src/Command.antt =====
-- The commands (src/command): the registry of handlers, the built-in ones, and the loop.
pub mod Registry
pub mod Handlers
pub mod Loop
pub mod Reboots
pub mod Version
pub mod Machine
pub mod Tests
