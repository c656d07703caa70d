-- ===== src/Display.antt =====
-- The displays (src/display): drawing, the self-test patterns, the panel geometry.
pub mod Canvas
pub mod Selftest
pub mod Frames
pub mod Plasma
pub mod I75
mod Tests
