-- ===== src/Display/I75.antt =====
-- The i75 board (src/display/i75): HUB75 panels in one electrical chain.
pub mod Geometry
pub mod Layout
pub mod Board
