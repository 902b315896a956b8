-- ===== src/Sketch.antt =====
-- The three sketches of core/, as records with their operations.
pub mod Hash
pub mod Count
pub mod Cms
pub mod Hll
pub mod Bins
pub mod Ddsketch
