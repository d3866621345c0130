-- ===== src/Song.antt =====
-- The song substrate: keys on the circle of fifths, the path of a voice through them, and voices
-- that sound together.
pub mod Circle
pub mod Distances
pub mod Paths
mod Travel
pub mod Polyphony
mod Chords
mod Tests
