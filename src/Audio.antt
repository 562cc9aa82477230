-- ===== src/Audio.antt =====
-- audio/: detection of speech turns, and recordings.
pub mod Turn
pub mod Record
pub mod Capture
