-- ===== src/Share.antt =====
-- share/: sharing a locally attached device with another machine.
pub mod Adb
pub mod Config
pub mod Handshake
pub mod Listener
pub mod Client
