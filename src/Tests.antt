-- ===== src/Tests.antt =====
-- Runs of the model at concrete inputs, and concrete inputs of the theorems.
pub mod Tunnels
pub mod Texts
pub mod Stored
pub mod Network
pub mod Commands
pub mod Home
pub mod Desktop
pub mod Pages
pub mod Places
pub mod Tray
pub mod Windows
pub mod Lines
