-- ===== src/Credits/Byok.antt =====
-- The credentials and the relay of users who bring their own keys.
pub mod Store
pub mod Capture
pub mod Path
pub mod Relay
mod Tests
