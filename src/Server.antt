-- ===== src/Server.antt =====
-- senc/server: the parts of the server.
pub mod Types
pub mod Decryptions
pub mod Updates
pub mod Storage
pub mod State
pub mod Connecting
pub mod Connected
