-- ===== src/Wire.antt =====
-- The packets as bytes (senc/common): what the packet handlers write and read.
pub mod Bytes
pub mod BigInt
pub mod Elements
pub mod Values
pub mod Socket
pub mod Channel
pub mod SockUtils
pub mod Handshake
pub mod Exchange
pub mod Kinds
pub mod Encrypted
pub mod Inline
pub mod Queue
