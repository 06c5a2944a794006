-- ===== src/Wire/Inline.antt =====
-- common/InlinePacketHandler.cpp: packets sent as they are.
pub mod Values
pub mod Requests
pub mod Responses
pub mod Updates
pub mod RequestData
pub mod ResponseData
pub mod Handshake
