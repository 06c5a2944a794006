-- ===== src/Wire/Encrypted.antt =====
-- common/EncryptedPacketHandler.cpp: the payload of each packet, before it is encrypted.
pub mod Requests
pub mod Responses
pub mod Updates
pub mod RequestData
pub mod ResponseData
