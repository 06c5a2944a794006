-- ===== src/Arith.antt =====
-- senc/utils: the arithmetic that secret sharing stands on.
pub mod Power
pub mod Modular
