-- ===== src/Sharing.antt =====
-- utils/poly_impl.hpp and utils/Shamir_impl.hpp: the polynomials and shards of secret sharing.
pub mod Poly
pub mod Shards
pub mod Restore
pub mod ElGamal
pub mod Threshold
