-- ===== src/Server/Types.antt =====
-- The server's plain types: common/sizes.hpp, common/aliases.hpp and the records of
-- common/packets.hpp that the managers fill. A user name is the bytes of a `std::string`; a UUID
-- is its 16 bytes read as a number.
pub use shared_encryption.Base.Outcome.{
  Exception, user_exists_exception, user_not_found_exception, userset_not_found_exception,
  no_operation, finished_operation, out_of_range, shamir_zero_id, shamir_same_id, packet_too_big,
  cipher_failed, socket_failed, conn_establish_exception, shamir_not_enough, shamir_no_shard,
  is_server_exception, Outcome, ok, throw, undefined, starved,
}
use shared_encryption.Base.{ℕ, List}

abbrev pub Username : Type 0
Username = List ℕ

abbrev pub Uuid : Type 0
Uuid = ℕ

-- The ID and the value of a shard of a private key.
abbrev pub PrivKeyShard : Type 0
PrivKeyShard = ℕ × ℕ
