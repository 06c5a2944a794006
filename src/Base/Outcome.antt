-- ===== src/Base/Outcome.antt =====
-- How a call ends: the exceptions of server/ServerException.hpp,
-- server/storage/IServerStorage.hpp and utils/Shamir.hpp, without their messages.
use mathlib.Core.Bool.{Bool, true, false}
use mathlib.Core.Option.{Option, none, some}

-- What the server throws: the first five derive from `ServerException`, the others do not.
pub data Exception : Type 0 where
  user_exists_exception user_not_found_exception userset_not_found_exception no_operation
        finished_operation :
      Exception
  out_of_range shamir_zero_id shamir_same_id packet_too_big cipher_failed socket_failed
        conn_establish_exception shamir_not_enough shamir_no_shard :
      Exception

-- `catch (const ServerException&)`
abbrev pub is_server_exception : Exception → Bool
is_server_exception out_of_range = false
is_server_exception shamir_zero_id = false
is_server_exception shamir_same_id = false
is_server_exception packet_too_big = false
is_server_exception cipher_failed = false
is_server_exception socket_failed = false
is_server_exception conn_establish_exception = false
is_server_exception shamir_not_enough = false
is_server_exception shamir_no_shard = false
is_server_exception _ = true

-- The end of a call: a value, an exception, undefined behaviour, or a source of randomness (or of
-- bytes from a socket) that was given too few values.
pub data Outcome {ℓ} (A : Type ℓ) : Type ℓ where
  ok : A → Outcome A
  throw : Exception → Outcome A
  undefined : Outcome A
  starved : Outcome A

infixl 5 ◌>>=◌
abbrev pub ◌>>=◌ {ℓ κ} : {A : Type ℓ} {B : Type κ} → Outcome A → (A → Outcome B) → Outcome B
ok a >>= f = f a
throw e >>= f = throw e
undefined >>= f = undefined
starved >>= f = starved

-- What a loop leaves if its source of randomness was long enough.
abbrev pub or_starved {ℓ} : {A : Type ℓ} → Option A → Outcome A
or_starved none = starved
or_starved (some a) = ok a
