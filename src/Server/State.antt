-- ===== src/Server/State.antt =====
-- What the handlers of server/handlers share: the storage and the two managers, which the server
-- owns, with the outcome of a handler. `keys` is what `Schema::keygen` will give (a public key and
-- a private key), `coeffs` what Shamir's sampler will give, `op_uuids` what `UUID::generate` will
-- give to the decryptions manager.
use shared_encryption.Base.{ℕ, List, if◌then◌else◌}
use shared_encryption.Server.Types.{
  Uuid, Exception, is_server_exception, Outcome, ok, throw, undefined, starved,
}
use shared_encryption.Server.Storage.{Storage}
use shared_encryption.Server.Updates.{UpdateManager}
use shared_encryption.Server.Decryptions.{DecryptionsManager}
use shared_encryption.Packets.{Response, Message, error}

pub record State (PubKey Ciphertext Part Salt Hash : Type 0) : Type 0 where
  pub storage : Storage Salt Hash
  pub updates : UpdateManager PubKey Ciphertext Part
  pub decryptions : DecryptionsManager Ciphertext Part
  pub keys : List (PubKey × ℕ)
  pub coeffs : List ℕ
  pub op_uuids : List Uuid

-- `ConnectingClientHandler::Status` and `ConnectedClientHandler::Status`
pub data Status : Type 0 where
  failed connected disconnected : Status

-- A handler sends one response and returns a status, or an exception leaves it.
abbrev pub Result : Type 0 → Type 0 → Type 0 → Type 0 → Type 0 → Type 0
Result PubKey Ciphertext Part Salt Hash =
    Outcome (Response PubKey Ciphertext Part × Status) × State PubKey Ciphertext Part Salt Hash

module _ {PubKey Ciphertext Part Salt Hash : Type 0} where
  -- `catch (const ServerException& e)`: an error is sent. Other exceptions pass.
  abbrev pub refuse :
      (Exception → Message)
      → Exception
      → State PubKey Ciphertext Part Salt Hash
      → Result PubKey Ciphertext Part Salt Hash
  refuse f e s =
      if is_server_exception e
      then (ok (error (record { msg = f e }), connected), s)
      else (throw e, s)

  -- `try` with that `catch` around a call, `s` being the state after the call.
  abbrev pub attempt {ℓ} :
      {A : Type ℓ}
      → (Exception → Message)
      → Outcome A
      → State PubKey Ciphertext Part Salt Hash
      → (A → Result PubKey Ciphertext Part Salt Hash)
      → Result PubKey Ciphertext Part Salt Hash
  attempt f (ok a) s k = k a
  attempt f (throw e) s k = refuse f e s
  attempt f undefined s k = (undefined, s)
  attempt f starved s k = (starved, s)

  -- `try { ... } catch (const ServerException&) { }`, then the acknowledgement. A call that throws
  -- leaves the state as it was, `s`.
  abbrev pub swallow :
      Outcome (State PubKey Ciphertext Part Salt Hash)
      → State PubKey Ciphertext Part Salt Hash
      → Response PubKey Ciphertext Part
      → Result PubKey Ciphertext Part Salt Hash
  swallow (ok s') s r = (ok (r, connected), s')
  swallow (throw e) s r = if is_server_exception e then (ok (r, connected), s) else (throw e, s)
  swallow undefined s r = (undefined, s)
  swallow starved s r = (starved, s)
