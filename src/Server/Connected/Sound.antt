-- ===== src/Server/Connected/Sound.antt =====
-- What a sound state of the server is, and the catching of exceptions and the ends of operations
-- in server/handlers/ConnectedClientHandler.cpp from sound states.
use shared_encryption.Base.{inl, inr, Bool-cases}
use shared_encryption.Base.Key.{nat_key, bytes_key}
use shared_encryption.Base.Outcome.{◌>>=◌}
use shared_encryption.Server.Types.{
  Uuid, Exception, is_server_exception, Outcome, ok, throw, undefined, starved,
}
use shared_encryption.Server.Storage.{get_shard_id}
use shared_encryption.Server.Storage.Invariant as StorageInvariant
use shared_encryption.Server.Decryptions.{PrepareRecord, CollectedRecord}
use shared_encryption.Server.Decryptions.Invariant as DecryptionsInvariant
use shared_encryption.Server.State.{State, Result, attempt, swallow}
use shared_encryption.Packets.{Message, Response}
use shared_encryption.Server.Connected.UserSets.{get_shard_ids}
use shared_encryption.Server.Connected.Operations.{finish_operation, continue_operation}

module _ {PubKey Ciphertext Part Salt Hash : Type 0} where
  pub record IsSound (s : State PubKey Ciphertext Part Salt Hash) : Type 0 where
    pub storage_valid : StorageInvariant.IsValid s.storage
    pub decryptions_valid : DecryptionsInvariant.IsValid s.decryptions

  -- A state that a call gives is sound.
  abbrev pub AllSound : Outcome (State PubKey Ciphertext Part Salt Hash) → Type 0
  AllSound (ok s) = IsSound s
  AllSound _ = Unit

  pub attempt-IsSound {ℓ} :
      {A : Type ℓ} (f : Exception → Message) (o : Outcome A)
      (s : State PubKey Ciphertext Part Salt Hash) (k : A → Result PubKey Ciphertext Part Salt Hash)
      → IsSound s
      → ((a : A) → IsSound (k a).1)
      → IsSound (attempt f o s k).1
  attempt-IsSound f (ok a) s k v h = h a
  attempt-IsSound f (throw e) s k v h = elim (Bool-cases (is_server_exception e)) [
    | inl b ↦ rw b v
    | inr b ↦ rw b v
  ]
  attempt-IsSound f undefined s k v h = v
  attempt-IsSound f starved s k v h = v

  pub swallow-IsSound :
      (o : Outcome (State PubKey Ciphertext Part Salt Hash))
      (s : State PubKey Ciphertext Part Salt Hash) (r : Response PubKey Ciphertext Part)
      → AllSound o
      → IsSound s
      → IsSound (swallow o s r).1
  swallow-IsSound (ok s') s r h v = h
  swallow-IsSound (throw e) s r h v = elim (Bool-cases (is_server_exception e)) [
    | inl b ↦ rw b v
    | inr b ↦ rw b v
  ]
  swallow-IsSound undefined s r h v = v
  swallow-IsSound starved s r h v = v

  pub bind-AllSound {ℓ} :
      {A : Type ℓ} (o : Outcome A) (f : A → Outcome (State PubKey Ciphertext Part Salt Hash))
      → ((a : A) → AllSound (f a))
      → AllSound (o >>= f)
  bind-AllSound (ok a) f h = h a
  bind-AllSound (throw e) f h = tt
  bind-AllSound undefined f h = tt
  bind-AllSound starved f h = tt

  pub finish_operation-AllSound :
      (opid : Uuid) (r : CollectedRecord Part) (s : State PubKey Ciphertext Part Salt Hash)
      → IsSound s
      → AllSound (finish_operation opid r s)
  unfolding finish_operation
  finish_operation-AllSound opid r s v =
      bind-AllSound (get_shard_id r.requester r.userset_id s.storage) _
        (λ n. record { storage_valid = v.storage_valid; decryptions_valid = v.decryptions_valid })

  pub continue_operation-AllSound :
      (opid : Uuid) (r : PrepareRecord Ciphertext) (s : State PubKey Ciphertext Part Salt Hash)
      → IsSound s
      → AllSound (continue_operation opid r s)
  unfolding continue_operation
  continue_operation-AllSound opid r s v =
      bind-AllSound (get_shard_id r.requester r.userset_id s.storage) _ (λ n.
        bind-AllSound (get_shard_ids r.userset_id s.storage r.owners_found) _ (λ os.
          bind-AllSound (get_shard_ids r.userset_id s.storage r.reg_members_found) _ (λ rs. record {
            storage_valid = v.storage_valid;
            decryptions_valid = v.decryptions_valid;
          })))
