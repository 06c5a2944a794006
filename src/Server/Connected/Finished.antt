-- ===== src/Server/Connected/Finished.antt =====
-- What server/handlers/ConnectedClientHandler.cpp sends of a finished operation fits what
-- common/EncryptedPacketHandler.cpp assumes of it: each layer has one shard ID more than it has
-- parts.
use shared_encryption.Base.{
  ℕ, ◌+◌, ◌≡◌, refl, sym, ap, ◌∙◌, subst, Bool, true, false, ◌∷◌, [], ◌++◌, Option, none, some, inl,
  inr, Option-cases, length, length-append, if◌then◌else◌,
}
use shared_encryption.Base.Key.{nat_key}
use shared_encryption.Base.Map.{find}
use shared_encryption.Base.Outcome.{◌>>=◌}
use shared_encryption.Server.Types.{Uuid, Outcome, ok, throw, undefined, starved}
use shared_encryption.Server.Storage.{get_shard_id}
use shared_encryption.Server.Updates.{FinishedDecryptionsRecord, register_finished_decryption}
use shared_encryption.Server.Decryptions.{
  CollectedRecord, DecryptionsManager, has_enough_parts, add_part, register_part,
}
use shared_encryption.Server.Decryptions.Invariant.{IsValid, Collecting, add_part-Collecting}
use shared_encryption.Server.Decryptions.Stages.{register_part-gather}
use shared_encryption.Server.State.{State}
use shared_encryption.Server.Connected.Operations.{finish_operation}

-- In each layer one shard ID more than parts.
pub record HasOneMore {Part : Type 0} (f : FinishedDecryptionsRecord Part) : Type 0 where
  pub reg_layer : length f.reg_layer_shards_ids ≡ length f.reg_layer_parts + 1
  pub owner_layer : length f.owner_layer_shards_ids ≡ length f.owner_layer_parts + 1

-- The record that `finish_operation` registers, with the shard ID of the requester.
abbrev of_shard : {P : Type 0} → Uuid → CollectedRecord P → ℕ → FinishedDecryptionsRecord P
of_shard opid r n = record {
  op_id = opid;
  reg_layer_parts = r.reg_layer_parts;
  owner_layer_parts = r.owner_layer_parts;
  reg_layer_shards_ids = r.reg_layer_shards_ids ++ n ∷ [];
  owner_layer_shards_ids = r.owner_layer_shards_ids ++ n ∷ [];
}

chosen :
    {P : Type 0} (b : Bool) (r s : CollectedRecord P)
    → Path (Outcome (Option (CollectedRecord P))) (ok (if b then some r else none)) (ok (some s))
    → r ≡ s
chosen true r s e = cc
chosen false r s e = absurd (cc e)

no_undefined :
    {P : Type 0} (r : CollectedRecord P)
    → Path (Outcome (Option (CollectedRecord P))) undefined (ok (some r))
    → ⊥
no_undefined r e = cc

throws_nothing :
    {A : Type 0} (o : Outcome ℕ) (f : ℕ → A) (a : A)
    → (o >>= λ n. ok (f n)) ≡ ok a
    → (n : ℕ) × (a ≡ f n)
throws_nothing (ok n) f a e = (n, cc)
throws_nothing (throw x) f a e = absurd (cc e)
throws_nothing undefined f a e = absurd (cc e)
throws_nothing starved f a e = absurd (cc e)

-- A record that is handed out has its parts beside their IDs.
handed_out-Collecting :
    {C P : Type 0} (opid : Uuid) (p : P) (shard_id : ℕ) (is_owner : Bool)
    (d : DecryptionsManager C P) (r : CollectedRecord P)
    → IsValid d
    → (register_part opid p shard_id is_owner d).0 ≡ ok (some r)
    → Collecting r
unfolding register_part
handed_out-Collecting opid p shard_id is_owner d r v e =
    elim (Option-cases (find opid d.collected)) [
      | inl none_there ↦
          let lost : (register_part opid p shard_id is_owner d).0 ≡ undefined =
            rw (register_part, none_there) refl in
          absurd (no_undefined r (sym lost ∙ e))
      | inr (r0, there) ↦
          let r' = add_part p shard_id is_owner r0 in
          let given = (register_part-gather opid p shard_id is_owner d r0 there).0 in
          subst (λ x. Collecting x) (chosen (has_enough_parts r') r' r (sym given ∙ e))
            (add_part-Collecting p shard_id is_owner r0 (v.collecting opid r0 there).0)
    ]

-- If a valid manager hands out a record, and its operation is then finished, the requester's
-- mailbox gets a record with one shard ID more than parts in each layer, as the packet handlers
-- assume, and no other update is registered.
pub finish_operation-HasOneMore :
    {PubKey C P Salt Hash : Type 0} (opid : Uuid) (p : P) (shard_id : ℕ) (is_owner : Bool)
    (r : CollectedRecord P) (s s' : State PubKey C P Salt Hash)
    → IsValid s.decryptions
    → (register_part opid p shard_id is_owner s.decryptions).0 ≡ ok (some r)
    → finish_operation opid r
        (record s { decryptions = (register_part opid p shard_id is_owner s.decryptions).1 })
      ≡ ok s'
    → (f : FinishedDecryptionsRecord P) × HasOneMore f
      × (s'.updates ≡ register_finished_decryption r.requester f s.updates)
unfolding finish_operation
finish_operation-HasOneMore opid p shard_id is_owner r s s' v given done =
    let c = handed_out-Collecting opid p shard_id is_owner s.decryptions r v given in
    let d' = (register_part opid p shard_id is_owner s.decryptions).1 in
    let (n, e) =
      throws_nothing (get_shard_id r.requester r.userset_id s.storage)
        (λ k. record s {
          decryptions = d';
          updates = register_finished_decryption r.requester (of_shard opid r k) s.updates;
        })
        s' done in
    (
      of_shard opid r n,
      record {
        reg_layer =
            length-append r.reg_layer_shards_ids (n ∷ [])
            ∙ ap (λ k. k + 1) (sym c.reg_layer_paired);
        owner_layer =
            length-append r.owner_layer_shards_ids (n ∷ [])
            ∙ ap (λ k. k + 1) (sym c.owner_layer_paired);
      },
      ap (λ x. x.updates) e,
    )
