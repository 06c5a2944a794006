-- ===== src/Server/Connected/Operations.antt =====
-- `initiate_decryption`, `continue_operation` and `finish_operation` of
-- server/handlers/ConnectedClientHandler.cpp. The last two throw, if at all, before they register
-- an update: their outcome holds the new state.
use shared_encryption.Base.{List, [], ◌∷◌, ◌++◌, none, some, ◌==◌, ◌&&◌, if◌then◌else◌}
use shared_encryption.Base.Key.{bytes_key, same}
use shared_encryption.Base.Outcome.{◌>>=◌}
use shared_encryption.Server.Types.{Username, Uuid, Outcome, ok, throw, undefined, starved}
use shared_encryption.Server.Storage.{UserSetInfo, get_userset_info, get_shard_id}
use shared_encryption.Server.Updates.{
  UpdateManager, ToDecryptRecord, register_lookup, register_decryption_participating,
  register_finished_decryption,
}
use shared_encryption.Server.Decryptions.{
  PrepareRecord, CollectedRecord, start_collecting, new_operation, prepare_operation,
}
use shared_encryption.Server.State.{State}
use shared_encryption.Server.Connected.UserSets.{get_shard_ids}

module _ {PubKey Ciphertext Part : Type 0} where
  -- The filtered loop: a lookup for every member but the requester.
  unfoldable pub register_lookups :
      Username
      → Uuid
      → List Username
      → UpdateManager PubKey Ciphertext Part
      → UpdateManager PubKey Ciphertext Part
  register_lookups requester opid [] m = m
  register_lookups requester opid (u ∷ us) m =
      register_lookups requester opid us (if same u requester then m else register_lookup u opid m)

  unfoldable pub ask_for_parts :
      ToDecryptRecord Ciphertext
      → List Username
      → UpdateManager PubKey Ciphertext Part
      → UpdateManager PubKey Ciphertext Part
  ask_for_parts to_decrypt [] m = m
  ask_for_parts to_decrypt (u ∷ us) m =
      ask_for_parts to_decrypt us (register_decryption_participating u to_decrypt m)

module _ {PubKey Ciphertext Part Salt Hash : Type 0} where
  unfoldable pub finish_operation :
      Uuid
      → CollectedRecord Part
      → State PubKey Ciphertext Part Salt Hash
      → Outcome (State PubKey Ciphertext Part Salt Hash)
  finish_operation opid r s = do
    n ← get_shard_id r.requester r.userset_id s.storage
    ok (record s {
      updates =
          register_finished_decryption r.requester
            (record {
              op_id = opid;
              reg_layer_parts = r.reg_layer_parts;
              owner_layer_parts = r.owner_layer_parts;
              reg_layer_shards_ids = r.reg_layer_shards_ids ++ n ∷ [];
              owner_layer_shards_ids = r.owner_layer_shards_ids ++ n ∷ [];
            })
            s.updates;
    })

  unfoldable pub continue_operation :
      Uuid
      → PrepareRecord Ciphertext
      → State PubKey Ciphertext Part Salt Hash
      → Outcome (State PubKey Ciphertext Part Salt Hash)
  continue_operation opid r s = do
    n ← get_shard_id r.requester r.userset_id s.storage
    os ← get_shard_ids r.userset_id s.storage r.owners_found
    rs ← get_shard_ids r.userset_id s.storage r.reg_members_found
    ok (record s {
      updates =
          ask_for_parts (record { op_id = opid; ciphertext = r.ciphertext; shards_ids = n ∷ rs })
            r.reg_members_found
            (ask_for_parts (record { op_id = opid; ciphertext = r.ciphertext; shards_ids = n ∷ os })
              r.owners_found s.updates);
    })

  -- The ID, after `finish_operation`.
  abbrev pub finished_at_once :
      Uuid
      → Outcome (State PubKey Ciphertext Part Salt Hash)
      → State PubKey Ciphertext Part Salt Hash
      → Outcome Uuid × State PubKey Ciphertext Part Salt Hash
  finished_at_once opid (ok s') s = (ok opid, s')
  finished_at_once opid (throw e) s = (throw e, s)
  finished_at_once opid undefined s = (undefined, s)
  finished_at_once opid starved s = (starved, s)

  -- `initiate_decryption` of a userset with these data.
  unfoldable pub start_operation :
      Username
      → Uuid
      → Ciphertext
      → UserSetInfo
      → State PubKey Ciphertext Part Salt Hash
      → Outcome Uuid × State PubKey Ciphertext Part Salt Hash
  unfolding finish_operation
  start_operation username userset_id ciphertext info s =
      elim (new_operation s.op_uuids s.decryptions) [
        | none ↦ (starved, s)
        | some (opid, rest, d) ↦
            let s' = record s { op_uuids = rest; decryptions = d } in
            if (0 == info.owners_threshold) && (0 == info.reg_members_threshold)
            then finished_at_once opid
                (finish_operation opid
                  (start_collecting username userset_id info.owners_threshold
                    info.reg_members_threshold)
                  s')
                s'
            else (
              ok opid,
              record s' {
                decryptions =
                    prepare_operation opid username userset_id ciphertext info.owners_threshold
                      info.reg_members_threshold d;
                updates =
                    register_lookups username opid (info.owners ++ info.reg_members) s.updates;
              },
            )
      ]

  unfoldable pub initiate_decryption :
      Username
      → Uuid
      → Ciphertext
      → State PubKey Ciphertext Part Salt Hash
      → Outcome Uuid × State PubKey Ciphertext Part Salt Hash
  unfolding start_operation
  initiate_decryption username userset_id ciphertext s =
      elim (get_userset_info userset_id s.storage) [
        | throw e ↦ (throw e, s)
        | undefined ↦ (undefined, s)
        | starved ↦ (starved, s)
        | ok info ↦ start_operation username userset_id ciphertext info s
      ]
