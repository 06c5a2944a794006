-- ===== src/Server/Connected.antt =====
-- server/handlers/ConnectedClientHandler.{hpp,cpp}: the requests of a client that is logged in as
-- `username`. A handler is one step: what other clients do meanwhile is the managers' matter,
-- each method of which is one step (Server/Decryptions/Reach.antt). The group's order `q`, of
-- which Shamir's numbers are the residues, is a parameter.
pub mod UserSets
pub mod Operations
pub mod Sound
pub mod Soundness
pub mod Stages
pub mod Lookups
pub mod Finished
use shared_encryption.Base.{ℕ, Bool, List, Option, none, some}
use shared_encryption.Server.Types.{Username, Uuid, Outcome, ok, throw, undefined, starved}
use shared_encryption.Base.Outcome.{◌>>=◌}
use shared_encryption.Server.Storage.{
  get_usersets, get_userset_info, get_shard_id, user_owns_userset, UserSetInfo,
}
use shared_encryption.Server.Updates.{retrieve_updates}
use shared_encryption.Server.Decryptions.{
  PrepareRecord, CollectedRecord, PartRequirement, not_required, reg_part, owner_part,
  register_participant, register_part, get_operation_userset,
}
use shared_encryption.Server.State.{
  State, Status, connected, disconnected, Result, attempt, swallow,
}
use shared_encryption.Packets.{
  LogoutRequest, MakeUserSetRequest, GetUserSetsRequest, GetMembersRequest, DecryptRequest,
  UpdateRequest, DecryptParticipateRequest, SendDecryptionPartRequest, Response, error, logout,
  make_user_set, get_user_sets, get_members, decrypt, update, decrypt_participate,
  send_decryption_part, logout_response, send_decryption_part_response, ParticipationStatus,
  send_reg_layer_part, send_owner_layer_part, participation_not_required, failed_to_create_userset,
  failed_to_fetch_usersets, failed_to_fetch_userset_members, failed_to_initiate_decryption,
  failed_to_fetch_operation, bad_request,
}
use UserSets.{make_userset}
use Operations.{initiate_decryption, continue_operation, finish_operation}

-- The variant that `recv_request` returns here.
pub data Request (Ciphertext Part : Type 0) : Type 0 where
  log_out : LogoutRequest → Request Ciphertext Part
  make_set : MakeUserSetRequest → Request Ciphertext Part
  get_sets : GetUserSetsRequest → Request Ciphertext Part
  get_members_of : GetMembersRequest → Request Ciphertext Part
  start_decryption : DecryptRequest Ciphertext → Request Ciphertext Part
  get_updates : UpdateRequest → Request Ciphertext Part
  participate : DecryptParticipateRequest → Request Ciphertext Part
  send_part : SendDecryptionPartRequest Part → Request Ciphertext Part

abbrev pub participation_status : PartRequirement → ParticipationStatus
participation_status reg_part = send_reg_layer_part
participation_status owner_part = send_owner_layer_part
participation_status not_required = participation_not_required

module _ {PubKey Ciphertext Part Salt Hash : Type 0} where
  -- With a `PrepareRecord` from the manager the operation goes on to the collection of parts.
  abbrev pub participated :
      Uuid
      → Option (PrepareRecord Ciphertext)
      → PartRequirement
      → State PubKey Ciphertext Part Salt Hash
      → Result PubKey Ciphertext Part Salt Hash
  participated opid none part s =
      (ok (decrypt_participate (record { status = participation_status part }), connected), s)
  participated opid (some prep) part s =
      swallow (continue_operation opid prep s) s
        (decrypt_participate (record { status = participation_status part }))

  -- With a `CollectedRecord` from the manager the operation ends.
  abbrev pub part_sent :
      Uuid
      → Option (CollectedRecord Part)
      → State PubKey Ciphertext Part Salt Hash
      → Result PubKey Ciphertext Part Salt Hash
  part_sent opid none s = (ok (send_decryption_part send_decryption_part_response, connected), s)
  part_sent opid (some r) s =
      swallow (finish_operation opid r s) s (send_decryption_part send_decryption_part_response)

  -- The sender's shard ID under the operation's userset, and whether the sender owns it.
  abbrev pub sender : Username → Uuid → State PubKey Ciphertext Part Salt Hash → Outcome (ℕ × Bool)
  sender username opid s = do
    userset ← get_operation_userset opid s.decryptions
    shard_id ← get_shard_id username userset s.storage
    is_owner ← user_owns_userset username userset s.storage
    ok (shard_id, is_owner)

  -- `user_owns_userset` under the operation's userset.
  abbrev pub owns_operation :
      Username → Uuid → State PubKey Ciphertext Part Salt Hash → Outcome Bool
  owns_operation username opid s = do
    userset ← get_operation_userset opid s.decryptions
    user_owns_userset username userset s.storage

  abbrev pub join_operation :
      Username
      → Uuid
      → State PubKey Ciphertext Part Salt Hash
      → Bool
      → Result PubKey Ciphertext Part Salt Hash
  join_operation username opid s is_owner =
      let (r, d) = register_participant opid username is_owner s.decryptions in
      let s' = record s { decryptions = d } in
      attempt failed_to_fetch_operation r s' (λ found. participated opid found.0 found.1 s')

  abbrev pub add_sent_part :
      Uuid
      → Part
      → State PubKey Ciphertext Part Salt Hash
      → ℕ × Bool
      → Result PubKey Ciphertext Part Salt Hash
  add_sent_part opid part s (shard_id, is_owner) =
      let (r, d) = register_part opid part shard_id is_owner s.decryptions in
      let s' = record s { decryptions = d } in
      attempt failed_to_fetch_operation r s' (λ finished. part_sent opid finished s')

module _ {PubKey Ciphertext Part Salt Hash : Type 0} (q : ℕ) (username : Username) where
  abbrev pub handle_logout :
      LogoutRequest
      → State PubKey Ciphertext Part Salt Hash
      → Result PubKey Ciphertext Part Salt Hash
  handle_logout req s = (ok (logout logout_response, disconnected), s)

  unfoldable pub handle_make_userset :
      MakeUserSetRequest
      → State PubKey Ciphertext Part Salt Hash
      → Result PubKey Ciphertext Part Salt Hash
  handle_make_userset req s =
      let (made, s') = make_userset q username req s in
      attempt failed_to_create_userset made s' (λ res. (ok (make_user_set res, connected), s'))

  unfoldable pub handle_get_usersets :
      GetUserSetsRequest
      → State PubKey Ciphertext Part Salt Hash
      → Result PubKey Ciphertext Part Salt Hash
  handle_get_usersets req s =
      attempt failed_to_fetch_usersets (get_usersets username s.storage) s
        (λ ids. (ok (get_user_sets (record { user_sets_ids = ids }), connected), s))

  unfoldable pub handle_get_members :
      GetMembersRequest
      → State PubKey Ciphertext Part Salt Hash
      → Result PubKey Ciphertext Part Salt Hash
  handle_get_members req s =
      attempt failed_to_fetch_userset_members (get_userset_info req.user_set_id s.storage) s
        (λ info. (
          ok (
            get_members (record { reg_members = info.reg_members; owners = info.owners }),
            connected,
          ),
          s,
        ))

  unfoldable pub handle_decrypt :
      DecryptRequest Ciphertext
      → State PubKey Ciphertext Part Salt Hash
      → Result PubKey Ciphertext Part Salt Hash
  handle_decrypt req s =
      let (started, s') = initiate_decryption username req.user_set_id req.ciphertext s in
      attempt failed_to_initiate_decryption started s'
        (λ opid. (ok (decrypt (record { op_id = opid }), connected), s'))

  -- `retrieve_updates` does not throw.
  unfoldable pub handle_update :
      UpdateRequest
      → State PubKey Ciphertext Part Salt Hash
      → Result PubKey Ciphertext Part Salt Hash
  handle_update req s =
      let (found, updates) = retrieve_updates username s.updates in
      (ok (update found, connected), record s { updates = updates })

  unfoldable pub handle_participate :
      DecryptParticipateRequest
      → State PubKey Ciphertext Part Salt Hash
      → Result PubKey Ciphertext Part Salt Hash
  handle_participate req s =
      attempt failed_to_fetch_operation (owns_operation username req.op_id s) s
        (join_operation username req.op_id s)

  unfoldable pub handle_send_part :
      SendDecryptionPartRequest Part
      → State PubKey Ciphertext Part Salt Hash
      → Result PubKey Ciphertext Part Salt Hash
  handle_send_part req s =
      attempt failed_to_fetch_operation (sender username req.op_id s) s
        (add_sent_part req.op_id req.decryption_part s)

  abbrev pub handle_request :
      Request Ciphertext Part
      → State PubKey Ciphertext Part Salt Hash
      → Result PubKey Ciphertext Part Salt Hash
  handle_request (log_out req) s = handle_logout req s
  handle_request (make_set req) s = handle_make_userset req s
  handle_request (get_sets req) s = handle_get_usersets req s
  handle_request (get_members_of req) s = handle_get_members req s
  handle_request (start_decryption req) s = handle_decrypt req s
  handle_request (get_updates req) s = handle_update req s
  handle_request (participate req) s = handle_participate req s
  handle_request (send_part req) s = handle_send_part req s

  -- A request that cannot be read (`none`) is answered by an error.
  abbrev pub iteration :
      Option (Request Ciphertext Part)
      → State PubKey Ciphertext Part Salt Hash
      → Result PubKey Ciphertext Part Salt Hash
  iteration (some req) s = handle_request req s
  iteration none s = (ok (error (record { msg = bad_request }), connected), s)
