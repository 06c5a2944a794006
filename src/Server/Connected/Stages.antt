-- ===== src/Server/Connected/Stages.antt =====
-- The stages of an operation as the requests of ConnectedClientHandler.cpp see them.
use shared_encryption.Base.{ℕ, ◌≡◌, refl, Bool, List, [], ◌∷◌, none, some}
use shared_encryption.Base.Key.{nat_key, bytes_key, pair_key}
use shared_encryption.Base.Map.{find}
use shared_encryption.Base.Set.{contains}
use shared_encryption.Server.Types.{
  Username, Uuid, ok, throw, undefined, userset_not_found_exception,
}
use shared_encryption.Server.Storage.{
  Storage, UserSetInfo, UserRecord, get_userset_info, get_shard_id, user_owns_userset,
}
use shared_encryption.Server.Updates.{no_updates, register_finished_decryption}
use shared_encryption.Server.Updates.Mailbox.{retrieve_twice}
use shared_encryption.Server.Decryptions.{
  DecryptionsManager, PrepareRecord, get_operation_userset, register_part, new_operation,
}
use shared_encryption.Server.State.{State, connected}
use shared_encryption.Server.Connected.Operations.{
  initiate_decryption, start_operation, finish_operation,
}
use shared_encryption.Server.Connected.{handle_send_part, handle_update, handle_decrypt}
use shared_encryption.Packets.{
  error, failed_to_initiate_decryption, update, update_request, DecryptRequest, decrypt,
}

module _ {Ciphertext Part : Type 0} (opid : Uuid) (d : DecryptionsManager Ciphertext Part) where
  userset_of_prep :
      (r : PrepareRecord Ciphertext)
      → find opid d.prep ≡ some r
      → get_operation_userset opid d ≡ ok r.userset_id
  unfolding get_operation_userset
  userset_of_prep r e = rw (e, get_operation_userset) refl

  part_of_none :
      (part : Part) (n : ℕ) (is_owner : Bool)
      → find opid d.collected ≡ none
      → register_part opid part n is_owner d ≡ (undefined, d)
  unfolding register_part
  part_of_none part n is_owner e = rw (e, register_part) refl

module _ {Salt Hash : Type 0} (u : Username) (id : Uuid) (s : Storage Salt Hash) where
  shard_id_of : (n : ℕ) → find (u, id) s.shard_ids ≡ some n → get_shard_id u id s ≡ ok n
  unfolding get_shard_id
  shard_id_of n e = rw (e, get_shard_id) refl

  owns_of :
      (r : UserRecord Salt Hash)
      → find u s.users ≡ some r
      → user_owns_userset u id s ≡ ok (contains r.usersets id)
  unfolding user_owns_userset
  owns_of r e = rw (e, user_owns_userset) refl

  info_of : (info : UserSetInfo) → find id s.usersets ≡ some info → get_userset_info id s ≡ ok info
  unfolding get_userset_info
  info_of info e = rw (e, get_userset_info) refl

  info_of_none :
      find id s.usersets ≡ none → get_userset_info id s ≡ throw userset_not_found_exception
  unfolding get_userset_info
  info_of_none e = rw (e, get_userset_info) refl

module _ {PubKey Ciphertext Part Salt Hash : Type 0} (q : ℕ) (username : Username) where
  -- A member who sends a part while the operation still looks for participants makes the server
  -- use an iterator that points to no operation: the behaviour is undefined.
  pub early_part_undefined :
      (opid : Uuid) (part : Part) (s : State PubKey Ciphertext Part Salt Hash)
      (r : PrepareRecord Ciphertext) (user : UserRecord Salt Hash) (n : ℕ)
      → find opid s.decryptions.prep ≡ some r
      → find opid s.decryptions.collected ≡ none
      → find username s.storage.users ≡ some user
      → find (username, r.userset_id) s.storage.shard_ids ≡ some n
      → handle_send_part q username (record { op_id = opid; decryption_part = part }) s
        ≡ (undefined, s)
  unfolding handle_send_part
  early_part_undefined opid part s r user n e f g h =
      rw
        (
          userset_of_prep opid s.decryptions r e,
          shard_id_of username r.userset_id s.storage n h,
          owns_of username r.userset_id s.storage user g,
          part_of_none opid s.decryptions part n (contains user.usersets r.userset_id) f,
        )
        refl

  -- A decryption under a userset that does not exist is refused, and nothing changes.
  pub unknown_userset_refused :
      (req : DecryptRequest Ciphertext) (s : State PubKey Ciphertext Part Salt Hash)
      → find req.user_set_id s.storage.usersets ≡ none
      → handle_decrypt q username req s ≡ (
        ok (
          error (record { msg = failed_to_initiate_decryption userset_not_found_exception }),
          connected,
        ),
        s,
      )
  unfolding handle_decrypt initiate_decryption
  unknown_userset_refused req s e =
      rw (info_of_none username req.user_set_id s.storage e, initiate_decryption) refl

  -- Under a userset whose thresholds are both 0 a member's operation ends as it starts: no operation is
  -- prepared, and the member's mailbox gets the result, without parts and with the member's own
  -- shard ID in both layers.
  pub zero_thresholds_finish :
      (req : DecryptRequest Ciphertext) (s : State PubKey Ciphertext Part Salt Hash)
      (info : UserSetInfo) (n : ℕ) (opid : Uuid) (rest : List Uuid)
      (d : DecryptionsManager Ciphertext Part)
      → find req.user_set_id s.storage.usersets ≡ some info
      → info.owners_threshold ≡ 0
      → info.reg_members_threshold ≡ 0
      → find (username, req.user_set_id) s.storage.shard_ids ≡ some n
      → new_operation s.op_uuids s.decryptions ≡ some (opid, rest, d)
      → handle_decrypt q username req s ≡ (
        ok (decrypt (record { op_id = opid }), connected),
        record s {
          op_uuids = rest;
          decryptions = d;
          updates =
              register_finished_decryption username
                (record {
                  op_id = opid;
                  reg_layer_parts = [];
                  owner_layer_parts = [];
                  reg_layer_shards_ids = n ∷ [];
                  owner_layer_shards_ids = n ∷ [];
                })
                s.updates;
        },
      )
  unfolding handle_decrypt initiate_decryption start_operation finish_operation
  zero_thresholds_finish req s info n opid rest d e a b g f =
      rw
        (
          info_of username req.user_set_id s.storage info e,
          initiate_decryption,
          f,
          start_operation,
          a,
          b,
          shard_id_of username req.user_set_id s.storage n g,
        )
        refl

  -- Updates are handed out once: asked again, the server has nothing.
  pub handle_update_twice :
      (s : State PubKey Ciphertext Part Salt Hash)
      → (handle_update q username update_request (handle_update q username update_request s).1).0
        ≡ ok (update no_updates, connected)
  unfolding handle_update
  handle_update_twice s = rw (retrieve_twice username s.updates) refl
