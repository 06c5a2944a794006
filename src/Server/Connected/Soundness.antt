-- ===== src/Server/Connected/Soundness.antt =====
-- The server's invariant under the requests of server/handlers/ConnectedClientHandler.cpp: that of
-- the storage and that of the decryptions manager.
use shared_encryption.Base.{
  ℕ, ◌+◌, ◌≤◌, ◌≡◌, Bool, false, List, [], ◌∷◌, ◌++◌, Option, none, some, inl, inr, arith,
  Bool-cases, Option-cases, ◌==◌, ◌&&◌,
}
use shared_encryption.Base.Key.{nat_key, bytes_key}
use shared_encryption.Base.Map.{find}
use shared_encryption.Server.Types.{Username, Uuid, Outcome, ok, throw, undefined, starved}
use shared_encryption.Server.Storage.{get_userset_info, get_usersets, UserSetInfo}
use shared_encryption.Server.Storage.Creation.{new_userset-IsValid}
use shared_encryption.Server.Decryptions.{
  PrepareRecord, CollectedRecord, PartRequirement, new_operation, register_participant,
  register_part, start_collecting,
}
use shared_encryption.Server.Decryptions.Invariant.{
  new_operation-IsValid, prepare_operation-IsValid, register_participant-IsValid,
  register_part-IsValid,
}
use shared_encryption.Server.Decryptions.Reach.{new_operation_fresh}
use shared_encryption.Server.State.{State}
use shared_encryption.Packets.{failed_to_fetch_operation, MakeUserSetRequest}
use shared_encryption.Sharing.Shards.{sample_poly}
use shared_encryption.Server.Connected.UserSets.{
  Dealt, deal, distribute, share_with, shared, make_userset,
}
use shared_encryption.Server.Connected.Operations.{
  finish_operation, continue_operation, finished_at_once, start_operation, initiate_decryption,
}
use shared_encryption.Server.Connected.{
  Request, log_out, make_set, get_sets, get_members_of, start_decryption, get_updates, participate,
  send_part, handle_request, handle_make_userset, handle_get_usersets, handle_get_members,
  handle_decrypt, handle_update, handle_participate, handle_send_part, participated, part_sent,
  sender, owns_operation, join_operation, add_sent_part,
}
use shared_encryption.Server.Connected.Sound.{
  IsSound, AllSound, attempt-IsSound, swallow-IsSound, finish_operation-AllSound,
  continue_operation-AllSound,
}

needed : (a b : ℕ) → ((0 == a) && (0 == b)) ≡ false → 1 ≤ a + b
needed a b h = ground arith

module _ {PubKey Ciphertext Part Salt Hash : Type 0} where
  distribute-IsSound :
      (req : MakeUserSetRequest) (id : Uuid) (a b : PubKey) (o : Outcome Dealt)
      (s : State PubKey Ciphertext Part Salt Hash)
      → IsSound s
      → IsSound (distribute req id a b o s).1
  distribute-IsSound req id a b (ok d) s v = record {
    storage_valid = v.storage_valid;
    decryptions_valid = v.decryptions_valid;
  }
  distribute-IsSound req id a b (throw e) s v = v
  distribute-IsSound req id a b undefined s v = v
  distribute-IsSound req id a b starved s v = v

  finished_at_once-IsSound :
      (opid : Uuid) (o : Outcome (State PubKey Ciphertext Part Salt Hash))
      (s : State PubKey Ciphertext Part Salt Hash)
      → AllSound o
      → IsSound s
      → IsSound (finished_at_once opid o s).1
  finished_at_once-IsSound opid (ok s') s h v = h
  finished_at_once-IsSound opid (throw e) s h v = v
  finished_at_once-IsSound opid undefined s h v = v
  finished_at_once-IsSound opid starved s h v = v

  share_with-IsSound :
      (q : ℕ) (creator : Username) (req : MakeUserSetRequest) (id : Uuid) (keys : List (PubKey × ℕ))
      (s : State PubKey Ciphertext Part Salt Hash)
      → IsSound s
      → IsSound (share_with q creator req id keys s).1
  unfolding share_with
  share_with-IsSound q creator req id [] s v = v
  share_with-IsSound q creator req id (k ∷ []) s v = v
  share_with-IsSound q creator req id ((reg_key, reg_secret) ∷ (owner_key, owner_secret) ∷ keys) s
        v =
      elim (Option-cases (sample_poly q reg_secret req.reg_members_threshold s.coeffs)) [
        | inl e ↦ rw (e, share_with) v
        | inr ((reg_poly, draws), e) ↦
            elim (Option-cases (sample_poly q owner_secret req.owners_threshold draws)) [
              | inl e' ↦ rw (e, e', share_with) v
              | inr ((owner_poly, coeffs), e') ↦
                  rw (e, e', share_with)
                    (distribute-IsSound req id reg_key owner_key
                      (deal q creator req reg_poly owner_poly id s.storage) _
                      (record {
                        storage_valid = v.storage_valid;
                        decryptions_valid = v.decryptions_valid;
                      }))
            ]
      ]

  shared-IsSound :
      (q : ℕ) (creator : Username) (req : MakeUserSetRequest) (o : Outcome Uuid)
      (s : State PubKey Ciphertext Part Salt Hash)
      → IsSound s
      → IsSound (shared q creator req o s).1
  shared-IsSound q creator req (ok id) s v = share_with-IsSound q creator req id s.keys s v
  shared-IsSound q creator req (throw e) s v = v
  shared-IsSound q creator req undefined s v = v
  shared-IsSound q creator req starved s v = v

  make_userset-IsSound :
      (q : ℕ) (creator : Username) (req : MakeUserSetRequest)
      (s : State PubKey Ciphertext Part Salt Hash)
      → IsSound s
      → IsSound (make_userset q creator req s).1
  unfolding make_userset
  make_userset-IsSound q creator req s v = shared-IsSound q creator req _ _ (record {
    storage_valid =
        new_userset-IsValid (req.owners ++ creator ∷ []) req.reg_members req.owners_threshold
          req.reg_members_threshold s.storage v.storage_valid;
    decryptions_valid = v.decryptions_valid;
  })

  start_operation-IsSound :
      (username : Username) (userset_id : Uuid) (c : Ciphertext) (info : UserSetInfo)
      (s : State PubKey Ciphertext Part Salt Hash)
      → IsSound s
      → IsSound (start_operation username userset_id c info s).1
  unfolding start_operation
  start_operation-IsSound username userset_id c info s v =
      elim (Option-cases (new_operation s.op_uuids s.decryptions)) [
        | inl e ↦ rw (e, start_operation) v
        | inr ((opid, rest, d), e) ↦
            let valid =
              new_operation-IsValid s.op_uuids s.decryptions d opid rest e v.decryptions_valid in
            let fresh =
              new_operation_fresh s.op_uuids rest opid s.decryptions d v.decryptions_valid e in
            let s' = record s { op_uuids = rest; decryptions = d } in
            let sound : IsSound s' = record {
              storage_valid = v.storage_valid;
              decryptions_valid = valid;
            } in
            elim (Bool-cases ((0 == info.owners_threshold) && (0 == info.reg_members_threshold))) [
              | inl nothing ↦
                  rw (e, nothing, start_operation)
                    (finished_at_once-IsSound opid _ s'
                      (finish_operation-AllSound opid
                        (start_collecting username userset_id info.owners_threshold
                          info.reg_members_threshold)
                        s' sound)
                      sound)
              | inr some_needed ↦
                  rw (e, some_needed, start_operation)
                    (record {
                      storage_valid = v.storage_valid;
                      decryptions_valid =
                          prepare_operation-IsValid opid username userset_id c info.owners_threshold
                            info.reg_members_threshold d fresh.0 fresh.3
                            (needed info.owners_threshold info.reg_members_threshold some_needed)
                            valid;
                    })
            ]
      ]

  initiate_decryption-IsSound :
      (username : Username) (userset_id : Uuid) (c : Ciphertext)
      (s : State PubKey Ciphertext Part Salt Hash)
      → IsSound s
      → IsSound (initiate_decryption username userset_id c s).1
  unfolding initiate_decryption get_userset_info
  initiate_decryption-IsSound username userset_id c s v =
      elim (Option-cases (find userset_id s.storage.usersets)) [
        | inl e ↦ rw (e, initiate_decryption) v
        | inr (info, e) ↦
            rw (e, initiate_decryption) (start_operation-IsSound username userset_id c info s v)
      ]

  participated-IsSound :
      (opid : Uuid) (found : Option (PrepareRecord Ciphertext)) (part : PartRequirement)
      (s : State PubKey Ciphertext Part Salt Hash)
      → IsSound s
      → IsSound (participated opid found part s).1
  participated-IsSound opid none part s v = v
  participated-IsSound opid (some r) part s v =
      swallow-IsSound (continue_operation opid r s) s _ (continue_operation-AllSound opid r s v) v

  part_sent-IsSound :
      (opid : Uuid) (found : Option (CollectedRecord Part))
      (s : State PubKey Ciphertext Part Salt Hash)
      → IsSound s
      → IsSound (part_sent opid found s).1
  part_sent-IsSound opid none s v = v
  part_sent-IsSound opid (some r) s v =
      swallow-IsSound (finish_operation opid r s) s _ (finish_operation-AllSound opid r s v) v

  join_operation-IsSound :
      (username : Username) (opid : Uuid) (s : State PubKey Ciphertext Part Salt Hash)
      (is_owner : Bool)
      → IsSound s
      → IsSound (join_operation username opid s is_owner).1
  join_operation-IsSound username opid s is_owner v =
      let s' = record s {
        decryptions = (register_participant opid username is_owner s.decryptions).1;
      } in
      let next : IsSound s' = record {
        storage_valid = v.storage_valid;
        decryptions_valid =
            register_participant-IsValid opid username is_owner s.decryptions v.decryptions_valid;
      } in
      attempt-IsSound failed_to_fetch_operation
        (register_participant opid username is_owner s.decryptions).0 s'
        (λ found. participated opid found.0 found.1 s') next
        (λ found. participated-IsSound opid found.0 found.1 s' next)

  add_sent_part-IsSound :
      (opid : Uuid) (part : Part) (s : State PubKey Ciphertext Part Salt Hash) (from : ℕ × Bool)
      → IsSound s
      → IsSound (add_sent_part opid part s from).1
  add_sent_part-IsSound opid part s from v =
      let s' = record s { decryptions = (register_part opid part from.0 from.1 s.decryptions).1 } in
      let next : IsSound s' = record {
        storage_valid = v.storage_valid;
        decryptions_valid =
            register_part-IsValid opid part from.0 from.1 s.decryptions v.decryptions_valid;
      } in
      attempt-IsSound failed_to_fetch_operation
        (register_part opid part from.0 from.1 s.decryptions).0 s'
        (λ finished. part_sent opid finished s') next
        (λ finished. part_sent-IsSound opid finished s' next)

  -- Every request, whatever its outcome, keeps the storage and the decryptions manager valid.
  pub handle_request-IsSound :
      (q : ℕ) (username : Username) (req : Request Ciphertext Part)
      (s : State PubKey Ciphertext Part Salt Hash)
      → IsSound s
      → IsSound (handle_request q username req s).1
  unfolding handle_make_userset handle_get_usersets handle_get_members handle_decrypt handle_update
      handle_participate handle_send_part
  handle_request-IsSound q username (log_out req) s v = v
  handle_request-IsSound q username (make_set req) s v =
      let next = make_userset-IsSound q username req s v in
      attempt-IsSound _ (make_userset q username req s).0 (make_userset q username req s).1 _ next
        (λ res. next)
  handle_request-IsSound q username (get_sets req) s v =
      attempt-IsSound _ (get_usersets username s.storage) s _ v (λ ids. v)
  handle_request-IsSound q username (get_members_of req) s v =
      attempt-IsSound _ (get_userset_info req.user_set_id s.storage) s _ v (λ info. v)
  handle_request-IsSound q username (start_decryption req) s v =
      let next = initiate_decryption-IsSound username req.user_set_id req.ciphertext s v in
      attempt-IsSound _ _ _ _ next (λ opid. next)
  handle_request-IsSound q username (get_updates req) s v = record {
    storage_valid = v.storage_valid;
    decryptions_valid = v.decryptions_valid;
  }
  handle_request-IsSound q username (participate req) s v =
      attempt-IsSound failed_to_fetch_operation (owns_operation username req.op_id s) s
        (join_operation username req.op_id s) v
        (λ is_owner. join_operation-IsSound username req.op_id s is_owner v)
  handle_request-IsSound q username (send_part req) s v =
      attempt-IsSound failed_to_fetch_operation (sender username req.op_id s) s
        (add_sent_part req.op_id req.decryption_part s) v
        (λ from. add_sent_part-IsSound req.op_id req.decryption_part s from v)
