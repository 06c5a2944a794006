-- ===== src/Server/Decryptions/Reach.antt =====
-- The states of server/managers/DecryptionsManager.cpp that threads can bring about, one method at
-- a time. A thread that starts an operation calls `new_operation`, and later `prepare_operation` with
-- the ID that it got; the methods lock separately, so that other threads may act in between. The
-- read of `_allOpIDs` in `register_participant`, which does not lock that set, is a part of
-- its step: what an access to the set at the same time does is not modelled.
use shared_encryption.Base.{
  ℕ_discrete, ite, if_pos, ℕ, ◌+◌, ◌≤◌, ◌≡◌, ◌≢◌, Bool, true, false, List, [], ◌∷◌, none, some, inl,
  inr, arith, All, All-imp, Option-cases, if_neg, refl, ◌∙◌, sym, ap, subst,
}
use shared_encryption.Base.Key.{nat_key, bytes_key}
use shared_encryption.Base.Map.{find, find-emplace}
use shared_encryption.Base.Set.{contains, contains-insert}
use shared_encryption.Base.Random.{generate_not_pred-new}
use shared_encryption.Server.Types.{Username, Uuid}
use shared_encryption.Server.Decryptions.{
  DecryptionsManager, start_looking, new_operation, prepare_operation, enlist, settle, gather,
  register_participant, register_part,
}
use shared_encryption.Server.Decryptions.Invariant.{
  IsValid, new_operation-IsValid, prepare_operation-IsValid, register_participant-IsValid,
  register_part-IsValid,
}
use shared_encryption.Server.Decryptions.Stages.{
  register-missing_state, register_participant_frame, register_part_frame,
}

-- The manager, and the IDs that threads got and did not prepare yet.
pub record Threads (C P : Type 0) : Type 0 where
  pub manager : DecryptionsManager C P
  pub unprepared : List Uuid

unfoldable pub others : Uuid → List Uuid → List Uuid
others opid [] = []
others opid (o ∷ os) = ite (ℕ_discrete o opid) (others opid os) (o ∷ others opid os)

-- One method of the manager, called by some thread.
pub data Step {C P : Type 0} (t t' : Threads C P) : Type 0 where
  -- `initiate_decryption` gets an ID
  begin :
      (uuids rest : List Uuid) (opid : Uuid) (d' : DecryptionsManager C P)
      → new_operation uuids t.manager ≡ some (opid, rest, d')
      → t' ≡ record { manager = d'; unprepared = opid ∷ t.unprepared }
      → Step t t'
  -- and goes on, with a threshold that is not 0
  prepare :
      (opid : Uuid) (requester : Username) (userset_id : Uuid) (c : C) (owners reg_members : ℕ)
      → contains t.unprepared opid ≡ true
      → 1 ≤ owners + reg_members
      → t' ≡ record {
        manager = prepare_operation opid requester userset_id c owners reg_members t.manager;
        unprepared = others opid t.unprepared;
      }
      → Step t t'
  -- or is done with the ID, with both thresholds 0
  finish_at_once :
      (opid : Uuid) → t' ≡ record t { unprepared = others opid t.unprepared } → Step t t'
  participate :
      (opid : Uuid) (u : Username) (is_owner : Bool)
      → t' ≡ record t { manager = (register_participant opid u is_owner t.manager).1 }
      → Step t t'
  send_part :
      (opid : Uuid) (part : P) (shard_id : ℕ) (is_owner : Bool)
      → t' ≡ record t { manager = (register_part opid part shard_id is_owner t.manager).1 }
      → Step t t'

pub data Reach {C P : Type 0} (t : Threads C P) : Threads C P → Type 0 where
  here : Reach t t
  next : {t' t'' : Threads C P} → Reach t t' → Step t' t'' → Reach t t''

module _ {C P : Type 0} where
  unknown_absent :
      (d : DecryptionsManager C P) (o : Uuid)
      → IsValid d
      → contains d.all_op_ids o ≡ false
      → (find o d.prep ≡ none) × (find o d.collected ≡ none)
  unknown_absent d o v unknown = (
    elim (Option-cases (find o d.prep)) [
      | inl e ↦ e
      | inr (r, e) ↦ cc (unknown, v.prep_known o r e)
    ],
    elim (Option-cases (find o d.collected)) [
      | inl e ↦ e
      | inr (r, e) ↦ cc (unknown, v.collected_known o r e)
    ],
  )

  -- In a valid manager, an ID that `new_operation` made was not known before, is known now, and is
  -- in neither stage.
  pub new_operation_fresh :
      (uuids rest : List Uuid) (opid : Uuid) (d d' : DecryptionsManager C P)
      → IsValid d
      → new_operation uuids d ≡ some (opid, rest, d')
      → (contains d'.all_op_ids opid ≡ true)
        × (contains d.all_op_ids opid ≡ false)
        × (find opid d'.prep ≡ none)
        × (find opid d'.collected ≡ none)
  unfolding new_operation
  new_operation_fresh uuids rest opid d d' v e = ground (
    arith,
    generate_not_pred-new (contains d.all_op_ids) uuids opid rest,
    contains-insert opid opid d.all_op_ids,
    unknown_absent d opid v,
  )

  -- An ID that was made and not prepared: it is known, and in neither stage.
  pub record Fresh (d : DecryptionsManager C P) (o : Uuid) : Type 0 where
    pub is_known : contains d.all_op_ids o ≡ true
    pub not_looking : find o d.prep ≡ none
    pub not_collecting : find o d.collected ≡ none

  pub record ThreadsValid (t : Threads C P) : Type 0 where
    pub manager_valid : IsValid t.manager
    pub unprepared_fresh : All (Fresh t.manager) t.unprepared

  Fresh-others :
      (d : DecryptionsManager C P) (opid : Uuid) (os : List Uuid)
      → All (Fresh d) os
      → All (λ o. Fresh d o × (opid ≢ o)) (others opid os)
  unfolding others
  Fresh-others d opid [] h = tt
  Fresh-others d opid (o ∷ os) h = elim (ℕ_discrete o opid) [
    | yes e ↦ rw (if_pos _ e) (Fresh-others d opid os h.1)
    | no ne ↦ rw (if_neg _ ne) ((h.0, λ e. ne (sym e)), Fresh-others d opid os h.1)
  ]

  Fresh-contains :
      (d : DecryptionsManager C P) (opid : Uuid) (os : List Uuid)
      → All (Fresh d) os
      → contains os opid ≡ true
      → Fresh d opid
  unfolding contains
  Fresh-contains d opid [] h e = absurd (cc e)
  Fresh-contains d opid (o ∷ os) h e = elim (ℕ_discrete o opid) [
    | yes same ↦ subst (Fresh d) same h.0
    | no ne ↦ Fresh-contains d opid os h.1 (rw (if_neg _ ne) at e)
  ]

  Fresh-new_operation :
      (uuids rest : List Uuid) (opid : Uuid) (d d' : DecryptionsManager C P)
      → new_operation uuids d ≡ some (opid, rest, d')
      → (o : Uuid) → Fresh d o
      → Fresh d' o
  unfolding new_operation
  Fresh-new_operation uuids rest opid d d' e o f = record {
    is_known = ground (arith, f.is_known, contains-insert opid o d.all_op_ids);
    not_looking = ground (arith, f.not_looking);
    not_collecting = ground (arith, f.not_collecting);
  }

  Fresh-prepare_operation :
      (opid : Uuid) (requester : Username) (userset_id : Uuid) (c : C) (owners reg_members : ℕ)
      (d : DecryptionsManager C P) (o : Uuid)
      → Fresh d o × (opid ≢ o)
      → Fresh (prepare_operation opid requester userset_id c owners reg_members d) o
  unfolding prepare_operation
  Fresh-prepare_operation opid requester userset_id c owners reg_members d o f =
      let r = start_looking requester userset_id c owners reg_members in
      record {
        is_known = f.0.is_known;
        not_looking = ground (arith, find-emplace opid o r d.prep, f.1, f.0.not_looking);
        not_collecting = f.0.not_collecting;
      }

  register_participant-all_op_ids :
      (opid : Uuid) (u : Username) (is_owner : Bool) (d : DecryptionsManager C P)
      → (register_participant opid u is_owner d).1.all_op_ids ≡ d.all_op_ids
  unfolding register_participant settle enlist
  register_participant-all_op_ids opid u is_owner d = ground arith

  register_part-all_op_ids :
      (opid : Uuid) (p : P) (shard_id : ℕ) (is_owner : Bool) (d : DecryptionsManager C P)
      → (register_part opid p shard_id is_owner d).1.all_op_ids ≡ d.all_op_ids
  unfolding register_part gather
  register_part-all_op_ids opid p shard_id is_owner d = ground arith

  Fresh-register_participant :
      (opid : Uuid) (u : Username) (is_owner : Bool) (d : DecryptionsManager C P) (o : Uuid)
      → Fresh d o
      → Fresh (register_participant opid u is_owner d).1 o
  Fresh-register_participant opid u is_owner d o f = elim (ℕ_discrete opid o) [
    | yes e ↦
        rw (register-missing_state opid u is_owner d (ap (λ k. find k d.prep) e ∙ f.not_looking)) f
    | no ne ↦
        let frame = register_participant_frame opid o u is_owner d ne in
        record {
          is_known = rw (register_participant-all_op_ids opid u is_owner d) f.is_known;
          not_looking = frame.0 ∙ f.not_looking;
          not_collecting = frame.1 ∙ f.not_collecting;
        }
  ]

  register_part-missing_state :
      (opid : Uuid) (p : P) (shard_id : ℕ) (is_owner : Bool) (d : DecryptionsManager C P)
      → find opid d.collected ≡ none
      → (register_part opid p shard_id is_owner d).1 ≡ d
  unfolding register_part
  register_part-missing_state opid p shard_id is_owner d e = rw (e, register_part) refl

  Fresh-register_part :
      (opid : Uuid) (p : P) (shard_id : ℕ) (is_owner : Bool) (d : DecryptionsManager C P) (o : Uuid)
      → Fresh d o
      → Fresh (register_part opid p shard_id is_owner d).1 o
  Fresh-register_part opid p shard_id is_owner d o f = elim (ℕ_discrete opid o) [
    | yes e ↦
        rw
          (register_part-missing_state opid p shard_id is_owner d
            (ap (λ k. find k d.collected) e ∙ f.not_collecting))
          f
    | no ne ↦
        let frame = register_part_frame opid o p shard_id is_owner d ne in
        record {
          is_known = rw (register_part-all_op_ids opid p shard_id is_owner d) f.is_known;
          not_looking = frame.0 ∙ f.not_looking;
          not_collecting = frame.1 ∙ f.not_collecting;
        }
  ]

  Step-ThreadsValid : (t t' : Threads C P) → Step t t' → ThreadsValid t → ThreadsValid t'
  Step-ThreadsValid t t' (begin uuids rest opid d' made e) v =
      let f = new_operation_fresh uuids rest opid t.manager d' v.manager_valid made in
      rw e (record {
        manager_valid = new_operation-IsValid uuids t.manager d' opid rest made v.manager_valid;
        unprepared_fresh = (
          record { is_known = f.0; not_looking = f.2; not_collecting = f.3 },
          All-imp (Fresh t.manager) (Fresh d')
              (Fresh-new_operation uuids rest opid t.manager d' made) t.unprepared
              v.unprepared_fresh,
        );
      })
  Step-ThreadsValid t t' (prepare opid requester userset_id c owners reg_members held some_part e)
        v =
      let d' = prepare_operation opid requester userset_id c owners reg_members t.manager in
      let f = Fresh-contains t.manager opid t.unprepared v.unprepared_fresh held in
      rw e (record {
        manager_valid =
            prepare_operation-IsValid opid requester userset_id c owners reg_members t.manager
              f.is_known f.not_collecting some_part v.manager_valid;
        unprepared_fresh =
            All-imp (λ o. Fresh t.manager o × (opid ≢ o)) (Fresh d')
              (Fresh-prepare_operation opid requester userset_id c owners reg_members t.manager)
              (others opid t.unprepared)
              (Fresh-others t.manager opid t.unprepared v.unprepared_fresh);
      })
  Step-ThreadsValid t t' (finish_at_once opid e) v = rw e (record {
    manager_valid = v.manager_valid;
    unprepared_fresh =
        All-imp (λ o. Fresh t.manager o × (opid ≢ o)) (Fresh t.manager) (λ o h. h.0)
          (others opid t.unprepared) (Fresh-others t.manager opid t.unprepared v.unprepared_fresh);
  })
  Step-ThreadsValid t t' (participate opid u is_owner e) v = rw e (record {
    manager_valid = register_participant-IsValid opid u is_owner t.manager v.manager_valid;
    unprepared_fresh =
        All-imp (Fresh t.manager) (Fresh (register_participant opid u is_owner t.manager).1)
          (Fresh-register_participant opid u is_owner t.manager) t.unprepared v.unprepared_fresh;
  })
  Step-ThreadsValid t t' (send_part opid part shard_id is_owner e) v = rw e (record {
    manager_valid = register_part-IsValid opid part shard_id is_owner t.manager v.manager_valid;
    unprepared_fresh =
        All-imp (Fresh t.manager) (Fresh (register_part opid part shard_id is_owner t.manager).1)
          (Fresh-register_part opid part shard_id is_owner t.manager) t.unprepared
          v.unprepared_fresh;
  })

  -- However calls of the methods that change the manager interleave, where an ID that a thread got
  -- may be prepared at any time later: if the manager is valid and the IDs that are not prepared yet
  -- are known and in neither stage, this holds afterwards.
  pub Reach-ThreadsValid : {t t' : Threads C P} → Reach t t' → ThreadsValid t → ThreadsValid t'
  Reach-ThreadsValid here v = v
  Reach-ThreadsValid (next r s) v = Step-ThreadsValid _ _ s (Reach-ThreadsValid r v)
