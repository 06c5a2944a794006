-- ===== src/Server/Decryptions/Invariant.antt =====
-- The invariant of server/managers/DecryptionsManager.cpp, kept by each of its methods.
use shared_encryption.Base.{
  ℕ, ◌+◌, ◌≤◌, ◌≡◌, Bool, true, false, List, [], ◌∷◌, none, some, arith, length, length-append,
  Option-cases, Bool-cases, ℕ_discrete, ite, inl, inr,
}
use shared_encryption.Base.Key.{nat_key, bytes_key}
use shared_encryption.Base.Map.{find, put, emplace, erase, find-put, find-emplace, find-erase}
use shared_encryption.Base.Set.{
  contains, IsDistinct, contains-insert, length-insert, insert-IsDistinct,
}
use shared_encryption.Server.Types.{Username, Uuid}
use shared_encryption.Server.Decryptions.{
  PartRequirement, PrepareRecord, CollectedRecord, DecryptionsManager, start_collecting,
  start_looking, has_enough_participants, has_enough_parts, empty, new_operation, prepare_operation,
  enlist, settle, register_participant, add_part, gather, register_part,
}

-- An operation that still looks for participants.
pub record Looking {C : Type 0} (r : PrepareRecord C) : Type 0 where
  pub owners_fit : length r.owners_found ≤ r.required_owners
  pub reg_members_fit : length r.reg_members_found ≤ r.required_reg_members
  pub owners_distinct : IsDistinct r.owners_found
  pub reg_members_distinct : IsDistinct r.reg_members_found

-- An operation that still collects parts: each part stands beside the ID of its shard.
pub record Collecting {P : Type 0} (r : CollectedRecord P) : Type 0 where
  pub reg_layer_paired : length r.reg_layer_parts ≡ length r.reg_layer_shards_ids
  pub owner_layer_paired : length r.owner_layer_parts ≡ length r.owner_layer_shards_ids

pub record IsValid {C P : Type 0} (d : DecryptionsManager C P) : Type 0 where
  pub prep_known :
      (o : Uuid) (r : PrepareRecord C) → find o d.prep ≡ some r → contains d.all_op_ids o ≡ true
  pub collected_known :
      (o : Uuid) (r : CollectedRecord P)
      → find o d.collected ≡ some r
      → contains d.all_op_ids o ≡ true
  pub one_stage :
      (o : Uuid) (r : PrepareRecord C) → find o d.prep ≡ some r → find o d.collected ≡ none
  pub looking :
      (o : Uuid) (r : PrepareRecord C)
      → find o d.prep ≡ some r
      → Looking r × (has_enough_participants r ≡ false)
  pub collecting :
      (o : Uuid) (r : CollectedRecord P)
      → find o d.collected ≡ some r
      → Collecting r × (has_enough_parts r ≡ false)

pub enlist-Looking :
    {C : Type 0} (u : Username) (is_owner : Bool) (r : PrepareRecord C)
    → Looking r
    → Looking (enlist u is_owner r).0
unfolding enlist
enlist-Looking u is_owner r v = ground (
  arith,
  length-insert u r.owners_found,
  length-insert u r.reg_members_found,
  insert-IsDistinct u r.owners_found,
  insert-IsDistinct u r.reg_members_found,
)

pub add_part-Collecting :
    {P : Type 0} (part : P) (shard_id : ℕ) (is_owner : Bool) (r : CollectedRecord P)
    → Collecting r
    → Collecting (add_part part shard_id is_owner r)
unfolding add_part
add_part-Collecting part shard_id is_owner r v = ground (
  arith,
  length-append r.reg_layer_parts (part ∷ []),
  length-append r.reg_layer_shards_ids (shard_id ∷ []),
  length-append r.owner_layer_parts (part ∷ []),
  length-append r.owner_layer_shards_ids (shard_id ∷ []),
)

module _ {C P : Type 0} where
  pub empty-IsValid : IsValid {C = C} {P = P} empty
  unfolding find
  empty-IsValid = record {
    prep_known = λ o r h. cc;
    collected_known = λ o r h. cc;
    one_stage = λ o r h. cc;
    looking = λ o r h. cc;
    collecting = λ o r h. cc;
  }

  pub new_operation-IsValid :
      (uuids : List Uuid) (d d' : DecryptionsManager C P) (opid : Uuid) (rest : List Uuid)
      → new_operation uuids d ≡ some (opid, rest, d')
      → IsValid d
      → IsValid d'
  unfolding new_operation
  new_operation-IsValid uuids d d' opid rest e v = record {
    prep_known = λ o r h. ground (arith, v.prep_known o r, contains-insert opid o d.all_op_ids);
    collected_known =
        λ o r h. ground (arith, v.collected_known o r, contains-insert opid o d.all_op_ids);
    one_stage = λ o r h. ground (arith, v.one_stage o r);
    looking = λ o r h. ground (arith, v.looking o r);
    collecting = λ o r h. ground (arith, v.collecting o r);
  }

  -- The caller prepares an operation that it has just made, for thresholds that are not both 0.
  pub prepare_operation-IsValid :
      (opid : Uuid) (requester : Username) (userset_id : Uuid) (c : C) (owners reg_members : ℕ)
      (d : DecryptionsManager C P)
      → contains d.all_op_ids opid ≡ true
      → find opid d.collected ≡ none
      → 1 ≤ owners + reg_members
      → IsValid d
      → IsValid (prepare_operation opid requester userset_id c owners reg_members d)
  unfolding prepare_operation
  prepare_operation-IsValid opid requester userset_id c owners reg_members d known free some_part
        v =
      let fresh = start_looking requester userset_id c owners reg_members in
      record {
        prep_known = λ o r h. ground (arith, v.prep_known o r, find-emplace opid o fresh d.prep);
        collected_known = λ o r h. ground (arith, v.collected_known o r);
        one_stage = λ o r h. ground (arith, v.one_stage o r, find-emplace opid o fresh d.prep);
        looking = λ o r h. ground (arith, v.looking o r, find-emplace opid o fresh d.prep);
        collecting = λ o r h. ground (arith, v.collecting o r);
      }

  -- The operation and the record that `settle` is called with.
  module _ (opid : Uuid) (r : PrepareRecord C) (d : DecryptionsManager C P) where
    put_at :
        (o : Uuid) → find o (put opid r d.prep) ≡ ite (ℕ_discrete opid o) (some r) (find o d.prep)
    put_at o = find-put opid o r d.prep

    erase_at :
        (o : Uuid) → find o (erase opid d.prep) ≡ ite (ℕ_discrete opid o) none (find o d.prep)
    erase_at o = find-erase opid o d.prep

    abbrev started : CollectedRecord P
    started = start_collecting r.requester r.userset_id r.required_owners r.required_reg_members

    start_at :
        find opid d.collected ≡ none
        → (o : Uuid)
        → find o (emplace opid started d.collected)
          ≡ ite (ℕ_discrete opid o) (some started) (find o d.collected)
    start_at free o = rw (find-emplace opid o started d.collected, free)

    pub settle-IsValid :
        (part : PartRequirement)
        → contains d.all_op_ids opid ≡ true
        → find opid d.collected ≡ none
        → 1 ≤ r.required_owners + r.required_reg_members
        → Looking r
        → IsValid d
        → IsValid (settle opid r part d).1
    unfolding settle
    settle-IsValid part known free some_part l v = record {
      prep_known = λ o s h. ground (arith, v.prep_known o s, put_at o, erase_at o);
      collected_known = λ o s h. ground (arith, v.collected_known o s, start_at free o);
      one_stage = λ o s h. ground (arith, v.one_stage o s, put_at o, erase_at o, start_at free o);
      looking = λ o s h. ground (arith, v.looking o s, put_at o, erase_at o);
      collecting = λ o s h. ground (arith, v.collecting o s, start_at free o);
    }

  pub register_participant-IsValid :
      (opid : Uuid) (u : Username) (is_owner : Bool) (d : DecryptionsManager C P)
      → IsValid d
      → IsValid (register_participant opid u is_owner d).1
  unfolding register_participant
  register_participant-IsValid opid u is_owner d v = elim (Option-cases (find opid d.prep)) [
    | inl e ↦
        rw (e, register_participant)
          (elim (Bool-cases (contains d.all_op_ids opid)) [ inl k ↦ rw k v | inr k ↦ rw k v ])
    | inr (r, e) ↦
        rw (e, register_participant)
          (settle-IsValid opid (enlist u is_owner r).0 d (enlist u is_owner r).1
            (v.prep_known opid r e) (v.one_stage opid r e) (ground (arith, v.looking opid r e))
            (enlist-Looking u is_owner r (v.looking opid r e).0) v)
  ]

  pub gather-IsValid :
      (opid : Uuid) (r : CollectedRecord P) (d : DecryptionsManager C P)
      → contains d.all_op_ids opid ≡ true
      → find opid d.prep ≡ none
      → Collecting r
      → IsValid d
      → IsValid (gather opid r d).1
  unfolding gather
  gather-IsValid opid r d known apart c v = record {
    prep_known = λ o s h. ground (arith, v.prep_known o s);
    collected_known = λ o s h. ground (
      arith,
      v.collected_known o s,
      find-put opid o r d.collected,
      find-erase opid o d.collected,
    );
    one_stage = λ o s h.
        ground
          (arith, v.one_stage o s, find-put opid o r d.collected, find-erase opid o d.collected);
    looking = λ o s h. ground (arith, v.looking o s);
    collecting = λ o s h.
        ground
          (arith, v.collecting o s, find-put opid o r d.collected, find-erase opid o d.collected);
  }

  -- An operation in the collection stage is not in the other.
  pub find-prep_of_collected :
      (d : DecryptionsManager C P) (o : Uuid) (r : CollectedRecord P)
      → IsValid d
      → find o d.collected ≡ some r
      → find o d.prep ≡ none
  find-prep_of_collected d o r v e = elim (Option-cases (find o d.prep)) [
    | inl free ↦ free
    | inr (s, busy) ↦ cc (v.one_stage o s busy)
  ]

  pub register_part-IsValid :
      (opid : Uuid) (part : P) (shard_id : ℕ) (is_owner : Bool) (d : DecryptionsManager C P)
      → IsValid d
      → IsValid (register_part opid part shard_id is_owner d).1
  unfolding register_part
  register_part-IsValid opid part shard_id is_owner d v =
      elim (Option-cases (find opid d.collected)) [
        | inl e ↦ rw (e, register_part) v
        | inr (r, e) ↦
            rw (e, register_part)
              (gather-IsValid opid (add_part part shard_id is_owner r) d
                (v.collected_known opid r e) (find-prep_of_collected d opid r v e)
                (add_part-Collecting part shard_id is_owner r (v.collecting opid r e).0) v)
      ]
