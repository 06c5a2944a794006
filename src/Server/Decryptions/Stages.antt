-- ===== src/Server/Decryptions/Stages.antt =====
-- How server/managers/DecryptionsManager.cpp takes an operation from one stage to the next, and
-- what it leaves alone.
use shared_encryption.Base.{
  if◌then◌else◌, ℕ, ◌+◌, ◌≡◌, ◌≢◌, refl, ◌∙◌, Bool, true, false, ◌&&◌, [], ◌∷◌, ◌++◌, leb, none,
  some, inl, inr, arith, Option-cases, length, length-append,
}
use shared_encryption.Base.Key.{nat_key, bytes_key}
use shared_encryption.Base.Map.{find, find-put, find-emplace, find-erase}
use shared_encryption.Base.Set.{IsDistinct}
use shared_encryption.Server.Types.{Username, Uuid, ok}
use shared_encryption.Server.Decryptions.{
  PartRequirement, not_required, PrepareRecord, CollectedRecord, DecryptionsManager,
  start_collecting, has_enough_participants, has_enough_parts, register_participant, register_part,
  enlist, settle, add_part, gather,
}
use shared_encryption.Server.Decryptions.Invariant.{IsValid, enlist-Looking, find-prep_of_collected}

-- Exactly the wanted participants, none of them twice in a layer.
pub record Complete {C : Type 0} (r : PrepareRecord C) : Type 0 where
  pub owners : length r.owners_found ≡ r.required_owners
  pub reg_members : length r.reg_members_found ≡ r.required_reg_members
  pub owners_distinct : IsDistinct r.owners_found
  pub reg_members_distinct : IsDistinct r.reg_members_found

module _ {C P : Type 0} where
  pub register-found :
      (opid : Uuid) (u : Username) (is_owner : Bool) (d : DecryptionsManager C P)
      (s : PrepareRecord C)
      → find opid d.prep ≡ some s
      → let t = enlist u is_owner s in
        register_participant opid u is_owner d
        ≡ (ok ((settle opid t.0 t.1 d).0, t.1), (settle opid t.0 t.1 d).1)
  unfolding register_participant
  register-found opid u is_owner d s e = rw (e, register_participant)

  register-missing :
      (opid : Uuid) (u : Username) (is_owner : Bool) (d : DecryptionsManager C P)
      (r : PrepareRecord C) (part : PartRequirement)
      → find opid d.prep ≡ none
      → (register_participant opid u is_owner d).0 ≢ ok (some r, part)
  unfolding register_participant
  register-missing opid u is_owner d r part e = ground arith

  pub register-missing_state :
      (opid : Uuid) (u : Username) (is_owner : Bool) (d : DecryptionsManager C P)
      → find opid d.prep ≡ none
      → (register_participant opid u is_owner d).1 ≡ d
  unfolding register_participant
  register-missing_state opid u is_owner d e = ground arith

  settle-some :
      (opid : Uuid) (r s : PrepareRecord C) (part : PartRequirement) (d : DecryptionsManager C P)
      → find opid d.collected ≡ none
      → (settle opid r part d).0 ≡ some s
      → (s ≡ r)
        × (has_enough_participants r ≡ true)
        × (part ≢ not_required)
        × (find opid (settle opid r part d).1.prep ≡ none)
        × (find opid (settle opid r part d).1.collected
            ≡ some (
                start_collecting r.requester r.userset_id r.required_owners r.required_reg_members))
  unfolding settle
  settle-some opid r s part d free e = ground (
    arith,
    find-erase opid opid d.prep,
    find-emplace opid opid
        (start_collecting {Part = P} r.requester r.userset_id r.required_owners
          r.required_reg_members)
        d.collected,
  )

  -- In a valid manager, a call of `register_participant` that returns a record returns one with
  -- exactly the wanted participants; the operation is then in the collection stage, with the same
  -- requester, userset and thresholds and no part, and not in the other.
  pub register_participant-Complete :
      (opid : Uuid) (u : Username) (is_owner : Bool) (d : DecryptionsManager C P)
      (r : PrepareRecord C) (part : PartRequirement)
      → IsValid d
      → (register_participant opid u is_owner d).0 ≡ ok (some r, part)
      → let d' = (register_participant opid u is_owner d).1 in
        Complete r
        × (part ≢ not_required)
        × (find opid d'.prep ≡ none)
        × (find opid d'.collected
            ≡ some (
                start_collecting r.requester r.userset_id r.required_owners r.required_reg_members))
  register_participant-Complete opid u is_owner d r part v h =
      elim (Option-cases (find opid d.prep)) [
        | inl missing ↦ absurd (register-missing opid u is_owner d r part missing h)
        | inr (s, found) ↦
            let t = enlist u is_owner s in
            let e = register-found opid u is_owner d s found in
            let l = enlist-Looking u is_owner s (v.looking opid s found).0 in
            let q =
              settle-some opid t.0 r t.1 d (v.one_stage opid s found) (ground (arith, h, e)) in
            rw e (
              rw q.0 (
                record {
                  owners = ground arith;
                  reg_members = ground arith;
                  owners_distinct = l.owners_distinct;
                  reg_members_distinct = l.reg_members_distinct;
                },
                ground (arith, h, e),
                q.3,
                q.4,
              ))
      ]

  -- The part is added to the record, which is handed out or stays.
  pub register_part-gather :
      (opid : Uuid) (p : P) (shard_id : ℕ) (is_owner : Bool) (d : DecryptionsManager C P)
      (r : CollectedRecord P)
      → find opid d.collected ≡ some r
      → let r' = add_part p shard_id is_owner r in
        let d' = (register_part opid p shard_id is_owner d).1 in
        ((register_part opid p shard_id is_owner d).0
          ≡ ok (if has_enough_parts r' then some r' else none))
        × (find opid d'.collected ≡ (if has_enough_parts r' then none else some r'))
  unfolding register_part gather
  register_part-gather opid p shard_id is_owner d r e = ground (
    arith,
    find-put opid opid (add_part p shard_id is_owner r) d.collected,
    find-erase opid opid d.collected,
  )

  settle_frame :
      (opid o : Uuid) (r : PrepareRecord C) (part : PartRequirement) (d : DecryptionsManager C P)
      → opid ≢ o
      → (find o (settle opid r part d).1.prep ≡ find o d.prep)
        × (find o (settle opid r part d).1.collected ≡ find o d.collected)
  unfolding settle
  settle_frame opid o r part d ne = ground (
    arith,
    find-put opid o r d.prep,
    find-erase opid o d.prep,
    find-emplace opid o
        (start_collecting {Part = P} r.requester r.userset_id r.required_owners
          r.required_reg_members)
        d.collected,
  )

  -- `register_participant` leaves every other operation as it was.
  pub register_participant_frame :
      (opid o : Uuid) (u : Username) (is_owner : Bool) (d : DecryptionsManager C P)
      → opid ≢ o
      → (find o (register_participant opid u is_owner d).1.prep ≡ find o d.prep)
        × (find o (register_participant opid u is_owner d).1.collected ≡ find o d.collected)
  register_participant_frame opid o u is_owner d ne = elim (Option-cases (find opid d.prep)) [
    | inl missing ↦ rw (register-missing_state opid u is_owner d missing) (refl, refl)
    | inr (s, found) ↦
        rw (register-found opid u is_owner d s found)
          (settle_frame opid o (enlist u is_owner s).0 (enlist u is_owner s).1 d ne)
  ]

  -- `register_part` leaves every other operation as it was.
  pub register_part_frame :
      (opid o : Uuid) (p : P) (shard_id : ℕ) (is_owner : Bool) (d : DecryptionsManager C P)
      → opid ≢ o
      → (find o (register_part opid p shard_id is_owner d).1.prep ≡ find o d.prep)
        × (find o (register_part opid p shard_id is_owner d).1.collected ≡ find o d.collected)
  unfolding register_part gather
  register_part_frame opid o p shard_id is_owner d ne =
      elim (Option-cases (find opid d.collected)) [
        | inl missing ↦ rw (missing, register_part) (refl, refl)
        | inr (r, found) ↦
            rw (found, register_part)
              (ground (
                arith,
                find-put opid o (add_part p shard_id is_owner r) d.collected,
                find-erase opid o d.collected,
              ))
      ]

  register_part-prep :
      (opid : Uuid) (p : P) (shard_id : ℕ) (is_owner : Bool) (d : DecryptionsManager C P)
      → find opid (register_part opid p shard_id is_owner d).1.prep ≡ find opid d.prep
  unfolding register_part gather
  register_part-prep opid p shard_id is_owner d = ground arith

  -- In a valid manager, let a part be for an operation in the collection stage. It is appended, with
  -- its shard's ID, to the owners' layer if it is an owner's, otherwise to the regular layer, and
  -- the rest of the record is kept. If each layer then has as many parts as are required, the record
  -- is handed out, and the operation is in neither stage; otherwise the record stays. The other
  -- operations stay as they were.
  pub register_part_lem :
      (opid : Uuid) (p : P) (shard_id : ℕ) (is_owner : Bool) (d : DecryptionsManager C P)
      (r : CollectedRecord P)
      → IsValid d
      → find opid d.collected ≡ some r
      → let r' : CollectedRecord P = record r {
        reg_layer_parts = if is_owner then r.reg_layer_parts else r.reg_layer_parts ++ p ∷ [];
        reg_layer_shards_ids =
            if is_owner then r.reg_layer_shards_ids else r.reg_layer_shards_ids ++ shard_id ∷ [];
        owner_layer_parts = if is_owner then r.owner_layer_parts ++ p ∷ [] else r.owner_layer_parts;
        owner_layer_shards_ids =
            if is_owner
            then r.owner_layer_shards_ids ++ shard_id ∷ []
            else r.owner_layer_shards_ids;
      } in
        let owners = length r.owner_layer_parts + (if is_owner then 1 else 0) in
        let reg_members = length r.reg_layer_parts + (if is_owner then 0 else 1) in
        let complete = leb r.required_owners owners && leb r.required_reg_members reg_members in
        let d' = (register_part opid p shard_id is_owner d).1 in
        ((register_part opid p shard_id is_owner d).0 ≡ ok (if complete then some r' else none))
        × (find opid d'.collected ≡ (if complete then none else some r'))
        × (find opid d'.prep ≡ none)
        × ((o : Uuid)
            → opid ≢ o
            → (find o d'.prep ≡ find o d.prep) × (find o d'.collected ≡ find o d.collected))
  unfolding add_part
  register_part_lem opid p shard_id true d r v e =
      let g = register_part-gather opid p shard_id true d r e in
      let n = length-append r.owner_layer_parts (p ∷ []) in
      (
        ground (arith, g, n),
        ground (arith, g, n),
        register_part-prep opid p shard_id true d ∙ find-prep_of_collected d opid r v e,
        λ o ne. register_part_frame opid o p shard_id true d ne,
      )
  register_part_lem opid p shard_id false d r v e =
      let g = register_part-gather opid p shard_id false d r e in
      let n = length-append r.reg_layer_parts (p ∷ []) in
      (
        ground (arith, g, n),
        ground (arith, g, n),
        register_part-prep opid p shard_id false d ∙ find-prep_of_collected d opid r v e,
        λ o ne. register_part_frame opid o p shard_id false d ne,
      )
