-- ===== src/Server/Decryptions/Recruit.antt =====
-- The search for participants in server/managers/DecryptionsManager.cpp comes to an end: enough
-- distinct owners and regular members complete it.
use shared_encryption.Base.{
  ℕ, suc, ◌+◌, ◌≤◌, ◌≡◌, refl, ap, ◌∙◌, Bool, true, false, List, [], ◌∷◌, Option, none, some, arith,
  length,
}
use shared_encryption.Base.Key.{nat_key, bytes_key}
use shared_encryption.Base.Map.{find, find-put, find-emplace}
use shared_encryption.Base.Set.{contains, insert}
use shared_encryption.Server.Types.{Username, Uuid, Outcome}
use shared_encryption.Server.Decryptions.{
  PartRequirement, owner_part, reg_part, PrepareRecord, DecryptionsManager, start_collecting,
  has_enough_participants, register_participant, enlist, settle,
}
use shared_encryption.Server.Decryptions.Stages.{register-found}

-- `owners` more owners and `reg_members` more regular members are wanted.
pub record Wants {C : Type 0} (owners reg_members : ℕ) (r : PrepareRecord C) : Type 0 where
  pub owners_wanted : length r.owners_found + owners ≡ r.required_owners
  pub reg_members_wanted : length r.reg_members_found + reg_members ≡ r.required_reg_members

-- None of the users is in the set, and none is named twice.
abbrev pub IsNewTo : List Username → List Username → Type 0
IsNewTo xs [] = Unit {0}
IsNewTo xs (u ∷ us) = (contains xs u ≡ false) × IsNewTo (u ∷ xs) us

module _ {C P : Type 0} where
  -- The users take part, one after the other.
  pub recruit : Uuid → Bool → List Username → DecryptionsManager C P → DecryptionsManager C P
  recruit opid is_owner [] d = d
  recruit opid is_owner (u ∷ us) d =
      recruit opid is_owner us (register_participant opid u is_owner d).1

  -- The collection stage of the operation that `r` was the record of.
  abbrev pub IsCollecting : Uuid → PrepareRecord C → DecryptionsManager C P → Type 0
  IsCollecting opid r d =
      find opid d.collected
      ≡ some (start_collecting r.requester r.userset_id r.required_owners r.required_reg_members)

module _ {C P : Type 0} (opid : Uuid) (r : PrepareRecord C) (d : DecryptionsManager C P) where
  settle-owner_more :
      has_enough_participants r ≡ false
      → (find opid (settle opid r owner_part d).1.prep ≡ some r)
        × ((settle opid r owner_part d).1.collected ≡ d.collected)
  unfolding settle
  settle-owner_more h = rw h (ground (arith, find-put opid opid r d.prep))

  settle-reg_more :
      has_enough_participants r ≡ false
      → (find opid (settle opid r reg_part d).1.prep ≡ some r)
        × ((settle opid r reg_part d).1.collected ≡ d.collected)
  unfolding settle
  settle-reg_more h = rw h (ground (arith, find-put opid opid r d.prep))

  settle-owner_done :
      find opid d.collected ≡ none
      → has_enough_participants r ≡ true
      → IsCollecting opid r (settle opid r owner_part d).1
  unfolding settle
  settle-owner_done free h = rw h (
      ground (
        arith,
        find-emplace opid opid
            (start_collecting {Part = P} r.requester r.userset_id r.required_owners
              r.required_reg_members)
            d.collected,
      ))

  settle-reg_done :
      find opid d.collected ≡ none
      → has_enough_participants r ≡ true
      → IsCollecting opid r (settle opid r reg_part d).1
  unfolding settle
  settle-reg_done free h = rw h (
      ground (
        arith,
        find-emplace opid opid
            (start_collecting {Part = P} r.requester r.userset_id r.required_owners
              r.required_reg_members)
            d.collected,
      ))

module _ {C : Type 0} (u : Username) (r : PrepareRecord C) where
  abbrev with_owner : PrepareRecord C
  with_owner = record r { owners_found = u ∷ r.owners_found }

  abbrev with_reg_member : PrepareRecord C
  with_reg_member = record r { reg_members_found = u ∷ r.reg_members_found }

  owner_taken :
      (n m : ℕ)
      → Wants (suc n) m r
      → contains r.owners_found u ≡ false
      → enlist u true r ≡ (with_owner, owner_part)
  unfolding enlist insert
  owner_taken n m w new = ground arith

  reg_member_taken :
      (n m : ℕ)
      → Wants n (suc m) r
      → contains r.reg_members_found u ≡ false
      → enlist u false r ≡ (with_reg_member, reg_part)
  unfolding enlist insert
  reg_member_taken n m w new = ground arith

module _ {C P : Type 0} (opid : Uuid) where
  recruit_step :
      (w : Bool) (u : Username) (us : List Username) (r : PrepareRecord C)
      (t : PrepareRecord C × PartRequirement) (d : DecryptionsManager C P)
      → find opid d.prep ≡ some r
      → enlist u w r ≡ t
      → recruit opid w (u ∷ us) d ≡ recruit opid w us (settle opid t.0 t.1 d).1
  unfolding recruit
  recruit_step w u us r t d found e =
      ap
        (λ (x : Outcome (Option (PrepareRecord C) × PartRequirement) × DecryptionsManager C P).
          recruit opid w us x.1)
        (register-found opid u w d r found)
      ∙ ap (λ (x : PrepareRecord C × PartRequirement). recruit opid w us (settle opid x.0 x.1 d).1)
          e

  recruit_reg_members :
      (us : List Username) (r : PrepareRecord C) (d : DecryptionsManager C P)
      → find opid d.prep ≡ some r
      → find opid d.collected ≡ none
      → 1 ≤ length us
      → Wants 0 (length us) r
      → IsNewTo r.reg_members_found us
      → IsCollecting opid r (recruit opid false us d)
  unfolding recruit
  recruit_reg_members [] r d found free some_user w new = absurd (omega arith)
  recruit_reg_members (u ∷ []) r d found free some_user w new =
      rw (recruit_step false u [] r _ d found (reg_member_taken u r 0 0 w new.0))
        (settle-reg_done opid (with_reg_member u r) d free (ground arith))
  recruit_reg_members (u ∷ v ∷ us) r d found free some_user w new =
      rw
        (recruit_step false u (v ∷ us) r _ d found
          (reg_member_taken u r 0 (suc (length us)) w new.0))
        (let more = settle-reg_more opid (with_reg_member u r) d (ground arith) in
          recruit_reg_members (v ∷ us) (with_reg_member u r) _ more.0 (rw more.1 free) (omega arith)
            (omega arith) new.1)

  recruit_owners :
      (us : List Username) (m : ℕ) (r : PrepareRecord C) (d : DecryptionsManager C P)
      → find opid d.prep ≡ some r
      → find opid d.collected ≡ none
      → 1 ≤ m
      → Wants (length us) m r
      → IsNewTo r.owners_found us
      → (r' : PrepareRecord C) × (find opid (recruit opid true us d).prep ≡ some r')
        × (find opid (recruit opid true us d).collected ≡ none)
        × Wants 0 m r'
        × (r'.reg_members_found ≡ r.reg_members_found)
        × (start_collecting {Part = P} r'.requester r'.userset_id r'.required_owners
              r'.required_reg_members
            ≡ start_collecting r.requester r.userset_id r.required_owners r.required_reg_members)
  unfolding recruit
  recruit_owners [] m r d found free some_part w new = (r, found, free, w, refl, refl)
  recruit_owners (u ∷ us) m r d found free some_part w new =
      rw (recruit_step true u us r _ d found (owner_taken u r (length us) m w new.0)) (
        let more = settle-owner_more opid (with_owner u r) d (ground arith) in
        recruit_owners us m (with_owner u r) _ more.0 (rw more.1 free) some_part (omega arith)
          new.1)

  recruit_last_owners :
      (us : List Username) (r : PrepareRecord C) (d : DecryptionsManager C P)
      → find opid d.prep ≡ some r
      → find opid d.collected ≡ none
      → 1 ≤ length us
      → Wants (length us) 0 r
      → IsNewTo r.owners_found us
      → IsCollecting opid r (recruit opid true us d)
  unfolding recruit
  recruit_last_owners [] r d found free some_user w new = absurd (omega arith)
  recruit_last_owners (u ∷ []) r d found free some_user w new =
      rw (recruit_step true u [] r _ d found (owner_taken u r 0 0 w new.0))
        (settle-owner_done opid (with_owner u r) d free (ground arith))
  recruit_last_owners (u ∷ v ∷ us) r d found free some_user w new =
      rw (recruit_step true u (v ∷ us) r _ d found (owner_taken u r (suc (length us)) 0 w new.0)) (
        let more = settle-owner_more opid (with_owner u r) d (ground arith) in
        recruit_last_owners (v ∷ us) (with_owner u r) _ more.0 (rw more.1 free) (omega arith)
          (omega arith) new.1)

  -- Let an operation be in the search stage, and want as many owners and regular members as two
  -- lists name, one user at least. If the users of each list are distinct and not yet found, then
  -- the operation is in the collection stage once all of them, the owners first, have taken part.
  pub recruit-IsCollecting :
      (owners reg_members : List Username) (r : PrepareRecord C) (d : DecryptionsManager C P)
      → find opid d.prep ≡ some r
      → find opid d.collected ≡ none
      → 1 ≤ length owners + length reg_members
      → Wants (length owners) (length reg_members) r
      → IsNewTo r.owners_found owners
      → IsNewTo r.reg_members_found reg_members
      → IsCollecting opid r (recruit opid false reg_members (recruit opid true owners d))
  recruit-IsCollecting owners [] r d found free some_user w new_o new_m =
      unfold recruit in recruit_last_owners owners r d found free (omega arith) w new_o
  recruit-IsCollecting owners (u ∷ us) r d found free some_user w new_o new_m =
      let (r', found', free', w', same_found, same_start) =
        recruit_owners owners (suc (length us)) r d found free (omega arith) w new_o in
      rw (← same_start) (
        recruit_reg_members (u ∷ us) r' (recruit opid true owners d) found' free' (omega arith) w'
          (rw same_found new_m))
