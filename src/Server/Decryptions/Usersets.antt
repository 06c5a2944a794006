-- ===== src/Server/Decryptions/Usersets.antt =====
-- The userset of an operation (`get_operation_userset` of server/managers/DecryptionsManager.cpp).
use shared_encryption.Base.{
  ◌≡◌, sym, ap, ◌∙◌, subst, Bool, none, some, arith, Option-cases, inl, inr, ℕ_discrete,
}
use shared_encryption.Base.Key.{nat_key}
use shared_encryption.Base.Map.{find, find-put, find-erase, find-emplace}
use shared_encryption.Server.Types.{Username, Uuid, ok}
use shared_encryption.Server.Decryptions.{
  DecryptionsManager, PrepareRecord, PartRequirement, start_collecting, enlist, settle,
  register_participant, get_operation_userset,
}
use shared_encryption.Server.Decryptions.Invariant.{IsValid}
use shared_encryption.Server.Decryptions.Stages.{
  register-found, register-missing_state, register_participant_frame,
}

enlist_userset :
    {C : Type 0} (u : Username) (is_owner : Bool) (r : PrepareRecord C)
    → (enlist u is_owner r).0.userset_id ≡ r.userset_id
unfolding enlist
enlist_userset u is_owner r = ground arith

module _ {C P : Type 0} where
  settle_userset :
      (opid : Uuid) (r s : PrepareRecord C) (part : PartRequirement) (d : DecryptionsManager C P)
      → find opid d.prep ≡ some s
      → find opid d.collected ≡ none
      → r.userset_id ≡ s.userset_id
      → get_operation_userset opid (settle opid r part d).1 ≡ ok s.userset_id
  unfolding settle get_operation_userset
  settle_userset opid r s part d e f h = ground (
    arith,
    find-put opid opid r d.prep,
    find-erase opid opid d.prep,
    find-emplace opid opid
        (start_collecting {Part = P} r.requester r.userset_id r.required_owners
          r.required_reg_members)
        d.collected,
  )

  userset_frame :
      (o : Uuid) (d d' : DecryptionsManager C P)
      → (find o d'.prep ≡ find o d.prep) × (find o d'.collected ≡ find o d.collected)
      → get_operation_userset o d' ≡ get_operation_userset o d
  unfolding get_operation_userset
  userset_frame o d d' h = ground arith

  userset_of_prep :
      (o : Uuid) (d : DecryptionsManager C P) (r : PrepareRecord C)
      → find o d.prep ≡ some r
      → get_operation_userset o d ≡ ok r.userset_id
  unfolding get_operation_userset
  userset_of_prep o d r e = ground arith

  kept :
      (opid : Uuid) (u : Username) (is_owner : Bool) (d : DecryptionsManager C P) (id : Uuid)
      → IsValid d
      → get_operation_userset opid d ≡ ok id
      → get_operation_userset opid (register_participant opid u is_owner d).1 ≡ ok id
  kept opid u is_owner d id v e = elim (Option-cases (find opid d.prep)) [
    | inl missing ↦ rw (register-missing_state opid u is_owner d missing) e
    | inr (s, found) ↦
        let t = enlist u is_owner s in
        rw (register-found opid u is_owner d s found) (
          settle_userset opid t.0 s t.1 d found (v.one_stage opid s found)
            (enlist_userset u is_owner s)
          ∙ sym (userset_of_prep opid d s found)
          ∙ e)
  ]

  -- In a valid manager, while users take part in any operation, an operation that is in one of the
  -- two stages keeps its userset, also when it goes from the first to the second.
  pub get_operation_userset-register_participant :
      (opid o : Uuid) (u : Username) (is_owner : Bool) (d : DecryptionsManager C P) (id : Uuid)
      → IsValid d
      → get_operation_userset o d ≡ ok id
      → get_operation_userset o (register_participant opid u is_owner d).1 ≡ ok id
  get_operation_userset-register_participant opid o u is_owner d id v e = elim (ℕ_discrete opid o) [
    | no ne ↦ userset_frame o d _ (register_participant_frame opid o u is_owner d ne) ∙ e
    | yes q ↦
        subst (λ j. get_operation_userset j (register_participant opid u is_owner d).1 ≡ ok id) q
          (kept opid u is_owner d id v (ap (λ j. get_operation_userset j d) q ∙ e))
  ]
