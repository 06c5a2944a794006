-- ===== src/Server/Decryptions/Layers.antt =====
-- The collection of parts in server/managers/DecryptionsManager.cpp: when it ends, and what the
-- choice of the layer by the sender's ownership means for it.
use shared_encryption.Base.{
  ℕ, ◌+◌, ◌≤◌, ◌<◌, ◌≡◌, refl, Bool, true, false, List, [], ◌∷◌, Option, none, some, arith, length,
  length-append, ap, if◌then◌else◌, ◌∙◌,
}
use shared_encryption.Base.Key.{nat_key}
use shared_encryption.Base.Map.{find, erase, find-put, find-erase}
use shared_encryption.Server.Types.{Uuid, Outcome, ok}
use shared_encryption.Server.Decryptions.{
  CollectedRecord, DecryptionsManager, has_enough_parts, register_part, add_part, gather,
}

-- A part as `register_part` gets it: the part, the ID of its shard, and whether an owner sent it.
pub record Sent (P : Type 0) : Type 0 where
  pub part : P
  pub shard_id : ℕ
  pub is_owner : Bool

module _ {P : Type 0} where
  abbrev pub count_sent : Bool → List (Sent P) → ℕ
  count_sent b [] = 0
  count_sent true (s ∷ ss) = (if s.is_owner then 1 else 0) + count_sent true ss
  count_sent false (s ∷ ss) = (if s.is_owner then 0 else 1) + count_sent false ss

  pub added : Sent P → CollectedRecord P → CollectedRecord P
  unfolding add_part
  added s r = add_part s.part s.shard_id s.is_owner r

  -- The record with all the parts.
  abbrev pub add_parts : List (Sent P) → CollectedRecord P → CollectedRecord P
  add_parts [] r = r
  add_parts (s ∷ ss) r = add_parts ss (added s r)

  added_owner :
      (s : Sent P) (r : CollectedRecord P)
      → (length (added s r).owner_layer_parts
          ≡ length r.owner_layer_parts + (if s.is_owner then 1 else 0))
        × ((added s r).required_owners ≡ r.required_owners)
  unfolding added
  added_owner s r = ground (arith, length-append r.owner_layer_parts (s.part ∷ []))

  added_reg :
      (s : Sent P) (r : CollectedRecord P)
      → (length (added s r).reg_layer_parts
          ≡ length r.reg_layer_parts + (if s.is_owner then 0 else 1))
        × ((added s r).required_reg_members ≡ r.required_reg_members)
  unfolding added
  added_reg s r = ground (arith, length-append r.reg_layer_parts (s.part ∷ []))

  added_reg_same :
      (s : Sent P) (r : CollectedRecord P)
      → s.is_owner ≡ true
      → (added s r).reg_layer_parts ≡ r.reg_layer_parts
  unfolding added
  added_reg_same s r h = ground arith

-- The rest of a sequence of calls, unless the last call ended it.
abbrev proceed :
    {C P : Type 0}
    → Outcome (Option (CollectedRecord P))
    → DecryptionsManager C P
    → (DecryptionsManager C P → Outcome (Option (CollectedRecord P)) × DecryptionsManager C P)
    → Outcome (Option (CollectedRecord P)) × DecryptionsManager C P
proceed (ok none) d rest = rest d
proceed o d rest = (o, d)

module _ {C P : Type 0} where
  -- The parts come in one after the other, until the record is handed out.
  pub send_parts :
      Uuid
      → List (Sent P)
      → DecryptionsManager C P
      → Outcome (Option (CollectedRecord P)) × DecryptionsManager C P
  send_parts opid [] d = (ok none, d)
  send_parts opid (s ∷ ss) d =
      let (o, d') = register_part opid s.part s.shard_id s.is_owner d in
      proceed o d' (send_parts opid ss)

module _ {C P : Type 0} (opid : Uuid) where
  register_part-eq-gather :
      (s : Sent P) (r : CollectedRecord P) (d : DecryptionsManager C P)
      → find opid d.collected ≡ some r
      → register_part opid s.part s.shard_id s.is_owner d
        ≡ (ok (gather opid (added s r) d).0, (gather opid (added s r) d).1)
  unfolding register_part added
  register_part-eq-gather s r d e = rw (e, register_part)

  gather-none :
      (r : CollectedRecord P) (d : DecryptionsManager C P)
      → has_enough_parts r ≡ false
      → (gather opid r d).0 ≡ none
  unfolding gather
  gather-none r d more = rw more

  gather-some :
      (r : CollectedRecord P) (d : DecryptionsManager C P)
      → has_enough_parts r ≡ true
      → gather opid r d ≡ (some r, record d { collected = erase opid d.collected })
  unfolding gather
  gather-some r d last = rw last

  send_step :
      (s : Sent P) (ss : List (Sent P)) (r : CollectedRecord P) (d : DecryptionsManager C P)
      → find opid d.collected ≡ some r
      → send_parts opid (s ∷ ss) d
        ≡ proceed
            (ok (gather opid (added s r) d).0)
            (gather opid (added s r) d).1
            (send_parts opid ss)
  unfolding send_parts
  send_step s ss r d e =
      ap
        (λ (x : Outcome (Option (CollectedRecord P)) × DecryptionsManager C P).
          proceed x.0 x.1 (send_parts opid ss))
        (register_part-eq-gather s r d e)

  -- One part that does not complete the record, and one that does.
  send_more :
      (s : Sent P) (ss : List (Sent P)) (r : CollectedRecord P) (d : DecryptionsManager C P)
      → find opid d.collected ≡ some r
      → has_enough_parts (added s r) ≡ false
      → send_parts opid (s ∷ ss) d ≡ send_parts opid ss (gather opid (added s r) d).1
  send_more s ss r d e more = send_step s ss r d e ∙ rw (gather-none (added s r) d more)

  send_last :
      (s : Sent P) (ss : List (Sent P)) (r : CollectedRecord P) (d : DecryptionsManager C P)
      → find opid d.collected ≡ some r
      → has_enough_parts (added s r) ≡ true
      → send_parts opid (s ∷ ss) d
        ≡ (ok (some (added s r)), record d { collected = erase opid d.collected })
  send_last s ss r d e last = send_step s ss r d e ∙ rw (gather-some (added s r) d last)

  gather_more :
      (r : CollectedRecord P) (d : DecryptionsManager C P)
      → has_enough_parts r ≡ false
      → find opid (gather opid r d).1.collected ≡ some r
  unfolding gather
  gather_more r d more = ground (arith, find-put opid opid r d.collected)

  -- Let an operation collect parts, and let a sequence hold as many owners' parts and regular
  -- members' parts as each layer still lacks, one part at least. Then the sequence ends with the
  -- record handed out, in which all these parts stand, and the operation is gone.
  pub send_parts_finish :
      (ss : List (Sent P)) (r : CollectedRecord P) (d : DecryptionsManager C P)
      → find opid d.collected ≡ some r
      → 1 ≤ length ss
      → length r.owner_layer_parts + count_sent true ss ≡ r.required_owners
      → length r.reg_layer_parts + count_sent false ss ≡ r.required_reg_members
      → ((send_parts opid ss d).0 ≡ ok (some (add_parts ss r)))
        × (find opid (send_parts opid ss d).1.collected ≡ none)
  unfolding send_parts
  send_parts_finish [] r d e some_part owners reg_members = absurd (omega arith)
  send_parts_finish (s ∷ []) r d e some_part owners reg_members =
      rw (send_last s [] r d e (ground (arith, added_owner s r, added_reg s r)))
        (refl, ground (arith, find-erase opid opid d.collected))
  send_parts_finish (s ∷ t ∷ ss) r d e some_part owners reg_members =
      let more : has_enough_parts (added s r) ≡ false =
        ground (arith, added_owner s r, added_reg s r) in
      rw (send_more s (t ∷ ss) r d e more) (
        send_parts_finish (t ∷ ss) (added s r) (gather opid (added s r) d).1
          (gather_more (added s r) d more) (omega arith) (ground (arith, added_owner s r))
          (ground (arith, added_reg s r)))

  -- Let an operation lack a part in the regular layer. However many parts the owners send, the
  -- record stays, and its regular layer stays as it was: a part that an owner was asked for in
  -- the regular layer is put into the owners' layer.
  pub owner_parts_stuck :
      (ss : List (Sent P)) (r : CollectedRecord P) (d : DecryptionsManager C P)
      → find opid d.collected ≡ some r
      → length r.reg_layer_parts < r.required_reg_members
      → count_sent false ss ≡ 0
      → ((send_parts opid ss d).0 ≡ ok none)
        × (find opid (send_parts opid ss d).1.collected ≡ some (add_parts ss r))
        × ((add_parts ss r).reg_layer_parts ≡ r.reg_layer_parts)
  unfolding send_parts
  owner_parts_stuck [] r d e lacks owners_only = (refl, e, refl)
  owner_parts_stuck (s ∷ ss) r d e lacks owners_only =
      let more : has_enough_parts (added s r) ≡ false =
        ground (arith, added_owner s r, added_reg s r) in
      let (stuck, kept, same) =
        owner_parts_stuck ss (added s r) (gather opid (added s r) d).1
          (gather_more (added s r) d more) (ground (arith, added_reg s r)) (ground (arith)) in
      rw (send_more s ss r d e more) (stuck, kept, same ∙ added_reg_same s r (ground arith))
