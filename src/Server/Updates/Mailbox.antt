-- ===== src/Server/Updates/Mailbox.antt =====
-- What server/managers/UpdateManager.cpp promises: each user has a mailbox of their own, which
-- gives every update once, in the order of registration.
use shared_encryption.Base.{◌≡◌, sym, ap, ◌∙◌, List, [], ◌∷◌, ◌++◌, arith, if◌then◌else◌}
use mathlib.Core.List.{append-nil, append_assoc}
use shared_encryption.Base.Key.{bytes_key, same}
use shared_encryption.Base.Map.{put, find-put, find-erase}
use shared_encryption.Server.Types.{Username, Uuid}
use shared_encryption.Server.Updates.{
  AddedAsMemberRecord, AddedAsOwnerRecord, ToDecryptRecord, FinishedDecryptionsRecord,
  UpdateResponse, UpdateManager, no_updates, entry, retrieve_updates, register_reg_member,
  register_owner, register_lookup, register_decryption_participating, register_finished_decryption,
}

module _ {K C P : Type 0} where
  -- One response after the other.
  abbrev pub merge : UpdateResponse K C P → UpdateResponse K C P → UpdateResponse K C P
  merge a b = record {
    added_as_reg_member = a.added_as_reg_member ++ b.added_as_reg_member;
    added_as_owner = a.added_as_owner ++ b.added_as_owner;
    on_lookup = a.on_lookup ++ b.on_lookup;
    to_decrypt = a.to_decrypt ++ b.to_decrypt;
    finished_decryptions = a.finished_decryptions ++ b.finished_decryptions;
  }

  merge-no_updates : (a : UpdateResponse K C P) → merge a no_updates ≡ a
  merge-no_updates a = λ i. record {
    added_as_reg_member = append-nil a.added_as_reg_member i;
    added_as_owner = append-nil a.added_as_owner i;
    on_lookup = append-nil a.on_lookup i;
    to_decrypt = append-nil a.to_decrypt i;
    finished_decryptions = append-nil a.finished_decryptions i;
  }

  merge_assoc : (a b c : UpdateResponse K C P) → merge (merge a b) c ≡ merge a (merge b c)
  merge_assoc a b c = λ i. record {
    added_as_reg_member =
        append_assoc a.added_as_reg_member b.added_as_reg_member c.added_as_reg_member i;
    added_as_owner = append_assoc a.added_as_owner b.added_as_owner c.added_as_owner i;
    on_lookup = append_assoc a.on_lookup b.on_lookup c.on_lookup i;
    to_decrypt = append_assoc a.to_decrypt b.to_decrypt c.to_decrypt i;
    finished_decryptions =
        append_assoc a.finished_decryptions b.finished_decryptions c.finished_decryptions i;
  }

-- The calls of the manager.
pub data Call (K C P : Type 0) : Type 0 where
  adds_reg_member : Username → AddedAsMemberRecord K → Call K C P
  adds_owner : Username → AddedAsOwnerRecord K → Call K C P
  looks_up : Username → Uuid → Call K C P
  wants_part : Username → ToDecryptRecord C → Call K C P
  finishes : Username → FinishedDecryptionsRecord P → Call K C P
  retrieves : Username → Call K C P

module _ {K C P : Type 0} where
  pub step : Call K C P → UpdateManager K C P → UpdateManager K C P
  step (adds_reg_member u a) m = register_reg_member u a m
  step (adds_owner u a) m = register_owner u a m
  step (looks_up u a) m = register_lookup u a m
  step (wants_part u a) m = register_decryption_participating u a m
  step (finishes u a) m = register_finished_decryption u a m
  step (retrieves u) m = (retrieve_updates u m).1

  -- What a call adds to the mailbox of `u`.
  pub registered : Username → Call K C P → UpdateResponse K C P
  registered u (adds_reg_member v a) =
      if same v u then record no_updates { added_as_reg_member = a ∷ [] } else no_updates
  registered u (adds_owner v a) =
      if same v u then record no_updates { added_as_owner = a ∷ [] } else no_updates
  registered u (looks_up v a) =
      if same v u then record no_updates { on_lookup = a ∷ [] } else no_updates
  registered u (wants_part v a) =
      if same v u then record no_updates { to_decrypt = a ∷ [] } else no_updates
  registered u (finishes v a) =
      if same v u then record no_updates { finished_decryptions = a ∷ [] } else no_updates
  registered u (retrieves v) = no_updates

  -- What a call gives to `u`.
  pub delivered : Username → Call K C P → UpdateManager K C P → UpdateResponse K C P
  delivered u (retrieves v) m = if same v u then (retrieve_updates v m).0 else no_updates
  delivered u _ m = no_updates

  pub run : List (Call K C P) → UpdateManager K C P → UpdateManager K C P
  run [] m = m
  run (c ∷ cs) m = run cs (step c m)

  pub all_registered : Username → List (Call K C P) → UpdateResponse K C P
  all_registered u [] = no_updates
  all_registered u (c ∷ cs) = merge (registered u c) (all_registered u cs)

  pub all_delivered : Username → List (Call K C P) → UpdateManager K C P → UpdateResponse K C P
  all_delivered u [] m = no_updates
  all_delivered u (c ∷ cs) m = merge (delivered u c m) (all_delivered u cs (step c m))

  put_balance :
      (v u : Username) (r delta : UpdateResponse K C P) (m : UpdateManager K C P)
      → r ≡ merge (entry v m) delta
      → entry u (put v r m) ≡ merge (entry u m) (if same v u then delta else no_updates)
  put_balance v u r delta m e = ground (arith, e, find-put v u r m, merge-no_updates (entry u m))

  retrieve_balance :
      (v u : Username) (m : UpdateManager K C P)
      → merge
          (if same v u then (retrieve_updates v m).0 else no_updates)
          (entry u (retrieve_updates v m).1)
        ≡ entry u m
  unfolding retrieve_updates
  retrieve_balance v u m = ground (arith, find-erase v u m, merge-no_updates (entry u m))

  -- What a call gives to a user, and what it leaves for the user, are what stood there and what it
  -- adds.
  step_balance :
      (u : Username) (c : Call K C P) (m : UpdateManager K C P)
      → merge (delivered u c m) (entry u (step c m)) ≡ merge (entry u m) (registered u c)
  unfolding delivered step registered register_reg_member register_owner register_lookup
      register_decryption_participating register_finished_decryption
  step_balance u (looks_up v a) m =
      put_balance v u _ (record no_updates { on_lookup = a ∷ [] }) m (simp append-nil)
  step_balance u (adds_reg_member v a) m =
      put_balance v u _ (record no_updates { added_as_reg_member = a ∷ [] }) m (simp append-nil)
  step_balance u (adds_owner v a) m =
      put_balance v u _ (record no_updates { added_as_owner = a ∷ [] }) m (simp append-nil)
  step_balance u (wants_part v a) m =
      put_balance v u _ (record no_updates { to_decrypt = a ∷ [] }) m (simp append-nil)
  step_balance u (finishes v a) m =
      put_balance v u _ (record no_updates { finished_decryptions = a ∷ [] }) m (simp append-nil)
  step_balance u (retrieves v) m = rw (merge-no_updates (entry u m)) (retrieve_balance v u m)

  -- For every user and every sequence of calls: what the calls gave to the user, followed by what
  -- is left for the user, is what was there before, followed by what the calls registered for the
  -- user. So no update is lost, given twice, reordered, or given to somebody else.
  pub updates_balance :
      (u : Username) (cs : List (Call K C P)) (m : UpdateManager K C P)
      → merge (all_delivered u cs m) (entry u (run cs m)) ≡ merge (entry u m) (all_registered u cs)
  unfolding all_delivered all_registered run
  updates_balance u [] m = sym (merge-no_updates (entry u m))
  updates_balance u (c ∷ cs) m =
      merge_assoc (delivered u c m) (all_delivered u cs (step c m)) (entry u (run cs (step c m)))
      ∙ ap (merge (delivered u c m)) (updates_balance u cs (step c m))
      ∙ sym (merge_assoc (delivered u c m) (entry u (step c m)) (all_registered u cs))
      ∙ ap (λ (x : UpdateResponse K C P). merge x (all_registered u cs)) (step_balance u c m)
      ∙ merge_assoc (entry u m) (registered u c) (all_registered u cs)

  -- A second retrieval in a row gives nothing.
  pub retrieve_twice :
      (u : Username) (m : UpdateManager K C P)
      → (retrieve_updates u (retrieve_updates u m).1).0 ≡ no_updates
  unfolding retrieve_updates
  retrieve_twice u m = ground (arith, find-erase u u m)
