-- ===== src/Server/Storage/Totality.antt =====
-- `new_userset` of server/storage/ShortTermServerStorage.cpp comes back when its random sources
-- give it what it looks for.
use shared_encryption.Base.{
  ℕ, ◌≡◌, refl, true, false, List, [], ◌∷◌, ◌++◌, none, some, arith, length, Option-cases, inl, inr,
}
use shared_encryption.Base.Key.{nat_key, bytes_key, pair_key}
use shared_encryption.Base.Map.{Map, find, emplace, or_else}
use shared_encryption.Base.Set.{HashSet, contains, insert}
use shared_encryption.Base.Random.{generate_not_pred}
use shared_encryption.Server.Types.{Username, Uuid, ok}
use shared_encryption.Server.Storage.{
  Storage, UserSetInfo, stored_info, all_exist, own_userset, assign_shards, add_userset,
  new_userset,
}
use shared_encryption.Server.Storage.Invariant.{own_userset_total, all_exist-append}

-- Each number is new to the set with the numbers before it.
abbrev pub IsFresh : HashSet ℕ → List ℕ → Type 0
IsFresh used [] = Unit {0}
IsFresh used (n ∷ ns) = (contains used n ≡ false) × IsFresh (insert n used) ns

next_drawn :
    (used : HashSet ℕ) (n : ℕ) (ns : List ℕ)
    → contains used n ≡ false
    → generate_not_pred (contains used) (n ∷ ns) ≡ some (n, ns)
unfolding generate_not_pred
next_drawn used n ns h = rw h refl

assign_shards_total :
    (id : Uuid) (ms : List Username) (used : HashSet ℕ) (ids : Map (Username × Uuid) ℕ)
    (ns rest : List ℕ)
    → length ns ≡ length ms
    → IsFresh used ns
    → (t : HashSet ℕ × Map (Username × Uuid) ℕ × List ℕ) × (assign_shards id ms used ids
          (ns ++ rest)
        ≡ some t)
unfolding assign_shards
assign_shards_total id [] used ids ns rest e h = ((used, ids, ns ++ rest), refl)
assign_shards_total id (m ∷ ms) used ids [] rest e h = absurd (omega (arith, e))
assign_shards_total id (m ∷ ms) used ids (n ∷ ns) rest e h =
    rw (next_drawn used n (ns ++ rest) h.0, assign_shards)
      (assign_shards_total id ms (insert n used) (emplace (m, id) n ids) ns rest (omega (arith, e))
        h.1)

module _ {Salt Hash : Type 0} (owners reg_members : List Username) (ot rt : ℕ)
    (s : Storage Salt Hash) where
  abbrev info : UserSetInfo
  info = stored_info owners reg_members ot rt

  -- Let all the members be users, let the next UUID be the ID of no userset, and let the next
  -- shard IDs, one for each member, be distinct and not used under it. Then `new_userset` returns
  -- that UUID.
  pub new_userset_total :
      (id : Uuid) (uuids ns rest : List ℕ)
      → all_exist s.users (info.owners ++ info.reg_members) ≡ true
      → s.uuids ≡ id ∷ uuids
      → find id s.usersets ≡ none
      → s.shard_draws ≡ ns ++ rest
      → length ns ≡ length (info.owners ++ info.reg_members)
      → IsFresh (or_else (find id s.userset_shard_ids) []) ns
      → (new_userset owners reg_members ot rt s).0 ≡ ok id
  unfolding new_userset add_userset generate_not_pred
  new_userset_total id uuids ns rest known next new draws enough fresh =
      let used = or_else (find id s.userset_shard_ids) [] in
      let assigned =
        assign_shards_total id (info.owners ++ info.reg_members) used s.shard_ids ns rest enough
          fresh in
      elim (Option-cases (own_userset id info.owners s.users)) [
        | inl failed ↦ absurd (
            own_userset_total id info.owners s.users
              (all_exist-append s.users info.owners info.reg_members known).0 failed)
        | inr (users, owned) ↦ rw (known, next, new, owned, draws, assigned.1, add_userset) refl
      ]
