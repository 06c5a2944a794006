-- ===== src/Server/Storage/Creation.antt =====
-- `new_userset` of server/storage/ShortTermServerStorage.cpp keeps the invariant.
use shared_encryption.Base.{
  ℕ, ◌≡◌, ◌≢◌, refl, true, false, ◌||◌, ◌&&◌, List, [], ◌++◌, Option, none, some, arith,
  Option-cases, inl, inr, ℕ_discrete, if_pos, if_neg, ite, Bool-cases,
}
use shared_encryption.Base.Key.{nat_key, bytes_key, pair_key, same}
use shared_encryption.Base.Map.{Map, find, put, emplace, is_some, or_else, find-emplace, find-put}
use shared_encryption.Base.Set.{HashSet, contains}
use shared_encryption.Base.Ordered.{nat_order, bytes_order, IsAscending, to_ordered_set-IsAscending}
use shared_encryption.Base.Random.{generate_not_pred, generate_not_pred-new}
use shared_encryption.Server.Types.{Username, Uuid}
use shared_encryption.Server.Storage.{
  Storage, UserRecord, UserSetInfo, assign_shards, own_userset, all_exist, add_userset, new_userset,
  stored_info,
}
use shared_encryption.Server.Storage.Shards.{
  ShardIds, IsUnique, assign_shards-IsUnique, assign_shards_frame, assign_shards-InRange,
  assign_shards_members,
}
use shared_encryption.Server.Storage.Invariant.{
  owns, IsValid, own_userset-owns, own_userset_total, all_exist-append, all_exist-find,
}

-- A new userset under an ID that no userset has, once its owners and shard IDs are registered.
module _ {Salt Hash : Type 0} (id : Uuid) (info : UserSetInfo) (s : Storage Salt Hash)
    (users : Map Username (UserRecord Salt Hash)) (used : HashSet ℕ) (ids : ShardIds)
    (rest : List ℕ) (new : find id s.usersets ≡ none)
    (known : all_exist s.users (info.owners ++ info.reg_members) ≡ true)
    (sorted : IsAscending info.owners × IsAscending info.reg_members)
    (owned : own_userset id info.owners s.users ≡ some users)
    (assigned : assign_shards id
        (info.owners ++ info.reg_members)
        (or_else (find id s.userset_shard_ids) [])
        s.shard_ids
        s.shard_draws
      ≡ some (used, ids, rest))
    (v : IsValid s) where
  abbrev after : Storage Salt Hash
  after = record s {
    users = users;
    usersets = emplace id info s.usersets;
    userset_shard_ids = put id used s.userset_shard_ids;
    shard_ids = ids;
    shard_draws = rest;
  }

  others_keep_shards :
      (u : Username) (j : Uuid) → id ≢ j → find (u, j) ids ≡ find (u, j) s.shard_ids
  others_keep_shards = assign_shards_frame id _ _ _ _ used ids rest assigned

  usersets_after :
      (j : Uuid) → find j after.usersets ≡ ite (ℕ_discrete id j) (some info) (find j s.usersets)
  usersets_after j = rw (find-emplace id j info s.usersets, new)

  owns_after :
      (u : Username) (j : Uuid)
      → (owns (find u users) j ≡ (owns (find u s.users) j || (same id j && contains info.owners u)))
        × (is_some (find u users) ≡ is_some (find u s.users))
  owns_after u j = own_userset-owns id info.owners s.users users u j owned

  shards_after :
      (u : Username) → is_some (find (u, id) ids) ≡ contains (info.owners ++ info.reg_members) u
  shards_after u =
      ground (
        arith,
        assign_shards_members id _ _ _ _ used ids rest u assigned,
        v.members_have_shards u id,
      )

  IsUnique-after : (j : Uuid) → IsUnique j (or_else (find j after.userset_shard_ids) []) ids
  IsUnique-after j = elim (ℕ_discrete id j) [
    | yes p ↦
        rw (find-put id j used s.userset_shard_ids, if_pos _ p, ← p)
          (assign_shards-IsUnique id _ _ _ _ used ids rest assigned (v.shards_unique id))
    | no q ↦
        rw (find-put id j used s.userset_shard_ids, if_neg _ q)
          (record {
            covered = λ u n h. (v.shards_unique j).covered u n (rw (others_keep_shards u j q) at h);
            injective = λ u w n h k.
                (v.shards_unique j).injective u w n (rw (others_keep_shards u j q) at h)
                  (rw (others_keep_shards w j q) at k);
          })
  ]

  after-IsValid : IsValid after
  after-IsValid =
      let ranges =
        assign_shards-InRange id _ _ _ _ used ids rest assigned v.draws_in_range
          v.shards_in_range in
      record {
        ascending = λ j i h. ground (arith, v.ascending j i, usersets_after j);
        owners_match = λ u j. ground (arith, v.owners_match u j, usersets_after j, owns_after u j);
        members_are_users = λ u j h. ground (
          arith,
          v.members_are_users u j,
          usersets_after j,
          owns_after u j,
          all_exist-find s.users (info.owners ++ info.reg_members) u known,
        );
        members_have_shards = λ u j. ground (
          arith,
          v.members_have_shards u j,
          usersets_after j,
          shards_after u,
          others_keep_shards u j,
        );
        shards_unique = IsUnique-after;
        shards_in_range = ranges.1;
        draws_in_range = ranges.0;
      }

pub not_some-none : {A : Type 0} (o : Option A) → is_some o ≡ false → o ≡ none
not_some-none none h = refl
not_some-none (some a) h = cc

module _ {Salt Hash : Type 0} where
  pub add_userset-IsValid :
      (id : Uuid) (info : UserSetInfo) (s : Storage Salt Hash)
      → find id s.usersets ≡ none
      → all_exist s.users (info.owners ++ info.reg_members) ≡ true
      → IsAscending info.owners × IsAscending info.reg_members
      → IsValid s
      → IsValid (add_userset id info s).1
  unfolding add_userset
  add_userset-IsValid id info s new known sorted v =
      elim (Option-cases (own_userset id info.owners s.users)) [
        | inl failed ↦ absurd (
            own_userset_total id info.owners s.users
              (all_exist-append s.users info.owners info.reg_members known).0 failed)
        | inr (users, owned) ↦
            rw (owned, add_userset)
              (elim (Option-cases (
                assign_shards id (info.owners ++ info.reg_members)
                  (or_else (find id s.userset_shard_ids) []) s.shard_ids s.shard_draws)) [
                    | inl e ↦ rw e v
                    | inr ((used, ids, rest), e) ↦
                        rw e
                          (after-IsValid id info s users used ids rest new known sorted owned e v)
                  ])
      ]

  with_uuids :
      (uuids : List Uuid) (s : Storage Salt Hash) → IsValid s → IsValid (record s { uuids = uuids })
  with_uuids uuids s v = record {
    ascending = v.ascending;
    owners_match = v.owners_match;
    members_are_users = v.members_are_users;
    members_have_shards = v.members_have_shards;
    shards_unique = v.shards_unique;
    shards_in_range = v.shards_in_range;
    draws_in_range = v.draws_in_range;
  }

  -- `new_userset` keeps the storage valid, whatever it is called with and however it ends.
  pub new_userset-IsValid :
      (owners reg_members : List Username) (owners_threshold reg_members_threshold : ℕ)
      (s : Storage Salt Hash)
      → IsValid s
      → IsValid (new_userset owners reg_members owners_threshold reg_members_threshold s).1
  unfolding new_userset
  new_userset-IsValid owners reg_members ot rt s v =
      let info = stored_info owners reg_members ot rt in
      elim (Bool-cases (all_exist s.users (info.owners ++ info.reg_members))) [
        | inr unknown ↦ rw unknown v
        | inl known ↦
            rw known
              (elim (Option-cases (generate_not_pred (λ u. is_some (find u s.usersets)) s.uuids)) [
                | inl e ↦ rw e v
                | inr ((id, rest), e) ↦ rw e (
                    add_userset-IsValid id info (record s { uuids = rest })
                      (not_some-none _ (generate_not_pred-new _ s.uuids id rest e)) known
                      (to_ordered_set-IsAscending owners, to_ordered_set-IsAscending reg_members)
                      (with_uuids rest s v))
              ])
      ]
