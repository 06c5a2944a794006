-- ===== src/Server/Storage/Usersets.antt =====
-- `new_userset` of server/storage/ShortTermServerStorage.cpp, and what the getters then return.
use shared_encryption.Base.{
  ℕ, ◌≡◌, refl, ◌∙◌, true, false, ◌||◌, List, [], ◌∷◌, ◌++◌, if_neg, none, arith, if◌then◌else◌,
  Option-cases, Bool-cases, inl, inr, ◌⊎◌, ◌≤◌,
}
use shared_encryption.Base.Key.{nat_key, bytes_key, pair_key, same, bytes_discrete}
use shared_encryption.Base.Set.{contains}
use shared_encryption.Base.Map.{Map, find, emplace, is_some, or_else, find-emplace}
use shared_encryption.Base.Ordered.{bytes_order, contains-to_ordered_set}
use shared_encryption.Base.Random.{generate_not_pred, generate_not_pred-new}
use shared_encryption.Server.Types.{
  Username, Uuid, ok, throw, starved, user_not_found_exception, userset_not_found_exception,
  out_of_range,
}
use shared_encryption.Server.Storage.{
  Storage, UserRecord, UserSetInfo, stored_info, all_exist, own_userset, assign_shards, add_userset,
  new_userset, get_userset_info, get_shard_id, user_owns_userset,
}
use shared_encryption.Server.Storage.Invariant.{
  IsValid, own_userset_total, all_exist-append, owner_in, member_in, contains-append,
}
use shared_encryption.Server.Storage.Creation.{not_some-none}

module _ {Salt Hash : Type 0} where
  -- With all members known, the result is the ID, and the userset stands under it.
  add_userset-ok :
      (id : Uuid) (info : UserSetInfo) (s : Storage Salt Hash)
      → all_exist s.users (info.owners ++ info.reg_members) ≡ true
      → ((add_userset id info s).0 ≡ starved)
        ⊎ (((add_userset id info s).0 ≡ ok id)
            × ((add_userset id info s).1.usersets ≡ emplace id info s.usersets))
  unfolding add_userset
  add_userset-ok id info s known = elim (Option-cases (own_userset id info.owners s.users)) [
    | inl failed ↦ absurd (
        own_userset_total id info.owners s.users
          (all_exist-append s.users info.owners info.reg_members known).0 failed)
    | inr (users, owned) ↦
        rw (owned, add_userset)
          (elim (Option-cases (
            assign_shards id (info.owners ++ info.reg_members)
              (or_else (find id s.userset_shard_ids) []) s.shard_ids s.shard_draws)) [
                | inl e ↦ rw e (inl refl)
                | inr (t, e) ↦ rw e (inr (refl, refl))
              ])
  ]

all_exist-is_some :
    {Salt Hash : Type 0} (users : Map Username (UserRecord Salt Hash)) (us : List Username)
    (m : Username)
    → all_exist users us ≡ true
    → contains us m ≡ true
    → is_some (find m users) ≡ true
unfolding all_exist contains
all_exist-is_some users [] m e h = absurd (cc h)
all_exist-is_some users (u ∷ us) m e h = elim (bytes_discrete u m) [
  | yes p ↦ rw (← p) (ground (arith, e))
  | no p ↦ all_exist-is_some users us m (ground (arith, e)) (rw (if_neg _ p) at h)
]

module _ {Salt Hash : Type 0} (owners reg_members : List Username) (ot rt : ℕ)
    (s : Storage Salt Hash) where
  abbrev info : UserSetInfo
  info = stored_info owners reg_members ot rt

  refused_by_test :
      (all_exist s.users (info.owners ++ info.reg_members) ≡ false)
      → new_userset owners reg_members ot rt s ≡ (throw user_not_found_exception, s)
  unfolding new_userset
  refused_by_test e = rw e

  -- If an owner or a regular member, wherever in the lists, is no user, then `new_userset` throws
  -- that the user is not found, and nothing changes.
  pub new_userset_refused :
      (m : Username)
      → (contains owners m || contains reg_members m) ≡ true
      → find m s.users ≡ none
      → new_userset owners reg_members ot rt s ≡ (throw user_not_found_exception, s)
  new_userset_refused m named unknown =
      let in_info : contains (info.owners ++ info.reg_members) m ≡ true =
        contains-append info.owners info.reg_members m
        ∙ (rw (contains-to_ordered_set owners m, contains-to_ordered_set reg_members m) named) in
      elim (Bool-cases (all_exist s.users (info.owners ++ info.reg_members))) [
        | inr refused ↦ refused_by_test refused
        | inl known ↦
            let there =
              all_exist-is_some s.users (info.owners ++ info.reg_members) m known in_info in
            absurd (ground (arith, there, unknown))
      ]

  -- With all members known, `new_userset` ends, unless a random source is used up, with the ID of
  -- a userset that was not there, and stores the userset under it.
  pub new_userset_accepted :
      all_exist s.users (info.owners ++ info.reg_members) ≡ true
      → ((new_userset owners reg_members ot rt s).0 ≡ starved)
        ⊎ ((id : Uuid) × ((new_userset owners reg_members ot rt s).0 ≡ ok id)
            × (find id s.usersets ≡ none)
            × ((new_userset owners reg_members ot rt s).1.usersets ≡ emplace id info s.usersets))
  unfolding new_userset
  new_userset_accepted known =
      rw known (elim (Option-cases (generate_not_pred (λ u. is_some (find u s.usersets)) s.uuids)) [
        | inl e ↦ rw e (inl refl)
        | inr ((id, rest), e) ↦
            rw e (elim (add_userset-ok id info (record s { uuids = rest }) known) [
              | inl stuck ↦ inl stuck
              | inr (done, stands) ↦
                  inr
                    (id, done, not_some-none _ (generate_not_pred-new _ s.uuids id rest e), stands)
            ])
      ])

  -- If `new_userset` returned an ID, no userset had it before; afterwards `get_userset_info` gives
  -- the new userset under this ID, and under each other ID what it gave before.
  pub get_userset_info-new_userset :
      (id j : Uuid)
      → (new_userset owners reg_members ot rt s).0 ≡ ok id
      → (get_userset_info id s ≡ throw userset_not_found_exception)
        × (get_userset_info j (new_userset owners reg_members ot rt s).1
            ≡ (if same id j then ok info else get_userset_info j s))
  unfolding get_userset_info
  get_userset_info-new_userset id j made =
      elim (Bool-cases (all_exist s.users (info.owners ++ info.reg_members))) [
        | inr unknown ↦ absurd (ground (arith, refused_by_test unknown))
        | inl known ↦ elim (new_userset_accepted known) [
          | inl stuck ↦ absurd (ground arith)
          | inr (id', done, new, stands) ↦
              (ground arith, ground (arith, stands, find-emplace id j info s.usersets))
        ]
      ]

-- What the getters return from a valid storage.
module _ {Salt Hash : Type 0} (s : Storage Salt Hash) (v : IsValid s) where
  -- In a valid storage `get_shard_id` gives each member of a userset an ID between 1 and 255.
  pub get_shard_id_members :
      (u : Username) (id : Uuid)
      → member_in (find id s.usersets) u ≡ true
      → (n : ℕ) × (get_shard_id u id s ≡ ok n) × (1 ≤ n) × (n ≤ 255)
  unfolding get_shard_id
  get_shard_id_members u id h = elim (Option-cases (find (u, id) s.shard_ids)) [
    | inl missing ↦ absurd (ground (arith, v.members_have_shards u id))
    | inr (n, found) ↦ (
      n,
      rw (found, get_shard_id) refl,
      (v.shards_in_range u id n found).0,
      (v.shards_in_range u id n found).1,
    )
  ]

  -- In a valid storage, asked for the shard ID of a user who is no member, `get_shard_id` throws
  -- `std::out_of_range`.
  pub get_shard_id_outsider :
      (u : Username) (id : Uuid)
      → member_in (find id s.usersets) u ≡ false
      → get_shard_id u id s ≡ throw out_of_range
  unfolding get_shard_id
  get_shard_id_outsider u id h = elim (Option-cases (find (u, id) s.shard_ids)) [
    | inl missing ↦ ground arith
    | inr (n, found) ↦ absurd (ground (arith, v.members_have_shards u id))
  ]

  -- In a valid storage `user_owns_userset` throws for an unknown user, and otherwise says whether
  -- the user is among the owners that the userset has.
  pub user_owns_userset-owner_in :
      (u : Username) (id : Uuid)
      → user_owns_userset u id s ≡ (
          if is_some (find u s.users)
          then ok (owner_in (find id s.usersets) u)
          else throw user_not_found_exception)
  unfolding user_owns_userset
  user_owns_userset-owner_in u id = ground (arith, v.owners_match u id)
