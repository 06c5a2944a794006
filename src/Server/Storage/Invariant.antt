-- ===== src/Server/Storage/Invariant.antt =====
-- The invariant of server/storage/ShortTermServerStorage.cpp.
use shared_encryption.Base.{
  ℕ, ◌≡◌, ◌≢◌, refl, Bool, true, false, ◌||◌, ◌&&◌, List, [], ◌∷◌, ◌++◌, Option, none, some, arith,
  All, Option-cases, inl, inr, ◌∙◌, List-cases,
}
use shared_encryption.Base.Key.{nat_key, bytes_key, pair_key, same}
use shared_encryption.Base.Map.{Map, find, put, is_some, or_else, find-put}
use shared_encryption.Base.Set.{contains}
use shared_encryption.Base.Ordered.{
  nat_order, bytes_order, insert_ordered, contains-insert_ordered, IsAscending,
}
use shared_encryption.Server.Types.{Username, Uuid}
use shared_encryption.Server.Storage.{
  Storage, UserRecord, UserSetInfo, PwdHasher, own_userset, all_exist, new_user,
}
use shared_encryption.Server.Storage.Shards.{InRange, IsUnique}

-- Is the user an owner, or any member, of what stands under an ID?
abbrev pub owner_in : Option UserSetInfo → Username → Bool
owner_in none u = false
owner_in (some info) u = contains info.owners u

abbrev pub member_in : Option UserSetInfo → Username → Bool
member_in none u = false
member_in (some info) u = contains (info.owners ++ info.reg_members) u

abbrev pub owns : {Salt Hash : Type 0} → Option (UserRecord Salt Hash) → Uuid → Bool
owns none id = false
owns (some r) id = contains r.usersets id

pub record IsValid {Salt Hash : Type 0} (s : Storage Salt Hash) : Type 0 where
  pub ascending :
      (id : Uuid) (info : UserSetInfo)
      → find id s.usersets ≡ some info
      → IsAscending info.owners × IsAscending info.reg_members
  -- a user's list of usersets is right
  pub owners_match :
      (u : Username) (id : Uuid) → owns (find u s.users) id ≡ owner_in (find id s.usersets) u
  pub members_are_users :
      (u : Username) (id : Uuid)
      → member_in (find id s.usersets) u ≡ true
      → is_some (find u s.users) ≡ true
  -- exactly the members of a userset have a shard ID under it
  pub members_have_shards :
      (u : Username) (id : Uuid)
      → is_some (find (u, id) s.shard_ids) ≡ member_in (find id s.usersets) u
  pub shards_unique :
      (id : Uuid) → IsUnique id (or_else (find id s.userset_shard_ids) []) s.shard_ids
  pub shards_in_range :
      (u : Username) (id : Uuid) (n : ℕ) → find (u, id) s.shard_ids ≡ some n → InRange n
  pub draws_in_range : All InRange s.shard_draws

pub contains-append :
    (xs ys : List Username) (u : Username)
    → contains (xs ++ ys) u ≡ (contains xs u || contains ys u)
unfolding contains
contains-append [] ys u = refl
contains-append (x ∷ xs) ys u = ground (arith, contains-append xs ys u)

module _ {Salt Hash : Type 0} where
  pub own_userset-owns :
      (id : Uuid) (us : List Username) (users users' : Map Username (UserRecord Salt Hash))
      (u : Username) (j : Uuid)
      → own_userset id us users ≡ some users'
      → (owns (find u users') j ≡ (owns (find u users) j || (same id j && contains us u)))
        × (is_some (find u users') ≡ is_some (find u users))
  unfolding own_userset contains
  own_userset-owns id [] users users' u j e = (ground arith, ground arith)
  own_userset-owns id (v ∷ us) users users' u j e = elim (Option-cases (find v users)) [
    | inl missing ↦ absurd (ground arith)
    | inr (r, found) ↦
        let next = record r { usersets = insert_ordered id r.usersets } in
        let ih =
          own_userset-owns id us (put v next users) users' u j (rw (found, own_userset) at e) in
        ground (arith, ih, find-put v u next users, contains-insert_ordered id j r.usersets)
  ]

  all_exist-put :
      (v : Username) (r : UserRecord Salt Hash) (us : List Username)
      (users : Map Username (UserRecord Salt Hash))
      → all_exist users us ≡ true
      → all_exist (put v r users) us ≡ true
  unfolding all_exist
  all_exist-put v r [] users e = refl
  all_exist-put v r (u ∷ us) users e =
      ground (arith, find-put v u r users, all_exist-put v r us users)

  pub own_userset_total :
      (id : Uuid) (us : List Username) (users : Map Username (UserRecord Salt Hash))
      → all_exist users us ≡ true
      → own_userset id us users ≢ none
  unfolding own_userset all_exist
  own_userset_total id [] users e = λ h. cc
  own_userset_total id (u ∷ us) users e = elim (Option-cases (find u users)) [
    | inl missing ↦ absurd (ground arith)
    | inr (r, found) ↦
        let next = record r { usersets = insert_ordered id r.usersets } in
        rw (found, own_userset)
          (own_userset_total id us (put u next users)
            (all_exist-put u next us users (ground arith)))
  ]

  pub all_exist-append :
      (users : Map Username (UserRecord Salt Hash)) (us vs : List Username)
      → all_exist users (us ++ vs) ≡ true
      → (all_exist users us ≡ true) × (all_exist users vs ≡ true)
  unfolding all_exist
  all_exist-append users [] vs e = (refl, e)
  all_exist-append users (u ∷ us) vs e = ground (arith, all_exist-append users us vs)

  pub all_exist-find :
      (users : Map Username (UserRecord Salt Hash)) (us : List Username) (u : Username)
      → all_exist users us ≡ true
      → contains us u ≡ true
      → is_some (find u users) ≡ true
  unfolding all_exist contains
  all_exist-find users [] u e h = cc
  all_exist-find users (v ∷ us) u e h = ground (arith, all_exist-find users us u)

  -- A server begins with no user and no userset.
  abbrev pub no_users : List Salt → List Uuid → List ℕ → Storage Salt Hash
  no_users salts uuids shard_draws = record {
    users = [];
    usersets = [];
    userset_shard_ids = [];
    shard_ids = [];
    salts = salts;
    uuids = uuids;
    shard_draws = shard_draws;
  }

  pub no_users-IsValid :
      (salts : List Salt) (uuids : List Uuid) (draws : List ℕ)
      → All InRange draws
      → IsValid (no_users salts uuids draws)
  unfolding find
  no_users-IsValid salts uuids draws h = record {
    ascending = λ id info e. cc;
    owners_match = λ u id. refl;
    members_are_users = λ u id e. cc;
    members_have_shards = λ u id. refl;
    shards_unique = λ id. record { covered = λ u n e. cc; injective = λ u w n e f. cc };
    shards_in_range = λ u id n e. cc;
    draws_in_range = h;
  }

  -- A change of the users that keeps what they own, and their number at least.
  pub with_users :
      (users : Map Username (UserRecord Salt Hash)) (salts : List Salt) (s : Storage Salt Hash)
      → ((u : Username) (id : Uuid) → owns (find u users) id ≡ owns (find u s.users) id)
      → ((u : Username) → is_some (find u s.users) ≡ true → is_some (find u users) ≡ true)
      → IsValid s
      → IsValid (record s { users = users; salts = salts })
  with_users users salts s same_owned more v = record {
    ascending = v.ascending;
    owners_match = λ u id. same_owned u id ∙ v.owners_match u id;
    members_are_users = λ u id e. more u (v.members_are_users u id e);
    members_have_shards = v.members_have_shards;
    shards_unique = v.shards_unique;
    shards_in_range = v.shards_in_range;
    draws_in_range = v.draws_in_range;
  }

  -- `new_user` keeps the storage valid, whether it makes the user or refuses.
  pub new_user-IsValid :
      (h : PwdHasher Salt Hash) (u : Username) (password : List ℕ) (s : Storage Salt Hash)
      → IsValid s
      → IsValid (new_user h u password s).1
  unfolding new_user contains
  new_user-IsValid h u password s v = elim (Option-cases (find u s.users)) [
    | inr (r, found) ↦ rw (found, new_user) v
    | inl free ↦
        rw (free, new_user)
          (elim (List-cases s.salts) [
            | inl e ↦ rw e v
            | inr (salt, rest, e) ↦
                let fresh : UserRecord Salt Hash = record {
                  pwd_salt = salt;
                  pwd_hash = h.hash password salt;
                  usersets = [];
                } in
                rw e (
                  with_users (put u fresh s.users) rest s
                    (λ w id. ground (arith, find-put u w fresh s.users))
                    (λ w k. ground (arith, find-put u w fresh s.users)) v)
          ])
  ]
