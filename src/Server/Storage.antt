-- ===== src/Server/Storage.antt =====
-- server/storage/ShortTermServerStorage.{hpp,cpp}: users, usersets and shard IDs in memory. Each
-- method takes the storage and returns it beside the outcome. The password hasher
-- (utils/pwd/PBKDF2.hpp) is a parameter, and what is drawn at random is read from lists.
pub mod Shards
pub mod Invariant
pub mod Creation
pub mod Accounts
pub mod Usersets
pub mod Totality
use shared_encryption.Base.{
  ℕ, Bool, true, false, ◌&&◌, List, [], ◌∷◌, ◌++◌, Option, none, some, if◌then◌else◌,
}
use shared_encryption.Base.Key.{Key, nat_key, bytes_key, pair_key, same}
use shared_encryption.Base.Map.{Map, find, put, emplace, is_some, or_else}
use shared_encryption.Base.Set.{HashSet, contains, insert}
use shared_encryption.Base.Ordered.{nat_order, bytes_order, insert_ordered, to_ordered_set}
use shared_encryption.Base.Random.{generate_not_pred}
use shared_encryption.Server.Types.{
  Username, Uuid, Outcome, ok, throw, starved, user_exists_exception, user_not_found_exception,
  userset_not_found_exception, out_of_range,
}

-- `PBKDF2::hash`: the hash of a password under a salt.
pub record PwdHasher (Salt Hash : Type 0) : Type 0 where
  pub hash : List ℕ → Salt → Hash

pub record UserRecord (Salt Hash : Type 0) : Type 0 where
  pub pwd_salt : Salt
  pub pwd_hash : Hash
  pub usersets : List Uuid

-- `UserSetInfo` of IServerStorage.hpp and `StoredUserSetInfo`, whose fields are ordered sets.
pub record UserSetInfo : Type 0 where
  pub owners : List Username
  pub reg_members : List Username
  pub owners_threshold : ℕ
  pub reg_members_threshold : ℕ

abbrev pub stored_info : List Username → List Username → ℕ → ℕ → UserSetInfo
stored_info owners reg_members owners_threshold reg_members_threshold = record {
  owners = to_ordered_set owners;
  reg_members = to_ordered_set reg_members;
  owners_threshold = owners_threshold;
  reg_members_threshold = reg_members_threshold;
}

pub record Storage (Salt Hash : Type 0) : Type 0 where
  pub users : Map Username (UserRecord Salt Hash)
  pub usersets : Map Uuid UserSetInfo
  pub userset_shard_ids : Map Uuid (HashSet ℕ)
  pub shard_ids : Map (Username × Uuid) ℕ
  -- what the salt generator, the UUID generator and `_shardsDist` will give
  pub salts : List Salt
  pub uuids : List Uuid
  pub shard_draws : List ℕ

-- Registers the shard IDs of the members: each is new to the userset. `emplace` keeps the first ID
-- of a user who is named twice.
unfoldable pub assign_shards :
    Uuid
    → List Username
    → HashSet ℕ
    → Map (Username × Uuid) ℕ
    → List ℕ
    → Option (HashSet ℕ × Map (Username × Uuid) ℕ × List ℕ)
assign_shards id [] used ids draws = some (used, ids, draws)
assign_shards id (m ∷ ms) used ids draws = elim (generate_not_pred (contains used) draws) [
  | none ↦ none
  | some (shard_id, rest) ↦
      assign_shards id ms (insert shard_id used) (emplace (m, id) shard_id ids) rest
]

module _ {Salt Hash : Type 0} where
  -- Are all the members users?
  unfoldable pub all_exist : Map Username (UserRecord Salt Hash) → List Username → Bool
  all_exist users [] = true
  all_exist users (m ∷ ms) = is_some (find m users) && all_exist users ms

  -- `_users.at(owner).usersets.insert(setID)` for each owner; `none` is what `at` throws.
  unfoldable pub own_userset :
      Uuid
      → List Username
      → Map Username (UserRecord Salt Hash)
      → Option (Map Username (UserRecord Salt Hash))
  own_userset id [] users = some users
  own_userset id (u ∷ us) users = elim (find u users) [
    | none ↦ none
    | some r ↦
        own_userset id us (put u (record r { usersets = insert_ordered id r.usersets }) users)
  ]

  -- `try_emplace`: salt and hash are made only for a new user.
  unfoldable pub new_user :
      PwdHasher Salt Hash
      → Username
      → List ℕ
      → Storage Salt Hash
      → Outcome (Unit {0}) × Storage Salt Hash
  new_user h username password s = elim (find username s.users) [
    | some r ↦ (throw user_exists_exception, s)
    | none ↦ elim s.salts [
      | [] ↦ (starved, s)
      | salt ∷ rest ↦ (
        ok tt,
        record s {
          users =
              put username
                (record { pwd_salt = salt; pwd_hash = h.hash password salt; usersets = [] })
                s.users;
          salts = rest;
        },
      )
    ]
  ]

  unfoldable pub user_has_password :
      ⦃k : Key Hash⦄ → PwdHasher Salt Hash → Username → List ℕ → Storage Salt Hash → Bool
  user_has_password h username password s = elim (find username s.users) [
    | none ↦ false
    | some r ↦ same (h.hash password r.pwd_salt) r.pwd_hash
  ]

  abbrev pub user_exists : Username → Storage Salt Hash → Bool
  user_exists username s = is_some (find username s.users)

  -- The part of `new_userset` after the checks, with the ID that was drawn.
  unfoldable pub add_userset :
      Uuid → UserSetInfo → Storage Salt Hash → Outcome Uuid × Storage Salt Hash
  unfolding own_userset assign_shards
  add_userset id info s = elim (own_userset id info.owners s.users) [
    | none ↦ (throw out_of_range, s)
    | some users ↦
        elim (assign_shards id (info.owners ++ info.reg_members)
          (or_else (find id s.userset_shard_ids) []) s.shard_ids s.shard_draws) [
            | none ↦ (starved, s)
            | some (used, ids, rest) ↦ (
              ok id,
              record s {
                users = users;
                usersets = emplace id info s.usersets;
                userset_shard_ids = put id used s.userset_shard_ids;
                shard_ids = ids;
                shard_draws = rest;
              },
            )
          ]
  ]

  -- A call that is starved does not come back; the state beside `starved` is not looked at.
  unfoldable pub new_userset :
      List Username → List Username → ℕ → ℕ → Storage Salt Hash → Outcome Uuid × Storage Salt Hash
  unfolding all_exist add_userset
  new_userset owners reg_members owners_threshold reg_members_threshold s =
      let info = stored_info owners reg_members owners_threshold reg_members_threshold in
      if all_exist s.users (info.owners ++ info.reg_members)
      then elim (generate_not_pred (λ u. is_some (find u s.usersets)) s.uuids) [
        | none ↦ (starved, s)
        | some (id, rest) ↦ add_userset id info (record s { uuids = rest })
      ]
      else (throw user_not_found_exception, s)

  unfoldable pub get_usersets : Username → Storage Salt Hash → Outcome (List Uuid)
  get_usersets owner s = elim (find owner s.users) [
    | none ↦ throw user_not_found_exception
    | some r ↦ ok r.usersets
  ]

  unfoldable pub user_owns_userset : Username → Uuid → Storage Salt Hash → Outcome Bool
  user_owns_userset user userset s = elim (find user s.users) [
    | none ↦ throw user_not_found_exception
    | some r ↦ ok (contains r.usersets userset)
  ]

  unfoldable pub get_userset_info : Uuid → Storage Salt Hash → Outcome UserSetInfo
  get_userset_info userset s = elim (find userset s.usersets) [
    | none ↦ throw userset_not_found_exception
    | some info ↦ ok info
  ]

  -- `at` throws `std::out_of_range`, which is no `ServerException`.
  unfoldable pub get_shard_id : Username → Uuid → Storage Salt Hash → Outcome ℕ
  get_shard_id user userset s = elim (find (user, userset) s.shard_ids) [
    | none ↦ throw out_of_range
    | some n ↦ ok n
  ]
