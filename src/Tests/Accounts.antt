-- ===== src/Tests/Accounts.antt =====
-- Alice and Bob sign up, and Alice makes a userset with Bob in it
-- (server/storage/ShortTermServerStorage.cpp). The hasher puts the salt before the password.
use shared_encryption.Base.{ℕ_discrete, ℕ, ◌≡◌, refl, List, [], ◌∷◌, arith}
use shared_encryption.Base.Key.{nat_key, bytes_key, pair_key, bytes_discrete, pair_discrete}
use shared_encryption.Base.Map.{find, put, emplace}
use shared_encryption.Base.Set.{contains, insert}
use shared_encryption.Base.Ordered.{
  to_ordered_set, insert_all, insert_ordered, bytes_lt, nat_order, bytes_order,
}
use shared_encryption.Base.Random.{generate_not_pred}
use shared_encryption.Server.Types.{
  ok, throw, user_not_found_exception, userset_not_found_exception, out_of_range,
}
use shared_encryption.Server.Storage.{
  PwdHasher, Storage, UserSetInfo, all_exist, own_userset, assign_shards, add_userset, new_user,
  new_userset, get_shard_id, get_userset_info,
}
use shared_encryption.Server.Storage.Invariant.{
  IsValid, no_users, no_users-IsValid, new_user-IsValid,
}
use shared_encryption.Server.Storage.Creation.{new_userset-IsValid}
use shared_encryption.Server.Storage.Usersets.{
  new_userset_refused, get_shard_id_outsider, get_userset_info-new_userset,
}
use shared_encryption.Server.Storage.Totality.{new_userset_total}
use shared_encryption.Tests.Operations.{alice, bob, carol}

abbrev pub hasher : PwdHasher ℕ (List ℕ)
hasher = record { hash = λ password salt. salt ∷ password }

abbrev start : Storage ℕ (List ℕ)
start = no_users (5 ∷ 6 ∷ []) (1 ∷ 2 ∷ []) (40 ∷ 200 ∷ [])

start-IsValid : IsValid start
start-IsValid =
    no_users-IsValid (5 ∷ 6 ∷ []) (1 ∷ 2 ∷ []) (40 ∷ 200 ∷ [])
      ((omega arith, omega arith), ((omega arith, omega arith), tt))

abbrev with_alice : Storage ℕ (List ℕ)
with_alice = record start {
  users = (alice, record { pwd_salt = 5; pwd_hash = 5 ∷ 9 ∷ []; usersets = [] }) ∷ [];
  salts = 6 ∷ [];
}

abbrev with_bob : Storage ℕ (List ℕ)
with_bob = record with_alice {
  users =
      (alice, record { pwd_salt = 5; pwd_hash = 5 ∷ 9 ∷ []; usersets = [] })
      ∷ (bob, record { pwd_salt = 6; pwd_hash = 6 ∷ 8 ∷ []; usersets = [] })
      ∷ [];
  salts = [];
}

with_alice-IsValid : IsValid with_alice
unfolding new_user find put
with_alice-IsValid = new_user-IsValid hasher alice (9 ∷ []) start start-IsValid

new_user-IsValid_example : IsValid (new_user hasher bob (8 ∷ []) with_alice).1
new_user-IsValid_example = new_user-IsValid hasher bob (8 ∷ []) with_alice with_alice-IsValid

with_bob-IsValid : IsValid with_bob
unfolding new_user find put bytes_discrete ℕ_discrete
with_bob-IsValid = new_user-IsValid hasher bob (8 ∷ []) with_alice with_alice-IsValid

-- Alice owns the userset, Bob is a regular member.
abbrev pub set_info : UserSetInfo
set_info = record {
  owners = alice ∷ [];
  reg_members = bob ∷ [];
  owners_threshold = 1;
  reg_members_threshold = 1;
}

abbrev pub with_set : Storage ℕ (List ℕ)
with_set = record with_bob {
  users =
      (alice, record { pwd_salt = 5; pwd_hash = 5 ∷ 9 ∷ []; usersets = 1 ∷ [] })
      ∷ (bob, record { pwd_salt = 6; pwd_hash = 6 ∷ 8 ∷ []; usersets = [] })
      ∷ [];
  usersets = (1, set_info) ∷ [];
  userset_shard_ids = (1, 200 ∷ 40 ∷ []) ∷ [];
  shard_ids = ((bob, 1), 200) ∷ ((alice, 1), 40) ∷ [];
  uuids = 2 ∷ [];
  shard_draws = [];
}

set_made : new_userset (alice ∷ []) (bob ∷ []) 1 1 with_bob ≡ (ok 1, with_set)
unfolding new_userset add_userset assign_shards own_userset all_exist generate_not_pred
    to_ordered_set insert_all insert_ordered bytes_lt find put emplace contains insert
    bytes_discrete pair_discrete ℕ_discrete
set_made = refl

pub with_set-IsValid : IsValid with_set
unfolding new_userset add_userset assign_shards own_userset all_exist generate_not_pred
    to_ordered_set insert_all insert_ordered bytes_lt find put emplace contains insert
    bytes_discrete pair_discrete ℕ_discrete
with_set-IsValid = new_userset-IsValid (alice ∷ []) (bob ∷ []) 1 1 with_bob with_bob-IsValid

new_userset-IsValid_example : IsValid (new_userset (alice ∷ []) (bob ∷ []) 1 1 with_bob).1
new_userset-IsValid_example =
    new_userset-IsValid (alice ∷ []) (bob ∷ []) 1 1 with_bob with_bob-IsValid

new_userset_total_example : (new_userset (alice ∷ []) (bob ∷ []) 1 1 with_bob).0 ≡ ok 1
unfolding new_userset add_userset assign_shards own_userset all_exist generate_not_pred
    to_ordered_set insert_all insert_ordered bytes_lt find put emplace contains insert
    bytes_discrete pair_discrete ℕ_discrete
new_userset_total_example =
    new_userset_total (alice ∷ []) (bob ∷ []) 1 1 with_bob 1 (2 ∷ []) (40 ∷ 200 ∷ []) [] refl refl
      refl refl refl (refl, (refl, tt))

new_userset_refused_example :
    new_userset (alice ∷ []) (carol ∷ []) 1 1 with_bob ≡ (throw user_not_found_exception, with_bob)
unfolding find contains bytes_discrete ℕ_discrete
new_userset_refused_example =
    new_userset_refused (alice ∷ []) (carol ∷ []) 1 1 with_bob carol refl refl

get_shard_id_outsider_example : get_shard_id carol 1 with_set ≡ throw out_of_range
unfolding find contains bytes_discrete ℕ_discrete
get_shard_id_outsider_example = get_shard_id_outsider with_set with_set-IsValid carol 1 refl

get_userset_info-new_userset_example :
    (get_userset_info 1 with_bob ≡ throw userset_not_found_exception)
    × (get_userset_info 1 (new_userset (alice ∷ []) (bob ∷ []) 1 1 with_bob).1 ≡ ok set_info)
unfolding new_userset add_userset assign_shards own_userset all_exist generate_not_pred
    to_ordered_set insert_all insert_ordered bytes_lt find put emplace contains insert
    bytes_discrete pair_discrete ℕ_discrete
get_userset_info-new_userset_example =
    get_userset_info-new_userset (alice ∷ []) (bob ∷ []) 1 1 with_bob 1 1 refl
