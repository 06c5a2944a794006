-- ===== src/Server/Decryptions.antt =====
-- server/managers/DecryptionsManager.{hpp,cpp}: the decryption operations, from the search for
-- participants (`prep`) to the collection of their parts (`collected`). Each method takes the
-- manager and returns it beside the outcome. A mutex makes a method one step; `register_participant`
-- also reads `all_op_ids` without its mutex, and is one step here.
pub mod Invariant
pub mod Reach
pub mod Stages
pub mod Recruit
pub mod Layers
pub mod Usersets
use shared_encryption.Base.{
  ℕ, Bool, ◌&&◌, List, [], ◌∷◌, ◌++◌, Option, none, some, length, ltb, leb, if◌then◌else◌,
}
use shared_encryption.Base.Key.{nat_key, bytes_key}
use shared_encryption.Base.Map.{Map, find, put, emplace, erase}
use shared_encryption.Base.Set.{HashSet, contains, insert}
use shared_encryption.Base.Random.{generate_not_pred}
use shared_encryption.Server.Types.{
  Username, Uuid, Outcome, ok, throw, undefined, no_operation, finished_operation,
}

pub data PartRequirement : Type 0 where
  not_required reg_part owner_part : PartRequirement

-- `Ciphertext` is the type of the ciphertexts.
pub record PrepareRecord (Ciphertext : Type 0) : Type 0 where
  pub requester : Username
  pub userset_id : Uuid
  pub ciphertext : Ciphertext
  pub required_owners : ℕ
  pub required_reg_members : ℕ
  pub owners_found : HashSet Username
  pub reg_members_found : HashSet Username

-- `Part` is the type of the decryption parts.
pub record CollectedRecord (Part : Type 0) : Type 0 where
  pub requester : Username
  pub userset_id : Uuid
  pub required_owners : ℕ
  pub required_reg_members : ℕ
  pub reg_layer_parts : List Part
  pub reg_layer_shards_ids : List ℕ
  pub owner_layer_parts : List Part
  pub owner_layer_shards_ids : List ℕ

pub record DecryptionsManager (Ciphertext Part : Type 0) : Type 0 where
  pub prep : Map Uuid (PrepareRecord Ciphertext)
  pub collected : Map Uuid (CollectedRecord Part)
  pub all_op_ids : HashSet Uuid

-- The constructor of `CollectedRecord`: no part yet.
abbrev pub start_collecting : {Part : Type 0} → Username → Uuid → ℕ → ℕ → CollectedRecord Part
start_collecting requester userset_id required_owners required_reg_members = record {
  requester = requester;
  userset_id = userset_id;
  required_owners = required_owners;
  required_reg_members = required_reg_members;
  reg_layer_parts = [];
  reg_layer_shards_ids = [];
  owner_layer_parts = [];
  owner_layer_shards_ids = [];
}

-- The constructor of `PrepareRecord`: nobody found yet.
abbrev pub start_looking :
    {Ciphertext : Type 0} → Username → Uuid → Ciphertext → ℕ → ℕ → PrepareRecord Ciphertext
start_looking requester userset_id ciphertext required_owners required_reg_members = record {
  requester = requester;
  userset_id = userset_id;
  ciphertext = ciphertext;
  required_owners = required_owners;
  required_reg_members = required_reg_members;
  owners_found = [];
  reg_members_found = [];
}

abbrev pub has_enough_participants : {Ciphertext : Type 0} → PrepareRecord Ciphertext → Bool
has_enough_participants r =
    leb r.required_owners (length r.owners_found)
    && leb r.required_reg_members (length r.reg_members_found)

abbrev pub has_enough_parts : {Part : Type 0} → CollectedRecord Part → Bool
has_enough_parts r =
    leb r.required_owners (length r.owner_layer_parts)
    && leb r.required_reg_members (length r.reg_layer_parts)

-- An owner counts for the owners, or for the regular members once there are enough owners.
unfoldable pub enlist :
    {Ciphertext : Type 0}
    → Username
    → Bool
    → PrepareRecord Ciphertext
    → PrepareRecord Ciphertext × PartRequirement
enlist username is_owner r =
    if is_owner && ltb (length r.owners_found) r.required_owners
    then (record r { owners_found = insert username r.owners_found }, owner_part)
    else if ltb (length r.reg_members_found) r.required_reg_members
    then (record r { reg_members_found = insert username r.reg_members_found }, reg_part)
    else (r, not_required)

unfoldable pub add_part :
    {Part : Type 0} → Part → ℕ → Bool → CollectedRecord Part → CollectedRecord Part
add_part part shard_id is_owner r =
    if is_owner
    then record r {
      owner_layer_parts = r.owner_layer_parts ++ part ∷ [];
      owner_layer_shards_ids = r.owner_layer_shards_ids ++ shard_id ∷ [];
    }
    else record r {
      reg_layer_parts = r.reg_layer_parts ++ part ∷ [];
      reg_layer_shards_ids = r.reg_layer_shards_ids ++ shard_id ∷ [];
    }

module _ {Ciphertext Part : Type 0} where
  abbrev pub empty : DecryptionsManager Ciphertext Part
  empty = record { prep = []; collected = []; all_op_ids = [] }

  -- `uuids` is what `UUID::generate` will give; the rest is returned.
  unfoldable pub new_operation :
      List Uuid
      → DecryptionsManager Ciphertext Part
      → Option (Uuid × List Uuid × DecryptionsManager Ciphertext Part)
  new_operation uuids d = elim (generate_not_pred (contains d.all_op_ids) uuids) [
    | none ↦ none
    | some (opid, rest) ↦ some (opid, rest, record d { all_op_ids = insert opid d.all_op_ids })
  ]

  unfoldable pub prepare_operation :
      Uuid
      → Username
      → Uuid
      → Ciphertext
      → ℕ
      → ℕ
      → DecryptionsManager Ciphertext Part
      → DecryptionsManager Ciphertext Part
  prepare_operation opid requester userset_id ciphertext required_owners required_reg_members d =
      record d {
        prep =
            emplace opid
              (start_looking requester userset_id ciphertext required_owners required_reg_members)
              d.prep;
      }

  -- With enough participants the operation goes on to the collection of parts.
  unfoldable pub settle :
      Uuid
      → PrepareRecord Ciphertext
      → PartRequirement
      → DecryptionsManager Ciphertext Part
      → Option (PrepareRecord Ciphertext) × DecryptionsManager Ciphertext Part
  settle opid r not_required d = (none, d)
  settle opid r _ d =
      if has_enough_participants r
      then (
        some r,
        record d {
          collected =
              emplace opid
                (start_collecting r.requester r.userset_id r.required_owners r.required_reg_members)
                d.collected;
          prep = erase opid d.prep;
        },
      )
      else (none, record d { prep = put opid r d.prep })

  unfoldable pub register_participant :
      Uuid
      → Username
      → Bool
      → DecryptionsManager Ciphertext Part
      → Outcome (Option (PrepareRecord Ciphertext) × PartRequirement)
        × DecryptionsManager Ciphertext Part
  unfolding enlist settle
  register_participant opid username is_owner d = elim (find opid d.prep) [
    | none ↦
        if contains d.all_op_ids opid then (ok (none, not_required), d) else (throw no_operation, d)
    | some r ↦
        let (r', part) = enlist username is_owner r in
        let (found, d') = settle opid r' part d in (ok (found, part), d')
  ]

  -- With enough parts the record leaves the manager.
  unfoldable pub gather :
      Uuid
      → CollectedRecord Part
      → DecryptionsManager Ciphertext Part
      → Option (CollectedRecord Part) × DecryptionsManager Ciphertext Part
  gather opid r d =
      if has_enough_parts r
      then (some r, record d { collected = erase opid d.collected })
      else (none, record d { collected = put opid r d.collected })

  -- The iterator that `find` returns is used without a test: with no such operation in the
  -- collection stage the behaviour is undefined.
  unfoldable pub register_part :
      Uuid
      → Part
      → ℕ
      → Bool
      → DecryptionsManager Ciphertext Part
      → Outcome (Option (CollectedRecord Part)) × DecryptionsManager Ciphertext Part
  unfolding add_part gather
  register_part opid part shard_id is_owner d = elim (find opid d.collected) [
    | none ↦ (undefined, d)
    | some r ↦
        let (finished, d') = gather opid (add_part part shard_id is_owner r) d in (ok finished, d')
  ]

  unfoldable pub get_operation_userset : Uuid → DecryptionsManager Ciphertext Part → Outcome Uuid
  get_operation_userset opid d = elim (find opid d.prep) [
    | some r ↦ ok r.userset_id
    | none ↦ elim (find opid d.collected) [
      | some r ↦ ok r.userset_id
      | none ↦ throw finished_operation
    ]
  ]
