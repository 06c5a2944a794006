-- ===== src/Server/Connected/UserSets.antt =====
-- `make_userset` of server/handlers/ConnectedClientHandler.cpp.
use shared_encryption.Base.{ℕ, List, [], ◌∷◌, ◌++◌, none, some}
use shared_encryption.Server.Types.{
  Username, Uuid, PrivKeyShard, Outcome, ok, throw, undefined, starved,
}
use shared_encryption.Base.Outcome.{◌>>=◌}
use shared_encryption.Server.Storage.{Storage, new_userset, get_shard_id}
use shared_encryption.Server.Updates.{UpdateManager, register_owner, register_reg_member}
use shared_encryption.Server.State.{State}
use shared_encryption.Sharing.Shards.{sample_poly, make_shard, make_shards}
use shared_encryption.Packets.{MakeUserSetRequest, MakeUserSetResponse}

-- The shards of a userset: the creator's two, the owners' two lists, the regular members'.
pub record Dealt : Type 0 where
  pub creator_reg : PrivKeyShard
  pub creator_owner : PrivKeyShard
  pub owners_reg : List PrivKeyShard
  pub owners_owner : List PrivKeyShard
  pub reg_members_reg : List PrivKeyShard

module _ {Salt Hash : Type 0} where
  -- The view `usernames | transform(getShardID)`.
  unfoldable pub get_shard_ids : Uuid → Storage Salt Hash → List Username → Outcome (List ℕ)
  get_shard_ids id st [] = ok []
  get_shard_ids id st (u ∷ us) =
      let rest = get_shard_ids id st us in do n ← get_shard_id u id st; ns ← rest; ok (n ∷ ns)

  -- Here the views of IDs are read before the shards are made.
  unfoldable pub deal :
      ℕ → Username → MakeUserSetRequest → List ℕ → List ℕ → Uuid → Storage Salt Hash → Outcome Dealt
  deal q creator req reg_poly owner_poly id st = do
    c ← get_shard_id creator id st
    os ← get_shard_ids id st req.owners
    rs ← get_shard_ids id st req.reg_members
    creator_reg ← make_shard q reg_poly c
    creator_owner ← make_shard q owner_poly c
    owners_reg ← make_shards q reg_poly os
    owners_owner ← make_shards q owner_poly os
    reg_members_reg ← make_shards q reg_poly rs
    ok (record {
      creator_reg = creator_reg;
      creator_owner = creator_owner;
      owners_reg = owners_reg;
      owners_owner = owners_owner;
      reg_members_reg = reg_members_reg;
    })

module _ {PubKey Ciphertext Part : Type 0} (id : Uuid) (reg_key owner_key : PubKey) where
  -- The loop over `zip(owners, regLayerOwnersShards, ownerLayerOwnersShards)`.
  unfoldable pub register_owners :
      List Username
      → List PrivKeyShard
      → List PrivKeyShard
      → UpdateManager PubKey Ciphertext Part
      → UpdateManager PubKey Ciphertext Part
  register_owners (u ∷ us) (x ∷ xs) (y ∷ ys) m = register_owners us xs ys (
      register_owner u
        (record {
          user_set_id = id;
          reg_layer_pub_key = reg_key;
          owner_layer_pub_key = owner_key;
          reg_layer_priv_key_shard = x;
          owner_layer_priv_key_shard = y;
        })
        m)
  register_owners _ _ _ m = m

  -- The loop over `zip(regMembers, regMembersShards)`.
  unfoldable pub register_reg_members :
      List Username
      → List PrivKeyShard
      → UpdateManager PubKey Ciphertext Part
      → UpdateManager PubKey Ciphertext Part
  register_reg_members (u ∷ us) (x ∷ xs) m = register_reg_members us xs (
      register_reg_member u
        (record {
          user_set_id = id;
          reg_layer_pub_key = reg_key;
          owner_layer_pub_key = owner_key;
          reg_layer_priv_key_shard = x;
        })
        m)
  register_reg_members _ _ m = m

module _ {PubKey Ciphertext Part Salt Hash : Type 0} where
  -- The updates for the other members, and the response.
  abbrev pub distribute :
      MakeUserSetRequest
      → Uuid
      → PubKey
      → PubKey
      → Outcome Dealt
      → State PubKey Ciphertext Part Salt Hash
      → Outcome (MakeUserSetResponse PubKey) × State PubKey Ciphertext Part Salt Hash
  distribute req id reg_key owner_key (ok d) s = (
    ok (record {
      user_set_id = id;
      reg_layer_pub_key = reg_key;
      owner_layer_pub_key = owner_key;
      reg_layer_priv_key_shard = d.creator_reg;
      owner_layer_priv_key_shard = d.creator_owner;
    }),
    record s {
      updates =
          register_reg_members id reg_key owner_key req.reg_members d.reg_members_reg
            (register_owners id reg_key owner_key req.owners d.owners_reg d.owners_owner s.updates);
    },
  )
  distribute req id reg_key owner_key (throw e) s = (throw e, s)
  distribute req id reg_key owner_key undefined s = (undefined, s)
  distribute req id reg_key owner_key starved s = (starved, s)

  -- What follows the calls of `keygen`, which took the two first of `keys`.
  unfoldable pub share_with :
      ℕ
      → Username
      → MakeUserSetRequest
      → Uuid
      → List (PubKey × ℕ)
      → State PubKey Ciphertext Part Salt Hash
      → Outcome (MakeUserSetResponse PubKey) × State PubKey Ciphertext Part Salt Hash
  unfolding deal
  share_with q creator req id ((reg_key, reg_secret) ∷ (owner_key, owner_secret) ∷ keys) s =
      elim (sample_poly q reg_secret req.reg_members_threshold s.coeffs) [
        | none ↦ (starved, s)
        | some (reg_poly, draws) ↦ elim (sample_poly q owner_secret req.owners_threshold draws) [
          | none ↦ (starved, s)
          | some (owner_poly, coeffs) ↦
              distribute req id reg_key owner_key
                (deal q creator req reg_poly owner_poly id s.storage)
                (record s { keys = keys; coeffs = coeffs })
        ]
      ]
  share_with q creator req id _ s = (starved, s)

  -- What `new_userset` gave, and then the rest.
  abbrev pub shared :
      ℕ
      → Username
      → MakeUserSetRequest
      → Outcome Uuid
      → State PubKey Ciphertext Part Salt Hash
      → Outcome (MakeUserSetResponse PubKey) × State PubKey Ciphertext Part Salt Hash
  shared q creator req (ok id) s = share_with q creator req id s.keys s
  shared q creator req (throw e) s = (throw e, s)
  shared q creator req undefined s = (undefined, s)
  shared q creator req starved s = (starved, s)

  -- The creator comes after the owners of the request.
  unfoldable pub make_userset :
      ℕ
      → Username
      → MakeUserSetRequest
      → State PubKey Ciphertext Part Salt Hash
      → Outcome (MakeUserSetResponse PubKey) × State PubKey Ciphertext Part Salt Hash
  unfolding share_with
  make_userset q creator req s =
      let (made, storage) =
        new_userset (req.owners ++ creator ∷ []) req.reg_members req.owners_threshold
          req.reg_members_threshold s.storage in
      shared q creator req made (record s { storage = storage })
