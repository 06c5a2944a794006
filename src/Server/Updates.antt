-- ===== src/Server/Updates.antt =====
-- server/managers/UpdateManager.{hpp,cpp} and the record `pkt::UpdateResponse` of
-- common/packets.hpp: what the server keeps for each user until the user asks for it.
pub mod Mailbox
use shared_encryption.Base.{ℕ, List, [], ◌∷◌, ◌++◌, Option, none, some}
use shared_encryption.Base.Key.{bytes_key}
use shared_encryption.Base.Map.{Map, find, put, erase, or_else}
use shared_encryption.Server.Types.{Username, Uuid, PrivKeyShard}

pub record AddedAsMemberRecord (PubKey : Type 0) : Type 0 where
  pub user_set_id : Uuid
  pub reg_layer_pub_key : PubKey
  pub owner_layer_pub_key : PubKey
  pub reg_layer_priv_key_shard : PrivKeyShard

pub record AddedAsOwnerRecord (PubKey : Type 0) : Type 0 where
  pub user_set_id : Uuid
  pub reg_layer_pub_key : PubKey
  pub owner_layer_pub_key : PubKey
  pub reg_layer_priv_key_shard : PrivKeyShard
  pub owner_layer_priv_key_shard : PrivKeyShard

pub record ToDecryptRecord (Ciphertext : Type 0) : Type 0 where
  pub op_id : Uuid
  pub ciphertext : Ciphertext
  pub shards_ids : List ℕ

pub record FinishedDecryptionsRecord (Part : Type 0) : Type 0 where
  pub op_id : Uuid
  pub reg_layer_parts : List Part
  pub owner_layer_parts : List Part
  pub reg_layer_shards_ids : List ℕ
  pub owner_layer_shards_ids : List ℕ

pub record UpdateResponse (PubKey Ciphertext Part : Type 0) : Type 0 where
  pub added_as_reg_member : List (AddedAsMemberRecord PubKey)
  pub added_as_owner : List (AddedAsOwnerRecord PubKey)
  pub on_lookup : List Uuid
  pub to_decrypt : List (ToDecryptRecord Ciphertext)
  pub finished_decryptions : List (FinishedDecryptionsRecord Part)

-- The manager's one field, `_updates`.
abbrev pub UpdateManager : Type 0 → Type 0 → Type 0 → Type 0
UpdateManager PubKey Ciphertext Part = Map Username (UpdateResponse PubKey Ciphertext Part)

module _ {PubKey Ciphertext Part : Type 0} where
  -- The default value of an `UpdateResponse`.
  abbrev pub no_updates : UpdateResponse PubKey Ciphertext Part
  no_updates = record {
    added_as_reg_member = [];
    added_as_owner = [];
    on_lookup = [];
    to_decrypt = [];
    finished_decryptions = [];
  }

  -- `_updates[username]`, which makes an empty entry where there is none.
  abbrev pub entry :
      Username → UpdateManager PubKey Ciphertext Part → UpdateResponse PubKey Ciphertext Part
  entry username m = or_else (find username m) no_updates

  unfoldable pub retrieve_updates :
      Username
      → UpdateManager PubKey Ciphertext Part
      → UpdateResponse PubKey Ciphertext Part × UpdateManager PubKey Ciphertext Part
  retrieve_updates username m = elim (find username m) [
    | none ↦ (no_updates, m)
    | some r ↦ (r, erase username m)
  ]

  unfoldable pub register_reg_member :
      Username
      → AddedAsMemberRecord PubKey
      → UpdateManager PubKey Ciphertext Part
      → UpdateManager PubKey Ciphertext Part
  register_reg_member username added m =
      let e = entry username m in
      put username (record e { added_as_reg_member = e.added_as_reg_member ++ added ∷ [] }) m

  unfoldable pub register_owner :
      Username
      → AddedAsOwnerRecord PubKey
      → UpdateManager PubKey Ciphertext Part
      → UpdateManager PubKey Ciphertext Part
  register_owner username added m =
      let e = entry username m in
      put username (record e { added_as_owner = e.added_as_owner ++ added ∷ [] }) m

  unfoldable pub register_lookup :
      Username → Uuid → UpdateManager PubKey Ciphertext Part → UpdateManager PubKey Ciphertext Part
  register_lookup username opid m =
      let e = entry username m in put username (record e { on_lookup = e.on_lookup ++ opid ∷ [] }) m

  unfoldable pub register_decryption_participating :
      Username
      → ToDecryptRecord Ciphertext
      → UpdateManager PubKey Ciphertext Part
      → UpdateManager PubKey Ciphertext Part
  register_decryption_participating username to_decrypt m =
      let e = entry username m in
      put username (record e { to_decrypt = e.to_decrypt ++ to_decrypt ∷ [] }) m

  unfoldable pub register_finished_decryption :
      Username
      → FinishedDecryptionsRecord Part
      → UpdateManager PubKey Ciphertext Part
      → UpdateManager PubKey Ciphertext Part
  register_finished_decryption username finished m =
      let e = entry username m in
      put username (record e { finished_decryptions = e.finished_decryptions ++ finished ∷ [] }) m
