-- ===== src/Wire/Encrypted/Updates/RoundTrip.antt =====
-- That updates are read as they were written (common/EncryptedPacketHandler.cpp).
use shared_encryption.Base.{ℕ, ◌+◌, ◌<◌, ◌≡◌, refl, subst, List, length, All, All-imp}
use shared_encryption.Base.Outcome.{Outcome}
use shared_encryption.Server.Updates.{
  AddedAsMemberRecord, AddedAsOwnerRecord, ToDecryptRecord, FinishedDecryptionsRecord,
  UpdateResponse,
}
use shared_encryption.Wire.BigInt.{BigIntCodec, IsLawful}
use shared_encryption.Wire.Bytes.{Reads, put_all, read_all, read_all-put_all}
use shared_encryption.Wire.Elements.{
  Element, Ciphertext, put_element, read_element, put_shard_id, read_shard_id, Fits, ElementFits,
  ShardFits, CiphertextFits, read-put_element, read-put_ciphertext, read-put_shard_id,
  read-put_shard,
}
use shared_encryption.Wire.Values.{IsUuid, read-put_count, read-put_uuid, read-put_uuids}
use shared_encryption.Wire.Encrypted.Updates.{
  put_added_as_member, read_added_as_member, as_member, put_added_as_owner, read_added_as_owner,
  put_to_decrypt, read_to_decrypt, put_finished_decryptions, read_finished_decryptions,
  put_update_response, read_update_response,
}

module _ (c : BigIntCodec) (q : ℕ) where
  pub record MemberFits (r : AddedAsMemberRecord Element) : Type 0 where
    pub id_fits : IsUuid r.user_set_id
    pub reg_key_fits : ElementFits c r.reg_layer_pub_key
    pub owner_key_fits : ElementFits c r.owner_layer_pub_key
    pub reg_shard_fits : ShardFits c q r.reg_layer_priv_key_shard

  abbrev pub OwnerFits : AddedAsOwnerRecord Element → Type 0
  OwnerFits r = MemberFits (as_member c q r) × ShardFits c q r.owner_layer_priv_key_shard

  pub record ToDecryptFits (r : ToDecryptRecord Ciphertext) : Type 0 where
    pub op_fits : IsUuid r.op_id
    pub ciphertext_fits : CiphertextFits c r.ciphertext
    pub ids_fit : All (Fits c) r.shards_ids
    pub ids_count : length r.shards_ids < 256

  -- Also, each layer has one shard ID more than it has parts.
  pub record FinishedFits (r : FinishedDecryptionsRecord Element) : Type 0 where
    pub op_fits : IsUuid r.op_id
    pub reg_fit : All (ElementFits c) r.reg_layer_parts
    pub owner_fit : All (ElementFits c) r.owner_layer_parts
    pub reg_ids_fit : All (Fits c) r.reg_layer_shards_ids
    pub owner_ids_fit : All (Fits c) r.owner_layer_shards_ids
    pub reg_count : length r.reg_layer_parts < 256
    pub owner_count : length r.owner_layer_parts < 256
    pub reg_ids_count : length r.reg_layer_shards_ids ≡ length r.reg_layer_parts + 1
    pub owner_ids_count : length r.owner_layer_shards_ids ≡ length r.owner_layer_parts + 1

  -- Every record fits, and their numbers fit into one byte each.
  pub record UpdateFits (p : UpdateResponse Element Ciphertext Element) : Type 0 where
    pub owners_fit : All OwnerFits p.added_as_owner
    pub members_fit : All MemberFits p.added_as_reg_member
    pub lookups_fit : All IsUuid p.on_lookup
    pub to_decrypt_fit : All ToDecryptFits p.to_decrypt
    pub finished_fit : All FinishedFits p.finished_decryptions
    pub owners_count : length p.added_as_owner < 256
    pub members_count : length p.added_as_reg_member < 256
    pub lookups_count : length p.on_lookup < 256
    pub to_decrypt_count : length p.to_decrypt < 256
    pub finished_count : length p.finished_decryptions < 256

module _ (c : BigIntCodec) (l : IsLawful c) (q : ℕ) where
  read-put_ids :
      (ids : List ℕ) (n : ℕ)
      → length ids ≡ n
      → All (Fits c) ids
      → Reads (read_all (read_shard_id c) n) (put_all (put_shard_id c)) ids
  read-put_ids ids n e h =
      subst (λ k. Reads (read_all (read_shard_id c) k) (put_all (put_shard_id c)) ids) e
        (read_all-put_all (read_shard_id c) (put_shard_id c) ids (
          All-imp (Fits c) (Reads (read_shard_id c) (put_shard_id c)) (read-put_shard_id c l) ids
            h))

  read-put_elements :
      (es : List Element)
      → All (ElementFits c) es
      → Reads (read_all (read_element c) (length es)) (put_all (put_element c)) es
  read-put_elements es h =
      read_all-put_all (read_element c) (put_element c) es (
        All-imp (ElementFits c) (Reads (read_element c) (put_element c)) (read-put_element c l) es
          h)

  read-put_added_as_member :
      (r : AddedAsMemberRecord Element)
      → MemberFits c q r
      → Reads (read_added_as_member c q) (put_added_as_member c q) r
  unfolding read_added_as_member put_added_as_member
  read-put_added_as_member r h rest =
      rw
        (
          read-put_uuid r.user_set_id h.id_fits,
          read-put_element c l r.reg_layer_pub_key h.reg_key_fits,
          read-put_element c l r.owner_layer_pub_key h.owner_key_fits,
          read-put_shard c l q r.reg_layer_priv_key_shard h.reg_shard_fits,
        )
        refl

  read-put_added_as_owner :
      (r : AddedAsOwnerRecord Element)
      → OwnerFits c q r
      → Reads (read_added_as_owner c q) (put_added_as_owner c q) r
  unfolding read_added_as_owner put_added_as_owner
  read-put_added_as_owner r h rest =
      rw
        (
          read-put_added_as_member (as_member c q r) h.0,
          read-put_shard c l q r.owner_layer_priv_key_shard h.1,
        )
        refl

  read-put_to_decrypt :
      (r : ToDecryptRecord Ciphertext)
      → ToDecryptFits c q r
      → Reads (read_to_decrypt c q) (put_to_decrypt c q) r
  unfolding read_to_decrypt put_to_decrypt
  read-put_to_decrypt r h rest =
      rw
        (
          read-put_uuid r.op_id h.op_fits,
          read-put_ciphertext c l r.ciphertext h.ciphertext_fits,
          read-put_count (length r.shards_ids) h.ids_count,
          read-put_ids r.shards_ids (length r.shards_ids) refl h.ids_fit,
        )
        refl

  read-put_finished_decryptions :
      (r : FinishedDecryptionsRecord Element)
      → FinishedFits c q r
      → Reads (read_finished_decryptions c q) (put_finished_decryptions c q) r
  unfolding read_finished_decryptions put_finished_decryptions
  read-put_finished_decryptions r h rest =
      rw
        (
          read-put_count (length r.reg_layer_parts) h.reg_count,
          read-put_count (length r.owner_layer_parts) h.owner_count,
          read-put_uuid r.op_id h.op_fits,
          read-put_elements r.reg_layer_parts h.reg_fit,
          read-put_elements r.owner_layer_parts h.owner_fit,
          read-put_ids r.reg_layer_shards_ids (length r.reg_layer_parts + 1) h.reg_ids_count
              h.reg_ids_fit,
          read-put_ids r.owner_layer_shards_ids (length r.owner_layer_parts + 1) h.owner_ids_count
              h.owner_ids_fit,
        )
        refl

  All-read :
      {A : Type 0} (read : List ℕ → Outcome (A × List ℕ)) (put : A → List ℕ → List ℕ)
      (P : A → Type 0)
      → ((a : A) → P a → Reads read put a)
      → (xs : List A) → All P xs
      → Reads (read_all read (length xs)) (put_all put) xs
  All-read read put P f xs h = read_all-put_all read put xs (All-imp P (Reads read put) f xs h)

  -- An `UpdateResponse` is read as it was written, if its numbers fit into the bytes they are
  -- given and each finished decryption has in each layer one shard ID more than it has parts.
  pub read-put_update_response :
      (p : UpdateResponse Element Ciphertext Element)
      → UpdateFits c q p
      → Reads (read_update_response c q) (put_update_response c q) p
  unfolding read_update_response put_update_response
  read-put_update_response p h rest =
      rw
        (
          read-put_count (length p.added_as_owner) h.owners_count,
          read-put_count (length p.added_as_reg_member) h.members_count,
          read-put_count (length p.on_lookup) h.lookups_count,
          read-put_count (length p.to_decrypt) h.to_decrypt_count,
          read-put_count (length p.finished_decryptions) h.finished_count,
          All-read (read_added_as_owner c q) (put_added_as_owner c q) (OwnerFits c q)
              read-put_added_as_owner p.added_as_owner h.owners_fit,
          All-read (read_added_as_member c q) (put_added_as_member c q) (MemberFits c q)
              read-put_added_as_member p.added_as_reg_member h.members_fit,
          read-put_uuids p.on_lookup h.lookups_fit,
          All-read (read_to_decrypt c q) (put_to_decrypt c q) (ToDecryptFits c q)
              read-put_to_decrypt p.to_decrypt h.to_decrypt_fit,
          All-read (read_finished_decryptions c q) (put_finished_decryptions c q) (FinishedFits c q)
              read-put_finished_decryptions p.finished_decryptions h.finished_fit,
        )
        refl
