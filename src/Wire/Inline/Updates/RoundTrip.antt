-- ===== src/Wire/Inline/Updates/RoundTrip.antt =====
-- That updates are received as they were sent (common/InlinePacketHandler.cpp).
use shared_encryption.Base.{ℕ, ◌+◌, ◌≡◌, refl, subst, List, length, All, All-imp}
use shared_encryption.Base.Outcome.{Outcome}
use shared_encryption.Server.Updates.{
  AddedAsMemberRecord, AddedAsOwnerRecord, ToDecryptRecord, FinishedDecryptionsRecord,
  UpdateResponse,
}
use shared_encryption.Wire.BigInt.{BigIntCodec, IsLawful}
use shared_encryption.Wire.Bytes.{Reads, put_all, read_all, read_all-put_all}
use shared_encryption.Wire.Elements.{Element, Ciphertext, Fits, ElementFits}
use shared_encryption.Wire.Encrypted.Updates.{as_member}
use shared_encryption.Wire.Inline.Updates.{
  send_added_as_member, recv_added_as_member, send_added_as_owner, recv_added_as_owner,
  send_to_decrypt, recv_to_decrypt, send_finished_decryptions, recv_finished_decryptions,
  send_update_response, recv_update_response,
}
use shared_encryption.Wire.Encrypted.Updates.RoundTrip.{
  MemberFits, OwnerFits, ToDecryptFits, FinishedFits, UpdateFits,
}
use shared_encryption.Wire.SockUtils.{send_ecgroup_elem, recv_ecgroup_elem, recv-send_ecgroup_elem}
use shared_encryption.Wire.Inline.Values.{
  send_priv_key_shard_id, recv_priv_key_shard_id, recv-send_count, recv-send_uuid, recv-send_uuids,
  recv-send_priv_key_shard_id, recv-send_priv_key_shard, recv-send_ciphertext,
}

module _ (c : BigIntCodec) (l : IsLawful c) (q : ℕ) where
  recv-send_ids :
      (ids : List ℕ) (n : ℕ)
      → length ids ≡ n
      → All (Fits c) ids
      → Reads (read_all (recv_priv_key_shard_id c) n) (put_all (send_priv_key_shard_id c)) ids
  recv-send_ids ids n e h =
      subst
        (λ k.
          Reads (read_all (recv_priv_key_shard_id c) k) (put_all (send_priv_key_shard_id c)) ids)
        e
        (read_all-put_all (recv_priv_key_shard_id c) (send_priv_key_shard_id c) ids (
          All-imp (Fits c) (Reads (recv_priv_key_shard_id c) (send_priv_key_shard_id c))
            (recv-send_priv_key_shard_id c l) ids h))

  recv-send_elements :
      (es : List Element)
      → All (ElementFits c) es
      → Reads (read_all (recv_ecgroup_elem c) (length es)) (put_all (send_ecgroup_elem c)) es
  recv-send_elements es h = read_all-put_all (recv_ecgroup_elem c) (send_ecgroup_elem c) es (
      All-imp (ElementFits c) (Reads (recv_ecgroup_elem c) (send_ecgroup_elem c))
        (recv-send_ecgroup_elem c l) es h)

  recv-send_added_as_member :
      (r : AddedAsMemberRecord Element)
      → MemberFits c q r
      → Reads (recv_added_as_member c q) (send_added_as_member c q) r
  unfolding recv_added_as_member send_added_as_member
  recv-send_added_as_member r h rest =
      rw
        (
          recv-send_uuid r.user_set_id h.id_fits,
          recv-send_ecgroup_elem c l r.reg_layer_pub_key h.reg_key_fits,
          recv-send_ecgroup_elem c l r.owner_layer_pub_key h.owner_key_fits,
          recv-send_priv_key_shard c l q r.reg_layer_priv_key_shard h.reg_shard_fits,
        )
        refl

  recv-send_added_as_owner :
      (r : AddedAsOwnerRecord Element)
      → OwnerFits c q r
      → Reads (recv_added_as_owner c q) (send_added_as_owner c q) r
  unfolding recv_added_as_owner send_added_as_owner
  recv-send_added_as_owner r h rest =
      rw
        (
          recv-send_added_as_member (as_member c q r) h.0,
          recv-send_priv_key_shard c l q r.owner_layer_priv_key_shard h.1,
        )
        refl

  recv-send_to_decrypt :
      (r : ToDecryptRecord Ciphertext)
      → ToDecryptFits c q r
      → Reads (recv_to_decrypt c q) (send_to_decrypt c q) r
  unfolding recv_to_decrypt send_to_decrypt
  recv-send_to_decrypt r h rest =
      rw
        (
          recv-send_uuid r.op_id h.op_fits,
          recv-send_ciphertext c l r.ciphertext h.ciphertext_fits,
          recv-send_count (length r.shards_ids) h.ids_count,
          recv-send_ids r.shards_ids (length r.shards_ids) refl h.ids_fit,
        )
        refl

  recv-send_finished_decryptions :
      (r : FinishedDecryptionsRecord Element)
      → FinishedFits c q r
      → Reads (recv_finished_decryptions c q) (send_finished_decryptions c q) r
  unfolding recv_finished_decryptions send_finished_decryptions
  recv-send_finished_decryptions r h rest =
      rw
        (
          recv-send_count (length r.reg_layer_parts) h.reg_count,
          recv-send_count (length r.owner_layer_parts) h.owner_count,
          recv-send_uuid r.op_id h.op_fits,
          recv-send_elements r.reg_layer_parts h.reg_fit,
          recv-send_elements r.owner_layer_parts h.owner_fit,
          recv-send_ids r.reg_layer_shards_ids (length r.reg_layer_parts + 1) h.reg_ids_count
              h.reg_ids_fit,
          recv-send_ids r.owner_layer_shards_ids (length r.owner_layer_parts + 1) h.owner_ids_count
              h.owner_ids_fit,
        )
        refl

  All-read :
      {A : Type 0} (read : List ℕ → Outcome (A × List ℕ)) (put : A → List ℕ → List ℕ)
      (P : A → Type 0)
      → ((a : A) → P a → Reads read put a)
      → (xs : List A) → All P xs
      → Reads (read_all read (length xs)) (put_all put) xs
  All-read read put P f xs h = read_all-put_all read put xs (All-imp P (Reads read put) f xs h)

  -- An `UpdateResponse` is read as it was written, if its numbers fit into the bytes they are
  -- given and each finished decryption has in each layer one shard ID more than it has parts.
  pub recv-send_update_response :
      (p : UpdateResponse Element Ciphertext Element)
      → UpdateFits c q p
      → Reads (recv_update_response c q) (send_update_response c q) p
  unfolding recv_update_response send_update_response
  recv-send_update_response p h rest =
      rw
        (
          recv-send_count (length p.added_as_owner) h.owners_count,
          recv-send_count (length p.added_as_reg_member) h.members_count,
          recv-send_count (length p.on_lookup) h.lookups_count,
          recv-send_count (length p.to_decrypt) h.to_decrypt_count,
          recv-send_count (length p.finished_decryptions) h.finished_count,
          All-read (recv_added_as_owner c q) (send_added_as_owner c q) (OwnerFits c q)
              recv-send_added_as_owner p.added_as_owner h.owners_fit,
          All-read (recv_added_as_member c q) (send_added_as_member c q) (MemberFits c q)
              recv-send_added_as_member p.added_as_reg_member h.members_fit,
          recv-send_uuids p.on_lookup h.lookups_fit,
          All-read (recv_to_decrypt c q) (send_to_decrypt c q) (ToDecryptFits c q)
              recv-send_to_decrypt p.to_decrypt h.to_decrypt_fit,
          All-read (recv_finished_decryptions c q) (send_finished_decryptions c q)
              (FinishedFits c q) recv-send_finished_decryptions p.finished_decryptions
              h.finished_fit,
        )
        refl
