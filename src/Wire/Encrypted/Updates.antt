-- ===== src/Wire/Encrypted/Updates.antt =====
-- The payload of `pkt::UpdateResponse` and of the records inside it, in
-- common/EncryptedPacketHandler.cpp. `q` is the order of the group, of which shards' values are
-- residues.
pub mod RoundTrip
use shared_encryption.Base.{ℕ, suc, ◌+◌, ◌<◌, ◌≡◌, refl, sym, ap, List, length, All, All-imp, arith}
use shared_encryption.Base.Outcome.{Outcome, ok, undefined, ◌>>=◌}
use shared_encryption.Server.Updates.{
  AddedAsMemberRecord, AddedAsOwnerRecord, ToDecryptRecord, FinishedDecryptionsRecord,
  UpdateResponse,
}
use shared_encryption.Wire.BigInt.{BigIntCodec, IsLawful}
use shared_encryption.Wire.Bytes.{Reads, put_all, read_all, read_all-put_all}
use shared_encryption.Wire.Elements.{
  Element, Ciphertext, put_element, read_element, put_ciphertext, read_ciphertext, put_shard_id,
  read_shard_id, put_shard, read_shard, Fits, ElementFits, ShardFits, CiphertextFits,
  read-put_element, read-put_ciphertext, read-put_shard_id, read-put_shard,
}
use shared_encryption.Wire.Values.{
  IsUuid, put_count, read_count, put_uuid, read_uuid, read-put_count, read-put_uuid, read-put_uuids,
}

module _ (c : BigIntCodec) (q : ℕ) where
  unfoldable pub put_added_as_member : AddedAsMemberRecord Element → List ℕ → List ℕ
  put_added_as_member r rest = put_uuid r.user_set_id (
      put_element c r.reg_layer_pub_key
        (put_element c r.owner_layer_pub_key (put_shard c r.reg_layer_priv_key_shard rest)))

  unfoldable pub read_added_as_member : List ℕ → Outcome (AddedAsMemberRecord Element × List ℕ)
  read_added_as_member it0 = do
    (user_set_id, it1) ← read_uuid it0
    (reg_layer_pub_key, it2) ← read_element c it1
    (owner_layer_pub_key, it3) ← read_element c it2
    (reg_layer_priv_key_shard, it4) ← read_shard c q it3
    ok (
      record {
        user_set_id = user_set_id;
        reg_layer_pub_key = reg_layer_pub_key;
        owner_layer_pub_key = owner_layer_pub_key;
        reg_layer_priv_key_shard = reg_layer_priv_key_shard;
      },
      it4,
    )

  -- The record as one of a member: the cast takes its first fields.
  abbrev pub as_member : AddedAsOwnerRecord Element → AddedAsMemberRecord Element
  as_member r = record {
    user_set_id = r.user_set_id;
    reg_layer_pub_key = r.reg_layer_pub_key;
    owner_layer_pub_key = r.owner_layer_pub_key;
    reg_layer_priv_key_shard = r.reg_layer_priv_key_shard;
  }

  unfoldable pub put_added_as_owner : AddedAsOwnerRecord Element → List ℕ → List ℕ
  put_added_as_owner r rest =
      put_added_as_member (as_member r) (put_shard c r.owner_layer_priv_key_shard rest)

  unfoldable pub read_added_as_owner : List ℕ → Outcome (AddedAsOwnerRecord Element × List ℕ)
  read_added_as_owner it0 = do
    (r, it1) ← read_added_as_member it0
    (owner_layer_priv_key_shard, it2) ← read_shard c q it1
    ok (
      record {
        user_set_id = r.user_set_id;
        reg_layer_pub_key = r.reg_layer_pub_key;
        owner_layer_pub_key = r.owner_layer_pub_key;
        reg_layer_priv_key_shard = r.reg_layer_priv_key_shard;
        owner_layer_priv_key_shard = owner_layer_priv_key_shard;
      },
      it2,
    )

  unfoldable pub put_to_decrypt : ToDecryptRecord Ciphertext → List ℕ → List ℕ
  put_to_decrypt r rest = put_uuid r.op_id (
      put_ciphertext c r.ciphertext
        (put_count (length r.shards_ids) (put_all (put_shard_id c) r.shards_ids rest)))

  unfoldable pub read_to_decrypt : List ℕ → Outcome (ToDecryptRecord Ciphertext × List ℕ)
  read_to_decrypt it0 = do
    (op_id, it1) ← read_uuid it0
    (ciphertext, it2) ← read_ciphertext c it1
    (shards_ids_count, it3) ← read_count it2
    (shards_ids, it4) ← read_all (read_shard_id c) shards_ids_count it3
    ok (record { op_id = op_id; ciphertext = ciphertext; shards_ids = shards_ids }, it4)

  unfoldable pub put_finished_decryptions : FinishedDecryptionsRecord Element → List ℕ → List ℕ
  put_finished_decryptions r rest = put_count (length r.reg_layer_parts) (
      put_count (length r.owner_layer_parts) (
        put_uuid r.op_id (
          put_all (put_element c) r.reg_layer_parts (
            put_all (put_element c) r.owner_layer_parts (
              put_all (put_shard_id c) r.reg_layer_shards_ids
                (put_all (put_shard_id c) r.owner_layer_shards_ids rest))))))

  -- Of each layer, one shard ID more is read than there are parts.
  unfoldable pub read_finished_decryptions :
      List ℕ → Outcome (FinishedDecryptionsRecord Element × List ℕ)
  read_finished_decryptions it0 = do
    (reg_layer_parts_count, it1) ← read_count it0
    (owner_layer_parts_count, it2) ← read_count it1
    (op_id, it3) ← read_uuid it2
    (reg_layer_parts, it4) ← read_all (read_element c) reg_layer_parts_count it3
    (owner_layer_parts, it5) ← read_all (read_element c) owner_layer_parts_count it4
    (reg_layer_shards_ids, it6) ← read_all (read_shard_id c) (reg_layer_parts_count + 1) it5
    (owner_layer_shards_ids, it7) ← read_all (read_shard_id c) (owner_layer_parts_count + 1) it6
    ok (
      record {
        op_id = op_id;
        reg_layer_parts = reg_layer_parts;
        owner_layer_parts = owner_layer_parts;
        reg_layer_shards_ids = reg_layer_shards_ids;
        owner_layer_shards_ids = owner_layer_shards_ids;
      },
      it7,
    )

  unfoldable pub put_update_response : UpdateResponse Element Ciphertext Element → List ℕ → List ℕ
  put_update_response p rest = put_count (length p.added_as_owner) (
      put_count (length p.added_as_reg_member) (
        put_count (length p.on_lookup) (
          put_count (length p.to_decrypt) (
            put_count (length p.finished_decryptions) (
              put_all put_added_as_owner p.added_as_owner (
                put_all put_added_as_member p.added_as_reg_member (
                  put_all put_uuid p.on_lookup (
                    put_all put_to_decrypt p.to_decrypt
                      (put_all put_finished_decryptions p.finished_decryptions rest)))))))))

  unfoldable pub read_update_response :
      List ℕ → Outcome (UpdateResponse Element Ciphertext Element × List ℕ)
  read_update_response it0 = do
    (added_as_owner_count, it1) ← read_count it0
    (added_as_reg_member_count, it2) ← read_count it1
    (on_lookup_count, it3) ← read_count it2
    (to_decrypt_count, it4) ← read_count it3
    (finished_decryptions_count, it5) ← read_count it4
    (added_as_owner, it6) ← read_all read_added_as_owner added_as_owner_count it5
    (added_as_reg_member, it7) ← read_all read_added_as_member added_as_reg_member_count it6
    (on_lookup, it8) ← read_all read_uuid on_lookup_count it7
    (to_decrypt, it9) ← read_all read_to_decrypt to_decrypt_count it8
    (finished, it10) ← read_all read_finished_decryptions finished_decryptions_count it9
    ok (
      record {
        added_as_reg_member = added_as_reg_member;
        added_as_owner = added_as_owner;
        on_lookup = on_lookup;
        to_decrypt = to_decrypt;
        finished_decryptions = finished;
      },
      it10,
    )
