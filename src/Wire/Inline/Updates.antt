-- ===== src/Wire/Inline/Updates.antt =====
-- The data of `pkt::UpdateResponse` and of the records inside it, in
-- common/InlinePacketHandler.cpp. `q` is the order of the group.
pub mod RoundTrip
use shared_encryption.Base.{ℕ, suc, ◌+◌, ◌<◌, ◌≡◌, refl, sym, ap, List, length, All, All-imp, arith}
use shared_encryption.Base.Outcome.{Outcome, ok, undefined, ◌>>=◌}
use shared_encryption.Server.Updates.{
  AddedAsMemberRecord, AddedAsOwnerRecord, ToDecryptRecord, FinishedDecryptionsRecord,
  UpdateResponse,
}
use shared_encryption.Wire.BigInt.{BigIntCodec, IsLawful}
use shared_encryption.Wire.Bytes.{Reads, put_all, read_all, read_all-put_all}
use shared_encryption.Wire.Elements.{
  Element, Ciphertext, Fits, ElementFits, ShardFits, CiphertextFits,
}
use shared_encryption.Wire.Values.{IsUuid}
use shared_encryption.Wire.Encrypted.Updates.{as_member}
use shared_encryption.Wire.SockUtils.{send_ecgroup_elem, recv_ecgroup_elem, recv-send_ecgroup_elem}
use shared_encryption.Wire.Inline.Values.{
  send_count, recv_count, send_uuid, recv_uuid, send_string, send_priv_key_shard_id,
  recv_priv_key_shard_id, send_priv_key_shard, recv_priv_key_shard, send_ciphertext,
  recv_ciphertext, recv-send_string, recv-send_count, recv-send_uuid, recv-send_names,
  recv-send_uuids, recv-send-All, recv-send_priv_key_shard_id, recv-send_priv_key_shard,
  recv-send_ciphertext,
}

module _ (c : BigIntCodec) (q : ℕ) where
  unfoldable pub send_added_as_member : AddedAsMemberRecord Element → List ℕ → List ℕ
  send_added_as_member r rest = send_uuid r.user_set_id (
      send_ecgroup_elem c r.reg_layer_pub_key (
        send_ecgroup_elem c r.owner_layer_pub_key
          (send_priv_key_shard c r.reg_layer_priv_key_shard rest)))

  unfoldable pub recv_added_as_member : List ℕ → Outcome (AddedAsMemberRecord Element × List ℕ)
  recv_added_as_member sock0 = do
    (user_set_id, sock1) ← recv_uuid sock0
    (reg_layer_pub_key, sock2) ← recv_ecgroup_elem c sock1
    (owner_layer_pub_key, sock3) ← recv_ecgroup_elem c sock2
    (reg_layer_priv_key_shard, sock4) ← recv_priv_key_shard c q sock3
    ok (
      record {
        user_set_id = user_set_id;
        reg_layer_pub_key = reg_layer_pub_key;
        owner_layer_pub_key = owner_layer_pub_key;
        reg_layer_priv_key_shard = reg_layer_priv_key_shard;
      },
      sock4,
    )

  unfoldable pub send_added_as_owner : AddedAsOwnerRecord Element → List ℕ → List ℕ
  send_added_as_owner r rest =
      send_added_as_member (as_member c q r)
        (send_priv_key_shard c r.owner_layer_priv_key_shard rest)

  unfoldable pub recv_added_as_owner : List ℕ → Outcome (AddedAsOwnerRecord Element × List ℕ)
  recv_added_as_owner sock0 = do
    (r, sock1) ← recv_added_as_member sock0
    (owner_layer_priv_key_shard, sock2) ← recv_priv_key_shard c q sock1
    ok (
      record {
        user_set_id = r.user_set_id;
        reg_layer_pub_key = r.reg_layer_pub_key;
        owner_layer_pub_key = r.owner_layer_pub_key;
        reg_layer_priv_key_shard = r.reg_layer_priv_key_shard;
        owner_layer_priv_key_shard = owner_layer_priv_key_shard;
      },
      sock2,
    )

  unfoldable pub send_to_decrypt : ToDecryptRecord Ciphertext → List ℕ → List ℕ
  send_to_decrypt r rest = send_uuid r.op_id (
      send_ciphertext c r.ciphertext
        (send_count (length r.shards_ids) (put_all (send_priv_key_shard_id c) r.shards_ids rest)))

  unfoldable pub recv_to_decrypt : List ℕ → Outcome (ToDecryptRecord Ciphertext × List ℕ)
  recv_to_decrypt sock0 = do
    (op_id, sock1) ← recv_uuid sock0
    (ciphertext, sock2) ← recv_ciphertext c sock1
    (shards_ids_count, sock3) ← recv_count sock2
    (shards_ids, sock4) ← read_all (recv_priv_key_shard_id c) shards_ids_count sock3
    ok (record { op_id = op_id; ciphertext = ciphertext; shards_ids = shards_ids }, sock4)

  unfoldable pub send_finished_decryptions : FinishedDecryptionsRecord Element → List ℕ → List ℕ
  send_finished_decryptions r rest = send_count (length r.reg_layer_parts) (
      send_count (length r.owner_layer_parts) (
        send_uuid r.op_id (
          put_all (send_ecgroup_elem c) r.reg_layer_parts (
            put_all (send_ecgroup_elem c) r.owner_layer_parts (
              put_all (send_priv_key_shard_id c) r.reg_layer_shards_ids
                (put_all (send_priv_key_shard_id c) r.owner_layer_shards_ids rest))))))

  -- Of each layer, one shard ID more is read than there are parts.
  unfoldable pub recv_finished_decryptions :
      List ℕ → Outcome (FinishedDecryptionsRecord Element × List ℕ)
  recv_finished_decryptions sock0 = do
    (reg_layer_parts_count, sock1) ← recv_count sock0
    (owner_layer_parts_count, sock2) ← recv_count sock1
    (op_id, sock3) ← recv_uuid sock2
    (reg_layer_parts, sock4) ← read_all (recv_ecgroup_elem c) reg_layer_parts_count sock3
    (owner_layer_parts, sock5) ← read_all (recv_ecgroup_elem c) owner_layer_parts_count sock4
    (reg_layer_shards_ids, sock6) ←
        read_all (recv_priv_key_shard_id c) (reg_layer_parts_count + 1) sock5
    (owner_layer_shards_ids, sock7) ←
        read_all (recv_priv_key_shard_id c) (owner_layer_parts_count + 1) sock6
    ok (
      record {
        op_id = op_id;
        reg_layer_parts = reg_layer_parts;
        owner_layer_parts = owner_layer_parts;
        reg_layer_shards_ids = reg_layer_shards_ids;
        owner_layer_shards_ids = owner_layer_shards_ids;
      },
      sock7,
    )

  unfoldable pub send_update_response : UpdateResponse Element Ciphertext Element → List ℕ → List ℕ
  send_update_response p rest = send_count (length p.added_as_owner) (
      send_count (length p.added_as_reg_member) (
        send_count (length p.on_lookup) (
          send_count (length p.to_decrypt) (
            send_count (length p.finished_decryptions) (
              put_all send_added_as_owner p.added_as_owner (
                put_all send_added_as_member p.added_as_reg_member (
                  put_all send_uuid p.on_lookup (
                    put_all send_to_decrypt p.to_decrypt
                      (put_all send_finished_decryptions p.finished_decryptions rest)))))))))

  unfoldable pub recv_update_response :
      List ℕ → Outcome (UpdateResponse Element Ciphertext Element × List ℕ)
  recv_update_response sock0 = do
    (added_as_owner_count, sock1) ← recv_count sock0
    (added_as_reg_member_count, sock2) ← recv_count sock1
    (on_lookup_count, sock3) ← recv_count sock2
    (to_decrypt_count, sock4) ← recv_count sock3
    (finished_decryptions_count, sock5) ← recv_count sock4
    (added_as_owner, sock6) ← read_all recv_added_as_owner added_as_owner_count sock5
    (added_as_reg_member, sock7) ← read_all recv_added_as_member added_as_reg_member_count sock6
    (on_lookup, sock8) ← read_all recv_uuid on_lookup_count sock7
    (to_decrypt, sock9) ← read_all recv_to_decrypt to_decrypt_count sock8
    (finished, sock10) ← read_all recv_finished_decryptions finished_decryptions_count sock9
    ok (
      record {
        added_as_reg_member = added_as_reg_member;
        added_as_owner = added_as_owner;
        on_lookup = on_lookup;
        to_decrypt = to_decrypt;
        finished_decryptions = finished;
      },
      sock10,
    )
