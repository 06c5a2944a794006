-- ===== src/Wire/Inline/Responses.antt =====
-- The data of responses, by `send_response_data` and `recv_response_data` of
-- common/InlinePacketHandler.cpp; that of `pkt::UpdateResponse` stands in Updates. `q` is the
-- order of the group.
pub mod RoundTrip
use shared_encryption.Base.{ℕ, zero, suc, ◌<◌, ◌≡◌, refl, List, length, All, arith}
use shared_encryption.Base.Outcome.{Outcome, ok, undefined, ◌>>=◌}
use shared_encryption.Packets.{
  SignupStatus, signup_success, username_taken, SignupResponse, LoginStatus, login_success,
  bad_login, LoginResponse, MakeUserSetResponse, GetUserSetsResponse, GetMembersResponse,
  DecryptResponse, ParticipationStatus, send_reg_layer_part, send_owner_layer_part,
  participation_not_required, DecryptParticipateResponse,
}
use shared_encryption.Wire.BigInt.{BigIntCodec, IsLawful}
use shared_encryption.Wire.Bytes.{Reads, put_all, read_all}
use shared_encryption.Wire.Elements.{Element, ElementFits, ShardFits}
use shared_encryption.Wire.Values.{IsText, IsUuid}
use shared_encryption.Wire.Encrypted.Responses.{
  signup_status_byte, signup_status, login_status_byte, login_status, participation_status_byte,
  to_participation_status,
}
use shared_encryption.Wire.SockUtils.{send_ecgroup_elem, recv_ecgroup_elem, recv-send_ecgroup_elem}
use shared_encryption.Wire.Socket.Pieces.{Pieces, recv_string}
use shared_encryption.Wire.Inline.Values.{
  send_count, recv_count, send_uuid, recv_uuid, send_string, send_priv_key_shard_id,
  recv_priv_key_shard_id, send_priv_key_shard, recv_priv_key_shard, send_ciphertext,
  recv_ciphertext, recv-send_string, recv-send_count, recv-send_uuid, recv-send_names,
  recv-send_uuids, recv-send-All, recv-send_priv_key_shard_id, recv-send_priv_key_shard,
  recv-send_ciphertext,
}

-- The message of an `ErrorResponse`, as a string.
abbrev pub send_error_response : List ℕ → List ℕ → List ℕ
send_error_response msg rest = send_string msg rest

abbrev pub recv_error_response : Pieces → List ℕ → Outcome (List ℕ × List ℕ)
recv_error_response piece it = recv_string piece it

unfoldable pub send_signup_response : SignupResponse → List ℕ → List ℕ
send_signup_response p rest = send_count (signup_status_byte p.status) rest

unfoldable pub recv_signup_response : List ℕ → Outcome (SignupResponse × List ℕ)
recv_signup_response sock0 = do
  (byte, sock1) ← recv_count sock0
  status ← signup_status byte
  ok (record { status = status }, sock1)

unfoldable pub send_login_response : LoginResponse → List ℕ → List ℕ
send_login_response p rest = send_count (login_status_byte p.status) rest

unfoldable pub recv_login_response : List ℕ → Outcome (LoginResponse × List ℕ)
recv_login_response sock0 = do
  (byte, sock1) ← recv_count sock0
  status ← login_status byte
  ok (record { status = status }, sock1)

unfoldable pub send_get_user_sets_response : GetUserSetsResponse → List ℕ → List ℕ
send_get_user_sets_response p rest =
    send_count (length p.user_sets_ids) (put_all send_uuid p.user_sets_ids rest)

unfoldable pub recv_get_user_sets_response : List ℕ → Outcome (GetUserSetsResponse × List ℕ)
recv_get_user_sets_response sock0 = do
  (usersets_count, sock1) ← recv_count sock0
  (user_sets_ids, sock2) ← read_all recv_uuid usersets_count sock1
  ok (record { user_sets_ids = user_sets_ids }, sock2)

unfoldable pub send_get_members_response : GetMembersResponse → List ℕ → List ℕ
send_get_members_response p rest = send_count (length p.owners) (
    send_count (length p.reg_members)
      (put_all send_string p.owners (put_all send_string p.reg_members rest)))

unfoldable pub recv_get_members_response : Pieces → List ℕ → Outcome (GetMembersResponse × List ℕ)
recv_get_members_response piece sock0 = do
  (owners_count, sock1) ← recv_count sock0
  (reg_members_count, sock2) ← recv_count sock1
  (owners, sock3) ← read_all (recv_string piece) owners_count sock2
  (reg_members, sock4) ← read_all (recv_string piece) reg_members_count sock3
  ok (record { reg_members = reg_members; owners = owners }, sock4)

unfoldable pub send_decrypt_response : DecryptResponse → List ℕ → List ℕ
send_decrypt_response p rest = send_uuid p.op_id rest

unfoldable pub recv_decrypt_response : List ℕ → Outcome (DecryptResponse × List ℕ)
recv_decrypt_response sock0 = do
  (op_id, sock1) ← recv_uuid sock0
  ok (record { op_id = op_id }, sock1)

unfoldable pub send_decrypt_participate_response : DecryptParticipateResponse → List ℕ → List ℕ
send_decrypt_participate_response p rest = send_count (participation_status_byte p.status) rest

unfoldable pub recv_decrypt_participate_response :
    List ℕ → Outcome (DecryptParticipateResponse × List ℕ)
recv_decrypt_participate_response sock0 = do
  (byte, sock1) ← recv_count sock0
  status ← to_participation_status byte
  ok (record { status = status }, sock1)

module _ (c : BigIntCodec) (q : ℕ) where
  unfoldable pub send_make_user_set_response : MakeUserSetResponse Element → List ℕ → List ℕ
  send_make_user_set_response p rest = send_uuid p.user_set_id (
      send_ecgroup_elem c p.reg_layer_pub_key (
        send_ecgroup_elem c p.owner_layer_pub_key (
          send_priv_key_shard c p.reg_layer_priv_key_shard
            (send_priv_key_shard c p.owner_layer_priv_key_shard rest))))

  unfoldable pub recv_make_user_set_response :
      List ℕ → Outcome (MakeUserSetResponse Element × List ℕ)
  recv_make_user_set_response sock0 = do
    (user_set_id, sock1) ← recv_uuid sock0
    (reg_layer_pub_key, sock2) ← recv_ecgroup_elem c sock1
    (owner_layer_pub_key, sock3) ← recv_ecgroup_elem c sock2
    (reg_layer_priv_key_shard, sock4) ← recv_priv_key_shard c q sock3
    (owner_layer_priv_key_shard, sock5) ← recv_priv_key_shard c q sock4
    ok (
      record {
        user_set_id = user_set_id;
        reg_layer_pub_key = reg_layer_pub_key;
        owner_layer_pub_key = owner_layer_pub_key;
        reg_layer_priv_key_shard = reg_layer_priv_key_shard;
        owner_layer_priv_key_shard = owner_layer_priv_key_shard;
      },
      sock5,
    )
