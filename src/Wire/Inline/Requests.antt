-- ===== src/Wire/Inline/Requests.antt =====
-- The data of requests, by `send_request_data` and `recv_request_data` of
-- common/InlinePacketHandler.cpp.
pub mod RoundTrip
use shared_encryption.Base.{ℕ, ◌<◌, ◌≡◌, refl, List, length, All, arith}
use shared_encryption.Base.Outcome.{Outcome, ok, undefined, ◌>>=◌}
use shared_encryption.Packets.{
  SignupRequest, LoginRequest, LogoutRequest, logout_request, MakeUserSetRequest,
  GetUserSetsRequest, get_user_sets_request, GetMembersRequest, DecryptRequest, UpdateRequest,
  update_request, DecryptParticipateRequest, SendDecryptionPartRequest,
}
use shared_encryption.Wire.BigInt.{BigIntCodec, IsLawful}
use shared_encryption.Wire.Bytes.{Reads, put_all, read_all}
use shared_encryption.Wire.Elements.{Element, Ciphertext, ElementFits, CiphertextFits}
use shared_encryption.Wire.Values.{IsText, IsUuid}
use shared_encryption.Wire.SockUtils.{send_ecgroup_elem, recv_ecgroup_elem, recv-send_ecgroup_elem}
use shared_encryption.Wire.Socket.Pieces.{Pieces, recv_string}
use shared_encryption.Wire.Inline.Values.{
  send_count, recv_count, send_uuid, recv_uuid, send_string, send_priv_key_shard_id,
  recv_priv_key_shard_id, send_priv_key_shard, recv_priv_key_shard, send_ciphertext,
  recv_ciphertext, recv-send_string, recv-send_count, recv-send_uuid, recv-send_names,
  recv-send_uuids, recv-send-All, recv-send_priv_key_shard_id, recv-send_priv_key_shard,
  recv-send_ciphertext,
}

unfoldable pub send_signup_request : SignupRequest → List ℕ → List ℕ
send_signup_request p rest = send_string p.username (send_string p.password rest)

unfoldable pub recv_signup_request : Pieces → List ℕ → Outcome (SignupRequest × List ℕ)
recv_signup_request piece sock0 = do
  (username, sock1) ← recv_string piece sock0
  (password, sock2) ← recv_string piece sock1
  ok (record { username = username; password = password }, sock2)

unfoldable pub send_login_request : LoginRequest → List ℕ → List ℕ
send_login_request p rest = send_string p.username (send_string p.password rest)

unfoldable pub recv_login_request : Pieces → List ℕ → Outcome (LoginRequest × List ℕ)
recv_login_request piece sock0 = do
  (username, sock1) ← recv_string piece sock0
  (password, sock2) ← recv_string piece sock1
  ok (record { username = username; password = password }, sock2)

unfoldable pub send_make_user_set_request : MakeUserSetRequest → List ℕ → List ℕ
send_make_user_set_request p rest = send_count p.owners_threshold (
    send_count p.reg_members_threshold (
      send_count (length p.owners) (
        send_count (length p.reg_members)
          (put_all send_string p.owners (put_all send_string p.reg_members rest)))))

unfoldable pub recv_make_user_set_request : Pieces → List ℕ → Outcome (MakeUserSetRequest × List ℕ)
recv_make_user_set_request piece sock0 = do
  (owners_threshold, sock1) ← recv_count sock0
  (reg_members_threshold, sock2) ← recv_count sock1
  (owners_count, sock3) ← recv_count sock2
  (reg_members_count, sock4) ← recv_count sock3
  (owners, sock5) ← read_all (recv_string piece) owners_count sock4
  (reg_members, sock6) ← read_all (recv_string piece) reg_members_count sock5
  ok (
    record {
      reg_members = reg_members;
      owners = owners;
      reg_members_threshold = reg_members_threshold;
      owners_threshold = owners_threshold;
    },
    sock6,
  )

unfoldable pub send_get_members_request : GetMembersRequest → List ℕ → List ℕ
send_get_members_request p rest = send_uuid p.user_set_id rest

unfoldable pub recv_get_members_request : List ℕ → Outcome (GetMembersRequest × List ℕ)
recv_get_members_request sock0 = do
  (user_set_id, sock1) ← recv_uuid sock0
  ok (record { user_set_id = user_set_id }, sock1)

unfoldable pub send_decrypt_participate_request : DecryptParticipateRequest → List ℕ → List ℕ
send_decrypt_participate_request p rest = send_uuid p.op_id rest

unfoldable pub recv_decrypt_participate_request :
    List ℕ → Outcome (DecryptParticipateRequest × List ℕ)
recv_decrypt_participate_request sock0 = do
  (op_id, sock1) ← recv_uuid sock0
  ok (record { op_id = op_id }, sock1)

module _ (c : BigIntCodec) where
  unfoldable pub send_decrypt_request : DecryptRequest Ciphertext → List ℕ → List ℕ
  send_decrypt_request p rest = send_uuid p.user_set_id (send_ciphertext c p.ciphertext rest)

  unfoldable pub recv_decrypt_request : List ℕ → Outcome (DecryptRequest Ciphertext × List ℕ)
  recv_decrypt_request sock0 = do
    (user_set_id, sock1) ← recv_uuid sock0
    (ciphertext, sock2) ← recv_ciphertext c sock1
    ok (record { user_set_id = user_set_id; ciphertext = ciphertext }, sock2)

  unfoldable pub send_send_decryption_part_request :
      SendDecryptionPartRequest Element → List ℕ → List ℕ
  send_send_decryption_part_request p rest =
      send_uuid p.op_id (send_ecgroup_elem c p.decryption_part rest)

  unfoldable pub recv_send_decryption_part_request :
      List ℕ → Outcome (SendDecryptionPartRequest Element × List ℕ)
  recv_send_decryption_part_request sock0 = do
    (op_id, sock1) ← recv_uuid sock0
    (decryption_part, sock2) ← recv_ecgroup_elem c sock1
    ok (record { op_id = op_id; decryption_part = decryption_part }, sock2)
