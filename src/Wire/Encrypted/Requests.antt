-- ===== src/Wire/Encrypted/Requests.antt =====
-- The payloads of requests, by `send_request_data` and `recv_request_data` of
-- common/EncryptedPacketHandler.cpp. A writer is given what follows the payload, a reader gives
-- what it leaves.
pub mod RoundTrip
use shared_encryption.Base.{ℕ, ◌<◌, ◌≡◌, refl, List, length, All, arith}
use shared_encryption.Base.Outcome.{Outcome, ok, undefined, ◌>>=◌}
use shared_encryption.Packets.{
  SignupRequest, LoginRequest, LogoutRequest, logout_request, MakeUserSetRequest,
  GetUserSetsRequest, get_user_sets_request, GetMembersRequest, DecryptRequest, UpdateRequest,
  update_request, DecryptParticipateRequest, SendDecryptionPartRequest,
}
use shared_encryption.Wire.BigInt.{BigIntCodec, IsLawful}
use shared_encryption.Wire.Bytes.{
  put_string, read_string, Reads, read-put_string, put_all, read_all,
}
use shared_encryption.Wire.Elements.{
  Element, Ciphertext, put_element, read_element, put_ciphertext, read_ciphertext, ElementFits,
  CiphertextFits, read-put_element, read-put_ciphertext,
}
use shared_encryption.Wire.Values.{
  IsText, IsUuid, put_count, read_count, put_uuid, read_uuid, read-put_count, read-put_uuid,
  read-put_names,
}

unfoldable pub put_signup_request : SignupRequest → List ℕ → List ℕ
put_signup_request p rest = put_string p.username (put_string p.password rest)

unfoldable pub read_signup_request : List ℕ → Outcome (SignupRequest × List ℕ)
read_signup_request it0 = do
  (username, it1) ← read_string it0
  (password, it2) ← read_string it1
  ok (record { username = username; password = password }, it2)

unfoldable pub put_login_request : LoginRequest → List ℕ → List ℕ
put_login_request p rest = put_string p.username (put_string p.password rest)

unfoldable pub read_login_request : List ℕ → Outcome (LoginRequest × List ℕ)
read_login_request it0 = do
  (username, it1) ← read_string it0
  (password, it2) ← read_string it1
  ok (record { username = username; password = password }, it2)

unfoldable pub put_make_user_set_request : MakeUserSetRequest → List ℕ → List ℕ
put_make_user_set_request p rest = put_count p.owners_threshold (
    put_count p.reg_members_threshold (
      put_count (length p.owners) (
        put_count (length p.reg_members)
          (put_all put_string p.owners (put_all put_string p.reg_members rest)))))

unfoldable pub read_make_user_set_request : List ℕ → Outcome (MakeUserSetRequest × List ℕ)
read_make_user_set_request it0 = do
  (owners_threshold, it1) ← read_count it0
  (reg_members_threshold, it2) ← read_count it1
  (owners_count, it3) ← read_count it2
  (reg_members_count, it4) ← read_count it3
  (owners, it5) ← read_all read_string owners_count it4
  (reg_members, it6) ← read_all read_string reg_members_count it5
  ok (
    record {
      reg_members = reg_members;
      owners = owners;
      reg_members_threshold = reg_members_threshold;
      owners_threshold = owners_threshold;
    },
    it6,
  )

unfoldable pub put_get_members_request : GetMembersRequest → List ℕ → List ℕ
put_get_members_request p rest = put_uuid p.user_set_id rest

unfoldable pub read_get_members_request : List ℕ → Outcome (GetMembersRequest × List ℕ)
read_get_members_request it0 = do
  (user_set_id, it1) ← read_uuid it0
  ok (record { user_set_id = user_set_id }, it1)

unfoldable pub put_decrypt_participate_request : DecryptParticipateRequest → List ℕ → List ℕ
put_decrypt_participate_request p rest = put_uuid p.op_id rest

unfoldable pub read_decrypt_participate_request :
    List ℕ → Outcome (DecryptParticipateRequest × List ℕ)
read_decrypt_participate_request it0 = do
  (op_id, it1) ← read_uuid it0
  ok (record { op_id = op_id }, it1)

module _ (c : BigIntCodec) where
  unfoldable pub put_decrypt_request : DecryptRequest Ciphertext → List ℕ → List ℕ
  put_decrypt_request p rest = put_uuid p.user_set_id (put_ciphertext c p.ciphertext rest)

  unfoldable pub read_decrypt_request : List ℕ → Outcome (DecryptRequest Ciphertext × List ℕ)
  read_decrypt_request it0 = do
    (user_set_id, it1) ← read_uuid it0
    (ciphertext, it2) ← read_ciphertext c it1
    ok (record { user_set_id = user_set_id; ciphertext = ciphertext }, it2)

  unfoldable pub put_send_decryption_part_request :
      SendDecryptionPartRequest Element → List ℕ → List ℕ
  put_send_decryption_part_request p rest = put_uuid p.op_id (put_element c p.decryption_part rest)

  unfoldable pub read_send_decryption_part_request :
      List ℕ → Outcome (SendDecryptionPartRequest Element × List ℕ)
  read_send_decryption_part_request it0 = do
    (op_id, it1) ← read_uuid it0
    (decryption_part, it2) ← read_element c it1
    ok (record { op_id = op_id; decryption_part = decryption_part }, it2)
