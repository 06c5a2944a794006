-- ===== src/Wire/Encrypted/Responses.antt =====
-- The payloads of responses, by `send_response_data` and `recv_response_data` of
-- common/EncryptedPacketHandler.cpp; that of `pkt::UpdateResponse` stands in Updates. `q` is the
-- order of the group.
pub mod RoundTrip
use shared_encryption.Base.{ℕ, zero, suc, ◌<◌, ◌≡◌, refl, List, length, All, arith}
use shared_encryption.Base.Outcome.{Outcome, ok, undefined, ◌>>=◌}
use shared_encryption.Packets.{
  SignupStatus, signup_success, username_taken, SignupResponse, LoginStatus, login_success,
  bad_login, LoginResponse, MakeUserSetResponse, GetUserSetsResponse, GetMembersResponse,
  DecryptResponse, ParticipationStatus, send_reg_layer_part, send_owner_layer_part,
  participation_not_required, DecryptParticipateResponse,
}
use shared_encryption.Wire.BigInt.{BigIntCodec, IsLawful}
use shared_encryption.Wire.Bytes.{
  put_string, read_string, Reads, read-put_string, put_all, read_all,
}
use shared_encryption.Wire.Elements.{
  Element, put_element, read_element, put_shard, read_shard, ElementFits, ShardFits,
  read-put_element, read-put_shard,
}
use shared_encryption.Wire.Values.{
  IsText, IsUuid, put_count, read_count, put_uuid, read_uuid, read-put_count, read-put_uuid,
  read-put_names, read-put_uuids,
}

-- The message of an `ErrorResponse`, as a string.
abbrev pub put_error_response : List ℕ → List ℕ → List ℕ
put_error_response msg rest = put_string msg rest

abbrev pub read_error_response : List ℕ → Outcome (List ℕ × List ℕ)
read_error_response it = read_string it

-- The enumerations are numbered from 0. A byte that is no enumerator gives a status that no code
-- expects: `undefined` stands for it.
abbrev pub signup_status_byte : SignupStatus → ℕ
signup_status_byte signup_success = 0
signup_status_byte username_taken = 1

abbrev pub signup_status : ℕ → Outcome SignupStatus
signup_status zero = ok signup_success
signup_status (suc zero) = ok username_taken
signup_status _ = undefined

abbrev pub login_status_byte : LoginStatus → ℕ
login_status_byte login_success = 0
login_status_byte bad_login = 1

abbrev pub login_status : ℕ → Outcome LoginStatus
login_status zero = ok login_success
login_status (suc zero) = ok bad_login
login_status _ = undefined

abbrev pub participation_status_byte : ParticipationStatus → ℕ
participation_status_byte send_reg_layer_part = 0
participation_status_byte send_owner_layer_part = 1
participation_status_byte participation_not_required = 2

abbrev pub to_participation_status : ℕ → Outcome ParticipationStatus
to_participation_status zero = ok send_reg_layer_part
to_participation_status (suc zero) = ok send_owner_layer_part
to_participation_status (suc (suc zero)) = ok participation_not_required
to_participation_status _ = undefined

unfoldable pub put_signup_response : SignupResponse → List ℕ → List ℕ
put_signup_response p rest = put_count (signup_status_byte p.status) rest

unfoldable pub read_signup_response : List ℕ → Outcome (SignupResponse × List ℕ)
read_signup_response it0 = do
  (byte, it1) ← read_count it0
  status ← signup_status byte
  ok (record { status = status }, it1)

unfoldable pub put_login_response : LoginResponse → List ℕ → List ℕ
put_login_response p rest = put_count (login_status_byte p.status) rest

unfoldable pub read_login_response : List ℕ → Outcome (LoginResponse × List ℕ)
read_login_response it0 = do
  (byte, it1) ← read_count it0
  status ← login_status byte
  ok (record { status = status }, it1)

unfoldable pub put_get_user_sets_response : GetUserSetsResponse → List ℕ → List ℕ
put_get_user_sets_response p rest =
    put_count (length p.user_sets_ids) (put_all put_uuid p.user_sets_ids rest)

unfoldable pub read_get_user_sets_response : List ℕ → Outcome (GetUserSetsResponse × List ℕ)
read_get_user_sets_response it0 = do
  (usersets_count, it1) ← read_count it0
  (user_sets_ids, it2) ← read_all read_uuid usersets_count it1
  ok (record { user_sets_ids = user_sets_ids }, it2)

unfoldable pub put_get_members_response : GetMembersResponse → List ℕ → List ℕ
put_get_members_response p rest = put_count (length p.owners) (
    put_count (length p.reg_members)
      (put_all put_string p.owners (put_all put_string p.reg_members rest)))

unfoldable pub read_get_members_response : List ℕ → Outcome (GetMembersResponse × List ℕ)
read_get_members_response it0 = do
  (owners_count, it1) ← read_count it0
  (reg_members_count, it2) ← read_count it1
  (owners, it3) ← read_all read_string owners_count it2
  (reg_members, it4) ← read_all read_string reg_members_count it3
  ok (record { reg_members = reg_members; owners = owners }, it4)

unfoldable pub put_decrypt_response : DecryptResponse → List ℕ → List ℕ
put_decrypt_response p rest = put_uuid p.op_id rest

unfoldable pub read_decrypt_response : List ℕ → Outcome (DecryptResponse × List ℕ)
read_decrypt_response it0 = do (op_id, it1) ← read_uuid it0; ok (record { op_id = op_id }, it1)

unfoldable pub put_decrypt_participate_response : DecryptParticipateResponse → List ℕ → List ℕ
put_decrypt_participate_response p rest = put_count (participation_status_byte p.status) rest

unfoldable pub read_decrypt_participate_response :
    List ℕ → Outcome (DecryptParticipateResponse × List ℕ)
read_decrypt_participate_response it0 = do
  (byte, it1) ← read_count it0
  status ← to_participation_status byte
  ok (record { status = status }, it1)

module _ (c : BigIntCodec) (q : ℕ) where
  unfoldable pub put_make_user_set_response : MakeUserSetResponse Element → List ℕ → List ℕ
  put_make_user_set_response p rest = put_uuid p.user_set_id (
      put_element c p.reg_layer_pub_key (
        put_element c p.owner_layer_pub_key
          (put_shard c p.reg_layer_priv_key_shard (put_shard c p.owner_layer_priv_key_shard rest))))

  unfoldable pub read_make_user_set_response :
      List ℕ → Outcome (MakeUserSetResponse Element × List ℕ)
  read_make_user_set_response it0 = do
    (user_set_id, it1) ← read_uuid it0
    (reg_layer_pub_key, it2) ← read_element c it1
    (owner_layer_pub_key, it3) ← read_element c it2
    (reg_layer_priv_key_shard, it4) ← read_shard c q it3
    (owner_layer_priv_key_shard, it5) ← read_shard c q it4
    ok (
      record {
        user_set_id = user_set_id;
        reg_layer_pub_key = reg_layer_pub_key;
        owner_layer_pub_key = owner_layer_pub_key;
        reg_layer_priv_key_shard = reg_layer_priv_key_shard;
        owner_layer_priv_key_shard = owner_layer_priv_key_shard;
      },
      it5,
    )
