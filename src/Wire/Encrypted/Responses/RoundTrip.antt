-- ===== src/Wire/Encrypted/Responses/RoundTrip.antt =====
-- That responses are read as they were written (common/EncryptedPacketHandler.cpp).
use shared_encryption.Base.{ℕ, ◌<◌, ◌≡◌, refl, length, All, arith}
use shared_encryption.Packets.{
  SignupStatus, signup_success, username_taken, SignupResponse, LoginStatus, login_success,
  bad_login, LoginResponse, MakeUserSetResponse, GetUserSetsResponse, GetMembersResponse,
  DecryptResponse, ParticipationStatus, send_reg_layer_part, send_owner_layer_part,
  participation_not_required, DecryptParticipateResponse,
}
use shared_encryption.Base.Outcome.{ok}
use shared_encryption.Wire.BigInt.{BigIntCodec, IsLawful}
use shared_encryption.Wire.Bytes.{Reads}
use shared_encryption.Wire.Elements.{
  Element, ElementFits, ShardFits, read-put_element, read-put_shard,
}
use shared_encryption.Wire.Values.{
  IsText, IsUuid, read-put_count, read-put_uuid, read-put_names, read-put_uuids,
}
use shared_encryption.Wire.Encrypted.Responses.{
  signup_status_byte, signup_status, login_status_byte, login_status, participation_status_byte,
  to_participation_status, put_signup_response, read_signup_response, put_login_response,
  read_login_response, put_get_user_sets_response, read_get_user_sets_response,
  put_get_members_response, read_get_members_response, put_decrypt_response, read_decrypt_response,
  put_decrypt_participate_response, read_decrypt_participate_response, put_make_user_set_response,
  read_make_user_set_response,
}

pub record GetMembersFits (p : GetMembersResponse) : Type 0 where
  pub owners_fit : All IsText p.owners
  pub reg_members_fit : All IsText p.reg_members
  pub owners_count : length p.owners < 256
  pub reg_members_count : length p.reg_members < 256

pub signup_byte_small : (t : SignupStatus) → signup_status_byte t < 256
signup_byte_small signup_success = omega arith
signup_byte_small username_taken = omega arith

pub signup_status-byte : (t : SignupStatus) → signup_status (signup_status_byte t) ≡ ok t
signup_status-byte signup_success = refl
signup_status-byte username_taken = refl

pub login_byte_small : (t : LoginStatus) → login_status_byte t < 256
login_byte_small login_success = omega arith
login_byte_small bad_login = omega arith

pub login_status-byte : (t : LoginStatus) → login_status (login_status_byte t) ≡ ok t
login_status-byte login_success = refl
login_status-byte bad_login = refl

pub participation_byte_small : (t : ParticipationStatus) → participation_status_byte t < 256
participation_byte_small send_reg_layer_part = omega arith
participation_byte_small send_owner_layer_part = omega arith
participation_byte_small participation_not_required = omega arith

pub participation_status-byte :
    (t : ParticipationStatus) → to_participation_status (participation_status_byte t) ≡ ok t
participation_status-byte send_reg_layer_part = refl
participation_status-byte send_owner_layer_part = refl
participation_status-byte participation_not_required = refl

pub read-put_signup_response :
    (p : SignupResponse) → Reads read_signup_response put_signup_response p
unfolding read_signup_response put_signup_response
read-put_signup_response p rest =
    rw
      (
        read-put_count (signup_status_byte p.status) (signup_byte_small p.status),
        signup_status-byte p.status,
      )
      refl

pub read-put_login_response : (p : LoginResponse) → Reads read_login_response put_login_response p
unfolding read_login_response put_login_response
read-put_login_response p rest =
    rw
      (
        read-put_count (login_status_byte p.status) (login_byte_small p.status),
        login_status-byte p.status,
      )
      refl

pub read-put_decrypt_participate_response :
    (p : DecryptParticipateResponse)
    → Reads read_decrypt_participate_response put_decrypt_participate_response p
unfolding read_decrypt_participate_response put_decrypt_participate_response
read-put_decrypt_participate_response p rest =
    rw
      (
        read-put_count (participation_status_byte p.status) (participation_byte_small p.status),
        participation_status-byte p.status,
      )
      refl

pub read-put_get_user_sets_response :
    (p : GetUserSetsResponse)
    → All IsUuid p.user_sets_ids
    → length p.user_sets_ids < 256
    → Reads read_get_user_sets_response put_get_user_sets_response p
unfolding read_get_user_sets_response put_get_user_sets_response
read-put_get_user_sets_response p h n rest =
    rw (read-put_count (length p.user_sets_ids) n, read-put_uuids p.user_sets_ids h) refl

pub read-put_get_members_response :
    (p : GetMembersResponse)
    → GetMembersFits p
    → Reads read_get_members_response put_get_members_response p
unfolding read_get_members_response put_get_members_response
read-put_get_members_response p h rest =
    rw
      (
        read-put_count (length p.owners) h.owners_count,
        read-put_count (length p.reg_members) h.reg_members_count,
        read-put_names p.owners h.owners_fit,
        read-put_names p.reg_members h.reg_members_fit,
      )
      refl

pub read-put_decrypt_response :
    (p : DecryptResponse) → IsUuid p.op_id → Reads read_decrypt_response put_decrypt_response p
unfolding read_decrypt_response put_decrypt_response
read-put_decrypt_response p h rest = rw (read-put_uuid p.op_id h) refl

module _ (c : BigIntCodec) (q : ℕ) where
  pub record MakeUserSetResponseFits (p : MakeUserSetResponse Element) : Type 0 where
    pub id_fits : IsUuid p.user_set_id
    pub reg_key_fits : ElementFits c p.reg_layer_pub_key
    pub owner_key_fits : ElementFits c p.owner_layer_pub_key
    pub reg_shard_fits : ShardFits c q p.reg_layer_priv_key_shard
    pub owner_shard_fits : ShardFits c q p.owner_layer_priv_key_shard

module _ (c : BigIntCodec) (l : IsLawful c) (q : ℕ) where
  pub read-put_make_user_set_response :
      (p : MakeUserSetResponse Element)
      → MakeUserSetResponseFits c q p
      → Reads (read_make_user_set_response c q) (put_make_user_set_response c q) p
  unfolding read_make_user_set_response put_make_user_set_response
  read-put_make_user_set_response p h rest =
      rw
        (
          read-put_uuid p.user_set_id h.id_fits,
          read-put_element c l p.reg_layer_pub_key h.reg_key_fits,
          read-put_element c l p.owner_layer_pub_key h.owner_key_fits,
          read-put_shard c l q p.reg_layer_priv_key_shard h.reg_shard_fits,
          read-put_shard c l q p.owner_layer_priv_key_shard h.owner_shard_fits,
        )
        refl
