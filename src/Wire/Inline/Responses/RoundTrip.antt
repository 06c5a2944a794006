-- ===== src/Wire/Inline/Responses/RoundTrip.antt =====
-- That responses are received as they were sent (common/InlinePacketHandler.cpp).
use shared_encryption.Base.{ℕ, ◌<◌, refl, length, All}
use shared_encryption.Packets.{
  SignupResponse, LoginResponse, MakeUserSetResponse, GetUserSetsResponse, GetMembersResponse,
  DecryptResponse, DecryptParticipateResponse,
}
use shared_encryption.Wire.BigInt.{BigIntCodec, IsLawful}
use shared_encryption.Wire.Bytes.{Reads}
use shared_encryption.Wire.Elements.{Element}
use shared_encryption.Wire.Values.{IsUuid}
use shared_encryption.Wire.Inline.Responses.{
  send_signup_response, recv_signup_response, send_login_response, recv_login_response,
  send_get_user_sets_response, recv_get_user_sets_response, send_get_members_response,
  recv_get_members_response, send_decrypt_response, recv_decrypt_response,
  send_decrypt_participate_response, recv_decrypt_participate_response, send_make_user_set_response,
  recv_make_user_set_response,
}
use shared_encryption.Wire.Encrypted.Responses.RoundTrip.{
  GetMembersFits, MakeUserSetResponseFits, signup_byte_small, signup_status-byte, login_byte_small,
  login_status-byte, participation_byte_small, participation_status-byte,
}
use shared_encryption.Wire.Encrypted.Responses.{
  signup_status_byte, login_status_byte, participation_status_byte,
}
use shared_encryption.Wire.SockUtils.{recv-send_ecgroup_elem}
use shared_encryption.Wire.Socket.Pieces.{Pieces, HasChunks}
use shared_encryption.Wire.Inline.Values.{
  recv-send_count, recv-send_uuid, recv-send_names, recv-send_uuids, recv-send_priv_key_shard,
}

pub recv-send_signup_response :
    (p : SignupResponse) → Reads recv_signup_response send_signup_response p
unfolding recv_signup_response send_signup_response
recv-send_signup_response p rest =
    rw
      (
        recv-send_count (signup_status_byte p.status) (signup_byte_small p.status),
        signup_status-byte p.status,
      )
      refl

pub recv-send_login_response : (p : LoginResponse) → Reads recv_login_response send_login_response p
unfolding recv_login_response send_login_response
recv-send_login_response p rest =
    rw
      (
        recv-send_count (login_status_byte p.status) (login_byte_small p.status),
        login_status-byte p.status,
      )
      refl

pub recv-send_decrypt_participate_response :
    (p : DecryptParticipateResponse)
    → Reads recv_decrypt_participate_response send_decrypt_participate_response p
unfolding recv_decrypt_participate_response send_decrypt_participate_response
recv-send_decrypt_participate_response p rest =
    rw
      (
        recv-send_count (participation_status_byte p.status) (participation_byte_small p.status),
        participation_status-byte p.status,
      )
      refl

pub recv-send_get_user_sets_response :
    (p : GetUserSetsResponse)
    → All IsUuid p.user_sets_ids
    → length p.user_sets_ids < 256
    → Reads recv_get_user_sets_response send_get_user_sets_response p
unfolding recv_get_user_sets_response send_get_user_sets_response
recv-send_get_user_sets_response p h n rest =
    rw (recv-send_count (length p.user_sets_ids) n, recv-send_uuids p.user_sets_ids h) refl

pub recv-send_get_members_response :
    (piece : Pieces)
    → HasChunks piece
    → (p : GetMembersResponse) → GetMembersFits p
    → Reads (recv_get_members_response piece) send_get_members_response p
unfolding recv_get_members_response send_get_members_response
recv-send_get_members_response piece full p h rest =
    rw
      (
        recv-send_count (length p.owners) h.owners_count,
        recv-send_count (length p.reg_members) h.reg_members_count,
        recv-send_names piece full p.owners h.owners_fit,
        recv-send_names piece full p.reg_members h.reg_members_fit,
      )
      refl

pub recv-send_decrypt_response :
    (p : DecryptResponse) → IsUuid p.op_id → Reads recv_decrypt_response send_decrypt_response p
unfolding recv_decrypt_response send_decrypt_response
recv-send_decrypt_response p h rest = rw (recv-send_uuid p.op_id h) refl

module _ (c : BigIntCodec) (l : IsLawful c) (q : ℕ) where
  pub recv-send_make_user_set_response :
      (p : MakeUserSetResponse Element)
      → MakeUserSetResponseFits c q p
      → Reads (recv_make_user_set_response c q) (send_make_user_set_response c q) p
  unfolding recv_make_user_set_response send_make_user_set_response
  recv-send_make_user_set_response p h rest =
      rw
        (
          recv-send_uuid p.user_set_id h.id_fits,
          recv-send_ecgroup_elem c l p.reg_layer_pub_key h.reg_key_fits,
          recv-send_ecgroup_elem c l p.owner_layer_pub_key h.owner_key_fits,
          recv-send_priv_key_shard c l q p.reg_layer_priv_key_shard h.reg_shard_fits,
          recv-send_priv_key_shard c l q p.owner_layer_priv_key_shard h.owner_shard_fits,
        )
        refl
