-- ===== src/Wire/Inline/Requests/RoundTrip.antt =====
-- That requests are received as they were sent (common/InlinePacketHandler.cpp).
use shared_encryption.Base.{refl, length}
use shared_encryption.Packets.{
  SignupRequest, LoginRequest, MakeUserSetRequest, GetMembersRequest, DecryptRequest,
  DecryptParticipateRequest, SendDecryptionPartRequest,
}
use shared_encryption.Wire.BigInt.{BigIntCodec, IsLawful}
use shared_encryption.Wire.Bytes.{Reads}
use shared_encryption.Wire.Elements.{Element, Ciphertext, ElementFits, CiphertextFits}
use shared_encryption.Wire.Values.{IsText, IsUuid}
use shared_encryption.Wire.Inline.Requests.{
  send_signup_request, recv_signup_request, send_login_request, recv_login_request,
  send_make_user_set_request, recv_make_user_set_request, send_get_members_request,
  recv_get_members_request, send_decrypt_request, recv_decrypt_request,
  send_decrypt_participate_request, recv_decrypt_participate_request,
  send_send_decryption_part_request, recv_send_decryption_part_request,
}
use shared_encryption.Wire.Encrypted.Requests.RoundTrip.{MakeUserSetFits}
use shared_encryption.Wire.SockUtils.{recv-send_ecgroup_elem}
use shared_encryption.Wire.Socket.Pieces.{Pieces, HasChunks}
use shared_encryption.Wire.Inline.Values.{
  recv-send_string, recv-send_count, recv-send_uuid, recv-send_names, recv-send_ciphertext,
}

pub recv-send_signup_request :
    (piece : Pieces)
    → HasChunks piece
    → (p : SignupRequest) → IsText p.username
    → IsText p.password
    → Reads (recv_signup_request piece) send_signup_request p
unfolding recv_signup_request send_signup_request
recv-send_signup_request piece full p hu hp rest =
    rw (recv-send_string piece full p.username hu, recv-send_string piece full p.password hp) refl

pub recv-send_login_request :
    (piece : Pieces)
    → HasChunks piece
    → (p : LoginRequest) → IsText p.username
    → IsText p.password
    → Reads (recv_login_request piece) send_login_request p
unfolding recv_login_request send_login_request
recv-send_login_request piece full p hu hp rest =
    rw (recv-send_string piece full p.username hu, recv-send_string piece full p.password hp) refl

pub recv-send_make_user_set_request :
    (piece : Pieces)
    → HasChunks piece
    → (p : MakeUserSetRequest) → MakeUserSetFits p
    → Reads (recv_make_user_set_request piece) send_make_user_set_request p
unfolding recv_make_user_set_request send_make_user_set_request
recv-send_make_user_set_request piece full p h rest =
    rw
      (
        recv-send_count p.owners_threshold h.owners_threshold_fits,
        recv-send_count p.reg_members_threshold h.reg_members_threshold_fits,
        recv-send_count (length p.owners) h.owners_count,
        recv-send_count (length p.reg_members) h.reg_members_count,
        recv-send_names piece full p.owners h.owners_fit,
        recv-send_names piece full p.reg_members h.reg_members_fit,
      )
      refl

pub recv-send_get_members_request :
    (p : GetMembersRequest)
    → IsUuid p.user_set_id
    → Reads recv_get_members_request send_get_members_request p
unfolding recv_get_members_request send_get_members_request
recv-send_get_members_request p h rest = rw (recv-send_uuid p.user_set_id h) refl

pub recv-send_decrypt_participate_request :
    (p : DecryptParticipateRequest)
    → IsUuid p.op_id
    → Reads recv_decrypt_participate_request send_decrypt_participate_request p
unfolding recv_decrypt_participate_request send_decrypt_participate_request
recv-send_decrypt_participate_request p h rest = rw (recv-send_uuid p.op_id h) refl

module _ (c : BigIntCodec) (l : IsLawful c) where
  pub recv-send_decrypt_request :
      (p : DecryptRequest Ciphertext)
      → IsUuid p.user_set_id
      → CiphertextFits c p.ciphertext
      → Reads (recv_decrypt_request c) (send_decrypt_request c) p
  unfolding recv_decrypt_request send_decrypt_request
  recv-send_decrypt_request p hu hc rest =
      rw (recv-send_uuid p.user_set_id hu, recv-send_ciphertext c l p.ciphertext hc) refl

  pub recv-send_send_decryption_part_request :
      (p : SendDecryptionPartRequest Element)
      → IsUuid p.op_id
      → ElementFits c p.decryption_part
      → Reads (recv_send_decryption_part_request c) (send_send_decryption_part_request c) p
  unfolding recv_send_decryption_part_request send_send_decryption_part_request
  recv-send_send_decryption_part_request p ho hp rest =
      rw (recv-send_uuid p.op_id ho, recv-send_ecgroup_elem c l p.decryption_part hp) refl
