-- ===== src/Wire/Encrypted/Requests/RoundTrip.antt =====
-- That requests are read as they were written (common/EncryptedPacketHandler.cpp).
use shared_encryption.Base.{◌<◌, refl, length, All}
use shared_encryption.Packets.{
  SignupRequest, LoginRequest, MakeUserSetRequest, GetMembersRequest, DecryptRequest,
  DecryptParticipateRequest, SendDecryptionPartRequest,
}
use shared_encryption.Wire.BigInt.{BigIntCodec, IsLawful}
use shared_encryption.Wire.Bytes.{Reads, read-put_string}
use shared_encryption.Wire.Elements.{
  Element, Ciphertext, ElementFits, CiphertextFits, read-put_element, read-put_ciphertext,
}
use shared_encryption.Wire.Values.{IsText, IsUuid, read-put_count, read-put_uuid, read-put_names}
use shared_encryption.Wire.Encrypted.Requests.{
  put_signup_request, read_signup_request, put_login_request, read_login_request,
  put_make_user_set_request, read_make_user_set_request, put_get_members_request,
  read_get_members_request, put_decrypt_request, read_decrypt_request,
  put_decrypt_participate_request, read_decrypt_participate_request,
  put_send_decryption_part_request, read_send_decryption_part_request,
}

-- The names and the password of a request have no zeros.
pub record MakeUserSetFits (p : MakeUserSetRequest) : Type 0 where
  pub owners_fit : All IsText p.owners
  pub reg_members_fit : All IsText p.reg_members
  pub owners_threshold_fits : p.owners_threshold < 256
  pub reg_members_threshold_fits : p.reg_members_threshold < 256
  pub owners_count : length p.owners < 256
  pub reg_members_count : length p.reg_members < 256

pub read-put_signup_request :
    (p : SignupRequest)
    → IsText p.username
    → IsText p.password
    → Reads read_signup_request put_signup_request p
unfolding read_signup_request put_signup_request
read-put_signup_request p hu hp rest =
    rw (read-put_string p.username hu, read-put_string p.password hp) refl

pub read-put_login_request :
    (p : LoginRequest)
    → IsText p.username
    → IsText p.password
    → Reads read_login_request put_login_request p
unfolding read_login_request put_login_request
read-put_login_request p hu hp rest =
    rw (read-put_string p.username hu, read-put_string p.password hp) refl

pub read-put_make_user_set_request :
    (p : MakeUserSetRequest)
    → MakeUserSetFits p
    → Reads read_make_user_set_request put_make_user_set_request p
unfolding read_make_user_set_request put_make_user_set_request
read-put_make_user_set_request p h rest =
    rw
      (
        read-put_count p.owners_threshold h.owners_threshold_fits,
        read-put_count p.reg_members_threshold h.reg_members_threshold_fits,
        read-put_count (length p.owners) h.owners_count,
        read-put_count (length p.reg_members) h.reg_members_count,
        read-put_names p.owners h.owners_fit,
        read-put_names p.reg_members h.reg_members_fit,
      )
      refl

pub read-put_get_members_request :
    (p : GetMembersRequest)
    → IsUuid p.user_set_id
    → Reads read_get_members_request put_get_members_request p
unfolding read_get_members_request put_get_members_request
read-put_get_members_request p h rest = rw (read-put_uuid p.user_set_id h) refl

pub read-put_decrypt_participate_request :
    (p : DecryptParticipateRequest)
    → IsUuid p.op_id
    → Reads read_decrypt_participate_request put_decrypt_participate_request p
unfolding read_decrypt_participate_request put_decrypt_participate_request
read-put_decrypt_participate_request p h rest = rw (read-put_uuid p.op_id h) refl

module _ (c : BigIntCodec) (l : IsLawful c) where
  pub read-put_decrypt_request :
      (p : DecryptRequest Ciphertext)
      → IsUuid p.user_set_id
      → CiphertextFits c p.ciphertext
      → Reads (read_decrypt_request c) (put_decrypt_request c) p
  unfolding read_decrypt_request put_decrypt_request
  read-put_decrypt_request p hu hc rest =
      rw (read-put_uuid p.user_set_id hu, read-put_ciphertext c l p.ciphertext hc) refl

  pub read-put_send_decryption_part_request :
      (p : SendDecryptionPartRequest Element)
      → IsUuid p.op_id
      → ElementFits c p.decryption_part
      → Reads (read_send_decryption_part_request c) (put_send_decryption_part_request c) p
  unfolding read_send_decryption_part_request put_send_decryption_part_request
  read-put_send_decryption_part_request p ho hp rest =
      rw (read-put_uuid p.op_id ho, read-put_element c l p.decryption_part hp) refl
