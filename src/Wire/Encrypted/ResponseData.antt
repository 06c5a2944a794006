-- ===== src/Wire/Encrypted/ResponseData.antt =====
-- Whole responses through an encrypted connection: `send_response_data` and `recv_response_data` of
-- common/EncryptedPacketHandler.cpp under `send_response` and `recv_response` of common/PacketHandler.hpp.
use shared_encryption.Base.{
  ℕ, ◌<◌, ◌≡◌, ◌≢◌, refl, List, [], ◌∷◌, ◌++◌, Option, none, some, length, All,
}
use shared_encryption.Base.Outcome.{Outcome, ok, ◌>>=◌}
use shared_encryption.Packets.{logout_response, send_decryption_part_response}
use shared_encryption.Wire.BigInt.{BigIntCodec, IsLawful}
use shared_encryption.Wire.Values.{IsText, IsUuid}
use shared_encryption.Wire.Channel.{
  Cipher, send_payload, recv_payload, PayloadOpens, recv_payload-send,
}
use shared_encryption.Wire.Exchange.{send_packet, recv_packet, received_packet, recv_packet-refused}
use shared_encryption.Wire.Kinds.{
  ResponsePacket, error_response_packet, signup_response_packet, login_response_packet,
  logout_response_packet, make_user_set_response_packet, get_user_sets_response_packet,
  get_members_response_packet, decrypt_response_packet, update_response_packet,
  decrypt_participate_response_packet, send_decryption_part_response_packet, ResponseKind,
  error_response_kind, signup_response_kind, login_response_kind, logout_response_kind,
  make_user_set_response_kind, get_user_sets_response_kind, get_members_response_kind,
  decrypt_response_kind, update_response_kind, decrypt_participate_response_kind,
  send_decryption_part_response_kind, response_code, response_kind, response_code_injective,
}
use shared_encryption.Wire.Encrypted.Responses.{
  put_error_response, put_signup_response, put_login_response, put_make_user_set_response,
  put_get_user_sets_response, put_get_members_response, put_decrypt_response,
  put_decrypt_participate_response, read_error_response, read_signup_response, read_login_response,
  read_make_user_set_response, read_get_user_sets_response, read_get_members_response,
  read_decrypt_response, read_decrypt_participate_response,
}
use shared_encryption.Wire.Encrypted.Responses.RoundTrip.{
  read-put_signup_response, read-put_login_response, read-put_make_user_set_response,
  read-put_get_user_sets_response, read-put_get_members_response, read-put_decrypt_response,
  read-put_decrypt_participate_response, GetMembersFits, MakeUserSetResponseFits,
}
use shared_encryption.Wire.Bytes.{read-put_string}
use shared_encryption.Wire.Encrypted.Updates.{put_update_response, read_update_response}
use shared_encryption.Wire.Encrypted.Updates.RoundTrip.{UpdateFits, read-put_update_response}

-- What `send_response_data` encrypts; for a packet without fields it sends nothing.
abbrev pub response_payload : (c : BigIntCodec) → (q : ℕ) → ResponsePacket → Option (List ℕ)
response_payload c q (error_response_packet p) = some (put_error_response p [])
response_payload c q (signup_response_packet p) = some (put_signup_response p [])
response_payload c q (login_response_packet p) = some (put_login_response p [])
response_payload c q (logout_response_packet p) = none
response_payload c q (make_user_set_response_packet p) = some (put_make_user_set_response c q p [])
response_payload c q (get_user_sets_response_packet p) = some (put_get_user_sets_response p [])
response_payload c q (get_members_response_packet p) = some (put_get_members_response p [])
response_payload c q (decrypt_response_packet p) = some (put_decrypt_response p [])
response_payload c q (update_response_packet p) = some (put_update_response c q p [])
response_payload c q (decrypt_participate_response_packet p) =
    some (put_decrypt_participate_response p [])
response_payload c q (send_decryption_part_response_packet p) = none

-- The writers' conditions on the packet: its texts have no zeros, and its numbers fit into the bytes
-- they are given.
abbrev pub ResponseFits : (c : BigIntCodec) → (q : ℕ) → ResponsePacket → Type 0
ResponseFits c q (error_response_packet p) = IsText p
ResponseFits c q (signup_response_packet p) = Unit {0}
ResponseFits c q (login_response_packet p) = Unit {0}
ResponseFits c q (logout_response_packet p) = Unit {0}
ResponseFits c q (make_user_set_response_packet p) = MakeUserSetResponseFits c q p
ResponseFits c q (get_user_sets_response_packet p) =
    All IsUuid p.user_sets_ids × (length p.user_sets_ids < 256)
ResponseFits c q (get_members_response_packet p) = GetMembersFits p
ResponseFits c q (decrypt_response_packet p) = IsUuid p.op_id
ResponseFits c q (update_response_packet p) = UpdateFits c q p
ResponseFits c q (decrypt_participate_response_packet p) = Unit {0}
ResponseFits c q (send_decryption_part_response_packet p) = Unit {0}

module _ {Seed : Type 0} (e : Cipher Seed) (c : BigIntCodec) (q : ℕ) where
  unfoldable pub send_response_data : Seed → ResponsePacket → List ℕ → Outcome (List ℕ)
  send_response_data seed p rest = send_payload e seed (response_payload c q p) rest

  unfoldable pub recv_response_data : ResponseKind → List ℕ → Outcome (ResponsePacket × List ℕ)
  recv_response_data error_response_kind sock =
      recv_payload e read_error_response error_response_packet sock
  recv_response_data signup_response_kind sock =
      recv_payload e read_signup_response signup_response_packet sock
  recv_response_data login_response_kind sock =
      recv_payload e read_login_response login_response_packet sock
  recv_response_data logout_response_kind sock = ok (logout_response_packet logout_response, sock)
  recv_response_data make_user_set_response_kind sock =
      recv_payload e (read_make_user_set_response c q) make_user_set_response_packet sock
  recv_response_data get_user_sets_response_kind sock =
      recv_payload e read_get_user_sets_response get_user_sets_response_packet sock
  recv_response_data get_members_response_kind sock =
      recv_payload e read_get_members_response get_members_response_packet sock
  recv_response_data decrypt_response_kind sock =
      recv_payload e read_decrypt_response decrypt_response_packet sock
  recv_response_data update_response_kind sock =
      recv_payload e (read_update_response c q) update_response_packet sock
  recv_response_data decrypt_participate_response_kind sock =
      recv_payload e read_decrypt_participate_response decrypt_participate_response_packet sock
  recv_response_data send_decryption_part_response_kind sock =
      ok (send_decryption_part_response_packet send_decryption_part_response, sock)

  -- `send_response`
  unfoldable pub send_response : Seed → ResponsePacket → List ℕ → Outcome (List ℕ)
  send_response seed p rest =
      send_packet (response_code (response_kind p)) (send_response_data seed p rest)

  -- `recv_response`
  unfoldable pub recv_response :
      List ResponseKind → List ℕ → Outcome (Option ResponsePacket × List ℕ)
  recv_response kinds sock = recv_packet response_code recv_response_data kinds sock

module _ {Seed : Type 0} (e : Cipher Seed) (c : BigIntCodec) (l : IsLawful c) (q : ℕ) (seed : Seed)
    (rest : List ℕ) where
  response_data_received :
      (p : ResponsePacket)
      → ResponseFits c q p
      → PayloadOpens e seed (response_payload c q p)
      → (send_response_data e c q seed p rest >>= recv_response_data e c q (response_kind p))
        ≡ ok (p, rest)
  unfolding send_response_data recv_response_data
  response_data_received (error_response_packet p) h s =
      recv_payload-send e seed rest read_error_response put_error_response error_response_packet p s
        (read-put_string p h)
  response_data_received (signup_response_packet p) h s =
      recv_payload-send e seed rest read_signup_response put_signup_response signup_response_packet
        p s (read-put_signup_response p)
  response_data_received (login_response_packet p) h s =
      recv_payload-send e seed rest read_login_response put_login_response login_response_packet p s
        (read-put_login_response p)
  response_data_received (logout_response_packet logout_response) h s = refl
  response_data_received (make_user_set_response_packet p) h s =
      recv_payload-send e seed rest (read_make_user_set_response c q)
        (put_make_user_set_response c q) make_user_set_response_packet p s
        (read-put_make_user_set_response c l q p h)
  response_data_received (get_user_sets_response_packet p) h s =
      recv_payload-send e seed rest read_get_user_sets_response put_get_user_sets_response
        get_user_sets_response_packet p s (read-put_get_user_sets_response p h.0 h.1)
  response_data_received (get_members_response_packet p) h s =
      recv_payload-send e seed rest read_get_members_response put_get_members_response
        get_members_response_packet p s (read-put_get_members_response p h)
  response_data_received (decrypt_response_packet p) h s =
      recv_payload-send e seed rest read_decrypt_response put_decrypt_response
        decrypt_response_packet p s (read-put_decrypt_response p h)
  response_data_received (update_response_packet p) h s =
      recv_payload-send e seed rest (read_update_response c q) (put_update_response c q)
        update_response_packet p s (read-put_update_response c l q p h)
  response_data_received (decrypt_participate_response_packet p) h s =
      recv_payload-send e seed rest read_decrypt_participate_response
        put_decrypt_participate_response decrypt_participate_response_packet p s
        (read-put_decrypt_participate_response p)
  response_data_received (send_decryption_part_response_packet send_decryption_part_response) h s =
      refl

  -- Under the laws of the big integers: a response that was sent is received by a receiver that accepts
  -- its type (among others), with nothing of it left, if it fits its format and the cipher opens
  -- what it seals.
  pub recv_response-send_response :
      (before after : List ResponseKind) (p : ResponsePacket)
      → ResponseFits c q p
      → PayloadOpens e seed (response_payload c q p)
      → (send_response e c q seed p rest
          >>= recv_response e c q (before ++ response_kind p ∷ after))
        ≡ ok (some p, rest)
  unfolding send_response recv_response
  recv_response-send_response before after p h s =
      received_packet response_code (recv_response_data e c q) response_code_injective
        (response_kind p) before after (send_response_data e c q seed p rest) rest p
        (response_data_received p h s)

  -- Under the laws of the big integers: of a response whose data can be sent, but whose type the
  -- receiver does not accept, only the code is received: the data stays in the socket.
  pub recv_response_refused :
      (kinds : List ResponseKind) (p : ResponsePacket) (sent : List ℕ)
      → All (λ k. k ≢ response_kind p) kinds
      → send_response_data e c q seed p rest ≡ ok sent
      → (send_response e c q seed p rest >>= recv_response e c q kinds) ≡ ok (none, sent)
  unfolding send_response recv_response send_packet
  recv_response_refused kinds p sent h s = rw s (
      recv_packet-refused response_code (recv_response_data e c q) response_code_injective
        (response_kind p) kinds sent h)
