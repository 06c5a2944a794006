-- ===== src/Wire/Inline/ResponseData.antt =====
-- Whole responses by common/InlinePacketHandler.cpp, under `send_response` and `recv_response` of
-- common/PacketHandler.hpp.
use shared_encryption.Base.{ℕ, ◌≡◌, refl, ap, List, ◌∷◌, ◌++◌, Option, some}
use shared_encryption.Base.Outcome.{Outcome, ok, ◌>>=◌}
use shared_encryption.Packets.{logout_response, send_decryption_part_response}
use shared_encryption.Wire.BigInt.{BigIntCodec, IsLawful}
use shared_encryption.Wire.Exchange.{send_packet, recv_packet, received_packet}
use shared_encryption.Wire.Kinds.{
  ResponsePacket, error_response_packet, signup_response_packet, login_response_packet,
  logout_response_packet, make_user_set_response_packet, get_user_sets_response_packet,
  get_members_response_packet, decrypt_response_packet, update_response_packet,
  decrypt_participate_response_packet, send_decryption_part_response_packet, ResponseKind,
  error_response_kind, signup_response_kind, login_response_kind, logout_response_kind,
  make_user_set_response_kind, get_user_sets_response_kind, get_members_response_kind,
  decrypt_response_kind, update_response_kind, decrypt_participate_response_kind,
  send_decryption_part_response_kind, response_code, response_kind, response_code_injective,
}
use shared_encryption.Wire.Encrypted.ResponseData.{ResponseFits}
use shared_encryption.Wire.Inline.Responses.{
  send_error_response, send_signup_response, send_login_response, send_make_user_set_response,
  send_get_user_sets_response, send_get_members_response, send_decrypt_response,
  send_decrypt_participate_response, recv_error_response, recv_signup_response, recv_login_response,
  recv_make_user_set_response, recv_get_user_sets_response, recv_get_members_response,
  recv_decrypt_response, recv_decrypt_participate_response,
}
use shared_encryption.Wire.Inline.Responses.RoundTrip.{
  recv-send_signup_response, recv-send_login_response, recv-send_make_user_set_response,
  recv-send_get_user_sets_response, recv-send_get_members_response, recv-send_decrypt_response,
  recv-send_decrypt_participate_response,
}
use shared_encryption.Wire.Inline.Updates.{send_update_response, recv_update_response}
use shared_encryption.Wire.Inline.Updates.RoundTrip.{recv-send_update_response}
use shared_encryption.Wire.Socket.Pieces.{Pieces, HasChunks}
use shared_encryption.Wire.Inline.Values.{recv-send_string, recv_as}

module _ (c : BigIntCodec) (q : ℕ) where
  unfoldable pub send_inline_response_data : ResponsePacket → List ℕ → List ℕ
  send_inline_response_data (error_response_packet p) rest = send_error_response p rest
  send_inline_response_data (signup_response_packet p) rest = send_signup_response p rest
  send_inline_response_data (login_response_packet p) rest = send_login_response p rest
  send_inline_response_data (logout_response_packet p) rest = rest
  send_inline_response_data (make_user_set_response_packet p) rest =
      send_make_user_set_response c q p rest
  send_inline_response_data (get_user_sets_response_packet p) rest =
      send_get_user_sets_response p rest
  send_inline_response_data (get_members_response_packet p) rest = send_get_members_response p rest
  send_inline_response_data (decrypt_response_packet p) rest = send_decrypt_response p rest
  send_inline_response_data (update_response_packet p) rest = send_update_response c q p rest
  send_inline_response_data (decrypt_participate_response_packet p) rest =
      send_decrypt_participate_response p rest
  send_inline_response_data (send_decryption_part_response_packet p) rest = rest

  unfoldable pub recv_inline_response_data :
      Pieces → ResponseKind → List ℕ → Outcome (ResponsePacket × List ℕ)
  recv_inline_response_data piece error_response_kind sock =
      recv_as error_response_packet (recv_error_response piece sock)
  recv_inline_response_data piece signup_response_kind sock =
      recv_as signup_response_packet (recv_signup_response sock)
  recv_inline_response_data piece login_response_kind sock =
      recv_as login_response_packet (recv_login_response sock)
  recv_inline_response_data piece logout_response_kind sock =
      ok (logout_response_packet logout_response, sock)
  recv_inline_response_data piece make_user_set_response_kind sock =
      recv_as make_user_set_response_packet (recv_make_user_set_response c q sock)
  recv_inline_response_data piece get_user_sets_response_kind sock =
      recv_as get_user_sets_response_packet (recv_get_user_sets_response sock)
  recv_inline_response_data piece get_members_response_kind sock =
      recv_as get_members_response_packet (recv_get_members_response piece sock)
  recv_inline_response_data piece decrypt_response_kind sock =
      recv_as decrypt_response_packet (recv_decrypt_response sock)
  recv_inline_response_data piece update_response_kind sock =
      recv_as update_response_packet (recv_update_response c q sock)
  recv_inline_response_data piece decrypt_participate_response_kind sock =
      recv_as decrypt_participate_response_packet (recv_decrypt_participate_response sock)
  recv_inline_response_data piece send_decryption_part_response_kind sock =
      ok (send_decryption_part_response_packet send_decryption_part_response, sock)

  -- `send_response`
  unfoldable pub send_inline_response : ResponsePacket → List ℕ → Outcome (List ℕ)
  send_inline_response p rest =
      send_packet (response_code (response_kind p)) (ok (send_inline_response_data p rest))

  -- `recv_response`
  unfoldable pub recv_inline_response :
      Pieces → List ResponseKind → List ℕ → Outcome (Option ResponsePacket × List ℕ)
  recv_inline_response piece kinds sock =
      recv_packet response_code (recv_inline_response_data piece) kinds sock

module _ (c : BigIntCodec) (l : IsLawful c) (q : ℕ) (rest : List ℕ) (piece : Pieces)
    (full : HasChunks piece) where
  inline_response_received :
      (p : ResponsePacket)
      → ResponseFits c q p
      → recv_inline_response_data c q piece (response_kind p) (send_inline_response_data c q p rest)
        ≡ ok (p, rest)
  unfolding send_inline_response_data recv_inline_response_data
  inline_response_received (error_response_packet p) h =
      ap (recv_as error_response_packet) (recv-send_string piece full p h rest)
  inline_response_received (signup_response_packet p) h =
      ap (recv_as signup_response_packet) (recv-send_signup_response p rest)
  inline_response_received (login_response_packet p) h =
      ap (recv_as login_response_packet) (recv-send_login_response p rest)
  inline_response_received (logout_response_packet logout_response) h = refl
  inline_response_received (make_user_set_response_packet p) h =
      ap (recv_as make_user_set_response_packet) (recv-send_make_user_set_response c l q p h rest)
  inline_response_received (get_user_sets_response_packet p) h =
      ap (recv_as get_user_sets_response_packet) (recv-send_get_user_sets_response p h.0 h.1 rest)
  inline_response_received (get_members_response_packet p) h =
      ap (recv_as get_members_response_packet) (recv-send_get_members_response piece full p h rest)
  inline_response_received (decrypt_response_packet p) h =
      ap (recv_as decrypt_response_packet) (recv-send_decrypt_response p h rest)
  inline_response_received (update_response_packet p) h =
      ap (recv_as update_response_packet) (recv-send_update_response c l q p h rest)
  inline_response_received (decrypt_participate_response_packet p) h =
      ap (recv_as decrypt_participate_response_packet)
        (recv-send_decrypt_participate_response p rest)
  inline_response_received (send_decryption_part_response_packet send_decryption_part_response) h =
      refl

  -- Under the laws of the big integers, and if in each round in which a string is received a chunk's
  -- worth of bytes, or all that is still to come, is at hand: a response that was sent without
  -- encryption is received by a receiver that accepts its type (among others), with nothing of it
  -- left, if it fits its format.
  pub recv_inline_response-send_inline_response :
      (before after : List ResponseKind) (p : ResponsePacket)
      → ResponseFits c q p
      → (send_inline_response c q p rest
          >>= recv_inline_response c q piece (before ++ response_kind p ∷ after))
        ≡ ok (some p, rest)
  unfolding send_inline_response recv_inline_response
  recv_inline_response-send_inline_response before after p h =
      received_packet response_code (recv_inline_response_data c q piece) response_code_injective
        (response_kind p) before after (ok (send_inline_response_data c q p rest)) rest p
        (inline_response_received p h)
