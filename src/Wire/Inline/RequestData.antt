-- ===== src/Wire/Inline/RequestData.antt =====
-- Whole requests by common/InlinePacketHandler.cpp, under `send_request` and `recv_request` of
-- common/PacketHandler.hpp.
use shared_encryption.Base.{ℕ, ◌≡◌, refl, ap, List, ◌∷◌, ◌++◌, Option, some}
use shared_encryption.Base.Outcome.{Outcome, ok, ◌>>=◌}
use shared_encryption.Packets.{logout_request, get_user_sets_request, update_request}
use shared_encryption.Wire.BigInt.{BigIntCodec, IsLawful}
use shared_encryption.Wire.Exchange.{send_packet, recv_packet, received_packet}
use shared_encryption.Wire.Kinds.{
  RequestPacket, signup_request_packet, login_request_packet, logout_request_packet,
  make_user_set_request_packet, get_user_sets_request_packet, get_members_request_packet,
  decrypt_request_packet, update_request_packet, decrypt_participate_request_packet,
  send_decryption_part_request_packet, RequestKind, signup_request_kind, login_request_kind,
  logout_request_kind, make_user_set_request_kind, get_user_sets_request_kind,
  get_members_request_kind, decrypt_request_kind, update_request_kind,
  decrypt_participate_request_kind, send_decryption_part_request_kind, request_code, request_kind,
  request_code_injective,
}
use shared_encryption.Wire.Encrypted.RequestData.{RequestFits}
use shared_encryption.Wire.Inline.Requests.{
  send_signup_request, send_login_request, send_make_user_set_request, send_get_members_request,
  send_decrypt_request, send_decrypt_participate_request, send_send_decryption_part_request,
  recv_signup_request, recv_login_request, recv_make_user_set_request, recv_get_members_request,
  recv_decrypt_request, recv_decrypt_participate_request, recv_send_decryption_part_request,
}
use shared_encryption.Wire.Inline.Requests.RoundTrip.{
  recv-send_signup_request, recv-send_login_request, recv-send_make_user_set_request,
  recv-send_get_members_request, recv-send_decrypt_request, recv-send_decrypt_participate_request,
  recv-send_send_decryption_part_request,
}
use shared_encryption.Wire.Socket.Pieces.{Pieces, HasChunks}
use shared_encryption.Wire.Inline.Values.{recv_as}

module _ (c : BigIntCodec) where
  unfoldable pub send_inline_request_data : RequestPacket → List ℕ → List ℕ
  send_inline_request_data (signup_request_packet p) rest = send_signup_request p rest
  send_inline_request_data (login_request_packet p) rest = send_login_request p rest
  send_inline_request_data (logout_request_packet p) rest = rest
  send_inline_request_data (make_user_set_request_packet p) rest = send_make_user_set_request p rest
  send_inline_request_data (get_user_sets_request_packet p) rest = rest
  send_inline_request_data (get_members_request_packet p) rest = send_get_members_request p rest
  send_inline_request_data (decrypt_request_packet p) rest = send_decrypt_request c p rest
  send_inline_request_data (update_request_packet p) rest = rest
  send_inline_request_data (decrypt_participate_request_packet p) rest =
      send_decrypt_participate_request p rest
  send_inline_request_data (send_decryption_part_request_packet p) rest =
      send_send_decryption_part_request c p rest

  unfoldable pub recv_inline_request_data :
      Pieces → RequestKind → List ℕ → Outcome (RequestPacket × List ℕ)
  recv_inline_request_data piece signup_request_kind sock =
      recv_as signup_request_packet (recv_signup_request piece sock)
  recv_inline_request_data piece login_request_kind sock =
      recv_as login_request_packet (recv_login_request piece sock)
  recv_inline_request_data piece logout_request_kind sock =
      ok (logout_request_packet logout_request, sock)
  recv_inline_request_data piece make_user_set_request_kind sock =
      recv_as make_user_set_request_packet (recv_make_user_set_request piece sock)
  recv_inline_request_data piece get_user_sets_request_kind sock =
      ok (get_user_sets_request_packet get_user_sets_request, sock)
  recv_inline_request_data piece get_members_request_kind sock =
      recv_as get_members_request_packet (recv_get_members_request sock)
  recv_inline_request_data piece decrypt_request_kind sock =
      recv_as decrypt_request_packet (recv_decrypt_request c sock)
  recv_inline_request_data piece update_request_kind sock =
      ok (update_request_packet update_request, sock)
  recv_inline_request_data piece decrypt_participate_request_kind sock =
      recv_as decrypt_participate_request_packet (recv_decrypt_participate_request sock)
  recv_inline_request_data piece send_decryption_part_request_kind sock =
      recv_as send_decryption_part_request_packet (recv_send_decryption_part_request c sock)

  -- `send_request`
  unfoldable pub send_inline_request : RequestPacket → List ℕ → Outcome (List ℕ)
  send_inline_request p rest =
      send_packet (request_code (request_kind p)) (ok (send_inline_request_data p rest))

  -- `recv_request`
  unfoldable pub recv_inline_request :
      Pieces → List RequestKind → List ℕ → Outcome (Option RequestPacket × List ℕ)
  recv_inline_request piece kinds sock =
      recv_packet request_code (recv_inline_request_data piece) kinds sock

module _ (c : BigIntCodec) (l : IsLawful c) (rest : List ℕ) (piece : Pieces)
    (full : HasChunks piece) where
  inline_request_received :
      (p : RequestPacket)
      → RequestFits c p
      → recv_inline_request_data c piece (request_kind p) (send_inline_request_data c p rest)
        ≡ ok (p, rest)
  unfolding send_inline_request_data recv_inline_request_data
  inline_request_received (signup_request_packet p) h =
      ap (recv_as signup_request_packet) (recv-send_signup_request piece full p h.0 h.1 rest)
  inline_request_received (login_request_packet p) h =
      ap (recv_as login_request_packet) (recv-send_login_request piece full p h.0 h.1 rest)
  inline_request_received (logout_request_packet logout_request) h = refl
  inline_request_received (make_user_set_request_packet p) h =
      ap (recv_as make_user_set_request_packet)
        (recv-send_make_user_set_request piece full p h rest)
  inline_request_received (get_user_sets_request_packet get_user_sets_request) h = refl
  inline_request_received (get_members_request_packet p) h =
      ap (recv_as get_members_request_packet) (recv-send_get_members_request p h rest)
  inline_request_received (decrypt_request_packet p) h =
      ap (recv_as decrypt_request_packet) (recv-send_decrypt_request c l p h.0 h.1 rest)
  inline_request_received (update_request_packet update_request) h = refl
  inline_request_received (decrypt_participate_request_packet p) h =
      ap (recv_as decrypt_participate_request_packet)
        (recv-send_decrypt_participate_request p h rest)
  inline_request_received (send_decryption_part_request_packet p) h =
      ap (recv_as send_decryption_part_request_packet)
        (recv-send_send_decryption_part_request c l p h.0 h.1 rest)

  -- Under the laws of the big integers, and if in each round in which a string is received a chunk's
  -- worth of bytes, or all that is still to come, is at hand: a request that was sent without
  -- encryption is received by a receiver that accepts its type (among others), with nothing of it
  -- left, if it fits its format.
  pub recv_inline_request-send_inline_request :
      (before after : List RequestKind) (p : RequestPacket)
      → RequestFits c p
      → (send_inline_request c p rest
          >>= recv_inline_request c piece (before ++ request_kind p ∷ after))
        ≡ ok (some p, rest)
  unfolding send_inline_request recv_inline_request
  recv_inline_request-send_inline_request before after p h =
      received_packet request_code (recv_inline_request_data c piece) request_code_injective
        (request_kind p) before after (ok (send_inline_request_data c p rest)) rest p
        (inline_request_received p h)
