-- ===== src/Wire/Encrypted/RequestData.antt =====
-- Whole requests through an encrypted connection: `send_request_data` and `recv_request_data` of
-- common/EncryptedPacketHandler.cpp under `send_request` and `recv_request` of common/PacketHandler.hpp.
use shared_encryption.Base.{ℕ, ◌≡◌, ◌≢◌, refl, List, [], ◌∷◌, ◌++◌, Option, none, some, All}
use shared_encryption.Base.Outcome.{Outcome, ok, ◌>>=◌}
use shared_encryption.Packets.{get_user_sets_request, logout_request, update_request}
use shared_encryption.Wire.BigInt.{BigIntCodec, IsLawful}
use shared_encryption.Wire.Elements.{ElementFits, CiphertextFits}
use shared_encryption.Wire.Values.{IsText, IsUuid}
use shared_encryption.Wire.Channel.{
  Cipher, send_payload, recv_payload, PayloadOpens, recv_payload-send,
}
use shared_encryption.Wire.Exchange.{send_packet, recv_packet, received_packet, recv_packet-refused}
use shared_encryption.Wire.Kinds.{
  RequestPacket, signup_request_packet, login_request_packet, logout_request_packet,
  make_user_set_request_packet, get_user_sets_request_packet, get_members_request_packet,
  decrypt_request_packet, update_request_packet, decrypt_participate_request_packet,
  send_decryption_part_request_packet, RequestKind, signup_request_kind, login_request_kind,
  logout_request_kind, make_user_set_request_kind, get_user_sets_request_kind,
  get_members_request_kind, decrypt_request_kind, update_request_kind,
  decrypt_participate_request_kind, send_decryption_part_request_kind, request_code, request_kind,
  request_code_injective,
}
use shared_encryption.Wire.Encrypted.Requests.{
  put_signup_request, put_login_request, put_make_user_set_request, put_get_members_request,
  put_decrypt_request, put_decrypt_participate_request, put_send_decryption_part_request,
  read_signup_request, read_login_request, read_make_user_set_request, read_get_members_request,
  read_decrypt_request, read_decrypt_participate_request, read_send_decryption_part_request,
}
use shared_encryption.Wire.Encrypted.Requests.RoundTrip.{
  read-put_signup_request, read-put_login_request, read-put_make_user_set_request,
  read-put_get_members_request, read-put_decrypt_request, read-put_decrypt_participate_request,
  read-put_send_decryption_part_request, MakeUserSetFits,
}

-- What `send_request_data` encrypts; for a packet without fields it sends nothing.
abbrev pub request_payload : (c : BigIntCodec) → RequestPacket → Option (List ℕ)
request_payload c (signup_request_packet p) = some (put_signup_request p [])
request_payload c (login_request_packet p) = some (put_login_request p [])
request_payload c (logout_request_packet p) = none
request_payload c (make_user_set_request_packet p) = some (put_make_user_set_request p [])
request_payload c (get_user_sets_request_packet p) = none
request_payload c (get_members_request_packet p) = some (put_get_members_request p [])
request_payload c (decrypt_request_packet p) = some (put_decrypt_request c p [])
request_payload c (update_request_packet p) = none
request_payload c (decrypt_participate_request_packet p) =
    some (put_decrypt_participate_request p [])
request_payload c (send_decryption_part_request_packet p) =
    some (put_send_decryption_part_request c p [])

-- The writers' conditions on the packet: its texts have no zeros, and its numbers fit into the bytes
-- they are given.
abbrev pub RequestFits : (c : BigIntCodec) → RequestPacket → Type 0
RequestFits c (signup_request_packet p) = IsText p.username × IsText p.password
RequestFits c (login_request_packet p) = IsText p.username × IsText p.password
RequestFits c (logout_request_packet p) = Unit {0}
RequestFits c (make_user_set_request_packet p) = MakeUserSetFits p
RequestFits c (get_user_sets_request_packet p) = Unit {0}
RequestFits c (get_members_request_packet p) = IsUuid p.user_set_id
RequestFits c (decrypt_request_packet p) = IsUuid p.user_set_id × CiphertextFits c p.ciphertext
RequestFits c (update_request_packet p) = Unit {0}
RequestFits c (decrypt_participate_request_packet p) = IsUuid p.op_id
RequestFits c (send_decryption_part_request_packet p) =
    IsUuid p.op_id × ElementFits c p.decryption_part

module _ {Seed : Type 0} (e : Cipher Seed) (c : BigIntCodec) where
  unfoldable pub send_request_data : Seed → RequestPacket → List ℕ → Outcome (List ℕ)
  send_request_data seed p rest = send_payload e seed (request_payload c p) rest

  unfoldable pub recv_request_data : RequestKind → List ℕ → Outcome (RequestPacket × List ℕ)
  recv_request_data signup_request_kind sock =
      recv_payload e read_signup_request signup_request_packet sock
  recv_request_data login_request_kind sock =
      recv_payload e read_login_request login_request_packet sock
  recv_request_data logout_request_kind sock = ok (logout_request_packet logout_request, sock)
  recv_request_data make_user_set_request_kind sock =
      recv_payload e read_make_user_set_request make_user_set_request_packet sock
  recv_request_data get_user_sets_request_kind sock =
      ok (get_user_sets_request_packet get_user_sets_request, sock)
  recv_request_data get_members_request_kind sock =
      recv_payload e read_get_members_request get_members_request_packet sock
  recv_request_data decrypt_request_kind sock =
      recv_payload e (read_decrypt_request c) decrypt_request_packet sock
  recv_request_data update_request_kind sock = ok (update_request_packet update_request, sock)
  recv_request_data decrypt_participate_request_kind sock =
      recv_payload e read_decrypt_participate_request decrypt_participate_request_packet sock
  recv_request_data send_decryption_part_request_kind sock =
      recv_payload e (read_send_decryption_part_request c) send_decryption_part_request_packet sock

  -- `send_request`
  unfoldable pub send_request : Seed → RequestPacket → List ℕ → Outcome (List ℕ)
  send_request seed p rest =
      send_packet (request_code (request_kind p)) (send_request_data seed p rest)

  -- `recv_request`
  unfoldable pub recv_request : List RequestKind → List ℕ → Outcome (Option RequestPacket × List ℕ)
  recv_request kinds sock = recv_packet request_code recv_request_data kinds sock

module _ {Seed : Type 0} (e : Cipher Seed) (c : BigIntCodec) (l : IsLawful c) (seed : Seed)
    (rest : List ℕ) where
  request_data_received :
      (p : RequestPacket)
      → RequestFits c p
      → PayloadOpens e seed (request_payload c p)
      → (send_request_data e c seed p rest >>= recv_request_data e c (request_kind p))
        ≡ ok (p, rest)
  unfolding send_request_data recv_request_data
  request_data_received (signup_request_packet p) h s =
      recv_payload-send e seed rest read_signup_request put_signup_request signup_request_packet p s
        (read-put_signup_request p h.0 h.1)
  request_data_received (login_request_packet p) h s =
      recv_payload-send e seed rest read_login_request put_login_request login_request_packet p s
        (read-put_login_request p h.0 h.1)
  request_data_received (logout_request_packet logout_request) h s = refl
  request_data_received (make_user_set_request_packet p) h s =
      recv_payload-send e seed rest read_make_user_set_request put_make_user_set_request
        make_user_set_request_packet p s (read-put_make_user_set_request p h)
  request_data_received (get_user_sets_request_packet get_user_sets_request) h s = refl
  request_data_received (get_members_request_packet p) h s =
      recv_payload-send e seed rest read_get_members_request put_get_members_request
        get_members_request_packet p s (read-put_get_members_request p h)
  request_data_received (decrypt_request_packet p) h s =
      recv_payload-send e seed rest (read_decrypt_request c) (put_decrypt_request c)
        decrypt_request_packet p s (read-put_decrypt_request c l p h.0 h.1)
  request_data_received (update_request_packet update_request) h s = refl
  request_data_received (decrypt_participate_request_packet p) h s =
      recv_payload-send e seed rest read_decrypt_participate_request put_decrypt_participate_request
        decrypt_participate_request_packet p s (read-put_decrypt_participate_request p h)
  request_data_received (send_decryption_part_request_packet p) h s =
      recv_payload-send e seed rest (read_send_decryption_part_request c)
        (put_send_decryption_part_request c) send_decryption_part_request_packet p s
        (read-put_send_decryption_part_request c l p h.0 h.1)

  -- Under the laws of the big integers: a request that was sent is received by a receiver that accepts
  -- its type (among others), with nothing of it left, if it fits its format and the cipher opens
  -- what it seals.
  pub recv_request-send_request :
      (before after : List RequestKind) (p : RequestPacket)
      → RequestFits c p
      → PayloadOpens e seed (request_payload c p)
      → (send_request e c seed p rest >>= recv_request e c (before ++ request_kind p ∷ after))
        ≡ ok (some p, rest)
  unfolding send_request recv_request
  recv_request-send_request before after p h s =
      received_packet request_code (recv_request_data e c) request_code_injective (request_kind p)
        before after (send_request_data e c seed p rest) rest p (request_data_received p h s)

  -- Under the laws of the big integers: of a request whose data can be sent, but whose type the
  -- receiver does not accept, only the code is received: the data stays in the socket.
  pub recv_request_refused :
      (kinds : List RequestKind) (p : RequestPacket) (sent : List ℕ)
      → All (λ k. k ≢ request_kind p) kinds
      → send_request_data e c seed p rest ≡ ok sent
      → (send_request e c seed p rest >>= recv_request e c kinds) ≡ ok (none, sent)
  unfolding send_request recv_request send_packet
  recv_request_refused kinds p sent h s = rw s (
      recv_packet-refused request_code (recv_request_data e c) request_code_injective
        (request_kind p) kinds sent h)
