-- ===== src/Wire/Exchange.antt =====
-- common/PacketHandler.hpp: a packet is sent as its code, in one byte, and its data; of the packets
-- that a receiver accepts, the one with the code that came is received. What is sent is put
-- before `rest`, as in Channel.
use shared_encryption.Base.{
  ℕ, ◌≡◌, ◌≢◌, refl, sym, true, List, [], ◌∷◌, ◌++◌, Option, none, some, ◌==◌, if◌then◌else◌, All,
  arith, ◌<◌, Bool-cases, inl, inr, subst,
}
use shared_encryption.Base.Outcome.{Outcome, ok, throw, undefined, starved, ◌>>=◌}
use shared_encryption.Packets.{
  Code, error_response_code, signup_request_code, signup_response_code, login_request_code,
  login_response_code, logout_request_code, logout_response_code, make_user_set_request_code,
  make_user_set_response_code, get_user_sets_request_code, get_user_sets_response_code,
  get_members_request_code, get_members_response_code, decrypt_request_code, decrypt_response_code,
  update_request_code, update_response_code, decrypt_participate_request_code,
  decrypt_participate_response_code, send_decryption_part_request_code,
  send_decryption_part_response_code,
}
use shared_encryption.Wire.Bytes.{put_primitive}
use shared_encryption.Wire.Channel.{recv_primitive, recv-put_primitive}

-- The enumerators' numbers.
abbrev pub code_byte : Code → ℕ
code_byte error_response_code = 0
code_byte signup_request_code = 1
code_byte signup_response_code = 2
code_byte login_request_code = 3
code_byte login_response_code = 4
code_byte logout_request_code = 5
code_byte logout_response_code = 6
code_byte make_user_set_request_code = 7
code_byte make_user_set_response_code = 8
code_byte get_user_sets_request_code = 9
code_byte get_user_sets_response_code = 10
code_byte get_members_request_code = 11
code_byte get_members_response_code = 12
code_byte decrypt_request_code = 13
code_byte decrypt_response_code = 14
code_byte update_request_code = 15
code_byte update_response_code = 16
code_byte decrypt_participate_request_code = 17
code_byte decrypt_participate_response_code = 18
code_byte send_decryption_part_request_code = 19
code_byte send_decryption_part_response_code = 20

code_byte_small : (t : Code) → code_byte t < 256
code_byte_small error_response_code = omega arith
code_byte_small signup_request_code = omega arith
code_byte_small signup_response_code = omega arith
code_byte_small login_request_code = omega arith
code_byte_small login_response_code = omega arith
code_byte_small logout_request_code = omega arith
code_byte_small logout_response_code = omega arith
code_byte_small make_user_set_request_code = omega arith
code_byte_small make_user_set_response_code = omega arith
code_byte_small get_user_sets_request_code = omega arith
code_byte_small get_user_sets_response_code = omega arith
code_byte_small get_members_request_code = omega arith
code_byte_small get_members_response_code = omega arith
code_byte_small decrypt_request_code = omega arith
code_byte_small decrypt_response_code = omega arith
code_byte_small update_request_code = omega arith
code_byte_small update_response_code = omega arith
code_byte_small decrypt_participate_request_code = omega arith
code_byte_small decrypt_participate_response_code = omega arith
code_byte_small send_decryption_part_request_code = omega arith
code_byte_small send_decryption_part_response_code = omega arith

same_test : (n : ℕ) → (n == n) ≡ true
same_test n = ground arith

test_eq : (m n : ℕ) → (m == n) ≡ true → m ≡ n
test_eq m n e = ground (arith, e)

-- Of the types of packets in `kinds`, the template's arguments, each with its `CODE`.
-- `recv_packet_data` receives the data of a packet of the given type.
module _ {Kind Packet : Type 0} (code : Kind → Code)
    (recv_packet_data : Kind → List ℕ → Outcome (Packet × List ℕ)) where
  unfoldable pub recv_of : List Kind → ℕ → List ℕ → Outcome (Option Packet × List ℕ)
  recv_of [] byte sock = ok (none, sock)
  recv_of (kind ∷ kinds) byte sock =
      let others = recv_of kinds byte sock in
      if byte == code_byte (code kind)
      then (do (p, sock') ← recv_packet_data kind sock; ok (some p, sock'))
      else others

  -- `recv_request` and `recv_response`.
  unfoldable pub recv_packet : List Kind → List ℕ → Outcome (Option Packet × List ℕ)
  recv_packet kinds sock0 = do (byte, sock1) ← recv_primitive 1 sock0; recv_of kinds byte sock1

-- `send_request` and `send_response`: `payload` is what `send_request_data` or
-- `send_response_data` puts before `rest`.
unfoldable pub send_packet : Code → Outcome (List ℕ) → Outcome (List ℕ)
send_packet t payload = do bytes ← payload; ok (put_primitive 1 (code_byte t) bytes)

module _ {Kind Packet : Type 0} (code : Kind → Code)
    (recv_packet_data : Kind → List ℕ → Outcome (Packet × List ℕ))
    (code_injective : (j k : Kind) → code_byte (code j) ≡ code_byte (code k) → j ≡ k) where
  recv_of_kind :
      (kind : Kind) (before after : List Kind) (sock sock' : List ℕ) (p : Packet)
      → recv_packet_data kind sock ≡ ok (p, sock')
      → recv_of code recv_packet_data (before ++ kind ∷ after) (code_byte (code kind)) sock
        ≡ ok (some p, sock')
  unfolding recv_of
  recv_of_kind kind [] after sock sock' p e = rw (same_test (code_byte (code kind)), e) refl
  recv_of_kind kind (j ∷ before) after sock sock' p e =
      elim (Bool-cases (code_byte (code kind) == code_byte (code j))) [
        | inl t ↦
            let same =
              code_injective kind j (test_eq (code_byte (code kind)) (code_byte (code j)) t) in
            let e' = subst (λ k. recv_packet_data k sock ≡ ok (p, sock')) same e in rw (t, e') refl
        | inr f ↦ rw (f, recv_of_kind kind before after sock sock' p e) refl
      ]

  recv_of-none :
      (kind : Kind) (kinds : List Kind) (sock : List ℕ)
      → All (λ k. k ≢ kind) kinds
      → recv_of code recv_packet_data kinds (code_byte (code kind)) sock ≡ ok (none, sock)
  unfolding recv_of
  recv_of-none kind [] sock h = refl
  recv_of-none kind (j ∷ kinds) sock h =
      elim (Bool-cases (code_byte (code kind) == code_byte (code j))) [
        | inl t ↦ absurd (
            h.0 (
              sym (code_injective kind j (test_eq (code_byte (code kind)) (code_byte (code j)) t))))
        | inr f ↦ rw f (recv_of-none kind kinds sock h.1)
      ]

  -- A packet whose type is accepted is received, if its data is.
  pub recv_packet-accepted :
      (kind : Kind) (before after : List Kind) (sock sock' : List ℕ) (p : Packet)
      → recv_packet_data kind sock ≡ ok (p, sock')
      → recv_packet code recv_packet_data
          (before ++ kind ∷ after)
          (put_primitive 1 (code_byte (code kind)) sock)
        ≡ ok (some p, sock')
  unfolding recv_packet
  recv_packet-accepted kind before after sock sock' p e =
      rw (recv-put_primitive 1 (code_byte (code kind)) (code_byte_small (code kind)) sock)
        (recv_of_kind kind before after sock sock' p e)

  -- Of a packet whose type is not accepted only the code is received: its data is left.
  pub recv_packet-refused :
      (kind : Kind) (kinds : List Kind) (sock : List ℕ)
      → All (λ k. k ≢ kind) kinds
      → recv_packet code recv_packet_data kinds (put_primitive 1 (code_byte (code kind)) sock)
        ≡ ok (none, sock)
  unfolding recv_packet
  recv_packet-refused kind kinds sock h =
      rw (recv-put_primitive 1 (code_byte (code kind)) (code_byte_small (code kind)) sock)
        (recv_of-none kind kinds sock h)

  -- What was sent of a packet is received, if its data is received as sent.
  pub received_packet :
      (kind : Kind) (before after : List Kind) (payload : Outcome (List ℕ)) (rest : List ℕ)
      (p : Packet)
      → (payload >>= recv_packet_data kind) ≡ ok (p, rest)
      → (send_packet (code kind) payload
          >>= recv_packet code recv_packet_data (before ++ kind ∷ after))
        ≡ ok (some p, rest)
  unfolding send_packet
  received_packet kind before after (ok sock) rest p e =
      recv_packet-accepted kind before after sock rest p e
  received_packet kind before after (throw x) rest p e = absurd (cc e)
  received_packet kind before after undefined rest p e = absurd (cc e)
  received_packet kind before after starved rest p e = absurd (cc e)
