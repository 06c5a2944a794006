-- ===== src/Wire/Kinds.antt =====
-- The types of packets that common/packets.hpp gives a code, by their kind: what the template
-- arguments of `recv_request` and `recv_response` (common/PacketHandler.hpp) choose from.
use shared_encryption.Base.{
  ℕ, zero, suc, [], ◌∷◌, ◌≡◌, refl, sym, ap, ◌∙◌, List, Option, none, some,
}
use shared_encryption.Server.Updates.{UpdateResponse}
use shared_encryption.Packets.{
  Code, error_response_code, signup_request_code, signup_response_code, login_request_code,
  login_response_code, logout_request_code, logout_response_code, make_user_set_request_code,
  make_user_set_response_code, get_user_sets_request_code, get_user_sets_response_code,
  get_members_request_code, get_members_response_code, decrypt_request_code, decrypt_response_code,
  update_request_code, update_response_code, decrypt_participate_request_code,
  decrypt_participate_response_code, send_decryption_part_request_code,
  send_decryption_part_response_code, SignupRequest, SignupResponse, LoginRequest, LoginResponse,
  LogoutRequest, LogoutResponse, MakeUserSetRequest, MakeUserSetResponse, GetUserSetsRequest,
  GetUserSetsResponse, GetMembersRequest, GetMembersResponse, DecryptRequest, DecryptResponse,
  UpdateRequest, DecryptParticipateRequest, DecryptParticipateResponse, SendDecryptionPartRequest,
  SendDecryptionPartResponse,
}
use shared_encryption.Wire.Elements.{Element, Ciphertext}
use shared_encryption.Wire.Exchange.{code_byte}

abbrev at : {A : Type 0} → List (Option A) → ℕ → Option A
at [] n = none
at (a ∷ others) zero = a
at (a ∷ others) (suc n) = at others n

some_injective : {A : Type 0} {a b : A} → Path (Option A) (some a) (some b) → a ≡ b
some_injective e = cc

-- The requests, as the overloads of `send_request_data` take them.
pub data RequestPacket : Type 0 where
  signup_request_packet : SignupRequest → RequestPacket
  login_request_packet : LoginRequest → RequestPacket
  logout_request_packet : LogoutRequest → RequestPacket
  make_user_set_request_packet : MakeUserSetRequest → RequestPacket
  get_user_sets_request_packet : GetUserSetsRequest → RequestPacket
  get_members_request_packet : GetMembersRequest → RequestPacket
  decrypt_request_packet : DecryptRequest Ciphertext → RequestPacket
  update_request_packet : UpdateRequest → RequestPacket
  decrypt_participate_request_packet : DecryptParticipateRequest → RequestPacket
  send_decryption_part_request_packet : SendDecryptionPartRequest Element → RequestPacket

-- The types among which `recv_request` is asked for some.
pub data RequestKind : Type 0 where
  signup_request_kind login_request_kind logout_request_kind make_user_set_request_kind
        get_user_sets_request_kind get_members_request_kind decrypt_request_kind update_request_kind
        decrypt_participate_request_kind send_decryption_part_request_kind :
      RequestKind

-- `T::CODE`
abbrev pub request_code : RequestKind → Code
request_code signup_request_kind = signup_request_code
request_code login_request_kind = login_request_code
request_code logout_request_kind = logout_request_code
request_code make_user_set_request_kind = make_user_set_request_code
request_code get_user_sets_request_kind = get_user_sets_request_code
request_code get_members_request_kind = get_members_request_code
request_code decrypt_request_kind = decrypt_request_code
request_code update_request_kind = update_request_code
request_code decrypt_participate_request_kind = decrypt_participate_request_code
request_code send_decryption_part_request_kind = send_decryption_part_request_code

abbrev pub request_kind : RequestPacket → RequestKind
request_kind (signup_request_packet p) = signup_request_kind
request_kind (login_request_packet p) = login_request_kind
request_kind (logout_request_packet p) = logout_request_kind
request_kind (make_user_set_request_packet p) = make_user_set_request_kind
request_kind (get_user_sets_request_packet p) = get_user_sets_request_kind
request_kind (get_members_request_packet p) = get_members_request_kind
request_kind (decrypt_request_packet p) = decrypt_request_kind
request_kind (update_request_packet p) = update_request_kind
request_kind (decrypt_participate_request_packet p) = decrypt_participate_request_kind
request_kind (send_decryption_part_request_packet p) = send_decryption_part_request_kind

abbrev request_kind_at : ℕ → Option RequestKind
request_kind_at n =
    at
      (none
        ∷ some signup_request_kind
        ∷ none
        ∷ some login_request_kind
        ∷ none
        ∷ some logout_request_kind
        ∷ none
        ∷ some make_user_set_request_kind
        ∷ none
        ∷ some get_user_sets_request_kind
        ∷ none
        ∷ some get_members_request_kind
        ∷ none
        ∷ some decrypt_request_kind
        ∷ none
        ∷ some update_request_kind
        ∷ none
        ∷ some decrypt_participate_request_kind
        ∷ none
        ∷ some send_decryption_part_request_kind
        ∷ [])
      n

request_kind-code : (k : RequestKind) → request_kind_at (code_byte (request_code k)) ≡ some k
request_kind-code signup_request_kind = refl
request_kind-code login_request_kind = refl
request_kind-code logout_request_kind = refl
request_kind-code make_user_set_request_kind = refl
request_kind-code get_user_sets_request_kind = refl
request_kind-code get_members_request_kind = refl
request_kind-code decrypt_request_kind = refl
request_kind-code update_request_kind = refl
request_kind-code decrypt_participate_request_kind = refl
request_kind-code send_decryption_part_request_kind = refl

pub request_code_injective :
    (j k : RequestKind) → code_byte (request_code j) ≡ code_byte (request_code k) → j ≡ k
request_code_injective j k e =
    some_injective (sym (request_kind-code j) ∙ ap request_kind_at e ∙ request_kind-code k)

-- The responses, as the overloads of `send_response_data` take them: of an `ErrorResponse`, the message.
pub data ResponsePacket : Type 0 where
  error_response_packet : List ℕ → ResponsePacket
  signup_response_packet : SignupResponse → ResponsePacket
  login_response_packet : LoginResponse → ResponsePacket
  logout_response_packet : LogoutResponse → ResponsePacket
  make_user_set_response_packet : MakeUserSetResponse Element → ResponsePacket
  get_user_sets_response_packet : GetUserSetsResponse → ResponsePacket
  get_members_response_packet : GetMembersResponse → ResponsePacket
  decrypt_response_packet : DecryptResponse → ResponsePacket
  update_response_packet : UpdateResponse Element Ciphertext Element → ResponsePacket
  decrypt_participate_response_packet : DecryptParticipateResponse → ResponsePacket
  send_decryption_part_response_packet : SendDecryptionPartResponse → ResponsePacket

-- The types among which `recv_response` is asked for some.
pub data ResponseKind : Type 0 where
  error_response_kind signup_response_kind login_response_kind logout_response_kind
        make_user_set_response_kind get_user_sets_response_kind get_members_response_kind
        decrypt_response_kind update_response_kind decrypt_participate_response_kind
        send_decryption_part_response_kind :
      ResponseKind

-- `T::CODE`
abbrev pub response_code : ResponseKind → Code
response_code error_response_kind = error_response_code
response_code signup_response_kind = signup_response_code
response_code login_response_kind = login_response_code
response_code logout_response_kind = logout_response_code
response_code make_user_set_response_kind = make_user_set_response_code
response_code get_user_sets_response_kind = get_user_sets_response_code
response_code get_members_response_kind = get_members_response_code
response_code decrypt_response_kind = decrypt_response_code
response_code update_response_kind = update_response_code
response_code decrypt_participate_response_kind = decrypt_participate_response_code
response_code send_decryption_part_response_kind = send_decryption_part_response_code

abbrev pub response_kind : ResponsePacket → ResponseKind
response_kind (error_response_packet p) = error_response_kind
response_kind (signup_response_packet p) = signup_response_kind
response_kind (login_response_packet p) = login_response_kind
response_kind (logout_response_packet p) = logout_response_kind
response_kind (make_user_set_response_packet p) = make_user_set_response_kind
response_kind (get_user_sets_response_packet p) = get_user_sets_response_kind
response_kind (get_members_response_packet p) = get_members_response_kind
response_kind (decrypt_response_packet p) = decrypt_response_kind
response_kind (update_response_packet p) = update_response_kind
response_kind (decrypt_participate_response_packet p) = decrypt_participate_response_kind
response_kind (send_decryption_part_response_packet p) = send_decryption_part_response_kind

abbrev response_kind_at : ℕ → Option ResponseKind
response_kind_at n =
    at
      (some error_response_kind
        ∷ none
        ∷ some signup_response_kind
        ∷ none
        ∷ some login_response_kind
        ∷ none
        ∷ some logout_response_kind
        ∷ none
        ∷ some make_user_set_response_kind
        ∷ none
        ∷ some get_user_sets_response_kind
        ∷ none
        ∷ some get_members_response_kind
        ∷ none
        ∷ some decrypt_response_kind
        ∷ none
        ∷ some update_response_kind
        ∷ none
        ∷ some decrypt_participate_response_kind
        ∷ none
        ∷ some send_decryption_part_response_kind
        ∷ [])
      n

response_kind-code : (k : ResponseKind) → response_kind_at (code_byte (response_code k)) ≡ some k
response_kind-code error_response_kind = refl
response_kind-code signup_response_kind = refl
response_kind-code login_response_kind = refl
response_kind-code logout_response_kind = refl
response_kind-code make_user_set_response_kind = refl
response_kind-code get_user_sets_response_kind = refl
response_kind-code get_members_response_kind = refl
response_kind-code decrypt_response_kind = refl
response_kind-code update_response_kind = refl
response_kind-code decrypt_participate_response_kind = refl
response_kind-code send_decryption_part_response_kind = refl

pub response_code_injective :
    (j k : ResponseKind) → code_byte (response_code j) ≡ code_byte (response_code k) → j ≡ k
response_code_injective j k e =
    some_injective (sym (response_kind-code j) ∙ ap response_kind_at e ∙ response_kind-code k)
