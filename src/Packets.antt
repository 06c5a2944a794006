-- ===== src/Packets.antt =====
-- common/packets.hpp: the packets that clients and server exchange. The records inside an
-- `UpdateResponse` stand in Server/Updates.antt. The types of public keys, ciphertexts and
-- decryption parts (utils/enc) are parameters.
use shared_encryption.Base.{ℕ, List}
use shared_encryption.Server.Types.{Username, Uuid, PrivKeyShard, Exception}
use shared_encryption.Server.Updates.{UpdateResponse}

-- `enum class Code`, one byte, numbered from 0.
pub data Code : Type 0 where
  error_response_code signup_request_code signup_response_code login_request_code
        login_response_code logout_request_code logout_response_code make_user_set_request_code
        make_user_set_response_code get_user_sets_request_code get_user_sets_response_code
        get_members_request_code get_members_response_code decrypt_request_code
        decrypt_response_code update_request_code update_response_code
        decrypt_participate_request_code decrypt_participate_response_code
        send_decryption_part_request_code send_decryption_part_response_code :
      Code

-- The start of an error's message; the rest is what the exception says.
pub data Message : Type 0 where
  bad_request : Message
  failed_to_sign_up failed_to_create_userset failed_to_fetch_usersets
        failed_to_fetch_userset_members failed_to_initiate_decryption failed_to_fetch_updates
        failed_to_fetch_operation :
      Exception → Message

pub record ErrorResponse : Type 0 where
  pub msg : Message

pub record SignupRequest : Type 0 where
  pub username : Username
  pub password : List ℕ

pub data SignupStatus : Type 0 where
  signup_success username_taken : SignupStatus

pub record SignupResponse : Type 0 where
  pub status : SignupStatus

pub record LoginRequest : Type 0 where
  pub username : Username
  pub password : List ℕ

pub data LoginStatus : Type 0 where
  login_success bad_login : LoginStatus

pub record LoginResponse : Type 0 where
  pub status : LoginStatus

pub data LogoutRequest : Type 0 where
  logout_request : LogoutRequest

pub data LogoutResponse : Type 0 where
  logout_response : LogoutResponse

pub record MakeUserSetRequest : Type 0 where
  pub reg_members : List Username
  pub owners : List Username
  pub reg_members_threshold : ℕ
  pub owners_threshold : ℕ

pub record MakeUserSetResponse (PubKey : Type 0) : Type 0 where
  pub user_set_id : Uuid
  pub reg_layer_pub_key : PubKey
  pub owner_layer_pub_key : PubKey
  pub reg_layer_priv_key_shard : PrivKeyShard
  pub owner_layer_priv_key_shard : PrivKeyShard

pub data GetUserSetsRequest : Type 0 where
  get_user_sets_request : GetUserSetsRequest

pub record GetUserSetsResponse : Type 0 where
  pub user_sets_ids : List Uuid

pub record GetMembersRequest : Type 0 where
  pub user_set_id : Uuid

pub record GetMembersResponse : Type 0 where
  pub reg_members : List Username
  pub owners : List Username

pub record DecryptRequest (Ciphertext : Type 0) : Type 0 where
  pub user_set_id : Uuid
  pub ciphertext : Ciphertext

pub record DecryptResponse : Type 0 where
  pub op_id : Uuid

pub data UpdateRequest : Type 0 where
  update_request : UpdateRequest

pub record DecryptParticipateRequest : Type 0 where
  pub op_id : Uuid

pub data ParticipationStatus : Type 0 where
  send_reg_layer_part send_owner_layer_part participation_not_required : ParticipationStatus

pub record DecryptParticipateResponse : Type 0 where
  pub status : ParticipationStatus

pub record SendDecryptionPartRequest (Part : Type 0) : Type 0 where
  pub op_id : Uuid
  pub decryption_part : Part

pub data SendDecryptionPartResponse : Type 0 where
  send_decryption_part_response : SendDecryptionPartResponse

-- What `send_response` is called with.
pub data Response (PubKey Ciphertext Part : Type 0) : Type 0 where
  error : ErrorResponse → Response PubKey Ciphertext Part
  signup : SignupResponse → Response PubKey Ciphertext Part
  login : LoginResponse → Response PubKey Ciphertext Part
  logout : LogoutResponse → Response PubKey Ciphertext Part
  make_user_set : MakeUserSetResponse PubKey → Response PubKey Ciphertext Part
  get_user_sets : GetUserSetsResponse → Response PubKey Ciphertext Part
  get_members : GetMembersResponse → Response PubKey Ciphertext Part
  decrypt : DecryptResponse → Response PubKey Ciphertext Part
  update : UpdateResponse PubKey Ciphertext Part → Response PubKey Ciphertext Part
  decrypt_participate : DecryptParticipateResponse → Response PubKey Ciphertext Part
  send_decryption_part : SendDecryptionPartResponse → Response PubKey Ciphertext Part
