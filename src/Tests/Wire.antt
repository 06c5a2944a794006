-- ===== src/Tests/Wire.antt =====
-- Packets through a connection.
use shared_encryption.Base.{ℕ, zero, suc, ◌≡◌, refl, List, [], ◌∷◌, ◌++◌, none, some, repeat, arith}
use shared_encryption.Base.Outcome.{ok, ◌>>=◌}
use shared_encryption.Server.Updates.{UpdateResponse}
use shared_encryption.Wire.Bytes.{put_primitive, put_string, put_all}
use shared_encryption.Wire.Channel.{PayloadOpens, send_encrypted_data}
use shared_encryption.Wire.Elements.{
  Element, identity, point, Ciphertext, CiphertextFits, put_element, put_big_int, put_ciphertext,
  put_shard,
}
use shared_encryption.Wire.Kinds.{
  RequestPacket, decrypt_request_packet, login_request_packet, decrypt_request_kind,
  login_request_kind, logout_request_kind, update_response_packet, update_response_kind,
  error_response_kind, ResponsePacket, get_members_response_packet, get_members_response_kind,
}
use shared_encryption.Wire.Encrypted.Requests.{put_decrypt_request, put_login_request}
use shared_encryption.Wire.Encrypted.Updates.{
  put_update_response, put_added_as_owner, put_added_as_member, put_to_decrypt,
  put_finished_decryptions,
}
use shared_encryption.Wire.Encrypted.Updates.RoundTrip.{UpdateFits}
use shared_encryption.Wire.Encrypted.RequestData.{
  request_payload, send_request, send_request_data, recv_request, recv_request-send_request,
  recv_request_refused,
}
use shared_encryption.Wire.Encrypted.ResponseData.{
  ResponseFits, response_payload, send_response, recv_response, recv_response-send_response,
}
use shared_encryption.Wire.Inline.RequestData.{
  send_inline_request, recv_inline_request, recv_inline_request-send_inline_request,
}
use shared_encryption.Wire.Inline.ResponseData.{
  send_inline_response, recv_inline_response, recv_inline_response-send_inline_response,
}
use shared_encryption.Wire.Socket.Pieces.{recv_string, recv_string_lem}
use shared_encryption.Wire.Values.{IsText}
use shared_encryption.Tests.Codec.{base_256, base_256-IsLawful, pairing, pairing-Opens}

abbrev sealed : Ciphertext
sealed = record { c1 = point 3 300; c2 = identity; c3a = 1 ∷ 2 ∷ []; c3b = [] }

sealed-Fits : CiphertextFits base_256 sealed
sealed-Fits = record {
  c1_fits = (omega arith, omega arith);
  c2_fits = tt;
  c3a_fits = omega arith;
  c3b_fits = omega arith;
}

abbrev asked : RequestPacket
asked = decrypt_request_packet (record { user_set_id = 7; ciphertext = sealed })

asked_opens : PayloadOpens pairing 5 (request_payload base_256 asked)
unfolding put_decrypt_request put_ciphertext put_element put_big_int put_primitive
asked_opens =
    pairing-Opens 5
      (put_decrypt_request base_256 (record { user_set_id = 7; ciphertext = sealed }) [])
      (omega arith)

recv_request-send_request_example :
    (send_request pairing base_256 5 asked (9 ∷ [])
      >>= recv_request pairing base_256
          (login_request_kind ∷ decrypt_request_kind ∷ logout_request_kind ∷ []))
    ≡ ok (some asked, 9 ∷ [])
recv_request-send_request_example =
    recv_request-send_request pairing base_256 base_256-IsLawful 5 (9 ∷ [])
      (login_request_kind ∷ []) (logout_request_kind ∷ []) asked (omega arith, sealed-Fits)
      asked_opens

abbrev asked_login : RequestPacket
asked_login = login_request_packet (record { username = 65 ∷ []; password = 66 ∷ [] })

-- The data of a login: the IV's and the ciphertext's sizes, the IV, and the ciphertext.
abbrev login_data : List ℕ
login_data = put_primitive 8 1 (put_primitive 8 4 (5 ∷ 65 ∷ 0 ∷ 66 ∷ 0 ∷ []))

recv_request_refused_example :
    (send_request pairing base_256 5 asked_login []
      >>= recv_request pairing base_256 (logout_request_kind ∷ []))
    ≡ ok (none, login_data)
unfolding send_request_data send_encrypted_data put_login_request put_string
recv_request_refused_example =
    recv_request_refused pairing base_256 base_256-IsLawful 5 [] (logout_request_kind ∷ [])
      asked_login login_data ((λ e. cc), tt) refl

-- Alice was added as an owner, and one decryption of hers is finished by two parts.
abbrev told : UpdateResponse Element Ciphertext Element
told = record {
  added_as_reg_member = [];
  added_as_owner =
      record {
        user_set_id = 1;
        reg_layer_pub_key = point 2 3;
        owner_layer_pub_key = identity;
        reg_layer_priv_key_shard = (1, 5);
        owner_layer_priv_key_shard = (2, 6);
      }
      ∷ [];
  on_lookup = 8 ∷ [];
  to_decrypt = record { op_id = 4; ciphertext = sealed; shards_ids = 1 ∷ 2 ∷ [] } ∷ [];
  finished_decryptions =
      record {
        op_id = 9;
        reg_layer_parts = point 4 5 ∷ [];
        owner_layer_parts = [];
        reg_layer_shards_ids = 1 ∷ 300 ∷ [];
        owner_layer_shards_ids = 3 ∷ [];
      }
      ∷ [];
}

told-Fits : UpdateFits base_256 11 told
told-Fits = record {
  owners_fit = (
    (
      record {
        id_fits = omega arith;
        reg_key_fits = (omega arith, omega arith);
        owner_key_fits = tt;
        reg_shard_fits = (omega arith, omega arith, omega arith);
      },
      (omega arith, omega arith, omega arith),
    ),
    tt,
  );
  members_fit = tt;
  lookups_fit = (omega arith, tt);
  to_decrypt_fit = (
    record {
      op_fits = omega arith;
      ciphertext_fits = sealed-Fits;
      ids_fit = (omega arith, (omega arith, tt));
      ids_count = omega arith;
    },
    tt,
  );
  finished_fit = (
    record {
      op_fits = omega arith;
      reg_fit = ((omega arith, omega arith), tt);
      owner_fit = tt;
      reg_ids_fit = (omega arith, (omega arith, tt));
      owner_ids_fit = (omega arith, tt);
      reg_count = omega arith;
      owner_count = omega arith;
      reg_ids_count = refl;
      owner_ids_count = refl;
    },
    tt,
  );
  owners_count = omega arith;
  members_count = omega arith;
  lookups_count = omega arith;
  to_decrypt_count = omega arith;
  finished_count = omega arith;
}

told_opens : PayloadOpens pairing 5 (response_payload base_256 11 (update_response_packet told))
unfolding put_update_response put_added_as_owner put_added_as_member put_to_decrypt
    put_finished_decryptions put_ciphertext put_shard put_element put_big_int put_primitive put_all
told_opens = pairing-Opens 5 (put_update_response base_256 11 told []) (omega arith)

recv_response-send_response_example :
    (send_response pairing base_256 11 5 (update_response_packet told) []
      >>= recv_response pairing base_256 11 (error_response_kind ∷ update_response_kind ∷ []))
    ≡ ok (some (update_response_packet told), [])
recv_response-send_response_example =
    recv_response-send_response pairing base_256 base_256-IsLawful 11 5 []
      (error_response_kind ∷ []) [] (update_response_packet told) told-Fits told_opens

-- 33 letters: more than a chunk.
abbrev long_name : List ℕ
long_name = repeat 33 65

long_name-IsText : (n : ℕ) → IsText (repeat n 65)
long_name-IsText zero = tt
long_name-IsText (suc n) = ((λ e. absurd (omega (arith, e))), long_name-IsText n)

recv_string_lem_example :
    recv_string (λ stream. 40) (long_name ++ 0 ∷ 7 ∷ []) ≡ ok (long_name, 7 ∷ [])
recv_string_lem_example =
    recv_string_lem (λ stream. 40) long_name (7 ∷ []) (λ stream. omega arith) (long_name-IsText 33)

recv_inline_request-send_inline_request_example :
    (send_inline_request base_256
        (login_request_packet (record { username = long_name; password = 66 ∷ [] }))
        (9 ∷ [])
      >>= recv_inline_request base_256
          (λ stream. 40)
          (logout_request_kind ∷ login_request_kind ∷ decrypt_request_kind ∷ []))
    ≡ ok (some (login_request_packet (record { username = long_name; password = 66 ∷ [] })), 9 ∷ [])
recv_inline_request-send_inline_request_example =
    recv_inline_request-send_inline_request base_256 base_256-IsLawful (9 ∷ []) (λ stream. 40)
      (λ stream. omega arith) (logout_request_kind ∷ []) (decrypt_request_kind ∷ [])
      (login_request_packet (record { username = long_name; password = 66 ∷ [] }))
      (long_name-IsText 33, ((λ e. absurd (omega (arith, e))), tt))

abbrev members : ResponsePacket
members =
    get_members_response_packet
      (record { reg_members = (66 ∷ []) ∷ (67 ∷ []) ∷ []; owners = (65 ∷ 65 ∷ []) ∷ [] })

members-Fits : ResponseFits base_256 11 members
members-Fits = record {
  owners_fit = (((λ e. absurd (omega (arith, e))), ((λ e. absurd (omega (arith, e))), tt)), tt);
  reg_members_fit =
      (((λ e. absurd (omega (arith, e))), tt), (((λ e. absurd (omega (arith, e))), tt), tt));
  owners_count = omega arith;
  reg_members_count = omega arith;
}

recv_inline_response-send_inline_response_example :
    (send_inline_response base_256 11 members []
      >>= recv_inline_response base_256 11
          (λ stream. 32)
          (error_response_kind ∷ get_members_response_kind ∷ []))
    ≡ ok (some members, [])
recv_inline_response-send_inline_response_example =
    recv_inline_response-send_inline_response base_256 base_256-IsLawful 11 [] (λ stream. 32)
      (λ stream. omega arith) (error_response_kind ∷ []) [] members members-Fits
