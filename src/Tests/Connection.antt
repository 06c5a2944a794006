-- ===== src/Tests/Connection.antt =====
-- A socket that gets two bytes at a time, and the handshake.
use shared_encryption.Base.{ℕ, ◌<◌, ◌≡◌, refl, true, List, [], ◌∷◌, arith}
use shared_encryption.Base.Lists.{split_at}
use shared_encryption.Base.Outcome.{ok, undefined}
use shared_encryption.Wire.Bytes.{put_primitive, read_string}
use shared_encryption.Wire.Channel.{recv_exact}
use shared_encryption.Wire.Elements.{point}
use shared_encryption.Wire.Socket.{
  Socket, recv_connected_into, recv_connected_exact_into, recv_connected_str, out_leftover_data,
  as_int, str_loop, end_or_next, keep_extra, find_null,
}
use shared_encryption.Wire.Socket.Stream.{seen, recv_connected_exact_into-recv_exact}
use shared_encryption.Wire.Socket.Strings.{
  recv_connected_str_cut, recv_connected_str-read_string, recv_connected_str-buffer,
}
use shared_encryption.Wire.SockUtils.{send_ecgroup_elem}
use shared_encryption.Wire.Handshake.{server, client, server-client}
use shared_encryption.Tests.Codec.{base_256, base_256-IsLawful, residues, by_twos, by_twos-Delivers}

recv_connected_exact_into-recv_exact_example :
    seen by_twos
      (λ net. net)
      by_twos-Delivers
      (recv_connected_exact_into by_twos 4
        (record { buffer = 1 ∷ []; is_connected = true; net = 2 ∷ 3 ∷ 4 ∷ 5 ∷ [] }))
    ≡ recv_exact 4 (1 ∷ 2 ∷ 3 ∷ 4 ∷ 5 ∷ [])
recv_connected_exact_into-recv_exact_example =
    recv_connected_exact_into-recv_exact by_twos (λ net. net) by_twos-Delivers 4
      (record { buffer = 1 ∷ []; is_connected = true; net = 2 ∷ 3 ∷ 4 ∷ 5 ∷ [] }) refl (omega arith)

abbrev cut_off : Socket (List ℕ)
cut_off = record { buffer = []; is_connected = true; net = 65 ∷ 66 ∷ 67 ∷ 0 ∷ [] }

recv_connected_str_cut_example : recv_connected_str by_twos 2 cut_off ≡ undefined
unfolding recv_connected_into as_int out_leftover_data split_at
recv_connected_str_cut_example =
    recv_connected_str_cut by_twos 1 cut_off
      (record { buffer = []; is_connected = true; net = 67 ∷ 0 ∷ [] }) (65 ∷ 66 ∷ []) refl
      (omega arith) ((λ e. absurd (omega (arith, e))), ((λ e. absurd (omega (arith, e))), tt))

-- The string "A", and a byte that belongs to what follows.
abbrev in_time : Socket (List ℕ)
in_time = record { buffer = []; is_connected = true; net = 65 ∷ 0 ∷ 7 ∷ [] }

recv_connected_str-read_string_example :
    seen by_twos (λ net. net) by_twos-Delivers (recv_connected_str by_twos 3 in_time)
    ≡ read_string (65 ∷ 0 ∷ 7 ∷ [])
unfolding recv_connected_into as_int out_leftover_data split_at
recv_connected_str-read_string_example =
    recv_connected_str-read_string by_twos (λ net. net) by_twos-Delivers 2 in_time
      (record { buffer = []; is_connected = true; net = 7 ∷ [] }) (65 ∷ []) [] refl (omega arith)
      refl ((λ e. absurd (omega (arith, e))), tt)

-- The zero was kept from an earlier call, with two bytes behind it.
abbrev kept : Socket (List ℕ)
kept = record { buffer = 65 ∷ 0 ∷ 7 ∷ 8 ∷ []; is_connected = true; net = [] }

recv_connected_str-buffer_example : (2 < 32) × (true ≡ true)
unfolding recv_connected_str str_loop end_or_next keep_extra find_null recv_connected_into as_int
    out_leftover_data split_at
recv_connected_str-buffer_example =
    recv_connected_str-buffer by_twos (λ net. net) by_twos-Delivers 1 (65 ∷ []) kept
      (record { buffer = 7 ∷ 8 ∷ []; is_connected = true; net = [] }) refl (omega arith) refl

server-client_example :
    (server base_256 residues 4
        (client base_256 residues 3
          (put_primitive 1 1 (send_ecgroup_elem base_256 (point 5 1) []))).1
      ≡ (ok (point 4 1), put_primitive 1 1 (send_ecgroup_elem base_256 (point 5 1) [])))
    × ((client base_256 residues 3
          (put_primitive 1 1 (send_ecgroup_elem base_256 (point 5 1) []))).0
        ≡ ok (point 4 1))
server-client_example =
    server-client base_256 base_256-IsLawful residues 3 4 (omega arith, omega arith)
      (omega arith, omega arith) refl
