-- ===== src/Wire/Inline/Handshake.antt =====
-- `InlinePacketHandler::server` and `InlinePacketHandler::client` of
-- common/InlinePacketHandler.cpp: the check of the protocol's version. Each side is a function of
-- the bytes that it receives, and gives the bytes that are left with those that it sends.
use shared_encryption.Base.{ℕ, ◌≡◌, refl, List, [], ◌==◌, if◌then◌else◌, arith}
use shared_encryption.Base.Outcome.{
  Outcome, ok, throw, undefined, starved, conn_establish_exception,
}
use shared_encryption.Wire.Bytes.{put_primitive}
use shared_encryption.Wire.Channel.{recv_primitive, recv-put_primitive}
use shared_encryption.Wire.Handshake.{protocol_version}

-- With the client's version received.
abbrev pub inline_server_greeted : Outcome (ℕ × List ℕ) → Outcome (List ℕ) × List ℕ
inline_server_greeted (ok (version, sock)) =
    if version == protocol_version
    then (ok sock, put_primitive 1 1 [])
    else (throw conn_establish_exception, put_primitive 1 0 [])
inline_server_greeted (throw x) = (throw x, [])
inline_server_greeted undefined = (undefined, [])
inline_server_greeted starved = (starved, [])

unfoldable pub inline_server : List ℕ → Outcome (List ℕ) × List ℕ
inline_server sock = inline_server_greeted (recv_primitive 1 sock)

-- With the server's answer received.
abbrev pub inline_client_greeted : Outcome (ℕ × List ℕ) → Outcome (List ℕ)
inline_client_greeted (ok (is_ok, sock)) =
    if is_ok == 0 then throw conn_establish_exception else ok sock
inline_client_greeted (throw x) = throw x
inline_client_greeted undefined = undefined
inline_client_greeted starved = starved

-- The version is sent before anything is received.
unfoldable pub inline_client : List ℕ → Outcome (List ℕ) × List ℕ
inline_client sock =
    (inline_client_greeted (recv_primitive 1 sock), put_primitive 1 protocol_version [])

-- Connected to each other, both sides succeed, and nothing is left to be received.
inline_server-inline_client :
    (inline_server (inline_client (put_primitive 1 1 [])).1 ≡ (ok [], put_primitive 1 1 []))
    × ((inline_client (inline_server (put_primitive 1 protocol_version [])).1).0 ≡ ok [])
unfolding inline_server inline_client
inline_server-inline_client = (
  rw (recv-put_primitive 1 protocol_version (omega arith) []) refl,
  rw
      (
        recv-put_primitive 1 protocol_version (omega arith) [],
        recv-put_primitive 1 1 (omega arith) [],
      )
      refl,
)
