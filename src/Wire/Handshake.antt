-- ===== src/Wire/Handshake.antt =====
-- `EncryptedPacketHandler::server` and `EncryptedPacketHandler::client` of
-- common/EncryptedPacketHandler.cpp: the check of the protocol's version and the exchange of a
-- key. Each side is a function of the bytes that it receives, and gives the key with the bytes
-- that it sends.
use shared_encryption.Base.{
  ℕ, ◌<◌, ◌≡◌, refl, sym, ap, false, List, [], ◌==◌, if◌then◌else◌, arith, ◌≢◌,
}
use shared_encryption.Base.Outcome.{
  Outcome, ok, throw, undefined, starved, ◌>>=◌, conn_establish_exception,
}
use shared_encryption.Wire.BigInt.{BigIntCodec, IsLawful}
use shared_encryption.Wire.Bytes.{put_primitive}
use shared_encryption.Wire.Channel.{recv_primitive, recv-put_primitive}
use shared_encryption.Wire.Elements.{Element, ElementFits}
use shared_encryption.Wire.SockUtils.{send_ecgroup_elem, recv_ecgroup_elem, recv-send_ecgroup_elem}

-- `utils::ECGroup` (over Crypto++) and the key derivation.
pub record KeyGroup (Key : Type 0) : Type 0 where
  pub generator : Element
  pub pow : Element → ℕ → Element
  pub kdf : Element → Key

-- `pkt::PROTOCOL_VERSION`
abbrev pub protocol_version : ℕ
protocol_version = 2

-- `catch (const std::exception&)` around the exchange of the key.
abbrev pub rethrown : {A : Type 0} → Outcome A → Outcome A
rethrown (throw x) = throw conn_establish_exception
rethrown o = o

module _ {Key : Type 0} (c : BigIntCodec) (g : KeyGroup Key) where
  -- With the client's element received; what is sent comes with the outcome, also of a call that
  -- throws.
  abbrev pub server_keyed : ℕ → Outcome (Element × List ℕ) → Outcome Key × List ℕ
  server_keyed y (ok (gx, sock)) =
      (ok (g.kdf (g.pow gx y)), send_ecgroup_elem c (g.pow g.generator y) [])
  server_keyed y (throw x) = (throw conn_establish_exception, [])
  server_keyed y undefined = (undefined, [])
  server_keyed y starved = (starved, [])

  -- With the client's version received.
  abbrev pub server_greeted : ℕ → Outcome (ℕ × List ℕ) → Outcome Key × List ℕ
  server_greeted y (ok (version, sock)) =
      let (key, sent) = server_keyed y (recv_ecgroup_elem c sock) in
      if version == protocol_version
      then (key, put_primitive 1 1 sent)
      else (throw conn_establish_exception, put_primitive 1 0 [])
  server_greeted y (throw x) = (throw x, [])
  server_greeted y undefined = (undefined, [])
  server_greeted y starved = (starved, [])

  -- `y` is the sampled power.
  unfoldable pub server : ℕ → List ℕ → Outcome Key × List ℕ
  server y sock = server_greeted y (recv_primitive 1 sock)

  -- With the server's answer received: the client's element is sent before the other is received.
  abbrev pub client_greeted : ℕ → Outcome (ℕ × List ℕ) → Outcome Key × List ℕ
  client_greeted x (ok (is_ok, sock)) =
      let key = rethrown (recv_ecgroup_elem c sock >>= λ r. ok (g.kdf (g.pow r.0 x))) in
      if is_ok == 0
      then (throw conn_establish_exception, [])
      else (key, send_ecgroup_elem c (g.pow g.generator x) [])
  client_greeted x (throw e) = (throw e, [])
  client_greeted x undefined = (undefined, [])
  client_greeted x starved = (starved, [])

  -- `x` is the sampled power.
  unfoldable pub client : ℕ → List ℕ → Outcome Key × List ℕ
  client x sock =
      let (key, sent) = client_greeted x (recv_primitive 1 sock) in
      (key, put_primitive 1 protocol_version sent)

module _ {Key : Type 0} (c : BigIntCodec) (l : IsLawful c) (g : KeyGroup Key) where
  -- Under the laws of the big integers, and if the two powers of the generator fit their format and
  -- give the same when each is raised to the other's exponent: server and client derive the same
  -- key, where the server is given what the client sends, and the client what the server sends.
  pub server-client :
      (x y : ℕ)
      → ElementFits c (g.pow g.generator x)
      → ElementFits c (g.pow g.generator y)
      → g.pow (g.pow g.generator x) y ≡ g.pow (g.pow g.generator y) x
      → (server c g y
            (client c g x (put_primitive 1 1 (send_ecgroup_elem c (g.pow g.generator y) []))).1
          ≡ (
            ok (g.kdf (g.pow (g.pow g.generator x) y)),
            put_primitive 1 1 (send_ecgroup_elem c (g.pow g.generator y) []),
          ))
        × ((client c g x (put_primitive 1 1 (send_ecgroup_elem c (g.pow g.generator y) []))).0
            ≡ ok (g.kdf (g.pow (g.pow g.generator x) y)))
  unfolding server client
  server-client x y hx hy commute =
      let gx = g.pow g.generator x in
      let gy = g.pow g.generator y in
      (
        rw
            (
              recv-put_primitive 1 1 (omega arith) (send_ecgroup_elem c gy []),
              recv-put_primitive 1 protocol_version (omega arith) (send_ecgroup_elem c gx []),
              recv-send_ecgroup_elem c l gx hx [],
            )
            refl,
        rw
            (
              recv-put_primitive 1 1 (omega arith) (send_ecgroup_elem c gy []),
              recv-send_ecgroup_elem c l gy hy [],
            )
            (ap (λ t. ok (g.kdf t)) (sym commute)),
      )

  -- Under the laws of the big integers: a server that is sent another version of the protocol, in
  -- one byte, throws, and so does a client that gets its answer.
  pub server_bad_version :
      (x y v : ℕ) (rest : List ℕ)
      → v < 256
      → v ≢ protocol_version
      → ((server c g y (put_primitive 1 v rest)).0 ≡ throw conn_establish_exception)
        × ((client c g x (server c g y (put_primitive 1 v rest)).1).0
            ≡ throw conn_establish_exception)
  unfolding server client
  server_bad_version x y v rest small other =
      let bad : (v == protocol_version) ≡ false = ground (arith, other) in
      (
        rw (recv-put_primitive 1 v small rest, bad) refl,
        rw (recv-put_primitive 1 v small rest, bad, recv-put_primitive 1 0 (omega arith) []) refl,
      )
