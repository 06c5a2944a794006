-- ===== src/Wire/Channel.antt =====
-- `send_encrypted_data` and `recv_encrypted_data` of common/EncryptedPacketHandler.cpp: a payload
-- is sent as the two parts of its ciphertext, after their sizes. What is sent is put before
-- `rest`, which is sent later; what is received is taken off the bytes that the socket will give,
-- and where these end before the packet does the outcome is `starved`: the socket waits.
use shared_encryption.Base.{
  ℕ, zero, suc, ◌+◌, ◌-◌, ◌≤◌, ◌<◌, ◌^◌, ◌≡◌, refl, ◌∙◌, List, [], ◌++◌, length, length-append,
  Option, none, some, ltb, if◌then◌else◌, arith, false,
}
use shared_encryption.Base.Outcome.{
  Outcome, ok, throw, undefined, starved, ◌>>=◌, packet_too_big, cipher_failed,
}
use shared_encryption.Wire.Bytes.{
  put_primitive, read_primitive, put_buffer, read_buffer, Reads, read-put_primitive,
  read-put_buffer,
}

-- `enc::AES1L` with the key of the connection. What its random source gives is an argument of
-- `encrypt`; `decrypt` throws what Crypto++ throws at a bad ciphertext.
pub record Cipher (Seed : Type 0) : Type 0 where
  pub encrypt : Seed → List ℕ → List ℕ × List ℕ
  pub decrypt : List ℕ × List ℕ → Option (List ℕ)

-- The two parts' sizes fit into 8 bytes, and what was encrypted is decrypted to itself.
pub record Opens {Seed : Type 0} (e : Cipher Seed) (seed : Seed) (payload : List ℕ) : Type 0 where
  pub size_1 : length (e.encrypt seed payload).0 < 256 ^ 8
  pub size_2 : length (e.encrypt seed payload).1 < 256 ^ 8
  pub decrypt-encrypt : e.decrypt (e.encrypt seed payload) ≡ some payload

-- `recv_connected_exact_into` of `size` bytes.
unfoldable pub recv_exact : ℕ → List ℕ → Outcome (List ℕ × List ℕ)
recv_exact size sock = if ltb (length sock) size then starved else ok (read_buffer size sock)

-- `recv_connected_primitive` of a number of `width` bytes.
unfoldable pub recv_primitive : ℕ → List ℕ → Outcome (ℕ × List ℕ)
recv_primitive width sock = if ltb (length sock) width then starved else read_primitive width sock

abbrev pub or_cipher_failed : Option (List ℕ) → Outcome (List ℕ)
or_cipher_failed none = throw cipher_failed
or_cipher_failed (some payload) = ok payload

module _ {Seed : Type 0} (e : Cipher Seed) where
  unfoldable pub send_encrypted_data : Seed → List ℕ → List ℕ → Outcome (List ℕ)
  send_encrypted_data seed payload rest =
      let (c1, c2) = e.encrypt seed payload in
      if ltb (256 ^ 8 - 1) (length c1)
      then throw packet_too_big
      else if ltb (256 ^ 8 - 1) (length c2)
      then throw packet_too_big
      else ok (
          put_primitive 8 (length c1)
            (put_primitive 8 (length c2) (put_buffer c1 (put_buffer c2 rest))))

  unfoldable pub recv_encrypted_data : List ℕ → Outcome (List ℕ × List ℕ)
  recv_encrypted_data sock0 = do
    (c1_size, sock1) ← recv_primitive 8 sock0
    (c2_size, sock2) ← recv_primitive 8 sock1
    (c1, sock3) ← recv_exact c1_size sock2
    (c2, sock4) ← recv_exact c2_size sock3
    payload ← or_cipher_failed (e.decrypt (c1, c2))
    ok (payload, sock4)

  -- A packet without fields has no payload, and nothing is sent.
  abbrev pub send_payload : Seed → Option (List ℕ) → List ℕ → Outcome (List ℕ)
  send_payload seed none rest = ok rest
  send_payload seed (some payload) rest = send_encrypted_data seed payload rest

  -- The payload is received and read; what the reader leaves of it is dropped.
  unfoldable pub recv_payload :
      {A B : Type 0} → (List ℕ → Outcome (A × List ℕ)) → (A → B) → List ℕ → Outcome (B × List ℕ)
  recv_payload read packet sock = do
    (payload, sock') ← recv_encrypted_data sock
    (a, end) ← read payload
    ok (packet a, sock')

abbrev pub PayloadOpens : {Seed : Type 0} → Cipher Seed → Seed → Option (List ℕ) → Type 0
PayloadOpens e seed none = Unit {0}
PayloadOpens e seed (some payload) = Opens e seed payload

pub length-put_primitive :
    (width v : ℕ) (rest : List ℕ) → length (put_primitive width v rest) ≡ width + length rest
unfolding put_primitive
length-put_primitive zero v rest = omega arith
length-put_primitive (suc width) v rest = omega (arith, length-put_primitive width v rest)

enough : (n m : ℕ) → n ≤ m → ltb m n ≡ false
enough n m h = ground arith

pub recv-put_primitive :
    (width v : ℕ) → v < 256 ^ width → Reads (recv_primitive width) (put_primitive width) v
unfolding recv_primitive
recv-put_primitive width v h rest =
    rw
      (
        enough width (length (put_primitive width v rest))
            (omega (arith, length-put_primitive width v rest)),
        read-put_primitive width v h,
      )
      refl

pub recv-put_exact : (bytes : List ℕ) → Reads (recv_exact (length bytes)) put_buffer bytes
unfolding recv_exact
recv-put_exact bytes rest =
    rw
      (
        enough (length bytes) (length (bytes ++ rest)) (omega (arith, length-append bytes rest)),
        read-put_buffer bytes,
      )
      refl

bind_assoc :
    {A B C : Type 0} (o : Outcome A) (f : A → Outcome B) (g : B → Outcome C)
    → (o >>= λ a. f a >>= g) ≡ (o >>= f) >>= g
bind_assoc (ok a) f g = refl
bind_assoc (throw x) f g = refl
bind_assoc undefined f g = refl
bind_assoc starved f g = refl

-- What was sent of the ciphertext is received, decrypted, as the payload, and the bytes that
-- follow are left.
pub recv-send_encrypted_data :
    {Seed : Type 0} (e : Cipher Seed) (seed : Seed) (payload rest : List ℕ)
    → Opens e seed payload
    → (send_encrypted_data e seed payload rest >>= recv_encrypted_data e) ≡ ok (payload, rest)
unfolding send_encrypted_data recv_encrypted_data
recv-send_encrypted_data e seed payload rest h =
    let c1 = (e.encrypt seed payload).0 in
    let c2 = (e.encrypt seed payload).1 in
    rw
      (
        enough (length c1) (256 ^ 8 - 1) (omega (arith, h.size_1)),
        enough (length c2) (256 ^ 8 - 1) (omega (arith, h.size_2)),
        recv-put_primitive 8 (length c1) h.size_1,
        recv-put_primitive 8 (length c2) h.size_2,
        recv-put_exact c1,
        recv-put_exact c2,
        h.decrypt-encrypt,
      )
      refl

pub recv_payload-send :
    {Seed : Type 0} (e : Cipher Seed) (seed : Seed) (rest : List ℕ) {A B : Type 0}
    (read : List ℕ → Outcome (A × List ℕ)) (put : A → List ℕ → List ℕ) (packet : A → B) (a : A)
    → Opens e seed (put a [])
    → Reads read put a
    → (send_encrypted_data e seed (put a []) rest >>= recv_payload e read packet)
      ≡ ok (packet a, rest)
unfolding recv_payload
recv_payload-send e seed rest read put packet a h r =
    bind_assoc (send_encrypted_data e seed (put a []) rest) (recv_encrypted_data e)
      (λ x. read x.0 >>= λ y. ok (packet y.0, x.1))
    ∙ rw (recv-send_encrypted_data e seed (put a []) rest h, r []) refl
