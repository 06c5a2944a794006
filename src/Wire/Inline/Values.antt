-- ===== src/Wire/Inline/Values.antt =====
-- What the packets of common/InlinePacketHandler.cpp are made of, sent and received by a socket
-- that is seen as a stream. Strings are received by `recv_connected_str` (Socket/Pieces.antt), which
-- depends on the pieces in which the stream arrives.
use shared_encryption.Base.{
  ℕ, ◌<◌, ◌≡◌, refl, ◌∙◌, List, [], ◌∷◌, ◌++◌, some, ap, length, All, All-imp,
}
use shared_encryption.Base.Outcome.{Outcome, ok, throw, undefined, starved, ◌>>=◌}
use shared_encryption.Server.Types.{Uuid}
use shared_encryption.Arith.Modular.{mod_int}
use native.Mathlib.Nat.{mod-eq_of_lt}
use shared_encryption.Wire.BigInt.{BigIntCodec, IsLawful}
use shared_encryption.Wire.Bytes.{
  put_primitive, put_string, put_buffer, put_all, read_all, read_all-put_all, Reads,
}
use shared_encryption.Wire.Channel.{recv_primitive, recv_exact, recv-put_primitive, recv-put_exact}
use shared_encryption.Wire.Elements.{Ciphertext, Fits, ShardFits, CiphertextFits}
use shared_encryption.Wire.SockUtils.{
  send_big_int, recv_big_int, send_ecgroup_elem, recv_ecgroup_elem, or_zero, recv-send_big_int,
  recv-send_ecgroup_elem,
}
use shared_encryption.Wire.Socket.Pieces.{Pieces, HasChunks, recv_string, recv_string_lem}
use shared_encryption.Wire.Values.{IsText, IsUuid}

abbrev pub send_count : ℕ → List ℕ → List ℕ
send_count n rest = put_primitive 1 n rest

abbrev pub recv_count : List ℕ → Outcome (ℕ × List ℕ)
recv_count sock = recv_primitive 1 sock

abbrev pub send_uuid : Uuid → List ℕ → List ℕ
send_uuid u rest = put_primitive 16 u rest

abbrev pub recv_uuid : List ℕ → Outcome (Uuid × List ℕ)
recv_uuid sock = recv_primitive 16 sock

abbrev pub send_string : List ℕ → List ℕ → List ℕ
send_string cs rest = put_string cs rest

-- A packet that was received, among those of its kind.
abbrev pub recv_as : {A B : Type 0} → (A → B) → Outcome (A × List ℕ) → Outcome (B × List ℕ)
recv_as packet (ok (a, sock)) = ok (packet a, sock)
recv_as packet (throw x) = throw x
recv_as packet undefined = undefined
recv_as packet starved = starved

module _ (c : BigIntCodec) where
  abbrev pub send_priv_key_shard_id : ℕ → List ℕ → List ℕ
  send_priv_key_shard_id n rest = send_big_int c (some n) rest

  -- Into an ID that was initialised with 0.
  unfoldable pub recv_priv_key_shard_id : List ℕ → Outcome (ℕ × List ℕ)
  recv_priv_key_shard_id sock0 = do (n, sock1) ← recv_big_int c sock0; ok (or_zero c n, sock1)

  unfoldable pub send_priv_key_shard : ℕ × ℕ → List ℕ → List ℕ
  send_priv_key_shard (n, y) rest = send_priv_key_shard_id n (send_big_int c (some y) rest)

  unfoldable pub recv_priv_key_shard : ℕ → List ℕ → Outcome ((ℕ × ℕ) × List ℕ)
  recv_priv_key_shard q sock0 = do
    (n, sock1) ← recv_priv_key_shard_id sock0
    (y, sock2) ← recv_big_int c sock1
    ok ((n, mod_int q (or_zero c y)), sock2)

  unfoldable pub send_ciphertext : Ciphertext → List ℕ → List ℕ
  send_ciphertext t rest = send_ecgroup_elem c t.c1 (
      send_ecgroup_elem c t.c2 (
        put_primitive 8 (length t.c3a)
          (put_primitive 8 (length t.c3b) (put_buffer t.c3a (put_buffer t.c3b rest)))))

  unfoldable pub recv_ciphertext : List ℕ → Outcome (Ciphertext × List ℕ)
  recv_ciphertext sock0 = do
    (c1, sock1) ← recv_ecgroup_elem c sock0
    (c2, sock2) ← recv_ecgroup_elem c sock1
    (c3a_size, sock3) ← recv_primitive 8 sock2
    (c3b_size, sock4) ← recv_primitive 8 sock3
    (c3a, sock5) ← recv_exact c3a_size sock4
    (c3b, sock6) ← recv_exact c3b_size sock5
    ok (record { c1 = c1; c2 = c2; c3a = c3a; c3b = c3b }, sock6)

put_string-append : (cs rest : List ℕ) → put_string cs rest ≡ cs ++ 0 ∷ rest
unfolding put_string
put_string-append [] rest = refl
put_string-append (c ∷ cs) rest = ap (λ bytes. c ∷ bytes) (put_string-append cs rest)

pub recv-send_string :
    (piece : Pieces)
    → HasChunks piece
    → (cs : List ℕ) → IsText cs
    → Reads (recv_string piece) send_string cs
recv-send_string piece full cs h rest =
    ap (recv_string piece) (put_string-append cs rest) ∙ recv_string_lem piece cs rest full h

pub recv-send_count : (n : ℕ) → n < 256 → Reads recv_count send_count n
recv-send_count n h = recv-put_primitive 1 n h

pub recv-send_uuid : (u : Uuid) → IsUuid u → Reads recv_uuid send_uuid u
recv-send_uuid u h = recv-put_primitive 16 u h

-- A vector is received by its elements.
pub recv-send-All :
    {A : Type 0} (recv : List ℕ → Outcome (A × List ℕ)) (send : A → List ℕ → List ℕ)
    (P : A → Type 0)
    → ((a : A) → P a → Reads recv send a)
    → (xs : List A) → All P xs
    → Reads (read_all recv (length xs)) (put_all send) xs
recv-send-All recv send P f xs h =
    read_all-put_all recv send xs (All-imp P (Reads recv send) f xs h)

pub recv-send_names :
    (piece : Pieces)
    → HasChunks piece
    → (names : List (List ℕ)) → All IsText names
    → Reads (read_all (recv_string piece) (length names)) (put_all send_string) names
recv-send_names piece full names h =
    recv-send-All (recv_string piece) send_string IsText (recv-send_string piece full) names h

pub recv-send_uuids :
    (us : List Uuid) → All IsUuid us → Reads (read_all recv_uuid (length us)) (put_all send_uuid) us
recv-send_uuids us h = recv-send-All recv_uuid send_uuid IsUuid recv-send_uuid us h

module _ (c : BigIntCodec) (l : IsLawful c) where
  pub recv-send_priv_key_shard_id :
      (n : ℕ) → Fits c n → Reads (recv_priv_key_shard_id c) (send_priv_key_shard_id c) n
  unfolding recv_priv_key_shard_id
  recv-send_priv_key_shard_id n h rest = rw (recv-send_big_int c l n h rest) refl

  pub recv-send_priv_key_shard :
      (q : ℕ) (s : ℕ × ℕ)
      → ShardFits c q s
      → Reads (recv_priv_key_shard c q) (send_priv_key_shard c) s
  unfolding recv_priv_key_shard send_priv_key_shard mod_int
  recv-send_priv_key_shard q (n, y) h rest =
      rw
        (
          recv-send_priv_key_shard_id n h.0 (send_big_int c (some y) rest),
          recv-send_big_int c l y h.1 rest,
        )
        (ap (λ (k : ℕ). ok ((n, k), rest)) (mod-eq_of_lt h.2))

  pub recv-send_ciphertext :
      (t : Ciphertext) → CiphertextFits c t → Reads (recv_ciphertext c) (send_ciphertext c) t
  unfolding recv_ciphertext send_ciphertext
  recv-send_ciphertext t h rest =
      rw
        (
          recv-send_ecgroup_elem c l t.c1 h.c1_fits,
          recv-send_ecgroup_elem c l t.c2 h.c2_fits,
          recv-put_primitive 8 (length t.c3a) h.c3a_fits,
          recv-put_primitive 8 (length t.c3b) h.c3b_fits,
          recv-put_exact t.c3a,
          recv-put_exact t.c3b,
        )
        refl
