-- ===== src/Wire/SockUtils.antt =====
-- common/SockUtils.cpp: big integers and elements of the curve's group sent and received by a
-- socket, seen as a stream (Socket/Stream.antt).
use shared_encryption.Base.{
  ℕ, ◌≡◌, refl, sym, ap, ◌∙◌, List, Option, none, some, length, ◌==◌, if◌then◌else◌, arith,
}
use shared_encryption.Base.Outcome.{Outcome, ok, ◌>>=◌}
use shared_encryption.Wire.BigInt.{BigIntCodec, IsLawful}
use shared_encryption.Wire.Bytes.{put_primitive, put_buffer, Reads}
use shared_encryption.Wire.Channel.{recv_primitive, recv_exact, recv-put_primitive, recv-put_exact}
use shared_encryption.Wire.Elements.{Element, identity, point, Fits, ElementFits, not_zero}

module _ (c : BigIntCodec) where
  unfoldable pub send_big_int : Option ℕ → List ℕ → List ℕ
  send_big_int none rest = put_primitive 8 0 rest
  send_big_int (some v) rest =
      put_primitive 8 (c.min_encoded_size v) (put_buffer (c.encode v (c.min_encoded_size v)) rest)

  -- `none` stands for the result `false`, with which the caller's variable keeps its value.
  unfoldable pub recv_big_int : List ℕ → Outcome (Option ℕ × List ℕ)
  recv_big_int sock0 = do
    (size, sock1) ← recv_primitive 8 sock0
    if size == 0
        then ok (none, sock1)
        else (do (buff, sock2) ← recv_exact size sock1; ok (some (c.decode buff), sock2))

  unfoldable pub send_ecgroup_elem : Element → List ℕ → List ℕ
  send_ecgroup_elem identity rest = send_big_int none rest
  send_ecgroup_elem (point x y) rest = send_big_int (some x) (send_big_int (some y) rest)

  -- A variable that was initialised with 0.
  abbrev pub or_zero : Option ℕ → ℕ
  or_zero none = 0
  or_zero (some v) = v

  -- The second coordinate: whether one came is not looked at.
  abbrev pub recv_y : Option ℕ × List ℕ → Outcome (Element × List ℕ)
  recv_y (none, sock) = ok (identity, sock)
  recv_y (some x, sock) = do (y, end) ← recv_big_int sock; ok (point x (or_zero y), end)

  unfoldable pub recv_ecgroup_elem : List ℕ → Outcome (Element × List ℕ)
  recv_ecgroup_elem sock = do r ← recv_big_int sock; recv_y r

sized_exact :
    (n : ℕ) (bytes rest : List ℕ)
    → length bytes ≡ n
    → recv_exact n (put_buffer bytes rest) ≡ ok (bytes, rest)
sized_exact n bytes rest e =
    ap (λ k. recv_exact k (put_buffer bytes rest)) (sym e) ∙ recv-put_exact bytes rest

module _ (c : BigIntCodec) (l : IsLawful c) where
  pub recv-send_big_int : (v : ℕ) → Fits c v → Reads (recv_big_int c) (send_big_int c) (some v)
  unfolding recv_big_int send_big_int
  recv-send_big_int v h rest =
      let n = c.min_encoded_size v in
      rw
        (
          recv-put_primitive 8 n h (put_buffer (c.encode v n) rest),
          not_zero n (l.some_size v),
          sized_exact n (c.encode v n) rest (l.length-encode v n),
          l.decode-encode v,
        )
        refl

  recv-send_no_big_int : Reads (recv_big_int c) (send_big_int c) none
  unfolding recv_big_int send_big_int
  recv-send_no_big_int rest = rw (recv-put_primitive 8 0 (omega arith) rest) refl

  -- An element that was sent is received.
  pub recv-send_ecgroup_elem :
      (t : Element) → ElementFits c t → Reads (recv_ecgroup_elem c) (send_ecgroup_elem c) t
  unfolding recv_ecgroup_elem send_ecgroup_elem
  recv-send_ecgroup_elem identity h rest = rw (recv-send_no_big_int rest) refl
  recv-send_ecgroup_elem (point x y) h rest =
      rw (recv-send_big_int x h.0 (send_big_int c (some y) rest), recv-send_big_int y h.1 rest) refl
