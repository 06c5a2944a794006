-- ===== src/Wire/Socket/Stream.antt =====
-- `recv_connected_exact_into` of utils/Socket.cpp reads one stream, however the operating system cuts
-- it into pieces.
use shared_encryption.Base.{
  ℕ, zero, suc, ◌-◌, ◌+◌, ◌^◌, ◌≤◌, ◌<◌, ◌≡◌, refl, ap, ◌∙◌, true, List, [], ◌∷◌, ◌++◌, length,
  length-append, ltb, Bool-cases, inl, inr, arith,
}
use shared_encryption.Base.Outcome.{Outcome, ok, throw, undefined, starved, ◌>>=◌}
use shared_encryption.Wire.Bytes.{read_buffer}
use shared_encryption.Wire.Channel.{recv_exact}
use shared_encryption.Wire.Socket.{Network, Socket, exact_loop, recv_connected_exact_into}
use shared_encryption.Wire.Socket.Received.{Delivers, stream, into-Received, below, not_below}

read_buffer-append :
    (xs rest : List ℕ) (n m : ℕ)
    → n ≡ length xs + m
    → read_buffer n (xs ++ rest) ≡ (xs ++ (read_buffer m rest).0, (read_buffer m rest).1)
unfolding read_buffer
read_buffer-append [] rest n m e = ap (λ k. read_buffer k rest) (omega (arith, e))
read_buffer-append (x ∷ xs) rest zero m e = absurd (omega (arith, e))
read_buffer-append (x ∷ xs) rest (suc n) m e =
    rw (read_buffer-append xs rest n m (omega (arith, e))) refl

module _ {Net : Type 0} (os : Network Net) (pending : Net → List ℕ) (d : Delivers os pending) where
  -- What a call that gave bytes means for the stream.
  abbrev pub seen : Outcome (List ℕ × Socket Net) → Outcome (List ℕ × List ℕ)
  seen (ok (bytes, s)) = ok (bytes, stream os pending d s)
  seen (throw x) = throw x
  seen undefined = undefined
  seen starved = starved

  seen-bind :
      (bytes : List ℕ) (o : Outcome (List ℕ × Socket Net))
      → seen (o >>= λ x. ok (bytes ++ x.0, x.1)) ≡ (seen o >>= λ x. ok (bytes ++ x.0, x.1))
  seen-bind bytes (ok x) = refl
  seen-bind bytes (throw x) = refl
  seen-bind bytes undefined = refl
  seen-bind bytes starved = refl

  loop_enough :
      (fuel n : ℕ) (s : Socket Net)
      → n ≤ fuel
      → n ≤ length (stream os pending d s)
      → s.is_connected ≡ true
      → n < 2 ^ 31
      → seen (exact_loop os fuel n s) ≡ ok (read_buffer n (stream os pending d s))
  unfolding exact_loop read_buffer
  loop_enough fuel zero s a b c w = refl
  loop_enough zero (suc n) s a b c w = absurd (omega (arith, a))
  loop_enough (suc fuel) (suc n) s a b c w =
      let r = into-Received os pending d (suc n) s c w in
      let t = r.after in
      let m = suc n - length r.bytes in
      let some_bytes = r.progress (omega arith) (omega (arith, b)) in
      let total = ap length r.streamed ∙ length-append r.bytes (stream os pending d t) in
      let next =
        loop_enough fuel m t (omega (arith, a, some_bytes)) (omega (arith, b, total)) r.connected
          (omega (arith, w)) in
      rw
        (
          r.result,
          seen-bind r.bytes (exact_loop os fuel m t),
          next,
          r.streamed,
          read_buffer-append r.bytes (stream os pending d t) (suc n) m (omega (arith, r.bounded)),
        )
        refl

  loop_short :
      (fuel n : ℕ) (s : Socket Net)
      → length (stream os pending d s) < n
      → s.is_connected ≡ true
      → n < 2 ^ 31
      → exact_loop os fuel n s ≡ starved
  unfolding exact_loop
  loop_short fuel zero s b c w = absurd (omega (arith, b))
  loop_short zero (suc n) s b c w = refl
  loop_short (suc fuel) (suc n) s b c w =
      let r = into-Received os pending d (suc n) s c w in
      let total = ap length r.streamed ∙ length-append r.bytes (stream os pending d r.after) in
      rw
        (
          r.result,
          loop_short fuel (suc n - length r.bytes) r.after (omega (arith, b, total, r.bounded))
              r.connected (omega (arith, w)),
        )
        refl

  -- Of a connection without errors, and for a size below 2 ^ 31, `recv_connected_exact_into` gives
  -- the next bytes of the stream, however they were cut into pieces, and leaves the others; if the
  -- stream ends before, it does not return.
  pub recv_connected_exact_into-recv_exact :
      (size : ℕ) (s : Socket Net)
      → s.is_connected ≡ true
      → size < 2 ^ 31
      → seen (recv_connected_exact_into os size s) ≡ recv_exact size (stream os pending d s)
  unfolding recv_connected_exact_into recv_exact
  recv_connected_exact_into-recv_exact size s c w =
      elim (Bool-cases (ltb (length (stream os pending d s)) size)) [
        | inl e ↦
            rw (e, loop_short size size s (below (length (stream os pending d s)) size e) c w) refl
        | inr e ↦ rw e (
            loop_enough size size s (omega arith)
              (not_below (length (stream os pending d s)) size e) c w)
      ]
