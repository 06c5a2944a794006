-- ===== src/Wire/Socket/Strings.antt =====
-- `recv_connected_str` of utils/Socket_impl.hpp: when a string is received as it was sent, and
-- what a string that arrives in two pieces does.
use shared_encryption.Base.{
  ℕ, zero, suc, ◌-◌, ◌+◌, ◌≤◌, ◌<◌, ◌≡◌, ◌≢◌, refl, sym, ap, ◌∙◌, true, false, List, [], ◌∷◌, ◌++◌,
  some, All, length, length-append, repeat, split_at-append, length-split_at, split_at-cases, ltb,
  ◌==◌, Bool-cases, Option-cases, inl, inr, arith,
}
use shared_encryption.Base.Lists.{split_at}
use shared_encryption.Base.Outcome.{Outcome, ok, undefined, ◌>>=◌}
use shared_encryption.Wire.Bytes.{read_string}
use shared_encryption.Wire.Socket.{
  Network, Socket, find_null, recv_connected_into, keep_extra, end_or_next, str_loop,
  recv_connected_str,
}
use shared_encryption.Wire.Socket.Received.{Delivers, stream, into-Received, append_assoc}
use shared_encryption.Wire.Socket.Stream.{seen}

not_null : (c : ℕ) → c ≢ 0 → (c == 0) ≡ false
not_null c h = ground (arith, h)

short_read : (n : ℕ) → ltb n (n + 1) ≡ true
short_read n = ground arith

full_read : (m n : ℕ) → suc n ≤ m → ltb m (n + 1) ≡ false
full_read m n h = ground (arith, h)

-- The first zero stands behind the bytes that have none.
find_null-text : (cs xs : List ℕ) → All (λ c. c ≢ 0) cs → find_null (cs ++ 0 ∷ xs) ≡ some (cs, xs)
unfolding find_null
find_null-text [] xs h = refl
find_null-text (c ∷ cs) xs h = rw (find_null-text cs xs h.1, not_null c h.0) refl

zeros_left : (k n : ℕ) → k < n → (split_at {A = ℕ} k (repeat n 0)).1 ≡ 0 ∷ repeat (n - suc k) 0
unfolding split_at
zeros_left zero zero h = absurd (omega (arith, h))
zeros_left zero (suc n) h = ap (λ m. 0 ∷ repeat m 0) (omega arith)
zeros_left (suc k) zero h = absurd (omega (arith, h))
zeros_left (suc k) (suc n) h =
    zeros_left k n (omega (arith, h)) ∙ ap (λ m. 0 ∷ repeat m 0) (omega arith)

split_all : (xs ys : List ℕ) → (split_at (length xs) (xs ++ ys)).0 ≡ xs
unfolding split_at
split_all [] ys = refl
split_all (x ∷ xs) ys = ap (λ zs. x ∷ zs) (split_all xs ys)

extra : (n : ℕ) (xs ys : List ℕ) → n ≡ length xs → (split_at n (xs ++ ys)).0 ≡ xs
extra n xs ys e = ap (λ k. (split_at k (xs ++ ys)).0) e ∙ split_all xs ys

module _ {Net : Type 0} (os : Network Net) where
  -- If the first piece that is received has no zero and is shorter than a chunk, the array's own zeros
  -- are taken for the end of the string, and the behaviour is undefined.
  pub recv_connected_str_cut :
      (fuel : ℕ) (s s' : Socket Net) (bytes : List ℕ)
      → recv_connected_into os 32 s ≡ ok (bytes, s')
      → length bytes < 32
      → All (λ c. c ≢ 0) bytes
      → recv_connected_str os (suc fuel) s ≡ undefined
  unfolding recv_connected_str str_loop keep_extra end_or_next
  recv_connected_str_cut fuel s s' bytes r h z =
      rw
        (
          r,
          zeros_left (length bytes) 32 h,
          find_null-text bytes (repeat (32 - suc (length bytes)) 0) z,
          short_read (length bytes),
        )
        refl

  -- The zero is in the piece that is received: what stands before it ends the string, and the bytes
  -- after it are kept.
  pub whole_string_loop :
      (fuel : ℕ) (chunk res : List ℕ) (s s' : Socket Net) (cs xs : List ℕ)
      → recv_connected_into os (length chunk) s ≡ ok (cs ++ 0 ∷ xs, s')
      → All (λ c. c ≢ 0) cs
      → str_loop os (suc fuel) chunk res s ≡ ok (res ++ cs, record s' { buffer = s'.buffer ++ xs })
  unfolding str_loop keep_extra end_or_next
  whole_string_loop fuel chunk res s s' cs xs r z =
      let tail = (split_at (length (cs ++ 0 ∷ xs)) chunk).1 in
      let size = length-append cs (0 ∷ xs) in
      let found : find_null ((cs ++ 0 ∷ xs) ++ tail) ≡ some (cs, xs ++ tail) =
        ap find_null (append_assoc cs (0 ∷ xs) tail) ∙ find_null-text cs (xs ++ tail) z in
      rw
        (
          r,
          found,
          full_read (length (cs ++ 0 ∷ xs)) (length cs) (omega (arith, size)),
          extra (length (cs ++ 0 ∷ xs) - (length cs + 1)) xs tail (omega (arith, size)),
        )
        refl

  whole_string :
      (fuel : ℕ) (s s' : Socket Net) (cs xs : List ℕ)
      → recv_connected_into os 32 s ≡ ok (cs ++ 0 ∷ xs, s')
      → All (λ c. c ≢ 0) cs
      → recv_connected_str os (suc fuel) s ≡ ok (cs, record s' { buffer = s'.buffer ++ xs })
  unfolding recv_connected_str
  whole_string fuel s s' cs xs r z = whole_string_loop fuel (repeat 32 0) [] s s' cs xs r z

read_string-text : (cs ys : List ℕ) → All (λ c. c ≢ 0) cs → read_string (cs ++ 0 ∷ ys) ≡ ok (cs, ys)
unfolding read_string
read_string-text [] ys h = refl
read_string-text (c ∷ cs) ys h = rw (read_string-text cs ys h.1, not_null c h.0) refl

all_taken : (n : ℕ) (xs : List ℕ) → length xs < n → (split_at n xs).1 ≡ []
all_taken n xs h = elim (split_at-cases n xs) [
  | inl e ↦ e
  | inr e ↦ absurd (
      omega (
        arith,
        e,
        h,
        ap length (split_at-append n xs),
        length-append (split_at n xs).0 (split_at n xs).1,
      ))
]

undefined_not_ok : {A : Type 0} {a : A} → Path (Outcome A) undefined (ok a) → ⊥
undefined_not_ok e = cc

overwritten :
    (bytes chunk : List ℕ)
    → length bytes ≤ length chunk
    → length (bytes ++ (split_at (length bytes) chunk).1) ≡ length chunk
overwritten bytes chunk h =
    let front = (split_at (length bytes) chunk).0 in
    let back = (split_at (length bytes) chunk).1 in
    let whole = ap length (split_at-append (length bytes) chunk) ∙ length-append front back in
    let made = length-append bytes back in
    let fewer = length-split_at (length bytes) chunk in
    elim (split_at-cases (length bytes) chunk) [
      | inl e ↦ let none_left = ap length e in omega (arith, whole, made, fewer, h, none_left)
      | inr e ↦ omega (arith, whole, made, e)
    ]

ok_injective : {A : Type 0} {a b : A} → Path (Outcome A) (ok a) (ok b) → a ≡ b
ok_injective e = cc

module _ {Net : Type 0} (os : Network Net) (pending : Net → List ℕ) (d : Delivers os pending) where
  buffer_emptied :
      (s s' : Socket Net) (bytes : List ℕ)
      → s.is_connected ≡ true
      → length s.buffer < 32
      → recv_connected_into os 32 s ≡ ok (bytes, s')
      → s'.buffer ≡ []
  buffer_emptied s s' bytes c h r =
      let t = into-Received os pending d 32 s c (omega arith) in
      let same = ok_injective (sym t.result ∙ r) in
      ap (λ x. x.1.buffer) (sym same) ∙ t.buffered ∙ all_taken 32 s.buffer h

  -- Of a connection without errors: a string whose zero is in the first piece that is received, with
  -- no zero before it, is received as it stands in the stream, if less than a chunk was kept in the
  -- buffer.
  pub recv_connected_str-read_string :
      (fuel : ℕ) (s s' : Socket Net) (cs xs : List ℕ)
      → s.is_connected ≡ true
      → length s.buffer < 32
      → recv_connected_into os 32 s ≡ ok (cs ++ 0 ∷ xs, s')
      → All (λ c. c ≢ 0) cs
      → seen os pending d (recv_connected_str os (suc fuel) s) ≡ read_string (stream os pending d s)
  recv_connected_str-read_string fuel s s' cs xs c h r z =
      let t = into-Received os pending d 32 s c (omega arith) in
      let same = ok_injective (sym t.result ∙ r) in
      let streamed : stream os pending d s ≡ (cs ++ 0 ∷ xs) ++ stream os pending d s' =
        t.streamed ∙ ap (λ x. x.0 ++ stream os pending d x.1) same in
      let empty = buffer_emptied s s' (cs ++ 0 ∷ xs) c h r in
      rw
        (
          whole_string os fuel s s' cs xs r z,
          streamed,
          append_assoc cs (0 ∷ xs) (stream os pending d s'),
          read_string-text cs (xs ++ stream os pending d s') z,
          empty,
        )
        refl

  kept_less :
      (res after out : List ℕ) (bytes_read size : ℕ) (s s' : Socket Net)
      → s.buffer ≡ []
      → bytes_read ≤ 32
      → keep_extra os res bytes_read size after s ≡ ok (out, s')
      → (length s'.buffer < 32) × (s'.is_connected ≡ s.is_connected)
  unfolding keep_extra
  kept_less res after out bytes_read size s s' b h e =
      elim (Bool-cases (ltb bytes_read (size + 1))) [
        | inl t ↦
            let early : keep_extra os res bytes_read size after s ≡ undefined = rw t refl in
            absurd (undefined_not_ok (sym early ∙ e))
        | inr f ↦
            let extra = (split_at (bytes_read - (size + 1)) after).0 in
            let read : keep_extra os res bytes_read size after s
                ≡ ok (res, record s { buffer = s.buffer ++ extra }) =
              rw f refl in
            let same = ok_injective (sym read ∙ e) in
            let fewer = length-split_at (bytes_read - (size + 1)) after in
            let total = length-append s.buffer extra in
            let emptied = ap length b in
            let kept : length s'.buffer ≡ length (s.buffer ++ extra) =
              ap (λ x. length x.1.buffer) (sym same) in
            (omega (arith, kept, total, emptied, fewer, h), ap (λ x. x.1.is_connected) (sym same))
      ]

  loop_keeps_less :
      (fuel : ℕ) (chunk res out : List ℕ) (s s' : Socket Net)
      → length chunk ≡ 32
      → s.is_connected ≡ true
      → length s.buffer < 32
      → str_loop os fuel chunk res s ≡ ok (out, s')
      → (length s'.buffer < 32) × (s'.is_connected ≡ true)
  unfolding str_loop end_or_next
  loop_keeps_less zero chunk res out s s' n c h e = absurd (cc e)
  loop_keeps_less (suc fuel) chunk res out s s' n c h e =
      let t = into-Received os pending d (length chunk) s c (omega (arith, n)) in
      let k = length t.bytes in
      let chunk' = t.bytes ++ (split_at k chunk).1 in
      let next = str_loop os fuel chunk' (res ++ chunk') t.after in
      let empty = t.buffered ∙ all_taken (length chunk) s.buffer (omega (arith, n, h)) in
      let round : end_or_next os (find_null chunk') res k t.after next ≡ ok (out, s') =
        sym (
          ap
            (λ o. o >>= λ x.
              end_or_next os (find_null (x.0 ++ (split_at (length x.0) chunk).1)) res (length x.0)
                x.1
                (str_loop os fuel (x.0 ++ (split_at (length x.0) chunk).1)
                  (res ++ (x.0 ++ (split_at (length x.0) chunk).1)) x.1))
            t.result)
        ∙ e in
      elim (Option-cases (find_null chunk')) [
        | inl f ↦
            loop_keeps_less fuel chunk' (res ++ chunk') out t.after s'
              (overwritten t.bytes chunk t.bounded ∙ n) t.connected (omega (arith, ap length empty))
              (sym (ap (λ o. end_or_next os o res k t.after next) f) ∙ round)
        | inr (found, f) ↦
            let kept =
              kept_less (res ++ found.0) found.1 out k (length found.0) t.after s' empty
                (omega (arith, n, t.bounded))
                (sym (ap (λ o. end_or_next os o res k t.after next) f) ∙ round) in
            (kept.0, kept.1 ∙ t.connected)
      ]

  -- Of a connection without errors: if a string is received, a socket that was connected and kept less
  -- than a chunk before is connected and keeps less than a chunk after.
  pub recv_connected_str-buffer :
      (fuel : ℕ) (out : List ℕ) (s s' : Socket Net)
      → s.is_connected ≡ true
      → length s.buffer < 32
      → recv_connected_str os fuel s ≡ ok (out, s')
      → (length s'.buffer < 32) × (s'.is_connected ≡ true)
  unfolding recv_connected_str
  recv_connected_str-buffer fuel out s s' c h e =
      loop_keeps_less fuel (repeat 32 0) [] out s s' refl c h e
