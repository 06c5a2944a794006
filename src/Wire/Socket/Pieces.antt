-- ===== src/Wire/Socket/Pieces.antt =====
-- Strings from a stream that the operating system gives in pieces: `recv_connected_str` of
-- utils/Socket_impl.hpp between other reads.
use shared_encryption.Base.{
  ℕ, zero, suc, ◌-◌, ◌≤◌, ◌<◌, ◌≡◌, ◌≢◌, refl, sym, ap, ◌∙◌, true, false, List, [], ◌∷◌, ◌++◌, none,
  some, All, length, length-append, repeat, split_at-append, ltb, leb, ◌==◌, if◌then◌else◌,
  Bool-cases, inl, inr, arith,
}
use shared_encryption.Base.Lists.{split_at}
use shared_encryption.Base.Outcome.{Outcome, ok, ◌>>=◌}
use shared_encryption.Wire.Socket.{
  Network, Socket, as_int, out_leftover_data, find_null, recv_connected_into, end_or_next, str_loop,
  recv_connected_str,
}
use shared_encryption.Wire.Socket.Received.{append_assoc}
use shared_encryption.Wire.Socket.Strings.{whole_string_loop}

-- How many bytes the operating system has at hand, by what is still to come.
abbrev pub Pieces : Type 0
Pieces = List ℕ → ℕ

-- A connection whose `recv` gives what is at hand, and no more than it is asked for.
abbrev pub in_pieces : Pieces → Network (List ℕ)
in_pieces piece = record {
  recv = λ n net.
      let m = if leb n (piece net) then n else piece net in
      (some (split_at m net).0, (split_at m net).1);
  has_data = λ net. ltb 0 (length net);
}

-- A connected socket that kept nothing.
abbrev pub connected : List ℕ → Socket (List ℕ)
connected stream = record { buffer = []; is_connected = true; net = stream }

-- A string off a stream. What the socket keeps in its buffer comes before what is still to come.
unfoldable pub recv_string : Pieces → List ℕ → Outcome (List ℕ × List ℕ)
recv_string piece sock = do
  (cs, s) ← recv_connected_str (in_pieces piece) (suc (length sock)) (connected sock)
  ok (cs, s.buffer ++ s.net)

-- A chunk's worth of bytes is at hand, or all that is still to come.
abbrev pub HasChunks : Pieces → Type 0
HasChunks piece = (stream : List ℕ) → 32 ≤ piece stream

into_chunk :
    (piece : Pieces) (stream : List ℕ)
    → HasChunks piece
    → recv_connected_into (in_pieces piece) 32 (connected stream)
      ≡ ok ((split_at 32 stream).0, connected (split_at 32 stream).1)
unfolding recv_connected_into out_leftover_data as_int split_at
into_chunk piece stream full =
    let enough : leb 32 (piece stream) ≡ true = ground (arith, full stream) in rw enough refl

-- The zero behind `cs` is among the first `n` bytes.
split_through :
    (n : ℕ) (cs rest : List ℕ)
    → length cs < n
    → split_at n (cs ++ 0 ∷ rest)
      ≡ (cs ++ 0 ∷ (split_at (n - suc (length cs)) rest).0, (split_at (n - suc (length cs)) rest).1)
unfolding split_at
split_through zero cs rest h = absurd (omega (arith, h))
split_through (suc n) [] rest h =
    let same : n ≡ suc n - 1 = omega arith in
    ap (λ k. (0 ∷ (split_at k rest).0, (split_at k rest).1)) same
split_through (suc n) (c ∷ cs) rest h =
    let same : n - suc (length cs) ≡ suc n - suc (suc (length cs)) = omega arith in
    ap (λ x. (c ∷ x.0, x.1)) (split_through n cs rest (omega (arith, h)))
    ∙ ap (λ k. (c ∷ cs ++ 0 ∷ (split_at k rest).0, (split_at k rest).1)) same

-- The first `n` bytes are among `cs`.
split_within :
    (n : ℕ) (cs rest : List ℕ)
    → n ≤ length cs
    → split_at n (cs ++ rest) ≡ ((split_at n cs).0, (split_at n cs).1 ++ rest)
unfolding split_at
split_within zero cs rest h = refl
split_within (suc n) [] rest h = absurd (omega (arith, h))
split_within (suc n) (c ∷ cs) rest h =
    ap (λ x. (c ∷ x.0, x.1)) (split_within n cs rest (omega (arith, h)))

length-split_at_within : (n : ℕ) (cs : List ℕ) → n ≤ length cs → length (split_at n cs).0 ≡ n
unfolding split_at
length-split_at_within zero cs h = refl
length-split_at_within (suc n) [] h = absurd (omega (arith, h))
length-split_at_within (suc n) (c ∷ cs) h = omega (arith, length-split_at_within n cs)

nothing_left : (n : ℕ) (cs : List ℕ) → length cs ≤ n → (split_at n cs).1 ≡ []
unfolding split_at
nothing_left zero [] h = refl
nothing_left zero (c ∷ cs) h = absurd (omega (arith, h))
nothing_left (suc n) [] h = refl
nothing_left (suc n) (c ∷ cs) h = nothing_left n cs (omega (arith, h))

All-split_at :
    (P : ℕ → Type 0) (n : ℕ) (cs : List ℕ)
    → All P cs
    → All P (split_at n cs).0 × All P (split_at n cs).1
unfolding split_at
All-split_at P zero cs h = (tt, h)
All-split_at P (suc n) [] h = (tt, tt)
All-split_at P (suc n) (c ∷ cs) h =
    ((h.0, (All-split_at P n cs h.1).0), (All-split_at P n cs h.1).1)

not_null : (c : ℕ) → c ≢ 0 → (c == 0) ≡ false
not_null c h = ground (arith, h)

find_null-none : (cs : List ℕ) → All (λ c. c ≢ 0) cs → find_null cs ≡ none
unfolding find_null
find_null-none [] h = refl
find_null-none (c ∷ cs) h = rw (find_null-none cs h.1, not_null c h.0) refl

append-nil : (xs : List ℕ) → xs ++ [] ≡ xs
append-nil [] = refl
append-nil (x ∷ xs) = ap (λ ys. x ∷ ys) (append-nil xs)

-- A round that receives a chunk without a zero.
next_round :
    (piece : Pieces) (fuel : ℕ) (chunk res cs rest : List ℕ)
    → HasChunks piece
    → length chunk ≡ 32
    → 32 ≤ length cs
    → All (λ c. c ≢ 0) cs
    → str_loop (in_pieces piece) (suc fuel) chunk res (connected (cs ++ rest))
      ≡ str_loop
          (in_pieces piece)
          fuel
          (split_at 32 cs).0
          (res ++ (split_at 32 cs).0)
          (connected ((split_at 32 cs).1 ++ rest))
unfolding str_loop end_or_next
next_round piece fuel chunk res cs rest full n long text =
    let front = (split_at 32 cs).0 in
    let cut = split_within 32 cs rest long in
    let read : recv_connected_into (in_pieces piece) (length chunk) (connected (cs ++ rest))
        ≡ ok (front, connected ((split_at 32 cs).1 ++ rest)) =
      ap (λ k. recv_connected_into (in_pieces piece) k (connected (cs ++ rest))) n
      ∙ into_chunk piece (cs ++ rest) full
      ∙ ap (λ x. ok (x.0, connected x.1)) cut in
    let size = length-split_at_within 32 cs long in
    let all_new : front ++ (split_at (length front) chunk).1 ≡ front =
      ap (λ ys. front ++ ys) (nothing_left (length front) chunk (omega (arith, n, size)))
      ∙ append-nil front in
    let no_end = find_null-none front (All-split_at (λ c. c ≢ 0) 32 cs text).0 in
    rw (read, all_new, no_end) refl

-- What the loop gives: the string, and a socket from which the rest will come.
record Given (res cs rest : List ℕ) (o : Outcome (List ℕ × Socket (List ℕ))) : Type 0 where
  pub socket : Socket (List ℕ)
  pub result : o ≡ ok (res ++ cs, socket)
  pub streamed : socket.buffer ++ socket.net ≡ rest

last_round :
    (piece : Pieces) (fuel : ℕ) (chunk res cs rest : List ℕ)
    → HasChunks piece
    → length chunk ≡ 32
    → length cs < 32
    → All (λ c. c ≢ 0) cs
    → Given res cs rest
        (str_loop (in_pieces piece) (suc fuel) chunk res (connected (cs ++ 0 ∷ rest)))
last_round piece fuel chunk res cs rest full n short text =
    let front = (split_at (32 - suc (length cs)) rest).0 in
    let back = (split_at (32 - suc (length cs)) rest).1 in
    let read : recv_connected_into (in_pieces piece) (length chunk) (connected (cs ++ 0 ∷ rest))
        ≡ ok (cs ++ 0 ∷ front, connected back) =
      ap (λ k. recv_connected_into (in_pieces piece) k (connected (cs ++ 0 ∷ rest))) n
      ∙ into_chunk piece (cs ++ 0 ∷ rest) full
      ∙ ap (λ x. ok (x.0, connected x.1)) (split_through 32 cs rest short) in
    record {
      socket = record { buffer = front; is_connected = true; net = back };
      result =
          whole_string_loop (in_pieces piece) fuel chunk res (connected (cs ++ 0 ∷ rest))
            (connected back) cs front read text;
      streamed = sym (split_at-append (32 - suc (length cs)) rest);
    }

loop-Given :
    (piece : Pieces) (fuel : ℕ) (chunk res cs rest : List ℕ)
    → HasChunks piece
    → length chunk ≡ 32
    → length cs < fuel
    → All (λ c. c ≢ 0) cs
    → Given res cs rest (str_loop (in_pieces piece) fuel chunk res (connected (cs ++ 0 ∷ rest)))
loop-Given piece zero chunk res cs rest full n enough text = absurd (omega (arith, enough))
loop-Given piece (suc fuel) chunk res cs rest full n enough text =
    elim (Bool-cases (ltb (length cs) 32)) [
      | inl short ↦ last_round piece fuel chunk res cs rest full n (ground (arith, short)) text
      | inr long ↦
          let front = (split_at 32 cs).0 in
          let back = (split_at 32 cs).1 in
          let many : 32 ≤ length cs = ground (arith, long) in
          let size = length-split_at_within 32 cs many in
          let whole = split_at-append 32 cs in
          let total = ap length whole ∙ length-append front back in
          let g =
            loop-Given piece fuel front (res ++ front) back rest full size
              (omega (arith, enough, size, total)) (All-split_at (λ c. c ≢ 0) 32 cs text).1 in
          record {
            socket = g.socket;
            result =
                next_round piece fuel chunk res cs (0 ∷ rest) full n many text
                ∙ g.result
                ∙ ap (λ x. ok (x, g.socket))
                    (append_assoc res front back ∙ ap (λ x. res ++ x) (sym whole));
            streamed = g.streamed;
          }
    ]

-- A string without zeros, of any length, is received as it was sent if a chunk's worth of bytes, or
-- all that is still to come, is at hand in each round.
pub recv_string_lem :
    (piece : Pieces) (cs rest : List ℕ)
    → HasChunks piece
    → All (λ c. c ≢ 0) cs
    → recv_string piece (cs ++ 0 ∷ rest) ≡ ok (cs, rest)
unfolding recv_string recv_connected_str
recv_string_lem piece cs rest full text =
    let size = length-append cs (0 ∷ rest) in
    let g =
      loop-Given piece (suc (length (cs ++ 0 ∷ rest))) (repeat 32 0) [] cs rest full refl
        (omega (arith, size)) text in
    rw (g.result, g.streamed) refl
