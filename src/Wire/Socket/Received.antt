-- ===== src/Wire/Socket/Received.antt =====
-- One call of `recv_connected_into` (utils/Socket.cpp) over a connection without errors: what it takes
-- off the stream, however the operating system cuts this into pieces.
use shared_encryption.Base.{
  ℕ, zero, suc, ◌-◌, ◌+◌, ◌^◌, ◌≤◌, ◌<◌, ◌≡◌, refl, sym, ap, ◌∙◌, Bool, true, false, not, ◌&&◌,
  ◌||◌, List, [], ◌∷◌, ◌++◌, some, length, length-append, split_at, split_at-append,
  length-split_at, split_at-cases, ◌⊎◌, ltb, Bool-cases, inl, inr, arith,
}
use shared_encryption.Base.Outcome.{ok}
use shared_encryption.Wire.Socket.{Network, Socket, as_int, out_leftover_data, recv_connected_into}

-- A connection without errors: `recv` gives bytes in the order in which they come (`pending`), as
-- many as it was asked for at most, and at least one if there are any to come and it was asked
-- for one. It may fail where the size is no nonnegative `int`.
pub record Delivers {Net : Type 0} (os : Network Net) (pending : Net → List ℕ) : Type 0 where
  pub recv_bytes : (n : ℕ) (net : Net) → List ℕ
  pub recv_net : (n : ℕ) (net : Net) → Net
  pub recv_ok :
      (n : ℕ) (net : Net) → n < 2 ^ 31 → os.recv n net ≡ (some (recv_bytes n net), recv_net n net)
  pub in_order : (n : ℕ) (net : Net) → pending net ≡ recv_bytes n net ++ pending (recv_net n net)
  pub at_most : (n : ℕ) (net : Net) → length (recv_bytes n net) ≤ n
  pub at_least :
      (n : ℕ) (net : Net) → 1 ≤ n → 1 ≤ length (pending net) → 1 ≤ length (recv_bytes n net)

pub as_int_lem : (n : ℕ) → n < 2 ^ 31 → as_int n ≡ n
unfolding as_int
as_int_lem n h = omega arith

pub append_assoc : (xs ys zs : List ℕ) → (xs ++ ys) ++ zs ≡ xs ++ (ys ++ zs)
append_assoc [] ys zs = refl
append_assoc (x ∷ xs) ys zs = ap (λ r. x ∷ r) (append_assoc xs ys zs)

test_some : (m : ℕ) → 1 ≤ m → ltb 0 m ≡ true
test_some m h = ground arith

pub empty_of_length : (xs : List ℕ) → length xs ≤ 0 → xs ≡ []
empty_of_length [] h = refl
empty_of_length (x ∷ xs) h = absurd (omega (arith, h))

pub Nat-cases : (n : ℕ) → (n ≡ 0) ⊎ (1 ≤ n)
Nat-cases zero = inl refl
Nat-cases (suc n) = inr (omega arith)

some_test : (m : ℕ) (b : Bool) → (ltb 0 m && not b) ≡ true → 1 ≤ m
some_test zero b e = absurd (cc e)
some_test (suc m) b e = omega arith

no_data : (a b : Bool) → (a && not b) ≡ true → b ≡ false
no_data true true e = absurd (cc e)
no_data false true e = absurd (cc e)
no_data a false e = refl

pub below : (m n : ℕ) → ltb m n ≡ true → m < n
below m n e = ground (arith, e)

pub not_below : (m n : ℕ) → ltb m n ≡ false → n ≤ m
not_below m n e = ground (arith, e)

or_true : (b : Bool) → (b || true) ≡ true
or_true true = refl
or_true false = refl

module _ {Net : Type 0} (os : Network Net) (pending : Net → List ℕ) (d : Delivers os pending) where
  -- What a socket has still to give.
  abbrev pub stream : Socket Net → List ℕ
  stream s = s.buffer ++ pending s.net

  -- What is known of a call that gave `bytes`.
  pub record Received (n : ℕ) (s : Socket Net) : Type 0 where
    pub bytes : List ℕ
    pub after : Socket Net
    pub result : recv_connected_into os n s ≡ ok (bytes, after)
    pub streamed : stream s ≡ bytes ++ stream after
    pub bounded : length bytes ≤ n
    pub progress : 1 ≤ n → 1 ≤ length (stream s) → 1 ≤ length bytes
    pub connected : after.is_connected ≡ true
    pub buffered : after.buffer ≡ (split_at n s.buffer).1

  only_leftover :
      (n : ℕ) (s : Socket Net)
      → 1 ≤ length (split_at n s.buffer).0
      → os.has_data s.net ≡ false
      → s.is_connected ≡ true
      → Received n s
  unfolding recv_connected_into out_leftover_data
  only_leftover n s h f c = record {
    bytes = (split_at n s.buffer).0;
    after = record s { buffer = (split_at n s.buffer).1 };
    result = rw (test_some (length (split_at n s.buffer).0) h, c, f) refl;
    streamed =
        ap (λ xs. xs ++ pending s.net) (split_at-append n s.buffer)
        ∙ append_assoc (split_at n s.buffer).0 (split_at n s.buffer).1 (pending s.net);
    bounded = length-split_at n s.buffer;
    progress = λ a b. h;
    connected = c;
    buffered = refl;
  }

  -- What is left in the buffer comes before what was received: one of the two is empty.
  swap_empty :
      (n : ℕ) (s : Socket Net)
      → (split_at n s.buffer).1 ++ pending s.net
        ≡ d.recv_bytes (n - length (split_at n s.buffer).0) s.net
          ++ ((split_at n s.buffer).1
              ++ pending (d.recv_net (n - length (split_at n s.buffer).0) s.net))
  swap_empty n s =
      let m = n - length (split_at n s.buffer).0 in
      elim (split_at-cases n s.buffer) [
        | inl e ↦ rw e (d.in_order m s.net)
        | inr e ↦
            let none_asked : m ≡ 0 = omega (arith, e) in
            let nothing =
              empty_of_length (d.recv_bytes m s.net)
                (omega (arith, d.at_most m s.net, none_asked)) in
            rw nothing (
              ap (λ xs. (split_at n s.buffer).1 ++ xs)
                (d.in_order m s.net ∙ ap (λ xs. xs ++ pending (d.recv_net m s.net)) nothing))
      ]

  some_received :
      (n : ℕ) (s : Socket Net)
      → 1 ≤ n
      → 1 ≤ length (stream s)
      → 1
        ≤ length
            ((split_at n s.buffer).0 ++ d.recv_bytes (n - length (split_at n s.buffer).0) s.net)
  some_received n s a b =
      let front = (split_at n s.buffer).0 in
      let back = (split_at n s.buffer).1 in
      let m = n - length front in
      let sizes : length s.buffer ≡ length front + length back =
        ap length (split_at-append n s.buffer) ∙ length-append front back in
      let whole = length-append s.buffer (pending s.net) in
      let got = length-append front (d.recv_bytes m s.net) in
      elim (Nat-cases (length front)) [
        | inl e ↦
            let back_empty : length back ≡ 0 = elim (split_at-cases n s.buffer) [
              | inl t ↦ ap length t
              | inr t ↦ absurd (omega (arith, t, e, a))
            ] in
            let asked : 1 ≤ m = omega (arith, e, a) in
            let come : 1 ≤ length (pending s.net) = omega (arith, sizes, whole, b, e, back_empty) in
            omega (arith, got, d.at_least m s.net asked come)
        | inr h ↦ omega (arith, got, h)
      ]

  more_than_leftover :
      (n : ℕ) (s : Socket Net)
      → (ltb 0 (length (split_at n s.buffer).0) && not (os.has_data s.net)) ≡ false
      → s.is_connected ≡ true
      → n < 2 ^ 31
      → Received n s
  unfolding recv_connected_into out_leftover_data
  more_than_leftover n s f c w =
      let front = (split_at n s.buffer).0 in
      let back = (split_at n s.buffer).1 in
      let m = n - length front in
      record {
        bytes = front ++ d.recv_bytes m s.net;
        after = record { buffer = back; is_connected = s.is_connected; net = d.recv_net m s.net };
        result =
            rw
              (
                f,
                c,
                or_true (ltb 0 (length front)),
                as_int_lem m (omega (arith, w)),
                d.recv_ok m s.net (omega (arith, w)),
              )
              refl;
        streamed =
            ap (λ xs. xs ++ pending s.net) (split_at-append n s.buffer)
            ∙ append_assoc front back (pending s.net)
            ∙ ap (λ xs. front ++ xs) (swap_empty n s)
            ∙ sym
                (append_assoc front (d.recv_bytes m s.net) (back ++ pending (d.recv_net m s.net)));
        bounded = omega (
          arith,
          length-append front (d.recv_bytes m s.net),
          d.at_most m s.net,
          length-split_at n s.buffer,
        );
        progress = λ a b. some_received n s a b;
        connected = c;
        buffered = refl;
      }

  pub into-Received : (n : ℕ) (s : Socket Net) → s.is_connected ≡ true → n < 2 ^ 31 → Received n s
  into-Received n s c w =
      elim (Bool-cases (ltb 0 (length (split_at n s.buffer).0) && not (os.has_data s.net))) [
        | inl e ↦
            only_leftover n s (some_test (length (split_at n s.buffer).0) (os.has_data s.net) e)
              (no_data (ltb 0 (length (split_at n s.buffer).0)) (os.has_data s.net) e) c
        | inr e ↦ more_than_leftover n s e c w
      ]
