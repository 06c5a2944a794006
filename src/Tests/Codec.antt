-- ===== src/Tests/Codec.antt =====
-- Concrete parameters for the packets: big integers in base 256, a cipher that only pairs, a
-- group of residues, and a connection that delivers two bytes at a time.
use shared_encryption.Base.{
  ℕ, zero, suc, ◌*◌, ◌/◌, ◌%◌, ◌^◌, ◌≤◌, ◌<◌, ◌≡◌, refl, ap, ◌∙◌, List, [], ◌∷◌, some, length, ltb,
  if◌then◌else◌, Bool-cases, inl, inr, arith, split_at-append, length-split_at,
}
use shared_encryption.Base.Lists.{split_at}
use shared_encryption.Wire.BigInt.{BigIntCodec, IsLawful}
use shared_encryption.Wire.Bytes.{put_primitive, read_digits, read_digits-put}
use shared_encryption.Wire.Channel.{Cipher, Opens, length-put_primitive}
use shared_encryption.Wire.Elements.{Element, identity, point}
use shared_encryption.Wire.Handshake.{KeyGroup}
use shared_encryption.Wire.Socket.{Network}
use shared_encryption.Wire.Socket.Received.{Delivers}
use native.Mathlib.Nat.{div-add-mod, mod-lt, mod-eq_of_lt, pow-succ'}

-- How many digits `v` has in base 256.
abbrev digits : ℕ → ℕ → ℕ
digits zero v = 1
digits (suc fuel) v = let more = digits fuel (v / 256) in if ltb v 256 then 1 else suc more

abbrev pub base_256 : BigIntCodec
base_256 = record {
  min_encoded_size = λ v. digits v v;
  encode = λ v n. put_primitive n v [];
  decode = λ bytes. (read_digits (length bytes) 0 bytes).0;
}

some_digits : (fuel v : ℕ) → 1 ≤ digits fuel v
some_digits zero v = omega arith
some_digits (suc fuel) v = ground arith

digits_enough : (fuel v : ℕ) → v ≤ fuel → v < 256 ^ digits fuel v
digits_enough zero v h = omega (arith, h)
digits_enough (suc fuel) v h =
    let next = digits_enough fuel (v / 256) (omega (arith, h, div-add-mod v 256)) in
    let whole = div-add-mod v 256 in
    let rest : v % 256 < 256 = mod-lt v (omega arith) in
    elim (Bool-cases (ltb v 256)) [
      | inl e ↦ rw e (ground (arith, e))
      | inr e ↦ rw e (omega (arith, next, whole, rest, pow-succ' 256 (digits fuel (v / 256))))
    ]

length-encode_lem : (v n : ℕ) → length (put_primitive n v []) ≡ n
length-encode_lem v n = omega (arith, length-put_primitive n v [])

pub base_256-IsLawful : IsLawful base_256
base_256-IsLawful = record {
  some_size = λ v. some_digits v v;
  length-encode = length-encode_lem;
  decode-encode = λ v.
      let n = digits v v in
      rw (length-encode_lem v n) (
        ap (λ r. r.0) (read_digits-put n v 0 [])
        ∙ omega (arith, mod-eq_of_lt (digits_enough v v (omega arith))));
}

abbrev pub pairing : Cipher ℕ
pairing = record { encrypt = λ seed payload. (seed ∷ [], payload); decrypt = λ parts. some parts.1 }

pub pairing-Opens :
    (seed : ℕ) (payload : List ℕ) → length payload < 256 ^ 8 → Opens pairing seed payload
pairing-Opens seed payload h = record { size_1 = omega arith; size_2 = h; decrypt-encrypt = refl }

-- The powers of 2 modulo 11, as points with the second coordinate 1.
abbrev times : Element → Element → Element
times identity t = t
times s identity = s
times (point x _) (point y _) = point (x * y % 11) 1

abbrev power : Element → ℕ → Element
power t zero = identity
power t (suc n) = times t (power t n)

abbrev pub residues : KeyGroup Element
residues = record { generator = point 2 1; pow = power; kdf = λ t. t }

abbrev pair_at_most : ℕ → ℕ
pair_at_most zero = 0
pair_at_most (suc zero) = 1
pair_at_most (suc (suc n)) = 2

abbrev pub by_twos : Network (List ℕ)
by_twos = record {
  recv = λ n net. (some (split_at (pair_at_most n) net).0, (split_at (pair_at_most n) net).1);
  has_data = λ net. ltb 0 (length net);
}

pair_at_most_le : (n : ℕ) → pair_at_most n ≤ n
pair_at_most_le zero = omega arith
pair_at_most_le (suc zero) = omega arith
pair_at_most_le (suc (suc n)) = omega arith

takes_some :
    (n : ℕ) (net : List ℕ) → 1 ≤ n → 1 ≤ length net → 1 ≤ length (split_at (pair_at_most n) net).0
unfolding split_at
takes_some zero net a b = absurd (omega (arith, a))
takes_some (suc n) [] a b = absurd (omega (arith, b))
takes_some (suc zero) (x ∷ net) a b = omega arith
takes_some (suc (suc n)) (x ∷ net) a b = omega arith

pub by_twos-Delivers : Delivers by_twos (λ net. net)
by_twos-Delivers = record {
  recv_bytes = λ n net. (split_at (pair_at_most n) net).0;
  recv_net = λ n net. (split_at (pair_at_most n) net).1;
  recv_ok = λ n net h. refl;
  in_order = λ n net. split_at-append (pair_at_most n) net;
  at_most = λ n net. omega (arith, length-split_at (pair_at_most n) net, pair_at_most_le n);
  at_least = takes_some;
}
