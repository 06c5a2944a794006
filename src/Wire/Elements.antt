-- ===== src/Wire/Elements.antt =====
-- The values inside packets, as common/EncryptedPacketHandler.cpp writes and reads them: big
-- integers, elements of the curve's group (utils/ECGroup.hpp), key shards and ciphertexts.
use shared_encryption.Base.{
  ℕ, ◌≤◌, ◌<◌, ◌^◌, ◌≡◌, refl, sym, false, length-append, ap, ◌∙◌, List, Option, none, some, arith,
  length, ltb, ◌==◌, if◌then◌else◌,
}
use native.Mathlib.Nat.{mod-eq_of_lt}
use shared_encryption.Base.Outcome.{Outcome, ok, undefined, ◌>>=◌}
use shared_encryption.Arith.Modular.{mod_int}
use shared_encryption.Wire.BigInt.{BigIntCodec, IsLawful}
use shared_encryption.Wire.Bytes.{
  put_primitive, read_primitive, put_buffer, read_buffer, Reads, read-put_primitive,
  read-put_buffer,
}

-- `utils::ECGroup`: a point by its coordinates, or the identity.
pub data Element : Type 0 where
  identity : Element
  point : ℕ → ℕ → Element

-- `enc::Ciphertext<Schema>`: the tuple (c1, c2, (c3a, c3b)).
pub record Ciphertext : Type 0 where
  pub c1 : Element
  pub c2 : Element
  pub c3a : List ℕ
  pub c3b : List ℕ

module _ (c : BigIntCodec) where
  -- A size of 0 stands for `std::nullopt`.
  unfoldable pub put_big_int : Option ℕ → List ℕ → List ℕ
  put_big_int none rest = put_primitive 8 0 rest
  put_big_int (some v) rest =
      put_primitive 8 (c.min_encoded_size v) (put_buffer (c.encode v (c.min_encoded_size v)) rest)

  -- `Decode` is given the size that was read, whatever is left of the buffer: beyond its end the
  -- behaviour is undefined.
  unfoldable pub read_big_int : List ℕ → Outcome (Option ℕ × List ℕ)
  read_big_int it = do
    (size, it') ← read_primitive 8 it
    if size == 0
        then ok (none, it')
        else if ltb (length it') size
        then undefined
        else (let (bytes, end) = read_buffer size it' in ok (some (c.decode bytes), end))

  -- `*value`, which is undefined for `std::nullopt`.
  abbrev pub the_value : Option ℕ × List ℕ → Outcome (ℕ × List ℕ)
  the_value (none, it) = undefined
  the_value (some v, it) = ok (v, it)

  unfoldable pub put_element : Element → List ℕ → List ℕ
  put_element identity rest = put_big_int none rest
  put_element (point x y) rest = put_big_int (some x) (put_big_int (some y) rest)

  -- The second coordinate, after the first.
  abbrev pub read_point : Option ℕ × List ℕ → Outcome (Element × List ℕ)
  read_point (none, it) = ok (identity, it)
  read_point (some x, it) = do r ← read_big_int it; (y, end) ← the_value r; ok (point x y, end)

  unfoldable pub read_element : List ℕ → Outcome (Element × List ℕ)
  read_element it = do r ← read_big_int it; read_point r

  abbrev pub put_shard_id : ℕ → List ℕ → List ℕ
  put_shard_id n rest = put_big_int (some n) rest

  unfoldable pub read_shard_id : List ℕ → Outcome (ℕ × List ℕ)
  read_shard_id it = do r ← read_big_int it; the_value r

  unfoldable pub put_shard : ℕ × ℕ → List ℕ → List ℕ
  put_shard (n, y) rest = put_shard_id n (put_big_int (some y) rest)

  -- The shard's value is made a residue modulo the order `q` of the group.
  unfoldable pub read_shard : ℕ → List ℕ → Outcome ((ℕ × ℕ) × List ℕ)
  read_shard q it = do
    (n, it') ← read_shard_id it
    r ← read_big_int it'
    (y, end) ← the_value r
    ok ((n, mod_int q y), end)

  unfoldable pub put_ciphertext : Ciphertext → List ℕ → List ℕ
  put_ciphertext t rest = put_element t.c1 (
      put_element t.c2 (
        put_primitive 8 (length t.c3a)
          (put_primitive 8 (length t.c3b) (put_buffer t.c3a (put_buffer t.c3b rest)))))

  unfoldable pub read_ciphertext : List ℕ → Outcome (Ciphertext × List ℕ)
  read_ciphertext it0 = do
    (c1, it1) ← read_element it0
    (c2, it2) ← read_element it1
    (c3a_size, it3) ← read_primitive 8 it2
    (c3b_size, it4) ← read_primitive 8 it3
    let (c3a, it5) = read_buffer c3a_size it4 in
        let (c3b, it6) = read_buffer c3b_size it5 in
        ok (record { c1 = c1; c2 = c2; c3a = c3a; c3b = c3b }, it6)

  -- The size of the number fits into 8 bytes.
  abbrev pub Fits : ℕ → Type 0
  Fits v = c.min_encoded_size v < 256 ^ 8

  abbrev pub ElementFits : Element → Type 0
  ElementFits identity = Unit {0}
  ElementFits (point x y) = Fits x × Fits y

  -- The shard's value is a residue.
  abbrev pub ShardFits : ℕ → ℕ × ℕ → Type 0
  ShardFits q (n, y) = Fits n × Fits y × (y < q)

  pub record CiphertextFits (t : Ciphertext) : Type 0 where
    pub c1_fits : ElementFits t.c1
    pub c2_fits : ElementFits t.c2
    pub c3a_fits : length t.c3a < 256 ^ 8
    pub c3b_fits : length t.c3b < 256 ^ 8

sized_buffer :
    (n : ℕ) (bytes rest : List ℕ)
    → length bytes ≡ n
    → read_buffer n (put_buffer bytes rest) ≡ (bytes, rest)
sized_buffer n bytes rest e =
    ap (λ (k : ℕ). read_buffer k (put_buffer bytes rest)) (sym e) ∙ read-put_buffer bytes rest

pub not_zero : (n : ℕ) → 1 ≤ n → (n == 0) ≡ false
not_zero n h = ground arith

not_short :
    (n : ℕ) (bytes rest : List ℕ)
    → length bytes ≡ n
    → ltb (length (put_buffer bytes rest)) n ≡ false
not_short n bytes rest e = ground (arith, length-append bytes rest)

module _ (c : BigIntCodec) (l : IsLawful c) where
  pub read-put_big_int : (v : ℕ) → Fits c v → Reads (read_big_int c) (put_big_int c) (some v)
  unfolding read_big_int put_big_int
  read-put_big_int v h rest =
      let n = c.min_encoded_size v in
      let e = l.length-encode v n in
      rw
        (
          read-put_primitive 8 n h (put_buffer (c.encode v n) rest),
          not_zero n (l.some_size v),
          not_short n (c.encode v n) rest e,
          sized_buffer n (c.encode v n) rest e,
          l.decode-encode v,
        )
        refl

  pub read-put_no_big_int : Reads (read_big_int c) (put_big_int c) none
  unfolding read_big_int put_big_int
  read-put_no_big_int rest = rw (read-put_primitive 8 0 (omega arith) rest) refl

  -- An element of the group is read as it was written.
  pub read-put_element : (e : Element) → ElementFits c e → Reads (read_element c) (put_element c) e
  unfolding read_element put_element
  read-put_element identity h rest = rw (read-put_no_big_int rest) refl
  read-put_element (point x y) h rest =
      rw (read-put_big_int x h.0 (put_big_int c (some y) rest), read-put_big_int y h.1 rest) refl

  pub read-put_shard_id : (n : ℕ) → Fits c n → Reads (read_shard_id c) (put_shard_id c) n
  unfolding read_shard_id
  read-put_shard_id n h rest = rw (read-put_big_int n h rest) refl

  -- A shard whose value is a residue is read as it was written.
  pub read-put_shard :
      (q : ℕ) (s : ℕ × ℕ) → ShardFits c q s → Reads (read_shard c q) (put_shard c) s
  unfolding read_shard put_shard mod_int
  read-put_shard q (n, y) h rest =
      rw (read-put_shard_id n h.0 (put_big_int c (some y) rest), read-put_big_int y h.1 rest)
        (ap (λ (k : ℕ). ok ((n, k), rest)) (mod-eq_of_lt h.2))

  -- A ciphertext is read as it was written.
  pub read-put_ciphertext :
      (t : Ciphertext) → CiphertextFits c t → Reads (read_ciphertext c) (put_ciphertext c) t
  unfolding read_ciphertext put_ciphertext
  read-put_ciphertext t h rest =
      rw
        (
          read-put_element t.c1 h.c1_fits,
          read-put_element t.c2 h.c2_fits,
          read-put_primitive 8 (length t.c3a) h.c3a_fits,
          read-put_primitive 8 (length t.c3b) h.c3b_fits,
          read-put_buffer t.c3a,
          read-put_buffer t.c3b,
        )
        refl
