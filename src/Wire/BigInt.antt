-- ===== src/Wire/BigInt.antt =====
-- `CryptoPP::Integer` as the packet handlers use it (utils/math.hpp calls it `BigInt`): its three
-- methods are a parameter. The numbers sent are not negative.
use shared_encryption.Base.{ℕ, ◌≤◌, ◌≡◌, List, length}

pub record BigIntCodec : Type 0 where
  -- `MinEncodedSize()`
  pub min_encoded_size : ℕ → ℕ
  -- `Encode(output, outputLen)`: the value as so many bytes
  pub encode : ℕ → ℕ → List ℕ
  -- `Decode(input, inputLen)`
  pub decode : List ℕ → ℕ

-- What Crypto++ documents of them: at least one byte is needed, `Encode` fills its output, and
-- `Decode` gives back what was encoded in `MinEncodedSize()` bytes.
pub record IsLawful (c : BigIntCodec) : Type 0 where
  pub some_size : (v : ℕ) → 1 ≤ c.min_encoded_size v
  pub length-encode : (v n : ℕ) → length (c.encode v n) ≡ n
  pub decode-encode : (v : ℕ) → c.decode (c.encode v (c.min_encoded_size v)) ≡ v
