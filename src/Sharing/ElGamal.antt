-- ===== src/Sharing/ElGamal.antt =====
-- utils/enc/HybridElGamal2L_impl.hpp: encryption in two layers. The group (utils/ECGroup.hpp, over
-- Crypto++), the derivation of the symmetric key and the symmetric schema are parameters.
use shared_encryption.Base.{ℕ, ◌+◌, ◌%◌, ◌≡◌, List, Option, some}

pub record Group (G : Type 0) : Type 0 where
  pub generator : G
  pub identity : G
  pub mul : G → G → G
  pub pow : G → ℕ → G

-- Powers commute; `q` is the order, modulo which exponents are added.
pub record IsCyclic {G : Type 0} (o : Group G) (q : ℕ) : Type 0 where
  pub pow_comm : (g : G) (a b : ℕ) → o.pow (o.pow g a) b ≡ o.pow (o.pow g b) a
  pub pow_zero : (g : G) → o.pow g 0 ≡ o.identity
  pub pow_add : (g : G) (a b : ℕ) → o.pow g ((a + b) % q) ≡ o.mul (o.pow g a) (o.pow g b)

-- The key derivation and the symmetric schema; `Seed` is what its random source gives.
pub record Symmetric (G Key Seed C : Type 0) : Type 0 where
  pub kdf : G → G → Key
  pub encrypt : Seed → List ℕ → Key → C
  pub decrypt : C → Key → Option (List ℕ)

module _ {G Key Seed C : Type 0} (o : Group G) (e : Symmetric G Key Seed C) where
  -- The private key is drawn; the public key comes first.
  unfoldable pub keygen : ℕ → G × ℕ
  keygen priv_key = (o.pow o.generator priv_key, priv_key)

  -- `r1` and `r2` are drawn.
  unfoldable pub encrypt : ℕ → ℕ → Seed → List ℕ → G → G → G × G × C
  encrypt r1 r2 seed plaintext pub_key1 pub_key2 =
      let z1 = o.pow pub_key1 r1 in
      let z2 = o.pow pub_key2 r2 in
      (o.pow o.generator r1, o.pow o.generator r2, e.encrypt seed plaintext (e.kdf z1 z2))

  unfoldable pub decrypt : G × G × C → ℕ → ℕ → Option (List ℕ)
  decrypt (c1, c2, c3) priv_key1 priv_key2 =
      e.decrypt c3 (e.kdf (o.pow c1 priv_key1) (o.pow c2 priv_key2))

  -- What is encrypted under two generated public keys is decrypted with the two private keys, if
  -- powers of the generator commute and the symmetric schema decrypts what it encrypts.
  pub decrypt-encrypt :
      ((a b : ℕ) → o.pow (o.pow o.generator a) b ≡ o.pow (o.pow o.generator b) a)
      → ((seed : Seed) (plaintext : List ℕ) (key : Key)
          → e.decrypt (e.encrypt seed plaintext key) key ≡ some plaintext)
      → (k1 k2 r1 r2 : ℕ) (seed : Seed) (plaintext : List ℕ)
      → decrypt
          (encrypt r1 r2 seed plaintext (keygen k1).0 (keygen k2).0)
          (keygen k1).1
          (keygen k2).1
        ≡ some plaintext
  unfolding decrypt encrypt keygen
  decrypt-encrypt commute opens k1 k2 r1 r2 seed plaintext =
      let z1 = o.pow (o.pow o.generator r1) k1 in
      let z2 = o.pow (o.pow o.generator r2) k2 in
      rw (← commute r1 k1, ← commute r2 k2) (opens seed plaintext (e.kdf z1 z2))
