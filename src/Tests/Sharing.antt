-- ===== src/Tests/Sharing.antt =====
-- Decryption from parts in the additive group of the residues modulo 11.
use shared_encryption.Base.{
  ℕ_discrete, ℕ, ◌+◌, ◌*◌, ◌%◌, ◌≡◌, refl, sym, ap, ◌∙◌, true, List, [], ◌∷◌, none, some, ◌==◌,
  if◌then◌else◌, arith,
}
use native.Mathlib.Nat.{mod-add-mod, add-mod-mod}
use shared_encryption.Base.Key.{nat_key}
use shared_encryption.Base.Set.{contains}
use shared_encryption.Base.Outcome.{ok, throw, shamir_no_shard}
use shared_encryption.Arith.Modular.{mod-mul_left, mod-mul_right}
use shared_encryption.Sharing.ElGamal.{
  Group, IsCyclic, Symmetric, keygen, encrypt, decrypt, decrypt-encrypt,
}
use shared_encryption.Sharing.Restore.{restore_secret}
use shared_encryption.Sharing.Threshold.{
  layer_1, layer_2, decrypt_get_2l, decrypt_join_2l, all_parts,
}
use shared_encryption.Sharing.Threshold.Join.{decrypt_join_2l-all_parts, decrypt_get_2l_outsider}

abbrev additive : Group ℕ
additive = record {
  generator = 1;
  identity = 0;
  mul = λ a b. (a + b) % 11;
  pow = λ g n. g * n % 11;
}

additive-IsCyclic : IsCyclic additive 11
additive-IsCyclic = record {
  pow_comm = λ g a b.
      mod-mul_left (g * a) b 11 ∙ ap (λ n. n % 11) (omega arith) ∙ sym (mod-mul_left (g * b) a 11);
  pow_zero = λ g. let none : g * 0 ≡ 0 = omega arith in ap (λ n. n % 11) none;
  pow_add = λ g a b.
      mod-mul_right g (a + b) 11
      ∙ ap (λ n. n % 11) (omega arith)
      ∙ sym (mod-add-mod (g * a) 11 (g * b % 11) ∙ add-mod-mod (g * a) (g * b) 11);
}

-- The key is kept with the plaintext, and compared.
abbrev locked : Symmetric ℕ ℕ ℕ (ℕ × List ℕ)
locked = record {
  kdf = λ z1 z2. z1 + 11 * z2;
  encrypt = λ seed plaintext key. (key, plaintext);
  decrypt = λ c key. if c.0 == key then some c.1 else none;
}

opened :
    (seed : ℕ) (plaintext : List ℕ) (key : ℕ)
    → locked.decrypt (locked.encrypt seed plaintext key) key ≡ some plaintext
opened seed plaintext key = let same : (key == key) ≡ true = ground arith in rw same refl

decrypt-encrypt_example :
    decrypt additive locked
      (encrypt additive locked 5 6 0
        (7 ∷ 8 ∷ [])
        (keygen additive locked 3).0
        (keygen additive locked 9).0)
      (keygen additive locked 3).1
      (keygen additive locked 9).1
    ≡ some (7 ∷ 8 ∷ [])
decrypt-encrypt_example =
    decrypt-encrypt additive locked (additive-IsCyclic.pow_comm 1) opened 3 9 5 6 0 (7 ∷ 8 ∷ [])

-- Two points of 3 + 2 x, and one of the constant 9.
abbrev reg_shards : List (ℕ × ℕ)
reg_shards = (1, 5) ∷ (2, 7) ∷ []

abbrev owner_shards : List (ℕ × ℕ)
owner_shards = (4, 9) ∷ []

abbrev secret_message : ℕ × ℕ × (ℕ × List ℕ)
secret_message = (5, 6, (598, 7 ∷ 8 ∷ []))

decrypt_join_2l-all_parts_example :
    (key1 key2 : ℕ) × (parts1 parts2 : List ℕ) × (restore_secret 11 reg_shards 1 ≡ ok key1)
    × (restore_secret 11 owner_shards 0 ≡ ok key2)
    × (all_parts 11 additive locked layer_1 secret_message (1 ∷ 2 ∷ []) reg_shards ≡ ok parts1)
    × (all_parts 11 additive locked layer_2 secret_message (4 ∷ []) owner_shards ≡ ok parts2)
    × (decrypt_join_2l 11 additive locked secret_message parts1 parts2
        ≡ decrypt additive locked secret_message key1 key2)
unfolding contains ℕ_discrete
decrypt_join_2l-all_parts_example =
    decrypt_join_2l-all_parts 11 additive locked (omega arith) additive-IsCyclic secret_message
      reg_shards owner_shards 1 0 (omega arith) (omega arith) (omega arith, (omega arith, tt))
      (omega arith, tt) (refl, (refl, tt)) (refl, tt)

decrypt_get_2l_outsider_example :
    decrypt_get_2l 11 additive locked layer_1 secret_message (3, 1) (1 ∷ 2 ∷ [])
    ≡ throw shamir_no_shard
unfolding contains ℕ_discrete
decrypt_get_2l_outsider_example =
    decrypt_get_2l_outsider 11 additive locked (omega arith) layer_1 secret_message (1 ∷ 2 ∷ []) 3 1
      (omega arith, (omega arith, tt)) (refl, (refl, tt)) refl
