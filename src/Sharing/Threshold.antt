-- ===== src/Sharing/Threshold.antt =====
-- utils/Shamir_impl.hpp: decryption from the parts of those who hold shards
-- (`ShamirHybridElGamal`).
pub mod Join
use shared_encryption.Base.{
  ℕ, zero, suc, ◌+◌, ◌%◌, ◌≤◌, ◌<◌, ◌≡◌, ◌≢◌, refl, sym, ap, ◌∙◌, Bool, true, false, not, List, [],
  ◌∷◌, ◌++◌, map, Option, none, some, All, arith, length, length-append, ◌==◌, leb, if◌then◌else◌,
  Bool-cases, inl, inr,
}
use shared_encryption.Base.Key.{nat_key}
use shared_encryption.Base.Set.{
  HashSet, contains, insert, IsDistinct, contains-insert, length-insert,
}
use shared_encryption.Base.Outcome.{
  Outcome, ok, throw, undefined, ◌>>=◌, shamir_zero_id, shamir_same_id, shamir_no_shard,
}
use shared_encryption.Arith.Modular.{mod_add, mod_mul}
use shared_encryption.Sharing.ElGamal.{Group, IsCyclic, Symmetric, decrypt}
use shared_encryption.Sharing.Restore.{
  accumulate, fold_range, get_lagrange_coeff, secret_terms, shards_ids, restore_secret,
  get_lagrange_coeff_total,
}

-- The template's argument of `decrypt_get_2l`.
pub data Layer : Type 0 where
  layer_1 layer_2 : Layer

abbrev pub layer_of {ℓ} : {G : Type ℓ} {C : Type ℓ} → Layer → G × G × C → G
layer_of layer_1 (c1, c2, c3) = c1
layer_of layer_2 (c1, c2, c3) = c2

-- The loop over the IDs: the set of them, and the index of the shard's own.
unfoldable pub scan_ids : ℕ → ℕ → HashSet ℕ → Option ℕ → List ℕ → Outcome (HashSet ℕ × Option ℕ)
scan_ids xi idx seen i [] = ok (seen, i)
scan_ids xi idx seen i (shard_id ∷ ids) =
    let next =
      scan_ids xi (suc idx) (insert shard_id seen) (if shard_id == xi then some idx else i) ids in
    if 0 == shard_id then throw shamir_zero_id else next

abbrev pub or_no_shard : Option ℕ → Outcome ℕ
or_no_shard none = throw shamir_no_shard
or_no_shard (some i) = ok i

module _ {G Key Seed C : Type 0} (q : ℕ) (o : Group G) (e : Symmetric G Key Seed C) where
  unfoldable pub decrypt_get_2l : Layer → G × G × C → ℕ × ℕ → List ℕ → Outcome G
  decrypt_get_2l layer ciphertext (xi, yi) ids = do
    (seen, found) ← scan_ids xi 0 [] none ids
    if not (length ids == length seen) then throw shamir_same_id else (do
      i ← or_no_shard found
      coeff ← get_lagrange_coeff q i ids
      ok (o.pow (layer_of layer ciphertext) (mod_mul q yi coeff)))

  unfoldable pub decrypt_join_2l : G × G × C → List G → List G → Option (List ℕ)
  decrypt_join_2l (c1, c2, c3) parts1 parts2 =
      let z1 = fold_range o.mul o.identity parts1 in
      let z2 = fold_range o.mul o.identity parts2 in e.decrypt c3 (e.kdf z1 z2)

  -- The parts of all who hold the shards of a layer.
  unfoldable pub all_parts : Layer → G × G × C → List ℕ → List (ℕ × ℕ) → Outcome (List G)
  all_parts layer ciphertext ids [] = ok []
  all_parts layer ciphertext ids (s ∷ shards) = do
    part ← decrypt_get_2l layer ciphertext s ids
    parts ← all_parts layer ciphertext ids shards
    ok (part ∷ parts)
