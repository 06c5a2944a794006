-- ===== src/Sharing/Shards.antt =====
-- utils/Shamir_impl.hpp: the polynomial of a secret, and the shards of it.
use shared_encryption.Base.{
  ℕ, ◌%◌, ◌≤◌, ◌<◌, ◌≡◌, refl, true, false, List, [], ◌∷◌, map, Option, arith, ◌==◌, if◌then◌else◌,
  Bool-cases, inl, inr, All,
}
use shared_encryption.Base.Key.{nat_key}
use shared_encryption.Base.Set.{HashSet, contains, insert, IsDistinct, contains-insert}
use shared_encryption.Base.Outcome.{Outcome, ok, throw, ◌>>=◌, shamir_zero_id, shamir_same_id}
use shared_encryption.Arith.Modular.{mod_int}
use shared_encryption.Sharing.Poly.{eval, eval-horner, horner, sample_missing_coeffs}

-- `sample_poly`: the secret, and `threshold` more coefficients from `secretSampler`.
unfoldable pub sample_poly : ℕ → ℕ → ℕ → List ℕ → Option (List ℕ × List ℕ)
sample_poly q secret threshold draws = sample_missing_coeffs threshold (mod_int q secret ∷ []) draws

unfoldable pub make_shard : ℕ → List ℕ → ℕ → Outcome (ℕ × ℕ)
make_shard q poly shard_id =
    if shard_id == 0 then throw shamir_zero_id else (do y ← eval q poly shard_id; ok (shard_id, y))

-- The loop of `make_shards`, with the IDs that it has seen.
unfoldable pub make_shards_from : ℕ → List ℕ → HashSet ℕ → List ℕ → Outcome (List (ℕ × ℕ))
make_shards_from q poly used [] = ok []
make_shards_from q poly used (x ∷ xs) =
    let rest = make_shards_from q poly (insert x used) xs in
    if contains used x
    then throw shamir_same_id
    else (do s ← make_shard q poly x; ss ← rest; ok (s ∷ ss))

unfoldable pub make_shards : ℕ → List ℕ → List ℕ → Outcome (List (ℕ × ℕ))
unfolding make_shards_from make_shard
make_shards q poly xs = make_shards_from q poly [] xs

-- The point of the polynomial at an ID.
abbrev pub point : ℕ → List ℕ → ℕ → ℕ × ℕ
point q poly x = (x, horner poly x % q)

nonzero : (x : ℕ) → 1 ≤ x → (x == 0) ≡ false
nonzero x h = ground arith

pub still_new :
    (used : HashSet ℕ) (x : ℕ) (xs : List ℕ)
    → contains xs x ≡ false
    → All (λ y. (1 ≤ y) × (contains used y ≡ false)) xs
    → All (λ y. (1 ≤ y) × (contains (insert x used) y ≡ false)) xs
unfolding contains
still_new used x [] h k = tt
still_new used x (y ∷ ys) h k =
    ((k.0.0, ground (arith, contains-insert x y used)), still_new used x ys (ground arith) k.1)

pub All-new : (xs : List ℕ) → All (λ y. 1 ≤ y) xs → All (λ y. (1 ≤ y) × (contains [] y ≡ false)) xs
unfolding contains
All-new [] h = tt
All-new (x ∷ xs) h = ((h.0, refl), All-new xs h.1)

still_to_come :
    (y x : ℕ) (ys used : List ℕ)
    → contains used x ≡ true
    → contains used y ≡ false
    → contains (y ∷ ys) x ≡ true
    → contains ys x ≡ true
unfolding contains
still_to_come y x ys used u n k = ground arith

contains-insert_same : (x : ℕ) (used : HashSet ℕ) → contains (insert x used) x ≡ true
unfolding insert contains
contains-insert_same x used = ground arith

module _ (q c : ℕ) (cs : List ℕ) (reduced : c < q) where
  -- For a polynomial whose constant coefficient is reduced modulo `q`: the shard of an ID that is
  -- not 0 is the point there; ID 0, where the secret is, is refused.
  pub make_shard_lem :
      (x : ℕ)
      → make_shard q (c ∷ cs) x ≡ (if x == 0 then throw shamir_zero_id else ok (point q (c ∷ cs) x))
  unfolding make_shard
  make_shard_lem x = rw (eval-horner q c x cs reduced) refl

  make_shards_from_lem :
      (used : HashSet ℕ) (xs : List ℕ)
      → All (λ x. (1 ≤ x) × (contains used x ≡ false)) xs
      → IsDistinct xs
      → make_shards_from q (c ∷ cs) used xs ≡ ok (map (point q (c ∷ cs)) xs)
  unfolding make_shards_from
  make_shards_from_lem used [] h d = refl
  make_shards_from_lem used (x ∷ xs) h d = rw (
    h.0.1,
    make_shard_lem x,
    nonzero x h.0.0,
    make_shards_from_lem (insert x used) xs (still_new used x xs d.0 h.1) d.1,
  )

  -- For a polynomial whose constant coefficient is reduced modulo `q`: distinct IDs that are not 0
  -- get their points, in order.
  pub make_shards_lem :
      (xs : List ℕ)
      → All (λ x. 1 ≤ x) xs
      → IsDistinct xs
      → make_shards q (c ∷ cs) xs ≡ ok (map (point q (c ∷ cs)) xs)
  unfolding make_shards
  make_shards_lem xs h d = make_shards_from_lem [] xs (All-new xs h) d

  make_shards_from-seen :
      (used : HashSet ℕ) (x : ℕ) (xs : List ℕ)
      → All (λ y. 1 ≤ y) xs
      → contains used x ≡ true
      → contains xs x ≡ true
      → make_shards_from q (c ∷ cs) used xs ≡ throw shamir_same_id
  unfolding make_shards_from contains
  make_shards_from-seen used x [] h u k = ground arith
  make_shards_from-seen used x (y ∷ ys) h u k = elim (Bool-cases (contains used y)) [
    | inl seen ↦ rw seen refl
    | inr new ↦
        rw
          (
            new,
            make_shard_lem y,
            nonzero y h.0,
            make_shards_from-seen (insert y used) x ys h.1
                (ground (arith, contains-insert y x used)) (still_to_come y x ys used u new k),
          )
          refl
  ]

  make_shards_from-twice :
      (used : HashSet ℕ) (xs : List ℕ)
      → All (λ y. 1 ≤ y) xs
      → ¬ IsDistinct xs
      → make_shards_from q (c ∷ cs) used xs ≡ throw shamir_same_id
  unfolding make_shards_from
  make_shards_from-twice used [] h d = absurd (d tt)
  make_shards_from-twice used (x ∷ xs) h d = elim (Bool-cases (contains used x)) [
    | inl seen ↦ rw seen refl
    | inr new ↦ elim (Bool-cases (contains xs x)) [
      | inl again ↦
          rw
            (
              new,
              make_shard_lem x,
              nonzero x h.0,
              make_shards_from-seen (insert x used) x xs h.1 (contains-insert_same x used) again,
            )
            refl
      | inr once ↦
          rw
            (
              new,
              make_shard_lem x,
              nonzero x h.0,
              make_shards_from-twice (insert x used) xs h.1 (λ e. d (once, e)),
            )
            refl
    ]
  ]

  -- For a polynomial whose constant coefficient is reduced modulo `q`: if no ID is 0 and some ID
  -- comes twice, no shards are made, and the IDs are refused.
  pub make_shards_twice :
      (xs : List ℕ)
      → All (λ x. 1 ≤ x) xs
      → ¬ IsDistinct xs
      → make_shards q (c ∷ cs) xs ≡ throw shamir_same_id
  unfolding make_shards
  make_shards_twice xs h d = make_shards_from-twice [] xs h d
