-- ===== src/Sharing/Restore.antt =====
-- utils/Shamir_impl.hpp: Lagrange's coefficients, and the secret restored from shards. `sum` and
-- `product` are those of utils/ranges_impl.hpp.
use shared_encryption.Base.{
  ℕ, zero, suc, ◌-◌, ◌^◌, ◌%◌, ◌<◌, ◌≡◌, refl, List, [], ◌∷◌, ◌++◌, map, length, ◌==◌, leb,
  if◌then◌else◌, Bool-cases, inl, inr,
}
use shared_encryption.Base.Outcome.{
  Outcome, ok, throw, undefined, or_starved, ◌>>=◌, shamir_not_enough,
}
use shared_encryption.Arith.Modular.{mod_int, mod_add, mod_sub, mod_mul, mod_div, mod_div_total}

-- `std::accumulate`
unfoldable pub accumulate : {A : Type 0} → (A → A → A) → A → List A → A
accumulate f res [] = res
accumulate f res (a ∷ rest) = accumulate f (f res a) rest

-- `sum` or `product`: the operation over all elements, or its neutral element.
unfoldable pub fold_range : {A : Type 0} → (A → A → A) → A → List A → A
unfolding accumulate
fold_range f neutral [] = neutral
fold_range f neutral (a ∷ rest) = accumulate f a rest

-- `shardsIDs[i]`
unfoldable pub get_elem : {A : Type 0} → List A → ℕ → Outcome A
get_elem [] i = undefined
get_elem (x ∷ xs) zero = ok x
get_elem (x ∷ xs) (suc i) = get_elem xs i

module _ (q : ℕ) where
  -- The factors for the IDs from the `j`th on, without the `i`th.
  unfoldable pub lagrange_factors : ℕ → ℕ → ℕ → List ℕ → Outcome (List ℕ)
  lagrange_factors i xi j [] = ok []
  lagrange_factors i xi j (xj ∷ ids) =
      let others = lagrange_factors i xi (suc j) ids in
      if j == i then others else (do
        factor ← or_starved (mod_div q (mod_int q xj) (mod_sub q (mod_int q xj) (mod_int q xi)))
        factors ← others
        ok (factor ∷ factors))

  unfoldable pub get_lagrange_coeff : ℕ → List ℕ → Outcome ℕ
  get_lagrange_coeff i ids = do
    xi ← get_elem ids i
    factors ← lagrange_factors i xi 0 ids
    ok (fold_range (mod_mul q) (mod_int q 1) factors)

  -- The summands for the shards from the `i`th on.
  unfoldable pub secret_terms : List ℕ → ℕ → List (ℕ × ℕ) → Outcome (List ℕ)
  secret_terms ids i [] = ok []
  secret_terms ids i ((x, y) ∷ shards) = do
    coeff ← get_lagrange_coeff i ids
    terms ← secret_terms ids (suc i) shards
    ok (mod_mul q y coeff ∷ terms)

  abbrev pub shards_ids : List (ℕ × ℕ) → List ℕ
  shards_ids shards = map (λ s. s.0) shards

  unfoldable pub restore_secret : List (ℕ × ℕ) → ℕ → Outcome ℕ
  restore_secret shards threshold =
      if leb (length shards) threshold then throw shamir_not_enough else (do
        terms ← secret_terms (shards_ids shards) 0 shards
        ok (fold_range (mod_add q) 0 terms))

  lagrange_factors_total :
      (i xi j : ℕ) (ids : List ℕ)
      → 1 < q
      → (factors : List ℕ) × (lagrange_factors i xi j ids ≡ ok factors)
  unfolding lagrange_factors
  lagrange_factors_total i xi j [] h = ([], refl)
  lagrange_factors_total i xi j (xj ∷ ids) h =
      let (factors, e) = lagrange_factors_total i xi (suc j) ids h in
      elim (Bool-cases (j == i)) [
        | inl t ↦ (factors, rw (t, e) refl)
        | inr t ↦ (
          mod_mul q (mod_int q xj) ((mod_sub q (mod_int q xj) (mod_int q xi)) ^ (q - 2) % q)
              ∷ factors,
          rw (t, mod_div_total q (mod_int q xj) (mod_sub q (mod_int q xj) (mod_int q xi)) h, e)
              refl,
        )
      ]

  get_elem-append :
      (before after : List ℕ) (x : ℕ) → get_elem (before ++ x ∷ after) (length before) ≡ ok x
  unfolding get_elem
  get_elem-append [] after x = refl
  get_elem-append (b ∷ before) after x = get_elem-append before after x

  -- The coefficient of an ID that is there can always be computed.
  pub get_lagrange_coeff_total :
      (before after : List ℕ) (x : ℕ)
      → 1 < q
      → (coeff : ℕ) × (get_lagrange_coeff (length before) (before ++ x ∷ after) ≡ ok coeff)
  unfolding get_lagrange_coeff
  get_lagrange_coeff_total before after x h =
      let (factors, e) = lagrange_factors_total (length before) x 0 (before ++ x ∷ after) h in
      (fold_range (mod_mul q) (mod_int q 1) factors, rw (get_elem-append before after x, e) refl)
