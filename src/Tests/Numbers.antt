-- ===== src/Tests/Numbers.antt =====
-- Powers, polynomials, shards and sets of small numbers.
use shared_encryption.Base.{ℕ_discrete, ◌≡◌, ◌%◌, ◌^◌, refl, [], ◌∷◌, some, arith, map}
use shared_encryption.Base.Key.{nat_key}
use shared_encryption.Base.Set.{contains}
use shared_encryption.Base.Ordered.{nat_order}
use shared_encryption.Base.Outcome.{ok, throw, shamir_same_id}
use shared_encryption.Arith.Modular.{mod_pow, mod_pow_lem}
use shared_encryption.Sharing.Poly.{eval, horner, eval-horner}
use shared_encryption.Sharing.Shards.{make_shards, point, make_shards_lem, make_shards_twice}

mod_pow_lem_example : mod_pow 3 5 7 ≡ some (3 ^ 5 % 7)
mod_pow_lem_example = mod_pow_lem 3 5 7 (omega arith)

eval-horner_example : eval 7 (3 ∷ 2 ∷ []) 4 ≡ ok (horner (3 ∷ 2 ∷ []) 4 % 7)
eval-horner_example = eval-horner 7 3 4 (2 ∷ []) (omega arith)

make_shards_lem_example :
    make_shards 7 (3 ∷ 2 ∷ []) (5 ∷ 1 ∷ []) ≡ ok (map (point 7 (3 ∷ 2 ∷ [])) (5 ∷ 1 ∷ []))
unfolding contains ℕ_discrete
make_shards_lem_example =
    make_shards_lem 7 3 (2 ∷ []) (omega arith) (5 ∷ 1 ∷ []) (omega arith, (omega arith, tt))
      (refl, (refl, tt))

make_shards_twice_example : make_shards 7 (3 ∷ 2 ∷ []) (5 ∷ 1 ∷ 5 ∷ []) ≡ throw shamir_same_id
unfolding contains ℕ_discrete
make_shards_twice_example =
    make_shards_twice 7 3 (2 ∷ []) (omega arith) (5 ∷ 1 ∷ 5 ∷ [])
      (omega arith, (omega arith, (omega arith, tt))) (λ d. cc (d.0))
