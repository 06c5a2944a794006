-- ===== src/Base/Random.antt =====
-- utils/uuid_impl.hpp and utils/Random_impl.hpp: sampling until a value is new. The source of
-- randomness is the list of the values that it will give; `none` means that the list ended
-- before a value was found.
use mathlib.Core.Path.{◌≡◌}
use mathlib.Core.Logic.{◌≢◌}
use mathlib.Core.Bool.{Bool, false}
use mathlib.Core.Option.{Option, none, some}
use mathlib.Core.List.{List, [], ◌∷◌, ◌++◌}
use native.Mathlib.Omega.{arith}
use shared_encryption.Base.Tests.{if◌then◌else◌}

module _ {A : Type 0} where
  -- Samples until the predicate fails.
  unfoldable pub generate_not_pred : (A → Bool) → List A → Option (A × List A)
  generate_not_pred p [] = none
  generate_not_pred p (u ∷ us) = if p u then generate_not_pred p us else some (u, us)

  -- What is sampled does not meet the predicate.
  pub generate_not_pred-new :
      (p : A → Bool) (us : List A) (u : A) (rest : List A)
      → generate_not_pred p us ≡ some (u, rest)
      → p u ≡ false
  unfolding generate_not_pred
  generate_not_pred-new p [] u rest h = ground arith
  generate_not_pred-new p (v ∷ us) u rest h = ground (arith, generate_not_pred-new p us u rest)

  -- A value that will do, anywhere in the source, ends the loop.
  pub generate_not_pred_total :
      (p : A → Bool) (us vs : List A) (u : A)
      → p u ≡ false
      → generate_not_pred p (us ++ u ∷ vs) ≢ none
  unfolding generate_not_pred
  generate_not_pred_total p [] vs u h = ground arith
  generate_not_pred_total p (v ∷ us) vs u h = ground (arith, generate_not_pred_total p us vs u)
