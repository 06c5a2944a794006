-- ===== src/Base/Set.antt =====
-- Finite sets as lists without repetitions, for the program's hash sets. The order of a hash set
-- is unspecified: here a new element comes first.
use Prim.Native.Nat.{suc}
use mathlib.Core.Path.{◌≡◌}
use mathlib.Core.Logic.{ite}
use mathlib.Core.Bool.{Bool, true, false}
use mathlib.Core.List.{List, [], ◌∷◌}
use native.Mathlib.Omega.{arith}
use shared_encryption.Base.Key.{Key}
use shared_encryption.Base.Tests.{if◌then◌else◌}
use shared_encryption.Base.Lists.{length}

abbrev pub HashSet : Type 0 → Type 0
HashSet K = List K

module _ {K : Type 0} ⦃e : Key K⦄ where
  unfoldable pub contains : List K → K → Bool
  contains [] a = false
  contains (x ∷ xs) a = ite (e.discrete x a) true (contains xs a)

  unfoldable pub insert : K → HashSet K → HashSet K
  insert a xs = if contains xs a then xs else a ∷ xs

  abbrev pub IsDistinct : List K → Type 0
  IsDistinct [] = Unit {0}
  IsDistinct (x ∷ xs) = (contains xs x ≡ false) × IsDistinct xs

  pub contains-insert :
      (a b : K) (xs : HashSet K)
      → contains (insert a xs) b ≡ ite (e.discrete a b) true (contains xs b)
  unfolding insert contains
  contains-insert a b xs = ground arith

  pub length-insert :
      (a : K) (xs : HashSet K)
      → length (insert a xs) ≡ (if contains xs a then length xs else suc (length xs))
  unfolding insert
  length-insert a xs = ground arith

  pub insert-IsDistinct : (a : K) (xs : HashSet K) → IsDistinct xs → IsDistinct (insert a xs)
  unfolding insert
  insert-IsDistinct a xs h = ground arith
