-- ===== src/Base/Key.antt =====
-- Keys of maps and elements of sets: types whose equality is decided.
use Prim.Native.Nat.{ℕ}
use mathlib.Core.Logic.{ite}
use mathlib.Core.Bool.{Bool, true, false}
use mathlib.Core.List.{List}
use native.Mathlib.Decide.{ℕ_discrete}

pub record Key (K : Type 0) : Type 0 where
  pub discrete : Discrete K

instance abbrev pub nat_key : Key ℕ
nat_key = record { discrete = ℕ_discrete }

unfoldable pub bytes_discrete : Discrete (List ℕ)
unfolding ℕ_discrete
bytes_discrete = hlevel ℕ_discrete

instance abbrev pub bytes_key : Key (List ℕ)
bytes_key = record { discrete = bytes_discrete }

unfoldable pub pair_discrete {ℓ κ} :
    {A : Type ℓ} {B : Type κ} → Discrete A → Discrete B → Discrete (A × B)
pair_discrete da db = hlevel (da, db)

-- A pair of keys is a key.
instance abbrev pub pair_key : {A B : Type 0} ⦃a : Key A⦄ ⦃b : Key B⦄ → Key (A × B)
pair_key ⦃a⦄ ⦃b⦄ = record { discrete = pair_discrete a.discrete b.discrete }

-- The comparison of two keys as a Boolean.
abbrev pub same : {K : Type 0} ⦃e : Key K⦄ → K → K → Bool
same ⦃e⦄ a b = ite (e.discrete a b) true false
