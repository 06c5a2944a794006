-- ===== src/Base/Map.antt =====
-- Finite maps as association lists, for the program's hash maps: `find`, `operator[]` and
-- assignment (`put`), `try_emplace`, `emplace` and `insert` (`emplace`), `erase`. The program
-- never iterates over one of its maps, so the order of the entries is not looked at.
use mathlib.Core.Path.{◌≡◌, refl}
use mathlib.Core.Logic.{ite}
use mathlib.Core.Bool.{Bool, true, false}
use mathlib.Core.Option.{Option, none, some}
use mathlib.Core.List.{List, [], ◌∷◌}
use native.Mathlib.Omega.{arith}
use shared_encryption.Base.Key.{Key}

abbrev pub Map : Type 0 → Type 0 → Type 0
Map K V = List (K × V)

abbrev pub is_some {ℓ} : {A : Type ℓ} → Option A → Bool
is_some none = false
is_some (some a) = true

-- What stands under a key, or a default where nothing does.
abbrev pub or_else {ℓ} : {A : Type ℓ} → Option A → A → A
or_else none d = d
or_else (some a) d = a

-- The first of two optional values that is there.
abbrev pub first_some {ℓ} : {A : Type ℓ} → Option A → Option A → Option A
first_some none o = o
first_some (some a) o = some a

module _ {K V : Type 0} ⦃e : Key K⦄ where
  unfoldable pub find : K → Map K V → Option V
  find k [] = none
  find k ((j, v) ∷ m) = ite (e.discrete j k) (some v) (find k m)

  -- Writes over what is there.
  unfoldable pub put : K → V → Map K V → Map K V
  put k v [] = (k, v) ∷ []
  put k v ((j, w) ∷ m) = ite (e.discrete j k) ((k, v) ∷ m) ((j, w) ∷ put k v m)

  -- Keeps what is there.
  unfoldable pub emplace : K → V → Map K V → Map K V
  emplace k v m = elim (find k m) [ none ↦ (k, v) ∷ m | some w ↦ m ]

  unfoldable pub erase : K → Map K V → Map K V
  erase k [] = []
  erase k ((j, w) ∷ m) = ite (e.discrete j k) (erase k m) ((j, w) ∷ erase k m)

  pub find-put :
      (k j : K) (v : V) (m : Map K V)
      → find j (put k v m) ≡ ite (e.discrete k j) (some v) (find j m)
  unfolding find put
  find-put k j v [] = refl
  find-put k j v ((i, w) ∷ m) = ground (arith, find-put k j v m)

  pub find-emplace :
      (k j : K) (v : V) (m : Map K V)
      → find j (emplace k v m) ≡ ite (e.discrete k j) (first_some (find k m) (some v)) (find j m)
  unfolding emplace find
  find-emplace k j v m = ground arith

  pub find-erase :
      (k j : K) (m : Map K V) → find j (erase k m) ≡ ite (e.discrete k j) none (find j m)
  unfolding find erase
  find-erase k j [] = ground arith
  find-erase k j ((i, w) ∷ m) = ground (arith, find-erase k j m)
