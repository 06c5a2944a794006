-- ===== src/Base/Lists.antt =====
-- Lists measured and indexed by the native numbers, under the library's names.
use Prim.Native.Nat.{ℕ, zero, suc, ◌+◌, ◌≤◌}
use mathlib.Core.Path.{◌≡◌, refl, ap}
use mathlib.Core.Logic.{◌⊎◌, inl, inr}
use mathlib.Core.List.{List, [], ◌∷◌, ◌++◌}
use native.Mathlib.Omega.{arith}

module _ {ℓ} {A : Type ℓ} where
  abbrev pub length : List A → ℕ
  length [] = 0
  length (x ∷ xs) = suc (length xs)

  pub length-append : (xs ys : List A) → length (xs ++ ys) ≡ length xs + length ys
  length-append [] ys = omega arith
  length-append (x ∷ xs) ys = omega (arith, length-append xs ys)

abbrev pub repeat {ℓ} : {A : Type ℓ} → ℕ → A → List A
repeat zero a = []
repeat (suc n) a = a ∷ repeat n a

-- `P` holds of every element.
abbrev pub All {ℓ κ} : {A : Type ℓ} → (A → Type κ) → List A → Type κ
All P [] = Unit
All P (x ∷ xs) = P x × All P xs

-- What each element satisfies may be replaced by what follows from it.
pub All-imp {ℓ κ μ} :
    {A : Type ℓ} (P : A → Type κ) (Q : A → Type μ) (f : (x : A) → P x → Q x) (xs : List A)
    → All P xs
    → All Q xs
All-imp P Q f [] h = tt
All-imp P Q f (x ∷ xs) h = (f x h.0, All-imp P Q f xs h.1)

pub All-append {ℓ κ} :
    {A : Type ℓ} (P : A → Type κ) (xs ys : List A) → All P xs → All P ys → All P (xs ++ ys)
All-append P [] ys hx hy = hy
All-append P (x ∷ xs) ys hx hy = (hx.0, All-append P xs ys hx.1 hy)

pub List-cases {ℓ} :
    {A : Type ℓ} (xs : List A) → (xs ≡ []) ⊎ ((x : A) × (rest : List A) × (xs ≡ x ∷ rest))
List-cases [] = inl refl
List-cases (x ∷ xs) = inr (x, xs, refl)

-- The first `n` elements, or all if there are fewer, and the others.
unfoldable pub split_at {ℓ} : {A : Type ℓ} → ℕ → List A → List A × List A
split_at zero xs = ([], xs)
split_at (suc n) [] = ([], [])
split_at (suc n) (x ∷ xs) = let (front, back) = split_at n xs in (x ∷ front, back)

pub split_at-append {ℓ} :
    {A : Type ℓ} (n : ℕ) (xs : List A) → xs ≡ (split_at n xs).0 ++ (split_at n xs).1
unfolding split_at
split_at-append zero xs = refl
split_at-append (suc n) [] = refl
split_at-append (suc n) (x ∷ xs) = ap (λ ys. x ∷ ys) (split_at-append n xs)

pub length-split_at {ℓ} : {A : Type ℓ} (n : ℕ) (xs : List A) → length (split_at n xs).0 ≤ n
unfolding split_at
length-split_at zero xs = omega arith
length-split_at (suc n) [] = omega arith
length-split_at (suc n) (x ∷ xs) = omega (arith, length-split_at n xs)

-- Elements are left only after `n` were taken.
pub split_at-cases {ℓ} :
    {A : Type ℓ} (n : ℕ) (xs : List A) → ((split_at n xs).1 ≡ []) ⊎ (length (split_at n xs).0 ≡ n)
unfolding split_at
split_at-cases zero xs = inr refl
split_at-cases (suc n) [] = inl refl
split_at-cases (suc n) (x ∷ xs) = elim (split_at-cases n xs) [
  | inl e ↦ inl e
  | inr e ↦ inr (omega (arith, e))
]
