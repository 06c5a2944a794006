-- ===== src/Arith/Modular.antt =====
-- utils/ModInt_impl.hpp: arithmetic modulo a number. A `ModInt` is its value, which is below the
-- modulus. The loop of `mod_pow` runs on fuel; more fuel than the exponent is enough.
use shared_encryption.Base.{
  ℕ, zero, suc, ◌+◌, ◌-◌, ◌*◌, ◌/◌, ◌%◌, ◌^◌, ◌<◌, ◌≡◌, refl, sym, ap, ◌∙◌, Option, none, some,
  arith, ◌==◌, ltb, not, if◌then◌else◌, Bool-cases, inl, inr,
}
use mathlib.Core.Option
use native.Mathlib.Nat.{
  mul_assoc, mul_comm, pow-suc, pow-zero, mod-eq_of_lt, mod-lt, mod-add-div, add-mul-mod_self_left,
}
use shared_encryption.Arith.Power.{pow_halve}

-- `mod_pow`, whose loop reduces every product.
unfoldable pub mod_square_multiply : ℕ → ℕ → ℕ → ℕ → ℕ → Option ℕ
mod_square_multiply m zero base e res = none
mod_square_multiply m (suc fuel) base e res =
    let rest =
      mod_square_multiply m fuel (base * base % m) (e / 2)
        (if not (e % 2 == 0) then res * base % m else res) in
    if ltb 0 e then rest else some res

unfoldable pub mod_pow : ℕ → ℕ → ℕ → Option ℕ
unfolding mod_square_multiply
mod_pow base exp modulus = mod_square_multiply modulus (suc exp) (base % modulus) exp 1

-- `ModInt(value)`, `+`, `-`, `*` and `inverse` under a prime modulus.
unfoldable pub mod_int : ℕ → ℕ → ℕ
mod_int q value = value % q

unfoldable pub mod_add : ℕ → ℕ → ℕ → ℕ
mod_add q a b = (a + b) % q

unfoldable pub mod_mul : ℕ → ℕ → ℕ → ℕ
mod_mul q a b = a * b % q

unfoldable pub prime_modular_inverse : ℕ → ℕ → Option ℕ
unfolding mod_pow
prime_modular_inverse q value = mod_pow value (q - 2) q

unfoldable pub mod_sub : ℕ → ℕ → ℕ → ℕ
mod_sub q a b = (q + a - b) % q

-- `/` under a prime modulus.
unfoldable pub mod_div : ℕ → ℕ → ℕ → Option ℕ
mod_div q a b = Option.map (mod_mul q a) (prime_modular_inverse q b)

-- A factor may be reduced before it is multiplied.
pub mod-mul_left : (a b m : ℕ) → (a % m) * b % m ≡ a * b % m
mod-mul_left a b m =
    sym (add-mul-mod_self_left (a % m * b) m (a / m * b))
    ∙ ap (λ (k : ℕ). k % m) (omega (arith, ap (λ (k : ℕ). k * b) (mod-add-div a m)))

pub mod-mul_right : (a b m : ℕ) → a * (b % m) % m ≡ a * b % m
mod-mul_right a b m =
    ap (λ (k : ℕ). k % m) (mul_comm a (b % m))
    ∙ mod-mul_left b a m
    ∙ ap (λ (k : ℕ). k % m) (mul_comm b a)

pub mod-pow : (b n m : ℕ) → (b % m) ^ n % m ≡ b ^ n % m
mod-pow b zero m = rw (pow-zero b, pow-zero (b % m))
mod-pow b (suc n) m =
    rw (pow-suc b n, pow-suc (b % m) n)
      (mod-mul_right ((b % m) ^ n) b m
        ∙ sym (mod-mul_left ((b % m) ^ n) b m)
        ∙ ap (λ (k : ℕ). k * b % m) (mod-pow b n m)
        ∙ mod-mul_left (b ^ n) b m)

-- The squared base may be reduced before it is raised.
square_step : (m b e res : ℕ) → res * (b * b % m) ^ (e / 2) % m ≡ res * (b * b) ^ (e / 2) % m
square_step m b e res =
    sym (mod-mul_right res ((b * b % m) ^ (e / 2)) m)
    ∙ ap (λ (k : ℕ). res * k % m) (mod-pow (b * b) (e / 2) m)
    ∙ mod-mul_right res ((b * b) ^ (e / 2)) m

odd_test : (e : ℕ) → not (e % 2 == 0) ≡ (e % 2 == 1)
odd_test e = ground arith

mod_step :
    (m b e res : ℕ)
    → (if not (e % 2 == 0) then res * b % m else res) * (b * b % m) ^ (e / 2) % m ≡ res * b ^ e % m
mod_step m b e res =
    rw (odd_test e, pow_halve b e)
      (elim (Bool-cases (e % 2 == 1)) [
        | inl odd ↦ rw odd (
            square_step m b e (res * b % m)
            ∙ mod-mul_left (res * b) ((b * b) ^ (e / 2)) m
            ∙ ap (λ (k : ℕ). k % m) (mul_assoc res b ((b * b) ^ (e / 2))))
        | inr even ↦ rw even (square_step m b e res ∙ ap (λ (k : ℕ). k % m) (omega arith))
      ])

pow_none : (m b e res : ℕ) → e ≡ 0 → res < m → res ≡ res * b ^ e % m
pow_none m b zero res h k =
    rw (pow-zero b) (sym (mod-eq_of_lt (omega arith)) ∙ ap (λ (k : ℕ). k % m) (omega arith))
pow_none m b (suc e) res h k = absurd (omega arith)

mod_square_multiply-pow :
    (m fuel b e res : ℕ)
    → e < fuel
    → res < m
    → mod_square_multiply m fuel b e res ≡ some (res * b ^ e % m)
unfolding mod_square_multiply
mod_square_multiply-pow m zero b e res h k = absurd (omega arith)
mod_square_multiply-pow m (suc fuel) b e res h k = elim (Bool-cases (ltb 0 e)) [
  | inl more ↦ rw more (
      mod_square_multiply-pow m fuel (b * b % m) (e / 2)
        (if not (e % 2 == 0) then res * b % m else res) (ground arith)
        (ground (arith, mod-lt (res * b) {m = m}))
      ∙ ap some (mod_step m b e res))
  | inr done ↦ rw done (ap some (pow_none m b e res (ground arith) k))
]

-- Under a modulus above 1, the loop ends with the reduced power.
pub mod_pow_lem :
    (base exp modulus : ℕ) → 1 < modulus → mod_pow base exp modulus ≡ some (base ^ exp % modulus)
unfolding mod_pow
mod_pow_lem base exp modulus h =
    mod_square_multiply-pow modulus (suc exp) (base % modulus) exp 1 (omega arith) h
    ∙ ap some (ap (λ (k : ℕ). k % modulus) (omega arith) ∙ mod-pow base exp modulus)

-- Division under a modulus above 1 always gives a value.
pub mod_div_total : (q a b : ℕ) → 1 < q → mod_div q a b ≡ some (mod_mul q a (b ^ (q - 2) % q))
unfolding mod_div prime_modular_inverse
mod_div_total q a b h = rw (mod_pow_lem b (q - 2) q h) refl
