-- ===== src/Arith/Power.antt =====
-- utils/math.hpp, `pow` for a type that is neither fundamental nor has a power method: powers by
-- squaring and multiplying. The loop runs on fuel; more fuel than the exponent is enough.
use mathlib.Core.Path.{ap₂}
use shared_encryption.Base.{
  ℕ, zero, suc, ◌+◌, ◌*◌, ◌/◌, ◌%◌, ◌^◌, ◌<◌, ◌≡◌, sym, ap, ◌∙◌, Option, none, some, arith, ◌==◌,
  ltb, if◌then◌else◌, Bool-cases, inl, inr,
}
use native.Mathlib.Nat.{mul_assoc, mul_comm, pow-suc, pow-zero, zero-add, suc-add}

-- `while (0 < e) { if (e % 2 == 1) res *= base; base *= base; e /= 2; }`
unfoldable pub square_multiply : ℕ → ℕ → ℕ → ℕ → Option ℕ
square_multiply zero base e res = none
square_multiply (suc fuel) base e res =
    let rest =
      square_multiply fuel (base * base) (e / 2) (if e % 2 == 1 then res * base else res) in
    if ltb 0 e then rest else some res

unfoldable pub pow : ℕ → ℕ → Option ℕ
unfolding square_multiply
pow val exp = square_multiply (suc exp) val exp 1

pub pow-add : (b m n : ℕ) → b ^ (m + n) ≡ b ^ m * b ^ n
pow-add b zero n = rw (zero-add n, pow-zero b) (omega arith)
pow-add b (suc m) n =
    ap (λ (k : ℕ). b ^ k) (suc-add m n)
    ∙ pow-suc b (m + n)
    ∙ ap (λ (k : ℕ). k * b) (pow-add b m n)
    ∙ mul_assoc (b ^ m) (b ^ n) b
    ∙ ap (λ (k : ℕ). b ^ m * k) (mul_comm (b ^ n) b)
    ∙ sym (mul_assoc (b ^ m) b (b ^ n))
    ∙ ap (λ (k : ℕ). k * b ^ n) (sym (pow-suc b m))

pub mul-pow : (b c n : ℕ) → (b * c) ^ n ≡ b ^ n * c ^ n
mul-pow b c zero = rw (pow-zero b, pow-zero c, pow-zero (b * c))
mul-pow b c (suc n) = rw (pow-suc b n, pow-suc c n, pow-suc (b * c) n, mul-pow b c n) (omega arith)

pow_bit : (b r : ℕ) → r < 2 → b ^ r ≡ (if r == 1 then b else 1)
pow_bit b zero h = pow-zero b
pow_bit b (suc zero) h = rw (pow-suc b 0, pow-zero b) (omega arith)
pow_bit b (suc (suc r)) h = absurd (omega arith)

-- One round: the exponent is halved and the base squared.
pub pow_halve : (b e : ℕ) → b ^ e ≡ (if e % 2 == 1 then b else 1) * (b * b) ^ (e / 2)
pow_halve b e =
    ap (λ (k : ℕ). b ^ k) e_split
    ∙ pow-add b (e % 2) (e / 2 + e / 2)
    ∙ ap₂ (λ (x y : ℕ). x * y) (pow_bit b (e % 2) (omega arith))
        (pow-add b (e / 2) (e / 2) ∙ sym (mul-pow b b (e / 2)))
  where
    e_split : e ≡ e % 2 + (e / 2 + e / 2)
    e_split = omega arith

square_step :
    (b e res : ℕ) → (if e % 2 == 1 then res * b else res) * (b * b) ^ (e / 2) ≡ res * b ^ e
square_step b e res = rw (pow_halve b e) (elim (Bool-cases (e % 2 == 1)) [
  | inl odd ↦ rw odd (mul_assoc res b ((b * b) ^ (e / 2)))
  | inr even ↦ rw even (omega arith)
])

pow_none : (b e res : ℕ) → e ≡ 0 → res ≡ res * b ^ e
pow_none b zero res h = rw (pow-zero b) (omega arith)
pow_none b (suc e) res h = absurd (omega arith)

-- The loop multiplies its accumulator by the power.
square_multiply-pow :
    (fuel b e res : ℕ) → e < fuel → square_multiply fuel b e res ≡ some (res * b ^ e)
unfolding square_multiply
square_multiply-pow zero b e res h = absurd (omega arith)
square_multiply-pow (suc fuel) b e res h = elim (Bool-cases (ltb 0 e)) [
  | inl more ↦
      rw
        (
          more,
          square_multiply-pow fuel (b * b) (e / 2) (if e % 2 == 1 then res * b else res)
              (ground arith),
        )
        (ap some (square_step b e res))
  | inr done ↦ rw done (ap some (pow_none b e res (ground arith)))
]

-- Raising by squaring and multiplying ends, with the power.
pub pow_lem : (val exp : ℕ) → pow val exp ≡ some (val ^ exp)
unfolding pow
pow_lem val exp = square_multiply-pow (suc exp) val exp 1 (omega arith) ∙ ap some (omega arith)
