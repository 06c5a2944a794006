-- ===== src/Sharing/Poly.antt =====
-- utils/poly_impl.hpp over `ModInt` coefficients (utils/ModInt_impl.hpp) and big integer inputs.
use shared_encryption.Base.{
  ℕ, suc, ◌+◌, ◌*◌, ◌%◌, ◌^◌, ◌≤◌, ◌<◌, ◌≡◌, refl, sym, ap, ◌∙◌, List, [], ◌∷◌, ◌++◌, Option, none,
  some, arith, length, length-append, leb, if◌then◌else◌, Bool-cases, inl, inr,
}
use mathlib.Core.List.{append-nil, append_assoc}
use native.Mathlib.Nat.{pow-suc, pow-zero, mod-add-mod, add-mod-mod, mod-eq_of_lt, mod-lt}
use shared_encryption.Base.Outcome.{Outcome, ok, undefined, or_starved}
use shared_encryption.Arith.Power.{pow, pow_lem}
use shared_encryption.Arith.Modular.{mod_int, mod_add, mod_mul}

-- `res += _coeffs[i] * pow(x, i)` for the coefficients from the `i`th on.
unfoldable pub eval_from : ℕ → ℕ → ℕ → List ℕ → ℕ → Option ℕ
eval_from q x i [] res = some res
eval_from q x i (c ∷ cs) res = elim (pow x i) [
  | none ↦ none
  | some p ↦ eval_from q x (suc i) cs (mod_add q res (mod_mul q c p))
]

-- `operator()`. Of a polynomial with no coefficient it reads `_coeffs[0]` all the same.
unfoldable pub eval : ℕ → List ℕ → ℕ → Outcome ℕ
unfolding eval_from
eval q [] x = undefined
eval q (c ∷ cs) x = or_starved (eval_from q x 1 cs c)

-- `sample_missing_coeffs`: coefficients are drawn until there are `degree + 1`. Fuel: the number
-- of draws; `none` means that too few were given.
unfoldable pub sample_missing_coeffs : ℕ → List ℕ → List ℕ → Option (List ℕ × List ℕ)
sample_missing_coeffs degree coeffs [] =
    if leb (length coeffs) degree then none else some (coeffs, [])
sample_missing_coeffs degree coeffs (d ∷ ds) =
    let more = sample_missing_coeffs degree (coeffs ++ d ∷ []) ds in
    if leb (length coeffs) degree then more else some (coeffs, d ∷ ds)

-- The value of a polynomial over the natural numbers, by Horner's rule.
abbrev pub horner : List ℕ → ℕ → ℕ
horner [] x = 0
horner (c ∷ cs) x = c + x * horner cs x

-- One round, with what is still to be added.
round_mod : (q res t rest : ℕ) → (mod_add q res (mod_int q t) + rest) % q ≡ (res + t + rest) % q
unfolding mod_add mod_int
round_mod q res t rest =
    mod-add-mod (res + t % q) q rest
    ∙ ap (λ (k : ℕ). k % q) (omega arith)
    ∙ add-mod-mod (res + rest) t q
    ∙ ap (λ (k : ℕ). k % q) (omega arith)

round_value :
    (q x i res c rest : ℕ)
    → (mod_add q res (mod_mul q c (x ^ i)) + x ^ suc i * rest) % q
      ≡ (res + x ^ i * (c + x * rest)) % q
unfolding mod_mul mod_int
round_value q x i res c rest =
    round_mod q res (c * x ^ i) (x ^ suc i * rest)
    ∙ ap (λ (k : ℕ). k % q) (rw (pow-suc x i) (omega arith))

-- The loop adds the rest of the polynomial to its accumulator, modulo `q`.
eval_from-horner :
    (q x i : ℕ) (cs : List ℕ) (res : ℕ)
    → res < q
    → eval_from q x i cs res ≡ some ((res + x ^ i * horner cs x) % q)
unfolding eval_from
eval_from-horner q x i [] res h =
    ap some (sym (mod-eq_of_lt h) ∙ ap (λ (k : ℕ). k % q) (omega arith))
eval_from-horner q x i (c ∷ cs) res h =
    rw (pow_lem x i, eval_from)
      (eval_from-horner q x (suc i) cs (mod_add q res (mod_mul q c (x ^ i)))
          (unfold mod_add in mod-lt _ (omega arith))
        ∙ ap some (round_value q x i res c (horner cs x)))

-- A polynomial whose constant coefficient is reduced is evaluated to its value by Horner's rule,
-- reduced: the powers and the loop end, and no reduction on the way matters.
pub eval-horner : (q c x : ℕ) (cs : List ℕ) → c < q → eval q (c ∷ cs) x ≡ ok (horner (c ∷ cs) x % q)
unfolding eval
eval-horner q c x cs h =
    rw (eval_from-horner q x 1 cs c h, eval)
      (ap ok (ap (λ (k : ℕ). (c + k * horner cs x) % q) (pow_one x)))
  where
    pow_one : (b : ℕ) → b ^ 1 ≡ b
    pow_one b = rw (pow-suc b 0, pow-zero b) (omega arith)

-- With enough draws the sampled polynomial has `degree + 1` coefficients, and begins with those
-- that were given.
pub sample_missing_coeffs_lem :
    (degree : ℕ) (coeffs draws : List ℕ)
    → suc degree ≤ length coeffs + length draws
    → length coeffs ≤ suc degree
    → (drawn rest : List ℕ) × (sample_missing_coeffs degree coeffs draws
        ≡ some (coeffs ++ drawn, rest))
      × (length (coeffs ++ drawn) ≡ suc degree)
      × (draws ≡ drawn ++ rest)
unfolding sample_missing_coeffs
sample_missing_coeffs_lem degree coeffs [] h k =
    ([], [], ground (arith, append-nil coeffs), ground (arith, append-nil coeffs), refl)
sample_missing_coeffs_lem degree coeffs (d ∷ ds) h k =
    elim (Bool-cases (leb (length coeffs) degree)) [
      | inl more ↦
          let (drawn, rest, done, full, split) =
            sample_missing_coeffs_lem degree (coeffs ++ d ∷ []) ds
              (omega (arith, length-append coeffs (d ∷ [])))
              (ground (arith, length-append coeffs (d ∷ []))) in
          (
            d ∷ drawn,
            rest,
            rw more
                (done ∙ ap (λ (l : List ℕ). some (l, rest)) (append_assoc coeffs (d ∷ []) drawn)),
            ap length (sym (append_assoc coeffs (d ∷ []) drawn)) ∙ full,
            ap (λ (l : List ℕ). d ∷ l) split,
          )
      | inr enough ↦
          ([], d ∷ ds, rw (enough, append-nil coeffs), rw (append-nil coeffs) (ground arith), refl)
    ]
