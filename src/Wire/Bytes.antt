-- ===== src/Wire/Bytes.antt =====
-- utils/bytes.hpp and utils/bytes_impl.hpp: values written to and read from a buffer. A writer is
-- given the bytes that come after the value, a reader the bytes that are left, and a byte is a
-- number below 256.
use shared_encryption.Base.{
  ℕ, zero, suc, ◌+◌, ◌*◌, ◌/◌, ◌%◌, ◌^◌, ◌≤◌, ◌<◌, ◌≡◌, ◌≢◌, refl, sym, ap, ◌∙◌, List, [], ◌∷◌,
  ◌++◌, arith, length, All, ◌==◌, if◌then◌else◌,
}
use native.Mathlib.Nat.{
  div-add-mod, mul-add-mod_self_left, mod-lt, mod-eq_of_lt, mul-le-mul_right, one-le-pow, pow-succ',
}
use shared_encryption.Base.Outcome.{Outcome, ok, undefined, ◌>>=◌}

-- `write_bytes` of a number of `width` bytes, the highest byte first; the cast to this width drops
-- what is above it.
unfoldable pub put_primitive : ℕ → ℕ → List ℕ → List ℕ
put_primitive zero v rest = rest
put_primitive (suc width) v rest = v / 256 ^ width % 256 ∷ put_primitive width v rest

-- `acc` is what was read so far. At the end of the buffer the variable's zeros stay.
unfoldable pub read_digits : ℕ → ℕ → List ℕ → ℕ × List ℕ
read_digits zero acc it = (acc, it)
read_digits (suc width) acc [] = read_digits width (acc * 256) []
read_digits (suc width) acc (b ∷ it) = read_digits width (acc * 256 + b) it

-- `read_bytes` of a number of `width` bytes into a variable that holds 0.
unfoldable pub read_primitive : ℕ → List ℕ → Outcome (ℕ × List ℕ)
unfolding read_digits
read_primitive width it = ok (read_digits width 0 it)

-- A string of `char` ends with a zero.
unfoldable pub put_string : List ℕ → List ℕ → List ℕ
put_string [] rest = 0 ∷ rest
put_string (c ∷ cs) rest = c ∷ put_string cs rest

-- Without a zero all is read, and the iterator goes past the end: the behaviour is undefined.
unfoldable pub read_string : List ℕ → Outcome (List ℕ × List ℕ)
read_string [] = undefined
read_string (b ∷ it) =
    let more = read_string it in
    if b == 0 then ok ([], it) else (do (cs, it') ← more; ok (b ∷ cs, it'))

-- The bytes of a buffer, without their number.
abbrev pub put_buffer : List ℕ → List ℕ → List ℕ
put_buffer bytes rest = bytes ++ rest

-- `read_bytes` into a buffer of `size` zeros.
unfoldable pub read_buffer : ℕ → List ℕ → List ℕ × List ℕ
read_buffer zero it = ([], it)
read_buffer (suc size) [] = let (bytes, it) = read_buffer size [] in (0 ∷ bytes, it)
read_buffer (suc size) (b ∷ it) = let (bytes, it') = read_buffer size it in (b ∷ bytes, it')

-- A loop over a vector.
unfoldable pub put_all : {A : Type 0} → (A → List ℕ → List ℕ) → List A → List ℕ → List ℕ
put_all put [] rest = rest
put_all put (x ∷ xs) rest = put x (put_all put xs rest)

-- A loop over a vector of `count` elements.
unfoldable pub read_all :
    {A : Type 0} → (List ℕ → Outcome (A × List ℕ)) → ℕ → List ℕ → Outcome (List A × List ℕ)
read_all read zero it = ok ([], it)
read_all read (suc count) it = do
  (x, it') ← read it
  (xs, end) ← read_all read count it'
  ok (x ∷ xs, end)

-- What was written of `a` is read as `a`, whatever follows.
abbrev pub Reads :
    {A : Type 0} → (List ℕ → Outcome (A × List ℕ)) → (A → List ℕ → List ℕ) → A → Type 0
Reads read put a = (rest : List ℕ) → read (put a rest) ≡ ok (a, rest)

top_digit : (v m : ℕ) → 1 ≤ m → v % (256 * m) ≡ v / m % 256 * m + v % m
top_digit v m h =
    let k = v / m / 256 in
    let r = v / m % 256 * m + v % m in
    let whole : v ≡ 256 * m * k + r =
      omega (arith, div-add-mod v m, ap (λ (t : ℕ). m * t) (div-add-mod (v / m) 256)) in
    let digit : v / m % 256 * m ≤ 255 * m = mul-le-mul_right m (omega arith) in
    let rest : v % m < m = mod-lt v h in
    let below : r < 256 * m = omega (arith, digit, rest) in
    ap (λ (n : ℕ). n % (256 * m)) whole ∙ mul-add-mod_self_left (256 * m) k r ∙ mod-eq_of_lt below

next_digit :
    (acc v m : ℕ) → 1 ≤ m → (acc * 256 + v / m % 256) * m + v % m ≡ acc * (256 * m) + v % (256 * m)
next_digit acc v m h = omega (arith, top_digit v m h)

pub read_digits-put :
    (width v acc : ℕ) (rest : List ℕ)
    → read_digits width acc (put_primitive width v rest)
      ≡ (acc * 256 ^ width + v % 256 ^ width, rest)
unfolding read_digits put_primitive
read_digits-put zero v acc rest = ap (λ (n : ℕ). (n, rest)) (omega arith)
read_digits-put (suc width) v acc rest =
    read_digits-put width v (acc * 256 + v / 256 ^ width % 256) rest
    ∙ ap (λ (n : ℕ). (n, rest))
        (next_digit acc v (256 ^ width) (one-le-pow width 256 (omega arith))
          ∙ ap (λ (m : ℕ). acc * m + v % m) (sym (pow-succ' 256 width)))

-- A number that fits its width is read as it was written.
pub read-put_primitive :
    (width v : ℕ) → v < 256 ^ width → Reads (read_primitive width) (put_primitive width) v
unfolding read_primitive
read-put_primitive width v h rest =
    rw (read_digits-put width v 0 rest) (ap (λ (n : ℕ). ok (n, rest)) (grind (arith, h)))

-- A string without zeros is read as it was written.
pub read-put_string : (cs : List ℕ) → All (λ c. c ≢ 0) cs → Reads read_string put_string cs
unfolding read_string put_string
read-put_string [] h rest = refl
read-put_string (c ∷ cs) h rest = ground (arith, read-put_string cs h.1 rest)

pub read-put_buffer :
    (bytes rest : List ℕ) → read_buffer (length bytes) (put_buffer bytes rest) ≡ (bytes, rest)
unfolding read_buffer
read-put_buffer [] rest = refl
read-put_buffer (b ∷ bytes) rest = rw (read-put_buffer bytes rest) refl

pub read_all-put_all :
    {A : Type 0} (read : List ℕ → Outcome (A × List ℕ)) (put : A → List ℕ → List ℕ) (xs : List A)
    → All (Reads read put) xs
    → Reads (read_all read (length xs)) (put_all put) xs
unfolding read_all put_all
read_all-put_all read put [] h rest = refl
read_all-put_all read put (x ∷ xs) h rest =
    rw (h.0 (put_all put xs rest), read_all-put_all read put xs h.1 rest) refl
