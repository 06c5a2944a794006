-- ===== src/Base/Ordered.antt =====
-- `std::set` and utils/ranges_impl.hpp, `to_ordered_set`: ordered sets as ascending lists.
use Prim.Native.Nat.{ℕ}
use mathlib.Core.Path.{◌≡◌, refl}
use mathlib.Core.Logic.{ite}
use mathlib.Core.Bool.{Bool, true, false, ◌||◌}
use mathlib.Core.List.{List, [], ◌∷◌}
use native.Mathlib.Omega.{arith}
use shared_encryption.Base.Tests.{ltb, if◌then◌else◌}
use shared_encryption.Base.Lists.{All}
use shared_encryption.Base.Key.{Key, nat_key, bytes_key}
use shared_encryption.Base.Set.{contains, IsDistinct}

-- `operator<`, a strict order in which no two keys are level.
pub record Order (K : Type 0) : Type 0 where
  pub lt : K → K → Bool
  pub irrefl : (a : K) → lt a a ≡ false
  pub trans : (a b c : K) → lt a b ≡ true → lt b c ≡ true → lt a c ≡ true
  pub connected : (a b : K) → lt a b ≡ false → lt b a ≡ false → a ≡ b

-- `operator<` of `std::string`, which the standard library defines: byte by byte.
unfoldable pub bytes_lt : List ℕ → List ℕ → Bool
bytes_lt [] [] = false
bytes_lt [] (y ∷ ys) = true
bytes_lt (x ∷ xs) [] = false
bytes_lt (x ∷ xs) (y ∷ ys) = if ltb x y then true else if ltb y x then false else bytes_lt xs ys

pub bytes_lt_irrefl : (a : List ℕ) → bytes_lt a a ≡ false
unfolding bytes_lt
bytes_lt_irrefl [] = refl
bytes_lt_irrefl (x ∷ xs) = ground (arith, bytes_lt_irrefl xs)

pub bytes_lt_trans :
    (a b c : List ℕ) → bytes_lt a b ≡ true → bytes_lt b c ≡ true → bytes_lt a c ≡ true
unfolding bytes_lt
bytes_lt_trans [] [] c p q = cc
bytes_lt_trans [] (y ∷ ys) [] p q = cc
bytes_lt_trans [] (y ∷ ys) (z ∷ zs) p q = refl
bytes_lt_trans (x ∷ xs) [] c p q = cc
bytes_lt_trans (x ∷ xs) (y ∷ ys) [] p q = cc
bytes_lt_trans (x ∷ xs) (y ∷ ys) (z ∷ zs) p q = ground (arith, bytes_lt_trans xs ys zs)

pub bytes_lt_connected : (a b : List ℕ) → bytes_lt a b ≡ false → bytes_lt b a ≡ false → a ≡ b
unfolding bytes_lt
bytes_lt_connected [] [] p q = refl
bytes_lt_connected [] (y ∷ ys) p q = cc
bytes_lt_connected (x ∷ xs) [] p q = cc
bytes_lt_connected (x ∷ xs) (y ∷ ys) p q = ground (arith, bytes_lt_connected xs ys)

pub ltb_irrefl : (a : ℕ) → ltb a a ≡ false
ltb_irrefl a = ground arith

pub ltb_trans : (a b c : ℕ) → ltb a b ≡ true → ltb b c ≡ true → ltb a c ≡ true
ltb_trans a b c p q = ground arith

pub ltb_connected : (a b : ℕ) → ltb a b ≡ false → ltb b a ≡ false → a ≡ b
ltb_connected a b p q = ground arith

instance abbrev pub bytes_order : Order (List ℕ)
bytes_order = record {
  lt = bytes_lt;
  irrefl = bytes_lt_irrefl;
  trans = bytes_lt_trans;
  connected = bytes_lt_connected;
}

instance abbrev pub nat_order : Order ℕ
nat_order = record { lt = ltb; irrefl = ltb_irrefl; trans = ltb_trans; connected = ltb_connected }

module _ {K : Type 0} ⦃o : Order K⦄ where
  -- An element that is level with a new one stays.
  unfoldable pub insert_ordered : K → List K → List K
  insert_ordered a [] = a ∷ []
  insert_ordered a (x ∷ xs) =
      if o.lt a x then a ∷ x ∷ xs else if o.lt x a then x ∷ insert_ordered a xs else x ∷ xs

  unfoldable pub insert_all : List K → List K → List K
  insert_all acc [] = acc
  insert_all acc (x ∷ xs) = insert_all (insert_ordered x acc) xs

  unfoldable pub to_ordered_set : List K → List K
  unfolding insert_all
  to_ordered_set xs = insert_all [] xs

  abbrev pub IsAscending : List K → Type 0
  IsAscending [] = Unit {0}
  IsAscending (x ∷ xs) = All (λ y. o.lt x y ≡ true) xs × IsAscending xs

  below_insert :
      (b a : K) (xs : List K)
      → o.lt b a ≡ true
      → All (λ y. o.lt b y ≡ true) xs
      → All (λ y. o.lt b y ≡ true) (insert_ordered a xs)
  unfolding insert_ordered
  below_insert b a [] h k = (h, tt)
  below_insert b a (x ∷ xs) h k = ground (arith, below_insert b a xs h k.1)

  below-All :
      (a x : K) (xs : List K)
      → o.lt a x ≡ true
      → All (λ y. o.lt x y ≡ true) xs
      → All (λ y. o.lt a y ≡ true) xs
  below-All a x [] h k = tt
  below-All a x (y ∷ ys) h k = (o.trans a x y h k.0, below-All a x ys h k.1)

  pub insert_ordered-IsAscending :
      (a : K) (xs : List K) → IsAscending xs → IsAscending (insert_ordered a xs)
  unfolding insert_ordered
  insert_ordered-IsAscending a [] h = (tt, tt)
  insert_ordered-IsAscending a (x ∷ xs) h =
      ground (arith, below_insert x a xs, insert_ordered-IsAscending a xs h.1, below-All a x xs)

  insert_all-IsAscending : (acc xs : List K) → IsAscending acc → IsAscending (insert_all acc xs)
  unfolding insert_all
  insert_all-IsAscending acc [] h = h
  insert_all-IsAscending acc (x ∷ xs) h =
      insert_all-IsAscending (insert_ordered x acc) xs (insert_ordered-IsAscending x acc h)

  -- The set's elements ascend, so that none comes twice.
  pub to_ordered_set-IsAscending : (xs : List K) → IsAscending (to_ordered_set xs)
  unfolding to_ordered_set
  to_ordered_set-IsAscending xs = insert_all-IsAscending [] xs tt

module _ {K : Type 0} ⦃o : Order K⦄ ⦃e : Key K⦄ where
  pub contains-insert_ordered :
      (a b : K) (xs : List K)
      → contains (insert_ordered a xs) b ≡ ite (e.discrete a b) true (contains xs b)
  unfolding insert_ordered contains
  contains-insert_ordered a b [] = ground arith
  contains-insert_ordered a b (x ∷ xs) =
      ground (arith, contains-insert_ordered a b xs, o.connected a x)

  contains-insert_all :
      (acc xs : List K) (b : K) → contains (insert_all acc xs) b ≡ (contains acc b || contains xs b)
  unfolding insert_all contains
  contains-insert_all acc [] b = ground arith
  contains-insert_all acc (x ∷ xs) b =
      ground
        (arith, contains-insert_all (insert_ordered x acc) xs b, contains-insert_ordered x b acc)

  -- The set has the elements of the list.
  pub contains-to_ordered_set :
      (xs : List K) (b : K) → contains (to_ordered_set xs) b ≡ contains xs b
  unfolding to_ordered_set contains
  contains-to_ordered_set xs b = contains-insert_all [] xs b

  below_absent : (a : K) (xs : List K) → All (λ y. o.lt a y ≡ true) xs → contains xs a ≡ false
  unfolding contains
  below_absent a [] h = refl
  below_absent a (x ∷ xs) h = ground (arith, below_absent a xs h.1, o.irrefl a, o.irrefl x)

  -- An ascending list names nothing twice.
  pub IsAscending-IsDistinct : (xs : List K) → IsAscending xs → IsDistinct xs
  IsAscending-IsDistinct [] h = tt
  IsAscending-IsDistinct (x ∷ xs) h = (below_absent x xs h.0, IsAscending-IsDistinct xs h.1)
