-- ===== src/Server/Storage/Shards.antt =====
-- The shard IDs of a userset (`new_userset` of server/storage/ShortTermServerStorage.cpp).
use shared_encryption.Base.{
  ℕ, ◌≤◌, ◌≡◌, ◌≢◌, refl, subst, Bool, true, false, ◌||◌, List, [], ◌∷◌, some, arith, All,
  Option-cases, inl, inr, Bool-cases,
}
use mathlib.Core.Option.{some-injective}
use shared_encryption.Base.Key.{nat_key, bytes_key, pair_key}
use shared_encryption.Base.Map.{Map, find, emplace, is_some, find-emplace}
use shared_encryption.Base.Set.{HashSet, contains, insert, contains-insert}
use shared_encryption.Base.Random.{generate_not_pred, generate_not_pred-new}
use shared_encryption.Server.Types.{Username, Uuid}
use shared_encryption.Server.Storage.{assign_shards}

abbrev pub ShardIds : Type 0
ShardIds = Map (Username × Uuid) ℕ

abbrev pub InRange : ℕ → Type 0
InRange n = (1 ≤ n) × (n ≤ 255)

-- The IDs of one userset: all of them are in `used`, and no two users share one.
pub record IsUnique (id : Uuid) (used : HashSet ℕ) (ids : ShardIds) : Type 0 where
  pub covered : (u : Username) (n : ℕ) → find (u, id) ids ≡ some n → contains used n ≡ true
  pub injective :
      (u v : Username) (n : ℕ) → find (u, id) ids ≡ some n → find (v, id) ids ≡ some n → u ≡ v

-- One member gets an ID that is not used yet.
assign-IsUnique :
    (id : Uuid) (m : Username) (n : ℕ) (used : HashSet ℕ) (ids : ShardIds)
    → contains used n ≡ false
    → IsUnique id used ids
    → IsUnique id (insert n used) (emplace (m, id) n ids)
assign-IsUnique id m n used ids new h = record {
  covered = λ u k e.
      ground (arith, find-emplace (m, id) (u, id) n ids, contains-insert n k used, h.covered u k);
  injective = λ u v k e f. ground (
    arith,
    find-emplace (m, id) (u, id) n ids,
    find-emplace (m, id) (v, id) n ids,
    h.injective u v k,
    h.covered u k,
    h.covered v k,
  );
}

draws_rest :
    (P : ℕ → Type 0) (p : ℕ → Bool) (us : List ℕ) (u : ℕ) (rest : List ℕ)
    → All P us
    → generate_not_pred p us ≡ some (u, rest)
    → P u × All P rest
unfolding generate_not_pred
draws_rest P p [] u rest h e = cc
draws_rest P p (v ∷ us) u rest h e = elim (Bool-cases (p v)) [
  | inl taken ↦ draws_rest P p us u rest h.1 (ground arith)
  | inr free ↦
      let v_u : v ≡ u = ground arith in
      let us_rest : us ≡ rest = ground arith in (rw (← v_u) h.0, rw (← us_rest) h.1)
]

-- What a round of the loop keeps, the loop keeps.
module _ (id : Uuid) (P : HashSet ℕ → ShardIds → List ℕ → Type 0)
    (keep : (m : Username) (n : ℕ) (used : HashSet ℕ) (ids : ShardIds) (draws rest : List ℕ)
      → generate_not_pred (contains used) draws ≡ some (n, rest)
      → P used ids draws
      → P (insert n used) (emplace (m, id) n ids) rest) where
  assign_shards_keeps :
      (ms : List Username) (used : HashSet ℕ) (ids : ShardIds) (draws : List ℕ) (used' : HashSet ℕ)
      (ids' : ShardIds) (draws' : List ℕ)
      → assign_shards id ms used ids draws ≡ some (used', ids', draws')
      → P used ids draws
      → P used' ids' draws'
  unfolding assign_shards
  assign_shards_keeps [] used ids draws used' ids' draws' e h =
      subst (λ (t : HashSet ℕ × ShardIds × List ℕ). P t.0 t.1 t.2) (some-injective _ _ e) h
  assign_shards_keeps (m ∷ ms) used ids draws used' ids' draws' e h =
      elim (Option-cases (generate_not_pred (contains used) draws)) [
        | inl none_left ↦ absurd (ground arith)
        | inr ((n, rest), g) ↦
            assign_shards_keeps ms (insert n used) (emplace (m, id) n ids) rest used' ids' draws'
              (rw (g, assign_shards) at e) (keep m n used ids draws rest g h)
      ]

module _ (id : Uuid) (ms : List Username) (used : HashSet ℕ) (ids : ShardIds) (draws : List ℕ)
    (used' : HashSet ℕ) (ids' : ShardIds) (draws' : List ℕ)
    (e : assign_shards id ms used ids draws ≡ some (used', ids', draws')) where
  pub assign_shards-IsUnique : IsUnique id used ids → IsUnique id used' ids'
  assign_shards-IsUnique =
      assign_shards_keeps id (λ us is _. IsUnique id us is)
        (λ m n us is ds rest g h.
          assign-IsUnique id m n us is (generate_not_pred-new (contains us) ds n rest g) h)
        ms used ids draws used' ids' draws' e

  -- The IDs of other usersets stay.
  pub assign_shards_frame : (u : Username) (j : Uuid) → id ≢ j → find (u, j) ids' ≡ find (u, j) ids
  assign_shards_frame u j ne =
      assign_shards_keeps id (λ _ is _. find (u, j) is ≡ find (u, j) ids)
        (λ m n us is ds rest g h. ground (arith, find-emplace (m, id) (u, j) n is)) ms used ids
        draws used' ids' draws' e refl

  -- What was drawn in range is assigned in range.
  pub assign_shards-InRange :
      All InRange draws
      → ((u : Username) (j : Uuid) (n : ℕ) → find (u, j) ids ≡ some n → InRange n)
      → All InRange draws'
        × ((u : Username) (j : Uuid) (n : ℕ) → find (u, j) ids' ≡ some n → InRange n)
  assign_shards-InRange drawn old =
      assign_shards_keeps id
        (λ _ is ds.
          All InRange ds
          × ((u : Username) (j : Uuid) (n : ℕ) → find (u, j) is ≡ some n → InRange n))
        (λ m n us is ds rest g h.
          let (here, later) = draws_rest InRange (contains us) ds n rest h.0 g in
          (later, λ u j k f. ground (arith, find-emplace (m, id) (u, j) n is, h.1 u j k)))
        ms used ids draws used' ids' draws' e (drawn, old)

-- Exactly the members have an ID, beside those who had one.
pub assign_shards_members :
    (id : Uuid) (ms : List Username) (used : HashSet ℕ) (ids : ShardIds) (draws : List ℕ)
    (used' : HashSet ℕ) (ids' : ShardIds) (draws' : List ℕ) (u : Username)
    → assign_shards id ms used ids draws ≡ some (used', ids', draws')
    → is_some (find (u, id) ids') ≡ (is_some (find (u, id) ids) || contains ms u)
unfolding assign_shards contains
assign_shards_members id [] used ids draws used' ids' draws' u e = ground arith
assign_shards_members id (m ∷ ms) used ids draws used' ids' draws' u e =
    elim (Option-cases (generate_not_pred (contains used) draws)) [
      | inl none_left ↦ absurd (ground arith)
      | inr ((n, rest), g) ↦ ground (
        arith,
        find-emplace (m, id) (u, id) n ids,
        assign_shards_members id ms (insert n used) (emplace (m, id) n ids) rest used' ids' draws' u
            (rw (g, assign_shards) at e),
      )
    ]
