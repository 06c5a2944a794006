-- ===== src/Sharing/Threshold/Join.antt =====
-- That the parts of those who hold shards join to what the restored private keys decrypt
-- (utils/Shamir_impl.hpp).
use shared_encryption.Base.{
  ℕ, suc, ◌+◌, ◌≤◌, ◌<◌, ◌≡◌, refl, sym, ap, ◌∙◌, subst, true, false, List, [], ◌∷◌, ◌++◌, map,
  Option, none, some, All, arith, length, length-append, ◌==◌, leb, if◌then◌else◌,
}
use mathlib.Core.List.{append_assoc}
use shared_encryption.Base.Key.{nat_key}
use shared_encryption.Base.Set.{HashSet, contains, insert, IsDistinct, length-insert}
use shared_encryption.Base.Outcome.{ok, throw, shamir_no_shard}
use shared_encryption.Arith.Modular.{mod_add, mod_mul}
use shared_encryption.Sharing.ElGamal.{Group, IsCyclic, Symmetric, decrypt}
use shared_encryption.Sharing.Shards.{still_new, All-new}
use shared_encryption.Sharing.Restore.{
  accumulate, fold_range, get_lagrange_coeff, secret_terms, shards_ids, restore_secret,
  get_lagrange_coeff_total,
}
use shared_encryption.Sharing.Threshold.{
  Layer, layer_1, layer_2, layer_of, scan_ids, decrypt_get_2l, decrypt_join_2l, all_parts,
}

-- The index that the loop is left with.
abbrev found : ℕ → ℕ → Option ℕ → List ℕ → Option ℕ
found xi idx i [] = i
found xi idx i (x ∷ ids) = found xi (suc idx) (if x == xi then some idx else i) ids

found_absent :
    (xi idx : ℕ) (i : Option ℕ) (ids : List ℕ) → contains ids xi ≡ false → found xi idx i ids ≡ i
unfolding contains
found_absent xi idx i [] h = refl
found_absent xi idx i (x ∷ ids) h =
    let other : (x == xi) ≡ false = ground (arith, h) in
    let absent : contains ids xi ≡ false = ground (arith, h) in
    rw other (found_absent xi (suc idx) i ids absent)

same_id : (x : ℕ) → (x == x) ≡ true
same_id x = ground arith

found_at :
    (xi idx : ℕ) (i : Option ℕ) (before after : List ℕ)
    → IsDistinct (before ++ xi ∷ after)
    → found xi idx i (before ++ xi ∷ after) ≡ some (idx + length before)
found_at xi idx i [] after d =
    rw (found, same_id xi) (found_absent xi (suc idx) (some idx) after d.0 ∙ ap some (omega arith))
found_at xi idx i (x ∷ before) after d =
    found_at xi (suc idx) (if x == xi then some idx else i) before after d.1 ∙ ap some (omega arith)

not_zero_id : (x : ℕ) → 1 ≤ x → (0 == x) ≡ false
not_zero_id x h = ground arith

scan_ids_lem :
    (xi idx : ℕ) (seen : HashSet ℕ) (i : Option ℕ) (ids : List ℕ)
    → All (λ y. (1 ≤ y) × (contains seen y ≡ false)) ids
    → IsDistinct ids
    → (seen' : HashSet ℕ) × (scan_ids xi idx seen i ids ≡ ok (seen', found xi idx i ids))
      × (length seen' ≡ length seen + length ids)
unfolding scan_ids
scan_ids_lem xi idx seen i [] h d = (seen, refl, omega arith)
scan_ids_lem xi idx seen i (x ∷ ids) h d =
    let (seen', e, n) =
      scan_ids_lem xi (suc idx) (insert x seen) (if x == xi then some idx else i) ids
        (still_new seen x ids d.0 h.1) d.1 in
    let more : length (insert x seen) ≡ suc (length seen) = length-insert x seen ∙ rw h.0.1 refl in
    (seen', rw (not_zero_id x h.0.0, e) refl, omega (arith, n, more))

accumulate-pow :
    {G : Type 0} (q : ℕ) (o : Group G) (l : IsCyclic o q) (c : G) (res : ℕ) (terms : List ℕ)
    → accumulate o.mul (o.pow c res) (map (o.pow c) terms)
      ≡ o.pow c (accumulate (mod_add q) res terms)
unfolding accumulate mod_add
accumulate-pow q o l c res [] = refl
accumulate-pow q o l c res (t ∷ terms) =
    ap (λ x. accumulate o.mul x (map (o.pow c) terms)) (sym (l.pow_add c res t))
    ∙ accumulate-pow q o l c (mod_add q res t) terms

-- The product of powers is the power of the sum.
fold_range-pow :
    {G : Type 0} (q : ℕ) (o : Group G) (l : IsCyclic o q) (c : G) (terms : List ℕ)
    → fold_range o.mul o.identity (map (o.pow c) terms) ≡ o.pow c (fold_range (mod_add q) 0 terms)
unfolding fold_range
fold_range-pow q o l c [] = sym (l.pow_zero c)
fold_range-pow q o l c (t ∷ terms) = accumulate-pow q o l c t terms

module _ {G Key Seed C : Type 0} (q : ℕ) (o : Group G) (e : Symmetric G Key Seed C)
    (prime : 1 < q) where
  -- The part of one shard.
  part_of :
      (layer : Layer) (ciphertext : G × G × C) (before after : List ℕ) (x y : ℕ)
      → All (λ n. 1 ≤ n) (before ++ x ∷ after)
      → IsDistinct (before ++ x ∷ after)
      → (coeff : ℕ) × (get_lagrange_coeff q (length before) (before ++ x ∷ after) ≡ ok coeff)
        × (decrypt_get_2l q o e layer ciphertext (x, y) (before ++ x ∷ after)
            ≡ ok (o.pow (layer_of layer ciphertext) (mod_mul q y coeff)))
  unfolding decrypt_get_2l
  part_of layer ciphertext before after x y h d =
      let ids = before ++ x ∷ after in
      let (coeff, computed) = get_lagrange_coeff_total q before after x prime in
      let (seen, scanned, n) = scan_ids_lem x 0 [] none ids (All-new ids h) d in
      let count : length seen ≡ length ids = omega (arith, n) in
      let all_seen : (length ids == length seen) ≡ true = rw count (same_id (length ids)) in
      let own : found x 0 none ids ≡ some (length before) =
        found_at x 0 none before after d ∙ ap some (omega arith) in
      (coeff, computed, rw (scanned, all_seen, own, computed) refl)

  -- Among distinct IDs that are not 0, a shard whose ID is missing is refused.
  pub decrypt_get_2l_outsider :
      (layer : Layer) (ciphertext : G × G × C) (ids : List ℕ) (x y : ℕ)
      → All (λ n. 1 ≤ n) ids
      → IsDistinct ids
      → contains ids x ≡ false
      → decrypt_get_2l q o e layer ciphertext (x, y) ids ≡ throw shamir_no_shard
  unfolding decrypt_get_2l
  decrypt_get_2l_outsider layer ciphertext ids x y h d absent =
      let (seen, scanned, n) = scan_ids_lem x 0 [] none ids (All-new ids h) d in
      let count : length seen ≡ length ids = omega (arith, n) in
      let all_seen : (length ids == length seen) ≡ true = rw count (same_id (length ids)) in
      rw (scanned, all_seen, found_absent x 0 none ids absent) refl

  -- The summands of the secret, and the parts, from the `n`th shard on.
  record Joins (layer : Layer) (ciphertext : G × G × C) (ids : List ℕ) (n : ℕ)
      (shards : List (ℕ × ℕ)) : Type 0 where
    terms : List ℕ
    parts : List G
    terms_ok : secret_terms q ids n shards ≡ ok terms
    parts_ok : all_parts q o e layer ciphertext ids shards ≡ ok parts
    powers : parts ≡ map (o.pow (layer_of layer ciphertext)) terms

  Joins-from :
      (layer : Layer) (ciphertext : G × G × C) (before ids : List ℕ) (n : ℕ) (shards : List (ℕ × ℕ))
      → ids ≡ before ++ shards_ids q shards
      → n ≡ length before
      → All (λ k. 1 ≤ k) ids
      → IsDistinct ids
      → Joins layer ciphertext ids n shards
  unfolding secret_terms all_parts
  Joins-from layer ciphertext before ids n [] w k h d = record {
    terms = [];
    parts = [];
    terms_ok = refl;
    parts_ok = refl;
    powers = refl;
  }
  Joins-from layer ciphertext before ids n ((x, y) ∷ shards) w k h d =
      let after = shards_ids q shards in
      let (coeff, computed, part) =
        part_of layer ciphertext before after x y (subst (λ l. All (λ j. 1 ≤ j) l) w h)
          (subst (λ l. IsDistinct l) w d) in
      let more =
        Joins-from layer ciphertext (before ++ x ∷ []) ids (suc n) shards
          (w ∙ sym (append_assoc before (x ∷ []) after))
          (omega (arith, k, length-append before (x ∷ []))) h d in
      let here : get_lagrange_coeff q n ids ≡ ok coeff =
        ap (λ l. get_lagrange_coeff q n l) w
        ∙ ap (λ j. get_lagrange_coeff q j (before ++ x ∷ after)) k
        ∙ computed in
      let part' : decrypt_get_2l q o e layer ciphertext (x, y) ids
          ≡ ok (o.pow (layer_of layer ciphertext) (mod_mul q y coeff)) =
        ap (λ l. decrypt_get_2l q o e layer ciphertext (x, y) l) w ∙ part in
      record {
        terms = mod_mul q y coeff ∷ more.terms;
        parts = o.pow (layer_of layer ciphertext) (mod_mul q y coeff) ∷ more.parts;
        terms_ok = rw (here, more.terms_ok) refl;
        parts_ok = rw (part', more.parts_ok) refl;
        powers = ap (λ l. o.pow (layer_of layer ciphertext) (mod_mul q y coeff) ∷ l) more.powers;
      }

  -- What is known of one layer, whose shards are enough.
  layer_joins :
      (l : IsCyclic o q) (layer : Layer) (ciphertext : G × G × C) (shards : List (ℕ × ℕ))
      (threshold : ℕ)
      → threshold < length shards
      → All (λ k. 1 ≤ k) (shards_ids q shards)
      → IsDistinct (shards_ids q shards)
      → (secret : ℕ) × (parts : List G) × (restore_secret q shards threshold ≡ ok secret)
        × (all_parts q o e layer ciphertext (shards_ids q shards) shards ≡ ok parts)
        × (fold_range o.mul o.identity parts ≡ o.pow (layer_of layer ciphertext) secret)
  unfolding restore_secret
  layer_joins l layer ciphertext shards threshold t h d =
      let j = Joins-from layer ciphertext [] (shards_ids q shards) 0 shards refl refl h d in
      let enough : leb (length shards) threshold ≡ false = ground (arith, t) in
      (
        fold_range (mod_add q) 0 j.terms,
        j.parts,
        rw (enough, j.terms_ok) refl,
        j.parts_ok,
        ap (λ ps. fold_range o.mul o.identity ps) j.powers
            ∙ fold_range-pow q o l (layer_of layer ciphertext) j.terms,
      )

  -- In a group of order `q` above 1: if in each layer there are more shards than the threshold,
  -- with distinct IDs that are not 0, then both private keys are restored, all parts are computed,
  -- and the parts join to what decryption with the restored keys gives.
  pub decrypt_join_2l-all_parts :
      (l : IsCyclic o q) (ciphertext : G × G × C) (shards1 shards2 : List (ℕ × ℕ))
      (threshold1 threshold2 : ℕ)
      → threshold1 < length shards1
      → threshold2 < length shards2
      → All (λ k. 1 ≤ k) (shards_ids q shards1)
      → All (λ k. 1 ≤ k) (shards_ids q shards2)
      → IsDistinct (shards_ids q shards1)
      → IsDistinct (shards_ids q shards2)
      → (key1 key2 : ℕ) × (parts1 parts2 : List G) × (restore_secret q shards1 threshold1 ≡ ok key1)
        × (restore_secret q shards2 threshold2 ≡ ok key2)
        × (all_parts q o e layer_1 ciphertext (shards_ids q shards1) shards1 ≡ ok parts1)
        × (all_parts q o e layer_2 ciphertext (shards_ids q shards2) shards2 ≡ ok parts2)
        × (decrypt_join_2l q o e ciphertext parts1 parts2 ≡ decrypt o e ciphertext key1 key2)
  unfolding decrypt_join_2l decrypt
  decrypt_join_2l-all_parts l (c1, c2, c3) shards1 shards2 t1 t2 m1 m2 h1 h2 d1 d2 =
      let (key1, parts1, r1, p1, z1) = layer_joins l layer_1 (c1, c2, c3) shards1 t1 m1 h1 d1 in
      let (key2, parts2, r2, p2, z2) = layer_joins l layer_2 (c1, c2, c3) shards2 t2 m2 h2 d2 in
      (
        key1,
        key2,
        parts1,
        parts2,
        r1,
        r2,
        p1,
        p2,
        ap (λ z. e.decrypt c3 (e.kdf z (fold_range o.mul o.identity parts2))) z1
            ∙ ap (λ z. e.decrypt c3 (e.kdf (o.pow c1 key1) z)) z2,
      )
