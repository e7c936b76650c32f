-- ===== src/Prelude/KeySet.antt =====
-- `HashSet` and `BTreeSet` as lists without repetition, over a key with an equality test.
use Prim.Native.Nat.{◌+◌, ◌≤◌, ◌<◌}
use mathlib.Core.Path.{◌≡◌}
use mathlib.Core.Bool.{Bool, true, false, not, ◌&&◌, ◌||◌}
use mathlib.Core.Logic.{inl, inr}
use mathlib.Core.List.{List, [], ◌∷◌}
use native.Mathlib.Omega.{arith}
use hu_gr_datarail.Prelude.Tests.{if◌then◌else◌, Bool-cases}
use hu_gr_datarail.Prelude.Lists.{length}
use hu_gr_datarail.Prelude.Keys.{Eq, ◌==◌}

module _ {ℓ} {K : Type ℓ} ⦃e : Eq K⦄ where
  unfoldable pub contains : List K → K → Bool
  contains [] k = false
  contains (j ∷ s) k = j == k || contains s k

  unfoldable pub insert : List K → K → List K
  unfolding contains
  insert s k = if contains s k then s else k ∷ s

  -- `BTreeSet::insert`, with the order of the keys
  unfoldable pub insert_by : (K → K → Bool) → List K → K → List K
  insert_by lt [] k = k ∷ []
  insert_by lt (j ∷ s) k =
      if j == k then j ∷ s else if lt k j then k ∷ j ∷ s else j ∷ insert_by lt s k

  unfoldable pub remove : List K → K → List K
  remove [] k = []
  remove (j ∷ s) k = let rest = remove s k in if j == k then rest else j ∷ rest

  unfoldable pub retain : (K → Bool) → List K → List K
  retain p [] = []
  retain p (j ∷ s) = let rest = retain p s in if p j then j ∷ rest else rest

  old_key : (s : List K) (k j : K) → contains s k ≡ true → ((k == j) || contains s j) ≡ contains s j
  old_key s k j h = ground (arith, h, e.test_iff k j)

  pub contains-insert :
      (s : List K) (k j : K) → contains (insert s k) j ≡ ((k == j) || contains s j)
  unfolding insert
  contains-insert s k j = elim (Bool-cases (contains s k)) [
    | inl old ↦ rw old (ground (arith, old_key s k j old))
    | inr new ↦ rw (new, contains)
  ]

  pub contains-insert_by :
      (lt : K → K → Bool) (s : List K) (k j : K)
      → contains (insert_by lt s k) j ≡ ((k == j) || contains s j)
  unfolding contains insert_by
  contains-insert_by lt [] k j = ground arith
  contains-insert_by lt (i ∷ s) k j =
      ground (arith, contains-insert_by lt s k j, e.test_iff i k, e.test_iff i j, e.test_iff k j)

  pub contains-remove :
      (s : List K) (k j : K) → contains (remove s k) j ≡ (not (k == j) && contains s j)
  unfolding contains remove
  contains-remove [] k j = ground arith
  contains-remove (i ∷ s) k j =
      ground (arith, contains-remove s k j, e.test_iff i k, e.test_iff i j, e.test_iff k j)

  pub contains-retain :
      (p : K → Bool) (s : List K) (j : K) → contains (retain p s) j ≡ (p j && contains s j)
  unfolding contains retain
  contains-retain p [] j = ground arith
  contains-retain p (i ∷ s) j = ground (arith, contains-retain p s j, e.test_iff i j)

  pub length-insert : (s : List K) (k : K) → length (insert s k) ≤ length s + 1
  unfolding insert
  length-insert s k = ground arith

  length-remove-le : (s : List K) (k : K) → length (remove s k) ≤ length s
  unfolding remove
  length-remove-le [] k = omega arith
  length-remove-le (j ∷ s) k = ground (arith, length-remove-le s k)

  pub length-remove : (s : List K) (k : K) → contains s k ≡ true → length (remove s k) < length s
  unfolding contains remove
  length-remove [] k h = cc
  length-remove (j ∷ s) k h = ground (arith, length-remove s k, length-remove-le s k)
