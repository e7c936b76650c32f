-- ===== src/Prelude/Dict.antt =====
-- `HashMap` and `BTreeMap` as association lists over a key with an equality test. The laws hold of
-- every list: `remove` and `retain` drop a key wherever it stands.
use mathlib.Core.Path.{◌≡◌, refl}
use mathlib.Core.Bool.{Bool, true}
use mathlib.Core.Option.{Option, none, some}
use mathlib.Core.List.{List, [], ◌∷◌}
use Prim.Native.Nat.{◌≤◌}
use native.Mathlib.Omega.{arith}
use hu_gr_datarail.Prelude.Tests.{if◌then◌else◌}
use hu_gr_datarail.Prelude.Keys.{Eq, ◌==◌}
use hu_gr_datarail.Prelude.Results.{is_some}
use hu_gr_datarail.Prelude.Lists.{length}

abbrev pub Dict {ℓ κ} : Type ℓ → Type κ → Type (ℓ ⊔ κ)
Dict K V = List (K × V)

abbrev pub keep_if {κ} : {V : Type κ} → (V → Bool) → Option V → Option V
keep_if p none = none
keep_if p (some v) = if p v then some v else none

abbrev pub map_option {κ} : {V : Type κ} → (V → V) → Option V → Option V
map_option f none = none
map_option f (some v) = some (f v)

module _ {ℓ κ} {K : Type ℓ} {V : Type κ} ⦃e : Eq K⦄ where
  unfoldable pub get : Dict K V → K → Option V
  get [] k = none
  get ((j, v) ∷ m) k = if j == k then some v else get m k

  unfoldable pub insert : Dict K V → K → V → Dict K V
  insert [] k v = (k, v) ∷ []
  insert ((j, w) ∷ m) k v = if j == k then (k, v) ∷ m else (j, w) ∷ insert m k v

  unfoldable pub remove : Dict K V → K → Dict K V
  remove [] k = []
  remove ((j, w) ∷ m) k = let rest = remove m k in if j == k then rest else (j, w) ∷ rest

  unfoldable pub retain : (K → V → Bool) → Dict K V → Dict K V
  unfolding remove
  retain p [] = []
  retain p ((j, w) ∷ m) = let rest = retain p m in if p j w then (j, w) ∷ rest else remove rest j

  abbrev pub contains_key : Dict K V → K → Bool
  contains_key m k = is_some (get m k)

  pub get-insert :
      (m : Dict K V) (k j : K) (v : V) → get (insert m k v) j ≡ (if k == j then some v else get m j)
  unfolding get insert
  get-insert [] k j v = refl
  get-insert ((i, w) ∷ m) k j v =
      ground (arith, get-insert m k j v, e.test_iff i k, e.test_iff i j, e.test_iff k j)

  -- The value that a key has is put back without a change.
  pub insert-get : (m : Dict K V) (k : K) (v : V) → get m k ≡ some v → insert m k v ≡ m
  unfolding get insert
  insert-get [] k v h = cc
  insert-get ((i, w) ∷ m) k v h = ground (arith, insert-get m k v, e.test_iff i k, h)

  pub get-remove :
      (m : Dict K V) (k j : K) → get (remove m k) j ≡ (if k == j then none else get m j)
  unfolding get remove
  get-remove [] k j = ground arith
  get-remove ((i, w) ∷ m) k j =
      ground (arith, get-remove m k j, e.test_iff i k, e.test_iff i j, e.test_iff k j)

  pub get-retain :
      (p : K → V → Bool) (m : Dict K V) (j : K) → get (retain p m) j ≡ keep_if (p j) (get m j)
  unfolding get retain
  get-retain p [] j = refl
  get-retain p ((i, w) ∷ m) j =
      ground (arith, get-retain p m j, get-remove (retain p m) i j, e.test_iff i j)

  -- a `BTreeMap` stands in the order of its keys
  unfoldable pub insert_by : (K → K → Bool) → Dict K V → K → V → Dict K V
  insert_by lt [] k v = (k, v) ∷ []
  insert_by lt ((j, w) ∷ m) k v =
      let rest = insert_by lt m k v in
      if j == k then (k, v) ∷ m else if lt k j then (k, v) ∷ (j, w) ∷ m else (j, w) ∷ rest

  pub get-insert_by :
      (lt : K → K → Bool) (m : Dict K V) (k j : K) (v : V)
      → get (insert_by lt m k v) j ≡ (if k == j then some v else get m j)
  unfolding get insert_by
  get-insert_by lt [] k j v = refl
  get-insert_by lt ((i, w) ∷ m) k j v =
      ground (arith, get-insert_by lt m k j v, e.test_iff i k, e.test_iff i j, e.test_iff k j)

  abbrev pub first_key : Dict K V → Option K
  first_key [] = none
  first_key ((k, v) ∷ m) = some k

  unfoldable pub map_values : (V → V) → Dict K V → Dict K V
  map_values f [] = []
  map_values f ((k, v) ∷ m) = (k, f v) ∷ map_values f m

  pub get-map_values :
      (f : V → V) (m : Dict K V) (j : K) → get (map_values f m) j ≡ map_option f (get m j)
  unfolding get map_values
  get-map_values f [] j = refl
  get-map_values f ((i, w) ∷ m) j = ground (arith, get-map_values f m j)

  pub get-first_key : (m : Dict K V) (k : K) → first_key m ≡ some k → contains_key m k ≡ true
  unfolding get
  get-first_key [] k h = cc
  get-first_key ((i, w) ∷ m) k h = ground (arith, e.test_iff i k, h)

  length-remove-le : (m : Dict K V) (k : K) → length (remove m k) ≤ length m
  unfolding remove
  length-remove-le [] k = omega arith
  length-remove-le ((j, w) ∷ m) k = ground (arith, length-remove-le m k)

  length-retain-le : (p : K → V → Bool) (m : Dict K V) → length (retain p m) ≤ length m
  unfolding retain
  length-retain-le p [] = omega arith
  length-retain-le p ((j, w) ∷ m) =
      ground (arith, length-retain-le p m, length-remove-le (retain p m) j)

  -- A `retain` that drops nothing leaves the map as it is.
  pub retain-all :
      (p : K → V → Bool) (m : Dict K V) → length (retain p m) ≡ length m → retain p m ≡ m
  unfolding retain
  retain-all p [] h = refl
  retain-all p ((j, w) ∷ m) h =
      ground (arith, retain-all p m, h, length-retain-le p m, length-remove-le (retain p m) j)
