-- ===== src/Prelude/Sorted.antt =====
-- `BTreeMap`s: association lists in the order of their keys.
use mathlib.Core.Path.{◌≡◌, refl, sym, ◌∙◌, subst}
use mathlib.Core.Logic.{inl, inr}
use mathlib.Core.Bool.{Bool, true, false}
use mathlib.Core.Option.{Option, none, some}
use mathlib.Core.List.{List, [], ◌∷◌, ◌++◌, append-nil, append_assoc}
use native.Mathlib.Omega.{arith}
use hu_gr_datarail.Prelude.Tests.{Bool-cases}
use hu_gr_datarail.Prelude.Keys.{Eq, ◌==◌, Bytes, Bytes_eq, bytes_eq, bytes_lt}
use hu_gr_datarail.Prelude.Dict.{Dict, get, insert_by, get-insert_by, remove}

-- A strict order that decides every two keys.
pub record Order {ℓ} {K : Type ℓ} ⦃e : Eq K⦄ (lt : K → K → Bool) : Type ℓ where
  pub irreflexive : (k : K) → lt k k ≡ false
  pub transitive : (i j k : K) → lt i j ≡ true → lt j k ≡ true → lt i k ≡ true
  pub total : (j k : K) → (j == k) ≡ false → lt k j ≡ false → lt j k ≡ true

module _ {ℓ κ} {K : Type ℓ} {V : Type κ} ⦃e : Eq K⦄ (lt : K → K → Bool) where
  -- every key lies above `k`
  abbrev pub Above : K → Dict K V → Type 0
  Above k [] = Unit
  Above k ((j, v) ∷ m) = (lt k j ≡ true) × Above k m

  abbrev pub IsSorted : Dict K V → Type 0
  IsSorted [] = Unit
  IsSorted ((k, v) ∷ m) = Above k m × IsSorted m

  -- what `collect` makes of pairs, in their order, onto a map
  unfoldable pub extend : Dict K V → List (K × V) → Dict K V
  extend m [] = m
  extend m ((k, v) ∷ ps) = extend (insert_by lt m k v) ps

  module _ (o : Order lt) where
    Above-trans : (i k : K) (m : Dict K V) → lt i k ≡ true → Above k m → Above i m
    Above-trans i k [] h a = tt
    Above-trans i k ((j, v) ∷ m) h (b, a) = (o.transitive i k j h b, Above-trans i k m h a)

    insert_by-Above :
        (i k : K) (v : V) (m : Dict K V) → lt i k ≡ true → Above i m → Above i (insert_by lt m k v)
    unfolding insert_by
    insert_by-Above i k v [] h a = (h, tt)
    insert_by-Above i k v ((j, w) ∷ m) h (b, a) = elim (Bool-cases (j == k)) [
      | inl same ↦ rw same (h, a)
      | inr other ↦ elim (Bool-cases (lt k j)) [
        | inl before ↦ rw other (rw before (h, (b, a)))
        | inr behind ↦ rw other (rw behind (b, insert_by-Above i k v m h a))
      ]
    ]

    pub insert_by-IsSorted :
        (k : K) (v : V) (m : Dict K V) → IsSorted m → IsSorted (insert_by lt m k v)
    unfolding insert_by
    insert_by-IsSorted k v [] s = (tt, tt)
    insert_by-IsSorted k v ((j, w) ∷ m) (a, s) = elim (Bool-cases (j == k)) [
      | inl same ↦ rw same (subst (λ i. Above i m × IsSorted m) ((e.test_iff j k).0 same) (a, s))
      | inr other ↦ elim (Bool-cases (lt k j)) [
        | inl before ↦ rw other (rw before ((before, Above-trans k j m before a), (a, s)))
        | inr behind ↦ rw other (
            rw behind
              (insert_by-Above j k v m (o.total j k other behind) a, insert_by-IsSorted k v m s))
      ]
    ]

    get-Above : (k : K) (m : Dict K V) → Above k m → get m k ≡ none
    unfolding get
    get-Above k [] a = refl
    get-Above k ((j, v) ∷ m) (b, a) =
        ground (arith, get-Above k m a, b, e.test_iff j k, o.irreflexive k)

    pub extend-IsSorted : (ps : List (K × V)) (m : Dict K V) → IsSorted m → IsSorted (extend m ps)
    unfolding extend
    extend-IsSorted [] m s = s
    extend-IsSorted ((k, v) ∷ ps) m s =
        extend-IsSorted ps (insert_by lt m k v) (insert_by-IsSorted k v m s)

    abbrev pub or_else : Option V → Option V → Option V
    or_else none d = d
    or_else (some v) d = some v

    -- A sorted map put entry by entry onto another wins over it.
    pub get-extend :
        (ps m : Dict K V) (k : K) → IsSorted ps → get (extend m ps) k ≡ or_else (get ps k) (get m k)
    unfolding extend get
    get-extend [] m k s = refl
    get-extend ((j, v) ∷ ps) m k (a, s) = ground (
      arith,
      get-extend ps (insert_by lt m j v) k s,
      get-insert_by lt m j k v,
      e.test_iff j k,
      get-Above j ps a,
    )

    Above-remove : (i k : K) (m : Dict K V) → Above i m → Above i (remove m k)
    unfolding remove
    Above-remove i k [] a = tt
    Above-remove i k ((j, v) ∷ m) (b, a) = elim (Bool-cases (j == k)) [
      | inl same ↦ rw same (Above-remove i k m a)
      | inr other ↦ rw other (b, Above-remove i k m a)
    ]

    pub remove-IsSorted : (k : K) (m : Dict K V) → IsSorted m → IsSorted (remove m k)
    unfolding remove
    remove-IsSorted k [] s = tt
    remove-IsSorted k ((j, v) ∷ m) (a, s) = elim (Bool-cases (j == k)) [
      | inl same ↦ rw same (remove-IsSorted k m s)
      | inr other ↦ rw other (Above-remove j k m a, remove-IsSorted k m s)
    ]

    -- Every key of the first map lies below `k`.
    abbrev Below : Dict K V → K → Type 0
    Below [] k = Unit
    Below ((j, v) ∷ m) k = (lt j k ≡ true) × Below m k

    insert_by-Below :
        (m : Dict K V) (k : K) (v : V) → Below m k → insert_by lt m k v ≡ m ++ ((k, v) ∷ [])
    unfolding insert_by
    insert_by-Below [] k v b = refl
    insert_by-Below ((j, w) ∷ m) k v (h, b) =
        ground
          (arith, insert_by-Below m k v b, h, o.irreflexive j, o.transitive j k j, e.test_iff j k)

    Below-append :
        (m : Dict K V) (j k : K) (v : V) → Below m j → lt j k ≡ true → Below (m ++ ((j, v) ∷ [])) k
    Below-append [] j k v b h = (h, tt)
    Below-append ((i, w) ∷ m) j k v (g, b) h = (o.transitive i j k g h, Below-append m j k v b h)

    -- all of the first below all of the second
    abbrev Parted : Dict K V → Dict K V → Type 0
    Parted m [] = Unit
    Parted m ((k, v) ∷ ps) = Below m k × Parted m ps

    Parted-append :
        (m ps : Dict K V) (k : K) (v : V) → Above k ps → Below m k → Parted (m ++ ((k, v) ∷ [])) ps
    Parted-append m [] k v a b = tt
    Parted-append m ((j, w) ∷ ps) k v (h, a) b =
        (Below-append m k j v b h, Parted-append m ps k v a b)

    extend-Parted : (ps m : Dict K V) → IsSorted ps → Parted m ps → extend m ps ≡ m ++ ps
    unfolding extend
    extend-Parted [] m s b = sym (append-nil m)
    extend-Parted ((k, v) ∷ ps) m (a, s) (b, bs) = rw (insert_by-Below m k v b) (
        extend-Parted ps (m ++ ((k, v) ∷ [])) s (Parted-append m ps k v a b)
        ∙ append_assoc m ((k, v) ∷ []) ps)

    Parted-nil : (ps : Dict K V) → Parted [] ps
    Parted-nil [] = tt
    Parted-nil ((k, v) ∷ ps) = (tt, Parted-nil ps)

    -- The entries of a sorted map, put one by one into an empty map, give the same map.
    pub extend-nil : (ps : Dict K V) → IsSorted ps → extend [] ps ≡ ps
    extend-nil ps s = extend-Parted ps [] s (Parted-nil ps)

bytes_lt-irreflexive : (a : Bytes) → bytes_lt a a ≡ false
unfolding bytes_lt
bytes_lt-irreflexive [] = refl
bytes_lt-irreflexive (x ∷ xs) = ground (arith, bytes_lt-irreflexive xs)

bytes_lt-transitive :
    (a b c : Bytes) → bytes_lt a b ≡ true → bytes_lt b c ≡ true → bytes_lt a c ≡ true
unfolding bytes_lt
bytes_lt-transitive [] [] c h k = cc
bytes_lt-transitive [] (y ∷ ys) [] h k = cc
bytes_lt-transitive [] (y ∷ ys) (z ∷ zs) h k = refl
bytes_lt-transitive (x ∷ xs) [] c h k = cc
bytes_lt-transitive (x ∷ xs) (y ∷ ys) [] h k = cc
bytes_lt-transitive (x ∷ xs) (y ∷ ys) (z ∷ zs) h k =
    ground (arith, bytes_lt-transitive xs ys zs, h, k)

bytes_lt-total : (a b : Bytes) → (a == b) ≡ false → bytes_lt b a ≡ false → bytes_lt a b ≡ true
unfolding bytes_lt bytes_eq
bytes_lt-total [] [] h k = cc
bytes_lt-total [] (y ∷ ys) h k = refl
bytes_lt-total (x ∷ xs) [] h k = cc
bytes_lt-total (x ∷ xs) (y ∷ ys) h k = ground (arith, bytes_lt-total xs ys, h, k)

pub bytes_lt-Order : Order bytes_lt
bytes_lt-Order = record {
  irreflexive = bytes_lt-irreflexive;
  transitive = bytes_lt-transitive;
  total = bytes_lt-total;
}
