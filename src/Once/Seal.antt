-- ===== src/Once/Seal.antt =====
-- The loop of `admit` that bounds the reorder horizon (crates/datarail-once/src/lib.rs).
use hu_gr_datarail.Prelude.{
  ℕ, zero, suc, ◌+◌, ◌≤◌, ◌<◌, ◌≡◌, refl, true, List, [], ◌∷◌, arith, length, ltb, Bool-cases, inl,
  inr, ℕ_eq,
}
use hu_gr_datarail.Prelude.KeySet
use hu_gr_datarail.Once.{drain_all, seal, inc64, u64_max, list_max}
use hu_gr_datarail.Once.Drain.{IsParked, Moved, Moved-stop, drain_all-Moved, drain_all-IsParked}

Moved-trans : (a b c : List ℕ) (l m n : ℕ) → Moved a l b m → Moved b m c n → Moved a l c n
Moved-trans a b c l m n p q = record {
  rises = omega (arith, p.rises, q.rises);
  bound = q.bound;
  left = λ s. ground (arith, p.left s, q.left s, q.rises);
  shrinks = omega (arith, p.shrinks, q.shrinks);
}

-- A set that is longer than something has an element, so the watermark can still rise.
low-lt-max :
    (horizon low : ℕ) (ahead : List ℕ)
    → IsParked (suc low) ahead
    → ltb horizon (length ahead) ≡ true
    → low < u64_max
unfolding KeySet.contains
low-lt-max horizon low [] h t = absurd (ground arith)
low-lt-max horizon low (x ∷ xs) h t = ground (arith, h x)

IsParked-inc :
    (low : ℕ) (ahead : List ℕ)
    → low < u64_max
    → IsParked (suc low) ahead
    → IsParked (inc64 low) ahead
IsParked-inc low ahead b h s c = omega (arith, h s c)

-- One round of `seal`, then the rounds `a'`, `l'` that are left.
Moved-round :
    (ahead a' : List ℕ) (low l' : ℕ)
    → low < u64_max
    → IsParked (suc low) ahead
    → Moved (drain_all ahead (inc64 low)).0 (drain_all ahead (inc64 low)).1 a' l'
    → Moved ahead low a' l'
Moved-round ahead a' low l' b h q =
    let p = drain_all-Moved ahead (inc64 low) (omega arith) (IsParked-inc low ahead b h) in
    let m = Moved-trans ahead _ a' (inc64 low) _ l' p q in
    record { rises = omega (arith, m.rises); bound = m.bound; left = m.left; shrinks = m.shrinks }

-- The seal loop moves the watermark, and keeps the parked set strictly above it.
pub seal-Moved :
    (fuel horizon : ℕ) (ahead : List ℕ) (low : ℕ)
    → low ≤ u64_max
    → IsParked (suc low) ahead
    → Moved ahead low (seal fuel horizon ahead low).0 (seal fuel horizon ahead low).1
      × IsParked (suc (seal fuel horizon ahead low).1) (seal fuel horizon ahead low).0
unfolding seal
seal-Moved zero horizon ahead low b h = (Moved-stop ahead low b (λ s c. omega (arith, h s c)), h)
seal-Moved (suc fuel) horizon ahead low b h = elim (Bool-cases (ltb horizon (length ahead))) [
  | inl t ↦
      let lt : low < u64_max = low-lt-max horizon low ahead h t in
      let p = IsParked-inc low ahead lt h in
      let d = drain_all-Moved ahead (inc64 low) (omega arith) p in
      let (m, above) =
        seal-Moved fuel horizon (drain_all ahead (inc64 low)).0 (drain_all ahead (inc64 low)).1
          d.bound (drain_all-IsParked ahead (inc64 low) (omega arith) p) in
      rw t (Moved-round ahead _ low _ lt h m, above)
  | inr t ↦ rw t (Moved-stop ahead low b (λ s c. omega (arith, h s c)), h)
]

pub contains-le-list_max :
    (ahead : List ℕ) (s : ℕ) → KeySet.contains ahead s ≡ true → s ≤ list_max ahead
unfolding KeySet.contains
contains-le-list_max [] s h = cc
contains-le-list_max (x ∷ xs) s h = ground (arith, contains-le-list_max xs s)

-- A set with no element has length 0.
empty_of_none : (ahead : List ℕ) → ((s : ℕ) → KeySet.contains ahead s ≡ true → ⊥) → length ahead ≡ 0
unfolding KeySet.contains
empty_of_none [] h = refl
empty_of_none (x ∷ xs) h = absurd (h x (ground arith))

-- With fuel for the widest gap the loop ends by its test: at most `horizon` seqs stay parked.
pub seal_stops :
    (fuel horizon : ℕ) (ahead : List ℕ) (low : ℕ)
    → low ≤ u64_max
    → IsParked (suc low) ahead
    → ((s : ℕ) → KeySet.contains ahead s ≡ true → s ≤ low + fuel)
    → length (seal fuel horizon ahead low).0 ≤ horizon
unfolding seal
seal_stops zero horizon ahead low b h near =
    let none_left : length ahead ≡ 0 =
      empty_of_none ahead (λ s c. omega (arith, h s c, near s c)) in
    omega (arith, none_left)
seal_stops (suc fuel) horizon ahead low b h near = elim (Bool-cases (ltb horizon (length ahead))) [
  | inl t ↦
      let lt : low < u64_max = low-lt-max horizon low ahead h t in
      let p = IsParked-inc low ahead lt h in
      let d = drain_all-Moved ahead (inc64 low) (omega arith) p in
      rw t (
        seal_stops fuel horizon (drain_all ahead (inc64 low)).0 (drain_all ahead (inc64 low)).1
          d.bound (drain_all-IsParked ahead (inc64 low) (omega arith) p)
          (λ s c. ground (arith, d.left s, near s, d.rises)))
  | inr t ↦ rw t (ground (arith, t))
]

-- While the set fits the horizon the loop does nothing.
pub seal_idle :
    (fuel horizon : ℕ) (ahead : List ℕ) (low : ℕ)
    → length ahead ≤ horizon
    → seal fuel horizon ahead low ≡ (ahead, low)
unfolding seal
seal_idle zero horizon ahead low h = refl
seal_idle (suc fuel) horizon ahead low h = ground arith
