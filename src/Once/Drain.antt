-- ===== src/Once/Drain.antt =====
-- The two loops of `admit` that move the low-watermark of crates/datarail-once/src/lib.rs.
use hu_gr_datarail.Prelude.{
  nat_eq, ℕ, zero, suc, ◌≤◌, ◌<◌, ◌≡◌, refl, true, false, ◌&&◌, List, [], ◌∷◌, arith, length, leb,
  Bool-cases, inl, inr, ℕ_eq,
}
use hu_gr_datarail.Prelude.KeySet
use hu_gr_datarail.Prelude.KeySet.{contains-remove, length-remove}
use hu_gr_datarail.Once.{drain, drain_all, inc64, u64_max}

-- Every element of the set lies at or above `low`, and below the largest u64.
abbrev pub IsParked : ℕ → List ℕ → Type 0
IsParked low ahead = (s : ℕ) → KeySet.contains ahead s ≡ true → (low ≤ s) × (s < u64_max)

-- What a move of the watermark from `low` to `low'` leaves of a set.
pub record Moved (ahead : List ℕ) (low : ℕ) (ahead' : List ℕ) (low' : ℕ) : Type 0 where
  pub rises : low ≤ low'
  pub bound : low' ≤ u64_max
  pub left : (s : ℕ) → KeySet.contains ahead' s ≡ (leb low' s && KeySet.contains ahead s)
  pub shrinks : length ahead' ≤ length ahead

remove-IsParked :
    (low : ℕ) (ahead : List ℕ)
    → IsParked low ahead
    → KeySet.contains ahead low ≡ true
    → IsParked (inc64 low) (KeySet.remove ahead low)
remove-IsParked low ahead h c s m = ground (arith, contains-remove ahead low s, h s, h low c)

pub Moved-stop :
    (ahead : List ℕ) (low : ℕ) → low ≤ u64_max → IsParked low ahead → Moved ahead low ahead low
Moved-stop ahead low b h = record {
  rises = omega arith;
  bound = b;
  left = λ s. ground (arith, h s);
  shrinks = omega arith;
}

Moved-remove :
    (ahead ahead' : List ℕ) (low low' : ℕ)
    → IsParked low ahead
    → KeySet.contains ahead low ≡ true
    → Moved (KeySet.remove ahead low) (inc64 low) ahead' low'
    → Moved ahead low ahead' low'
Moved-remove ahead ahead' low low' h c m = record {
  rises = ground (arith, h low c, m.rises);
  bound = m.bound;
  left = λ s. ground (arith, h low c, m.rises, m.left s, contains-remove ahead low s);
  shrinks = ground (arith, m.shrinks, length-remove ahead low c);
}

drain-Moved :
    (fuel : ℕ) (ahead : List ℕ) (low : ℕ)
    → low ≤ u64_max
    → IsParked low ahead
    → Moved ahead low (drain fuel ahead low).0 (drain fuel ahead low).1
unfolding drain
drain-Moved zero ahead low b h = Moved-stop ahead low b h
drain-Moved (suc fuel) ahead low b h = elim (Bool-cases (KeySet.contains ahead low)) [
  | inl c ↦ rw c (
      Moved-remove ahead _ low _ h c (
        drain-Moved fuel (KeySet.remove ahead low) (inc64 low) (ground (arith, h low c))
          (remove-IsParked low ahead h c)))
  | inr c ↦ rw c (Moved-stop ahead low b h)
]

-- With a round for each element the loop ends by its test.
drain_stops :
    (fuel : ℕ) (ahead : List ℕ) (low : ℕ)
    → length ahead ≤ fuel
    → KeySet.contains (drain fuel ahead low).0 (drain fuel ahead low).1 ≡ false
unfolding drain
drain_stops zero [] low h = unfold KeySet.contains in refl
drain_stops zero (x ∷ xs) low h = absurd (omega arith)
drain_stops (suc fuel) ahead low h = elim (Bool-cases (KeySet.contains ahead low)) [
  | inl c ↦ rw c (
      drain_stops fuel (KeySet.remove ahead low) (inc64 low)
        (omega (arith, length-remove ahead low c)))
  | inr c ↦ rw c c
]

-- The drain of a set that lies at or above `low` keeps what lies above the new watermark, and ends
-- with every element strictly above it.
pub drain_all-Moved :
    (ahead : List ℕ) (low : ℕ)
    → low ≤ u64_max
    → IsParked low ahead
    → Moved ahead low (drain_all ahead low).0 (drain_all ahead low).1
drain_all-Moved ahead low b h = drain-Moved (length ahead) ahead low b h

pub drain_all-IsParked :
    (ahead : List ℕ) (low : ℕ)
    → low ≤ u64_max
    → IsParked low ahead
    → IsParked (suc (drain_all ahead low).1) (drain_all ahead low).0
drain_all-IsParked ahead low b h s c =
    let m = drain_all-Moved ahead low b h in
    let p = h s in ground (arith, m.left s, p, drain_stops (length ahead) ahead low (omega arith))

-- Every seq that the drain passes was parked.
drain_passed :
    (fuel : ℕ) (ahead : List ℕ) (low s : ℕ)
    → low ≤ u64_max
    → IsParked low ahead
    → low ≤ s
    → s < (drain fuel ahead low).1
    → KeySet.contains ahead s ≡ true
unfolding drain
drain_passed zero ahead low s b h l u = absurd (omega arith)
drain_passed (suc fuel) ahead low s b h l u = elim (Bool-cases (KeySet.contains ahead low)) [
  | inl c ↦ elim (Bool-cases (nat_eq low s)) [
    | inl e ↦ ground (arith, e, c)
    | inr n ↦
        let u' : s < (drain fuel (KeySet.remove ahead low) (inc64 low)).1 = ground (arith, c) in
        let ih =
          drain_passed fuel (KeySet.remove ahead low) (inc64 low) s (omega (arith, h low c))
            (remove-IsParked low ahead h c) (ground (arith, h low c)) u' in
        ground (arith, contains-remove ahead low s)
  ]
  | inr c ↦ absurd (ground (arith, c))
]

pub drain_all_passed :
    (ahead : List ℕ) (low s : ℕ)
    → low ≤ u64_max
    → IsParked low ahead
    → low ≤ s
    → s < (drain_all ahead low).1
    → KeySet.contains ahead s ≡ true
drain_all_passed ahead low s b h l u = drain_passed (length ahead) ahead low s b h l u
