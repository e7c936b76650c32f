-- ===== src/Prelude/Bits.antt =====
-- Two facts on binary digits, at every width: `|` of disjoint fields, and `^` with a word of ones.
use Prim.Native.Nat.{
  ℕ, zero, suc, ◌+◌, ◌-◌, ◌*◌, ◌/◌, ◌%◌, ◌^◌, ◌≤◌, ◌<◌, max, digits, differ, bit_or, bit_xor,
  bit_or-bitwise, bit_xor-bitwise,
}
use mathlib.Core.Path.{◌≡◌, refl}
use native.Mathlib.Nat.{pow-suc, one-le-pow}
use native.Mathlib.Omega.{arith}

-- a field at place k + 1 is twice the field at place k
field_suc : (q k : ℕ) → q * 2 ^ suc k ≡ q * 2 ^ k * 2
field_suc q k = grind (arith, pow-suc 2 k)

half : (x : ℕ) → x * 2 / 2 ≡ x
half x = omega arith

half_ones : (k : ℕ) → (2 ^ suc k - 1) / 2 ≡ 2 ^ k - 1
half_ones k = omega (arith, pow-suc 2 k, one-le-pow k 2 (omega arith))

or_digits : (k n r q : ℕ) → r < 2 ^ k → r ≤ n → digits (λ y. y) max n r (q * 2 ^ k) ≡ r + q * 2 ^ k
or_digits k zero r q h le = omega arith
or_digits k (suc n) zero q h le = omega arith
or_digits zero (suc n) (suc a) q h le = absurd (omega arith)
or_digits (suc k) (suc n) (suc a) q h le = rw (field_suc q k) (
    rw (half (q * 2 ^ k))
      (rw (or_digits k n (suc a / 2) q (omega (arith, pow-suc 2 k)) (omega arith)) (omega arith)))

pub bit_or_field : (k r q : ℕ) → r < 2 ^ k → bit_or r (q * 2 ^ k) ≡ r + q * 2 ^ k
bit_or_field k r q h = simp bit_or-bitwise (or_digits k r r q h (omega arith))

differ_one : (b : ℕ) → b < 2 → differ b 1 ≡ 1 - b
differ_one zero h = refl
differ_one (suc zero) h = refl
differ_one (suc (suc b)) h = absurd (omega arith)

last_one : (k : ℕ) → (2 ^ suc k - 1) % 2 ≡ 1
last_one k = omega (arith, pow-suc 2 k, one-le-pow k 2 (omega arith))

xor_digits :
    (k n x : ℕ) → x < 2 ^ k → x ≤ n → digits (λ y. y) differ n x (2 ^ k - 1) ≡ 2 ^ k - 1 - x
xor_digits k zero x h le = omega arith
xor_digits k (suc n) zero h le = omega arith
xor_digits zero (suc n) (suc a) h le = absurd (omega arith)
xor_digits (suc k) (suc n) (suc a) h le = rw (half_ones k) (
    rw (xor_digits k n (suc a / 2) (omega (arith, pow-suc 2 k)) (omega arith))
      (rw (last_one k) (rw (differ_one (suc a % 2) (omega arith)) (omega (arith, pow-suc 2 k)))))

pub bit_xor_ones : (k x : ℕ) → x < 2 ^ k → bit_xor x (2 ^ k - 1) ≡ 2 ^ k - 1 - x
bit_xor_ones k x h = simp bit_xor-bitwise (xor_digits k x x h (omega arith))

differ-zero : (b : ℕ) → differ b 0 ≡ b
differ-zero zero = refl
differ-zero (suc b) = refl

xor_zero_digits : (n x : ℕ) → x ≤ n → digits (λ y. y) differ n x 0 ≡ x
xor_zero_digits zero x le = omega arith
xor_zero_digits (suc n) zero le = refl
xor_zero_digits (suc n) (suc a) le =
    rw (xor_zero_digits n (suc a / 2) (omega arith)) (rw (differ-zero (suc a % 2)) (omega arith))

pub bit_xor-zero : (x : ℕ) → bit_xor x 0 ≡ x
bit_xor-zero x = simp bit_xor-bitwise (xor_zero_digits x x (omega arith))
