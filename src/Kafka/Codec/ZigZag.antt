-- ===== src/Kafka/Codec/ZigZag.antt =====
-- The zig-zag numbers of `varint` and `varlong` in crates/datarail-kafka/src/codec.rs, at any width.
use hu_gr_datarail.Prelude.{
  ℕ, suc, ◌+◌, ◌-◌, ◌*◌, ◌/◌, ◌%◌, ◌^◌, ◌≤◌, ◌<◌, ◌≡◌, ◌∙◌, arith, ltb, Bool-cases, inl, inr,
}
use hu_gr_datarail.Prelude.Bits.{bit_xor_ones, bit_xor-zero}
use native.Mathlib.Nat.{pow-suc, one-le-pow, mod_self, mod-eq_of_lt, mod-eq-sub-mod}
use hu_gr_datarail.Kafka.Codec.Read
use hu_gr_datarail.Kafka.Codec.Write

sign_word-low : (k n : ℕ) → n < 2 ^ k → Write.sign_word (suc k) n ≡ 0
sign_word-low k n h = ground (arith, h)

sign_word-high : (k n : ℕ) → 2 ^ k ≤ n → Write.sign_word (suc k) n ≡ 2 ^ suc k - 1
sign_word-high k n h = ground (arith, h)

zig_zag-low : (k n : ℕ) → n < 2 ^ k → Write.zig_zag (suc k) n ≡ n * 2
unfolding Write.zig_zag
zig_zag-low k n h =
    rw (sign_word-low k n h)
      (rw (bit_xor-zero (n * 2 % 2 ^ suc k)) (mod-eq_of_lt (omega (arith, pow-suc 2 k))))

shifted_out : (k n : ℕ) → 2 ^ k ≤ n → n < 2 ^ suc k → n * 2 % 2 ^ suc k ≡ n * 2 - 2 ^ suc k
shifted_out k n h b =
    mod-eq-sub-mod (omega (arith, pow-suc 2 k)) ∙ mod-eq_of_lt (omega (arith, pow-suc 2 k))

zig_zag-high :
    (k n : ℕ)
    → 2 ^ k ≤ n
    → n < 2 ^ suc k
    → Write.zig_zag (suc k) n ≡ 2 ^ suc k - 1 - (n * 2 - 2 ^ suc k)
unfolding Write.zig_zag
zig_zag-high k n h b = rw (sign_word-high k n h) (
    rw (shifted_out k n h b)
      (bit_xor_ones (suc k) (n * 2 - 2 ^ suc k) (omega (arith, pow-suc 2 k))))

pub zig_zag-lt : (k n : ℕ) → n < 2 ^ suc k → Write.zig_zag (suc k) n < 2 ^ suc k
zig_zag-lt k n h = elim (Bool-cases (ltb n (2 ^ k))) [
  | inl low ↦ rw (zig_zag-low k n (ground arith)) (ground (arith, pow-suc 2 k))
  | inr high ↦ rw (zig_zag-high k n (ground arith) h) (omega arith)
]

un_zig_zag-even : (k m : ℕ) → m < 2 ^ k → Read.un_zig_zag k (m * 2) ≡ m
unfolding Read.un_zig_zag
un_zig_zag-even k m h =
    let half : m * 2 / 2 ≡ m = omega arith in
    let bit : m * 2 % 2 ≡ 0 = omega arith in
    let whole : 2 ^ k - 0 ≡ 2 ^ k = omega arith in
    rw half (rw bit (rw whole (rw (mod_self (2 ^ k)) (bit_xor-zero m))))

un_zig_zag-odd : (k m : ℕ) → m < 2 ^ k → Read.un_zig_zag k (m * 2 + 1) ≡ 2 ^ k - 1 - m
unfolding Read.un_zig_zag
un_zig_zag-odd k m h =
    let half : (m * 2 + 1) / 2 ≡ m = omega arith in
    let bit : (m * 2 + 1) % 2 ≡ 1 = omega arith in
    let ones : (2 ^ k - 1) % 2 ^ k ≡ 2 ^ k - 1 = mod-eq_of_lt (omega (arith, one-le-pow k 2)) in
    rw half (rw bit (rw ones (bit_xor_ones k m h)))

pub un_zig_zag-zig_zag :
    (k n : ℕ) → n < 2 ^ suc k → Read.un_zig_zag (suc k) (Write.zig_zag (suc k) n) ≡ n
un_zig_zag-zig_zag k n h = elim (Bool-cases (ltb n (2 ^ k))) [
  | inl low ↦ rw (zig_zag-low k n (ground arith)) (un_zig_zag-even (suc k) n h)
  | inr high ↦
      let e : 2 ^ suc k - 1 - (n * 2 - 2 ^ suc k) ≡ (2 ^ suc k - 1 - n) * 2 + 1 =
        ground (arith, pow-suc 2 k) in
      rw (zig_zag-high k n (ground arith) h)
        (rw e (un_zig_zag-odd (suc k) (2 ^ suc k - 1 - n) (omega arith) ∙ omega arith))
]
