-- ===== src/Prelude/Words.antt =====
-- Little-endian words, slices and the CRC-32 that several crates carry a copy of.
use Prim.Native.Nat.{ℕ, zero, suc, ◌+◌, ◌-◌, ◌*◌, ◌/◌, ◌%◌, ◌^◌, ◌≤◌, ◌<◌, bit_xor}
use mathlib.Core.Path.{◌∙◌, ◌≡◌, refl, ap}
use mathlib.Core.Bool.{◌&&◌}
use mathlib.Core.Option.{Option, none, some}
use mathlib.Core.List.{[], ◌∷◌, ◌++◌}
use native.Mathlib.Omega.{arith}
use hu_gr_datarail.Prelude.Tests.{leb, ltb, nat_eq, if◌then◌else◌}
use hu_gr_datarail.Prelude.Keys.{Bytes}
use hu_gr_datarail.Prelude.Lists.{
  length, take, drop, drop-drop, drop-length-append, length-append, length-drop, take-length-append,
}

-- `to_le_bytes` and `from_le_bytes`
unfoldable pub le_bytes : ℕ → ℕ → Bytes
le_bytes zero v = []
le_bytes (suc k) v = (v % 256) ∷ le_bytes k (v / 256)

unfoldable pub le_value : Bytes → ℕ
le_value [] = 0
le_value (b ∷ bs) = b + 256 * le_value bs

pub length-le_bytes : (k v : ℕ) → length (le_bytes k v) ≡ k
unfolding le_bytes
length-le_bytes zero v = refl
length-le_bytes (suc k) v = omega (arith, length-le_bytes k (v / 256))

pub take-le_bytes_4 : (v : ℕ) (rest : Bytes) → take 4 (le_bytes 4 v ++ rest) ≡ le_bytes 4 v
unfolding le_bytes
take-le_bytes_4 v rest = refl

pub le_value-le_bytes_4 : (v : ℕ) → v < 2 ^ 32 → le_value (le_bytes 4 v) ≡ v
unfolding le_value le_bytes
le_value-le_bytes_4 v h = omega arith

pub le_value-le_bytes_8 : (v : ℕ) → v < 2 ^ 64 → le_value (le_bytes 8 v) ≡ v
unfolding le_value le_bytes
le_value-le_bytes_8 v h = omega arith

-- `checked_add` of two usize
abbrev pub checked_add : ℕ → ℕ → Option ℕ
checked_add a b = if ltb (a + b) (2 ^ 64) then some (a + b) else none

-- `buf.get(from..to)`
unfoldable pub slice : Bytes → ℕ → ℕ → Option Bytes
slice buf from to =
    if leb from to && leb to (length buf) then some (take (to - from) (drop from buf)) else none

-- One round of the inner loop: the mask is all ones for an odd number, else zero.
unfoldable pub crc_bits : ℕ → ℕ → ℕ
crc_bits zero crc = crc
crc_bits (suc rounds) crc =
    crc_bits rounds (bit_xor (crc / 2) (if nat_eq (crc % 2) 1 then 0xEDB8_8320 else 0))

unfoldable pub crc_bytes : ℕ → Bytes → ℕ
crc_bytes crc [] = crc
crc_bytes crc (b ∷ bs) = crc_bytes (crc_bits 8 (bit_xor crc b)) bs

-- `!crc` of a u32
unfoldable pub crc32 : Bytes → ℕ
crc32 bytes = 2 ^ 32 - 1 - crc_bytes (2 ^ 32 - 1) bytes

pub crc32-lt : (bytes : Bytes) → crc32 bytes < 2 ^ 32
unfolding crc32
crc32-lt bytes = omega arith

-- `input` stands at `n` in a buffer that memory can hold.
pub record StandsAt (buf : Bytes) (n : ℕ) (input : Bytes) : Type 0 where
  pub input_left : drop n buf ≡ input
  pub within : n ≤ length buf
  pub addressable : length buf < 2 ^ 64

StandsAt-room :
    (buf : Bytes) (n : ℕ) (bs rest : Bytes)
    → StandsAt buf n (bs ++ rest)
    → n + length bs ≤ length buf
StandsAt-room buf n bs rest s =
    omega (arith, s.within, length-drop n buf, ap length s.input_left, length-append bs rest)

pub StandsAt-next :
    (buf : Bytes) (n : ℕ) (bs rest : Bytes)
    → StandsAt buf n (bs ++ rest)
    → StandsAt buf (n + length bs) rest
StandsAt-next buf n bs rest s = record {
  input_left =
      drop-drop n (length bs) buf ∙ ap (drop (length bs)) s.input_left ∙ drop-length-append bs rest;
  within = StandsAt-room buf n bs rest s;
  addressable = s.addressable;
}

pub slice-StandsAt :
    (buf : Bytes) (n : ℕ) (bs rest : Bytes)
    → StandsAt buf n (bs ++ rest)
    → slice buf n (n + length bs) ≡ some bs
unfolding slice
slice-StandsAt buf n bs rest s =
    ground (arith, StandsAt-room buf n bs rest s, s.input_left, take-length-append bs rest)

pub checked_add-StandsAt :
    (buf : Bytes) (n : ℕ) (bs rest : Bytes)
    → StandsAt buf n (bs ++ rest)
    → checked_add n (length bs) ≡ some (n + length bs)
checked_add-StandsAt buf n bs rest s = ground (arith, StandsAt-room buf n bs rest s, s.addressable)

pub checked_add-some : (a b c : ℕ) → checked_add a b ≡ some c → c ≡ a + b
checked_add-some a b c h = ground (arith, h)

pub slice-some :
    (buf : Bytes) (from to : ℕ) (bs : Bytes)
    → slice buf from to ≡ some bs
    → (from ≤ to) × (to ≤ length buf) × (bs ≡ take (to - from) (drop from buf))
unfolding slice
slice-some buf from to bs h = ground (arith, h)
