-- ===== src/Kafka/Codec/RoundTrip.antt =====
-- What the writer of crates/datarail-kafka/src/codec.rs writes, its reader reads: the integers.
use hu_gr_datarail.Prelude.{
  ℕ, zero, suc, ◌+◌, ◌*◌, ◌/◌, ◌%◌, ◌^◌, ◌≤◌, ◌<◌, ◌≡◌, refl, sym, ap, ◌∙◌, [], ◌∷◌, Bytes, length,
  arith, false, ltb, bit_or, Bool-cases, inl, inr, subst,
}
use native.Mathlib.Nat.{pow-suc, mod-eq_of_lt, div-add-mod'}
use hu_gr_datarail.Prelude.Bits.{bit_or_field}
use hu_gr_datarail.Kafka.Codec.{pure, be_value, be_bytes}
use hu_gr_datarail.Kafka.Codec.Read
use hu_gr_datarail.Kafka.Codec.Write
use hu_gr_datarail.Kafka.Codec.Reads.{Reads, bind-Reads, map-Reads, take-Reads, Reads-of, Reads-eq}

pub length-be_bytes : (k v : ℕ) → length (be_bytes k v) ≡ k
unfolding be_bytes
length-be_bytes zero v = refl
length-be_bytes (suc k) v = omega (arith, length-be_bytes k v)

-- At a width where the big-endian bytes give the number back, the reader does.
fixed-Reads :
    (width v : ℕ)
    → be_value 0 (be_bytes width v) ≡ v
    → Reads (Read.fixed width) v (be_bytes width v)
unfolding Read.fixed
fixed-Reads width v e =
    map-Reads (Read.take width) _ (be_bytes width v) v (be_bytes width v)
      (subst (λ n. Reads (Read.take n) (be_bytes width v) (be_bytes width v))
        (length-be_bytes width v) (take-Reads (be_bytes width v)))
      (ap pure e)

pub int8-Reads : (v : ℕ) → v < 2 ^ 8 → Reads Read.int8 v (be_bytes 1 v)
int8-Reads v h = fixed-Reads 1 v (unfold be_value be_bytes in omega arith)

pub int16-Reads : (v : ℕ) → v < 2 ^ 16 → Reads Read.int16 v (be_bytes 2 v)
int16-Reads v h = fixed-Reads 2 v (unfold be_value be_bytes in omega arith)

pub int32-Reads : (v : ℕ) → v < 2 ^ 32 → Reads Read.int32 v (be_bytes 4 v)
int32-Reads v h = fixed-Reads 4 v (unfold be_value be_bytes in omega arith)

pub int64-Reads : (v : ℕ) → v < 2 ^ 64 → Reads Read.int64 v (be_bytes 8 v)
int64-Reads v h = fixed-Reads 8 v (unfold be_value be_bytes in omega arith)

read_byte-Reads : (b : ℕ) → Reads Read.read_byte b (b ∷ [])
unfolding Read.fixed be_value
read_byte-Reads b =
    map-Reads (Read.take 1) _ (b ∷ []) b (b ∷ []) (take-Reads (b ∷ [])) (ap pure (omega arith))

-- The seven bits of a byte go above those of the result.
abbrev with_bits : ℕ → ℕ → ℕ → ℕ
with_bits i result byte = bit_or result (byte % 128 * 2 ^ (7 * i) % 2 ^ 64)

varint_loop-last :
    (n i result b : ℕ)
    → b < 128
    → Reads (Read.varint_loop (suc n) i result) (with_bits i result b) (b ∷ [])
unfolding Read.varint_loop
varint_loop-last n i result b h =
    map-Reads Read.read_byte _ b _ (b ∷ []) (read_byte-Reads b) (ground arith)

ltb-large : (b : ℕ) → 128 ≤ b → ltb b 128 ≡ false
ltb-large b h = ground arith

varint_loop-more :
    (n i result b a : ℕ) (bs : Bytes)
    → 128 ≤ b
    → Reads (Read.varint_loop n (i + 1) (with_bits i result b)) a bs
    → Reads (Read.varint_loop (suc n) i result) a (b ∷ bs)
unfolding Read.varint_loop
varint_loop-more n i result b a bs h more =
    bind-Reads Read.read_byte _ b a (b ∷ []) bs (read_byte-Reads b)
      (Reads-of a bs (rw (ltb-large b h) refl) more)

with_bits-add :
    (i result byte : ℕ)
    → result < 2 ^ (7 * i)
    → byte % 128 * 2 ^ (7 * i) < 2 ^ 64
    → with_bits i result byte ≡ result + byte % 128 * 2 ^ (7 * i)
with_bits-add i result byte lo fits =
    rw (mod-eq_of_lt fits) (bit_or_field (7 * i) result (byte % 128) lo)

varint_bytes-small : (n v : ℕ) → v < 128 → Write.varint_bytes n v ≡ v ∷ []
unfolding Write.varint_bytes
varint_bytes-small zero v h = ap (λ b. b ∷ []) (omega arith)
varint_bytes-small (suc n) v h = ground arith

varint_bytes-large :
    (n v : ℕ)
    → 128 ≤ v
    → Write.varint_bytes (suc n) v ≡ (v % 128 + 128) ∷ Write.varint_bytes n (v / 128)
unfolding Write.varint_bytes
varint_bytes-large n v h = ground (arith, bit_or_field 7 (v % 128) 1)

ring_split : (a q p : ℕ) → (q * 128 + a) * p ≡ a * p + q * (128 * p)
ring_split a q p = grind arith

shift_split : (v p : ℕ) → v * p ≡ v % 128 * p + v / 128 * (128 * p)
shift_split v p = ap (λ t. t * p) (sym (div-add-mod' v 128)) ∙ ring_split (v % 128) (v / 128) p

low_bits_le : (v p : ℕ) → v % 128 * p ≤ 127 * p
low_bits_le v p = grind arith

next_place : (i : ℕ) → 2 ^ (7 * (i + 1)) ≡ 128 * 2 ^ (7 * i)
next_place i =
    let m = 7 * i in
    let e : 7 * (i + 1) ≡ suc (suc (suc (suc (suc (suc (suc m)))))) = omega arith in
    rw e (
      omega (
        arith,
        pow-suc 2 (m + 6),
        pow-suc 2 (m + 5),
        pow-suc 2 (m + 4),
        pow-suc 2 (m + 3),
        pow-suc 2 (m + 2),
        pow-suc 2 (m + 1),
        pow-suc 2 m,
      ))

-- The first group of a number, and what is left of it a place higher.
place_fits : (i result v : ℕ) → result + v * 2 ^ (7 * i) < 2 ^ 64 → v % 128 * 2 ^ (7 * i) < 2 ^ 64
place_fits i result v fits = omega (arith, shift_split v (2 ^ (7 * i)))

first_place :
    (i result v : ℕ)
    → result < 2 ^ (7 * i)
    → result + v * 2 ^ (7 * i) < 2 ^ 64
    → with_bits i result (v % 128 + 128) ≡ result + v % 128 * 2 ^ (7 * i)
first_place i result v lo fits =
    let e : (v % 128 + 128) % 128 ≡ v % 128 = omega arith in
    with_bits-add i result (v % 128 + 128) lo (rw e (place_fits i result v fits)) ∙ rw e refl

place_value :
    (i result v : ℕ)
    → result < 2 ^ (7 * i)
    → result + v * 2 ^ (7 * i) < 2 ^ 64
    → with_bits i result (v % 128 + 128) + v / 128 * 2 ^ (7 * (i + 1)) ≡ result + v * 2 ^ (7 * i)
place_value i result v lo fits =
    rw (first_place i result v lo fits)
      (rw (next_place i) (omega (arith, shift_split v (2 ^ (7 * i)))))

place_bound :
    (i result v : ℕ)
    → result < 2 ^ (7 * i)
    → result + v * 2 ^ (7 * i) < 2 ^ 64
    → with_bits i result (v % 128 + 128) < 2 ^ (7 * (i + 1))
place_bound i result v lo fits =
    rw (first_place i result v lo fits)
      (rw (next_place i) (omega (arith, low_bits_le v (2 ^ (7 * i)))))

varint_loop-small :
    (rounds i result v : ℕ)
    → v < 128
    → result < 2 ^ (7 * i)
    → result + v * 2 ^ (7 * i) < 2 ^ 64
    → Reads
        (Read.varint_loop (suc rounds) i result)
        (result + v * 2 ^ (7 * i))
        (Write.varint_bytes rounds v)
varint_loop-small rounds i result v h lo fits =
    Reads-eq (Read.varint_loop (suc rounds) i result)
      (with_bits-add i result v lo (rw (mod-eq_of_lt h) (omega arith)) ∙ rw (mod-eq_of_lt h) refl)
      (sym (varint_bytes-small rounds v h)) (varint_loop-last rounds i result v h)

pub varint_loop-Reads :
    (rounds i result v : ℕ)
    → v < 128 ^ suc rounds
    → result < 2 ^ (7 * i)
    → result + v * 2 ^ (7 * i) < 2 ^ 64
    → Reads
        (Read.varint_loop (suc rounds) i result)
        (result + v * 2 ^ (7 * i))
        (Write.varint_bytes rounds v)
varint_loop-Reads zero i result v h lo fits =
    varint_loop-small zero i result v (omega arith) lo fits
varint_loop-Reads (suc rounds) i result v h lo fits = elim (Bool-cases (ltb v 128)) [
  | inl small ↦ varint_loop-small (suc rounds) i result v (ground arith) lo fits
  | inr large ↦
      let b = v % 128 + 128 in
      let result' = with_bits i result b in
      Reads-eq (Read.varint_loop (suc (suc rounds)) i result) (place_value i result v lo fits)
        (sym (varint_bytes-large rounds v (ground arith)))
        (varint_loop-more (suc rounds) i result b _ _ (omega arith) (
          varint_loop-Reads rounds (i + 1) result' (v / 128)
            (ground (arith, pow-suc 128 (suc rounds))) (place_bound i result v lo fits)
            (subst (λ n. n < 2 ^ 64) (sym (place_value i result v lo fits)) fits)))
]
