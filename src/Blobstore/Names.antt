-- ===== src/Blobstore/Names.antt =====
-- Keys and file names of crates/datarail-blobstore/src/lib.rs: a name is decoded to its key, and it is one
-- path component.
use hu_gr_datarail.Prelude.{
  ℕ, zero, suc, ◌*◌, ◌/◌, ◌%◌, ◌≤◌, ◌<◌, ◌≡◌, ◌≢◌, refl, ap, inl, inr, Bool, true, false, some, [],
  ◌∷◌, Bytes, length, Bool-cases, All, nat_eq, nat_eq_iff, ◌&&◌, bit_or, arith,
}
use hu_gr_datarail.Blobstore.{
  is_plain, hex_digit, hex_value, encode_bytes, encode_key, escaped, decode_bytes, strip_marker,
  decode_key,
}

abbrev pub AreBytes : Bytes → Type 0
AreBytes = All (λ b. b < 256)

hex_value-hex_digit : (n : ℕ) → n < 16 → hex_value (hex_digit n) ≡ some n
unfolding hex_value hex_digit
hex_value-hex_digit n h = ground (arith, h)

is_plain-percent : (b : ℕ) → is_plain b ≡ true → nat_eq b 37 ≡ false
unfolding is_plain
is_plain-percent b h = ground (arith, h)

-- a test of every number below a bound
all_below : (ℕ → Bool) → ℕ → Bool
all_below p zero = true
all_below p (suc n) = p n && all_below p n

all_below_lem : (p : ℕ → Bool) (n b : ℕ) → all_below p n ≡ true → b < n → p b ≡ true
unfolding all_below
all_below_lem p zero b h l = absurd (omega (arith, l))
all_below_lem p (suc n) b h l = elim (Bool-cases (nat_eq b n)) [
  | inl last ↦ rw ((nat_eq_iff b n).0 last) (ground (arith, h))
  | inr before ↦ all_below_lem p n b (ground (arith, h)) (ground (arith, before, l))
]

abbrev whole : ℕ → Bool
whole b = nat_eq (bit_or (b / 16 * 16 % 256) (b % 16)) b

nibbles : (b : ℕ) → b < 256 → bit_or (b / 16 * 16 % 256) (b % 16) ≡ b
unfolding all_below
nibbles b h =
    (nat_eq_iff (bit_or (b / 16 * 16 % 256) (b % 16)) b).0 (all_below_lem whole 256 b refl h)

escaped-digits :
    (b : ℕ) (rest : Bytes)
    → b < 256
    → escaped (hex_digit (b / 16) ∷ hex_digit (b % 16) ∷ rest) ≡ some (b, rest)
unfolding escaped
escaped-digits b rest h =
    rw (hex_value-hex_digit (b / 16) (omega (arith, h)))
      (rw (hex_value-hex_digit (b % 16) (omega arith)) (ap (λ c. some (c, rest)) (nibbles b h)))

-- The bytes behind an encoded one take less fuel.
room :
    (fuel b : ℕ) (key : Bytes)
    → length (encode_bytes (b ∷ key)) ≤ suc fuel
    → length (encode_bytes key) ≤ fuel
unfolding encode_bytes
room fuel b key h = ground (arith, h)

no_room : (b : ℕ) (key : Bytes) → length (encode_bytes (b ∷ key)) ≤ 0 → ⊥
unfolding encode_bytes
no_room b key h = ground (arith, h)

decode_bytes-encode_bytes :
    (fuel : ℕ) (key : Bytes)
    → AreBytes key
    → length (encode_bytes key) ≤ fuel
    → decode_bytes fuel (encode_bytes key) ≡ some key
unfolding encode_bytes decode_bytes
decode_bytes-encode_bytes zero [] a h = refl
decode_bytes-encode_bytes (suc fuel) [] a h = refl
decode_bytes-encode_bytes zero (b ∷ key) a h = absurd (no_room b key h)
decode_bytes-encode_bytes (suc fuel) (b ∷ key) (a, r) h =
    let later = decode_bytes-encode_bytes fuel key r (room fuel b key h) in
    elim (Bool-cases (is_plain b)) [
      | inl plain ↦
          rw (encode_bytes, plain) (rw (decode_bytes, is_plain-percent b plain, plain, later) refl)
      | inr other ↦
          rw (encode_bytes, other)
            (rw (decode_bytes, escaped-digits b (encode_bytes key) a, later) refl)
    ]

-- The name of a key is decoded to that key, if the key is text.
pub decode_key-encode_key :
    (is_utf8 : Bytes → Bool) (key : Bytes)
    → All (λ b. b < 256) key
    → is_utf8 key ≡ true
    → decode_key is_utf8 (encode_key key) ≡ some key
unfolding decode_key encode_key strip_marker
decode_key-encode_key is_utf8 key a h =
    rw (decode_bytes-encode_bytes (length (encode_bytes key)) key a (omega arith)) (rw h refl)

abbrev pub IsPathSafe : ℕ → Type 0
IsPathSafe b = (b ≢ 46) × (b ≢ 47)

plain-IsPathSafe : (b : ℕ) → is_plain b ≡ true → IsPathSafe b
unfolding is_plain
plain-IsPathSafe b h = (λ e. ground (arith, h, e), λ e. ground (arith, h, e))

digit-IsPathSafe : (n : ℕ) → n < 16 → IsPathSafe (hex_digit n)
unfolding hex_digit
digit-IsPathSafe n h = (λ e. ground (arith, h, e), λ e. ground (arith, h, e))

encode_bytes-AreSafe : (key : Bytes) → All (λ b. b < 256) key → All IsPathSafe (encode_bytes key)
unfolding encode_bytes
encode_bytes-AreSafe [] a = tt
encode_bytes-AreSafe (b ∷ key) (a, r) = elim (Bool-cases (is_plain b)) [
  | inl plain ↦ rw (encode_bytes, plain) (plain-IsPathSafe b plain, encode_bytes-AreSafe key r)
  | inr other ↦
      rw (encode_bytes, other)
        (
          (λ e. ground (arith, e), λ e. ground (arith, e)),
          (
            digit-IsPathSafe (b / 16) (omega (arith, a)),
            (digit-IsPathSafe (b % 16) (omega arith), encode_bytes-AreSafe key r),
          ),
        )
]

-- The name of a key of any bytes is not empty and has neither a `/` nor a `.`.
pub encode_key-AreSafe :
    (key : Bytes)
    → All (λ b. b < 256) key
    → (0 < length (encode_key key)) × All (λ b. (b ≢ 46) × (b ≢ 47)) (encode_key key)
unfolding encode_key
encode_key-AreSafe key a =
    (omega arith, ((λ e. ground (arith, e), λ e. ground (arith, e)), encode_bytes-AreSafe key a))
