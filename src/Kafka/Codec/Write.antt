-- ===== src/Kafka/Codec/Write.antt =====
-- `Writer` of crates/datarail-kafka/src/codec.rs: the bytes written so far. `v & 0x7f` is written
-- `v % 128`.
use hu_gr_datarail.Prelude.{
  ℕ, zero, suc, ◌+◌, ◌-◌, ◌*◌, ◌/◌, ◌%◌, ◌^◌, min, bit_or, bit_xor, Option, none, some, [], ◌∷◌,
  ◌++◌, Bytes, length, ltb, leb, if◌then◌else◌,
}
use hu_gr_datarail.Kafka.Codec.{be_bytes}

abbrev pub Writer : Type 0
Writer = Bytes

abbrev pub raw : Writer → Bytes → Writer
raw w bytes = w ++ bytes

-- `int8`, `int16`, `int32` and `int64`, and `uint32`
abbrev pub fixed : ℕ → Writer → ℕ → Writer
fixed width w v = w ++ be_bytes width v

abbrev pub int8 : Writer → ℕ → Writer
int8 = fixed 1

abbrev pub int16 : Writer → ℕ → Writer
int16 = fixed 2

abbrev pub int32 : Writer → ℕ → Writer
int32 = fixed 4

abbrev pub int64 : Writer → ℕ → Writer
int64 = fixed 8

abbrev pub uint32 : Writer → ℕ → Writer
uint32 = fixed 4

-- The loop `while v >= 0x80`, with the rounds that it may still take; what it pushes.
unfoldable pub varint_bytes : ℕ → ℕ → Bytes
varint_bytes zero v = (v % 256) ∷ []
varint_bytes (suc rounds) v =
    let rest = varint_bytes rounds (v / 128) in
    if leb 128 v then bit_or (v % 128) 128 ∷ rest else (v % 256) ∷ []

abbrev pub unsigned_varint : Writer → ℕ → Writer
unsigned_varint w v = w ++ varint_bytes 4 v

abbrev pub unsigned_varlong : Writer → ℕ → Writer
unsigned_varlong w v = w ++ varint_bytes 9 v

-- the arithmetic shift `n >> (width - 1)` of a signed number: its sign in every bit
abbrev pub sign_word : ℕ → ℕ → ℕ
sign_word width n = if ltb n (2 ^ (width - 1)) then 0 else 2 ^ width - 1

-- `(n << 1) ^ (n >> (width - 1))`
unfoldable pub zig_zag : ℕ → ℕ → ℕ
zig_zag width n = bit_xor (n * 2 % 2 ^ width) (sign_word width n)

abbrev pub varint : Writer → ℕ → Writer
varint w n = unsigned_varint w (zig_zag 32 n)

abbrev pub varlong : Writer → ℕ → Writer
varlong w n = unsigned_varlong w (zig_zag 64 n)

-- `try_from(len).unwrap_or(MAX)`
abbrev pub capped : ℕ → ℕ → ℕ
capped bits n = min n (2 ^ bits - 1)

unfoldable pub string : Writer → Bytes → Writer
string w s = raw (int16 w (capped 15 (length s))) s

unfoldable pub nullable_string : Writer → Option Bytes → Writer
nullable_string w none = int16 w (2 ^ 16 - 1)
nullable_string w (some s) = string w s

-- `saturating_add(1)` of a u32
abbrev pub saturating_inc : ℕ → ℕ
saturating_inc n = min (n + 1) (2 ^ 32 - 1)

unfoldable pub compact_bytes : Writer → Bytes → Writer
compact_bytes w b = raw (unsigned_varint w (saturating_inc (capped 32 (length b)))) b

abbrev pub compact_string : Writer → Bytes → Writer
compact_string = compact_bytes

unfoldable pub compact_nullable_string : Writer → Option Bytes → Writer
compact_nullable_string w none = unsigned_varint w 0
compact_nullable_string w (some s) = compact_string w s

unfoldable pub bytes : Writer → Bytes → Writer
bytes w b = raw (int32 w (capped 31 (length b))) b

unfoldable pub empty_tagged_fields : Writer → Writer
empty_tagged_fields w = unsigned_varint w 0

unfoldable pub frame : Bytes → Bytes
frame payload = be_bytes 4 (capped 31 (length payload)) ++ payload
