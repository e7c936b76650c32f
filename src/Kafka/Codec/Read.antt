-- ===== src/Kafka/Codec/Read.antt =====
-- `Reader` of crates/datarail-kafka/src/codec.rs. A signed integer is its bit pattern; `b & 0x7f`
-- of a byte is written `b % 128`, and `b & 0x80 == 0` is `b < 128`.
use hu_gr_datarail.Prelude.{
  ℕ, zero, suc, ◌+◌, ◌-◌, ◌*◌, ◌/◌, ◌%◌, ◌^◌, min, max, bit_or, bit_xor, Bool, Option, none, some,
  Bytes, length, ltb, leb, nat_eq, if◌then◌else◌,
}
use hu_gr_datarail.Prelude.Lists
use hu_gr_datarail.Kafka.Codec.{
  Reader, ok, err, Parse, ◌>>=◌, pure, fail, unexpected_eof, invalid_data, be_value,
}

unfoldable pub take : ℕ → Parse Bytes
take n r =
    let end = r.pos + n in
    if leb (2 ^ 64) end
    then err unexpected_eof
    else if leb end (length r.buf)
    then ok (Lists.take n (Lists.drop r.pos r.buf), record r { pos = end })
    else err unexpected_eof

unfoldable pub remaining : Reader → Bytes
remaining r = Lists.drop r.pos r.buf

unfoldable pub is_empty : Reader → Bool
is_empty r = leb (length r.buf) r.pos

-- `count.max(0)` of an i32
abbrev pub non_negative : ℕ → ℕ
non_negative count = if ltb count (2 ^ 31) then count else 0

unfoldable pub bounded_count : Reader → ℕ → ℕ → ℕ
bounded_count r count min_entry_bytes =
    min (non_negative count) (length (remaining r) / max min_entry_bytes 1)

-- `int8`, `int16`, `int32` and `int64`, and `uint32`
unfoldable pub fixed : ℕ → Parse ℕ
fixed width = do bytes ← take width; pure (be_value 0 bytes)

abbrev pub read_byte : Parse ℕ
read_byte = fixed 1

abbrev pub int8 : Parse ℕ
int8 = fixed 1

abbrev pub int16 : Parse ℕ
int16 = fixed 2

abbrev pub int32 : Parse ℕ
int32 = fixed 4

abbrev pub int64 : Parse ℕ
int64 = fixed 8

abbrev pub uint32 : Parse ℕ
uint32 = fixed 4

-- The rounds that are left, the index of the next, and `result`.
unfoldable pub varint_loop : ℕ → ℕ → ℕ → Parse ℕ
varint_loop zero i result = fail invalid_data
varint_loop (suc rounds) i result = do
  byte ← read_byte
  let result' = bit_or result (byte % 128 * 2 ^ (7 * i) % 2 ^ 64)
  let more = varint_loop rounds (i + 1) result'
  if ltb byte 128 then pure result' else more

abbrev pub unsigned_varint_u64 : ℕ → Parse ℕ
unsigned_varint_u64 max_bytes = varint_loop max_bytes 0 0

unfoldable pub unsigned_varint : Parse ℕ
unsigned_varint = do
  value ← unsigned_varint_u64 5
  if ltb value (2 ^ 32) then pure value else fail invalid_data

-- `(v >> 1) ^ 0.wrapping_sub(v & 1)` at a width
unfoldable pub un_zig_zag : ℕ → ℕ → ℕ
un_zig_zag width v = bit_xor (v / 2) ((2 ^ width - v % 2) % 2 ^ width)

unfoldable pub varint : Parse ℕ
varint = do v ← unsigned_varint; pure (un_zig_zag 32 v)

unfoldable pub varlong : Parse ℕ
varlong = do v ← unsigned_varint_u64 10; pure (un_zig_zag 64 v)

unfoldable pub compact_len : Parse (Option ℕ)
compact_len = do v ← unsigned_varint; if nat_eq v 0 then pure none else pure (some (v - 1))

unfoldable pub bytes : Parse Bytes
bytes = do n ← int32; if ltb n (2 ^ 31) then take n else fail invalid_data

unfoldable pub nullable_bytes : Parse (Option Bytes)
nullable_bytes = do
  n ← int32
  if nat_eq n (2 ^ 32 - 1)
      then pure none
      else if ltb n (2 ^ 31)
      then (do body ← take n; pure (some body))
      else fail invalid_data

unfoldable pub compact_nullable_bytes : Parse (Option Bytes)
compact_nullable_bytes = do
  len ← compact_len
  elim len [ none ↦ pure none | some n ↦ do body ← take n; pure (some body) ]

unfoldable pub compact_bytes : Parse Bytes
compact_bytes = do len ← compact_len; elim len [ none ↦ fail invalid_data | some n ↦ take n ]

unfoldable pub skip_fields : ℕ → Parse {0} Unit
skip_fields zero = pure tt
skip_fields (suc count) = do
  tag ← unsigned_varint
  size ← unsigned_varint
  skipped ← take size
  skip_fields count

unfoldable pub skip_tagged_fields : Parse {0} Unit
skip_tagged_fields = do count ← unsigned_varint; skip_fields count

-- `String::from_utf8` is the test `is_utf8` of the standard library.
module _ (is_utf8 : Bytes → Bool) where
  unfoldable pub read_utf8 : ℕ → Parse Bytes
  read_utf8 len = do text ← take len; if is_utf8 text then pure text else fail invalid_data

  unfoldable pub string : Parse Bytes
  string = do n ← int16; if ltb n (2 ^ 15) then read_utf8 n else fail invalid_data

  unfoldable pub nullable_string : Parse (Option Bytes)
  nullable_string = do
    n ← int16
    if nat_eq n (2 ^ 16 - 1)
        then pure none
        else if ltb n (2 ^ 15)
        then (do text ← read_utf8 n; pure (some text))
        else fail invalid_data

  unfoldable pub compact_string : Parse Bytes
  compact_string = do
    len ← compact_len
    elim len [ none ↦ fail invalid_data | some n ↦ read_utf8 n ]

  unfoldable pub compact_nullable_string : Parse (Option Bytes)
  compact_nullable_string = do
    len ← compact_len
    elim len [ none ↦ pure none | some n ↦ do text ← read_utf8 n; pure (some text) ]
