-- ===== src/Kafka/Codec/Strings.antt =====
-- The strings and byte arrays of crates/datarail-kafka/src/codec.rs, written and read back.
use hu_gr_datarail.Prelude.{
  ℕ, ◌+◌, ◌-◌, ◌^◌, ◌<◌, ◌≡◌, refl, arith, Bool, true, Option, none, some, [], Bytes, length,
}
use hu_gr_datarail.Kafka.Codec.{pure, be_bytes}
use hu_gr_datarail.Kafka.Codec.Read
use hu_gr_datarail.Kafka.Codec.Write
use hu_gr_datarail.Kafka.Codec.Reads.{Reads, bind-Reads, map-Reads, take-Reads, Reads-of}
use hu_gr_datarail.Kafka.Codec.RoundTrip.{int16-Reads, int32-Reads}
use hu_gr_datarail.Kafka.Codec.Varint.{unsigned_varint-Reads}

capped-fits : (bits n : ℕ) → n < 2 ^ bits → Write.capped bits n ≡ n
capped-fits bits n h = omega arith

pub bytes-Reads : (b : Bytes) → length b < 2 ^ 31 → Reads Read.bytes b (Write.bytes [] b)
unfolding Read.bytes Write.bytes
bytes-Reads b h = rw (capped-fits 31 (length b) h) (
    bind-Reads Read.int32 _ (length b) b (be_bytes 4 (length b)) b
      (int32-Reads (length b) (omega arith)) (Reads-of b b (ground arith) (take-Reads b)))

compact_len-Reads :
    (n : ℕ)
    → n + 1 < 2 ^ 32
    → Reads Read.compact_len
        (some n)
        (Write.unsigned_varint [] (Write.saturating_inc (Write.capped 32 n)))
unfolding Read.compact_len
compact_len-Reads n h =
    let e : Write.saturating_inc (Write.capped 32 n) ≡ n + 1 = omega arith in
    rw e (
      map-Reads Read.unsigned_varint _ (n + 1) (some n) (Write.unsigned_varint [] (n + 1))
        (unsigned_varint-Reads (n + 1) h) (ground arith))

pub compact_bytes-Reads :
    (b : Bytes) → length b + 1 < 2 ^ 32 → Reads Read.compact_bytes b (Write.compact_bytes [] b)
unfolding Read.compact_bytes Write.compact_bytes
compact_bytes-Reads b h =
    bind-Reads Read.compact_len _ (some (length b)) b _ b (compact_len-Reads (length b) h)
      (take-Reads b)

module _ (is_utf8 : Bytes → Bool) where
  read_utf8-Reads : (s : Bytes) → is_utf8 s ≡ true → Reads (Read.read_utf8 is_utf8 (length s)) s s
  unfolding Read.read_utf8
  read_utf8-Reads s valid = map-Reads (Read.take (length s)) _ s s s (take-Reads s) (rw valid refl)

  pub string-Reads :
      (s : Bytes)
      → length s < 2 ^ 15
      → is_utf8 s ≡ true
      → Reads (Read.string is_utf8) s (Write.string [] s)
  unfolding Read.string Write.string
  string-Reads s h valid = rw (capped-fits 15 (length s) h) (
      bind-Reads Read.int16 _ (length s) s (be_bytes 2 (length s)) s
        (int16-Reads (length s) (omega arith))
        (Reads-of s s (ground arith) (read_utf8-Reads s valid)))

  pub compact_string-Reads :
      (s : Bytes)
      → length s + 1 < 2 ^ 32
      → is_utf8 s ≡ true
      → Reads (Read.compact_string is_utf8) s (Write.compact_string [] s)
  unfolding Read.compact_string Write.compact_bytes
  compact_string-Reads s h valid =
      bind-Reads Read.compact_len _ (some (length s)) s _ s (compact_len-Reads (length s) h)
        (read_utf8-Reads s valid)

  abbrev pub IsText : Option Bytes → Type 0
  IsText none = Unit
  IsText (some s) = (length s < 2 ^ 15) × (is_utf8 s ≡ true)

  pub nullable_string-Reads :
      (o : Option Bytes)
      → IsText o
      → Reads (Read.nullable_string is_utf8) o (Write.nullable_string [] o)
  unfolding Read.nullable_string Write.nullable_string Write.string
  nullable_string-Reads none h =
      map-Reads Read.int16 _ (2 ^ 16 - 1) none _ (int16-Reads (2 ^ 16 - 1) (omega arith)) refl
  nullable_string-Reads (some s) (h, valid) = rw (capped-fits 15 (length s) h) (
      bind-Reads Read.int16 _ (length s) (some s) (be_bytes 2 (length s)) s
        (int16-Reads (length s) (omega arith))
        (Reads-of (some s) s (ground arith) (
          map-Reads (Read.read_utf8 is_utf8 (length s)) (λ t. pure (some t)) s (some s) s
            (read_utf8-Reads s valid) refl)))

  abbrev pub IsCompactText : Option Bytes → Type 0
  IsCompactText none = Unit
  IsCompactText (some s) = (length s + 1 < 2 ^ 32) × (is_utf8 s ≡ true)

  pub compact_nullable_string-Reads :
      (o : Option Bytes)
      → IsCompactText o
      → Reads (Read.compact_nullable_string is_utf8) o (Write.compact_nullable_string [] o)
  unfolding Read.compact_nullable_string Read.compact_len Write.compact_nullable_string
  compact_nullable_string-Reads none h =
      map-Reads Read.compact_len _ none none _
        (map-Reads Read.unsigned_varint _ 0 none _ (unsigned_varint-Reads 0 (omega arith)) refl)
        refl
  compact_nullable_string-Reads (some s) (h, valid) =
      unfold Write.compact_bytes in
      bind-Reads Read.compact_len _ (some (length s)) (some s) _ s (compact_len-Reads (length s) h)
        (map-Reads (Read.read_utf8 is_utf8 (length s)) _ s (some s) s (read_utf8-Reads s valid)
          refl)
