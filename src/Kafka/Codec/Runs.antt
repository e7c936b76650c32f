-- ===== src/Kafka/Codec/Runs.antt =====
-- The codec at work on short buffers.
use hu_gr_datarail.Prelude.{
  ℕ, ◌^◌, ◌<◌, ◌≡◌, refl, Bool, true, some, [], ◌∷◌, ◌++◌, Bytes, length, length-append, arith,
  zero, suc, ltb, ◌&&◌,
}
use hu_gr_datarail.Prelude.Lists
use hu_gr_datarail.Kafka.Codec.{Reader, ok, be_bytes, be_value}
use hu_gr_datarail.Kafka.Codec.Read
use hu_gr_datarail.Kafka.Codec.Read.{bounded_count, remaining, non_negative}
use hu_gr_datarail.Kafka.Codec.Write
use hu_gr_datarail.Kafka.Codec.Header.{RequestHeader, parse}
use hu_gr_datarail.Kafka.Codec.Reads.{StandsAt, advance}
use hu_gr_datarail.Kafka.Codec.Headers.{header_bytes}
use hu_gr_datarail.Kafka.Codec.Within.{Kept}
use hu_gr_datarail.Kafka.Codec.Wire.{parse_back, parse_within}
use hu_gr_datarail.Kafka.Codec.RoundTrip.{length-be_bytes}
use hu_gr_datarail.Kafka.Codec.Bounds.{string_over_cap}

-- UTF-8 of one byte to a letter
abbrev ascii : Bytes → Bool
ascii [] = true
ascii (b ∷ bs) = ltb b 128 && ascii bs

-- A reader one byte into its buffer.
abbrev at : Bytes → Reader
at input = record { buf = 99 ∷ input; pos = 1 }

at-StandsAt : (input : Bytes) → length input < 2 ^ 32 → StandsAt (at input) input
at-StandsAt input h = record { input_left = refl; within = omega arith; addressable = omega arith }

abbrev metadata : RequestHeader
metadata = record {
  api_key = 3;
  api_version = 9;
  correlation_id = 70_000;
  client_id = some (97 ∷ 98 ∷ []);
}

abbrev metadata_bytes : Bytes
metadata_bytes = 0 ∷ 3 ∷ 0 ∷ 9 ∷ 0 ∷ 1 ∷ 17 ∷ 112 ∷ 0 ∷ 2 ∷ 97 ∷ 98 ∷ 0 ∷ []

parse-metadata :
    parse ascii true (at (metadata_bytes ++ (5 ∷ [])))
    ≡ ok (metadata, advance 13 (at (metadata_bytes ++ (5 ∷ []))))
unfolding parse Read.take Read.fixed Read.nullable_string Read.read_utf8 Read.skip_tagged_fields
    Read.unsigned_varint Read.varint_loop Read.skip_fields be_value
parse-metadata = refl

parse_back_example :
    parse ascii true (at (header_bytes metadata true ++ (5 ∷ [])))
    ≡ ok (
      metadata,
      advance (length (header_bytes metadata true)) (at (header_bytes metadata true ++ (5 ∷ []))),
    )
unfolding be_bytes Write.nullable_string Write.string
parse_back_example =
    parse_back ascii true metadata (at (header_bytes metadata true ++ (5 ∷ []))) (5 ∷ [])
      (record {
        key_fits = omega arith;
        version_fits = omega arith;
        id_fits = omega arith;
        client_is_text = (omega arith, refl);
      })
      (at-StandsAt (header_bytes metadata true ++ (5 ∷ [])) (omega arith))

parse_within_example :
    Kept (at (metadata_bytes ++ (5 ∷ []))) (parse ascii true (at (metadata_bytes ++ (5 ∷ []))))
parse_within_example = parse_within ascii true (at (metadata_bytes ++ (5 ∷ []))) (omega arith)

letters : ℕ → Bytes
letters zero = []
letters (suc n) = 97 ∷ letters n

length-letters : (n : ℕ) → length (letters n) ≡ n
unfolding letters
length-letters zero = refl
length-letters (suc n) = omega (arith, length-letters n)

abbrev any_text : Bytes → Bool
any_text text = true

length-over : length (Write.string [] (letters 40_000) ++ []) < 2 ^ 32
unfolding Write.string
length-over = omega (
  arith,
  length-append (be_bytes 2 (Write.capped 15 (length (letters 40_000))) ++ letters 40_000) [],
  length-append (be_bytes 2 (Write.capped 15 (length (letters 40_000)))) (letters 40_000),
  length-be_bytes 2 (Write.capped 15 (length (letters 40_000))),
  length-letters 40_000,
)

string_over_cap_example :
    (Write.string [] (letters 40_000) ≡ be_bytes 2 32767 ++ letters 40_000)
    × (Read.string any_text (at (Write.string [] (letters 40_000) ++ []))
        ≡ ok (
          Lists.take 32767 (letters 40_000),
          advance 32769 (at (Write.string [] (letters 40_000) ++ [])),
        ))
    × StandsAt
        (advance 32769 (at (Write.string [] (letters 40_000) ++ [])))
        (Lists.drop 32767 (letters 40_000) ++ [])
string_over_cap_example =
    string_over_cap any_text (letters 40_000) [] (at (Write.string [] (letters 40_000) ++ []))
      (omega (arith, length-letters 40_000)) refl
      (at-StandsAt (Write.string [] (letters 40_000) ++ []) length-over)
