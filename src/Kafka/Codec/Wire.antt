-- ===== src/Kafka/Codec/Wire.antt =====
-- The codec of crates/datarail-kafka/src/codec.rs from end to end: a reader that stands at what the
-- writer wrote, with anything behind it.
use hu_gr_datarail.Prelude.{ℕ, ◌^◌, ◌<◌, ◌≡◌, Bool, Option, [], Bytes, length, ◌++◌}
use hu_gr_datarail.Kafka.Codec.{Reader, ok}
use hu_gr_datarail.Kafka.Codec.Read
use hu_gr_datarail.Kafka.Codec.Write
use hu_gr_datarail.Kafka.Codec.Header.{RequestHeader, parse, write_response_header}
use hu_gr_datarail.Kafka.Codec.Reads.{StandsAt, advance}
use hu_gr_datarail.Kafka.Codec.Varint.{varint-Reads, varlong-Reads}
use hu_gr_datarail.Kafka.Codec.Strings.{IsCompactText, bytes-Reads, compact_nullable_string-Reads}
use hu_gr_datarail.Kafka.Codec.Headers.{
  IsHeader, header_bytes, response_header, parse-Reads, write_response_header-Reads,
}
use hu_gr_datarail.Kafka.Codec.Within.{Kept, IsWithin, parse-IsSafe}

-- A request header whose numbers fit their widths and whose client id is null or valid UTF-8 of
-- fewer than 2 ^ 15 bytes is parsed from its wire layout (key, version, correlation id, classic
-- nullable client id, and for a flexible version an empty tag section), and the reader is left
-- just behind it.
pub parse_back :
    (is_utf8 : Bytes → Bool) (flexible : Bool) (h : RequestHeader) (r : Reader) (rest : Bytes)
    → IsHeader is_utf8 h
    → StandsAt r (header_bytes h flexible ++ rest)
    → parse is_utf8 flexible r ≡ ok (h, advance (length (header_bytes h flexible)) r)
parse_back is_utf8 flexible h r rest valid stands =
    parse-Reads is_utf8 flexible h valid r rest stands

-- Parsing a header of any bytes, well-formed or not, fails or leaves the same buffer with the cursor
-- no further back and not past the end.
pub parse_within :
    (is_utf8 : Bytes → Bool) (flexible : Bool) (r : Reader)
    → IsWithin r
    → Kept r (parse is_utf8 flexible r)
parse_within is_utf8 flexible r w = parse-IsSafe is_utf8 flexible r w

-- A 64-bit number that the writer encodes by zig-zag and as a varint is read back by `varlong`,
-- which consumes exactly the bytes written.
pub varlong_back :
    (n : ℕ) (r : Reader) (rest : Bytes)
    → n < 2 ^ 64
    → StandsAt r (Write.varlong [] n ++ rest)
    → Read.varlong r ≡ ok (n, advance (length (Write.varlong [] n)) r)
varlong_back n r rest h stands = varlong-Reads n h r rest stands

-- A 32-bit number that the writer encodes by zig-zag and as a varint is read back by `varint`, which
-- consumes exactly the bytes written.
pub varint_back :
    (n : ℕ) (r : Reader) (rest : Bytes)
    → n < 2 ^ 32
    → StandsAt r (Write.varint [] n ++ rest)
    → Read.varint r ≡ ok (n, advance (length (Write.varint [] n)) r)
varint_back n r rest h stands = varint-Reads n h r rest stands

-- A compact nullable string, null or valid UTF-8 with a length plus one below 2 ^ 32, is read back
-- from what the writer wrote, exactly.
pub compact_nullable_string_back :
    (is_utf8 : Bytes → Bool) (o : Option Bytes) (r : Reader) (rest : Bytes)
    → IsCompactText is_utf8 o
    → StandsAt r (Write.compact_nullable_string [] o ++ rest)
    → Read.compact_nullable_string is_utf8 r
      ≡ ok (o, advance (length (Write.compact_nullable_string [] o)) r)
compact_nullable_string_back is_utf8 o r rest valid stands =
    compact_nullable_string-Reads is_utf8 o valid r rest stands

-- A byte array shorter than 2 ^ 31 is read back from what the writer wrote, exactly.
pub bytes_back :
    (b : Bytes) (r : Reader) (rest : Bytes)
    → length b < 2 ^ 31
    → StandsAt r (Write.bytes [] b ++ rest)
    → Read.bytes r ≡ ok (b, advance (length (Write.bytes [] b)) r)
bytes_back b r rest h stands = bytes-Reads b h r rest stands

-- In a response header that the writer wrote, flexible or not, a client finds the correlation id,
-- and behind the tags of a flexible one it stands at the body.
pub response_header_back :
    (flexible : Bool) (id : ℕ) (r : Reader) (rest : Bytes)
    → id < 2 ^ 32
    → StandsAt r (write_response_header [] id flexible ++ rest)
    → response_header flexible r
      ≡ ok (id, advance (length (write_response_header [] id flexible)) r)
response_header_back flexible id r rest h stands =
    write_response_header-Reads flexible id h r rest stands
