-- ===== src/Kafka/Codec/Headers.antt =====
-- The headers of crates/datarail-kafka/src/codec.rs against their layout on the wire.
use hu_gr_datarail.Prelude.{
  ℕ, ◌^◌, ◌<◌, refl, arith, Bool, true, false, [], ◌∷◌, Bytes, if◌then◌else◌, ◌++◌,
}
use hu_gr_datarail.Kafka.Codec.{pure, ◌>>=◌, be_bytes, Parse}
use hu_gr_datarail.Kafka.Codec.Read
use hu_gr_datarail.Kafka.Codec.Write
use hu_gr_datarail.Kafka.Codec.Write.{Writer}
use hu_gr_datarail.Kafka.Codec.Header.{RequestHeader, parse, write_response_header}
use hu_gr_datarail.Kafka.Codec.Reads.{Reads, bind-Reads, map-Reads, pure-Reads}
use hu_gr_datarail.Kafka.Codec.RoundTrip.{int16-Reads, int32-Reads}
use hu_gr_datarail.Kafka.Codec.Varint.{unsigned_varint-Reads}
use hu_gr_datarail.Kafka.Codec.Strings.{IsText, nullable_string-Reads}

-- The section that follows a flexible header.
abbrev pub tags : Bool → Bytes
tags true = 0 ∷ []
tags false = []

-- The bytes of a request header on the wire.
abbrev pub header_bytes : RequestHeader → Bool → Bytes
header_bytes h flexible =
    be_bytes 2 h.api_key
    ++ (be_bytes 2 h.api_version
        ++ (be_bytes 4 h.correlation_id ++ (Write.nullable_string [] h.client_id ++ tags flexible)))

skip_tagged_fields-Reads : Reads Read.skip_tagged_fields tt (0 ∷ [])
unfolding Read.skip_tagged_fields Read.skip_fields Write.varint_bytes
skip_tagged_fields-Reads =
    map-Reads Read.unsigned_varint _ 0 tt (0 ∷ []) (unsigned_varint-Reads 0 (omega arith)) refl

pub record IsHeader (is_utf8 : Bytes → Bool) (h : RequestHeader) : Type 0 where
  pub key_fits : h.api_key < 2 ^ 16
  pub version_fits : h.api_version < 2 ^ 16
  pub id_fits : h.correlation_id < 2 ^ 32
  pub client_is_text : IsText is_utf8 h.client_id

skip_tags-Reads {ℓ} :
    {B : Type ℓ} (flexible : Bool) (b : B)
    → Reads
        ((if flexible then Read.skip_tagged_fields else pure tt) >>= λ t. pure b)
        b
        (tags flexible)
skip_tags-Reads true b =
    map-Reads Read.skip_tagged_fields _ tt b (0 ∷ []) skip_tagged_fields-Reads refl
skip_tags-Reads false b = pure-Reads b

pub parse-Reads :
    (is_utf8 : Bytes → Bool) (flexible : Bool) (h : RequestHeader)
    → IsHeader is_utf8 h
    → Reads (parse is_utf8 flexible) h (header_bytes h flexible)
unfolding parse
parse-Reads is_utf8 flexible h ok_h =
    bind-Reads Read.int16 _ h.api_key h _ _ (int16-Reads h.api_key ok_h.key_fits) (
      bind-Reads Read.int16 _ h.api_version h _ _ (int16-Reads h.api_version ok_h.version_fits) (
        bind-Reads Read.int32 _ h.correlation_id h _ _ (int32-Reads h.correlation_id ok_h.id_fits) (
          bind-Reads (Read.nullable_string is_utf8) _ h.client_id h _ _
            (nullable_string-Reads is_utf8 h.client_id ok_h.client_is_text)
            (skip_tags-Reads flexible h))))

-- what a client reads of a response header: the correlation id, then the tags of a flexible one
abbrev pub response_header : Bool → Parse ℕ
response_header flexible = do
  correlation_id ← Read.int32
  t ← if flexible then Read.skip_tagged_fields else pure tt
  pure correlation_id

pub write_response_header-Reads :
    (flexible : Bool) (correlation_id : ℕ)
    → correlation_id < 2 ^ 32
    → Reads
        (response_header flexible)
        correlation_id
        (write_response_header [] correlation_id flexible)
unfolding write_response_header Write.empty_tagged_fields Write.varint_bytes
write_response_header-Reads true id h =
    bind-Reads Read.int32 _ id id _ _ (int32-Reads id h) (skip_tags-Reads true id)
write_response_header-Reads false id h =
    map-Reads Read.int32 _ id id (be_bytes 4 id) (int32-Reads id h) refl
