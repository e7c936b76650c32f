-- ===== src/Kafka/Codec/Header.antt =====
-- The request and response headers of crates/datarail-kafka/src/codec.rs.
use hu_gr_datarail.Prelude.{ℕ, Bool, Option, Bytes, if◌then◌else◌}
use hu_gr_datarail.Kafka.Codec.{Parse, ◌>>=◌, pure}
use hu_gr_datarail.Kafka.Codec.Read
use hu_gr_datarail.Kafka.Codec.Write
use hu_gr_datarail.Kafka.Codec.Write.{Writer}

pub record RequestHeader : Type 0 where
  pub api_key : ℕ
  pub api_version : ℕ
  pub correlation_id : ℕ
  pub client_id : Option Bytes

unfoldable pub parse : (Bytes → Bool) → Bool → Parse RequestHeader
parse is_utf8 flexible = do
  api_key ← Read.int16
  api_version ← Read.int16
  correlation_id ← Read.int32
  client_id ← Read.nullable_string is_utf8
  tags ← if flexible then Read.skip_tagged_fields else pure tt
  pure (record {
    api_key = api_key;
    api_version = api_version;
    correlation_id = correlation_id;
    client_id = client_id;
  })

unfoldable pub write_response_header : Writer → ℕ → Bool → Writer
write_response_header w correlation_id flexible =
    let w' = Write.int32 w correlation_id in if flexible then Write.empty_tagged_fields w' else w'
