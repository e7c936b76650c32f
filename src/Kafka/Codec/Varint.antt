-- ===== src/Kafka/Codec/Varint.antt =====
-- The variable-length integers of crates/datarail-kafka/src/codec.rs, written and read back.
use hu_gr_datarail.Prelude.{ℕ, ◌^◌, ◌<◌, refl, ap, arith, []}
use hu_gr_datarail.Kafka.Codec.{pure}
use hu_gr_datarail.Kafka.Codec.Read
use hu_gr_datarail.Kafka.Codec.Write
use hu_gr_datarail.Kafka.Codec.Reads.{Reads, map-Reads, Reads-eq}
use hu_gr_datarail.Kafka.Codec.RoundTrip.{varint_loop-Reads}
use hu_gr_datarail.Kafka.Codec.ZigZag.{un_zig_zag-zig_zag, zig_zag-lt}

-- In front of what `unsigned_varint` writes for a u32, the reader's `unsigned_varint` gives it back
-- and consumes exactly those bytes.
pub unsigned_varint-Reads :
    (v : ℕ) → v < 2 ^ 32 → Reads Read.unsigned_varint v (Write.unsigned_varint [] v)
unfolding Read.unsigned_varint
unsigned_varint-Reads v h =
    map-Reads (Read.unsigned_varint_u64 5) _ v v (Write.varint_bytes 4 v)
      (Reads-eq (Read.varint_loop 5 0 0) (omega arith) refl
        (varint_loop-Reads 4 0 0 v (omega arith) (omega arith) (omega arith)))
      (ground arith)

unsigned_varlong-Reads :
    (v : ℕ) → v < 2 ^ 64 → Reads (Read.unsigned_varint_u64 10) v (Write.unsigned_varlong [] v)
unsigned_varlong-Reads v h =
    Reads-eq (Read.varint_loop 10 0 0) (omega arith) refl
      (varint_loop-Reads 9 0 0 v (omega arith) (omega arith) (omega arith))

pub varint-Reads : (n : ℕ) → n < 2 ^ 32 → Reads Read.varint n (Write.varint [] n)
unfolding Read.varint
varint-Reads n h =
    map-Reads Read.unsigned_varint _ (Write.zig_zag 32 n) n (Write.varint [] n)
      (unsigned_varint-Reads (Write.zig_zag 32 n) (zig_zag-lt 31 n h))
      (ap pure (un_zig_zag-zig_zag 31 n h))

pub varlong-Reads : (n : ℕ) → n < 2 ^ 64 → Reads Read.varlong n (Write.varlong [] n)
unfolding Read.varlong
varlong-Reads n h =
    map-Reads (Read.unsigned_varint_u64 10) _ (Write.zig_zag 64 n) n (Write.varlong [] n)
      (unsigned_varlong-Reads (Write.zig_zag 64 n) (zig_zag-lt 63 n h))
      (ap pure (un_zig_zag-zig_zag 63 n h))
