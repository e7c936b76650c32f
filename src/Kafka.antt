-- ===== src/Kafka.antt =====
-- crates/datarail-kafka: the Kafka-compatible front of the broker.
pub mod Txn
pub mod Codec
pub mod Groups
pub mod Messages
