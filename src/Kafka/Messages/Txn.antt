-- ===== src/Kafka/Messages/Txn.antt =====
-- The messages of crates/datarail-kafka/src/txn.rs: InitProducerId, AddPartitionsToTxn,
-- AddOffsetsToTxn, TxnOffsetCommit and EndTxn.
use hu_gr_datarail.Prelude.{ℕ, Bool, false, not, Option, List, [], ◌∷◌, ◌++◌, map, Bytes, nat_eq}
use hu_gr_datarail.Kafka.Codec.{Parse, ◌>>=◌, pure}
use hu_gr_datarail.Kafka.Codec.Read
use hu_gr_datarail.Kafka.Codec.Write
use hu_gr_datarail.Kafka.Codec.Write.{Writer}
use hu_gr_datarail.Kafka.Codec.Header.{write_response_header}
use hu_gr_datarail.Kafka.Messages.{
  min_topic_bytes, min_partition_bytes, counted, count_of, write_each,
}

pub record TxnHeader : Type 0 where
  pub transactional_id : Bytes
  pub producer_id : ℕ
  pub epoch : ℕ

-- (name, partitions)
abbrev pub TopicPartitions : Type 0
TopicPartitions = Bytes × List ℕ

pub record AddPartitionsRequest : Type 0 where
  pub transactional_id : Bytes
  pub producer_id : ℕ
  pub epoch : ℕ
  pub topics : List TopicPartitions

pub record TxnOffsetCommitRequest : Type 0 where
  pub transactional_id : Bytes
  pub group_id : Bytes
  pub producer_id : ℕ
  pub epoch : ℕ
  pub offsets : List (Bytes × ℕ × ℕ)
  pub topics : List TopicPartitions

-- A topic as it is read: the partitions with their committed offsets.
abbrev pub TopicOffsets : Type 0
TopicOffsets = Bytes × List (ℕ × ℕ)

-- What the loops push of it.
unfoldable pub pushed_offsets : List TopicOffsets → List (Bytes × ℕ × ℕ)
pushed_offsets [] = []
pushed_offsets ((name, parts) ∷ topics) = map (λ p. (name, p.0, p.1)) parts ++ pushed_offsets topics

unfoldable pub pushed_topics : List TopicOffsets → List TopicPartitions
pushed_topics [] = []
pushed_topics ((name, parts) ∷ topics) = (name, map (λ p. p.0) parts) ∷ pushed_topics topics

module _ (is_utf8 : Bytes → Bool) where
  unfoldable pub parse_init_producer_id : Parse (Option Bytes)
  parse_init_producer_id = do
    transactional_id ← Read.nullable_string is_utf8
    transaction_timeout_ms ← Read.int32
    pure transactional_id

  unfoldable pub parse_txn_header : Parse TxnHeader
  parse_txn_header = do
    transactional_id ← Read.string is_utf8
    producer_id ← Read.int64
    epoch ← Read.int16
    pure (record { transactional_id = transactional_id; producer_id = producer_id; epoch = epoch })

  unfoldable pub topic_partitions : Parse TopicPartitions
  topic_partitions = do
    name ← Read.string is_utf8
    parts ← counted min_partition_bytes Read.int32
    pure (name, parts)

  unfoldable pub parse_add_partitions : Parse AddPartitionsRequest
  parse_add_partitions = do
    h ← parse_txn_header
    topics ← counted min_topic_bytes topic_partitions
    pure (record {
      transactional_id = h.transactional_id;
      producer_id = h.producer_id;
      epoch = h.epoch;
      topics = topics;
    })

  unfoldable pub parse_add_offsets : Parse (Bytes × ℕ × ℕ × Bytes)
  parse_add_offsets = do
    h ← parse_txn_header
    group_id ← Read.string is_utf8
    pure (h.transactional_id, h.producer_id, h.epoch, group_id)

  unfoldable pub partition_offset : Parse (ℕ × ℕ)
  partition_offset = do
    partition ← Read.int32
    committed_offset ← Read.int64
    metadata ← Read.nullable_string is_utf8
    pure (partition, committed_offset)

  unfoldable pub topic_offsets : Parse TopicOffsets
  topic_offsets = do
    name ← Read.string is_utf8
    parts ← counted min_partition_bytes partition_offset
    pure (name, parts)

  unfoldable pub parse_txn_offset_commit : Parse TxnOffsetCommitRequest
  parse_txn_offset_commit = do
    transactional_id ← Read.string is_utf8
    group_id ← Read.string is_utf8
    producer_id ← Read.int64
    epoch ← Read.int16
    topics ← counted min_topic_bytes topic_offsets
    pure (record {
      transactional_id = transactional_id;
      group_id = group_id;
      producer_id = producer_id;
      epoch = epoch;
      offsets = pushed_offsets topics;
      topics = pushed_topics topics;
    })

  unfoldable pub parse_end_txn : Parse (Bytes × ℕ × ℕ × Bool)
  parse_end_txn = do
    h ← parse_txn_header
    committed ← Read.int8
    pure (h.transactional_id, h.producer_id, h.epoch, not (nat_eq committed 0))

unfoldable pub init_producer_id_response : ℕ → ℕ → ℕ → Bytes
init_producer_id_response correlation_id producer_id epoch =
    let w = Write.int32 (write_response_header [] correlation_id false) 0 in
    Write.int16 (Write.int64 (Write.int16 w 0) producer_id) epoch

unfoldable pub write_partition_code : ℕ → Writer → ℕ → Writer
write_partition_code error_code w p = Write.int16 (Write.int32 w p) error_code

unfoldable pub write_topic_codes : ℕ → Writer → TopicPartitions → Writer
write_topic_codes error_code w (name, parts) =
    write_each (write_partition_code error_code)
      (Write.int32 (Write.string w name) (count_of parts)) parts

unfoldable pub add_partitions_response : ℕ → List TopicPartitions → ℕ → Bytes
add_partitions_response correlation_id topics error_code =
    let w = Write.int32 (write_response_header [] correlation_id false) 0 in
    write_each (write_topic_codes error_code) (Write.int32 w (count_of topics)) topics

unfoldable pub throttle_error_response : ℕ → ℕ → Bytes
throttle_error_response correlation_id error_code =
    let w = Write.int32 (write_response_header [] correlation_id false) 0 in
    Write.int16 w error_code
