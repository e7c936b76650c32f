-- ===== src/Kafka/Messages/Layout.antt =====
-- The wire layout of two requests, as the Kafka protocol lists their fields: what a client sends to
-- `parse_offset_commit` and to `parse_txn_offset_commit` of crates/datarail-kafka/src.
use hu_gr_datarail.Prelude.{◌∷◌}
use hu_gr_datarail.Prelude.{
  ℕ, ◌^◌, ◌<◌, ◌≡◌, Bool, true, false, Option, List, [], ◌++◌, map, Bytes, All, length, nat_eq,
}
use hu_gr_datarail.Kafka.Codec.{be_bytes}
use hu_gr_datarail.Kafka.Codec.Write
use hu_gr_datarail.Kafka.Codec.Strings.{IsText}
use hu_gr_datarail.Kafka.Messages.{since}
use hu_gr_datarail.Kafka.Messages.Arrays.{array_bytes}
use hu_gr_datarail.Kafka.Messages.Groups.{
  OffsetCommitPartition, OffsetCommitTopic, OffsetCommitRequest,
}

-- a field of some versions
abbrev pub optional : Bool → Bytes → Bytes
optional true bytes = bytes
optional false bytes = []

pub record IsString (is_utf8 : Bytes → Bool) (s : Bytes) : Type 0 where
  pub short : length s < 2 ^ 15
  pub valid : is_utf8 s ≡ true

-- A partition of an OffsetCommit, with the fields that the broker drops.
pub record CommitEntry : Type 0 where
  pub partition : ℕ
  pub offset : ℕ
  pub timestamp : ℕ
  pub metadata : Option Bytes

pub record CommitTopic : Type 0 where
  pub name : Bytes
  pub entries : List CommitEntry

pub record Commit : Type 0 where
  pub group_id : Bytes
  pub generation_id : ℕ
  pub member_id : Bytes
  pub retention_time_ms : ℕ
  pub topics : List CommitTopic

abbrev pub entry_bytes : ℕ → CommitEntry → Bytes
entry_bytes version e =
    be_bytes 4 e.partition
    ++ (be_bytes 8 e.offset
        ++ (optional (nat_eq version 1) (be_bytes 8 e.timestamp)
            ++ Write.nullable_string [] e.metadata))

abbrev pub topic_bytes : ℕ → CommitTopic → Bytes
topic_bytes version t = Write.string [] t.name ++ array_bytes (entry_bytes version) t.entries

abbrev pub commit_bytes : ℕ → Commit → Bytes
commit_bytes version c =
    Write.string [] c.group_id
    ++ (optional (since 1 version) (be_bytes 4 c.generation_id)
        ++ (optional (since 1 version) (Write.string [] c.member_id)
            ++ (optional (since 2 version) (be_bytes 8 c.retention_time_ms)
                ++ array_bytes (topic_bytes version) c.topics)))

-- What the broker keeps.
abbrev pub kept_entry : CommitEntry → OffsetCommitPartition
kept_entry e = record { partition = e.partition; offset = e.offset }

abbrev pub kept_topic : CommitTopic → OffsetCommitTopic
kept_topic t = record { name = t.name; partitions = map kept_entry t.entries }

abbrev pub kept : Commit → OffsetCommitRequest
kept c = record { group_id = c.group_id; topics = map kept_topic c.topics }

module _ (is_utf8 : Bytes → Bool) where
  pub record IsEntry (e : CommitEntry) : Type 0 where
    pub partition_fits : e.partition < 2 ^ 32
    pub offset_fits : e.offset < 2 ^ 64
    pub timestamp_fits : e.timestamp < 2 ^ 64
    pub metadata_is_text : IsText is_utf8 e.metadata

  pub record IsTopic (t : CommitTopic) : Type 0 where
    pub name_is_string : IsString is_utf8 t.name
    pub entries_fit : length t.entries < 2 ^ 31
    pub entries_valid : All IsEntry t.entries

  pub record IsCommit (c : Commit) : Type 0 where
    pub group_is_string : IsString is_utf8 c.group_id
    pub generation_fits : c.generation_id < 2 ^ 32
    pub member_is_string : IsString is_utf8 c.member_id
    pub retention_fits : c.retention_time_ms < 2 ^ 64
    pub topics_fit : length c.topics < 2 ^ 31
    pub topics_valid : All IsTopic c.topics

-- A TxnOffsetCommit: each partition with its offset and its metadata.
pub record TxnCommit : Type 0 where
  pub transactional_id : Bytes
  pub group_id : Bytes
  pub producer_id : ℕ
  pub epoch : ℕ
  pub topics : List CommitTopic

-- its entries have no timestamp
abbrev pub txn_topic_bytes : CommitTopic → Bytes
txn_topic_bytes t = Write.string [] t.name ++ array_bytes (entry_bytes 0) t.entries

abbrev pub txn_commit_bytes : TxnCommit → Bytes
txn_commit_bytes c =
    Write.string [] c.transactional_id
    ++ (Write.string [] c.group_id
        ++ (be_bytes 8 c.producer_id
            ++ (be_bytes 2 c.epoch ++ array_bytes txn_topic_bytes c.topics)))

abbrev pub txn_topic : CommitTopic → Bytes × List (ℕ × ℕ)
txn_topic t = (t.name, map (λ e. (e.partition, e.offset)) t.entries)

-- The offsets of the partitions of a commit, and the partitions of its topics, in the order of the wire.
unfoldable pub txn_offsets : List CommitTopic → List (Bytes × ℕ × ℕ)
txn_offsets [] = []
txn_offsets (t ∷ topics) =
    map (λ e. (t.name, e.partition, e.offset)) t.entries ++ txn_offsets topics

abbrev pub txn_partitions : List CommitTopic → List (Bytes × List ℕ)
txn_partitions topics = map (λ t. (t.name, map (λ e. e.partition) t.entries)) topics

pub record IsTxnCommit (is_utf8 : Bytes → Bool) (c : TxnCommit) : Type 0 where
  pub id_is_string : IsString is_utf8 c.transactional_id
  pub group_is_string : IsString is_utf8 c.group_id
  pub producer_fits : c.producer_id < 2 ^ 64
  pub epoch_fits : c.epoch < 2 ^ 16
  pub topics_fit : length c.topics < 2 ^ 31
  pub topics_valid : All (IsTopic is_utf8) c.topics
