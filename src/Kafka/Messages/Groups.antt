-- ===== src/Kafka/Messages/Groups.antt =====
-- The messages of crates/datarail-kafka/src/groups.rs: FindCoordinator, OffsetCommit, OffsetFetch,
-- JoinGroup, SyncGroup, Heartbeat and LeaveGroup.
use hu_gr_datarail.Prelude.{ℕ, Bool, true, false, none, List, [], Bytes, nat_eq, if◌then◌else◌}
use hu_gr_datarail.Kafka.Codec.{Parse, ◌>>=◌, pure}
use hu_gr_datarail.Kafka.Codec.Read
use hu_gr_datarail.Kafka.Codec.Write
use hu_gr_datarail.Kafka.Codec.Write.{Writer}
use hu_gr_datarail.Kafka.Codec.Header.{write_response_header}
use hu_gr_datarail.Kafka.Messages.{
  min_topic_bytes, min_partition_bytes, since, counted, count_of, write_each,
}

-- a field that only some versions have, and that is dropped
abbrev pub when : Bool → Parse ℕ → Parse (Unit {0})
when true p = do dropped ← p; pure tt
when false p = pure tt

abbrev pub when_text : Bool → Parse Bytes → Parse (Unit {0})
when_text true p = do dropped ← p; pure tt
when_text false p = pure tt

pub record OffsetCommitPartition : Type 0 where
  pub partition : ℕ
  pub offset : ℕ

pub record OffsetCommitTopic : Type 0 where
  pub name : Bytes
  pub partitions : List OffsetCommitPartition

pub record OffsetCommitRequest : Type 0 where
  pub group_id : Bytes
  pub topics : List OffsetCommitTopic

pub record OffsetFetchTopic : Type 0 where
  pub name : Bytes
  pub partitions : List ℕ

pub record OffsetFetchRequest : Type 0 where
  pub group_id : Bytes
  pub topics : List OffsetFetchTopic

pub record JoinProtocol : Type 0 where
  pub name : Bytes
  pub metadata : Bytes

pub record JoinGroupRequest : Type 0 where
  pub group_id : Bytes
  pub session_timeout_ms : ℕ
  pub rebalance_timeout_ms : ℕ
  pub member_id : Bytes
  pub protocol_type : Bytes
  pub protocols : List JoinProtocol

pub record SyncAssignment : Type 0 where
  pub member_id : Bytes
  pub assignment : Bytes

pub record SyncGroupRequest : Type 0 where
  pub group_id : Bytes
  pub generation_id : ℕ
  pub member_id : Bytes
  pub assignments : List SyncAssignment

pub record HeartbeatRequest : Type 0 where
  pub group_id : Bytes
  pub generation_id : ℕ
  pub member_id : Bytes

module _ (is_utf8 : Bytes → Bool) where
  unfoldable pub parse_find_coordinator : ℕ → Parse Bytes
  parse_find_coordinator version = do
    key ← Read.string is_utf8
    key_type ← when (since 1 version) Read.int8
    pure key

  unfoldable pub commit_partition : ℕ → Parse OffsetCommitPartition
  commit_partition version = do
    partition ← Read.int32
    offset ← Read.int64
    timestamp ← when (nat_eq version 1) Read.int64
    metadata ← Read.nullable_string is_utf8
    pure (record { partition = partition; offset = offset })

  unfoldable pub commit_topic : ℕ → Parse OffsetCommitTopic
  commit_topic version = do
    name ← Read.string is_utf8
    partitions ← counted min_partition_bytes (commit_partition version)
    pure (record { name = name; partitions = partitions })

  unfoldable pub parse_offset_commit : ℕ → Parse OffsetCommitRequest
  parse_offset_commit version = do
    group_id ← Read.string is_utf8
    generation_id ← when (since 1 version) Read.int32
    member_id ← when_text (since 1 version) (Read.string is_utf8)
    retention_time_ms ← when (since 2 version) Read.int64
    topics ← counted min_topic_bytes (commit_topic version)
    pure (record { group_id = group_id; topics = topics })

  unfoldable pub fetch_topic : Parse OffsetFetchTopic
  fetch_topic = do
    name ← Read.string is_utf8
    partitions ← counted min_partition_bytes Read.int32
    pure (record { name = name; partitions = partitions })

  unfoldable pub parse_offset_fetch : Parse OffsetFetchRequest
  parse_offset_fetch = do
    group_id ← Read.string is_utf8
    topics ← counted min_topic_bytes fetch_topic
    pure (record { group_id = group_id; topics = topics })

  unfoldable pub join_protocol : Parse JoinProtocol
  join_protocol = do
    name ← Read.string is_utf8
    metadata ← Read.bytes
    pure (record { name = name; metadata = metadata })

  unfoldable pub parse_join_group : ℕ → Parse JoinGroupRequest
  parse_join_group version = do
    group_id ← Read.string is_utf8
    session ← Read.int32
    rebalance ← if since 1 version then Read.int32 else pure session
    member_id ← Read.string is_utf8
    protocol_type ← Read.string is_utf8
    protocols ← counted min_topic_bytes join_protocol
    pure (record {
      group_id = group_id;
      session_timeout_ms = session;
      rebalance_timeout_ms = rebalance;
      member_id = member_id;
      protocol_type = protocol_type;
      protocols = protocols;
    })

  unfoldable pub sync_assignment : Parse SyncAssignment
  sync_assignment = do
    member_id ← Read.string is_utf8
    assignment ← Read.bytes
    pure (record { member_id = member_id; assignment = assignment })

  unfoldable pub parse_sync_group : Parse SyncGroupRequest
  parse_sync_group = do
    group_id ← Read.string is_utf8
    generation_id ← Read.int32
    member_id ← Read.string is_utf8
    assignments ← counted min_topic_bytes sync_assignment
    pure (record {
      group_id = group_id;
      generation_id = generation_id;
      member_id = member_id;
      assignments = assignments;
    })

  unfoldable pub parse_heartbeat : Parse HeartbeatRequest
  parse_heartbeat = do
    group_id ← Read.string is_utf8
    generation_id ← Read.int32
    member_id ← Read.string is_utf8
    pure (record { group_id = group_id; generation_id = generation_id; member_id = member_id })

  unfoldable pub parse_leave_group : Parse (Bytes × Bytes)
  parse_leave_group = do
    group_id ← Read.string is_utf8
    member_id ← Read.string is_utf8
    pure (group_id, member_id)

-- throttle_time_ms, in the versions that have it
abbrev pub throttle : Bool → Writer → Writer
throttle true w = Write.int32 w 0
throttle false w = w

abbrev pub null_message : Bool → Writer → Writer
null_message true w = Write.nullable_string w none
null_message false w = w

unfoldable pub find_coordinator_response : ℕ → ℕ → ℕ → Bytes → ℕ → Bytes
find_coordinator_response version correlation_id node_id host port =
    let w = throttle (since 1 version) (write_response_header [] correlation_id false) in
    let w = null_message (since 1 version) (Write.int16 w 0) in
    Write.int32 (Write.string (Write.int32 w node_id) host) port

pub record OffsetCommitPartitionResult : Type 0 where
  pub partition : ℕ
  pub error_code : ℕ

pub record OffsetCommitTopicResult : Type 0 where
  pub name : Bytes
  pub partitions : List OffsetCommitPartitionResult

unfoldable pub write_commit_partition : Writer → OffsetCommitPartitionResult → Writer
write_commit_partition w p = Write.int16 (Write.int32 w p.partition) p.error_code

unfoldable pub write_commit_topic : Writer → OffsetCommitTopicResult → Writer
write_commit_topic w t =
    write_each write_commit_partition (Write.int32 (Write.string w t.name) (count_of t.partitions))
      t.partitions

unfoldable pub offset_commit_response : ℕ → List OffsetCommitTopicResult → Bytes
offset_commit_response correlation_id topics =
    let w = write_response_header [] correlation_id false in
    write_each write_commit_topic (Write.int32 w (count_of topics)) topics

pub record OffsetFetchPartitionResult : Type 0 where
  pub partition : ℕ
  pub offset : ℕ

pub record OffsetFetchTopicResult : Type 0 where
  pub name : Bytes
  pub partitions : List OffsetFetchPartitionResult

unfoldable pub write_fetch_partition : Writer → OffsetFetchPartitionResult → Writer
write_fetch_partition w p =
    Write.int16 (Write.nullable_string (Write.int64 (Write.int32 w p.partition) p.offset) none) 0

unfoldable pub write_fetch_topic : Writer → OffsetFetchTopicResult → Writer
write_fetch_topic w t =
    write_each write_fetch_partition (Write.int32 (Write.string w t.name) (count_of t.partitions))
      t.partitions

-- the top-level error code of v2 and later
abbrev pub top_level_code : Bool → Writer → Writer
top_level_code true w = Write.int16 w 0
top_level_code false w = w

unfoldable pub offset_fetch_response : ℕ → ℕ → List OffsetFetchTopicResult → Bytes
offset_fetch_response version correlation_id topics =
    let w = write_response_header [] correlation_id false in
    top_level_code (since 2 version)
      (write_each write_fetch_topic (Write.int32 w (count_of topics)) topics)

pub record JoinGroupResponse : Type 0 where
  pub error_code : ℕ
  pub generation : ℕ
  pub protocol : Bytes
  pub leader : Bytes
  pub member_id : Bytes
  pub members : List (Bytes × Bytes)

unfoldable pub write_member : Writer → Bytes × Bytes → Writer
write_member w (mid, meta) = Write.bytes (Write.string w mid) meta

unfoldable pub join_group_response : ℕ → ℕ → JoinGroupResponse → Bytes
join_group_response version correlation_id r =
    let w = throttle (since 2 version) (write_response_header [] correlation_id false) in
    let w = Write.int32 (Write.int16 w r.error_code) r.generation in
    let w = Write.string (Write.string (Write.string w r.protocol) r.leader) r.member_id in
    write_each write_member (Write.int32 w (count_of r.members)) r.members

unfoldable pub sync_group_response : ℕ → ℕ → ℕ → Bytes → Bytes
sync_group_response version correlation_id error_code assignment =
    let w = throttle (since 1 version) (write_response_header [] correlation_id false) in
    Write.bytes (Write.int16 w error_code) assignment

unfoldable pub heartbeat_response : ℕ → ℕ → ℕ → Bytes
heartbeat_response version correlation_id error_code =
    let w = throttle (since 1 version) (write_response_header [] correlation_id false) in
    Write.int16 w error_code

unfoldable pub leave_group_response : ℕ → ℕ → ℕ → Bytes
leave_group_response version correlation_id error_code =
    let w = throttle (since 1 version) (write_response_header [] correlation_id false) in
    Write.int16 w error_code
