-- ===== src/Kafka/Messages/Requests.antt =====
-- The parsers of OffsetCommit and TxnOffsetCommit in crates/datarail-kafka/src against the layout.
use hu_gr_datarail.Prelude.{List, ◌∷◌, ap, ◌∙◌}
use hu_gr_datarail.Prelude.{
  ℕ, ◌≤◌, ◌≡◌, refl, Bool, true, false, [], ◌++◌, map, Bytes, length, length-append, nat_eq, arith,
}
use hu_gr_datarail.Kafka.Codec.{Reader, ok, Parse, be_bytes}
use hu_gr_datarail.Kafka.Codec.Read
use hu_gr_datarail.Kafka.Codec.Write
use hu_gr_datarail.Kafka.Codec.Reads.{Reads, StandsAt, advance, bind-Reads, map-Reads, pure-Reads}
use hu_gr_datarail.Kafka.Codec.RoundTrip.{int16-Reads, int32-Reads, int64-Reads, length-be_bytes}
use hu_gr_datarail.Kafka.Codec.Bounds.{length-string}
use hu_gr_datarail.Kafka.Codec.Strings.{string-Reads, nullable_string-Reads}
use hu_gr_datarail.Kafka.Messages.{since, counted, min_topic_bytes, min_partition_bytes}
use hu_gr_datarail.Kafka.Messages.Arrays.{array_bytes, flatten, counted-Reads}
use hu_gr_datarail.Kafka.Messages.Groups.{
  when, when_text, commit_partition, commit_topic, parse_offset_commit,
}
use hu_gr_datarail.Kafka.Messages.Txn.{
  TxnOffsetCommitRequest, partition_offset, topic_offsets, parse_txn_offset_commit, pushed_offsets,
  pushed_topics,
}
use hu_gr_datarail.Kafka.Messages.Layout.{
  optional, IsString, CommitEntry, CommitTopic, Commit, entry_bytes, topic_bytes, commit_bytes,
  kept_entry, kept_topic, kept, IsEntry, IsTopic, IsCommit, TxnCommit, txn_topic_bytes, txn_offsets,
  txn_partitions, txn_commit_bytes, txn_topic, IsTxnCommit,
}

when-Reads :
    (b : Bool) (p : Parse ℕ) (v : ℕ) (bs : Bytes)
    → Reads p v bs
    → Reads (when b p) tt (optional b bs)
when-Reads true p v bs h = map-Reads p _ v tt bs h refl
when-Reads false p v bs h = pure-Reads tt

when_text-Reads :
    (b : Bool) (p : Parse Bytes) (v : Bytes) (bs : Bytes)
    → Reads p v bs
    → Reads (when_text b p) tt (optional b bs)
when_text-Reads true p v bs h = map-Reads p _ v tt bs h refl
when_text-Reads false p v bs h = pure-Reads tt

-- An entry begins with its four bytes of partition, a topic with the length of its name and a count.
entry-long : (version : ℕ) (e : CommitEntry) → 4 ≤ length (entry_bytes version e)
entry-long version e = omega (
  arith,
  length-append (be_bytes 4 e.partition) (
      be_bytes 8 e.offset
      ++ (optional (nat_eq version 1) (be_bytes 8 e.timestamp)
          ++ Write.nullable_string [] e.metadata)),
  length-be_bytes 4 e.partition,
)

topic-long : (version : ℕ) (t : CommitTopic) → 6 ≤ length (topic_bytes version t)
topic-long version t = omega (
  arith,
  length-append (Write.string [] t.name) (array_bytes (entry_bytes version) t.entries),
  length-string t.name,
  length-append (be_bytes 4 (length t.entries)) (flatten (entry_bytes version) t.entries),
  length-be_bytes 4 (length t.entries),
)

module _ (is_utf8 : Bytes → Bool) where
  text-Reads : (s : Bytes) → IsString is_utf8 s → Reads (Read.string is_utf8) s (Write.string [] s)
  text-Reads s v = string-Reads is_utf8 s v.short v.valid

  entry-Reads :
      (version : ℕ) (e : CommitEntry)
      → IsEntry is_utf8 e
      → Reads (commit_partition is_utf8 version) (kept_entry e) (entry_bytes version e)
  unfolding commit_partition
  entry-Reads version e v =
      bind-Reads Read.int32 _ e.partition (kept_entry e) _ _
        (int32-Reads e.partition v.partition_fits)
        (bind-Reads Read.int64 _ e.offset (kept_entry e) _ _ (int64-Reads e.offset v.offset_fits) (
          bind-Reads (when (nat_eq version 1) Read.int64) _ tt (kept_entry e) _ _
            (when-Reads (nat_eq version 1) Read.int64 e.timestamp _
              (int64-Reads e.timestamp v.timestamp_fits))
            (map-Reads (Read.nullable_string is_utf8) _ e.metadata (kept_entry e) _
              (nullable_string-Reads is_utf8 e.metadata v.metadata_is_text) refl)))

  topic-Reads :
      (version : ℕ) (t : CommitTopic)
      → IsTopic is_utf8 t
      → Reads (commit_topic is_utf8 version) (kept_topic t) (topic_bytes version t)
  unfolding commit_topic
  topic-Reads version t v =
      bind-Reads (Read.string is_utf8) _ t.name (kept_topic t) _ _
        (text-Reads t.name v.name_is_string)
        (map-Reads (counted min_partition_bytes (commit_partition is_utf8 version)) _
          (map kept_entry t.entries) (kept_topic t) _
          (counted-Reads (IsEntry is_utf8) kept_entry (entry_bytes version)
            (commit_partition is_utf8 version) (entry-Reads version) 4 (λ e h. entry-long version e)
            t.entries (omega arith) v.entries_valid v.entries_fit)
          refl)

  commit-Reads :
      (version : ℕ) (c : Commit)
      → IsCommit is_utf8 c
      → Reads (parse_offset_commit is_utf8 version) (kept c) (commit_bytes version c)
  unfolding parse_offset_commit
  commit-Reads version c v =
      bind-Reads (Read.string is_utf8) _ c.group_id (kept c) _ _
        (text-Reads c.group_id v.group_is_string)
        (bind-Reads (when (since 1 version) Read.int32) _ tt (kept c) _ _
          (when-Reads (since 1 version) Read.int32 c.generation_id _
            (int32-Reads c.generation_id v.generation_fits))
          (bind-Reads (when_text (since 1 version) (Read.string is_utf8)) _ tt (kept c) _ _
            (when_text-Reads (since 1 version) (Read.string is_utf8) c.member_id _
              (text-Reads c.member_id v.member_is_string))
            (bind-Reads (when (since 2 version) Read.int64) _ tt (kept c) _ _
              (when-Reads (since 2 version) Read.int64 c.retention_time_ms _
                (int64-Reads c.retention_time_ms v.retention_fits))
              (map-Reads (counted min_topic_bytes (commit_topic is_utf8 version)) _
                (map kept_topic c.topics) (kept c) _
                (counted-Reads (IsTopic is_utf8) kept_topic (topic_bytes version)
                  (commit_topic is_utf8 version) (topic-Reads version) 6
                  (λ t h. topic-long version t) c.topics (omega arith) v.topics_valid v.topics_fit)
                refl))))

  offset-Reads :
      (e : CommitEntry)
      → IsEntry is_utf8 e
      → Reads (partition_offset is_utf8) (e.partition, e.offset) (entry_bytes 0 e)
  unfolding partition_offset
  offset-Reads e v =
      bind-Reads Read.int32 _ e.partition _ _ _ (int32-Reads e.partition v.partition_fits) (
        bind-Reads Read.int64 _ e.offset _ _ _ (int64-Reads e.offset v.offset_fits) (
          map-Reads (Read.nullable_string is_utf8) _ e.metadata _ _
            (nullable_string-Reads is_utf8 e.metadata v.metadata_is_text) refl))

  txn_topic-Reads :
      (t : CommitTopic)
      → IsTopic is_utf8 t
      → Reads (topic_offsets is_utf8) (txn_topic t) (txn_topic_bytes t)
  unfolding topic_offsets
  txn_topic-Reads t v =
      bind-Reads (Read.string is_utf8) _ t.name (txn_topic t) _ _
        (text-Reads t.name v.name_is_string)
        (map-Reads (counted min_partition_bytes (partition_offset is_utf8)) _
          (map (λ e. (e.partition, e.offset)) t.entries) (txn_topic t) _
          (counted-Reads (IsEntry is_utf8) (λ e. (e.partition, e.offset)) (entry_bytes 0)
            (partition_offset is_utf8) offset-Reads 4 (λ e h. entry-long 0 e) t.entries
            (omega arith) v.entries_valid v.entries_fit)
          refl)

  abbrev txn_kept : TxnCommit → TxnOffsetCommitRequest
  txn_kept c = record {
    transactional_id = c.transactional_id;
    group_id = c.group_id;
    producer_id = c.producer_id;
    epoch = c.epoch;
    offsets = pushed_offsets (map txn_topic c.topics);
    topics = pushed_topics (map txn_topic c.topics);
  }

  txn_commit-Reads :
      (c : TxnCommit)
      → IsTxnCommit is_utf8 c
      → Reads (parse_txn_offset_commit is_utf8) (txn_kept c) (txn_commit_bytes c)
  unfolding parse_txn_offset_commit
  txn_commit-Reads c v =
      bind-Reads (Read.string is_utf8) _ c.transactional_id (txn_kept c) _ _
        (text-Reads c.transactional_id v.id_is_string)
        (bind-Reads (Read.string is_utf8) _ c.group_id (txn_kept c) _ _
          (text-Reads c.group_id v.group_is_string)
          (bind-Reads Read.int64 _ c.producer_id (txn_kept c) _ _
            (int64-Reads c.producer_id v.producer_fits)
            (bind-Reads Read.int16 _ c.epoch (txn_kept c) _ _ (int16-Reads c.epoch v.epoch_fits) (
              map-Reads (counted min_topic_bytes (topic_offsets is_utf8)) _ (map txn_topic c.topics)
                (txn_kept c) _
                (counted-Reads (IsTopic is_utf8) txn_topic txn_topic_bytes (topic_offsets is_utf8)
                  txn_topic-Reads 6 (λ t h. topic-long 0 t) c.topics (omega arith) v.topics_valid
                  v.topics_fit)
                refl))))

map-map :
    {X Y Z : Type 0} (f : Y → Z) (g : X → Y) (xs : List X)
    → map f (map g xs) ≡ map (λ x. f (g x)) xs
map-map f g [] = refl
map-map f g (x ∷ xs) = ap (λ l. f (g x) ∷ l) (map-map f g xs)

-- The loops push the offsets and the partitions of the request.
pushed_offsets-txn :
    (topics : List CommitTopic) → pushed_offsets (map txn_topic topics) ≡ txn_offsets topics
unfolding pushed_offsets txn_offsets
pushed_offsets-txn [] = refl
pushed_offsets-txn (t ∷ topics) =
    ap (λ l. l ++ pushed_offsets (map txn_topic topics)) (map-map _ _ t.entries)
    ∙ ap (λ l. map (λ e. (t.name, e.partition, e.offset)) t.entries ++ l)
        (pushed_offsets-txn topics)

pushed_topics-txn :
    (topics : List CommitTopic) → pushed_topics (map txn_topic topics) ≡ txn_partitions topics
unfolding pushed_topics
pushed_topics-txn [] = refl
pushed_topics-txn (t ∷ topics) =
    ap (λ l. (t.name, l) ∷ pushed_topics (map txn_topic topics)) (map-map _ _ t.entries)
    ∙ ap (λ l. (t.name, map (λ e. e.partition) t.entries) ∷ l) (pushed_topics-txn topics)

-- An OffsetCommit of version 0, 1 or 2, laid out as the protocol says, with numbers that fit, valid strings
-- and fewer than 2 ^ 31 topics and partitions, is parsed to the group with its topics, partitions
-- and offsets, in order; the reader is left just behind it.
pub parse_offset_commit_back :
    (is_utf8 : Bytes → Bool) (version : ℕ) (c : Commit) (r : Reader) (rest : Bytes)
    → version ≤ 2
    → IsCommit is_utf8 c
    → StandsAt r (commit_bytes version c ++ rest)
    → parse_offset_commit is_utf8 version r
      ≡ ok (kept c, advance (length (commit_bytes version c)) r)
parse_offset_commit_back is_utf8 version c r rest h v stands =
    commit-Reads is_utf8 version c v r rest stands

-- A TxnOffsetCommit, laid out as the protocol says, with numbers that fit, valid strings and fewer
-- than 2 ^ 31 topics and partitions, is parsed to its producer, its group, each offset under its
-- topic and partition, and the partitions of each topic; the reader is left just behind it.
pub parse_txn_offset_commit_back :
    (is_utf8 : Bytes → Bool) (c : TxnCommit) (r : Reader) (rest : Bytes)
    → IsTxnCommit is_utf8 c
    → StandsAt r (txn_commit_bytes c ++ rest)
    → parse_txn_offset_commit is_utf8 r
      ≡ ok (
        record {
          transactional_id = c.transactional_id;
          group_id = c.group_id;
          producer_id = c.producer_id;
          epoch = c.epoch;
          offsets = txn_offsets c.topics;
          topics = txn_partitions c.topics;
        },
        advance (length (txn_commit_bytes c)) r,
      )
parse_txn_offset_commit_back is_utf8 c r rest v stands =
    txn_commit-Reads is_utf8 c v r rest stands
    ∙ ap
        (λ offsets. ok (
          record {
            transactional_id = c.transactional_id;
            group_id = c.group_id;
            producer_id = c.producer_id;
            epoch = c.epoch;
            offsets = offsets;
            topics = pushed_topics (map txn_topic c.topics);
          },
          advance (length (txn_commit_bytes c)) r,
        ))
        (pushed_offsets-txn c.topics)
    ∙ ap
        (λ topics. ok (
          record {
            transactional_id = c.transactional_id;
            group_id = c.group_id;
            producer_id = c.producer_id;
            epoch = c.epoch;
            offsets = txn_offsets c.topics;
            topics = topics;
          },
          advance (length (txn_commit_bytes c)) r,
        ))
        (pushed_topics-txn c.topics)
