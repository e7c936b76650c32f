-- ===== src/Kafka/Messages/Answers.antt =====
-- A client of crates/datarail-kafka/src/groups.rs reads the broker's OffsetFetch response back.
use hu_gr_datarail.Prelude.{◌≤◌}
use hu_gr_datarail.Prelude.{
  ℕ, ◌-◌, ◌^◌, ◌≤◌, ◌<◌, ◌≡◌, refl, sym, ap, ◌∙◌, Bool, true, false, none, List, [], ◌∷◌, ◌++◌, map,
  Bytes, All, length, length-append, arith, append_assoc, append-nil, subst,
}
use hu_gr_datarail.Kafka.Codec.{Reader, ok, Parse, ◌>>=◌, pure, be_bytes}
use hu_gr_datarail.Kafka.Codec.Read
use hu_gr_datarail.Kafka.Codec.Write
use hu_gr_datarail.Kafka.Codec.Write.{Writer}
use hu_gr_datarail.Kafka.Codec.Header.{write_response_header}
use hu_gr_datarail.Kafka.Codec.Reads.{Reads, StandsAt, advance, bind-Reads, map-Reads, pure-Reads}
use hu_gr_datarail.Kafka.Codec.RoundTrip.{int16-Reads, int32-Reads, int64-Reads, length-be_bytes}
use hu_gr_datarail.Kafka.Codec.Bounds.{length-string}
use hu_gr_datarail.Kafka.Codec.Strings.{string-Reads, nullable_string-Reads}
use hu_gr_datarail.Kafka.Messages.{since, counted, count_of}
use hu_gr_datarail.Kafka.Messages.Arrays.{
  array_bytes, flatten, counted-Reads, write_each-flatten, write_each-flatten_valid,
}
use hu_gr_datarail.Kafka.Messages.Groups.{
  when, OffsetFetchPartitionResult, OffsetFetchTopicResult, write_fetch_partition,
  write_fetch_topic, offset_fetch_response, top_level_code,
}
use hu_gr_datarail.Kafka.Messages.Layout.{optional, IsString}

-- the client's side, by the fields of the protocol
module _ (is_utf8 : Bytes → Bool) where
  abbrev pub client_partition : Parse OffsetFetchPartitionResult
  client_partition = do
    partition ← Read.int32
    offset ← Read.int64
    metadata ← Read.nullable_string is_utf8
    code ← Read.int16
    pure (record { partition = partition; offset = offset })

  abbrev pub client_topic : Parse OffsetFetchTopicResult
  client_topic = do
    name ← Read.string is_utf8
    partitions ← counted 4 client_partition
    pure (record { name = name; partitions = partitions })

  abbrev pub client_fetch : ℕ → Parse (ℕ × List OffsetFetchTopicResult)
  client_fetch version = do
    correlation_id ← Read.int32
    topics ← counted 6 client_topic
    code ← when (since 2 version) Read.int16
    pure (correlation_id, topics)

  pub record IsAnswer (p : OffsetFetchPartitionResult) : Type 0 where
    pub partition_fits : p.partition < 2 ^ 32
    pub offset_fits : p.offset < 2 ^ 64

  pub record IsTopicAnswer (t : OffsetFetchTopicResult) : Type 0 where
    pub name_is_string : IsString is_utf8 t.name
    pub partitions_fit : length t.partitions < 2 ^ 31
    pub partitions_valid : All IsAnswer t.partitions

abbrev answer_bytes : OffsetFetchPartitionResult → Bytes
answer_bytes p =
    be_bytes 4 p.partition ++ (be_bytes 8 p.offset ++ (be_bytes 2 (2 ^ 16 - 1) ++ be_bytes 2 0))

abbrev topic_answer_bytes : OffsetFetchTopicResult → Bytes
topic_answer_bytes t = Write.string [] t.name ++ array_bytes answer_bytes t.partitions

write-answer :
    (w : Writer) (p : OffsetFetchPartitionResult) → write_fetch_partition w p ≡ w ++ answer_bytes p
unfolding write_fetch_partition Write.nullable_string
write-answer w p = simp append_assoc

string-from : (w : Writer) (s : Bytes) → Write.string w s ≡ w ++ Write.string [] s
unfolding Write.string
string-from w s = simp append_assoc

count_of-fits {ℓ} : {A : Type ℓ} (xs : List A) → length xs < 2 ^ 31 → count_of xs ≡ length xs
count_of-fits xs h = ground (arith, h)

write-topic :
    (w : Writer) (t : OffsetFetchTopicResult)
    → length t.partitions < 2 ^ 31
    → write_fetch_topic w t ≡ w ++ topic_answer_bytes t
unfolding write_fetch_topic
write-topic w t h = rw (count_of-fits t.partitions h) (
    write_each-flatten write_fetch_partition answer_bytes write-answer _ t.partitions
    ∙ rw (string-from w t.name) (simp append_assoc))

map_same {ℓ} : {A : Type ℓ} (xs : List A) → map (λ x. x) xs ≡ xs
map_same [] = refl
map_same (x ∷ xs) = ap (λ l. x ∷ l) (map_same xs)

answer-long : (p : OffsetFetchPartitionResult) → 4 ≤ length (answer_bytes p)
answer-long p = omega (
  arith,
  length-append (be_bytes 4 p.partition)
      (be_bytes 8 p.offset ++ (be_bytes 2 (2 ^ 16 - 1) ++ be_bytes 2 0)),
  length-be_bytes 4 p.partition,
)

topic_answer-long : (t : OffsetFetchTopicResult) → 6 ≤ length (topic_answer_bytes t)
topic_answer-long t = omega (
  arith,
  length-append (Write.string [] t.name) (array_bytes answer_bytes t.partitions),
  length-string t.name,
  length-append (be_bytes 4 (length t.partitions)) (flatten answer_bytes t.partitions),
  length-be_bytes 4 (length t.partitions),
)

abbrev code_bytes : ℕ → Bytes
code_bytes version = optional (since 2 version) (be_bytes 2 0)

top_level-bytes :
    (version : ℕ) (w : Writer) → top_level_code (since 2 version) w ≡ w ++ code_bytes version
top_level-bytes version w = at (since 2 version)
  where
    at : (b : Bool) → top_level_code b w ≡ w ++ optional b (be_bytes 2 0)
    at true = refl
    at false = sym (append-nil w)

abbrev fetch_bytes : ℕ → ℕ → List OffsetFetchTopicResult → Bytes
fetch_bytes version id topics =
    be_bytes 4 id ++ (array_bytes topic_answer_bytes topics ++ code_bytes version)

module _ (is_utf8 : Bytes → Bool) where
  response-bytes :
      (version id : ℕ) (topics : List OffsetFetchTopicResult)
      → length topics < 2 ^ 31
      → All (IsTopicAnswer is_utf8) topics
      → offset_fetch_response version id topics ≡ fetch_bytes version id topics
  unfolding offset_fetch_response write_response_header
  response-bytes version id topics fits v = rw (count_of-fits topics fits) (
      top_level-bytes version _
      ∙ rw
          (write_each-flatten_valid (IsTopicAnswer is_utf8) write_fetch_topic topic_answer_bytes
            (λ w t h. write-topic w t h.partitions_fit)
            (Write.int32 (Write.int32 [] id) (length topics)) topics v)
          (simp append_assoc))

  null-Reads : Reads (Read.nullable_string is_utf8) none (be_bytes 2 (2 ^ 16 - 1))
  unfolding Write.nullable_string
  null-Reads = nullable_string-Reads is_utf8 none tt

  answer-Reads :
      (p : OffsetFetchPartitionResult)
      → IsAnswer is_utf8 p
      → Reads (client_partition is_utf8) p (answer_bytes p)
  answer-Reads p v =
      bind-Reads Read.int32 _ p.partition p _ _ (int32-Reads p.partition v.partition_fits) (
        bind-Reads Read.int64 _ p.offset p _ _ (int64-Reads p.offset v.offset_fits) (
          bind-Reads (Read.nullable_string is_utf8) _ none p (be_bytes 2 (2 ^ 16 - 1)) _ null-Reads
            (map-Reads Read.int16 _ 0 p _ (int16-Reads 0 (omega arith)) refl)))

  topic_answer-Reads :
      (t : OffsetFetchTopicResult)
      → IsTopicAnswer is_utf8 t
      → Reads (client_topic is_utf8) t (topic_answer_bytes t)
  topic_answer-Reads t v =
      bind-Reads (Read.string is_utf8) _ t.name t _ _
        (string-Reads is_utf8 t.name v.name_is_string.short v.name_is_string.valid)
        (map-Reads (counted 4 (client_partition is_utf8)) _ (map (λ p. p) t.partitions) t _
          (counted-Reads (IsAnswer is_utf8) (λ p. p) answer_bytes (client_partition is_utf8)
            answer-Reads 4 (λ p h. answer-long p) t.partitions (omega arith) v.partitions_valid
            v.partitions_fit)
          (ap (λ ps. pure (record { name = t.name; partitions = ps })) (map_same t.partitions)))

  code-Reads : (b : Bool) → Reads (when b Read.int16) tt (optional b (be_bytes 2 0))
  code-Reads true = map-Reads Read.int16 _ 0 tt _ (int16-Reads 0 (omega arith)) refl
  code-Reads false = pure-Reads tt

  client-Reads :
      (version id : ℕ) (topics : List OffsetFetchTopicResult)
      → id < 2 ^ 32
      → length topics < 2 ^ 31
      → All (IsTopicAnswer is_utf8) topics
      → Reads (client_fetch is_utf8 version) (id, topics) (fetch_bytes version id topics)
  client-Reads version id topics h fits v =
      bind-Reads Read.int32 _ id (id, topics) _ _ (int32-Reads id h)
        (bind-Reads (counted 6 (client_topic is_utf8)) _ topics (id, topics) _ _
          (subst
            (λ ts.
              Reads (counted 6 (client_topic is_utf8)) ts (array_bytes topic_answer_bytes topics))
            (map_same topics)
            (counted-Reads (IsTopicAnswer is_utf8) (λ t. t) topic_answer_bytes
              (client_topic is_utf8) topic_answer-Reads 6 (λ t k. topic_answer-long t) topics
              (omega arith) v fits))
          (map-Reads (when (since 2 version) Read.int16) _ tt (id, topics) _
            (code-Reads (since 2 version)) refl))

-- A client that reads the protocol's fields finds in an OffsetFetch response of version 0, 1 or 2 the
-- correlation id and the topics with their partitions and offsets that the broker answered, where
-- the numbers fit, the names are valid strings and there are fewer than 2 ^ 31 of each; it is left
-- just behind the response.
pub offset_fetch_response_back :
    (is_utf8 : Bytes → Bool) (version id : ℕ) (topics : List OffsetFetchTopicResult) (r : Reader)
    (rest : Bytes)
    → version ≤ 2
    → id < 2 ^ 32
    → length topics < 2 ^ 31
    → All (IsTopicAnswer is_utf8) topics
    → StandsAt r (offset_fetch_response version id topics ++ rest)
    → client_fetch is_utf8 version r
      ≡ ok ((id, topics), advance (length (offset_fetch_response version id topics)) r)
offset_fetch_response_back is_utf8 version id topics r rest old h fits v stands =
    let e = response-bytes is_utf8 version id topics fits v in
    let stands' : StandsAt r (fetch_bytes version id topics ++ rest) =
      subst (λ b. StandsAt r (b ++ rest)) e stands in
    client-Reads is_utf8 version id topics h fits v r rest stands'
    ∙ ap (λ (b : Bytes). ok ((id, topics), advance (length b) r)) (sym e)
