-- ===== src/Kafka/Messages/Runs.antt =====
-- Short requests and responses.
use hu_gr_datarail.Kafka.Messages.Layout.{txn_offsets}
use hu_gr_datarail.Prelude.{
  ℕ, ◌*◌, ◌≤◌, max, ◌^◌, ◌<◌, ◌≡◌, refl, Bool, true, some, List, [], ◌∷◌, ◌++◌, Bytes, length,
  arith, ltb, ◌&&◌,
}
use hu_gr_datarail.Kafka.Codec.{Reader, ok, be_bytes, be_value}
use hu_gr_datarail.Kafka.Codec.Write
use hu_gr_datarail.Kafka.Codec.Reads.{StandsAt, advance}
use hu_gr_datarail.Kafka.Codec.Header.{write_response_header}
use hu_gr_datarail.Kafka.Messages.{write_each, counted, repeat}
use hu_gr_datarail.Kafka.Messages.Counts.{counted-fits}
use hu_gr_datarail.Kafka.Codec.Read
use hu_gr_datarail.Kafka.Codec.Read.{remaining}
use hu_gr_datarail.Kafka.Messages.Groups.{
  parse_offset_commit, OffsetFetchTopicResult, offset_fetch_response, write_fetch_partition,
  write_fetch_topic,
}
use hu_gr_datarail.Kafka.Messages.Txn.{parse_txn_offset_commit}
use hu_gr_datarail.Kafka.Messages.Layout.{
  Commit, CommitTopic, commit_bytes, kept, TxnCommit, txn_commit_bytes, IsTopic,
}
use hu_gr_datarail.Kafka.Messages.Requests.{parse_offset_commit_back, parse_txn_offset_commit_back}
use hu_gr_datarail.Kafka.Messages.Answers.{client_fetch, offset_fetch_response_back}

abbrev ascii : Bytes → Bool
ascii [] = true
ascii (b ∷ bs) = ltb b 128 && ascii bs

abbrev at : Bytes → Reader
at input = record { buf = 1 ∷ 2 ∷ input; pos = 2 }

at-StandsAt : (input : Bytes) → length input < 2 ^ 32 → StandsAt (at input) input
at-StandsAt input h = record { input_left = refl; within = omega arith; addressable = omega arith }

-- the topic "t" with partition 3 at offset 70
abbrev orders : CommitTopic
orders = record {
  name = 116 ∷ [];
  entries = record { partition = 3; offset = 70; timestamp = 9; metadata = some (109 ∷ []) } ∷ [];
}

abbrev commit : Commit
commit = record {
  group_id = 103 ∷ [];
  generation_id = 2;
  member_id = 97 ∷ [];
  retention_time_ms = 1000;
  topics = orders ∷ [];
}

orders-IsTopic : IsTopic ascii orders
orders-IsTopic = record {
  name_is_string = record { short = omega arith; valid = refl };
  entries_fit = omega arith;
  entries_valid = (
    record {
      partition_fits = omega arith;
      offset_fits = omega arith;
      timestamp_fits = omega arith;
      metadata_is_text = (omega arith, refl);
    },
    tt,
  );
}

parse_offset_commit_back_example :
    parse_offset_commit ascii 1 (at (commit_bytes 1 commit ++ []))
    ≡ ok (kept commit, advance (length (commit_bytes 1 commit)) (at (commit_bytes 1 commit ++ [])))
unfolding be_bytes Write.string Write.nullable_string
parse_offset_commit_back_example =
    parse_offset_commit_back ascii 1 commit (at (commit_bytes 1 commit ++ [])) [] (omega arith)
      (record {
        group_is_string = record { short = omega arith; valid = refl };
        generation_fits = omega arith;
        member_is_string = record { short = omega arith; valid = refl };
        retention_fits = omega arith;
        topics_fit = omega arith;
        topics_valid = (orders-IsTopic, tt);
      })
      (at-StandsAt (commit_bytes 1 commit ++ []) (omega arith))

abbrev txn_commit : TxnCommit
txn_commit = record {
  transactional_id = 120 ∷ [];
  group_id = 103 ∷ [];
  producer_id = 5;
  epoch = 1;
  topics = orders ∷ [];
}

parse_txn_offset_commit_back_example :
    parse_txn_offset_commit ascii (at (txn_commit_bytes txn_commit ++ []))
    ≡ ok (
      record {
        transactional_id = 120 ∷ [];
        group_id = 103 ∷ [];
        producer_id = 5;
        epoch = 1;
        offsets = ((116 ∷ []), 3, 70) ∷ [];
        topics = ((116 ∷ []), 3 ∷ []) ∷ [];
      },
      advance (length (txn_commit_bytes txn_commit)) (at (txn_commit_bytes txn_commit ++ [])),
    )
unfolding be_bytes Write.string Write.nullable_string txn_offsets
parse_txn_offset_commit_back_example =
    parse_txn_offset_commit_back ascii txn_commit (at (txn_commit_bytes txn_commit ++ [])) []
      (record {
        id_is_string = record { short = omega arith; valid = refl };
        group_is_string = record { short = omega arith; valid = refl };
        producer_fits = omega arith;
        epoch_fits = omega arith;
        topics_fit = omega arith;
        topics_valid = (orders-IsTopic, tt);
      })
      (at-StandsAt (txn_commit_bytes txn_commit ++ []) (omega arith))

abbrev answers : List OffsetFetchTopicResult
answers = record { name = 116 ∷ []; partitions = record { partition = 3; offset = 70 } ∷ [] } ∷ []

offset_fetch_response_back_example :
    client_fetch ascii 2 (at (offset_fetch_response 2 6 answers ++ []))
    ≡ ok (
      (6, answers),
      advance
          (length (offset_fetch_response 2 6 answers))
          (at (offset_fetch_response 2 6 answers ++ [])),
    )
unfolding offset_fetch_response write_response_header write_each write_fetch_topic
    write_fetch_partition be_bytes Write.string Write.nullable_string
offset_fetch_response_back_example =
    offset_fetch_response_back ascii 2 6 answers (at (offset_fetch_response 2 6 answers ++ [])) []
      (omega arith) (omega arith) (omega arith)
      (
        record {
          name_is_string = record { short = omega arith; valid = refl };
          partitions_fit = omega arith;
          partitions_valid =
              (record { partition_fits = omega arith; offset_fits = omega arith }, tt);
        },
        tt,
      )
      (at-StandsAt (offset_fetch_response 2 6 answers ++ []) (omega arith))

abbrev two : List ℕ
two = 6 ∷ 7 ∷ []

-- A count of 1000 before two entries.
abbrev announced : Bytes
announced = be_bytes 4 1000 ++ (be_bytes 4 6 ++ be_bytes 4 7)

counted-announced : counted 4 Read.int32 (at announced) ≡ ok (two, advance 12 (at announced))
unfolding counted repeat Read.fixed Read.take Read.bounded_count Read.remaining be_bytes be_value
counted-announced = refl

counted-fits_example : length two * max 4 1 ≤ length (remaining (at announced))
unfolding be_bytes
counted-fits_example =
    counted-fits Read.int32 4 (at announced) (advance 12 (at announced)) two (omega arith)
      counted-announced
