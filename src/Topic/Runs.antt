-- ===== src/Topic/Runs.antt =====
-- The topic of crates/datarail-topic/src/lib.rs on small inputs.
use hu_gr_datarail.Prelude.{
  ℕ, ◌+◌, ◌^◌, ◌%◌, ◌≡◌, refl, Option, none, some, List, [], ◌∷◌, ◌++◌, Bytes, length, take, arith,
}
use hu_gr_datarail.Keyrouter.{route}
use hu_gr_datarail.Prelude.Words.{le_bytes, le_value, crc32, crc_bytes, crc_bits}
use hu_gr_datarail.Topic.{
  Outcome, ok, no_members, LogOps, Group, record_of, split_record, reader_of, dispatch_next, seek,
}
use hu_gr_datarail.Topic.Dispatch.{dispatch_next-record_of}
use hu_gr_datarail.Topic.Retained.{
  retained, records_of, owned, produce_all, dispatch_all, dispatch_all-produce_all,
}
use hu_gr_datarail.Replaylog.{frame}
use hu_gr_datarail.Replaylog.Open.{open_log}
use hu_gr_datarail.Replaylog.Frames.{frames}
use hu_gr_datarail.Replaylog.Reader.{Replay}
use hu_gr_datarail.Replaylog.Rounds.{Gives}
use hu_gr_datarail.Replaylog.Segments.{size}

abbrev Frames : Type 0
Frames = List (ℕ × Bytes)

abbrev next_frame : Frames → Outcome (Option (ℕ × Bytes)) × Frames
next_frame [] = (ok none, [])
next_frame (r ∷ rs) = (ok (some r), rs)

-- a log in memory, which a reader reads from the start
abbrev memory_log : LogOps Frames Frames
memory_log = record {
  append = λ log rec. (ok (length log), log ++ ((length log, rec) ∷ []));
  sync = λ log. (none, log);
  end_offset = λ log. length log;
  replay_from = λ log offset. ok log;
  read_next = next_frame;
}

abbrev log : Frames
log = (0, record_of (97 ∷ []) (1 ∷ 2 ∷ [])) ∷ []

abbrev pair : Group Frames
pair = record { router = record { nodes = 4 ∷ 9 ∷ [] }; cursor = 0; replay = none }

dispatch_next-record_of_example :
    (member : ℕ) × (route (pair.router) (97 ∷ []) ≡ some member)
    × (dispatch_next memory_log log pair ≡ (
      ok (some (record { member = member; offset = 0; key = 97 ∷ []; payload = 1 ∷ 2 ∷ [] })),
      record pair { cursor = (0 + 8 + (4 + 1 + 2)) % 2 ^ 64; replay = some [] },
    ))
unfolding reader_of
dispatch_next-record_of_example =
    dispatch_next-record_of memory_log log pair log [] 0 (97 ∷ []) (1 ∷ 2 ∷ []) 4 (9 ∷ []) refl refl
      refl (omega arith)

-- A group with no members keeps its cursor.
nobody :
    dispatch_next memory_log log (record pair { router = record { nodes = [] } })
    ≡ (no_members, record pair { router = record { nodes = [] } })
unfolding dispatch_next
nobody = refl

-- A record that is too short for its key length is no record.
cut_record : split_record (take 5 (record_of (97 ∷ 98 ∷ []) [])) ≡ none
unfolding split_record record_of le_bytes le_value
cut_record = refl

abbrev seven : Bytes → ℕ
seven bytes = 7

seven-Gives : Gives seven
seven-Gives b bs = omega arith

abbrev readers : Group Replay
readers = record { router = record { nodes = 4 ∷ 9 ∷ [] }; cursor = 0; replay = none }

dispatch_all-produce_all_example :
    dispatch_all
      (retained seven 101)
      3
      (produce_all
        (retained seven 101)
        (open_log [] 1)
        ((97 ∷ [], 1 ∷ 2 ∷ []) ∷ (98 ∷ [], []) ∷ []))
      (seek (retained seven 101) readers (size (records_of ((97 ∷ [], 1 ∷ 2 ∷ []) ∷ []))))
    ≡ some (
        owned
          (readers.router)
          (size (records_of ((97 ∷ [], 1 ∷ 2 ∷ []) ∷ [])))
          ((98 ∷ [], []) ∷ []))
unfolding record_of le_bytes frames frame crc32 crc_bytes crc_bits
dispatch_all-produce_all_example =
    dispatch_all-produce_all seven seven-Gives 1 ((97 ∷ [], 1 ∷ 2 ∷ []) ∷ []) ((98 ∷ [], []) ∷ [])
      readers 4 (9 ∷ []) 3 100 ((omega arith, omega arith), tt) ((omega arith, omega arith), tt)
      refl (omega arith) (omega arith) (omega arith)
