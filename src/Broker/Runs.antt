-- ===== src/Broker/Runs.antt =====
-- The protocol of crates/datarail-broker/src/lib.rs on small inputs.
use hu_gr_datarail.Prelude.{
  suc, ◌++◌, bytes_eq, ℕ, ◌+◌, ◌≡◌, refl, Bool, true, none, some, List, [], ◌∷◌, Bytes, length, All,
  arith,
}
use hu_gr_datarail.Prelude.Words.{crc32, crc_bytes, crc_bits, le_bytes, le_value, slice}
use hu_gr_datarail.Broker.{
  Request, produce, poll, commit, Response, produced, no_record, error, committed, put_slice,
  unframe, request_body, response_body, decode_request,
}
use hu_gr_datarail.Prelude.Dict.{get, insert_by}
use hu_gr_datarail.Offsets.{FileOffsets, file_offsets, fetch, written, not_synced}
use hu_gr_datarail.Broker.Server.{StoreOps, Server, Texts}
use hu_gr_datarail.Broker.Topics.{Errors}
use hu_gr_datarail.Broker.Polls.{polls, polled, served_by}
use hu_gr_datarail.Broker.Resume.{produces, map_produced, commit-polls}
use hu_gr_datarail.Topic.{Group, record_of}
use hu_gr_datarail.Topic.Retained.{Message, records_of}
use hu_gr_datarail.Offsets
use hu_gr_datarail.Replaylog.{ReplayLog, frame}
use hu_gr_datarail.Replaylog.Open.{open_log}
use hu_gr_datarail.Replaylog.Frames.{frames}
use hu_gr_datarail.Replaylog.Reader.{Replay}
use hu_gr_datarail.Replaylog.Rounds.{Gives}
use hu_gr_datarail.Replaylog.Segments.{size}
use hu_gr_datarail.Broker.Stores.{file_store}
use hu_gr_datarail.Broker.Stream.{CanSend, CanAnswer, requests_of, read_responses}
use hu_gr_datarail.Broker.Serve.{answers, serve_conn, served}

abbrev any_text : Bytes → Bool
any_text bytes = true

-- a server that counts what is produced
abbrev count_handle : ℕ → Request → Response × ℕ
count_handle n (produce key payload) = (produced n, n + 1)
count_handle n (poll group) = (no_record, n)
count_handle n (commit group offset) = (error (58 ∷ []), n)

abbrev sent : List Request
sent = produce (97 ∷ []) (1 ∷ 2 ∷ []) ∷ commit (103 ∷ []) 7 ∷ poll (103 ∷ []) ∷ []

sent-All : All (CanSend any_text) sent
unfolding request_body put_slice le_bytes
sent-All = (
  record { lawful = tt; size = omega arith },
  (
    record { lawful = (refl, omega arith); size = omega arith },
    (record { lawful = refl; size = omega arith }, tt),
  ),
)

answers-All : All (CanAnswer any_text) ((answers count_handle 5 sent).0)
unfolding answers response_body put_slice le_bytes
answers-All = (
  record { lawful = omega arith; size = omega arith },
  (record { lawful = refl; size = omega arith }, (record { lawful = tt; size = omega arith }, tt)),
)

served_example :
    (read_responses any_text
        (length ((answers count_handle 5 sent).0))
        ((serve_conn count_handle any_text 4 5 (requests_of sent)).0)
      ≡ some ((answers count_handle 5 sent).0))
    × ((serve_conn count_handle any_text 4 5 (requests_of sent)).1
        ≡ (answers count_handle 5 sent).1)
served_example = served count_handle any_text 4 5 sent (omega arith) sent-All answers-All

answered : (answers count_handle 5 sent).0 ≡ produced 5 ∷ error (58 ∷ []) ∷ no_record ∷ []
unfolding answers
answered = refl

-- A frame of which a bit was flipped is refused.
flipped : decode_request any_text (2 ∷ 0 ∷ 0 ∷ 0 ∷ 1 ∷ 0 ∷ 0 ∷ 0 ∷ 0 ∷ 0 ∷ []) ≡ none
unfolding decode_request unframe slice le_value crc32 crc_bytes crc_bits
flipped = refl

abbrev store : StoreOps FileOffsets
store = file_store (λ s group offset. (written, not_synced)) (33 ∷ [])

abbrev texts : Texts
texts = record { vanished = 118 ∷ []; past_tail = 112 ∷ [] }

abbrev errors : Errors
errors = record { log = λ e. 108 ∷ e; corrupt = 99 ∷ []; no_members = 110 ∷ [] }

abbrev seven : Bytes → ℕ
seven bytes = 7

seven-Gives : Gives seven
seven-Gives b bs = omega arith

abbrev started : Server ReplayLog (Group Replay) FileOffsets
started = record { topic = open_log [] 1; offsets = file_offsets [] true [] 0; groups = [] }

abbrev first : List Message
first = (97 ∷ [], 1 ∷ 2 ∷ []) ∷ []

abbrev later : List Message
later = (98 ∷ [], []) ∷ []

abbrev group : Bytes
group = 103 ∷ []

abbrev stored : FileOffsets
stored = (store.commit_offset started.offsets group 15).1

commit-polls_example :
    (answers (served_by errors store texts seven 101) started (
      produces (first ++ later)
      ++ (commit group (size (records_of first)) ∷ polls (suc (length later)) group))).0
    ≡ map_produced 0 (first ++ later) ++ (committed ∷ polled (size (records_of first)) later)
unfolding record_of le_bytes frames frame crc32 crc_bytes crc_bits get fetch file_store
    Offsets.commit Offsets.append_log Offsets.write Offsets.applied Offsets.maybe_compact
    Offsets.encode_record insert_by bytes_eq
commit-polls_example =
    commit-polls errors store texts seven seven-Gives 1 100 started stored group first later refl
      refl refl refl ((omega arith, omega arith), tt) ((omega arith, omega arith), tt) (omega arith)
      (omega arith)
