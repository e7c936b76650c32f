-- ===== src/Offsets/Runs.antt =====
-- The offset store of crates/datarail-offsets/src/lib.rs on small inputs.
use hu_gr_datarail.Prelude.{
  ℕ, ◌≡◌, refl, Bool, true, Option, none, some, List, [], ◌∷◌, ◌++◌, Bytes, bytes_eq, bytes_lt,
  length, take, arith, ◌<◌, ◌^◌,
}
use hu_gr_datarail.Prelude.Words.{crc32, crc_bytes, crc_bits, le_bytes, le_value, slice}
use hu_gr_datarail.Prelude.Dict.{get, insert_by, remove}
use hu_gr_datarail.Offsets.{
  file_offsets, err, disk_error, restart, replay, parse_record, fetch, FileOffsets, written, torn,
  replaced, not_replaced, commit, commit_many, encode_record, encode_all, header, replay_loop,
  checked_record, append_log, write, applied, maybe_compact, compact, replace_log, restore_many,
  restore_all,
}
use hu_gr_datarail.Offsets.Mem
use hu_gr_datarail.Offsets.Record.{IsEntry, record_bytes}
use hu_gr_datarail.Prelude.Sorted.{extend}
use hu_gr_datarail.Offsets.Log.{log_of}
use hu_gr_datarail.Offsets.Refine.{
  Call, commit_call, commit_many_call, restore_call, crash_call, open_call, mem_run, file_call,
  file_run, fetch-file_run, AreCalls,
}
use hu_gr_datarail.Offsets.Recovery.{restart-again}

abbrev any_text : Bytes → Bool
any_text bytes = true

-- the check value of the CRC-32
crc32_check : crc32 (49 ∷ 50 ∷ 51 ∷ 52 ∷ 53 ∷ 54 ∷ 55 ∷ 56 ∷ 57 ∷ []) ≡ 0xCBF4_3926
unfolding crc32 crc_bytes crc_bits
crc32_check = refl

abbrev calls : List Call
calls =
    commit_call (97 ∷ []) 5 replaced
    ∷ crash_call (((98 ∷ []), 6) ∷ ((97 ∷ []), 7) ∷ []) 20
    ∷ commit_many_call (((97 ∷ []), 8) ∷ []) not_replaced
    ∷ restore_call (record { group = 97 ∷ []; offset = some 5 } ∷ [])
    ∷ open_call
    ∷ []

small-IsEntry : (n offset : ℕ) → offset < 2 ^ 64 → IsEntry any_text (n ∷ []) offset
small-IsEntry n offset h = record { text = refl; short = omega arith; word = h }

restored-IsEntry :
    (offset : ℕ) → ◌≡◌ {A = Option ℕ} (some 5) (some offset) → IsEntry any_text (97 ∷ []) offset
restored-IsEntry offset e = small-IsEntry 97 offset (ground (arith, e))

abbrev committed : FileOffsets
committed = file_run any_text (restart any_text []) (commit_call (97 ∷ []) 5 replaced ∷ [])

crash_length :
    length (committed.log ++ take 20 (log_of (((98 ∷ []), 6) ∷ ((97 ∷ []), 7) ∷ []))) ≡ 37
unfolding file_run file_call restart replay replay_loop parse_record slice commit append_log write
    applied maybe_compact encode_record header le_bytes crc32 crc_bytes crc_bits insert_by log_of
    record_bytes
crash_length = refl

restored_length : length ((file_run any_text (restart any_text []) (take 4 calls)).log) ≡ 34
unfolding file_run file_call restart replay replay_loop parse_record checked_record slice commit
    commit_many append_log write applied maybe_compact compact replace_log restore_many restore_all
    encode_all encode_record header le_bytes le_value crc32 crc_bytes crc_bits insert_by get remove
    extend bytes_eq bytes_lt
restored_length = refl

fetched : fetch (file_run any_text (restart any_text []) calls) (98 ∷ []) ≡ some 6
unfolding file_run file_call restart replay replay_loop parse_record checked_record slice commit
    commit_many append_log write applied maybe_compact compact replace_log restore_many restore_all
    encode_all encode_record header le_bytes le_value crc32 crc_bytes crc_bits insert_by get remove
    extend bytes_eq bytes_lt fetch
fetched = refl

calls-AreCalls : AreCalls any_text (restart any_text []) calls
unfolding file_run
calls-AreCalls = (
  (small-IsEntry 97 5 (omega arith), refl),
  (
    (
      (small-IsEntry 98 6 (omega arith), (small-IsEntry 97 7 (omega arith), tt)),
      omega (arith, crash_length),
    ),
    (
      ((small-IsEntry 97 8 (omega arith), tt), refl),
      ((restored-IsEntry, tt), (omega (arith, restored_length), tt)),
    ),
  ),
)

fetch-file_run_example :
    fetch (file_run any_text (restart any_text []) calls) (98 ∷ [])
    ≡ Mem.fetch (mem_run [] calls) (98 ∷ [])
fetch-file_run_example = fetch-file_run any_text calls (98 ∷ []) calls-AreCalls

-- one record, and three bytes of the next
abbrev torn_file : Bytes
torn_file = log_of (((97 ∷ []), 5) ∷ []) ++ (1 ∷ 0 ∷ 0 ∷ [])

restart-again_example :
    restart any_text ((restart any_text torn_file).log) ≡ restart any_text torn_file
restart-again_example = restart-again any_text torn_file

-- A write that fails after some bytes leaves them in the file. The store lives on, and the next commit,
-- which succeeds, is written behind them: it is not found when the store is opened again.
abbrev after_failure : FileOffsets
after_failure =
    (commit ((commit (restart any_text []) (97 ∷ []) 5 (torn 3) replaced).1) (98 ∷ []) 6 written
      replaced).1

lost_commit :
    (fetch after_failure (98 ∷ []) ≡ some 6)
    × (fetch (restart any_text (after_failure.log)) (98 ∷ []) ≡ none)
unfolding restart replay replay_loop parse_record checked_record slice commit append_log write
    applied maybe_compact encode_record header le_bytes le_value crc32 crc_bytes crc_bits insert_by
    get fetch bytes_eq
lost_commit = (refl, refl)

-- When the compaction fails, a batch is an error although its values are in the map.
failed_compaction :
    commit_many (file_offsets [] true [] 5000) (((97 ∷ []), 8) ∷ []) written not_replaced
    ≡ (err disk_error, file_offsets (log_of (((97 ∷ []), 8) ∷ [])) true (((97 ∷ []), 8) ∷ []) 5001)
unfolding commit_many append_log write applied maybe_compact compact replace_log encode_all
    encode_record header le_bytes insert_by extend log_of record_bytes
failed_compaction = refl
