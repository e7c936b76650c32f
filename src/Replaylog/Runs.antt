-- ===== src/Replaylog/Runs.antt =====
-- The replay log of crates/datarail-replaylog/src/lib.rs on small inputs.
use hu_gr_datarail.Replaylog.Open.{done, truncated}
use hu_gr_datarail.Replaylog.Open.{
  boundary_loop, cut, frame_before, is_frame_boundary, open_log, remove_files, scan, scan_valid_len,
  stopped, truncate_to,
}
use hu_gr_datarail.Prelude.{ℕ, ◌≡◌, refl, some, [], ◌∷◌, Bytes, arith, ℕ_eq}
use hu_gr_datarail.Prelude.Dict
use hu_gr_datarail.Prelude.Words.{crc32, crc_bytes, crc_bits, le_bytes, le_value}
use hu_gr_datarail.Replaylog.{
  at_offset, append, rotated, written, torn, frame, file_at, put_file, zeros, resize, write_at,
  write_all, append_frame, after_rotate, rotate, is_intact, last_start, segment_starts,
  partition_point, get_at,
}
use hu_gr_datarail.Replaylog.Frames.{frames}
use hu_gr_datarail.Replaylog.Reader.{
  Replay, replay_from, open_segment, refill_loop, refill, round, read_next, read_all, drain,
  compacted, resync_or_stop,
}
use hu_gr_datarail.Replaylog.Rounds.{Gives}
use hu_gr_datarail.Replaylog.Segments.{size}
use hu_gr_datarail.Replaylog.Rest.{with_offsets}
use hu_gr_datarail.Replaylog.Appends.{append_all}
use hu_gr_datarail.Replaylog.Bounds.{StepIsBounded, read_next-bounded}
use hu_gr_datarail.Replaylog.History.{replay-append_all, replay-torn, replay-truncated}

-- a file that gives seven bytes in a read
abbrev seven : Bytes → ℕ
seven bytes = 7

seven-Gives : Gives seven
seven-Gives b bs = omega arith

frames_run : frames ((1 ∷ []) ∷ []) ≡ 1 ∷ 0 ∷ 0 ∷ 0 ∷ 1 ∷ 59 ∷ 238 ∷ 69 ∷ 140 ∷ []
unfolding frames frame le_bytes crc32 crc_bytes crc_bits
frames_run = refl

replay-append_all_example :
    drain seven 5 101
      (append_all (open_log [] 1) ((1 ∷ 2 ∷ []) ∷ [] ∷ (3 ∷ []) ∷ []))
      (size ((1 ∷ 2 ∷ []) ∷ []))
    ≡ some (with_offsets (size ((1 ∷ 2 ∷ []) ∷ [])) ([] ∷ (3 ∷ []) ∷ []))
unfolding frames frame le_bytes crc32 crc_bytes crc_bits
replay-append_all_example =
    replay-append_all seven seven-Gives 1 ((1 ∷ 2 ∷ []) ∷ []) ([] ∷ (3 ∷ []) ∷ []) 5 100
      (omega arith, tt) (omega arith, (omega arith, tt)) (omega arith) (omega arith) (omega arith)

replay-torn_example :
    drain seven 5 101
      (append_all
        (open_log
          ((append
            (append_all (open_log [] 1) ((1 ∷ 2 ∷ []) ∷ []))
            (7 ∷ 7 ∷ [])
            rotated
            (torn 5)).1.dir)
          1)
        ((3 ∷ []) ∷ []))
      0
    ≡ some (with_offsets 0 ((1 ∷ 2 ∷ []) ∷ (3 ∷ []) ∷ []))
unfolding frames frame le_bytes crc32 crc_bytes crc_bits
replay-torn_example =
    replay-torn seven seven-Gives 1 ((1 ∷ 2 ∷ []) ∷ []) (7 ∷ 7 ∷ []) 5 ((3 ∷ []) ∷ []) 5 100
      (omega arith, tt) (omega arith) (omega arith) (omega arith, tt) (omega arith) (omega arith)
      (omega arith)

replay-truncated_example :
    ((truncate_to
        (append_all (open_log [] 1) ((1 ∷ 2 ∷ []) ∷ [] ∷ (3 ∷ []) ∷ []))
        (size ((1 ∷ 2 ∷ []) ∷ []))
        truncated).0
      ≡ done)
    × (drain seven 5 101
          (append_all
            (truncate_to
              (append_all (open_log [] 1) ((1 ∷ 2 ∷ []) ∷ [] ∷ (3 ∷ []) ∷ []))
              (size ((1 ∷ 2 ∷ []) ∷ []))
              truncated).1
            ((4 ∷ []) ∷ []))
          0
        ≡ some (with_offsets 0 ((1 ∷ 2 ∷ []) ∷ (4 ∷ []) ∷ [])))
unfolding frames frame le_bytes crc32 crc_bytes crc_bits
replay-truncated_example =
    replay-truncated seven seven-Gives 1 ((1 ∷ 2 ∷ []) ∷ []) [] ((3 ∷ []) ∷ []) ((4 ∷ []) ∷ []) 5
      100 (omega arith, tt) (omega arith, (omega arith, tt)) (omega arith, tt) (omega arith)
      (omega arith) (omega arith) (omega arith)

-- a reader over two segments, the first with a frame whose checksum is wrong
abbrev damaged : Replay
damaged = record {
  dir =
      (0, 1 ∷ 0 ∷ 0 ∷ 0 ∷ 1 ∷ 0 ∷ 0 ∷ 0 ∷ 0 ∷ [])
      ∷ (9, 1 ∷ 0 ∷ 0 ∷ 0 ∷ 1 ∷ 59 ∷ 238 ∷ 69 ∷ 140 ∷ [])
      ∷ [];
  starts = 0 ∷ 9 ∷ [];
  seg_idx = 0;
  file = some (1 ∷ 0 ∷ 0 ∷ 0 ∷ 1 ∷ 0 ∷ 0 ∷ 0 ∷ 0 ∷ []);
  buf_base = 0;
  buf = [];
  cursor = 0;
  end = 18;
}

read_next-bounded_example : StepIsBounded (read_next seven 9 damaged)
read_next-bounded_example =
    read_next-bounded seven 9 damaged (record { inside = omega arith; flat = omega arith })

-- The reader passes over the damaged segment.
damaged_run : read_all seven 3 20 damaged ≡ some ((9, 1 ∷ []) ∷ [])
unfolding read_all read_next round refill refill_loop compacted resync_or_stop open_segment get_at
    partition_point is_intact le_value Dict.get crc32 crc_bytes crc_bits
damaged_run = refl

-- A frame is left in the file by an append that fails; the next append returns an offset, and its record is
-- not found there.
torn_then_written :
    ((append (append (open_log [] 1) (7 ∷ []) rotated (torn 5)).1 (1 ∷ []) rotated written).0
      ≡ at_offset 0)
    × (drain seven 3 20
          ((append (append (open_log [] 1) (7 ∷ []) rotated (torn 5)).1 (1 ∷ []) rotated written).1)
          0
        ≡ some [])
unfolding append append_frame after_rotate rotate write_all open_log put_file file_at resize zeros
    write_at scan_valid_len scan last_start segment_starts frame le_bytes le_value Dict.get
    Dict.insert_by drain replay_from read_all read_next round refill refill_loop compacted
    resync_or_stop open_segment get_at partition_point is_intact crc32 crc_bytes crc_bits
torn_then_written = (refl, refl)

-- A truncation that fails at a file leaves a handle at the start of the segment, and the next append
-- overwrites a record that was kept.
stopped_then_written :
    drain seven 3 20
      ((append
        (truncate_to (append_all (open_log [] 1) ((1 ∷ []) ∷ (2 ∷ []) ∷ [])) 9 (stopped 0)).1
        (3 ∷ [])
        rotated
        written).1)
      0
    ≡ some ((0, 3 ∷ []) ∷ (9, 2 ∷ []) ∷ [])
unfolding append append_all append_frame after_rotate rotate write_all open_log put_file file_at
    resize zeros write_at scan_valid_len scan last_start segment_starts frame le_bytes le_value
    Dict.get Dict.insert_by drain replay_from read_all read_next round refill refill_loop compacted
    resync_or_stop open_segment get_at partition_point is_intact crc32 crc_bytes crc_bits
    truncate_to cut remove_files is_frame_boundary boundary_loop frame_before
stopped_then_written = refl
