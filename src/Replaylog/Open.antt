-- ===== src/Replaylog/Open.antt =====
-- crates/datarail-replaylog/src/lib.rs: `scan_valid_len` and `open`, `is_frame_boundary` and `truncate_to`.
use hu_gr_datarail.Prelude.{◌%◌, ◌^◌}
use hu_gr_datarail.Prelude.{
  ℕ, zero, suc, ◌+◌, ◌-◌, max, Bool, false, Option, none, some, List, [], ◌∷◌, Bytes, ℕ_eq, length,
  take, drop, ltb, leb, nat_eq, if◌then◌else◌,
}
use hu_gr_datarail.Prelude.Dict
use hu_gr_datarail.Prelude.Dict.{Dict}
use hu_gr_datarail.Replaylog.{
  Dir, ReplayLog, body_len, file_at, frame_overhead, get_at, is_intact, last_start, max_record,
  partition_point, put_file, resize, segment_starts,
}

-- one round of `scan_valid_len`: where the frame at `pos` ends
unfoldable pub valid_frame : Bytes → ℕ → Option ℕ
valid_frame bytes pos =
    let input = drop pos bytes in
    let end = pos + (frame_overhead + body_len input) in
    if ltb (length bytes) (pos + 4)
    then none
    else if ltb max_record (body_len input)
    then none
    else if ltb (length bytes) end
    then none
    else if is_intact input
    then some end
    else none

unfoldable pub scan : ℕ → Bytes → ℕ → ℕ
scan zero bytes pos = pos
scan (suc fuel) bytes pos = elim (valid_frame bytes pos) [
  | none ↦ pos
  | some end ↦ scan fuel bytes end
]

unfoldable pub scan_valid_len : Bytes → ℕ
scan_valid_len bytes = scan (length bytes) bytes 0

-- one round of `is_frame_boundary`
unfoldable pub frame_before : Bytes → ℕ → ℕ → Option ℕ
frame_before bytes target pos =
    let input = drop pos bytes in
    let end = pos + (frame_overhead + body_len input) in
    if ltb (length bytes) (pos + 4)
    then none
    else if ltb target end
    then none
    else if ltb (length bytes) end
    then none
    else if is_intact input
    then some end
    else none

unfoldable pub boundary_loop : ℕ → Bytes → ℕ → ℕ → Bool
boundary_loop zero bytes target pos = nat_eq pos target
boundary_loop (suc fuel) bytes target pos =
    if leb target pos then nat_eq pos target else elim (frame_before bytes target pos) [
      | none ↦ false
      | some end ↦ boundary_loop fuel bytes target end
    ]

unfoldable pub is_frame_boundary : Bytes → ℕ → Bool
is_frame_boundary bytes target =
    if ltb (length bytes) target then false else boundary_loop target bytes target 0

-- where a truncation fails: before it starts, when `n` later files are removed, or at the directory
pub data Truncate : Type 0 where
  truncated not_synced : Truncate
  stopped : ℕ → Truncate
  not_persisted : Truncate

pub data Truncated : Type 0 where
  done truncate_error : Truncated
  bad_offset : ℕ → Truncated

unfoldable pub remove_files : Dir → List ℕ → Dir
remove_files dir [] = dir
remove_files dir (start ∷ starts) = remove_files (Dict.remove dir start) starts

unfoldable pub shortened : ReplayLog → ℕ → ℕ → List ℕ → ReplayLog
shortened log target_start end_offset later =
    let relative = end_offset - target_start in
    let dir = remove_files log.dir later in
    record log {
      dir = put_file dir target_start (resize relative (file_at dir target_start));
      active = target_start;
      position = relative;
      active_start = target_start;
      write_offset = end_offset;
    }

unfoldable pub cut : ReplayLog → ℕ → ℕ → List ℕ → Truncate → Truncated × ReplayLog
cut log target_start end_offset later not_synced = (truncate_error, log)
cut log target_start end_offset later (stopped n) = (
  truncate_error,
  record log { dir = remove_files log.dir (take n later); active = target_start; position = 0 },
)
cut log target_start end_offset later not_persisted =
    (truncate_error, shortened log target_start end_offset later)
cut log target_start end_offset later truncated =
    (done, shortened log target_start end_offset later)

abbrev pub or_zero : Option ℕ → ℕ
or_zero none = 0
or_zero (some n) = n

unfoldable pub truncate_to : ReplayLog → ℕ → Truncate → Truncated × ReplayLog
truncate_to log end_offset outcome =
    let starts = segment_starts log.dir in
    let target_index = partition_point end_offset starts - 1 in
    let target_start = or_zero (get_at starts target_index) in
    let relative = end_offset - target_start in
    if ltb log.write_offset end_offset
    then (bad_offset end_offset, log)
    else if nat_eq end_offset log.write_offset
    then (done, log)
    else if is_frame_boundary (file_at log.dir target_start) relative
    then cut log target_start end_offset (drop (target_index + 1) starts) outcome
    else (bad_offset end_offset, log)

-- `open`, where its calls of the file system succeed
unfoldable pub open_log : Dir → ℕ → ReplayLog
open_log dir segment_bytes =
    let active_start = last_start (segment_starts dir) in
    let bytes = file_at dir active_start in
    let valid_len = scan_valid_len bytes in
    record {
      dir = put_file dir active_start (resize valid_len bytes);
      segment_bytes = max segment_bytes 1024;
      active_start = active_start;
      write_offset = (active_start + valid_len) % 2 ^ 64;
      active = active_start;
      position = valid_len;
    }
