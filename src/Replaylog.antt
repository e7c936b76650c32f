-- ===== src/Replaylog.antt =====
-- crates/datarail-replaylog/src/lib.rs, the log: its directory, `append` and `rotate`. A directory
-- maps the start of a segment to the bytes of its file; what the file system does in a call is an outcome.
pub mod Frames
pub mod Open
pub mod Reader
pub mod Rounds
pub mod Reading
pub mod Segments
pub mod Passing
pub mod Rest
pub mod Drains
pub mod Holds
pub mod Appends
pub mod Locate
pub mod Opens
pub mod Scans
pub mod Recover
pub mod Bounds
pub mod Boundary
pub mod Truncates
pub mod History
mod Runs
use hu_gr_datarail.Prelude.{
  ℕ, zero, suc, ◌+◌, ◌-◌, ◌%◌, ◌^◌, max, Bool, true, false, Option, none, some, List, [], ◌∷◌, ◌++◌,
  Bytes, ℕ_eq, length, take, drop, ltb, leb, nat_eq, if◌then◌else◌,
}
use hu_gr_datarail.Prelude.Dict
use hu_gr_datarail.Prelude.Dict.{Dict}
use hu_gr_datarail.Prelude.Words.{le_bytes, le_value, crc32}

abbrev pub max_record : ℕ
max_record = 67108864

abbrev pub frame_overhead : ℕ
frame_overhead = 8

-- the start of a segment is the name of its file
abbrev pub Dir : Type 0
Dir = Dict ℕ Bytes

-- The handle of the active segment is a file and a position in it.
pub record ReplayLog : Type 0 where
  pub dir : Dir
  pub segment_bytes : ℕ
  pub active_start : ℕ
  pub write_offset : ℕ
  pub active : ℕ
  pub position : ℕ

pub data Appended : Type 0 where
  at_offset : ℕ → Appended
  too_large : ℕ → Appended
  append_error : Appended

-- `torn n`: the three writes fail when n bytes of the frame are in the file
pub data Write : Type 0 where
  written : Write
  torn : ℕ → Write

-- where a rotation fails: at the old segment, at the new file, or at the directory
pub data Rotate : Type 0 where
  rotated not_flushed not_opened not_listed : Rotate

-- `seg_start` and the sort of `segment_starts`: a directory stands in the order of its starts
unfoldable pub segment_starts : Dir → List ℕ
segment_starts [] = []
segment_starts ((start, bytes) ∷ dir) = start ∷ segment_starts dir

unfoldable pub file_at : Dir → ℕ → Bytes
unfolding Dict.get
file_at dir start = elim (Dict.get dir start) [ none ↦ [] | some bytes ↦ bytes ]

unfoldable pub put_file : Dir → ℕ → Bytes → Dir
put_file dir start bytes = Dict.insert_by ltb dir start bytes

-- `create(true).truncate(false)`
unfoldable pub create : Dir → ℕ → Dir
create dir start = put_file dir start (file_at dir start)

-- `set_len`, which fills a file with zeros where it grows
unfoldable pub zeros : ℕ → Bytes
zeros zero = []
zeros (suc n) = 0 ∷ zeros n

unfoldable pub resize : ℕ → Bytes → Bytes
resize n bytes = take n bytes ++ zeros (n - length bytes)

unfoldable pub write_at : ℕ → Bytes → Bytes → Bytes
write_at n piece bytes = resize n bytes ++ (piece ++ drop (n + length piece) bytes)

unfoldable pub write_all : ReplayLog → Bytes → ReplayLog
write_all log piece = record log {
  dir = put_file log.dir log.active (write_at log.position piece (file_at log.dir log.active));
  position = log.position + length piece;
}

unfoldable pub frame : Bytes → Bytes
frame body =
    let len_bytes = le_bytes 4 (length body) in
    len_bytes ++ (body ++ le_bytes 4 (crc32 (len_bytes ++ body)))

unfoldable pub next_segment : ReplayLog → ReplayLog
next_segment log = record log {
  dir = create log.dir log.write_offset;
  active_start = log.write_offset;
  active = log.write_offset;
  position = 0;
}

-- The fields are set in the order of the source, so that a failure leaves the ones before it.
unfoldable pub rotate : ReplayLog → Rotate → Bool × ReplayLog
rotate log not_flushed = (false, log)
rotate log not_opened = (false, record log { active_start = log.write_offset })
rotate log not_listed = (false, next_segment log)
rotate log rotated = (true, next_segment log)

-- the part of `append` behind the rotation
unfoldable pub append_frame : ReplayLog → Bytes → Write → Appended × ReplayLog
append_frame log body (torn n) = (append_error, write_all log (take n (frame body)))
append_frame log body written = (
  at_offset log.write_offset,
  record (write_all log (frame body)) {
    write_offset = (log.write_offset + (frame_overhead + length body)) % 2 ^ 64;
  },
)

unfoldable pub after_rotate : Bool × ReplayLog → Bytes → Write → Appended × ReplayLog
after_rotate (true, log) body write = append_frame log body write
after_rotate (false, log) body write = (append_error, log)

-- `self.write_offset - self.active_start`, of two u64
abbrev pub active_len : ReplayLog → ℕ
active_len log = (log.write_offset + 2 ^ 64 - log.active_start) % 2 ^ 64

unfoldable pub append : ReplayLog → Bytes → Rotate → Write → Appended × ReplayLog
append log body rotation write =
    if ltb max_record (length body)
    then (too_large (length body), log)
    else if leb log.segment_bytes (active_len log)
    then after_rotate (rotate log rotation) body write
    else append_frame log body write

-- `starts.partition_point(|&s| s <= offset)`, of starts in ascending order
unfoldable pub partition_point : ℕ → List ℕ → ℕ
partition_point offset [] = 0
partition_point offset (start ∷ starts) =
    let rest = partition_point offset starts in if leb start offset then suc rest else 0

unfoldable pub get_at : List ℕ → ℕ → Option ℕ
get_at [] n = none
get_at (start ∷ starts) zero = some start
get_at (start ∷ starts) (suc n) = get_at starts n

unfoldable pub last_start : List ℕ → ℕ
last_start [] = 0
last_start (start ∷ []) = start
last_start (start ∷ next ∷ starts) = last_start (next ∷ starts)

-- the length of a frame that stands first in some bytes, and whether its checksum is that of its bytes
abbrev pub body_len : Bytes → ℕ
body_len input = le_value (take 4 input)

unfoldable pub is_intact : Bytes → Bool
is_intact input =
    let len = body_len input in
    nat_eq (le_value (take 4 (drop (4 + len) input)))
      (crc32 (take 4 input ++ take len (drop 4 input)))
