-- ===== src/Replaylog/Reader.antt =====
-- crates/datarail-replaylog/src/lib.rs, `Replay`: a reader over a directory that nobody changes meanwhile.
-- How many bytes a read of a file gives, of those that it has left, is the parameter `read_len`.
use hu_gr_datarail.Prelude.{◌%◌, ◌^◌, min}
use hu_gr_datarail.Prelude.{
  ℕ, zero, suc, ◌+◌, ◌-◌, Bool, true, false, Option, none, some, List, [], ◌∷◌, ◌++◌, Bytes, ℕ_eq,
  length, take, drop, ltb, leb, if◌then◌else◌, ◌>>=◌,
}
use hu_gr_datarail.Prelude.Dict
use hu_gr_datarail.Replaylog.{
  Dir, ReplayLog, segment_starts, partition_point, get_at, max_record, frame_overhead, body_len,
  is_intact,
}

abbrev pub refill_chunk : ℕ
refill_chunk = 65536

-- `file` is what an open segment has behind the position of its handle.
pub record Replay : Type 0 where
  pub dir : Dir
  pub starts : List ℕ
  pub seg_idx : ℕ
  pub file : Option Bytes
  pub buf_base : ℕ
  pub buf : Bytes
  pub cursor : ℕ
  pub end : ℕ

-- none where the file of the segment cannot be opened
unfoldable pub open_segment : Replay → ℕ → Option Replay
open_segment r at_offset = elim (get_at r.starts r.seg_idx) [
  | none ↦ some (record r { file = none })
  | some seg ↦ do
    bytes ← Dict.get r.dir seg
    some (record r {
      file = some (drop (at_offset - seg) bytes);
      buf = [];
      cursor = 0;
      buf_base = at_offset;
    })
]

abbrev pub bytes_buffered : Replay → ℕ
bytes_buffered r = length r.buf - r.cursor

-- A read fills a slice of REFILL_CHUNK bytes at most.
abbrev pub filled : (Bytes → ℕ) → Bytes → ℕ
filled read_len rest = min refill_chunk (read_len rest)

-- the consumed bytes leave the buffer
unfoldable pub compacted : Replay → Replay
compacted r = record r {
  buf = drop r.cursor r.buf;
  buf_base = (r.buf_base + r.cursor) % 2 ^ 64;
  cursor = 0;
}

-- what a round of the loop of `read_next` does
pub data Step : Type 0 where
  again ended : Replay → Step
  found : ℕ → Bytes → Replay → Step
  failed : Step

abbrev pub after_refill : Option (Bool × Replay) → Step
after_refill none = failed
after_refill (some (true, r)) = again r
after_refill (some (false, r)) = ended r

unfoldable pub resync_or_stop : Replay → ℕ → Option (Bool × Replay)
resync_or_stop r bad_off =
    let next = partition_point bad_off r.starts in
    elim (get_at r.starts next) [
      | none ↦ some (false, r)
      | some start ↦ do
        opened ← open_segment (record r { seg_idx = next }) start
        some (true, opened)
    ]

-- `Replay::open` of a log
unfoldable pub replay_from : ReplayLog → ℕ → Option (Option Replay)
replay_from log start_offset =
    let starts = segment_starts log.dir in
    if ltb log.write_offset start_offset
    then none
    else some (
        open_segment
          (record {
            dir = log.dir;
            starts = starts;
            seg_idx = partition_point start_offset starts - 1;
            file = none;
            buf_base = start_offset;
            buf = [];
            cursor = 0;
            end = log.write_offset;
          })
          start_offset)

module _ (read_len : Bytes → ℕ) where
  -- A segment that is used up is followed by the next one.
  unfoldable pub refill_loop : ℕ → Replay → Option (Bool × Replay)
  refill_loop zero r = some (false, r)
  refill_loop (suc fuel) r = elim r.file [
    | none ↦ some (false, r)
    | some rest ↦
        let n = filled read_len rest in
        let idx = r.seg_idx + 1 in
        elim (take n rest) [
          | b ∷ bs ↦ some (true, record r { file = some (drop n rest); buf = r.buf ++ (b ∷ bs) })
          | [] ↦ elim (get_at r.starts idx) [
            | none ↦ some (false, record r { file = none; seg_idx = idx })
            | some next ↦ elim (open_segment (record r { file = none; seg_idx = idx }) next) [
              | none ↦ none
              | some opened ↦ refill_loop fuel opened
            ]
          ]
        ]
  ]

  unfoldable pub refill : Replay → Option (Bool × Replay)
  refill r = refill_loop (suc (length r.starts)) (compacted r)

  unfoldable pub round : Replay → Step
  round r =
      let offset = (r.buf_base + r.cursor) % 2 ^ 64 in
      let input = drop r.cursor r.buf in
      let avail = length input in
      let len = body_len input in
      if ltb avail 4
      then (if leb r.end offset then ended r else after_refill (refill r))
      else if ltb max_record len
      then after_refill (resync_or_stop r offset)
      else if ltb avail (frame_overhead + len)
      then after_refill (refill r)
      else if leb r.end offset
      then ended r
      else if is_intact input
      then found offset (take len (drop 4 input))
          (record r { cursor = r.cursor + (frame_overhead + len) })
      else after_refill (resync_or_stop r offset)

  -- `again` where the fuel is used up
  unfoldable pub read_next : ℕ → Replay → Step
  read_next zero r = again r
  read_next (suc fuel) r = elim (round r) [
    | again next ↦ read_next fuel next
    | ended last ↦ ended last
    | found offset body next ↦ found offset body next
    | failed ↦ failed
  ]

  -- A client that reads to the end, as `drain` of the tests; `rounds` bounds the rounds of a call.
  unfoldable pub read_all : ℕ → ℕ → Replay → Option (List (ℕ × Bytes))
  read_all zero rounds r = none
  read_all (suc calls) rounds r = elim (read_next rounds r) [
    | again next ↦ none
    | ended last ↦ some []
    | found offset body next ↦ do more ← read_all calls rounds next; some ((offset, body) ∷ more)
    | failed ↦ none
  ]

  unfoldable pub drain : ℕ → ℕ → ReplayLog → ℕ → Option (List (ℕ × Bytes))
  drain calls rounds log from = do
    opened ← replay_from log from
    r ← opened
    read_all calls rounds r
