-- ===== src/Offsets.antt =====
-- crates/datarail-offsets/src/lib.rs: durable group-offset commits. A `String` is its bytes, and a
-- `BTreeMap` is a list in the order of its keys. The file system is modelled by what the store sees of it:
-- the bytes of `offsets.log`, whether the open handle still is that file, and the outcome of each write.
use hu_gr_datarail.Prelude.{
  ℕ, zero, suc, ◌+◌, ◌*◌, ◌^◌, ◌≤◌, ◌<◌, max, Bool, true, false, not, ◌||◌, Option, none, some,
  List, [], ◌∷◌, ◌++◌, map, Bytes, Bytes_eq, bytes_lt, length, take, drop, ltb, leb, nat_eq,
  if◌then◌else◌, ◌>>=◌,
}
use hu_gr_datarail.Prelude.Dict.{Dict, get, insert_by, remove}
use hu_gr_datarail.Prelude.Sorted.{extend}
use hu_gr_datarail.Prelude.Words.{le_bytes, le_value, checked_add, slice, crc32}
pub mod Mem
pub mod Record
pub mod Parsed
pub mod Log
pub mod Recovery
pub mod Torn
pub mod LogOf
pub mod Steps
pub mod Refine
mod Runs

abbrev pub Offsets : Type 0
Offsets = Dict Bytes ℕ

abbrev pub set_offset : Offsets → Bytes → ℕ → Offsets
set_offset = insert_by bytes_lt

pub record FileOffsets : Type 0 where
  pub log : Bytes
  pub attached : Bool
  pub offsets : Offsets
  pub records : ℕ

abbrev pub file_offsets : Bytes → Bool → Offsets → ℕ → FileOffsets
file_offsets log attached offsets records = record {
  records = records;
  offsets = offsets;
  attached = attached;
  log = log;
}

pub record OffsetSnapshot : Type 0 where
  pub group : Bytes
  pub offset : Option ℕ

pub data IoError : Type 0 where
  invalid_input disk_error : IoError

-- the outcome of `write_all` and `sync_all`
pub data Append : Type 0 where
  written unsynced : Append
  torn : ℕ → Append

-- the outcome of the replacement: the temporary file or the rename failed, the live file was not opened
-- again, or the directory was not synced
pub data Replace : Type 0 where
  replaced not_replaced not_reopened not_synced : Replace

pub data Done : Type 0 where
  ok : Done
  err : IoError → Done

unfoldable pub header : Bytes → ℕ → Bytes
header group offset = (le_bytes 4 (length group) ++ group) ++ le_bytes 8 offset

unfoldable pub encode_record : Bytes → ℕ → Option Bytes
encode_record group offset =
    if ltb (length group) (2 ^ 32)
    then some (header group offset ++ le_bytes 4 (crc32 (header group offset)))
    else none

unfoldable pub encode_all : List (Bytes × ℕ) → Option Bytes
encode_all [] = some []
encode_all ((group, offset) ∷ values) = do
  record_bytes ← encode_record group offset
  rest ← encode_all values
  some (record_bytes ++ rest)

module _ (is_utf8 : Bytes → Bool) where
  -- the last tests: the checksum, then the text
  unfoldable pub checked_record : Bool → Bytes → ℕ → ℕ → Option (Bytes × ℕ × ℕ)
  checked_record intact group offset next =
      if not intact then none else if is_utf8 group then some (group, offset, next) else none

  unfoldable pub parse_record : Bytes → ℕ → Option (Bytes × ℕ × ℕ)
  parse_record buf pos = do
    len_end ← checked_add pos 4
    len_bytes ← slice buf pos len_end
    group_end ← checked_add len_end (le_value len_bytes)
    group ← slice buf len_end group_end
    offset_end ← checked_add group_end 8
    offset_bytes ← slice buf group_end offset_end
    crc_end ← checked_add offset_end 4
    crc_bytes ← slice buf offset_end crc_end
    body ← slice buf pos offset_end
    checked_record (nat_eq (crc32 body) (le_value crc_bytes)) group (le_value offset_bytes) crc_end

  unfoldable pub replay_loop : ℕ → Bytes → ℕ → Offsets → ℕ → Offsets × ℕ × ℕ
  replay_loop zero buf pos m records = (m, records, pos)
  replay_loop (suc fuel) buf pos m records = elim (parse_record buf pos) [
    | none ↦ (m, records, pos)
    | some (group, offset, next) ↦
        replay_loop fuel buf next (set_offset m group offset) (records + 1)
  ]

  -- A record has 16 bytes at least, so the loop ends before it has gone round once for each byte.
  unfoldable pub replay : Bytes → Offsets × ℕ × ℕ
  replay buf = replay_loop (length buf) buf 0 [] 0

  -- The log is cut at the end of its last whole record.
  unfoldable pub restart : Bytes → FileOffsets
  restart buf =
      let (m, records, valid_len) = replay buf in
      file_offsets (if ltb valid_len (length buf) then take valid_len buf else buf) true m records

unfoldable pub fetch : FileOffsets → Bytes → Option ℕ
fetch s group = get s.offsets group

unfoldable pub snapshot : FileOffsets → List Bytes → List OffsetSnapshot
snapshot s groups = map (λ group. record { offset = get s.offsets group; group = group }) groups

-- What a write leaves: a handle that is no longer the live file changes nothing that is seen again.
unfoldable pub write : FileOffsets → Bytes → Append → FileOffsets
write s bytes written = if s.attached then record s { log = s.log ++ bytes } else s
write s bytes (torn n) = if s.attached then record s { log = s.log ++ take n bytes } else s
write s bytes unsynced = if s.attached then record s { log = s.log ++ bytes } else s

unfoldable pub replace_log : FileOffsets → Option Bytes → Offsets → Replace → Done × FileOffsets
replace_log s none m outcome = (err invalid_input, s)
replace_log s (some bytes) m replaced = (ok, file_offsets bytes true m (length m))
replace_log s (some bytes) m not_replaced = (err disk_error, s)
replace_log s (some bytes) m not_reopened =
    (err disk_error, record s { log = bytes; attached = false })
replace_log s (some bytes) m not_synced =
    (err disk_error, record s { log = bytes; attached = true; records = length m })

abbrev pub rewrite_map : FileOffsets → Offsets → Replace → Done × FileOffsets
rewrite_map s m outcome = replace_log s (encode_all m) m outcome

unfoldable pub compact : FileOffsets → Replace → Done × FileOffsets
compact s outcome = rewrite_map s s.offsets outcome

unfoldable pub maybe_compact : FileOffsets → Replace → Done × FileOffsets
maybe_compact s outcome =
    let live = max (length s.offsets) 1 in
    let compacted = compact s outcome in
    if ltb s.records 1024 || leb s.records (4 * live) then (ok, s) else compacted

-- `insert`, value by value
abbrev pub set_all : Offsets → List (Bytes × ℕ) → Offsets
set_all = extend bytes_lt

-- what follows the write: the map and the count are changed once the bytes are synced
unfoldable pub applied : FileOffsets → Offsets → ℕ → Append → Replace → Done × FileOffsets
applied t m records written outcome =
    maybe_compact (record t { offsets = m; records = records }) outcome
applied t m records (torn n) outcome = (err disk_error, t)
applied t m records unsynced outcome = (err disk_error, t)

unfoldable pub append_log :
    FileOffsets → Option Bytes → Offsets → ℕ → Append → Replace → Done × FileOffsets
append_log s none m records appended outcome = (err invalid_input, s)
append_log s (some bytes) m records appended outcome =
    applied (write s bytes appended) m records appended outcome

unfoldable pub commit_many : FileOffsets → List (Bytes × ℕ) → Append → Replace → Done × FileOffsets
commit_many s values appended outcome =
    append_log s (encode_all values) (set_all s.offsets values) (s.records + length values) appended
      outcome

unfoldable pub commit : FileOffsets → Bytes → ℕ → Append → Replace → Done × FileOffsets
commit s group offset appended outcome =
    append_log s (encode_record group offset) (set_offset s.offsets group offset) (s.records + 1)
      appended outcome

unfoldable pub restore_all : Offsets → List OffsetSnapshot → Offsets
restore_all m [] = m
restore_all m (saved ∷ snapshots) =
    restore_all
      (elim (saved.offset) [
        | some offset ↦ set_offset m saved.group offset
        | none ↦ remove m saved.group
      ])
      snapshots

unfoldable pub restore_many : FileOffsets → List OffsetSnapshot → Replace → Done × FileOffsets
restore_many s snapshots outcome = rewrite_map s (restore_all s.offsets snapshots) outcome
