-- ===== src/Once/Persist/Runs.antt =====
-- The file gate of crates/datarail-once/src/persist.rs on small inputs.
use hu_gr_datarail.Prelude.{ℕ, ◌≡◌, refl, List, [], ◌∷◌, ◌++◌, Bytes, bytes_eq, length, take}
use hu_gr_datarail.Prelude.Dict
use hu_gr_datarail.Prelude.KeySet
use hu_gr_datarail.Prelude.Words.{le_bytes, le_value, slice}
use hu_gr_datarail.Offsets.{written, torn, replaced}
use hu_gr_datarail.Once.{
  delivered, duplicate, admit, admit_stream, drain, seal, gc, gc_loop, gc_step,
}
use hu_gr_datarail.Once.History.{Arrival}
use hu_gr_datarail.Once.Persist.{
  delivered_entry, FileOnce, decided, io_error, file_open, file_admit, encode_entry, encode,
  delivered_body, compact, replay, replay_loop, parse_entry, on_disposition, logged, counted,
  append, checkpoints, above, snapshot, delivered_entries, encode_entries, checkpoint_body,
  entry_of, delivered_of, apply, restore_watermark, restored, values,
}
use hu_gr_datarail.Once
use hu_gr_datarail.Once.Persist.Restart.{file_run}

abbrev crc4 : Bytes → Bytes
crc4 bytes = le_bytes 4 (length bytes)

abbrev seed : Bytes
seed = []

abbrev stream : Bytes
stream = 1 ∷ 2 ∷ 3 ∷ 4 ∷ 5 ∷ 6 ∷ 7 ∷ 8 ∷ 9 ∷ 10 ∷ 11 ∷ 12 ∷ 13 ∷ 14 ∷ 15 ∷ 16 ∷ []

abbrev key : ℕ → Bytes
key n = n ∷ 0 ∷ (stream ++ (2 ∷ 2 ∷ 2 ∷ 2 ∷ 2 ∷ 2 ∷ 2 ∷ 2 ∷ 2 ∷ 2 ∷ 2 ∷ 2 ∷ 2 ∷ 2 ∷ []))

abbrev arrival : ℕ → Arrival
arrival n = record { stream = stream; seq = n; key = key n }

abbrev arrivals : List Arrival
arrivals = arrival 0 ∷ arrival 2 ∷ arrival 0 ∷ []

abbrev kept : FileOnce
kept = file_run crc4 (file_open crc4 seed []) arrivals

-- A torn record stays in the file when it is opened, so that what is delivered next is written behind it:
-- opened again, the gate has forgotten it and delivers it a second time.
abbrev torn_file : Bytes
torn_file = take 9 (encode_entry crc4 (delivered_entry stream 0 (key 0)))

abbrev after_torn : FileOnce
after_torn = (file_admit crc4 (file_open crc4 seed torn_file) stream 0 (key 0) written replaced).1

delivered_twice :
    ((file_admit crc4 (file_open crc4 seed torn_file) stream 0 (key 0) written replaced).0
      ≡ decided delivered)
    × ((file_admit crc4 (file_open crc4 seed (after_torn.log)) stream 0 (key 0) written replaced).0
        ≡ decided delivered)
unfolding file_open replay replay_loop parse_entry file_admit on_disposition logged counted append
    encode_entry encode delivered_body le_bytes slice admit admit_stream Once.advance drain seal gc
    gc_loop gc_step Dict.get Dict.insert Dict.remove KeySet.contains KeySet.insert KeySet.remove
    bytes_eq
delivered_twice = (refl, refl)

-- When the write of a record fails, the gate has recorded it all the same: the caller, who has an error, brings
-- it again and is told that it is a duplicate.
never_delivered :
    ((file_admit crc4 (file_open crc4 seed []) stream 0 (key 0) (torn 0) replaced).0 ≡ io_error)
    × ((file_admit crc4
          (file_admit crc4 (file_open crc4 seed []) stream 0 (key 0) (torn 0) replaced).1
          stream
          0
          (key 0)
          written
          replaced).0
        ≡ decided duplicate)
unfolding file_open replay replay_loop parse_entry file_admit on_disposition logged counted append
    encode_entry encode delivered_body le_bytes slice admit admit_stream Once.advance drain seal gc
    gc_loop gc_step Dict.get Dict.insert Dict.remove KeySet.contains KeySet.insert KeySet.remove
    bytes_eq
never_delivered = (refl, refl)

-- A key that was delivered just below the watermark is a duplicate under a new seq. After a compaction and a
-- restart it is not: the checkpoint has no keys below the watermark.
abbrev compacted : FileOnce
compacted = file_open crc4 seed ((compact crc4 kept replaced).1.log)

key_forgotten :
    ((file_admit crc4 kept stream 5 (key 0) written replaced).0 ≡ decided duplicate)
    × ((file_admit crc4 compacted stream 5 (key 0) written replaced).0 ≡ decided delivered)
unfolding file_run file_open replay replay_loop parse_entry file_admit on_disposition logged counted
    append encode_entry encode delivered_body le_bytes le_value slice admit admit_stream
    Once.advance drain seal gc gc_loop gc_step Dict.get Dict.insert Dict.remove KeySet.contains
    KeySet.insert KeySet.remove bytes_eq compact checkpoints above Dict.insert_by snapshot
    delivered_entries encode_entries checkpoint_body entry_of delivered_of apply restore_watermark
    restored values Dict.retain KeySet.retain
key_forgotten = (refl, refl)
