-- ===== src/Once/Persist.antt =====
-- crates/datarail-once/src/persist.rs, `FileOnce`, with `checkpoints` and `restore_watermark` of
-- crates/datarail-once/src/lib.rs. The log is its bytes and whether the open handle still is that file;
-- each write has an outcome. The four bytes of BLAKE3 that end a record are a parameter.
pub mod Frames
pub mod Replay
pub mod Restart
mod Runs
use hu_gr_datarail.Prelude.{
  ℕ, zero, suc, ◌+◌, ◌-◌, ◌^◌, Bool, true, false, Option, none, some, List, [], ◌∷◌, ◌++◌, Bytes,
  Bytes_eq, bytes_eq, ℕ_eq, length, take, drop, ltb, leb, nat_eq, if◌then◌else◌, ◌>>=◌,
}
use hu_gr_datarail.Prelude.Dict
use hu_gr_datarail.Prelude.Dict.{Dict}
use hu_gr_datarail.Prelude.KeySet
use hu_gr_datarail.Prelude.Words.{le_bytes, le_value, checked_add, slice}
use hu_gr_datarail.Offsets.{
  Append, written, torn, unsynced, Replace, replaced, not_replaced, not_reopened, not_synced,
}
use hu_gr_datarail.Once.{
  Disposition, delivered, duplicate, dead_lettered, StreamState, Once, new, entry, admit,
}

pub record StreamCheckpoint : Type 0 where
  pub stream : Bytes
  pub watermark : ℕ
  pub entries : Dict ℕ Bytes

-- the recorded keys at or above a watermark, in the order of their seqs
unfoldable pub above : ℕ → Dict ℕ Bytes → Dict ℕ Bytes
above low [] = []
above low ((seq, key) ∷ m) =
    let rest = above low m in if leb low seq then Dict.insert_by ltb rest seq key else rest

unfoldable pub checkpoints : Dict Bytes StreamState → List StreamCheckpoint
checkpoints [] = []
checkpoints ((stream, st) ∷ streams) =
    record {
      stream = stream;
      watermark = st.low_watermark;
      entries = above st.low_watermark st.delivered_keys;
    }
    ∷ checkpoints streams

-- `values().copied().collect()`
unfoldable pub values : Dict ℕ Bytes → List Bytes
values [] = []
values ((seq, key) ∷ m) = key ∷ values m

unfoldable pub restored : ℕ → StreamState → ℕ → StreamState
restored gc_lag st watermark =
    let floor = watermark - gc_lag in
    let keys = Dict.retain (λ seq key. leb floor seq) st.delivered_keys in
    if ltb st.low_watermark watermark
    then record st {
      low_watermark = watermark;
      gc_floor = floor;
      ahead = KeySet.retain (λ seq. leb watermark seq) st.ahead;
      delivered_keys = keys;
      seen = KeySet.retain (λ k. KeySet.contains (values keys) k) st.seen;
    }
    else st

unfoldable pub restore_watermark : Once → Bytes → ℕ → Once
restore_watermark o stream watermark = record o {
  streams = Dict.insert o.streams stream (restored o.gc_lag (entry o stream) watermark);
}

-- what a record of the log says
pub data Entry : Type 0 where
  delivered_entry : Bytes → ℕ → Bytes → Entry
  checkpoint_entry : Bytes → ℕ → Entry

unfoldable pub apply : Once → Entry → Once
apply o (delivered_entry stream seq key) = (admit o stream seq key).1
apply o (checkpoint_entry stream watermark) = restore_watermark o stream watermark

unfoldable pub delivered_body : Bytes → ℕ → Bytes → Bytes
delivered_body stream seq key = stream ++ (le_bytes 8 seq ++ key)

unfoldable pub checkpoint_body : Bytes → ℕ → Bytes
checkpoint_body stream watermark = stream ++ le_bytes 8 watermark

-- `D_BODY` and `W_BODY`, by their tags
abbrev pub body_len : ℕ → Option ℕ
body_len tag = if nat_eq tag 68 then some 56 else if nat_eq tag 87 then some 24 else none

abbrev pub tag_at : Bytes → Option ℕ
tag_at [] = none
tag_at (tag ∷ bytes) = some tag

unfoldable pub delivered_of : Bytes → ℕ → Option Bytes → Option Entry
delivered_of stream seq none = none
delivered_of stream seq (some key) = some (delivered_entry stream seq key)

unfoldable pub entry_of : ℕ → Bytes → Option Entry
entry_of tag body = do
  stream ← slice body 0 16
  number ← slice body 16 24
  let value = le_value number
  if nat_eq tag 68
      then delivered_of stream value (slice body 24 56)
      else if nat_eq tag 87
      then some (checkpoint_entry stream value)
      else none

pub record FileOnce : Type 0 where
  pub once : Once
  pub log : Bytes
  pub attached : Bool
  pub appended : ℕ

pub data Admitted : Type 0 where
  decided : Disposition → Admitted
  io_error : Admitted

module _ (crc4 : Bytes → Bytes) where
  unfoldable pub encode : ℕ → Bytes → Bytes
  encode tag body = (tag ∷ body) ++ crc4 (tag ∷ body)

  unfoldable pub encode_entry : Entry → Bytes
  encode_entry (delivered_entry stream seq key) = encode 68 (delivered_body stream seq key)
  encode_entry (checkpoint_entry stream watermark) = encode 87 (checkpoint_body stream watermark)

  unfoldable pub parse_entry : Bytes → ℕ → Option (Entry × ℕ)
  parse_entry buf pos = do
    tag ← tag_at (drop pos buf)
    size ← body_len tag
    body_start ← checked_add pos 1
    crc_start ← checked_add body_start size
    rec_end ← checked_add crc_start 4
    framed ← slice buf pos crc_start
    stored ← slice buf crc_start rec_end
    body ← if bytes_eq stored (crc4 framed) then slice buf body_start crc_start else none
    e ← entry_of tag body
    some (e, rec_end)

  -- A record has 29 bytes at least: as many rounds as bytes are enough.
  unfoldable pub replay_loop : ℕ → Bytes → ℕ → Once → ℕ → Once × ℕ
  replay_loop zero buf pos once applied = (once, applied)
  replay_loop (suc fuel) buf pos once applied = elim (parse_entry buf pos) [
    | none ↦ (once, applied)
    | some (e, next) ↦ replay_loop fuel buf next (apply once e) (applied + 1)
  ]

  unfoldable pub replay : Bytes → Once → Once × ℕ
  replay buf once = replay_loop (length buf) buf 0 once 0

  -- A torn record at the end stays in the file.
  unfoldable pub file_open : Bytes → Bytes → FileOnce
  file_open seed buf =
      let (once, applied) = replay buf (new seed) in
      record { once = once; log = buf; attached = true; appended = applied }

  unfoldable pub encode_entries : List Entry → Bytes
  encode_entries [] = []
  encode_entries (e ∷ es) = encode_entry e ++ encode_entries es

  unfoldable pub delivered_entries : Bytes → Dict ℕ Bytes → List Entry
  delivered_entries stream [] = []
  delivered_entries stream ((seq, key) ∷ m) =
      delivered_entry stream seq key ∷ delivered_entries stream m

  unfoldable pub snapshot : List StreamCheckpoint → List Entry
  snapshot [] = []
  snapshot (c ∷ cs) =
      (checkpoint_entry c.stream c.watermark ∷ delivered_entries c.stream c.entries) ++ snapshot cs

  unfoldable pub compact : FileOnce → Replace → Bool × FileOnce
  compact f outcome =
      let es = snapshot (checkpoints f.once.streams) in
      elim outcome [
        | replaced ↦
            (true, record f { log = encode_entries es; attached = true; appended = length es })
        | not_replaced ↦ (false, f)
        | not_reopened ↦ (false, record f { log = encode_entries es; attached = false })
        | not_synced ↦ (false, record f { log = encode_entries es; attached = true })
      ]

  unfoldable pub append : FileOnce → Bytes → FileOnce
  append f bytes = if f.attached then record f { log = f.log ++ bytes } else f

  unfoldable pub if_compacted : Disposition → Bool × FileOnce → Admitted × FileOnce
  if_compacted d (true, f) = (decided d, f)
  if_compacted d (false, f) = (io_error, f)

  -- the record is synced: it is counted, and the log is rewritten from time to time
  unfoldable pub counted : FileOnce → Replace → Admitted × FileOnce
  counted f outcome =
      let g = record f { appended = f.appended + 1 } in
      let compacted = if_compacted delivered (compact g outcome) in
      if leb (2 ^ 16) g.appended then compacted else (decided delivered, g)

  unfoldable pub logged : FileOnce → Bytes → Append → Replace → Admitted × FileOnce
  logged f bytes written outcome = counted (append f bytes) outcome
  logged f bytes (torn n) outcome = (io_error, append f (take n bytes))
  logged f bytes unsynced outcome = (io_error, append f bytes)

  unfoldable pub on_disposition :
      FileOnce → Bytes → ℕ → Bytes → Append → Replace → Disposition × Once → Admitted × FileOnce
  on_disposition f stream seq key appended outcome (delivered, once) =
      logged (record f { once = once }) (encode_entry (delivered_entry stream seq key)) appended
        outcome
  on_disposition f stream seq key appended outcome (duplicate, once) =
      (decided duplicate, record f { once = once })
  on_disposition f stream seq key appended outcome (dead_lettered, once) =
      (decided dead_lettered, record f { once = once })

  unfoldable pub file_admit : FileOnce → Bytes → ℕ → Bytes → Append → Replace → Admitted × FileOnce
  file_admit f stream seq key appended outcome =
      on_disposition f stream seq key appended outcome (admit f.once stream seq key)
