-- ===== src/Topic/Retained.antt =====
-- The topic of crates/datarail-topic/src/lib.rs over the log of crates/datarail-replaylog/src/lib.rs, on a
-- file system that does not fail: what is produced is dispatched.
use hu_gr_datarail.Prelude.{
  ℕ, zero, suc, ◌+◌, ◌^◌, ◌%◌, ◌<◌, ◌≡◌, refl, sym, ap, ◌∙◌, subst, true, none, some, Option, List,
  [], ◌∷◌, ◌++◌, Bytes, length, All, All-append, arith, ltb, ◌>>=◌,
}
use hu_gr_datarail.Keyrouter.{Router, route}
use hu_gr_datarail.Topic.{
  Outcome, ok, log_error, corrupt, no_members, LogOps, Group, Dispatched, record_of, produce, seek,
  reader_of, on_reader, on_read, dispatch_next,
}
use hu_gr_datarail.Topic.Dispatch.{dispatch_next-record_of}
use hu_gr_datarail.Replaylog
use hu_gr_datarail.Replaylog.{
  ReplayLog, Appended, at_offset, too_large, append_error, rotated, written, frame_overhead,
}
use hu_gr_datarail.Replaylog.Open.{open_log}
use hu_gr_datarail.Replaylog.Frames.{Fits}
use hu_gr_datarail.Replaylog.Reader
use hu_gr_datarail.Replaylog.Reader.{Replay, Step, again, ended, found, failed}
use hu_gr_datarail.Replaylog.Rounds.{Gives}
use hu_gr_datarail.Replaylog.Segments.{size}
use hu_gr_datarail.Replaylog.Rest.{Left}
use hu_gr_datarail.Replaylog.Drains.{Left-Found, ended-Left}
use hu_gr_datarail.Replaylog.Holds.{Holds}
use hu_gr_datarail.Replaylog.Appends.{append_all, append_all-Holds}
use hu_gr_datarail.Replaylog.Opens.{replay_from-Left}
use hu_gr_datarail.Replaylog.History.{open_log-empty, segment_bytes-open_log}

abbrev pub of_appended : Appended → Outcome ℕ
of_appended (at_offset offset) = ok offset
of_appended (too_large n) = log_error []
of_appended append_error = log_error []

abbrev pub of_opened : Option (Option Replay) → Outcome Replay
of_opened none = log_error []
of_opened (some none) = log_error []
of_opened (some (some r)) = ok r

abbrev pub of_step : Replay → Step → Outcome (Option (ℕ × Bytes)) × Replay
of_step r (found offset body next) = (ok (some (offset, body)), next)
of_step r (ended last) = (ok none, last)
of_step r (again next) = (log_error [], next)
of_step r failed = (log_error [], r)

-- The log and its readers, as a topic calls them; `rounds` bounds the rounds of a call of `read_next`.
abbrev pub retained : (Bytes → ℕ) → ℕ → LogOps ReplayLog Replay
retained read_len rounds = record {
  append = λ log rec. (
    of_appended (Replaylog.append log rec rotated written).0,
    (Replaylog.append log rec rotated written).1,
  );
  sync = λ log. (none, log);
  end_offset = λ log. log.write_offset;
  replay_from = λ log offset. of_opened (Reader.replay_from log offset);
  read_next = λ r. of_step r (Reader.read_next read_len rounds r);
}

-- a message is a key and a payload
abbrev pub Message : Type 0
Message = Bytes × Bytes

abbrev pub records_of : List Message → List Bytes
records_of [] = []
records_of ((key, payload) ∷ messages) = record_of key payload ∷ records_of messages

-- The key has a length of 32 bits, and the record is one that the log takes.
abbrev pub IsMessage : Message → Type 0
IsMessage (key, payload) = (length key < 2 ^ 32) × Fits (record_of key payload)

abbrev pub owner : Router → Bytes → ℕ
owner r key = elim (route r key) [ none ↦ 0 | some member ↦ member ]

owner-route :
    (r : Router) (key : Bytes) (member : ℕ) → route r key ≡ some member → member ≡ owner r key
owner-route r key member h = rw (owner, h) refl

-- the messages as they are dispatched, from an offset of the log on
unfoldable pub owned : Router → ℕ → List Message → List Dispatched
owned router offset [] = []
owned router offset ((key, payload) ∷ messages) =
    record { member = owner router key; offset = offset; key = key; payload = payload }
    ∷ owned router (offset + (frame_overhead + length (record_of key payload))) messages

module _ {L R : Type 0} (logs : LogOps L R) where
  unfoldable pub produce_all : L → List Message → L
  produce_all log [] = log
  produce_all log ((key, payload) ∷ messages) =
      produce_all (produce logs log key payload).1 messages

  -- A consumer that polls a group until it has nothing more; none where a call fails.
  abbrev pub collected :
      (Group R → Option (List Dispatched))
      → Outcome (Option Dispatched) × Group R
      → Option (List Dispatched)
  collected rest (ok none, g) = some []
  collected rest (ok (some d), g) = do ds ← rest g; some (d ∷ ds)
  collected rest (log_error e, g) = none
  collected rest (corrupt, g) = none
  collected rest (no_members, g) = none

  unfoldable pub dispatch_all : ℕ → L → Group R → Option (List Dispatched)
  dispatch_all zero log g = none
  dispatch_all (suc calls) log g =
      collected (λ next. dispatch_all calls log next) (dispatch_next logs log g)

module _ (read_len : Bytes → ℕ) (gives : Gives read_len) where
  produce_all-append_all :
      (rounds : ℕ) (log : ReplayLog) (messages : List Message)
      → All IsMessage messages
      → produce_all (retained read_len rounds) log messages ≡ append_all log (records_of messages)
  unfolding produce_all produce append_all
  produce_all-append_all rounds log [] h = refl
  produce_all-append_all rounds log ((key, payload) ∷ messages) ((short, fits), hs) =
      let small : ltb (length key) (2 ^ 32) ≡ true = ground (arith, short) in
      rw (produce_all, produce, small)
        (produce_all-append_all rounds
          (Replaylog.append log (record_of key payload) rotated written).1 messages hs)

  -- The reader of a group dispatches the records that are left.
  dispatch_all-Left :
      (calls fuel offset end : ℕ) (log : ReplayLog) (g : Group Replay) (messages : List Message)
      (r : Replay) (node : ℕ) (nodes : List ℕ)
      → reader_of (retained read_len (suc fuel)) log g g.replay ≡ ok r
      → Left (records_of messages) offset end r
      → g.router.nodes ≡ node ∷ nodes
      → All IsMessage messages
      → length messages < calls
      → end < fuel
      → dispatch_all (retained read_len (suc fuel)) calls log g
        ≡ some (owned g.router offset messages)
  unfolding dispatch_all dispatch_next on_reader on_read owned reader_of
  dispatch_all-Left zero fuel offset end log g messages r node nodes e l h hs c f =
      absurd (omega (arith, c))
  dispatch_all-Left (suc calls) fuel offset end log g [] r node nodes e l h hs c f =
      rw (dispatch_all, dispatch_next, h, e, ended-Left read_len gives fuel offset end r l) refl
  dispatch_all-Left (suc calls) fuel offset end log g ((key, payload) ∷ messages) r node nodes e l h
        ((short, fits), hs) c f =
      let rec = record_of key payload in
      let logs = retained read_len (suc fuel) in
      let (next, a, rest) =
        Left-Found read_len gives fuel offset end rec (records_of messages) r l fits f in
      let (member, owns, d) =
        dispatch_next-record_of logs log g r next offset key payload node nodes h e
          (ap (of_step r) a) short in
      let g' : Group Replay = record g {
        cursor = (offset + 8 + (4 + length key + length payload)) % 2 ^ 64;
        replay = some next;
      } in
      let more =
        dispatch_all-Left calls fuel (offset + (frame_overhead + length rec)) end log g' messages
          next node nodes refl rest h hs (omega (arith, c)) f in
      ap (collected logs (λ k. dispatch_all logs calls log k)) d
      ∙ ap
          (λ o. o >>= (λ ds.
            some (record { member = member; offset = offset; key = key; payload = payload } ∷ ds)))
          more
      ∙ ap
          (λ m. some (
            record { member = m; offset = offset; key = key; payload = payload }
            ∷ owned g.router (offset + (frame_overhead + length rec)) messages))
          (owner-route g.router key member owns)

  pub records-Fits :
      (messages : List Message) → All IsMessage messages → All Fits (records_of messages)
  records-Fits [] h = tt
  records-Fits ((key, payload) ∷ messages) ((short, fits), hs) = (fits, records-Fits messages hs)

  pub records-append :
      (xs ys : List Message) → records_of (xs ++ ys) ≡ records_of xs ++ records_of ys
  records-append [] ys = refl
  records-append ((key, payload) ∷ xs) ys =
      ap (λ l. record_of key payload ∷ l) (records-append xs ys)

  -- The log of a new topic holds the records of the messages that were produced to it.
  produce_all-Holds :
      (segment_bytes : ℕ) (pre post : List Message) (rounds : ℕ)
      → All IsMessage pre
      → All IsMessage post
      → size (records_of (pre ++ post)) < 2 ^ 64
      → Holds
          (records_of pre ++ records_of post)
          (produce_all (retained read_len rounds) (open_log [] segment_bytes) (pre ++ post))
  produce_all-Holds segment_bytes pre post rounds h k v =
      let all = All-append IsMessage pre post h k in
      let log = produce_all (retained read_len rounds) (open_log [] segment_bytes) (pre ++ post) in
      subst (λ l. Holds l log) (records-append pre post)
        (subst (Holds (records_of (pre ++ post)))
          (sym (produce_all-append_all rounds (open_log [] segment_bytes) (pre ++ post) all))
          (append_all-Holds (open_log [] segment_bytes) [] (records_of (pre ++ post))
            (open_log-empty segment_bytes) (segment_bytes-open_log [] segment_bytes)
            (records-Fits (pre ++ post) all) v))

  -- Of the messages that were produced to a new topic, a group with members that seeks to the offset of one
  -- of them, or to the end, is given that one and those behind it, in order, each with its offset and the
  -- member that the router gives for its key, and then nothing. Keys are shorter than 2 ^ 32 bytes, records
  -- are at most MAX_RECORD, the log is shorter than 2 ^ 64 bytes, a file that is not at its end gives a byte
  -- at least, and the bounds on the calls and the rounds exceed the number of the messages and the bytes of
  -- the log.
  pub dispatch_all-produce_all :
      (segment_bytes : ℕ) (pre post : List Message) (g : Group Replay) (node : ℕ) (nodes : List ℕ)
      (calls fuel : ℕ)
      → All IsMessage pre
      → All IsMessage post
      → g.router.nodes ≡ node ∷ nodes
      → length post < calls
      → size (records_of (pre ++ post)) < fuel
      → size (records_of (pre ++ post)) < 2 ^ 64
      → dispatch_all
          (retained read_len (suc fuel))
          calls
          (produce_all (retained read_len (suc fuel)) (open_log [] segment_bytes) (pre ++ post))
          (seek (retained read_len (suc fuel)) g (size (records_of pre)))
        ≡ some (owned g.router (size (records_of pre)) post)
  unfolding seek reader_of
  dispatch_all-produce_all segment_bytes pre post g node nodes calls fuel h k there c f v =
      let logs = retained read_len (suc fuel) in
      let log = produce_all logs (open_log [] segment_bytes) (pre ++ post) in
      let held = produce_all-Holds segment_bytes pre post (suc fuel) h k v in
      let (r, opens, left) = replay_from-Left log (records_of pre) (records_of post) held in
      dispatch_all-Left calls fuel (size (records_of pre)) log.write_offset log
        (seek logs g (size (records_of pre))) post r node nodes (ap of_opened opens) left there k c
        (omega (arith, f, held.offset_eq, ap size (records-append pre post)))
