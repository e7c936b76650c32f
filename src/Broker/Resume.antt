-- ===== src/Broker/Resume.antt =====
-- A group of the server of crates/datarail-broker/src/lib.rs that resumes at its committed offset, over the
-- topic and the log of crates/datarail-topic/src/lib.rs and crates/datarail-replaylog/src/lib.rs.
use hu_gr_datarail.Prelude.{
  ℕ, suc, ◌+◌, ◌^◌, ◌<◌, ◌≡◌, refl, sym, ap, ◌∙◌, subst, none, some, List, [], ◌∷◌, ◌++◌, Bytes,
  Bytes_eq, length, All, All-append, append_assoc, arith, true, false, ltb,
}
use hu_gr_datarail.Prelude.Dict.{get}
use hu_gr_datarail.Topic
use hu_gr_datarail.Topic.{Group, reader_of, dispatch_next, record_of}
use hu_gr_datarail.Topic.Retained.{
  retained, Message, IsMessage, records_of, of_appended, records-append, records-Fits,
}
use hu_gr_datarail.Replaylog.{ReplayLog, frame_overhead, append, rotated, written}
use hu_gr_datarail.Replaylog.Appends.{
  append-Holds, append_all, append_all-Holds, segment_bytes-append,
}
use hu_gr_datarail.Replaylog.History.{open_log-empty, segment_bytes-open_log}
use hu_gr_datarail.Replaylog.Open.{open_log}
use hu_gr_datarail.Replaylog.Reader.{Replay}
use hu_gr_datarail.Replaylog.Rounds.{Gives}
use hu_gr_datarail.Replaylog.Segments.{size, size-append, size-cons}
use hu_gr_datarail.Replaylog.Frames.{frames}
use hu_gr_datarail.Replaylog.Holds.{Holds}
use hu_gr_datarail.Broker.{Request, produce, commit, Response, produced, committed}
use hu_gr_datarail.Broker.Server.{
  StoreOps, Server, Texts, on_synced, on_appended, handle, on_committed,
}
use hu_gr_datarail.Broker.Serve.{answers}
use hu_gr_datarail.Broker.Topics.{Errors, topic_ops, of_outcome}
use hu_gr_datarail.Broker.Polls.{polls, polled, served_by, polls-first}

abbrev pub produces : List Message → List Request
produces [] = []
produces ((key, payload) ∷ messages) = produce key payload ∷ produces messages

-- the answers to produces of messages: the offsets at which they stand
unfoldable pub map_produced : ℕ → List Message → List Response
map_produced offset [] = []
map_produced offset ((key, payload) ∷ messages) =
    produced offset
    ∷ map_produced (offset + (frame_overhead + length (record_of key payload))) messages

module _ {O : Type 0} (errors : Errors) (stores : StoreOps O) (texts : Texts)
    (read_len : Bytes → ℕ) where
  -- A produce to a log that holds records is answered with their size.
  handle-produce :
      (rounds : ℕ) (s : Server ReplayLog (Group Replay) O) (records : List Bytes)
      (key payload : Bytes)
      → Holds records s.topic
      → 0 < s.topic.segment_bytes
      → IsMessage (key, payload)
      → size (records ++ (record_of key payload ∷ [])) < 2 ^ 64
      → served_by errors stores texts read_len rounds s (produce key payload) ≡ (
        produced (size records),
        record s { topic = (append s.topic (record_of key payload) rotated written).1 },
      )
  unfolding handle on_appended on_synced Topic.produce
  handle-produce rounds s records key payload held pos (short, fits) v =
      let small : ltb (length key) (2 ^ 32) ≡ true = ground (arith, short) in
      let rec = record_of key payload in
      let (done, now) = append-Holds s.topic records rec held pos fits v in
      let log = (append s.topic rec rotated written).1 in
      rw (handle, Topic.produce, small)
        (ap
          (λ o.
            on_appended (topic_ops errors (retained read_len rounds)) stores texts s
              (of_outcome errors (of_appended o), log))
          done)

  answers-produces :
      (rounds : ℕ) (s : Server ReplayLog (Group Replay) O) (records : List Bytes)
      (messages : List Message) (reqs : List Request)
      → Holds records s.topic
      → 0 < s.topic.segment_bytes
      → All IsMessage messages
      → size (records ++ records_of messages) < 2 ^ 64
      → (answers (served_by errors stores texts read_len rounds) s (produces messages ++ reqs)).0
        ≡ map_produced (size records) messages
          ++ (answers
              (served_by errors stores texts read_len rounds)
              (record s { topic = append_all s.topic (records_of messages) })
              reqs).0
  unfolding answers map_produced append_all frames
  answers-produces rounds s records [] reqs held pos h v = refl
  answers-produces rounds s records ((key, payload) ∷ messages) reqs held pos ((short, fits), hs)
        v =
      let rec = record_of key payload in
      let log = (append s.topic rec rotated written).1 in
      let s' : Server ReplayLog (Group Replay) O = record s { topic = log } in
      let all : size ((records ++ (rec ∷ [])) ++ records_of messages) < 2 ^ 64 =
        subst (λ l. size l < 2 ^ 64) (sym (append_assoc records (rec ∷ []) (records_of messages)))
          v in
      let one : size (records ++ (rec ∷ [])) < 2 ^ 64 =
        omega (arith, all, size-append (records ++ (rec ∷ [])) (records_of messages)) in
      let grown : size (records ++ (rec ∷ [])) ≡ size records + (frame_overhead + length rec) =
        omega (arith, size-append records (rec ∷ []), size-cons rec []) in
      let tail =
        (answers (served_by errors stores texts read_len rounds)
          (record s' { topic = append_all log (records_of messages) }) reqs).0 in
      let more =
        answers-produces rounds s' (records ++ (rec ∷ [])) messages reqs
          ((append-Holds s.topic records rec held pos fits one).1)
          (subst (λ n. 0 < n) (sym (segment_bytes-append s.topic rec)) pos) hs all in
      ap
        (λ x.
          x.0
          ∷ (answers (served_by errors stores texts read_len rounds) x.1
              (produces messages ++ reqs)).0)
        (handle-produce rounds s records key payload held pos (short, fits) one)
      ∙ ap (λ rs. produced (size records) ∷ rs)
          (more ∙ ap (λ n. map_produced n messages ++ tail) grown)

  module _ (gives : Gives read_len) where
    handle-commit :
        (rounds : ℕ) (s : Server ReplayLog (Group Replay) O) (o : O) (group : Bytes)
        (pre post : List Bytes)
        → Holds (pre ++ post) s.topic
        → stores.commit_offset s.offsets group (size pre) ≡ (none, o)
        → served_by errors stores texts read_len rounds s (commit group (size pre))
          ≡ (committed, record s { offsets = o })
    unfolding handle on_committed
    handle-commit rounds s o group pre post held c =
        let within : ltb s.topic.write_offset (size pre) ≡ false =
          ground (arith, held.offset_eq, size-append pre post) in
        rw (handle, within)
          (ap (on_committed (topic_ops errors (retained read_len rounds)) stores texts s) c)

    -- A server over a new topic serves produces of messages, and a commit of the offset of one of them, or
    -- of the end, for a group that it does not have yet; the store takes the commit and holds the offset.
    -- The produces are answered with the offsets of the messages and the commit as done, and the polls of
    -- the group give the message at that offset and those behind it, in order, each with the offset behind
    -- it, and then nothing. Keys are shorter than 2 ^ 32 bytes, records are at most MAX_RECORD, the log is
    -- shorter than 2 ^ 64 bytes, a file that is not at its end gives a byte at least, and the bound on the
    -- rounds exceeds the bytes of the log.
    pub commit-polls :
        (segment_bytes fuel : ℕ) (s : Server ReplayLog (Group Replay) O) (o : O) (group : Bytes)
        (pre post : List Message)
        → s.topic ≡ open_log [] segment_bytes
        → get s.groups group ≡ none
        → stores.commit_offset s.offsets group (size (records_of pre)) ≡ (none, o)
        → stores.fetch o group ≡ some (size (records_of pre))
        → All IsMessage pre
        → All IsMessage post
        → size (records_of (pre ++ post)) < fuel
        → size (records_of (pre ++ post)) < 2 ^ 64
        → (answers (served_by errors stores texts read_len (suc fuel)) s (
            produces (pre ++ post)
            ++ (commit group (size (records_of pre)) ∷ polls (suc (length post)) group))).0
          ≡ map_produced 0 (pre ++ post) ++ (committed ∷ polled (size (records_of pre)) post)
    unfolding answers frames
    commit-polls segment_bytes fuel s o group pre post t new c kept h k f v =
        let all = All-append IsMessage pre post h k in
        let offset = size (records_of pre) in
        let none_yet : Holds [] s.topic = subst (Holds []) (sym t) (open_log-empty segment_bytes) in
        let pos : 0 < s.topic.segment_bytes =
          subst (λ l. 0 < l.segment_bytes) (sym t) (segment_bytes-open_log [] segment_bytes) in
        let log = append_all s.topic (records_of (pre ++ post)) in
        let held : Holds (records_of pre ++ records_of post) log =
          subst (λ l. Holds l log) (records-append read_len gives pre post)
            (append_all-Holds s.topic [] (records_of (pre ++ post)) none_yet pos
              (records-Fits read_len gives (pre ++ post) all) v) in
        let s' : Server ReplayLog (Group Replay) O = record s { topic = log } in
        let given =
          polls-first errors stores texts read_len gives fuel (record s' { offsets = o }) group pre
            post held new kept k
            (omega (arith, f, held.offset_eq, ap size (records-append read_len gives pre post))) in
        let reqs = polls (suc (length post)) group in
        answers-produces (suc fuel) s [] (pre ++ post) (commit group offset ∷ reqs) none_yet pos all
          v
        ∙ ap (λ rs. map_produced 0 (pre ++ post) ++ rs)
            (ap
                (λ x.
                  x.0 ∷ (answers (served_by errors stores texts read_len (suc fuel)) x.1 reqs).0)
                (handle-commit (suc fuel) s' o group (records_of pre) (records_of post) held c)
              ∙ ap (λ rs. committed ∷ rs) given)
