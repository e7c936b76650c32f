-- ===== src/Broker/Polls.antt =====
-- The polls of a group of the server of crates/datarail-broker/src/lib.rs, over the topic and the log of
-- crates/datarail-topic/src/lib.rs and crates/datarail-replaylog/src/lib.rs.
use hu_gr_datarail.Prelude.{
  ℕ, zero, suc, ◌+◌, ◌^◌, ◌%◌, ◌<◌, ◌≡◌, refl, sym, ap, ◌∙◌, Option, none, some, List, [], ◌∷◌,
  ◌++◌, Bytes, Bytes_eq, bytes_lt, length, All, arith,
}
use hu_gr_datarail.Prelude.Dict.{Dict, get, insert_by, get-insert_by}
use hu_gr_datarail.Topic
use hu_gr_datarail.Topic.{Group, reader_of, dispatch_next, record_of}
use hu_gr_datarail.Topic.Dispatch.{dispatch_next-record_of, length-record_of}
use hu_gr_datarail.Topic.Retained.{retained, Message, IsMessage, records_of, of_opened, of_step}
use hu_gr_datarail.Replaylog.{ReplayLog, frame_overhead}
use hu_gr_datarail.Replaylog.Reader.{Replay}
use hu_gr_datarail.Replaylog.Rounds.{Gives}
use hu_gr_datarail.Replaylog.Segments.{size}
use hu_gr_datarail.Keyrouter.{from_nodes, add_node, has}
use hu_gr_datarail.Replaylog.Rest.{Left}
use hu_gr_datarail.Replaylog.Drains.{Left-Found, ended-Left}
use hu_gr_datarail.Replaylog.Holds.{Holds}
use hu_gr_datarail.Replaylog.Opens.{replay_from-Left}
use hu_gr_datarail.Broker.{Request, poll, Response, some_record, no_record}
use hu_gr_datarail.Broker.Server.{
  StoreOps, Server, Texts, or_zero, with_group, on_dispatched, poll_group, handle,
}
use hu_gr_datarail.Broker.Serve.{answers}
use hu_gr_datarail.Broker.Topics.{Errors, topic_ops, of_outcome, of_dispatched}

abbrev pub polls : ℕ → Bytes → List Request
polls zero group = []
polls (suc n) group = poll group ∷ polls n group

-- each message with the offset behind it, and then that there is no more
unfoldable pub polled : ℕ → List Message → List Response
polled offset [] = no_record ∷ []
polled offset ((key, payload) ∷ messages) =
    let next = offset + (frame_overhead + length (record_of key payload)) in
    some_record next key payload ∷ polled next messages

get-put :
    {G : Type 0} (groups : Dict Bytes G) (group : Bytes) (g : G)
    → get (insert_by bytes_lt groups group g) group ≡ some g
get-put groups group g =
    ground (arith, get-insert_by bytes_lt groups group group g, Bytes_eq.test_iff group group)

module _ {O : Type 0} (errors : Errors) (stores : StoreOps O) (texts : Texts)
    (read_len : Bytes → ℕ) where
  abbrev pub served_by :
      ℕ → Server ReplayLog (Group Replay) O → Request → Response × Server ReplayLog (Group Replay) O
  served_by rounds = handle (topic_ops errors (retained read_len rounds)) stores texts

  handle-poll :
      (rounds : ℕ) (s : Server ReplayLog (Group Replay) O) (group : Bytes) (g : Group Replay)
      → get s.groups group ≡ some g
      → served_by rounds s (poll group)
        ≡ on_dispatched (topic_ops errors (retained read_len rounds)) stores texts s group (
          of_dispatched errors
              (of_outcome errors (dispatch_next (retained read_len rounds) s.topic g).0),
          (dispatch_next (retained read_len rounds) s.topic g).1,
        )
  unfolding handle with_group poll_group
  handle-poll rounds s group g h = rw (handle, with_group, h) (rw h refl)

  abbrev started : ℕ → ℕ → Group Replay
  started rounds offset =
      Topic.seek (retained read_len rounds) (Topic.new_group (retained read_len rounds) (zero ∷ []))
        offset

  -- what the server makes of what a topic dispatches
  abbrev on_next :
      ℕ
      → Server ReplayLog (Group Replay) O
      → Bytes
      → Topic.Outcome (Option Topic.Dispatched) × Group Replay
      → Response × Server ReplayLog (Group Replay) O
  on_next rounds s group (o, g) =
      on_dispatched (topic_ops errors (retained read_len rounds)) stores texts s group
        (of_dispatched errors (of_outcome errors o), g)

  handle-polled :
      (rounds : ℕ) (s : Server ReplayLog (Group Replay) O) (group : Bytes) (g next : Group Replay)
      (d : Topic.Dispatched)
      → get s.groups group ≡ some g
      → dispatch_next (retained read_len rounds) s.topic g ≡ (Topic.ok (some d), next)
      → served_by rounds s (poll group) ≡ (
        some_record next.cursor d.key d.payload,
        record s { groups = insert_by bytes_lt s.groups group next },
      )
  unfolding on_dispatched
  handle-polled rounds s group g next d h e =
      handle-poll rounds s group g h ∙ ap (on_next rounds s group) e

  handle-drained :
      (rounds : ℕ) (s : Server ReplayLog (Group Replay) O) (group : Bytes) (g next : Group Replay)
      → get s.groups group ≡ some g
      → dispatch_next (retained read_len rounds) s.topic g ≡ (Topic.ok none, next)
      → (served_by rounds s (poll group)).0 ≡ no_record
  unfolding on_dispatched
  handle-drained rounds s group g next h e =
      ap (λ x. x.0) (handle-poll rounds s group g h ∙ ap (on_next rounds s group) e)

  -- A group that is polled for the first time is one that stands at its committed offset.
  handle-first :
      (rounds : ℕ) (s : Server ReplayLog (Group Replay) O) (group : Bytes) (offset : ℕ)
      → get s.groups group ≡ none
      → stores.fetch s.offsets group ≡ some offset
      → served_by rounds s (poll group)
        ≡ served_by rounds
            (record s { groups = insert_by bytes_lt s.groups group (started rounds offset) })
            (poll group)
  unfolding handle with_group
  handle-first rounds s group offset h e =
      let topics = topic_ops errors (retained read_len rounds) in
      let s' : Server ReplayLog (Group Replay) O = record s {
        groups = insert_by bytes_lt s.groups group (started rounds offset);
      } in
      let new : with_group topics stores texts s group ≡ s' =
        rw (with_group, h)
          (ap
            (λ o. record s {
              groups = insert_by bytes_lt s.groups group (started rounds (or_zero o));
            })
            e) in
      let known : with_group topics stores texts s' group ≡ s' =
        rw (with_group, get-put s.groups group (started rounds offset)) refl in
      ap (λ u. poll_group topics stores texts u group (get (u.groups) group)) (new ∙ sym known)

  module _ (gives : Gives read_len) where
    dispatch_next-ended :
        (fuel offset end : ℕ) (log : ReplayLog) (g : Group Replay) (r : Replay) (node : ℕ)
        (nodes : List ℕ)
        → reader_of (retained read_len (suc fuel)) log g g.replay ≡ Topic.ok r
        → Left [] offset end r
        → g.router.nodes ≡ node ∷ nodes
        → dispatch_next (retained read_len (suc fuel)) log g
          ≡ (Topic.ok none, record g { replay = none })
    unfolding dispatch_next Topic.on_reader Topic.on_read reader_of
    dispatch_next-ended fuel offset end log g r node nodes e l h =
        rw (dispatch_next, h, e, ended-Left read_len gives fuel offset end r l) refl

    polls-Left :
        (fuel offset end : ℕ) (s : Server ReplayLog (Group Replay) O) (group : Bytes)
        (g : Group Replay) (messages : List Message) (r : Replay) (node : ℕ) (nodes : List ℕ)
        → get s.groups group ≡ some g
        → reader_of (retained read_len (suc fuel)) s.topic g g.replay ≡ Topic.ok r
        → Left (records_of messages) offset end r
        → g.router.nodes ≡ node ∷ nodes
        → All IsMessage messages
        → end < fuel
        → (answers (served_by (suc fuel)) s (polls (suc (length messages)) group)).0
          ≡ polled offset messages
    unfolding answers polled reader_of
    polls-Left fuel offset end s group g [] r node nodes k e l h hs f =
        ap (λ x. x ∷ [])
          (handle-drained (suc fuel) s group g (record g { replay = none }) k
            (dispatch_next-ended fuel offset end s.topic g r node nodes e l h))
    polls-Left fuel offset end s group g ((key, payload) ∷ messages) r node nodes k e l h
          ((short, fits), hs) f =
        let rec = record_of key payload in
        let logs = retained read_len (suc fuel) in
        let (reader, a, rest) =
          Left-Found read_len gives fuel offset end rec (records_of messages) r l fits f in
        let (member, owns, d) =
          dispatch_next-record_of logs s.topic g r reader offset key payload node nodes h e
            (ap (of_step r) a) short in
        let next : Group Replay = record g {
          cursor = (offset + 8 + (4 + length key + length payload)) % 2 ^ 64;
          replay = some reader;
        } in
        let here = offset + (frame_overhead + length rec) in
        let s' : Server ReplayLog (Group Replay) O = record s {
          groups = insert_by bytes_lt s.groups group next;
        } in
        let more =
          polls-Left fuel here end s' group next messages reader node nodes
            (get-put s.groups group next) refl rest h hs f in
        let moved : next.cursor ≡ here =
          omega (arith, rest.end_eq, rest.word, length-record_of key payload) in
        ap (λ x. x.0 ∷ (answers (served_by (suc fuel)) x.1 (polls (suc (length messages)) group)).0)
          (handle-polled (suc fuel) s group g next
            (record { member = member; offset = offset; key = key; payload = payload }) k d)
        ∙ ap (λ rs. some_record next.cursor key payload ∷ rs) more
        ∙ ap (λ c. some_record c key payload ∷ polled here messages) moved

    pub polls-first :
        (fuel : ℕ) (s : Server ReplayLog (Group Replay) O) (group : Bytes) (pre post : List Message)
        → Holds (records_of pre ++ records_of post) s.topic
        → get s.groups group ≡ none
        → stores.fetch s.offsets group ≡ some (size (records_of pre))
        → All IsMessage post
        → s.topic.write_offset < fuel
        → (answers (served_by (suc fuel)) s (polls (suc (length post)) group)).0
          ≡ polled (size (records_of pre)) post
    unfolding answers reader_of Topic.seek Topic.new_group from_nodes add_node has
    polls-first fuel s group pre post held new kept k f =
        let offset = size (records_of pre) in
        let g = started (suc fuel) offset in
        let s' : Server ReplayLog (Group Replay) O = record s {
          groups = insert_by bytes_lt s.groups group g;
        } in
        let (r, opens, left) = replay_from-Left s.topic (records_of pre) (records_of post) held in
        ap (λ x. x.0 ∷ (answers (served_by (suc fuel)) x.1 (polls (length post) group)).0)
          (handle-first (suc fuel) s group offset new kept)
        ∙ polls-Left fuel offset s.topic.write_offset s' group g post r 0 []
            (get-put s.groups group g) (ap of_opened opens) left refl k f
