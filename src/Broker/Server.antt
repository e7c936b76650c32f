-- ===== src/Broker/Server.antt =====
-- `Server` of crates/datarail-broker/src/lib.rs over a topic and an offset store, which are given by their
-- operations.
use hu_gr_datarail.Prelude.{ℕ, Option, none, some, Bytes, Bytes_eq, bytes_lt, ltb, if◌then◌else◌}
use hu_gr_datarail.Prelude.Dict.{Dict, get, insert_by, contains_key}
use hu_gr_datarail.Broker.{
  Request, produce, poll, commit, Response, produced, some_record, no_record, committed, error,
}

pub data Outcome {ℓ} (A : Type ℓ) : Type ℓ where
  ok : A → Outcome A
  err : Bytes → Outcome A

-- what the server calls of a `Topic` and its groups; an error is its text
pub record TopicOps (T G : Type 0) : Type 0 where
  pub append : T → Bytes → Bytes → Outcome ℕ × T
  pub sync : T → Option Bytes × T
  pub end_offset : T → ℕ
  pub new_group : G
  pub seek : G → ℕ → G
  pub position : G → ℕ
  pub dispatch_next : T → G → Outcome (Option (Bytes × Bytes)) × G

-- what it calls of an `OffsetStore`
pub record StoreOps (O : Type 0) : Type 0 where
  pub commit_offset : O → Bytes → ℕ → Option Bytes × O
  pub fetch : O → Bytes → Option ℕ

pub record Server (T G O : Type 0) : Type 0 where
  pub topic : T
  pub offsets : O
  pub groups : Dict Bytes G

-- `unwrap_or(0)`
abbrev pub or_zero : Option ℕ → ℕ
or_zero none = 0
or_zero (some n) = n

-- the texts of the two errors of the server's own
pub record Texts : Type 0 where
  pub vanished : Bytes
  pub past_tail : Bytes

module _ {T G O : Type 0} (topics : TopicOps T G) (stores : StoreOps O) (texts : Texts) where
  unfoldable pub on_synced : Server T G O → ℕ → Option Bytes × T → Response × Server T G O
  on_synced s offset (none, t) = (produced offset, record s { topic = t })
  on_synced s offset (some e, t) = (error e, record s { topic = t })

  unfoldable pub on_appended : Server T G O → Outcome ℕ × T → Response × Server T G O
  on_appended s (ok offset, t) = on_synced (record s { topic = t }) offset (topics.sync t)
  on_appended s (err e, t) = (error e, record s { topic = t })

  -- A group that is polled for the first time starts at its committed offset.
  unfoldable pub with_group : Server T G O → Bytes → Server T G O
  with_group s group =
      let start = or_zero (stores.fetch s.offsets group) in
      if contains_key s.groups group then s else record s {
        groups = insert_by bytes_lt s.groups group (topics.seek topics.new_group start);
      }

  unfoldable pub on_dispatched :
      Server T G O → Bytes → Outcome (Option (Bytes × Bytes)) × G → Response × Server T G O
  on_dispatched s group (ok none, g) =
      (no_record, record s { groups = insert_by bytes_lt s.groups group g })
  on_dispatched s group (ok (some (key, payload)), g) = (
    some_record (topics.position g) key payload,
    record s { groups = insert_by bytes_lt s.groups group g },
  )
  on_dispatched s group (err e, g) =
      (error e, record s { groups = insert_by bytes_lt s.groups group g })

  unfoldable pub poll_group : Server T G O → Bytes → Option G → Response × Server T G O
  poll_group s group none = (error texts.vanished, s)
  poll_group s group (some g) = on_dispatched s group (topics.dispatch_next s.topic g)

  unfoldable pub on_committed : Server T G O → Option Bytes × O → Response × Server T G O
  on_committed s (none, o) = (committed, record s { offsets = o })
  on_committed s (some e, o) = (error e, record s { offsets = o })

  unfoldable pub handle : Server T G O → Request → Response × Server T G O
  handle s (produce key payload) = on_appended s (topics.append s.topic key payload)
  handle s (poll group) =
      poll_group (with_group s group) group (get ((with_group s group).groups) group)
  handle s (commit group offset) =
      if ltb (topics.end_offset s.topic) offset
      then (error texts.past_tail, s)
      else on_committed s (stores.commit_offset s.offsets group offset)
