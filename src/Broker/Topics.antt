-- ===== src/Broker/Topics.antt =====
-- The topic of crates/datarail-topic/src/lib.rs as the one of the server of
-- crates/datarail-broker/src/lib.rs.
use hu_gr_datarail.Prelude.{zero, Option, none, some, [], ◌∷◌, Bytes}
use hu_gr_datarail.Topic
use hu_gr_datarail.Topic.{LogOps, Dispatched, Group}
use hu_gr_datarail.Broker.Server.{Outcome, ok, err, TopicOps}

-- the text of a `TopicError`
pub record Errors : Type 0 where
  pub log : Bytes → Bytes
  pub corrupt : Bytes
  pub no_members : Bytes

module _ (errors : Errors) where
  abbrev pub of_outcome {ℓ} : {A : Type ℓ} → Topic.Outcome A → Outcome A
  of_outcome (Topic.ok a) = ok a
  of_outcome (Topic.log_error e) = err (errors.log e)
  of_outcome Topic.corrupt = err errors.corrupt
  of_outcome Topic.no_members = err errors.no_members

  abbrev pub of_dispatched : Outcome (Option Dispatched) → Outcome (Option (Bytes × Bytes))
  of_dispatched (ok none) = ok none
  of_dispatched (ok (some d)) = ok (some (d.key, d.payload))
  of_dispatched (err e) = err e

  -- The members of a group are the one member 0, as `Group::new(&[0])`.
  abbrev pub topic_ops : {L R : Type 0} → LogOps L R → TopicOps L (Group R)
  topic_ops logs = record {
    append = λ t key payload.
        (of_outcome (Topic.produce logs t key payload).0, (Topic.produce logs t key payload).1);
    sync = logs.sync;
    end_offset = logs.end_offset;
    new_group = Topic.new_group logs (zero ∷ []);
    seek = Topic.seek logs;
    position = λ g. g.cursor;
    dispatch_next = λ t g. (
      of_dispatched (of_outcome (Topic.dispatch_next logs t g).0),
      (Topic.dispatch_next logs t g).1,
    );
  }
