-- ===== src/Kafka/Txn/Cycle.antt =====
-- One transaction from its first partition to its end (crates/datarail-kafka/src/txn.rs).
use hu_gr_datarail.Prelude.{
  ℕ, ◌≡◌, ◌↔◌, refl, ap, Bool, true, false, arith, none, some, List, [], ◌++◌, Bytes, Bytes_eq,
  ℕ_eq, bytes_eq, bytes_eq_iff, if◌then◌else◌, Option-cases, inl, inr,
}
use hu_gr_datarail.Prelude.Dict
use hu_gr_datarail.Prelude.Dict.{Dict, get-insert, get-retain}
use hu_gr_datarail.Prelude.KeySet
use hu_gr_datarail.Kafka.Txn.{
  TopicPartition, TopicPartition_eq, TxnState, TxnCoordinator, reset_txn, no_error,
  invalid_txn_state, end_txn, end_error, fence, any_claimed, claim_all, add_partitions, add_offsets,
  stage_offsets, finish_txn, produce_check, StagedOffset,
}
use hu_gr_datarail.Kafka.Txn.Cases.{Current, add_free, offsets_free, stage_free, finish-Current}
use hu_gr_datarail.Kafka.Txn.Partitions.{contains-claim_all}
use hu_gr_datarail.Kafka.Txn.Claims.{IsConsistent, get-release_claims}

-- The state that a call leaves for its own transactional id.
get_added :
    (c : TxnCoordinator) (t : Bytes) (i e : ℕ) (ps : List TopicPartition) (st : TxnState)
    → Current c t i e st
    → any_claimed c.claimed t ps ≡ false
    → Current
        (add_partitions c t i e ps).1
        t
        i
        e
        (record st { ongoing = true; partitions = (claim_all t ps c.claimed st.partitions).1 })
get_added c t i e ps st cur a =
    rw (add_free c t i e ps st cur a)
      (rw (get-insert, (bytes_eq_iff t t).1 refl) refl, cur.1, cur.2)

get_grouped :
    (c : TxnCoordinator) (t : Bytes) (i e : ℕ) (g : Bytes) (st : TxnState)
    → Current c t i e st
    → Current (add_offsets c t i e g).1 t i e (record st { ongoing = true; group = some g })
get_grouped c t i e g st cur =
    rw (offsets_free c t i e g st cur)
      (rw (get-insert, (bytes_eq_iff t t).1 refl) refl, cur.1, cur.2)

get_staged :
    (c : TxnCoordinator) (t : Bytes) (i e : ℕ) (os : List StagedOffset) (st : TxnState)
    → Current c t i e st
    → Current
        (stage_offsets c t i e os).1
        t
        i
        e
        (record st { staged_offsets = st.staged_offsets ++ os })
get_staged c t i e os st cur =
    rw (stage_free c t i e os st cur)
      (rw (get-insert, (bytes_eq_iff t t).1 refl) refl, cur.1, cur.2)

end_open :
    (c : TxnCoordinator) (t : Bytes) (i e : ℕ) (commit : Bool) (st : TxnState)
    → Current c t i e st
    → st.ongoing ≡ true
    → end_txn c t i e commit ≡ record {
      error_code = no_error;
      committed = commit;
      partitions = st.partitions;
      group = if commit then st.group else none;
      offsets = if commit then st.staged_offsets else [];
    }
unfolding end_txn fence
end_open c t i e commit st cur o = ground (arith, cur, o)

-- The coordinator after a transaction has enrolled `ps`, named its group and staged `os`.
abbrev pub transact :
    TxnCoordinator
    → Bytes
    → ℕ
    → ℕ
    → List TopicPartition
    → Bytes
    → List StagedOffset
    → TxnCoordinator
transact c t i e ps g os =
    let c1 = (add_partitions c t i e ps).1 in
    let c2 = (add_offsets c1 t i e g).1 in (stage_offsets c2 t i e os).1

-- A transaction that starts with nothing enrolled and nothing staged, and whose partitions are free,
-- ends with exactly its partitions; with its group and its offsets if it commits, and with neither if
-- it aborts.
pub end_txn-transact :
    (c : TxnCoordinator) (t : Bytes) (i e : ℕ) (st : TxnState) (ps : List TopicPartition)
    (g : Bytes) (os : List StagedOffset) (commit : Bool)
    → Current c t i e st
    → st.partitions ≡ []
    → st.staged_offsets ≡ []
    → any_claimed c.claimed t ps ≡ false
    → let out = end_txn (transact c t i e ps g os) t i e commit in
      (out.error_code ≡ no_error)
      × (out.committed ≡ commit)
      × ((p : TopicPartition) → KeySet.contains out.partitions p ≡ KeySet.contains ps p)
      × (out.group ≡ (if commit then some g else none))
      × (out.offsets ≡ (if commit then os else []))
unfolding KeySet.contains
end_txn-transact c t i e st ps g os commit cur bare blank free =
    let c1 = (add_partitions c t i e ps).1 in
    let c2 = (add_offsets c1 t i e g).1 in
    let s1 = get_added c t i e ps st cur free in
    let s2 = get_grouped c1 t i e g _ s1 in
    let s3 = get_staged c2 t i e os _ s2 in
    rw (end_open (transact c t i e ps g os) t i e commit _ s3 refl) (
      refl,
      refl,
      λ p. ground (
        arith,
        contains-claim_all t ps c.claimed st.partitions p,
        ap (λ l. KeySet.contains l p) bare,
      ),
      refl,
      rw blank,
    )

-- After `finish_txn` by the current incarnation the transaction is closed, it holds no partition, and
-- the claims of the others are as they were.
pub finish_txn-frees :
    (c : TxnCoordinator) (t : Bytes) (i e : ℕ) (commit : Bool) (st : TxnState)
    → Current c t i e st
    → (end_txn (finish_txn c t i e) t i e commit ≡ end_error invalid_txn_state commit)
      × ((p : TopicPartition) (holder : Bytes)
          → Dict.get (finish_txn c t i e).claimed p ≡ some holder
            ↔ ((Dict.get c.claimed p ≡ some holder) × (bytes_eq holder t ≡ false)))
unfolding end_txn fence
finish_txn-frees c t i e commit st cur = rw (finish-Current c t i e st cur) (
  ground (arith, get-insert c.txns t t (reset_txn st), bytes_eq_iff t t, cur),
  λ p holder. get-release_claims t c.claimed p holder,
)

-- In a consistent coordinator a batch passes the fence only if it comes from the current incarnation
-- of an open transaction that holds its partition.
pub produce_check-claimed :
    (c : TxnCoordinator) (i e : ℕ) (topic : Bytes) (partition : ℕ)
    → IsConsistent c
    → produce_check c i e topic partition ≡ no_error
    → (t : Bytes) × (st : TxnState) × Current c t i e st
      × (st.ongoing ≡ true)
      × (Dict.get c.claimed (topic, partition) ≡ some t)
unfolding produce_check
produce_check-claimed c i e topic partition h ok = elim (Option-cases (Dict.get c.by_producer i)) [
  | inl none_ ↦ absurd (ground (arith, ok, none_))
  | inr (t, gt) ↦ elim (Option-cases (Dict.get c.txns t)) [
    | inl g ↦ absurd (ground (arith, ok, gt, g))
    | inr (st, g) ↦ (
      t,
      st,
      (g, ground (arith, ok, gt, g), ground (arith, ok, gt, g)),
      ground (arith, ok, gt, g),
      (h.enrolled t st (topic, partition) g (ground (arith, ok, gt, g))).0,
    )
  ]
]
