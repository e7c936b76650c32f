-- ===== src/Kafka/Txn/Outcome.antt =====
-- What the methods of crates/datarail-kafka/src/txn.rs return, branch by branch, and how a transaction
-- ends.
use hu_gr_datarail.Prelude.{
  ℕ, ◌≡◌, ◌∙◌, refl, ap, Bool, true, false, arith, some, List, [], ◌∷◌, Bytes, Bytes_eq, ℕ_eq,
  bytes_eq, if◌then◌else◌, Bool-cases, Option-cases, inl, inr, All, ◌⊎◌,
}
use hu_gr_datarail.Prelude.Dict
use hu_gr_datarail.Prelude.Dict.{Dict, get-insert, get-retain}
use hu_gr_datarail.Prelude.KeySet
use hu_gr_datarail.Kafka.Txn.{
  TopicPartition, TopicPartition_eq, TxnState, TxnCoordinator, no_error, concurrent_transactions,
  end_txn, invalid_producer_epoch, init_producer_id, any_claimed, add_partitions, add_offsets,
  stage_offsets, finish_txn, Call, init, add, offsets, stage, finish, step, steps, StagedOffset,
}
use hu_gr_datarail.Kafka.Txn.Cases.{
  init_none, init_some, Current, Stale, Stale-or_Current, add_busy, add_free, add_refuses,
  add_cases, offsets_cases, stage_cases, finish_cases,
}
use hu_gr_datarail.Kafka.Txn.Partitions.{get-claim_all, any_claimed-false, any_claimed-true}

-- The three answers of `add_partitions`.
abbrev pub StaleAnswer : TxnCoordinator → Bytes → ℕ → ℕ → ℕ × TxnCoordinator → Type 0
StaleAnswer c t i e r = Stale c t i e × (r ≡ (invalid_producer_epoch, c))

abbrev pub BusyAnswer :
    TxnCoordinator → Bytes → ℕ → ℕ → List TopicPartition → ℕ × TxnCoordinator → Type 0
BusyAnswer c t i e ps r =
    ((st : TxnState) × Current c t i e st)
    × ((p : TopicPartition) × (holder : Bytes) × (KeySet.contains ps p ≡ true)
        × (Dict.get c.claimed p ≡ some holder)
        × (bytes_eq holder t ≡ false))
    × (r ≡ (concurrent_transactions, c))

abbrev pub ClaimedAnswer :
    TxnCoordinator → Bytes → ℕ → ℕ → List TopicPartition → ℕ × TxnCoordinator → Type 0
ClaimedAnswer c t i e ps r =
    ((st : TxnState) × Current c t i e st)
    × ((p : TopicPartition) (holder : Bytes)
        → KeySet.contains ps p ≡ true
        → Dict.get c.claimed p ≡ some holder
        → holder ≡ t)
    × (r.0 ≡ no_error)
    × ((p : TopicPartition)
        → Dict.get r.1.claimed p ≡ (if KeySet.contains ps p then some t else Dict.get c.claimed p))

-- `add_partitions` answers INVALID_PRODUCER_EPOCH to a stale incarnation; CONCURRENT_TRANSACTIONS to
-- the current one when another transaction holds a listed partition, both times changing nothing;
-- otherwise no listed partition is held by another, all of them are claimed, and no other claim changes.
pub add_partitions_answers :
    (c : TxnCoordinator) (t : Bytes) (i e : ℕ) (ps : List TopicPartition)
    → StaleAnswer c t i e (add_partitions c t i e ps)
      ⊎ BusyAnswer c t i e ps (add_partitions c t i e ps)
      ⊎ ClaimedAnswer c t i e ps (add_partitions c t i e ps)
add_partitions_answers c t i e ps = elim (Stale-or_Current c t i e) [
  | inl stale ↦ inl (stale, add_refuses c t i e stale ps)
  | inr (st, cur) ↦ elim (Bool-cases (any_claimed c.claimed t ps)) [
    | inl a ↦ inr (inl ((st, cur), any_claimed-true t ps c.claimed a, add_busy c t i e ps st cur a))
    | inr a ↦ inr (
        inr (
          (st, cur),
          λ p holder m q. any_claimed-false t ps c.claimed p holder a m q,
          ap (λ r. r.0) (add_free c t i e ps st cur a),
          λ p. rw (add_free c t i e ps st cur a) (get-claim_all t ps c.claimed st.partitions p),
        ))
  ]
]

-- The call is made under the transactional id `t`.
abbrev pub is_for : Bytes → Call → Bool
is_for t (init u) = bytes_eq u t
is_for t (add u _ _ _) = bytes_eq u t
is_for t (offsets u _ _ _) = bytes_eq u t
is_for t (stage u _ _ _) = bytes_eq u t
is_for t (finish u _ _) = bytes_eq u t

abbrev pub NotFor : Bytes → List Call → Type 0
NotFor t = All (λ x. is_for t x ≡ false)

-- A call under another id leaves the state of `t` as it was.
module _ (c : TxnCoordinator) (t u : Bytes) (other : bytes_eq u t ≡ false) where
  init_elsewhere : Dict.get (init_producer_id c u).1.txns t ≡ Dict.get c.txns t
  init_elsewhere = elim (Option-cases (Dict.get c.txns u)) [
    | inl g ↦ rw (init_none c u g) (rw (get-insert, other))
    | inr (st, g) ↦ rw (init_some c u st g) (rw (get-insert, other))
  ]

  add_elsewhere :
      (i e : ℕ) (ps : List TopicPartition)
      → Dict.get (add_partitions c u i e ps).1.txns t ≡ Dict.get c.txns t
  add_elsewhere i e ps = elim (add_cases c u i e ps) [
    | inl r ↦ rw r.0
    | inr (st, cur, free, eq) ↦ rw eq (rw (get-insert, other))
  ]

  offsets_elsewhere :
      (i e : ℕ) (g : Bytes) → Dict.get (add_offsets c u i e g).1.txns t ≡ Dict.get c.txns t
  offsets_elsewhere i e g = elim (offsets_cases c u i e g) [
    | inl r ↦ rw r.0
    | inr (st, cur, eq) ↦ rw eq (rw (get-insert, other))
  ]

  stage_elsewhere :
      (i e : ℕ) (os : List StagedOffset)
      → Dict.get (stage_offsets c u i e os).1.txns t ≡ Dict.get c.txns t
  stage_elsewhere i e os = elim (stage_cases c u i e os) [
    | inl r ↦ rw r.0
    | inr (st, cur, eq) ↦ rw eq (rw (get-insert, other))
  ]

  finish_elsewhere : (i e : ℕ) → Dict.get (finish_txn c u i e).txns t ≡ Dict.get c.txns t
  finish_elsewhere i e = elim (finish_cases c u i e) [
    | inl r ↦ rw r
    | inr (st, cur, eq) ↦ rw eq (rw (get-insert, other))
  ]

get-step :
    (c : TxnCoordinator) (t : Bytes) (x : Call)
    → is_for t x ≡ false
    → Dict.get (step c x).txns t ≡ Dict.get c.txns t
unfolding step
get-step c t (init u) n = init_elsewhere c t u n
get-step c t (add u i e ps) n = add_elsewhere c t u n i e ps
get-step c t (offsets u i e g) n = offsets_elsewhere c t u n i e g
get-step c t (stage u i e os) n = stage_elsewhere c t u n i e os
get-step c t (finish u i e) n = finish_elsewhere c t u n i e

get-steps :
    (c : TxnCoordinator) (t : Bytes) (xs : List Call)
    → NotFor t xs
    → Dict.get (steps c xs).txns t ≡ Dict.get c.txns t
unfolding steps
get-steps c t [] n = refl
get-steps c t (x ∷ xs) n = get-steps (step c x) t xs n.1 ∙ get-step c t x n.0

end_txn-get :
    (c d : TxnCoordinator) (t : Bytes) (i e : ℕ) (commit : Bool)
    → Dict.get d.txns t ≡ Dict.get c.txns t
    → end_txn d t i e commit ≡ end_txn c t i e commit
unfolding end_txn
end_txn-get c d t i e commit same = ground (arith, same)

-- What calls under other ids do meanwhile does not change what `end_txn` returns to a producer: the
-- outcome, the partitions, the group and the offsets are those of its own transaction.
pub end_txn-steps :
    (c : TxnCoordinator) (t : Bytes) (i e : ℕ) (commit : Bool) (xs : List Call)
    → NotFor t xs
    → end_txn (steps c xs) t i e commit ≡ end_txn c t i e commit
end_txn-steps c t i e commit xs n = end_txn-get c (steps c xs) t i e commit (get-steps c t xs n)
