-- ===== src/Kafka/Txn/Cases.antt =====
-- The branches of the methods of crates/datarail-kafka/src/txn.rs, each with what it returns.
use hu_gr_datarail.Prelude.{
  ℕ, ◌≡◌, ◌≢◌, ◌⊎◌, ◌∙◌, Bool, true, false, not, arith, none, some, List, ◌++◌, Bytes, Bytes_eq,
  ℕ_eq, nat_eq, if◌then◌else◌, Bool-cases, Option-cases, inl, inr,
}
use hu_gr_datarail.Prelude.Dict
use hu_gr_datarail.Prelude.Dict.{Dict}
use hu_gr_datarail.Kafka.Txn.{
  TopicPartition, TopicPartition_eq, TxnState, TxnCoordinator, new_txn, reset_txn, release_claims,
  bump_epoch, init_producer_id, is_current, fence, any_claimed, claim_all, add_partitions,
  add_offsets, stage_offsets, finish_txn, StagedOffset, no_error, concurrent_transactions,
  invalid_producer_epoch, end_txn, end_error, next_id,
}

-- The call answers an error code and changes nothing.
abbrev pub Refused : TxnCoordinator → ℕ × TxnCoordinator → Type 0
Refused c r = (r.1 ≡ c) × (r.0 ≢ no_error)

-- `t` has the state `st`, and the request comes from its current incarnation.
abbrev pub Current : TxnCoordinator → Bytes → ℕ → ℕ → TxnState → Type 0
Current c t i e st = (Dict.get c.txns t ≡ some st) × (st.producer_id ≡ i) × (st.epoch ≡ e)

module _ (c : TxnCoordinator) (t : Bytes) where
  abbrev pub started : TxnCoordinator
  started = record c {
    txns = Dict.insert c.txns t (new_txn c.next_producer_id);
    by_producer = Dict.insert c.by_producer c.next_producer_id t;
    next_producer_id = next_id c.next_producer_id;
  }

  abbrev pub bumped : TxnState → TxnCoordinator
  bumped st = record {
    txns = Dict.insert c.txns t (bump_epoch c st).0;
    claimed = release_claims t c.claimed;
    by_producer = Dict.insert c.by_producer (bump_epoch c st).0.producer_id t;
    next_producer_id = (bump_epoch c st).1;
  }

  pub init_none :
      Dict.get c.txns t ≡ none → init_producer_id c t ≡ ((c.next_producer_id, 0), started)
  unfolding init_producer_id
  init_none g = ground (arith, g)

  pub init_some :
      (st : TxnState)
      → Dict.get c.txns t ≡ some st
      → init_producer_id c t
        ≡ (((bump_epoch c st).0.producer_id, (bump_epoch c st).0.epoch), bumped st)
  unfolding init_producer_id
  init_some st g = rw (g, init_producer_id)

  -- A method that works on the state of `t` after the fence.
  abbrev pub after_fence : ℕ → ℕ → (TxnState → ℕ × TxnCoordinator) → ℕ × TxnCoordinator
  after_fence i e body = elim (Dict.get c.txns t) [
    | none ↦ (47, c)
    | some st ↦ if not (nat_eq (fence st i e) 0) then (fence st i e, c) else body st
  ]

  fence_cases :
      (i e : ℕ) (body : TxnState → ℕ × TxnCoordinator)
      → Refused c (after_fence i e body)
        ⊎ ((st : TxnState) × Current c t i e st × (after_fence i e body ≡ body st))
  unfolding fence
  fence_cases i e body = elim (Option-cases (Dict.get c.txns t)) [
    | inl g ↦ inl (ground (arith, g))
    | inr (st, g) ↦ elim (Bool-cases (is_current st i e)) [
      | inl y ↦ inr (st, (g, ground (arith, y), ground (arith, y)), ground (arith, g, y))
      | inr n ↦ inl (ground (arith, g, n))
    ]
  ]

  -- No state of `t` is of the incarnation `(i, e)`.
  abbrev pub Stale : ℕ → ℕ → Type 0
  Stale i e = (st : TxnState) → Dict.get c.txns t ≡ some st → is_current st i e ≡ false

  fence_refuses :
      (i e : ℕ) (body : TxnState → ℕ × TxnCoordinator) → Stale i e → after_fence i e body ≡ (47, c)
  unfolding fence
  fence_refuses i e body stale = elim (Option-cases (Dict.get c.txns t)) [
    | inl g ↦ ground (arith, g)
    | inr (st, g) ↦ ground (arith, g, stale st g)
  ]

  fence_accepts :
      (i e : ℕ) (st : TxnState) (body : TxnState → ℕ × TxnCoordinator)
      → Current c t i e st
      → after_fence i e body ≡ body st
  unfolding fence
  fence_accepts i e st body cur = ground (arith, cur)

  abbrev pub added : TxnState → List TopicPartition → TxnCoordinator
  added st ps = record c {
    txns =
        Dict.insert c.txns t
          (record st { ongoing = true; partitions = (claim_all t ps c.claimed st.partitions).1 });
    claimed = (claim_all t ps c.claimed st.partitions).0;
  }

  pub add_cases :
      (i e : ℕ) (ps : List TopicPartition)
      → Refused c (add_partitions c t i e ps)
        ⊎ ((st : TxnState) × Current c t i e st
            × (any_claimed c.claimed t ps ≡ false)
            × (add_partitions c t i e ps ≡ (no_error, added st ps)))
  unfolding add_partitions
  add_cases i e ps = elim (fence_cases i e body) [
    | inl r ↦ inl r
    | inr (st, cur, eq) ↦ elim (Bool-cases (any_claimed c.claimed t ps)) [
      | inl a ↦ inl (ground (arith, eq, a))
      | inr a ↦ inr (st, cur, a, eq ∙ rw a)
    ]
  ]
    where
      body : TxnState → ℕ × TxnCoordinator
      body st =
          if any_claimed c.claimed t ps
          then (concurrent_transactions, c)
          else (no_error, added st ps)

  pub add_busy :
      (i e : ℕ) (ps : List TopicPartition) (st : TxnState)
      → Current c t i e st
      → any_claimed c.claimed t ps ≡ true
      → add_partitions c t i e ps ≡ (concurrent_transactions, c)
  unfolding add_partitions fence
  add_busy i e ps st cur a = ground (arith, cur, a)

  pub add_free :
      (i e : ℕ) (ps : List TopicPartition) (st : TxnState)
      → Current c t i e st
      → any_claimed c.claimed t ps ≡ false
      → add_partitions c t i e ps ≡ (no_error, added st ps)
  unfolding add_partitions
  add_free i e ps st cur a = fence_accepts i e st body cur ∙ rw a
    where
      body : TxnState → ℕ × TxnCoordinator
      body x =
          if any_claimed c.claimed t ps
          then (concurrent_transactions, c)
          else (no_error, added x ps)

  -- The incarnation is stale, or it is that of a state.
  pub Stale-or_Current : (i e : ℕ) → Stale i e ⊎ ((st : TxnState) × Current c t i e st)
  Stale-or_Current i e = elim (Option-cases (Dict.get c.txns t)) [
    | inl g ↦ inl (λ st q. ground (arith, g, q))
    | inr (st, g) ↦ elim (Bool-cases (is_current st i e)) [
      | inl y ↦ inr (st, (g, ground (arith, y), ground (arith, y)))
      | inr n ↦ inl (λ x q. let is : x ≡ st = ground (arith, g, q) in rw is n)
    ]
  ]

  abbrev pub grouped : TxnState → Bytes → TxnCoordinator
  grouped st g = record c {
    txns = Dict.insert c.txns t (record st { ongoing = true; group = some g });
  }

  pub offsets_cases :
      (i e : ℕ) (g : Bytes)
      → Refused c (add_offsets c t i e g)
        ⊎ ((st : TxnState) × Current c t i e st
            × (add_offsets c t i e g ≡ (no_error, grouped st g)))
  unfolding add_offsets
  offsets_cases i e g = fence_cases i e (λ st. (no_error, grouped st g))

  abbrev pub staged : TxnState → List StagedOffset → TxnCoordinator
  staged st os = record c {
    txns = Dict.insert c.txns t (record st { staged_offsets = st.staged_offsets ++ os });
  }

  pub stage_cases :
      (i e : ℕ) (os : List StagedOffset)
      → Refused c (stage_offsets c t i e os)
        ⊎ ((st : TxnState) × Current c t i e st
            × (stage_offsets c t i e os ≡ (no_error, staged st os)))
  unfolding stage_offsets
  stage_cases i e os = fence_cases i e (λ st. (no_error, staged st os))

  pub offsets_free :
      (i e : ℕ) (g : Bytes) (st : TxnState)
      → Current c t i e st
      → add_offsets c t i e g ≡ (no_error, grouped st g)
  unfolding add_offsets
  offsets_free i e g st cur = fence_accepts i e st (λ x. (no_error, grouped x g)) cur

  pub stage_free :
      (i e : ℕ) (os : List StagedOffset) (st : TxnState)
      → Current c t i e st
      → stage_offsets c t i e os ≡ (no_error, staged st os)
  unfolding stage_offsets
  stage_free i e os st cur = fence_accepts i e st (λ x. (no_error, staged x os)) cur

  abbrev pub finished : TxnState → TxnCoordinator
  finished st = record c {
    txns = Dict.insert c.txns t (reset_txn st);
    claimed = release_claims t c.claimed;
  }

  pub finish_cases :
      (i e : ℕ)
      → (finish_txn c t i e ≡ c)
        ⊎ ((st : TxnState) × Current c t i e st × (finish_txn c t i e ≡ finished st))
  unfolding finish_txn
  finish_cases i e = elim (Option-cases (Dict.get c.txns t)) [
    | inl g ↦ inl (ground (arith, g))
    | inr (st, g) ↦ elim (Bool-cases (is_current st i e)) [
      | inl y ↦ inr (st, (g, ground (arith, y), ground (arith, y)), ground (arith, g, y))
      | inr n ↦ inl (ground (arith, g, n))
    ]
  ]

  pub finish-Current :
      (i e : ℕ) (st : TxnState) → Current c t i e st → finish_txn c t i e ≡ finished st
  unfolding finish_txn
  finish-Current i e st cur = ground (arith, cur)

  -- What each method answers to a stale incarnation.
  module _ (i e : ℕ) (stale : Stale i e) where
    pub add_refuses :
        (ps : List TopicPartition) → add_partitions c t i e ps ≡ (invalid_producer_epoch, c)
    unfolding add_partitions
    add_refuses ps = fence_refuses i e _ stale

    pub offsets_refuses : (g : Bytes) → add_offsets c t i e g ≡ (invalid_producer_epoch, c)
    unfolding add_offsets
    offsets_refuses g = fence_refuses i e _ stale

    pub stage_refuses :
        (os : List StagedOffset) → stage_offsets c t i e os ≡ (invalid_producer_epoch, c)
    unfolding stage_offsets
    stage_refuses os = fence_refuses i e _ stale

    pub end_refuses :
        (commit : Bool) → end_txn c t i e commit ≡ end_error invalid_producer_epoch commit
    unfolding end_txn fence
    end_refuses commit = elim (Option-cases (Dict.get c.txns t)) [
      | inl g ↦ ground (arith, g)
      | inr (st, g) ↦ ground (arith, g, stale st g)
    ]

    pub finish_refuses : finish_txn c t i e ≡ c
    unfolding finish_txn
    finish_refuses = elim (Option-cases (Dict.get c.txns t)) [
      | inl g ↦ ground (arith, g)
      | inr (st, g) ↦ ground (arith, g, stale st g)
    ]
