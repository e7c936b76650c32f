-- ===== src/Kafka/Txn/Claims.antt =====
-- The partition claims of crates/datarail-kafka/src/txn.rs: who may write where.
use hu_gr_datarail.Prelude.{
  ℕ, ◌≡◌, ◌↔◌, refl, ap, true, false, not, arith, none, some, List, [], ◌∷◌, Bytes, Bytes_eq, ℕ_eq,
  bytes_eq, bytes_eq_iff, Bool-cases, Option-cases, inl, inr,
}
use hu_gr_datarail.Prelude.Dict
use hu_gr_datarail.Prelude.Dict.{Dict, get-insert, get-retain}
use hu_gr_datarail.Prelude.KeySet
use hu_gr_datarail.Kafka.Txn.{
  TopicPartition, TopicPartition_eq, TxnState, TxnCoordinator, new_coordinator, reset_txn,
  release_claims, bump_epoch, init_producer_id, any_claimed, claim_all, add_partitions, add_offsets,
  stage_offsets, finish_txn, Call, init, add, offsets, stage, finish, step, steps, StagedOffset,
}
use hu_gr_datarail.Kafka.Txn.Cases.{
  init_none, init_some, add_cases, offsets_cases, stage_cases, finish_cases,
}
use hu_gr_datarail.Kafka.Txn.Partitions.{get-claim_all, contains-claim_all, any_claimed-false}

-- Every enrolled partition is claimed by its transaction, which is open, and every claim is that of
-- a transaction that enrolled the partition.
pub record IsConsistent (c : TxnCoordinator) : Type 0 where
  pub enrolled :
      (t : Bytes) (st : TxnState) (p : TopicPartition)
      → Dict.get c.txns t ≡ some st
      → KeySet.contains st.partitions p ≡ true
      → (Dict.get c.claimed p ≡ some t) × (st.ongoing ≡ true)
  pub held :
      (p : TopicPartition) (t : Bytes)
      → Dict.get c.claimed p ≡ some t
      → (st : TxnState) × (Dict.get c.txns t ≡ some st) × (KeySet.contains st.partitions p ≡ true)

pub get-release_claims :
    (t : Bytes) (claimed : Dict TopicPartition Bytes) (p : TopicPartition) (holder : Bytes)
    → Dict.get (release_claims t claimed) p ≡ some holder
      ↔ ((Dict.get claimed p ≡ some holder) × (bytes_eq holder t ≡ false))
get-release_claims t claimed p holder = (
  λ e. ground (arith, get-retain (λ _ h. not (bytes_eq h t)) claimed p, e),
  λ e. ground (arith, get-retain (λ _ h. not (bytes_eq h t)) claimed p, e.0, e.1),
)

-- The state of a transaction is replaced by one that has enrolled nothing, and its claims go.
module _ (c : TxnCoordinator) (t : Bytes) (st' : TxnState) (n : ℕ) (ids : Dict ℕ Bytes)
    (bare : st'.partitions ≡ []) (h : IsConsistent c) where
  abbrev emptied : TxnCoordinator
  emptied = record {
    txns = Dict.insert c.txns t st';
    claimed = release_claims t c.claimed;
    by_producer = ids;
    next_producer_id = n;
  }

  emptied-IsConsistent : IsConsistent emptied
  unfolding KeySet.contains
  emptied-IsConsistent = record {
    enrolled = λ u st p g m. elim (Bool-cases (bytes_eq t u)) [
      | inl e ↦
          let is : st ≡ st' = ground (arith, get-insert c.txns t u st', g, e) in
          ground (
            arith,
            ap (λ y. KeySet.contains y.partitions p) is,
            ap (λ l. KeySet.contains l p) bare,
            m,
          )
      | inr d ↦
          let was : Dict.get c.txns u ≡ some st = ground (arith, get-insert c.txns t u st', g, d) in
          let (claim, open_) = h.enrolled u st p was m in
          (
            (get-release_claims t c.claimed p u).1
                (claim, ground (arith, d, bytes_eq_iff t u, bytes_eq_iff u t)),
            open_,
          )
    ];
    held = λ p u g.
        let (claim, d) = (get-release_claims t c.claimed p u).0 g in
        let (st, e, m) = h.held p u claim in
        (
          st,
          ground (arith, get-insert c.txns t u st', e, bytes_eq_iff t u, bytes_eq_iff u t, d),
          m,
        );
  }

-- The state of a transaction is replaced by one that has enrolled the same partitions.
module _ (c : TxnCoordinator) (t : Bytes) (st st' : TxnState) (g : Dict.get c.txns t ≡ some st)
    (same : st'.partitions ≡ st.partitions) (opened : st.ongoing ≡ true → st'.ongoing ≡ true)
    (h : IsConsistent c) where
  kept-IsConsistent : IsConsistent (record c { txns = Dict.insert c.txns t st' })
  kept-IsConsistent = record {
    enrolled = λ u x p gx m. elim (Bool-cases (bytes_eq t u)) [
      | inl e ↦
          let is : x ≡ st' = ground (arith, get-insert c.txns t u st', gx, e) in
          let old = h.enrolled t st p g (
            ground (
              arith,
              ap (λ y. KeySet.contains y.partitions p) is,
              ap (λ l. KeySet.contains l p) same,
              m,
            )) in
          ground (arith, old, opened, is, bytes_eq_iff t u, e, ap (λ y. y.ongoing) is)
      | inr d ↦ h.enrolled u x p (ground (arith, get-insert c.txns t u st', gx, d)) m
    ];
    held = λ p u gp. elim (Bool-cases (bytes_eq t u)) [
      | inl e ↦
          let (x, ex, m) = h.held p u gp in
          let is : x ≡ st = ground (arith, g, ex, bytes_eq_iff t u, e) in
          (
            st',
            ground (arith, get-insert c.txns t u st', e),
            ground (
              arith,
              ap (λ y. KeySet.contains y.partitions p) is,
              ap (λ l. KeySet.contains l p) same,
              m,
            ),
          )
      | inr d ↦
          let (x, e, m) = h.held p u gp in (x, ground (arith, get-insert c.txns t u st', e, d), m)
    ];
  }

-- `add_partitions` claims what no other transaction holds.
module _ (c : TxnCoordinator) (t : Bytes) (st : TxnState) (ps : List TopicPartition)
    (g : Dict.get c.txns t ≡ some st) (free : any_claimed c.claimed t ps ≡ false)
    (h : IsConsistent c) where
  abbrev claims : Dict TopicPartition Bytes
  claims = (claim_all t ps c.claimed st.partitions).0

  abbrev enrolled_all : TxnState
  enrolled_all = record st {
    ongoing = true;
    partitions = (claim_all t ps c.claimed st.partitions).1;
  }

  added-IsConsistent :
      IsConsistent (record c { txns = Dict.insert c.txns t enrolled_all; claimed = claims })
  added-IsConsistent = record {
    enrolled = λ u x p gx m. elim (Bool-cases (bytes_eq t u)) [
      | inl e ↦
          let is : x ≡ enrolled_all = ground (arith, get-insert c.txns t u enrolled_all, gx, e) in
          let old = h.enrolled t st p g in
          ground (
            arith,
            old,
            bytes_eq_iff t u,
            e,
            get-claim_all t ps c.claimed st.partitions p,
            contains-claim_all t ps c.claimed st.partitions p,
            ap (λ y. KeySet.contains y.partitions p) is,
            ap (λ y. y.ongoing) is,
            m,
          )
      | inr d ↦
          let (claim, open_) =
            h.enrolled u x p (ground (arith, get-insert c.txns t u enrolled_all, gx, d)) m in
          (
            ground (
              arith,
              get-claim_all t ps c.claimed st.partitions p,
              any_claimed-false t ps c.claimed p u free,
              claim,
              bytes_eq_iff t u,
              d,
            ),
            open_,
          )
    ];
    held = λ p u gp. elim (Bool-cases (bytes_eq t u)) [
      | inl e ↦ (
        enrolled_all,
        ground (arith, get-insert c.txns t u enrolled_all, e),
        elim (Bool-cases (KeySet.contains ps p)) [
          | inl now ↦ ground (arith, contains-claim_all t ps c.claimed st.partitions p, now)
          | inr before ↦
              let (x, ex, m) =
                h.held p u
                  (ground (arith, get-claim_all t ps c.claimed st.partitions p, before, gp)) in
              let is : x ≡ st = ground (arith, g, ex, bytes_eq_iff t u, e) in
              ground (
                arith,
                contains-claim_all t ps c.claimed st.partitions p,
                ap (λ y. KeySet.contains y.partitions p) is,
                m,
              )
        ],
      )
      | inr d ↦
          let (x, ex, m) = h.held p u (
            ground
              (arith, get-claim_all t ps c.claimed st.partitions p, gp, bytes_eq_iff t u, d)) in
          (x, ground (arith, get-insert c.txns t u enrolled_all, ex, d), m)
    ];
  }

bump_epoch_bare : (c : TxnCoordinator) (st : TxnState) → (bump_epoch c st).0.partitions ≡ []
unfolding bump_epoch
bump_epoch_bare c st = ground arith

-- A transactional id that had no state has no claims.
started-IsConsistent :
    (c : TxnCoordinator) (t : Bytes) (st' : TxnState) (n : ℕ) (ids : Dict ℕ Bytes)
    → st'.partitions ≡ []
    → Dict.get c.txns t ≡ none
    → IsConsistent c
    → IsConsistent
        (record c { txns = Dict.insert c.txns t st'; by_producer = ids; next_producer_id = n })
unfolding KeySet.contains
started-IsConsistent c t st' n ids bare e h = record {
  enrolled = λ u st p g m. elim (Bool-cases (bytes_eq t u)) [
    | inl y ↦
        let is : st ≡ st' = ground (arith, get-insert c.txns t u st', g, y) in
        ground (
          arith,
          ap (λ x. KeySet.contains x.partitions p) is,
          ap (λ l. KeySet.contains l p) bare,
          m,
        )
    | inr d ↦ h.enrolled u st p (ground (arith, get-insert c.txns t u st', g, d)) m
  ];
  held = λ p u g.
      let (st, f, m) = h.held p u g in
      (st, ground (arith, get-insert c.txns t u st', e, f, bytes_eq_iff t u), m);
}

-- Every call keeps the claims and the enrolled partitions in step.
module _ (c : TxnCoordinator) (t : Bytes) (h : IsConsistent c) where
  init-IsConsistent : IsConsistent (init_producer_id c t).1
  init-IsConsistent = elim (Option-cases (Dict.get c.txns t)) [
    | inl g ↦ rw (init_none c t g) (started-IsConsistent c t _ _ _ refl g h)
    | inr (st, g) ↦
        rw (init_some c t st g) (emptied-IsConsistent c t _ _ _ (bump_epoch_bare c st) h)
  ]

  add-IsConsistent :
      (i e : ℕ) (ps : List TopicPartition) → IsConsistent (add_partitions c t i e ps).1
  add-IsConsistent i e ps = elim (add_cases c t i e ps) [
    | inl r ↦ rw r.0 h
    | inr (st, cur, free, eq) ↦ rw eq (added-IsConsistent c t st ps cur.0 free h)
  ]

  offsets-IsConsistent : (i e : ℕ) (g : Bytes) → IsConsistent (add_offsets c t i e g).1
  offsets-IsConsistent i e g = elim (offsets_cases c t i e g) [
    | inl r ↦ rw r.0 h
    | inr (st, cur, eq) ↦ rw eq (kept-IsConsistent c t st _ cur.0 refl (λ _. refl) h)
  ]

  stage-IsConsistent :
      (i e : ℕ) (os : List StagedOffset) → IsConsistent (stage_offsets c t i e os).1
  stage-IsConsistent i e os = elim (stage_cases c t i e os) [
    | inl r ↦ rw r.0 h
    | inr (st, cur, eq) ↦ rw eq (kept-IsConsistent c t st _ cur.0 refl (λ o. o) h)
  ]

  finish-IsConsistent : (i e : ℕ) → IsConsistent (finish_txn c t i e)
  finish-IsConsistent i e = elim (finish_cases c t i e) [
    | inl r ↦ rw r h
    | inr (st, cur, eq) ↦ rw eq (emptied-IsConsistent c t (reset_txn st) _ _ refl h)
  ]

pub step-IsConsistent : (c : TxnCoordinator) (x : Call) → IsConsistent c → IsConsistent (step c x)
unfolding step
step-IsConsistent c (init t) h = init-IsConsistent c t h
step-IsConsistent c (add t i e ps) h = add-IsConsistent c t h i e ps
step-IsConsistent c (offsets t i e g) h = offsets-IsConsistent c t h i e g
step-IsConsistent c (stage t i e os) h = stage-IsConsistent c t h i e os
step-IsConsistent c (finish t i e) h = finish-IsConsistent c t h i e

-- From a new coordinator, after any calls: each enrolled partition is claimed by its transaction,
-- which is open, and each claim is that of a transaction that enrolled the partition.
pub steps-IsConsistent :
    (c : TxnCoordinator) (xs : List Call) → IsConsistent c → IsConsistent (steps c xs)
unfolding steps
steps-IsConsistent c [] h = h
steps-IsConsistent c (x ∷ xs) h = steps-IsConsistent (step c x) xs (step-IsConsistent c x h)

pub new_coordinator-IsConsistent : (first : ℕ) → IsConsistent (new_coordinator first)
unfolding Dict.get
new_coordinator-IsConsistent first = record { enrolled = λ t st p g m. cc; held = λ p t g. cc }

-- After any calls to a new coordinator no partition is enrolled in two transactions.
pub one_open_txn :
    (first : ℕ) (xs : List Call) (t u : Bytes) (st su : TxnState) (p : TopicPartition)
    → Dict.get (steps (new_coordinator first) xs).txns t ≡ some st
    → Dict.get (steps (new_coordinator first) xs).txns u ≡ some su
    → KeySet.contains st.partitions p ≡ true
    → KeySet.contains su.partitions p ≡ true
    → t ≡ u
one_open_txn first xs t u st su p gt gu mt mu =
    let h = steps-IsConsistent (new_coordinator first) xs (new_coordinator-IsConsistent first) in
    let (a, _) = h.enrolled t st p gt mt in
    let (b, _) = h.enrolled u su p gu mu in ground (arith, a, b)
