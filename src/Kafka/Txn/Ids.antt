-- ===== src/Kafka/Txn/Ids.antt =====
-- Producer ids and epochs of crates/datarail-kafka/src/txn.rs: what one call does to them.
use hu_gr_datarail.Prelude.{
  ℕ, ◌-◌, ◌^◌, ◌≡◌, ◌∙◌, refl, ap, arith, some, List, Bytes, Bytes_eq, ℕ_eq, bytes_eq, bytes_eq_iff,
  nat_eq, if◌then◌else◌, Bool-cases, Option-cases, inl, inr, suc, ◌≤◌, ◌<◌, ◌⊎◌,
}
use hu_gr_datarail.Prelude.Dict
use hu_gr_datarail.Prelude.Dict.{Dict, get-insert, get-retain}
use hu_gr_datarail.Kafka.Txn.{
  TopicPartition, TopicPartition_eq, TxnState, TxnCoordinator, new_txn, i16_max, bump_epoch,
  init_producer_id, add_partitions, add_offsets, stage_offsets, finish_txn, Call, init, add,
  offsets, stage, finish, step, StagedOffset,
}
use hu_gr_datarail.Kafka.Txn.Cases.{
  init_none, init_some, add_cases, offsets_cases, stage_cases, finish_cases,
}

abbrev pub u64_max : ℕ
u64_max = 2 ^ 64 - 1

-- Ids below the allocator, one transactional id for each, and epochs that fit an i16.
pub record IsAllocated (c : TxnCoordinator) : Type 0 where
  pub known :
      (t : Bytes) (st : TxnState)
      → Dict.get c.txns t ≡ some st
      → (st.producer_id < c.next_producer_id) × (st.epoch ≤ i16_max)
  pub unique :
      (t u : Bytes) (st su : TxnState)
      → Dict.get c.txns t ≡ some st
      → Dict.get c.txns u ≡ some su
      → st.producer_id ≡ su.producer_id
      → t ≡ u

-- The incarnation `(i, e)` is over: whoever has the id `i` has a later epoch.
pub record IsFenced (i e : ℕ) (c : TxnCoordinator) : Type 0 where
  pub allocated : IsAllocated c
  pub past : i < c.next_producer_id
  pub newer :
      (t : Bytes) (st : TxnState) → Dict.get c.txns t ≡ some st → st.producer_id ≡ i → e < st.epoch

-- The state of `t` is replaced by `st'`, whose producer id no other transactional id has.
module _ (c c' : TxnCoordinator) (t : Bytes) (st' : TxnState)
    (txns : c'.txns ≡ Dict.insert c.txns t st') (grows : c.next_producer_id ≤ c'.next_producer_id)
    (fits : (st'.producer_id < c'.next_producer_id) × (st'.epoch ≤ i16_max))
    (apart : (u : Bytes) (su : TxnState)
      → Dict.get c.txns u ≡ some su
      → su.producer_id ≡ st'.producer_id
      → u ≡ t) where
  get_replaced :
      (u : Bytes) → Dict.get c'.txns u ≡ (if bytes_eq t u then some st' else Dict.get c.txns u)
  get_replaced u = rw txns (get-insert c.txns t u st')

  pub replaced-IsAllocated : IsAllocated c → IsAllocated c'
  replaced-IsAllocated h = record {
    known = λ u x g. elim (Bool-cases (bytes_eq t u)) [
      | inl y ↦
          let is : x ≡ st' = ground (arith, get_replaced u, g, y) in
          ground (arith, ap (λ z. z.producer_id) is, ap (λ z. z.epoch) is, fits)
      | inr d ↦ ground (arith, grows, h.known u x (ground (arith, get_replaced u, g, d)))
    ];
    unique = λ u v x y gx gy e. elim (Bool-cases (bytes_eq t u)) [
      | inl yu ↦ elim (Bool-cases (bytes_eq t v)) [
        | inl yv ↦ ground (arith, bytes_eq_iff t u, bytes_eq_iff t v, yu, yv)
        | inr dv ↦
            let is : x ≡ st' = ground (arith, get_replaced u, gx, yu) in
            let far =
              apart v y (ground (arith, get_replaced v, gy, dv))
                (ground (arith, ap (λ z. z.producer_id) is, e)) in
            ground (arith, far, bytes_eq_iff t u, yu)
      ]
      | inr du ↦ elim (Bool-cases (bytes_eq t v)) [
        | inl yv ↦
            let is : y ≡ st' = ground (arith, get_replaced v, gy, yv) in
            let far =
              apart u x (ground (arith, get_replaced u, gx, du))
                (ground (arith, ap (λ z. z.producer_id) is, e)) in
            ground (arith, far, bytes_eq_iff t v, yv)
        | inr dv ↦
            h.unique u v x y (ground (arith, get_replaced u, gx, du))
              (ground (arith, get_replaced v, gy, dv)) e
      ]
    ];
  }

  pub replaced-IsFenced :
      (i e : ℕ) → (st'.producer_id ≡ i → e < st'.epoch) → IsFenced i e c → IsFenced i e c'
  replaced-IsFenced i e later h = record {
    allocated = replaced-IsAllocated h.allocated;
    past = omega (arith, grows, h.past);
    newer = λ u x g p. elim (Bool-cases (bytes_eq t u)) [
      | inl y ↦
          let is : x ≡ st' = ground (arith, get_replaced u, g, y) in
          ground (arith, ap (λ z. z.producer_id) is, ap (λ z. z.epoch) is, later, p)
      | inr d ↦ h.newer u x (ground (arith, get_replaced u, g, d)) p
    ];
  }

-- What `bump_epoch` gives: the same id with the next epoch, or the allocator's next id with epoch 0.
pub bump_epoch_cases :
    (c : TxnCoordinator) (st : TxnState)
    → st.epoch ≤ i16_max
    → c.next_producer_id < u64_max
    → (((bump_epoch c st).0.producer_id ≡ st.producer_id)
        × ((bump_epoch c st).0.epoch ≡ suc st.epoch)
        × (st.epoch < i16_max)
        × ((bump_epoch c st).1 ≡ c.next_producer_id))
      ⊎ (((bump_epoch c st).0.producer_id ≡ c.next_producer_id)
          × ((bump_epoch c st).0.epoch ≡ 0)
          × ((bump_epoch c st).1 ≡ suc c.next_producer_id))
unfolding bump_epoch
bump_epoch_cases c st b n = elim (Bool-cases (nat_eq st.epoch i16_max)) [
  | inl y ↦ inr (ground (arith, y), ground (arith, y), ground (arith, y))
  | inr d ↦ inl (ground (arith, d), ground (arith, d), ground (arith, d), ground (arith, d))
]

-- A replacement that keeps the id of the transaction.
apart_same :
    (c : TxnCoordinator) (t : Bytes) (st st' : TxnState)
    → IsAllocated c
    → Dict.get c.txns t ≡ some st
    → st'.producer_id ≡ st.producer_id
    → (u : Bytes) (su : TxnState) → Dict.get c.txns u ≡ some su
    → su.producer_id ≡ st'.producer_id
    → u ≡ t
apart_same c t st st' h g same u su gu e = h.unique u t su st gu g (e ∙ same)

apart_fresh :
    (c : TxnCoordinator) (t : Bytes) (st' : TxnState)
    → IsAllocated c
    → st'.producer_id ≡ c.next_producer_id
    → (u : Bytes) (su : TxnState) → Dict.get c.txns u ≡ some su
    → su.producer_id ≡ st'.producer_id
    → u ≡ t
apart_fresh c t st' h fresh u su gu e = absurd (omega (arith, (h.known u su gu).0, fresh, e))

-- The call replaced the state of one transactional id.
pub record Replaced (c c' : TxnCoordinator) : Type 0 where
  pub id : Bytes
  pub state : TxnState
  pub txns : c'.txns ≡ Dict.insert c.txns id state
  pub grows : c.next_producer_id ≤ c'.next_producer_id
  pub steady : c'.next_producer_id ≤ suc c.next_producer_id
  pub fits : (state.producer_id < c'.next_producer_id) × (state.epoch ≤ i16_max)
  pub apart :
      (u : Bytes) (su : TxnState)
      → Dict.get c.txns u ≡ some su
      → su.producer_id ≡ state.producer_id
      → u ≡ id
  pub later : (i e : ℕ) → IsFenced i e c → state.producer_id ≡ i → e < state.epoch

abbrev pub Effect : TxnCoordinator → TxnCoordinator → Type 0
Effect c c' = (c' ≡ c) ⊎ Replaced c c'

module _ (c : TxnCoordinator) (h : IsAllocated c) (room : c.next_producer_id < u64_max)
    (t : Bytes) where
  -- The state of `t` is changed, and its incarnation is not.
  touched :
      (c' : TxnCoordinator) (st st' : TxnState)
      → Dict.get c.txns t ≡ some st
      → c'.txns ≡ Dict.insert c.txns t st'
      → c'.next_producer_id ≡ c.next_producer_id
      → st'.producer_id ≡ st.producer_id
      → st'.epoch ≡ st.epoch
      → Replaced c c'
  touched c' st st' g txns next same epoch = record {
    id = t;
    state = st';
    txns = txns;
    grows = omega arith;
    steady = omega arith;
    fits = omega (arith, h.known t st g);
    apart = apart_same c t st st' h g same;
    later = λ i e f p. omega (arith, f.newer t st g (omega arith));
  }

  init-Effect : Effect c (init_producer_id c t).1
  init-Effect = elim (Option-cases (Dict.get c.txns t)) [
    | inl g ↦ inr (
        rw (init_none c t g) (record {
          id = t;
          state = new_txn c.next_producer_id;
          txns = refl;
          grows = omega arith;
          steady = omega arith;
          fits = omega arith;
          apart = apart_fresh c t (new_txn c.next_producer_id) h refl;
          later = λ i e f p. absurd (omega (arith, f.past));
        }))
    | inr (st, g) ↦ elim (bump_epoch_cases c st (h.known t st g).1 room) [
      | inl (same, epoch, short, next) ↦ inr (
          rw (init_some c t st g) (record {
            id = t;
            state = (bump_epoch c st).0;
            txns = refl;
            grows = omega arith;
            steady = omega arith;
            fits = omega (arith, h.known t st g);
            apart = apart_same c t st (bump_epoch c st).0 h g same;
            later = λ i e f p. omega (arith, f.newer t st g (omega arith));
          }))
      | inr (fresh, epoch, next) ↦ inr (
          rw (init_some c t st g) (record {
            id = t;
            state = (bump_epoch c st).0;
            txns = refl;
            grows = omega arith;
            steady = omega arith;
            fits = omega arith;
            apart = apart_fresh c t (bump_epoch c st).0 h fresh;
            later = λ i e f p. absurd (omega (arith, f.past));
          }))
    ]
  ]

  add-Effect : (i e : ℕ) (ps : List TopicPartition) → Effect c (add_partitions c t i e ps).1
  add-Effect i e ps = elim (add_cases c t i e ps) [
    | inl r ↦ inl r.0
    | inr (st, cur, free, eq) ↦ rw eq (inr (touched _ st _ cur.0 refl refl refl refl))
  ]

  offsets-Effect : (i e : ℕ) (g : Bytes) → Effect c (add_offsets c t i e g).1
  offsets-Effect i e g = elim (offsets_cases c t i e g) [
    | inl r ↦ inl r.0
    | inr (st, cur, eq) ↦ rw eq (inr (touched _ st _ cur.0 refl refl refl refl))
  ]

  stage-Effect : (i e : ℕ) (os : List StagedOffset) → Effect c (stage_offsets c t i e os).1
  stage-Effect i e os = elim (stage_cases c t i e os) [
    | inl r ↦ inl r.0
    | inr (st, cur, eq) ↦ rw eq (inr (touched _ st _ cur.0 refl refl refl refl))
  ]

  finish-Effect : (i e : ℕ) → Effect c (finish_txn c t i e)
  finish-Effect i e = elim (finish_cases c t i e) [
    | inl r ↦ inl r
    | inr (st, cur, eq) ↦ rw eq (inr (touched _ st _ cur.0 refl refl refl refl))
  ]

pub step-Effect :
    (c : TxnCoordinator) (x : Call)
    → IsAllocated c
    → c.next_producer_id < u64_max
    → Effect c (step c x)
unfolding step
step-Effect c (init t) h n = init-Effect c h n t
step-Effect c (add t i e ps) h n = add-Effect c h n t i e ps
step-Effect c (offsets t i e g) h n = offsets-Effect c h n t i e g
step-Effect c (stage t i e os) h n = stage-Effect c h n t i e os
step-Effect c (finish t i e) h n = finish-Effect c h n t i e
