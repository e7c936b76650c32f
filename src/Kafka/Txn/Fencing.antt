-- ===== src/Kafka/Txn/Fencing.antt =====
-- Epoch fencing in crates/datarail-kafka/src/txn.rs: a producer whose transactional id was initialised
-- again is shut out for good.
use hu_gr_datarail.Prelude.{
  ℕ, ◌+◌, ◌≡◌, ap, Bool, arith, some, List, [], ◌∷◌, Bytes, Bytes_eq, ℕ_eq, bytes_eq, bytes_eq_iff,
  if◌then◌else◌, Bool-cases, Option-cases, inl, inr, length, suc, ◌≤◌, ◌<◌,
}
use hu_gr_datarail.Prelude.Dict
use hu_gr_datarail.Prelude.Dict.{Dict, get-insert, get-retain}
use hu_gr_datarail.Kafka.Txn.{
  TopicPartition, TopicPartition_eq, TxnState, TxnCoordinator, new_coordinator, end_txn, end_error,
  invalid_producer_epoch, bump_epoch, init_producer_id, add_partitions, add_offsets, stage_offsets,
  finish_txn, produce_check, Call, init, step, steps, StagedOffset,
}
use hu_gr_datarail.Kafka.Txn.Cases.{
  init_some, Stale, add_refuses, offsets_refuses, stage_refuses, end_refuses, finish_refuses,
}
use hu_gr_datarail.Kafka.Txn.Ids.{
  IsAllocated, IsFenced, replaced-IsAllocated, replaced-IsFenced, step-Effect, u64_max,
  bump_epoch_cases,
}

step-IsAllocated :
    (c : TxnCoordinator) (x : Call)
    → IsAllocated c
    → c.next_producer_id < u64_max
    → IsAllocated (step c x) × ((step c x).next_producer_id ≤ suc c.next_producer_id)
step-IsAllocated c x h n = elim (step-Effect c x h n) [
  | inl e ↦ rw e (h, omega arith)
  | inr r ↦
      (replaced-IsAllocated c (step c x) r.id r.state r.txns r.grows r.fits r.apart h, r.steady)
]

step-IsFenced :
    (c : TxnCoordinator) (x : Call) (i e : ℕ)
    → c.next_producer_id < u64_max
    → IsFenced i e c
    → IsFenced i e (step c x) × ((step c x).next_producer_id ≤ suc c.next_producer_id)
step-IsFenced c x i e n f = elim (step-Effect c x f.allocated n) [
  | inl q ↦ rw q (f, omega arith)
  | inr r ↦ (
    replaced-IsFenced c (step c x) r.id r.state r.txns r.grows r.fits r.apart i e (r.later i e f) f,
    r.steady,
  )
]

steps-IsAllocated :
    (c : TxnCoordinator) (xs : List Call)
    → IsAllocated c
    → c.next_producer_id + length xs ≤ u64_max
    → IsAllocated (steps c xs) × ((steps c xs).next_producer_id ≤ c.next_producer_id + length xs)
unfolding steps
steps-IsAllocated c [] h n = (h, omega arith)
steps-IsAllocated c (x ∷ xs) h n =
    let (h', m) = step-IsAllocated c x h (omega arith) in
    let (rest, k) = steps-IsAllocated (step c x) xs h' (omega arith) in (rest, omega arith)

steps-IsFenced :
    (c : TxnCoordinator) (xs : List Call) (i e : ℕ)
    → IsFenced i e c
    → c.next_producer_id + length xs ≤ u64_max
    → IsFenced i e (steps c xs)
unfolding steps
steps-IsFenced c [] i e f n = f
steps-IsFenced c (x ∷ xs) i e f n =
    let (f', m) = step-IsFenced c x i e (omega arith) f in
    steps-IsFenced (step c x) xs i e f' (omega arith)

pub new_coordinator-IsAllocated : (first : ℕ) → IsAllocated (new_coordinator first)
unfolding Dict.get
new_coordinator-IsAllocated first = record { known = λ t st g. cc; unique = λ t u st su g gu e. cc }

init-IsAllocated :
    (c : TxnCoordinator) (t : Bytes)
    → IsAllocated c
    → c.next_producer_id < u64_max
    → IsAllocated (init_producer_id c t).1
      × ((init_producer_id c t).1.next_producer_id ≤ suc c.next_producer_id)
unfolding step
init-IsAllocated c t h n = step-IsAllocated c (init t) h n

-- A second `init_producer_id` ends the incarnation that the id had.
init-IsFenced :
    (c : TxnCoordinator) (t : Bytes) (st : TxnState)
    → IsAllocated c
    → c.next_producer_id < u64_max
    → Dict.get c.txns t ≡ some st
    → IsFenced st.producer_id st.epoch (init_producer_id c t).1
init-IsFenced c t st h n g = record {
  allocated = after.0;
  past = omega (arith, (h.known t st g).0, raised);
  newer = λ u x gx p. elim (Bool-cases (bytes_eq t u)) [
    | inl y ↦
        let is : x ≡ (bump_epoch c st).0 = ground (arith, there u, gx, y) in
        elim (bump_epoch_cases c st (h.known t st g).1 n) [
          | inl (same, epoch, _, _) ↦ ground (arith, epoch, ap (λ z. z.epoch) is)
          | inr (fresh, _, _) ↦
              absurd (
                omega
                  (arith, (h.known t st g).0, fresh, p, ap (λ (z : TxnState). z.producer_id) is))
        ]
    | inr d ↦
        let was : Dict.get c.txns u ≡ some x = ground (arith, there u, gx, d) in
        let u_is : u ≡ t = h.unique u t x st was g p in ground (arith, bytes_eq_iff t u, u_is, d)
  ];
}
  where
    after :
        IsAllocated (init_producer_id c t).1
        × ((init_producer_id c t).1.next_producer_id ≤ suc c.next_producer_id)
    after = init-IsAllocated c t h n

    raised : c.next_producer_id ≤ (init_producer_id c t).1.next_producer_id
    raised = rw (init_some c t st g) (elim (bump_epoch_cases c st (h.known t st g).1 n) [
      | inl (_, _, _, next) ↦ omega arith
      | inr (_, _, next) ↦ omega arith
    ])

    there :
        (u : Bytes)
        → Dict.get (init_producer_id c t).1.txns u
          ≡ (if bytes_eq t u then some (bump_epoch c st).0 else Dict.get c.txns u)
    there u = rw (init_some c t st g) (get-insert c.txns t u (bump_epoch c st).0)

-- Every method answers the incarnation `(i, e)` with INVALID_PRODUCER_EPOCH, under every
-- transactional id, and changes nothing.
pub record IsShutOut (i e : ℕ) (c : TxnCoordinator) : Type 0 where
  pub produce :
      (topic : Bytes) (partition : ℕ) → produce_check c i e topic partition ≡ invalid_producer_epoch
  pub add :
      (u : Bytes) (ps : List TopicPartition)
      → add_partitions c u i e ps ≡ (invalid_producer_epoch, c)
  pub offsets : (u g : Bytes) → add_offsets c u i e g ≡ (invalid_producer_epoch, c)
  pub stage :
      (u : Bytes) (os : List StagedOffset) → stage_offsets c u i e os ≡ (invalid_producer_epoch, c)
  pub ends :
      (u : Bytes) (commit : Bool) → end_txn c u i e commit ≡ end_error invalid_producer_epoch commit
  pub finish : (u : Bytes) → finish_txn c u i e ≡ c

produce_check-Stale :
    (c : TxnCoordinator) (i e : ℕ) (topic : Bytes) (partition : ℕ)
    → ((u : Bytes) → Stale c u i e)
    → produce_check c i e topic partition ≡ invalid_producer_epoch
unfolding produce_check
produce_check-Stale c i e topic partition stale = elim (Option-cases (Dict.get c.by_producer i)) [
  | inl none_ ↦ ground (arith, none_)
  | inr (u, gu) ↦ elim (Option-cases (Dict.get c.txns u)) [
    | inl g ↦ ground (arith, gu, g)
    | inr (st, g) ↦ ground (arith, gu, g, stale u st g)
  ]
]

fenced-IsShutOut : (c : TxnCoordinator) (i e : ℕ) → IsFenced i e c → IsShutOut i e c
fenced-IsShutOut c i e f = record {
  produce = λ topic partition. produce_check-Stale c i e topic partition stale;
  add = λ u ps. add_refuses c u i e (stale u) ps;
  offsets = λ u g. offsets_refuses c u i e (stale u) g;
  stage = λ u os. stage_refuses c u i e (stale u) os;
  ends = λ u commit. end_refuses c u i e (stale u) commit;
  finish = λ u. finish_refuses c u i e (stale u);
}
  where
    stale : (u : Bytes) → Stale c u i e
    stale u st g = ground (arith, f.newer u st g)

-- Once a transactional id has been initialised again, its earlier incarnation is shut out whatever
-- calls follow, from any producer and in any order, while the allocator of ids does not wrap.
pub zombie-IsShutOut :
    (first : ℕ) (before after : List Call) (t : Bytes) (st : TxnState)
    → first + length before + 1 + length after ≤ u64_max
    → Dict.get (steps (new_coordinator first) before).txns t ≡ some st
    → IsShutOut st.producer_id st.epoch
        (steps (init_producer_id (steps (new_coordinator first) before) t).1 after)
zombie-IsShutOut first before after t st n g =
    let c = steps (new_coordinator first) before in
    let (h, m) =
      steps-IsAllocated (new_coordinator first) before (new_coordinator-IsAllocated first)
        (omega arith) in
    let f = init-IsFenced c t st h (omega arith) g in
    let (_, k) = init-IsAllocated c t h (omega arith) in
    fenced-IsShutOut _ st.producer_id st.epoch
      (steps-IsFenced (init_producer_id c t).1 after st.producer_id st.epoch f (omega arith))
