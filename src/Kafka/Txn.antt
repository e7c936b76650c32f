-- ===== src/Kafka/Txn.antt =====
-- crates/datarail-kafka/src/txn.rs: the transaction coordinator. The `Mutex` makes each method one
-- step; an i16, i32 or i64 is its bit pattern, and a `String` its bytes.
pub mod Partitions
pub mod Cases
pub mod Claims
pub mod Ids
pub mod Fencing
pub mod Outcome
pub mod Cycle
mod Runs
use hu_gr_datarail.Prelude.{
  ℕ, ◌+◌, ◌-◌, ◌%◌, ◌^◌, ◌≡◌, ◌↔◌, refl, ap, Bool, true, false, not, ◌&&◌, ◌||◌, arith, Option,
  none, some, List, [], ◌∷◌, ◌++◌, Bytes, Bytes_eq, ℕ_eq, Eq, bytes_eq, bytes_eq_iff, bytes_lt, ltb,
  nat_eq, if◌then◌else◌,
}
use hu_gr_datarail.Prelude.Dict
use hu_gr_datarail.Prelude.Dict.{Dict}
use hu_gr_datarail.Prelude.KeySet

-- `(String, i32)`, with the equality and the order of the tuple
abbrev pub TopicPartition : Type 0
TopicPartition = Bytes × ℕ

unfoldable pub tp_eq : TopicPartition → TopicPartition → Bool
tp_eq (s, p) (t, q) = bytes_eq s t && nat_eq p q

-- a signed 32-bit number as an unsigned one of the same order
abbrev pub i32_rank : ℕ → ℕ
i32_rank p = (p + 2 ^ 31) % 2 ^ 32

unfoldable pub tp_lt : TopicPartition → TopicPartition → Bool
tp_lt (s, p) (t, q) = bytes_lt s t || (bytes_eq s t && ltb (i32_rank p) (i32_rank q))

pub tp_eq_iff : (a b : TopicPartition) → (tp_eq a b ≡ true) ↔ (a ≡ b)
unfolding tp_eq
tp_eq_iff (s, p) (t, q) = ground (arith, bytes_eq_iff s t)

instance abbrev pub TopicPartition_eq : Eq TopicPartition
TopicPartition_eq = record { test = tp_eq; test_iff = tp_eq_iff }

abbrev pub no_error : ℕ
no_error = 0

abbrev pub invalid_producer_epoch : ℕ
invalid_producer_epoch = 47

abbrev pub invalid_txn_state : ℕ
invalid_txn_state = 48

abbrev pub concurrent_transactions : ℕ
concurrent_transactions = 51

pub record StagedOffset : Type 0 where
  pub topic : Bytes
  pub partition : ℕ
  pub offset : ℕ

pub record TxnState : Type 0 where
  pub producer_id : ℕ
  pub epoch : ℕ
  pub ongoing : Bool
  pub partitions : List TopicPartition
  pub group : Option Bytes
  pub staged_offsets : List StagedOffset

abbrev pub new_txn : ℕ → TxnState
new_txn producer_id = record {
  producer_id = producer_id;
  epoch = 0;
  ongoing = false;
  partitions = [];
  group = none;
  staged_offsets = [];
}

abbrev pub reset_txn : TxnState → TxnState
reset_txn st = record st { ongoing = false; partitions = []; group = none; staged_offsets = [] }

pub record EndTxnOutcome : Type 0 where
  pub error_code : ℕ
  pub committed : Bool
  pub partitions : List TopicPartition
  pub group : Option Bytes
  pub offsets : List StagedOffset

-- `TxnInner` and the producer id allocator beside it
pub record TxnCoordinator : Type 0 where
  pub txns : Dict Bytes TxnState
  pub claimed : Dict TopicPartition Bytes
  pub by_producer : Dict ℕ Bytes
  pub next_producer_id : ℕ

abbrev pub new_coordinator : ℕ → TxnCoordinator
new_coordinator first_producer_id = record {
  txns = [];
  claimed = [];
  by_producer = [];
  next_producer_id = first_producer_id;
}

abbrev pub release_claims : Bytes → Dict TopicPartition Bytes → Dict TopicPartition Bytes
release_claims transactional_id claimed =
    Dict.retain (λ _ holder. not (bytes_eq holder transactional_id)) claimed

-- `fetch_add(1)` on the allocator
abbrev pub next_id : ℕ → ℕ
next_id id = (id + 1) % 2 ^ 64

abbrev pub i16_max : ℕ
i16_max = 2 ^ 15 - 1

-- The branch of `init_producer_id` for an id that has a state.
unfoldable pub bump_epoch : TxnCoordinator → TxnState → TxnState × ℕ
bump_epoch c st =
    if nat_eq st.epoch i16_max
    then (
      reset_txn (record st { producer_id = c.next_producer_id; epoch = 0 }),
      next_id c.next_producer_id,
    )
    else (reset_txn (record st { epoch = (st.epoch + 1) % 2 ^ 16 }), c.next_producer_id)

unfoldable pub init_producer_id : TxnCoordinator → Bytes → (ℕ × ℕ) × TxnCoordinator
unfolding bump_epoch
init_producer_id c transactional_id = elim (Dict.get c.txns transactional_id) [
  | some st ↦
      let (st', next) = bump_epoch c st in
      (
        (st'.producer_id, st'.epoch),
        record {
          txns = Dict.insert c.txns transactional_id st';
          claimed = release_claims transactional_id c.claimed;
          by_producer = Dict.insert c.by_producer st'.producer_id transactional_id;
          next_producer_id = next;
        },
      )
  | none ↦ (
    (c.next_producer_id, 0),
    record c {
      txns = Dict.insert c.txns transactional_id (new_txn c.next_producer_id);
      by_producer = Dict.insert c.by_producer c.next_producer_id transactional_id;
      next_producer_id = next_id c.next_producer_id;
    },
  )
]

abbrev pub is_current : TxnState → ℕ → ℕ → Bool
is_current st producer_id epoch = nat_eq st.producer_id producer_id && nat_eq st.epoch epoch

unfoldable pub fence : TxnState → ℕ → ℕ → ℕ
fence st producer_id epoch =
    if is_current st producer_id epoch then no_error else invalid_producer_epoch

unfoldable pub produce_check : TxnCoordinator → ℕ → ℕ → Bytes → ℕ → ℕ
produce_check c producer_id epoch topic partition = elim (Dict.get c.by_producer producer_id) [
  | none ↦ invalid_producer_epoch
  | some tid ↦ elim (Dict.get c.txns tid) [
    | none ↦ invalid_producer_epoch
    | some st ↦
        if not (nat_eq st.producer_id producer_id) || not (nat_eq st.epoch epoch)
        then invalid_producer_epoch
        else if not st.ongoing || not (KeySet.contains st.partitions (topic, partition))
        then invalid_txn_state
        else no_error
  ]
]

abbrev pub held_elsewhere : Option Bytes → Bytes → Bool
held_elsewhere none transactional_id = false
held_elsewhere (some holder) transactional_id = not (bytes_eq holder transactional_id)

-- `partitions.iter().any(..)`: one of them is claimed by another transaction.
unfoldable pub any_claimed : Dict TopicPartition Bytes → Bytes → List TopicPartition → Bool
any_claimed claimed transactional_id [] = false
any_claimed claimed transactional_id (p ∷ ps) =
    held_elsewhere (Dict.get claimed p) transactional_id || any_claimed claimed transactional_id ps

-- the loop of `add_partitions`
unfoldable pub claim_all :
    Bytes
    → List TopicPartition
    → Dict TopicPartition Bytes
    → List TopicPartition
    → Dict TopicPartition Bytes × List TopicPartition
unfolding tp_lt
claim_all transactional_id [] claimed enrolled = (claimed, enrolled)
claim_all transactional_id (p ∷ ps) claimed enrolled =
    claim_all transactional_id ps (Dict.insert claimed p transactional_id)
      (KeySet.insert_by tp_lt enrolled p)

unfoldable pub add_partitions :
    TxnCoordinator → Bytes → ℕ → ℕ → List TopicPartition → ℕ × TxnCoordinator
unfolding fence any_claimed claim_all
add_partitions c transactional_id producer_id epoch partitions =
    elim (Dict.get c.txns transactional_id) [
      | none ↦ (invalid_producer_epoch, c)
      | some st ↦
          let code = fence st producer_id epoch in
          if not (nat_eq code no_error)
          then (code, c)
          else if any_claimed c.claimed transactional_id partitions
          then (concurrent_transactions, c)
          else (let (claimed, enrolled) =
                claim_all transactional_id partitions c.claimed st.partitions in
              (
                no_error,
                record c {
                  txns =
                      Dict.insert c.txns transactional_id
                        (record st { ongoing = true; partitions = enrolled });
                  claimed = claimed;
                },
              ))
    ]

unfoldable pub add_offsets : TxnCoordinator → Bytes → ℕ → ℕ → Bytes → ℕ × TxnCoordinator
unfolding fence
add_offsets c transactional_id producer_id epoch group = elim (Dict.get c.txns transactional_id) [
  | none ↦ (invalid_producer_epoch, c)
  | some st ↦
      let code = fence st producer_id epoch in
      if not (nat_eq code no_error) then (code, c) else (
        no_error,
        record c {
          txns =
              Dict.insert c.txns transactional_id
                (record st { ongoing = true; group = some group });
        },
      )
]

unfoldable pub stage_offsets :
    TxnCoordinator → Bytes → ℕ → ℕ → List StagedOffset → ℕ × TxnCoordinator
unfolding fence
stage_offsets c transactional_id producer_id epoch offsets =
    elim (Dict.get c.txns transactional_id) [
      | none ↦ (invalid_producer_epoch, c)
      | some st ↦
          let code = fence st producer_id epoch in
          if not (nat_eq code no_error) then (code, c) else (
            no_error,
            record c {
              txns =
                  Dict.insert c.txns transactional_id
                    (record st { staged_offsets = st.staged_offsets ++ offsets });
            },
          )
    ]

abbrev pub end_error : ℕ → Bool → EndTxnOutcome
end_error code commit = record {
  error_code = code;
  committed = commit;
  partitions = [];
  group = none;
  offsets = [];
}

-- `EndTxn` prepares and changes nothing.
unfoldable pub end_txn : TxnCoordinator → Bytes → ℕ → ℕ → Bool → EndTxnOutcome
unfolding fence
end_txn c transactional_id producer_id epoch commit = elim (Dict.get c.txns transactional_id) [
  | none ↦ end_error invalid_producer_epoch commit
  | some st ↦
      let code = fence st producer_id epoch in
      if not (nat_eq code no_error)
      then end_error code commit
      else if not st.ongoing
      then end_error invalid_txn_state commit
      else record {
        error_code = no_error;
        committed = commit;
        partitions = st.partitions;
        group = if commit then st.group else none;
        offsets = if commit then st.staged_offsets else [];
      }
]

unfoldable pub finish_txn : TxnCoordinator → Bytes → ℕ → ℕ → TxnCoordinator
finish_txn c transactional_id producer_id epoch = elim (Dict.get c.txns transactional_id) [
  | none ↦ c
  | some st ↦
      if is_current st producer_id epoch
      then record c {
        txns = Dict.insert c.txns transactional_id (reset_txn st);
        claimed = release_claims transactional_id c.claimed;
      }
      else c
]

-- The calls that change the coordinator, in the order in which they take its lock.
pub data Call : Type 0 where
  init : Bytes → Call
  add : Bytes → ℕ → ℕ → List TopicPartition → Call
  offsets : Bytes → ℕ → ℕ → Bytes → Call
  stage : Bytes → ℕ → ℕ → List StagedOffset → Call
  finish : Bytes → ℕ → ℕ → Call

unfoldable pub step : TxnCoordinator → Call → TxnCoordinator
step c (init t) = (init_producer_id c t).1
step c (add t producer_id epoch ps) = (add_partitions c t producer_id epoch ps).1
step c (offsets t producer_id epoch g) = (add_offsets c t producer_id epoch g).1
step c (stage t producer_id epoch os) = (stage_offsets c t producer_id epoch os).1
step c (finish t producer_id epoch) = finish_txn c t producer_id epoch

unfoldable pub steps : TxnCoordinator → List Call → TxnCoordinator
steps c [] = c
steps c (x ∷ xs) = steps (step c x) xs
