-- ===== src/Kafka/Txn/Runs.antt =====
-- Concrete runs of the transaction coordinator, and the theorems at concrete calls.
use hu_gr_datarail.Prelude.{
  ◌≡◌, refl, true, false, arith, none, some, List, [], ◌∷◌, Bytes, Bytes_eq, ℕ_eq, bytes_eq,
  bytes_lt, ◌⊎◌,
}
use hu_gr_datarail.Prelude.Dict
use hu_gr_datarail.Prelude.Dict.{Dict, get-insert, get-retain}
use hu_gr_datarail.Prelude.KeySet
use hu_gr_datarail.Kafka.Txn.{
  TopicPartition, TopicPartition_eq, tp_eq, TxnState, TxnCoordinator, new_coordinator, new_txn,
  no_error, end_txn, init_producer_id, any_claimed, add_partitions, produce_check, Call, init, add,
  step, steps, StagedOffset,
}
use hu_gr_datarail.Kafka.Txn.Cases.{Current}
use hu_gr_datarail.Kafka.Txn.Claims.{
  IsConsistent, new_coordinator-IsConsistent, steps-IsConsistent, one_open_txn,
}
use hu_gr_datarail.Kafka.Txn.Fencing.{IsShutOut, zombie-IsShutOut}
use hu_gr_datarail.Kafka.Txn.Outcome.{
  StaleAnswer, BusyAnswer, ClaimedAnswer, add_partitions_answers, end_txn-steps,
}
use hu_gr_datarail.Kafka.Txn.Cycle.{transact, end_txn-transact, produce_check-claimed}

abbrev tx : Bytes
tx = 120 ∷ []

abbrev ty : Bytes
ty = 121 ∷ []

abbrev orders : Bytes
orders = 111 ∷ []

abbrev two : List TopicPartition
two = (orders, 1) ∷ (orders, 0) ∷ []

-- Two producers; the first has a transaction open.
abbrev calls : List Call
calls = init tx ∷ init ty ∷ add tx 1000 0 two ∷ []

abbrev start : TxnCoordinator
start = new_coordinator 1000

abbrev opened : TxnState
opened = record {
  producer_id = 1000;
  epoch = 0;
  ongoing = true;
  partitions = (orders, 0) ∷ (orders, 1) ∷ [];
  group = none;
  staged_offsets = [];
}

opened_there : Dict.get (steps start calls).txns tx ≡ some opened
unfolding steps step init_producer_id add_partitions Dict.get Dict.insert KeySet.insert_by bytes_eq
    bytes_lt tp_eq
opened_there = refl

-- The second producer is refused while the first holds the partition.
second_waits : (add_partitions (steps start calls) ty 1001 0 two).0 ≡ 51
unfolding steps step init_producer_id add_partitions Dict.get Dict.insert KeySet.insert_by bytes_eq
    bytes_lt tp_eq
second_waits = refl

passes : produce_check (steps start calls) 1000 0 orders 1 ≡ 0
unfolding steps step init_producer_id add_partitions produce_check Dict.get Dict.insert
    KeySet.insert_by KeySet.contains bytes_eq bytes_lt tp_eq
passes = refl

contains-orders : KeySet.contains opened.partitions (orders, 1) ≡ true
unfolding KeySet.contains tp_eq bytes_eq
contains-orders = refl

consistent : IsConsistent (steps start calls)
consistent = steps-IsConsistent start calls (new_coordinator-IsConsistent 1000)

steps-IsConsistent_example : IsConsistent (steps start calls)
steps-IsConsistent_example = steps-IsConsistent start calls (new_coordinator-IsConsistent 1000)

one_open_txn_example : tx ≡ tx
one_open_txn_example =
    one_open_txn 1000 calls tx tx opened opened (orders, 1) opened_there opened_there
      contains-orders contains-orders

zombie-IsShutOut_example :
    IsShutOut 1000 0 (steps (init_producer_id (steps start calls) tx).1 (add ty 1001 0 two ∷ []))
zombie-IsShutOut_example =
    zombie-IsShutOut 1000 calls (add ty 1001 0 two ∷ []) tx opened (omega arith) opened_there

add_partitions_answers_example :
    StaleAnswer (steps start calls) ty 1001 0 (add_partitions (steps start calls) ty 1001 0 two)
    ⊎ BusyAnswer
        (steps start calls)
        ty
        1001
        0
        two
        (add_partitions (steps start calls) ty 1001 0 two)
    ⊎ ClaimedAnswer
        (steps start calls)
        ty
        1001
        0
        two
        (add_partitions (steps start calls) ty 1001 0 two)
add_partitions_answers_example = add_partitions_answers (steps start calls) ty 1001 0 two

end_txn-steps_example :
    end_txn (steps (steps start calls) (init ty ∷ [])) tx 1000 0 true
    ≡ end_txn (steps start calls) tx 1000 0 true
unfolding bytes_eq
end_txn-steps_example = end_txn-steps (steps start calls) tx 1000 0 true (init ty ∷ []) (refl, tt)

abbrev idle : TxnCoordinator
idle = steps start (init tx ∷ [])

idle_there : Current idle tx 1000 0 (new_txn 1000)
unfolding steps step init_producer_id Dict.get Dict.insert bytes_eq
idle_there = (refl, refl, refl)

free_there : any_claimed idle.claimed tx two ≡ false
unfolding steps step init_producer_id any_claimed Dict.get Dict.insert bytes_eq
free_there = refl

abbrev one_offset : List StagedOffset
one_offset = record { topic = orders; partition = 0; offset = 7 } ∷ []

end_txn-transact_example :
    let out = end_txn (transact idle tx 1000 0 two ty one_offset) tx 1000 0 true in
    (out.error_code ≡ no_error)
    × (out.committed ≡ true)
    × ((p : TopicPartition) → KeySet.contains out.partitions p ≡ KeySet.contains two p)
    × (out.group ≡ some ty)
    × (out.offsets ≡ one_offset)
end_txn-transact_example =
    end_txn-transact idle tx 1000 0 (new_txn 1000) two ty one_offset true idle_there refl refl
      free_there

produce_check-claimed_example :
    (t : Bytes) × (st : TxnState) × Current (steps start calls) t 1000 0 st
    × (st.ongoing ≡ true)
    × (Dict.get (steps start calls).claimed (orders, 1) ≡ some t)
produce_check-claimed_example =
    produce_check-claimed (steps start calls) 1000 0 orders 1 consistent passes
