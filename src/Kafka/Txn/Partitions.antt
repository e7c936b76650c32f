-- ===== src/Kafka/Txn/Partitions.antt =====
-- The loops of `add_partitions` (crates/datarail-kafka/src/txn.rs).
use hu_gr_datarail.Prelude.{
  ◌≡◌, refl, true, false, ◌||◌, arith, Option, none, some, List, [], ◌∷◌, Bytes, Bytes_eq, ℕ_eq,
  bytes_eq, bytes_eq_iff, if◌then◌else◌, Bool-cases, inl, inr,
}
use hu_gr_datarail.Prelude.Dict
use hu_gr_datarail.Prelude.Dict.{Dict, get-insert}
use hu_gr_datarail.Prelude.KeySet
use hu_gr_datarail.Prelude.KeySet.{contains-insert_by}
use hu_gr_datarail.Kafka.Txn.{
  TopicPartition, TopicPartition_eq, tp_eq_iff, tp_lt, held_elsewhere, any_claimed, claim_all,
}

-- After the loop the listed partitions belong to the transaction, and no other claim has changed.
pub get-claim_all :
    (t : Bytes) (ps : List TopicPartition) (claimed : Dict TopicPartition Bytes)
    (enrolled : List TopicPartition) (p : TopicPartition)
    → Dict.get (claim_all t ps claimed enrolled).0 p
      ≡ (if KeySet.contains ps p then some t else Dict.get claimed p)
unfolding claim_all KeySet.contains
get-claim_all t [] claimed enrolled p = refl
get-claim_all t (x ∷ xs) claimed enrolled p = ground (
  arith,
  get-claim_all t xs (Dict.insert claimed x t) (KeySet.insert_by tp_lt enrolled x) p,
  get-insert claimed x p t,
)

pub contains-claim_all :
    (t : Bytes) (ps : List TopicPartition) (claimed : Dict TopicPartition Bytes)
    (enrolled : List TopicPartition) (p : TopicPartition)
    → KeySet.contains (claim_all t ps claimed enrolled).1 p
      ≡ (KeySet.contains ps p || KeySet.contains enrolled p)
unfolding claim_all KeySet.contains
contains-claim_all t [] claimed enrolled p = refl
contains-claim_all t (x ∷ xs) claimed enrolled p = ground (
  arith,
  contains-claim_all t xs (Dict.insert claimed x t) (KeySet.insert_by tp_lt enrolled x) p,
  contains-insert_by tp_lt enrolled x p,
)

-- When no listed partition is claimed by another, each is free or held by the transaction.
pub any_claimed-false :
    (t : Bytes) (ps : List TopicPartition) (claimed : Dict TopicPartition Bytes)
    (p : TopicPartition) (holder : Bytes)
    → any_claimed claimed t ps ≡ false
    → KeySet.contains ps p ≡ true
    → Dict.get claimed p ≡ some holder
    → holder ≡ t
unfolding any_claimed KeySet.contains
any_claimed-false t [] claimed p holder a c g = cc
any_claimed-false t (x ∷ xs) claimed p holder a c g =
    ground (arith, any_claimed-false t xs claimed p holder, bytes_eq_iff holder t, tp_eq_iff x p)

-- And when one is, it is held by another.
pub any_claimed-true :
    (t : Bytes) (ps : List TopicPartition) (claimed : Dict TopicPartition Bytes)
    → any_claimed claimed t ps ≡ true
    → (p : TopicPartition) × (holder : Bytes) × (KeySet.contains ps p ≡ true)
      × (Dict.get claimed p ≡ some holder)
      × (bytes_eq holder t ≡ false)
unfolding any_claimed KeySet.contains
any_claimed-true t [] claimed a = cc
any_claimed-true t (x ∷ xs) claimed a = elim (Bool-cases (held_elsewhere (Dict.get claimed x) t)) [
  | inl here ↦ first (Dict.get claimed x) refl here
  | inr there ↦
      let (p, holder, c, g, n) = any_claimed-true t xs claimed (ground (arith, a, there)) in
      (p, holder, ground (arith, c), g, n)
]
  where
    first :
        (o : Option Bytes)
        → Dict.get claimed x ≡ o
        → held_elsewhere o t ≡ true
        → (p : TopicPartition) × (holder : Bytes) × (KeySet.contains (x ∷ xs) p ≡ true)
          × (Dict.get claimed p ≡ some holder)
          × (bytes_eq holder t ≡ false)
    first none e h = cc
    first (some holder) e h = (x, holder, ground (arith, tp_eq_iff x x), e, ground (arith, h))
