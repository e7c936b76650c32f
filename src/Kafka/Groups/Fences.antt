-- ===== src/Kafka/Groups/Fences.antt =====
-- What a new generation of a group of crates/datarail-kafka/src/coordinator.rs means for the members
-- of the one before.
use hu_gr_datarail.Prelude.{List, none}
use hu_gr_datarail.Prelude.{
  ℕ, ◌^◌, ◌<◌, ◌≡◌, ◌⊎◌, refl, ap, ◌∙◌, false, some, [], ◌∷◌, Bytes, Bytes_eq, nat_eq, length,
  arith, Bool-cases, Option-cases, inl, inr,
}
use hu_gr_datarail.Prelude.Dict
use hu_gr_datarail.Kafka.Groups.{
  Group, Members, JoinMember, is_empty_name, lost_leader, is_live, expire_stale, after_expiry,
  named, joined, register_member, is_preparing, next_generation, illegal_generation,
  unknown_member_id, rebalance_in_progress,
}
use hu_gr_datarail.Kafka.Groups.Calls.{failed, answer, beat, sync_found, sync_start}

after_expiry-generation :
    (g : Group) (left : Members) → (after_expiry g left).generation ≡ g.generation
after_expiry-generation g [] = refl
after_expiry-generation g (m ∷ ms) = elim (Bool-cases (lost_leader g.leader (m ∷ ms))) [
  | inl lost ↦ rw lost refl
  | inr kept ↦ rw kept refl
]

expire_stale-generation : (now : ℕ) (g : Group) → (expire_stale now g).generation ≡ g.generation
unfolding expire_stale
expire_stale-generation now g =
    let left = Dict.retain (λ k n. is_live now n) g.members in
    elim (Bool-cases (nat_eq (length left) (length g.members))) [
      | inl same ↦ rw same refl
      | inr fewer ↦ rw fewer (after_expiry-generation g left)
    ]

-- A join takes the state and the generation that it finds.
joined-same :
    (group : Bytes) (request : JoinMember) (now : ℕ) (g : Group)
    → let n = named group request g in
      ((joined n.0 request now n.1).state ≡ g.state)
      × ((joined n.0 request now n.1).generation ≡ g.generation)
unfolding named joined
joined-same group request now g = elim (Bool-cases (is_empty_name request.member_id)) [
  | inl fresh ↦ rw fresh (refl, refl)
  | inr given ↦ rw given (refl, refl)
]

register_member-generation :
    (delay : ℕ) (group : Bytes) (request : JoinMember) (now : ℕ) (g : Group)
    → is_preparing (expire_stale now g).state ≡ false
    → (register_member delay group request now g).1.generation ≡ next_generation g.generation
unfolding register_member
register_member-generation delay group request now g closed =
    let (state, generation) = joined-same group request now (expire_stale now g) in
    rw (ap is_preparing state ∙ closed)
      (ap next_generation (generation ∙ expire_stale-generation now g))

beat-stale :
    (mid : Bytes) (generation now : ℕ) (g : Group)
    → nat_eq g.generation generation ≡ false
    → ((beat mid generation now g).0 ≡ illegal_generation)
      ⊎ ((beat mid generation now g).0 ≡ unknown_member_id)
unfolding beat
beat-stale mid generation now g other =
    elim (Option-cases (Dict.get (expire_stale now g).members mid)) [
      | inl absent ↦ rw absent (inr refl)
      | inr (m, present) ↦
          rw present
            (rw (ap (λ n. nat_eq n generation) (expire_stale-generation now g) ∙ other) (inl refl))
    ]

-- A sync of another generation does not begin.
sync_start-stale :
    (mid : Bytes) (generation : ℕ) (assignments : List (Bytes × Bytes)) (g : Group)
    → nat_eq g.generation generation ≡ false
    → (sync_start mid generation assignments g ≡ (answer (failed illegal_generation), g))
      ⊎ ((sync_start mid generation assignments g ≡ (answer (failed unknown_member_id), g))
          × (Dict.get g.members mid ≡ none))
unfolding sync_start
sync_start-stale mid generation assignments g other = elim (Option-cases (Dict.get g.members mid)) [
  | inl absent ↦ inr (rw absent refl, absent)
  | inr (m, present) ↦ inl (rw present (rw other refl))
]

-- A join that finds no open window, in a group whose generation is below 2 ^ 31, opens a new
-- generation. In the group that it leaves, of the generation before, a sync that waits is answered
-- REBALANCE_IN_PROGRESS; a sync that begins is answered ILLEGAL_GENERATION, or UNKNOWN_MEMBER_ID where
-- the group has no such member, and changes nothing; and a heartbeat, at any time, is answered
-- ILLEGAL_GENERATION or UNKNOWN_MEMBER_ID.
pub register_member-fences :
    (delay : ℕ) (group : Bytes) (request : JoinMember) (now later : ℕ) (g : Group) (mid : Bytes)
    (assignments : List (Bytes × Bytes))
    → is_preparing (expire_stale now g).state ≡ false
    → g.generation < 2 ^ 31
    → let g' = (register_member delay group request now g).1 in
      (sync_found mid g.generation g' ≡ some (failed rebalance_in_progress))
      × ((sync_start mid g.generation assignments g' ≡ (answer (failed illegal_generation), g'))
          ⊎ ((sync_start mid g.generation assignments g' ≡ (answer (failed unknown_member_id), g'))
              × (Dict.get g'.members mid ≡ none)))
      × (((beat mid g.generation later g').0 ≡ illegal_generation)
          ⊎ ((beat mid g.generation later g').0 ≡ unknown_member_id))
unfolding sync_found
register_member-fences delay group request now later g mid assignments closed fits =
    let g' = (register_member delay group request now g).1 in
    let next : g'.generation ≡ next_generation g.generation =
      register_member-generation delay group request now g closed in
    let other : nat_eq g'.generation g.generation ≡ false = ground (arith, next, fits) in
    (
      rw other refl,
      sync_start-stale mid g.generation assignments g' other,
      beat-stale mid g.generation later g' other,
    )
