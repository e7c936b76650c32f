-- ===== src/Kafka/Groups/Orders.antt =====
-- Sequences of steps on the coordinator of crates/datarail-kafka/src/coordinator.rs, in the order in
-- which they take the lock.
use hu_gr_datarail.Prelude.{
  ℕ, ◌≡◌, refl, sym, subst, ◌∙◌, some, List, [], ◌∷◌, Bytes, Bytes_eq, ◌==◌, Bool-cases,
  Option-cases, inl, inr,
}
use hu_gr_datarail.Prelude.Dict
use hu_gr_datarail.Prelude.Dict.{get-insert}
use hu_gr_datarail.Kafka.Groups.{Group, JoinMember}
use hu_gr_datarail.Kafka.Groups.Calls.{
  Coordinator, new_coordinator, on_group, found, put, join_enter, join_poll, join_round, sync_enter,
  sync_start, heartbeat, beat, leave, drop_member,
}
use hu_gr_datarail.Kafka.Groups.Sound.{IsSound, new_group-IsSound}
use hu_gr_datarail.Kafka.Groups.Steps.{
  register_member-IsSound, join_round-IsSound, sync_start-IsSound, beat-IsSound,
  drop_member-IsSound,
}

-- The steps that change the state; a poll of `sync` changes nothing.
pub data Step : Type 0 where
  join_enters : Bytes → JoinMember → ℕ → Step
  join_polls : Bytes → Bytes → ℕ → Step
  sync_enters : Bytes → Bytes → ℕ → List (Bytes × Bytes) → Step
  beats : Bytes → Bytes → ℕ → ℕ → Step
  leaves : Bytes → Bytes → ℕ → Step

abbrev pub step : Coordinator → Step → Coordinator
step c (join_enters group request now) = (join_enter c group request now).1
step c (join_polls group mid now) = (join_poll c group mid now).1
step c (sync_enters group mid generation assignments) =
    (sync_enter c group mid generation assignments).1
step c (beats group mid generation now) = (heartbeat c group mid generation now).1
step c (leaves group mid now) = (leave c group mid now).1

unfoldable pub steps : Coordinator → List Step → Coordinator
steps c [] = c
steps c (s ∷ ss) = steps (step c s) ss

abbrev pub EachIsSound : Coordinator → Type 0
EachIsSound c = (group : Bytes) (g : Group) → Dict.get c.groups group ≡ some g → IsSound g

some-IsSound : (g g' : Group) → some g ≡ some g' → IsSound g → IsSound g'
some-IsSound g g' e h = subst (λ o. IsSound (found o)) e h

put-EachIsSound :
    (c : Coordinator) (group : Bytes) (g : Group)
    → IsSound g
    → EachIsSound c
    → EachIsSound (put c group g)
put-EachIsSound c group g h each k g' e = elim (Bool-cases (group == k)) [
  | inl same ↦ some-IsSound g g' (sym (get-insert c.groups group k g ∙ rw same refl) ∙ e) h
  | inr other ↦ each k g' (sym (get-insert c.groups group k g ∙ rw other refl) ∙ e)
]

on_group-EachIsSound {ℓ} :
    {A : Type ℓ} (c : Coordinator) (group : Bytes) (missing : A) (f : Group → A × Group)
    → ((g : Group) → IsSound g → IsSound (f g).1)
    → EachIsSound c
    → EachIsSound (on_group c group missing f (Dict.get c.groups group)).1
on_group-EachIsSound c group missing f keeps each = elim (Option-cases (Dict.get c.groups group)) [
  | inl absent ↦ rw absent each
  | inr (g, present) ↦
      rw present (put-EachIsSound c group (f g).1 (keeps g (each group g present)) each)
]

found-IsSound :
    (c : Coordinator) (group : Bytes) → EachIsSound c → IsSound (found (Dict.get c.groups group))
found-IsSound c group each = elim (Option-cases (Dict.get c.groups group)) [
  | inl absent ↦ rw absent new_group-IsSound
  | inr (g, present) ↦ rw present (each group g present)
]

step-EachIsSound : (c : Coordinator) (s : Step) → EachIsSound c → EachIsSound (step c s)
unfolding join_enter join_poll sync_enter heartbeat leave
step-EachIsSound c (join_enters group request now) each =
    put-EachIsSound c group _
      (register_member-IsSound c.rebalance_delay group request now _ (found-IsSound c group each))
      each
step-EachIsSound c (join_polls group mid now) each =
    on_group-EachIsSound c group _ (join_round mid now) (join_round-IsSound mid now) each
step-EachIsSound c (sync_enters group mid generation assignments) each =
    on_group-EachIsSound c group _ (sync_start mid generation assignments)
      (sync_start-IsSound mid generation assignments) each
step-EachIsSound c (beats group mid generation now) each =
    on_group-EachIsSound c group _ (beat mid generation now) (beat-IsSound mid generation now) each
step-EachIsSound c (leaves group mid now) each =
    on_group-EachIsSound c group _ (drop_member _ mid) (drop_member-IsSound _ mid) each

steps-EachIsSound : (c : Coordinator) (ss : List Step) → EachIsSound c → EachIsSound (steps c ss)
unfolding steps
steps-EachIsSound c [] each = each
steps-EachIsSound c (s ∷ ss) each = steps-EachIsSound (step c s) ss (step-EachIsSound c s each)

new_coordinator-EachIsSound : (delay timeout : ℕ) → EachIsSound (new_coordinator delay timeout)
unfolding Dict.get
new_coordinator-EachIsSound delay timeout group g e = cc

-- After any steps on a new coordinator the leader of each group is one of its members, no member
-- has an assignment unless the group is stable, and the generation is below 2 ^ 31, so it is never
-- the -1 that stands for an unknown one.
pub steps-IsSound :
    (delay timeout : ℕ) (ss : List Step) (group : Bytes) (g : Group)
    → Dict.get (steps (new_coordinator delay timeout) ss).groups group ≡ some g
    → IsSound g
steps-IsSound delay timeout ss group g e =
    steps-EachIsSound (new_coordinator delay timeout) ss (new_coordinator-EachIsSound delay timeout)
      group g e
