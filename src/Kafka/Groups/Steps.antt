-- ===== src/Kafka/Groups/Steps.antt =====
-- Every step on a group of crates/datarail-kafka/src/coordinator.rs keeps the invariant.
use hu_gr_datarail.Prelude.{
  ℕ, ◌+◌, ◌^◌, ◌<◌, ◌≡◌, refl, sym, ◌∙◌, false, not, ◌&&◌, Option, none, some, List, [], ◌∷◌, Bytes,
  Bytes_eq, bytes_eq_iff, ◌==◌, bytes_lt, nat_eq, arith, Bool-cases, Option-cases, inl, inr,
}
use hu_gr_datarail.Prelude.Dict
use hu_gr_datarail.Prelude.Dict.{
  get-insert, get-insert_by, get-remove, get-retain, get-map_values, get-first_key, retain-all,
}
use hu_gr_datarail.Kafka.Groups.{
  Group, GroupState, empty, preparing_rebalance, completing_rebalance, stable, Member, Members,
  JoinMember, is_empty_name, names, expire_stale, joined, named, register_member, is_stable,
  is_preparing, open_window, without_assignment,
}
use hu_gr_datarail.Kafka.Groups.Calls.{
  is_closed, is_due, join_round, is_nil, assign_all, submit, sync_start, refreshed, beat,
  after_leave, drop_member,
}
use hu_gr_datarail.Kafka.Groups.Sound.{
  IsSound, HasLeader, IsClean, nil-IsClean, first-HasLeader, expire_stale-IsSound,
}

contains-map_values :
    (f : Member → Member) (ms : Members) (k : Bytes)
    → Dict.contains_key (Dict.map_values f ms) k ≡ Dict.contains_key ms k
contains-map_values f ms k = ground (arith, get-map_values f ms k)

cleared-IsClean : (ms : Members) → IsClean (Dict.map_values without_assignment ms)
cleared-IsClean ms mid m e = ground (arith, get-map_values without_assignment ms mid, e)

-- A rebalance needs only a leader among the members.
pub open_window-IsSound :
    (deadline : ℕ) (g : Group)
    → HasLeader g.leader g.members
    → g.generation < 2 ^ 31
    → IsSound (open_window deadline g)
open_window-IsSound deadline g leads positive = record {
  leads = λ l e. contains-map_values without_assignment g.members l ∙ leads l e;
  clean = λ s. cleared-IsClean g.members;
  positive = ground (arith, positive);
}

insert_by-HasLeader :
    (leader : Option Bytes) (ms : Members) (mid : Bytes) (v : Member)
    → HasLeader leader ms
    → HasLeader leader (Dict.insert_by bytes_lt ms mid v)
insert_by-HasLeader leader ms mid v h l e = ground (arith, get-insert_by bytes_lt ms mid l v, h l e)

insert_by-IsClean :
    (ms : Members) (mid : Bytes) (v : Member)
    → v.assignment ≡ none
    → IsClean ms
    → IsClean (Dict.insert_by bytes_lt ms mid v)
insert_by-IsClean ms mid v new h k m e = elim (Bool-cases (mid == k)) [
  | inl same ↦
      let eq : some v ≡ some m = sym (get-insert_by bytes_lt ms mid k v ∙ rw same refl) ∙ e in
      ground (arith, eq, new)
  | inr other ↦ h k m (sym (get-insert_by bytes_lt ms mid k v ∙ rw other refl) ∙ e)
]

insert-HasLeader :
    (leader : Option Bytes) (ms : Members) (mid : Bytes) (v : Member)
    → HasLeader leader ms
    → HasLeader leader (Dict.insert ms mid v)
insert-HasLeader leader ms mid v h l e = ground (arith, get-insert ms mid l v, h l e)

insert-IsClean :
    (ms : Members) (mid : Bytes) (v : Member)
    → v.assignment ≡ none
    → IsClean ms
    → IsClean (Dict.insert ms mid v)
insert-IsClean ms mid v new h k m e = elim (Bool-cases (mid == k)) [
  | inl same ↦
      let eq : some v ≡ some m = sym (get-insert ms mid k v ∙ rw same refl) ∙ e in
      ground (arith, eq, new)
  | inr other ↦ h k m (sym (get-insert ms mid k v ∙ rw other refl) ∙ e)
]

remove-HasLeader :
    (leader : Option Bytes) (ms : Members) (mid : Bytes)
    → names leader mid ≡ false
    → HasLeader leader ms
    → HasLeader leader (Dict.remove ms mid)
remove-HasLeader none ms mid n h l e = cc
remove-HasLeader (some j) ms mid n h l e =
    ground (arith, get-remove ms mid l, h l e, e, n, bytes_eq_iff j mid, bytes_eq_iff mid l)

joined-IsSound :
    (mid : Bytes) (request : JoinMember) (now : ℕ) (g : Group)
    → IsSound g
    → IsSound (joined mid request now g)
unfolding joined
joined-IsSound mid request now g h = record {
  leads = insert_by-HasLeader g.leader g.members mid _ h.leads;
  clean = λ s. insert_by-IsClean g.members mid _ refl (h.clean s);
  positive = h.positive;
}

named-IsSound :
    (group : Bytes) (request : JoinMember) (g : Group)
    → IsSound g
    → IsSound (named group request g).1
unfolding named
named-IsSound group request g h = elim (Bool-cases (is_empty_name request.member_id)) [
  | inl fresh ↦ rw fresh (record { leads = h.leads; clean = h.clean; positive = h.positive })
  | inr given ↦ rw given h
]

pub register_member-IsSound :
    (delay : ℕ) (group : Bytes) (request : JoinMember) (now : ℕ) (g : Group)
    → IsSound g
    → IsSound (register_member delay group request now g).1
unfolding register_member
register_member-IsSound delay group request now g h =
    let g' = named group request (expire_stale now g) in
    let j = joined g'.0 request now g'.1 in
    let sound : IsSound j =
      joined-IsSound g'.0 request now g'.1
        (named-IsSound group request (expire_stale now g) (expire_stale-IsSound now g h)) in
    elim (Bool-cases (is_preparing j.state)) [
      | inl opened ↦ rw opened sound
      | inr closed ↦ rw closed (open_window-IsSound (now + delay) j sound.leads sound.positive)
    ]

unclosed_unstable : (s : GroupState) → is_closed s ≡ false → is_stable s ≡ false
unclosed_unstable empty e = refl
unclosed_unstable preparing_rebalance e = refl
unclosed_unstable completing_rebalance e = refl
unclosed_unstable stable e = cc

pub join_round-IsSound :
    (mid : Bytes) (now : ℕ) (g : Group) → IsSound g → IsSound (join_round mid now g).1
unfolding join_round
join_round-IsSound mid now g h = elim (Bool-cases (is_closed g.state)) [
  | inl closed ↦ rw closed h
  | inr waiting ↦ elim (Bool-cases (is_due now g.deadline)) [
    | inl due ↦ rw waiting (
        rw due (record {
          leads = first-HasLeader g.members;
          clean = λ s. h.clean (unclosed_unstable g.state waiting);
          positive = h.positive;
        }))
    | inr early ↦ rw waiting (rw early h)
  ]
]

contains-assign_all :
    (assignments : List (Bytes × Bytes)) (ms : Members) (k : Bytes)
    → Dict.contains_key (assign_all ms assignments) k ≡ Dict.contains_key ms k
unfolding assign_all
contains-assign_all [] ms k = refl
contains-assign_all ((mid, bytes) ∷ rest) ms k = elim (Option-cases (Dict.get ms mid)) [
  | inl absent ↦ rw absent (contains-assign_all rest ms k)
  | inr (m, present) ↦
      let m' = record m { assignment = some bytes } in
      rw present (
        contains-assign_all rest (Dict.insert ms mid m') k
        ∙ ground (arith, get-insert ms mid k m', present, bytes_eq_iff mid k))
]

submit-IsSound :
    (mid : Bytes) (assignments : List (Bytes × Bytes)) (g : Group)
    → IsSound g
    → IsSound (submit mid assignments g)
unfolding submit
submit-IsSound mid assignments g h =
    elim (Bool-cases (not (is_nil assignments) && names g.leader mid)) [
      | inl leads ↦ rw leads (record {
        leads = λ l e. contains-assign_all assignments g.members l ∙ h.leads l e;
        clean = λ s. cc;
        positive = h.positive;
      })
      | inr follows ↦ rw follows h
    ]

pub sync_start-IsSound :
    (mid : Bytes) (generation : ℕ) (assignments : List (Bytes × Bytes)) (g : Group)
    → IsSound g
    → IsSound (sync_start mid generation assignments g).1
unfolding sync_start
sync_start-IsSound mid generation assignments g h = elim (Option-cases (Dict.get g.members mid)) [
  | inl absent ↦ rw absent h
  | inr (m, present) ↦ elim (Bool-cases (nat_eq g.generation generation)) [
    | inl same ↦ rw present (rw same (submit-IsSound mid assignments g h))
    | inr other ↦ rw present (rw other h)
  ]
]

refreshed-IsSound :
    (g : Group) (mid : Bytes) (m : Member) (now : ℕ)
    → Dict.get g.members mid ≡ some m
    → IsSound g
    → IsSound (refreshed g mid m now)
refreshed-IsSound g mid m now present h = record {
  leads = insert-HasLeader g.leader g.members mid _ h.leads;
  clean = λ s. insert-IsClean g.members mid _ (h.clean s mid m present) (h.clean s);
  positive = h.positive;
}

pub beat-IsSound :
    (mid : Bytes) (generation now : ℕ) (g : Group)
    → IsSound g
    → IsSound (beat mid generation now g).1
unfolding beat
beat-IsSound mid generation now g h =
    let g' = expire_stale now g in
    let sound : IsSound g' = expire_stale-IsSound now g h in
    elim (Option-cases (Dict.get g'.members mid)) [
      | inl absent ↦ rw absent sound
      | inr (m, present) ↦
          let fresh : IsSound (refreshed g' mid m now) =
            refreshed-IsSound g' mid m now present sound in
          elim (Bool-cases (nat_eq g'.generation generation)) [
            | inl same ↦ rw present (rw same fresh)
            | inr other ↦ rw present (rw other fresh)
          ]
    ]

after_leave-IsSound :
    (deadline : ℕ) (mid : Bytes) (g : Group) (left : Members)
    → (names g.leader mid ≡ false → HasLeader g.leader left)
    → g.generation < 2 ^ 31
    → IsSound (after_leave deadline mid g left)
after_leave-IsSound deadline mid g [] leads positive = record {
  leads = λ l e. cc;
  clean = λ s. nil-IsClean;
  positive = positive;
}
after_leave-IsSound deadline mid g (m ∷ ms) leads positive =
    elim (Bool-cases (names g.leader mid)) [
      | inl own ↦ rw own (
          open_window-IsSound deadline
            (record g { members = m ∷ ms; leader = Dict.first_key (m ∷ ms) })
            (first-HasLeader (m ∷ ms)) positive)
      | inr other ↦
          rw other
            (open_window-IsSound deadline (record g { members = m ∷ ms }) (leads other) positive)
    ]

pub drop_member-IsSound :
    (deadline : ℕ) (mid : Bytes) (g : Group) → IsSound g → IsSound (drop_member deadline mid g).1
unfolding drop_member
drop_member-IsSound deadline mid g h = elim (Bool-cases (Dict.contains_key g.members mid)) [
  | inl present ↦ rw present (
      after_leave-IsSound deadline mid g (Dict.remove g.members mid)
        (λ n. remove-HasLeader g.leader g.members mid n h.leads) h.positive)
  | inr absent ↦ rw absent h
]
