-- ===== src/Kafka/Groups/Calls.antt =====
-- The methods of `GroupCoordinator` in crates/datarail-kafka/src/coordinator.rs, each cut at its
-- waits. `now` is what the clock answers in the step.
use hu_gr_datarail.Prelude.{
  ℕ, ◌+◌, ◌-◌, ◌^◌, Bool, true, false, not, ◌&&◌, Option, none, some, List, [], ◌∷◌, map, Bytes,
  Bytes_eq, leb, nat_eq, if◌then◌else◌,
}
use hu_gr_datarail.Prelude.Dict
use hu_gr_datarail.Prelude.Dict.{Dict}
use hu_gr_datarail.Kafka.Groups.{
  Group, GroupState, empty, preparing_rebalance, completing_rebalance, stable, Member, Members,
  JoinMember, new_group, names, expire_stale, select_protocol, register_member, is_stable,
  open_window, no_error, illegal_generation, unknown_member_id, rebalance_in_progress,
}

pub record Coordinator : Type 0 where
  pub groups : Dict Bytes Group
  pub rebalance_delay : ℕ
  pub sync_timeout : ℕ

abbrev pub new_coordinator : ℕ → ℕ → Coordinator
new_coordinator rebalance_delay sync_timeout = record {
  groups = [];
  rebalance_delay = rebalance_delay;
  sync_timeout = sync_timeout;
}

pub record JoinOutcome : Type 0 where
  pub error_code : ℕ
  pub generation : ℕ
  pub protocol : Bytes
  pub leader : Bytes
  pub member_id : Bytes
  pub members : List (Bytes × Bytes)

pub record SyncOutcome : Type 0 where
  pub error_code : ℕ
  pub assignment : Bytes

abbrev pub or_empty : Option Bytes → Bytes
or_empty none = []
or_empty (some s) = s

-- generation -1
abbrev pub unknown_join : Bytes → JoinOutcome
unknown_join mid = record {
  error_code = unknown_member_id;
  generation = 2 ^ 32 - 1;
  protocol = [];
  leader = [];
  member_id = mid;
  members = [];
}

abbrev pub failed : ℕ → SyncOutcome
failed code = record { error_code = code; assignment = [] }

abbrev pub assigned : Bytes → SyncOutcome
assigned bytes = record { error_code = no_error; assignment = bytes }

-- `deadline.is_some_and(|dl| now >= dl)`
abbrev pub is_due : ℕ → Option ℕ → Bool
is_due now none = false
is_due now (some deadline) = leb deadline now

abbrev pub close_window : Group → Group
close_window g = record g {
  state = completing_rebalance;
  leader = Dict.first_key g.members;
  protocol = select_protocol g.members;
}

abbrev pub is_closed : GroupState → Bool
is_closed completing_rebalance = true
is_closed stable = true
is_closed empty = false
is_closed preparing_rebalance = false

unfoldable pub subscriptions : Members → List (Bytes × Bytes)
subscriptions members = map (λ e. (e.0, e.1.subscription)) members

unfoldable pub join_outcome : Bytes → Group → JoinOutcome
join_outcome mid g = record {
  error_code = no_error;
  generation = g.generation;
  protocol = or_empty g.protocol;
  leader = or_empty g.leader;
  member_id = mid;
  members = (if names g.leader mid then subscriptions g.members else []);
}

-- A round of the loop of `join` on the group: its answer, or none where the caller waits again.
unfoldable pub join_round : Bytes → ℕ → Group → Option JoinOutcome × Group
join_round mid now g =
    let closed = close_window g in
    if is_closed g.state
    then (some (join_outcome mid g), g)
    else if is_due now g.deadline
    then (some (join_outcome mid closed), closed)
    else (none, g)

abbrev pub put : Coordinator → Bytes → Group → Coordinator
put c group g = record c { groups = Dict.insert c.groups group g }

abbrev pub found : Option Group → Group
found none = new_group
found (some g) = g

-- `let Some(g) = guard.get_mut(group) else { return missing }`
abbrev pub on_group {ℓ} :
    {A : Type ℓ} → Coordinator → Bytes → A → (Group → A × Group) → Option Group → A × Coordinator
on_group c group missing f none = (missing, c)
on_group c group missing f (some g) = let (a, g') = f g in (a, put c group g')

unfoldable pub join_poll : Coordinator → Bytes → Bytes → ℕ → Option JoinOutcome × Coordinator
join_poll c group mid now =
    on_group c group (some (unknown_join mid)) (join_round mid now) (Dict.get c.groups group)

-- The first part of `join`: the member is registered under the id that is given back.
unfoldable pub join_enter : Coordinator → Bytes → JoinMember → ℕ → Bytes × Coordinator
join_enter c group request now =
    let (mid, g) =
      register_member c.rebalance_delay group request now (found (Dict.get c.groups group)) in
    (mid, put c group g)

abbrev pub assign_one : Members → Bytes → Bytes → Option Member → Members
assign_one members mid bytes none = members
assign_one members mid bytes (some m) =
    Dict.insert members mid (record m { assignment = some bytes })

unfoldable pub assign_all : Members → List (Bytes × Bytes) → Members
assign_all members [] = members
assign_all members ((mid, bytes) ∷ rest) =
    assign_all (assign_one members mid bytes (Dict.get members mid)) rest

abbrev pub is_nil {ℓ} : {A : Type ℓ} → List A → Bool
is_nil [] = true
is_nil (x ∷ xs) = false

-- Only the leader's assignments are taken.
unfoldable pub submit : Bytes → List (Bytes × Bytes) → Group → Group
submit member_id assignments g =
    if not (is_nil assignments) && names g.leader member_id
    then record g { members = assign_all g.members assignments; state = stable; deadline = none }
    else g

-- How `sync` begins: it answers at once, or parks for so long.
pub data SyncStart : Type 0 where
  answer : SyncOutcome → SyncStart
  park : ℕ → SyncStart

abbrev pub sync_member :
    Bytes → ℕ → List (Bytes × Bytes) → Group → Option Member → SyncStart × Group
sync_member member_id generation assignments g none = (answer (failed unknown_member_id), g)
sync_member member_id generation assignments g (some m) =
    if nat_eq g.generation generation
    then (park m.rebalance_timeout, submit member_id assignments g)
    else (answer (failed illegal_generation), g)

unfoldable pub sync_start : Bytes → ℕ → List (Bytes × Bytes) → Group → SyncStart × Group
sync_start member_id generation assignments g =
    sync_member member_id generation assignments g (Dict.get g.members member_id)

unfoldable pub sync_enter :
    Coordinator → Bytes → Bytes → ℕ → List (Bytes × Bytes) → SyncStart × Coordinator
sync_enter c group member_id generation assignments =
    on_group c group (answer (failed unknown_member_id))
      (sync_start member_id generation assignments) (Dict.get c.groups group)

abbrev pub assignment_of : GroupState → Member → Option SyncOutcome
assignment_of state m = elim m.assignment [
  | some bytes ↦ some (assigned bytes)
  | none ↦ if is_stable state then some (assigned []) else none
]

-- What a round of the loop of `sync` finds in the group.
abbrev pub found_member : GroupState → Option Member → Option SyncOutcome
found_member state none = some (failed unknown_member_id)
found_member state (some m) = assignment_of state m

-- What a round of the loop of `sync` finds in the group.
unfoldable pub sync_found : Bytes → ℕ → Group → Option SyncOutcome
sync_found member_id generation g =
    if nat_eq g.generation generation
    then found_member g.state (Dict.get g.members member_id)
    else some (failed rebalance_in_progress)

abbrev pub or_expired : ℕ → ℕ → Option SyncOutcome → Option SyncOutcome
or_expired deadline now (some outcome) = some outcome
or_expired deadline now none =
    if leb deadline now then some (failed rebalance_in_progress) else none

abbrev pub sync_round : Bytes → ℕ → ℕ → ℕ → Option Group → Option SyncOutcome
sync_round member_id generation deadline now none = some (failed unknown_member_id)
sync_round member_id generation deadline now (some g) =
    or_expired deadline now (sync_found member_id generation g)

unfoldable pub sync_poll : Coordinator → Bytes → Bytes → ℕ → ℕ → ℕ → Option SyncOutcome
sync_poll c group member_id generation deadline now =
    sync_round member_id generation deadline now (Dict.get c.groups group)

abbrev pub liveness_code : GroupState → ℕ
liveness_code stable = no_error
liveness_code preparing_rebalance = rebalance_in_progress
liveness_code completing_rebalance = rebalance_in_progress
liveness_code empty = unknown_member_id

abbrev pub refreshed : Group → Bytes → Member → ℕ → Group
refreshed g mid m now = record g {
  members = Dict.insert g.members mid (record m { last_heartbeat = now });
}

abbrev pub beat_member : Bytes → ℕ → ℕ → Group → Option Member → ℕ × Group
beat_member member_id generation now g none = (unknown_member_id, g)
beat_member member_id generation now g (some m) =
    let g' = refreshed g member_id m now in
    if nat_eq g'.generation generation
    then (liveness_code g'.state, g')
    else (illegal_generation, g')

unfoldable pub beat : Bytes → ℕ → ℕ → Group → ℕ × Group
beat member_id generation now g =
    let g' = expire_stale now g in
    beat_member member_id generation now g' (Dict.get g'.members member_id)

unfoldable pub heartbeat : Coordinator → Bytes → Bytes → ℕ → ℕ → ℕ × Coordinator
heartbeat c group member_id generation now =
    on_group c group unknown_member_id (beat member_id generation now) (Dict.get c.groups group)

abbrev pub after_leave : ℕ → Bytes → Group → Members → Group
after_leave deadline member_id g [] = record g {
  state = empty;
  leader = none;
  deadline = none;
  members = [];
}
after_leave deadline member_id g (m ∷ ms) =
    let leader = if names g.leader member_id then Dict.first_key (m ∷ ms) else g.leader in
    open_window deadline (record g { members = m ∷ ms; leader = leader })

unfoldable pub drop_member : ℕ → Bytes → Group → ℕ × Group
drop_member deadline member_id g =
    if Dict.contains_key g.members member_id
    then (no_error, after_leave deadline member_id g (Dict.remove g.members member_id))
    else (unknown_member_id, g)

unfoldable pub leave : Coordinator → Bytes → Bytes → ℕ → ℕ × Coordinator
leave c group member_id now =
    on_group c group unknown_member_id (drop_member (now + c.rebalance_delay) member_id)
      (Dict.get c.groups group)
