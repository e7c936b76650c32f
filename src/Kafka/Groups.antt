-- ===== src/Kafka/Groups.antt =====
-- crates/datarail-kafka/src/coordinator.rs: the consumer-group coordinator. A call that parks is cut
-- at the waits into the steps that it makes under the lock, each of them a function here. A
-- `Duration` is its milliseconds, an `Instant` the milliseconds since an origin, an i32 its bit
-- pattern, and a `String` its bytes.
pub mod Calls
pub mod Sound
pub mod Steps
pub mod Orders
pub mod Answers
pub mod Fences
mod Runs
use hu_gr_datarail.Prelude.{
  ℕ, zero, suc, ◌+◌, ◌-◌, ◌/◌, ◌%◌, ◌^◌, min, max, Bool, true, false, not, ◌&&◌, ◌||◌, Option, none,
  some, List, [], ◌∷◌, ◌++◌, map, Bytes, Bytes_eq, ◌==◌, bytes_lt, ltb, leb, nat_eq, length,
  if◌then◌else◌,
}
use hu_gr_datarail.Prelude.Dict
use hu_gr_datarail.Prelude.Dict.{Dict}

abbrev pub no_error : ℕ
no_error = 0

abbrev pub illegal_generation : ℕ
illegal_generation = 22

abbrev pub unknown_member_id : ℕ
unknown_member_id = 25

abbrev pub rebalance_in_progress : ℕ
rebalance_in_progress = 27

pub data GroupState : Type 0 where
  empty preparing_rebalance completing_rebalance stable : GroupState

pub record Member : Type 0 where
  pub subscription : Bytes
  pub protocols : List Bytes
  pub assignment : Option Bytes
  pub last_heartbeat : ℕ
  pub session_timeout : ℕ
  pub rebalance_timeout : ℕ

abbrev pub Members : Type 0
Members = Dict Bytes Member

pub record Group : Type 0 where
  pub state : GroupState
  pub generation : ℕ
  pub protocol_type : Bytes
  pub protocol : Option Bytes
  pub leader : Option Bytes
  pub members : Members
  pub deadline : Option ℕ
  pub member_seq : ℕ

abbrev pub new_group : Group
new_group = record {
  state = empty;
  generation = 0;
  protocol_type = [];
  protocol = none;
  leader = none;
  members = [];
  deadline = none;
  member_seq = 0;
}

abbrev pub is_live : ℕ → Member → Bool
is_live now m = ltb (now - m.last_heartbeat) m.session_timeout

abbrev pub names : Option Bytes → Bytes → Bool
names none mid = false
names (some l) mid = l == mid

-- `leader.is_some_and(|l| !members.contains_key(l))`
abbrev pub lost_leader : Option Bytes → Members → Bool
lost_leader none members = false
lost_leader (some l) members = not (Dict.contains_key members l)

abbrev pub after_expiry : Group → Members → Group
after_expiry g [] = record g { state = empty; leader = none; members = [] }
after_expiry g (m ∷ ms) =
    if lost_leader g.leader (m ∷ ms)
    then record g { leader = Dict.first_key (m ∷ ms); members = m ∷ ms }
    else record g { members = m ∷ ms }

-- The callers drop its result, whether a member was removed.
unfoldable pub expire_stale : ℕ → Group → Group
expire_stale now g =
    let left = Dict.retain (λ mid m. is_live now m) g.members in
    if nat_eq (length left) (length g.members)
    then record g { members = left }
    else after_expiry g left

unfoldable pub mem : List Bytes → Bytes → Bool
mem [] name = false
mem (p ∷ ps) name = p == name || mem ps name

unfoldable pub all_support : Members → Bytes → Bool
all_support [] name = true
all_support ((mid, m) ∷ ms) name = mem m.protocols name && all_support ms name

abbrev pub first_of : List Bytes → Option Bytes
first_of [] = none
first_of (p ∷ ps) = some p

unfoldable pub first_common : Members → List Bytes → Option Bytes → Option Bytes
first_common ms [] fallback = fallback
first_common ms (p ∷ ps) fallback =
    let rest = first_common ms ps fallback in if all_support ms p then some p else rest

unfoldable pub select_protocol : Members → Option Bytes
select_protocol [] = none
select_protocol ((mid, m) ∷ ms) = first_common ((mid, m) ∷ ms) m.protocols (first_of m.protocols)

-- The decimal digits of a number, with as many rounds as a u64 has digits.
unfoldable pub decimal : ℕ → ℕ → Bytes
decimal zero n = (48 + n % 10) ∷ []
decimal (suc rounds) n =
    let higher = decimal rounds (n / 10) in
    if ltb n 10 then (48 + n) ∷ [] else higher ++ ((48 + n % 10) ∷ [])

-- `format!("datarail-{group}-{seq}")`
unfoldable pub member_name : Bytes → ℕ → Bytes
member_name group seq =
    (100 ∷ 97 ∷ 116 ∷ 97 ∷ 114 ∷ 97 ∷ 105 ∷ 108 ∷ 45 ∷ []) ++ (group ++ (45 ∷ decimal 19 seq))

pub record JoinMember : Type 0 where
  pub member_id : Bytes
  pub session_timeout_ms : ℕ
  pub rebalance_timeout_ms : ℕ
  pub protocol_type : Bytes
  pub protocols : List (Bytes × Bytes)

-- `u64::try_from(ms).unwrap_or(30_000).clamp(1, 3_600_000)` of an i32
abbrev pub clamped : ℕ → ℕ
clamped ms = max 1 (min 3_600_000 (if ltb ms (2 ^ 31) then ms else 30_000))

abbrev pub protocol_names : List (Bytes × Bytes) → List Bytes
protocol_names protocols = map (λ p. p.0) protocols

abbrev pub first_metadata : List (Bytes × Bytes) → Bytes
first_metadata [] = []
first_metadata ((name, metadata) ∷ ps) = metadata

abbrev pub split_protocols : List (Bytes × Bytes) → List Bytes × Bytes
split_protocols protocols = (protocol_names protocols, first_metadata protocols)

-- `checked_add(1).unwrap_or(1)` of an i32
abbrev pub next_generation : ℕ → ℕ
next_generation generation = if nat_eq generation (2 ^ 31 - 1) then 1 else (generation + 1) % 2 ^ 32

abbrev pub without_assignment : Member → Member
without_assignment m = record m { assignment = none }

-- A rebalance opens: a new generation, a window, and no assignments.
abbrev pub open_window : ℕ → Group → Group
open_window deadline g = record g {
  state = preparing_rebalance;
  generation = next_generation g.generation;
  deadline = some deadline;
  members = Dict.map_values without_assignment g.members;
}

abbrev pub is_preparing : GroupState → Bool
is_preparing preparing_rebalance = true
is_preparing empty = false
is_preparing completing_rebalance = false
is_preparing stable = false

abbrev pub is_stable : GroupState → Bool
is_stable stable = true
is_stable empty = false
is_stable preparing_rebalance = false
is_stable completing_rebalance = false

abbrev pub is_empty_name : Bytes → Bool
is_empty_name [] = true
is_empty_name (b ∷ bs) = false

unfoldable pub joined : Bytes → JoinMember → ℕ → Group → Group
joined mid request now g =
    let (protocols, subscription) = split_protocols request.protocols in
    record g {
      members = Dict.insert_by bytes_lt g.members mid (record {
        subscription = subscription;
        protocols = protocols;
        assignment = none;
        last_heartbeat = now;
        session_timeout = clamped request.session_timeout_ms;
        rebalance_timeout = clamped request.rebalance_timeout_ms;
      });
      protocol_type =
          (if is_empty_name request.protocol_type then g.protocol_type else request.protocol_type);
    }

unfoldable pub named : Bytes → JoinMember → Group → Bytes × Group
named group request g =
    let seq = (g.member_seq + 1) % 2 ^ 64 in
    if is_empty_name request.member_id
    then (member_name group seq, record g { member_seq = seq })
    else (request.member_id, g)

-- `register_member` on the group, or on a new one
unfoldable pub register_member : ℕ → Bytes → JoinMember → ℕ → Group → Bytes × Group
register_member rebalance_delay group request now g =
    let (mid, g') = named group request (expire_stale now g) in
    let g'' = joined mid request now g' in
    (mid, (if is_preparing g''.state then g'' else open_window (now + rebalance_delay) g''))
