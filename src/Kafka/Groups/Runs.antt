-- ===== src/Kafka/Groups/Runs.antt =====
-- The group coordinator at work.
use hu_gr_datarail.Kafka.Groups.Calls.{sync_start, answer}
use hu_gr_datarail.Prelude.{
  ℕ, ◌≡◌, ◌⊎◌, refl, none, some, List, [], ◌∷◌, Bytes, Bytes_eq, bytes_eq, bytes_lt, arith,
}
use hu_gr_datarail.Prelude.Dict
use hu_gr_datarail.Kafka.Groups.{
  Group, Member, JoinMember, stable, completing_rebalance, register_member, illegal_generation,
  unknown_member_id, rebalance_in_progress, no_error, select_protocol, first_common, all_support,
  mem, expire_stale, joined, named,
}
use hu_gr_datarail.Kafka.Groups.Calls.{
  Coordinator, new_coordinator, submit, sync_found, assigned, failed, beat, join_enter, join_poll,
  join_round,
}
use hu_gr_datarail.Kafka.Groups.Sound.{IsSound}
use hu_gr_datarail.Kafka.Groups.Orders.{Step, join_enters, join_polls, steps, steps-IsSound}
use hu_gr_datarail.Kafka.Groups.Answers.{given, bytes_of, sync_found-submit, beat-expires}
use hu_gr_datarail.Kafka.Groups.Fences.{register_member-fences}

-- the group "g", and the members "a" and "b"
abbrev team : Bytes
team = 103 ∷ []

abbrev ann : Bytes
ann = 97 ∷ []

abbrev bob : Bytes
bob = 98 ∷ []

abbrev joins : Bytes → ℕ → JoinMember
joins mid session = record {
  member_id = mid;
  session_timeout_ms = session;
  rebalance_timeout_ms = 60_000;
  protocol_type = [];
  protocols = ((114 ∷ []), (1 ∷ [])) ∷ [];
}

abbrev start : Coordinator
start = new_coordinator 3000 30_000

-- Both join within the window, and a poll closes it.
abbrev formed_steps : List Step
formed_steps =
    join_enters team (joins bob 10_000) 0
    ∷ join_enters team (joins ann 5000) 1000
    ∷ join_polls team ann 3000
    ∷ []

abbrev worker : Bytes → ℕ → ℕ → Member
worker metadata seen session = record {
  subscription = metadata;
  protocols = (114 ∷ []) ∷ [];
  assignment = none;
  last_heartbeat = seen;
  session_timeout = session;
  rebalance_timeout = 60_000;
}

abbrev formed : Group
formed = record {
  state = completing_rebalance;
  generation = 1;
  protocol_type = [];
  protocol = some (114 ∷ []);
  leader = some ann;
  members = (ann, worker (1 ∷ []) 1000 5000) ∷ (bob, worker (1 ∷ []) 0 10_000) ∷ [];
  deadline = some 3000;
  member_seq = 0;
}

abbrev running : Group
running = record formed { state = stable }

steps-formed : Dict.get (steps start formed_steps).groups team ≡ some formed
unfolding steps join_enter join_poll join_round register_member expire_stale joined named Dict.get
    Dict.insert Dict.insert_by Dict.retain Dict.remove Dict.map_values select_protocol first_common
    all_support mem bytes_lt bytes_eq
steps-formed = refl

formed-IsSound : IsSound formed
formed-IsSound = steps-IsSound 3000 30_000 formed_steps team formed steps-formed

steps-IsSound_example : IsSound formed
steps-IsSound_example = steps-IsSound 3000 30_000 formed_steps team formed steps-formed

abbrev plan : List (Bytes × Bytes)
plan = (bob, (7 ∷ [])) ∷ (bob, (8 ∷ [])) ∷ []

sync_found-submit_example :
    sync_found bob 1 (submit ann plan formed) ≡ some (assigned (bytes_of (given plan bob none)))
unfolding Dict.get bytes_eq
sync_found-submit_example = sync_found-submit formed ann bob plan formed-IsSound refl refl refl refl

abbrev hall : Coordinator
hall = record { groups = (team, formed) ∷ []; rebalance_delay = 3000; sync_timeout = 30_000 }

beat-expires_example :
    ((beat bob 1 8000 running).0 ≡ no_error)
    × ((beat bob 1 8000 running).1.state ≡ stable)
    × ((beat bob 1 8000 running).1.generation ≡ 1)
    × (Dict.get (beat bob 1 8000 running).1.members ann ≡ none)
unfolding Dict.get bytes_eq
beat-expires_example =
    beat-expires running bob ann (worker (1 ∷ []) 0 10_000) (worker (1 ∷ []) 1000 5000) 8000 refl
      refl refl refl refl

register_member-fences_example :
    let g' = (register_member 3000 team (joins ann 5000) 4000 running).1 in
    (sync_found bob 1 g' ≡ some (failed rebalance_in_progress))
    × ((sync_start bob 1 plan g' ≡ (answer (failed illegal_generation), g'))
        ⊎ ((sync_start bob 1 plan g' ≡ (answer (failed unknown_member_id), g'))
            × (Dict.get g'.members bob ≡ none)))
    × (((beat bob 1 4001 g').0 ≡ illegal_generation) ⊎ ((beat bob 1 4001 g').0 ≡ unknown_member_id))
unfolding expire_stale Dict.retain Dict.remove
register_member-fences_example =
    register_member-fences 3000 team (joins ann 5000) 4000 4001 running bob plan refl (omega arith)
