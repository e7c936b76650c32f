-- ===== src/Topic.antt =====
-- crates/datarail-topic/src/lib.rs: a topic over a replay log, and consumer groups with their cursors. The
-- log and its readers are given by their operations.
use hu_gr_datarail.Prelude.{
  ℕ, suc, ◌+◌, ◌-◌, ◌^◌, ◌%◌, Bool, Option, none, some, List, [], ◌∷◌, ◌++◌, Bytes, length, take,
  drop, ltb, leb, if◌then◌else◌,
}
use hu_gr_datarail.Prelude.Words.{le_bytes, le_value}
use hu_gr_datarail.Keyrouter.{Router, add_node, remove_node, from_nodes, route}
pub mod Dispatch
pub mod Retained
mod Runs

pub data Outcome {ℓ} (A : Type ℓ) : Type ℓ where
  ok : A → Outcome A
  log_error : Bytes → Outcome A
  corrupt no_members : Outcome A

-- what a topic calls of the `ReplayLog` and of a `Replay` that reads it; an error is its text
pub record LogOps (L R : Type 0) : Type 0 where
  pub append : L → Bytes → Outcome ℕ × L
  pub sync : L → Option Bytes × L
  pub end_offset : L → ℕ
  pub replay_from : L → ℕ → Outcome R
  pub read_next : R → Outcome (Option (ℕ × Bytes)) × R

pub record Dispatched : Type 0 where
  pub member : ℕ
  pub offset : ℕ
  pub key : Bytes
  pub payload : Bytes

pub record Group (R : Type 0) : Type 0 where
  pub router : Router
  pub cursor : ℕ
  pub replay : Option R

unfoldable pub record_of : Bytes → Bytes → Bytes
record_of key payload = (le_bytes 4 (length key) ++ key) ++ payload

unfoldable pub split_record : Bytes → Option (Bytes × Bytes)
split_record rec =
    let key_len = le_value (take 4 rec) in
    let body = drop 4 rec in
    if ltb (length rec) 4
    then none
    else if ltb (length body) key_len
    then none
    else some (take key_len body, drop key_len body)

-- `if group.router.is_empty()`
abbrev pub if_empty {ℓ} : {A : Type ℓ} → List ℕ → A → A → A
if_empty [] x y = x
if_empty (member ∷ members) x y = y

module _ {L R : Type 0} (logs : LogOps L R) where
  unfoldable pub produce : L → Bytes → Bytes → Outcome ℕ × L
  produce log key payload =
      let appended = logs.append log (record_of key payload) in
      if ltb (length key) (2 ^ 32) then appended else (corrupt, log)

  unfoldable pub new_group : List ℕ → Group R
  new_group members = record {
    router = from_nodes (record { nodes = [] }) members;
    cursor = 0;
    replay = none;
  }

  unfoldable pub add_member : Group R → ℕ → Bool × Group R
  add_member g id =
      let (added, router) = add_node g.router id in (added, record g { router = router })

  unfoldable pub remove_member : Group R → ℕ → Bool × Group R
  remove_member g id =
      let (removed, router) = remove_node g.router id in (removed, record g { router = router })

  unfoldable pub seek : Group R → ℕ → Group R
  seek g offset = record g { cursor = offset; replay = none }

  -- The record has an owner, as the group has members.
  unfoldable pub on_route :
      Group R → ℕ → Bytes → Bytes → Option ℕ → Outcome (Option Dispatched) × Group R
  on_route g offset key payload none = (corrupt, g)
  on_route g offset key payload (some member) =
      (ok (some (record { member = member; offset = offset; key = key; payload = payload })), g)

  unfoldable pub on_split :
      Group R → ℕ → ℕ → Option (Bytes × Bytes) → Outcome (Option Dispatched) × Group R
  on_split g offset size none = (corrupt, g)
  on_split g offset size (some (key, payload)) =
      on_route (record g { cursor = (offset + 8 + size) % 2 ^ 64 }) offset key payload
        (route g.router key)

  unfoldable pub on_read :
      Group R → Outcome (Option (ℕ × Bytes)) × R → Outcome (Option Dispatched) × Group R
  on_read g (ok none, reader) = (ok none, record g { replay = none })
  on_read g (ok (some (offset, rec)), reader) =
      on_split (record g { replay = some reader }) offset (length rec) (split_record rec)
  on_read g (log_error e, reader) = (log_error e, record g { replay = some reader })
  on_read g (corrupt, reader) = (corrupt, record g { replay = some reader })
  on_read g (no_members, reader) = (no_members, record g { replay = some reader })

  -- the reader of the group, or a new one at its cursor
  unfoldable pub on_reader : Group R → Outcome R → Outcome (Option Dispatched) × Group R
  on_reader g (ok reader) = on_read g (logs.read_next reader)
  on_reader g (log_error e) = (log_error e, g)
  on_reader g corrupt = (corrupt, g)
  on_reader g no_members = (no_members, g)

  unfoldable pub reader_of : L → Group R → Option R → Outcome R
  reader_of log g none = logs.replay_from log g.cursor
  reader_of log g (some reader) = ok reader

  unfoldable pub dispatch_next : L → Group R → Outcome (Option Dispatched) × Group R
  dispatch_next log g =
      if_empty g.router.nodes (no_members, g) (on_reader g (reader_of log g g.replay))
