-- ===== src/Once.antt =====
-- crates/datarail-once/src/lib.rs: the admission gate of a destination. A `[u8; 16]` stream id and a
-- `[u8; 32]` key are byte strings, a u64 is a number below 2 ^ 64, and `+= 1` wraps as a release
-- build does. The `while` loops take fuel; the modules below give the bounds that are enough.
pub mod Drain
pub mod Seal
pub mod Gc
pub mod Invariant
pub mod Commit
pub mod Delivery
pub mod History
pub mod Complete
pub mod Streams
pub mod Persist
mod Runs
use hu_gr_datarail.Prelude.{
  ℕ, zero, suc, ◌+◌, ◌-◌, ◌%◌, ◌^◌, max, Bool, true, false, Option, none, some, List, [], ◌∷◌,
  Bytes, Bytes_eq, ℕ_eq, length, ltb, nat_eq, if◌then◌else◌,
}
use hu_gr_datarail.Prelude.Dict
use hu_gr_datarail.Prelude.Dict.{Dict}
use hu_gr_datarail.Prelude.KeySet

-- `Disposition` of crates/datarail-core/src/lib.rs
pub data Disposition : Type 0 where
  delivered duplicate dead_lettered : Disposition

pub record StreamState : Type 0 where
  pub seen : List Bytes
  pub delivered_keys : Dict ℕ Bytes
  pub ahead : List ℕ
  pub low_watermark : ℕ
  pub gc_floor : ℕ

abbrev pub default_state : StreamState
default_state = record {
  seen = [];
  delivered_keys = [];
  ahead = [];
  low_watermark = 0;
  gc_floor = 0;
}

pub record Once : Type 0 where
  pub streams : Dict Bytes StreamState
  pub seed : Bytes
  pub gc_lag : ℕ

abbrev pub default_gc_lag : ℕ
default_gc_lag = 1024

abbrev pub max_reorder_horizon : ℕ
max_reorder_horizon = 2 ^ 20

abbrev pub u64_max : ℕ
u64_max = 2 ^ 64 - 1

-- `x += 1` on a u64
abbrev pub inc64 : ℕ → ℕ
inc64 x = (x + 1) % 2 ^ 64

abbrev pub with_gc_lag : Bytes → ℕ → Once
with_gc_lag seed gc_lag = record { streams = []; seed = seed; gc_lag = gc_lag }

abbrev pub new : Bytes → Once
new seed = with_gc_lag seed default_gc_lag

-- `while st.ahead.remove(&st.low_watermark) { st.low_watermark += 1; }`
unfoldable pub drain : ℕ → List ℕ → ℕ → List ℕ × ℕ
drain zero ahead low = (ahead, low)
drain (suc fuel) ahead low =
    let rest = drain fuel (KeySet.remove ahead low) (inc64 low) in
    if KeySet.contains ahead low then rest else (ahead, low)

-- Each round of `drain` takes one element off.
abbrev pub drain_all : List ℕ → ℕ → List ℕ × ℕ
drain_all ahead low = drain (length ahead) ahead low

-- `while st.ahead.len() > horizon { st.low_watermark += 1; drain }`
unfoldable pub seal : ℕ → ℕ → List ℕ → ℕ → List ℕ × ℕ
unfolding drain
seal zero horizon ahead low = (ahead, low)
seal (suc fuel) horizon ahead low =
    let (ahead', low') = drain_all ahead (inc64 low) in
    let rest = seal fuel horizon ahead' low' in
    if ltb horizon (length ahead) then rest else (ahead, low)

-- The largest parked seq: no gap below it takes more rounds of `seal`.
abbrev pub list_max : List ℕ → ℕ
list_max [] = 0
list_max (x ∷ xs) = max x (list_max xs)

-- Step (3) of `admit`, after the key is recorded.
unfoldable pub advance : StreamState → ℕ → StreamState
unfolding drain seal
advance st seq =
    if nat_eq seq st.low_watermark
    then (let (ahead, low) = drain_all st.ahead (inc64 st.low_watermark) in
        record st { ahead = ahead; low_watermark = low })
    else (let parked = KeySet.insert st.ahead seq in
        let (ahead, low) = seal (list_max parked) max_reorder_horizon parked st.low_watermark in
        record st { ahead = ahead; low_watermark = low })

-- One round of the loop of step (4).
unfoldable pub gc_step : StreamState → StreamState
gc_step st = elim (Dict.get st.delivered_keys st.gc_floor) [
  | none ↦ record st { gc_floor = inc64 st.gc_floor }
  | some k ↦ record st {
    delivered_keys = Dict.remove st.delivered_keys st.gc_floor;
    seen = KeySet.remove st.seen k;
    gc_floor = inc64 st.gc_floor;
  }
]

-- `while st.gc_floor < new_floor { .. st.gc_floor += 1; }`
unfoldable pub gc_loop : ℕ → ℕ → StreamState → StreamState
unfolding gc_step
gc_loop zero new_floor st = st
gc_loop (suc fuel) new_floor st =
    let rest = gc_loop fuel new_floor (gc_step st) in if ltb st.gc_floor new_floor then rest else st

-- Step (4): `saturating_sub` is the subtraction of ℕ.
unfoldable pub gc : ℕ → StreamState → StreamState
unfolding gc_loop
gc gc_lag st =
    let new_floor = st.low_watermark - gc_lag in gc_loop (new_floor - st.gc_floor) new_floor st

-- The first line of step (3).
abbrev pub record_key : StreamState → ℕ → Bytes → StreamState
record_key st seq key = record st {
  seen = KeySet.insert st.seen key;
  delivered_keys = Dict.insert st.delivered_keys seq key;
}

-- `admit` on the state of its stream.
unfoldable pub admit_stream : ℕ → StreamState → ℕ → Bytes → Disposition × StreamState
unfolding advance gc
admit_stream gc_lag st seq key =
    if ltb seq st.low_watermark
    then (duplicate, st)
    else if KeySet.contains st.seen key
    then (duplicate, st)
    else if Dict.contains_key st.delivered_keys seq
    then (duplicate, st)
    else (delivered, gc gc_lag (advance (record_key st seq key) seq))

-- `streams.entry(stream).or_default()`
abbrev pub entry : Once → Bytes → StreamState
entry o stream = elim (Dict.get o.streams stream) [ none ↦ default_state | some st ↦ st ]

unfoldable pub admit : Once → Bytes → ℕ → Bytes → Disposition × Once
unfolding admit_stream
admit o stream seq idempotency_key =
    let (disposition, st) = admit_stream o.gc_lag (entry o stream) seq idempotency_key in
    (disposition, record o { streams = Dict.insert o.streams stream st })

unfoldable pub low_watermark : Once → Bytes → ℕ
low_watermark o stream = elim (Dict.get o.streams stream) [ none ↦ 0 | some s ↦ s.low_watermark ]

unfoldable pub gc_floor : Once → Bytes → ℕ
gc_floor o stream = elim (Dict.get o.streams stream) [ none ↦ 0 | some s ↦ s.gc_floor ]
