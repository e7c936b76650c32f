-- ===== src/Once/Commit.antt =====
-- The committing branch of `admit` (crates/datarail-once/src/lib.rs): what it does to its stream,
-- and that it keeps the invariant.
use hu_gr_datarail.Prelude.{
  ℕ, suc, ◌-◌, ◌≤◌, ◌<◌, ◌≡◌, ap, true, false, ◌&&◌, ◌||◌, arith, length, ltb, leb, nat_eq,
  if◌then◌else◌, Bool-cases, inl, inr, ℕ_eq, Bytes, Bytes_eq, max, some, none, bytes_eq_iff,
  bytes_eq,
}
use hu_gr_datarail.Prelude.KeySet
use hu_gr_datarail.Prelude.KeySet.{contains-insert}
use hu_gr_datarail.Prelude.Dict
use hu_gr_datarail.Prelude.Dict.{get-insert}
use hu_gr_datarail.Once.{StreamState, advance, gc, record_key, u64_max, max_reorder_horizon}
use hu_gr_datarail.Once.Gc.{IsIndexed, Collected, gc-Collected, gc-IsIndexed}
use hu_gr_datarail.Once.Invariant.{IsValid, Advanced, advance-Advanced}

abbrev pub commit : ℕ → StreamState → ℕ → Bytes → StreamState
commit gc_lag st seq key = gc gc_lag (advance (record_key st seq key) seq)

-- The state after a commit, field by field.
pub record Committed (gc_lag : ℕ) (st : StreamState) (seq : ℕ) (key : Bytes) (st' : StreamState)
    : Type 0 where
  pub rises : st.low_watermark ≤ st'.low_watermark
  pub left :
      (s : ℕ)
      → KeySet.contains st'.ahead s
        ≡ (leb st'.low_watermark s && (nat_eq seq s || KeySet.contains st.ahead s))
  pub passed :
      length st.ahead < max_reorder_horizon
      → (s : ℕ) → st.low_watermark ≤ s
      → s < st'.low_watermark
      → (nat_eq seq s || KeySet.contains st.ahead s) ≡ true
  pub grows : length st'.ahead ≤ suc (length st.ahead)
  pub floor : st'.gc_floor ≡ max st.gc_floor (st'.low_watermark - gc_lag)
  pub keys :
      (q : ℕ)
      → Dict.get st'.delivered_keys q ≡ (
          if leb st.gc_floor q && ltb q st'.gc_floor
          then none
          else if nat_eq seq q
          then some key
          else Dict.get st.delivered_keys q)
  pub valid : IsValid st'

-- The branch is reached with a seq at or above the watermark, and a key and a seq not yet recorded.
pub record IsFresh (st : StreamState) (seq : ℕ) (key : Bytes) : Type 0 where
  pub at_or_above : st.low_watermark ≤ seq
  pub new_key : KeySet.contains st.seen key ≡ false
  pub new_seq : Dict.contains_key st.delivered_keys seq ≡ false

record_key-IsIndexed :
    (st : StreamState) (seq : ℕ) (key : Bytes)
    → IsFresh st seq key
    → IsIndexed st
    → IsIndexed (record_key st seq key)
record_key-IsIndexed st seq key f h = record {
  sound = λ q k d. ground (
    arith,
    get-insert st.delivered_keys seq q key,
    contains-insert st.seen key k,
    bytes_eq_iff key k,
    h.sound q k,
  );
  complete = λ k d. elim (Bool-cases (bytes_eq key k)) [
    | inl e ↦ (seq, ground (arith, get-insert st.delivered_keys seq seq key, bytes_eq_iff key k))
    | inr n ↦
        let (q, g) =
          h.complete k (ground (arith, contains-insert st.seen key k, bytes_eq_iff key k)) in
        (q, ground (arith, f.new_seq, get-insert st.delivered_keys seq q key))
  ];
  unique = λ q r k d d'. ground (
    arith,
    f.new_key,
    get-insert st.delivered_keys seq q key,
    get-insert st.delivered_keys seq r key,
    h.sound q k,
    h.sound r k,
    h.unique q r k,
  );
}

IsIndexed-same :
    (a b : StreamState)
    → b.seen ≡ a.seen
    → b.delivered_keys ≡ a.delivered_keys
    → IsIndexed a
    → IsIndexed b
IsIndexed-same a b s d h = record {
  sound = rw (s, d) h.sound;
  complete = rw (s, d) h.complete;
  unique = rw d h.unique;
}

module _ (gc_lag : ℕ) (st : StreamState) (seq : ℕ) (key : Bytes) (bound : seq < u64_max)
    (fresh : IsFresh st seq key) (h : IsValid st) where
  moved : Advanced (record_key st seq key) seq (advance (record_key st seq key) seq)
  moved = advance-Advanced (record_key st seq key) seq bound h.short h.parked fresh.at_or_above

  swept : Collected (advance (record_key st seq key) seq) (commit gc_lag st seq key) (
      max
        (advance (record_key st seq key) seq).gc_floor
        ((advance (record_key st seq key) seq).low_watermark - gc_lag))
  swept = gc-Collected gc_lag (advance (record_key st seq key) seq) moved.bound

  low_eq :
      (commit gc_lag st seq key).low_watermark ≡ (advance (record_key st seq key) seq).low_watermark
  low_eq = swept.low

  floor_eq :
      (commit gc_lag st seq key).gc_floor
      ≡ max st.gc_floor ((commit gc_lag st seq key).low_watermark - gc_lag)
  floor_eq = omega (arith, swept.floor, swept.low, moved.floor)

  keys_eq :
      (q : ℕ)
      → Dict.get (commit gc_lag st seq key).delivered_keys q ≡ (
          if leb st.gc_floor q && ltb q (commit gc_lag st seq key).gc_floor
          then none
          else if nat_eq seq q
          then some key
          else Dict.get st.delivered_keys q)
  keys_eq q = ground (
    arith,
    swept.keys q,
    swept.floor,
    swept.low,
    moved.floor,
    floor_eq,
    ap (λ d. Dict.get d q) moved.keys,
    get-insert st.delivered_keys seq q key,
  )

  left_eq :
      (s : ℕ)
      → KeySet.contains (commit gc_lag st seq key).ahead s ≡ (
          leb (commit gc_lag st seq key).low_watermark s
          && (nat_eq seq s || KeySet.contains st.ahead s))
  left_eq s = rw (swept.ahead, swept.low) (moved.left s)

  indexed : IsIndexed (commit gc_lag st seq key)
  indexed = gc-IsIndexed gc_lag _ (
      IsIndexed-same (record_key st seq key) _ moved.seen moved.keys
        (record_key-IsIndexed st seq key fresh h.indexed))

  pub commit-Committed : Committed gc_lag st seq key (commit gc_lag st seq key)
  commit-Committed = record {
    rises = omega (arith, moved.rises, swept.low);
    left = left_eq;
    passed = λ fits s l u. moved.passed fits s l (omega (arith, swept.low));
    grows = rw swept.ahead moved.grows;
    floor = floor_eq;
    keys = keys_eq;
    valid = record {
      low_bound = omega (arith, moved.bound, swept.low);
      floor_bound = omega (arith, floor_eq, h.floor_bound, moved.rises, swept.low);
      parked = rw (swept.ahead, swept.low) moved.parked;
      short = rw swept.ahead moved.short;
      recorded = λ q c. ground (arith, keys_eq q, left_eq q, floor_eq, h.floor_bound, h.recorded q);
      waiting = λ q l c.
          ground (arith, keys_eq q, left_eq q, floor_eq, h.waiting q, moved.rises, swept.low);
      indexed = indexed;
    };
  }
