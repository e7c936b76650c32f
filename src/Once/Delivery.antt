-- ===== src/Once/Delivery.antt =====
-- The decision of `admit` on one stream (crates/datarail-once/src/lib.rs).
use hu_gr_datarail.Prelude.{
  ℕ, ◌<◌, ◌≡◌, ◌↔◌, ◌⊎◌, ◌≢◌, ap, Bool, true, false, ◌||◌, arith, length, ltb, nat_eq, Bool-cases,
  inl, inr, ℕ_eq, Bytes, Bytes_eq,
}
use hu_gr_datarail.Prelude.KeySet
use hu_gr_datarail.Prelude.KeySet.{length-insert}
use hu_gr_datarail.Prelude.Dict
use hu_gr_datarail.Once.{
  StreamState, default_state, admit_stream, u64_max, max_reorder_horizon, delivered, duplicate,
}
use hu_gr_datarail.Once.Invariant.{IsValid}
use hu_gr_datarail.Once.Commit.{commit, IsFresh, commit-Committed}

-- `q` lies below the watermark or is recorded above it: it has been delivered (or sealed over).
unfoldable pub is_committed : StreamState → ℕ → Bool
is_committed st q = ltb q st.low_watermark || Dict.contains_key st.delivered_keys q

pub IsValid-default : IsValid default_state
unfolding KeySet.contains Dict.get
IsValid-default = record {
  low_bound = omega arith;
  floor_bound = omega arith;
  parked = λ s c. cc;
  short = omega arith;
  recorded = λ q c. cc;
  waiting = λ q l c. cc;
  indexed = record { sound = λ q k d. cc; complete = λ k c. cc; unique = λ q r k d d'. cc };
}

module _ (gc_lag : ℕ) (st : StreamState) (seq : ℕ) (key : Bytes) where
  pub admit_fresh :
      IsFresh st seq key → admit_stream gc_lag st seq key ≡ (delivered, commit gc_lag st seq key)
  unfolding admit_stream
  admit_fresh f = ground (arith, f.at_or_above, f.new_key, f.new_seq)

  pub admit_cases : IsFresh st seq key ⊎ (admit_stream gc_lag st seq key ≡ (duplicate, st))
  unfolding admit_stream
  admit_cases = elim (Bool-cases (ltb seq st.low_watermark)) [
    | inl a ↦ inr (rw a)
    | inr a ↦ elim (Bool-cases (KeySet.contains st.seen key)) [
      | inl b ↦ inr (rw (a, b))
      | inr b ↦ elim (Bool-cases (Dict.contains_key st.delivered_keys seq)) [
        | inl c ↦ inr (ground (arith, a, b, c))
        | inr c ↦ inl (record { at_or_above = ground (arith, a); new_key = b; new_seq = c })
      ]
    ]
  ]

  -- A record is delivered exactly when its seq is not below the watermark and neither its key nor
  -- its seq is recorded; otherwise it is a duplicate, and the stream is left as it was.
  pub admit_stream_iff :
      ((admit_stream gc_lag st seq key).0 ≡ delivered ↔ IsFresh st seq key)
      × ((admit_stream gc_lag st seq key).0 ≢ delivered
          → admit_stream gc_lag st seq key ≡ (duplicate, st))
  admit_stream_iff = elim admit_cases [
    | inl f ↦ (
      (λ _. f, λ _. ap (λ r. r.0) (admit_fresh f)),
      λ n. absurd (n (ap (λ r. r.0) (admit_fresh f))),
    )
    | inr d ↦ ((λ e. cc, λ f. ap (λ r. r.0) (admit_fresh f)), λ _. d)
  ]

-- A committed seq is a duplicate, under its old key or a new one.
pub admit_committed :
    (gc_lag : ℕ) (st : StreamState) (seq : ℕ) (key : Bytes)
    → is_committed st seq ≡ true
    → admit_stream gc_lag st seq key ≡ (duplicate, st)
unfolding is_committed
admit_committed gc_lag st seq key c = elim (admit_cases gc_lag st seq key) [
  | inl f ↦ absurd (ground (arith, f.at_or_above, f.new_seq))
  | inr d ↦ d
]

-- A call of `admit` keeps the invariant of its stream.
pub admit_stream-IsValid :
    (gc_lag : ℕ) (st : StreamState) (seq : ℕ) (key : Bytes)
    → seq < u64_max
    → IsValid st
    → IsValid (admit_stream gc_lag st seq key).1
admit_stream-IsValid gc_lag st seq key b h = elim (admit_cases gc_lag st seq key) [
  | inl f ↦ rw (admit_fresh gc_lag st seq key f) (commit-Committed gc_lag st seq key b f h).valid
  | inr d ↦ rw d h
]

-- What is committed stays committed, whatever is admitted later.
pub is_committed-admit_stream :
    (gc_lag : ℕ) (st : StreamState) (seq : ℕ) (key : Bytes) (q : ℕ)
    → seq < u64_max
    → IsValid st
    → is_committed st q ≡ true
    → is_committed (admit_stream gc_lag st seq key).1 q ≡ true
unfolding is_committed
is_committed-admit_stream gc_lag st seq key q b h c = elim (admit_cases gc_lag st seq key) [
  | inl f ↦
      let m = commit-Committed gc_lag st seq key b f h in
      rw (admit_fresh gc_lag st seq key f) (ground (arith, m.rises, m.keys q, m.valid.floor_bound))
  | inr d ↦ rw d c
]

-- What was delivered is committed, and was not before.
pub is_committed-delivered :
    (gc_lag : ℕ) (st : StreamState) (seq : ℕ) (key : Bytes)
    → seq < u64_max
    → IsValid st
    → (admit_stream gc_lag st seq key).0 ≡ delivered
    → (is_committed (admit_stream gc_lag st seq key).1 seq ≡ true) × (is_committed st seq ≡ false)
unfolding is_committed
is_committed-delivered gc_lag st seq key b h e =
    let f = (admit_stream_iff gc_lag st seq key).0.0 e in
    let m = commit-Committed gc_lag st seq key b f h in
    rw (admit_fresh gc_lag st seq key f)
      (ground (arith, m.keys seq, m.valid.floor_bound), ground (arith, f.at_or_above, f.new_seq))

-- While fewer seqs are parked than the reorder horizon allows, a delivery commits its own seq and no
-- other.
pub is_committed-commit :
    (gc_lag : ℕ) (st : StreamState) (seq : ℕ) (key : Bytes) (q : ℕ)
    → seq < u64_max
    → IsValid st
    → length st.ahead < max_reorder_horizon
    → IsFresh st seq key
    → is_committed (commit gc_lag st seq key) q ≡ (nat_eq seq q || is_committed st q)
unfolding is_committed
is_committed-commit gc_lag st seq key q b h short f =
    let m = commit-Committed gc_lag st seq key b f h in
    ground
      (arith, m.rises, m.keys q, m.valid.floor_bound, m.passed short q, h.recorded q, f.at_or_above)
