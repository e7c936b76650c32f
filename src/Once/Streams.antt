-- ===== src/Once/Streams.antt =====
-- The gate over all streams (crates/datarail-once/src/lib.rs): what a call of `admit` does to each.
use hu_gr_datarail.Prelude.{
  ℕ, ◌-◌, ◌≤◌, ◌<◌, ◌≡◌, ◌≢◌, refl, arith, if◌then◌else◌, Bool-cases, inl, inr, ℕ_eq, Bytes,
  Bytes_eq, bytes_eq, bytes_eq_iff,
}
use hu_gr_datarail.Prelude.Dict
use hu_gr_datarail.Prelude.Dict.{get-insert}
use hu_gr_datarail.Once.{
  Once, StreamState, entry, admit, admit_stream, low_watermark, gc_floor, u64_max, with_gc_lag,
}
use hu_gr_datarail.Once.Invariant.{IsValid}
use hu_gr_datarail.Once.Commit.{commit-Committed}
use hu_gr_datarail.Once.Delivery.{IsValid-default, admit_stream-IsValid, admit_cases, admit_fresh}

-- A call changes the entry of its own stream, as `admit_stream` does, and no other entry.
pub entry-admit :
    (o : Once) (s : Bytes) (seq : ℕ) (key : Bytes) (t : Bytes)
    → entry (admit o s seq key).1 t
      ≡ (if bytes_eq s t then (admit_stream o.gc_lag (entry o s) seq key).1 else entry o t)
unfolding admit
entry-admit o s seq key t =
    ground (arith, get-insert o.streams s t (admit_stream o.gc_lag (entry o s) seq key).1)

pub disposition-admit :
    (o : Once) (s : Bytes) (seq : ℕ) (key : Bytes)
    → ((admit o s seq key).0 ≡ (admit_stream o.gc_lag (entry o s) seq key).0)
      × ((admit o s seq key).1.gc_lag ≡ o.gc_lag)
unfolding admit
disposition-admit o s seq key = (refl, refl)

pub low_watermark-entry : (o : Once) (s : Bytes) → low_watermark o s ≡ (entry o s).low_watermark
unfolding low_watermark
low_watermark-entry o s = ground arith

pub gc_floor-entry : (o : Once) (s : Bytes) → gc_floor o s ≡ (entry o s).gc_floor
unfolding gc_floor
gc_floor-entry o s = ground arith

-- Every stream is valid, and its GC floor trails its watermark by the lag.
pub record IsSound (o : Once) : Type 0 where
  pub valid : (s : Bytes) → IsValid (entry o s)
  pub trails : (s : Bytes) → (entry o s).gc_floor ≡ (entry o s).low_watermark - o.gc_lag

pub IsSound-with_gc_lag : (seed : Bytes) (gc_lag : ℕ) → IsSound (with_gc_lag seed gc_lag)
unfolding Dict.get
IsSound-with_gc_lag seed gc_lag = record { valid = λ s. IsValid-default; trails = λ s. omega arith }

admit_stream_trails :
    (gc_lag : ℕ) (st : StreamState) (seq : ℕ) (key : Bytes)
    → seq < u64_max
    → IsValid st
    → st.gc_floor ≡ st.low_watermark - gc_lag
    → ((admit_stream gc_lag st seq key).1.gc_floor
        ≡ (admit_stream gc_lag st seq key).1.low_watermark - gc_lag)
      × (st.low_watermark ≤ (admit_stream gc_lag st seq key).1.low_watermark)
admit_stream_trails gc_lag st seq key b h e = elim (admit_cases gc_lag st seq key) [
  | inl f ↦
      let m = commit-Committed gc_lag st seq key b f h in
      rw (admit_fresh gc_lag st seq key f) (omega (arith, m.floor, m.rises), m.rises)
  | inr d ↦ rw d (e, omega arith)
]

-- A call of `admit` keeps every stream valid, with its floor `gc_lag` behind its watermark.
pub admit-IsSound :
    (o : Once) (s : Bytes) (seq : ℕ) (key : Bytes)
    → seq < u64_max
    → IsSound o
    → IsSound (admit o s seq key).1
admit-IsSound o s seq key b h = record {
  valid = λ t. elim (Bool-cases (bytes_eq s t)) [
    | inl e ↦ rw (entry-admit, e) (admit_stream-IsValid o.gc_lag (entry o s) seq key b (h.valid s))
    | inr n ↦ rw (entry-admit, n) (h.valid t)
  ];
  trails = λ t. elim (Bool-cases (bytes_eq s t)) [
    | inl e ↦
        rw (entry-admit, e, (disposition-admit o s seq key).1)
          (admit_stream_trails o.gc_lag (entry o s) seq key b (h.valid s) (h.trails s)).0
    | inr n ↦ rw (entry-admit, n, (disposition-admit o s seq key).1) (h.trails t)
  ];
}

-- The watermark of a stream never falls, and no call moves that of another stream.
pub low_watermark-admit :
    (o : Once) (s : Bytes) (seq : ℕ) (key : Bytes) (t : Bytes)
    → seq < u64_max
    → IsSound o
    → (low_watermark o t ≤ low_watermark (admit o s seq key).1 t)
      × (s ≢ t → low_watermark (admit o s seq key).1 t ≡ low_watermark o t)
low_watermark-admit o s seq key t b h =
    rw
      (
        low_watermark-entry o t,
        low_watermark-entry (admit o s seq key).1 t,
        entry-admit o s seq key t,
      )
      (elim (Bool-cases (bytes_eq s t)) [
        | inl e ↦
            let same : s ≡ t = (bytes_eq_iff s t).0 e in
            rw e (
              ground (
                arith,
                same,
                (admit_stream_trails o.gc_lag (entry o s) seq key b (h.valid s) (h.trails s)).1,
              ),
              λ n. absurd (n same),
            )
        | inr n ↦ rw n (omega arith, λ _. refl)
      ])
