-- ===== src/Once/Complete.antt =====
-- Nothing that arrives is lost (crates/datarail-once/src/lib.rs): over a run that does not reach the
-- reorder horizon, with one key for each seq, a seq is delivered exactly once if it arrives at all.
use hu_gr_datarail.Prelude.{
  ℕ, suc, ◌+◌, ◌≤◌, ◌<◌, ◌≡◌, ◌↔◌, ap, refl, true, false, ◌&&◌, ◌||◌, not, arith, length, leb,
  nat_eq, if◌then◌else◌, Bool-cases, inl, inr, ℕ_eq, Bytes, Bytes_eq, [], List, ◌∷◌, bytes_eq,
  bytes_eq_iff, All, some, sym, ◌∙◌, subst,
}
use hu_gr_datarail.Prelude.Dict
use hu_gr_datarail.Prelude.KeySet
use hu_gr_datarail.Once.{
  Once, StreamState, Disposition, entry, admit, admit_stream, low_watermark, u64_max,
  max_reorder_horizon, with_gc_lag,
}
use hu_gr_datarail.Once.Invariant.{IsValid}
use hu_gr_datarail.Once.Commit.{IsFresh, commit-Committed}
use hu_gr_datarail.Once.Delivery.{is_committed, admit_fresh, admit_committed, is_committed-commit}
use hu_gr_datarail.Once.Streams.{
  IsSound, IsSound-with_gc_lag, admit-IsSound, entry-admit, disposition-admit, low_watermark-entry,
}
use hu_gr_datarail.Once.History.{
  Arrival, is_delivered, run, run-IsSound, deliveries, arrives, InRange,
}

-- The key of a stream's seq: fixed, and different for different seqs.
pub record KeyScheme (key_of : Bytes → ℕ → Bytes) : Type 0 where
  pub apart : (s : Bytes) (q r : ℕ) → key_of s q ≡ key_of s r → q ≡ r

module _ (key_of : Bytes → ℕ → Bytes) (scheme : KeyScheme key_of) where
  abbrev pub IsKeyed : List Arrival → Type 0
  IsKeyed = All (λ r. r.key ≡ key_of r.stream r.seq)

  -- The recorded keys of a stream are those of the scheme.
  abbrev KeepsScheme : Bytes → StreamState → Type 0
  KeepsScheme s st = (q : ℕ) (k : Bytes) → Dict.get st.delivered_keys q ≡ some k → k ≡ key_of s q

  IsFresh-of_uncommitted :
      (s : Bytes) (st : StreamState) (seq : ℕ)
      → IsValid st
      → KeepsScheme s st
      → is_committed st seq ≡ false
      → IsFresh st seq (key_of s seq)
  unfolding is_committed
  IsFresh-of_uncommitted s st seq h keeps c = record {
    at_or_above = ground (arith, c);
    new_key = elim (Bool-cases (KeySet.contains st.seen (key_of s seq))) [
      | inl m ↦
          let (q, e) = h.indexed.complete (key_of s seq) m in
          let same : q ≡ seq = scheme.apart s q seq (sym (keeps q (key_of s seq) e)) in
          ground (arith, c, ap (λ n. Dict.get st.delivered_keys n) same)
      | inr n ↦ n
    ];
    new_seq = ground (arith, c);
  }

  -- One arrival at its own stream.
  record Step (s : Bytes) (st : StreamState) (seq : ℕ) (d : Disposition) (st' : StreamState)
      : Type 0 where
    grows : length st'.ahead ≤ suc (length st.ahead)
    keeps : KeepsScheme s st'
    hits : is_delivered d ≡ not (is_committed st seq)
    commits : (q : ℕ) → is_committed st' q ≡ (nat_eq seq q || is_committed st q)

  admit_stream-Step :
      (gc_lag : ℕ) (s : Bytes) (st : StreamState) (seq : ℕ)
      → seq < u64_max
      → IsValid st
      → KeepsScheme s st
      → length st.ahead < max_reorder_horizon
      → Step s st seq
          (admit_stream gc_lag st seq (key_of s seq)).0
          (admit_stream gc_lag st seq (key_of s seq)).1
  admit_stream-Step gc_lag s st seq b h keeps short = elim (Bool-cases (is_committed st seq)) [
    | inl c ↦ rw (admit_committed gc_lag st seq (key_of s seq) c) (record {
      grows = omega arith;
      keeps = keeps;
      hits = rw c;
      commits = λ q. ground (arith, c);
    })
    | inr c ↦
        let f = IsFresh-of_uncommitted s st seq h keeps c in
        let m = commit-Committed gc_lag st seq (key_of s seq) b f h in
        rw (admit_fresh gc_lag st seq (key_of s seq) f) (record {
          grows = m.grows;
          keeps = λ q k e. ground (arith, m.keys q, keeps q k);
          hits = rw c;
          commits = λ q. is_committed-commit gc_lag st seq (key_of s seq) q b h short f;
        })
  ]

  -- Over all streams.
  abbrev pub KeepsSchemes : Once → Type 0
  KeepsSchemes o = (s : Bytes) → KeepsScheme s (entry o s)

  record Arrived (o : Once) (r : Arrival) (o' : Once) (s : Bytes) : Type 0 where
    grows : length (entry o' s).ahead ≤ suc (length (entry o s).ahead)
    keeps : KeepsScheme s (entry o' s)
    hits :
        (q : ℕ)
        → (is_delivered (admit o r.stream r.seq r.key).0 && (bytes_eq r.stream s && nat_eq r.seq q))
          ≡ (not (is_committed (entry o s) q) && (bytes_eq r.stream s && nat_eq r.seq q))
    commits :
        (q : ℕ)
        → is_committed (entry o' s) q
          ≡ ((bytes_eq r.stream s && nat_eq r.seq q) || is_committed (entry o s) q)

  -- The call that an arrival makes, with its stream and its key written out.
  arrival_at :
      (o : Once) (r : Arrival) (s : Bytes)
      → r.stream ≡ s
      → r.key ≡ key_of s r.seq
      → (entry (admit o r.stream r.seq r.key).1 s
          ≡ (admit_stream o.gc_lag (entry o s) r.seq (key_of s r.seq)).1)
        × ((admit o r.stream r.seq r.key).0
            ≡ (admit_stream o.gc_lag (entry o s) r.seq (key_of s r.seq)).0)
  arrival_at o r s same k =
      subst
        (λ t.
          (entry (admit o t r.seq r.key).1 s
            ≡ (admit_stream o.gc_lag (entry o s) r.seq (key_of s r.seq)).1)
          × ((admit o t r.seq r.key).0
              ≡ (admit_stream o.gc_lag (entry o s) r.seq (key_of s r.seq)).0))
        (sym same)
        (simp k (
          rw (entry-admit, (bytes_eq_iff s s).1 refl) refl,
          (disposition-admit o s r.seq (key_of s r.seq)).0,
        ))

  admit-Arrived :
      (o : Once) (r : Arrival) (s : Bytes)
      → r.seq < u64_max
      → r.key ≡ key_of r.stream r.seq
      → IsSound o
      → KeepsSchemes o
      → length (entry o s).ahead < max_reorder_horizon
      → Arrived o r (admit o r.stream r.seq r.key).1 s
  admit-Arrived o r s b k h keeps short = elim (Bool-cases (bytes_eq r.stream s)) [
    | inl e ↦
        let same : r.stream ≡ s = (bytes_eq_iff r.stream s).0 e in
        let k' : r.key ≡ key_of s r.seq = k ∙ ap (λ t. key_of t r.seq) same in
        let step = admit_stream-Step o.gc_lag s (entry o s) r.seq b (h.valid s) (keeps s) short in
        let (there, what) = arrival_at o r s same k' in
        record {
          grows = rw there step.grows;
          keeps = rw there step.keeps;
          hits = λ q. ground (arith, what, step.hits, ap (λ n. is_committed (entry o s) n));
          commits = λ q. rw there (ground (arith, step.commits q, e));
        }
    | inr n ↦ record {
      grows = rw (entry-admit, n) (omega arith);
      keeps = rw (entry-admit, n) (keeps s);
      hits = λ q. ground (arith, n);
      commits = λ q. rw (entry-admit, n);
    }
  ]

  run_complete :
      (o : Once) (rs : List Arrival) (s : Bytes) (q : ℕ)
      → InRange rs
      → IsKeyed rs
      → IsSound o
      → KeepsSchemes o
      → ((t : Bytes) → length (entry o t).ahead + length rs ≤ max_reorder_horizon)
      → (deliveries o rs s q
          ≡ (if is_committed (entry o s) q then 0 else if arrives rs s q then 1 else 0))
        × (is_committed (entry (run o rs) s) q ≡ (arrives rs s q || is_committed (entry o s) q))
  unfolding run deliveries arrives
  run_complete o [] s q b k h keeps fits = (ground arith, refl)
  run_complete o (r ∷ rs) s q b k h keeps fits =
      let step = λ (t : Bytes). admit-Arrived o r t b.0 k.0 h keeps (omega (arith, fits t)) in
      let (times, after) =
        run_complete (admit o r.stream r.seq r.key).1 rs s q b.1 k.1
          (admit-IsSound o r.stream r.seq r.key b.0 h) (λ t. (step t).keeps)
          (λ t. omega (arith, fits t, (step t).grows)) in
      (
        ground (arith, times, (step s).hits q, (step s).commits q),
        ground (arith, after, (step s).commits q),
      )

  new-KeepsSchemes : (seed : Bytes) (gc_lag : ℕ) → KeepsSchemes (with_gc_lag seed gc_lag)
  unfolding Dict.get
  new-KeepsSchemes seed gc_lag s q k e = cc

  uncommitted :
      (seed : Bytes) (gc_lag : ℕ) (s : Bytes) (q : ℕ)
      → is_committed (entry (with_gc_lag seed gc_lag) s) q ≡ false
  unfolding Dict.get is_committed
  uncommitted seed gc_lag s q = ground arith

  none_parked :
      (seed : Bytes) (gc_lag : ℕ) (s : Bytes) → length (entry (with_gc_lag seed gc_lag) s).ahead ≡ 0
  unfolding Dict.get
  none_parked seed gc_lag s = refl

  -- From an empty gate, over at most `max_reorder_horizon` arrivals in any order and with any
  -- redeliveries, each seq that arrives on a stream is delivered exactly once, and no other.
  pub exactly_once :
      (seed : Bytes) (gc_lag : ℕ) (rs : List Arrival) (s : Bytes) (q : ℕ)
      → InRange rs
      → IsKeyed rs
      → length rs ≤ max_reorder_horizon
      → deliveries (with_gc_lag seed gc_lag) rs s q ≡ (if arrives rs s q then 1 else 0)
  exactly_once seed gc_lag rs s q b k short =
      let (times, _) =
        run_complete (with_gc_lag seed gc_lag) rs s q b k (IsSound-with_gc_lag seed gc_lag)
          (new-KeepsSchemes seed gc_lag) (λ t. omega (arith, none_parked seed gc_lag t)) in
      ground (arith, times, uncommitted seed gc_lag s q)

  committed_iff_arrived :
      (seed : Bytes) (gc_lag : ℕ) (rs : List Arrival) (s : Bytes) (q : ℕ)
      → InRange rs
      → IsKeyed rs
      → length rs ≤ max_reorder_horizon
      → is_committed (entry (run (with_gc_lag seed gc_lag) rs) s) q ≡ arrives rs s q
  committed_iff_arrived seed gc_lag rs s q b k short =
      let (_, after) =
        run_complete (with_gc_lag seed gc_lag) rs s q b k (IsSound-with_gc_lag seed gc_lag)
          (new-KeepsSchemes seed gc_lag) (λ t. omega (arith, none_parked seed gc_lag t)) in
      ground (arith, after, uncommitted seed gc_lag s q)

  -- Over such a run the watermark of a stream has reached `n` exactly when every seq below `n` has
  -- arrived: it is the length of the contiguous prefix.
  pub low_watermark_iff :
      (seed : Bytes) (gc_lag : ℕ) (rs : List Arrival) (s : Bytes) (n : ℕ)
      → InRange rs
      → IsKeyed rs
      → length rs ≤ max_reorder_horizon
      → n ≤ low_watermark (run (with_gc_lag seed gc_lag) rs) s
        ↔ ((q : ℕ) → q < n → arrives rs s q ≡ true)
  unfolding is_committed
  low_watermark_iff seed gc_lag rs s n b k short =
      let o = run (with_gc_lag seed gc_lag) rs in
      let st = entry o s in
      let v =
        (run-IsSound (with_gc_lag seed gc_lag) rs b (IsSound-with_gc_lag seed gc_lag)).valid s in
      let low = low_watermark-entry o s in
      let at = λ (q : ℕ). committed_iff_arrived seed gc_lag rs s q b k short in
      (
        λ le q lt. ground (arith, at q, low),
        λ all. elim (Bool-cases (leb n st.low_watermark)) [
          | inl y ↦ ground (arith, y, low)
          | inr n_above ↦ absurd (
              ground (
                arith,
                n_above,
                low,
                at st.low_watermark,
                all st.low_watermark,
                v.waiting st.low_watermark,
                v.parked st.low_watermark,
              ))
        ],
      )
