-- ===== src/Once/History.antt =====
-- Runs of the gate (crates/datarail-once/src/lib.rs): what a destination delivers over a whole
-- sequence of arrivals, redeliveries and reorderings included.
use hu_gr_datarail.Prelude.{
  ℕ, ◌+◌, ◌≤◌, ◌<◌, ◌≡◌, refl, Bool, true, false, ◌&&◌, ◌||◌, arith, nat_eq, if◌then◌else◌,
  Bool-cases, inl, inr, ℕ_eq, Bytes, Bytes_eq, [], List, ◌∷◌, bytes_eq, bytes_eq_iff, All,
}
use hu_gr_datarail.Once.{
  Once, Disposition, delivered, duplicate, dead_lettered, entry, admit, admit_stream, u64_max,
}
use hu_gr_datarail.Once.Delivery.{is_committed, is_committed-admit_stream, is_committed-delivered}
use hu_gr_datarail.Once.Streams.{IsSound, admit-IsSound, entry-admit, disposition-admit}

-- A sealed record as it reaches the gate.
pub record Arrival : Type 0 where
  pub stream : Bytes
  pub seq : ℕ
  pub key : Bytes

abbrev pub is_delivered : Disposition → Bool
is_delivered delivered = true
is_delivered duplicate = false
is_delivered dead_lettered = false

unfoldable pub run : Once → List Arrival → Once
run o [] = o
run o (r ∷ rs) = run (admit o r.stream r.seq r.key).1 rs

-- How often the run delivers the seq `q` of the stream `s`.
unfoldable pub deliveries : Once → List Arrival → Bytes → ℕ → ℕ
deliveries o [] s q = 0
deliveries o (r ∷ rs) s q =
    let (d, o') = admit o r.stream r.seq r.key in
    (if is_delivered d && (bytes_eq r.stream s && nat_eq r.seq q) then 1 else 0)
    + deliveries o' rs s q

-- The arrivals bring the seq `q` of the stream `s`.
unfoldable pub arrives : List Arrival → Bytes → ℕ → Bool
arrives [] s q = false
arrives (r ∷ rs) s q = (bytes_eq r.stream s && nat_eq r.seq q) || arrives rs s q

abbrev pub InRange : List Arrival → Type 0
InRange = All (λ r. r.seq < u64_max)

-- A run keeps every stream valid: at most `max_reorder_horizon` seqs are parked, and the GC floor
-- trails the watermark by exactly the lag, from the first arrival on.
pub run-IsSound : (o : Once) (rs : List Arrival) → InRange rs → IsSound o → IsSound (run o rs)
unfolding run
run-IsSound o [] b h = h
run-IsSound o (r ∷ rs) b h =
    run-IsSound (admit o r.stream r.seq r.key).1 rs b.1 (admit-IsSound o r.stream r.seq r.key b.0 h)

-- One arrival: what it commits, and whether it is delivered.
module _ (o : Once) (r : Arrival) (s : Bytes) (q : ℕ) (b : r.seq < u64_max) (h : IsSound o) where
  abbrev pub o' : Once
  o' = (admit o r.stream r.seq r.key).1

  abbrev pub hit : Bool
  hit = is_delivered (admit o r.stream r.seq r.key).0 && (bytes_eq r.stream s && nat_eq r.seq q)

  committed_stays : is_committed (entry o s) q ≡ true → is_committed (entry o' s) q ≡ true
  committed_stays c = rw entry-admit (elim (Bool-cases (bytes_eq r.stream s)) [
    | inl e ↦
        let same : r.stream ≡ s = (bytes_eq_iff r.stream s).0 e in
        rw (e, same) (is_committed-admit_stream o.gc_lag (entry o s) r.seq r.key q b (h.valid s) c)
    | inr n ↦ rw n c
  ])

  hit_parts :
      hit ≡ true
      → (r.stream ≡ s)
        × (r.seq ≡ q)
        × ((admit_stream o.gc_lag (entry o r.stream) r.seq r.key).0 ≡ delivered)
  hit_parts t =
      ground (arith, t, bytes_eq_iff r.stream s, (disposition-admit o r.stream r.seq r.key).0)

  hit_once :
      hit ≡ true → (is_committed (entry o s) q ≡ false) × (is_committed (entry o' s) q ≡ true)
  hit_once t =
      let (same, seq, d) = hit_parts t in
      let (after, before) =
        is_committed-delivered o.gc_lag (entry o r.stream) r.seq r.key b (h.valid r.stream) d in
      (
        rw (← same, ← seq) before,
        rw (entry-admit, ← same, ← seq, (bytes_eq_iff r.stream r.stream).1 refl) after,
      )

-- Whatever arrives, in any order and any number of times, over any streams: no seq of a stream is
-- delivered twice, and none that is committed already is delivered again.
pub deliveries-le-one :
    (o : Once) (rs : List Arrival) (s : Bytes) (q : ℕ)
    → InRange rs
    → IsSound o
    → deliveries o rs s q ≤ (if is_committed (entry o s) q then 0 else 1)
unfolding deliveries
deliveries-le-one o [] s q b h = omega arith
deliveries-le-one o (r ∷ rs) s q b h =
    let next = admit-IsSound o r.stream r.seq r.key b.0 h in
    ground (
      arith,
      hit_once o r s q b.0 h,
      committed_stays o r s q b.0 h,
      deliveries-le-one (admit o r.stream r.seq r.key).1 rs s q b.1 next,
    )
