-- ===== src/Once/Gc.antt =====
-- The loop of `admit` that drops old keys (crates/datarail-once/src/lib.rs).
use hu_gr_datarail.Prelude.{
  ℕ, zero, suc, ◌-◌, ◌≤◌, ◌<◌, ◌≡◌, refl, ◌∙◌, true, ◌&&◌, arith, ltb, leb, if◌then◌else◌,
  Bool-cases, Option-cases, inl, inr, ℕ_eq, Bytes, Bytes_eq, max, some, none, bytes_eq_iff,
}
use hu_gr_datarail.Prelude.KeySet
use hu_gr_datarail.Prelude.KeySet.{contains-remove}
use hu_gr_datarail.Prelude.Dict
use hu_gr_datarail.Prelude.Dict.{get-remove}
use hu_gr_datarail.Once.{StreamState, gc_step, gc_loop, gc, u64_max}

-- What dropping the keys of the seqs from `floor` up to `floor'` does to a stream.
pub record Collected (st st' : StreamState) (floor' : ℕ) : Type 0 where
  pub ahead : st'.ahead ≡ st.ahead
  pub low : st'.low_watermark ≡ st.low_watermark
  pub floor : st'.gc_floor ≡ floor'
  pub keys :
      (q : ℕ)
      → Dict.get st'.delivered_keys q
        ≡ (if leb st.gc_floor q && ltb q floor' then none else Dict.get st.delivered_keys q)

gc_step-Collected :
    (st : StreamState) → st.gc_floor < u64_max → Collected st (gc_step st) (suc st.gc_floor)
unfolding gc_step
gc_step-Collected st h = elim (Option-cases (Dict.get st.delivered_keys st.gc_floor)) [
  | inl e ↦
      rw (e, gc_step)
        (record { ahead = refl; low = refl; floor = omega arith; keys = λ q. ground (arith, e) })
  | inr (k, e) ↦
      rw (e, gc_step)
        (record {
          ahead = refl;
          low = refl;
          floor = omega arith;
          keys = λ q. ground (arith, get-remove st.delivered_keys st.gc_floor q);
        })
]

Collected-trans :
    (a b c : StreamState) (f g : ℕ)
    → a.gc_floor ≤ f
    → f ≤ g
    → Collected a b f
    → Collected b c g
    → Collected a c g
Collected-trans a b c f g h k p q = record {
  ahead = q.ahead ∙ p.ahead;
  low = q.low ∙ p.low;
  floor = q.floor;
  keys = λ s. ground (arith, p.floor, p.keys s, q.keys s);
}

gc_loop-Collected :
    (fuel floor' : ℕ) (st : StreamState)
    → floor' ≤ u64_max
    → fuel ≡ floor' - st.gc_floor
    → Collected st (gc_loop fuel floor' st) (max st.gc_floor floor')
unfolding gc_loop
gc_loop-Collected zero floor' st b e = record {
  ahead = refl;
  low = refl;
  floor = omega arith;
  keys = λ q. ground arith;
}
gc_loop-Collected (suc fuel) floor' st b e =
    let lt : st.gc_floor < floor' = omega arith in
    let step = gc_step-Collected st (omega arith) in
    let rest = gc_loop-Collected fuel floor' (gc_step st) b (omega (arith, step.floor)) in
    let t : ltb st.gc_floor floor' ≡ true = ground arith in
    let m : max (gc_step st).gc_floor floor' ≡ max st.gc_floor floor' = omega (arith, step.floor) in
    rw t (
      Collected-trans st (gc_step st) _ (suc st.gc_floor) (max st.gc_floor floor') (omega arith)
        (omega arith) step (rw m at rest))

-- The floor rises to the watermark less the lag and never falls; the keys that it passes are gone.
pub gc-Collected :
    (gc_lag : ℕ) (st : StreamState)
    → st.low_watermark ≤ u64_max
    → Collected st (gc gc_lag st) (max st.gc_floor (st.low_watermark - gc_lag))
unfolding gc
gc-Collected gc_lag st b = gc_loop-Collected _ (st.low_watermark - gc_lag) st (omega arith) refl

-- `seen` holds the keys of `delivered_keys`, and no key is recorded under two seqs.
pub record IsIndexed (st : StreamState) : Type 0 where
  pub sound :
      (q : ℕ) (k : Bytes) → Dict.get st.delivered_keys q ≡ some k → KeySet.contains st.seen k ≡ true
  pub complete :
      (k : Bytes)
      → KeySet.contains st.seen k ≡ true
      → (q : ℕ) × (Dict.get st.delivered_keys q ≡ some k)
  pub unique :
      (q r : ℕ) (k : Bytes)
      → Dict.get st.delivered_keys q ≡ some k
      → Dict.get st.delivered_keys r ≡ some k
      → q ≡ r

gc_step-IsIndexed : (st : StreamState) → IsIndexed st → IsIndexed (gc_step st)
unfolding gc_step
gc_step-IsIndexed st h = elim (Option-cases (Dict.get st.delivered_keys st.gc_floor)) [
  | inl e ↦ rw (e, gc_step) (record { sound = h.sound; complete = h.complete; unique = h.unique })
  | inr (k, e) ↦
      rw (e, gc_step)
        (record {
          sound = λ q j d. ground (
            arith,
            get-remove st.delivered_keys st.gc_floor q,
            contains-remove st.seen k j,
            bytes_eq_iff k j,
            h.sound q j,
            h.unique q st.gc_floor k,
          );
          complete = λ j d.
              let was : KeySet.contains st.seen j ≡ true =
                ground (arith, contains-remove st.seen k j) in
              let (q, f) = h.complete j was in
              (
                q,
                ground (
                  arith,
                  get-remove st.delivered_keys st.gc_floor q,
                  contains-remove st.seen k j,
                  bytes_eq_iff k j,
                ),
              );
          unique = λ q r j d d'. ground (
            arith,
            get-remove st.delivered_keys st.gc_floor q,
            get-remove st.delivered_keys st.gc_floor r,
            h.unique q r j,
          );
        })
]

gc_loop-IsIndexed :
    (fuel floor' : ℕ) (st : StreamState) → IsIndexed st → IsIndexed (gc_loop fuel floor' st)
unfolding gc_loop
gc_loop-IsIndexed zero floor' st h = h
gc_loop-IsIndexed (suc fuel) floor' st h = elim (Bool-cases (ltb st.gc_floor floor')) [
  | inl t ↦ rw t (gc_loop-IsIndexed fuel floor' (gc_step st) (gc_step-IsIndexed st h))
  | inr t ↦ rw t h
]

pub gc-IsIndexed : (gc_lag : ℕ) (st : StreamState) → IsIndexed st → IsIndexed (gc gc_lag st)
unfolding gc
gc-IsIndexed gc_lag st h = gc_loop-IsIndexed _ _ st h
