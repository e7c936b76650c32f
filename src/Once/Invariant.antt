-- ===== src/Once/Invariant.antt =====
-- The state of one stream of crates/datarail-once/src/lib.rs: what holds of it between two calls of
-- `admit`, and that `admit` keeps it.
use hu_gr_datarail.Prelude.{
  ℕ, suc, ◌≤◌, ◌<◌, ◌≡◌, refl, ap, true, false, ◌&&◌, ◌||◌, arith, length, leb, nat_eq, Bool-cases,
  inl, inr, ℕ_eq, Bytes_eq,
}
use hu_gr_datarail.Prelude.KeySet
use hu_gr_datarail.Prelude.KeySet.{contains-insert, length-insert}
use hu_gr_datarail.Prelude.Dict
use hu_gr_datarail.Prelude.Dict.{get-insert}
use hu_gr_datarail.Once.{StreamState, advance, inc64, u64_max, max_reorder_horizon, list_max}
use hu_gr_datarail.Once.Drain.{IsParked, drain_all-Moved, drain_all-IsParked, drain_all_passed}
use hu_gr_datarail.Once.Seal.{seal-Moved, seal_idle, seal_stops, contains-le-list_max}
use hu_gr_datarail.Once.Gc.{IsIndexed}

pub record IsValid (st : StreamState) : Type 0 where
  pub low_bound : st.low_watermark ≤ u64_max
  pub floor_bound : st.gc_floor ≤ st.low_watermark
  pub parked : IsParked (suc st.low_watermark) st.ahead
  pub short : length st.ahead ≤ max_reorder_horizon
  pub recorded :
      (q : ℕ) → KeySet.contains st.ahead q ≡ true → Dict.contains_key st.delivered_keys q ≡ true
  pub waiting :
      (q : ℕ)
      → st.low_watermark ≤ q
      → Dict.contains_key st.delivered_keys q ≡ true
      → KeySet.contains st.ahead q ≡ true
  pub indexed : IsIndexed st

-- What step (3) does with a seq that is not below the watermark.
pub record Advanced (st : StreamState) (seq : ℕ) (st' : StreamState) : Type 0 where
  pub rises : st.low_watermark ≤ st'.low_watermark
  pub bound : st'.low_watermark ≤ u64_max
  pub left :
      (s : ℕ)
      → KeySet.contains st'.ahead s
        ≡ (leb st'.low_watermark s && (nat_eq seq s || KeySet.contains st.ahead s))
  pub passed :
      length st.ahead < max_reorder_horizon
      → (s : ℕ) → st.low_watermark ≤ s
      → s < st'.low_watermark
      → (nat_eq seq s || KeySet.contains st.ahead s) ≡ true
  pub parked : IsParked (suc st'.low_watermark) st'.ahead
  pub short : length st'.ahead ≤ max_reorder_horizon
  pub grows : length st'.ahead ≤ suc (length st.ahead)
  pub seen : st'.seen ≡ st.seen
  pub keys : st'.delivered_keys ≡ st.delivered_keys
  pub floor : st'.gc_floor ≡ st.gc_floor

module _ (st : StreamState) (seq : ℕ) (bound : seq < u64_max)
    (short : length st.ahead ≤ max_reorder_horizon)
    (parked : IsParked (suc st.low_watermark) st.ahead) where
  -- The seq that the watermark waits for.
  advance_next : st.low_watermark ≡ seq → Advanced st seq (advance st seq)
  unfolding advance
  advance_next e =
      let t : nat_eq seq st.low_watermark ≡ true = ground arith in
      let p : IsParked (inc64 st.low_watermark) st.ahead = λ s c. omega (arith, parked s c) in
      let m = drain_all-Moved st.ahead (inc64 st.low_watermark) (omega arith) p in
      rw t (record {
        rises = omega (arith, m.rises);
        bound = m.bound;
        left = λ s. ground (arith, m.left s, m.rises);
        passed = λ _ s l u. elim (Bool-cases (nat_eq seq s)) [
          | inl y ↦ ground (arith, y)
          | inr n ↦
              let c : KeySet.contains st.ahead s ≡ true =
                drain_all_passed st.ahead (inc64 st.low_watermark) s (omega arith) p
                  (ground (arith, n)) u in
              ground (arith, c)
        ];
        parked = drain_all-IsParked st.ahead (inc64 st.low_watermark) (omega arith) p;
        short = omega (arith, m.shrinks);
        grows = omega (arith, m.shrinks);
        seen = refl;
        keys = refl;
        floor = refl;
      })

  parked_above :
      st.low_watermark < seq
      → (s : ℕ) → KeySet.contains (KeySet.insert st.ahead seq) s ≡ true
      → (suc st.low_watermark ≤ s) × (s < u64_max)
  parked_above h s c = ground (arith, contains-insert st.ahead seq s, parked s)

  -- A seq above the watermark.
  advance_later : st.low_watermark < seq → Advanced st seq (advance st seq)
  unfolding advance
  advance_later h =
      let t : nat_eq seq st.low_watermark ≡ false = ground arith in
      let a = KeySet.insert st.ahead seq in
      let p = parked_above h in
      let (m, above) =
        seal-Moved (list_max a) max_reorder_horizon a st.low_watermark (omega arith) p in
      rw t (record {
        rises = m.rises;
        bound = m.bound;
        left = λ s. ground (arith, m.left s, contains-insert st.ahead seq s);
        passed = λ fits s l u.
            let idle =
              seal_idle (list_max a) max_reorder_horizon a st.low_watermark
                (omega (arith, length-insert st.ahead seq)) in
            absurd (ground (arith, ap (λ r. r.1) idle, l, u));
        parked = above;
        short =
            seal_stops (list_max a) max_reorder_horizon a st.low_watermark (omega arith) p
              (λ s c. omega (arith, contains-le-list_max a s c));
        grows = omega (arith, m.shrinks, length-insert st.ahead seq);
        seen = refl;
        keys = refl;
        floor = refl;
      })

  pub advance-Advanced : st.low_watermark ≤ seq → Advanced st seq (advance st seq)
  advance-Advanced h = elim (Bool-cases (nat_eq seq st.low_watermark)) [
    | inl e ↦ advance_next (ground (arith, e))
    | inr n ↦ advance_later (ground (arith, n))
  ]
