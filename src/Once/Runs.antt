-- ===== src/Once/Runs.antt =====
-- Concrete runs of the gate, and the theorems at concrete arrivals.
use hu_gr_datarail.Prelude.{
  ℕ, ◌+◌, ◌≤◌, ◌<◌, ◌≡◌, ◌↔◌, refl, true, arith, length, if◌then◌else◌, Bytes, Bytes_eq, ℕ_eq, [],
  List, ◌∷◌, bytes_eq,
}
use hu_gr_datarail.Prelude.Dict
use hu_gr_datarail.Prelude.KeySet
use hu_gr_datarail.Once.{Once, duplicate, entry, admit, seal, low_watermark, gc_floor, with_gc_lag}
use hu_gr_datarail.Once.Drain.{IsParked}
use hu_gr_datarail.Once.Seal.{seal_stops}
use hu_gr_datarail.Once.Delivery.{is_committed}
use hu_gr_datarail.Once.Streams.{IsSound, IsSound-with_gc_lag}
use hu_gr_datarail.Once.History.{Arrival, run, deliveries, arrives, run-IsSound, deliveries-le-one}
use hu_gr_datarail.Once.Complete.{KeyScheme, exactly_once, low_watermark_iff}

abbrev stream_a : Bytes
stream_a = 1 ∷ []

abbrev stream_b : Bytes
stream_b = 2 ∷ []

abbrev arrival : Bytes → ℕ → Arrival
arrival s q = record { stream = s; seq = q; key = q ∷ s }

-- Out of order, with a redelivery of a parked seq and one below the watermark, over two streams.
abbrev traffic : List Arrival
traffic =
    arrival stream_a 0
    ∷ arrival stream_a 2
    ∷ arrival stream_b 0
    ∷ arrival stream_a 2
    ∷ arrival stream_a 1
    ∷ arrival stream_a 0
    ∷ []

abbrev key_of : Bytes → ℕ → Bytes
key_of s q = q ∷ s

abbrev gate : Once
gate = with_gc_lag [] 2

key_of-KeyScheme : KeyScheme key_of
key_of-KeyScheme = record { apart = λ s q r e. cc }

watermark_jumps : low_watermark (run gate traffic) stream_a ≡ 3
unfolding low_watermark run admit Dict.get Dict.insert Dict.remove KeySet.insert KeySet.remove
    bytes_eq
watermark_jumps = refl

floor_trails : gc_floor (run gate traffic) stream_a ≡ 1
unfolding gc_floor run admit Dict.get Dict.insert Dict.remove KeySet.insert KeySet.remove bytes_eq
floor_trails = refl

-- The same seq under another key is a duplicate.
same_seq_new_key : (admit (admit gate stream_a 5 (5 ∷ [])).1 stream_a 5 (9 ∷ [])).0 ≡ duplicate
unfolding admit Dict.get Dict.insert Dict.remove KeySet.insert KeySet.remove bytes_eq
same_seq_new_key = refl

-- A horizon of one: the lowest gap is sealed, and the watermark passes what was parked.
sealed_gap : seal 9 1 (9 ∷ 4 ∷ []) 2 ≡ (9 ∷ [], 5)
unfolding seal KeySet.contains KeySet.remove
sealed_gap = refl

exactly_once_example :
    deliveries gate traffic stream_a 2 ≡ (if arrives traffic stream_a 2 then 1 else 0)
exactly_once_example =
    exactly_once key_of key_of-KeyScheme [] 2 traffic stream_a 2 (omega arith)
      (refl, (refl, (refl, (refl, (refl, (refl, tt)))))) (omega arith)

low_watermark_iff_example :
    3 ≤ low_watermark (run gate traffic) stream_a
    ↔ ((q : ℕ) → q < 3 → arrives traffic stream_a q ≡ true)
low_watermark_iff_example =
    low_watermark_iff key_of key_of-KeyScheme [] 2 traffic stream_a 3 (omega arith)
      (refl, (refl, (refl, (refl, (refl, (refl, tt)))))) (omega arith)

deliveries-le-one_example :
    deliveries gate traffic stream_a 0 ≤ (if is_committed (entry gate stream_a) 0 then 0 else 1)
deliveries-le-one_example =
    deliveries-le-one gate traffic stream_a 0 (omega arith) (IsSound-with_gc_lag [] 2)

run-IsSound_example : IsSound (run gate traffic)
run-IsSound_example = run-IsSound gate traffic (omega arith) (IsSound-with_gc_lag [] 2)

IsParked-set : IsParked 3 (9 ∷ 4 ∷ [])
unfolding KeySet.contains
IsParked-set s c = ground (arith, c)

near_set : (s : ℕ) → KeySet.contains (9 ∷ 4 ∷ []) s ≡ true → s ≤ 2 + 9
unfolding KeySet.contains
near_set s c = ground (arith, c)

seal_stops_example : length (seal 9 1 (9 ∷ 4 ∷ []) 2).0 ≤ 1
seal_stops_example = seal_stops 9 1 (9 ∷ 4 ∷ []) 2 (omega arith) IsParked-set near_set
