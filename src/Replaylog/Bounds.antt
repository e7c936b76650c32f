-- ===== src/Replaylog/Bounds.antt =====
-- The memory of a reader of crates/datarail-replaylog/src/lib.rs, whatever the files hold.
use hu_gr_datarail.Prelude.{◌%◌, ◌^◌}
use hu_gr_datarail.Replaylog.Reader.{filled}
use hu_gr_datarail.Prelude.{
  ℕ, zero, suc, ◌+◌, ◌≤◌, ◌≡◌, ◌⊎◌, inl, inr, refl, sym, ap, subst, Bool, true, false, Option, none,
  some, [], ◌∷◌, ◌++◌, Bytes, length, take, drop, ltb, leb, Bool-cases, Option-cases, arith,
  length-append, length-drop, length-take, ℕ_eq,
}
use hu_gr_datarail.Prelude.Dict
use hu_gr_datarail.Replaylog.{
  max_record, frame_overhead, get_at, partition_point, body_len, is_intact,
}
use hu_gr_datarail.Replaylog.Reader.{
  Replay, Step, again, ended, found, failed, refill_chunk, open_segment, compacted, after_refill,
  resync_or_stop, refill_loop, refill, round, read_next,
}

-- The buffer holds a chunk and a frame at most, and its cursor is not behind its end.
pub record IsBounded (r : Replay) : Type 0 where
  pub inside : r.cursor ≤ length r.buf
  pub flat : length r.buf ≤ refill_chunk + (max_record + frame_overhead)

-- The readers that a call leaves are bounded.
abbrev pub StepIsBounded : Step → Type 0
StepIsBounded (again r) = IsBounded r
StepIsBounded (ended r) = IsBounded r
StepIsBounded (found offset body r) = IsBounded r
StepIsBounded failed = Unit

abbrev Opened : Option Replay → Type 0
Opened none = Unit
Opened (some r) = (r.cursor ≤ length r.buf) × (length r.buf ≤ max_record + frame_overhead)

abbrev Refilled : Option (Bool × Replay) → Type 0
Refilled none = Unit
Refilled (some (more, r)) = IsBounded r

open_segment-Opened :
    (r : Replay) (at_offset : ℕ)
    → r.cursor ≤ length r.buf
    → length r.buf ≤ max_record + frame_overhead
    → Opened (open_segment r at_offset)
unfolding open_segment
open_segment-Opened r at_offset c l = elim (Option-cases (get_at r.starts r.seg_idx)) [
  | inl absent ↦ rw (open_segment, absent) (c, l)
  | inr (seg, known) ↦ elim (Option-cases (Dict.get r.dir seg)) [
    | inl lost ↦ rw (open_segment, known, lost) tt
    | inr (bytes, file) ↦ rw (open_segment, known, file) (omega arith, omega arith)
  ]
]

resync_or_stop-Refilled :
    (r : Replay) (bad_off : ℕ) → IsBounded r → Refilled (resync_or_stop r bad_off)
unfolding resync_or_stop open_segment
resync_or_stop-Refilled r bad_off h =
    let next = partition_point bad_off r.starts in
    elim (Option-cases (get_at r.starts next)) [
      | inl absent ↦ rw (resync_or_stop, absent) h
      | inr (start, known) ↦ elim (Option-cases (Dict.get r.dir start)) [
        | inl lost ↦ rw (resync_or_stop, known, open_segment, known, lost) tt
        | inr (bytes, file) ↦
            rw (resync_or_stop, known, open_segment, known, file)
              (record { inside = omega arith; flat = omega arith })
      ]
    ]

List-cases : (xs : Bytes) → (xs ≡ []) ⊎ ((b : ℕ) × (bs : Bytes) × (xs ≡ b ∷ bs))
List-cases [] = inl refl
List-cases (b ∷ bs) = inr (b, bs, refl)

module _ (read_len : Bytes → ℕ) where
  refill_loop-Refilled :
      (fuel : ℕ) (r : Replay)
      → r.cursor ≤ length r.buf
      → length r.buf ≤ max_record + frame_overhead
      → Refilled (refill_loop read_len fuel r)
  unfolding refill_loop
  refill_loop-Refilled zero r c l = record { inside = c; flat = omega (arith, l) }
  refill_loop-Refilled (suc fuel) r c l = elim (Option-cases r.file) [
    | inl closed ↦ rw (refill_loop, closed) (record { inside = c; flat = omega (arith, l) })
    | inr (rest, file) ↦ elim (List-cases (take (filled read_len rest) rest)) [
      | inr (b, bs, got) ↦
          let size : length (r.buf ++ (b ∷ bs)) ≤ length r.buf + refill_chunk = omega (
            arith,
            length-append r.buf (b ∷ bs),
            sym (ap length got),
            length-take (filled read_len rest) rest,
          ) in
          rw (refill_loop, file, got)
            (record {
              inside = omega (arith, c, length-append r.buf (b ∷ bs));
              flat = omega (arith, l, size);
            })
      | inl used ↦ elim (Option-cases (get_at r.starts (r.seg_idx + 1))) [
        | inl absent ↦
            rw (refill_loop, file, used, absent) (record { inside = c; flat = omega (arith, l) })
        | inr (next, known) ↦
            let r' : Replay = record r { file = none; seg_idx = r.seg_idx + 1 } in
            let o = open_segment-Opened r' next c l in
            elim (Option-cases (open_segment r' next)) [
              | inl lost ↦ rw (refill_loop, file, used, known, lost) tt
              | inr (opened, e) ↦
                  let (c', l') = subst Opened e o in
                  rw (refill_loop, file, used, known, e) (refill_loop-Refilled fuel opened c' l')
            ]
      ]
    ]
  ]

  refill-Refilled :
      (r : Replay)
      → length (drop r.cursor r.buf) ≤ max_record + frame_overhead
      → Refilled (refill read_len r)
  unfolding refill compacted
  refill-Refilled r l = refill_loop-Refilled (suc (length r.starts)) (compacted r) (omega arith) l

  after_refill-bounded : (o : Option (Bool × Replay)) → Refilled o → StepIsBounded (after_refill o)
  after_refill-bounded none h = tt
  after_refill-bounded (some (true, r)) h = h
  after_refill-bounded (some (false, r)) h = h

  round-bounded : (r : Replay) → IsBounded r → StepIsBounded (round read_len r)
  unfolding round
  round-bounded r h =
      let input = drop r.cursor r.buf in
      let avail = length input in
      let offset = (r.buf_base + r.cursor) % 2 ^ 64 in
      let len = body_len input in
      let resynced =
        after_refill-bounded (resync_or_stop r offset) (resync_or_stop-Refilled r offset h) in
      elim (Bool-cases (ltb avail 4)) [
        | inl few ↦ elim (Bool-cases (leb r.end offset)) [
          | inl past ↦ rw (round, few, past) h
          | inr before ↦
              rw (round, few, before)
                (after_refill-bounded (refill read_len r) (refill-Refilled r (ground (arith, few))))
        ]
        | inr four ↦ elim (Bool-cases (ltb max_record len)) [
          | inl large ↦ rw (round, four, large) resynced
          | inr small ↦ elim (Bool-cases (ltb avail (frame_overhead + len))) [
            | inl part ↦
                rw (round, four, small, part)
                  (after_refill-bounded (refill read_len r)
                    (refill-Refilled r (ground (arith, part, small))))
            | inr whole ↦ elim (Bool-cases (leb r.end offset)) [
              | inl past ↦ rw (round, four, small, whole, past) h
              | inr before ↦ elim (Bool-cases (is_intact input)) [
                | inl intact ↦
                    let inside : r.cursor + (frame_overhead + len) ≤ length r.buf =
                      ground (arith, whole, h.inside, length-drop r.cursor r.buf) in
                    rw (round, four, small, whole, before, intact)
                      (record { inside = inside; flat = h.flat })
                | inr rot ↦ rw (round, four, small, whole, before, rot) resynced
              ]
            ]
          ]
        ]
      ]

  read_next-after :
      (fuel : ℕ) (r : Replay) (step : Step)
      → ((next : Replay) → IsBounded next → StepIsBounded (read_next read_len fuel next))
      → round read_len r ≡ step
      → StepIsBounded step
      → StepIsBounded (read_next read_len (suc fuel) r)
  unfolding read_next
  read_next-after fuel r (again next) rest e h = rw (read_next, e) (rest next h)
  read_next-after fuel r (ended last) rest e h = rw (read_next, e) h
  read_next-after fuel r (found offset body next) rest e h = rw (read_next, e) h
  read_next-after fuel r failed rest e h = rw (read_next, e) tt

  -- Whatever the files hold, a call of `read_next` of a bounded reader leaves a bounded one: the buffer
  -- holds no more than a chunk and the largest frame, and the cursor is within it.
  pub read_next-bounded :
      (fuel : ℕ) (r : Replay) → IsBounded r → StepIsBounded (read_next read_len fuel r)
  unfolding read_next
  read_next-bounded zero r h = h
  read_next-bounded (suc fuel) r h =
      read_next-after fuel r (round read_len r) (λ next k. read_next-bounded fuel next k) refl
        (round-bounded r h)
