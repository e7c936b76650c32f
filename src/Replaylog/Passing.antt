-- ===== src/Replaylog/Passing.antt =====
-- A reader of crates/datarail-replaylog/src/lib.rs over intact segments: it gives their records in order.
use hu_gr_datarail.Replaylog.Reader.{filled}
use hu_gr_datarail.Prelude.{◌%◌, ◌^◌}
use hu_gr_datarail.Replaylog.Reading.{Reads, read_next-again, frame-Reads}
use hu_gr_datarail.Prelude.{
  ℕ, suc, ◌+◌, ◌-◌, ◌<◌, ◌≡◌, refl, sym, ap, ◌∙◌, subst, true, none, some, List, [], ◌∷◌, ◌++◌,
  Bytes, length, take, drop, leb, arith, length-append, ℕ_eq, take-drop, take-nil,
}
use hu_gr_datarail.Prelude.Dict
use hu_gr_datarail.Replaylog.{frame, get_at}
use hu_gr_datarail.Replaylog.Frames.{Fits}
use hu_gr_datarail.Replaylog.Reader.{
  Replay, again, ended, refill_loop, refill, round, read_next, compacted, open_segment,
  after_refill,
}
use hu_gr_datarail.Replaylog.Rounds.{Gives, Place, reader, Stands, take-given, round-short}

get_at-length :
    (starts : List ℕ) (n s : ℕ) → get_at starts n ≡ some s → (k : ℕ) × (length starts ≡ suc k)
unfolding get_at
get_at-length [] n s h = cc
get_at-length (start ∷ starts) n s h = (length starts, refl)

nil-append : (xs ys : Bytes) → xs ++ ys ≡ [] → (xs ≡ []) × (ys ≡ [])
nil-append [] ys h = (refl, h)
nil-append (x ∷ xs) ys h = cc

open_segment-start :
    (p : Place) (base next : ℕ) (bytes : Bytes)
    → get_at p.starts (p.seg_idx + 1) ≡ some next
    → Dict.get p.dir next ≡ some bytes
    → open_segment (record (reader p base [] 0 []) { file = none; seg_idx = p.seg_idx + 1 }) next
      ≡ some (reader (record p { seg_idx = p.seg_idx + 1 }) next [] 0 bytes)
unfolding open_segment reader
open_segment-start p base next bytes h g =
    let same : next - next ≡ 0 = omega arith in rw (open_segment, h, g, same) refl

module _ (read_len : Bytes → ℕ) (gives : Gives read_len) where
  refill_loop-pass :
      (fuel : ℕ) (p : Place) (base next b : ℕ) (bs : Bytes)
      → get_at p.starts (p.seg_idx + 1) ≡ some next
      → Dict.get p.dir next ≡ some (b ∷ bs)
      → refill_loop read_len (suc (suc fuel)) (reader p base [] 0 [])
        ≡ some (
          true,
          reader
              (record p { seg_idx = p.seg_idx + 1 })
              next
              (take (filled read_len (b ∷ bs)) (b ∷ bs))
              0
              (drop (filled read_len (b ∷ bs)) (b ∷ bs)),
        )
  unfolding refill_loop open_segment reader
  refill_loop-pass fuel p base next b bs h g =
      let (c, cs, e) = take-given read_len gives b bs in
      let none_left : take {A = ℕ} (filled read_len []) [] ≡ [] = take-nil (filled read_len []) in
      rw (refill_loop, none_left, h, open_segment-start p base next (b ∷ bs) h g, refill_loop, e)
        refl

  -- At the end of a segment the reader goes on with the next one.
  round-pass :
      (p : Place) (base : ℕ) (buf : Bytes) (cursor next b : ℕ) (bs : Bytes)
      → drop cursor buf ≡ []
      → base + cursor < p.end
      → p.end < 2 ^ 64
      → get_at p.starts (p.seg_idx + 1) ≡ some next
      → Dict.get p.dir next ≡ some (b ∷ bs)
      → round read_len (reader p base buf cursor [])
        ≡ again (
            reader
              (record p { seg_idx = p.seg_idx + 1 })
              next
              (take (filled read_len (b ∷ bs)) (b ∷ bs))
              0
              (drop (filled read_len (b ∷ bs)) (b ∷ bs)))
  unfolding refill compacted reader
  round-pass p base buf cursor next b bs e l v h g =
      let (k, many) = get_at-length p.starts (p.seg_idx + 1) next h in
      round-short read_len gives p base buf cursor [] (omega (arith, ap length e)) l v
      ∙ ap after_refill {x = refill read_len (reader p base buf cursor [])}
          {y = some (
            true,
            reader (record p { seg_idx = p.seg_idx + 1 }) next
                (take (filled read_len (b ∷ bs)) (b ∷ bs)) 0
                (drop (filled read_len (b ∷ bs)) (b ∷ bs)),
          )}
          (rw (refill, many, compacted, e)
            (refill_loop-pass k p ((base + cursor) % 2 ^ 64) next b bs h g))

  round-ended :
      (p : Place) (base : ℕ) (buf : Bytes) (cursor : ℕ) (rest : Bytes)
      → drop cursor buf ≡ []
      → p.end ≡ base + cursor
      → p.end < 2 ^ 64
      → round read_len (reader p base buf cursor rest) ≡ ended (reader p base buf cursor rest)
  unfolding round reader
  round-ended p base buf cursor rest e l v =
      let same : (base + cursor) % 2 ^ 64 ≡ base + cursor = omega (arith, l, v) in
      let past : leb p.end (base + cursor) ≡ true = ground (arith, l) in
      rw (reader, round, e, same, past) refl

  pub read_next-ended :
      (fuel : ℕ) (p : Place) (offset : ℕ) (r : Replay)
      → Stands p offset [] r
      → p.end ≡ offset
      → p.end < 2 ^ 64
      → read_next read_len (suc fuel) r ≡ ended r
  unfolding read_next
  read_next-ended fuel p offset r s l v =
      let (e, none_left) = nil-append (drop s.cursor s.buf) s.rest s.ahead_eq in
      let ends : round read_len r ≡ ended r =
        subst (λ x. round read_len x ≡ ended x) (sym s.is_reader)
          (round-ended p s.base s.buf s.cursor s.rest e (omega (arith, l, s.offset_eq)) v) in
      rw (read_next, ends) refl

  pub here-Reads :
      (fuel : ℕ) (p : Place) (offset : ℕ) (body more : Bytes) (r : Replay)
      → Stands p offset (frame body ++ more) r
      → Fits body
      → offset < p.end
      → p.end < 2 ^ 64
      → length (frame body ++ more) < fuel
      → Reads read_len gives fuel p offset body more r
  here-Reads fuel p offset body more r s h l v f =
      subst (λ k. Reads read_len gives fuel p k body more r) s.offset_eq
        (subst (λ x. Reads read_len gives fuel p (s.base + s.cursor) body more x) (sym s.is_reader)
          (frame-Reads read_len gives fuel p s.base s.buf s.cursor s.rest body more s.within
            s.ahead_eq h (omega (arith, l, s.offset_eq)) v
            (omega (arith, f, ap length s.ahead_eq, length-append (drop s.cursor s.buf) s.rest))))

  -- The reader of a segment that is used up stands at the start of the next one.
  pub reads-pass :
      (fuel : ℕ) (p : Place) (offset b : ℕ) (bs : Bytes) (r : Replay)
      → Stands p offset [] r
      → offset < p.end
      → p.end < 2 ^ 64
      → get_at p.starts (p.seg_idx + 1) ≡ some offset
      → Dict.get p.dir offset ≡ some (b ∷ bs)
      → (next : Replay) × (read_next read_len (suc fuel) r ≡ read_next read_len fuel next)
        × Stands (record p { seg_idx = p.seg_idx + 1 }) offset (b ∷ bs) next
  reads-pass fuel p offset b bs r s l v h g =
      let n = filled read_len (b ∷ bs) in
      let (e, none_left) = nil-append (drop s.cursor s.buf) s.rest s.ahead_eq in
      let there =
        reader (record p { seg_idx = p.seg_idx + 1 }) offset (take n (b ∷ bs)) 0
          (drop n (b ∷ bs)) in
      (
        there,
        read_next-again read_len gives fuel r there (
            ap (round read_len) (s.is_reader ∙ ap (reader p s.base s.buf s.cursor) none_left)
            ∙ round-pass p s.base s.buf s.cursor offset b bs e (omega (arith, l, s.offset_eq)) v h
                g),
        record {
          base = offset;
          buf = take n (b ∷ bs);
          cursor = 0;
          rest = drop n (b ∷ bs);
          is_reader = refl;
          within = omega arith;
          offset_eq = omega arith;
          ahead_eq = take-drop n (b ∷ bs);
        },
      )
