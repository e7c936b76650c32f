-- ===== src/Replaylog/Rounds.antt =====
-- A round of the loop of `read_next` of crates/datarail-replaylog/src/lib.rs within a segment.
use hu_gr_datarail.Prelude.{◌∙◌, ap}
use hu_gr_datarail.Replaylog.Reader.{filled}
use hu_gr_datarail.Prelude.{◌%◌, ◌^◌}
use hu_gr_datarail.Prelude.{
  ℕ, zero, suc, ◌+◌, ◌≤◌, ◌<◌, ◌≡◌, refl, true, false, some, List, ◌∷◌, ◌++◌, Bytes, length, take,
  drop, ltb, leb, arith, length-append,
}
use hu_gr_datarail.Replaylog.{Dir, max_record, frame_overhead, frame, body_len}
use hu_gr_datarail.Replaylog.Frames.{
  Fits, length-frame, body_len-frame, body-frame, is_intact-frame,
}
use hu_gr_datarail.Replaylog.Reader.{
  Replay, found, refill_loop, refill, round, compacted, after_refill,
}

-- a file that is not at its end gives a byte at least
abbrev pub Gives : (Bytes → ℕ) → Type 0
Gives read_len = (b : ℕ) (bs : Bytes) → 0 < read_len (b ∷ bs)

-- What a reader does not change within a segment.
pub record Place : Type 0 where
  pub dir : Dir
  pub starts : List ℕ
  pub seg_idx : ℕ
  pub end : ℕ

unfoldable pub reader : Place → ℕ → Bytes → ℕ → Bytes → Replay
reader p base buf cursor rest = record {
  dir = p.dir;
  starts = p.starts;
  seg_idx = p.seg_idx;
  file = some rest;
  buf_base = base;
  buf = buf;
  cursor = cursor;
  end = p.end;
}

-- A reader whose next byte has the logical offset `offset`, with `ahead` left of its segment.
pub record Stands (p : Place) (offset : ℕ) (ahead : Bytes) (r : Replay) : Type 0 where
  pub base : ℕ
  pub buf : Bytes
  pub cursor : ℕ
  pub rest : Bytes
  pub is_reader : r ≡ reader p base buf cursor rest
  pub within : cursor ≤ length buf
  pub offset_eq : base + cursor ≡ offset
  pub ahead_eq : drop cursor buf ++ rest ≡ ahead

module _ (read_len : Bytes → ℕ) (gives : Gives read_len) where
  pub take-given :
      (b : ℕ) (bs : Bytes)
      → (c : ℕ) × (cs : Bytes) × (take (filled read_len (b ∷ bs)) (b ∷ bs) ≡ c ∷ cs)
  take-given b bs = given (filled read_len (b ∷ bs)) (omega (arith, gives b bs))
    where
      given : (n : ℕ) → 0 < n → (c : ℕ) × (cs : Bytes) × (take n (b ∷ bs) ≡ c ∷ cs)
      given zero h = absurd (omega (arith, h))
      given (suc n) h = (b, take n bs, refl)

  refill-moved :
      (p : Place) (base : ℕ) (buf : Bytes) (cursor b : ℕ) (bs : Bytes)
      → refill read_len (reader p base buf cursor (b ∷ bs))
        ≡ some (
          true,
          reader p
              ((base + cursor) % 2 ^ 64)
              (drop cursor buf ++ take (filled read_len (b ∷ bs)) (b ∷ bs))
              0
              (drop (filled read_len (b ∷ bs)) (b ∷ bs)),
        )
  unfolding refill refill_loop reader compacted
  refill-moved p base buf cursor b bs =
      let (c, cs, e) = take-given b bs in rw (refill, refill_loop, e) refl

  -- A refill within a segment leaves the bytes ahead as they are, and the file shorter.
  pub refill-reader :
      (p : Place) (base : ℕ) (buf : Bytes) (cursor b : ℕ) (bs : Bytes)
      → base + cursor < p.end
      → p.end < 2 ^ 64
      → refill read_len (reader p base buf cursor (b ∷ bs))
        ≡ some (
          true,
          reader p
              (base + cursor)
              (drop cursor buf ++ take (filled read_len (b ∷ bs)) (b ∷ bs))
              0
              (drop (filled read_len (b ∷ bs)) (b ∷ bs)),
        )
  refill-reader p base buf cursor b bs l w =
      let n = filled read_len (b ∷ bs) in
      refill-moved p base buf cursor b bs
      ∙ ap (λ k. some (true, reader p k (drop cursor buf ++ take n (b ∷ bs)) 0 (drop n (b ∷ bs))))
          {x = (base + cursor) % 2 ^ 64} {y = base + cursor} (omega (arith, l, w))

  -- The rounds of a reader within a segment, by what stands in its buffer.
  pub round-short :
      (p : Place) (base : ℕ) (buf : Bytes) (cursor : ℕ) (rest : Bytes)
      → length (drop cursor buf) < 4
      → base + cursor < p.end
      → p.end < 2 ^ 64
      → round read_len (reader p base buf cursor rest)
        ≡ after_refill (refill read_len (reader p base buf cursor rest))
  unfolding round reader refill
  round-short p base buf cursor rest h l w =
      let same : (base + cursor) % 2 ^ 64 ≡ base + cursor = omega (arith, l, w) in
      let test : ltb (length (drop cursor buf)) 4 ≡ true = ground (arith, h) in
      let before : leb p.end (base + cursor) ≡ false = ground (arith, l) in
      rw (reader, round, test, same, before) refl

  pub round-part :
      (p : Place) (base : ℕ) (buf : Bytes) (cursor : ℕ) (rest : Bytes) (len : ℕ)
      → 4 ≤ length (drop cursor buf)
      → body_len (drop cursor buf) ≡ len
      → len ≤ max_record
      → length (drop cursor buf) < frame_overhead + len
      → round read_len (reader p base buf cursor rest)
        ≡ after_refill (refill read_len (reader p base buf cursor rest))
  unfolding round reader refill
  round-part p base buf cursor rest len a e m l =
      let test : ltb (length (drop cursor buf)) 4 ≡ false = ground (arith, a) in
      let small : ltb max_record len ≡ false = ground (arith, m) in
      let short : ltb (length (drop cursor buf)) (frame_overhead + len) ≡ true =
        ground (arith, l) in
      rw (reader, round, test, e, small, short) refl

  pub round-found :
      (p : Place) (base : ℕ) (buf : Bytes) (cursor : ℕ) (rest body more : Bytes)
      → drop cursor buf ≡ frame body ++ more
      → Fits body
      → base + cursor < p.end
      → p.end < 2 ^ 64
      → round read_len (reader p base buf cursor rest)
        ≡ found
            (base + cursor)
            body
            (reader p base buf (cursor + (frame_overhead + length body)) rest)
  unfolding round reader refill
  round-found p base buf cursor rest body more e h l w =
      let same : (base + cursor) % 2 ^ 64 ≡ base + cursor = omega (arith, l, w) in
      let size : length (frame body ++ more) ≡ frame_overhead + length body + length more =
        omega (arith, length-append (frame body) more, length-frame body) in
      let test : ltb (length (frame body ++ more)) 4 ≡ false = ground (arith, size) in
      let small : ltb max_record (length body) ≡ false = ground (arith, h) in
      let full : ltb (length (frame body ++ more)) (frame_overhead + length body) ≡ false =
        ground (arith, size) in
      let before : leb p.end (base + cursor) ≡ false = ground (arith, l) in
      rw
        (
          reader,
          round,
          same,
          e,
          test,
          body_len-frame body more h,
          small,
          full,
          before,
          is_intact-frame body more h,
          body-frame body more,
        )
        refl
