-- ===== src/Replaylog/Segments.antt =====
-- The segments of crates/datarail-replaylog/src/lib.rs as lists of records, and how a reader passes from
-- one to the next.
use hu_gr_datarail.Prelude.{
  ℕ, ◌+◌, ◌<◌, ◌≡◌, refl, sym, ap, ◌∙◌, true, false, none, some, List, [], ◌∷◌, ◌++◌, append-nil,
  append_assoc, Bytes, length, nat_eq, arith, length-append, All, ℕ_eq,
}
use hu_gr_datarail.Prelude.Dict
use hu_gr_datarail.Replaylog.{Dir, frame_overhead, frame, segment_starts, get_at}
use hu_gr_datarail.Replaylog.Frames.{frames, length-frame}
use hu_gr_datarail.Replaylog.Rounds.{Place}

abbrev pub size : List Bytes → ℕ
size bodies = length (frames bodies)

-- all records of the segments, in order
abbrev pub joined : List (List Bytes) → List Bytes
joined [] = []
joined (seg ∷ segs) = seg ++ joined segs

-- the directory of segments, the first of which starts at `o`
abbrev pub dir_of : ℕ → List (List Bytes) → Dir
dir_of o [] = []
dir_of o (seg ∷ segs) = (o, frames seg) ∷ dir_of (o + size seg) segs

pub joined-last :
    (segs : List (List Bytes)) (seg : List Bytes) → joined (segs ++ (seg ∷ [])) ≡ joined segs ++ seg
joined-last [] seg = append-nil seg
joined-last (s ∷ segs) seg =
    ap (λ l. s ++ l) (joined-last segs seg) ∙ sym (append_assoc s (joined segs) seg)

pub frames-append : (xs ys : List Bytes) → frames (xs ++ ys) ≡ frames xs ++ frames ys
unfolding frames
frames-append [] ys = refl
frames-append (x ∷ xs) ys =
    ap (λ l. frame x ++ l) (frames-append xs ys) ∙ sym (append_assoc (frame x) _ _)

pub size-append : (xs ys : List Bytes) → size (xs ++ ys) ≡ size xs + size ys
size-append xs ys = ap length (frames-append xs ys) ∙ length-append (frames xs) (frames ys)

pub size-cons : (x : Bytes) (xs : List Bytes) → size (x ∷ xs) ≡ frame_overhead + length x + size xs
unfolding frames
size-cons x xs = length-append (frame x) (frames xs) ∙ omega (arith, length-frame x)

-- A segment has a record, as all but the last have.
abbrev pub IsClosed : List Bytes → Type 0
IsClosed seg = 0 < size seg

pub start-at :
    (o : ℕ) (before : List (List Bytes)) (seg : List Bytes) (after : List (List Bytes))
    → get_at (segment_starts (dir_of o (before ++ (seg ∷ after)))) (length before)
      ≡ some (o + size (joined before))
unfolding get_at segment_starts frames
start-at o [] seg after = ap some (omega arith)
start-at o (b ∷ before) seg after =
    start-at (o + size b) before seg after ∙ ap some (omega (arith, size-append b (joined before)))

pub start-none :
    (o : ℕ) (segs : List (List Bytes))
    → get_at (segment_starts (dir_of o segs)) (length segs) ≡ none
unfolding get_at segment_starts
start-none o [] = refl
start-none o (seg ∷ segs) = start-none (o + size seg) segs

pub file-at :
    (o : ℕ) (before : List (List Bytes)) (seg : List Bytes) (after : List (List Bytes))
    → All IsClosed before
    → Dict.get (dir_of o (before ++ (seg ∷ after))) (o + size (joined before)) ≡ some (frames seg)
unfolding Dict.get frames
file-at o [] seg after h = let here : nat_eq o (o + 0) ≡ true = ground arith in rw here refl
file-at o (b ∷ before) seg after (h, hs) =
    let past : nat_eq o (o + size (b ++ joined before)) ≡ false =
      ground (arith, h, size-append b (joined before)) in
    rw past (
      ap (λ k. Dict.get (dir_of (o + size b) (before ++ (seg ∷ after))) k)
        {x = o + size (b ++ joined before)} {y = o + size b + size (joined before)}
        (omega (arith, size-append b (joined before)))
      ∙ file-at (o + size b) before seg after hs)

-- the place of a reader in the segment behind `before`
abbrev pub place : List (List Bytes) → List Bytes → List (List Bytes) → ℕ → Place
place before seg after end = record {
  dir = dir_of 0 (before ++ (seg ∷ after));
  starts = segment_starts (dir_of 0 (before ++ (seg ∷ after)));
  seg_idx = length before;
  end = end;
}
