-- ===== src/Replaylog/Rest.antt =====
-- What is left of a log of crates/datarail-replaylog/src/lib.rs before a reader of it.
use hu_gr_datarail.Prelude.{◌^◌}
use hu_gr_datarail.Prelude.{
  ℕ, ◌+◌, ◌<◌, ◌≡◌, refl, sym, ap, ◌∙◌, List, [], ◌∷◌, ◌++◌, append_assoc, Bytes, length, arith,
  length-append, All, ℕ_eq,
}
use hu_gr_datarail.Replaylog.{frame_overhead, segment_starts}
use hu_gr_datarail.Replaylog.Frames.{frames}
use hu_gr_datarail.Replaylog.Reader.{Replay}
use hu_gr_datarail.Replaylog.Rounds.{Place, Stands}
use hu_gr_datarail.Replaylog.Segments.{size, joined, dir_of, size-append, IsClosed, place}

-- All segments but the last have a record.
abbrev pub Front : List (List Bytes) → Type 0
Front [] = Unit
Front (seg ∷ []) = Unit
Front (seg ∷ next ∷ segs) = IsClosed seg × Front (next ∷ segs)

-- The records `left` are what a reader has before it, from `offset` on.
pub record Left (left : List Bytes) (offset end : ℕ) (r : Replay) : Type 0 where
  pub before : List (List Bytes)
  pub seg : List Bytes
  pub after : List (List Bytes)
  pub here : List Bytes
  pub stands : Stands (place before seg after end) offset (frames here) r
  pub left_eq : here ++ joined after ≡ left
  pub offset_eq : size (joined before) + size seg ≡ offset + size here
  pub closed : All IsClosed before
  pub front : Front (seg ∷ after)
  pub end_eq : offset + size left ≡ end
  pub word : end < 2 ^ 64

pub cons-eq : {x y : Bytes} {xs ys : List Bytes} → x ∷ xs ≡ y ∷ ys → (x ≡ y) × (xs ≡ ys)
cons-eq h = (cc, cc)

pub nil-here : (xs ys : List Bytes) → xs ++ ys ≡ [] → xs ≡ []
nil-here [] ys h = refl
nil-here (x ∷ xs) ys h = cc

-- A segment that the rest begins with has a record, where something is left.
pub next-IsClosed :
    (next : List Bytes) (after : List (List Bytes))
    → Front (next ∷ after)
    → 0 < size (next ++ joined after)
    → IsClosed next
unfolding frames
next-IsClosed next [] f h = omega (arith, h, size-append next [])
next-IsClosed next (more ∷ after) (f, fs) h = f

-- the records with their offsets, of which the first is `offset`
unfoldable pub with_offsets : ℕ → List Bytes → List (ℕ × Bytes)
with_offsets offset [] = []
with_offsets offset (body ∷ bodies) =
    (offset, body) ∷ with_offsets (offset + (frame_overhead + length body)) bodies

pub cons-of : (xs : Bytes) → 0 < length xs → (b : ℕ) × (bs : Bytes) × (xs ≡ b ∷ bs)
cons-of [] h = absurd (omega (arith, h))
cons-of (b ∷ bs) h = (b, bs, refl)

pub All-snoc :
    (segs : List (List Bytes)) (seg : List Bytes)
    → All IsClosed segs
    → IsClosed seg
    → All IsClosed (segs ++ (seg ∷ []))
All-snoc [] seg h c = (c, tt)
All-snoc (s ∷ segs) seg (h, hs) c = (h, All-snoc segs seg hs c)

pub joined-snoc :
    (segs : List (List Bytes)) (seg : List Bytes)
    → size (joined (segs ++ (seg ∷ []))) ≡ size (joined segs) + size seg
unfolding frames
joined-snoc [] seg = omega (arith, size-append seg [])
joined-snoc (s ∷ segs) seg = omega (
  arith,
  joined-snoc segs seg,
  size-append s (joined (segs ++ (seg ∷ []))),
  size-append s (joined segs),
)

abbrev place_at : List (List Bytes) → ℕ → ℕ → Place
place_at segs idx end = record {
  dir = dir_of 0 segs;
  starts = segment_starts (dir_of 0 segs);
  seg_idx = idx;
  end = end;
}

pub place-next :
    (before : List (List Bytes)) (seg next : List Bytes) (after : List (List Bytes)) (end : ℕ)
    → record (place before seg (next ∷ after) end) { seg_idx = length before + 1 }
      ≡ place (before ++ (seg ∷ [])) next after end
place-next before seg next after end =
    ap (λ segs. place_at segs (length before + 1) end)
      (sym (append_assoc before (seg ∷ []) (next ∷ after)))
    ∙ ap (λ k. place_at ((before ++ (seg ∷ [])) ++ (next ∷ after)) k end)
        (omega (arith, length-append before (seg ∷ [])))
