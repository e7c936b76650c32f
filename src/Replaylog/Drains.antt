-- ===== src/Replaylog/Drains.antt =====
-- A reader of crates/datarail-replaylog/src/lib.rs, read to its end.
use hu_gr_datarail.Prelude.{◌^◌}
use hu_gr_datarail.Prelude.{
  ℕ, zero, suc, ◌+◌, ◌≤◌, ◌<◌, ◌≡◌, refl, sym, ap, ◌∙◌, subst, some, List, [], ◌∷◌, ◌++◌, Bytes,
  length, arith, All, ℕ_eq,
}
use hu_gr_datarail.Prelude.Dict
use hu_gr_datarail.Replaylog.{frame_overhead, get_at}
use hu_gr_datarail.Replaylog.Frames.{Fits, frames}
use hu_gr_datarail.Replaylog.Reader.{Replay, ended, found, read_next, read_all}
use hu_gr_datarail.Replaylog.Rounds.{Gives, Stands}
use hu_gr_datarail.Replaylog.Segments.{
  size, joined, dir_of, size-append, size-cons, IsClosed, start-at, file-at, place,
}
use hu_gr_datarail.Replaylog.Passing.{read_next-ended, here-Reads, reads-pass}
use hu_gr_datarail.Replaylog.Rest.{
  All-snoc, Front, Left, cons-eq, cons-of, joined-snoc, next-IsClosed, nil-here, place-next,
  with_offsets,
}

module _ (read_len : Bytes → ℕ) (gives : Gives read_len) where
  abbrev pub Found : ℕ → Bytes → List Bytes → ℕ → ℕ → Replay → Type 0
  Found fuel body left offset end r =
      (next : Replay) × (read_next read_len fuel r ≡ found offset body next)
      × Left left (offset + (frame_overhead + length body)) end next

  here-Found :
      (fuel offset end : ℕ) (before : List (List Bytes)) (seg : List Bytes)
      (after : List (List Bytes)) (body : Bytes) (here left : List Bytes) (r : Replay)
      → Stands (place before seg after end) offset (frames (body ∷ here)) r
      → here ++ joined after ≡ left
      → size (joined before) + size seg ≡ offset + size (body ∷ here)
      → All IsClosed before
      → Front (seg ∷ after)
      → offset + size (body ∷ left) ≡ end
      → Fits body
      → end < fuel
      → end < 2 ^ 64
      → Found fuel body left offset end r
  unfolding frames
  here-Found fuel offset end before seg after body here left r s e o c f total h l v =
      let sizes = size-cons body here in
      let bound : size here ≤ size left =
        omega (arith, ap size (sym e), size-append here (joined after)) in
      let (next, a, t) =
        here-Reads read_len gives fuel (place before seg after end) offset body (frames here) r s h
          (omega (arith, total, size-cons body left)) v
          (omega (arith, l, total, sizes, size-cons body left, bound)) in
      (
        next,
        a,
        record {
          before = before;
          seg = seg;
          after = after;
          here = here;
          stands = t;
          left_eq = e;
          offset_eq = omega (arith, o, sizes);
          closed = c;
          front = f;
          end_eq = omega (arith, total, size-cons body left);
          word = v;
        },
      )

  -- The next segment holds what is left.
  pass-Found :
      (fuel offset end : ℕ) (before : List (List Bytes)) (seg next : List Bytes)
      (after : List (List Bytes)) (body : Bytes) (left : List Bytes) (r : Replay)
      → Stands (place before seg (next ∷ after) end) offset [] r
      → next ++ joined after ≡ body ∷ left
      → size (joined before) + size seg ≡ offset
      → All IsClosed before
      → Front (seg ∷ next ∷ after)
      → offset + size (body ∷ left) ≡ end
      → Fits body
      → end < fuel
      → end < 2 ^ 64
      → Found (suc fuel) body left offset end r
  unfolding frames
  pass-Found fuel offset end before seg [] after body left r s e o c (f, fs) total h l v =
      absurd
        (omega (arith, next-IsClosed [] after fs (omega (arith, ap size e, size-cons body left))))
  pass-Found fuel offset end before seg (x ∷ next) after body left r s e o c (f, fs) total h l v =
      let (same, e') = cons-eq e in
      let (b, bs, bytes) = cons-of (frames (x ∷ next)) (omega (arith, size-cons x next)) in
      let all = before ++ (seg ∷ []) in
      let c' = All-snoc before seg c f in
      let o' = joined-snoc before seg in
      let (there, a, t) =
        reads-pass read_len gives fuel (place before seg ((x ∷ next) ∷ after) end) offset b bs r s
          (omega (arith, total, size-cons body left)) v
          (subst (λ p. get_at p.starts p.seg_idx ≡ some offset)
            (sym (place-next before seg (x ∷ next) after end))
            (start-at 0 all (x ∷ next) after ∙ ap some (omega (arith, o, o'))))
          (subst (λ p. Dict.get p.dir offset ≡ some (b ∷ bs))
            (sym (place-next before seg (x ∷ next) after end))
            (ap (Dict.get (dir_of 0 (all ++ ((x ∷ next) ∷ after)))) {x = offset}
                {y = 0 + size (joined all)} (omega (arith, o, o'))
              ∙ file-at 0 all (x ∷ next) after c'
              ∙ ap some bytes)) in
      let (found_next, a', w) =
        here-Found fuel offset end all (x ∷ next) after x next left there
          (subst (λ p. Stands p offset (frames (x ∷ next)) there)
            (place-next before seg (x ∷ next) after end)
            (subst
              (λ y.
                Stands
                  (record (place before seg ((x ∷ next) ∷ after) end) {
                    seg_idx = length before + 1;
                  })
                  offset y there)
              (sym bytes) t))
          e' (omega (arith, o, o')) c' fs (ap (λ y. offset + size (y ∷ left)) same ∙ total)
          (subst Fits (sym same) h) l v in
      subst (λ y. Found (suc fuel) y left offset end r) same (found_next, a ∙ a', w)

  pub Left-Found :
      (fuel offset end : ℕ) (body : Bytes) (left : List Bytes) (r : Replay)
      → Left (body ∷ left) offset end r
      → Fits body
      → end < fuel
      → Found (suc fuel) body left offset end r
  unfolding frames
  Left-Found fuel offset end body left r l h f =
      go l.here l.after l.stands l.left_eq l.offset_eq l.front
    where
      go :
          (here : List Bytes) (after : List (List Bytes))
          → Stands (place l.before l.seg after end) offset (frames here) r
          → here ++ joined after ≡ body ∷ left
          → size (joined l.before) + size l.seg ≡ offset + size here
          → Front (l.seg ∷ after)
          → Found (suc fuel) body left offset end r
      go [] [] s e o t = cc
      go [] (next ∷ after) s e o t =
          pass-Found fuel offset end l.before l.seg next after body left r s e (omega (arith, o))
            l.closed t l.end_eq h f l.word
      go (x ∷ here) after s e o t =
          let (same, e') = cons-eq e in
          subst (λ y. Found (suc fuel) y left offset end r) same
            (here-Found (suc fuel) offset end l.before l.seg after x here left r s e' o l.closed t
              (ap (λ y. offset + size (y ∷ left)) same ∙ l.end_eq) (subst Fits (sym same) h)
              (omega (arith, f)) l.word)

  pub ended-Left :
      (fuel offset end : ℕ) (r : Replay)
      → Left [] offset end r
      → read_next read_len (suc fuel) r ≡ ended r
  unfolding frames
  ended-Left fuel offset end r l =
      let none_here : l.here ≡ [] = nil-here l.here (joined l.after) l.left_eq in
      read_next-ended read_len gives fuel (place l.before l.seg l.after end) offset r
        (subst (λ here. Stands (place l.before l.seg l.after end) offset (frames here) r) none_here
          l.stands)
        (omega (arith, l.end_eq)) l.word

  -- A reader gives the records that are left, with their offsets, and ends.
  pub read_all-Left :
      (calls fuel offset end : ℕ) (left : List Bytes) (r : Replay)
      → Left left offset end r
      → All Fits left
      → length left < calls
      → end < fuel
      → read_all read_len calls (suc fuel) r ≡ some (with_offsets offset left)
  unfolding read_all with_offsets
  read_all-Left zero fuel offset end left r l h c f = absurd (omega (arith, c))
  read_all-Left (suc calls) fuel offset end [] r l h c f =
      rw (read_all, ended-Left fuel offset end r l) refl
  read_all-Left (suc calls) fuel offset end (body ∷ left) r l (h, hs) c f =
      let (next, a, rest) = Left-Found fuel offset end body left r l h f in
      rw
        (
          read_all,
          a,
          read_all-Left calls fuel (offset + (frame_overhead + length body)) end left next rest hs
              (omega (arith, c)) f,
        )
        refl
