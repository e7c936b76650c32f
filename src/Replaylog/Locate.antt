-- ===== src/Replaylog/Locate.antt =====
-- Where `replay_from` of crates/datarail-replaylog/src/lib.rs starts to read: at the record of its offset.
use hu_gr_datarail.Prelude.{
  ℕ, suc, ◌+◌, ◌≤◌, ◌<◌, ◌≡◌, ◌⊎◌, inl, inr, refl, sym, ap, ◌∙◌, true, false, List, [], ◌∷◌, ◌++◌,
  append_assoc, append-nil, Bytes, length, leb, arith, All, ℕ_eq,
}
use hu_gr_datarail.Replaylog.{segment_starts, partition_point}
use hu_gr_datarail.Replaylog.Frames.{frames}
use hu_gr_datarail.Replaylog.Segments.{
  joined-last, size, joined, dir_of, size-append, size-cons, IsClosed,
}
use hu_gr_datarail.Replaylog.Rest.{Front, cons-eq}

-- Of two ways to cut a list in two, one cuts first.
cut-cases :
    (xs ys pre post : List Bytes)
    → xs ++ ys ≡ pre ++ post
    → ((x : Bytes) × (mid : List Bytes) × (xs ≡ pre ++ (x ∷ mid)) × ((x ∷ mid) ++ ys ≡ post))
      ⊎ ((mid : List Bytes) × (pre ≡ xs ++ mid) × (ys ≡ mid ++ post))
cut-cases [] ys pre post h = inr (pre, refl, h)
cut-cases (x ∷ xs) ys [] post h = inl (x, xs, refl, h)
cut-cases (x ∷ xs) ys (y ∷ pre) post h =
    let (same, rest) = cons-eq h in
    elim (cut-cases xs ys pre post rest) [
      | inl (z, mid, a, b) ↦
          inl (z, mid, ap (λ l. x ∷ l) a ∙ ap (λ k. k ∷ (pre ++ (z ∷ mid))) same, b)
      | inr (mid, a, b) ↦ inr (mid, ap (λ l. y ∷ l) a ∙ ap (λ k. k ∷ (xs ++ mid)) (sym same), b)
    ]

Front-snoc :
    (closed : List (List Bytes)) (last : List Bytes)
    → All IsClosed closed
    → Front (closed ++ (last ∷ []))
Front-snoc [] last h = tt
Front-snoc (s ∷ []) last (h, hs) = (h, tt)
Front-snoc (s ∷ t ∷ closed) last (h, hs) = (h, Front-snoc (t ∷ closed) last hs)

partition_point-before :
    (o offset : ℕ) (segs : List (List Bytes))
    → offset < o
    → partition_point offset (segment_starts (dir_of o segs)) ≡ 0
unfolding partition_point segment_starts
partition_point-before o offset [] h = refl
partition_point-before o offset (seg ∷ segs) h =
    let before : leb o offset ≡ false = ground (arith, h) in rw before refl

partition_point-nil : (o offset : ℕ) → partition_point offset (segment_starts (dir_of o [])) ≡ 0
unfolding partition_point segment_starts
partition_point-nil o offset = refl

partition_point-past :
    (o offset : ℕ) (seg : List Bytes) (segs : List (List Bytes))
    → o ≤ offset
    → partition_point offset (segment_starts (dir_of o (seg ∷ segs)))
      ≡ suc (partition_point offset (segment_starts (dir_of (o + size seg) segs)))
unfolding partition_point segment_starts
partition_point-past o offset seg segs h =
    let past : leb o offset ≡ true = ground (arith, h) in rw past refl

-- The segment, of those from `o` on, in which the records `post` behind `pre` begin.
pub record Located (o : ℕ) (segs : List (List Bytes)) (pre post : List Bytes) : Type 0 where
  pub before : List (List Bytes)
  pub seg : List Bytes
  pub after : List (List Bytes)
  pub past : List Bytes
  pub here : List Bytes
  pub segs_eq : before ++ (seg ∷ after) ≡ segs
  pub index_eq :
      partition_point (o + size pre) (segment_starts (dir_of o segs)) ≡ suc (length before)
  pub seg_eq : seg ≡ past ++ here
  pub records_eq : joined before ++ past ≡ pre
  pub pre_eq : size (joined before) + size past ≡ size pre
  pub post_eq : here ++ joined after ≡ post
  pub closed : All IsClosed before
  pub front : Front (seg ∷ after)

pub locate :
    (o : ℕ) (closed : List (List Bytes)) (last pre post : List Bytes)
    → All IsClosed closed
    → joined closed ++ last ≡ pre ++ post
    → Located o (closed ++ (last ∷ [])) pre post
unfolding frames
locate o [] last pre post h e = record {
  before = [];
  seg = last;
  after = [];
  past = pre;
  here = post;
  segs_eq = refl;
  index_eq =
      partition_point-past o (o + size pre) last [] (omega arith)
      ∙ ap suc (partition_point-nil (o + size last) (o + size pre));
  seg_eq = e;
  records_eq = refl;
  pre_eq = omega arith;
  post_eq = append-nil post;
  closed = tt;
  front = tt;
}
locate o (s ∷ closed) last pre post (h, hs) e =
    elim (cut-cases s (joined closed ++ last) pre post
      (sym (append_assoc s (joined closed) last) ∙ e)) [
        | inl (x, mid, a, b) ↦ record {
          before = [];
          seg = s;
          after = closed ++ (last ∷ []);
          past = pre;
          here = x ∷ mid;
          segs_eq = refl;
          index_eq =
              partition_point-past o (o + size pre) s (closed ++ (last ∷ [])) (omega arith)
              ∙ ap suc (
                  partition_point-before (o + size s) (o + size pre) (closed ++ (last ∷ []))
                    (omega (arith, ap size a, size-append pre (x ∷ mid), size-cons x mid)));
          seg_eq = a;
          records_eq = refl;
          pre_eq = omega arith;
          post_eq = ap (λ l. (x ∷ mid) ++ l) (joined-last closed last) ∙ b;
          closed = tt;
          front = Front-snoc (s ∷ closed) last (h, hs);
        }
        | inr (mid, a, b) ↦
            let l = locate (o + size s) closed last mid post hs b in
            let sizes : size pre ≡ size s + size mid = ap size a ∙ size-append s mid in
            record {
              before = s ∷ l.before;
              seg = l.seg;
              after = l.after;
              past = l.past;
              here = l.here;
              segs_eq = ap (λ m. s ∷ m) l.segs_eq;
              index_eq =
                  partition_point-past o (o + size pre) s (closed ++ (last ∷ [])) (omega arith)
                  ∙ ap suc (
                      ap
                        (λ k.
                          partition_point k
                            (segment_starts (dir_of (o + size s) (closed ++ (last ∷ [])))))
                        {x = o + size pre} {y = o + size s + size mid} (omega (arith, sizes))
                      ∙ l.index_eq);
              seg_eq = l.seg_eq;
              records_eq =
                  append_assoc s (joined l.before) l.past ∙ ap (λ m. s ++ m) l.records_eq ∙ sym a;
              pre_eq = omega (arith, l.pre_eq, sizes, size-append s (joined l.before));
              post_eq = l.post_eq;
              closed = (h, l.closed);
              front = l.front;
            }
      ]
