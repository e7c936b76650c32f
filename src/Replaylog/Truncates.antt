-- ===== src/Replaylog/Truncates.antt =====
-- `truncate_to` of crates/datarail-replaylog/src/lib.rs: the log is cut behind a record.
use hu_gr_datarail.Prelude.{◌^◌, ◌<◌}
use hu_gr_datarail.Replaylog.Open.{done, truncated}
use hu_gr_datarail.Replaylog.Open.{cut, is_frame_boundary, remove_files, shortened, truncate_to}
use hu_gr_datarail.Replaylog.Recover.{file_at-some, resize-front}
use hu_gr_datarail.Prelude.{
  ℕ, suc, ◌+◌, ◌-◌, ◌≤◌, ◌<◌, ◌≡◌, refl, sym, ap, ◌∙◌, subst, true, false, some, List, [], ◌∷◌,
  ◌++◌, append_assoc, append-nil, Bytes, length, drop, ltb, nat_eq, arith, All, ℕ_eq, All-right,
}
use hu_gr_datarail.Prelude.Dict
use hu_gr_datarail.Replaylog.{Dir, ReplayLog, frame_overhead, file_at, put_file, resize}
use hu_gr_datarail.Replaylog.Frames.{Fits, frames}
use hu_gr_datarail.Replaylog.Segments.{
  size, joined, dir_of, size-append, size-cons, frames-append, IsClosed, file-at,
}
use hu_gr_datarail.Replaylog.{segment_starts, partition_point, get_at}
use hu_gr_datarail.Replaylog.Segments.{start-at}
use hu_gr_datarail.Replaylog.Rest.{Front, All-snoc, joined-snoc}
use hu_gr_datarail.Replaylog.Holds.{Holds, put-last, file_at-last}
use hu_gr_datarail.Replaylog.Locate.{locate}
use hu_gr_datarail.Replaylog.Boundary.{is_frame_boundary-frames}

-- The removal of the segments behind one.
abbrev KeysBelow : ℕ → Dir → Type 0
KeysBelow k [] = Unit
KeysBelow k ((j, v) ∷ dir) = (j < k) × KeysBelow k dir

KeysBelow-le : (j k : ℕ) (dir : Dir) → j ≤ k → KeysBelow j dir → KeysBelow k dir
KeysBelow-le j k [] l h = tt
KeysBelow-le j k ((i, v) ∷ dir) l (h, hs) = (omega (arith, h, l), KeysBelow-le j k dir l hs)

remove-below :
    (k : ℕ) (dir rest : Dir)
    → KeysBelow k dir
    → Dict.remove (dir ++ rest) k ≡ dir ++ Dict.remove rest k
unfolding Dict.remove
remove-below k [] rest h = refl
remove-below k ((j, v) ∷ dir) rest (h, hs) =
    let differ : nat_eq j k ≡ false = ground (arith, h) in
    rw differ (ap (λ d. (j, v) ∷ d) (remove-below k dir rest hs))

remove-above :
    (k o : ℕ) (segs : List (List Bytes)) → k < o → Dict.remove (dir_of o segs) k ≡ dir_of o segs
unfolding Dict.remove
remove-above k o [] h = refl
remove-above k o (s ∷ segs) h =
    let differ : nat_eq o k ≡ false = ground (arith, h) in
    rw differ (ap (λ d. (o, frames s) ∷ d) (remove-above k (o + size s) segs (omega (arith, h))))

remove-first :
    (o : ℕ) (seg : List Bytes) (after : List (List Bytes))
    → Front (seg ∷ after)
    → Dict.remove (dir_of o (seg ∷ after)) o ≡ dir_of (o + size seg) after
unfolding Dict.remove
remove-first o seg [] f = let same : nat_eq o o ≡ true = ground arith in rw same refl
remove-first o seg (next ∷ after) (c, f) =
    let same : nat_eq o o ≡ true = ground arith in
    rw same (remove-above o (o + size seg) (next ∷ after) (omega (arith, c)))

Front-tail : (seg : List Bytes) (after : List (List Bytes)) → Front (seg ∷ after) → Front after
Front-tail seg [] f = tt
Front-tail seg (next ∷ after) (c, f) = f

remove_files-after :
    (o : ℕ) (dir : Dir) (after : List (List Bytes))
    → KeysBelow o dir
    → Front after
    → remove_files (dir ++ dir_of o after) (segment_starts (dir_of o after)) ≡ dir
unfolding remove_files segment_starts
remove_files-after o dir [] h f = append-nil dir
remove_files-after o dir (seg ∷ after) h f =
    ap (λ d. remove_files d (segment_starts (dir_of (o + size seg) after)))
      (remove-below o dir (dir_of o (seg ∷ after)) h
        ∙ ap (λ d. dir ++ d) (remove-first o seg after f))
    ∙ remove_files-after (o + size seg) dir after
        (KeysBelow-le o (o + size seg) dir (omega arith) h) (Front-tail seg after f)

dir_of-append :
    (o : ℕ) (before after : List (List Bytes))
    → dir_of o (before ++ after) ≡ dir_of o before ++ dir_of (o + size (joined before)) after
unfolding frames
dir_of-append o [] after = ap (λ k. dir_of k after) {x = o} {y = o + 0} (omega arith)
dir_of-append o (s ∷ before) after =
    ap (λ d. (o, frames s) ∷ d)
      (dir_of-append (o + size s) before after
        ∙ ap (λ k. dir_of (o + size s) before ++ dir_of k after)
            {x = o + size s + size (joined before)} {y = o + size (s ++ joined before)}
            (omega (arith, size-append s (joined before))))

dir_of-KeysBelow :
    (o k : ℕ) (segs : List (List Bytes))
    → All IsClosed segs
    → o + size (joined segs) ≤ k
    → KeysBelow k (dir_of o segs)
unfolding frames
dir_of-KeysBelow o k [] h l = tt
dir_of-KeysBelow o k (s ∷ segs) (h, hs) l =
    let sizes = size-append s (joined segs) in
    (omega (arith, h, l, sizes), dir_of-KeysBelow (o + size s) k segs hs (omega (arith, l, sizes)))

drop-starts :
    (o : ℕ) (before : List (List Bytes)) (seg : List Bytes) (after : List (List Bytes))
    → drop (length before + 1) (segment_starts (dir_of o (before ++ (seg ∷ after))))
      ≡ segment_starts (dir_of (o + (size (joined before) + size seg)) after)
unfolding segment_starts frames
drop-starts o [] seg after =
    ap (λ k. segment_starts (dir_of k after)) {x = o + size seg} {y = o + (0 + size seg)}
      (omega arith)
drop-starts o (s ∷ before) seg after =
    ap (λ n. drop n (o ∷ segment_starts (dir_of (o + size s) (before ++ (seg ∷ after)))))
      {x = suc (length before) + 1} {y = suc (length before + 1)} (omega arith)
    ∙ drop-starts (o + size s) before seg after
    ∙ ap (λ k. segment_starts (dir_of k after)) {x = o + size s + (size (joined before) + size seg)}
        {y = o + (size (s ++ joined before) + size seg)}
        (omega (arith, size-append s (joined before)))

-- The later segments are removed.
remove_files-later :
    (before : List (List Bytes)) (seg : List Bytes) (after : List (List Bytes))
    → All IsClosed before
    → Front (seg ∷ after)
    → remove_files
        (dir_of 0 (before ++ (seg ∷ after)))
        (drop (length before + 1) (segment_starts (dir_of 0 (before ++ (seg ∷ after)))))
      ≡ dir_of 0 (before ++ (seg ∷ []))
unfolding remove_files segment_starts
remove_files-later before seg [] h f =
    ap (remove_files (dir_of 0 (before ++ (seg ∷ [])))) (drop-starts 0 before seg [])
remove_files-later before seg (next ∷ after) h (c, f) =
    let e = size (joined before) + size seg in
    let all = before ++ (seg ∷ []) in
    let closed = All-snoc before seg h c in
    let sizes = joined-snoc before seg in
    ap (remove_files (dir_of 0 (before ++ (seg ∷ next ∷ after))))
      (drop-starts 0 before seg (next ∷ after))
    ∙ ap (λ d. remove_files d (segment_starts (dir_of (0 + e) (next ∷ after))))
        (ap (dir_of 0) (sym (append_assoc before (seg ∷ []) (next ∷ after)))
          ∙ dir_of-append 0 all (next ∷ after)
          ∙ ap (λ k. dir_of 0 all ++ dir_of k (next ∷ after)) {x = 0 + size (joined all)}
              {y = 0 + e} (omega (arith, sizes)))
    ∙ remove_files-after (0 + e) (dir_of 0 all) (next ∷ after)
        (dir_of-KeysBelow 0 (0 + e) all closed (omega (arith, sizes))) f

shortened-Holds :
    (log : ReplayLog) (before : List (List Bytes)) (seg past here : List Bytes)
    (after : List (List Bytes)) (pre : List Bytes) (end : ℕ) (later : List ℕ)
    → log.dir ≡ dir_of 0 (before ++ (seg ∷ after))
    → later ≡ drop (length before + 1) (segment_starts (dir_of 0 (before ++ (seg ∷ after))))
    → seg ≡ past ++ here
    → joined before ++ past ≡ pre
    → end ≡ size pre
    → size pre < 2 ^ 64
    → All IsClosed before
    → Front (seg ∷ after)
    → Holds pre (shortened log (size (joined before)) end later)
unfolding shortened
shortened-Holds log before seg past here after pre end later d m s p e v h f = record {
  closed = before;
  last = past;
  dir_eq =
      ap (λ x. put_file x start (resize (end - start) (file_at x start)))
        (ap (λ x. remove_files x later) d
          ∙ ap (remove_files (dir_of 0 (before ++ (seg ∷ after)))) m
          ∙ remove_files-later before seg after h f)
      ∙ ap (λ b. put_file (dir_of 0 (before ++ (seg ∷ []))) start (resize (end - start) b))
          (file_at-last before seg h ∙ ap frames s ∙ frames-append past here)
      ∙ ap
          (λ n.
            put_file (dir_of 0 (before ++ (seg ∷ []))) start
              (resize n (frames past ++ frames here)))
          relative
      ∙ ap (put_file (dir_of 0 (before ++ (seg ∷ []))) start)
          (resize-front (frames past) (frames here))
      ∙ put-last before seg past h;
  all_closed = h;
  records_eq = p;
  start_eq = refl;
  active_eq = refl;
  position_eq = relative;
  offset_eq = e;
  word = v;
}
  where
    start : ℕ
    start = size (joined before)

    relative : end - start ≡ size past
    relative = omega (arith, e, sym (ap size p), size-append (joined before) past)

-- A log that is cut at the offset of a record holds the records before it.
pub truncate_to-Holds :
    (log : ReplayLog) (pre : List Bytes) (body : Bytes) (post : List Bytes)
    → Holds (pre ++ (body ∷ post)) log
    → All Fits pre
    → ((truncate_to log (size pre) truncated).0 ≡ done)
      × Holds pre ((truncate_to log (size pre) truncated).1)
unfolding truncate_to cut
truncate_to-Holds log pre body post h fits =
    let l = locate 0 h.closed h.last pre (body ∷ post) h.all_closed h.records_eq in
    let end = size pre in
    let ts = size (joined l.before) in
    let segs = l.before ++ (l.seg ∷ l.after) in
    let sizes : log.write_offset ≡ end + (frame_overhead + length body + size post) =
      omega (arith, h.offset_eq, size-append pre (body ∷ post), size-cons body post) in
    let inside : ltb log.write_offset end ≡ false = ground (arith, sizes) in
    let short : nat_eq end log.write_offset ≡ false = ground (arith, sizes) in
    let dir_eq : log.dir ≡ dir_of 0 segs = h.dir_eq ∙ ap (dir_of 0) (sym l.segs_eq) in
    let point : partition_point end (segment_starts log.dir) ≡ suc (length l.before) =
      ap (λ d. partition_point end (segment_starts d)) h.dir_eq
      ∙ ap (λ k. partition_point k (segment_starts (dir_of 0 (h.closed ++ (h.last ∷ [])))))
          {x = end} {y = 0 + end} (omega arith)
      ∙ l.index_eq in
    let index : partition_point end (segment_starts log.dir) - 1 ≡ length l.before =
      omega (arith, point) in
    let start : get_at (segment_starts log.dir) (length l.before) ≡ some ts =
      ap (λ d. get_at (segment_starts d) (length l.before)) dir_eq
      ∙ start-at 0 l.before l.seg l.after
      ∙ ap some (omega arith) in
    let relative : end - ts ≡ size l.past = omega (arith, l.pre_eq) in
    let file : file_at log.dir ts ≡ frames l.past ++ frames l.here =
      ap (λ d. file_at d ts) dir_eq
      ∙ file_at-some (dir_of 0 segs) ts (frames l.seg) (
          ap (Dict.get (dir_of 0 segs)) {x = ts} {y = 0 + ts} (omega arith)
          ∙ file-at 0 l.before l.seg l.after l.closed)
      ∙ ap frames l.seg_eq
      ∙ frames-append l.past l.here in
    let boundary : is_frame_boundary (frames l.past ++ frames l.here) (size l.past) ≡ true =
      is_frame_boundary-frames l.past l.here
        (All-right Fits (joined l.before) l.past (subst (All Fits) (sym l.records_eq) fits)) in
    let held =
      shortened-Holds log l.before l.seg l.past l.here l.after pre end
        (drop (length l.before + 1) (segment_starts log.dir)) dir_eq
        (ap (λ d. drop (length l.before + 1) (segment_starts d)) dir_eq) l.seg_eq l.records_eq refl
        (omega (arith, h.word, size-append pre (body ∷ post))) l.closed l.front in
    rw (inside, short, index, start, file, relative, boundary) (refl, held)

pub segment_bytes-truncate_to :
    (log : ReplayLog) (end : ℕ)
    → (truncate_to log end truncated).1.segment_bytes ≡ log.segment_bytes
unfolding truncate_to cut shortened
segment_bytes-truncate_to log end = ground arith
