-- ===== src/Replaylog/Appends.antt =====
-- `append` of crates/datarail-replaylog/src/lib.rs on a log that holds some records.
use hu_gr_datarail.Replaylog.{active_len}
use hu_gr_datarail.Prelude.{◌^◌, ◌<◌}
use hu_gr_datarail.Prelude.{
  ℕ, ◌+◌, ◌≤◌, ◌<◌, ◌≡◌, inl, inr, refl, sym, ap, ◌∙◌, subst, false, List, [], ◌∷◌, ◌++◌,
  append_assoc, append-nil, Bytes, length, ltb, leb, Bool-cases, arith, All, ℕ_eq,
}
use hu_gr_datarail.Replaylog.{
  Dir, ReplayLog, at_offset, written, rotated, frame_overhead, frame, file_at, put_file, create,
  write_at, write_all, next_segment, rotate, append_frame, after_rotate, append, max_record,
}
use hu_gr_datarail.Replaylog.Frames.{Fits, frames, length-frame}
use hu_gr_datarail.Replaylog.Segments.{
  joined-last, size, joined, dir_of, size-append, size-cons, frames-append, IsClosed,
}
use hu_gr_datarail.Replaylog.Rest.{All-snoc}
use hu_gr_datarail.Replaylog.Holds.{
  Holds, put-last, put-new, file_at-last, file_at-new, write_at-end,
}

frames-snoc : (xs : List Bytes) (x : Bytes) → frames xs ++ frame x ≡ frames (xs ++ (x ∷ []))
unfolding frames
frames-snoc xs x =
    ap (λ f. frames xs ++ f) (sym (append-nil (frame x))) ∙ sym (frames-append xs (x ∷ []))

size-snoc :
    (xs : List Bytes) (x : Bytes) → size (xs ++ (x ∷ [])) ≡ size xs + (frame_overhead + length x)
unfolding frames
size-snoc xs x = omega (arith, size-append xs (x ∷ []), size-cons x [])

-- A write of a whole frame adds the record to the active segment.
append_frame-Holds :
    (log : ReplayLog) (records : List Bytes) (body : Bytes)
    → Holds records log
    → size (records ++ (body ∷ [])) < 2 ^ 64
    → ((append_frame log body written).0 ≡ at_offset (size records))
      × Holds (records ++ (body ∷ [])) ((append_frame log body written).1)
unfolding append_frame write_all
append_frame-Holds log records body h v = (
  ap at_offset h.offset_eq,
  record {
    closed = h.closed;
    last = h.last ++ (body ∷ []);
    dir_eq =
        ap (λ d. put_file d log.active (write_at log.position (frame body) (file_at d log.active)))
          h.dir_eq
        ∙ ap (λ k. put_file dir k (write_at log.position (frame body) (file_at dir k))) h.active_eq
        ∙ ap (λ f. put_file dir start (write_at log.position (frame body) f))
            (file_at-last h.closed h.last h.all_closed)
        ∙ ap (λ n. put_file dir start (write_at n (frame body) (frames h.last))) h.position_eq
        ∙ ap (put_file dir start)
            (write_at-end (frame body) (frames h.last) ∙ frames-snoc h.last body)
        ∙ put-last h.closed h.last (h.last ++ (body ∷ [])) h.all_closed;
    all_closed = h.all_closed;
    records_eq =
        sym (append_assoc (joined h.closed) h.last (body ∷ []))
        ∙ ap (λ l. l ++ (body ∷ [])) h.records_eq;
    start_eq = h.start_eq;
    active_eq = h.active_eq;
    position_eq = omega (arith, h.position_eq, size-snoc h.last body, length-frame body);
    offset_eq = omega (arith, h.offset_eq, size-snoc records body, v);
    word = v;
  },
)
  where
    dir : Dir
    dir = dir_of 0 (h.closed ++ (h.last ∷ []))

    start : ℕ
    start = size (joined h.closed)

-- A rotation closes the active segment, which must have a record.
next_segment-Holds :
    (log : ReplayLog) (records : List Bytes) (h : Holds records log)
    → IsClosed h.last
    → Holds records (next_segment log)
unfolding next_segment create frames
next_segment-Holds log records h c = record {
  closed = h.closed ++ (h.last ∷ []);
  last = [];
  dir_eq =
      ap (λ d. put_file d log.write_offset (file_at d log.write_offset)) h.dir_eq
      ∙ ap (λ k. put_file dir k (file_at dir k)) end_eq
      ∙ ap (put_file dir (size (joined (h.closed ++ (h.last ∷ [])))))
          (file_at-new (h.closed ++ (h.last ∷ [])) all)
      ∙ put-new (h.closed ++ (h.last ∷ [])) [] all;
  all_closed = all;
  records_eq = append-nil _ ∙ joined-last h.closed h.last ∙ h.records_eq;
  start_eq = end_eq;
  active_eq = end_eq;
  position_eq = refl;
  offset_eq = h.offset_eq;
  word = h.word;
}
  where
    dir : Dir
    dir = dir_of 0 (h.closed ++ (h.last ∷ []))

    all : All IsClosed (h.closed ++ (h.last ∷ []))
    all = All-snoc h.closed h.last h.all_closed c

    end_eq : log.write_offset ≡ size (joined (h.closed ++ (h.last ∷ [])))
    end_eq = h.offset_eq ∙ ap size (sym (joined-last h.closed h.last ∙ h.records_eq))

-- An active segment that is full has a record.
pub next_segment-full :
    (log : ReplayLog) (records : List Bytes)
    → Holds records log
    → 0 < log.segment_bytes
    → log.segment_bytes ≤ active_len log
    → Holds records (next_segment log)
next_segment-full log records h pos full = next_segment-Holds log records h (
    omega (
      arith,
      h.offset_eq,
      h.start_eq,
      ap size h.records_eq,
      size-append (joined h.closed) h.last,
      h.word,
      pos,
      full,
    ))

-- An append gives the number of bytes before the record, and adds the record.
pub append-Holds :
    (log : ReplayLog) (records : List Bytes) (body : Bytes)
    → Holds records log
    → 0 < log.segment_bytes
    → Fits body
    → size (records ++ (body ∷ [])) < 2 ^ 64
    → ((append log body rotated written).0 ≡ at_offset (size records))
      × Holds (records ++ (body ∷ [])) ((append log body rotated written).1)
unfolding append after_rotate rotate
append-Holds log records body h pos fits v =
    let small : ltb max_record (length body) ≡ false = ground (arith, fits) in
    elim (Bool-cases (leb log.segment_bytes (active_len log))) [
      | inl full ↦ rw small (
          rw full (
            append_frame-Holds (next_segment log) records body
              (next_segment-full log records h pos (ground (arith, full))) v))
      | inr room ↦ rw small (rw room (append_frame-Holds log records body h v))
    ]

-- appends of records, with no failure
unfoldable pub append_all : ReplayLog → List Bytes → ReplayLog
append_all log [] = log
append_all log (body ∷ bodies) = append_all ((append log body rotated written).1) bodies

-- the size of a segment is never changed
pub segment_bytes-append :
    (log : ReplayLog) (body : Bytes)
    → (append log body rotated written).1.segment_bytes ≡ log.segment_bytes
unfolding append after_rotate rotate next_segment append_frame write_all
segment_bytes-append log body = ground arith

pub append_all-Holds :
    (log : ReplayLog) (records bodies : List Bytes)
    → Holds records log
    → 0 < log.segment_bytes
    → All Fits bodies
    → size (records ++ bodies) < 2 ^ 64
    → Holds (records ++ bodies) (append_all log bodies)
unfolding append_all
append_all-Holds log records [] h pos fits v = subst (λ l. Holds l log) (sym (append-nil records)) h
append_all-Holds log records (body ∷ bodies) h pos (fit, fits) v =
    subst (λ l. Holds l (append_all ((append log body rotated written).1) bodies))
      (append_assoc records (body ∷ []) bodies)
      (append_all-Holds ((append log body rotated written).1) (records ++ (body ∷ [])) bodies
        ((append-Holds log records body h pos fit (
          omega (
            arith,
            v,
            size-append (records ++ (body ∷ [])) bodies,
            ap size (append_assoc records (body ∷ []) bodies),
          ))).1)
        (subst (λ n. 0 < n) (sym (segment_bytes-append log body)) pos) fits
        (subst (λ l. size l < 2 ^ 64) (sym (append_assoc records (body ∷ []) bodies)) v))
