-- ===== src/Replaylog/Recover.antt =====
-- `open` of crates/datarail-replaylog/src/lib.rs after an append that has failed.
use hu_gr_datarail.Replaylog.{active_len}
use hu_gr_datarail.Prelude.{◌%◌, ◌^◌, ◌<◌}
use hu_gr_datarail.Replaylog.Open.{open_log, scan_valid_len}
use hu_gr_datarail.Prelude.{
  ℕ, ◌+◌, ◌-◌, ◌≤◌, ◌<◌, max, ◌≡◌, inl, inr, refl, sym, ap, ◌∙◌, subst, false, some, List, [], ◌∷◌,
  ◌++◌, append-nil, Bytes, length, take, ltb, leb, Bool-cases, arith, length-append, All, ℕ_eq,
  All-right, take-length-append,
}
use hu_gr_datarail.Prelude.Dict
use hu_gr_datarail.Replaylog.{
  Dir, ReplayLog, rotated, frame, file_at, put_file, zeros, resize, write_at, write_all,
  next_segment, rotate, append_frame, after_rotate, append, max_record,
}
use hu_gr_datarail.Replaylog.Frames.{Fits, frames}
use hu_gr_datarail.Replaylog.Segments.{size, joined, dir_of, size-append, size-cons, IsClosed}
use hu_gr_datarail.Replaylog.{torn, last_start, segment_starts}
use hu_gr_datarail.Replaylog.Holds.{Holds, put-file, dir_of-snoc, file_at-last, write_at-end}
use hu_gr_datarail.Replaylog.Appends.{next_segment-full}
use hu_gr_datarail.Replaylog.Scans.{get-snoc, last_start-snoc, scan-frames}

-- The directory of a log that holds `records`, of which the last segment ends with `k` bytes of a frame.
pub record Torn (records : List Bytes) (body : Bytes) (k : ℕ) (dir : Dir) : Type 0 where
  closed : List (List Bytes)
  last : List Bytes
  dir_eq :
      dir ≡ dir_of 0 closed ++ ((0 + size (joined closed), frames last ++ take k (frame body)) ∷ [])
  all_closed : All IsClosed closed
  records_eq : joined closed ++ last ≡ records

pub file_at-some :
    (dir : Dir) (start : ℕ) (bytes : Bytes)
    → Dict.get dir start ≡ some bytes
    → file_at dir start ≡ bytes
unfolding file_at
file_at-some dir start bytes h = rw (file_at, h) refl

abbrev opened : Dir → ℕ → Bytes → ℕ → ℕ → ReplayLog
opened dir start bytes valid_len segment_bytes = record {
  dir = put_file dir start (resize valid_len bytes);
  segment_bytes = max segment_bytes 1024;
  active_start = start;
  write_offset = (start + valid_len) % 2 ^ 64;
  active = start;
  position = valid_len;
}

open_log-opened :
    (dir : Dir) (segment_bytes start valid_len : ℕ) (bytes : Bytes)
    → last_start (segment_starts dir) ≡ start
    → file_at dir start ≡ bytes
    → scan_valid_len bytes ≡ valid_len
    → open_log dir segment_bytes ≡ opened dir start bytes valid_len segment_bytes
unfolding open_log
open_log-opened dir segment_bytes start valid_len bytes s f v =
    ap (λ k. opened dir k (file_at dir k) (scan_valid_len (file_at dir k)) segment_bytes) s
    ∙ ap (λ b. opened dir start b (scan_valid_len b) segment_bytes) f
    ∙ ap (λ n. opened dir start bytes n segment_bytes) v

pub resize-front : (xs ys : Bytes) → resize (length xs) (xs ++ ys) ≡ xs
unfolding resize zeros
resize-front xs ys =
    let grown : length xs - length (xs ++ ys) ≡ 0 = omega (arith, length-append xs ys) in
    rw (resize, take-length-append xs ys, grown) (append-nil xs)

pub length-le-size : (bodies : List Bytes) → length bodies ≤ size bodies
unfolding frames
length-le-size [] = omega arith
length-le-size (x ∷ bodies) = omega (arith, length-le-size bodies, size-cons x bodies)

scan_valid_len-torn :
    (bodies : List Bytes) (k : ℕ) (body : Bytes)
    → k < length (frame body)
    → All Fits bodies
    → Fits body
    → scan_valid_len (frames bodies ++ take k (frame body)) ≡ size bodies
unfolding scan_valid_len
scan_valid_len-torn bodies k body l hs h =
    let bytes = frames bodies ++ take k (frame body) in
    scan-frames (length bytes) bytes 0 k bodies body refl (omega arith) l hs h
      (omega (arith, length-le-size bodies, length-append (frames bodies) (take k (frame body))))
    ∙ omega arith

open_log-Torn :
    (records : List Bytes) (body : Bytes) (k : ℕ) (dir : Dir) (segment_bytes : ℕ)
    → Torn records body k dir
    → k < length (frame body)
    → All Fits records
    → Fits body
    → size records < 2 ^ 64
    → Holds records (open_log dir segment_bytes)
open_log-Torn records body k dir segment_bytes t l hs h v =
    subst (Holds records) (sym same) (record {
      closed = t.closed;
      last = t.last;
      dir_eq =
          ap (λ d. put_file d start (resize (size t.last) bytes)) t.dir_eq
          ∙ put-file t.closed bytes (resize (size t.last) bytes) t.all_closed
          ∙ ap (λ b. dir_of 0 t.closed ++ ((0 + start, b) ∷ []))
              (resize-front (frames t.last) (take k (frame body)))
          ∙ sym (dir_of-snoc 0 t.closed t.last);
      all_closed = t.all_closed;
      records_eq = t.records_eq;
      start_eq = refl;
      active_eq = refl;
      position_eq = refl;
      offset_eq = omega (arith, size-append (joined t.closed) t.last, ap size t.records_eq, v);
      word = v;
    })
  where
    start : ℕ
    start = size (joined t.closed)

    bytes : Bytes
    bytes = frames t.last ++ take k (frame body)

    there : Dict.get dir start ≡ some bytes
    there =
        ap (λ d. Dict.get d start) t.dir_eq
        ∙ ap (Dict.get (dir_of 0 t.closed ++ ((0 + start, bytes) ∷ []))) {x = start} {y = 0 + start}
            (omega arith)
        ∙ get-snoc 0 t.closed bytes t.all_closed

    same : open_log dir segment_bytes ≡ opened dir start bytes (size t.last) segment_bytes
    same =
        open_log-opened dir segment_bytes start (size t.last) bytes
          (ap (λ d. last_start (segment_starts d)) t.dir_eq
            ∙ last_start-snoc 0 t.closed (0 + start) bytes
            ∙ omega arith)
          (file_at-some dir start bytes there)
          (scan_valid_len-torn t.last k body l
            (All-right Fits (joined t.closed) t.last (subst (All Fits) (sym t.records_eq) hs)) h)

-- A log whose directory is left by a failed append, or is whole.
pub Holds-Torn :
    (log : ReplayLog) (records : List Bytes) (body : Bytes)
    → Holds records log
    → Torn records body 0 log.dir
Holds-Torn log records body h = record {
  closed = h.closed;
  last = h.last;
  dir_eq =
      h.dir_eq
      ∙ dir_of-snoc 0 h.closed h.last
      ∙ ap (λ b. dir_of 0 h.closed ++ ((0 + size (joined h.closed), b) ∷ []))
          (sym (append-nil (frames h.last)));
  all_closed = h.all_closed;
  records_eq = h.records_eq;
}

append_frame-Torn :
    (log : ReplayLog) (records : List Bytes) (body : Bytes) (k : ℕ)
    → Holds records log
    → Torn records body k ((append_frame log body (torn k)).1.dir)
unfolding append_frame write_all
append_frame-Torn log records body k h =
    let start = size (joined h.closed) in
    let dir = dir_of 0 (h.closed ++ (h.last ∷ [])) in
    let piece = take k (frame body) in
    record {
      closed = h.closed;
      last = h.last;
      dir_eq =
          ap (λ d. put_file d log.active (write_at log.position piece (file_at d log.active)))
            h.dir_eq
          ∙ ap (λ a. put_file dir a (write_at log.position piece (file_at dir a))) h.active_eq
          ∙ ap (λ f. put_file dir start (write_at log.position piece f))
              (file_at-last h.closed h.last h.all_closed)
          ∙ ap (λ n. put_file dir start (write_at n piece (frames h.last))) h.position_eq
          ∙ ap (put_file dir start) (write_at-end piece (frames h.last))
          ∙ ap (λ d. put_file d start (frames h.last ++ piece)) (dir_of-snoc 0 h.closed h.last)
          ∙ put-file h.closed (frames h.last) (frames h.last ++ piece) h.all_closed;
      all_closed = h.all_closed;
      records_eq = h.records_eq;
    }

append-Torn :
    (log : ReplayLog) (records : List Bytes) (body : Bytes) (k : ℕ)
    → Holds records log
    → 0 < log.segment_bytes
    → Fits body
    → Torn records body k ((append log body rotated (torn k)).1.dir)
unfolding append after_rotate rotate
append-Torn log records body k h pos fits =
    let small : ltb max_record (length body) ≡ false = ground (arith, fits) in
    elim (Bool-cases (leb log.segment_bytes (active_len log))) [
      | inl full ↦ rw small (
          rw full (
            append_frame-Torn (next_segment log) records body k
              (next_segment-full log records h pos (ground (arith, full)))))
      | inr room ↦ rw small (rw room (append_frame-Torn log records body k h))
    ]

-- A log that is opened after an append has failed holds what it held before the append.
pub open_log-torn :
    (log : ReplayLog) (records : List Bytes) (body : Bytes) (k segment_bytes : ℕ)
    → Holds records log
    → 0 < log.segment_bytes
    → All Fits records
    → Fits body
    → k < length (frame body)
    → Holds records (open_log ((append log body rotated (torn k)).1.dir) segment_bytes)
open_log-torn log records body k segment_bytes h pos hs fits l =
    open_log-Torn records body k ((append log body rotated (torn k)).1.dir) segment_bytes
      (append-Torn log records body k h pos fits) l hs fits h.word
