-- ===== src/Replaylog/History.antt =====
-- What a log of crates/datarail-replaylog/src/lib.rs gives back of the records that were appended to it.
use hu_gr_datarail.Replaylog.Segments.{size-append}
use hu_gr_datarail.Prelude.{◌^◌, ◌<◌}
use hu_gr_datarail.Replaylog.Open.{done, truncated}
use hu_gr_datarail.Replaylog.Open.{open_log, scan, scan_valid_len, truncate_to}
use hu_gr_datarail.Replaylog.Drains.{read_all-Left}
use hu_gr_datarail.Replaylog.Opens.{replay_from-Left}
use hu_gr_datarail.Replaylog.Recover.{open_log-torn}
use hu_gr_datarail.Replaylog.Truncates.{segment_bytes-truncate_to, truncate_to-Holds}
use hu_gr_datarail.Prelude.{
  ℕ, suc, ◌<◌, ◌≡◌, refl, sym, ◌∙◌, subst, some, List, [], ◌∷◌, ◌++◌, Bytes, length, All,
  All-append, arith, ℕ_eq,
}
use hu_gr_datarail.Prelude.Dict
use hu_gr_datarail.Replaylog.{
  ReplayLog, append, rotated, written, torn, frame, file_at, put_file, zeros, resize, last_start,
  segment_starts,
}
use hu_gr_datarail.Replaylog.Frames.{Fits, frames}
use hu_gr_datarail.Replaylog.Reader.{drain}
use hu_gr_datarail.Replaylog.Rounds.{Gives}
use hu_gr_datarail.Replaylog.Segments.{size}
use hu_gr_datarail.Replaylog.Rest.{with_offsets}
use hu_gr_datarail.Replaylog.Holds.{Holds}
use hu_gr_datarail.Replaylog.Appends.{append_all, append_all-Holds, segment_bytes-append}

pub open_log-empty : (segment_bytes : ℕ) → Holds [] (open_log [] segment_bytes)
unfolding open_log file_at put_file zeros resize scan_valid_len scan last_start segment_starts
    Dict.get Dict.insert_by frames
open_log-empty segment_bytes = record {
  closed = [];
  last = [];
  dir_eq = refl;
  all_closed = tt;
  records_eq = refl;
  start_eq = refl;
  active_eq = refl;
  position_eq = refl;
  offset_eq = refl;
  word = omega arith;
}

pub segment_bytes-open_log :
    (log : List (ℕ × Bytes)) (segment_bytes : ℕ) → 0 < (open_log log segment_bytes).segment_bytes
unfolding open_log
segment_bytes-open_log log segment_bytes = omega arith

segment_bytes-append_all :
    (log : ReplayLog) (bodies : List Bytes)
    → (append_all log bodies).segment_bytes ≡ log.segment_bytes
unfolding append_all
segment_bytes-append_all log [] = refl
segment_bytes-append_all log (body ∷ bodies) =
    segment_bytes-append_all (append log body rotated written).1 bodies
    ∙ segment_bytes-append log body

module _ (read_len : Bytes → ℕ) (gives : Gives read_len) where
  -- A log that holds some records gives those behind an offset, in order.
  pub replay-Holds :
      (log : ReplayLog) (pre post : List Bytes) (calls fuel : ℕ)
      → Holds (pre ++ post) log
      → All Fits post
      → length post < calls
      → size (pre ++ post) < fuel
      → drain read_len calls (suc fuel) log (size pre) ≡ some (with_offsets (size pre) post)
  unfolding drain
  replay-Holds log pre post calls fuel h hs c f =
      let (r, a, l) = replay_from-Left log pre post h in
      rw (drain, a)
        (read_all-Left read_len gives calls fuel (size pre) log.write_offset post r l hs c
          (omega (arith, f, h.offset_eq)))

  -- Of the records that were appended to a new log, a reader that starts at the offset of one of them, or
  -- at the end, gives that one and those behind it, in order and with their offsets, and then ends.
  -- No record exceeds MAX_RECORD and the log is shorter than 2 ^ 64 bytes; a file that is not at its end
  -- gives a byte at least; the bounds on the calls and on the rounds of a call exceed the number of the
  -- records and the bytes of the log.
  pub replay-append_all :
      (segment_bytes : ℕ) (pre post : List Bytes) (calls fuel : ℕ)
      → All Fits pre
      → All Fits post
      → length post < calls
      → size (pre ++ post) < fuel
      → size (pre ++ post) < 2 ^ 64
      → drain read_len calls
          (suc fuel)
          (append_all (open_log [] segment_bytes) (pre ++ post))
          (size pre)
        ≡ some (with_offsets (size pre) post)
  replay-append_all segment_bytes pre post calls fuel h k c f v =
      replay-Holds (append_all (open_log [] segment_bytes) (pre ++ post)) pre post calls fuel
        (append_all-Holds (open_log [] segment_bytes) [] (pre ++ post)
          (open_log-empty segment_bytes) (segment_bytes-open_log [] segment_bytes)
          (All-append Fits pre post h k) v)
        k c f

  -- Where an append to a new log with some records fails within its frame, and the log is opened again and
  -- appended to, a reader from the beginning gives the records before the failure and those behind
  -- it, in order and with their offsets. The conditions on sizes and bounds are those of
  -- replay-append_all.
  pub replay-torn :
      (segment_bytes : ℕ) (pre : List Bytes) (body : Bytes) (k : ℕ) (post : List Bytes)
      (calls fuel : ℕ)
      → All Fits pre
      → Fits body
      → k < length (frame body)
      → All Fits post
      → length (pre ++ post) < calls
      → size (pre ++ post) < fuel
      → size (pre ++ post) < 2 ^ 64
      → drain read_len calls
          (suc fuel)
          (append_all
            (open_log
              ((append (append_all (open_log [] segment_bytes) pre) body rotated (torn k)).1.dir)
              segment_bytes)
            post)
          0
        ≡ some (with_offsets 0 (pre ++ post))
  unfolding frames
  replay-torn segment_bytes pre body k post calls fuel h fits l hs c f v =
      let log = append_all (open_log [] segment_bytes) pre in
      let reopened = open_log ((append log body rotated (torn k)).1.dir) segment_bytes in
      let held =
        append_all-Holds (open_log [] segment_bytes) [] pre (open_log-empty segment_bytes)
          (segment_bytes-open_log [] segment_bytes) h (omega (arith, v, size-append pre post)) in
      let pos : 0 < log.segment_bytes =
        subst (λ n. 0 < n) (sym (segment_bytes-append_all (open_log [] segment_bytes) pre))
          (segment_bytes-open_log [] segment_bytes) in
      replay-Holds (append_all reopened post) [] (pre ++ post) calls fuel
        (append_all-Holds reopened pre post
          (open_log-torn log pre body k segment_bytes held pos h fits l)
          (segment_bytes-open_log _ segment_bytes) hs v)
        (All-append Fits pre post h hs) c f

  -- Where a new log with some records is cut at the offset of one of them, the cut succeeds; where the log
  -- is then appended to, a reader from the beginning gives the records before that offset and the new ones,
  -- in order and with their offsets. The conditions on sizes and bounds are those of replay-append_all.
  pub replay-truncated :
      (segment_bytes : ℕ) (pre : List Bytes) (body : Bytes) (cut post : List Bytes) (calls fuel : ℕ)
      → All Fits pre
      → All Fits (body ∷ cut)
      → All Fits post
      → length (pre ++ post) < calls
      → size (pre ++ post) < fuel
      → size (pre ++ post) < 2 ^ 64
      → size (pre ++ (body ∷ cut)) < 2 ^ 64
      → ((truncate_to
            (append_all (open_log [] segment_bytes) (pre ++ (body ∷ cut)))
            (size pre)
            truncated).0
          ≡ done)
        × (drain read_len calls
              (suc fuel)
              (append_all
                (truncate_to
                  (append_all (open_log [] segment_bytes) (pre ++ (body ∷ cut)))
                  (size pre)
                  truncated).1
                post)
              0
            ≡ some (with_offsets 0 (pre ++ post)))
  unfolding frames
  replay-truncated segment_bytes pre body cut post calls fuel h hc hs c f v v' =
      let all = pre ++ (body ∷ cut) in
      let log = append_all (open_log [] segment_bytes) all in
      let held =
        append_all-Holds (open_log [] segment_bytes) [] all (open_log-empty segment_bytes)
          (segment_bytes-open_log [] segment_bytes) (All-append Fits pre (body ∷ cut) h hc) v' in
      let (success, left) = truncate_to-Holds log pre body cut held h in
      let after = (truncate_to log (size pre) truncated).1 in
      let pos : 0 < after.segment_bytes =
        subst (λ n. 0 < n)
          (sym (
            segment_bytes-truncate_to log (size pre)
            ∙ segment_bytes-append_all (open_log [] segment_bytes) all))
          (segment_bytes-open_log [] segment_bytes) in
      (
        success,
        replay-Holds (append_all after post) [] (pre ++ post) calls fuel
            (append_all-Holds after pre post left pos hs v) (All-append Fits pre post h hs) c f,
      )
