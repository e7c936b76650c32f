-- ===== src/Replaylog/Opens.antt =====
-- The reader that `replay_from` of crates/datarail-replaylog/src/lib.rs opens.
use hu_gr_datarail.Prelude.{
  ℕ, suc, ◌+◌, ◌-◌, ◌≡◌, refl, sym, ap, ◌∙◌, false, Option, none, some, List, [], ◌∷◌, ◌++◌, Bytes,
  length, drop, ltb, arith, drop-length-append, ℕ_eq,
}
use hu_gr_datarail.Prelude.Dict
use hu_gr_datarail.Replaylog.{Dir, segment_starts, get_at, partition_point}
use hu_gr_datarail.Replaylog.Frames.{frames}
use hu_gr_datarail.Replaylog.Reader.{Replay, open_segment}
use hu_gr_datarail.Replaylog.Rounds.{reader}
use hu_gr_datarail.Replaylog.Segments.{size, joined, dir_of, size-append, start-at, file-at, place}
use hu_gr_datarail.Replaylog.Segments.{frames-append}
use hu_gr_datarail.Replaylog.Rest.{Left}
use hu_gr_datarail.Replaylog.Holds.{Holds}
use hu_gr_datarail.Replaylog.Reader.{replay_from}
use hu_gr_datarail.Replaylog.{ReplayLog}
use hu_gr_datarail.Replaylog.Locate.{locate}

-- what `replay_from` opens, by the directory, the end of the log and the index of a segment
abbrev opening : Dir → ℕ → ℕ → ℕ → Option Replay
opening dir offset end idx =
    open_segment
      (record {
        dir = dir;
        starts = segment_starts dir;
        seg_idx = idx;
        file = none;
        buf_base = offset;
        buf = [];
        cursor = 0;
        end = end;
      })
      offset

opening-reader :
    (dir : Dir) (offset end idx start : ℕ) (bytes : Bytes)
    → get_at (segment_starts dir) idx ≡ some start
    → Dict.get dir start ≡ some bytes
    → opening dir offset end idx
      ≡ some (
          reader
            (record { dir = dir; starts = segment_starts dir; seg_idx = idx; end = end })
            offset
            []
            0
            (drop (offset - start) bytes))
unfolding open_segment reader
opening-reader dir offset end idx start bytes s f = rw (open_segment, s, f) refl

-- A reader of a log that starts behind some of its records has the others before it.
pub replay_from-Left :
    (log : ReplayLog) (pre post : List Bytes)
    → Holds (pre ++ post) log
    → (r : Replay) × (replay_from log (size pre) ≡ some (some r))
      × Left post (size pre) log.write_offset r
unfolding replay_from open_segment reader frames
replay_from-Left log pre post h =
    let l = locate 0 h.closed h.last pre post h.all_closed h.records_eq in
    let offset = size pre in
    let p = place l.before l.seg l.after log.write_offset in
    let skipped = drop (offset - size (joined l.before)) (frames l.seg) in
    let r = reader p offset [] 0 skipped in
    let dir_eq : log.dir ≡ p.dir = h.dir_eq ∙ ap (dir_of 0) (sym l.segs_eq) in
    let inside : ltb log.write_offset offset ≡ false =
      ground (arith, h.offset_eq, size-append pre post) in
    let index : partition_point offset p.starts ≡ suc (length l.before) =
      ap (λ segs. partition_point offset (segment_starts (dir_of 0 segs))) l.segs_eq
      ∙ ap (λ k. partition_point k (segment_starts (dir_of 0 (h.closed ++ (h.last ∷ [])))))
          {x = offset} {y = 0 + offset} (omega arith)
      ∙ l.index_eq in
    let start : get_at p.starts (length l.before) ≡ some (size (joined l.before)) =
      start-at 0 l.before l.seg l.after ∙ ap some (omega arith) in
    let file : Dict.get p.dir (size (joined l.before)) ≡ some (frames l.seg) =
      ap (Dict.get p.dir) {x = size (joined l.before)} {y = 0 + size (joined l.before)}
        (omega arith)
      ∙ file-at 0 l.before l.seg l.after l.closed in
    let cut : skipped ≡ frames l.here =
      ap (λ k. drop k (frames l.seg)) {x = offset - size (joined l.before)} {y = size l.past}
        (omega (arith, l.pre_eq))
      ∙ ap (drop (size l.past)) (ap frames l.seg_eq ∙ frames-append l.past l.here)
      ∙ drop-length-append (frames l.past) (frames l.here) in
    let sizes : size l.seg ≡ size l.past + size l.here =
      ap size l.seg_eq ∙ size-append l.past l.here in
    (
      r,
      rw (replay_from, inside) refl
          ∙ ap
              (λ d.
                some (
                  opening d offset log.write_offset
                    (partition_point offset (segment_starts d) - 1)))
              dir_eq
          ∙ ap (λ k. some (opening p.dir offset log.write_offset k))
              {x = partition_point offset p.starts - 1} {y = length l.before} (omega (arith, index))
          ∙ ap some (
              opening-reader p.dir offset log.write_offset (length l.before)
                (size (joined l.before)) (frames l.seg) start file),
      record {
        before = l.before;
        seg = l.seg;
        after = l.after;
        here = l.here;
        stands = record {
          base = offset;
          buf = [];
          cursor = 0;
          rest = skipped;
          is_reader = refl;
          within = omega arith;
          offset_eq = omega arith;
          ahead_eq = cut;
        };
        left_eq = l.post_eq;
        offset_eq = omega (arith, l.pre_eq, sizes);
        closed = l.closed;
        front = l.front;
        end_eq = omega (arith, h.offset_eq, size-append pre post);
        word = omega (arith, h.offset_eq, h.word);
      },
    )
