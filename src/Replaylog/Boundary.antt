-- ===== src/Replaylog/Boundary.antt =====
-- `is_frame_boundary` of crates/datarail-replaylog/src/lib.rs on whole frames.
use hu_gr_datarail.Replaylog.Open.{boundary_loop, frame_before, is_frame_boundary}
use hu_gr_datarail.Replaylog.Recover.{length-le-size}
use hu_gr_datarail.Prelude.{
  ℕ, zero, suc, ◌+◌, ◌≤◌, ◌≡◌, refl, ap, ◌∙◌, true, false, some, List, [], ◌∷◌, ◌++◌, append_assoc,
  Bytes, length, drop, ltb, leb, nat_eq, arith, length-append, length-drop, All, ℕ_eq, drop-drop,
}
use hu_gr_datarail.Replaylog.{frame_overhead, frame}
use hu_gr_datarail.Replaylog.Frames.{Fits, frames, length-frame}
use hu_gr_datarail.Replaylog.Segments.{size, size-cons}
use hu_gr_datarail.Replaylog.Frames.{body_len-frame, is_intact-frame, drop-whole_frame}

frame_before-at :
    (bytes : Bytes) (target pos : ℕ) (body more : Bytes)
    → drop pos bytes ≡ frame body ++ more
    → pos ≤ length bytes
    → pos + (frame_overhead + length body) ≤ target
    → Fits body
    → frame_before bytes target pos ≡ some (pos + (frame_overhead + length body))
unfolding frame_before
frame_before-at bytes target pos body more e w t h =
    let size_eq : length bytes ≡ pos + (frame_overhead + length body + length more) = omega (
      arith,
      w,
      ap length e,
      length-drop pos bytes,
      length-append (frame body) more,
      length-frame body,
    ) in
    let enough : ltb (length bytes) (pos + 4) ≡ false = ground (arith, size_eq) in
    let within : ltb target (pos + (frame_overhead + length body)) ≡ false = ground (arith, t) in
    let whole : ltb (length bytes) (pos + (frame_overhead + length body)) ≡ false =
      ground (arith, size_eq) in
    rw
      (
        frame_before,
        e,
        body_len-frame body more h,
        enough,
        within,
        whole,
        is_intact-frame body more h,
      )
      refl

boundary_loop-frames :
    (fuel : ℕ) (bytes : Bytes) (target pos : ℕ) (bodies : List Bytes) (more : Bytes)
    → drop pos bytes ≡ frames bodies ++ more
    → pos ≤ length bytes
    → pos + size bodies ≡ target
    → All Fits bodies
    → length bodies ≤ fuel
    → boundary_loop fuel bytes target pos ≡ true
unfolding boundary_loop frames
boundary_loop-frames zero bytes target pos [] more e w t h f = ground (arith, t)
boundary_loop-frames zero bytes target pos (x ∷ bodies) more e w t h f = absurd (omega (arith, f))
boundary_loop-frames (suc fuel) bytes target pos [] more e w t h f =
    let there : leb target pos ≡ true = ground (arith, t) in
    let same : nat_eq pos target ≡ true = ground (arith, t) in rw (boundary_loop, there) same
boundary_loop-frames (suc fuel) bytes target pos (x ∷ bodies) more e w t (h, hs) f =
    let tail = frames bodies ++ more in
    let sizes = size-cons x bodies in
    let e' : drop pos bytes ≡ frame x ++ tail = e ∙ append_assoc (frame x) (frames bodies) more in
    let before : leb target pos ≡ false = ground (arith, t, sizes) in
    rw
      (
        boundary_loop,
        before,
        frame_before-at bytes target pos x tail e' w (omega (arith, t, sizes)) h,
      )
      (boundary_loop-frames fuel bytes target (pos + (frame_overhead + length x)) bodies more
        (drop-drop pos (frame_overhead + length x) bytes
          ∙ ap (drop (frame_overhead + length x)) e'
          ∙ drop-whole_frame x tail)
        (omega (
          arith,
          w,
          ap length e',
          length-drop pos bytes,
          length-append (frame x) tail,
          length-frame x,
        ))
        (omega (arith, t, sizes)) hs (omega (arith, f)))

pub is_frame_boundary-frames :
    (past here : List Bytes)
    → All Fits past
    → is_frame_boundary (frames past ++ frames here) (size past) ≡ true
unfolding is_frame_boundary
is_frame_boundary-frames past here h =
    let inside : ltb (length (frames past ++ frames here)) (size past) ≡ false =
      ground (arith, length-append (frames past) (frames here)) in
    rw inside (
      boundary_loop-frames (size past) (frames past ++ frames here) (size past) 0 past (frames here)
        refl (omega arith) (omega arith) h (length-le-size past))
