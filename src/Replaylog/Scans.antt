-- ===== src/Replaylog/Scans.antt =====
-- `scan_valid_len` of crates/datarail-replaylog/src/lib.rs on whole frames and a cut one.
use hu_gr_datarail.Replaylog.Open.{scan, valid_frame}
use hu_gr_datarail.Prelude.{
  ℕ, zero, suc, ◌+◌, ◌≤◌, ◌<◌, ◌≡◌, inl, inr, refl, sym, ap, ◌∙◌, true, false, none, some, List, [],
  ◌∷◌, ◌++◌, append_assoc, append-nil, Bytes, length, take, drop, ltb, nat_eq, Bool-cases, arith,
  length-append, length-drop, All, ℕ_eq, take-drop, drop-drop, length-take,
}
use hu_gr_datarail.Prelude.Dict
use hu_gr_datarail.Replaylog.{frame_overhead, frame, max_record}
use hu_gr_datarail.Replaylog.Frames.{Fits, frames, length-frame}
use hu_gr_datarail.Replaylog.Segments.{size, joined, dir_of, size-append, size-cons, IsClosed}
use hu_gr_datarail.Replaylog.{last_start, segment_starts, body_len}
use hu_gr_datarail.Replaylog.Frames.{
  drop-whole_frame, body_len-frame, body_len-part, is_intact-frame,
}

pub last_start-snoc :
    (o : ℕ) (closed : List (List Bytes)) (start : ℕ) (bytes : Bytes)
    → last_start (segment_starts (dir_of o closed ++ ((start, bytes) ∷ []))) ≡ start
unfolding last_start segment_starts
last_start-snoc o [] start bytes = refl
last_start-snoc o (s ∷ []) start bytes = refl
last_start-snoc o (s ∷ t ∷ closed) start bytes =
    last_start-snoc (o + size s) (t ∷ closed) start bytes

pub get-snoc :
    (o : ℕ) (closed : List (List Bytes)) (bytes : Bytes)
    → All IsClosed closed
    → Dict.get
        (dir_of o closed ++ ((o + size (joined closed), bytes) ∷ []))
        (o + size (joined closed))
      ≡ some bytes
unfolding Dict.get frames
get-snoc o [] bytes h = let here : nat_eq (o + 0) (o + 0) ≡ true = ground arith in rw here refl
get-snoc o (s ∷ closed) bytes (h, hs) =
    let sizes = size-append s (joined closed) in
    let past : nat_eq o (o + size (s ++ joined closed)) ≡ false = ground (arith, h, sizes) in
    rw past (
      ap (λ k. Dict.get (dir_of (o + size s) closed ++ ((k, bytes) ∷ [])) k)
        {x = o + size (s ++ joined closed)} {y = o + size s + size (joined closed)}
        (omega (arith, sizes))
      ∙ get-snoc (o + size s) closed bytes hs)

-- One round of the scan finds a whole frame, and none where a frame is cut.
valid_frame-at :
    (bytes : Bytes) (pos : ℕ) (body more : Bytes)
    → drop pos bytes ≡ frame body ++ more
    → pos ≤ length bytes
    → Fits body
    → valid_frame bytes pos ≡ some (pos + (frame_overhead + length body))
unfolding valid_frame
valid_frame-at bytes pos body more e w h =
    let size_eq : length bytes ≡ pos + (frame_overhead + length body + length more) = omega (
      arith,
      w,
      ap length e,
      length-drop pos bytes,
      length-append (frame body) more,
      length-frame body,
    ) in
    let enough : ltb (length bytes) (pos + 4) ≡ false = ground (arith, size_eq) in
    let small : ltb max_record (length body) ≡ false = ground (arith, h) in
    let whole : ltb (length bytes) (pos + (frame_overhead + length body)) ≡ false =
      ground (arith, size_eq) in
    rw
      (
        valid_frame,
        e,
        body_len-frame body more h,
        enough,
        small,
        whole,
        is_intact-frame body more h,
      )
      refl

valid_frame-torn :
    (bytes : Bytes) (pos k : ℕ) (body : Bytes)
    → drop pos bytes ≡ take k (frame body)
    → pos ≤ length bytes
    → k < length (frame body)
    → Fits body
    → valid_frame bytes pos ≡ none
unfolding valid_frame
valid_frame-torn bytes pos k body e w l h =
    let size_eq : length bytes ≤ pos + k =
      omega (arith, w, ap length e, length-drop pos bytes, length-take k (frame body)) in
    elim (Bool-cases (ltb (length bytes) (pos + 4))) [
      | inl few ↦ rw (valid_frame, few) refl
      | inr four ↦
          let enough : 4 ≤ length (take k (frame body)) =
            ground (arith, four, w, sym (ap length e), length-drop pos bytes) in
          let small : ltb max_record (length body) ≡ false = ground (arith, h) in
          let cut : ltb (length bytes) (pos + (frame_overhead + length body)) ≡ true =
            ground (arith, size_eq, l, length-frame body) in
          let len : body_len (take k (frame body)) ≡ length body =
            body_len-part (take k (frame body)) (drop k (frame body)) body []
              (take-drop k (frame body) ∙ sym (append-nil (frame body))) enough h in
          rw (valid_frame, four, e, len, small, cut) refl
    ]

pub scan-frames :
    (fuel : ℕ) (bytes : Bytes) (pos k : ℕ) (bodies : List Bytes) (body : Bytes)
    → drop pos bytes ≡ frames bodies ++ take k (frame body)
    → pos ≤ length bytes
    → k < length (frame body)
    → All Fits bodies
    → Fits body
    → length bodies ≤ fuel
    → scan fuel bytes pos ≡ pos + size bodies
unfolding scan frames
scan-frames zero bytes pos k [] body e w l hs h f = omega arith
scan-frames zero bytes pos k (x ∷ bodies) body e w l hs h f = absurd (omega (arith, f))
scan-frames (suc fuel) bytes pos k [] body e w l hs h f =
    rw (scan, valid_frame-torn bytes pos k body e w l h) (omega arith)
scan-frames (suc fuel) bytes pos k (x ∷ bodies) body e w l (hx, hs) h f =
    let tail = frames bodies ++ take k (frame body) in
    let e' : drop pos bytes ≡ frame x ++ tail = e ∙ append_assoc (frame x) (frames bodies) _ in
    rw (scan, valid_frame-at bytes pos x tail e' w hx)
      (scan-frames fuel bytes (pos + (frame_overhead + length x)) k bodies body
          (drop-drop pos (frame_overhead + length x) bytes
            ∙ ap (drop (frame_overhead + length x)) e'
            ∙ drop-whole_frame x tail)
          (omega (
            arith,
            w,
            ap length e',
            length-drop pos bytes,
            length-append (frame x) tail,
            length-frame x,
          ))
          l hs h (omega (arith, f))
        ∙ omega (arith, size-cons x bodies))
