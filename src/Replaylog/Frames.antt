-- ===== src/Replaylog/Frames.antt =====
-- Frames of crates/datarail-replaylog/src/lib.rs: a frame that stands first in some bytes is read.
use hu_gr_datarail.Prelude.{
  ℕ, ◌+◌, ◌≤◌, ◌≡◌, refl, sym, ap, ◌∙◌, true, List, [], ◌∷◌, ◌++◌, append_assoc, Bytes, length,
  take, drop, length-append, take-length-append, drop-length-append, nat_eq_iff, arith,
  take-append-le, drop-drop,
}
use hu_gr_datarail.Prelude.Words.{
  le_bytes, le_value, length-le_bytes, le_value-le_bytes_4, take-le_bytes_4, crc32, crc32-lt,
}
use hu_gr_datarail.Replaylog.{max_record, frame_overhead, frame, body_len, is_intact}

abbrev pub Fits : Bytes → Type 0
Fits body = length body ≤ max_record

unfoldable pub frames : List Bytes → Bytes
frames [] = []
frames (body ∷ bodies) = frame body ++ frames bodies

-- the checksum of a body
unfoldable sum_of : Bytes → Bytes
sum_of body = le_bytes 4 (crc32 (le_bytes 4 (length body) ++ body))

frame-split :
    (body more : Bytes)
    → frame body ++ more ≡ le_bytes 4 (length body) ++ (body ++ (sum_of body ++ more))
unfolding frame sum_of
frame-split body more =
    append_assoc (le_bytes 4 (length body)) _ more
    ∙ ap (λ x. le_bytes 4 (length body) ++ x) (append_assoc body _ more)

pub length-frame : (body : Bytes) → length (frame body) ≡ frame_overhead + length body
unfolding frame
length-frame body =
    let w = le_bytes 4 (length body) in
    let c = le_bytes 4 (crc32 (w ++ body)) in
    omega (
      arith,
      length-append w (body ++ c),
      length-append body c,
      length-le_bytes 4 (length body),
      length-le_bytes 4 (crc32 (w ++ body)),
    )

take-frame : (body more : Bytes) → take 4 (frame body ++ more) ≡ le_bytes 4 (length body)
take-frame body more = ap (take 4) (frame-split body more) ∙ take-le_bytes_4 (length body) _

drop-le_bytes_4 : (v : ℕ) (rest : Bytes) → drop 4 (le_bytes 4 v ++ rest) ≡ rest
unfolding le_bytes
drop-le_bytes_4 v rest = refl

drop-frame : (body more : Bytes) → drop 4 (frame body ++ more) ≡ body ++ (sum_of body ++ more)
drop-frame body more = ap (drop 4) (frame-split body more) ∙ drop-le_bytes_4 (length body) _

pub body_len-frame : (body more : Bytes) → Fits body → body_len (frame body ++ more) ≡ length body
body_len-frame body more h =
    ap le_value (take-frame body more) ∙ le_value-le_bytes_4 (length body) (omega (arith, h))

pub body-frame : (body more : Bytes) → take (length body) (drop 4 (frame body ++ more)) ≡ body
body-frame body more = ap (take (length body)) (drop-frame body more) ∙ take-length-append body _

pub drop-whole_frame :
    (body more : Bytes) → drop (frame_overhead + length body) (frame body ++ more) ≡ more
drop-whole_frame body more =
    ap (λ n. drop n (frame body ++ more)) (sym (length-frame body))
    ∙ drop-length-append (frame body) more

stored-frame :
    (body more : Bytes)
    → le_value (take 4 (drop (4 + length body) (frame body ++ more)))
      ≡ crc32 (le_bytes 4 (length body) ++ body)
unfolding sum_of
stored-frame body more =
    ap (λ x. le_value (take 4 x))
      (drop-drop 4 (length body) (frame body ++ more)
        ∙ ap (drop (length body)) (drop-frame body more)
        ∙ drop-length-append body (sum_of body ++ more))
    ∙ ap le_value (take-le_bytes_4 (crc32 (le_bytes 4 (length body) ++ body)) more)
    ∙ le_value-le_bytes_4 _ (crc32-lt (le_bytes 4 (length body) ++ body))

pub is_intact-frame : (body more : Bytes) → Fits body → is_intact (frame body ++ more) ≡ true
unfolding is_intact
is_intact-frame body more h =
    rw
      (
        is_intact,
        body_len-frame body more h,
        stored-frame body more,
        take-frame body more,
        body-frame body more,
      )
      ((nat_eq_iff _ _).1 refl)

-- The length of a frame can be told from its first four bytes.
pub body_len-part :
    (part rest body more : Bytes)
    → part ++ rest ≡ frame body ++ more
    → 4 ≤ length part
    → Fits body
    → body_len part ≡ length body
body_len-part part rest body more e l h =
    ap le_value (sym (take-append-le 4 part rest l)) ∙ ap body_len e ∙ body_len-frame body more h
