-- ===== src/Replaylog/Reading.antt =====
-- What a call of `read_next` of crates/datarail-replaylog/src/lib.rs does where a frame stands ahead.
use hu_gr_datarail.Replaylog.Reader.{filled}
use hu_gr_datarail.Prelude.{◌^◌}
use hu_gr_datarail.Prelude.{
  ℕ, zero, suc, ◌+◌, ◌≤◌, ◌<◌, ◌≡◌, ◌⊎◌, inl, inr, refl, sym, ap, ◌∙◌, subst, [], ◌∷◌, ◌++◌,
  append_assoc, Bytes, length, take, drop, drop-drop, take-drop, drop-append-le, take-append-le,
  take-length-append, drop-length-append, ltb, Bool-cases, arith, length-append, length-drop,
}
use hu_gr_datarail.Replaylog.{frame_overhead, frame}
use hu_gr_datarail.Replaylog.Frames.{Fits, length-frame, drop-whole_frame, body_len-part}
use hu_gr_datarail.Replaylog.Reader.{Replay, again, found, refill, round, read_next, after_refill}
use hu_gr_datarail.Replaylog.Rounds.{
  Gives, Place, Stands, reader, refill-reader, round-found, round-part, round-short,
}

module _ (read_len : Bytes → ℕ) (gives : Gives read_len) where
  pub read_next-again :
      (fuel : ℕ) (r next : Replay)
      → round read_len r ≡ again next
      → read_next read_len (suc fuel) r ≡ read_next read_len fuel next
  unfolding read_next
  read_next-again fuel r next h = rw (read_next, h) refl

  read_next-found :
      (fuel offset : ℕ) (body : Bytes) (r next : Replay)
      → round read_len r ≡ found offset body next
      → read_next read_len (suc fuel) r ≡ found offset body next
  unfolding read_next
  read_next-found fuel offset body r next h = rw (read_next, h) refl

  -- the buffer holds a whole frame, or the file has a byte and the frame's length is unread or too large
  buffer-cases :
      (x rest body more : Bytes)
      → x ++ rest ≡ frame body ++ more
      → ((short : Bytes) × (x ≡ frame body ++ short) × (short ++ rest ≡ more))
        ⊎ (length x < frame_overhead + length body)
  buffer-cases x rest body more e =
      elim (Bool-cases (ltb (length x) (frame_overhead + length body))) [
        | inl h ↦ inr (ground (arith, h))
        | inr h ↦
            let l : length (frame body) ≤ length x = ground (arith, h, length-frame body) in
            inl (
              drop (length (frame body)) x,
              sym (take-drop (length (frame body)) x)
                  ∙ ap (λ f. f ++ drop (length (frame body)) x)
                      (sym (take-append-le (length (frame body)) x rest l)
                        ∙ ap (take (length (frame body))) e
                        ∙ take-length-append (frame body) more),
              sym (drop-append-le (length (frame body)) x rest l)
                  ∙ ap (drop (length (frame body))) e
                  ∙ drop-length-append (frame body) more,
            )
      ]

  abbrev pub Reads : ℕ → Place → ℕ → Bytes → Bytes → Replay → Type 0
  Reads fuel p offset body more r =
      (next : Replay) × (read_next read_len fuel r ≡ found offset body next)
      × Stands p (offset + (frame_overhead + length body)) more next

  round-refill :
      (p : Place) (base : ℕ) (buf : Bytes) (cursor : ℕ) (rest body more : Bytes)
      → drop cursor buf ++ rest ≡ frame body ++ more
      → Fits body
      → base + cursor < p.end
      → p.end < 2 ^ 64
      → length (drop cursor buf) < frame_overhead + length body
      → round read_len (reader p base buf cursor rest)
        ≡ after_refill (refill read_len (reader p base buf cursor rest))
  round-refill p base buf cursor rest body more e h l v part =
      elim (Bool-cases (ltb (length (drop cursor buf)) 4)) [
        | inl few ↦ round-short read_len gives p base buf cursor rest (ground (arith, few)) l v
        | inr four ↦
            let enough : 4 ≤ length (drop cursor buf) = ground (arith, four) in
            round-part read_len gives p base buf cursor rest (length body) enough
              (body_len-part (drop cursor buf) rest body more e enough h) h part
      ]

  whole-Reads :
      (fuel : ℕ) (p : Place) (base : ℕ) (buf : Bytes) (cursor : ℕ) (rest body short more : Bytes)
      → cursor ≤ length buf
      → drop cursor buf ≡ frame body ++ short
      → short ++ rest ≡ more
      → Fits body
      → base + cursor < p.end
      → p.end < 2 ^ 64
      → Reads (suc fuel) p (base + cursor) body more (reader p base buf cursor rest)
  whole-Reads fuel p base buf cursor rest body short more w whole left h l v = (
    reader p base buf (cursor + (frame_overhead + length body)) rest,
    read_next-found fuel _ _ _ _
        (round-found read_len gives p base buf cursor rest body short whole h l v),
    record {
      base = base;
      buf = buf;
      cursor = cursor + (frame_overhead + length body);
      rest = rest;
      is_reader = refl;
      within = omega (
        arith,
        w,
        ap length whole,
        length-drop cursor buf,
        length-append (frame body) short,
        length-frame body,
      );
      offset_eq = omega arith;
      ahead_eq =
          ap (λ x. x ++ rest)
            (drop-drop cursor (frame_overhead + length body) buf
              ∙ ap (drop (frame_overhead + length body)) whole
              ∙ drop-whole_frame body short)
          ∙ left;
    },
  )

  -- A frame ahead is read, in as many rounds as the file has bytes left and one more.
  pub frame-Reads :
      (fuel : ℕ) (p : Place) (base : ℕ) (buf : Bytes) (cursor : ℕ) (rest body more : Bytes)
      → cursor ≤ length buf
      → drop cursor buf ++ rest ≡ frame body ++ more
      → Fits body
      → base + cursor < p.end
      → p.end < 2 ^ 64
      → length rest < fuel
      → Reads fuel p (base + cursor) body more (reader p base buf cursor rest)
  frame-Reads zero p base buf cursor rest body more w e h l v f = absurd (omega (arith, f))
  frame-Reads (suc fuel) p base buf cursor [] body more w e h l v f =
      elim (buffer-cases (drop cursor buf) [] body more e) [
        | inl (short, whole, left) ↦
            whole-Reads fuel p base buf cursor [] body short more w whole left h l v
        | inr part ↦ absurd (
            omega (
              arith,
              part,
              ap length e,
              length-append (drop cursor buf) [],
              length-append (frame body) more,
              length-frame body,
            ))
      ]
  frame-Reads (suc fuel) p base buf cursor (b ∷ bs) body more w e h l v f =
      elim (buffer-cases (drop cursor buf) (b ∷ bs) body more e) [
        | inl (short, whole, left) ↦
            whole-Reads fuel p base buf cursor (b ∷ bs) body short more w whole left h l v
        | inr part ↦
            let n = filled read_len (b ∷ bs) in
            let got = take n (b ∷ bs) in
            let (next, a, s) =
              frame-Reads fuel p (base + cursor) (drop cursor buf ++ got) 0 (drop n (b ∷ bs)) body
                more (omega arith)
                (append_assoc (drop cursor buf) got (drop n (b ∷ bs))
                  ∙ ap (λ x. drop cursor buf ++ x) (take-drop n (b ∷ bs))
                  ∙ e)
                h (omega (arith, l)) v (omega (arith, f, length-drop n (b ∷ bs), gives b bs)) in
            (
              next,
              read_next-again fuel _ _ (
                    round-refill p base buf cursor (b ∷ bs) body more e h l v part
                    ∙ ap after_refill (refill-reader read_len gives p base buf cursor b bs l v))
                  ∙ a
                  ∙ ap (λ k. found k body next) (omega arith),
              subst (λ k. Stands p (k + (frame_overhead + length body)) more next)
                  {x = base + cursor + 0} {y = base + cursor} (omega arith) s,
            )
      ]
