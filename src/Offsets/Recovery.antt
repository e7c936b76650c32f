-- ===== src/Offsets/Recovery.antt =====
-- `replay` and `open` of crates/datarail-offsets/src/lib.rs on a file of any bytes: the loop stops where
-- no record is found, and a file that was opened once is opened again without a change.
use hu_gr_datarail.Prelude.{
  ℕ, zero, suc, ◌+◌, ◌≤◌, ◌≡◌, refl, sym, ap, ◌∙◌, subst, inl, inr, Bool, true, none, some, [],
  Bytes, length, take, Option-cases, arith, length-take, take-take,
}
use hu_gr_datarail.Offsets.{
  Offsets, set_offset, parse_record, replay_loop, replay, restart, file_offsets,
}
use hu_gr_datarail.Offsets.Parsed.{parse_record-Parsed, Parsed-bounds, parse_record-take}
use hu_gr_datarail.Offsets.Log.{cut-take}

module _ (is_utf8 : Bytes → Bool) where
  -- A record that is found is 16 bytes long at least and ends within the buffer.
  parse_record-next :
      (buf : Bytes) (pos : ℕ) (group : Bytes) (offset next : ℕ)
      → parse_record is_utf8 buf pos ≡ some (group, offset, next)
      → (pos + 16 ≤ next) × (next ≤ length buf)
  parse_record-next buf pos group offset next h =
      let (a, b, c) =
        Parsed-bounds is_utf8 (parse_record-Parsed is_utf8 buf pos group offset next h) in
      (omega (arith, a), b)

  pub parse_record-past :
      (buf : Bytes) (pos : ℕ) → length buf ≤ pos → parse_record is_utf8 buf pos ≡ none
  parse_record-past buf pos h = elim (Option-cases (parse_record is_utf8 buf pos)) [
    | inl absent ↦ absent
    | inr ((group, offset, next), found) ↦
        let (a, b) = parse_record-next buf pos group offset next found in
        absurd (omega (arith, h, a, b))
  ]

  loop-none :
      (fuel : ℕ) (buf : Bytes) (pos : ℕ) (m : Offsets) (n : ℕ)
      → parse_record is_utf8 buf pos ≡ none
      → replay_loop is_utf8 fuel buf pos m n ≡ (m, n, pos)
  unfolding replay_loop
  loop-none zero buf pos m n h = refl
  loop-none (suc fuel) buf pos m n h = rw (replay_loop, h) refl

  loop-some :
      (fuel : ℕ) (buf : Bytes) (pos : ℕ) (m : Offsets) (n : ℕ) (group : Bytes) (offset next : ℕ)
      → parse_record is_utf8 buf pos ≡ some (group, offset, next)
      → replay_loop is_utf8 (suc fuel) buf pos m n
        ≡ replay_loop is_utf8 fuel buf next (set_offset m group offset) (n + 1)
  unfolding replay_loop
  loop-some fuel buf pos m n group offset next h = rw (replay_loop, h) refl

  abbrev Stops : Bytes → ℕ → Offsets × ℕ × ℕ → Type 0
  Stops buf pos (m, n, last) =
      (pos ≤ last) × (last ≤ length buf) × (parse_record is_utf8 buf last ≡ none)

  loop-Stops :
      (fuel : ℕ) (buf : Bytes) (pos : ℕ) (m : Offsets) (n : ℕ)
      → pos ≤ length buf
      → length buf ≤ pos + fuel
      → Stops buf pos (replay_loop is_utf8 fuel buf pos m n)
  unfolding replay_loop
  loop-Stops zero buf pos m n h f = (omega arith, h, parse_record-past buf pos (omega (arith, f)))
  loop-Stops (suc fuel) buf pos m n h f = elim (Option-cases (parse_record is_utf8 buf pos)) [
    | inl absent ↦ rw (loop-none (suc fuel) buf pos m n absent) (omega arith, h, absent)
    | inr ((group, offset, next), found) ↦
        let (a, b) = parse_record-next buf pos group offset next found in
        let (c, d, e) =
          loop-Stops fuel buf next (set_offset m group offset) (n + 1) b (omega (arith, f, a)) in
        rw (loop-some fuel buf pos m n group offset next found) (omega (arith, a, c), d, e)
  ]

  loop-take-some :
      (fuel : ℕ) (buf : Bytes) (pos : ℕ) (m : Offsets) (n : ℕ) (r : Offsets × ℕ × ℕ) (group : Bytes)
      (offset next : ℕ)
      → 1 ≤ fuel
      → parse_record is_utf8 buf pos ≡ some (group, offset, next)
      → ((left : ℕ)
          → fuel ≡ suc left
          → replay_loop is_utf8 left buf next (set_offset m group offset) (n + 1) ≡ r)
      → replay_loop is_utf8 fuel buf pos m n ≡ r
  loop-take-some zero buf pos m n r group offset next h e k = absurd (omega (arith, h))
  loop-take-some (suc left) buf pos m n r group offset next h e k =
      loop-some left buf pos m n group offset next e ∙ k left refl

  stopped :
      (fuel : ℕ) (buf : Bytes) (pos : ℕ) (m : Offsets) (n : ℕ) (r : Offsets × ℕ × ℕ)
      → (m, n, pos) ≡ r
      → replay_loop is_utf8 fuel (take (r.2) buf) pos m n ≡ r
  stopped fuel buf pos m n r e =
      subst (λ r. replay_loop is_utf8 fuel (take (r.2) buf) pos m n ≡ r) e
        (loop-none fuel (take pos buf) pos m n
          (parse_record-past (take pos buf) pos (omega (arith, length-take pos buf))))

  -- Cut where the loop stops, a buffer is replayed to the same, with fuel for what is left of it.
  loop-take :
      (fuel fuel' : ℕ) (buf : Bytes) (pos : ℕ) (m : Offsets) (n : ℕ) (r : Offsets × ℕ × ℕ)
      → pos ≤ length buf
      → length buf ≤ pos + fuel
      → replay_loop is_utf8 fuel buf pos m n ≡ r
      → r.2 ≤ pos + fuel'
      → replay_loop is_utf8 fuel' (take (r.2) buf) pos m n ≡ r
  unfolding replay_loop
  loop-take zero fuel' buf pos m n r h f e f' = stopped fuel' buf pos m n r e
  loop-take (suc fuel) fuel' buf pos m n r h f e f' =
      elim (Option-cases (parse_record is_utf8 buf pos)) [
        | inl absent ↦
            stopped fuel' buf pos m n r (sym (loop-none (suc fuel) buf pos m n absent) ∙ e)
        | inr ((group, offset, next), found) ↦
            let later = sym (loop-some fuel buf pos m n group offset next found) ∙ e in
            let (a, b) = parse_record-next buf pos group offset next found in
            let (c, d, k) = subst (Stops buf next) later (
              loop-Stops fuel buf next (set_offset m group offset) (n + 1) b
                (omega (arith, f, a))) in
            loop-take-some fuel' (take (r.2) buf) pos m n r group offset next
              (omega (arith, a, c, f'))
              (parse_record-take is_utf8 buf pos (r.2) group offset next c found)
              (λ left room.
                loop-take fuel left buf next (set_offset m group offset) (n + 1) r b
                  (omega (arith, f, a)) later (omega (arith, room, a, f')))
      ]

  -- The loop that reads a file of any bytes ends where no record is found, not past the end of the file.
  pub replay-Stops :
      (buf : Bytes)
      → ((replay is_utf8 buf).2 ≤ length buf)
        × (parse_record is_utf8 buf ((replay is_utf8 buf).2) ≡ none)
  unfolding replay
  replay-Stops buf =
      let (a, b, c) = loop-Stops (length buf) buf 0 [] 0 (omega arith) (omega arith) in (b, c)

  restart-take :
      (buf : Bytes)
      → restart is_utf8 buf
        ≡ file_offsets
            (take ((replay is_utf8 buf).2) buf)
            true
            ((replay is_utf8 buf).0)
            ((replay is_utf8 buf).1)
  unfolding restart
  restart-take buf =
      ap (λ log. file_offsets log true ((replay is_utf8 buf).0) ((replay is_utf8 buf).1))
        (cut-take ((replay is_utf8 buf).2) buf)

  -- Whatever bytes the file has: opened again, the file that `open` left gives the same store and stays as it is.
  pub restart-again :
      (buf : Bytes) → restart is_utf8 ((restart is_utf8 buf).log) ≡ restart is_utf8 buf
  unfolding replay
  restart-again buf =
      let last = (replay is_utf8 buf).2 in
      let (a, b) = replay-Stops buf in
      let same : replay is_utf8 (take last buf) ≡ replay is_utf8 buf =
        loop-take (length buf) (length (take last buf)) buf 0 [] 0 (replay is_utf8 buf)
          (omega arith) (omega arith) refl (omega (arith, length-take last buf, a)) in
      ap (restart is_utf8) (ap (λ s. s.log) (restart-take buf))
      ∙ restart-take (take last buf)
      ∙ ap (λ r. file_offsets (take (r.2) (take last buf)) true (r.0) (r.1)) same
      ∙ ap (λ log. file_offsets log true ((replay is_utf8 buf).0) ((replay is_utf8 buf).1))
          (take-take last last buf (omega arith))
      ∙ sym (restart-take buf)
