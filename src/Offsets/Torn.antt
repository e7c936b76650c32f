-- ===== src/Offsets/Torn.antt =====
-- What `open` of crates/datarail-offsets/src/lib.rs makes of a log that ends in a torn record.
use hu_gr_datarail.Prelude.{
  ℕ, ◌+◌, ◌-◌, ◌^◌, ◌≤◌, ◌<◌, ◌≡◌, refl, sym, ap, ◌∙◌, inl, inr, Bool, true, none, List, [], ◌∷◌,
  ◌++◌, append_assoc, Bytes, length, take, length-append, Bool-cases, Option-cases, arith,
  length-take, length-drop, take-take, take-length-append, append-nil, if◌then◌else◌, leb, take-nil,
  take-append-gt, take-append-le,
}
use hu_gr_datarail.Prelude.Words.{
  le_bytes, le_value, le_value-le_bytes_4, take-le_bytes_4, StandsAt, StandsAt-next,
}
use hu_gr_datarail.Offsets.{set_all, parse_record, replay_loop, replay, restart, file_offsets}
use hu_gr_datarail.Offsets.Record.{IsEntry, record_bytes, length-record_bytes, record_bytes-split}
use hu_gr_datarail.Offsets.Parsed.{parse_record-Parsed, Parsed-bounds}
use hu_gr_datarail.Offsets.Recovery.{parse_record-past}
use hu_gr_datarail.Offsets.Log.{
  log_of, Entries, cut-take, state-eq, length-le-log_of, replay_loop-log_of,
}

-- the values whose records lie whole in the first `k` bytes
unfoldable pub survivors : ℕ → List (Bytes × ℕ) → List (Bytes × ℕ)
survivors k [] = []
survivors k ((group, offset) ∷ values) =
    let size = length (record_bytes group offset) in
    let rest = survivors (k - size) values in if leb size k then (group, offset) ∷ rest else []

module _ (is_utf8 : Bytes → Bool) where
  -- The length field of a record that is cut behind it is still there.
  take-record_bytes :
      (group : Bytes) (offset k : ℕ)
      → 4 ≤ k
      → take 4 (take k (record_bytes group offset)) ≡ le_bytes 4 (length group)
  take-record_bytes group offset k h =
      take-take 4 k (record_bytes group offset) h
      ∙ ap (take 4) (
          sym (append-nil (record_bytes group offset)) ∙ record_bytes-split is_utf8 group offset [])
      ∙ take-le_bytes_4 (length group) _

  -- A record that is cut before its end is not found.
  pub parse_record-torn :
      (buf : Bytes) (pos : ℕ) (group : Bytes) (offset k : ℕ)
      → IsEntry is_utf8 group offset
      → k < length (record_bytes group offset)
      → StandsAt buf pos (take k (record_bytes group offset))
      → parse_record is_utf8 buf pos ≡ none
  parse_record-torn buf pos group offset k e h s =
      elim (Option-cases (parse_record is_utf8 buf pos)) [
        | inl absent ↦ absent
        | inr ((name, value, next), found) ↦
            let p = parse_record-Parsed is_utf8 buf pos name value next found in
            let (a, b, c) = Parsed-bounds is_utf8 p in
            let known : 4 ≤ k → le_value p.len_bytes ≡ length group = λ l.
              ap le_value (c ∙ ap (take 4) s.input_left ∙ take-record_bytes group offset k l)
              ∙ le_value-le_bytes_4 (length group) e.short in
            absurd (
              ground (
                arith,
                known,
                a,
                b,
                h,
                ap length s.input_left,
                length-drop pos buf,
                length-take k (record_bytes group offset),
                length-record_bytes group offset,
              ))
      ]

  -- bytes in which no record is found, wherever they stand at the end of a file
  abbrev pub IsTorn : Bytes → Type 0
  IsTorn tail =
      (buf : Bytes) (pos : ℕ) → StandsAt buf pos tail → parse_record is_utf8 buf pos ≡ none

  -- What `restart` makes of whole records with torn bytes behind them.
  pub restart-log_of :
      (entries : List (Bytes × ℕ)) (tail : Bytes)
      → Entries is_utf8 entries
      → IsTorn tail
      → length (log_of entries ++ tail) < 2 ^ 64
      → restart is_utf8 (log_of entries ++ tail)
        ≡ file_offsets (log_of entries) true (set_all [] entries) (length entries)
  unfolding restart replay
  restart-log_of entries tail es h fits =
      let buf = log_of entries ++ tail in
      let s : StandsAt buf 0 (log_of entries ++ tail) = record {
        input_left = refl;
        within = omega arith;
        addressable = fits;
      } in
      let found =
        replay_loop-log_of is_utf8 (length buf) buf tail 0 [] 0 entries es s
          (h buf (0 + length (log_of entries)) (StandsAt-next buf 0 (log_of entries) tail s))
          (omega (arith, length-le-log_of is_utf8 entries, length-append (log_of entries) tail)) in
      let whole : replay_loop is_utf8 (length buf) buf 0 [] 0
          ≡ (set_all [] entries, length entries, length (log_of entries)) =
        found ∙ state-eq (omega arith) (omega arith) in
      rw whole (
        ap (λ log. file_offsets log true (set_all [] entries) (length entries))
          (cut-take (length (log_of entries)) buf ∙ take-length-append (log_of entries) tail))

  pub nil-IsTorn : IsTorn []
  nil-IsTorn buf pos s =
      parse_record-past is_utf8 buf pos (omega (arith, ap length s.input_left, length-drop pos buf))

  -- Cut anywhere, the bytes of records are whole records and torn bytes behind them.
  pub take-log_of :
      (k : ℕ) (values : List (Bytes × ℕ))
      → Entries is_utf8 values
      → (tail : Bytes) × (take k (log_of values) ≡ log_of (survivors k values) ++ tail)
        × IsTorn tail
        × Entries is_utf8 (survivors k values)
  unfolding log_of survivors
  take-log_of k [] es = ([], take-nil k, nil-IsTorn, tt)
  take-log_of k ((group, offset) ∷ values) (e, es) =
      let r = record_bytes group offset in
      let (tail, cut, torn, left) = take-log_of (k - length r) values es in
      elim (Bool-cases (leb (length r) k)) [
        | inl whole ↦
            rw (survivors, whole)
              (
                tail,
                take-append-gt k r (log_of values) (ground (arith, whole))
                    ∙ ap (λ l. r ++ l) cut
                    ∙ sym (append_assoc r (log_of (survivors (k - length r) values)) tail),
                torn,
                (e, left),
              )
        | inr part ↦
            rw (survivors, part)
              (
                take k r,
                take-append-le k r (log_of values) (ground (arith, part)),
                (λ buf pos s. parse_record-torn buf pos group offset k e (ground (arith, part)) s),
                tt,
              )
      ]
