-- ===== src/Offsets/Log.antt =====
-- The log of crates/datarail-offsets/src/lib.rs as the records that it holds, and what `replay` makes
-- of them.
use hu_gr_datarail.Prelude.{
  ℕ, zero, suc, ◌+◌, ◌≤◌, ◌≡◌, refl, ◌∙◌, subst, Bool, none, some, List, [], ◌∷◌, ◌++◌,
  append_assoc, Bytes, length, take, length-append, arith, take-all, if◌then◌else◌, ltb,
}
use hu_gr_datarail.Prelude.Sorted.{extend}
use hu_gr_datarail.Prelude.Words.{StandsAt, StandsAt-next}
use hu_gr_datarail.Offsets.{Offsets, set_offset, set_all, encode_all, parse_record, replay_loop}
use hu_gr_datarail.Offsets.Record.{
  IsEntry, record_bytes, encode_record-short, length-record_bytes, parse_record-at,
}

-- the bytes of records one behind the other
unfoldable pub log_of : List (Bytes × ℕ) → Bytes
log_of [] = []
log_of ((group, offset) ∷ entries) = record_bytes group offset ++ log_of entries

abbrev pub Entries : (Bytes → Bool) → List (Bytes × ℕ) → Type 0
Entries is_utf8 [] = Unit
Entries is_utf8 ((group, offset) ∷ entries) = IsEntry is_utf8 group offset × Entries is_utf8 entries

-- `set_len` of a length that the file has or is longer than
pub cut-take : (n : ℕ) (buf : Bytes) → (if ltb n (length buf) then take n buf else buf) ≡ take n buf
cut-take n buf = ground (arith, take-all n buf)

pub state-eq :
    {m : Offsets} {n n' p p' : ℕ}
    → n ≡ n'
    → p ≡ p'
    → ◌≡◌ {A = Offsets × ℕ × ℕ} (m, n, p) (m, n', p')
state-eq h k = cc

module _ (is_utf8 : Bytes → Bool) where
  pub encode_all-log_of :
      (entries : List (Bytes × ℕ))
      → Entries is_utf8 entries
      → encode_all entries ≡ some (log_of entries)
  unfolding encode_all log_of
  encode_all-log_of [] h = refl
  encode_all-log_of ((group, offset) ∷ entries) (e, h) =
      rw (encode_record-short group offset e.short) (rw (encode_all-log_of entries h) refl)

  pub length-le-log_of : (entries : List (Bytes × ℕ)) → length entries ≤ length (log_of entries)
  unfolding log_of
  length-le-log_of [] = omega arith
  length-le-log_of ((group, offset) ∷ entries) = omega (
    arith,
    length-le-log_of entries,
    length-append (record_bytes group offset) (log_of entries),
    length-record_bytes group offset,
  )

  pub replay_loop-log_of :
      (fuel : ℕ) (buf tail : Bytes) (pos : ℕ) (m : Offsets) (n : ℕ) (entries : List (Bytes × ℕ))
      → Entries is_utf8 entries
      → StandsAt buf pos (log_of entries ++ tail)
      → parse_record is_utf8 buf (pos + length (log_of entries)) ≡ none
      → length entries ≤ fuel
      → replay_loop is_utf8 fuel buf pos m n
        ≡ (set_all m entries, n + length entries, pos + length (log_of entries))
  unfolding replay_loop log_of extend
  replay_loop-log_of zero buf tail pos m n [] es s h f = state-eq (omega arith) (omega arith)
  replay_loop-log_of zero buf tail pos m n (e ∷ entries) es s h f = absurd (omega (arith, f))
  replay_loop-log_of (suc fuel) buf tail pos m n [] es s h f =
      rw
        (
          replay_loop,
          subst (λ n. parse_record is_utf8 buf n ≡ none) {x = pos + 0} {y = pos} (omega arith) h,
        )
        (state-eq (omega arith) (omega arith))
  replay_loop-log_of (suc fuel) buf tail pos m n ((group, offset) ∷ entries) (e, es) s h f =
      let r = record_bytes group offset in
      let s1 : StandsAt buf pos (r ++ (log_of entries ++ tail)) =
        subst (StandsAt buf pos) (append_assoc r (log_of entries) tail) s in
      rw (replay_loop, parse_record-at is_utf8 buf pos group offset (log_of entries ++ tail) e s1)
        (replay_loop-log_of fuel buf tail (pos + length r) (set_offset m group offset) (n + 1)
            entries es (StandsAt-next buf pos r (log_of entries ++ tail) s1)
            (subst (λ k. parse_record is_utf8 buf k ≡ none)
              {y = pos + length r + length (log_of entries)}
              (omega (arith, length-append r (log_of entries))) h)
            (omega (arith, f))
          ∙ state-eq (omega arith) (omega (arith, length-append r (log_of entries))))
