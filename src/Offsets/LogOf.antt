-- ===== src/Offsets/LogOf.antt =====
-- The state of a `FileOffsets` of crates/datarail-offsets/src/lib.rs as the log of the records committed.
use hu_gr_datarail.Prelude.{
  ℕ, ◌+◌, ◌≡◌, refl, sym, ap, ◌∙◌, subst, inl, inr, Bool, true, List, [], ◌∷◌, ◌++◌, append_assoc,
  Bytes, Bytes_eq, bytes_lt, length, length-append, Bool-cases, arith, ◌==◌,
}
use hu_gr_datarail.Prelude.Dict.{insert_by}
use hu_gr_datarail.Prelude.Sorted.{IsSorted, extend, extend-IsSorted, extend-nil, bytes_lt-Order}
use hu_gr_datarail.Offsets.{FileOffsets, Offsets, set_offset, set_all, file_offsets}
use hu_gr_datarail.Offsets.Record.{IsEntry}
use hu_gr_datarail.Offsets.Log.{log_of, Entries}

module _ (is_utf8 : Bytes → Bool) where
  -- The file holds the records of `entries`, and the map and the count are theirs.
  pub record IsLogOf (entries : List (Bytes × ℕ)) (s : FileOffsets) : Type 0 where
    pub entry : Entries is_utf8 entries
    pub log_is : s.log ≡ log_of entries
    pub offsets_is : s.offsets ≡ set_all [] entries
    pub records_is : s.records ≡ length entries
    pub live : s.attached ≡ true

  pub log_of-append : (xs ys : List (Bytes × ℕ)) → log_of (xs ++ ys) ≡ log_of xs ++ log_of ys
  unfolding log_of
  log_of-append [] ys = refl
  log_of-append ((group, offset) ∷ xs) ys =
      rw (log_of-append xs ys) (sym (append_assoc _ (log_of xs) (log_of ys)))

  pub Entries-append :
      (xs ys : List (Bytes × ℕ))
      → Entries is_utf8 xs
      → Entries is_utf8 ys
      → Entries is_utf8 (xs ++ ys)
  Entries-append [] ys h k = k
  Entries-append ((group, offset) ∷ xs) ys (e, h) k = (e, Entries-append xs ys h k)

  pub set_all-append :
      (xs ys : List (Bytes × ℕ)) (m : Offsets) → set_all m (xs ++ ys) ≡ set_all (set_all m xs) ys
  unfolding extend
  set_all-append [] ys m = refl
  set_all-append ((group, offset) ∷ xs) ys m = set_all-append xs ys (set_offset m group offset)

  pub set_offset-Entries :
      (m : Offsets) (group : Bytes) (offset : ℕ)
      → IsEntry is_utf8 group offset
      → Entries is_utf8 m
      → Entries is_utf8 (set_offset m group offset)
  unfolding insert_by
  set_offset-Entries [] group offset e h = (e, tt)
  set_offset-Entries ((j, v) ∷ m) group offset e (d, h) = elim (Bool-cases (j == group)) [
    | inl same ↦ rw same (e, h)
    | inr other ↦ elim (Bool-cases (bytes_lt group j)) [
      | inl before ↦ rw other (rw before (e, (d, h)))
      | inr behind ↦ rw other (rw behind (d, set_offset-Entries m group offset e h))
    ]
  ]

  pub set_all-Entries :
      (values : List (Bytes × ℕ)) (m : Offsets)
      → Entries is_utf8 m
      → Entries is_utf8 values
      → Entries is_utf8 (set_all m values)
  unfolding extend
  set_all-Entries [] m h k = h
  set_all-Entries ((group, offset) ∷ values) m h (e, k) =
      set_all-Entries values (set_offset m group offset) (set_offset-Entries m group offset e h) k

  -- the map of a log is in order, and can be written again
  pub map-IsSorted :
      (entries : List (Bytes × ℕ)) (s : FileOffsets)
      → IsLogOf entries s
      → IsSorted bytes_lt (s.offsets)
  map-IsSorted entries s l =
      subst (IsSorted bytes_lt) (sym l.offsets_is)
        (extend-IsSorted bytes_lt bytes_lt-Order entries [] tt)

  pub map-Entries :
      (entries : List (Bytes × ℕ)) (s : FileOffsets)
      → IsLogOf entries s
      → Entries is_utf8 (s.offsets)
  map-Entries entries s l =
      subst (Entries is_utf8) (sym l.offsets_is) (set_all-Entries entries [] tt l.entry)

  -- A map that is written as it stands is the log of its entries.
  pub rewritten-IsLogOf :
      (m : Offsets)
      → IsSorted bytes_lt m
      → Entries is_utf8 m
      → IsLogOf m (file_offsets (log_of m) true m (length m))
  rewritten-IsLogOf m s e = record {
    entry = e;
    log_is = refl;
    offsets_is = sym (extend-nil bytes_lt bytes_lt-Order m s);
    records_is = refl;
    live = refl;
  }

  pub appended-IsLogOf :
      (entries values : List (Bytes × ℕ)) (s : FileOffsets)
      → IsLogOf entries s
      → Entries is_utf8 values
      → IsLogOf (entries ++ values) (
          file_offsets
            (s.log ++ log_of values)
            true
            (set_all s.offsets values)
            (s.records + length values))
  appended-IsLogOf entries values s l h = record {
    entry = Entries-append entries values l.entry h;
    log_is = ap (λ x. x ++ log_of values) l.log_is ∙ sym (log_of-append entries values);
    offsets_is = ap (λ m. set_all m values) l.offsets_is ∙ sym (set_all-append entries values []);
    records_is = omega (arith, l.records_is, length-append entries values);
    live = refl;
  }
