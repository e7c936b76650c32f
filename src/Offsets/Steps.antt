-- ===== src/Offsets/Steps.antt =====
-- Each operation of the `FileOffsets` of crates/datarail-offsets/src/lib.rs leaves the log of a map, and
-- which map that is.
use hu_gr_datarail.Prelude.{
  ℕ, ◌+◌, ◌*◌, ◌^◌, ◌<◌, ◌≡◌, refl, sym, ap, ◌∙◌, subst, inl, inr, Bool, true, false, some, List,
  [], ◌∷◌, ◌++◌, append_assoc, Bytes, Bytes_eq, bytes_lt, length, take, Bool-cases, Option-cases,
  append-nil, leb, ltb, ◌==◌, max, ◌||◌,
}
use hu_gr_datarail.Prelude.Dict.{remove}
use hu_gr_datarail.Prelude.Sorted.{
  IsSorted, extend, bytes_lt-Order, remove-IsSorted, insert_by-IsSorted,
}
use hu_gr_datarail.Offsets.{
  FileOffsets, Offsets, set_offset, set_all, restart, file_offsets, OffsetSnapshot, Append, written,
  torn, Replace, replaced, not_replaced, not_reopened, not_synced, encode_all, encode_record, write,
  replace_log, compact, maybe_compact, applied, append_log, commit, commit_many, restore_all,
  restore_many,
}
use hu_gr_datarail.Offsets.Record.{IsEntry}
use hu_gr_datarail.Offsets.Log.{log_of, Entries, encode_all-log_of}
use hu_gr_datarail.Offsets.Torn.{IsTorn, restart-log_of, survivors, take-log_of, nil-IsTorn}
use hu_gr_datarail.Offsets.LogOf.{
  IsLogOf, map-IsSorted, map-Entries, rewritten-IsLogOf, appended-IsLogOf, set_offset-Entries,
  set_all-append, log_of-append, Entries-append,
}
use hu_gr_datarail.Offsets.Mem

-- The replacement went as far as a handle on the live file.
abbrev pub keeps_handle : Replace → Bool
keeps_handle replaced = true
keeps_handle not_replaced = true
keeps_handle not_reopened = false
keeps_handle not_synced = true

-- A commit is a commit of one value, whatever its length and the outcome of the writes.
pub commit_many-commit :
    (s : FileOffsets) (group : Bytes) (offset : ℕ) (appended : Append) (outcome : Replace)
    → commit_many s ((group, offset) ∷ []) appended outcome ≡ commit s group offset appended outcome
unfolding commit commit_many encode_all extend
commit_many-commit s group offset appended outcome =
    elim (Option-cases (encode_record group offset)) [
      | inl long ↦ rw long refl
      | inr (bytes, short) ↦ rw short (rw (append-nil bytes) refl)
    ]

module _ (is_utf8 : Bytes → Bool) where
  abbrev pub Restorable : List OffsetSnapshot → Type 0
  Restorable [] = Unit
  Restorable (saved ∷ snapshots) =
      ((offset : ℕ) → saved.offset ≡ some offset → IsEntry is_utf8 saved.group offset)
      × Restorable snapshots

  abbrev pub Keeps : Offsets → FileOffsets → Type 0
  Keeps m s = (entries : List (Bytes × ℕ)) × IsLogOf is_utf8 entries s × (s.offsets ≡ m)

  replace_log-Keeps :
      (entries : List (Bytes × ℕ)) (s : FileOffsets) (outcome : Replace)
      → IsLogOf is_utf8 entries s
      → keeps_handle outcome ≡ true
      → Keeps (s.offsets) ((replace_log s (some (log_of (s.offsets))) (s.offsets) outcome).1)
  unfolding replace_log
  replace_log-Keeps entries s replaced l h = (
    s.offsets,
    rewritten-IsLogOf is_utf8 _ (map-IsSorted is_utf8 entries s l)
        (map-Entries is_utf8 entries s l),
    refl,
  )
  replace_log-Keeps entries s not_replaced l h = (entries, l, refl)
  replace_log-Keeps entries s not_reopened l h = cc
  replace_log-Keeps entries s not_synced l h = (
    s.offsets,
    rewritten-IsLogOf is_utf8 _ (map-IsSorted is_utf8 entries s l)
        (map-Entries is_utf8 entries s l),
    refl,
  )

  maybe_compact-Keeps :
      (entries : List (Bytes × ℕ)) (s : FileOffsets) (outcome : Replace)
      → IsLogOf is_utf8 entries s
      → keeps_handle outcome ≡ true
      → Keeps (s.offsets) ((maybe_compact s outcome).1)
  unfolding maybe_compact compact
  maybe_compact-Keeps entries s outcome l h =
      elim (Bool-cases (ltb s.records 1024 || leb s.records (4 * max (length s.offsets) 1))) [
        | inl few ↦ rw (maybe_compact, few) (entries, l, refl)
        | inr many ↦
            rw (maybe_compact, many)
              (rw (encode_all-log_of is_utf8 (s.offsets) (map-Entries is_utf8 entries s l))
                (replace_log-Keeps entries s outcome l h))
      ]

  pub commit_many-Keeps :
      (entries values : List (Bytes × ℕ)) (s : FileOffsets) (outcome : Replace)
      → IsLogOf is_utf8 entries s
      → Entries is_utf8 values
      → keeps_handle outcome ≡ true
      → Keeps (set_all (s.offsets) values) ((commit_many s values written outcome).1)
  unfolding commit_many append_log applied write
  commit_many-Keeps entries values s outcome l es h =
      rw (commit_many, encode_all-log_of is_utf8 values es, l.live)
        (maybe_compact-Keeps (entries ++ values)
          (file_offsets (s.log ++ log_of values) true (set_all s.offsets values)
            (s.records + length values))
          outcome (appended-IsLogOf is_utf8 entries values s l es) h)

  pub commit-Keeps :
      (entries : List (Bytes × ℕ)) (group : Bytes) (offset : ℕ) (s : FileOffsets)
      (outcome : Replace)
      → IsLogOf is_utf8 entries s
      → IsEntry is_utf8 group offset
      → keeps_handle outcome ≡ true
      → Keeps (Mem.commit (s.offsets) group offset) ((commit s group offset written outcome).1)
  unfolding Mem.commit extend
  commit-Keeps entries group offset s outcome l e h =
      subst (λ r. Keeps (set_offset (s.offsets) group offset) (r.1))
        (commit_many-commit s group offset written outcome)
        (commit_many-Keeps entries ((group, offset) ∷ []) s outcome l (e, tt) h)

  remove-Entries :
      (m : Offsets) (group : Bytes) → Entries is_utf8 m → Entries is_utf8 (remove m group)
  unfolding remove
  remove-Entries [] group h = tt
  remove-Entries ((j, v) ∷ m) group (e, h) = elim (Bool-cases (j == group)) [
    | inl same ↦ rw same (remove-Entries m group h)
    | inr other ↦ rw other (e, remove-Entries m group h)
  ]

  restore_all-kept :
      (snapshots : List OffsetSnapshot) (m : Offsets)
      → Restorable snapshots
      → IsSorted bytes_lt m
      → Entries is_utf8 m
      → IsSorted bytes_lt (restore_all m snapshots) × Entries is_utf8 (restore_all m snapshots)
  unfolding restore_all
  restore_all-kept [] m r s e = (s, e)
  restore_all-kept (saved ∷ snapshots) m (c, r) s e = elim (Option-cases (saved.offset)) [
    | inl absent ↦
        rw (restore_all, absent)
          (restore_all-kept snapshots (remove m saved.group) r
            (remove-IsSorted bytes_lt bytes_lt-Order saved.group m s)
            (remove-Entries m saved.group e))
    | inr (offset, kept) ↦
        rw (restore_all, kept)
          (restore_all-kept snapshots (set_offset m saved.group offset) r
            (insert_by-IsSorted bytes_lt bytes_lt-Order saved.group offset m s)
            (set_offset-Entries is_utf8 m saved.group offset (c offset kept) e))
  ]

  pub restore-Keeps :
      (entries : List (Bytes × ℕ)) (snapshots : List OffsetSnapshot) (s : FileOffsets)
      → IsLogOf is_utf8 entries s
      → Restorable snapshots
      → Keeps (restore_all (s.offsets) snapshots) ((restore_many s snapshots replaced).1)
  unfolding restore_many replace_log
  restore-Keeps entries snapshots s l r =
      let (a, b) =
        restore_all-kept snapshots (s.offsets) r (map-IsSorted is_utf8 entries s l)
          (map-Entries is_utf8 entries s l) in
      rw (restore_many, encode_all-log_of is_utf8 (restore_all (s.offsets) snapshots) b)
        (restore_all (s.offsets) snapshots, rewritten-IsLogOf is_utf8 _ a b, refl)

  pub restarted-IsLogOf :
      (entries : List (Bytes × ℕ))
      → Entries is_utf8 entries
      → IsLogOf is_utf8 entries
          (file_offsets (log_of entries) true (set_all [] entries) (length entries))
  restarted-IsLogOf entries es = record {
    entry = es;
    log_is = refl;
    offsets_is = refl;
    records_is = refl;
    live = refl;
  }

  restart-Keeps :
      (entries : List (Bytes × ℕ)) (buf tail : Bytes)
      → Entries is_utf8 entries
      → IsTorn is_utf8 tail
      → buf ≡ log_of entries ++ tail
      → length buf < 2 ^ 64
      → Keeps (set_all [] entries) (restart is_utf8 buf)
  restart-Keeps entries buf tail es h e fits = rw e (
      rw (restart-log_of is_utf8 entries tail es h (subst (λ b. length b < 2 ^ 64) e fits))
        (entries, restarted-IsLogOf entries es, refl))

  pub open-Keeps :
      (entries : List (Bytes × ℕ)) (s : FileOffsets)
      → IsLogOf is_utf8 entries s
      → length (s.log) < 2 ^ 64
      → Keeps (s.offsets) (restart is_utf8 (s.log))
  open-Keeps entries s l fits =
      subst (λ m. Keeps m (restart is_utf8 (s.log))) (sym l.offsets_is)
        (restart-Keeps entries (s.log) [] l.entry (nil-IsTorn is_utf8)
          (l.log_is ∙ sym (append-nil (log_of entries))) fits)

  pub crash-Keeps :
      (entries values : List (Bytes × ℕ)) (s : FileOffsets) (k : ℕ)
      → IsLogOf is_utf8 entries s
      → Entries is_utf8 values
      → length (s.log ++ take k (log_of values)) < 2 ^ 64
      → Keeps
          (set_all (s.offsets) (survivors k values))
          (restart is_utf8 ((commit_many s values (torn k) not_replaced).1.log))
  unfolding commit_many append_log applied write
  crash-Keeps entries values s k l es fits =
      let (tail, cut, no_record, left) = take-log_of is_utf8 k values es in
      let kept = survivors k values in
      rw (commit_many, encode_all-log_of is_utf8 values es, l.live)
        (subst (λ m. Keeps m (restart is_utf8 (s.log ++ take k (log_of values))))
          (set_all-append is_utf8 entries kept [] ∙ ap (λ m. set_all m kept) (sym l.offsets_is))
          (restart-Keeps (entries ++ kept) (s.log ++ take k (log_of values)) tail
            (Entries-append is_utf8 entries kept l.entry left) no_record
            (ap (λ log. log ++ take k (log_of values)) l.log_is
              ∙ ap (λ b. log_of entries ++ b) cut
              ∙ sym (append_assoc (log_of entries) (log_of kept) tail)
              ∙ ap (λ b. b ++ tail) (sym (log_of-append is_utf8 entries kept)))
            fits))
