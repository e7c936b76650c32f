-- ===== src/Offsets/Refine.antt =====
-- `FileOffsets` of crates/datarail-offsets/src/lib.rs against `MemOffsets`: runs of commits, of
-- restorations, of crashes in the middle of a write and of openings.
use hu_gr_datarail.Prelude.{
  ℕ, ◌^◌, ◌<◌, ◌≡◌, refl, ap, subst, Bool, true, List, [], ◌∷◌, ◌++◌, Bytes, Bytes_eq, length, take,
}
use hu_gr_datarail.Prelude.Dict.{get}
use hu_gr_datarail.Prelude.Sorted.{extend}
use hu_gr_datarail.Offsets.{
  FileOffsets, Offsets, fetch, replay, replay_loop, set_all, restart, OffsetSnapshot, written, torn,
  Replace, replaced, not_replaced, commit, commit_many, restore_all, restore_many,
}
use hu_gr_datarail.Offsets.Record.{IsEntry}
use hu_gr_datarail.Offsets.Log.{log_of, Entries}
use hu_gr_datarail.Offsets.Torn.{survivors}
use hu_gr_datarail.Offsets.LogOf.{IsLogOf}
use hu_gr_datarail.Offsets.Mem
use hu_gr_datarail.Offsets.Steps.{
  keeps_handle, Restorable, Keeps, commit-Keeps, commit_many-Keeps, restore-Keeps, open-Keeps,
  crash-Keeps, restarted-IsLogOf,
}

-- One call of the store, with the outcome of its compaction; a crash leaves the first `k` bytes of a
-- write, and the store is opened again.
pub data Call : Type 0 where
  commit_call : Bytes → ℕ → Replace → Call
  commit_many_call : List (Bytes × ℕ) → Replace → Call
  restore_call : List OffsetSnapshot → Call
  crash_call : List (Bytes × ℕ) → ℕ → Call
  open_call : Call

unfoldable pub mem_call : Offsets → Call → Offsets
mem_call m (commit_call group offset outcome) = Mem.commit m group offset
mem_call m (commit_many_call values outcome) = set_all m values
mem_call m (restore_call snapshots) = restore_all m snapshots
mem_call m (crash_call values k) = set_all m (survivors k values)
mem_call m open_call = m

unfoldable pub mem_run : Offsets → List Call → Offsets
mem_run m [] = m
mem_run m (call ∷ calls) = mem_run (mem_call m call) calls

module _ (is_utf8 : Bytes → Bool) where
  unfoldable pub file_call : FileOffsets → Call → FileOffsets
  file_call s (commit_call group offset outcome) = (commit s group offset written outcome).1
  file_call s (commit_many_call values outcome) = (commit_many s values written outcome).1
  file_call s (restore_call snapshots) = (restore_many s snapshots replaced).1
  file_call s (crash_call values k) =
      restart is_utf8 ((commit_many s values (torn k) not_replaced).1.log)
  file_call s open_call = restart is_utf8 (s.log)

  -- What a call is given can be written, and the file that is opened fits into memory.
  abbrev pub IsCall : FileOffsets → Call → Type 0
  IsCall s (commit_call group offset outcome) =
      IsEntry is_utf8 group offset × (keeps_handle outcome ≡ true)
  IsCall s (commit_many_call values outcome) =
      Entries is_utf8 values × (keeps_handle outcome ≡ true)
  IsCall s (restore_call snapshots) = Restorable is_utf8 snapshots
  IsCall s (crash_call values k) =
      Entries is_utf8 values × (length (s.log ++ take k (log_of values)) < 2 ^ 64)
  IsCall s open_call = length (s.log) < 2 ^ 64

  file_call-Keeps :
      (entries : List (Bytes × ℕ)) (s : FileOffsets) (call : Call)
      → IsLogOf is_utf8 entries s
      → IsCall s call
      → Keeps is_utf8 (mem_call (s.offsets) call) (file_call s call)
  unfolding mem_call file_call
  file_call-Keeps entries s (commit_call group offset outcome) l (e, h) =
      commit-Keeps is_utf8 entries group offset s outcome l e h
  file_call-Keeps entries s (commit_many_call values outcome) l (es, h) =
      commit_many-Keeps is_utf8 entries values s outcome l es h
  file_call-Keeps entries s (restore_call snapshots) l r =
      restore-Keeps is_utf8 entries snapshots s l r
  file_call-Keeps entries s (crash_call values k) l (es, fits) =
      crash-Keeps is_utf8 entries values s k l es fits
  file_call-Keeps entries s open_call l fits = open-Keeps is_utf8 entries s l fits

  unfoldable pub file_run : FileOffsets → List Call → FileOffsets
  file_run s [] = s
  file_run s (call ∷ calls) = file_run (file_call s call) calls

  abbrev pub AreCalls : FileOffsets → List Call → Type 0
  AreCalls s [] = Unit
  AreCalls s (call ∷ calls) = IsCall s call × AreCalls (file_call s call) calls

  run-Keeps :
      (calls : List Call) (entries : List (Bytes × ℕ)) (s : FileOffsets)
      → IsLogOf is_utf8 entries s
      → AreCalls s calls
      → Keeps is_utf8 (mem_run (s.offsets) calls) (file_run s calls)
  unfolding mem_run file_run
  run-Keeps [] entries s l c = (entries, l, refl)
  run-Keeps (call ∷ calls) entries s l (c, cs) =
      let (entries', l', e) = file_call-Keeps entries s call l c in
      subst (λ m. Keeps is_utf8 (mem_run m calls) (file_run (file_call s call) calls)) e
        (run-Keeps calls entries' (file_call s call) l' cs)

  opened-IsLogOf : IsLogOf is_utf8 [] (restart is_utf8 [])
  unfolding restart replay replay_loop log_of extend
  opened-IsLogOf = restarted-IsLogOf is_utf8 [] tt

-- A store that begins with an empty file answers each fetch as the reference in memory does, after any
-- calls: commits and batches, with compactions that succeed, fail before the rename or fail to sync the
-- directory, restorations, openings, and crashes that leave the first k bytes of a batch's write, which
-- count in the reference as a batch of the values whose records lie whole within them. It is assumed that
-- groups are valid strings shorter than 2 ^ 32 bytes, that offsets are below 2 ^ 64, and that a file that
-- is opened is shorter than 2 ^ 64.
pub fetch-file_run :
    (is_utf8 : Bytes → Bool) (calls : List Call) (group : Bytes)
    → AreCalls is_utf8 (restart is_utf8 []) calls
    → fetch (file_run is_utf8 (restart is_utf8 []) calls) group ≡ Mem.fetch (mem_run [] calls) group
unfolding fetch Mem.fetch restart replay replay_loop
fetch-file_run is_utf8 calls group c =
    let (entries, l, e) =
      run-Keeps is_utf8 calls [] (restart is_utf8 []) (opened-IsLogOf is_utf8) c in
    ap (λ m. get m group) e
