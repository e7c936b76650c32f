-- ===== src/Offsets/Mem.antt =====
-- `MemOffsets` of crates/datarail-offsets/src/lib.rs, the reference in memory.
use hu_gr_datarail.Prelude.{ℕ, Option, List, [], ◌∷◌, Bytes, Bytes_eq}
use hu_gr_datarail.Prelude.Dict.{get}
use hu_gr_datarail.Offsets.{Offsets, set_offset}

unfoldable pub commit : Offsets → Bytes → ℕ → Offsets
commit m group offset = set_offset m group offset

unfoldable pub fetch : Offsets → Bytes → Option ℕ
fetch m group = get m group

unfoldable pub groups : Offsets → List Bytes
groups [] = []
groups ((group, offset) ∷ m) = group ∷ groups m
