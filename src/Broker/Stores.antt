-- ===== src/Broker/Stores.antt =====
-- The offset stores of crates/datarail-offsets/src/lib.rs as those of the server of
-- crates/datarail-broker/src/lib.rs.
use hu_gr_datarail.Prelude.{ℕ, Option, none, some, Bytes, Bytes_eq}
use hu_gr_datarail.Offsets.{FileOffsets, Append, Replace, Done, ok, err, commit, fetch}
use hu_gr_datarail.Broker.Server.{StoreOps}

abbrev error_text : Bytes → Done → Option Bytes
error_text message ok = none
error_text message (err e) = some message

-- The file store, with the outcomes of the writes of each commit given by a function.
unfoldable pub file_store :
    (FileOffsets → Bytes → ℕ → Append × Replace) → Bytes → StoreOps FileOffsets
file_store outcomes message = record {
  commit_offset = λ s group offset.
      let (a, outcome) = outcomes s group offset in
      let (done, t) = commit s group offset a outcome in (error_text message done, t);
  fetch = fetch;
}
