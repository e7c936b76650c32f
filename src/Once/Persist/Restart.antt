-- ===== src/Once/Persist/Restart.antt =====
-- A `FileOnce` of crates/datarail-once/src/persist.rs that is opened again remembers what it delivered.
use hu_gr_datarail.Once.{Once}
use hu_gr_datarail.Once.Persist.{Admitted, decided}
use hu_gr_datarail.Prelude.{◌^◌, ◌<◌, ◌≡◌, true, List, [], ◌∷◌, Bytes, Bytes_eq, length, All}
use hu_gr_datarail.Offsets.{written, replaced}
use hu_gr_datarail.Once.{new, admit}
use hu_gr_datarail.Once.History.{Arrival}
use hu_gr_datarail.Once.Persist.{Entry, encode_entries, FileOnce, file_admit}
use hu_gr_datarail.Once.Persist.Frames.{IsEntry}
use hu_gr_datarail.Once.Persist.Replay.{apply_all}

-- The call of a file gate for an arrival, when its writes succeed.
unfoldable pub file_run : (Bytes → Bytes) → FileOnce → List Arrival → FileOnce
file_run crc4 f [] = f
file_run crc4 f (r ∷ rs) =
    file_run crc4 (file_admit crc4 f r.stream r.seq r.key written replaced).1 rs

-- what it answers to each of them, and what the gate in memory does
unfoldable pub file_answers : (Bytes → Bytes) → FileOnce → List Arrival → List Admitted
file_answers crc4 f [] = []
file_answers crc4 f (r ∷ rs) =
    (file_admit crc4 f r.stream r.seq r.key written replaced).0
    ∷ file_answers crc4 (file_admit crc4 f r.stream r.seq r.key written replaced).1 rs

unfoldable pub gate_answers : Once → List Arrival → List Admitted
gate_answers o [] = []
gate_answers o (r ∷ rs) =
    decided (admit o r.stream r.seq r.key).0 ∷ gate_answers (admit o r.stream r.seq r.key).1 rs

abbrev pub IsArrival : Arrival → Type 0
IsArrival r = (length r.stream ≡ 16) × (length r.key ≡ 32) × (r.seq < 2 ^ 64)

module _ (crc4 : Bytes → Bytes) (four : (bytes : Bytes) → length (crc4 bytes) ≡ 4) where
  -- The gate is what its log says, and each record of the log is counted.
  pub record IsLogOf (seed : Bytes) (es : List Entry) (f : FileOnce) : Type 0 where
    pub entries : All IsEntry es
    pub log_is : f.log ≡ encode_entries crc4 es
    pub once_is : f.once ≡ apply_all (new seed) es
    pub count_is : f.appended ≡ length es
    pub live : f.attached ≡ true
