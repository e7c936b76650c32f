-- ===== src/Blobstore.antt =====
-- crates/datarail-blobstore/src/lib.rs: keys as file names, `MemBlob` and `FsBlob`. A directory is a map
-- from names to contents; the file system's part of `put` is an outcome.
use hu_gr_datarail.Prelude.{
  ℕ, zero, suc, ◌+◌, ◌-◌, ◌*◌, ◌/◌, ◌%◌, Bool, true, false, ◌&&◌, ◌||◌, Option, none, some, List,
  [], ◌∷◌, Bytes, Bytes_eq, length, take, ltb, leb, nat_eq, if◌then◌else◌, is_some, bit_or, ◌>>=◌,
}
use hu_gr_datarail.Prelude.Dict.{Dict, get, insert, remove, contains_key}
pub mod Names
pub mod Refine
mod Runs

-- `is_ascii_alphanumeric`, `-` and `_`
abbrev pub within : ℕ → ℕ → ℕ → Bool
within low high b = leb low b && leb b high

unfoldable pub is_plain : ℕ → Bool
is_plain b = within 48 57 b || (within 65 90 b || (within 97 122 b || (nat_eq b 45 || nat_eq b 95)))

unfoldable pub hex_digit : ℕ → ℕ
hex_digit nibble = if leb nibble 9 then 48 + nibble else 65 + (nibble - 10)

unfoldable pub hex_value : ℕ → Option ℕ
hex_value c =
    if within 48 57 c
    then some (c - 48)
    else if within 97 102 c
    then some (c - 97 + 10)
    else if within 65 70 c
    then some (c - 65 + 10)
    else none

unfoldable pub encode_bytes : Bytes → Bytes
encode_bytes [] = []
encode_bytes (b ∷ key) =
    let rest = encode_bytes key in
    if is_plain b then b ∷ rest else 37 ∷ hex_digit (b / 16) ∷ hex_digit (b % 16) ∷ rest

unfoldable pub encode_key : Bytes → Bytes
encode_key key = 66 ∷ encode_bytes key

-- the two digits behind a `%`
unfoldable pub escaped : Bytes → Option (ℕ × Bytes)
escaped [] = none
escaped (h ∷ []) = none
escaped (h ∷ l ∷ rest) = do
  hi ← hex_value h
  lo ← hex_value l
  some (bit_or (hi * 16 % 256) lo, rest)

-- The loop goes on at least one byte each round: as many rounds as bytes are enough.
unfoldable pub decode_bytes : ℕ → Bytes → Option Bytes
decode_bytes zero [] = some []
decode_bytes zero (b ∷ bytes) = none
decode_bytes (suc fuel) [] = some []
decode_bytes (suc fuel) (b ∷ bytes) = elim (nat_eq b 37) [
  | true ↦ do (byte, rest) ← escaped bytes; out ← decode_bytes fuel rest; some (byte ∷ out)
  | false ↦ elim (is_plain b) [
    | true ↦ do out ← decode_bytes fuel bytes; some (b ∷ out)
    | false ↦ none
  ]
]

unfoldable pub strip_marker : Bytes → Option Bytes
strip_marker [] = none
strip_marker (b ∷ bytes) = if nat_eq b 66 then some bytes else none

unfoldable pub decode_key : (Bytes → Bool) → Bytes → Option Bytes
decode_key is_utf8 name = do
  bytes ← strip_marker name
  out ← decode_bytes (length bytes) bytes
  if is_utf8 out then some out else none

abbrev pub Directory : Type 0
Directory = Dict Bytes Bytes

-- how far a `put` came; a write may leave the first `n` bytes in the temporary file
pub data Put : Type 0 where
  stored not_created not_synced not_renamed : Put
  torn : ℕ → Put

unfoldable pub put : Directory → Bytes → Bytes → Bytes → Put → Bool × Directory
put dir tmp key bytes stored =
    (true, insert (remove (insert dir tmp bytes) tmp) (encode_key key) bytes)
put dir tmp key bytes not_created = (false, dir)
put dir tmp key bytes (torn n) = (false, insert dir tmp (take n bytes))
put dir tmp key bytes not_synced = (false, insert dir tmp bytes)
put dir tmp key bytes not_renamed = (false, remove (insert dir tmp bytes) tmp)

unfoldable pub get_blob : Directory → Bytes → Option Bytes
get_blob dir key = get dir (encode_key key)

unfoldable pub delete : Directory → Bytes → Bool × Directory
delete dir key = (contains_key dir (encode_key key), remove dir (encode_key key))

-- `MemBlob`, the reference
unfoldable pub mem_put : Dict Bytes Bytes → Bytes → Bytes → Dict Bytes Bytes
mem_put m key bytes = insert m key bytes

unfoldable pub mem_get : Dict Bytes Bytes → Bytes → Option Bytes
mem_get m key = get m key

unfoldable pub mem_delete : Dict Bytes Bytes → Bytes → Bool × Dict Bytes Bytes
mem_delete m key = (contains_key m key, remove m key)
