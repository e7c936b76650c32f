-- ===== src/Blobstore/Runs.antt =====
-- The blob stores of crates/datarail-blobstore/src/lib.rs on small inputs.
use hu_gr_datarail.Prelude.{
  ◌≡◌, ◌≢◌, ◌<◌, refl, Bool, true, none, some, List, [], ◌∷◌, Bytes, bytes_eq, length, All, arith,
}
use hu_gr_datarail.Prelude.Dict.{get, insert, remove}
use hu_gr_datarail.Blobstore.{
  is_plain, hex_digit, encode_bytes, encode_key, escaped, decode_bytes, strip_marker, decode_key,
  stored, torn, put, get_blob, mem_get, delete,
}
use hu_gr_datarail.Blobstore.Names.{decode_key-encode_key, encode_key-AreSafe}
use hu_gr_datarail.Blobstore.Refine.{
  Call, put_call, delete_call, fs_call, fs_run, mem_run, IsKey, get_blob-fs_run,
}

abbrev any_text : Bytes → Bool
any_text bytes = true

-- `a/.z`
abbrev key : Bytes
key = 97 ∷ 47 ∷ 46 ∷ 122 ∷ []

key-AreBytes : All (λ b. b < 256) key
key-AreBytes = (omega arith, (omega arith, (omega arith, (omega arith, tt))))

key_name : encode_key key ≡ 66 ∷ 97 ∷ 37 ∷ 50 ∷ 70 ∷ 37 ∷ 50 ∷ 69 ∷ 122 ∷ []
unfolding encode_key encode_bytes is_plain hex_digit
key_name = refl

-- A name without the marker is no key, nor is one with half an escape.
foreign_names :
    (decode_key any_text (46 ∷ 116 ∷ []) ≡ none) × (decode_key any_text (66 ∷ 37 ∷ 50 ∷ []) ≡ none)
unfolding decode_key decode_bytes strip_marker escaped
foreign_names = (refl, refl)

decode_key-encode_key_example : decode_key any_text (encode_key key) ≡ some key
decode_key-encode_key_example = decode_key-encode_key any_text key key-AreBytes refl

encode_key-AreSafe_example :
    (0 < length (encode_key key)) × All (λ b. (b ≢ 46) × (b ≢ 47)) (encode_key key)
encode_key-AreSafe_example = encode_key-AreSafe key key-AreBytes

abbrev calls : List Call
calls =
    put_call (49 ∷ []) key (1 ∷ 2 ∷ []) stored
    ∷ put_call (50 ∷ []) key (3 ∷ 4 ∷ []) (torn 1)
    ∷ put_call (51 ∷ []) [] (5 ∷ []) stored
    ∷ delete_call []
    ∷ []

key-IsKey : IsKey any_text key
key-IsKey = record { text = refl; bytes = key-AreBytes }

nil-IsKey : IsKey any_text []
nil-IsKey = record { text = refl; bytes = tt }

got : get_blob (fs_run [] calls) key ≡ some (1 ∷ 2 ∷ [])
unfolding get_blob fs_run fs_call put delete encode_key encode_bytes is_plain hex_digit get insert
    remove bytes_eq
got = refl

get_blob-fs_run_example : get_blob (fs_run [] calls) key ≡ mem_get (mem_run [] calls) key
get_blob-fs_run_example =
    get_blob-fs_run any_text calls key (key-IsKey, (key-IsKey, (nil-IsKey, (nil-IsKey, tt))))
      key-IsKey
