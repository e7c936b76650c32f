-- ===== src/Blobstore/Refine.antt =====
-- `FsBlob` of crates/datarail-blobstore/src/lib.rs against `MemBlob`.
use hu_gr_datarail.Prelude.{
  ◌≡◌, ◌<◌, refl, sym, ap, ◌∙◌, inl, inr, Bool, true, false, none, some, List, [], ◌∷◌, Bytes,
  Bytes_eq, bytes_eq_iff, bytes_eq, Bool-cases, All, ◌==◌, if◌then◌else◌, take,
}
use hu_gr_datarail.Prelude.Dict.{Dict, get, insert, remove, get-insert, get-remove}
use hu_gr_datarail.Blobstore.{
  Directory, Put, stored, not_created, torn, not_synced, not_renamed, put, decode_key, get_blob,
  delete, encode_key, mem_put, mem_get, mem_delete,
}
use hu_gr_datarail.Blobstore.Names.{decode_key-encode_key}

-- One call, with the name that the temporary file of a `put` gets behind its dot.
pub data Call : Type 0 where
  put_call : Bytes → Bytes → Bytes → Put → Call
  delete_call : Bytes → Call

unfoldable pub fs_call : Directory → Call → Directory
fs_call dir (put_call tmp key bytes outcome) = (put dir (46 ∷ tmp) key bytes outcome).1
fs_call dir (delete_call key) = (delete dir key).1

-- A `put` that fails leaves the reference as it is.
unfoldable pub mem_call : Dict Bytes Bytes → Call → Dict Bytes Bytes
mem_call m (put_call tmp key bytes stored) = mem_put m key bytes
mem_call m (put_call tmp key bytes not_created) = m
mem_call m (put_call tmp key bytes (torn n)) = m
mem_call m (put_call tmp key bytes not_synced) = m
mem_call m (put_call tmp key bytes not_renamed) = m
mem_call m (delete_call key) = (mem_delete m key).1

unfoldable pub fs_run : Directory → List Call → Directory
fs_run dir [] = dir
fs_run dir (call ∷ calls) = fs_run (fs_call dir call) calls

unfoldable pub mem_run : Dict Bytes Bytes → List Call → Dict Bytes Bytes
mem_run m [] = m
mem_run m (call ∷ calls) = mem_run (mem_call m call) calls

true-false : {b : Bool} → b ≡ true → b ≡ false → ⊥
true-false h k = cc

some-injective : {a b : Bytes} → some a ≡ some b → a ≡ b
some-injective h = cc

module _ (is_utf8 : Bytes → Bool) where
  pub record IsKey (key : Bytes) : Type 0 where
    pub bytes : All (λ b. b < 256) key
    pub text : is_utf8 key ≡ true

  abbrev pub IsCall : Call → Type 0
  IsCall (put_call tmp key bytes outcome) = IsKey key
  IsCall (delete_call key) = IsKey key

  one_key : (j k : Bytes) → IsKey j → IsKey k → encode_key j ≡ encode_key k → j ≡ k
  one_key j k hj hk e = some-injective (
      sym (decode_key-encode_key is_utf8 j hj.bytes hj.text)
      ∙ ap (decode_key is_utf8) e
      ∙ decode_key-encode_key is_utf8 k hk.bytes hk.text)

  -- Two keys have one name only if they are one.
  same_name : (j k : Bytes) → IsKey j → IsKey k → (encode_key j == encode_key k) ≡ (j == k)
  same_name j k hj hk = elim (Bool-cases (j == k)) [
    | inl same ↦
        (bytes_eq_iff (encode_key j) (encode_key k)).1 (ap encode_key ((bytes_eq_iff j k).0 same))
        ∙ sym same
    | inr other ↦ elim (Bool-cases (encode_key j == encode_key k)) [
      | inl one ↦ absurd (
          true-false
            ((bytes_eq_iff j k).1
              (one_key j k hj hk ((bytes_eq_iff (encode_key j) (encode_key k)).0 one)))
            other)
      | inr two ↦ two ∙ sym other
    ]
  ]

  abbrev Agrees : Directory → Dict Bytes Bytes → Type 0
  Agrees dir m = (key : Bytes) → IsKey key → get_blob dir key ≡ mem_get m key

  temporary : (tmp key : Bytes) → ((46 ∷ tmp) == encode_key key) ≡ false
  unfolding encode_key bytes_eq
  temporary tmp key = refl

  -- What is done to a temporary file does not concern a key.
  get-insert-temporary :
      (dir : Directory) (tmp key bytes : Bytes)
      → get (insert dir (46 ∷ tmp) bytes) (encode_key key) ≡ get dir (encode_key key)
  get-insert-temporary dir tmp key bytes =
      get-insert dir (46 ∷ tmp) (encode_key key) bytes ∙ rw (temporary tmp key) refl

  get-remove-temporary :
      (dir : Directory) (tmp key : Bytes)
      → get (remove dir (46 ∷ tmp)) (encode_key key) ≡ get dir (encode_key key)
  get-remove-temporary dir tmp key =
      get-remove dir (46 ∷ tmp) (encode_key key) ∙ rw (temporary tmp key) refl

  fs_call-Agrees :
      (dir : Directory) (m : Dict Bytes Bytes) (call : Call)
      → Agrees dir m
      → IsCall call
      → Agrees (fs_call dir call) (mem_call m call)
  unfolding fs_call mem_call put delete get_blob mem_get mem_put mem_delete
  fs_call-Agrees dir m (put_call tmp key bytes stored) a h k hk =
      get-insert (remove (insert dir (46 ∷ tmp) bytes) (46 ∷ tmp)) (encode_key key) (encode_key k)
        bytes
      ∙ rw (same_name key k h hk) (
          ap (λ o. if key == k then some bytes else o)
            (get-remove-temporary (insert dir (46 ∷ tmp) bytes) tmp k
              ∙ get-insert-temporary dir tmp k bytes
              ∙ a k hk))
      ∙ sym (get-insert m key k bytes)
  fs_call-Agrees dir m (put_call tmp key bytes not_created) a h k hk = a k hk
  fs_call-Agrees dir m (put_call tmp key bytes (torn n)) a h k hk =
      get-insert-temporary dir tmp k (take n bytes) ∙ a k hk
  fs_call-Agrees dir m (put_call tmp key bytes not_synced) a h k hk =
      get-insert-temporary dir tmp k bytes ∙ a k hk
  fs_call-Agrees dir m (put_call tmp key bytes not_renamed) a h k hk =
      get-remove-temporary (insert dir (46 ∷ tmp) bytes) tmp k
      ∙ get-insert-temporary dir tmp k bytes
      ∙ a k hk
  fs_call-Agrees dir m (delete_call key) a h k hk =
      get-remove dir (encode_key key) (encode_key k)
      ∙ rw (same_name key k h hk) (ap (λ o. if key == k then none else o) (a k hk))
      ∙ sym (get-remove m key k)

  fs_run-Agrees :
      (calls : List Call) (dir : Directory) (m : Dict Bytes Bytes)
      → Agrees dir m
      → All IsCall calls
      → Agrees (fs_run dir calls) (mem_run m calls)
  unfolding fs_run mem_run
  fs_run-Agrees [] dir m a h = a
  fs_run-Agrees (call ∷ calls) dir m a (h, hs) =
      fs_run-Agrees calls (fs_call dir call) (mem_call m call) (fs_call-Agrees dir m call a h) hs

-- A store that begins with an empty directory answers each get as the reference in memory does, after any
-- puts and deletes. A put that fails, at whatever step, counts in the reference as no call, whatever it
-- leaves in its temporary file. Keys are valid strings of bytes.
pub get_blob-fs_run :
    (is_utf8 : Bytes → Bool) (calls : List Call) (key : Bytes)
    → All (IsCall is_utf8) calls
    → IsKey is_utf8 key
    → get_blob (fs_run [] calls) key ≡ mem_get (mem_run [] calls) key
unfolding get_blob mem_get get
get_blob-fs_run is_utf8 calls key h k = fs_run-Agrees is_utf8 calls [] [] (λ j hj. refl) h key k
