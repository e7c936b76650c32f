-- ===== src/Kafka/Messages.antt =====
-- What the request and response messages of crates/datarail-kafka/src/groups.rs and of the second half
-- of crates/datarail-kafka/src/txn.rs share: version tests and counted arrays.
pub mod Groups
pub mod Txn
pub mod Arrays
pub mod Counts
pub mod Layout
pub mod Requests
pub mod Answers
mod Runs
use hu_gr_datarail.Prelude.{
  ℕ, zero, suc, ◌^◌, Bool, true, false, ◌&&◌, List, [], ◌∷◌, length, ltb, leb, if◌then◌else◌,
}
use hu_gr_datarail.Kafka.Codec.{ok, Parse, ◌>>=◌, pure}
use hu_gr_datarail.Kafka.Codec.Read
use hu_gr_datarail.Kafka.Codec.Write.{Writer}

-- a `string` and the count of its partitions
abbrev pub min_topic_bytes : ℕ
min_topic_bytes = 6

abbrev pub min_partition_bytes : ℕ
min_partition_bytes = 4

-- `version >= n` of an i16
abbrev pub since : ℕ → ℕ → Bool
since n version = ltb version (2 ^ 15) && leb n version

abbrev pub bounded : ℕ → ℕ → Parse ℕ
bounded count min_entry r = ok (Read.bounded_count r count min_entry, r)

-- `for _ in 0..n { entries.push(...) }`
unfoldable pub repeat {ℓ} : {A : Type ℓ} → ℕ → Parse A → Parse (List A)
repeat zero p = pure []
repeat (suc n) p = do x ← p; xs ← repeat n p; pure (x ∷ xs)

-- An array: its count, cut to what the frame can hold, and the entries.
unfoldable pub counted {ℓ} : {A : Type ℓ} → ℕ → Parse A → Parse (List A)
counted min_entry p = do count ← Read.int32; n ← bounded count min_entry; repeat n p

-- `i32::try_from(len).unwrap_or(0)`
abbrev pub count_of {ℓ} : {A : Type ℓ} → List A → ℕ
count_of xs = if ltb (length xs) (2 ^ 31) then length xs else 0

-- `for x in xs { ... }` over the writer
unfoldable pub write_each {ℓ} : {A : Type ℓ} → (Writer → A → Writer) → Writer → List A → Writer
write_each f w [] = w
write_each f w (x ∷ xs) = write_each f (f w x) xs
