-- ===== src/Kafka/Codec.antt =====
-- crates/datarail-kafka/src/codec.rs: the reader, the writer and the headers of the wire protocol.
-- An error is its `io::ErrorKind`; its message is left out.
pub mod Read
pub mod Write
pub mod Header
pub mod Reads
pub mod Within
pub mod ZigZag
pub mod RoundTrip
pub mod Varint
pub mod Strings
pub mod Headers
pub mod Bounds
pub mod Wire
mod Runs
use hu_gr_datarail.Prelude.{
  ℕ, zero, suc, ◌+◌, ◌-◌, ◌*◌, ◌/◌, ◌^◌, ◌%◌, List, [], ◌∷◌, Bytes, length, drop,
}

pub data Failure : Type 0 where
  unexpected_eof invalid_data : Failure

pub data Result {ℓ} (A : Type ℓ) : Type ℓ where
  ok : A → Result A
  err : Failure → Result A

pub record Reader : Type 0 where
  pub buf : Bytes
  pub pos : ℕ

-- a method on `&mut self`: its value and the reader that it leaves
abbrev pub Parse {ℓ} : Type ℓ → Type ℓ
Parse A = Reader → Result (A × Reader)

abbrev pub continue {ℓ κ} :
    {A : Type ℓ} {B : Type κ} → Result (A × Reader) → (A → Parse B) → Result (B × Reader)
continue (ok (a, r)) f = f a r
continue (err e) f = err e

-- `?`
infixl 5 ◌>>=◌
abbrev pub ◌>>=◌ {ℓ κ} : {A : Type ℓ} {B : Type κ} → Parse A → (A → Parse B) → Parse B
p >>= f = λ r. continue (p r) f

abbrev pub pure {ℓ} : {A : Type ℓ} → A → Parse A
pure a r = ok (a, r)

abbrev pub fail {ℓ} : {A : Type ℓ} → Failure → Parse A
fail e r = err e

-- The number of big-endian bytes, and the low `k` bytes of a number.
unfoldable pub be_value : ℕ → Bytes → ℕ
be_value acc [] = acc
be_value acc (b ∷ bs) = be_value (acc * 256 + b) bs

unfoldable pub be_bytes : ℕ → ℕ → Bytes
be_bytes zero v = []
be_bytes (suc k) v = (v / 256 ^ k % 256) ∷ be_bytes k v
