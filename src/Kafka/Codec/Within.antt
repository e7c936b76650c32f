-- ===== src/Kafka/Codec/Within.antt =====
-- No method of the reader of crates/datarail-kafka/src/codec.rs leaves the buffer, whatever it holds.
use hu_gr_datarail.Prelude.{
  ℕ, zero, suc, ◌+◌, ◌-◌, ◌^◌, ◌≤◌, ◌≡◌, refl, ◌∙◌, arith, Bool-cases, inl, inr, leb, ltb, nat_eq,
  Bool, true, false, Bytes, length, if◌then◌else◌,
}
use hu_gr_datarail.Kafka.Codec.{Reader, Result, ok, err, Parse, continue, ◌>>=◌, pure}
use hu_gr_datarail.Kafka.Codec.Read
use hu_gr_datarail.Kafka.Codec.Header.{parse}

abbrev pub IsWithin : Reader → Type 0
IsWithin r = r.pos ≤ length r.buf

-- The buffer is the same, and the cursor went forward and no further than the end.
abbrev pub Kept {ℓ} : {A : Type ℓ} → Reader → Result (A × Reader) → Type 0
Kept r (ok (a, r')) = (r'.buf ≡ r.buf) × (r.pos ≤ r'.pos) × IsWithin r'
Kept r (err e) = Unit

abbrev pub IsSafe {ℓ} : {A : Type ℓ} → Parse A → Type 0
IsSafe p = (r : Reader) → IsWithin r → Kept r (p r)

Kept-trans {ℓ} :
    {A : Type ℓ} (r r' : Reader) (o : Result (A × Reader))
    → r'.buf ≡ r.buf
    → r.pos ≤ r'.pos
    → Kept r' o
    → Kept r o
Kept-trans r r' (err e) same forward h = tt
Kept-trans r r' (ok (a, r'')) same forward (same', forward', within) =
    (same' ∙ same, omega arith, within)

continue-Kept {ℓ κ} :
    {A : Type ℓ} {B : Type κ} (r : Reader) (o : Result (A × Reader)) (f : A → Parse B)
    → Kept r o
    → ((a : A) → IsSafe (f a))
    → Kept r (continue o f)
continue-Kept r (err e) f k h = tt
continue-Kept r (ok (a, r')) f (same, forward, within) h =
    Kept-trans r r' (f a r') same forward (h a r' within)

pub bind-IsSafe {ℓ κ} :
    {A : Type ℓ} {B : Type κ} (p : Parse A) (f : A → Parse B)
    → IsSafe p
    → ((a : A) → IsSafe (f a))
    → IsSafe (p >>= f)
bind-IsSafe p f hp hf r w = continue-Kept r (p r) f (hp r w) hf

-- a step that leaves the reader as it is, and one that fails
pub stay : (r : Reader) → IsWithin r → (r.buf ≡ r.buf) × (r.pos ≤ r.pos) × IsWithin r
stay r w = (refl, omega arith, w)

pub stop {κ} : (r : Reader) → IsWithin r → Unit {κ}
stop r w = tt

pub if-IsSafe {ℓ} :
    {A : Type ℓ} (b : Bool) (p q : Parse A) → IsSafe p → IsSafe q → IsSafe (if b then p else q)
if-IsSafe true p q hp hq = hp
if-IsSafe false p q hp hq = hq

pub take-IsSafe : (n : ℕ) → IsSafe (Read.take n)
unfolding Read.take
take-IsSafe n r w = elim (Bool-cases (leb (2 ^ 64) (r.pos + n))) [
  | inl over ↦ rw over tt
  | inr fits ↦ elim (Bool-cases (leb (r.pos + n) (length r.buf))) [
    | inl room ↦ rw fits (rw room (refl, omega arith, ground arith))
    | inr short ↦ rw fits (rw short tt)
  ]
]

pub fixed-IsSafe : (width : ℕ) → IsSafe (Read.fixed width)
unfolding Read.fixed
fixed-IsSafe width = bind-IsSafe (Read.take width) _ (take-IsSafe width) (λ bytes. stay)

varint_loop-IsSafe : (n i result : ℕ) → IsSafe (Read.varint_loop n i result)
unfolding Read.varint_loop
varint_loop-IsSafe zero i result = stop
varint_loop-IsSafe (suc n) i result =
    bind-IsSafe Read.read_byte _ (fixed-IsSafe 1)
      (λ byte. if-IsSafe (ltb byte 128) _ _ stay (varint_loop-IsSafe n (i + 1) _))

unsigned_varint-IsSafe : IsSafe Read.unsigned_varint
unfolding Read.unsigned_varint
unsigned_varint-IsSafe =
    bind-IsSafe (Read.unsigned_varint_u64 5) _ (varint_loop-IsSafe 5 0 0)
      (λ value. if-IsSafe (ltb value (2 ^ 32)) _ _ stay stop)

skip_fields-IsSafe : (count : ℕ) → IsSafe (Read.skip_fields count)
unfolding Read.skip_fields
skip_fields-IsSafe zero = stay
skip_fields-IsSafe (suc count) = bind-IsSafe Read.unsigned_varint _ unsigned_varint-IsSafe (λ tag.
    bind-IsSafe Read.unsigned_varint _ unsigned_varint-IsSafe (λ size.
      bind-IsSafe (Read.take size) _ (take-IsSafe size) (λ skipped. skip_fields-IsSafe count)))

skip_tagged_fields-IsSafe : IsSafe Read.skip_tagged_fields
unfolding Read.skip_tagged_fields
skip_tagged_fields-IsSafe =
    bind-IsSafe Read.unsigned_varint _ unsigned_varint-IsSafe skip_fields-IsSafe

module _ (is_utf8 : Bytes → Bool) where
  pub read_utf8-IsSafe : (n : ℕ) → IsSafe (Read.read_utf8 is_utf8 n)
  unfolding Read.read_utf8
  read_utf8-IsSafe n =
      bind-IsSafe (Read.take n) _ (take-IsSafe n) (λ text. if-IsSafe (is_utf8 text) _ _ stay stop)

  pub nullable_string-IsSafe : IsSafe (Read.nullable_string is_utf8)
  unfolding Read.nullable_string
  nullable_string-IsSafe = bind-IsSafe Read.int16 _ (fixed-IsSafe 2) (λ n.
      if-IsSafe (nat_eq n (2 ^ 16 - 1)) _ _ stay (
        if-IsSafe (ltb n (2 ^ 15)) _ _
          (bind-IsSafe (Read.read_utf8 is_utf8 n) _ (read_utf8-IsSafe n) (λ text. stay)) stop))

  pub parse-IsSafe : (flexible : Bool) → IsSafe (parse is_utf8 flexible)
  unfolding parse
  parse-IsSafe flexible = bind-IsSafe Read.int16 _ (fixed-IsSafe 2) (λ key.
      bind-IsSafe Read.int16 _ (fixed-IsSafe 2) (λ version.
        bind-IsSafe Read.int32 _ (fixed-IsSafe 4) (λ id.
          bind-IsSafe (Read.nullable_string is_utf8) _ nullable_string-IsSafe (λ client.
            bind-IsSafe (if flexible then Read.skip_tagged_fields else pure tt) _
              (if-IsSafe flexible _ _ skip_tagged_fields-IsSafe stay) (λ t. stay)))))
