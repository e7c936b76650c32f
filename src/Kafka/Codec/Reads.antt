-- ===== src/Kafka/Codec/Reads.antt =====
-- What it means that a method of the reader of crates/datarail-kafka/src/codec.rs reads a value from
-- the bytes in front of it, and how that follows the composition of methods.
use hu_gr_datarail.Prelude.{
  ℕ, ◌+◌, ◌^◌, ◌≤◌, ◌<◌, ◌≡◌, refl, sym, ap, ◌∙◌, [], ◌++◌, append_assoc, subst, Bytes, length,
  length-append, length-drop, take-length-append, drop-length-append, arith,
}
use hu_gr_datarail.Prelude.Lists
use hu_gr_datarail.Kafka.Codec.{Reader, ok, Parse, ◌>>=◌, pure}
use hu_gr_datarail.Kafka.Codec.Read

-- The reader stands at `input`, within a buffer that memory can hold.
pub record StandsAt (r : Reader) (input : Bytes) : Type 0 where
  pub input_left : Lists.drop r.pos r.buf ≡ input
  pub within : r.pos ≤ length r.buf
  pub addressable : length r.buf < 2 ^ 64

abbrev pub advance : ℕ → Reader → Reader
advance n r = record r { pos = r.pos + n }

-- In front of `bs` the method gives `a` and leaves the reader behind them, whatever follows.
abbrev pub Reads {ℓ} : {A : Type ℓ} → Parse A → A → Bytes → Type ℓ
Reads p a bs =
    (r : Reader) (rest : Bytes) → StandsAt r (bs ++ rest) → p r ≡ ok (a, advance (length bs) r)

-- What stands behind `bs` lies in the buffer.
StandsAt-room :
    (r : Reader) (bs rest : Bytes) → StandsAt r (bs ++ rest) → r.pos + length bs ≤ length r.buf
StandsAt-room r bs rest s =
    omega (arith, s.within, length-drop r.pos r.buf, ap length s.input_left, length-append bs rest)

pub StandsAt-advance :
    (r : Reader) (bs rest : Bytes) → StandsAt r (bs ++ rest) → StandsAt (advance (length bs) r) rest
StandsAt-advance r bs rest s = record {
  input_left =
      Lists.drop-drop r.pos (length bs) r.buf
      ∙ ap (Lists.drop (length bs)) s.input_left
      ∙ drop-length-append bs rest;
  within = StandsAt-room r bs rest s;
  addressable = s.addressable;
}

pub bind-Reads {ℓ κ} :
    {A : Type ℓ} {B : Type κ} (p : Parse A) (f : A → Parse B) (a : A) (b : B) (xs ys : Bytes)
    → Reads p a xs
    → Reads (f a) b ys
    → Reads (p >>= f) b (xs ++ ys)
bind-Reads p f a b xs ys hp hf r rest s =
    let s' : StandsAt r (xs ++ (ys ++ rest)) = subst (StandsAt r) (append_assoc xs ys rest) s in
    rw (hp r (ys ++ rest) s') (
      rw (hf (advance (length xs) r) rest (StandsAt-advance r xs (ys ++ rest) s'))
        (ap (λ n. ok (b, record r { pos = n })) (omega (arith, length-append xs ys))))

pub pure-Reads {ℓ} : {A : Type ℓ} (a : A) → Reads (pure a) a []
pure-Reads a r rest s = ap (λ n. ok (a, record r { pos = n })) (omega arith)

-- a method that ends with a pure step
pub map-Reads {ℓ κ} :
    {A : Type ℓ} {B : Type κ} (p : Parse A) (f : A → Parse B) (a : A) (b : B) (xs : Bytes)
    → Reads p a xs
    → f a ≡ pure b
    → Reads (p >>= f) b xs
map-Reads p f a b xs hp e r rest s = rw (hp r rest s) (rw e refl)

pub take-Reads : (bs : Bytes) → Reads (Read.take (length bs)) bs bs
unfolding Read.take
take-Reads bs r rest s =
    ground
      (arith, StandsAt-room r bs rest s, s.addressable, s.input_left, take-length-append bs rest)

pub Reads-of {ℓ} :
    {A : Type ℓ} {p q : Parse A} (a : A) (bs : Bytes) → p ≡ q → Reads q a bs → Reads p a bs
Reads-of a bs e h = subst (λ m. Reads m a bs) (sym e) h

pub Reads-eq {ℓ} :
    {A : Type ℓ} (p : Parse A) {a a' : A} {bs bs' : Bytes}
    → a ≡ a'
    → bs ≡ bs'
    → Reads p a bs
    → Reads p a' bs'
Reads-eq p {a' = a'} {bs = bs} e e' h = subst (λ b. Reads p a' b) e' (subst (λ b. Reads p b bs) e h)
