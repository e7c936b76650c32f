-- ===== src/Kafka/Messages/Arrays.antt =====
-- Counted arrays of the messages in crates/datarail-kafka/src: what is written entry by entry is read
-- back whole, and no count leads out of the buffer.
use hu_gr_datarail.Prelude.{
  ℕ, zero, suc, ◌*◌, ◌/◌, ◌^◌, ◌≤◌, ◌<◌, max, ◌≡◌, refl, sym, ap, ◌∙◌, List, [], ◌∷◌, ◌++◌,
  append_assoc, append-nil, map, Bytes, All, length, length-append, arith,
}
use hu_gr_datarail.Prelude.Lists
use native.Mathlib.Nat.{le-div_iff_mul-le}
use hu_gr_datarail.Kafka.Codec.{Reader, Parse, be_bytes}
use hu_gr_datarail.Kafka.Codec.Read
use hu_gr_datarail.Kafka.Codec.Read.{bounded_count, remaining}
use hu_gr_datarail.Kafka.Codec.Reads.{Reads, StandsAt, bind-Reads, map-Reads, pure-Reads}
use hu_gr_datarail.Kafka.Codec.RoundTrip.{int32-Reads}
use hu_gr_datarail.Kafka.Codec.Within.{IsSafe, bind-IsSafe, stay, fixed-IsSafe}
use hu_gr_datarail.Kafka.Codec.Write.{Writer}
use hu_gr_datarail.Kafka.Messages.{bounded, repeat, counted, write_each}

-- The entries' bytes, one after the other.
abbrev pub flatten {ℓ} : {A : Type ℓ} → (A → Bytes) → List A → Bytes
flatten enc [] = []
flatten enc (x ∷ xs) = enc x ++ flatten enc xs

-- An array on the wire: its count and its entries.
abbrev pub array_bytes {ℓ} : {A : Type ℓ} → (A → Bytes) → List A → Bytes
array_bytes enc xs = be_bytes 4 (length xs) ++ flatten enc xs

module _ {ℓ κ ν} {A : Type ℓ} {B : Type κ} (V : B → Type ν) (f : B → A) (enc : B → Bytes)
    (p : Parse A) (reads : (x : B) → V x → Reads p (f x) (enc x)) where
  repeat-Reads : (xs : List B) → All V xs → Reads (repeat (length xs) p) (map f xs) (flatten enc xs)
  unfolding repeat
  repeat-Reads [] v = pure-Reads []
  repeat-Reads (x ∷ xs) (v, vs) =
      bind-Reads p _ (f x) (f x ∷ map f xs) (enc x) (flatten enc xs) (reads x v) (
        map-Reads (repeat (length xs) p) _ (map f xs) (f x ∷ map f xs) (flatten enc xs)
          (repeat-Reads xs vs) refl)

  module _ (least : ℕ) (long : (x : B) → V x → least ≤ length (enc x)) where
    flatten-long : (xs : List B) → All V xs → length xs * least ≤ length (flatten enc xs)
    flatten-long [] v = omega arith
    flatten-long (x ∷ xs) (v, vs) =
        grind (arith, flatten-long xs vs, long x v, length-append (enc x) (flatten enc xs))

    -- The cap on the count does not bind where the entries are there.
    bounded-Reads :
        (xs : List B) (r : Reader) (rest : Bytes)
        → 0 < least
        → All V xs
        → length xs < 2 ^ 31
        → StandsAt r (flatten enc xs ++ rest)
        → bounded_count r (length xs) least ≡ length xs
    unfolding bounded_count remaining
    bounded-Reads xs r rest pos v fits s =
        let room : length xs * max least 1 ≤ length (Lists.drop r.pos r.buf) =
          grind (
            arith,
            flatten-long xs v,
            ap length s.input_left,
            length-append (flatten enc xs) rest,
          ) in
        let reach : length xs ≤ length (Lists.drop r.pos r.buf) / max least 1 =
          (le-div_iff_mul-le {k = max least 1} (omega arith)).1 room in
        ground (arith, reach, fits)

    pub counted-Reads :
        (xs : List B)
        → 0 < least
        → All V xs
        → length xs < 2 ^ 31
        → Reads (counted least p) (map f xs) (array_bytes enc xs)
    unfolding counted
    counted-Reads xs pos v fits =
        bind-Reads Read.int32 _ (length xs) (map f xs) (be_bytes 4 (length xs)) (flatten enc xs)
          (int32-Reads (length xs) (omega arith))
          (λ r rest s. rw (bounded-Reads xs r rest pos v fits s) (repeat-Reads xs v r rest s))

repeat-IsSafe {ℓ} : {A : Type ℓ} (n : ℕ) (p : Parse A) → IsSafe p → IsSafe (repeat n p)
unfolding repeat
repeat-IsSafe zero p h = stay
repeat-IsSafe (suc n) p h =
    bind-IsSafe p _ h (λ x. bind-IsSafe (repeat n p) _ (repeat-IsSafe n p h) (λ xs. stay))

pub counted-IsSafe {ℓ} :
    {A : Type ℓ} (least : ℕ) (p : Parse A) → IsSafe p → IsSafe (counted least p)
unfolding counted
counted-IsSafe least p h =
    bind-IsSafe Read.int32 _ (fixed-IsSafe 4)
      (λ count. bind-IsSafe (bounded count least) _ stay (λ n. repeat-IsSafe n p h))

-- A loop over the writer appends the entries.
pub write_each-flatten {ℓ} :
    {A : Type ℓ} (f : Writer → A → Writer) (enc : A → Bytes)
    → ((w : Writer) (x : A) → f w x ≡ w ++ enc x)
    → (w : Writer) (xs : List A) → write_each f w xs ≡ w ++ flatten enc xs
unfolding write_each
write_each-flatten f enc h w [] = sym (append-nil w)
write_each-flatten f enc h w (x ∷ xs) =
    rw (h w x)
      (write_each-flatten f enc h (w ++ enc x) xs ∙ append_assoc w (enc x) (flatten enc xs))

pub write_each-flatten_valid {ℓ κ} :
    {A : Type ℓ} (V : A → Type κ) (f : Writer → A → Writer) (enc : A → Bytes)
    → ((w : Writer) (x : A) → V x → f w x ≡ w ++ enc x)
    → (w : Writer) (xs : List A) → All V xs
    → write_each f w xs ≡ w ++ flatten enc xs
unfolding write_each
write_each-flatten_valid V f enc h w [] v = sym (append-nil w)
write_each-flatten_valid V f enc h w (x ∷ xs) (v, vs) = rw (h w x v) (
    write_each-flatten_valid V f enc h (w ++ enc x) xs vs ∙ append_assoc w (enc x) (flatten enc xs))
