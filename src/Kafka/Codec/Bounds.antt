-- ===== src/Kafka/Codec/Bounds.antt =====
-- The lengths of crates/datarail-kafka/src/codec.rs: the count of an array read from the wire, and
-- the writer's capped length prefix.
use hu_gr_datarail.Prelude.{
  ◌⊎◌, inl, inr, Bool-cases, leb, ℕ, zero, suc, ◌+◌, ◌*◌, ◌/◌, ◌^◌, ◌≤◌, ◌<◌, min, max, ◌≡◌, refl,
  sym, ap, ◌∙◌, subst, arith, Bool, true, List, [], ◌∷◌, Bytes, length, ◌++◌, append_assoc,
  length-take, length-append,
}
use hu_gr_datarail.Prelude.Lists
use native.Mathlib.Nat.{div-add-mod'}
use hu_gr_datarail.Kafka.Codec.{Reader, ok, be_bytes}
use hu_gr_datarail.Kafka.Codec.Read
use hu_gr_datarail.Kafka.Codec.Read.{bounded_count, non_negative, remaining}
use hu_gr_datarail.Kafka.Codec.Write
use hu_gr_datarail.Kafka.Codec.Reads.{StandsAt, StandsAt-advance, advance}
use hu_gr_datarail.Kafka.Codec.RoundTrip.{length-be_bytes}
use hu_gr_datarail.Kafka.Codec.Strings.{string-Reads}

quotient_room : (n m c : ℕ) → 0 < m → c ≤ n / m → c * m ≤ n
quotient_room n m c p h = grind (arith, div-add-mod' n m)

quotient_next : (n m : ℕ) → 0 < m → n < (n / m + 1) * m
quotient_next n m p = grind (arith, div-add-mod' n m)

fits_or_full :
    (c d room width : ℕ) → room < (d + 1) * width → (min c d ≡ c) ⊎ (room < (min c d + 1) * width)
fits_or_full c d room width h = elim (Bool-cases (leb c d)) [
  | inl small ↦ inl (ground (arith, small))
  | inr large ↦ let cut : min c d ≡ d = ground (arith, large) in inr (rw cut h)
]

-- The count that a loop may run is at most the announced one (0 for a negative), its entries at their
-- least size fit the bytes that are left, and it is the announced one unless one entry more would
-- not fit.
pub bounded_count-fits :
    (r : Reader) (count min_entry_bytes : ℕ)
    → (bounded_count r count min_entry_bytes * max min_entry_bytes 1 ≤ length (remaining r))
      × (bounded_count r count min_entry_bytes ≤ non_negative count)
      × ((bounded_count r count min_entry_bytes ≡ non_negative count)
          ⊎ (length (remaining r)
              < (bounded_count r count min_entry_bytes + 1) * max min_entry_bytes 1))
unfolding bounded_count
bounded_count-fits r count least =
    let room = length (remaining r) in
    let width = max least 1 in
    (
      quotient_room room width (min (non_negative count) (room / width)) (omega arith)
          (omega arith),
      omega arith,
      fits_or_full (non_negative count) (room / width) room width
          (quotient_next room width (omega arith)),
    )

take-drop {ℓ} : {A : Type ℓ} (n : ℕ) (xs : List A) → Lists.take n xs ++ Lists.drop n xs ≡ xs
take-drop zero xs = refl
take-drop (suc n) [] = refl
take-drop (suc n) (x ∷ xs) = ap (λ l. x ∷ l) (take-drop n xs)

-- What is written of a string over the cap is what is written of its first bytes, and the others.
string-split :
    (s : Bytes)
    → 2 ^ 15 ≤ length s
    → Write.string [] s ≡ Write.string [] (Lists.take 32767 s) ++ Lists.drop 32767 s
unfolding Write.string
string-split s h =
    let cap : Write.capped 15 (length s) ≡ 32767 = omega arith in
    let cap' : Write.capped 15 (length (Lists.take 32767 s)) ≡ 32767 =
      omega (arith, length-take 32767 s) in
    rw cap (
      rw cap' (
        ap (λ t. be_bytes 2 32767 ++ t) (sym (take-drop 32767 s))
        ∙ sym (append_assoc (be_bytes 2 32767) (Lists.take 32767 s) (Lists.drop 32767 s))))

pub length-string : (s : Bytes) → length (Write.string [] s) ≡ 2 + length s
unfolding Write.string
length-string s =
    length-append (be_bytes 2 (Write.capped 15 (length s))) s
    ∙ ap (λ n. n + length s) (length-be_bytes 2 (Write.capped 15 (length s)))

cut-append :
    (s rest : Bytes)
    → 2 ^ 15 ≤ length s
    → Write.string [] s ++ rest
      ≡ Write.string [] (Lists.take 32767 s) ++ (Lists.drop 32767 s ++ rest)
cut-append s rest h =
    ap (λ t. t ++ rest) (string-split s h)
    ∙ append_assoc (Write.string [] (Lists.take 32767 s)) (Lists.drop 32767 s) rest

-- Of a string of 2 ^ 15 bytes or more, whose first 32767 bytes are valid UTF-8, the writer announces
-- 32767 bytes and writes all of them; the reader gives the first 32767 and is left before the others,
-- so that what comes next is read from the bytes of the string.
pub string_over_cap :
    (is_utf8 : Bytes → Bool) (s rest : Bytes) (r : Reader)
    → 2 ^ 15 ≤ length s
    → is_utf8 (Lists.take 32767 s) ≡ true
    → StandsAt r (Write.string [] s ++ rest)
    → (Write.string [] s ≡ be_bytes 2 32767 ++ s)
      × (Read.string is_utf8 r ≡ ok (Lists.take 32767 s, advance (2 + 32767) r))
      × StandsAt (advance (2 + 32767) r) (Lists.drop 32767 s ++ rest)
unfolding Write.string
string_over_cap is_utf8 s rest r h valid stands =
    let t = Lists.take 32767 s in
    let cap : Write.capped 15 (length s) ≡ 32767 = omega arith in
    let cut : length t ≡ 32767 = omega (arith, length-take 32767 s) in
    let size : length (Write.string [] t) ≡ 2 + 32767 = length-string t ∙ ap (λ n. 2 + n) cut in
    let split : StandsAt r (Write.string [] t ++ (Lists.drop 32767 s ++ rest)) =
      subst (StandsAt r) (cut-append s rest h) stands in
    (
      rw cap refl,
      string-Reads is_utf8 t (omega arith) valid r (Lists.drop 32767 s ++ rest) split
          ∙ ap (λ n. ok (t, advance n r)) size,
      subst (λ n. StandsAt (advance n r) (Lists.drop 32767 s ++ rest)) size
          (StandsAt-advance r (Write.string [] t) (Lists.drop 32767 s ++ rest) split),
    )
