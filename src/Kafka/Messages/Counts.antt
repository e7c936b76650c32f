-- ===== src/Kafka/Messages/Counts.antt =====
-- The counts of arrays in the messages of crates/datarail-kafka/src/groups.rs and txn.rs.
use hu_gr_datarail.Prelude.{
  ℕ, zero, suc, ◌*◌, ◌≤◌, ◌≡◌, refl, sym, ap, subst, max, List, ◌∷◌, length, length-drop, arith,
}
use hu_gr_datarail.Kafka.Codec.{Reader, Result, Parse, ok, err, continue, pure, ◌>>=◌}
use hu_gr_datarail.Kafka.Codec.Read
use hu_gr_datarail.Kafka.Codec.Read.{bounded_count, remaining}
use hu_gr_datarail.Kafka.Codec.Within.{Kept, IsWithin, fixed-IsSafe}
use hu_gr_datarail.Kafka.Codec.Bounds.{bounded_count-fits}
use hu_gr_datarail.Kafka.Messages.{bounded, repeat, counted}

abbrev HasLength {ℓ} : {A : Type ℓ} → ℕ → Result (List A × Reader) → Type 0
HasLength n (ok (xs, r)) = length xs ≡ n
HasLength n (err e) = Unit

-- as many entries as there is room for
abbrev FitsIn {ℓ} : {A : Type ℓ} → ℕ → ℕ → Result (List A × Reader) → Type 0
FitsIn least room (ok (xs, r)) = length xs * max least 1 ≤ room
FitsIn least room (err e) = Unit

remaining-le :
    (r r' : Reader) → r'.buf ≡ r.buf → r.pos ≤ r'.pos → length (remaining r') ≤ length (remaining r)
unfolding remaining
remaining-le r r' same forward =
    omega (arith, length-drop r.pos r.buf, length-drop r'.pos r'.buf, ap length same, forward)

module _ {ℓ} {A : Type ℓ} (p : Parse A) where
  cons-HasLength :
      (n : ℕ) (x : A) (o : Result (List A × Reader))
      → HasLength n o
      → HasLength (suc n) (continue o (λ xs. pure (x ∷ xs)))
  cons-HasLength n x (ok (xs, r)) h = ap suc h
  cons-HasLength n x (err e) h = tt

  first-HasLength :
      (n : ℕ) (o : Result (A × Reader))
      → ((r : Reader) → HasLength n (repeat n p r))
      → HasLength (suc n) (continue o (λ x. repeat n p >>= (λ xs. pure (x ∷ xs))))
  first-HasLength n (ok (x, r)) h = cons-HasLength n x (repeat n p r) (h r)
  first-HasLength n (err e) h = tt

  repeat-HasLength : (n : ℕ) (r : Reader) → HasLength n (repeat n p r)
  unfolding repeat
  repeat-HasLength zero r = refl
  repeat-HasLength (suc n) r = first-HasLength n (p r) (λ r'. repeat-HasLength n r')

  HasLength-FitsIn :
      (least room n : ℕ) (o : Result (List A × Reader))
      → n * max least 1 ≤ room
      → HasLength n o
      → FitsIn least room o
  HasLength-FitsIn least room n (ok (xs, r)) h e = subst (λ k. k * max least 1 ≤ room) (sym e) h
  HasLength-FitsIn least room n (err e) h k = tt

  counted-FitsIn :
      (least : ℕ) (r : Reader) (o : Result (ℕ × Reader))
      → Kept r o
      → FitsIn least
          (length (remaining r))
          (continue o (λ count. bounded count least >>= (λ n. repeat n p)))
  counted-FitsIn least r (ok (count, r')) (same, forward, within) =
      let n = bounded_count r' count least in
      HasLength-FitsIn least (length (remaining r)) n (repeat n p r')
        (omega (arith, (bounded_count-fits r' count least).0, remaining-le r r' same forward))
        (repeat-HasLength n r')
  counted-FitsIn least r (err e) h = tt

  -- Whatever count an array announces, and whatever parser reads its entries, a parse that succeeds gives
  -- no more entries than the rest of the buffer has room for, at the least size that is told for an entry,
  -- which counts as 1 where it is 0. The reader begins within its buffer.
  pub counted-fits :
      (least : ℕ) (r last : Reader) (xs : List A)
      → IsWithin r
      → counted least p r ≡ ok (xs, last)
      → length xs * max least 1 ≤ length (remaining r)
  unfolding counted
  counted-fits least r last xs within e =
      subst (FitsIn least (length (remaining r))) e
        (counted-FitsIn least r (Read.fixed 4 r) (fixed-IsSafe 4 r within))
