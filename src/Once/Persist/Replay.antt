-- ===== src/Once/Persist/Replay.antt =====
-- What `replay` of crates/datarail-once/src/persist.rs makes of a log, and what `admit` leaves unlogged.
use hu_gr_datarail.Prelude.{
  ℕ, zero, suc, ◌+◌, ◌^◌, ◌≤◌, ◌<◌, ◌≡◌, ◌⊎◌, refl, sym, ap, ◌∙◌, subst, inl, inr, Option, none,
  some, List, [], ◌∷◌, ◌++◌, append_assoc, Bytes, Bytes_eq, length, take, length-append,
  Option-cases, arith, All,
}
use hu_gr_datarail.Prelude.Dict
use hu_gr_datarail.Prelude.Dict.{insert-get}
use hu_gr_datarail.Prelude.KeySet
use hu_gr_datarail.Prelude.Words.{StandsAt, StandsAt-next}
use hu_gr_datarail.Once.{
  Once, StreamState, delivered, duplicate, new, entry, default_state, admit, admit_stream,
}
use hu_gr_datarail.Once.Delivery.{admit_cases, admit_fresh}
use hu_gr_datarail.Once.Persist.{
  Entry, apply, encode_entry, encode_entries, parse_entry, replay_loop, replay,
}
use hu_gr_datarail.Once.Persist.Frames.{
  IsEntry, parse_entry-at, parse_entry-torn, length-encode_entry,
}

unfoldable pub apply_all : Once → List Entry → Once
apply_all o [] = o
apply_all o (e ∷ es) = apply_all (apply o e) es

pub apply_all-append :
    (o : Once) (es : List Entry) (e : Entry)
    → apply_all o (es ++ (e ∷ [])) ≡ apply (apply_all o es) e
unfolding apply_all
apply_all-append o [] e = refl
apply_all-append o (d ∷ es) e = apply_all-append (apply o d) es e

abbrev or_default : Option StreamState → StreamState
or_default none = default_state
or_default (some st) = st

default-delivered :
    (gc_lag seq : ℕ) (key : Bytes) → (admit_stream gc_lag default_state seq key).0 ≡ delivered
unfolding admit_stream KeySet.contains Dict.get
default-delivered gc_lag seq key = ground arith

-- What is not delivered leaves the gate as it was.
pub admit-kept :
    (o : Once) (stream : Bytes) (seq : ℕ) (key : Bytes)
    → ((admit o stream seq key).0 ≡ delivered) ⊎ (admit o stream seq key ≡ (duplicate, o))
unfolding admit
admit-kept o stream seq key = elim (admit_cases o.gc_lag (entry o stream) seq key) [
  | inl f ↦ inl (ap (λ r. r.0) (admit_fresh o.gc_lag (entry o stream) seq key f))
  | inr d ↦ elim (Option-cases (Dict.get o.streams stream)) [
    | inl absent ↦ inl (
        ap (λ g. (admit_stream o.gc_lag (or_default g) seq key).0) absent
        ∙ default-delivered o.gc_lag seq key)
    | inr (st, known) ↦ inr (
        ap (λ r. (r.0, record o { streams = Dict.insert o.streams stream r.1 })) d
        ∙ ap (λ m. (duplicate, record o { streams = m }))
            (insert-get o.streams stream (entry o stream)
              (known ∙ ap (λ g. some (or_default g)) (sym known))))
  ]
]

module _ (crc4 : Bytes → Bytes) (four : (bytes : Bytes) → length (crc4 bytes) ≡ 4) where
  length-le-entries :
      (es : List Entry) → All IsEntry es → length es ≤ length (encode_entries crc4 es)
  unfolding encode_entries
  length-le-entries [] h = omega arith
  length-le-entries (e ∷ es) (h, hs) = omega (
    arith,
    length-le-entries es hs,
    length-append (encode_entry crc4 e) (encode_entries crc4 es),
    length-encode_entry crc4 four e h,
  )

  result-eq : {o : Once} {n n' : ℕ} → n ≡ n' → ◌≡◌ {A = Once × ℕ} (o, n) (o, n')
  result-eq h = cc

  replay_loop-entries :
      (fuel : ℕ) (buf tail : Bytes) (pos : ℕ) (o : Once) (n : ℕ) (es : List Entry)
      → All IsEntry es
      → StandsAt buf pos (encode_entries crc4 es ++ tail)
      → parse_entry crc4 buf (pos + length (encode_entries crc4 es)) ≡ none
      → length es ≤ fuel
      → replay_loop crc4 fuel buf pos o n ≡ (apply_all o es, n + length es)
  unfolding replay_loop encode_entries apply_all
  replay_loop-entries zero buf tail pos o n [] hs s p f = result-eq (omega arith)
  replay_loop-entries zero buf tail pos o n (e ∷ es) hs s p f = absurd (omega (arith, f))
  replay_loop-entries (suc fuel) buf tail pos o n [] hs s p f =
      rw
        (
          replay_loop,
          subst (λ k. parse_entry crc4 buf k ≡ none) {x = pos + 0} {y = pos} (omega arith) p,
        )
        (result-eq (omega arith))
  replay_loop-entries (suc fuel) buf tail pos o n (e ∷ es) (h, hs) s p f =
      let b = encode_entry crc4 e in
      let more = encode_entries crc4 es in
      let s1 : StandsAt buf pos (b ++ (more ++ tail)) =
        subst (StandsAt buf pos) (append_assoc b more tail) s in
      rw (replay_loop, parse_entry-at crc4 four buf pos e (more ++ tail) h s1)
        (replay_loop-entries fuel buf tail (pos + length b) (apply o e) (n + 1) es hs
            (StandsAt-next buf pos b (more ++ tail) s1)
            (subst (λ k. parse_entry crc4 buf k ≡ none) {y = pos + length b + length more}
              (omega (arith, length-append b more)) p)
            (omega (arith, f))
          ∙ result-eq (omega arith))

  -- the state that an intact log gives, with a torn record behind it
  pub file_open-entries :
      (seed : Bytes) (es : List Entry) (e : Entry) (k : ℕ)
      → All IsEntry es
      → IsEntry e
      → k < length (encode_entry crc4 e)
      → length (encode_entries crc4 es ++ take k (encode_entry crc4 e)) < 2 ^ 64
      → replay crc4 (encode_entries crc4 es ++ take k (encode_entry crc4 e)) (new seed)
        ≡ (apply_all (new seed) es, length es)
  unfolding replay
  file_open-entries seed es e k hs h l fits =
      let tail = take k (encode_entry crc4 e) in
      let buf = encode_entries crc4 es ++ tail in
      let s : StandsAt buf 0 (encode_entries crc4 es ++ tail) = record {
        input_left = refl;
        within = omega arith;
        addressable = fits;
      } in
      replay_loop-entries (length buf) buf tail 0 (new seed) 0 es hs s
        (parse_entry-torn crc4 four buf (0 + length (encode_entries crc4 es)) e k h l
          (StandsAt-next buf 0 (encode_entries crc4 es) tail s))
        (omega (arith, length-le-entries es hs, length-append (encode_entries crc4 es) tail))
      ∙ result-eq (omega arith)
