-- ===== src/Broker/Wire.antt =====
-- Frames and the reader of crates/datarail-broker/src/lib.rs: what is framed is unframed, and what a
-- method of the reader reads from the bytes in front of it.
use hu_gr_datarail.Prelude.{
  ℕ, ◌+◌, ◌^◌, ◌<◌, ◌≡◌, refl, sym, ap, ◌∙◌, subst, Bool, true, false, some, [], ◌∷◌, ◌++◌, Bytes,
  length, length-append, append-nil, append_assoc, nat_eq, ltb, arith,
}
use hu_gr_datarail.Prelude.Words.{
  le_bytes, le_value, checked_add, slice, crc32, crc32-lt, length-le_bytes, le_value-le_bytes_4,
  StandsAt, StandsAt-next, slice-StandsAt, checked_add-StandsAt,
}
use hu_gr_datarail.Broker.{
  len_field, frame, unframe, put_slice, Read, read_u8, read_word, read_slice, read_string,
  read_rest,
}

-- What the slices of a frame hold decides what is unframed.
unframe-slices :
    (buf len_bytes body stored : Bytes) (crc_start frame_end : ℕ)
    → ltb (length buf) 8 ≡ false
    → slice buf 0 4 ≡ some len_bytes
    → checked_add 4 (le_value len_bytes) ≡ some crc_start
    → checked_add crc_start 4 ≡ some frame_end
    → nat_eq (length buf) frame_end ≡ true
    → slice buf 4 crc_start ≡ some body
    → slice buf crc_start frame_end ≡ some stored
    → nat_eq (le_value stored) (crc32 (len_bytes ++ body)) ≡ true
    → unframe buf ≡ some body
unfolding unframe
unframe-slices buf l body stored c e h1 h2 h3 h4 h5 h6 h7 h8 =
    rw h1 (rw h2 (rw h3 (rw h4 (rw h5 (rw h6 (rw h7 (rw h8 refl)))))))

pub unframe-frame : (body : Bytes) → length body < 2 ^ 32 → unframe (frame body) ≡ some body
unfolding frame
unframe-frame body h =
    let n = len_field (length body) in
    let l = le_bytes 4 n in
    let c = le_bytes 4 (crc32 (l ++ body)) in
    let buf = (l ++ body) ++ c in
    let small : n ≡ length body = ground (arith, h) in
    let ll = length-le_bytes 4 n in
    let lc = length-le_bytes 4 (crc32 (l ++ body)) in
    let size : length buf ≡ 8 + length body =
      omega (arith, length-append (l ++ body) c, length-append l body, ll, lc) in
    let value : le_value l ≡ length body =
      le_value-le_bytes_4 n (omega (arith, small, h)) ∙ small in
    let s : StandsAt buf 0 (l ++ (body ++ (c ++ []))) = record {
      input_left = append_assoc l body c ∙ ap (λ c. l ++ (body ++ c)) (sym (append-nil c));
      within = omega arith;
      addressable = omega (arith, size, h);
    } in
    let s1 : StandsAt buf 4 (body ++ (c ++ [])) =
      subst (λ k. StandsAt buf k (body ++ (c ++ []))) {y = 4} (omega (arith, ll))
        (StandsAt-next buf 0 l _ s) in
    let s2 = StandsAt-next buf 4 body _ s1 in
    unframe-slices buf l body c (4 + length body) (4 + length body + 4) (ground (arith, size))
      (subst (λ k. slice buf 0 k ≡ some l) {y = 4} (omega (arith, ll)) (slice-StandsAt buf 0 l _ s))
      (rw value (checked_add-StandsAt buf 4 body _ s1))
      (subst (λ k. checked_add (4 + length body) k ≡ some (4 + length body + k)) lc
        (checked_add-StandsAt buf (4 + length body) c _ s2))
      (ground (arith, size)) (slice-StandsAt buf 4 body _ s1)
      (subst (λ k. slice buf (4 + length body) (4 + length body + k) ≡ some c) lc
        (slice-StandsAt buf (4 + length body) c _ s2))
      (ground (arith, le_value-le_bytes_4 (crc32 (l ++ body)) (crc32-lt (l ++ body))))

-- In front of `bs` the method gives `a` and the position behind them, whatever follows.
abbrev pub Reads {ℓ} : {A : Type ℓ} → Read A → A → Bytes → Type ℓ
Reads m a bs =
    (buf : Bytes) (pos : ℕ) (rest : Bytes)
    → StandsAt buf pos (bs ++ rest)
    → m buf pos ≡ some (a, pos + length bs)

pub read_word-Reads :
    (width v : ℕ) → le_value (le_bytes width v) ≡ v → Reads (read_word width) v (le_bytes width v)
unfolding read_word
read_word-Reads width v h buf pos rest s =
    let b = le_bytes width v in
    let lb = length-le_bytes width v in
    rw
      (subst (λ k. checked_add pos k ≡ some (pos + length b)) lb
        (checked_add-StandsAt buf pos b rest s))
      (rw (slice-StandsAt buf pos b rest s) (ap (λ v. some (v, pos + length b)) h))

pub read_slice-Reads : (s : Bytes) → length s < 2 ^ 32 → Reads read_slice s (put_slice s)
unfolding read_slice put_slice
read_slice-Reads text h buf pos rest s =
    let n = len_field (length text) in
    let l = le_bytes 4 n in
    let small : n ≡ length text = ground (arith, h) in
    let value = le_value-le_bytes_4 n (omega (arith, small, h)) in
    let s0 : StandsAt buf pos (l ++ (text ++ rest)) =
      subst (StandsAt buf pos) (append_assoc l text rest) s in
    let s1 = StandsAt-next buf pos l (text ++ rest) s0 in
    rw (read_word-Reads 4 n value buf pos (text ++ rest) s0) (
      rw
        (subst (λ k. checked_add (pos + length l) k ≡ some (pos + length l + length text))
          (sym small) (checked_add-StandsAt buf (pos + length l) text rest s1))
        (rw (slice-StandsAt buf (pos + length l) text rest s1)
          (ap (λ k. some (text, k)) (omega (arith, length-append l text)))))

pub read_string-Reads :
    (is_utf8 : Bytes → Bool) (s : Bytes)
    → is_utf8 s ≡ true
    → length s < 2 ^ 32
    → Reads (read_string is_utf8) s (put_slice s)
unfolding read_string
read_string-Reads is_utf8 text h k buf pos rest s =
    rw (read_slice-Reads text k buf pos rest s) (rw h refl)

pub read_rest-StandsAt :
    (buf : Bytes) (pos : ℕ) (rest : Bytes) → StandsAt buf pos rest → read_rest buf pos ≡ rest
read_rest-StandsAt buf pos rest s = s.input_left

pub read_u8-at :
    (buf : Bytes) (pos b : ℕ) (rest : Bytes)
    → StandsAt buf pos (b ∷ rest)
    → read_u8 buf pos ≡ some (b, pos + 1)
unfolding read_u8
read_u8-at buf pos b rest s = rw s.input_left refl
