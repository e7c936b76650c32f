-- ===== src/Offsets/Record.antt =====
-- Records of the log of crates/datarail-offsets/src/lib.rs: `encode_record` against `parse_record`.
use hu_gr_datarail.Prelude.{
  ℕ, ◌+◌, ◌^◌, ◌<◌, ◌≡◌, sym, ap, ◌∙◌, subst, Bool, true, some, ◌++◌, append_assoc, Bytes, length,
  length-append, arith,
}
use hu_gr_datarail.Prelude.Words.{
  le_bytes, le_value, checked_add, slice, crc32, crc32-lt, le_value-le_bytes_4, le_value-le_bytes_8,
  length-le_bytes, StandsAt, StandsAt-next, slice-StandsAt, checked_add-StandsAt,
}
use hu_gr_datarail.Offsets.{header, encode_record, parse_record, checked_record}

-- a group that a record can carry, and its offset
pub record IsEntry (is_utf8 : Bytes → Bool) (group : Bytes) (offset : ℕ) : Type 0 where
  pub text : is_utf8 group ≡ true
  pub short : length group < 2 ^ 32
  pub word : offset < 2 ^ 64

unfoldable pub record_bytes : Bytes → ℕ → Bytes
record_bytes group offset = header group offset ++ le_bytes 4 (crc32 (header group offset))

pub encode_record-short :
    (group : Bytes) (offset : ℕ)
    → length group < 2 ^ 32
    → encode_record group offset ≡ some (record_bytes group offset)
unfolding encode_record record_bytes
encode_record-short group offset h = ground arith

pub length-header : (group : Bytes) (offset : ℕ) → length (header group offset) ≡ 12 + length group
unfolding header
length-header group offset = omega (
  arith,
  length-append (le_bytes 4 (length group) ++ group) (le_bytes 8 offset),
  length-append (le_bytes 4 (length group)) group,
  length-le_bytes 4 (length group),
  length-le_bytes 8 offset,
)

pub length-record_bytes :
    (group : Bytes) (offset : ℕ) → length (record_bytes group offset) ≡ 16 + length group
unfolding record_bytes
length-record_bytes group offset = omega (
  arith,
  length-append (header group offset) (le_bytes 4 (crc32 (header group offset))),
  length-header group offset,
  length-le_bytes 4 (crc32 (header group offset)),
)

module _ (is_utf8 : Bytes → Bool) where
  -- What the slices of a record hold decides what is parsed.
  pub parse_record-slices :
      (buf : Bytes) (pos len_end group_end offset_end crc_end : ℕ)
      (len_bytes group offset_bytes crc_bytes body : Bytes)
      → checked_add pos 4 ≡ some len_end
      → slice buf pos len_end ≡ some len_bytes
      → checked_add len_end (le_value len_bytes) ≡ some group_end
      → slice buf len_end group_end ≡ some group
      → checked_add group_end 8 ≡ some offset_end
      → slice buf group_end offset_end ≡ some offset_bytes
      → checked_add offset_end 4 ≡ some crc_end
      → slice buf offset_end crc_end ≡ some crc_bytes
      → slice buf pos offset_end ≡ some body
      → crc32 body ≡ le_value crc_bytes
      → is_utf8 group ≡ true
      → parse_record is_utf8 buf pos ≡ some (group, le_value offset_bytes, crc_end)
  unfolding parse_record checked_record
  parse_record-slices buf pos a b c d l g o k body h1 h2 h3 h4 h5 h6 h7 h8 h9 h10 h11 =
      rw h1 (
        rw h2
          (rw h3 (rw h4 (rw h5 (rw h6 (rw h7 (rw h8 (rw h9 (rw h10 (ground (arith, h11)))))))))))

  parse_record-parts :
      (buf : Bytes) (pos : ℕ) (l g o c rest : Bytes)
      → StandsAt buf pos (l ++ (g ++ (o ++ (c ++ rest))))
      → length l ≡ 4
      → length o ≡ 8
      → length c ≡ 4
      → le_value l ≡ length g
      → le_value c ≡ crc32 ((l ++ g) ++ o)
      → is_utf8 g ≡ true
      → parse_record is_utf8 buf pos
        ≡ some (g, le_value o, pos + length l + length g + length o + length c)
  parse_record-parts buf pos l g o c rest s hl ho hc vl vc h =
      let s1 = StandsAt-next buf pos l _ s in
      let s2 = StandsAt-next buf _ g _ s1 in
      let s3 = StandsAt-next buf _ o _ s2 in
      let whole =
        subst (λ i. StandsAt buf pos i)
          (sym (append_assoc (l ++ g) o (c ++ rest) ∙ append_assoc l g (o ++ (c ++ rest)))) s in
      let behind =
        subst (λ n. slice buf pos n ≡ some ((l ++ g) ++ o))
          (omega (arith, length-append (l ++ g) o, length-append l g))
          (slice-StandsAt buf pos ((l ++ g) ++ o) (c ++ rest) whole) in
      parse_record-slices buf pos (pos + length l) (pos + length l + length g)
        (pos + length l + length g + length o) (pos + length l + length g + length o + length c) l g
        o c ((l ++ g) ++ o)
        (subst (λ n. checked_add pos n ≡ some (pos + length l)) hl
          (checked_add-StandsAt buf pos l _ s))
        (slice-StandsAt buf pos l _ s) (rw vl (checked_add-StandsAt buf _ g _ s1))
        (slice-StandsAt buf _ g _ s1)
        (subst
          (λ n.
            checked_add (pos + length l + length g) n ≡ some (pos + length l + length g + length o))
          ho (checked_add-StandsAt buf _ o _ s2))
        (slice-StandsAt buf _ o _ s2)
        (subst
          (λ n.
            checked_add (pos + length l + length g + length o) n
            ≡ some (pos + length l + length g + length o + length c))
          hc (checked_add-StandsAt buf _ c _ s3))
        (slice-StandsAt buf _ c _ s3) behind (sym vc) h

  pub record_bytes-split :
      (group : Bytes) (offset : ℕ) (rest : Bytes)
      → record_bytes group offset ++ rest
        ≡ le_bytes 4 (length group)
          ++ (group ++ (le_bytes 8 offset ++ (le_bytes 4 (crc32 (header group offset)) ++ rest)))
  unfolding record_bytes header
  record_bytes-split group offset rest =
      let crc = le_bytes 4 (crc32 (header group offset)) in
      append_assoc (header group offset) crc rest
      ∙ append_assoc (le_bytes 4 (length group) ++ group) (le_bytes 8 offset) (crc ++ rest)
      ∙ append_assoc (le_bytes 4 (length group)) group (le_bytes 8 offset ++ (crc ++ rest))

  -- In front of a record `parse_record` gives its entry and the position behind it.
  pub parse_record-at :
      (buf : Bytes) (pos : ℕ) (group : Bytes) (offset : ℕ) (rest : Bytes)
      → IsEntry is_utf8 group offset
      → StandsAt buf pos (record_bytes group offset ++ rest)
      → parse_record is_utf8 buf pos
        ≡ some (group, offset, pos + length (record_bytes group offset))
  unfolding header
  parse_record-at buf pos group offset rest e s =
      let l = le_bytes 4 (length group) in
      let o = le_bytes 8 offset in
      let c = le_bytes 4 (crc32 (header group offset)) in
      parse_record-parts buf pos l group o c rest
        (subst (λ i. StandsAt buf pos i) (record_bytes-split group offset rest) s)
        (length-le_bytes 4 _) (length-le_bytes 8 _) (length-le_bytes 4 _)
        (le_value-le_bytes_4 (length group) e.short)
        (le_value-le_bytes_4 _ (crc32-lt (header group offset))) e.text
      ∙ ap (λ v. some (group, v, pos + length l + length group + length o + length c))
          (le_value-le_bytes_8 offset e.word)
      ∙ ap (λ n. some (group, offset, n))
          (omega (
            arith,
            length-record_bytes group offset,
            length-le_bytes 4 (length group),
            length-le_bytes 8 offset,
            length-le_bytes 4 (crc32 (header group offset)),
          ))
