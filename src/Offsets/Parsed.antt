-- ===== src/Offsets/Parsed.antt =====
-- What it means that `parse_record` of crates/datarail-offsets/src/lib.rs finds a record.
use hu_gr_datarail.Prelude.{
  ℕ, ◌+◌, ◌≤◌, ◌≡◌, refl, ◌∙◌, subst, Bool, true, some, Bytes, length, take, drop, arith, bind-some,
  nat_eq_iff, take-drop-take, length-take,
}
use hu_gr_datarail.Prelude.Words.{le_value, checked_add, slice, crc32, checked_add-some, slice-some}
use hu_gr_datarail.Offsets.{parse_record, checked_record}
use hu_gr_datarail.Offsets.Record.{parse_record-slices}

module _ (is_utf8 : Bytes → Bool) where
  pub record Parsed (buf : Bytes) (pos : ℕ) (group : Bytes) (offset : ℕ) (next : ℕ) : Type 0 where
    pub len_bytes : Bytes
    pub name : Bytes
    pub offset_bytes : Bytes
    pub crc_bytes : Bytes
    pub body : Bytes
    pub len_end : ℕ
    pub group_end : ℕ
    pub offset_end : ℕ
    pub len_added : checked_add pos 4 ≡ some len_end
    pub len_read : slice buf pos len_end ≡ some len_bytes
    pub group_added : checked_add len_end (le_value len_bytes) ≡ some group_end
    pub group_read : slice buf len_end group_end ≡ some name
    pub offset_added : checked_add group_end 8 ≡ some offset_end
    pub offset_read : slice buf group_end offset_end ≡ some offset_bytes
    pub crc_added : checked_add offset_end 4 ≡ some next
    pub crc_read : slice buf offset_end next ≡ some crc_bytes
    pub body_read : slice buf pos offset_end ≡ some body
    pub intact : crc32 body ≡ le_value crc_bytes
    pub text : is_utf8 name ≡ true
    pub group_is : name ≡ group
    pub offset_is : le_value offset_bytes ≡ offset

  checked_record-some :
      (intact : Bool) (group g : Bytes) (offset o next n : ℕ)
      → checked_record is_utf8 intact group offset next ≡ some (g, o, n)
      → (intact ≡ true) × (is_utf8 group ≡ true) × (group ≡ g) × (offset ≡ o) × (next ≡ n)
  unfolding checked_record
  checked_record-some intact group g offset o next n h = ground (arith, h)

  pub parse_record-Parsed :
      (buf : Bytes) (pos : ℕ) (group : Bytes) (offset next : ℕ)
      → parse_record is_utf8 buf pos ≡ some (group, offset, next)
      → Parsed buf pos group offset next
  unfolding parse_record
  parse_record-Parsed buf pos group offset next h =
      let (len_end, h1, k1) = bind-some (checked_add pos 4) _ _ h in
      let (len_bytes, h2, k2) = bind-some (slice buf pos len_end) _ _ k1 in
      let (group_end, h3, k3) = bind-some (checked_add len_end (le_value len_bytes)) _ _ k2 in
      let (name, h4, k4) = bind-some (slice buf len_end group_end) _ _ k3 in
      let (offset_end, h5, k5) = bind-some (checked_add group_end 8) _ _ k4 in
      let (offset_bytes, h6, k6) = bind-some (slice buf group_end offset_end) _ _ k5 in
      let (crc_end, h7, k7) = bind-some (checked_add offset_end 4) _ _ k6 in
      let (crc_bytes, h8, k8) = bind-some (slice buf offset_end crc_end) _ _ k7 in
      let (body, h9, k9) = bind-some (slice buf pos offset_end) _ _ k8 in
      let (h10, h11, h12, h13, h14) = checked_record-some _ _ _ _ _ _ _ k9 in
      record {
        len_bytes = len_bytes;
        name = name;
        offset_bytes = offset_bytes;
        crc_bytes = crc_bytes;
        body = body;
        len_end = len_end;
        group_end = group_end;
        offset_end = offset_end;
        len_added = h1;
        len_read = h2;
        group_added = h3;
        group_read = h4;
        offset_added = h5;
        offset_read = h6;
        crc_added = subst (λ n. checked_add offset_end 4 ≡ some n) h14 h7;
        crc_read = subst (λ n. slice buf offset_end n ≡ some crc_bytes) h14 h8;
        body_read = h9;
        intact = (nat_eq_iff (crc32 body) (le_value crc_bytes)).0 h10;
        text = h11;
        group_is = h12;
        offset_is = h13;
      }

  -- The record that is found ends within the buffer, where its length field says.
  pub Parsed-bounds :
      {buf : Bytes} {pos : ℕ} {group : Bytes} {offset next : ℕ}
      (p : Parsed buf pos group offset next)
      → (next ≡ pos + 16 + le_value p.len_bytes)
        × (next ≤ length buf)
        × (p.len_bytes ≡ take 4 (drop pos buf))
  Parsed-bounds {buf = buf} {pos = pos} {next = next} p =
      let h1 = checked_add-some _ _ _ p.len_added in
      let (l, m, n) = slice-some _ _ _ _ p.len_read in
      let (i, j, k) = slice-some _ _ _ _ p.crc_read in
      (
        omega (
          arith,
          h1,
          checked_add-some _ _ _ p.group_added,
          checked_add-some _ _ _ p.offset_added,
          checked_add-some _ _ _ p.crc_added,
        ),
        j,
        subst (λ k. p.len_bytes ≡ take k (drop pos buf)) {y = 4} (omega (arith, h1)) n,
      )

  -- A slice of a buffer is a slice of the buffer cut behind it.
  slice-take :
      (buf bs : Bytes) (from to n : ℕ)
      → to ≤ n
      → slice buf from to ≡ some bs
      → slice (take n buf) from to ≡ some bs
  unfolding slice
  slice-take buf bs from to n h e =
      ground (arith, h, e, take-drop-take from to n buf h, length-take n buf)

  pub parse_record-take :
      (buf : Bytes) (pos n : ℕ) (group : Bytes) (offset next : ℕ)
      → next ≤ n
      → parse_record is_utf8 buf pos ≡ some (group, offset, next)
      → parse_record is_utf8 (take n buf) pos ≡ some (group, offset, next)
  parse_record-take buf pos n group offset next h e =
      let p = parse_record-Parsed buf pos group offset next e in
      let h7 = checked_add-some _ _ _ p.crc_added in
      let h5 = checked_add-some _ _ _ p.offset_added in
      let h3 = checked_add-some _ _ _ p.group_added in
      parse_record-slices is_utf8 (take n buf) pos p.len_end p.group_end p.offset_end next
        p.len_bytes p.name p.offset_bytes p.crc_bytes p.body p.len_added
        (slice-take _ _ _ _ n (omega (arith, h, h3, h5, h7)) p.len_read) p.group_added
        (slice-take _ _ _ _ n (omega (arith, h, h5, h7)) p.group_read) p.offset_added
        (slice-take _ _ _ _ n (omega (arith, h, h7)) p.offset_read) p.crc_added
        (slice-take _ _ _ _ n h p.crc_read)
        (slice-take _ _ _ _ n (omega (arith, h, h7)) p.body_read) p.intact p.text
      ∙ rw p.group_is (rw p.offset_is refl)
