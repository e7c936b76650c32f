-- ===== src/Once/Persist/Frames.antt =====
-- Records of the log of crates/datarail-once/src/persist.rs: what is encoded is parsed, and what is cut is
-- not found.
use hu_gr_datarail.Prelude.{
  ℕ, zero, suc, ◌+◌, ◌^◌, ◌≤◌, ◌<◌, ◌≡◌, refl, sym, ap, ◌∙◌, subst, inl, inr, true, Option, none,
  some, [], ◌∷◌, ◌++◌, append_assoc, append-nil, Bytes, bytes_eq, bytes_eq_iff, length, take, drop,
  length-append, length-take, length-drop, Option-cases, arith, bind-some, if◌then◌else◌,
}
use hu_gr_datarail.Prelude.Words.{
  le_bytes, checked_add, slice, length-le_bytes, le_value-le_bytes_8, StandsAt, StandsAt-next,
  slice-StandsAt, checked_add-StandsAt, checked_add-some, slice-some,
}
use hu_gr_datarail.Once.Persist.{
  Entry, delivered_entry, checkpoint_entry, delivered_body, checkpoint_body, body_len, tag_at,
  delivered_of, entry_of, encode, encode_entry, parse_entry,
}

-- the ids are of their sizes, and the number is a u64
abbrev pub IsEntry : Entry → Type 0
IsEntry (delivered_entry stream seq key) = (length stream ≡ 16) × (length key ≡ 32) × (seq < 2 ^ 64)
IsEntry (checkpoint_entry stream watermark) = (length stream ≡ 16) × (watermark < 2 ^ 64)

abbrev pub tag_of : Entry → ℕ
tag_of (delivered_entry stream seq key) = 68
tag_of (checkpoint_entry stream watermark) = 87

unfoldable pub body_of : Entry → Bytes
body_of (delivered_entry stream seq key) = delivered_body stream seq key
body_of (checkpoint_entry stream watermark) = checkpoint_body stream watermark

abbrev pub size_of : Entry → ℕ
size_of (delivered_entry stream seq key) = 56
size_of (checkpoint_entry stream watermark) = 24

length-body_of : (e : Entry) → IsEntry e → length (body_of e) ≡ size_of e
unfolding body_of delivered_body checkpoint_body
length-body_of (delivered_entry stream seq key) (a, b, c) = omega (
  arith,
  a,
  b,
  length-append stream (le_bytes 8 seq ++ key),
  length-append (le_bytes 8 seq) key,
  length-le_bytes 8 seq,
)
length-body_of (checkpoint_entry stream watermark) (a, b) =
    omega (arith, a, length-append stream (le_bytes 8 watermark), length-le_bytes 8 watermark)

-- a slice of a list of three parts
slice-part :
    (xs ys zs : Bytes) (n k : ℕ)
    → length (xs ++ (ys ++ zs)) < 2 ^ 64
    → length xs ≡ n
    → n + length ys ≡ k
    → slice (xs ++ (ys ++ zs)) n k ≡ some ys
slice-part xs ys zs n k h a b =
    let s : StandsAt (xs ++ (ys ++ zs)) 0 (xs ++ (ys ++ zs)) = record {
      input_left = refl;
      within = omega arith;
      addressable = h;
    } in
    let t = StandsAt-next (xs ++ (ys ++ zs)) 0 xs (ys ++ zs) s in
    subst (λ i. slice (xs ++ (ys ++ zs)) i k ≡ some ys) {x = 0 + length xs} {y = n}
      (omega (arith, a))
      (subst (λ i. slice (xs ++ (ys ++ zs)) (0 + length xs) i ≡ some ys) (omega (arith, a, b))
        (slice-StandsAt (xs ++ (ys ++ zs)) (0 + length xs) ys zs t))

entry_of-body_of : (e : Entry) → IsEntry e → entry_of (tag_of e) (body_of e) ≡ some e
unfolding entry_of body_of delivered_body checkpoint_body delivered_of
entry_of-body_of (delivered_entry stream seq key) (a, b, c) =
    let w = le_bytes 8 seq in
    let lw = length-le_bytes 8 seq in
    let size : length (stream ++ (w ++ key)) ≡ 56 =
      omega (arith, a, b, lw, length-append stream (w ++ key), length-append w key) in
    rw (slice-part [] stream (w ++ key) 0 16 (omega (arith, size)) refl (omega (arith, a))) (
      rw (slice-part stream w key 16 24 (omega (arith, size)) a (omega (arith, lw))) (
        rw
          (subst (λ x. slice x 24 56 ≡ some key)
            (append_assoc stream w (key ++ []) ∙ ap (λ k. stream ++ (w ++ k)) (append-nil key))
            (slice-part (stream ++ w) key [] 24 56
              (omega (
                arith,
                size,
                length-append (stream ++ w) (key ++ []),
                length-append stream w,
                length-append stream (w ++ key),
                length-append w key,
                ap length (append-nil key),
              ))
              (omega (arith, a, lw, length-append stream w)) (omega (arith, b))))
          (rw (le_value-le_bytes_8 seq c) refl)))
entry_of-body_of (checkpoint_entry stream watermark) (a, b) =
    let w = le_bytes 8 watermark in
    let lw = length-le_bytes 8 watermark in
    let size : length (stream ++ w) ≡ 24 = omega (arith, a, lw, length-append stream w) in
    rw (slice-part [] stream w 0 16 (omega (arith, size)) refl (omega (arith, a))) (
      rw
        (subst (λ x. slice x 16 24 ≡ some w) (ap (λ k. stream ++ k) (append-nil w))
          (slice-part stream w [] 16 24
            (omega (
              arith,
              size,
              length-append stream (w ++ []),
              length-append stream w,
              ap length (append-nil w),
            ))
            a (omega (arith, lw))))
        (rw (le_value-le_bytes_8 watermark b) refl))

some-eq : {a b : ℕ} → some a ≡ some b → a ≡ b
some-eq h = cc

end-eq :
    {e e' : Entry} {a b : ℕ} → ◌≡◌ {A = Option (Entry × ℕ)} (some (e, a)) (some (e', b)) → a ≡ b
end-eq h = cc

module _ (crc4 : Bytes → Bytes) where
  -- What the slices of a record hold decides what is parsed.
  parse_entry-slices :
      (buf : Bytes) (pos tag size body_start crc_start rec_end : ℕ) (framed stored body : Bytes)
      (e : Entry)
      → tag_at (drop pos buf) ≡ some tag
      → body_len tag ≡ some size
      → checked_add pos 1 ≡ some body_start
      → checked_add body_start size ≡ some crc_start
      → checked_add crc_start 4 ≡ some rec_end
      → slice buf pos crc_start ≡ some framed
      → slice buf crc_start rec_end ≡ some stored
      → bytes_eq stored (crc4 framed) ≡ true
      → slice buf body_start crc_start ≡ some body
      → entry_of tag body ≡ some e
      → parse_entry crc4 buf pos ≡ some (e, rec_end)
  unfolding parse_entry
  parse_entry-slices buf pos tag size bs cs re framed stored body e h1 h2 h3 h4 h5 h6 h7 h8 h9 h10 =
      rw h1 (rw h2 (rw h3 (rw h4 (rw h5 (rw h6 (rw h7 (rw h8 (rw h9 (rw h10 refl)))))))))

  module _ (four : (bytes : Bytes) → length (crc4 bytes) ≡ 4) where
    parse_entry-parts :
        (buf : Bytes) (pos tag size : ℕ) (body rest : Bytes) (e : Entry)
        → StandsAt buf pos ((tag ∷ body) ++ (crc4 (tag ∷ body) ++ rest))
        → body_len tag ≡ some size
        → length body ≡ size
        → entry_of tag body ≡ some e
        → parse_entry crc4 buf pos ≡ some (e, pos + (5 + size))
    parse_entry-parts buf pos tag size body rest e s h l en =
        let c = crc4 (tag ∷ body) in
        let s1 : StandsAt buf (pos + 1) (body ++ (c ++ rest)) =
          StandsAt-next buf pos (tag ∷ []) (body ++ (c ++ rest)) s in
        let s2 : StandsAt buf (pos + 1 + size) (c ++ rest) =
          subst (λ k. StandsAt buf (pos + 1 + k) (c ++ rest)) l
            (StandsAt-next buf (pos + 1) body (c ++ rest) s1) in
        (parse_entry-slices buf pos tag size (pos + 1) (pos + 1 + size) (pos + 1 + size + 4)
          (tag ∷ body) c body e (ap tag_at s.input_left) h
          (checked_add-StandsAt buf pos (tag ∷ []) (body ++ (c ++ rest)) s)
          (subst (λ k. checked_add (pos + 1) k ≡ some (pos + 1 + k)) l
            (checked_add-StandsAt buf (pos + 1) body (c ++ rest) s1))
          (subst (λ k. checked_add (pos + 1 + size) k ≡ some (pos + 1 + size + k))
            (four (tag ∷ body)) (checked_add-StandsAt buf (pos + 1 + size) c rest s2))
          (subst (λ k. slice buf pos k ≡ some (tag ∷ body)) {y = pos + 1 + size} (omega (arith, l))
            (slice-StandsAt buf pos (tag ∷ body) (c ++ rest) s))
          (subst (λ k. slice buf (pos + 1 + size) (pos + 1 + size + k) ≡ some c) (four (tag ∷ body))
            (slice-StandsAt buf (pos + 1 + size) c rest s2))
          ((bytes_eq_iff c c).1 refl)
          (subst (λ k. slice buf (pos + 1) (pos + 1 + k) ≡ some body) l
            (slice-StandsAt buf (pos + 1) body (c ++ rest) s1))
          en)
        ∙ ap (λ n. some (e, n)) (omega arith)

    encode_entry-split :
        (e : Entry) (rest : Bytes)
        → encode_entry crc4 e ++ rest
          ≡ (tag_of e ∷ body_of e) ++ (crc4 (tag_of e ∷ body_of e) ++ rest)
    unfolding encode_entry encode body_of
    encode_entry-split (delivered_entry stream seq key) rest =
        append_assoc (68 ∷ delivered_body stream seq key) _ rest
    encode_entry-split (checkpoint_entry stream watermark) rest =
        append_assoc (87 ∷ checkpoint_body stream watermark) _ rest

    body_len-tag_of : (e : Entry) → body_len (tag_of e) ≡ some (size_of e)
    body_len-tag_of (delivered_entry stream seq key) = refl
    body_len-tag_of (checkpoint_entry stream watermark) = refl

    pub length-encode_entry : (e : Entry) → IsEntry e → length (encode_entry crc4 e) ≡ 5 + size_of e
    length-encode_entry e h =
        let b = tag_of e ∷ body_of e in
        ap length (sym (append-nil (encode_entry crc4 e)) ∙ encode_entry-split e [])
        ∙ omega (
          arith,
          length-append b (crc4 b ++ []),
          length-append (crc4 b) [],
          four b,
          length-body_of e h,
        )

    pub parse_entry-at :
        (buf : Bytes) (pos : ℕ) (e : Entry) (rest : Bytes)
        → IsEntry e
        → StandsAt buf pos (encode_entry crc4 e ++ rest)
        → parse_entry crc4 buf pos ≡ some (e, pos + length (encode_entry crc4 e))
    parse_entry-at buf pos e rest h s =
        parse_entry-parts buf pos (tag_of e) (size_of e) (body_of e) rest e
          (subst (StandsAt buf pos) (encode_entry-split e rest) s) (body_len-tag_of e)
          (length-body_of e h) (entry_of-body_of e h)
        ∙ ap (λ n. some (e, pos + n)) (sym (length-encode_entry e h))

    -- The record that is found has the size of its tag and ends within the buffer.
    parse_entry-bounds :
        (buf : Bytes) (pos : ℕ) (e : Entry) (next : ℕ)
        → parse_entry crc4 buf pos ≡ some (e, next)
        → (tag : ℕ) × (size : ℕ) × (tag_at (drop pos buf) ≡ some tag)
          × (body_len tag ≡ some size)
          × (next ≡ pos + (5 + size))
          × (next ≤ length buf)
    unfolding parse_entry
    parse_entry-bounds buf pos e next h =
        let (tag, h1, k1) = bind-some (tag_at (drop pos buf)) _ _ h in
        let (size, h2, k2) = bind-some (body_len tag) _ _ k1 in
        let (body_start, h3, k3) = bind-some (checked_add pos 1) _ _ k2 in
        let (crc_start, h4, k4) = bind-some (checked_add body_start size) _ _ k3 in
        let (rec_end, h5, k5) = bind-some (checked_add crc_start 4) _ _ k4 in
        let (framed, h6, k6) = bind-some (slice buf pos crc_start) _ _ k5 in
        let (stored, h7, k7) = bind-some (slice buf crc_start rec_end) _ _ k6 in
        let (body, h8, k8) =
          bind-some (if bytes_eq stored (crc4 framed) then slice buf body_start crc_start else none)
            _ _ k7 in
        let (found, h9, k9) = bind-some (entry_of tag body) _ _ k8 in
        let (a, b, c) = slice-some buf crc_start rec_end stored h7 in
        let same = end-eq k9 in
        (
          tag,
          size,
          h1,
          h2,
          omega (
            arith,
            same,
            checked_add-some _ _ _ h3,
            checked_add-some _ _ _ h4,
            checked_add-some _ _ _ h5,
          ),
          omega (arith, same, b),
        )

    tag_at-take :
        (k : ℕ) (e : Entry) (tag : ℕ)
        → tag_at (take k (encode_entry crc4 e)) ≡ some tag
        → tag ≡ tag_of e
    unfolding encode_entry encode
    tag_at-take zero e tag h = cc
    tag_at-take (suc k) (delivered_entry stream seq key) tag h = ground (arith, h)
    tag_at-take (suc k) (checkpoint_entry stream watermark) tag h = ground (arith, h)

    -- A record that is cut before its end is not found.
    pub parse_entry-torn :
        (buf : Bytes) (pos : ℕ) (e : Entry) (k : ℕ)
        → IsEntry e
        → k < length (encode_entry crc4 e)
        → StandsAt buf pos (take k (encode_entry crc4 e))
        → parse_entry crc4 buf pos ≡ none
    parse_entry-torn buf pos e k h l s = elim (Option-cases (parse_entry crc4 buf pos)) [
      | inl absent ↦ absent
      | inr ((found, next), p) ↦
          let (tag, size, a, b, c, d) = parse_entry-bounds buf pos found next p in
          let same = tag_at-take k e tag (ap tag_at (sym s.input_left) ∙ a) in
          let sizes = some-eq (sym b ∙ ap body_len same ∙ body_len-tag_of e) in
          absurd (
            omega (
              arith,
              l,
              c,
              d,
              sizes,
              ap length s.input_left,
              length-drop pos buf,
              length-take k (encode_entry crc4 e),
              length-encode_entry e h,
            ))
    ]
