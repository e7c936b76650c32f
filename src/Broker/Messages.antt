-- ===== src/Broker/Messages.antt =====
-- Requests and responses of crates/datarail-broker/src/lib.rs: what is encoded is decoded.
use hu_gr_datarail.Prelude.{
  ℕ, ◌+◌, ◌^◌, ◌<◌, ◌≡◌, refl, sym, ap, subst, Bool, true, some, [], ◌∷◌, ◌++◌, Bytes, length,
  length-append, append-nil, arith,
}
use hu_gr_datarail.Prelude.Words.{
  le_bytes, length-le_bytes, le_value-le_bytes_8, StandsAt, StandsAt-next,
}
use hu_gr_datarail.Broker.{
  Request, produce, poll, commit, Response, produced, some_record, no_record, committed, error,
  put_slice, len_field, read_u8, when_done, request_body, encode_request, response_body,
  encode_response, read_produce, read_poll, read_commit, request_of, decode_request, read_produced,
  read_record, read_error, response_of, decode_response,
}
use hu_gr_datarail.Broker.Wire.{unframe-frame, read_word-Reads, read_slice-Reads, read_string-Reads}

pub length-put_slice : (s : Bytes) → length (put_slice s) ≡ 4 + length s
unfolding put_slice
length-put_slice s = omega (
  arith,
  length-append (le_bytes 4 (len_field (length s))) s,
  length-le_bytes 4 (len_field (length s)),
)

-- behind the tag of a body
tag-StandsAt : (tag : ℕ) (bs : Bytes) → length (tag ∷ bs) < 2 ^ 32 → StandsAt (tag ∷ bs) 1 bs
tag-StandsAt tag bs h = record {
  input_left = refl;
  within = omega arith;
  addressable = omega (arith, h);
}

done-at {ℓ} :
    {A : Type ℓ} (buf : Bytes) (pos : ℕ) (a : A) → pos ≡ length buf → when_done buf pos a ≡ some a
done-at buf pos a h = ground (arith, h)

module _ (is_utf8 : Bytes → Bool) where
  -- the strings of a request are text and its offset is a word
  abbrev pub IsRequest : Request → Type 0
  IsRequest (produce key payload) = Unit
  IsRequest (poll group) = is_utf8 group ≡ true
  IsRequest (commit group offset) = (is_utf8 group ≡ true) × (offset < 2 ^ 64)

  abbrev pub IsResponse : Response → Type 0
  IsResponse (produced offset) = offset < 2 ^ 64
  IsResponse (some_record offset key payload) = offset < 2 ^ 64
  IsResponse no_record = Unit
  IsResponse committed = Unit
  IsResponse (error msg) = is_utf8 msg ≡ true

  -- A request comes back from its frame, if the body is shorter than 2 ^ 32 bytes, its group is text and
  -- its offset is below 2 ^ 64.
  pub decode_request-encode_request :
      (req : Request)
      → IsRequest req
      → length (request_body req) < 2 ^ 32
      → decode_request is_utf8 (encode_request req) ≡ some req
  unfolding decode_request encode_request request_body read_u8 request_of read_produce read_poll
      read_commit
  decode_request-encode_request (produce key payload) g h =
      let bs = put_slice key ++ payload in
      let body = 0x01 ∷ bs in
      let s = tag-StandsAt 0x01 bs h in
      let short : length key < 2 ^ 32 =
        omega (arith, h, length-append (put_slice key) payload, length-put_slice key) in
      rw (unframe-frame body h) (
        rw (read_slice-Reads key short body 1 payload s) (
          ap (λ p. some (produce key p))
            ((StandsAt-next body 1 (put_slice key) payload s).input_left)))
  decode_request-encode_request (poll group) g h =
      let bs = put_slice group in
      let body = 0x02 ∷ bs in
      let s : StandsAt body 1 (bs ++ []) =
        subst (StandsAt body 1) (sym (append-nil bs)) (tag-StandsAt 0x02 bs h) in
      rw (unframe-frame body h) (
        rw
          (read_string-Reads is_utf8 group g (omega (arith, h, length-put_slice group)) body 1 [] s)
          (done-at body (1 + length bs) (poll group) (omega arith)))
  decode_request-encode_request (commit group offset) (g, w) h =
      let bs = put_slice group ++ le_bytes 8 offset in
      let body = 0x03 ∷ bs in
      let s = tag-StandsAt 0x03 bs h in
      let short : length group < 2 ^ 32 =
        omega
          (arith, h, length-append (put_slice group) (le_bytes 8 offset), length-put_slice group) in
      let next = 1 + length (put_slice group) in
      let s1 : StandsAt body next (le_bytes 8 offset ++ []) =
        subst (StandsAt body next) (sym (append-nil (le_bytes 8 offset)))
          (StandsAt-next body 1 (put_slice group) (le_bytes 8 offset) s) in
      rw (unframe-frame body h) (
        rw (read_string-Reads is_utf8 group g short body 1 (le_bytes 8 offset) s) (
          rw (read_word-Reads 8 offset (le_value-le_bytes_8 offset w) body next [] s1) (
            done-at body (next + length (le_bytes 8 offset)) (commit group offset)
              (omega (arith, length-append (put_slice group) (le_bytes 8 offset))))))

  -- A response comes back from its frame, if the body is shorter than 2 ^ 32 bytes, its message is text
  -- and its offset is below 2 ^ 64.
  pub decode_response-encode_response :
      (resp : Response)
      → IsResponse resp
      → length (response_body resp) < 2 ^ 32
      → decode_response is_utf8 (encode_response resp) ≡ some resp
  unfolding decode_response encode_response response_body read_u8 response_of read_produced
      read_record read_error
  decode_response-encode_response (produced offset) w h =
      let bs = le_bytes 8 offset in
      let body = 0x10 ∷ bs in
      let s : StandsAt body 1 (bs ++ []) =
        subst (StandsAt body 1) (sym (append-nil bs)) (tag-StandsAt 0x10 bs h) in
      rw (unframe-frame body h) (
        rw (read_word-Reads 8 offset (le_value-le_bytes_8 offset w) body 1 [] s)
          (done-at body (1 + length bs) (produced offset) (omega arith)))
  decode_response-encode_response (some_record offset key payload) w h =
      let tail = put_slice key ++ payload in
      let bs = le_bytes 8 offset ++ tail in
      let body = 0x11 ∷ bs in
      let s = tag-StandsAt 0x11 bs h in
      let next = 1 + length (le_bytes 8 offset) in
      let s1 = StandsAt-next body 1 (le_bytes 8 offset) tail s in
      let short : length key < 2 ^ 32 = omega (
        arith,
        h,
        length-append (le_bytes 8 offset) tail,
        length-append (put_slice key) payload,
        length-put_slice key,
      ) in
      rw (unframe-frame body h) (
        rw (read_word-Reads 8 offset (le_value-le_bytes_8 offset w) body 1 tail s) (
          rw (read_slice-Reads key short body next payload s1) (
            ap (λ p. some (some_record offset key p))
              ((StandsAt-next body next (put_slice key) payload s1).input_left))))
  decode_response-encode_response no_record w h = rw (unframe-frame (0x12 ∷ []) h) refl
  decode_response-encode_response committed w h = rw (unframe-frame (0x13 ∷ []) h) refl
  decode_response-encode_response (error msg) g h =
      let bs = put_slice msg in
      let body = 0x14 ∷ bs in
      let s : StandsAt body 1 (bs ++ []) =
        subst (StandsAt body 1) (sym (append-nil bs)) (tag-StandsAt 0x14 bs h) in
      rw (unframe-frame body h) (
        rw (read_string-Reads is_utf8 msg g (omega (arith, h, length-put_slice msg)) body 1 [] s)
          (done-at body (1 + length bs) (error msg) (omega arith)))
