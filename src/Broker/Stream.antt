-- ===== src/Broker/Stream.antt =====
-- Frames on a stream, crates/datarail-broker/src/lib.rs: `read_frame`, the next request of a connection,
-- and a client that reads the replies. A stream is the bytes that are left of it.
use hu_gr_datarail.Prelude.{
  ℕ, zero, suc, ◌+◌, ◌^◌, ◌≤◌, ◌≡◌, refl, ap, ◌∙◌, subst, Bool, Option, none, some, List, [], ◌∷◌,
  ◌++◌, Bytes, length, length-append, append_assoc, if◌then◌else◌, ltb, arith, ◌>>=◌, All, take,
  drop, take-length-append, drop-length-append,
}
use hu_gr_datarail.Prelude.Words.{
  le_bytes, le_value, length-le_bytes, le_value-le_bytes_4, take-le_bytes_4, crc32,
}
use hu_gr_datarail.Broker.{
  Request, Response, frame, len_field, request_body, encode_request, response_body, encode_response,
  decode_request, decode_response,
}
use hu_gr_datarail.Broker.Messages.{
  IsRequest, IsResponse, decode_request-encode_request, decode_response-encode_response,
}

pub data FrameRead : Type 0 where
  closed failed : FrameRead
  whole : Bytes → Bytes → FrameRead

unfoldable pub read_frame : Bytes → FrameRead
read_frame [] = closed
read_frame (b ∷ stream) =
    let body_len = le_value (take 4 (b ∷ stream)) in
    if ltb (length (b ∷ stream)) 4
    then failed
    else if ltb (2 ^ 26) body_len
    then failed
    else if ltb (length (b ∷ stream)) (8 + body_len)
    then failed
    else whole (take (8 + body_len) (b ∷ stream)) (drop (8 + body_len) (b ∷ stream))

read_frame-whole :
    (stream : Bytes) (n : ℕ)
    → le_value (take 4 stream) ≡ n
    → n ≤ 2 ^ 26
    → 8 + n ≤ length stream
    → read_frame stream ≡ whole (take (8 + n) stream) (drop (8 + n) stream)
unfolding read_frame
read_frame-whole [] n e h l = absurd (omega (arith, l))
read_frame-whole (b ∷ stream) n e h l = rw e (ground (arith, h, l))

length-frame : (body : Bytes) → length (frame body) ≡ 8 + length body
unfolding frame
length-frame body =
    let l = le_bytes 4 (len_field (length body)) in
    omega (
      arith,
      length-append (l ++ body) (le_bytes 4 (crc32 (l ++ body))),
      length-append l body,
      length-le_bytes 4 (len_field (length body)),
      length-le_bytes 4 (crc32 (l ++ body)),
    )

take-frame :
    (body rest : Bytes) → take 4 (frame body ++ rest) ≡ le_bytes 4 (len_field (length body))
unfolding frame
take-frame body rest =
    let l = le_bytes 4 (len_field (length body)) in
    let c = le_bytes 4 (crc32 (l ++ body)) in
    ap (take 4) (append_assoc (l ++ body) c rest ∙ append_assoc l body (c ++ rest))
    ∙ take-le_bytes_4 (len_field (length body)) (body ++ (c ++ rest))

-- A frame of an acceptable body is read whole, and what follows is left.
pub read_frame-frame :
    (body rest : Bytes)
    → length body ≤ 2 ^ 26
    → read_frame (frame body ++ rest) ≡ whole (frame body) rest
read_frame-frame body rest h =
    let n = len_field (length body) in
    let small : n ≡ length body = ground (arith, h) in
    let stream = frame body ++ rest in
    let value : le_value (take 4 stream) ≡ length body =
      ap le_value (take-frame body rest)
      ∙ le_value-le_bytes_4 n (omega (arith, small, h))
      ∙ small in
    let size = length-frame body in
    read_frame-whole stream (length body) value h
      (omega (arith, size, length-append (frame body) rest))
    ∙ subst (λ k. whole (take k stream) (drop k stream) ≡ whole (frame body) rest) size
        (rw (take-length-append (frame body) rest) (rw (drop-length-append (frame body) rest) refl))

frame_of :
    (req : Request) (rest : Bytes)
    → length (request_body req) ≤ 2 ^ 26
    → read_frame (encode_request req ++ rest) ≡ whole (encode_request req) rest
unfolding encode_request
frame_of req rest h = read_frame-frame (request_body req) rest h

-- the requests that a client writes one behind the other
unfoldable pub requests_of : List Request → Bytes
requests_of [] = []
requests_of (req ∷ reqs) = encode_request req ++ requests_of reqs

unfoldable pub responses_of : List Response → Bytes
responses_of [] = []
responses_of (resp ∷ resps) = encode_response resp ++ responses_of resps

module _ (is_utf8 : Bytes → Bool) where
  -- The next request of a connection; the loop ends at the end of the stream, at a frame that cannot be
  -- read and at a malformed request.
  unfoldable pub next_request : Bytes → Option (Request × Bytes)
  next_request stream = elim (read_frame stream) [
    | closed ↦ none
    | failed ↦ none
    | whole bytes rest ↦ do req ← decode_request is_utf8 bytes; some (req, rest)
  ]

  pub record CanSend (req : Request) : Type 0 where
    pub lawful : IsRequest is_utf8 req
    pub size : length (request_body req) ≤ 2 ^ 26

  pub record CanAnswer (resp : Response) : Type 0 where
    pub lawful : IsResponse is_utf8 resp
    pub size : length (response_body resp) ≤ 2 ^ 26

  pub next_request-encode_request :
      (req : Request) (rest : Bytes)
      → CanSend req
      → next_request (encode_request req ++ rest) ≡ some (req, rest)
  unfolding next_request
  next_request-encode_request req rest c =
      rw (next_request, frame_of req rest c.size)
        (rw (decode_request-encode_request is_utf8 req c.lawful (omega (arith, c.size))) refl)

  -- The replies as `Client::round_trip` reads them, one after the other.
  unfoldable pub read_responses : ℕ → Bytes → Option (List Response)
  read_responses zero stream = some []
  read_responses (suc n) stream = elim (read_frame stream) [
    | closed ↦ none
    | failed ↦ none
    | whole bytes rest ↦ do
      resp ← decode_response is_utf8 bytes
      resps ← read_responses n rest
      some (resp ∷ resps)
  ]

  pub read_responses-responses_of :
      (resps : List Response)
      → All CanAnswer resps
      → read_responses (length resps) (responses_of resps) ≡ some resps
  unfolding read_responses responses_of encode_response
  read_responses-responses_of [] c = refl
  read_responses-responses_of (resp ∷ resps) (c, cs) =
      rw (read_responses, read_frame-frame (response_body resp) (responses_of resps) c.size)
        (rw (decode_response-encode_response is_utf8 resp c.lawful (omega (arith, c.size)))
          (rw (read_responses-responses_of resps cs) refl))
