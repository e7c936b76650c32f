-- ===== src/Broker.antt =====
-- The wire protocol and the server of crates/datarail-broker/src/lib.rs. A method of the reader takes the
-- body and the position, and gives a value with the next position.
use hu_gr_datarail.Prelude.{
  ℕ, ◌+◌, ◌-◌, ◌^◌, Bool, true, false, Option, none, some, List, [], ◌∷◌, ◌++◌, Bytes, length, take,
  drop, ltb, leb, nat_eq, if◌then◌else◌, ◌>>=◌,
}
use hu_gr_datarail.Prelude.Words.{le_bytes, le_value, checked_add, slice, crc32}
pub mod Wire
pub mod Messages
pub mod Stream
pub mod Serve
pub mod Server
pub mod Topics
pub mod Polls
pub mod Resume
pub mod Stores
mod Runs

pub data Request : Type 0 where
  produce : Bytes → Bytes → Request
  poll : Bytes → Request
  commit : Bytes → ℕ → Request

pub data Response : Type 0 where
  produced : ℕ → Response
  some_record : ℕ → Bytes → Bytes → Response
  no_record committed : Response
  error : Bytes → Response

-- `u32::try_from(len).unwrap_or(u32::MAX)`
abbrev pub len_field : ℕ → ℕ
len_field n = if ltb n (2 ^ 32) then n else 2 ^ 32 - 1

unfoldable pub frame : Bytes → Bytes
frame body =
    let len_bytes = le_bytes 4 (len_field (length body)) in
    (len_bytes ++ body) ++ le_bytes 4 (crc32 (len_bytes ++ body))

unfoldable pub unframe : Bytes → Option Bytes
unframe bytes = do
  len_bytes ← if ltb (length bytes) 8 then none else slice bytes 0 4
  crc_start ← checked_add 4 (le_value len_bytes)
  frame_end ← checked_add crc_start 4
  body ← if nat_eq (length bytes) frame_end then slice bytes 4 crc_start else none
  stored ← slice bytes crc_start frame_end
  if nat_eq (le_value stored) (crc32 (len_bytes ++ body)) then some body else none

unfoldable pub put_slice : Bytes → Bytes
put_slice s = le_bytes 4 (len_field (length s)) ++ s

abbrev pub Read {ℓ} : Type ℓ → Type ℓ
Read A = Bytes → ℕ → Option (A × ℕ)

abbrev pub first_byte : Bytes → Option ℕ
first_byte [] = none
first_byte (b ∷ bytes) = some b

unfoldable pub read_u8 : Read ℕ
read_u8 buf pos = do b ← first_byte (drop pos buf); some (b, pos + 1)

-- `read_u32` and `read_u64`
unfoldable pub read_word : ℕ → Read ℕ
read_word width buf pos = do
  end ← checked_add pos width
  bytes ← slice buf pos end
  some (le_value bytes, end)

unfoldable pub read_slice : Read Bytes
read_slice buf pos = do
  (len, from) ← read_word 4 buf pos
  end ← checked_add from len
  s ← slice buf from end
  some (s, end)

unfoldable pub read_string : (Bytes → Bool) → Read Bytes
read_string is_utf8 buf pos = do
  (s, end) ← read_slice buf pos
  if is_utf8 s then some (s, end) else none

abbrev pub read_rest : Bytes → ℕ → Bytes
read_rest buf pos = drop pos buf

-- the value, if the whole body was read
abbrev pub when_done {ℓ} : {A : Type ℓ} → Bytes → ℕ → A → Option A
when_done buf pos a = if nat_eq pos (length buf) then some a else none

unfoldable pub request_body : Request → Bytes
request_body (produce key payload) = 0x01 ∷ put_slice key ++ payload
request_body (poll group) = 0x02 ∷ put_slice group
request_body (commit group offset) = 0x03 ∷ put_slice group ++ le_bytes 8 offset

unfoldable pub encode_request : Request → Bytes
encode_request req = frame (request_body req)

unfoldable pub response_body : Response → Bytes
response_body (produced offset) = 0x10 ∷ le_bytes 8 offset
response_body (some_record offset key payload) =
    0x11 ∷ le_bytes 8 offset ++ (put_slice key ++ payload)
response_body no_record = 0x12 ∷ []
response_body committed = 0x13 ∷ []
response_body (error msg) = 0x14 ∷ put_slice msg

unfoldable pub encode_response : Response → Bytes
encode_response resp = frame (response_body resp)

module _ (is_utf8 : Bytes → Bool) where
  unfoldable pub read_produce : Bytes → ℕ → Option Request
  read_produce body pos = do
    (key, next) ← read_slice body pos
    some (produce key (read_rest body next))

  unfoldable pub read_poll : Bytes → ℕ → Option Request
  read_poll body pos = do
    (group, next) ← read_string is_utf8 body pos
    when_done body next (poll group)

  unfoldable pub read_commit : Bytes → ℕ → Option Request
  read_commit body pos = do
    (group, next) ← read_string is_utf8 body pos
    (offset, last) ← read_word 8 body next
    when_done body last (commit group offset)

  unfoldable pub request_of : ℕ → Bytes → ℕ → Option Request
  request_of tag body pos =
      if nat_eq tag 0x01
      then read_produce body pos
      else if nat_eq tag 0x02
      then read_poll body pos
      else if nat_eq tag 0x03
      then read_commit body pos
      else none

  unfoldable pub decode_request : Bytes → Option Request
  decode_request bytes = do
    body ← unframe bytes
    (tag, pos) ← read_u8 body 0
    request_of tag body pos

  unfoldable pub read_produced : Bytes → ℕ → Option Response
  read_produced body pos = do
    (offset, next) ← read_word 8 body pos
    when_done body next (produced offset)

  unfoldable pub read_record : Bytes → ℕ → Option Response
  read_record body pos = do
    (offset, next) ← read_word 8 body pos
    (key, last) ← read_slice body next
    some (some_record offset key (read_rest body last))

  unfoldable pub read_error : Bytes → ℕ → Option Response
  read_error body pos = do
    (msg, next) ← read_string is_utf8 body pos
    when_done body next (error msg)

  unfoldable pub response_of : ℕ → Bytes → ℕ → Option Response
  response_of tag body pos =
      if nat_eq tag 0x10
      then read_produced body pos
      else if nat_eq tag 0x11
      then read_record body pos
      else if nat_eq tag 0x12
      then when_done body pos no_record
      else if nat_eq tag 0x13
      then when_done body pos committed
      else if nat_eq tag 0x14
      then read_error body pos
      else none

  unfoldable pub decode_response : Bytes → Option Response
  decode_response bytes = do
    body ← unframe bytes
    (tag, pos) ← read_u8 body 0
    response_of tag body pos
