-- ===== src/Katapult/Frame.antt =====
-- Frames of Katapult's protocol (src/flash/katapult/mod.rs): the checksum, requests and replies.
-- A `u8` is a number below 256, a `u16` one below 65536; `&`, `<<` and `>>` of a `u16` are
-- written out as `% 2 ^ w`, `* 2 ^ k % 2 ^ 16` and `/ 2 ^ k`.
pub mod Crc
pub mod Shape
pub mod Requests
pub mod Exact
use aldis.Prelude.{
  ℕ, ◌+◌, ◌-◌, ◌*◌, ◌/◌, ◌%◌, bit_or, bit_xor, Bool, not, ◌==◌, ltb, if◌then◌else◌, List, [], ◌∷◌,
  ◌++◌, Bytes, length, take, drop, get_or, bytes_eq, Result, ok, err,
}
use aldis.Prelude.Words.{shl, shr, u16_to_le, u16_from_le, u32_from_le}

abbrev pub header : Bytes
header = 0x01 ∷ 0x88 ∷ []

abbrev pub trailer : Bytes
trailer = 0x99 ∷ 0x03 ∷ []

abbrev pub max_payload_bytes : ℕ
max_payload_bytes = 255 * 4

abbrev pub min_frame_length : ℕ
min_frame_length = 8

abbrev pub max_response_frame_bytes : ℕ
max_response_frame_bytes = min_frame_length + max_payload_bytes

abbrev pub ack_success : ℕ
ack_success = 0xa0

pub data Command : Type 0 where
  connect send_block send_eof request_block complete get_canbus_id : Command

-- `command as u8`, `command as u32`
abbrev pub code : Command → ℕ
code connect = 0x11
code send_block = 0x12
code send_eof = 0x13
code request_block = 0x14
code complete = 0x15
code get_canbus_id = 0x16

pub data FrameError : Type 0 where
  payload_not_word_aligned : ℕ → FrameError
  payload_too_large : ℕ → FrameError
  response_too_short : ℕ → FrameError
  response_too_large : ℕ → FrameError
  invalid_response_header : FrameError
  invalid_response_trailer : FrameError
  -- expected, actual
  response_length_mismatch : ℕ → ℕ → FrameError
  -- expected, actual
  response_crc_mismatch : ℕ → ℕ → FrameError
  response_rejected : ℕ → FrameError
  response_missing_command : FrameError

pub record Response : Type 0 where
  pub command : ℕ
  pub payload : Bytes

-- `data ^= (data & 0x0f) << 4`
abbrev pub mix : ℕ → ℕ
mix d = bit_xor d (shl 16 (d % 16) 4)

-- the update of `crc` with the mixed byte
abbrev pub fold_in : ℕ → ℕ → ℕ
fold_in crc d = bit_xor (bit_xor (bit_or (shl 16 d 8) (shr crc 8)) (shr d 4)) (shl 16 d 3)

-- one round of the loop in `crc16_ccitt`
pub crc_round : ℕ → ℕ → ℕ
crc_round crc byte = fold_in crc (mix (bit_xor byte (crc % 256)))

pub crc_loop : ℕ → Bytes → ℕ
crc_loop crc [] = crc
crc_loop crc (byte ∷ rest) = crc_loop (crc_round crc byte) rest

unfoldable pub crc16_ccitt : Bytes → ℕ
unfolding crc_loop crc_round
crc16_ccitt = crc_loop 0xffff

-- the frame before the checksum: `frame[2..]` is the part after the header
abbrev pub framed : Bytes → Bytes
framed body = header ++ (body ++ (u16_to_le (crc16_ccitt body) ++ trailer))

unfoldable pub encode_command : Command → Bytes → Result FrameError Bytes
encode_command command payload =
    if not (length payload % 4 == 0)
    then err (payload_not_word_aligned (length payload))
    else if ltb max_payload_bytes (length payload)
    then err (payload_too_large (length payload))
    else let start = header ++ code command ∷ (length payload / 4 % 256) ∷ payload in
      ok (start ++ (u16_to_le (crc16_ccitt (drop 2 start)) ++ trailer))

-- `frame[a..b]`
abbrev pub slice : Bytes → ℕ → ℕ → Bytes
slice frame a b = take (b - a) (drop a frame)

-- The indices are in range, since the frame holds at least 8 bytes where they are used: the
-- default of `get_or` is never returned.
unfoldable pub decode_response : Bytes → Result FrameError Response
decode_response frame =
    let n = length frame in
    let payload_length = get_or frame 3 0 * 4 in
    let actual_crc = u16_from_le (get_or frame (n - 4) 0) (get_or frame (n - 3) 0) in
    let expected_crc = crc16_ccitt (slice frame 2 (n - 4)) in
    let payload = slice frame 4 (4 + payload_length) in
    if ltb n min_frame_length
    then err (response_too_short n)
    else if ltb max_response_frame_bytes n
    then err (response_too_large n)
    else if not (bytes_eq (take 2 frame) header)
    then err invalid_response_header
    else if not (bytes_eq (drop (n - 2) frame) trailer)
    then err invalid_response_trailer
    else if not (n == min_frame_length + payload_length)
    then err (response_length_mismatch (min_frame_length + payload_length) n)
    else if not (actual_crc == expected_crc)
    then err (response_crc_mismatch expected_crc actual_crc)
    else if not (get_or frame 2 0 == ack_success)
    then err (response_rejected (get_or frame 2 0))
    else if ltb payload_length 4
    then err response_missing_command
    else ok (record { command = u32_from_le (take 4 payload); payload = drop 4 payload })
