-- ===== src/Katapult/Frame/Shape.antt =====
-- A reply of eight bytes or more, taken apart: what `decode_response` reads in each place.
use aldis.Prelude.{
  ℕ, ◌+◌, ◌-◌, ◌*◌, not, ◌==◌, ltb, if◌then◌else◌, [], ◌∷◌, ◌++◌, ◌≡◌, ap, arith, Bytes, length,
  take, drop, get_or, bytes_eq, length-append, take-append, drop-append, get_or-append, Result, ok,
  err,
}
use aldis.Prelude.Words.{u16_from_le, u32_from_le}
use aldis.Katapult.Frame.{
  header, trailer, min_frame_length, max_response_frame_bytes, ack_success, FrameError,
  response_too_large, invalid_response_header, invalid_response_trailer, response_length_mismatch,
  response_crc_mismatch, response_rejected, response_missing_command, Response, crc16_ccitt, slice,
  decode_response,
}

module _ (h0 h1 status words : ℕ) (ps : Bytes) (a b c d : ℕ) where
  abbrev last_four : Bytes
  last_four = a ∷ b ∷ c ∷ d ∷ []

  abbrev frame : Bytes
  frame = h0 ∷ h1 ∷ status ∷ words ∷ (ps ++ last_four)

  -- the same tests on the parts
  abbrev pub decode_parts : Result FrameError Response
  decode_parts =
      let n = length ps + 8 in
      let payload = take (words * 4) (ps ++ last_four) in
      let expected = crc16_ccitt (status ∷ words ∷ ps) in
      let actual = u16_from_le a b in
      if ltb max_response_frame_bytes n
      then err (response_too_large n)
      else if not (bytes_eq (h0 ∷ h1 ∷ []) header)
      then err invalid_response_header
      else if not (bytes_eq (c ∷ d ∷ []) trailer)
      then err invalid_response_trailer
      else if not (n == min_frame_length + words * 4)
      then err (response_length_mismatch (min_frame_length + words * 4) n)
      else if not (actual == expected)
      then err (response_crc_mismatch expected actual)
      else if not (status == ack_success)
      then err (response_rejected status)
      else if ltb (words * 4) 4
      then err response_missing_command
      else ok (record { command = u32_from_le (take 4 payload); payload = drop 4 payload })

  abbrev start : Bytes
  start = h0 ∷ h1 ∷ status ∷ words ∷ ps

  length-frame : length frame ≡ length ps + 8
  length-frame = omega (arith, length-append ps last_four)

  end_of_frame : drop (length frame - 2) frame ≡ c ∷ d ∷ []
  end_of_frame = drop-append (length frame - 2) 2 start last_four (omega (arith, length-frame))

  crc_low : get_or frame (length frame - 4) 0 ≡ a
  crc_low = get_or-append (length frame - 4) 0 start last_four 0 (omega (arith, length-frame))

  crc_high : get_or frame (length frame - 3) 0 ≡ b
  crc_high = get_or-append (length frame - 3) 1 start last_four 0 (omega (arith, length-frame))

  checked : slice frame 2 (length frame - 4) ≡ status ∷ words ∷ ps
  checked =
      take-append (length frame - 4 - 2) (status ∷ words ∷ ps) last_four
        (omega (arith, length-frame))

  declared : slice frame 4 (4 + words * 4) ≡ take (words * 4) (ps ++ last_four)
  declared = ap (λ k. take k (ps ++ last_four)) (omega arith)

  pub frame_parts : decode_response frame ≡ decode_parts
  unfolding decode_response
  frame_parts =
      simp (end_of_frame, crc_low, crc_high, checked, declared) (ground (arith, length-frame))
