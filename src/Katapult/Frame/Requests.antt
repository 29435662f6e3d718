-- ===== src/Katapult/Frame/Requests.antt =====
-- Requests: when one has a frame, and that the frame tells command and payload.
use aldis.Prelude.{
  ℕ, ◌/◌, ◌%◌, ◌≤◌, ◌≡◌, ◌↔◌, ap, sym, ◌∙◌, arith, ◌∷◌, ◌++◌, Bytes, length, length-append, ok,
  take-append, take-length-append, take, drop, get_or,
}
use aldis.Prelude.Words.{u16_to_le}
use aldis.Katapult.Frame.{
  Command, code, framed, trailer, crc16_ccitt, max_payload_bytes, encode_command,
}

abbrev pub request_frame : Command → Bytes → Bytes
request_frame command payload = framed (code command ∷ (length payload / 4) ∷ payload)

words-byte : (n : ℕ) → n ≤ 1020 → n / 4 % 256 ≡ n / 4
words-byte n h = omega arith

encode_inv :
    (command : Command) (payload frame : Bytes)
    → encode_command command payload ≡ ok frame
    → (length payload % 4 ≡ 0)
      × (length payload ≤ max_payload_bytes)
      × (frame ≡ request_frame command payload)
unfolding encode_command
encode_inv command payload frame h = ground (arith, words-byte (length payload))

-- A payload is encoded exactly when it is whole words, at most 1020 bytes of them, and the result
-- is its frame: header, command, word count, payload, checksum and trailer.
pub encode_command-exact :
    (command : Command) (payload frame : Bytes)
    → (encode_command command payload ≡ ok frame) ↔ (
        (length payload % 4 ≡ 0)
        × (length payload ≤ max_payload_bytes)
        × (frame ≡ request_frame command payload))
unfolding encode_command
encode_command-exact command payload frame =
    (encode_inv command payload frame, λ h. ground (arith, words-byte (length payload)))

code-injective : (c d : Command) → code c ≡ code d → c ≡ d
code-injective c d h = ground arith

frames-injective :
    (c d : Command) (p q : Bytes) → request_frame c p ≡ request_frame d q → (c ≡ d) × (p ≡ q)
frames-injective c d p q h =
    let body = ap (λ f. drop 4 f) h in
    let long = ap length body in
    let size : length p ≡ length q = omega (
      arith,
      long,
      length-append p (u16_to_le (crc16_ccitt (code c ∷ (length p / 4) ∷ p)) ++ trailer),
      length-append q (u16_to_le (crc16_ccitt (code d ∷ (length q / 4) ∷ q)) ++ trailer),
    ) in
    (
      code-injective c d (ap (λ f. get_or f 2 0) h),
      sym (take-length-append p _)
          ∙ ap (λ b. take (length p) b) body
          ∙ take-append (length p) q _ size,
    )

-- Two commands with one frame are the same command with the same payload.
pub encode_command-injective :
    (c d : Command) (p q frame : Bytes)
    → encode_command c p ≡ ok frame
    → encode_command d q ≡ ok frame
    → (c ≡ d) × (p ≡ q)
encode_command-injective c d p q frame h k =
    frames-injective c d p q (sym (encode_inv c p frame h).2 ∙ (encode_inv d q frame k).2)
