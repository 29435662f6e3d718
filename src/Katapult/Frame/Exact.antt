-- ===== src/Katapult/Frame/Exact.antt =====
-- The replies that `decode_response` accepts are the frames that the protocol defines, and it
-- returns the command and the data that stand in them.
use aldis.Prelude.{
  ltb, Bool-cases, inl, inr, ◌≢◌, ℕ, ◌+◌, ◌*◌, ◌/◌, ◌%◌, ◌≤◌, ◌<◌, [], ◌∷◌, ◌++◌, ◌≡◌, ◌↔◌, sym, ap,
  ◌∙◌, arith, Bytes, length, take, drop, AreBytes, All-left, All-right, bytes_eq, length-drop,
  take-append, take-append-drop, split_last_four, ok,
}
use aldis.Prelude.Words.{
  u16_to_le, u16_from_le, u32_to_le, u32_from_le, u16_from_le-to_le, u32_from_le-to_le,
  u32_from_le-lt,
}
use aldis.Katapult.Frame.{framed, ack_success, Response, crc16_ccitt, decode_response}
use aldis.Katapult.Frame.Crc.{crc16_ccitt-lt}
use aldis.Katapult.Frame.Shape.{decode_parts, frame_parts}

-- A frame of the protocol: the status, the number of words, the payload, all under a checksum.
abbrev pub reply_frame : ℕ → Bytes → Bytes
reply_frame status payload = framed (status ∷ (length payload / 4) ∷ payload)

-- A response that a frame can carry.
pub record Fits (r : Response) : Type 0 where
  pub command_word : r.command < 4294967296
  pub payload_bytes : AreBytes r.payload
  pub aligned : length r.payload % 4 ≡ 0
  pub short : length r.payload + 4 ≤ 1020

abbrev pub ack_frame : Response → Bytes
ack_frame r = reply_frame ack_success (u32_to_le r.command ++ r.payload)

-- The bytes of one word, put together and taken apart.
word_of_bytes :
    (bs : Bytes) → AreBytes bs → 4 ≤ length bs → u32_to_le (u32_from_le (take 4 bs)) ≡ take 4 bs
word_of_bytes (a ∷ b ∷ c ∷ d ∷ bs) h k = ground arith
word_of_bytes [] h k = absurd (omega arith)
word_of_bytes (a ∷ []) h k = absurd (omega arith)
word_of_bytes (a ∷ b ∷ []) h k = absurd (omega arith)
word_of_bytes (a ∷ b ∷ c ∷ []) h k = absurd (omega arith)

-- The parts of an accepted frame, when all of its payload is there.
module _ (words : ℕ) (ps : Bytes) (a b : ℕ) where
  accepted : Response
  accepted = record { command = u32_from_le (take 4 ps); payload = drop 4 ps }

  parts-accepted :
      length ps ≡ words * 4
      → 4 ≤ length ps
      → length ps ≤ 1020
      → u16_from_le a b ≡ crc16_ccitt (ack_success ∷ words ∷ ps)
      → decode_parts 0x01 0x88 ack_success words ps a b 0x99 0x03 ≡ ok accepted
  unfolding accepted bytes_eq
  parts-accepted l m n crc =
      rw (take-append (words * 4) ps (a ∷ b ∷ 0x99 ∷ 0x03 ∷ []) (sym l)) (ground arith)

pub decode-ack_frame : (r : Response) → Fits r → decode_response (ack_frame r) ≡ ok r
unfolding accepted
decode-ack_frame r f =
    let ps = u32_to_le r.command ++ r.payload in
    let words = length ps / 4 in
    let crc = crc16_ccitt (ack_success ∷ words ∷ ps) in
    let fits = crc16_ccitt-lt (ack_success ∷ words ∷ ps) (ground (arith, f.payload_bytes)) in
    frame_parts 0x01 0x88 ack_success words ps (crc % 256) (crc / 256 % 256) 0x99 0x03
    ∙ parts-accepted words ps (crc % 256) (crc / 256 % 256) (ground arith) (omega arith)
        (ground arith) (u16_from_le-to_le crc fits)
    ∙ ap ok (ground (arith, u32_from_le-to_le r.command f.command_word))

-- What the tests establish.
parts_inv :
    (h0 h1 status words : ℕ) (ps : Bytes) (a b c d : ℕ) {r : Response}
    → decode_parts h0 h1 status words ps a b c d ≡ ok r
    → (h0 ≡ 0x01)
      × (h1 ≡ 0x88)
      × (status ≡ ack_success)
      × (c ≡ 0x99)
      × (d ≡ 0x03)
      × (length ps ≡ words * 4)
      × (4 ≤ length ps)
      × (length ps ≤ 1020)
      × (u16_from_le a b ≡ crc16_ccitt (status ∷ words ∷ ps))
unfolding bytes_eq
parts_inv h0 h1 status words ps a b c d h = ground arith

too_short : (frame : Bytes) {r : Response} → length frame < 8 → decode_response frame ≢ ok r
unfolding decode_response
too_short frame h e = ground arith

-- the checksum read from a frame is written back as the same two bytes
crc_bytes : (a b c : ℕ) → a < 256 → b < 256 → u16_from_le a b ≡ c → u16_to_le c ≡ a ∷ b ∷ []
crc_bytes a b c p q h = ground arith

module _ (words : ℕ) (ps : Bytes) (a b : ℕ) (bytes : AreBytes ps) where
  accepted-frame :
      a < 256
      → b < 256
      → length ps ≡ words * 4
      → 4 ≤ length ps
      → u16_from_le a b ≡ crc16_ccitt (ack_success ∷ words ∷ ps)
      → ack_frame (accepted words ps a b)
        ≡ 0x01 ∷ 0x88 ∷ ack_success ∷ words ∷ (ps ++ a ∷ b ∷ 0x99 ∷ 0x03 ∷ [])
  unfolding accepted
  accepted-frame p q l m crc =
      let word = ap (λ w. w ++ drop 4 ps) (word_of_bytes ps bytes m) in
      ap (reply_frame ack_success) (word ∙ take-append-drop 4 ps)
      ∙ ap (λ w. framed (ack_success ∷ w ∷ ps)) (omega arith)
      ∙ ap (λ cs. 0x01 ∷ 0x88 ∷ ack_success ∷ words ∷ (ps ++ (cs ++ 0x99 ∷ 0x03 ∷ [])))
          (crc_bytes a b _ p q crc)

  accepted-Fits :
      length ps ≡ words * 4 → 4 ≤ length ps → length ps ≤ 1020 → Fits (accepted words ps a b)
  unfolding accepted
  accepted-Fits l m n = record {
    command_word = u32_from_le-lt ps bytes;
    payload_bytes = All-right (λ x. x < 256) (take 4 ps) (drop 4 ps) (rw take-append-drop bytes);
    aligned = omega (arith, length-drop 4 ps);
    short = omega (arith, length-drop 4 ps);
  }

-- The same for an accepted frame in parts.
parts_exact :
    (h0 h1 status words : ℕ) (ps : Bytes) (a b c d : ℕ) (r : Response)
    → AreBytes ps
    → a < 256
    → b < 256
    → decode_parts h0 h1 status words ps a b c d ≡ ok r
    → Fits r × (h0 ∷ h1 ∷ status ∷ words ∷ (ps ++ a ∷ b ∷ c ∷ d ∷ []) ≡ ack_frame r)
parts_exact h0 h1 status words ps a b c d r bytes p q e =
    let (e0, e1, es, ec, ed, l, m, n, crc) = parts_inv h0 h1 status words ps a b c d e in
    let crc' : u16_from_le a b ≡ crc16_ccitt (ack_success ∷ words ∷ ps) = rw es at crc in
    let fixed : decode_parts 0x01 0x88 ack_success words ps a b 0x99 0x03 ≡ ok r =
      rw (e0, e1, es, ec, ed) at e in
    let same : r ≡ accepted words ps a b = cc (fixed, parts-accepted words ps a b l m n crc') in
    rw (e0, e1, es, ec, ed, same)
      (accepted-Fits words ps a b bytes l m n, sym (accepted-frame words ps a b bytes p q l m crc'))

-- `decode_response` accepts only frames of the protocol.
decode_inv :
    (frame : Bytes) (r : Response)
    → AreBytes frame
    → decode_response frame ≡ ok r
    → Fits r × (frame ≡ ack_frame r)
decode_inv (h0 ∷ h1 ∷ status ∷ words ∷ rest) r h e = elim (Bool-cases (ltb (length rest) 4)) [
  | inl short ↦ absurd (too_short (h0 ∷ h1 ∷ status ∷ words ∷ rest) (ground arith) e)
  | inr long ↦
      let (ps, a, b, c, d, split) = split_last_four rest (ground arith) in
      let bytes : AreBytes (ps ++ a ∷ b ∷ c ∷ d ∷ []) = rw split at h.1.1.1.1 in
      let last = All-right (λ x. x < 256) ps (a ∷ b ∷ c ∷ d ∷ []) bytes in
      rw split (
        parts_exact h0 h1 status words ps a b c d r
          (All-left (λ x. x < 256) ps (a ∷ b ∷ c ∷ d ∷ []) bytes) last.0 last.1.0
          (sym (frame_parts h0 h1 status words ps a b c d) ∙ (rw split at e)))
]
decode_inv frame r h e = absurd (too_short frame (omega arith) e)

-- A reply is accepted with response `r` exactly when `r` fits a frame (a 32-bit command word and
-- whole words of data, at most 1020 bytes in all) and the reply is, byte for byte, the protocol's
-- success frame of `r`: header, status, word count, payload, checksum and trailer.
pub decode_response-exact :
    (frame : Bytes) (r : Response)
    → AreBytes frame
    → (decode_response frame ≡ ok r) ↔ (Fits r × (frame ≡ ack_frame r))
decode_response-exact frame r h =
    (decode_inv frame r h, λ f. ap decode_response f.1 ∙ decode-ack_frame r f.0)
