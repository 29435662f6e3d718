-- ===== src/Katapult/Session/Device.antt =====
-- An upload to a bootloader that keeps to the protocol: it ends, and the device then holds the
-- padded firmware.
use aldis.Prelude.{
  eq_self, ◌==◌, true, ℕ, suc, ◌+◌, ◌/◌, ◌%◌, ◌≤◌, ◌<◌, [], ◌∷◌, ◌++◌, ◌≡◌, ◌≢◌, refl, ap, arith,
  Bytes, AreBytes, length, All-append, ok, Exec,
}
use aldis.Prelude.Words.{u32_to_le, u32_from_le-to_le, u32_to_le-AreBytes}
use aldis.Katapult.Frame.{
  Command, send_block, send_eof, request_block, code, framed, Response, encode_command,
}
use aldis.Katapult.Frame.Exact.{Fits, ack_frame, decode-ack_frame}
use aldis.Katapult.Session.{
  judge, attempts, run_command, response_u32, write_block, read_block, read_attempts,
}

abbrev pub reply_of : Command → Bytes → Response
reply_of command payload = record { command = code command; payload = payload }

-- What Katapult promises: a block that is sent is stored at its address and nothing else changes,
-- a block that is requested is sent back, and the end of the file is acknowledged; each reply is
-- a success frame that echoes the command.
pub record Device {S E : Type 0} (exchange : Bytes → Exec S E Bytes) : Type 0 where
  pub memory : S → ℕ → Bytes
  pub stored : S → ℕ → Bytes → S
  pub closed : S → S
  pub pages : S → ℕ
  pub pages_word : (s : S) → pages s < 4294967296
  pub on_send :
      (s : S) (address : ℕ) (block request : Bytes)
      → address < 4294967296
      → encode_command send_block (u32_to_le address ++ block) ≡ ok request
      → exchange request s
        ≡ (ok (ack_frame (reply_of send_block (u32_to_le address))), stored s address block)
  pub memory-stored :
      (s : S) (address : ℕ) (block : Bytes) → memory (stored s address block) address ≡ block
  pub memory-stored_ne :
      (s : S) (address other : ℕ) (block : Bytes)
      → other ≢ address
      → memory (stored s address block) other ≡ memory s other
  pub on_request :
      (s : S) (address : ℕ) (request : Bytes)
      → address < 4294967296
      → encode_command request_block (u32_to_le address) ≡ ok request
      → exchange request s
        ≡ (ok (ack_frame (reply_of request_block (u32_to_le address ++ memory s address))), s)
  pub on_eof :
      (s : S) (request : Bytes)
      → encode_command send_eof [] ≡ ok request
      → exchange request s ≡ (ok (ack_frame (reply_of send_eof (u32_to_le (pages s)))), closed s)
  pub memory-closed : (s : S) (address : ℕ) → memory (closed s) address ≡ memory s address

-- A payload of whole words that is not too long has a frame.
pub encoded :
    (command : Command) (payload : Bytes)
    → length payload % 4 ≡ 0
    → length payload ≤ 1020
    → (request : Bytes) × (encode_command command payload ≡ ok request)
unfolding encode_command
encoded command payload p q =
    (framed (code command ∷ (length payload / 4 % 256) ∷ payload), ground arith)

judge-ack_frame :
    {E : Type 0} (command : Command) (response : Response)
    → response.command ≡ code command
    → Fits response
    → judge {E = E} command (ok (ack_frame response)) ≡ ok response.payload
unfolding judge
judge-ack_frame command response same fits =
    rw (decode-ack_frame response fits, judge) (ground arith)

module _ {S E : Type 0} (exchange : Bytes → Exec S E Bytes) where
  -- A command that is answered at once returns the data of the answer.
  pub run_command-answer :
      (command : Command) (payload request : Bytes) (s u : S) (response : Response)
      → encode_command command payload ≡ ok request
      → exchange request s ≡ (ok (ack_frame response), u)
      → response.command ≡ code command
      → Fits response
      → run_command exchange command payload s ≡ (ok response.payload, u)
  unfolding run_command attempts
  run_command-answer command payload request s u response e x same fits =
      rw (e, attempts, x, judge-ack_frame command response same fits)
        (ap (λ t. (ok response.payload, t.1)) x)

pub response_u32-word :
    {E : Type 0} (command : Command) (v : ℕ) (rest : Bytes)
    → v < 4294967296
    → response_u32 {E = E} command (u32_to_le v ++ rest) ≡ ok v
unfolding response_u32
response_u32-word command v rest h = ground (arith, u32_from_le-to_le v h)

code-lt : (command : Command) → code command < 4294967296
code-lt command = ground arith

-- the words of an address and a block, as a payload
word_payload : (v : ℕ) (block : Bytes) → length (u32_to_le v ++ block) ≡ length block + 4
word_payload v block = omega arith

-- A block that a device can be sent: whole words that fit a frame.
pub record IsBlock (block_size : ℕ) (block : Bytes) : Type 0 where
  pub bytes : AreBytes block
  pub size : length block ≡ block_size
  pub words : block_size % 4 ≡ 0
  pub short : block_size ≤ 512

module _ {S E : Type 0} (exchange : Bytes → Exec S E Bytes) (device : Device exchange) where
  open device use {memory, stored, on_send, on_request}

  pub reply-Fits :
      (command : Command) (v : ℕ) (rest : Bytes)
      → AreBytes rest
      → length rest % 4 ≡ 0
      → length rest ≤ 512
      → Fits (reply_of command (u32_to_le v ++ rest))
  reply-Fits command v rest bytes p q = record {
    command_word = code-lt command;
    payload_bytes = All-append (λ b. b < 256) (u32_to_le v) rest (u32_to_le-AreBytes v) bytes;
    aligned = omega arith;
    short = omega arith;
  }

  pub write_block-stored :
      (s : S) (address block_size : ℕ) (block : Bytes)
      → address < 4294967296
      → IsBlock block_size block
      → write_block exchange address block s ≡ (ok tt, stored s address block)
  unfolding write_block
  write_block-stored s address block_size block h b =
      let payload = u32_to_le address ++ block in
      let (request, e) =
        encoded send_block payload (omega (arith, b.size, b.words))
          (omega (arith, b.size, b.short)) in
      let answer =
        run_command-answer exchange send_block payload request s (stored s address block)
          (reply_of send_block (u32_to_le address ++ [])) e (on_send s address block request h e)
          refl (reply-Fits send_block address [] tt refl (omega arith)) in
      rw (answer, response_u32-word {E = E} send_block address [] h, eq_self address)

  pub read_block-memory :
      (s : S) (address block_size : ℕ)
      → address < 4294967296
      → IsBlock block_size (memory s address)
      → read_block exchange address block_size s ≡ (ok (memory s address), s)
  unfolding read_block
  read_block-memory s address block_size h b =
      let (request, e) = encoded request_block (u32_to_le address) refl (omega arith) in
      let block = memory s address in
      let answer =
        run_command-answer exchange request_block (u32_to_le address) request s s
          (reply_of request_block (u32_to_le address ++ block)) e (on_request s address request h e)
          refl
          (reply-Fits request_block address block b.bytes (omega (arith, b.size, b.words))
            (omega (arith, b.size, b.short))) in
      let whole : (suc (suc (suc (suc (length block)))) == 4 + block_size) ≡ true =
        ground (arith, b.size) in
      rw (
        answer,
        read_attempts,
        whole,
        response_u32-word {E = E} request_block address block h,
        eq_self address,
      )
