-- ===== src/Katapult/Examples.antt =====
-- Runs of the protocol code (src/flash/katapult/) on concrete frames, and the theorems at inputs
-- that meet their hypotheses, on a bootloader with a memory.
mod Replies
use aldis.Prelude.{
  ℕ, zero, suc, ◌-◌, ◌*◌, ◌%◌, map, ◌<◌, ◌≤◌, ◌==◌, if◌then◌else◌, List, [], ◌∷◌, ◌++◌, ◌≡◌, ◌≢◌,
  refl, ap, arith, Bytes, AreBytes, All, length, flatten, replicate, take, drop, get_or,
  length-append, take-append, ok, err, Exec, some, none, ◌↔◌,
}
use aldis.Prelude.Words.{u32_to_le, u32_from_le, u32_from_le-to_le}
use aldis.Prelude.Chunks.{chunks}
use aldis.Katapult.Frame.{
  connect, send_block, send_eof, request_block, complete, get_canbus_id, payload_not_word_aligned,
  payload_too_large, encode_command, decode_response, crc16_ccitt, slice,
}
use aldis.Katapult.Frame.Exact.{Fits, ack_frame, decode_response-exact}
use aldis.Katapult.Frame.Requests.{request_frame, encode_command-exact, encode_command-injective}
use aldis.Katapult.Session.{
  KatapultTarget, upload, div_ceil, UploadResult, read_blocks, write_blocks, run_command,
  response_u32,
}
use aldis.Katapult.Session.Padding.{padded_image, missing, padded_image-chunks}
use aldis.Katapult.Session.Retry.{Delivers, CommandOutcome, run_command-CommandOutcome}
use aldis.Katapult.Session.Verified.{upload-verified}
use aldis.Katapult.Assembler.{discard_until_header, assemble}
use aldis.Katapult.Assembler.Sync.{discard-sync}
use aldis.Katapult.Assembler.Chunking.{IsWhole, assemble-frame}
use aldis.Katapult.Can.{
  CanFrame, CanIo, katapult_response_id, katapult_request_id, exchange, fragment_request, write_all,
}
use aldis.Katapult.Adapter.{KatapultAdapter, expecting_application_start, for_target, flash}
use aldis.Katapult.Adapter.Untouched.{OnlyWritesTouch, FlashOutcome, flash-FlashOutcome}
use aldis.Katapult.Can.Frames.{IsValid, fragment_request-lossless}
use aldis.Katapult.Can.Exchange.{stop, next, exchange-reply, exchange_total}
use aldis.Katapult.Session.Device.{Device, reply_of}
use aldis.Katapult.Session.Upload.{IsGeometry, Holds, upload-Holds}

complete_request :
    encode_command complete [] ≡ ok (0x01 ∷ 0x88 ∷ 0x15 ∷ 0x00 ∷ 0x91 ∷ 0x1b ∷ 0x99 ∷ 0x03 ∷ [])
unfolding encode_command crc16_ccitt
complete_request = refl

check_value :
    crc16_ccitt (0x31 ∷ 0x32 ∷ 0x33 ∷ 0x34 ∷ 0x35 ∷ 0x36 ∷ 0x37 ∷ 0x38 ∷ 0x39 ∷ []) ≡ 0x6f91
unfolding crc16_ccitt
check_value = refl

three_bytes : encode_command send_block (1 ∷ 2 ∷ 3 ∷ []) ≡ err (payload_not_word_aligned 3)
unfolding encode_command
three_bytes = refl

too_long : encode_command send_block (replicate 1024 0) ≡ err (payload_too_large 1024)
unfolding encode_command
too_long = refl

-- A bootloader: its memory, and what it does with a request.
abbrev Memory : Type 0
Memory = ℕ → Bytes

abbrev put : Memory → ℕ → Bytes → Memory
put memory address block other = if other == address then block else memory other

abbrev bootloader : Bytes → Exec Memory ℕ Bytes
bootloader request memory =
    let c = get_or request 2 0 in
    let address = u32_from_le (take 4 (drop 4 request)) in
    let block = slice request 8 (length request - 4) in
    if c == 0x12
    then (ok (ack_frame (reply_of send_block (u32_to_le address))), put memory address block)
    else if c == 0x14
    then (ok (ack_frame (reply_of request_block (u32_to_le address ++ memory address))), memory)
    else (ok (ack_frame (reply_of send_eof (u32_to_le 7))), memory)

sent_block :
    (address : ℕ) (block : Bytes)
    → slice
        (request_frame send_block (u32_to_le address ++ block))
        8
        (length (request_frame send_block (u32_to_le address ++ block)) - 4)
      ≡ block
sent_block address block = take-append _ block _ (omega (arith, length-append block))

answers : Device bootloader
answers = record {
  memory = λ s. s;
  stored = put;
  closed = λ s. s;
  pages = λ s. 7;
  pages_word = λ s. omega arith;
  on_send = λ s address block request h e.
      rw ((encode_command-exact send_block (u32_to_le address ++ block) request).0 e).2
        (ground (arith, u32_from_le-to_le address h, sent_block address block));
  memory-stored = λ s address block. ground arith;
  memory-stored_ne = λ s address other block h. ground arith;
  on_request = λ s address request h e.
      rw ((encode_command-exact request_block (u32_to_le address) request).0 e).2 (
        ap (λ a. (ok (ack_frame (reply_of request_block (u32_to_le a ++ s a))), s))
          (u32_from_le-to_le address h));
  on_eof = λ s request e. rw ((encode_command-exact send_eof [] request).0 e).2 refl;
  memory-closed = λ s address. refl;
}

abbrev geometry : KatapultTarget
geometry = record { application_start = 0x8000; block_size = 64 }

geometry-IsGeometry : IsGeometry geometry
geometry-IsGeometry = record { some_bytes = omega arith; whole_words = refl; at_most = omega arith }

abbrev firmware : Bytes
firmware = replicate 100 0x5a

upload-Holds_example :
    (v : Memory) × (u : Memory) × (upload bootloader
        (λ bytes. bytes)
        firmware
        geometry
        (λ address. [])
      ≡ (ok (record { pages_written = 7; padded_bytes = 128 }), u))
    × Holds bootloader answers geometry geometry-IsGeometry u 0 (chunks 64 firmware)
unfolding answers
upload-Holds_example =
    upload-Holds bootloader answers geometry geometry-IsGeometry (λ bytes. bytes) firmware
      (λ address. []) (omega arith) (omega arith)

abbrev done : UploadResult
done = record { pages_written = 7; padded_bytes = 128 }

uploaded :
    (u : Memory) × (upload bootloader (λ bytes. bytes) firmware geometry (λ address. [])
      ≡ (ok done, u))
unfolding answers
uploaded =
    let (v, u, e, h) =
      upload-Holds bootloader answers geometry geometry-IsGeometry (λ bytes. bytes) firmware
        (λ address. []) (omega arith) (omega arith) in
    (u, e)

upload-verified_example :
    (t : Memory) × (response : Bytes) × (v : Memory) × (read : Bytes) × (write_blocks bootloader
        geometry 0
        (chunks 64 firmware)
        []
        (λ address. [])
      ≡ (ok (padded_image 64 (chunks 64 firmware)), t))
    × (run_command bootloader send_eof [] t ≡ (ok response, v))
    × (response_u32 {E = ℕ} send_eof response ≡ ok done.pages_written)
    × (read_blocks bootloader geometry 0 (div_ceil 100 64) [] v ≡ (ok read, uploaded.0))
    × (read ≡ padded_image 64 (chunks 64 firmware))
    × (length read ≡ done.padded_bytes)
    × (done.padded_bytes ≡ div_ceil 100 64 * 64)
upload-verified_example =
    upload-verified bootloader geometry (λ bytes. bytes) firmware (λ address. []) uploaded.0 done
      uploaded.1

-- What stands at address 0 of the bootloader's memory is changed only by a block.
abbrev Empty : Memory → Type 0
Empty memory = memory 0 ≡ []

bootloader-OnlyWritesTouch : OnlyWritesTouch Empty bootloader
bootloader-OnlyWritesTouch connect payload request p q e s h =
    rw ((encode_command-exact connect payload request).0 e).2 h
bootloader-OnlyWritesTouch send_block payload request p q e s h = absurd (p refl)
bootloader-OnlyWritesTouch send_eof payload request p q e s h = absurd (q refl)
bootloader-OnlyWritesTouch request_block payload request p q e s h =
    rw ((encode_command-exact request_block payload request).0 e).2 h
bootloader-OnlyWritesTouch complete payload request p q e s h =
    rw ((encode_command-exact complete payload request).0 e).2 h
bootloader-OnlyWritesTouch get_canbus_id payload request p q e s h =
    rw ((encode_command-exact get_canbus_id payload request).0 e).2 h

abbrev at_8000 : KatapultAdapter
at_8000 = expecting_application_start for_target 0x8000

flash-FlashOutcome_example :
    FlashOutcome Empty bootloader at_8000
      (λ bytes. bytes)
      firmware
      (λ address. [])
      (flash bootloader at_8000 (λ bytes. bytes) firmware (λ address. []))
flash-FlashOutcome_example =
    flash-FlashOutcome Empty bootloader at_8000 (λ bytes. bytes) firmware (λ address. [])
      bootloader-OnlyWritesTouch refl
