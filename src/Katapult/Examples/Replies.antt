-- ===== src/Katapult/Examples/Replies.antt =====
-- Replies of a bootloader: taken apart, retried, assembled, and read from a bus.
use aldis.Prelude.{
  ℕ, zero, suc, map, ◌<◌, List, [], ◌∷◌, ◌≡◌, ◌≢◌, refl, arith, Bytes, AreBytes, All, flatten, take,
  drop, ok, err, Exec, some, none, ◌↔◌,
}
use aldis.Prelude.Words.{u32_to_le}
use aldis.Prelude.Chunks.{chunks}
use aldis.Katapult.Frame.{request_block, complete, encode_command, decode_response, crc16_ccitt}
use aldis.Katapult.Frame.Exact.{Fits, ack_frame, decode_response-exact}
use aldis.Katapult.Frame.Requests.{request_frame}
use aldis.Katapult.Session.{run_command}
use aldis.Katapult.Session.Retry.{Delivers, CommandOutcome, run_command-CommandOutcome}
use aldis.Katapult.Assembler.{assemble}
use aldis.Katapult.Assembler.Chunking.{IsWhole, assemble-frame}
use aldis.Katapult.Can.{
  CanFrame, CanIo, katapult_response_id, katapult_request_id, exchange, fragment_request, write_all,
}
use aldis.Katapult.Can.Frames.{IsValid, fragment_request-lossless}
use aldis.Katapult.Can.Exchange.{stop, next, exchange-reply, exchange_total}
use aldis.Katapult.Session.Device.{reply_of}
use aldis.Katapult.Examples.{firmware}

-- The reply to `complete`, and a transport that loses the first request.
abbrev reply : Bytes
reply = ack_frame (reply_of complete [])

reply-AreBytes : AreBytes reply
unfolding crc16_ccitt
reply-AreBytes = omega arith

abbrev flaky : Bytes → Exec ℕ ℕ Bytes
flaky request zero = (err 5, 1)
flaky request (suc n) = (ok reply, suc n)

flaky-Delivers : Delivers flaky
flaky-Delivers request zero u frame h = cc
flaky-Delivers request (suc n) u frame h =
    let same : reply ≡ frame = cc in rw (← same) reply-AreBytes

run_command-CommandOutcome_example :
    CommandOutcome flaky complete [] 0 (run_command flaky complete [] 0)
run_command-CommandOutcome_example = run_command-CommandOutcome flaky complete [] 0 flaky-Delivers

decode_response-exact_example :
    (decode_response reply ≡ ok (reply_of complete []))
    ↔ (Fits (reply_of complete []) × (reply ≡ ack_frame (reply_of complete [])))
decode_response-exact_example = decode_response-exact reply (reply_of complete []) reply-AreBytes

abbrev asked : Bytes
asked = request_frame request_block (u32_to_le 64)

asked_encoded : encode_command request_block (u32_to_le 64) ≡ ok asked
unfolding encode_command
asked_encoded = refl

-- The reply behind two bytes of noise, the second of which is no header.

reply-IsWhole : IsWhole reply
reply-IsWhole = record {
  status = 0xa0;
  words = 1;
  rest = drop 4 reply;
  starts = refl;
  one_byte = omega arith;
  declared = refl;
}

abbrev chunked : List Bytes
chunked = (0x55 ∷ 0x02 ∷ take 1 reply) ∷ take 8 (drop 1 reply) ∷ drop 9 reply ∷ []

assemble-frame_example : assemble [] chunked ≡ ok (some reply)
assemble-frame_example = assemble-frame (0x55 ∷ 0x02 ∷ []) reply chunked refl reply-IsWhole refl

fragment_request-lossless_example :
    (flatten (map (λ (f : CanFrame). f.payload) (fragment_request firmware)) ≡ firmware)
    × All (λ f. IsValid f × (f.id ≡ katapult_request_id)) (fragment_request firmware)
fragment_request-lossless_example = fragment_request-lossless firmware

-- A bus: the frames to come and the time.
abbrev Bus : Type 0
Bus = List CanFrame × ℕ

abbrev next_frame : Exec Bus ℕ CanFrame
next_frame ([], t) = (err 0, ([], suc t))
next_frame (f ∷ fs, t) = (ok f, (fs, suc t))

abbrev bus : CanIo Bus ℕ
bus = record { write = λ frame s. (ok tt, s); read = next_frame; now = λ s. s.1 }

next_frame-later : (s : Bus) → s.1 < (next_frame s).1.1
next_frame-later ([], t) = omega arith
next_frame-later (f ∷ fs, t) = omega arith

abbrev from_katapult : Bytes → CanFrame
from_katapult payload = record { id = katapult_response_id; payload = payload }

abbrev other_traffic : CanFrame
other_traffic = record { id = 0x101; payload = 1 ∷ 0x88 ∷ [] }

abbrev traffic : List CanFrame
traffic =
    from_katapult (0x55 ∷ [])
    ∷ from_katapult (take 8 reply)
    ∷ other_traffic
    ∷ from_katapult (drop 8 reply)
    ∷ []

exchange-reply_example :
    (u : Bus) × (exchange bus 4 100 (request_frame complete []) (traffic, 0) ≡ some (ok reply, u))
unfolding fragment_request write_all chunks
exchange-reply_example =
    exchange-reply bus 4 100 (request_frame complete []) (traffic, 0) (traffic, 0) traffic
      (0x55 ∷ []) reply refl
      (next (omega arith) refl
        (next (omega arith) refl (next (omega arith) refl (next (omega arith) refl stop))))
      (omega arith) refl reply-IsWhole refl

exchange_total_example : exchange bus 101 100 (request_frame complete []) (traffic, 0) ≢ none
exchange_total_example =
    exchange_total bus 101 100 (request_frame complete []) (traffic, 0) next_frame-later
      (omega arith)
