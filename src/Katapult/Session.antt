-- ===== src/Katapult/Session.antt =====
-- `KatapultSession` (src/flash/katapult/session.rs) over any sequential transport. The transport is
-- a parameter: its `exchange` sends one request in a state and returns a reply or its own error,
-- with the state after it. `sha1` is the crate's digest of all the bytes it was updated with.
pub mod Blocks
pub mod Padding
pub mod Retry
pub mod Device
pub mod Verified
pub mod Upload
unfoldable pub use Blocks.*
use aldis.Prelude.{
  ℕ, zero, suc, ◌+◌, ◌*◌, ◌-◌, ◌/◌, ◌==◌, ltb, if◌then◌else◌, not, Bool, List, [], ◌∷◌, ◌++◌, Bytes,
  length, take, drop, Option, none, some, Result, ok, err, map_err, Exec, ◌>>=◌, ◌>>◌, pure, raise,
  lift, bytes_eq,
}
use aldis.Prelude.Words.{u32_to_le, u32_from_le}
use aldis.Prelude.Chunks.{chunks}
use aldis.Katapult.Frame.{
  Command, connect, send_block, send_eof, request_block, complete, get_canbus_id, code, FrameError,
  encode_command, decode_response,
}

-- `last_failure`, which the code keeps as text
pub data Failure (E : Type 0) : Type 0 where
  no_response : Failure E
  transport_error : E → Failure E
  invalid_response : FrameError → Failure E
  unexpected_command : ℕ → Failure E

pub data SessionError (E : Type 0) : Type 0 where
  encode : FrameError → SessionError E
  -- `Target(UnsupportedBlockSize)`
  unsupported_target : ℕ → SessionError E
  retries_exhausted : Command → Failure E → SessionError E
  -- expected, actual
  response_data_too_short : Command → ℕ → ℕ → SessionError E
  -- expected, actual
  response_data_length_mismatch : Command → ℕ → ℕ → SessionError E
  -- expected, actual
  address_mismatch : Command → ℕ → ℕ → SessionError E
  address_overflow : SessionError E
  checksum_mismatch : SessionError E
  -- expected, actual
  canbus_uuid_mismatch : ℕ → ℕ → SessionError E

pub record UploadResult : Type 0 where
  pub pages_written : ℕ
  pub padded_bytes : ℕ

pub record KatapultConnection : Type 0 where
  pub protocol_version : Bytes
  pub target : KatapultTarget

abbrev pub max_attempts : ℕ
max_attempts = 5

abbrev pub block_attempts : ℕ
block_attempts = 3

module _ {E : Type 0} where
  abbrev or_overflow : Option ℕ → Result (SessionError E) ℕ
  or_overflow none = err address_overflow
  or_overflow (some address) = ok address

  -- the tests of one round of the retry loop: the data, or why the reply is not taken
  unfoldable pub judge : Command → Result E Bytes → Result (Failure E) Bytes
  judge command (err e) = err (transport_error e)
  judge command (ok reply) = elim (decode_response reply) [
    | err e ↦ err (invalid_response e)
    | ok response ↦
        if response.command == code command
        then ok response.payload
        else err (unexpected_command response.command)
  ]

  unfoldable pub response_u32 : Command → Bytes → Result (SessionError E) ℕ
  response_u32 command response =
      if ltb (length response) 4
      then err (response_data_too_short command 4 (length response))
      else ok (u32_from_le (take 4 response))

module _ {S E : Type 0} (exchange : Bytes → Exec S E Bytes) where
  -- the loop of `command`, with the attempts that are left
  unfoldable pub attempts : ℕ → Command → Bytes → Failure E → Exec S (SessionError E) Bytes
  unfolding judge
  attempts zero command request last s = (err (retries_exhausted command last), s)
  attempts (suc n) command request last s =
      let (reply, s') = exchange request s in
      elim (judge command reply) [
        | ok response ↦ (ok response, s')
        | err failure ↦ attempts n command request failure s'
      ]

  unfoldable pub run_command : Command → Bytes → Exec S (SessionError E) Bytes
  run_command command payload = do
    request ← lift (map_err encode (encode_command command payload))
    attempts max_attempts command request no_response

  unfoldable pub open_session : Exec S (SessionError E) KatapultConnection
  open_session = do
    response ← run_command connect []
    if ltb (length response) 12
        then raise (response_data_too_short connect 12 (length response))
        else do
          found ← lift (
              map_err unsupported_target (
                new_target (u32_from_le (take 4 (drop 4 response)))
                  (u32_from_le (take 4 (drop 8 response)))))
          pure (record { protocol_version = take 4 response; target = found })

  -- `bytes.iter().fold(0, |uuid, byte| (uuid << 8) | byte)` over the first six bytes
  unfoldable pub verify_canbus_uuid : ℕ → Exec S (SessionError E) (Unit {0})
  verify_canbus_uuid expected = do
    response ← run_command get_canbus_id []
    if ltb (length response) 6
        then raise (response_data_too_short get_canbus_id 6 (length response))
        else let actual = uuid_from_bytes 0 (take 6 response) in
          if actual == expected then pure tt else raise (canbus_uuid_mismatch expected actual)

  unfoldable pub finish : Exec S (SessionError E) (Unit {0})
  finish = do _ ← run_command complete []; pure tt

  unfoldable pub write_attempts : ℕ → ℕ → Bytes → ℕ → Exec S (SessionError E) (Unit {0})
  write_attempts zero address payload actual = raise (address_mismatch send_block address actual)
  write_attempts (suc n) address payload _ = do
    response ← run_command send_block payload
    actual ← lift (response_u32 send_block response)
    if actual == address then pure tt else write_attempts n address payload actual

  unfoldable pub write_block : ℕ → Bytes → Exec S (SessionError E) (Unit {0})
  unfolding write_attempts
  write_block address block = write_attempts block_attempts address (u32_to_le address ++ block) 0

  unfoldable pub read_attempts : ℕ → ℕ → ℕ → ℕ → Exec S (SessionError E) Bytes
  read_attempts zero address block_size actual =
      raise (address_mismatch request_block address actual)
  read_attempts (suc n) address block_size _ = do
    response ← run_command request_block (u32_to_le address)
    if not (length response == 4 + block_size)
        then raise (response_data_length_mismatch request_block (4 + block_size) (length response))
        else do
          actual ← lift (response_u32 request_block response)
          if actual == address
              then pure (drop 4 response)
              else read_attempts n address block_size actual

  unfoldable pub read_block : ℕ → ℕ → Exec S (SessionError E) Bytes
  unfolding read_attempts
  read_block address block_size = read_attempts block_attempts address block_size 0

  -- the loop over the chunks; the result is what `written_hash` was updated with
  unfoldable pub write_blocks :
      KatapultTarget → ℕ → List Bytes → Bytes → Exec S (SessionError E) Bytes
  write_blocks target index [] written = pure written
  write_blocks target index (chunk ∷ rest) written = do
    address ← lift (or_overflow (block_address target index))
    let block = padded_block chunk target.block_size
    write_block address block
    write_blocks target (suc index) rest (written ++ block)

  -- the loop `for index in 0..block_count`, from `index` with `count` blocks left
  unfoldable pub read_blocks : KatapultTarget → ℕ → ℕ → Bytes → Exec S (SessionError E) Bytes
  read_blocks target index zero read = pure read
  read_blocks target index (suc count) read = do
    address ← lift (or_overflow (block_address target index))
    block ← read_block address target.block_size
    read_blocks target (suc index) count (read ++ block)

  unfoldable pub upload :
      (Bytes → Bytes) → Bytes → KatapultTarget → Exec S (SessionError E) UploadResult
  unfolding write_blocks read_blocks
  upload sha1 firmware target = do
    let count = div_ceil (length firmware) target.block_size
    written ← write_blocks target 0 (chunks target.block_size firmware) []
    response ← run_command send_eof []
    pages ← lift (response_u32 send_eof response)
    read ← read_blocks target 0 count []
    if not (bytes_eq (sha1 written) (sha1 read))
        then raise checksum_mismatch
        else pure (record { pages_written = pages; padded_bytes = count * target.block_size })
