-- ===== src/Katapult/Can.antt =====
-- Katapult over classic CAN (src/flash/katapult/can.rs): addresses, frames, and one exchange. The
-- socket and the clock are parameters: `write`, `read` and `now` act on the state of the host.
pub mod Frames
pub mod Exchange
use Prim.Native.Nat.{pred}
use aldis.Prelude.{
  ℕ, zero, suc, ◌+◌, ◌-◌, ◌*◌, ◌/◌, ◌%◌, ◌^◌, ◌==◌, ltb, leb, if◌then◌else◌, true, false, List, [],
  ◌∷◌, ◌++◌, map, Bytes, length, Option, none, some, Result, ok, err, Exec,
}
use aldis.Prelude.Chunks.{chunks}
use aldis.Katapult.Assembler.{AssemblyError, too_large, length_exceeded, push}

abbrev pub can_admin_id : ℕ
can_admin_id = 0x3f0

abbrev pub can_admin_set_node_id : ℕ
can_admin_set_node_id = 0x11

abbrev pub klipper_admin_reboot : ℕ
klipper_admin_reboot = 0x02

abbrev pub katapult_node_id : ℕ
katapult_node_id = 129

abbrev pub katapult_request_id : ℕ
katapult_request_id = katapult_node_id * 2 + 0x100

abbrev pub katapult_response_id : ℕ
katapult_response_id = katapult_request_id + 1

abbrev pub classic_can_max_data : ℕ
classic_can_max_data = 8

abbrev pub max_can_uuid : ℕ
max_can_uuid = 2 ^ 48 - 1

pub record CanFrame : Type 0 where
  pub id : ℕ
  pub payload : Bytes

pub data CanError : Type 0 where
  identifier_out_of_range : ℕ → CanError
  payload_too_large : ℕ → CanError
  uuid_out_of_range : ℕ → CanError

-- `CanFrame::new`
unfoldable pub new_frame : ℕ → Bytes → Result CanError CanFrame
new_frame id payload =
    if ltb 0x7ff id
    then err (identifier_out_of_range id)
    else if ltb classic_can_max_data (length payload)
    then err (payload_too_large (length payload))
    else ok (record { id = id; payload = payload })

-- `KatapultCanAddress::new`: an address is its UUID
unfoldable pub new_address : ℕ → Result CanError ℕ
new_address uuid = if ltb max_can_uuid uuid then err (uuid_out_of_range uuid) else ok uuid

-- `uuid.to_be_bytes()[2..]` of a `u64`
abbrev pub uuid_bytes : ℕ → Bytes
uuid_bytes uuid =
    (uuid / 2 ^ 40 % 256)
    ∷ (uuid / 2 ^ 32 % 256)
    ∷ (uuid / 2 ^ 24 % 256)
    ∷ (uuid / 2 ^ 16 % 256)
    ∷ (uuid / 2 ^ 8 % 256)
    ∷ (uuid % 256)
    ∷ []

-- `expect` of a frame that is known to be valid; theorems of `Frames` show that it is
unfoldable pub expect_frame : Result CanError CanFrame → CanFrame
expect_frame (ok frame) = frame
expect_frame (err e) = record { id = 0; payload = [] }

unfoldable pub assignment_frame : ℕ → CanFrame
unfolding expect_frame new_frame
assignment_frame uuid = expect_frame (
    new_frame can_admin_id
      (can_admin_set_node_id ∷ (uuid_bytes uuid ++ (katapult_node_id % 256) ∷ [])))

unfoldable pub bootloader_entry_frame : ℕ → CanFrame
unfolding expect_frame new_frame
bootloader_entry_frame uuid =
    expect_frame (new_frame can_admin_id (klipper_admin_reboot ∷ uuid_bytes uuid))

unfoldable pub fragment_request : Bytes → List CanFrame
fragment_request request =
    map (λ chunk. expect_frame (new_frame katapult_request_id chunk))
      (chunks classic_can_max_data request)

pub data CanTransportError (E : Type 0) : Type 0 where
  io : E → CanTransportError E
  response_too_large : ℕ → CanTransportError E
  -- expected, actual
  response_length_exceeded : ℕ → ℕ → CanTransportError E
  timeout : CanTransportError E

pub record CanIo (S E : Type 0) : Type 0 where
  pub write : CanFrame → Exec S E (Unit {0})
  pub read : Exec S E CanFrame
  pub now : S → ℕ

abbrev pub assembly_failure : {E : Type 0} → AssemblyError → CanTransportError E
assembly_failure (too_large n) = response_too_large n
assembly_failure (length_exceeded expected actual) = response_length_exceeded expected actual

module _ {S E : Type 0} (can : CanIo S E) where
  unfoldable pub write_all : List CanFrame → Exec S (CanTransportError E) (Unit {0})
  write_all [] s = (ok tt, s)
  write_all (frame ∷ frames) s =
      let (result, s') = can.write frame s in
      elim result [ ok _ ↦ write_all frames s' | err e ↦ (err (io e), s') ]

  -- The receive loop, on fuel; `none` means that the fuel ran out.
  unfoldable pub receive : ℕ → ℕ → Bytes → S → Option (Result (CanTransportError E) Bytes × S)
  receive zero deadline buffer s = none
  receive (suc fuel) deadline buffer s =
      if leb deadline (can.now s)
      then some (err timeout, s)
      else let (result, s') = can.read s in
        elim result [
          | err e ↦ some (err (io e), s')
          | ok frame ↦
              let (pushed, rest) = push buffer frame.payload in
              elim (frame.id == katapult_response_id) [
                | false ↦ receive fuel deadline buffer s'
                | true ↦ elim pushed [
                  | ok none ↦ receive fuel deadline rest s'
                  | ok (some response) ↦ some (ok response, s')
                  | err e ↦ some (err (assembly_failure e), s')
                ]
              ]
        ]

  unfoldable pub exchange : ℕ → ℕ → Bytes → S → Option (Result (CanTransportError E) Bytes × S)
  exchange fuel exchange_timeout request s =
      let (sent, s') = write_all (fragment_request request) s in
      elim sent [
        | ok _ ↦ receive fuel (can.now s' + exchange_timeout) [] s'
        | err e ↦ some (err e, s')
      ]

  unfoldable pub request_bootloader_entry : ℕ → Exec S (CanTransportError E) (Unit {0})
  request_bootloader_entry uuid = write_all (bootloader_entry_frame uuid ∷ [])

  unfoldable pub assign_node : ℕ → Exec S (CanTransportError E) (Unit {0})
  assign_node uuid = write_all (assignment_frame uuid ∷ [])
