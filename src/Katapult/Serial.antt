-- ===== src/Katapult/Serial.antt =====
-- Katapult over a serial line (src/flash/katapult/serial.rs): one exchange. The port and the clock
-- are parameters that act on the state of the host.
pub mod Exchange
use aldis.Prelude.{
  ℕ, zero, suc, ◌+◌, ◌*◌, ◌^◌, leb, if◌then◌else◌, true, false, [], ◌∷◌, ◌++◌, Bytes, Option, none,
  some, Result, ok, err, Exec,
}
use aldis.Prelude.Text.{codes, is_empty}
use aldis.Katapult.Assembler.{AssemblyError, too_large, length_exceeded, push}

abbrev pub bootloader_entry_request : Bytes
bootloader_entry_request = codes "~ " ++ (0x1c ∷ codes " Request Serial Bootloader!! ~")

pub record SerialIo (S E : Type 0) : Type 0 where
  pub write_all : Bytes → Exec S E (Unit {0})
  pub read : Exec S E Bytes
  pub now : S → ℕ

pub data SerialTransportError (E : Type 0) : Type 0 where
  io : E → SerialTransportError E
  response_too_large : ℕ → SerialTransportError E
  -- expected, actual
  response_length_exceeded : ℕ → ℕ → SerialTransportError E
  timeout disconnected : SerialTransportError E

-- 15 seconds, in nanoseconds
abbrev pub default_exchange_timeout : ℕ
default_exchange_timeout = 15 * 10 ^ 9

abbrev pub assembly_failure : {E : Type 0} → AssemblyError → SerialTransportError E
assembly_failure (too_large n) = response_too_large n
assembly_failure (length_exceeded expected actual) = response_length_exceeded expected actual

module _ {S E : Type 0} (port : SerialIo S E) where
  -- The receive loop, on fuel; `none` means that the fuel ran out.
  unfoldable pub receive : ℕ → ℕ → Bytes → S → Option (Result (SerialTransportError E) Bytes × S)
  receive zero deadline buffer s = none
  receive (suc fuel) deadline buffer s =
      if leb deadline (port.now s)
      then some (err timeout, s)
      else let (result, s') = port.read s in
        elim result [
          | err e ↦ some (err (io e), s')
          | ok chunk ↦
              let (pushed, rest) = push buffer chunk in
              elim (is_empty chunk) [
                | true ↦ some (err disconnected, s')
                | false ↦ elim pushed [
                  | ok none ↦ receive fuel deadline rest s'
                  | ok (some response) ↦ some (ok response, s')
                  | err e ↦ some (err (assembly_failure e), s')
                ]
              ]
        ]

  -- `exchange` of a transport with this timeout
  unfoldable pub exchange : ℕ → ℕ → Bytes → S → Option (Result (SerialTransportError E) Bytes × S)
  exchange fuel exchange_timeout request s =
      let (sent, s') = port.write_all request s in
      elim sent [
        | ok _ ↦ receive fuel (port.now s' + exchange_timeout) [] s'
        | err e ↦ some (err (io e), s')
      ]
