-- ===== src/Flash/Samba/Monitor.antt =====
-- The SAM-BA monitor of a SAMD21 and a flash through it (src/flash/samba.rs). The byte stream to the
-- monitor is a parameter.
pub mod Addresses
pub mod Bounds
pub mod Orders
pub mod Writes
mod Examples
use aldis.Prelude.{
  ℕ, zero, suc, ◌+◌, ◌-◌, ◌*◌, ◌/◌, ◌%◌, ◌^◌, ◌==◌, ltb, leb, ◌&&◌, ◌||◌, not, Bool, true, false,
  if◌then◌else◌, List, [], ◌∷◌, ◌++◌, Bytes, bytes_eq, length, take, drop, get_or, replicate,
  bit_xor, Option, none, some, Result, ok, err, map_err, Exec, ◌>>=◌, ◌>>◌, pure, raise,
}
use aldis.Prelude.Text.{Text, codes, is_empty, is_digit}
use aldis.Prelude.Words.{u32_from_le}
use aldis.Prelude.Chunks.{chunks}
use aldis.Flash.{FlashResult}
use aldis.Flash.Samba.{
  SambaError, bootloader_size_mismatch, io, unexpected_reply, unsupported_chip, empty_firmware,
  firmware_too_large, verification_mismatch,
}
use aldis.Eligibility.{chain}

abbrev dsu_device_id : ℕ
dsu_device_id = 0x41002018

abbrev nvmctrl_param : ℕ
nvmctrl_param = 0x41004008

abbrev nvm_user_row : ℕ
nvm_user_row = 0x00804000

abbrev pub aircr : ℕ
aircr = 0xE000ED0C

abbrev pub aircr_sysresetreq : ℕ
aircr_sysresetreq = 0x05FA0004

abbrev pub samd21_device_id : ℕ
samd21_device_id = 0x1001

abbrev pub staging_address : ℕ
staging_address = 0x20004000

abbrev pub chunk_size : ℕ
chunk_size = 0x1000

abbrev pub max_version_line : ℕ
max_version_line = 128

abbrev pub copy_ack : Bytes
copy_ack = b'Y' ∷ 10 ∷ 13 ∷ []

-- `SambaPort`: a byte stream; a read that times out or ends early is told apart by its error.
pub record SambaPort (S IE : Type 0) : Type 0 where
  pub write_all : Bytes → Exec S IE (Unit {0})
  pub flush : Exec S IE (Unit {0})
  pub read_exact : ℕ → Exec S IE Bytes
  -- `read` into one byte
  pub read : Exec S IE (Unit {0})
  pub discard_input : Exec S IE (Unit {0})
  pub is_timed_out : IE → Bool
  pub is_unexpected_eof : IE → Bool

-- `{:08X}`
abbrev pub upper_digit : ℕ → ℕ
upper_digit n = if ltb n 10 then b'0' + n else 55 + n

abbrev pub hex8 : ℕ → Text
hex8 v =
    upper_digit (v / 0x10000000 % 16)
    ∷ upper_digit (v / 0x1000000 % 16)
    ∷ upper_digit (v / 0x100000 % 16)
    ∷ upper_digit (v / 0x10000 % 16)
    ∷ upper_digit (v / 0x1000 % 16)
    ∷ upper_digit (v / 0x100 % 16)
    ∷ upper_digit (v / 0x10 % 16)
    ∷ upper_digit (v % 16)
    ∷ []

abbrev pub command : Text → ℕ → Text → Text
command letter address rest = letter ++ (hex8 address ++ (codes "," ++ (rest ++ codes "#")))

-- digits of a radix 16 number, `none` for another character
abbrev hex_value : ℕ → Option ℕ
hex_value c =
    if is_digit c
    then some (c - b'0')
    else if leb b'a' c && leb c b'f'
    then some (c - 87)
    else if leb b'A' c && leb c b'F'
    then some (c - 55)
    else none

unfoldable pub hex_digits : ℕ → Text → Option ℕ
hex_digits n [] = some n
hex_digits n (c ∷ s) = elim (hex_value c) [ none ↦ none | some d ↦ hex_digits (n * 16 + d) s ]

-- `u32::from_str_radix(digits, 16)` on eight characters, of which the first may be a sign
abbrev parse_hex : Text → Option ℕ
parse_hex [] = none
parse_hex (c ∷ s) = if c == b'+' then hex_digits 0 s else hex_digits 0 (c ∷ s)

abbrev below_u16 : ℕ → Option ℕ
below_u16 n = if ltb n (2 ^ 16) then some n else none

unfoldable pub crc_of_reply : Bytes → Option ℕ
unfolding hex_digits
crc_of_reply reply =
    if get_or reply 0 0 == b'Z' && get_or reply 9 0 == b'#'
    then chain (parse_hex (take 8 (drop 1 reply))) below_u16
    else none

-- `crc16_xmodem`
abbrev xmodem_step : ℕ → ℕ
xmodem_step crc = if leb 0x8000 crc then bit_xor (crc * 2 % 2 ^ 16) 0x1021 else crc * 2 % 2 ^ 16

abbrev xmodem_steps : ℕ → ℕ → ℕ
xmodem_steps zero crc = crc
xmodem_steps (suc n) crc = xmodem_steps n (xmodem_step crc)

unfoldable pub xmodem_from : ℕ → Bytes → ℕ
xmodem_from crc [] = crc
xmodem_from crc (byte ∷ bytes) =
    xmodem_from (xmodem_steps 8 (bit_xor crc (byte * 256 % 2 ^ 16))) bytes

unfoldable pub crc16_xmodem : Bytes → ℕ
unfolding xmodem_from
crc16_xmodem = xmodem_from 0

-- the size that the fuse protects
abbrev protected_size : ℕ → Option ℕ
protected_size bootprot = if bootprot == 7 then none else some (0x8000 / 2 ^ bootprot)

abbrev size_of : ℕ → ℕ
size_of param = param % 0x10000 * (8 * 2 ^ (param / 0x10000 % 8))

-- `firmware.len().div_ceil(CHUNK_SIZE) * CHUNK_SIZE`
abbrev pub padded_length : Bytes → ℕ
padded_length firmware = (length firmware + 0xFFF) / chunk_size * chunk_size

-- `block.resize(CHUNK_SIZE, 0xFF)`
abbrev pub padded : Bytes → Bytes
padded chunk = chunk ++ replicate (chunk_size - length chunk) 0xFF

-- `start + (index * CHUNK_SIZE) as u32`
abbrev pub address_of : ℕ → ℕ → ℕ
address_of start index = (start + index * chunk_size % 2 ^ 32) % 2 ^ 32

-- the pieces of the image with their addresses, from an index on
unfoldable pub placed : ℕ → ℕ → List Bytes → List (ℕ × Bytes)
placed start index [] = []
placed start index (chunk ∷ rest) = (address_of start index, chunk) ∷ placed start (index + 1) rest

module _ {S IE : Type 0} (port : SambaPort S IE) where
  abbrev pub Monitor : Type 0 → Type 0
  Monitor A = Exec S (SambaError IE) A

  abbrev pub on_port : {A : Type 0} → Exec S IE A → Monitor A
  on_port m s = let (r, s') = m s in (map_err io r, s')

  -- the answer to `N#`, which need not come
  abbrev pub unless_silent : Result IE Bytes → Monitor (Unit {0})
  unless_silent (ok ack) = pure tt
  unless_silent (err e) =
      if port.is_timed_out e || port.is_unexpected_eof e then pure tt else raise (io e)

  abbrev pub read_ack : Monitor (Unit {0})
  read_ack s = let (r, s') = port.read_exact 2 s in unless_silent r s'

  abbrev pub byte_of : Bytes → ℕ
  byte_of bytes = get_or bytes 0 0

  -- the rest of the banner, with room for so many bytes, the last of which is one too many
  unfoldable pub read_line : ℕ → ℕ → Monitor (Unit {0})
  read_line zero byte = if byte == 10 then pure tt else raise (unexpected_reply b'V')
  read_line (suc room) byte =
      if byte == 10
      then pure tt
      else do next ← on_port (port.read_exact 1); read_line room (byte_of next)

  abbrev pub is_tail : ℕ → Bool
  is_tail byte = byte == 10 || byte == 13 || byte == 0

  -- the first bytes, of which so many may still be the tail of an earlier reply
  unfoldable pub read_banner : ℕ → Monitor (Unit {0})
  unfolding read_line
  read_banner zero = do
    byte ← on_port (port.read_exact 1)
    read_line max_version_line (byte_of byte)
  read_banner (suc skips) = do
    byte ← on_port (port.read_exact 1)
    if is_tail (byte_of byte) then read_banner skips else read_line max_version_line (byte_of byte)

  -- up to so many bytes that may follow the banner
  abbrev pub after_read : Result IE (Unit {0}) → Monitor (Unit {0}) → Monitor (Unit {0})
  after_read (ok u) next = next
  after_read (err e) next = if port.is_timed_out e then pure tt else raise (io e)

  unfoldable pub read_trailing : ℕ → Monitor (Unit {0})
  read_trailing zero s = pure tt s
  read_trailing (suc n) s = let (r, s') = port.read s in after_read r (read_trailing n) s'

  unfoldable pub handshake : Monitor (Unit {0})
  unfolding read_banner read_trailing
  handshake = do
    on_port (port.write_all (codes "N#"))
    on_port port.flush
    read_ack
    on_port port.discard_input
    on_port (port.write_all (codes "V#"))
    on_port port.flush
    read_banner 2
    read_trailing 2

  unfoldable pub read_word : ℕ → Monitor ℕ
  read_word address = do
    on_port (port.write_all (command (codes "w") address (codes "4")))
    word ← on_port (port.read_exact 4)
    pure (u32_from_le word)

  unfoldable pub write_word : ℕ → ℕ → Monitor (Unit {0})
  write_word address value = on_port (port.write_all (command (codes "W") address (hex8 value)))

  unfoldable pub stage : Bytes → Monitor (Unit {0})
  stage bytes = do
    on_port (port.write_all (command (codes "S") staging_address (hex8 (length bytes))))
    on_port (port.write_all bytes)

  unfoldable pub expect_copy_ack : Monitor (Unit {0})
  expect_copy_ack = do
    reply ← on_port (port.read_exact 3)
    if bytes_eq reply copy_ack then pure tt else raise (unexpected_reply b'Y')

  unfoldable pub write_flash : ℕ → ℕ → Monitor (Unit {0})
  unfolding expect_copy_ack
  write_flash address size = do
    on_port (port.write_all (command (codes "Y") staging_address (codes "0")))
    expect_copy_ack
    on_port (port.write_all (command (codes "Y") address (hex8 size)))
    expect_copy_ack

  abbrev pub crc_or : Option ℕ → Monitor ℕ
  crc_or (some crc) = pure crc
  crc_or none = raise (unexpected_reply b'Z')

  unfoldable pub checksum : ℕ → ℕ → Monitor ℕ
  unfolding crc_of_reply
  checksum address size = do
    on_port (port.write_all (command (codes "Z") address (hex8 size)))
    reply ← on_port (port.read_exact 12)
    crc_or (crc_of_reply reply)

  unfoldable pub flash_size : Monitor ℕ
  unfolding read_word
  flash_size = do param ← read_word nvmctrl_param; pure (size_of param)

  unfoldable pub protected_bootloader_size : Monitor (Option ℕ)
  unfolding read_word
  protected_bootloader_size = do row ← read_word nvm_user_row; pure (protected_size (row % 8))

  unfoldable pub reset : Monitor (Unit {0})
  unfolding write_word
  reset = do write_word aircr aircr_sysresetreq; on_port port.flush

  unfoldable pub reboot_into_application : Monitor (Unit {0})
  unfolding handshake reset
  reboot_into_application = do handshake; reset

  abbrev pub expect_start : ℕ → Option ℕ → Monitor (Unit {0})
  expect_start start none = pure tt
  expect_start start (some size) =
      if size == start then pure tt else raise (bootloader_size_mismatch start size)

  abbrev pub expect_room : ℕ → ℕ → Monitor (Unit {0})
  expect_room end size = if ltb size end then raise (firmware_too_large end size) else pure tt

  -- what is checked before anything is written; the size of the flash comes back
  unfoldable pub check_target : ℕ → Bytes → Monitor ℕ
  unfolding handshake read_word protected_bootloader_size flash_size
  check_target start firmware = if is_empty firmware then raise empty_firmware else do
    handshake
    device_id ← read_word dsu_device_id
    if not (device_id / 0x10000 == samd21_device_id) then raise (unsupported_chip device_id) else do
      fuse ← protected_bootloader_size
      expect_start start fuse
      size ← flash_size
      expect_room (start + padded_length firmware) size
      pure size

  unfoldable pub write_blocks : List (ℕ × Bytes) → Monitor (Unit {0})
  unfolding stage write_flash
  write_blocks [] = pure tt
  write_blocks ((address, chunk) ∷ rest) = do
    stage (padded chunk)
    write_flash address chunk_size
    write_blocks rest

  unfoldable pub verify_blocks : List (ℕ × Bytes) → Monitor (Unit {0})
  unfolding checksum crc16_xmodem
  verify_blocks [] = pure tt
  verify_blocks ((address, chunk) ∷ rest) = do
    crc ← checksum address (length chunk)
    if not (crc == crc16_xmodem chunk)
        then raise (verification_mismatch address)
        else verify_blocks rest

  -- once the target is checked
  unfoldable pub program : ℕ → Bytes → Monitor FlashResult
  unfolding write_blocks verify_blocks reset placed chunks
  program start firmware = do
    write_blocks (placed start 0 (chunks chunk_size firmware))
    verify_blocks (placed start 0 (chunks chunk_size firmware))
    reset
    pure (record { reported_pages = none; padded_bytes = padded_length firmware })

  unfoldable pub flash : ℕ → Bytes → Monitor FlashResult
  unfolding check_target program
  flash start firmware = do size ← check_target start firmware; program start firmware
