-- ===== src/Vendors/Beacon/Image.antt =====
-- A Beacon firmware file (src/beacon.rs): a payload and a DFU suffix, whose checksum must match and
-- whose vendor must be Beacon's.
pub mod RoundTrip
use aldis.Prelude.{
  ℕ, zero, suc, ◌+◌, ◌-◌, ◌/◌, ◌%◌, ◌==◌, ltb, ◌||◌, not, if◌then◌else◌, List, [], ◌∷◌, ◌++◌, Bytes,
  bytes_eq, bit_xor, length, take, drop, get_or, Result, ok, err,
}
use aldis.Prelude.Text.{Text, is_empty}
use aldis.Prelude.Words.{u16_from_le, u32_from_le, shr}
use aldis.Prepare.{hex_digit}
use aldis.Eligibility.{Semver}
use aldis.Vendors.Beacon.{vendor_id, version_from_bcd}

abbrev pub suffix_length : ℕ
suffix_length = 16

abbrev pub suffix_signature : Bytes
suffix_signature = b'U' ∷ b'F' ∷ b'D' ∷ []

pub record FirmwareImage (V : Type 0) : Type 0 where
  pub payload : Bytes
  pub vendor : ℕ
  pub product : ℕ
  pub version : V

-- `{:04x}`
abbrev pub hex_word : ℕ → Text
hex_word v =
    hex_digit (v / 4096 % 16)
    ∷ hex_digit (v / 256 % 16)
    ∷ hex_digit (v / 16 % 16)
    ∷ hex_digit (v % 16)
    ∷ []

unfoldable pub usb_id : {V : Type 0} → FirmwareImage V → Text
usb_id image = hex_word image.vendor ++ (b':' ∷ hex_word image.product)

pub data ImageError : Type 0 where
  too_short no_suffix checksum_differs : ImageError
  wrong_vendor : ℕ → ImageError
  empty : ImageError

abbrev dfu_step : ℕ → ℕ
dfu_step crc = if crc % 2 == 1 then bit_xor (shr crc 1) 0xedb88320 else shr crc 1

abbrev pub dfu_steps : ℕ → ℕ → ℕ
dfu_steps zero crc = crc
dfu_steps (suc n) crc = dfu_steps n (dfu_step crc)

unfoldable pub crc_from : ℕ → Bytes → ℕ
crc_from crc [] = crc
crc_from crc (byte ∷ bytes) = crc_from (dfu_steps 8 (bit_xor crc byte)) bytes

unfoldable pub dfu_crc : Bytes → ℕ
unfolding crc_from
dfu_crc = crc_from 0xffffffff

-- the last sixteen bytes
abbrev pub suffix_of : Bytes → Bytes
suffix_of file = drop (length file - suffix_length) file

-- the word of the suffix at an offset
abbrev pub word_at : Bytes → ℕ → ℕ
word_at suffix offset = u16_from_le (get_or suffix offset 0) (get_or suffix (offset + 1) 0)

module _ {V : Type 0} (semver : Semver V) where
  -- the checks on a file with such a suffix, whose length byte is `length'`
  abbrev checked : Bytes → Bytes → ℕ → Result ImageError (FirmwareImage V)
  checked file suffix length' =
      if not (bytes_eq (take 3 (drop 8 suffix)) suffix_signature)
      then err no_suffix
      else if ltb length' suffix_length || ltb (length file) length'
      then err no_suffix
      else if not (dfu_crc (take (length file - 4) file) == u32_from_le (drop 12 suffix))
      then err checksum_differs
      else if not (word_at suffix 4 == vendor_id)
      then err (wrong_vendor (word_at suffix 4))
      else if is_empty (take (length file - length') file)
      then err empty
      else ok (record {
        payload = take (length file - length') file;
        vendor = word_at suffix 4;
        product = word_at suffix 2;
        version = version_from_bcd semver (word_at suffix 0);
      })

  unfoldable pub parse_image : Bytes → Result ImageError (FirmwareImage V)
  unfolding dfu_crc version_from_bcd
  parse_image file =
      if ltb (length file) suffix_length
      then err too_short
      else checked file (suffix_of file) (get_or (suffix_of file) 11 0)
