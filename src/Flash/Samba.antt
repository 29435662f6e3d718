-- ===== src/Flash/Samba.antt =====
-- Where SAMD21 firmware goes (src/flash/samba.rs), decided by the Kconfig.
pub mod Monitor
use aldis.Prelude.{
  ℕ, ◌==◌, ltb, ◌&&◌, Bool, true, false, if◌then◌else◌, length, bytes_eq, Option, none, some,
  Result, ok, err,
}
use aldis.Prelude.Text.{Text, codes, any, lines, trim, strip_prefix, strip_suffix, starts_with}
use aldis.Prelude.Iter.{find, filter_map}
use aldis.Eligibility.{chain}

abbrev staging_ram_variant : Text
staging_ram_variant = codes "18"

abbrev ends_with : Text → Text → Bool
ends_with suffix s = elim (strip_suffix suffix s) [ none ↦ false | some rest ↦ true ]

unfoldable pub is_flashable_part : Text → Bool
unfolding strip_prefix strip_suffix
is_flashable_part family = elim (strip_prefix (codes "SAMD21") family) [
  | none ↦ false
  | some variant ↦ length variant == 3 && ends_with staging_ram_variant variant
]

-- the family that a line selects
abbrev pub machine_family : Text → Option Text
machine_family line = chain (strip_prefix (codes "CONFIG_MACH_") line) (strip_suffix (codes "=y"))

unfoldable pub samd21_part : Text → Option Text
unfolding find filter_map starts_with lines
samd21_part kconfig =
    find (λ family. ltb 6 (length family) && starts_with (codes "SAMD21") family)
      (filter_map (λ line. machine_family (trim line)) (lines kconfig))

-- The replies that could not be understood are left out of the errors.
pub data SambaError (IE : Type 0) : Type 0 where
  no_bootloader_offset : SambaError IE
  insufficient_ram : Text → SambaError IE
  -- application start, protected size
  bootloader_size_mismatch : ℕ → ℕ → SambaError IE
  io : IE → SambaError IE
  unexpected_reply : ℕ → SambaError IE
  unsupported_chip : ℕ → SambaError IE
  empty_firmware : SambaError IE
  -- end, flash size
  firmware_too_large : ℕ → ℕ → SambaError IE
  verification_mismatch : ℕ → SambaError IE

abbrev enabled : Text → Text → Bool
enabled kconfig symbol = any (λ line. bytes_eq (trim line) symbol) (lines kconfig)

abbrev start_of : Text → ℕ
start_of kconfig =
    if enabled kconfig (codes "CONFIG_SAMD_FLASH_START_4000=y") then 0x4000 else 0x2000

-- a part that a Kconfig selects and that has too little RAM
abbrev too_small : Option Text → Option Text
too_small none = none
too_small (some part) = if is_flashable_part part then none else some part

module _ {IE : Type 0} where
  -- A `SambaTarget` is its application start.
  unfoldable pub target_from_kconfig : Text → Result (SambaError IE) ℕ
  unfolding any is_flashable_part samd21_part
  target_from_kconfig kconfig =
      if enabled kconfig (codes "CONFIG_SAMD_FLASH_START_0000=y")
      then err no_bootloader_offset
      else elim (too_small (samd21_part kconfig)) [
        | some part ↦ err (insufficient_ram part)
        | none ↦ ok (start_of kconfig)
      ]
