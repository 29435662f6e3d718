-- ===== src/Vendors/Beacon.antt =====
-- Beacon firmware (src/beacon.rs): which version an MCU reports, which hardware revision a device
-- names, and the firmware file for it.
pub mod Image
pub mod Targets
mod Examples
use mathlib.Core.Option
use aldis.Prelude.{
  ℕ, ◌+◌, ◌*◌, ◌/◌, ◌%◌, ◌&&◌, ◌||◌, not, Bool, true, false, if◌then◌else◌, List, [], ◌∷◌, ◌++◌,
  bytes_eq, Option, none, some,
}
use aldis.Prelude.Text.{
  Text, codes, is_empty, all, is_alphanumeric, strip_prefix, starts_with, split,
}
use aldis.Prelude.Iter.{first}
use aldis.Prelude.Strings.{
  split_whitespace, eq_ignore_ascii_case, to_ascii_lowercase, is_number, parse_below,
}
use aldis.Fleet.{Mcu, app_name, version_name}
use aldis.Eligibility.{Semver, chain}

abbrev pub vendor_id : ℕ
vendor_id = 0x04d8

abbrev pub beacon_name : Text
beacon_name = codes "Beacon"

-- a plain number that fits a byte
abbrev pub part : Text → Option ℕ
part s = if is_number s then parse_below 256 s else none

-- `is_none_or(|app| app.eq_ignore_ascii_case(NAME))`
abbrev pub names_no_other : Option Text → Bool
names_no_other none = true
names_no_other (some app) = eq_ignore_ascii_case app beacon_name

abbrev names_beacon : Option Text → Bool
names_beacon none = false
names_beacon (some word) = eq_ignore_ascii_case word beacon_name

unfoldable pub names_itself_beacon : Mcu → Bool
unfolding app_name version_name eq_ignore_ascii_case
names_itself_beacon mcu = names_no_other (app_name mcu) && names_beacon (version_name mcu)

unfoldable pub config_section : Text → Option Text
unfolding strip_prefix
config_section object = chain (strip_prefix (codes "mcu ") object) (λ section.
    if bytes_eq section (codes "beacon") || starts_with (codes "beacon sensor ") section
    then some section
    else none)

unfoldable pub revision_from_product : Text → Option Text
unfolding strip_prefix split all
revision_from_product product = chain (strip_prefix (codes "Beacon ") product) (λ rest.
    chain (strip_prefix (codes "rev") (to_ascii_lowercase rest)) (λ later.
      chain (first (split b' ' later)) (λ revision.
        if not (is_empty revision) && all is_alphanumeric revision then some revision else none)))

module _ {V : Type 0} (semver : Semver V) where
  -- three numbers, and no more
  abbrev version_of : List Text → Option V
  version_of (a ∷ b ∷ c ∷ []) = chain (part a) (λ major.
      chain (part b) (λ minor. chain (part c) (λ patch. some (semver.version major minor patch))))
  version_of _ = none

  abbrev reported_words : List Text → Option V
  reported_words (word ∷ number ∷ []) =
      if eq_ignore_ascii_case word beacon_name then version_of (split b'.' number) else none
  reported_words _ = none

  unfoldable pub parse_reported : Text → Option V
  unfolding split_whitespace parse_below
  parse_reported version = reported_words (split_whitespace version)

  unfoldable pub version_from_bcd : ℕ → V
  version_from_bcd bcd =
      semver.version (bcd / 256 / 16) (bcd / 256 % 16 * 10 + bcd % 256 / 16) (bcd % 16)

  unfoldable pub reported : V → Text
  reported version = beacon_name ++ (codes " " ++ semver.display version)

  -- `identify`: the version is all that a `Firmware` holds
  unfoldable pub identify : Mcu → Option V
  unfolding parse_reported
  identify mcu =
      if not (names_no_other (app_name mcu)) then none else chain mcu.version parse_reported

  unfoldable pub is_beacon : Mcu → Bool
  unfolding identify
  is_beacon mcu = elim (identify mcu) [ none ↦ false | some version ↦ true ]
