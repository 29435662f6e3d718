-- ===== src/Fleet.antt =====
-- The MCUs that Moonraker reports (src/moonraker.rs) and the order in which they are flashed
-- (src/flash_order.rs).
pub mod Order
pub mod Peers
mod Examples
use aldis.Prelude.{
  ℕ, ◌==◌, ◌&&◌, ◌||◌, not, Bool, true, false, if◌then◌else◌, List, [], ◌∷◌, ◌++◌, bytes_eq, Option,
  none, some,
}
use aldis.Prelude.Iter.{first}
use aldis.Prelude.Strings.{split_whitespace}
use aldis.Prelude.Text.{
  Text, codes, lines, trim, trim_start, trim_end, strip_prefix, strip_suffix, contains, starts_with,
  any,
}

pub data McuTransport : Type 0 where
  serial : Text → McuTransport
  -- interface, uuid
  can : Text → ℕ → McuTransport

pub record Mcu : Type 0 where
  pub name : Text
  pub app : Option Text
  pub version : Option Text
  pub mcu : Text
  pub canbus_frequency_hz : Option ℕ
  pub build_versions : Option Text
  pub transport : Option McuTransport
  pub kconfig : Text

-- `filter(|text| !text.is_empty())`
abbrev pub nonempty : Text → Option Text
nonempty [] = none
nonempty (x ∷ s) = some (x ∷ s)

unfoldable pub app_name : Mcu → Option Text
unfolding trim trim_start trim_end
app_name mcu = elim (mcu.app) [ none ↦ none | some app ↦ nonempty (trim app) ]

unfoldable pub version_name : Mcu → Option Text
unfolding split_whitespace
version_name mcu = elim (mcu.version) [ none ↦ none | some v ↦ first (split_whitespace v) ]

-- the derived equality of transports
unfoldable pub transport_eq : McuTransport → McuTransport → Bool
transport_eq (serial a) (serial b) = bytes_eq a b
transport_eq (can a u) (can b v) = bytes_eq a b && u == v
transport_eq _ _ = false

-- `inventory.mcus.iter().find(|mcu| mcu.name == name)`
unfoldable pub find_mcu : Text → List Mcu → Option Mcu
find_mcu name [] = none
find_mcu name (mcu ∷ mcus) =
    let rest = find_mcu name mcus in if bytes_eq mcu.name name then some mcu else rest

-- the test of one line
unfoldable pub selects_bridge : Text → Bool
selects_bridge line = elim (strip_prefix (codes "CONFIG_") (trim line)) [
  | none ↦ false
  | some rest ↦ elim (strip_suffix (codes "=y") rest) [
    | none ↦ false
    | some symbol ↦ contains (codes "USBCANBUS") symbol && not (starts_with (codes "HAVE_") symbol)
  ]
]

unfoldable pub kconfig_selects_usb_can_bridge : Text → Bool
unfolding selects_bridge
kconfig_selects_usb_can_bridge kconfig = any selects_bridge (lines kconfig)

unfoldable pub is_usb_can_bridge : Mcu → Bool
unfolding kconfig_selects_usb_can_bridge
is_usb_can_bridge mcu = kconfig_selects_usb_can_bridge mcu.kconfig

-- `partition`: what passes the test, and the rest
unfoldable pub partition : (Text → Bool) → List Text → List Text × List Text
partition test [] = ([], [])
partition test (x ∷ xs) =
    let (passed, rest) = partition test xs in
    if test x then (x ∷ passed, rest) else (passed, x ∷ rest)

-- the closure `is_bridge`
unfoldable pub is_bridge : List Mcu → Text → Bool
unfolding find_mcu is_usb_can_bridge
is_bridge mcus name = elim (find_mcu name mcus) [ none ↦ false | some mcu ↦ is_usb_can_bridge mcu ]

unfoldable pub flash_order : List Mcu → List Text → List Text
unfolding partition is_bridge
flash_order mcus targets =
    let (bridges, others) = partition (is_bridge mcus) targets in others ++ bridges
