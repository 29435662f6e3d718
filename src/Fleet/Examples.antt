-- ===== src/Fleet/Examples.antt =====
-- A printer with a bridge, and what is flashed when.
use aldis.Prelude.{Bool, List, [], ◌∷◌, ◌≡◌, refl, none, bytes_eq}
use aldis.Prelude.Text.{
  Text, codes, any, lines, split, strip_prefix, strip_suffix, trim, trim_start, trim_end, contains,
  starts_with,
}
use aldis.Fleet.{Mcu, is_bridge, flash_order}
use aldis.Fleet.Order.{PassLast, of_kind, flash_order-bridges_last}

abbrev mcu_of : Text → Text → Mcu
mcu_of name kconfig = record {
  name = name;
  app = none;
  version = none;
  mcu = codes "rp2040";
  canbus_frequency_hz = none;
  build_versions = none;
  transport = none;
  kconfig = kconfig;
}

abbrev fleet : List Mcu
fleet =
    mcu_of (codes "bridge") (codes "CONFIG_RPXXXX_USBCANBUS=y\n")
    ∷ mcu_of (codes "toolhead") (codes "CONFIG_HAVE_USBCANBUS=y\n")
    ∷ []

abbrev targets : List Text
targets = codes "bridge" ∷ codes "toolhead" ∷ []

bridge_last : flash_order fleet targets ≡ codes "toolhead" ∷ codes "bridge" ∷ []
unfolding flash_order any lines split strip_prefix strip_suffix trim trim_start trim_end contains
    starts_with bytes_eq
bridge_last = refl

flash_order-bridges_last_example :
    PassLast (is_bridge fleet) (flash_order fleet targets)
    × ((kind : Bool)
        → of_kind (is_bridge fleet) kind (flash_order fleet targets)
          ≡ of_kind (is_bridge fleet) kind targets)
flash_order-bridges_last_example = flash_order-bridges_last fleet targets
