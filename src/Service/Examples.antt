-- ===== src/Service/Examples.antt =====
-- Names of services.
use aldis.Prelude.{◌≡◌, ◌↔◌, refl, ok, err}
use aldis.Prelude.Text.{codes, all, strip_prefix, one_of}
use aldis.Service.{KlipperUnit, parse_unit}
use aldis.Service.Unit.{IsUnitName, parse_unit-exact}

abbrev voron : KlipperUnit
voron = record { as_str = codes "klipper@voron" }

parse_unit-exact_example :
    (parse_unit (codes "klipper@voron") ≡ ok voron)
    ↔ (IsUnitName (codes "klipper@voron") × (codes "klipper@voron" ≡ codes "klipper@voron"))
parse_unit-exact_example = parse_unit-exact (codes "klipper@voron") voron

other_refused : parse_unit (codes "klipper; reboot") ≡ err (codes "klipper; reboot")
unfolding parse_unit all strip_prefix one_of
other_refused = refl
