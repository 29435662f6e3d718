-- ===== src/Fleet/Peers/Examples.antt =====
-- A bridge on can0, and a printer that prints on can1.
use aldis.Prelude.{true, [], ◌∷◌, ◌≡◌, refl, none, some, ok, bytes_eq, All}
use aldis.Prelude.Text.{
  Text, codes, any, lines, split, strip_prefix, strip_suffix, trim, trim_start, trim_end, contains,
  starts_with,
}
use aldis.Prelude.Iter.{keep, filter_map}
use aldis.Fleet.{Mcu, can, is_usb_can_bridge}
use aldis.Fleet.Peers.{
  McuInventory, PeerState, bus_of, bridge_bus, peer_interfaces, judge_known, judge_running,
  judge_peer, judge_peers, check_bridge,
}
use aldis.Fleet.Peers.Spared.{IsSpared, check_bridge-spares}
use aldis.Update.{ready, printing}

abbrev mcu_on : Text → Text → Mcu
mcu_on interface kconfig = record {
  name = codes "bridge";
  app = none;
  version = none;
  mcu = codes "rp2040";
  canbus_frequency_hz = none;
  build_versions = none;
  transport = some (can interface 0x0123456789ab);
  kconfig = kconfig;
}

abbrev bridge : Mcu
bridge = mcu_on (codes "can0") (codes "CONFIG_RPXXXX_USBCANBUS=y\n")

abbrev own : McuInventory
own = record { mcus = bridge ∷ []; unreported = [] }

abbrev other : PeerState
other = record {
  name = codes "other";
  url = codes "http://localhost:7126";
  unit = none;
  klippy = some ready;
  print_state = some printing;
  inventory = some (record { mcus = mcu_on (codes "can1") [] ∷ []; unreported = [] });
}

other_bus : check_bridge own (codes "bridge" ∷ []) (other ∷ []) ≡ ok tt
unfolding check_bridge judge_peers judge_peer judge_running judge_known bridge_bus bus_of
    peer_interfaces keep filter_map is_usb_can_bridge any lines split strip_prefix strip_suffix trim
    trim_start trim_end contains starts_with bytes_eq
other_bus = refl

bridge_is_one : is_usb_can_bridge bridge ≡ true
unfolding is_usb_can_bridge any lines split strip_prefix strip_suffix trim trim_start trim_end
    contains starts_with bytes_eq
bridge_is_one = refl

check_bridge-spares_example : All (IsSpared bridge) (other ∷ [])
unfolding any bytes_eq
check_bridge-spares_example =
    check_bridge-spares own (codes "bridge" ∷ []) (other ∷ []) [] [] bridge refl refl bridge_is_one
      other_bus
