-- ===== src/Fleet/Peers.antt =====
-- The rule between printers (src/fleet/peer.rs): a USB-CAN bridge is flashed only while every other
-- printer on its bus is idle. A set of interfaces is a list, of which only its members count; the
-- refusal leaves out which shared interface its text names.
pub mod Spared
mod Examples
use aldis.Prelude.{
  ◌&&◌, ◌||◌, not, Bool, true, false, if◌then◌else◌, List, [], ◌∷◌, ◌++◌, map, bytes_eq, Option,
  none, some, Result, ok, err,
}
use aldis.Prelude.Iter.{keep, filter_map}
use aldis.Prelude.Text.{Text, any}
use aldis.Fleet.{Mcu, McuTransport, serial, can, is_usb_can_bridge}
use aldis.Update.{
  KlippyState, ready, startup, klippy_error, shutdown, disconnected, PrintState, is_idle,
}

pub data UnreportedReason : Type 0 where
  not_identified not_responding : UnreportedReason

pub record UnreportedMcu : Type 0 where
  pub name : Text
  pub transport : Option McuTransport
  pub reason : UnreportedReason

pub record McuInventory : Type 0 where
  pub mcus : List Mcu
  pub unreported : List UnreportedMcu

pub record PeerState : Type 0 where
  pub name : Text
  pub url : Text
  pub unit : Option Text
  pub klippy : Option KlippyState
  pub print_state : Option PrintState
  pub inventory : Option McuInventory

pub data Bus : Type 0 where
  interfaces : List Text → Bus
  unknown_bus : Bus

pub data BridgeRefusal : Type 0 where
  unreachable starting_up mcus_unknown : Text → BridgeRefusal
  not_idle : Text → Option PrintState → BridgeRefusal

-- `targets.contains(&name)`
abbrev pub among : List Text → Text → Bool
among names name = any (λ listed. bytes_eq listed name) names

-- the interface of a CAN transport
abbrev pub interface_of : Option McuTransport → Option Text
interface_of none = none
interface_of (some (serial device)) = none
interface_of (some (can interface uuid)) = some interface

abbrev pub add_interface : Option Text → Bus → Bus
add_interface none bus = unknown_bus
add_interface (some interface) unknown_bus = unknown_bus
add_interface (some interface) (interfaces names) = interfaces (interface ∷ names)

-- the buses of bridges, one after the other
unfoldable pub bus_of : List Mcu → Bus
bus_of [] = interfaces []
bus_of (mcu ∷ mcus) = add_interface (interface_of mcu.transport) (bus_of mcus)

abbrev pub bus_of_some : List Mcu → Option Bus
unfolding bus_of
bus_of_some [] = none
bus_of_some (mcu ∷ mcus) = some (bus_of (mcu ∷ mcus))

unfoldable pub bridge_bus : McuInventory → List Text → Option Bus
unfolding is_usb_can_bridge any bus_of
bridge_bus inventory targets =
    bus_of_some (keep (λ mcu. among targets mcu.name && is_usb_can_bridge mcu) inventory.mcus)

unfoldable pub peer_interfaces : McuInventory → List Text
peer_interfaces inventory =
    filter_map (λ (mcu : Mcu). interface_of mcu.transport) inventory.mcus
    ++ filter_map (λ (mcu : UnreportedMcu). interface_of mcu.transport) inventory.unreported

-- whether a peer is on the bus
abbrev pub is_shared : Bus → List Text → Bool
is_shared unknown_bus used = any (λ interface. true) used
is_shared (interfaces bridge) used = any (among bridge) used

abbrev pub is_idle_peer : KlippyState → Option PrintState → Bool
is_idle_peer klippy_error state = true
is_idle_peer shutdown state = true
is_idle_peer ready none = false
is_idle_peer ready (some state) = is_idle state
is_idle_peer startup none = false
is_idle_peer startup (some state) = is_idle state
is_idle_peer disconnected none = false
is_idle_peer disconnected (some state) = is_idle state

-- why a peer whose MCUs are known does not allow the flash
abbrev pub judge_known : Bus → PeerState → KlippyState → McuInventory → Option BridgeRefusal
unfolding any peer_interfaces
judge_known bus peer klippy inventory =
    if is_shared bus (peer_interfaces inventory) && not (is_idle_peer klippy peer.print_state)
    then some (not_idle peer.name peer.print_state)
    else none

abbrev pub judge_running :
    Bus → PeerState → KlippyState → Option McuInventory → Option BridgeRefusal
unfolding judge_known
judge_running bus peer klippy none = some (mcus_unknown peer.name)
judge_running bus peer klippy (some inventory) = judge_known bus peer klippy inventory

-- one round of the loop over the peers
unfoldable pub judge_peer : Bus → PeerState → Option KlippyState → Option BridgeRefusal
unfolding judge_running
judge_peer bus peer none = some (unreachable peer.name)
judge_peer bus peer (some disconnected) = none
judge_peer bus peer (some startup) = some (starting_up peer.name)
judge_peer bus peer (some ready) = judge_running bus peer ready peer.inventory
judge_peer bus peer (some klippy_error) = judge_running bus peer klippy_error peer.inventory
judge_peer bus peer (some shutdown) = judge_running bus peer shutdown peer.inventory

unfoldable pub judge_peers : Bus → List PeerState → Result BridgeRefusal (Unit {0})
judge_peers bus [] = ok tt
judge_peers bus (peer ∷ peers) =
    let rest = judge_peers bus peers in
    elim (judge_peer bus peer peer.klippy) [ none ↦ rest | some refusal ↦ err refusal ]

unfoldable pub check_bridge :
    McuInventory → List Text → List PeerState → Result BridgeRefusal (Unit {0})
unfolding judge_peers
check_bridge inventory targets peers = elim (bridge_bus inventory targets) [
  | none ↦ ok tt
  | some bus ↦ judge_peers bus peers
]

-- `seen.insert` of `peers_excluding`
unfoldable pub first_of_each : Text → List Text → List PeerState → List PeerState
first_of_each own seen [] = []
first_of_each own seen (peer ∷ peers) =
    let others = first_of_each own seen peers in
    elim (peer.unit) [
      | none ↦ peer ∷ others
      | some unit ↦
          let rest = first_of_each own (unit ∷ seen) peers in
          if bytes_eq unit own || among seen unit then others else peer ∷ rest
    ]

unfoldable pub peers_excluding : Text → List PeerState → List PeerState
unfolding first_of_each
peers_excluding own peers = first_of_each own [] peers
