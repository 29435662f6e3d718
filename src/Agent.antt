-- ===== src/Agent.antt =====
-- The agent's view of a printer (src/agent/api.rs): what blocks an update, and the state of every
-- MCU with the actions that it allows. The messages are left out, but for why a bridge is refused.
pub mod Service
use aldis.Prelude.{
  ◌&&◌, Bool, true, false, if◌then◌else◌, List, [], ◌∷◌, ◌++◌, map, Option, none, some, Result, ok,
  err,
}
use aldis.Prelude.Text.{Text, codes, is_empty, strip_prefix}
use aldis.Eligibility.{
  Semver, RevisionStatus, current, update_required, newer, indeterminate, revisions_match,
}
use aldis.Fleet.{Mcu, McuTransport, is_usb_can_bridge}
use aldis.Fleet.Peers.{
  UnreportedReason, not_identified, not_responding, UnreportedMcu, McuInventory, PeerState,
  BridgeRefusal, check_bridge,
}
use aldis.Prebuilt
use aldis.Prebuilt.{Running, Targets}
use aldis.Selection.{
  Eligibility, eligible, prebuilt, externally_managed, unsupported, unsupported_mcu,
  UnsupportedReason, no_embedded_config, version_too_old, prebuilt_unsupported, CheckoutRevision,
  known, unknown, TargetVersions, assess_mcu,
}
use aldis.Service.{parse_unit}
use aldis.Update.{
  KlippyState, ready, startup, klippy_error, shutdown, disconnected, PrintState, is_idle,
}

pub record HostSnapshot : Type 0 where
  pub url_is_local : Bool
  pub klipper_unit : Option Text
  -- of `HostInfo`
  pub state : KlippyState
  pub software_version : Option Text
  pub checkout_version : Option CheckoutRevision
  pub print_state : Option PrintState
  pub config_error : Bool

pub record Snapshot (V : Type 0) : Type 0 where
  pub host : HostSnapshot
  pub inventory : Option McuInventory
  pub peers : List PeerState
  pub prebuilt : Targets V

pub data BlockerReason : Type 0 where
  non_local_moonraker unsupported_instance config_error klippy_unavailable restart_pending
        printing :
      BlockerReason

pub data McuState : Type 0 where
  is_current update_available is_indeterminate is_externally_managed unsupported_legacy
        is_unsupported_mcu is_not_identified is_not_responding :
      McuState

pub data Action : Type 0 where
  update : Action

pub record McuEntry : Type 0 where
  pub name : Text
  pub transport : Option McuTransport
  pub running_version : Option Text
  pub state : McuState
  pub refusal : Option BridgeRefusal
  pub actions : List Action

pub record StatusBody : Type 0 where
  pub blocker : Option BlockerReason
  pub mcus : List McuEntry

abbrev pub display_name : Text → Text
unfolding strip_prefix
display_name object = elim (strip_prefix (codes "mcu ") object) [ none ↦ object | some rest ↦ rest ]

abbrev pub or_unknown : Option Text → Text
or_unknown none = codes "unknown"
or_unknown (some text) = text

-- whether the unit is one that cannot be controlled
abbrev pub is_foreign : Option Text → Bool
unfolding parse_unit
is_foreign none = false
is_foreign (some unit) = elim (parse_unit unit) [ ok named ↦ false | err e ↦ true ]

abbrev pub is_unavailable : KlippyState → Bool
is_unavailable startup = true
is_unavailable disconnected = true
is_unavailable ready = false
is_unavailable klippy_error = false
is_unavailable shutdown = false

abbrev pub matches_checkout : Text → Option CheckoutRevision → Bool
unfolding revisions_match
matches_checkout software none = false
matches_checkout software (some unknown) = false
matches_checkout software (some (known checkout)) = revisions_match software checkout

abbrev pub confirmed_idle : Option PrintState → Bool
confirmed_idle none = false
confirmed_idle (some state) = is_idle state

-- the last test, which is made only of a printer that is ready
abbrev pub busy : KlippyState → Option PrintState → Option BlockerReason
busy ready state = if confirmed_idle state then none else some printing
busy startup state = none
busy klippy_error state = none
busy shutdown state = none
busy disconnected state = none

unfoldable pub blocker : HostSnapshot → Option BlockerReason
unfolding is_foreign matches_checkout
blocker host =
    if host.url_is_local
    then if is_foreign host.klipper_unit
      then some unsupported_instance
      else if host.config_error
      then some config_error
      else if is_unavailable host.state
      then some klippy_unavailable
      else if matches_checkout (or_unknown host.software_version) host.checkout_version
      then busy host.state host.print_state
      else some restart_pending
    else some non_local_moonraker

-- `TargetVersions::klipper(..).with_prebuilt(..)`
abbrev pub checkout_of : Option Text → CheckoutRevision
checkout_of none = unknown
checkout_of (some software) = known software

abbrev pub state_of_eligible : Option RevisionStatus → McuState
state_of_eligible (some current) = is_current
state_of_eligible (some update_required) = update_available
state_of_eligible (some newer) = is_indeterminate
state_of_eligible (some indeterminate) = is_indeterminate
state_of_eligible none = is_indeterminate

abbrev pub unsupported_state : UnsupportedReason → McuState
unsupported_state no_embedded_config = unsupported_legacy
unsupported_state (version_too_old firmware running minimum) = unsupported_legacy
unsupported_state (prebuilt_unsupported reason) = is_externally_managed

abbrev pub is_newer_status : Option RevisionStatus → Bool
is_newer_status none = false
is_newer_status (some current) = false
is_newer_status (some update_required) = false
is_newer_status (some newer) = true
is_newer_status (some indeterminate) = false

abbrev pub is_update_available : McuState → Bool
is_update_available update_available = true
is_update_available _ = false

abbrev pub refusal_in : Result BridgeRefusal (Unit {0}) → Option BridgeRefusal
refusal_in (ok u) = none
refusal_in (err refusal) = some refusal

abbrev pub is_none : {A : Type 0} → Option A → Bool
is_none none = true
is_none (some a) = false

-- what stands in the way of an update that is available
abbrev pub offered : Option BridgeRefusal → List Action
offered none = update ∷ []
offered (some refusal) = []

abbrev pub unreported_state : UnreportedReason → McuState
unreported_state not_identified = is_not_identified
unreported_state not_responding = is_not_responding

unfoldable pub unreported_entry : UnreportedMcu → McuEntry
unreported_entry mcu = record {
  name = display_name mcu.name;
  transport = mcu.transport;
  running_version = none;
  state = unreported_state mcu.reason;
  refusal = none;
  actions = [];
}

module _ {V : Type 0} (semver : Semver V) where
  abbrev pub versions_of : Snapshot V → TargetVersions V
  versions_of snapshot = record {
    checkout = checkout_of snapshot.host.software_version;
    prebuilt_targets = snapshot.prebuilt;
  }

  -- Without its target nothing can be compared.
  abbrev pub behind : Option (Prebuilt.Target V) → McuState
  behind none = is_indeterminate
  behind (some target') = update_available

  unfoldable pub assess_prebuilt : Running V → Option RevisionStatus → Targets V → Mcu → McuState
  unfolding Prebuilt.target_of
  assess_prebuilt firmware (some current) targets mcu = is_current
  assess_prebuilt firmware (some update_required) targets mcu =
      behind (Prebuilt.target_of semver targets firmware mcu.name)
  assess_prebuilt firmware (some newer) targets mcu = is_indeterminate
  assess_prebuilt firmware (some indeterminate) targets mcu = is_indeterminate
  assess_prebuilt firmware none targets mcu = is_indeterminate

  abbrev pub state_by : Eligibility V → Option RevisionStatus → Targets V → Mcu → McuState
  unfolding assess_prebuilt
  state_by eligible revision targets mcu = state_of_eligible revision
  state_by (externally_managed app) revision targets mcu = is_externally_managed
  state_by (prebuilt firmware) revision targets mcu = assess_prebuilt firmware revision targets mcu
  state_by (unsupported reason) revision targets mcu = unsupported_state reason
  state_by (unsupported_mcu family) revision targets mcu = is_unsupported_mcu

  -- Newer than its target: nothing to update.
  unfoldable pub state_of_mcu : Snapshot V → Mcu → McuState
  unfolding assess_mcu
  state_of_mcu snapshot mcu =
      let status = assess_mcu semver mcu (versions_of snapshot) in
      if is_newer_status status.revision
      then is_current
      else state_by status.eligibility status.revision snapshot.prebuilt mcu

  unfoldable pub bridge_refusal : Snapshot V → McuInventory → Mcu → Option BridgeRefusal
  unfolding is_usb_can_bridge check_bridge
  bridge_refusal snapshot inventory mcu =
      if is_usb_can_bridge mcu
      then refusal_in (check_bridge inventory (mcu.name ∷ []) snapshot.peers)
      else none

  unfoldable pub entry_of : Snapshot V → McuInventory → Mcu → McuEntry
  unfolding state_of_mcu blocker bridge_refusal
  entry_of snapshot inventory mcu =
      let state = state_of_mcu snapshot mcu in
      let is_open = is_update_available state && is_none (blocker snapshot.host) in
      let refusal = bridge_refusal snapshot inventory mcu in
      record {
        name = display_name mcu.name;
        transport = mcu.transport;
        running_version = mcu.version;
        state = state;
        refusal = if is_open then refusal else none;
        actions = if is_open then offered refusal else [];
      }

  abbrev pub entries_of : Snapshot V → Option McuInventory → List McuEntry
  unfolding entry_of unreported_entry
  entries_of snapshot none = []
  entries_of snapshot (some inventory) =
      map (entry_of snapshot inventory) inventory.mcus ++ map unreported_entry inventory.unreported

  unfoldable pub assess : Snapshot V → StatusBody
  unfolding blocker
  assess snapshot = record {
    blocker = blocker snapshot.host;
    mcus = entries_of snapshot snapshot.inventory;
  }
