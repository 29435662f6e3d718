-- ===== src/Update/Retry.antt =====
-- `retry_until_available` (src/retry.rs) and the waits that an update run makes with it
-- (src/update_run.rs). The clock, sleeping and the operation are parameters; times are nanoseconds.
-- The loop runs on fuel, one for each attempt.
pub mod Available
mod Examples
use aldis.Prelude.{
  ℕ, zero, suc, ◌+◌, ◌*◌, ◌^◌, leb, Bool, true, false, if◌then◌else◌, List, [], ◌∷◌, ◌++◌, Option,
  none, some, Result, ok, err, Exec,
}
use aldis.Prelude.Text.{Text, is_empty}
use aldis.Prelude.Iter.{filter_map}
use aldis.Fleet.{Mcu, McuTransport, serial, can, find_mcu, is_usb_can_bridge}
use aldis.Eligibility.{Semver}
use aldis.Selection.{TargetVersions, reached_by}
use aldis.Update.{KlippyState, klippy_error, shutdown, startup, ready, disconnected}

-- `poll_interval.max(Duration::from_millis(10))`
abbrev pub pause_of : ℕ → ℕ
pause_of interval = if leb interval (10 * 10 ^ 6) then 10 * 10 ^ 6 else interval

module _ {S E A : Type 0} (now : S → ℕ) (sleep : ℕ → S → S) (operation : Exec S E A) where
  unfoldable pub retry_from : ℕ → ℕ → ℕ → S → Option (Result E A × S)
  retry_from zero deadline interval s = none
  retry_from (suc fuel) deadline interval s =
      let (r, s') = operation s in
      let rest = retry_from fuel deadline interval (sleep (pause_of interval) s') in
      elim r [
        | ok a ↦ some (ok a, s')
        | err e ↦ if leb deadline (now s') then some (err e, s') else rest
      ]

  unfoldable pub retry_until_available : ℕ → ℕ → ℕ → S → Option (Result E A × S)
  unfolding retry_from
  retry_until_available fuel timeout interval s = retry_from fuel (now s + timeout) interval s

-- Why an MCU is still waited for.
pub data Pending : Type 0 where
  not_reported : Text → Pending
  -- name, version
  reports_version : Text → Option Text → Pending

abbrev pending_found : Text → Mcu → Option Bool → Option Pending
pending_found name mcu (some false) = some (reports_version name mcu.version)
pending_found name mcu (some true) = none
pending_found name mcu none = none

abbrev pending_mcu : {V : Type 0} → Semver V → TargetVersions V → Text → Option Mcu → Option Pending
pending_mcu semver versions name none = some (not_reported name)
pending_mcu semver versions name (some mcu) =
    pending_found name mcu (reached_by semver versions mcu)

unfoldable pub pending_mcus :
    {V : Type 0} → Semver V → TargetVersions V → List Mcu → List Text → List Pending
unfolding filter_map find_mcu reached_by
pending_mcus semver versions mcus selected =
    filter_map (λ name. pending_mcu semver versions name (find_mcu name mcus)) selected

-- What Moonraker lists: the MCUs, and the names of those that it does not report.
pub record Inventory : Type 0 where
  pub mcus : List Mcu
  pub unreported : List Text

pub data NotReady (ME : Type 0) : Type 0 where
  not_queried : ME → NotReady ME
  still_waiting : List Pending → NotReady ME

-- `should_probe` of src/identify.rs
abbrev pub should_probe : KlippyState → Bool
should_probe klippy_error = true
should_probe startup = false
should_probe ready = false
should_probe shutdown = true
should_probe disconnected = false

module _ {S ME V : Type 0} (semver : Semver V) (versions : TargetVersions V)
    (discover_mcus : Exec S ME Inventory) (host_state : Exec S ME KlippyState)
    (resolve_unreported : Inventory → S → Inventory × S) where
  abbrev probe_if : Result ME KlippyState → Inventory → S → Inventory × S
  probe_if (err e) inventory s = (inventory, s)
  probe_if (ok state) inventory s =
      if should_probe state then resolve_unreported inventory s else (inventory, s)

  abbrev probe_from : List Text → Inventory → S → Inventory × S
  probe_from [] inventory s = (inventory, s)
  probe_from (name ∷ names) inventory s =
      let (state, s') = host_state s in probe_if state inventory s'

  unfoldable pub probe_unreported : Inventory → S → Inventory × S
  probe_unreported inventory s = probe_from inventory.unreported inventory s

  abbrev judged : List Pending → Result (NotReady ME) (Unit {0})
  judged [] = ok tt
  judged (p ∷ ps) = err (still_waiting (p ∷ ps))

  abbrev checked : List Text → Result ME Inventory → Exec S (NotReady ME) (Unit {0})
  checked selected (err e) s = (err (not_queried e), s)
  checked selected (ok inventory) s =
      let (resolved, s') = probe_unreported inventory s in
      (judged (pending_mcus semver versions resolved.mcus selected), s')

  -- the operation of `wait_for_mcus_with_params`
  unfoldable pub poll_mcus : List Text → Exec S (NotReady ME) (Unit {0})
  unfolding probe_unreported pending_mcus
  poll_mcus selected s = let (inventory, s') = discover_mcus s in checked selected inventory s'

  unfoldable pub wait_for_mcus :
      (S → ℕ) → (ℕ → S → S) → ℕ → List Text → S → Option (Result (NotReady ME) (Unit {0}) × S)
  unfolding retry_until_available poll_mcus
  wait_for_mcus now sleep fuel selected =
      retry_until_available now sleep (poll_mcus selected) fuel (30 * 10 ^ 9) (250 * 10 ^ 6)

-- what is waited for after a flash: a device, or a bridge's network interface
unfoldable pub device_of : Mcu → List Text → Option (List Text)
unfolding is_usb_can_bridge
device_of mcu net_root = elim (mcu.transport) [
  | none ↦ none
  | some (serial device) ↦ some (device ∷ [])
  | some (can interface uuid) ↦
      if is_usb_can_bridge mcu then some (net_root ++ (interface ∷ [])) else none
]

module _ {S : Type 0} (now : S → ℕ) (sleep : ℕ → S → S) (exists' : List Text → S → Bool × S) where
  abbrev seen : List Text → Exec S (Unit {0}) (Unit {0})
  seen path s = let (there, s') = exists' path s in (if there then ok tt else err tt, s')

  unfoldable pub wait_for_application_in :
      ℕ → Mcu → ℕ → List Text → S → Option (Result (Unit {0}) (Unit {0}) × S)
  unfolding device_of retry_until_available
  wait_for_application_in fuel mcu timeout net_root s = elim (device_of mcu net_root) [
    | none ↦ some (ok tt, s)
    | some path ↦ retry_until_available now sleep (seen path) fuel timeout (100 * 10 ^ 6) s
  ]
