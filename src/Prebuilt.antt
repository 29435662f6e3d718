-- ===== src/Prebuilt.antt =====
-- The firmware of FOCI, Beacon and Cartographer MCUs together (src/prebuilt.rs): which vendor's an
-- MCU runs, what it is updated to, and how the two compare.
pub mod Requests
mod Examples
use aldis.Prelude.{
  Bool, true, false, if◌then◌else◌, List, [], ◌∷◌, bytes_eq, Option, none, some, Result, ok, err,
}
use aldis.Prelude.Text.{Text, codes}
use aldis.Fleet.{Mcu}
use aldis.Prepare.{Vendor}
use aldis.Eligibility.{Semver, RevisionStatus, current, newer, indeterminate, compare_versions}
use aldis.Vendors.Foci
use aldis.Vendors.Foci.{Release, is_foci}
use aldis.Vendors.Beacon
use aldis.Vendors.Beacon.{is_beacon, reported}
use aldis.Vendors.Beacon.Targets.{BeaconTarget, BeaconTargets, beacon_target}
use aldis.Vendors.Cartographer
use aldis.Vendors.Cartographer.{is_cartographer}
use aldis.Vendors.Cartographer.Select
use aldis.Vendors.Cartographer.Select.{
  CartographerTarget, CartographerTargets, cartographer_target, same_version,
}

pub data Running (V : Type 0) : Type 0 where
  runs_foci : Foci.Firmware V → Running V
  runs_beacon : V → Running V
  runs_cartographer : Cartographer.Firmware V → Running V

pub data Unsupported : Type 0 where
  foci_unsupported : Foci.Unsupported → Unsupported
  cartographer_unsupported : Cartographer.Unsupported → Unsupported

abbrev pub vendor_of : {V : Type 0} → Running V → Vendor
vendor_of (runs_foci f) = Vendor.foci
vendor_of (runs_beacon v) = Vendor.beacon
vendor_of (runs_cartographer f) = Vendor.cartographer

pub record Targets (V : Type 0) : Type 0 where
  pub foci : Option (Release V)
  pub beacon : BeaconTargets V
  pub cartographer : CartographerTargets V

pub data Target (V : Type 0) : Type 0 where
  to_foci : Release V → Target V
  to_beacon : BeaconTarget V → Target V
  to_cartographer : CartographerTarget V → Target V

abbrev map_some : {A B : Type 0} → (A → B) → Option A → Option B
map_some f none = none
map_some f (some a) = some (f a)

module _ {V : Type 0} (semver : Semver V) where
  abbrev foci_running : Result Foci.Unsupported (Foci.Firmware V) → Result Unsupported (Running V)
  foci_running (ok f) = ok (runs_foci f)
  foci_running (err e) = err (foci_unsupported e)

  abbrev cartographer_running :
      Result Cartographer.Unsupported (Cartographer.Firmware V) → Result Unsupported (Running V)
  cartographer_running (ok f) = ok (runs_cartographer f)
  cartographer_running (err e) = err (cartographer_unsupported e)

  abbrev other_vendor :
      Mcu
      → Option (Result Cartographer.Unsupported (Cartographer.Firmware V))
      → Option (Result Unsupported (Running V))
  other_vendor mcu (some r) = some (cartographer_running r)
  other_vendor mcu none =
      if is_foci mcu then some (foci_running (Foci.identify semver mcu)) else none

  unfoldable pub identify : Mcu → Option (Result Unsupported (Running V))
  unfolding Beacon.identify Cartographer.identify Foci.identify is_foci
  identify mcu = elim (Beacon.identify semver mcu) [
    | some version ↦ some (ok (runs_beacon version))
    | none ↦ other_vendor mcu (Cartographer.identify semver mcu)
  ]

  -- `Targets::target`
  unfoldable pub target_of : Targets V → Running V → Text → Option (Target V)
  unfolding beacon_target cartographer_target
  target_of targets (runs_foci f) name = map_some to_foci (targets).foci
  target_of targets (runs_beacon v) name = map_some to_beacon (beacon_target (targets).beacon name)
  target_of targets (runs_cartographer f) name =
      map_some to_cartographer (cartographer_target (targets).cartographer name)

  abbrev compared : Running V → Option (Target V) → RevisionStatus
  compared (runs_foci f) (some (to_foci release)) = Foci.compare semver (f).version release
  compared (runs_beacon v) (some (to_beacon t)) = compare_versions semver v (t).version
  compared (runs_cartographer f) (some (to_cartographer t)) = Select.compare semver f t
  compared _ _ = indeterminate

  unfoldable pub compare : Targets V → Running V → Text → RevisionStatus
  unfolding target_of Foci.compare Select.compare compare_versions
  compare targets running name = compared running (target_of targets running name)

  abbrev is_newer : RevisionStatus → Bool
  is_newer newer = true
  is_newer _ = false

  -- The target that an update would downgrade to; its description and the advice are texts.
  unfoldable pub downgrade : Targets V → Running V → Text → Option (Target V)
  unfolding compare
  downgrade targets running name =
      if is_newer (compare targets running name) then target_of targets running name else none

  abbrev unknown_or : {A : Type 0} → (A → Text) → Option A → Text
  unknown_or f none = codes "unknown"
  unknown_or f (some a) = f a

  unfoldable pub label_for : Targets V → Mcu → Option Text
  unfolding is_beacon is_cartographer reported
  label_for targets mcu =
      if is_foci mcu
      then some (unknown_or (λ (r : Release V). r.tag) (targets).foci)
      else if is_beacon semver mcu
      then some (
          unknown_or (λ (t : BeaconTarget V). reported semver (t).version)
            (beacon_target (targets).beacon mcu.name))
      else if is_cartographer mcu
      then some (
          unknown_or (λ (t : CartographerTarget V). (t).reported)
            (cartographer_target (targets).cartographer mcu.name))
      else none

  -- whether a Beacon reports a version
  abbrev runs_version : Option V → V → Bool
  runs_version none w = false
  runs_version (some v) w = same_version semver v w

  abbrev reports : Option Text → Text → Bool
  reports none s = false
  reports (some version) s = bytes_eq version s

  abbrev is_current : RevisionStatus → Bool
  is_current current = true
  is_current _ = false

  abbrev runs_release : Result Foci.Unsupported (Foci.Firmware V) → Release V → Bool
  runs_release (err e) release = false
  runs_release (ok f) release = is_current (Foci.compare semver (f).version release)

  unfoldable pub reached_by : Targets V → Mcu → Option (Option Bool)
  unfolding is_cartographer is_beacon
  reached_by targets mcu =
      if is_cartographer mcu
      then some (
          map_some (λ (t : CartographerTarget V). reports mcu.version (t).reported)
            (cartographer_target (targets).cartographer mcu.name))
      else if is_beacon semver mcu
      then some (
          map_some (λ (t : BeaconTarget V). runs_version (Beacon.identify semver mcu) (t).version)
            (beacon_target (targets).beacon mcu.name))
      else if is_foci mcu
      then some (map_some (runs_release (Foci.identify semver mcu)) (targets).foci)
      else none
