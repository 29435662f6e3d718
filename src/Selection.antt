-- ===== src/Selection.antt =====
-- Which MCUs may be updated (src/eligibility.rs): what an MCU is, how it compares with its target,
-- and whether a selection offers it. A version that is too old is compared with semver, a parameter.
pub mod Upgrades
use Prim.Native.Nat.{Ordering}
use aldis.Prelude.{
  ◌&&◌, ◌||◌, not, Bool, true, false, if◌then◌else◌, List, [], ◌∷◌, map, bytes_eq, Option, none,
  some, Result, ok, err,
}
use aldis.Prelude.Text.{
  Text, codes, is_empty, is_digit, any, lines, trim, strip_prefix, strip_suffix, starts_with,
}
use aldis.Prelude.Iter.{find, filter_map, first}
use aldis.Prelude.Strings.{eq_ignore_ascii_case}
use aldis.Fleet.{Mcu, app_name, version_name}
use aldis.Flash.Samba.{is_flashable_part, machine_family}
use aldis.Eligibility.{
  Semver, chain, RevisionStatus, current, update_required, newer, indeterminate, klipper_version,
  compare_revisions, revisions_match,
}
use aldis.Prebuilt
use aldis.Prebuilt.{Running, Unsupported, Targets, Target}

pub data FirmwareKind : Type 0 where
  klipper kalico : FirmwareKind

pub data UnsupportedReason : Type 0 where
  no_embedded_config : UnsupportedReason
  -- firmware, running, minimum
  version_too_old : FirmwareKind → Text → Text → UnsupportedReason
  prebuilt_unsupported : Unsupported → UnsupportedReason

pub data Eligibility (V : Type 0) : Type 0 where
  eligible : Eligibility V
  prebuilt : Running V → Eligibility V
  externally_managed : Text → Eligibility V
  unsupported : UnsupportedReason → Eligibility V
  unsupported_mcu : Text → Eligibility V

abbrev klipper_minimum_version : Text
klipper_minimum_version = codes "v0.13.0-753-g8c29c0a8e"

abbrev kalico_minimum_version : Text
kalico_minimum_version = codes "v2026.09.00-3-g6127720c4"

pub data CheckoutRevision : Type 0 where
  known : Text → CheckoutRevision
  unknown : CheckoutRevision

-- `CheckoutRevision::label`
abbrev pub revision_label : CheckoutRevision → Text
revision_label (known revision) = revision
revision_label unknown = codes "unknown"

pub record TargetVersions (V : Type 0) : Type 0 where
  pub checkout : CheckoutRevision
  pub prebuilt_targets : Targets V

pub record McuStatus (V : Type 0) : Type 0 where
  pub eligibility : Eligibility V
  pub revision : Option RevisionStatus

pub data UpdateSelection : Type 0 where
  required every_one : UpdateSelection

abbrev flashable_families : List Text
flashable_families =
    codes "STM32" ∷ codes "RPXXXX" ∷ codes "RP2040" ∷ codes "LPC176X" ∷ codes "LINUX" ∷ []

pub data FamilySupport : Type 0 where
  flashable unstated : FamilySupport
  unflashable : Text → FamilySupport

abbrev is_flashable_family : Text → Bool
is_flashable_family family =
    any (λ listed. bytes_eq listed family) flashable_families || is_flashable_part family

abbrev first_family : Option Text → FamilySupport
first_family none = unstated
first_family (some family) = unflashable family

unfoldable pub families_of : Text → List Text
unfolding filter_map lines trim strip_prefix strip_suffix
families_of kconfig = filter_map machine_family (map trim (lines kconfig))

unfoldable pub family_support : Text → FamilySupport
unfolding any families_of is_flashable_part
family_support kconfig =
    if any is_flashable_family (families_of kconfig)
    then flashable
    else first_family (first (families_of kconfig))

-- the first line that selects a machine
unfoldable pub kconfig_machine : Text → Text
unfolding find lines trim starts_with strip_suffix
kconfig_machine kconfig =
    elim (find
      (λ line.
        starts_with (codes "CONFIG_MACH_") line
        && not (elim (strip_suffix (codes "=y") line) [ none ↦ true | some rest ↦ false ]))
      (map trim (lines kconfig))) [ none ↦ [] | some line ↦ line ]

abbrev starts_with_digit : Text → Bool
starts_with_digit [] = false
starts_with_digit (x ∷ s) = is_digit x

abbrev after_v : Text → Option Text → Bool
after_v version none = elim (strip_prefix (codes "V") version) [
  | none ↦ false
  | some s ↦ starts_with_digit s
]
after_v version (some s) = starts_with_digit s

unfoldable pub looks_like_git_describe : Text → Bool
unfolding strip_prefix
looks_like_git_describe version = after_v version (strip_prefix (codes "v") version)

abbrev is_newer : RevisionStatus → Bool
is_newer newer = true
is_newer _ = false

abbrev pub is_update_required : Option RevisionStatus → Bool
is_update_required (some update_required) = true
is_update_required _ = false

module _ {V : Type 0} (semver : Semver V) where
  abbrev config_of : FamilySupport → Eligibility V
  config_of (unflashable family) = unsupported_mcu family
  config_of flashable = eligible
  config_of unstated = eligible

  unfoldable pub classify_by_embedded_config : Mcu → Eligibility V
  unfolding family_support trim
  classify_by_embedded_config mcu =
      if is_empty (trim mcu.kconfig)
      then unsupported no_embedded_config
      else config_of (family_support mcu.kconfig)

  abbrev unless_named : Mcu → Option Text → Eligibility V
  unless_named mcu none = classify_by_embedded_config mcu
  unless_named mcu (some name) = externally_managed name

  abbrev unidentified : Mcu → Option Text → Eligibility V
  unidentified mcu none = classify_by_embedded_config mcu
  unidentified mcu (some version) =
      if looks_like_git_describe version
      then classify_by_embedded_config mcu
      else unless_named mcu (version_name mcu)

  unfoldable pub classify_unidentified : Mcu → Eligibility V
  unfolding classify_by_embedded_config looks_like_git_describe
  classify_unidentified mcu = unidentified mcu mcu.version

  abbrev is_less : Ordering → Bool
  is_less Ordering.lt = true
  is_less _ = false

  abbrev older : Option V → Option V → Bool
  older (some running) (some minimum) = is_less (semver.cmp running minimum)
  older none minimum = false
  older (some running) none = false

  abbrev known_firmware : Mcu → FirmwareKind → Text → Option Text → Eligibility V
  known_firmware mcu firmware minimum none = classify_by_embedded_config mcu
  known_firmware mcu firmware minimum (some running) =
      if older (klipper_version semver running) (klipper_version semver minimum)
      then unsupported (version_too_old firmware running minimum)
      else classify_by_embedded_config mcu

  unfoldable pub classify_known_firmware : Mcu → FirmwareKind → Text → Eligibility V
  unfolding klipper_version classify_by_embedded_config
  classify_known_firmware mcu firmware minimum = known_firmware mcu firmware minimum mcu.version

  abbrev by_app : Mcu → Option Text → Eligibility V
  by_app mcu none = classify_unidentified mcu
  by_app mcu (some app) =
      if eq_ignore_ascii_case app (codes "klipper")
      then classify_known_firmware mcu klipper klipper_minimum_version
      else if eq_ignore_ascii_case app (codes "kalico")
      then classify_known_firmware mcu kalico kalico_minimum_version
      else externally_managed app

  abbrev unless_prebuilt : Mcu → Option (Result Unsupported (Running V)) → Eligibility V
  unless_prebuilt mcu (some (ok running)) = prebuilt running
  unless_prebuilt mcu (some (err reason)) = unsupported (prebuilt_unsupported reason)
  unless_prebuilt mcu none = by_app mcu (app_name mcu)

  unfoldable pub classify_mcu : Mcu → Eligibility V
  unfolding Prebuilt.identify classify_unidentified classify_known_firmware
  classify_mcu mcu = unless_prebuilt mcu (Prebuilt.identify semver mcu)

  -- how a reported version compares with the checkout
  abbrev pub position_of : Option Text → CheckoutRevision → RevisionStatus
  position_of (some running) (known selected) = compare_revisions semver running selected
  position_of none checkout = indeterminate
  position_of (some running) unknown = indeterminate

  abbrev revision_of : Mcu → TargetVersions V → Eligibility V → Option RevisionStatus
  revision_of mcu versions eligible = some (position_of mcu.version versions.checkout)
  revision_of mcu versions (prebuilt running) =
      some (Prebuilt.compare semver versions.prebuilt_targets running mcu.name)
  revision_of mcu versions (externally_managed app) = none
  revision_of mcu versions (unsupported reason) = none
  revision_of mcu versions (unsupported_mcu family) = none

  unfoldable pub assess_mcu : Mcu → TargetVersions V → McuStatus V
  unfolding classify_mcu compare_revisions Prebuilt.compare
  assess_mcu mcu versions = record {
    eligibility = classify_mcu mcu;
    revision = revision_of mcu versions (classify_mcu mcu);
  }

  -- whether the target of this MCU is older than what it runs; the description and the advice of
  -- a `Downgrade` are texts
  abbrev downgrades : Mcu → TargetVersions V → Eligibility V → Bool
  downgrades mcu versions eligible = is_newer (position_of mcu.version versions.checkout)
  downgrades mcu versions (prebuilt running) =
      elim (Prebuilt.downgrade semver versions.prebuilt_targets running mcu.name) [
        | none ↦ false
        | some t ↦ true
      ]
  downgrades mcu versions (externally_managed app) = false
  downgrades mcu versions (unsupported reason) = false
  downgrades mcu versions (unsupported_mcu family) = false

  unfoldable pub downgrade_of : Mcu → TargetVersions V → Bool
  unfolding classify_mcu compare_revisions Prebuilt.downgrade
  downgrade_of mcu versions = downgrades mcu versions (classify_mcu mcu)

  abbrev has_target : Mcu → TargetVersions V → Eligibility V → Bool
  has_target mcu versions eligible = true
  has_target mcu versions (prebuilt running) =
      elim (Prebuilt.target_of semver versions.prebuilt_targets running mcu.name) [
        | none ↦ false
        | some t ↦ true
      ]
  has_target mcu versions (externally_managed app) = false
  has_target mcu versions (unsupported reason) = false
  has_target mcu versions (unsupported_mcu family) = false

  abbrev wants : UpdateSelection → Option RevisionStatus → Bool
  wants required revision = is_update_required revision
  wants every_one revision = true

  unfoldable pub is_selected : Mcu → TargetVersions V → UpdateSelection → Bool
  unfolding assess_mcu downgrade_of Prebuilt.target_of
  is_selected mcu versions selection =
      if not (has_target mcu versions (assess_mcu mcu versions).eligibility)
        || downgrade_of mcu versions
      then false
      else wants selection (assess_mcu mcu versions).revision

  unfoldable pub label_for : TargetVersions V → Mcu → Text
  unfolding Prebuilt.label_for
  label_for versions mcu = elim (Prebuilt.label_for semver versions.prebuilt_targets mcu) [
    | none ↦ revision_label versions.checkout
    | some label ↦ label
  ]

  abbrev at_revision : Option Text → CheckoutRevision → Option Bool
  at_revision version unknown = none
  at_revision none (known revision) = some false
  at_revision (some version) (known revision) = some (revisions_match version revision)

  unfoldable pub reached_by : TargetVersions V → Mcu → Option Bool
  unfolding Prebuilt.reached_by revisions_match
  reached_by versions mcu = elim (Prebuilt.reached_by semver versions.prebuilt_targets mcu) [
    | none ↦ at_revision mcu.version versions.checkout
    | some reached ↦ reached
  ]
