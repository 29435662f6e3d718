-- ===== src/Prebuilt/Examples.antt =====
-- A FOCI board that runs an old release: its update is offered, and a file is sent to its start.
use Prim.Native.Nat.{compare}
use aldis.Prelude.{ℕ, ◌+◌, ◌≡◌, ◌≢◌, refl, true, [], ◌∷◌, Bytes, bytes_eq, Option, none, some, ok}
use aldis.Prelude.Text.{
  Text, codes, all, split, strip_prefix, strip_suffix, trim, trim_start, trim_end,
}
use aldis.Prelude.Iter.{keep, find_map}
use aldis.Prelude.Strings.{
  split_whitespace, split_at, eq_ignore_ascii_case, join, parse_below, digits_below,
}
use aldis.Fleet.{Mcu, serial, app_name, version_name}
use aldis.Prepare.{Vendor, katapult_request}
use aldis.Eligibility.{Semver, RevisionStatus, newer, update_required}
use aldis.Vendors.Foci
use aldis.Vendors.Foci.{Release, is_foci, from_build_versions, find_commits, is_release_build}
use aldis.Vendors.Beacon
use aldis.Vendors.Beacon.{names_itself_beacon, parse_reported}
use aldis.Vendors.Cartographer
use aldis.Vendors.Cartographer.{DictionaryIdentity, is_cartographer, names_itself_cartographer}
use aldis.Prebuilt
use aldis.Prebuilt.{Targets}
use aldis.Prebuilt.Requests.{usb_only, prepare_explicit}
use aldis.Prebuilt.Requests.Checked.{IsExplained, prepare_explicit-IsExplained}
use aldis.Selection.{
  TargetVersions, unknown, required, classify_mcu, assess_mcu, downgrade_of, is_selected,
}
use aldis.Selection.Upgrades.{IsCompared, is_selected-upgrades}

-- Versions as sums of their characters.
abbrev total : Text → ℕ
total [] = 0
total (x ∷ s) = x + total s

abbrev sums : Semver ℕ
sums = record {
  parse = λ s. some (total s);
  display = λ v. [];
  version = λ major minor patch. major + minor + patch;
  with_dev = λ v n. none;
  cmp = compare;
}

abbrev dictionary : Bytes → Option DictionaryIdentity
dictionary bytes = none

abbrev board : Mcu
board = record {
  name = codes "mcu servo";
  app = some (codes "FOCI");
  version = some (codes "v0.4.0-0-g0fb68e1b");
  mcu = codes "stm32h723xx";
  canbus_frequency_hz = none;
  build_versions = some (codes "rust=1.98.1 features=none board=a82de21d");
  transport = some (serial (codes "/dev/ttyACM0"));
  kconfig = [];
}

abbrev versions : TargetVersions ℕ
versions = record {
  checkout = unknown;
  prebuilt_targets = record {
    foci = some (record { tag = codes "v0.4.1"; version = total (codes "0.4.1") });
    beacon = record { checkout = none; mcus = [] };
    cartographer = record { checkout = none; plugin = none; mcus = [] };
  };
}

offered : is_selected sums board versions required ≡ true
unfolding is_selected assess_mcu downgrade_of classify_mcu Prebuilt.identify Prebuilt.compare
    Prebuilt.downgrade Prebuilt.target_of Beacon.identify Cartographer.identify Foci.identify
    is_foci is_cartographer names_itself_cartographer app_name Foci.compare Foci.parse_version
    find_commits from_build_versions is_release_build eq_ignore_ascii_case split_whitespace split_at
    keep find_map join parse_below digits_below all split strip_prefix strip_suffix bytes_eq trim
    trim_start trim_end
offered = refl

is_selected-upgrades_example :
    (r : RevisionStatus) × (((assess_mcu sums board versions).revision ≡ some r)
      × ((r ≢ newer)
          × ((required ≡ required → r ≡ update_required)
              × IsCompared sums board versions required
                  (assess_mcu sums board versions).eligibility
                  r)))
is_selected-upgrades_example = is_selected-upgrades sums board versions required offered

any_file :
    prepare_explicit sums dictionary board (1 ∷ 2 ∷ [])
    ≡ ok (some (katapult_request Vendor.foci board (1 ∷ 2 ∷ []) 0x08020000 usb_only))
unfolding prepare_explicit names_itself_beacon Cartographer.identify is_foci is_cartographer
    names_itself_cartographer app_name version_name eq_ignore_ascii_case split_whitespace split_at
    keep bytes_eq trim trim_start trim_end
any_file = refl

prepare_explicit-IsExplained_example :
    IsExplained sums dictionary board
      (1 ∷ 2 ∷ [])
      (some (katapult_request Vendor.foci board (1 ∷ 2 ∷ []) 0x08020000 usb_only))
prepare_explicit-IsExplained_example =
    prepare_explicit-IsExplained sums dictionary board (1 ∷ 2 ∷ [])
      (some (katapult_request Vendor.foci board (1 ∷ 2 ∷ []) 0x08020000 usb_only)) any_file
