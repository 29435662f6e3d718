-- ===== src/Agent/Service/Accepted/Examples.antt =====
-- A FOCI board that runs an old release is asked for twice, and flashed once.
use Prim.Native.Nat.{compare}
use aldis.Prelude.{ℕ, ◌+◌, ◌≡◌, refl, sym, ◌∙◌, true, false, [], ◌∷◌, bytes_eq, All, some, none, ok}
use aldis.Prelude.Among.{IsAmong}
use aldis.Prelude.Text.{
  Text, codes, all, any, lines, split, split_once, strip_prefix, strip_suffix, starts_with,
  contains, trim, trim_start, trim_end,
}
use aldis.Prelude.Iter.{keep, find, find_map, filter_map}
use aldis.Prelude.Strings.{
  split_whitespace, split_at, eq_ignore_ascii_case, join, parse_below, digits_below,
}
use aldis.Fleet.{
  Mcu, serial, app_name, find_mcu, is_bridge, partition, flash_order, is_usb_can_bridge,
}
use aldis.Fleet.Peers.{McuInventory}
use aldis.Eligibility.{Semver, revisions_match, split_once_at}
use aldis.Vendors.Foci
use aldis.Vendors.Foci.{is_foci, from_build_versions, find_commits, is_release_build}
use aldis.Vendors.Beacon
use aldis.Vendors.Beacon.{names_itself_beacon, parse_reported}
use aldis.Vendors.Cartographer
use aldis.Vendors.Cartographer.{is_cartographer, names_itself_cartographer}
use aldis.Prebuilt
use aldis.Selection.{known, classify_mcu, assess_mcu}
use aldis.Update.{ready, standby}
use aldis.Agent.{
  Snapshot, blocker, state_of_mcu, bridge_refusal, entry_of, entries_of, assess, display_name,
  is_foreign, matches_checkout, assess_prebuilt, state_by,
}
use aldis.Agent.Service.{these, named, entries_for, object_of, once, targets_of, accept}
use aldis.Agent.Service.Once.{IsOnce}
use aldis.Agent.Service.Accepted.{IsTarget, accept-IsTarget}

abbrev total : Text → ℕ
total [] = 0
total (x ∷ s) = x + total s

abbrev sums : Semver ℕ
sums = record {
  parse = λ s. some (total s);
  display = λ v. [];
  version = λ major minor patch. major + minor + patch;
  with_dev = λ v n. none;
  cmp = compare;
}

abbrev servo : Mcu
servo = record {
  name = codes "mcu servo";
  app = some (codes "FOCI");
  version = some (codes "v0.4.0-0-g0fb68e1b");
  mcu = codes "stm32h723xx";
  canbus_frequency_hz = none;
  build_versions = some (codes "rust=1.98.1 features=none board=a82de21d");
  transport = some (serial (codes "/dev/ttyACM0"));
  kconfig = [];
}

abbrev inventory : McuInventory
inventory = record { mcus = servo ∷ []; unreported = [] }

abbrev printer : Snapshot ℕ
printer = record {
  host = record {
    url_is_local = true;
    klipper_unit = none;
    state = ready;
    software_version = some (codes "v0.13.0");
    checkout_version = some (known (codes "v0.13.0"));
    print_state = some standby;
    config_error = false;
  };
  inventory = some inventory;
  peers = [];
  prebuilt = record {
    foci = some (record { tag = codes "v0.4.1"; version = total (codes "0.4.1") });
    beacon = record { checkout = none; mcus = [] };
    cartographer = record { checkout = none; plugin = none; mcus = [] };
  };
}

accepted :
    accept (assess sums printer) (some inventory) (these (codes "servo" ∷ codes "SERVO" ∷ []))
    ≡ ok (codes "mcu servo" ∷ [])
unfolding accept assess entries_of entry_of blocker state_of_mcu bridge_refusal state_by
    assess_prebuilt is_foreign matches_checkout entries_for named object_of once targets_of
    flash_order partition is_bridge find_mcu is_usb_can_bridge revisions_match split_once_at
    assess_mcu classify_mcu Prebuilt.identify Prebuilt.compare Prebuilt.target_of Beacon.identify
    Cartographer.identify Foci.identify is_foci is_cartographer names_itself_cartographer app_name
    Foci.compare Foci.parse_version find_commits from_build_versions is_release_build
    eq_ignore_ascii_case split_whitespace split_at keep find find_map filter_map join parse_below
    digits_below all any lines split split_once strip_prefix strip_suffix starts_with contains
    bytes_eq trim trim_start trim_end display_name
accepted = refl

only : (mcu : Mcu) → IsAmong mcu (servo ∷ []) → mcu ≡ servo
only mcu ([], after, e) = cc e
only mcu (x ∷ [], after, e) = absurd (cc e)
only mcu (x ∷ y ∷ before, after, e) = absurd (cc e)

accept-IsTarget_example :
    All (IsTarget sums printer inventory) (codes "mcu servo" ∷ []) × IsOnce (codes "mcu servo" ∷ [])
accept-IsTarget_example =
    accept-IsTarget sums printer inventory (these (codes "servo" ∷ codes "SERVO" ∷ []))
      (codes "mcu servo" ∷ []) refl (λ a b h k e. only a h ∙ sym (only b k)) accepted
