-- ===== src/Coordinator/Examples.antt =====
-- A host on which Klipper runs, and what a coordinator does there.
use aldis.Prelude.{
  ℕ, suc, Bool, true, false, if◌then◌else◌, List, [], ◌∷◌, ◌≡◌, refl, bytes_eq, none, ok, Exec,
}
use aldis.Prelude.Text.{Text, codes, trim, trim_start, trim_end}
use aldis.Flash.{FlashResult}
use aldis.Service.{
  BuildCommand, CommandOutput, KlipperUnit, active, service_state, run_systemctl, run_state_change,
  stop,
}
use aldis.Prepare.{is_for, katapult, FlashRequest, foci}
use aldis.Coordinator.{Ports, Coordinator, ApprovedBuild, flash_prebuilt, ensure_klipper_stopped}
use aldis.Coordinator.Stopped.{PrebuiltOutcome, flash_prebuilt-PrebuiltOutcome}
use aldis.Coordinator.Restored.{Restores, again, restore_after_failure-remembers}

-- Whether Klipper runs, and how many flashes there were.
abbrev Host : Type 0
Host = Bool × ℕ

abbrev output : Text → CommandOutput
output text = record { success = true; stdout = text; stderr = [] }

abbrev action : List Text → Text
action (n ∷ systemctl ∷ word ∷ rest) = word
action _ = []

abbrev systemd : BuildCommand → Exec Host ℕ CommandOutput
systemd command (running, n) =
    if bytes_eq (action command.arguments) (codes "is-active")
    then (ok (output (if running then codes "active\n" else codes "inactive\n")), (running, n))
    else (ok (output []), (bytes_eq (action command.arguments) (codes "start"), n))

abbrev flashed : Exec Host ℕ FlashResult
flashed (running, n) = (ok (record { reported_pages = none; padded_bytes = 64 }), (running, suc n))

abbrev ports : Ports Host ℕ ℕ ℕ ℕ (Unit {0}) (Unit {0}) (Unit {0})
ports = record {
  run = systemd;
  build = λ request progress. λ s.
      (ok (record { path = request.artifact_path; byte_count = 1; kconfig = request.kconfig }), s);
  create_dir_all = λ path. λ s. (ok tt, s);
  read = λ path. λ s. (ok (1 ∷ []), s);
  flash_file = λ prepared firmware options force progress. flashed;
  flash_system = λ prepared firmware options progress. flashed;
  flash_katapult = λ prepared image start links options progress. flashed;
  flash_beacon = λ prepared image options progress. flashed;
}

abbrev unit : KlipperUnit
unit = record { as_str = codes "klipper" }

abbrev fresh : Coordinator Host
fresh = record { host = (true, 0); first_observed_active = none }

abbrev approved : ApprovedBuild
approved = record {
  pending = record {
    prepared = record {
      target_name = codes "foci";
      mcu = codes "stm32";
      transport = none;
      request = record { kconfig = []; config_path = []; artifact_path = []; clean = false };
    };
  };
}

abbrev request : FlashRequest (Unit {0}) (Unit {0})
request = record {
  vendor = foci;
  destination = record { name = codes "foci"; model = codes "stm32"; transport = none };
  protocol = katapult (1 ∷ 2 ∷ []) 0x8000 tt;
}

flash_prebuilt-PrebuiltOutcome_example :
    PrebuiltOutcome ports unit approved request tt
      (λ stage s. s)
      fresh
      (flash_prebuilt ports unit approved request tt (λ stage s. s) fresh)
flash_prebuilt-PrebuiltOutcome_example =
    flash_prebuilt-PrebuiltOutcome ports unit approved request tt (λ stage s. s) fresh

seen_active : (service_state systemd unit (true, 0)).0 ≡ ok active
unfolding service_state run_systemctl trim trim_start trim_end bytes_eq
seen_active = refl

-- Klipper is stopped a second time after it was found to be inactive.
restore_after_failure-remembers_example : Restores ports unit active (
    again ports unit
      (λ stage s. s)
      ((λ host. host) ∷ [])
      (ensure_klipper_stopped ports unit (λ stage s. s) fresh).1)
restore_after_failure-remembers_example =
    restore_after_failure-remembers ports unit (λ stage s. s) fresh active ((λ host. host) ∷ [])
      refl seen_active

-- Klipper is stopped, the MCU flashed once, and Klipper left stopped.
flashed_once :
    (flash_prebuilt ports unit approved request tt (λ stage s. s) fresh).1.host ≡ (false, 1)
unfolding flash_prebuilt ensure_klipper_stopped service_state run_systemctl trim trim_start trim_end
    bytes_eq is_for stop run_state_change
flashed_once = refl
