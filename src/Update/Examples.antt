-- ===== src/Update/Examples.antt =====
-- Runs on a host where Klipper runs and the printer prints.
use Prim.Native.Nat.{compare}
use aldis.Prelude.{
  Result, ℕ, suc, ◌+◌, Bool, true, false, [], ◌∷◌, ◌≡◌, refl, none, some, ok, err, Exec,
}
use aldis.Prelude.Text.{codes}
use aldis.Flash.{FlashResult}
use aldis.Fleet.{Mcu, serial}
use aldis.Service.{BuildCommand, CommandOutput}
use aldis.Eligibility.{Semver}
use aldis.Coordinator.{Ports, Coordinator}
use aldis.Vendors.Beacon.Image.{FirmwareImage}
use aldis.Prebuilt.Requests.{PrebuiltLinks}
use aldis.Selection.{unknown}
use aldis.Update.{
  PrintState, standby, paused, complete, cancelled, print_error, unknown_state, ready, printing,
}
use aldis.Update.Run.{Context, run_updates}
use aldis.Update.Run.Untouched.{MayPrint, IsQuiet, run_updates-Untouched, Holds}
use aldis.Update.Run.Sequence.{IsPart, told, run_updates-IsPart}

-- Whether Klipper runs, and how many flashes there were.
abbrev Host : Type 0
Host = Bool × ℕ

abbrev numbers : Semver ℕ
numbers = record {
  parse = λ s. none;
  display = λ v. [];
  version = λ major minor patch. major + minor + patch;
  with_dev = λ v n. none;
  cmp = compare;
}

abbrev stopped : BuildCommand → Exec Host ℕ CommandOutput
stopped command (running, n) =
    (ok (record { success = true; stdout = []; stderr = [] }), (false, n))

abbrev flashed : Exec Host ℕ FlashResult
flashed (running, n) = (ok (record { reported_pages = none; padded_bytes = 64 }), (running, suc n))

abbrev ports : Ports Host ℕ ℕ ℕ ℕ (Unit {0}) (FirmwareImage ℕ) PrebuiltLinks
ports = record {
  run = stopped;
  build = λ request progress. λ s.
      (ok (record { path = request.artifact_path; byte_count = 1; kconfig = request.kconfig }), s);
  create_dir_all = λ path. λ s. (ok tt, s);
  read = λ path. λ s. (ok (1 ∷ []), s);
  flash_file = λ prepared firmware options force progress. flashed;
  flash_system = λ prepared firmware options progress. flashed;
  flash_katapult = λ prepared image start links options progress. flashed;
  flash_beacon = λ prepared image options progress. flashed;
}

abbrev board : Mcu
board = record {
  name = codes "mcu";
  app = some (codes "Klipper");
  version = some (codes "v0.13.0-756-g2d7717e3");
  mcu = codes "stm32f446xx";
  canbus_frequency_hz = none;
  build_versions = none;
  transport = some (serial (codes "/dev/ttyACM0"));
  kconfig = codes "CONFIG_MACH_STM32=y\n";
}

abbrev context : Context Host ℕ ℕ ℕ ℕ ℕ (Unit {0}) ℕ ℕ ℕ
context = record {
  ports = ports;
  unit = record { as_str = codes "klipper" };
  harmless = λ e. false;
  semver = numbers;
  dictionary = λ bytes. none;
  sources = record {
    download_firmware = λ release asset. λ s. (err 404, s);
    read = λ path. λ s. (err [], s);
    keep_copy = λ path bytes s. s;
  };
  moonraker = record { host_state = λ s. (ok ready, s); print_state = λ s. (ok printing, s) };
  waits = record { for_application = λ mcu. λ s. (ok tt, s); for_mcus = λ names. λ s. (ok tt, s) };
  hooks = record {
    approve_update = λ name now next s. (true, s);
    progress = λ name stage s. s;
    flashed = λ name kconfig n s. s;
    step_started = λ step s. s;
    step_succeeded = λ step s. s;
    failed = λ detail s. s;
  };
  mcus = board ∷ [];
  workspace = codes "run" ∷ [];
  target_versions = record {
    checkout = unknown;
    prebuilt_targets = record {
      foci = none;
      beacon = record { checkout = none; mcus = [] };
      cartographer = record { checkout = none; plugin = none; mcus = [] };
    };
  };
  clean = false;
  options = tt;
}

abbrev start : Coordinator Host
start = record { host = (true, 0); first_observed_active = none }

-- Klipper runs and nothing was flashed.
abbrev IsAsBefore : Host → Type 0
IsAsBefore s = s ≡ (true, 0)

printing_only :
    (state : PrintState) → Path (Result ℕ PrintState) (ok printing) (ok state) → MayPrint state
printing_only printing e = tt
printing_only paused e = tt
printing_only (unknown_state s) e = tt
printing_only standby e = cc e
printing_only complete e = cc e
printing_only cancelled e = cc e
printing_only print_error e = cc e

quiet : IsQuiet context IsAsBefore
quiet = record {
  creates = λ path s h. h;
  approves = λ name now next s h. h;
  fails = λ detail s h. h;
  asks_host = λ s h. h;
  not_stopped = λ s h. (λ e. cc e, λ e. cc e);
  asks_printer = λ s h. h;
  busy = λ s state h e. printing_only state e;
}

run_updates-Untouched_example :
    IsAsBefore (run_updates context (codes "mcu" ∷ []) start).1.host
    × Holds context IsAsBefore
        (λ updated. updated ≡ [])
        (run_updates context (codes "mcu" ∷ []) start).0
run_updates-Untouched_example =
    run_updates-Untouched context IsAsBefore quiet (codes "mcu" ∷ []) start refl

run_updates-IsPart_example :
    IsPart (told context (run_updates context (codes "mcu" ∷ []) start).0) (codes "mcu" ∷ [])
run_updates-IsPart_example = run_updates-IsPart context (codes "mcu" ∷ []) start
