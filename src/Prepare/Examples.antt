-- ===== src/Prepare/Examples.antt =====
-- A board that is prepared, and two names.
use aldis.Prelude.{ℕ, ◌≡◌, inl, refl, true, [], ◌∷◌, none, some, ok, Exec, arith, bytes_eq}
use aldis.Prelude.Text.{
  codes, split, all, trim, starts_with, contains, split_once, strip_prefix, strip_suffix, one_of,
}
use aldis.Kconfig.{validate}
use aldis.Fleet.{Mcu, serial, find_mcu}
use aldis.Prepare.{
  PathBuf, PreparedBuild, prepare_build, Destination, WorkspaceBuildPaths, build_paths, target_id,
}
use aldis.Prepare.Destined.{IsPreparedFrom, prepare_build-IsPreparedFrom}
use aldis.Prepare.Paths.{build_paths-distinct}

abbrev board : Mcu
board = record {
  name = codes "mcu";
  app = none;
  version = none;
  mcu = codes "stm32";
  canbus_frequency_hz = none;
  build_versions = none;
  transport = some (serial (codes "/dev/ttyACM0"));
  kconfig = codes "CONFIG_MACH_STM32=y\n";
}

abbrev prepared : PreparedBuild
prepared = record {
  target_name = codes "mcu";
  mcu = codes "stm32";
  transport = some (serial (codes "/dev/ttyACM0"));
  request = record {
    kconfig = codes "CONFIG_MACH_STM32=y\n";
    config_path = codes "c" ∷ [];
    artifact_path = codes "a" ∷ [];
    clean = true;
  };
}

board-prepared :
    prepare_build (board ∷ []) (codes "mcu") (codes "c" ∷ []) (codes "a" ∷ []) true ≡ ok prepared
unfolding prepare_build validate split all trim starts_with contains split_once strip_prefix
    bytes_eq strip_suffix one_of find_mcu
board-prepared = refl

prepare_build-IsPreparedFrom_example : IsPreparedFrom (board ∷ []) (codes "mcu") prepared
prepare_build-IsPreparedFrom_example =
    prepare_build-IsPreparedFrom (board ∷ []) (codes "mcu") (codes "c" ∷ []) (codes "a" ∷ []) true
      prepared board-prepared

abbrev destination : Destination
destination = record { name = codes "mcu"; model = codes "stm32"; transport = none }

abbrev made : PathBuf → Exec ℕ ℕ (Unit {0})
made path n = (ok tt, n)

abbrev paths : WorkspaceBuildPaths
paths = record {
  config_path = codes "run" ∷ codes "targets" ∷ codes "6d6375" ∷ codes ".config" ∷ [];
  artifact_path = codes "run" ∷ codes "artifacts" ∷ codes "6d6375" ∷ codes "klipper" ∷ [];
}

mcu-paths : build_paths made (codes "run" ∷ []) (codes "mcu") 0 ≡ (ok paths, 0)
unfolding build_paths target_id
mcu-paths = refl

build_paths-distinct_example : codes "mcu" ≡ codes "mcu"
build_paths-distinct_example =
    build_paths-distinct made (codes "run" ∷ []) (codes "mcu") (codes "mcu") 0 0 0 0 paths paths
      (omega arith) (omega arith) mcu-paths mcu-paths (inl refl)
