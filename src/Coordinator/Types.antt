-- ===== src/Coordinator/Types.antt =====
-- What the coordinator of src/coordinator.rs is given, remembers and reports, and the ports that it
-- calls.
use aldis.Prelude.{ℕ, Bool, true, false, Bytes, Option, none, some, Exec}
use aldis.Prelude.Text.{Text}
use aldis.Flash.{FlashResult}
use aldis.Service.{BuildCommand, CommandOutput, ServiceState, active, ServiceError}
use aldis.Prepare.{PathBuf, BuildRequest, PreparedBuild, PreparationError, WorkspaceError}

pub record BuildArtifact : Type 0 where
  pub path : PathBuf
  pub byte_count : ℕ
  pub kconfig : Text

pub data BuildProgress : Type 0 where
  configuring compiling : BuildProgress

pub data SystemFlashProgress : Type 0 where
  entering bootloader_ready flashing installing : SystemFlashProgress

pub data UpdateProgress : Type 0 where
  stopping_klipper downloading_firmware firmware_downloaded reading_firmware firmware_read
        configuring_firmware compiling_firmware entering_bootloader bootloader_is_ready
        starting_flash installing_binary :
      UpdateProgress

abbrev pub update_progress : SystemFlashProgress → UpdateProgress
update_progress entering = entering_bootloader
update_progress bootloader_ready = bootloader_is_ready
update_progress flashing = starting_flash
update_progress installing = installing_binary

abbrev pub build_progress : BuildProgress → UpdateProgress
build_progress configuring = configuring_firmware
build_progress compiling = compiling_firmware

-- `ApprovedBuild`, which only approving a pending build makes
pub record PendingBuild : Type 0 where
  pub prepared : PreparedBuild

pub record ApprovedBuild : Type 0 where
  pub pending : PendingBuild

abbrev pub approve : PendingBuild → ApprovedBuild
approve pending = record { pending = pending }

pub record CompletedUpdate : Type 0 where
  pub artifact : BuildArtifact
  pub flash : FlashResult

pub data CoordinatorError (CE BE IE : Type 0) : Type 0 where
  workspace : WorkspaceError IE → CoordinatorError CE BE IE
  preparation : PreparationError → CoordinatorError CE BE IE
  service : ServiceError CE → CoordinatorError CE BE IE
  unexpected_klipper_state : ServiceState → CoordinatorError CE BE IE
  build_failed : BE → CoordinatorError CE BE IE
  -- requested, approved
  request_for_another_mcu : Text → Text → CoordinatorError CE BE IE

pub data FlashCoordinatorError (CE BE IE F : Type 0) : Type 0 where
  coordinator : CoordinatorError CE BE IE → FlashCoordinatorError CE BE IE F
  artifact : IE → FlashCoordinatorError CE BE IE F
  flash_failed : F → FlashCoordinatorError CE BE IE F

-- What the coordinator calls: the runner, the builder, reading a file, and the backends.
pub record Ports (S CE BE IE F Options Image Links : Type 0) : Type 0 where
  pub run : BuildCommand → Exec S CE CommandOutput
  pub build : BuildRequest → (BuildProgress → S → S) → Exec S BE BuildArtifact
  pub create_dir_all : PathBuf → Exec S IE (Unit {0})
  pub read : PathBuf → Exec S IE Bytes
  pub flash_file :
      PreparedBuild → Bytes → Options → Bool → (SystemFlashProgress → S → S) → Exec S F FlashResult
  pub flash_system :
      PreparedBuild → Bytes → Options → (SystemFlashProgress → S → S) → Exec S F FlashResult
  pub flash_katapult :
      PreparedBuild
      → Bytes
      → ℕ
      → Links
      → Options
      → (SystemFlashProgress → S → S)
      → Exec S F FlashResult
  pub flash_beacon :
      PreparedBuild → Image → Options → (SystemFlashProgress → S → S) → Exec S F FlashResult

pub record Coordinator (S : Type 0) : Type 0 where
  pub host : S
  pub first_observed_active : Option Bool

abbrev pub is_active : ServiceState → Bool
is_active active = true
is_active _ = false

-- `if first.is_none() { first.set(Some(active)) }`
abbrev pub observed : Option Bool → ServiceState → Option Bool
observed none state = some (is_active state)
observed (some b) state = some b
