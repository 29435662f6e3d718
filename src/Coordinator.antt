-- ===== src/Coordinator.antt =====
-- `BuildCoordinator` (src/coordinator.rs): Klipper's service is stopped, the firmware built, and the
-- MCU flashed. The runner of systemctl, the builder, the file system and the backends are
-- parameters that act on the state of the host; reporting progress is the caller's function on
-- that state. The coordinator's own state is what it first observed of the service.
pub mod Types
pub mod Stopped
pub mod Restored
mod Examples
unfoldable pub use Types.*
use aldis.Prelude.{
  ℕ, Bool, true, false, if◌then◌else◌, not, List, [], ◌∷◌, Bytes, Option, none, some, Result, ok,
  err, map_err, Exec, ◌>>=◌, ◌>>◌, pure, raise,
}
use aldis.Prelude.Text.{Text}
use aldis.Flash.{FlashResult}
use aldis.Fleet.{Mcu}
use aldis.Service.{
  BuildCommand, CommandOutput, KlipperUnit, ServiceState, active, inactive, failed, transitioning,
  unknown, ServiceError, service_state, stop, start,
}
use aldis.Prepare.{
  PathBuf, BuildRequest, PreparedBuild, PreparationError, prepare_build, WorkspaceError,
  WorkspaceBuildPaths, build_paths, Destination, is_for, Protocol, katapult, beacon_dfu,
  FlashRequest,
}

module _ {S E F A : Type 0} (wrap : E → F) where
  -- A step of the host, with its error wrapped by `map_err`.
  abbrev pub on_host : Exec S E A → Exec (Coordinator S) F A
  on_host m c =
      let (result, host) = m c.host in
      (map_err wrap result, record { host = host; first_observed_active = c.first_observed_active })

module _ {S CE BE IE F Options Image Links : Type 0}
    (ports : Ports S CE BE IE F Options Image Links) (unit : KlipperUnit) where
  unfoldable pub prepare :
      List Mcu
      → PathBuf
      → Text
      → Bool
      → Exec (Coordinator S) (CoordinatorError CE BE IE) PendingBuild
  prepare mcus root target_name clean = do
    paths ← on_host workspace (build_paths ports.create_dir_all root target_name)
    prepared ← λ c. (
      map_err preparation
          (prepare_build mcus target_name paths.config_path paths.artifact_path clean),
      c,
    )
    pure (record { prepared = prepared })

  abbrev pub state_now : Exec (Coordinator S) (CoordinatorError CE BE IE) ServiceState
  state_now = on_host service (service_state ports.run unit)

  unfoldable pub observe :
      ServiceState → Exec (Coordinator S) (CoordinatorError CE BE IE) (Unit {0})
  observe state c = (
    ok tt,
    record { host = c.host; first_observed_active = observed c.first_observed_active state },
  )

  abbrev pub report_to :
      (UpdateProgress → S → S)
      → UpdateProgress
      → Exec (Coordinator S) (CoordinatorError CE BE IE) (Unit {0})
  report_to progress stage c = (
    ok tt,
    record { host = progress stage c.host; first_observed_active = c.first_observed_active },
  )

  -- the second look at the service, once it was stopped
  abbrev pub expect_inactive :
      ServiceState → Exec (Coordinator S) (CoordinatorError CE BE IE) (Unit {0})
  expect_inactive inactive = pure tt
  expect_inactive state = raise (unexpected_klipper_state state)

  unfoldable pub stop_if_active :
      (UpdateProgress → S → S)
      → ServiceState
      → Exec (Coordinator S) (CoordinatorError CE BE IE) (Unit {0})
  stop_if_active progress active = do
    report_to progress stopping_klipper
    on_host service (stop ports.run unit)
    state ← state_now
    expect_inactive state
  stop_if_active progress state = expect_inactive state

  unfoldable pub ensure_klipper_stopped :
      (UpdateProgress → S → S) → Exec (Coordinator S) (CoordinatorError CE BE IE) (Unit {0})
  unfolding observe stop_if_active
  ensure_klipper_stopped progress = do
    state ← state_now
    observe state
    stop_if_active progress state

  unfoldable pub execute_with_progress :
      ApprovedBuild
      → (UpdateProgress → S → S)
      → Exec (Coordinator S) (CoordinatorError CE BE IE) BuildArtifact
  execute_with_progress approved progress = do
    ensure_klipper_stopped progress
    on_host build_failed
        (ports.build approved.pending.prepared.request (λ stage. progress (build_progress stage)))

  -- `.map_err(FlashCoordinatorError::Coordinator)`
  abbrev pub coordinated :
      {A : Type 0}
      → Exec (Coordinator S) (CoordinatorError CE BE IE) A
      → Exec (Coordinator S) (FlashCoordinatorError CE BE IE F) A
  coordinated m c = let (result, d) = m c in (map_err coordinator result, d)

  unfoldable pub flash_firmware_system_with_progress :
      ApprovedBuild
      → Bytes
      → Options
      → Bool
      → (UpdateProgress → S → S)
      → Exec (Coordinator S) (FlashCoordinatorError CE BE IE F) FlashResult
  flash_firmware_system_with_progress approved firmware options force progress = do
    coordinated (ensure_klipper_stopped progress)
    on_host flash_failed (
        ports.flash_file approved.pending.prepared firmware options force
          (λ stage. progress (update_progress stage)))

  -- the backend of a request
  abbrev pub send :
      PreparedBuild
      → Protocol Image Links
      → Options
      → (UpdateProgress → S → S)
      → Exec S F FlashResult
  send prepared (katapult image application_start links) options progress =
      ports.flash_katapult prepared image application_start links options
        (λ stage. progress (update_progress stage))
  send prepared (beacon_dfu image) options progress =
      ports.flash_beacon prepared image options (λ stage. progress (update_progress stage))

  unfoldable pub flash_prebuilt :
      ApprovedBuild
      → FlashRequest Image Links
      → Options
      → (UpdateProgress → S → S)
      → Exec (Coordinator S) (FlashCoordinatorError CE BE IE F) FlashResult
  flash_prebuilt approved request options progress =
      let prepared = approved.pending.prepared in
      if not (is_for request.destination prepared)
      then raise
          (coordinator (request_for_another_mcu request.destination.name prepared.target_name))
      else do
        coordinated (ensure_klipper_stopped progress)
        on_host flash_failed (send prepared request.protocol options progress)

  -- the prepared build with the Kconfig that the build used
  abbrev pub with_kconfig : PreparedBuild → Text → PreparedBuild
  with_kconfig prepared kconfig = record {
    target_name = prepared.target_name;
    mcu = prepared.mcu;
    transport = prepared.transport;
    request = record {
      kconfig = kconfig;
      config_path = prepared.request.config_path;
      artifact_path = prepared.request.artifact_path;
      clean = prepared.request.clean;
    };
  }

  unfoldable pub build_for_flash :
      ApprovedBuild
      → (UpdateProgress → S → S)
      → Exec
          (Coordinator S)
          (FlashCoordinatorError CE BE IE F)
          (PreparedBuild × (BuildArtifact × Bytes))
  build_for_flash approved progress = do
    built ← coordinated (execute_with_progress approved progress)
    firmware ← on_host artifact (ports.read built.path)
    pure (with_kconfig approved.pending.prepared built.kconfig, (built, firmware))

  -- `execute_and_flash_with_progress`: `flash` is the caller's
  unfoldable pub execute_and_flash :
      ApprovedBuild
      → (PreparedBuild → Bytes → Exec S F FlashResult)
      → (UpdateProgress → S → S)
      → Exec (Coordinator S) (FlashCoordinatorError CE BE IE F) CompletedUpdate
  execute_and_flash approved flash progress = do
    ready ← build_for_flash approved progress
    result ← on_host flash_failed (flash ready.0 ready.1.1)
    pure (record { artifact = ready.1.0; flash = result })

  unfoldable pub execute_and_flash_system_with_progress :
      ApprovedBuild
      → Options
      → (UpdateProgress → S → S)
      → Exec (Coordinator S) (FlashCoordinatorError CE BE IE F) CompletedUpdate
  execute_and_flash_system_with_progress approved options progress = do
    ready ← build_for_flash approved progress
    result ←
        on_host flash_failed
          (ports.flash_system ready.0 ready.1.1 options (λ stage. progress (update_progress stage)))
    pure (record { artifact = ready.1.0; flash = result })

  abbrev pub expect_active :
      ServiceState → Exec (Coordinator S) (CoordinatorError CE BE IE) (Unit {0})
  expect_active active = pure tt
  expect_active state = raise (unexpected_klipper_state state)

  unfoldable pub start_and_verify : Exec (Coordinator S) (CoordinatorError CE BE IE) (Unit {0})
  start_and_verify = do
    on_host service (start ports.run unit)
    state ← state_now
    expect_active state

  -- `first_observed_active.get() != Some(true)` ends it
  abbrev pub restore_from :
      Option Bool → Exec (Coordinator S) (CoordinatorError CE BE IE) (Unit {0})
  restore_from (some true) = start_and_verify
  restore_from (some false) = pure tt
  restore_from none = pure tt

  unfoldable pub restore_after_failure : Exec (Coordinator S) (CoordinatorError CE BE IE) (Unit {0})
  restore_after_failure c = restore_from c.first_observed_active c
