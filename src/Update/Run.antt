-- ===== src/Update/Run.antt =====
-- `run_updates` (src/update_run.rs): every approved target is built or its firmware prepared, and
-- flashed, in order; then Klipper is started and the updated MCUs are waited for. The first failure
-- ends the run. The coordinator is the one of src/coordinator.rs, on a host that is a parameter.
pub mod Untouched
pub mod Rounds
pub mod Sequence
use aldis.Prelude.{
  not, Bool, true, false, if◌then◌else◌, List, [], ◌∷◌, ◌++◌, Bytes, Option, none, some, Result, ok,
  err, Exec, ◌>>=◌, ◌>>◌, pure, raise,
}
use aldis.Prelude.Text.{Text, codes}
use aldis.Flash.{FlashResult}
use aldis.Fleet.{Mcu, find_mcu}
use aldis.Service.{KlipperUnit}
use aldis.Prepare.{PathBuf, FlashRequest}
use aldis.Eligibility.{Semver}
use aldis.Vendors.Cartographer.{DictionaryIdentity}
use aldis.Vendors.Beacon.Image.{FirmwareImage}
use aldis.Coordinator.{
  Ports, Coordinator, PendingBuild, ApprovedBuild, approve, CompletedUpdate, CoordinatorError,
  FlashCoordinatorError, coordinator, artifact, flash_failed, UpdateProgress, on_host, prepare,
  flash_prebuilt, execute_and_flash_system_with_progress, restore_after_failure, start_and_verify,
}
use aldis.Prebuilt.Requests.{PrebuiltLinks, NoImage, Sources, prepare_automatic}
use aldis.Selection.{TargetVersions, downgrade_of, label_for}
use aldis.Update.{
  Moonraker, Refusal, ensure_printer_idle, RunStep, wait_for_application, start_klipper, reconnect,
  Detail, not_in_inventory, would_downgrade, not_prepared, refused, no_image, not_flashed, not_back,
  not_started, not_reconnected, Advice, plain, failure_message, RunFailure, RunHooks, Waits,
}

-- `FlashCoordinatorError::allows_klipper_restore`; `harmless` are the backend's errors that leave
-- no MCU in a bootloader.
unfoldable pub allows_klipper_restore :
    {CE BE IE F : Type 0} → (F → Bool) → FlashCoordinatorError CE BE IE F → Bool
allows_klipper_restore harmless (coordinator e) = true
allows_klipper_restore harmless (artifact e) = true
allows_klipper_restore harmless (flash_failed e) = harmless e

abbrev version_label : Option Text → Text
version_label none = codes "unknown"
version_label (some version) = version

abbrev pub otherwise : {S E F A : Type 0} → Result E A → (E → Exec S F A) → Exec S F A
otherwise (ok a) f s = (ok a, s)
otherwise (err e) f s = f e s

-- What happens on the error of a step.
abbrev pub or_else : {S E F A : Type 0} → Exec S E A → (E → Exec S F A) → Exec S F A
or_else m f s = let (r, s') = m s in otherwise r f s'

-- what a run is given
pub record Context (S V CE BE IE F Options ME DE W : Type 0) : Type 0 where
  pub ports : Ports S CE BE IE F Options (FirmwareImage V) PrebuiltLinks
  pub unit : KlipperUnit
  pub harmless : F → Bool
  pub semver : Semver V
  pub dictionary : Bytes → Option DictionaryIdentity
  pub sources : Sources S V DE
  pub moonraker : Moonraker S ME
  pub waits : Waits S W
  pub hooks : RunHooks S CE BE IE F ME (NoImage DE) W
  pub mcus : List Mcu
  pub workspace : PathBuf
  pub target_versions : TargetVersions V
  pub clean : Bool
  pub options : Options

module _ {S V CE BE IE F Options ME DE W : Type 0}
    (x : Context S V CE BE IE F Options ME DE W) where
  abbrev pub Failure : Type 0
  Failure = RunFailure CE BE IE F ME (NoImage DE) W

  abbrev pub Run : Type 0 → Type 0
  Run A = Exec (Coordinator S) Failure A

  abbrev pub hook : (S → S) → Run (Unit {0})
  hook f c = (ok tt, record { host = f c.host; first_observed_active = c.first_observed_active })

  -- `fail_with_detail`
  unfoldable pub fail_with_detail :
      {A : Type 0}
      → Detail CE BE IE F ME (NoImage DE) W
      → Advice CE BE IE
      → Option Text
      → List Text
      → Run A
  fail_with_detail detail advice mcu updated = do
    hook (x.hooks.failed detail)
    raise (record { detail = detail; advice = advice; mcu = mcu; updated = updated })

  abbrev fail : {A : Type 0} → Detail CE BE IE F ME (NoImage DE) W → Option Text → List Text → Run A
  fail detail mcu updated = fail_with_detail detail plain mcu updated

  abbrev post_flash_failure :
      {A : Type 0} → Detail CE BE IE F ME (NoImage DE) W → Option Text → List Text → Run A
  post_flash_failure detail mcu updated = fail_with_detail detail (failure_message none) mcu updated

  -- `approve`: the hook's answer
  abbrev asked : Text → Mcu → Run Bool
  asked name mcu c =
      let (answer, host) =
        x.hooks.approve_update name (version_label mcu.version)
          (label_for x.semver x.target_versions mcu) c.host in
      (ok answer, record { host = host; first_observed_active = c.first_observed_active })

  -- `restore_after_failure`, whose result is only told
  abbrev restored : Run (Result (CoordinatorError CE BE IE) (Unit {0}))
  restored c = let (r, d) = restore_after_failure x.ports x.unit c in (ok r, d)

  abbrev restored_if : Bool → Run (Option (Result (CoordinatorError CE BE IE) (Unit {0})))
  restored_if false = pure none
  restored_if true = do restore ← restored; pure (some restore)

  -- no image: nothing was written to the MCU, and Klipper goes back to how it was found
  abbrev without_image : {A : Type 0} → Text → List Text → NoImage DE → Run A
  without_image name updated e = do
    restore ← restored
    fail_with_detail (no_image e) (failure_message (some restore)) (some name) updated

  abbrev flash_failure : {A : Type 0} → Text → List Text → FlashCoordinatorError CE BE IE F → Run A
  flash_failure name updated e = do
    restore ← restored_if (allows_klipper_restore x.harmless e)
    fail_with_detail (not_flashed e) (failure_message restore) (some name) updated

  abbrev flash_of :
      Exec (Coordinator S) (FlashCoordinatorError CE BE IE F) CompletedUpdate
      → Exec (Coordinator S) (FlashCoordinatorError CE BE IE F) FlashResult
  flash_of m = do completed ← m; pure completed.flash

  -- the firmware of a vendor, or a build
  abbrev flash_with :
      Text
      → List Text
      → PendingBuild
      → Option (Exec S (NoImage DE) (FlashRequest (FirmwareImage V) PrebuiltLinks))
      → Run FlashResult
  flash_with name updated pending (some prepared) = do
    request ← or_else (on_host (λ e. e) prepared) (without_image name updated)
    or_else
        (flash_prebuilt x.ports x.unit (approve pending) request x.options (x.hooks.progress name))
        (flash_failure name updated)
  flash_with name updated pending none =
      or_else
        (flash_of (
          execute_and_flash_system_with_progress x.ports x.unit (approve pending) x.options
            (x.hooks.progress name)))
        (flash_failure name updated)

  abbrev prepared_for :
      Text
      → Mcu
      → PendingBuild
      → Option (Exec S (NoImage DE) (FlashRequest (FirmwareImage V) PrebuiltLinks))
  prepared_for name mcu pending =
      prepare_automatic x.semver x.dictionary x.sources (x.hooks.progress name)
        pending.prepared.request.artifact_path x.target_versions.prebuilt_targets mcu

  -- the printer is asked once, before the first flash
  unfoldable pub check_printer : Text → List Text → Bool → Run (Unit {0})
  unfolding ensure_printer_idle
  check_printer name updated true = pure tt
  check_printer name updated false =
      or_else (on_host (λ e. e) (ensure_printer_idle x.moonraker))
        (λ e. fail (refused e) (some name) updated)

  -- an approved target, from the flash on
  unfoldable pub update_mcu : Text → Mcu → List Text → PendingBuild → Run (List Text)
  unfolding fail_with_detail prepare_automatic allows_klipper_restore failure_message
  update_mcu name mcu updated pending = do
    flash ← flash_with name updated pending (prepared_for name mcu pending)
    hook (x.hooks.flashed name mcu.kconfig flash.padded_bytes)
    hook (x.hooks.step_started wait_for_application)
    or_else (on_host (λ e. e) (x.waits.for_application mcu))
        (λ e. post_flash_failure (not_back e) (some name) updated)
    hook (x.hooks.step_succeeded wait_for_application)
    pure (updated ++ (name ∷ []))

  -- an approved target
  unfoldable pub prepare_and_update : Text → Mcu → List Text → Bool → Run (List Text × Bool)
  unfolding check_printer update_mcu
  prepare_and_update name mcu updated checked = do
    pending ←
        or_else (prepare x.ports x.unit x.mcus x.workspace name x.clean)
          (λ e. fail (not_prepared name e) (some name) updated)
    check_printer name updated checked
    now_updated ← update_mcu name mcu updated pending
    pure (now_updated, true)

  abbrev if_approved : Text → Mcu → List Text → Bool → Bool → Run (List Text × Bool)
  if_approved name mcu updated checked false = pure (updated, checked)
  if_approved name mcu updated checked true = prepare_and_update name mcu updated checked

  -- one round of the loop, on the MCU of the name
  unfoldable pub one_target : Text → Option Mcu → List Text → Bool → Run (List Text × Bool)
  unfolding prepare_and_update label_for downgrade_of
  one_target name none updated checked = fail (not_in_inventory name) (some name) updated
  one_target name (some mcu) updated checked =
      if downgrade_of x.semver mcu x.target_versions
      then fail (would_downgrade name) (some name) updated
      else asked name mcu >>= if_approved name mcu updated checked

  unfoldable pub run_targets : List Text → List Text → Bool → Run (List Text)
  unfolding one_target find_mcu
  run_targets [] updated checked = pure updated
  run_targets (name ∷ names) updated checked =
      one_target name (find_mcu name x.mcus) updated checked >>= λ (r : List Text × Bool).
      run_targets names r.0 r.1

  -- the end of a run, where anything was updated
  unfoldable pub finish : List Text → Run (List Text)
  unfolding fail_with_detail failure_message
  finish [] = pure []
  finish (name ∷ names) = do
    hook (x.hooks.step_started start_klipper)
    or_else (λ c. start_and_verify x.ports x.unit c)
        (λ e. post_flash_failure (not_started e) none (name ∷ names))
    hook (x.hooks.step_succeeded start_klipper)
    hook (x.hooks.step_started reconnect)
    or_else (on_host (λ e. e) (x.waits.for_mcus (name ∷ names)))
        (λ e. fail (not_reconnected e) none (name ∷ names))
    hook (x.hooks.step_succeeded reconnect)
    pure (name ∷ names)

  -- `run_updates`: `RunOutcome` is the list of the updated MCUs
  unfoldable pub run_updates : List Text → Run (List Text)
  unfolding run_targets finish
  run_updates targets = do updated ← run_targets targets [] false; finish updated
