-- ===== src/Update.antt =====
-- An update run (src/update_run.rs): what a run asks, reports and answers. Moonraker, the caller's
-- hooks and the waiting are parameters that act on the state of the host. The texts of messages are
-- constructors that hold what the texts tell.
pub mod Run
pub mod Retry
mod Examples
use aldis.Prelude.{
  ℕ, Bool, true, false, if◌then◌else◌, List, [], ◌∷◌, ◌++◌, Option, none, some, Result, ok, err,
  Exec,
}
use aldis.Prelude.Text.{Text}
use aldis.Coordinator.{CoordinatorError, FlashCoordinatorError, UpdateProgress}
use aldis.Fleet.{Mcu}

pub data KlippyState : Type 0 where
  ready startup klippy_error shutdown disconnected : KlippyState

pub data PrintState : Type 0 where
  standby printing paused complete cancelled print_error : PrintState
  unknown_state : Text → PrintState

-- Whether stopping Klipper now cannot interrupt a print.
abbrev pub is_idle : PrintState → Bool
is_idle standby = true
is_idle complete = true
is_idle cancelled = true
is_idle print_error = true
is_idle printing = false
is_idle paused = false
is_idle (unknown_state s) = false

-- `HostPort` and `PrinterStatePort`
pub record Moonraker (S ME : Type 0) : Type 0 where
  pub host_state : Exec S ME KlippyState
  pub print_state : Exec S ME PrintState

pub data Refusal (ME : Type 0) : Type 0 where
  printer_is : PrintState → Refusal ME
  not_confirmed : ME → Refusal ME

abbrev pub has_stopped : {ME : Type 0} → Result ME KlippyState → Bool
has_stopped (ok klippy_error) = true
has_stopped (ok shutdown) = true
has_stopped (ok ready) = false
has_stopped (ok startup) = false
has_stopped (ok disconnected) = false
has_stopped (err e) = false

abbrev pub judged : {ME : Type 0} → Result ME PrintState → Result (Refusal ME) (Unit {0})
judged (ok state) = if is_idle state then ok tt else err (printer_is state)
judged (err e) = err (not_confirmed e)

unfoldable pub ensure_printer_idle :
    {S ME : Type 0} → Moonraker S ME → Exec S (Refusal ME) (Unit {0})
ensure_printer_idle printer s =
    let (host, s') = printer.host_state s in
    if has_stopped host
    then (ok tt, s')
    else (let (state, s'') = printer.print_state s' in (judged state, s''))

pub data RunStep : Type 0 where
  wait_for_application start_klipper reconnect : RunStep

-- What went wrong; `NI`, `W` are the failures of preparing prebuilt firmware and of waiting.
pub data Detail (CE BE IE F ME NI W : Type 0) : Type 0 where
  not_in_inventory would_downgrade : Text → Detail CE BE IE F ME NI W
  not_prepared : Text → CoordinatorError CE BE IE → Detail CE BE IE F ME NI W
  refused : Refusal ME → Detail CE BE IE F ME NI W
  no_image : NI → Detail CE BE IE F ME NI W
  not_flashed : FlashCoordinatorError CE BE IE F → Detail CE BE IE F ME NI W
  not_back : W → Detail CE BE IE F ME NI W
  not_started : CoordinatorError CE BE IE → Detail CE BE IE F ME NI W
  not_reconnected : W → Detail CE BE IE F ME NI W

-- `failure_message`: whether a restore was attempted, and how it went; `plain` adds no advice.
pub data Advice (CE BE IE : Type 0) : Type 0 where
  plain : Advice CE BE IE
  may_be_stopped : Advice CE BE IE
  left_as_before : Advice CE BE IE
  not_restored : CoordinatorError CE BE IE → Advice CE BE IE

unfoldable pub failure_message :
    {CE BE IE : Type 0} → Option (Result (CoordinatorError CE BE IE) (Unit {0})) → Advice CE BE IE
failure_message none = may_be_stopped
failure_message (some (ok u)) = left_as_before
failure_message (some (err e)) = not_restored e

pub record RunFailure (CE BE IE F ME NI W : Type 0) : Type 0 where
  pub detail : Detail CE BE IE F ME NI W
  pub advice : Advice CE BE IE
  pub mcu : Option Text
  pub updated : List Text

pub record RunHooks (S CE BE IE F ME NI W : Type 0) : Type 0 where
  pub approve_update : Text → Text → Text → S → Bool × S
  pub progress : Text → UpdateProgress → S → S
  pub flashed : Text → Text → ℕ → S → S
  pub step_started : RunStep → S → S
  pub step_succeeded : RunStep → S → S
  pub failed : Detail CE BE IE F ME NI W → S → S

-- the waits of a run
pub record Waits (S W : Type 0) : Type 0 where
  pub for_application : Mcu → Exec S W (Unit {0})
  pub for_mcus : List Text → Exec S W (Unit {0})
