-- ===== src/Service.antt =====
-- The controller of Klipper's systemd unit (src/service.rs) and the commands that it runs
-- (src/build.rs). The runner is a parameter that acts on the state of the host; the output of
-- systemctl is ASCII text.
pub mod Unit
mod Examples
use aldis.Prelude.{
  ℕ, leb, ◌||◌, ◌&&◌, Bool, true, false, if◌then◌else◌, List, [], ◌∷◌, ◌++◌, length, bytes_eq,
  Bytes, Option, none, some, Result, ok, err, map_err, Exec, ◌>>=◌, ◌>>◌, pure, raise,
}
use aldis.Prelude.Text.{Text, codes, all, strip_prefix, is_alphanumeric, one_of, trim}

pub record BuildCommand : Type 0 where
  pub program : Text
  pub arguments : List Text
  pub current_dir : Option Text
  pub stdin : Option Bytes

pub record CommandOutput : Type 0 where
  pub success : Bool
  pub stdout : Bytes
  pub stderr : Bytes

-- `BuildCommand::sudo`
abbrev pub sudo : List Text → Option Bytes → BuildCommand
sudo arguments stdin = record {
  program = codes "sudo";
  arguments = codes "-n" ∷ arguments;
  current_dir = none;
  stdin = stdin;
}

abbrev pub default_klipper_unit : Text
default_klipper_unit = codes "klipper"

abbrev pub max_unit_len : ℕ
max_unit_len = 64

abbrev pub is_unit_byte : ℕ → Bool
is_unit_byte byte = is_alphanumeric byte || one_of (codes "_.-@") byte

pub record KlipperUnit : Type 0 where
  pub as_str : Text

-- `KlipperUnit::parse`; the error carries the name
unfoldable pub parse_unit : Text → Result Text KlipperUnit
parse_unit name =
    let named : Bool = elim (strip_prefix default_klipper_unit name) [
      | none ↦ false
      | some rest ↦ all is_unit_byte rest
    ] in
    if leb (length name) max_unit_len && named then ok (record { as_str = name }) else err name

pub data ServiceState : Type 0 where
  active inactive failed : ServiceState
  transitioning unknown : Text → ServiceState

pub data ServiceError (CE : Type 0) : Type 0 where
  command_port : BuildCommand → CE → ServiceError CE
  command_failed : BuildCommand → CommandOutput → ServiceError CE

-- the words of systemd
unfoldable pub state_of : Text → ServiceState
state_of state =
    if bytes_eq state (codes "active")
    then active
    else if bytes_eq state (codes "inactive")
    then inactive
    else if bytes_eq state (codes "failed")
    then failed
    else if bytes_eq state (codes "activating")
        || bytes_eq state (codes "deactivating")
        || bytes_eq state (codes "reloading")
    then transitioning state
    else unknown state

module _ {S CE : Type 0} (run : BuildCommand → Exec S CE CommandOutput) (unit : KlipperUnit) where
  abbrev pub systemctl : List Text → BuildCommand
  systemctl arguments = sudo (codes "/bin/systemctl" ∷ arguments) none

  unfoldable pub run_systemctl : List Text → Exec S (ServiceError CE) (BuildCommand × CommandOutput)
  run_systemctl arguments s =
      let (result, s') = run (systemctl arguments) s in
      elim result [
        | ok output ↦ (ok (systemctl arguments, output), s')
        | err source ↦ (err (command_port (systemctl arguments) source), s')
      ]

  -- `KlipperService::state`
  unfoldable pub service_state : Exec S (ServiceError CE) ServiceState
  unfolding state_of
  service_state = do
    answer ← run_systemctl (codes "is-active" ∷ unit.as_str ∷ [])
    pure (state_of (trim answer.1.stdout))

  unfoldable pub run_state_change : Text → Exec S (ServiceError CE) (Unit {0})
  run_state_change action = do
    answer ← run_systemctl (action ∷ unit.as_str ∷ [])
    if answer.1.success then pure tt else raise (command_failed answer.0 answer.1)

  unfoldable pub stop : Exec S (ServiceError CE) (Unit {0})
  stop = run_state_change (codes "stop")

  unfoldable pub start : Exec S (ServiceError CE) (Unit {0})
  start = run_state_change (codes "start")
