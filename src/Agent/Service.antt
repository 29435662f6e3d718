-- ===== src/Agent/Service.antt =====
-- The agent's service (src/agent/service.rs): which requests it accepts, the record of a run, and
-- what its threads do to it. Requests, the thread of a run and other processes take their steps in
-- any order; a step is what happens under one lock.
pub mod Accepted
pub mod Chosen
pub mod Once
pub mod Refines
pub mod Runs
mod Examples
use aldis.Prelude.{
  ℕ, suc, leb, ◌&&◌, ◌||◌, not, Bool, true, false, if◌then◌else◌, List, [], ◌∷◌, ◌++◌, map, length,
  drop, bytes_eq, ◌≡◌, ◌≢◌, Option, none, some, Result, ok, err,
}
use aldis.Prelude.Iter.{keep, find, filter_map}
use aldis.Prelude.Strings.{eq_ignore_ascii_case, to_ascii_lowercase}
use aldis.Prelude.Text.{Text, any}
use aldis.Fleet.{Mcu, flash_order}
use aldis.Fleet.Peers.{McuInventory, among}
use aldis.Coordinator.{
  UpdateProgress, stopping_klipper, downloading_firmware, firmware_downloaded, reading_firmware,
  firmware_read, configuring_firmware, compiling_firmware, entering_bootloader, bootloader_is_ready,
  starting_flash, installing_binary,
}
use aldis.Update.{RunStep, wait_for_application, start_klipper, reconnect, KlippyState}
use aldis.Agent.{BlockerReason, McuEntry, StatusBody, Action, update, display_name}

abbrev pub message_cap : ℕ
message_cap = 500

pub data UpdateRequest : Type 0 where
  these : List Text → UpdateRequest
  every_mcu : Bool → UpdateRequest

pub data ApiError : Type 0 where
  busy unavailable invalid_request nothing_to_update : ApiError
  blocked : BlockerReason → ApiError
  unknown_mcu : Text → ApiError
  not_updatable : List McuEntry → ApiError

abbrev pub can_update : McuEntry → Bool
can_update entry = any (λ action. true) entry.actions

-- the entries that a request names; the error is the first name that there is not
unfoldable pub named : List McuEntry → List Text → Result ApiError (List McuEntry)
unfolding find eq_ignore_ascii_case
named mcus [] = ok []
named mcus (name ∷ names) =
    let rest = named mcus names in
    elim (find (λ m. eq_ignore_ascii_case m.name name) mcus) [
      | none ↦ err (unknown_mcu name)
      | some entry ↦ elim rest [ ok entries ↦ ok (entry ∷ entries) | err e ↦ err e ]
    ]

abbrev pub if_updatable : List McuEntry → List McuEntry → Result ApiError (List McuEntry)
if_updatable entries [] = ok entries
if_updatable entries (m ∷ ms) = err (not_updatable (m ∷ ms))

unfoldable pub entries_for : List McuEntry → UpdateRequest → Result ApiError (List McuEntry)
unfolding keep any named
entries_for mcus (every_mcu true) = ok (keep can_update mcus)
entries_for mcus (every_mcu false) = err invalid_request
entries_for mcus (these names) = elim (named mcus names) [
  | err e ↦ err e
  | ok entries ↦ if_updatable entries (keep (λ m. not (can_update m)) entries)
]

-- the Klipper object of an entry
abbrev pub object_of : List Mcu → McuEntry → Option Text
unfolding find
object_of mcus entry =
    elim (find (λ (mcu : Mcu). bytes_eq (display_name mcu.name) entry.name) mcus) [
      | none ↦ none
      | some mcu ↦ some mcu.name
    ]

-- Each name once, whatever its case: the first is kept.
unfoldable pub once : List Text → List Text → List Text
once seen [] = []
once seen (name ∷ names) =
    let others = once seen names in
    let rest = once (to_ascii_lowercase name ∷ seen) names in
    if among seen (to_ascii_lowercase name) then others else name ∷ rest

abbrev pub targets_of : McuInventory → List McuEntry → Result ApiError (List Text)
unfolding flash_order once filter_map
targets_of inventory [] = err nothing_to_update
targets_of inventory (entry ∷ entries) =
    ok (
      flash_order inventory.mcus
        (once [] (filter_map (object_of inventory.mcus) (entry ∷ entries))))

abbrev pub for_entries :
    McuInventory → Result ApiError (List McuEntry) → Result ApiError (List Text)
for_entries inventory (err e) = err e
for_entries inventory (ok entries) = targets_of inventory entries

-- What `update` decides once it has looked at the record: the targets in the order of flashing.
unfoldable pub accept :
    StatusBody → Option McuInventory → UpdateRequest → Result ApiError (List Text)
unfolding entries_for
accept body inventory request = elim (body.blocker) [
  | some reason ↦ err (blocked reason)
  | none ↦ elim inventory [
    | none ↦ err unavailable
    | some found ↦ for_entries found (entries_for body.mcus request)
  ]
]

pub data Phase : Type 0 where
  discover stop_klipper build enter_bootloader flash verify starting_klipper reconnecting done :
      Phase

pub data McuOutcome : Type 0 where
  updated_mcu failed_mcu not_attempted : McuOutcome

pub record RunResultBody : Type 0 where
  pub succeeded : Bool
  pub klippy_state : KlippyState
  pub klipper_left_stopped : Bool
  pub mcus : List (Text × McuOutcome)

pub record UpdateResponse : Type 0 where
  pub mcu : Option Text
  pub phase : Phase
  pub complete : Bool
  pub result : Option RunResultBody

pub data RunState : Type 0 where
  running finished : RunState

pub record RunBody : Type 0 where
  pub run_id : ℕ
  pub state : RunState
  pub messages : List UpdateResponse
  pub result : Option RunResultBody

pub record ServiceState : Type 0 where
  pub run : Option RunBody
  pub run_snapshot : Option StatusBody

unfoldable pub push_capped : RunBody → UpdateResponse → RunBody
push_capped run message = record {
  run_id = run.run_id;
  state = run.state;
  messages =
      (if leb message_cap (length run.messages) then drop 1 run.messages else run.messages)
      ++ (message ∷ []);
  result = run.result;
}

abbrev pub is_running_body : RunBody → Bool
is_running_body body = elim (body.state) [ running ↦ true | finished ↦ false ]

abbrev pub is_running : Option RunBody → Bool
is_running none = false
is_running (some body) = is_running_body body

-- the record that a run begins with
unfoldable pub begin : ℕ → StatusBody → ServiceState
begin id body = record {
  run = some (record { run_id = id; state = running; messages = []; result = none });
  run_snapshot = some body;
}

abbrev pub map_run : (RunBody → RunBody) → ServiceState → ServiceState
map_run f service = record {
  run = elim (service.run) [ none ↦ none | some body ↦ some (f body) ];
  run_snapshot = service.run_snapshot;
}

unfoldable pub emit : UpdateResponse → ServiceState → ServiceState
unfolding push_capped
emit message = map_run (λ body. push_capped body message)

unfoldable pub finish : RunResultBody → ServiceState → ServiceState
finish result = map_run (λ body. record {
  run_id = body.run_id;
  state = finished;
  messages = body.messages;
  result = some result;
})

-- `status`: while a run goes on it is the assessment taken at its start, without its actions
unfoldable pub status : ServiceState → StatusBody → StatusBody × Option RunBody
status service assessed =
    let frozen : StatusBody = elim (service.run_snapshot) [
      | none ↦ assessed
      | some body ↦ record {
        blocker = body.blocker;
        mcus =
            map
              (λ (m : McuEntry). record {
                name = m.name;
                transport = m.transport;
                running_version = m.running_version;
                state = m.state;
                refusal = m.refusal;
                actions = [];
              })
              body.mcus;
      }
    ] in
    (if is_running service.run then frozen else assessed, service.run)

-- what became of a target, by what was updated and where the run failed
unfoldable pub outcome_of : List Text → Option Text → Text → Text × McuOutcome
outcome_of updated failed_at target' = (
  display_name target',
  if among updated target' then updated_mcu else elim failed_at [
    | none ↦ not_attempted
    | some name ↦ if bytes_eq name target' then failed_mcu else not_attempted
  ],
)

-- the phase that a stage of the coordinator is reported as
abbrev pub phase_of : UpdateProgress → Phase
phase_of downloading_firmware = build
phase_of firmware_downloaded = build
phase_of reading_firmware = build
phase_of firmware_read = build
phase_of stopping_klipper = stop_klipper
phase_of configuring_firmware = build
phase_of compiling_firmware = build
phase_of entering_bootloader = enter_bootloader
phase_of bootloader_is_ready = enter_bootloader
phase_of starting_flash = flash
phase_of installing_binary = flash

abbrev pub phase_of_step : RunStep → Phase
phase_of_step wait_for_application = verify
phase_of_step start_klipper = starting_klipper
phase_of_step reconnect = reconnecting

-- Who holds the lock of the host: nobody, another process, a request that has not yet looked at
-- the record or has, or a run.
pub data Lock : Type 0 where
  free elsewhere asking cleared : Lock
  of_run : ℕ → Lock

-- The threads of runs that have not recorded their end are listed by the identifiers of the runs.
pub record World : Type 0 where
  pub lock : Lock
  pub service : ServiceState
  pub workers : List ℕ

abbrev pub first_world : World
first_world = record {
  lock = free;
  service = record { run = none; run_snapshot = none };
  workers = [];
}

abbrev pub with_lock : Lock → World → World
with_lock lock w = record { lock = lock; service = w.service; workers = w.workers }

-- One step of a request, of the thread of a run, or of another process.
pub data Step (w u : World) : Type 0 where
  taken : w.lock ≡ free → u ≡ with_lock elsewhere w → Step w u
  given_back : w.lock ≡ elsewhere → u ≡ with_lock free w → Step w u
  acquire : w.lock ≡ free → u ≡ with_lock asking w → Step w u
  refuse_running :
      w.lock ≡ asking → is_running w.service.run ≡ true → u ≡ with_lock free w → Step w u
  pass : w.lock ≡ asking → is_running w.service.run ≡ false → u ≡ with_lock cleared w → Step w u
  refuse : w.lock ≡ cleared → u ≡ with_lock free w → Step w u
  start :
      (id : ℕ) (body : StatusBody)
      → w.lock ≡ cleared
      → u ≡ record { lock = of_run id; service = begin id body; workers = id ∷ w.workers }
      → Step w u
  say :
      (message : UpdateResponse)
      → w.workers ≢ []
      → u ≡ record { lock = w.lock; service = emit message w.service; workers = w.workers }
      → Step w u
  -- The run is over, and its lock is dropped before its end is recorded.
  leave : (id : ℕ) → w.lock ≡ of_run id → u ≡ with_lock free w → Step w u
  record_end :
      (id : ℕ) (others : List ℕ) (result : RunResultBody)
      → w.workers ≡ id ∷ others
      → w.lock ≢ of_run id
      → u ≡ record { lock = w.lock; service = finish result w.service; workers = others }
      → Step w u

pub data Reach : World → Type 0 where
  here : Reach first_world
  next : {w u : World} → Reach w → Step w u → Reach u
