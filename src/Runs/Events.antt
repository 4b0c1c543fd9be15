-- ===== src/Runs/Events.antt =====
-- services/orchestrator/consumers/sandbox_events.py: `_handle` and `_store_log_batch`, what an event of
-- a sandbox does to the row of its run, to the history and the log rows, and what is published. The
-- row is in the table and the database answers.
use cartesi_release_validati.Prelude.{
  ℕ, zero, suc, String, Option, none, some, List, [], ◌∷◌, ◌++◌, str_eq, if◌then◌else◌,
}
use Prim.Native.String.{[] as nil, ◌∷◌ as ◌∷ᶜ◌}
use cartesi_release_validati.Runs.{RunStatus, is_cancelled, Run, running}
use cartesi_release_validati.Runs.Dispatch.{Definition, Command, dispatch_tests}

-- An element of the lines of a batch: a dict, where a missing key is none, or another JSON value.
pub data LogValue : Type 0 where
  dict : (source level message ts : Option String) → LogValue
  not_a_dict : LogValue

-- A row of orchestrator.run_logs. A ts of none is the time of the insert.
pub record LogRow : Type 0 where
  pub source : String
  pub level : String
  pub message : String
  pub ts : Option String

-- `text[:n]`.
unfoldable pub clamp : ℕ → String → String
clamp zero text = nil
clamp (suc n) nil = nil
clamp (suc n) (c ∷ᶜ text) = c ∷ᶜ clamp n text

abbrev pub or_default : Option String → String → String
or_default none d = d
or_default (some t) d = t

-- The rows of `_store_log_batch`.
unfoldable pub log_rows : List LogValue → List LogRow
log_rows [] = []
log_rows (not_a_dict ∷ lines) = log_rows lines
log_rows (dict source level message ts ∷ lines) =
    record {
      source = clamp 64 (or_default source "unknown");
      level = or_default level "info";
      message = clamp 4096 (or_default message "");
      ts = ts;
    }
    ∷ log_rows lines

-- The event types that `_handle` tells apart.
pub data SandboxEvent : Type 0 where
  log_batch : List LogValue → SandboxEvent
  step : (name : String) → SandboxEvent
  provisioning_event : SandboxEvent
  ready_event : (app_address : Option String) → SandboxEvent
  failed_event : SandboxEvent
  closed_event : SandboxEvent
  other_event : SandboxEvent

-- The run's row, its log rows and the types of its history, and what has been published: the commands,
-- the titles of the notifications and the batches for the live viewers.
pub record State : Type 0 where
  pub run : Run
  pub run_logs : List LogRow
  pub run_events : List String
  pub commands : List Command
  pub notifications : List String
  pub live : List (List LogValue)

abbrev pub record_event : String → State → State
record_event kind s = record s { run_events = s.run_events ++ (kind ∷ []) }

abbrev pub notify : String → State → State
notify title s = record s { notifications = s.notifications ++ (title ∷ []) }

abbrev pub set_run_status : RunStatus → State → State
set_run_status status s = let run = s.run in record s { run = record run { status = status } }

-- `_dispatch_tests`.
unfoldable pub dispatch : String → Option String → List Definition → State → State
dispatch sandbox_id app_address definitions s =
    let (run, commands) = dispatch_tests s.run sandbox_id app_address definitions in
    record s { run = run; commands = s.commands ++ commands }

-- What `_handle` does with an event of a run that is not cancelled.
unfoldable pub handle_event : String → List Definition → SandboxEvent → State → State
unfolding log_rows dispatch
handle_event sandbox_id definitions (log_batch lines) s = record s {
  run_logs = s.run_logs ++ log_rows lines;
  live = s.live ++ (lines ∷ []);
}
handle_event sandbox_id definitions (step name) s =
    notify name (if str_eq name "service_log" then s else record_event "sandbox.step" s)
handle_event sandbox_id definitions provisioning_event s =
    notify "Sandbox provisioning" (record_event "sandbox.provisioning" s)
handle_event sandbox_id definitions (ready_event app_address) s = notify "Sandbox ready" (
    dispatch sandbox_id app_address definitions
      (record_event "sandbox.ready" (set_run_status running s)))
handle_event sandbox_id definitions failed_event s =
    notify "Sandbox failed" (record_event "sandbox.failed" (set_run_status RunStatus.failed s))
handle_event sandbox_id definitions closed_event s =
    notify "Sandbox closed" (record_event "sandbox.closed" s)
handle_event sandbox_id definitions other_event s = s

-- `_handle`.
unfoldable pub handle : String → List Definition → SandboxEvent → State → State
handle sandbox_id definitions event s =
    if is_cancelled s.run.status then s else handle_event sandbox_id definitions event s

-- The consumer's loop over the events of one run.
unfoldable pub handle_all : String → List Definition → List SandboxEvent → State → State
unfolding handle
handle_all sandbox_id definitions [] s = s
handle_all sandbox_id definitions (event ∷ events) s =
    handle_all sandbox_id definitions events (handle sandbox_id definitions event s)
