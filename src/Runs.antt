-- ===== src/Runs.antt =====
-- The rows of orchestrator.runs and tests.results, as services/orchestrator/models/run.py and
-- infra/postgres/init.sql declare them, as far as the handlers read and write them; and
-- POST /runs/{run_id}/cancel of services/orchestrator/api/routes/runs.py.
mod Tests
pub mod Results
pub mod Dispatch
pub mod Events
pub mod Status
pub mod Ready
use cartesi_release_validati.Prelude.{
  ℕ, zero, suc, ◌+◌, ◌-◌, ◌*◌, ◌/◌, ◌%◌, ◌≤◌, ◌<◌, min, max, ◌≡◌, refl, sym, ap, ◌∙◌, ◌≢◌, ◌↔◌, ◌⊎◌,
  inl, inr, Bool, true, false, not, ◌&&◌, ◌||◌, String, Option, none, some, List, [], ◌∷◌, ◌++◌,
  map, append-nil, append_assoc, arith, eq_iff, eq_refl, str_eq, if◌then◌else◌, ltb, leb, ◌==◌,
  ==_iff, ltb→lt, lt→ltb, leb→le, Bool-cases, Option-cases, length, take, drop, keep, count, all,
  any, All, length-append, length-take, length-drop, take-append-drop, count-le-length,
  count-append, lookup, has_key, insert, remove, HasDistinctKeys,
}

pub data RunStatus : Type 0 where
  queued provisioning running completed failed warning cancelled : RunStatus

abbrev pub is_running : RunStatus → Bool
is_running running = true
is_running _ = false

abbrev pub is_cancelled : RunStatus → Bool
is_cancelled cancelled = true
is_cancelled _ = false

pub data TestStatus : Type 0 where
  pending running passed failed error skipped timeout : TestStatus

-- `status IN ('running', 'pending')`.
abbrev pub is_in_flight : TestStatus → Bool
is_in_flight TestStatus.running = true
is_in_flight pending = true
is_in_flight _ = false

abbrev pub is_passed : TestStatus → Bool
is_passed passed = true
is_passed _ = false

pub record ResultRow : Type 0 where
  pub id : String
  pub run_id : String
  pub definition_id : String
  pub status : TestStatus

-- The JSON object in the metadata column: the keys that the handlers use. A missing key is none.
pub record Metadata : Type 0 where
  pub dispatched_count : Option ℕ
  pub tags_filter : List String
  pub category_filter : List String
  pub ai_session : Bool

-- A pass rate of `passed` tests out of `total`. The code has the float passed / total * 100, or 0.0.
pub record Rate : Type 0 where
  pub passed : ℕ
  pub total : ℕ

pub record Run : Type 0 where
  pub id : String
  pub status : RunStatus
  pub pass_rate : Option Rate
  pub suite_ids : List String
  pub metadata : Metadata
  pub app_address : Option String
  pub node_major_version : ℕ

pub data Cancel : Type 0 where
  not_found already_over cancelled_now : Cancel

-- `if run.status in ("completed", "failed", "cancelled")`.
abbrev pub is_refused : RunStatus → Bool
is_refused completed = true
is_refused failed = true
is_refused cancelled = true
is_refused _ = false

-- `cancel_run` on the row that the id finds, and the row after it.
unfoldable pub cancel_run : Option Run → Cancel × Option Run
cancel_run none = (not_found, none)
cancel_run (some run) =
    if is_refused run.status
    then (already_over, some run)
    else (cancelled_now, some (record run { status = RunStatus.cancelled }))
