-- ===== src/Runs/Results.antt =====
-- services/orchestrator/consumers/test_results.py: `_final_status` and `_handle`, which closes a run
-- when its last result is in.
pub mod Closing
use cartesi_release_validati.Prelude.{
  ℕ, zero, suc, ◌+◌, ◌-◌, ◌*◌, ◌/◌, ◌%◌, ◌≤◌, ◌<◌, min, max, ◌≡◌, refl, sym, ap, ◌∙◌, ◌≢◌, ◌↔◌, ◌⊎◌,
  inl, inr, Bool, true, false, not, ◌&&◌, ◌||◌, String, Option, none, some, List, [], ◌∷◌, ◌++◌,
  map, append-nil, append_assoc, arith, eq_iff, eq_refl, str_eq, if◌then◌else◌, ltb, leb, ◌==◌,
  ==_iff, ltb→lt, lt→ltb, leb→le, Bool-cases, Option-cases, length, take, drop, keep, count, all,
  any, All, length-append, length-take, length-drop, take-append-drop, count-le-length,
  count-append, lookup, has_key, insert, remove, HasDistinctKeys,
}
use cartesi_release_validati.Runs.{
  RunStatus, completed, warning, is_running, is_in_flight, is_passed, ResultRow, Rate, Run,
}

-- PASS_THRESHOLD_COMPLETED and PASS_THRESHOLD_WARNING, in percent.
pub record Thresholds : Type 0 where
  pub completed : ℕ
  pub warning : ℕ

abbrev pub default_thresholds : Thresholds
default_thresholds = record { completed = 100; warning = 80 }

-- `rate >= threshold` for the rate passed / total * 100, which is 0 without a total; an exact comparison,
-- where the code compares floats.
unfoldable pub reaches : Rate → ℕ → Bool
reaches rate threshold =
    if rate.total == 0 then threshold == 0 else leb (threshold * rate.total) (rate.passed * 100)

unfoldable pub final_status : Thresholds → Rate → RunStatus
final_status t rate =
    if reaches rate t.completed
    then completed
    else (if reaches rate t.warning then warning else RunStatus.failed)

-- The message that `publish_notification` sends, as far as it depends on the run.
pub record Notification : Type 0 where
  pub run_id : String
  pub final : RunStatus
  pub pass_rate : Rate
  pub total_tests : ℕ
  pub passed_tests : ℕ
  pub is_success : Bool

abbrev pub is_completed : RunStatus → Bool
is_completed completed = true
is_completed _ = false

-- The rows of `run_id`.
unfoldable pub results_of : String → List ResultRow → List ResultRow
results_of run_id rows = keep (λ r. str_eq r.run_id run_id) rows

unfoldable pub rate_of : List ResultRow → Rate
rate_of rows = record { passed = count (λ r. is_passed r.status) rows; total = length rows }

abbrev pub dispatched_of : Option ℕ → ℕ
dispatched_of none = 0
dispatched_of (some n) = n

-- The guard on the counts: true if the handler goes on to close the run.
unfoldable pub is_over : ℕ → List ResultRow → Bool
is_over dispatched rows = not (
    dispatched == 0
    || ltb 0 (count (λ r. is_in_flight r.status) rows)
    || ltb (count (λ r. not (is_in_flight r.status)) rows) dispatched)

-- The row after the UPDATE, and the notification about it.
unfoldable pub closed_run : Thresholds → Run → List ResultRow → Run
closed_run t run rows = record run {
  status = final_status t (rate_of rows);
  pass_rate = some (rate_of rows);
}

unfoldable pub notification : Thresholds → Run → List ResultRow → Notification
notification t run rows =
    let rate = rate_of rows in
    record {
      run_id = run.id;
      final = final_status t rate;
      pass_rate = rate;
      total_tests = rate.total;
      passed_tests = rate.passed;
      is_success = is_completed (final_status t rate);
    }

-- `_handle` on the run's row and all result rows: the row after it, and the notification if one is
-- published. The statements run in one transaction. The live broadcast of each result, which comes
-- first and has no condition, is left out.
unfoldable pub handle : Thresholds → Option Run → List ResultRow → Option Run × Option Notification
handle thresholds none all_rows = (none, none)
handle thresholds (some run) all_rows =
    let rows = results_of run.id all_rows in
    if not (is_over (dispatched_of run.metadata.dispatched_count) rows)
    then (some run, none)
    else (if is_running run.status
        then (some (closed_run thresholds run rows), some (notification thresholds run rows))
        else (some run, none))
