-- ===== src/Runs/Results/Closing.antt =====
-- When a run is closed, with which status, and how often.
use cartesi_release_validati.Prelude.{
  Option, ℕ, ◌+◌, ◌*◌, ◌≤◌, ◌<◌, ◌≡◌, refl, ◌↔◌, Bool, true, false, not, none, some, List, [], ◌∷◌,
  arith, length, count, All, count-le-length,
}
use cartesi_release_validati.Runs.{
  RunStatus, completed, warning, is_running, is_in_flight, is_passed, ResultRow, Rate, Run,
}
use cartesi_release_validati.Runs.Results.{
  Notification, Thresholds, default_thresholds, reaches, final_status, results_of, rate_of,
  dispatched_of, is_over, closed_run, notification, handle,
}

-- What the consumer waits for before it closes a run.
pub record IsOver (dispatched : ℕ) (rows : List ResultRow) : Type 0 where
  pub written : 0 < dispatched
  pub idle : count (λ r. is_in_flight r.status) rows ≡ 0
  pub all_in : dispatched ≤ length rows

count-not {ℓ} :
    {A : Type ℓ} (p : A → Bool) (xs : List A) → count p xs + count (λ x. not (p x)) xs ≡ length xs
count-not p [] = refl
count-not p (x ∷ xs) = ground (arith, count-not p xs)

is_over_iff :
    (dispatched : ℕ) (rows : List ResultRow)
    → (is_over dispatched rows ≡ true) ↔ IsOver dispatched rows
unfolding is_over
is_over_iff dispatched rows = (
  (λ h. ground (arith, count-not (λ r. is_in_flight r.status) rows)),
  (λ h. ground (arith, count-not (λ r. is_in_flight r.status) rows)),
)

-- The status that ends a run with these counts, and whether it is a success. Both sides of the
-- comparison of passed / total * 100 with a threshold are multiplied by the total.
pub data EndsAs (t : Thresholds) (passed total : ℕ) : RunStatus → Bool → Type 0 where
  as_completed : t.completed * total ≤ passed * 100 → EndsAs t passed total completed true
  as_warning :
      passed * 100 < t.completed * total
      → t.warning * total ≤ passed * 100
      → EndsAs t passed total warning false
  as_failed :
      passed * 100 < t.completed * total
      → passed * 100 < t.warning * total
      → EndsAs t passed total RunStatus.failed false

-- The row and the notification that a message leaves that closes the run.
pub record IsClosed (t : Thresholds) (run : Run) (rows : List ResultRow)
    (after : Option Run × Option Notification) : Type 0 where
  pub final : RunStatus
  pub is_success : Bool
  pub ended : EndsAs t (count (λ r. is_passed r.status) rows) (length rows) final is_success
  pub stored :
      after.0
      ≡ some (record run {
        status = final;
        pass_rate =
            some (record { passed = count (λ r. is_passed r.status) rows; total = length rows });
      })
  pub published :
      after.1
      ≡ some (record {
        run_id = run.id;
        final = final;
        pass_rate = record { passed = count (λ r. is_passed r.status) rows; total = length rows };
        total_tests = length rows;
        passed_tests = count (λ r. is_passed r.status) rows;
        is_success = is_success;
      })

pub handle-closes :
    (t : Thresholds) (run : Run) (all_rows : List ResultRow)
    → let rows = results_of run.id all_rows in
      is_running run.status ≡ true
      → IsOver (dispatched_of run.metadata.dispatched_count) rows
      → handle t (some run) all_rows
        ≡ (some (closed_run t run rows), some (notification t run rows))
unfolding handle
handle-closes t run all_rows r o =
    let rows = results_of run.id all_rows in
    let yes_over = (is_over_iff (dispatched_of run.metadata.dispatched_count) rows).1 o in
    simp (yes_over, r)

All-passed_iff :
    (rows : List ResultRow)
    → (count (λ r. is_passed r.status) rows ≡ length rows)
      ↔ All (λ r. is_passed r.status ≡ true) rows
All-passed_iff [] = ((λ _. tt), (λ _. refl))
All-passed_iff (r ∷ rows) =
    let (to, from) = All-passed_iff rows in
    (
      (λ h. (
        ground (arith, count-le-length (λ x. is_passed x.status) rows),
        to (ground (arith, count-le-length (λ x. is_passed x.status) rows)),
      )),
      (λ h. ground (arith, from h.1)),
    )

-- With the default thresholds a run with at least one result is 'completed' exactly if every test
-- passed.
pub final_status-completed_iff :
    (rows : List ResultRow)
    → 0 < length rows
    → (final_status default_thresholds (rate_of rows) ≡ completed)
      ↔ All (λ r. is_passed r.status ≡ true) rows
unfolding final_status reaches rate_of
final_status-completed_iff rows some_rows =
    let (to, from) = All-passed_iff rows in
    (
      (λ h. to (ground (arith, count-le-length (λ r. is_passed r.status) rows))),
      (λ h. ground (arith, from h)),
    )

-- It is 'warning' exactly if some test did not pass and at least four fifths did.
pub final_status-warning_iff :
    (rows : List ResultRow)
    → 0 < length rows
    → (final_status default_thresholds (rate_of rows) ≡ warning) ↔ (
        (4 * length rows ≤ 5 * count (λ r. is_passed r.status) rows)
        × (count (λ r. is_passed r.status) rows < length rows))
unfolding final_status reaches rate_of
final_status-warning_iff rows some_rows =
    let bound = count-le-length (λ r. is_passed r.status) rows in
    ((λ h. ground (arith, bound)), (λ h. ground (arith, bound)))

final_status-not_running : (t : Thresholds) (rate : Rate) → is_running (final_status t rate) ≡ false
unfolding final_status
final_status-not_running t rate = ground arith

-- Handling a result message again, with the same rows, leaves the run's row as it is and
-- publishes no further notification of its end.
pub handle_idempotent :
    (t : Thresholds) (run : Run) (rows : List ResultRow)
    → handle t (handle t (some run) rows).0 rows ≡ ((handle t (some run) rows).0, none)
unfolding handle closed_run
handle_idempotent t run rows =
    ground (arith, final_status-not_running t (rate_of (results_of run.id rows)))
