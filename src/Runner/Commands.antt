-- ===== src/Runner/Commands.antt =====
-- services/test-runner/consumers/test_commands.py: `_handle`, what one test command does to the
-- table tests.results and which log lines and results it publishes.
pub mod Overrides
pub mod Publishing
use cartesi_release_validati.Prelude.{
  ℕ, zero, suc, ◌+◌, ◌-◌, ◌*◌, ◌/◌, ◌%◌, ◌≤◌, ◌<◌, min, max, ◌≡◌, refl, sym, ap, ◌∙◌, ◌≢◌, ◌↔◌, ◌⊎◌,
  inl, inr, Bool, true, false, not, ◌&&◌, ◌||◌, String, Option, none, some, List, [], ◌∷◌, ◌++◌,
  map, append-nil, append_assoc, arith, eq_iff, eq_refl, str_eq, if◌then◌else◌, ltb, leb, ◌==◌,
  ==_iff, ltb→lt, lt→ltb, leb→le, Bool-cases, Option-cases, length, take, drop, keep, count, all,
  any, All, length-append, length-take, length-drop, take-append-drop, count-le-length,
  count-append, lookup, has_key, insert, remove, HasDistinctKeys, In, In-keep_iff, Empty,
}
use cartesi_release_validati.Text.{truthy}
use cartesi_release_validati.Runs.{TestStatus, is_passed, passed, running, skipped, error}
use cartesi_release_validati.Runner.{
  Assertion, AssertionResult, Message, Outcome, Executors, Definition, run_test, outcome_of,
  exception, run_cancelled,
}

-- A key of parameter_overrides: `assertions.<N>.<leaf>`, where a text that is no index is none, or a
-- bare key.
pub data OverrideKey : Type 0 where
  scoped : Option ℕ → String → OverrideKey
  bare : String → OverrideKey

pub record TestCommand : Type 0 where
  pub run_id : String
  pub sandbox_id : String
  pub definition_id : String
  pub result_id : Option String
  pub definition_parsed_override : Option (List Assertion)
  pub parameter_overrides : List (OverrideKey × String)

-- `asserts[idx][leaf] = v`, if there is an assertion at the index.
unfoldable pub set_at : ℕ → String → String → List Assertion → List Assertion
set_at i leaf v [] = []
set_at zero leaf v (a ∷ asserts) = insert leaf v a ∷ asserts
set_at (suc i) leaf v (a ∷ asserts) = a ∷ set_at i leaf v asserts

abbrev pub owns : String → Assertion → Bool
owns k a = has_key k a && not (str_eq k "type")

-- `owners[0][k] = v`.
unfoldable pub set_owner : String → String → List Assertion → List Assertion
set_owner k v [] = []
set_owner k v (a ∷ asserts) = if owns k a then insert k v a ∷ asserts else a ∷ set_owner k v asserts

unfoldable pub apply_override : List Assertion → OverrideKey × String → List Assertion
unfolding set_at set_owner
apply_override asserts (scoped none leaf, v) = asserts
apply_override asserts (scoped (some i) leaf, v) = set_at i leaf v asserts
apply_override asserts (bare k, v) =
    if count (owns k) asserts == 1 then set_owner k v asserts else asserts

unfoldable pub apply_overrides : List Assertion → List (OverrideKey × String) → List Assertion
unfolding apply_override
apply_overrides asserts [] = asserts
apply_overrides asserts (o ∷ os) = apply_overrides (apply_override asserts o) os

abbrev pub or_empty : Option (List Assertion) → List Assertion
or_empty none = []
or_empty (some asserts) = asserts

-- The definition that is run: the prebuilt override if there is one, else the parameter overrides.
unfoldable pub overridden : TestCommand → Definition → Definition
unfolding apply_overrides
overridden cmd d = elim cmd.definition_parsed_override [
  | some asserts ↦ record d { definition_parsed = some asserts }
  | none ↦ elim cmd.parameter_overrides [
    | [] ↦ d
    | o ∷ os ↦ record d {
      definition_parsed = some (apply_overrides (or_empty d.definition_parsed) (o ∷ os));
    }
  ]
]

-- A row of tests.results.
pub record ResultRow : Type 0 where
  pub id : String
  pub run_id : String
  pub definition_id : String
  pub status : TestStatus
  pub assertion_results : List AssertionResult
  pub error_message : Option Message

pub data Level : Type 0 where
  info warn error_level : Level

-- What a log line says.
pub data Line : Type 0 where
  starting : Line
  traceback_line : String → Line
  assertion_line : AssertionResult → Line
  error_line : Message → Line
  footer : TestStatus → Line

pub record Published : Type 0 where
  pub result_id : String
  pub command : TestCommand
  pub outcome : Outcome

-- The table of results, the log lines of the published batches and the published results.
pub record State : Type 0 where
  pub rows : List ResultRow
  pub logs : List (Level × Line)
  pub published : List Published

-- `UPDATE tests.results SET status, assertion_results, error_message WHERE id=:id`.
unfoldable pub update_row : String → Outcome → List ResultRow → List ResultRow
update_row id o rows =
    map
      (λ row.
        if str_eq row.id id
        then record row {
          status = o.status;
          assertion_results = o.assertion_results;
          error_message = o.error_message;
        }
        else row)
      rows

abbrev pub level_of : Bool → Level
level_of true = info
level_of false = error_level

-- The outcome of an exception that leaves `run_test`, whose text is below the 500 characters at which
-- the code cuts it, and else that of `run_test`.
abbrev pub caught : String ⊎ Outcome → Outcome
caught (inl text) = outcome_of error [] (some (exception text))
caught (inr o) = o

abbrev pub footer_level : TestStatus → Level
footer_level status = if is_passed status then info else warn

-- Whether error_message is a text that is not empty.
abbrev pub has_text : Message → Bool
has_text (exception text) = not (str_eq text "")
has_text _ = true

-- The lines on the error: the traceback of an exception that leaves `run_test`, or error_message.
unfoldable pub traceback_lines : (String → List String) → String ⊎ Outcome → List (Level × Line)
traceback_lines format_exc (inl text) = map (λ l. (error_level, traceback_line l)) (format_exc text)
traceback_lines format_exc (inr o) = []

unfoldable pub error_lines : String ⊎ Outcome → List (Level × Line)
error_lines (inl text) = []
error_lines (inr o) = elim o.error_message [
  | none ↦ []
  | some m ↦ if has_text m then (error_level, error_line m) ∷ [] else []
]

unfoldable pub log_lines : (String → List String) → String ⊎ Outcome → List (Level × Line)
unfolding traceback_lines error_lines
log_lines format_exc result =
    let o = caught result in
    (info, starting)
    ∷ (traceback_lines format_exc result
        ++ (map (λ r. (level_of r.passed, assertion_line r)) o.assertion_results
            ++ (error_lines result ++ ((footer_level o.status, footer o.status) ∷ []))))

abbrev pub row_of : TestCommand → String → TestStatus → ResultRow
row_of cmd id status = record {
  id = id;
  run_id = cmd.run_id;
  definition_id = cmd.definition_id;
  status = status;
  assertion_results = [];
  error_message = none;
}

-- `ai_result_id or str(uuid.uuid4())`.
abbrev pub result_id_of : TestCommand → String → String
result_id_of cmd new_id = elim (truthy cmd.result_id) [ none ↦ new_id | some id ↦ id ]

-- `INSERT INTO tests.results`: none where the statement raises, as a row has the id already.
unfoldable pub insert_row : ResultRow → List ResultRow → Option (List ResultRow)
insert_row row rows = if any (λ r. str_eq r.id row.id) rows then none else some (row ∷ rows)

-- The command of a run that is cancelled. An exception of the INSERT leaves the handler.
unfoldable pub skip : TestCommand → String → State → State
unfolding insert_row
skip cmd new_id s = elim (insert_row (row_of cmd new_id skipped) s.rows) [
  | none ↦ s
  | some rows ↦ record s {
    rows = rows;
    published =
        record {
          result_id = new_id;
          command = cmd;
          outcome = outcome_of skipped [] (some run_cancelled);
        }
        ∷ s.published;
  }
]

-- The command of a definition that the cache has. An exception of the INSERT leaves the handler before
-- the test is run.
unfoldable pub execute :
    Executors → (String → List String) → TestCommand → String → Definition → State → State
unfolding overridden run_test log_lines update_row insert_row
execute executors format_exc cmd new_id d s =
    let id = result_id_of cmd new_id in
    let result = run_test executors (overridden cmd d) in
    let o = caught result in
    elim (insert_row (row_of cmd id running) s.rows) [
      | none ↦ s
      | some rows ↦ record s {
        rows = update_row id o rows;
        logs = s.logs ++ log_lines format_exc result;
        published = record { result_id = id; command = cmd; outcome = o } ∷ s.published;
      }
    ]

-- `_handle`. The arguments are the executors, `traceback.format_exc`, whether `_is_run_cancelled`
-- finds the run cancelled, what the definition cache has, and a fresh uuid.
unfoldable pub handle :
    Executors
    → (String → List String)
    → Bool
    → Option Definition
    → String
    → TestCommand
    → State
    → State
unfolding skip execute
handle executors format_exc cancelled cached new_id cmd s =
    if cancelled
    then skip cmd new_id s
    else elim cached [ none ↦ s | some d ↦ execute executors format_exc cmd new_id d s ]
