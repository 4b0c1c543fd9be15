-- ===== src/Runner/Tests.antt =====
-- Sample runs of the theorems about test runs.
use cartesi_release_validati.Prelude.{
  refl, ◌≡◌, ◌↔◌, inr, true, false, String, none, some, List, [], ◌∷◌, str_eq, if◌then◌else◌, All,
}
use cartesi_release_validati.Runs.{passed}
use cartesi_release_validati.Runner.{
  Assertion, AssertionResult, Execution, returned, Outcome, Executors, Definition, run_test,
}
use cartesi_release_validati.Runner.Commands.{bare, TestCommand, State, handle}
use cartesi_release_validati.Runner.Passing.{Holds, run_test-passed_iff}
use cartesi_release_validati.Runner.Commands.Publishing.{
  IsNew, unnamed, Answers, handle-Answers_iff,
}

abbrev passes : Assertion → Execution
passes a =
    let r : AssertionResult = record { assertion_type = "http"; passed = true; detail = "" } in
    returned (r ∷ [])

abbrev executors : Executors
executors none = none
executors (some t) = if str_eq t "http" then some passes else none

abbrev assertion : String → Assertion
assertion t = ("type", t) ∷ ("path", "/") ∷ []

abbrev definition : Definition
definition = record {
  definition_parsed = some (assertion "http" ∷ assertion "other" ∷ []);
  timeout_seconds = 120;
}

abbrev command : TestCommand
command = record {
  run_id = "r";
  sandbox_id = "s";
  definition_id = "d";
  result_id = none;
  definition_parsed_override = none;
  parameter_overrides = (bare "path", "/x") ∷ [];
}

abbrev no_results : State
no_results = record { rows = []; logs = []; published = [] }

abbrev no_traceback : String → List String
no_traceback text = []

run_test-passed_iff_example :
    ((o : Outcome) × (run_test executors definition ≡ inr o) × (o.status ≡ passed)) ↔ (
      (assertions : List Assertion) × (definition.definition_parsed ≡ some assertions)
      × All (Holds executors) assertions)
run_test-passed_iff_example = run_test-passed_iff executors definition

handle-Answers_iff_example :
    Answers command "u" no_results
      (handle executors no_traceback true (some definition) "u" command no_results)
    × (Answers command "u" no_results
          (handle executors no_traceback false (some definition) "u" command no_results)
        ↔ (((d : Definition) × (some definition ≡ some d)) × IsNew "u" []))
handle-Answers_iff_example =
    handle-Answers_iff executors no_traceback "u" command no_results "u" (some definition)
      (unnamed refl) (λ row h. elim h [ ])
