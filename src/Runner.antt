-- ===== src/Runner.antt =====
-- services/test-runner: executor.py (`run_test`) and consumers/test_commands.py (`_handle`). A test
-- definition is a list of assertions; an executor, which this model takes as a parameter, runs one.
mod Tests
pub mod Commands
pub mod Passing
use cartesi_release_validati.Prelude.{
  ℕ, zero, suc, ◌+◌, ◌-◌, ◌*◌, ◌/◌, ◌%◌, ◌≤◌, ◌<◌, min, max, ◌≡◌, refl, sym, ap, ◌∙◌, ◌≢◌, ◌↔◌, ◌⊎◌,
  inl, inr, Bool, true, false, not, ◌&&◌, ◌||◌, String, Option, none, some, List, [], ◌∷◌, ◌++◌,
  map, append-nil, append_assoc, arith, eq_iff, eq_refl, str_eq, if◌then◌else◌, ltb, leb, ◌==◌,
  ==_iff, ltb→lt, lt→ltb, leb→le, Bool-cases, Option-cases, length, take, drop, keep, count, all,
  any, All, length-append, length-take, length-drop, take-append-drop, count-le-length,
  count-append, lookup, has_key, insert, remove, HasDistinctKeys, In, In-keep_iff, Empty,
}
use Prim.Native.String.{◌++◌ as ◌+ₛ◌}
use cartesi_release_validati.Runs.{TestStatus, passed, failed, error, timeout, is_passed}

-- An assertion of a definition: its keys, each with the text of its JSON value.
abbrev pub Assertion : Type 0
Assertion = List (String × String)

-- AssertionResult of executors/base.py.
pub record AssertionResult : Type 0 where
  pub assertion_type : String
  pub passed : Bool
  pub detail : String

-- How `executor.execute` ends: with the results, in the time that `asyncio.timeout` leaves or not, or
-- with an exception.
pub data Execution : Type 0 where
  returned : List AssertionResult → Execution
  timed_out : Execution
  raised : String → Execution

-- The texts of error_message: the timeout in seconds, and an exception's text.
pub data Message : Type 0 where
  exceeded_timeout : ℕ → Message
  exception : String → Message
  run_cancelled : Message

pub record Outcome : Type 0 where
  pub status : TestStatus
  pub assertion_results : List AssertionResult
  pub error_message : Option Message

-- The registry `_EXECUTORS`: what the executor of an assertion type does with an assertion.
abbrev pub Executors : Type 0
Executors = Option String → Option (Assertion → Execution)

abbrev pub type_of : Assertion → Option String
type_of a = lookup "type" a

unfoldable pub unknown_type : Option String → AssertionResult
unknown_type none = record {
  assertion_type = "None";
  passed = false;
  detail = "Unknown assertion type: None";
}
unknown_type (some t) = record {
  assertion_type = t;
  passed = false;
  detail = "Unknown assertion type: " +ₛ t;
}

-- `overall_status`, after the items of one assertion.
abbrev pub status_after : TestStatus → List AssertionResult → TestStatus
status_after status items = if all (λ i. i.passed) items then status else failed

abbrev pub outcome_of : TestStatus → List AssertionResult → Option Message → Outcome
outcome_of s rs m = record { status = s; assertion_results = rs; error_message = m }

-- The loop of `run_test`, from the status and the results that there are.
unfoldable pub run_from :
    Executors → ℕ → List Assertion → TestStatus → List AssertionResult → Outcome
unfolding unknown_type
run_from executors limit [] status results = outcome_of status results none
run_from executors limit (a ∷ assertions) status results = elim (executors (type_of a)) [
  | none ↦ run_from executors limit assertions failed (results ++ (unknown_type (type_of a) ∷ []))
  | some execute ↦ elim (execute a) [
    | returned items ↦
        run_from executors limit assertions (status_after status items) (results ++ items)
    | timed_out ↦ outcome_of timeout results (some (exceeded_timeout limit))
    | raised text ↦ outcome_of error results (some (exception text))
  ]
]

-- A definition of the hot-reload cache. The column definition_parsed may hold a JSON null, which is none.
pub record Definition : Type 0 where
  pub definition_parsed : Option (List Assertion)
  pub timeout_seconds : ℕ

-- `run_test`: an outcome, or the text of the exception that it raises when it reads the assertions of
-- a null. The duration, which the code reads off the clock, is left out.
unfoldable pub run_test : Executors → Definition → String ⊎ Outcome
unfolding run_from
run_test executors d = elim d.definition_parsed [
  | none ↦ inl "'NoneType' object has no attribute 'get'"
  | some assertions ↦ inr (run_from executors d.timeout_seconds assertions passed [])
]
