-- ===== src/Verdicts/Tests.antt =====
-- Sample runs of the verdicts' theorems.
use cartesi_release_validati.Prelude.{
  ◌≤◌, Bool, true, false, String, Option, none, some, List, [], ◌∷◌, arith, length, keep, All,
}
use cartesi_release_validati.Verdicts.{Invocation, is_claimable, State, record_test_verdict}
use cartesi_release_validati.Verdicts.Claims.{IsJustified, record_test_verdict-IsJustified}

abbrev call : String → Option String → Invocation
call id verdict_id = record {
  id = id;
  session_id = "s";
  tool_name = "run_cast_command";
  mutating = true;
  verdict_id = verdict_id;
  definition_slug = none;
}

abbrev two_calls : State
two_calls = record { invocations = call "i1" (some "v0") ∷ call "i2" none ∷ []; verdicts = [] }

abbrev same_text : String → String
same_text s = s

abbrev no_evidence : List Invocation → Bool
no_evidence steps = false

record_test_verdict-IsJustified_example :
    All IsJustified
      (record_test_verdict same_text "s" "echo" "passed" "seen" no_evidence "v1"
        two_calls).1.verdicts
record_test_verdict-IsJustified_example =
    record_test_verdict-IsJustified same_text "s" "echo" "passed" "seen" no_evidence "v1" two_calls
      tt

one_claimable : length (keep (is_claimable "s") two_calls.invocations) ≤ 400
unfolding is_claimable
one_claimable = omega arith
