-- ===== src/Sessions/Tests.antt =====
-- Runs of the session manager, and instances of its theorems.
use cartesi_release_validati.Prelude.{
  ℕ, ◌*◌, ◌≡◌, refl, inl, inr, true, false, none, some, [], ◌∷◌, arith, if◌then◌else◌, ltb,
}
use cartesi_release_validati.Verdicts.{passed}
use cartesi_release_validati.Sessions.{
  active, starting, SandboxStatus, Recorded, World, SessionManager, verdict_of, save_session,
  manual_max_tool_calls, excluded_tools,
}
use cartesi_release_validati.Sessions.Bootstrap.{Poll, bootstrap_environment, SandboxRow}
use cartesi_release_validati.Sessions.Bootstrap.Ending.{EndsAt, bootstrap_environment-ends}
use cartesi_release_validati.Sessions.Modes.{
  crashed, Answers, LoopRun, upsert_all, autonomous_body, run_collaborative, run_loop,
  bootstrap_then, collaborative_body, message_loop, after_messages,
}
use cartesi_release_validati.Sessions.Verdicts.{or_blocked, autonomous_body-verdicts}

abbrev manager : SessionManager
manager = record {
  session_id = "s1";
  run_id = some "r1";
  sandbox_id = none;
  is_manual = true;
  selected_tests = "doctor" ∷ "deposit" ∷ [];
  bootstrap = true;
}

-- Two turns without a sandbox row, and then one that is ready.
abbrev polls : ℕ → Poll
polls n =
    let ready_row : SandboxRow = record { id = "b1"; status = SandboxStatus.ready } in
    record {
      elapsed = 6 * n;
      read = some (record {
        session_status = some starting;
        sandbox = if ltb n 2 then none else some ready_row;
        logs = [];
        activation_succeeds = true;
      });
    }

abbrev loop : LoopRun
loop =
    let verdict : Recorded = record {
      session_id = "s1";
      definition_slug = "doctor";
      verdict = passed;
    } in
    record {
      recorded = verdict ∷ [];
      outcome = crashed;
      summary = record { tool_call_count = 7; total_tokens = 900 };
      transcript = "{}";
    }

abbrev answers : Answers
answers = record {
  bootstrap_timeout = 900;
  polls = polls;
  fuel = 182;
  failed_saved = true;
  setup_succeeds = true;
  active_saved = true;
  loop = loop;
  verdicts_saved = true;
  final_saved = true;
  findings = "[]";
}

abbrev empty : World
empty = record { sessions = []; verdicts = []; events = [] }

calls : manual_max_tool_calls manager ≡ some 60
unfolding manual_max_tool_calls
calls = refl

no_tools : excluded_tools manager ≡ "trigger_test" ∷ "provision_sandbox" ∷ "teardown_sandbox" ∷ []
unfolding excluded_tools
no_tools = refl

-- A crash while a message of a collaborative session is handled leaves the row 'active'.
crash_stays_active :
    run_collaborative answers [] (record manager { bootstrap = false }) empty
    ≡ some (
      crashed,
      run_loop loop
          (save_session (record manager { bootstrap = false }) "[]" active none none empty),
    )
unfolding run_collaborative bootstrap_then collaborative_body message_loop after_messages
crash_stays_active = refl

bootstrap_environment-ends_example :
    (k : ℕ) × EndsAt 900 polls manager 0 (bootstrap_environment 900 polls manager 182 empty) k
bootstrap_environment-ends_example =
    bootstrap_environment-ends 900 polls manager 182 empty refl (λ n. omega arith) (omega arith)

autonomous_body-verdicts_example :
    verdict_of "s1" "deposit" (autonomous_body answers manager empty).1.verdicts
    ≡ some (or_blocked (verdict_of "s1" "deposit" (upsert_all loop.recorded empty.verdicts)))
autonomous_body-verdicts_example =
    autonomous_body-verdicts answers manager empty "deposit" refl refl refl refl (inr refl)
      (inr (inl refl))

abbrev ready_manager : SessionManager
ready_manager = record manager { sandbox_id = some "b1" }
