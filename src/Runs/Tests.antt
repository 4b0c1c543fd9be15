-- ===== src/Runs/Tests.antt =====
-- Sample runs of the theorems about runs.
use cartesi_release_validati.Prelude.{
  count, ◌≡◌, refl, ◌↔◌, Bool, true, false, String, none, some, List, [], ◌∷◌, count, In,
}
use cartesi_release_validati.Runs.{RunStatus, TestStatus, ResultRow, Metadata, Run, running, queued}
use cartesi_release_validati.Runs.Dispatch.{Definition, select_definitions}
use cartesi_release_validati.Runs.Dispatch.Selection.{IsWanted, In-select_definitions_iff}
use cartesi_release_validati.Runs.Events.{
  LogValue, dict, not_a_dict, log_rows, log_batch, ready_event, failed_event, State, handle_all,
}
use cartesi_release_validati.Runs.Events as Events
use cartesi_release_validati.Runs.Status.{last_decision, handle_all-status}

abbrev run_with : RunStatus → Run
run_with status =
    let m : Metadata = record {
      dispatched_count = some 2;
      tags_filter = [];
      category_filter = [];
      ai_session = false;
    } in
    record {
      id = "r";
      status = status;
      pass_rate = none;
      suite_ids = [];
      metadata = m;
      app_address = none;
      node_major_version = 2;
    }

abbrev row : String → TestStatus → ResultRow
row id status = record { id = id; run_id = "r"; definition_id = "d"; status = status }

abbrev two_rows : List ResultRow
two_rows = row "1" TestStatus.passed ∷ row "2" TestStatus.passed ∷ []

abbrev definition : String → Bool → Definition
definition id active = record {
  id = id;
  slug = id;
  version = 1;
  is_active = active;
  min_node_major_version = 2;
  tags = some ("smoke" ∷ []);
  category = none;
}

In-select_definitions_iff_example :
    In
      (definition "d" true)
      (select_definitions (run_with running) (definition "e" false ∷ definition "d" true ∷ []))
    ↔ (In (definition "d" true) (definition "e" false ∷ definition "d" true ∷ [])
        × IsWanted (run_with running) (definition "d" true))
In-select_definitions_iff_example =
    In-select_definitions_iff (run_with running) (definition "e" false ∷ definition "d" true ∷ [])
      (definition "d" true)

abbrev state_of : RunStatus → State
state_of status = record {
  run = run_with status;
  run_logs = [];
  run_events = [];
  commands = [];
  notifications = [];
  live = [];
}

handle_all-status_example :
    (handle_all "s"
      (definition "d" true ∷ [])
      (ready_event none ∷ failed_event ∷ ready_event none ∷ [])
      (state_of queued)).run.status
    ≡ last_decision queued (ready_event none ∷ failed_event ∷ ready_event none ∷ [])
handle_all-status_example =
    handle_all-status "s" (definition "d" true ∷ [])
      (ready_event none ∷ failed_event ∷ ready_event none ∷ []) (state_of queued) refl

abbrev lines : List LogValue
lines = not_a_dict ∷ dict (some "node") none (some "started") none ∷ []
