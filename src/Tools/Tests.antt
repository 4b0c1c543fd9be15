-- ===== src/Tools/Tests.antt =====
-- Runs of the tool executor, and instances of its theorems.
use cartesi_release_validati.Prelude.{◌≡◌, refl, true, String, some, List, [], ◌∷◌}
use cartesi_release_validati.Tools.{
  Json, null, truth, words, Context, ToolResult, dict, get, dispatch, tools, argument_of,
  arguments_of,
}
use cartesi_release_validati.Tools.Execute.{caught, has_failed, State, ToolCall, execute}

abbrev context : Context
context = record {
  sandbox_id = some "b1";
  session_id = some "s1";
  anvil_rpc_url = "http://host.docker.internal:8545";
  node_http_url = "http://host.docker.internal:5004";
  graphql_url = "http://host.docker.internal:4000/graphql";
  jsonrpc_url = "http://host.docker.internal:5004/rpc";
  chaos_ctx = "{}";
  provenance = [];
}

-- Each function succeeds.
abbrev succeeds : String → List (String × Json) → ToolResult
succeeds name arguments = dict (("success", truth true) ∷ [])

abbrev reading : ToolCall
reading = record {
  name = "read_test_definition";
  input = ("definition_slug", words "doctor") ∷ [];
  writes = true;
}

abbrev looking : ToolCall
looking = record { name = "query_db"; input = []; writes = true }

abbrev judging : ToolCall
judging = record {
  name = "record_test_verdict";
  input =
      ("definition_slug", words "doctor")
      ∷ ("verdict", words "passed")
      ∷ ("reasoning", words "seen")
      ∷ [];
  writes = true;
}

abbrev idle : State
idle = record { rows = []; tool_call_count = 0; current_test_slug = null }

-- A required argument that is missing raises, and `execute` returns a failure.
missing_argument : has_failed (execute context succeeds looking idle).0 ≡ true
unfolding execute dispatch tools arguments_of argument_of caught has_failed get
missing_argument = refl

unknown_tool : has_failed (dispatch context succeeds "format_disk" []) ≡ true
unfolding dispatch tools has_failed get
unknown_tool = refl

abbrev calls : List ((String → List (String × Json) → ToolResult) × ToolCall)
calls = (succeeds, reading) ∷ ((succeeds, looking) ∷ (succeeds, judging) ∷ [])
