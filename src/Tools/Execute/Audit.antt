-- ===== src/Tools/Execute/Audit.antt =====
-- The rows of ai.tool_invocations that the calls for one test write.
use cartesi_release_validati.Prelude.{
  [], ◌+◌, ◌≡◌, Bool, true, false, not, ◌||◌, String, List, [], ◌∷◌, ◌++◌, if◌then◌else◌, length,
}
use cartesi_release_validati.Tools.{
  Json, words, get, Context, ToolResult, dict, other, raises, dispatch,
}
use cartesi_release_validati.Tools.Execute.{
  is_false, AuditRow, State, opens_context, names_its_test, ToolCall,
}

-- A call, with what the tool answers.
abbrev pub Call : Type 0
Call = (String → List (String × Json) → ToolResult) × ToolCall

-- The calls added these rows, in this order after the ones that were there, and counted them.
pub record Adds (new : List AuditRow) (before after : State) : Type 0 where
  pub rows : after.rows ≡ before.rows ++ new
  pub counted : after.tool_call_count ≡ before.tool_call_count + length new

-- A call of a tool ended in an exception or in a dict whose success is False.
abbrev pub ends_badly : ToolResult → Bool
ends_badly raises = true
ends_badly (dict d) = is_false (get "success" d)
ends_badly (other v) = false

-- The rows of calls in the session for the test with this slug: one for each whose audit write
-- succeeds.
abbrev pub rows_for : Context → String → String → List Call → List AuditRow
rows_for c session_id slug [] = []
rows_for c session_id slug ((call, t) ∷ rest) =
    let row : AuditRow = record {
      session_id = session_id;
      tool_name = t.name;
      is_error = ends_badly (dispatch c call t.name t.input);
      definition_slug = words slug;
    } in
    if t.writes then row ∷ rows_for c session_id slug rest else rows_for c session_id slug rest

-- Neither a definition nor a plan nor a verdict.
abbrev pub is_step : String → Bool
is_step name = not (opens_context name || names_its_test name)
