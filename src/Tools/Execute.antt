-- ===== src/Tools/Execute.antt =====
-- services/ai-agent/tool_executor.py: `execute`, with the slug of the test that the agent works on, and
-- services/ai-agent/tools/audit.py, which keeps a row of each call.
pub mod Audit
use cartesi_release_validati.Prelude.{
  ℕ, zero, suc, ◌+◌, ◌-◌, ◌*◌, ◌/◌, ◌%◌, ◌≤◌, ◌<◌, min, max, ◌≡◌, refl, sym, ap, ◌∙◌, ◌≢◌, ◌↔◌, ◌⊎◌,
  inl, inr, Bool, true, false, not, ◌&&◌, ◌||◌, String, Option, none, some, List, [], ◌∷◌, ◌++◌,
  map, append-nil, append_assoc, arith, eq_iff, eq_refl, str_eq, if◌then◌else◌, ltb, leb, ◌==◌,
  ==_iff, ltb→lt, lt→ltb, leb→le, Bool-cases, Option-cases, length, take, drop, keep, count, all,
  any, All, length-append, length-take, length-drop, take-append-drop, count-le-length,
  count-append, lookup, has_key, insert, remove, HasDistinctKeys, In, In-keep_iff, Empty, none≢some,
  some_injective,
}
use cartesi_release_validati.Text.{is_empty, ℤ, pos, negsuc}
use cartesi_release_validati.Tools.{
  Json, null, truth, number, words, composite, is_truthy, json_or, get, Context, ToolResult, dict,
  other, raises, dispatch,
}

-- `execute` turns an exception into a dict. Its text is left out.
unfoldable pub caught : ToolResult → ToolResult
caught (dict d) = dict d
caught (other v) = other v
caught raises = dict (("success", truth false) ∷ ("error", words "Internal error") ∷ [])

-- `isinstance(result, dict) and result.get("success") is False`, and `... result.get("success")`.
abbrev pub is_false : Json → Bool
is_false (truth b) = not b
is_false _ = false

unfoldable pub has_failed : ToolResult → Bool
has_failed (dict d) = is_false (get "success" d)
has_failed _ = false

unfoldable pub has_succeeded : ToolResult → Bool
has_succeeded (dict d) = is_truthy (get "success" d)
has_succeeded _ = false

-- A row of ai.tool_invocations: its status is 'error' or 'ok'.
pub record AuditRow : Type 0 where
  pub session_id : String
  pub tool_name : String
  pub is_error : Bool
  pub definition_slug : Json

-- The rows, the newest last, the session's tool_call_count, and current_test_slug, null for None.
pub record State : Type 0 where
  pub rows : List AuditRow
  pub tool_call_count : ℕ
  pub current_test_slug : Json

-- The column is TEXT.
abbrev pub is_text : Json → Bool
is_text null = true
is_text (words s) = true
is_text _ = false

-- `record_invocation`, where the two statements succeed or the first raises.
unfoldable pub record_invocation : Bool → Option String → String → Bool → Json → State → State
record_invocation writes none name is_error slug s = s
record_invocation writes (some session_id) name is_error slug s =
    let row : AuditRow = record {
      session_id = session_id;
      tool_name = name;
      is_error = is_error;
      definition_slug = slug;
    } in
    if not (is_empty session_id) && writes && is_text slug
    then record s { rows = s.rows ++ (row ∷ []); tool_call_count = suc s.tool_call_count }
    else s

abbrev pub opens_context : String → Bool
opens_context name = str_eq name "read_test_definition" || str_eq name "record_test_plan"

abbrev pub names_its_test : String → Bool
names_its_test name = str_eq name "record_test_verdict" || str_eq name "record_test_plan"

-- The first block of `execute`.
unfoldable pub open_context : String → List (String × Json) → Json → Json
open_context name inp current =
    let s = json_or (get "definition_slug" inp) (get "slug" inp) in
    if opens_context name && is_truthy s then s else current

unfoldable pub slug_for_row : String → List (String × Json) → Json → Json
slug_for_row name inp current = if names_its_test name then get "definition_slug" inp else current

-- `==` on the two slugs; two composite values are equal if their texts are.
unfoldable pub json_eq : Json → Json → Bool
json_eq null null = true
json_eq (words s) (words t) = str_eq s t
json_eq (composite s) (composite t) = str_eq s t
json_eq (truth a) (truth b) = if a then b else not b
json_eq (number (pos m)) (number (pos n)) = m == n
json_eq (number (negsuc m)) (number (negsuc n)) = m == n
json_eq _ _ = false

-- The last block.
unfoldable pub close_context : String → List (String × Json) → ToolResult → Json → Json
close_context name inp result current =
    if str_eq name "record_test_verdict"
      && has_succeeded result
      && json_eq (get "definition_slug" inp) current
    then null
    else current

-- One tool call: its name, its input, and whether the audit write succeeds.
pub record ToolCall : Type 0 where
  pub name : String
  pub input : List (String × Json)
  pub writes : Bool

-- `execute`.
unfoldable pub execute :
    Context → (String → List (String × Json) → ToolResult) → ToolCall → State → ToolResult × State
execute c call t s =
    let current = open_context t.name t.input s.current_test_slug in
    let slug = slug_for_row t.name t.input current in
    let result = caught (dispatch c call t.name t.input) in
    let written =
      record_invocation t.writes c.session_id t.name (has_failed result) slug
        (record s { current_test_slug = current }) in
    (result, record written { current_test_slug = close_context t.name t.input result current })

-- The calls of a session, one after the other; `call` may answer each differently.
unfoldable pub execute_all :
    Context → List ((String → List (String × Json) → ToolResult) × ToolCall) → State → State
execute_all c [] s = s
execute_all c ((call, t) ∷ rest) s = execute_all c rest (execute c call t s).1
