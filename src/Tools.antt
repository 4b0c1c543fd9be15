-- ===== src/Tools.antt =====
-- services/ai-agent/tool_executor.py: `_dispatch`, which gives each tool call of the model to a
-- function. What the function returns or raises is an argument; a JSON value that is a list, an object
-- or a fraction is its text.
mod Tests
pub mod Execute
use cartesi_release_validati.Prelude.{
  ℕ, zero, suc, ◌+◌, ◌-◌, ◌*◌, ◌/◌, ◌%◌, ◌≤◌, ◌<◌, min, max, ◌≡◌, refl, sym, ap, ◌∙◌, ◌≢◌, ◌↔◌, ◌⊎◌,
  inl, inr, Bool, true, false, not, ◌&&◌, ◌||◌, String, Option, none, some, List, [], ◌∷◌, ◌++◌,
  map, append-nil, append_assoc, arith, eq_iff, eq_refl, str_eq, if◌then◌else◌, ltb, leb, ◌==◌,
  ==_iff, ltb→lt, lt→ltb, leb→le, Bool-cases, Option-cases, length, take, drop, keep, count, all,
  any, All, length-append, length-take, length-drop, take-append-drop, count-le-length,
  count-append, lookup, has_key, insert, remove, HasDistinctKeys, In, In-keep_iff, Empty, none≢some,
  some_injective,
}
use Prim.Native.String.{◌++◌ as ◌++ₛ◌}
use cartesi_release_validati.Text.{chars, is_empty, ℤ, pos, negsuc, int_of}

pub data Json : Type 0 where
  null : Json
  truth : Bool → Json
  number : ℤ → Json
  words : String → Json
  composite : String → Json

-- `if value:`.
abbrev pub is_truthy : Json → Bool
is_truthy null = false
is_truthy (truth b) = b
is_truthy (number (pos zero)) = false
is_truthy (number (pos (suc n))) = true
is_truthy (number (negsuc n)) = true
is_truthy (words s) = not (is_empty s)
is_truthy (composite s) = not (str_eq s "[]" || str_eq s "{}" || str_eq s "0.0")

abbrev pub json_or : Json → Json → Json
json_or a b = if is_truthy a then a else b

abbrev pub or_null : Option Json → Json
or_null none = null
or_null (some v) = v

abbrev pub or_default : Json → Option Json → Json
or_default d none = d
or_default d (some v) = v

-- `inp.get(key)`.
unfoldable pub get : String → List (String × Json) → Json
get key inp = or_null (lookup key inp)

-- ToolExecutor: what its methods read. The addresses are those that `__init__` builds from the ports.
pub record Context : Type 0 where
  pub sandbox_id : Option String
  pub session_id : Option String
  pub anvil_rpc_url : String
  pub node_http_url : String
  pub graphql_url : String
  pub jsonrpc_url : String
  pub chaos_ctx : String
  pub provenance : List (String × Json)

-- Where an argument of a tool's function comes from: `inp[key]`, `inp.get(key)`,
-- `inp.get(key, default)`, `inp.get(key) or {}`, `int(inp.get(key, default))`, and what the platform
-- gives; the chaos tools get the whole input. The first text is the name of the argument, if there
-- are two.
pub data Argument : Type 0 where
  required optional or_empty : String → Argument
  required_as : String → String → Argument
  defaulted : String → Json → Argument
  as_int : String → ℕ → Argument
  given : String → Json → Argument
  whole_input : Argument

abbrev pub words_or_null : Option String → Json
words_or_null none = null
words_or_null (some s) = words s

-- `self.session_id or ""`.
abbrev pub words_or_blank : Option String → Json
words_or_blank none = words ""
words_or_blank (some s) = words s

-- The function that a tool calls, with its arguments in order; none for an unknown tool.
abbrev pub provenance_arguments : Context → List Argument
provenance_arguments c =
    given "model_id" (get "model_id" c.provenance)
    ∷ given "model_params" (get "model_params" c.provenance)
    ∷ given "release_tag" (get "release_tag" c.provenance)
    ∷ given "image_tag" (get "image_tag" c.provenance)
    ∷ given "contracts_version" (get "contracts_version" c.provenance)
    ∷ []

unfoldable pub tools : Context → List (String × List Argument)
tools c =
    let sandbox_id = words_or_null c.sandbox_id in
    let session_id = words_or_blank c.session_id in
    let zero_address = words "0x0000000000000000000000000000000000000001" in
    (
      "send_advance_input",
      required "payload"
          ∷ given "anvil_rpc_url" (words c.anvil_rpc_url)
          ∷ given "node_http_url" (words c.node_http_url)
          ∷ defaulted "app_address" zero_address
          ∷ [],
    )
    ∷ (
      "query_graphql",
      required "query" ∷ given "graphql_url" (words c.graphql_url) ∷ optional "variables" ∷ [],
    )
    ∷ ("call_inspect", required "payload" ∷ given "node_http_url" (words c.node_http_url) ∷ [])
    ∷ (
      "read_logs",
      given "sandbox_id" sandbox_id
          ∷ defaulted "component" (words "node")
          ∷ defaulted "tail" (number (pos 100))
          ∷ [],
    )
    ∷ (
      "run_cast_command",
      required "command"
          ∷ given "anvil_rpc_url" (words c.anvil_rpc_url)
          ∷ given "sandbox_id" (words_or_blank c.sandbox_id)
          ∷ [],
    )
    ∷ (
      "generate_payload",
      defaulted "mode" (words "random")
          ∷ defaulted "size_bytes" (number (pos 32))
          ∷ optional "structured_type"
          ∷ [],
    )
    ∷ (
      "get_node_state",
      given "graphql_url" (words c.graphql_url)
          ∷ given "node_http_url" (words c.node_http_url)
          ∷ [],
    )
    ∷ (
      "verify_voucher",
      required "input_index"
          ∷ required "voucher_index"
          ∷ given "graphql_url" (words c.graphql_url)
          ∷ [],
    )
    ∷ ("advance_time", required "blocks" ∷ given "anvil_rpc_url" (words c.anvil_rpc_url) ∷ [])
    ∷ (
      "report_finding",
      required "title"
          ∷ required "severity"
          ∷ required "component"
          ∷ required "description"
          ∷ optional "evidence"
          ∷ optional "reproduction_steps"
          ∷ [],
    )
    ∷ (
      "trigger_test",
      given "session_id" session_id
          ∷ given "sandbox_id" sandbox_id
          ∷ required "definition_slug"
          ∷ or_empty "parameter_overrides"
          ∷ as_int "wait_seconds" 90
          ∷ [],
    )
    ∷ ("read_test_definition", required_as "slug" "definition_slug" ∷ [])
    ∷ (
      "record_test_verdict",
      given "session_id" session_id
          ∷ given "sandbox_id" sandbox_id
          ∷ required "definition_slug"
          ∷ required "verdict"
          ∷ required "reasoning"
          ∷ optional "inputs_used"
          ∷ optional "evidence"
          ∷ optional "duration_ms"
          ∷ optional "confidence"
          ∷ optional "observations"
          ∷ provenance_arguments c,
    )
    ∷ (
      "record_test_plan",
      given "session_id" session_id
          ∷ required "definition_slug"
          ∷ required "objective"
          ∷ optional "success_criteria"
          ∷ optional "failure_criteria"
          ∷ optional "planned_steps"
          ∷ [],
    )
    ∷ (
      "run_cli_command",
      given "sandbox_id" sandbox_id
          ∷ required "binary"
          ∷ required "args"
          ∷ optional "container"
          ∷ [],
    )
    ∷ (
      "call_jsonrpc",
      given "sandbox_id" sandbox_id
          ∷ required "method"
          ∷ optional "params"
          ∷ given "rpc_url" (words c.jsonrpc_url)
          ∷ [],
    )
    ∷ ("query_db", required "sql" ∷ [])
    ∷ ("provision_sandbox", optional "release_tag" ∷ optional "image_tag" ∷ optional "app_id" ∷ [])
    ∷ ("teardown_sandbox", required "run_id" ∷ [])
    ∷ ("lookup_skill", required "skill_name" ∷ optional "section" ∷ [])
    ∷ ("restart_component", whole_input ∷ given "ctx" (composite c.chaos_ctx) ∷ [])
    ∷ ("pause_network", whole_input ∷ given "ctx" (composite c.chaos_ctx) ∷ [])
    ∷ []

-- `int(value)`, none where it raises.
unfoldable pub int_value : Json → Option Json
int_value null = none
int_value (truth b) = some (number (pos (if b then 1 else 0)))
int_value (number n) = some (number n)
int_value (words s) = elim (int_of (chars s)) [ none ↦ none | some n ↦ some (number n) ]
int_value (composite s) = none

-- The arguments by their names, none where reading one raises.
unfoldable pub argument_of : List (String × Json) → Argument → Option (List (String × Json))
argument_of inp (required key) = elim (lookup key inp) [
  | none ↦ none
  | some v ↦ some ((key, v) ∷ [])
]
argument_of inp (required_as name key) = elim (lookup key inp) [
  | none ↦ none
  | some v ↦ some ((name, v) ∷ [])
]
argument_of inp (optional key) = some ((key, get key inp) ∷ [])
argument_of inp (or_empty key) = some ((key, json_or (get key inp) (composite "{}")) ∷ [])
argument_of inp (defaulted key d) = some ((key, or_default d (lookup key inp)) ∷ [])
argument_of inp (as_int key d) = elim (int_value (or_default (number (pos d)) (lookup key inp))) [
  | none ↦ none
  | some n ↦ some ((key, n) ∷ [])
]
argument_of inp (given name v) = some ((name, v) ∷ [])
argument_of inp whole_input = some inp

unfoldable pub arguments_of : List (String × Json) → List Argument → Option (List (String × Json))
arguments_of inp [] = some []
arguments_of inp (a ∷ rest) =
    let others = arguments_of inp rest in
    elim (argument_of inp a) [
      | none ↦ none
      | some v ↦ elim others [ none ↦ none | some vs ↦ some (v ++ vs) ]
    ]

-- What a tool's function gives: a dict, another value, or an exception.
pub data ToolResult : Type 0 where
  dict : List (String × Json) → ToolResult
  other : Json → ToolResult
  raises : ToolResult

-- `_dispatch`. `call` is what the functions do.
unfoldable pub dispatch :
    Context
    → (String → List (String × Json) → ToolResult)
    → String
    → List (String × Json)
    → ToolResult
dispatch c call name inp = elim (lookup name (tools c)) [
  | none ↦ dict (("success", truth false) ∷ ("error", words ("Unknown tool: " ++ₛ name)) ∷ [])
  | some arguments ↦ elim (arguments_of inp arguments) [
    | none ↦ raises
    | some values ↦ call name values
  ]
]
