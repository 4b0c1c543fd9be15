-- ===== src/SessionRoutes.antt =====
-- services/orchestrator/api/routes/sessions.py: the route that starts a session with the AI agent. What
-- it does to the database and the queues is the list of its effects; the event for the dashboard is left
-- out, for its failures are ignored.
mod Tests
pub mod Selection
pub mod Created
pub mod Creation
use cartesi_release_validati.Prelude.{
  ℕ, zero, suc, ◌+◌, ◌-◌, ◌*◌, ◌/◌, ◌%◌, ◌≤◌, ◌<◌, min, max, ◌≡◌, refl, sym, ap, ◌∙◌, ◌≢◌, ◌↔◌, ◌⊎◌,
  inl, inr, Bool, true, false, not, ◌&&◌, ◌||◌, String, Option, none, some, List, [], ◌∷◌, ◌++◌,
  map, append-nil, append_assoc, arith, eq_iff, eq_refl, str_eq, if◌then◌else◌, ltb, leb, ◌==◌,
  ==_iff, ltb→lt, lt→ltb, leb→le, Bool-cases, Option-cases, length, take, drop, keep, count, all,
  any, All, length-append, length-take, length-drop, take-append-drop, count-le-length,
  count-append, lookup, has_key, insert, remove, HasDistinctKeys, In, In-keep_iff, Empty, none≢some,
  some_injective,
}
use cartesi_release_validati.Text.{chars, text, strip, truthy, is_some, is_empty}
use cartesi_release_validati.Releases as R
use cartesi_release_validati.Releases.Trigger as T

pub data Mode : Type 0 where
  autonomous collaborative interactive : Mode

pub data ExecutionMode : Type 0 where
  runner ai_manual : ExecutionMode

-- The body of POST /sessions; of the key, whether there is one.
pub record SessionCreate : Type 0 where
  pub mode : Mode
  pub run_id : Option String
  pub sandbox_id : Option String
  pub goal : Option String
  pub execution_mode : ExecutionMode
  pub selected_tests : Option (List String)
  pub selected_phases : Option (List String)
  pub bootstrap : Bool
  pub has_api_key : Bool
  pub model_id : String

-- A row of tests.definitions, which stands under its slug.
pub record Definition : Type 0 where
  pub phase : String
  pub is_active : Bool
  pub ai_allowed : Bool

-- AI_MANUAL_MAX_PHASES, AI_BOOTSTRAP_RELEASE_TAG and AI_BOOTSTRAP_IMAGE_TAG.
pub record Settings : Type 0 where
  pub max_phases : ℕ
  pub release_tag : String
  pub image_tag : String

-- ALLOWED_MODELS.
abbrev pub is_allowed_model : String → Bool
is_allowed_model model =
    str_eq model "claude-opus-4-6"
    || str_eq model "claude-sonnet-4-6"
    || str_eq model "claude-haiku-4-5-20251001"

abbrev pub stripped : String → String
stripped s = text (strip (chars s))

-- `[s.strip() for s in (xs or []) if s and s.strip()]`.
abbrev pub clean : List String → List String
clean [] = []
clean (s ∷ rest) = if is_empty (stripped s) then clean rest else stripped s ∷ clean rest

abbrev pub clean_option : Option (List String) → List String
clean_option none = []
clean_option (some xs) = clean xs

abbrev pub is_autonomous : Mode → Bool
is_autonomous autonomous = true
is_autonomous _ = false

abbrev pub is_manual : ExecutionMode → Bool
is_manual ai_manual = true
is_manual runner = false

abbrev pub is_blank : Option String → Bool
is_blank none = true
is_blank (some s) = is_empty (stripped s)

abbrev pub is_nil : List String → Bool
is_nil [] = true
is_nil (s ∷ rest) = false

abbrev pub has_target : SessionCreate → Bool
has_target body = is_some (truthy body.sandbox_id) || body.bootstrap

-- The rows of the phases that the agent may run; the table is in the order of phase and slug.
abbrev pub in_phase : List String → Definition → Bool
in_phase phases d = any (λ p. str_eq d.phase p) phases && d.is_active && d.ai_allowed

abbrev pub rows_of : (Definition → Bool) → List (String × Definition) → List (String × Definition)
rows_of p rows = keep (λ row. p row.1) rows

abbrev pub slugs : List (String × Definition) → List String
slugs rows = map (λ row. row.0) rows

-- The selection by phases, none for a phase without such a row.
unfoldable pub with_phases :
    List String → List String → List (String × Definition) → Option (List String)
with_phases phases selected definitions =
    let rows = rows_of (in_phase phases) definitions in
    if is_nil phases
    then some selected
    else (if all (λ p. any (λ row. str_eq row.1.phase p) rows) phases
        then some (if is_nil selected then slugs rows else selected)
        else none)

-- `found.get(s)`, with `s in found` and its value.
abbrev pub is_runnable : Option Definition → Bool
is_runnable none = false
is_runnable (some d) = d.ai_allowed

-- The last tests on the selection: not empty, no unknown slug, none that the agent may not run.
abbrev pub checked : List (String × Definition) → Option (List String) → Option (List String)
checked definitions none = none
checked definitions (some selected) =
    if is_nil selected
    then none
    else (if all (λ s. is_runnable (lookup s definitions)) selected then some selected else none)

-- The checks of `create_session`, none for a refusal with 422, and the tests selected.
unfoldable pub validate :
    Settings → SessionCreate → List (String × Definition) → Option (List String)
validate settings body definitions =
    let selected = clean_option body.selected_tests in
    let phases = clean_option body.selected_phases in
    if not (is_allowed_model body.model_id)
    then none
    else (if is_autonomous body.mode
          && (not (has_target body) || (not (is_manual body.execution_mode) && is_blank body.goal))
        then none
        else (if is_manual body.execution_mode
            then (if not (has_target body) || ltb settings.max_phases (length phases)
                then none
                else checked definitions (with_phases phases selected definitions))
            else some selected))

-- A new row of ai.sessions; is_starting is the status, 'starting' or 'active'.
pub record SessionRow : Type 0 where
  pub id : String
  pub run_id : Option String
  pub sandbox_id : Option String
  pub mode : Mode
  pub is_starting : Bool
  pub goal : Option String
  pub model_id : String
  pub has_key : Bool
  pub execution_mode : ExecutionMode
  pub selected_tests : Option (List String)

-- The message on the queue of the agent.
pub record SessionRequest : Type 0 where
  pub session_id : String
  pub mode : Mode
  pub run_id : Option String
  pub sandbox_id : Option String
  pub goal : Option String
  pub execution_mode : ExecutionMode
  pub selected_tests : List String
  pub bootstrap : Bool
  pub release_tag : Option String

pub data Effect : Type 0 where
  triggers : R.Effect → Effect
  tags : String → String → Effect
  inserts : SessionRow → Effect
  publishes : SessionRequest → Effect

-- What the world answers: the definitions, the fresh id, what trigger_run meets, and which of the
-- other calls succeed.
pub record Answers : Type 0 where
  pub definitions : List (String × Definition)
  pub session_id : String
  pub trigger : T.Answers
  pub encrypt_succeeds : Bool
  pub tag_succeeds : Bool
  pub insert_succeeds : Bool
  pub publish_succeeds : Bool

pub data Reply : Type 0 where
  unprocessable server_error : Reply
  created : SessionRow → Reply

abbrev pub or_none : List String → Option (List String)
or_none [] = none
or_none (s ∷ rest) = some (s ∷ rest)

-- `body.bootstrap and not body.sandbox_id`.
unfoldable pub bootstraps : SessionCreate → Bool
bootstraps body = body.bootstrap && not (is_some (truthy body.sandbox_id))

unfoldable pub new_row : Answers → SessionCreate → List String → Option String → SessionRow
new_row a body selected run_id = record {
  id = a.session_id;
  run_id = run_id;
  sandbox_id = body.sandbox_id;
  mode = body.mode;
  is_starting = bootstraps body;
  goal = body.goal;
  model_id = body.model_id;
  has_key = body.has_api_key;
  execution_mode = body.execution_mode;
  selected_tests = or_none selected;
}

unfoldable pub new_request :
    Settings → Answers → SessionCreate → List String → Option String → SessionRequest
new_request settings a body selected run_id = record {
  session_id = a.session_id;
  mode = body.mode;
  run_id = run_id;
  sandbox_id = body.sandbox_id;
  goal = body.goal;
  execution_mode = body.execution_mode;
  selected_tests = selected;
  bootstrap = bootstraps body;
  release_tag = if bootstraps body then some settings.release_tag else none;
}

-- From the INSERT on.
abbrev pub store :
    Settings → Answers → SessionCreate → List String → Option String → Reply × List Effect
store settings a body selected run_id =
    let row = new_row a body selected run_id in
    let request = new_request settings a body selected run_id in
    if a.insert_succeeds
    then (if a.publish_succeeds
        then (created row, inserts row ∷ publishes request ∷ [])
        else (server_error, inserts row ∷ []))
    else (server_error, [])

abbrev pub bootstrap_run : Settings → T.TriggerRunRequest
bootstrap_run settings = record {
  release_tag = settings.release_tag;
  image_tag = settings.image_tag;
  suite_ids = [];
  run_tags = [];
  category_filter = [];
  priority = 8;
  triggered_by = some R.user;
  triggered_by_user = some "ai-session-bootstrap";
  app_id = none;
  sdk_version = none;
  cli_version = none;
  node_major_version = none;
}

-- The run of a session that bootstraps, then its tag, then the session.
abbrev pub after_trigger :
    Settings → Answers → SessionCreate → List String → T.Reply × List R.Effect → Reply × List Effect
after_trigger settings a body selected (T.created, done) =
    let stored = store settings a body selected (some a.trigger.run_id) in
    if a.tag_succeeds
    then (stored.0, map triggers done ++ (tags a.trigger.run_id a.session_id ∷ stored.1))
    else (server_error, map triggers done)
after_trigger settings a body selected (_, done) = (server_error, map triggers done)

abbrev pub after_validation :
    (String → Option String)
    → Settings
    → Answers
    → SessionCreate
    → Option (List String)
    → Reply × List Effect
after_validation uuid_of settings a body none = (unprocessable, [])
after_validation uuid_of settings a body (some selected) =
    if body.has_api_key && not a.encrypt_succeeds
    then (server_error, [])
    else (if bootstraps body
        then after_trigger settings a body selected
            (T.trigger_run uuid_of a.trigger (bootstrap_run settings))
        else store settings a body selected body.run_id)

-- `create_session`.
unfoldable pub create_session :
    (String → Option String) → Settings → Answers → SessionCreate → Reply × List Effect
create_session uuid_of settings a body =
    after_validation uuid_of settings a body (validate settings body a.definitions)
