-- ===== src/SessionRoutes/Created.antt =====
-- POST /sessions: the effects of a creation that answers with a row, by the steps of `create_session`.
use cartesi_release_validati.Prelude.{
  ◌⊎◌, ◌≡◌, refl, ap, ◌∙◌, Bool, true, false, not, ◌&&◌, String, Option, none, some, List, [], ◌∷◌,
  ◌++◌, arith, if◌then◌else◌,
}
use cartesi_release_validati.Releases as R
use cartesi_release_validati.Releases.Trigger as T
use cartesi_release_validati.Text.{is_some, truthy}
use cartesi_release_validati.SessionRoutes.{
  SessionCreate, Settings, validate, SessionRow, SessionRequest, Effect, triggers, tags, inserts,
  publishes, Answers, Reply, server_error, created, or_none, bootstraps, new_row, new_request,
  store, bootstrap_run, after_trigger,
}

-- What a creation does before the session's own row: nothing, or the run of a session that bootstraps,
-- its request to the sandbox manager and then its tag.
pub data Before (settings : Settings) (a : Answers) (body : SessionCreate)
    : Bool → Option String → List Effect → Type 0 where
  has_own :
      (body.bootstrap ≡ false) ⊎ (is_some (truthy body.sandbox_id) ≡ true)
      → Before settings a body false body.run_id []
  queues_run :
      {run : R.NewRun} {event : R.QueuedEvent} {request : R.SandboxRequest}
      → body.bootstrap ≡ true
      → is_some (truthy body.sandbox_id) ≡ false
      → run.id ≡ a.trigger.run_id
      → request.run_id ≡ a.trigger.run_id
      → run.image_tag ≡ settings.image_tag
      → Before settings a body true (some a.trigger.run_id) (
          triggers (R.commits run event)
          ∷ triggers (R.publishes request)
          ∷ tags a.trigger.run_id a.session_id
          ∷ [])

store-created :
    (settings : Settings) (a : Answers) (body : SessionCreate) (selected : List String)
    → (run_id : Option String) (row : SessionRow)
    → (store settings a body selected run_id).0 ≡ created row
    → (row ≡ new_row a body selected run_id)
      × ((store settings a body selected run_id).1
          ≡ inserts (new_row a body selected run_id)
            ∷ publishes (new_request settings a body selected run_id)
            ∷ [])
store-created settings a body selected run_id row e =
    of_tests a.insert_succeeds a.publish_succeeds e
  where
    made : SessionRow
    made = new_row a body selected run_id

    request : SessionRequest
    request = new_request settings a body selected run_id

    result : Bool → Bool → Reply × List Effect
    result b c =
        if b
        then (if c
            then (created made, inserts made ∷ publishes request ∷ [])
            else (server_error, inserts made ∷ []))
        else (server_error, [])

    of_tests :
        (b c : Bool)
        → (result b c).0 ≡ created row
        → (row ≡ made) × ((result b c).1 ≡ inserts made ∷ publishes request ∷ [])
    of_tests true true e = (ground arith, refl)
    of_tests true false e = ground arith
    of_tests false c e = ground arith

-- A creation that answers with a row.
pub record IsCreated (settings : Settings) (a : Answers) (body : SessionCreate) (row : SessionRow)
    (done : List Effect) : Type 0 where
  pub selected : List String
  pub starting : Bool
  pub run_id : Option String
  pub before : List Effect
  pub validated : validate settings body a.definitions ≡ some selected
  pub begins : Before settings a body starting run_id before
  pub stored : row ≡ record {
    id = a.session_id;
    run_id = run_id;
    sandbox_id = body.sandbox_id;
    mode = body.mode;
    is_starting = starting;
    goal = body.goal;
    model_id = body.model_id;
    has_key = body.has_api_key;
    execution_mode = body.execution_mode;
    selected_tests = or_none selected;
  }
  pub ends :
      done
      ≡ before
        ++ (inserts row
            ∷ publishes (record {
              session_id = a.session_id;
              mode = body.mode;
              run_id = run_id;
              sandbox_id = body.sandbox_id;
              goal = body.goal;
              execution_mode = body.execution_mode;
              selected_tests = selected;
              bootstrap = starting;
              release_tag = if starting then some settings.release_tag else none;
            })
            ∷ [])

written_row :
    (a : Answers) (body : SessionCreate) (selected : List String) (run_id : Option String)
    → (starting : Bool) → bootstraps body ≡ starting
    → new_row a body selected run_id ≡ record {
      id = a.session_id;
      run_id = run_id;
      sandbox_id = body.sandbox_id;
      mode = body.mode;
      is_starting = starting;
      goal = body.goal;
      model_id = body.model_id;
      has_key = body.has_api_key;
      execution_mode = body.execution_mode;
      selected_tests = or_none selected;
    }
unfolding new_row
written_row a body selected run_id starting b = rw b refl

written_request :
    (settings : Settings) (a : Answers) (body : SessionCreate) (selected : List String)
    → (run_id : Option String) (starting : Bool) → bootstraps body ≡ starting
    → new_request settings a body selected run_id ≡ record {
      session_id = a.session_id;
      mode = body.mode;
      run_id = run_id;
      sandbox_id = body.sandbox_id;
      goal = body.goal;
      execution_mode = body.execution_mode;
      selected_tests = selected;
      bootstrap = starting;
      release_tag = if starting then some settings.release_tag else none;
    }
unfolding new_request
written_request settings a body selected run_id starting b = rw b refl

own_run-cases :
    (body : SessionCreate)
    → bootstraps body ≡ false
    → (body.bootstrap ≡ false) ⊎ (is_some (truthy body.sandbox_id) ≡ true)
unfolding bootstraps
own_run-cases body b = ground arith

queued_run-both :
    (body : SessionCreate)
    → bootstraps body ≡ true
    → (body.bootstrap ≡ true) × (is_some (truthy body.sandbox_id) ≡ false)
unfolding bootstraps
queued_run-both body b = ground arith

module _ (settings : Settings) (a : Answers) (body : SessionCreate) (selected : List String) where
  pub own_run :
      (row : SessionRow)
      → validate settings body a.definitions ≡ some selected
      → bootstraps body ≡ false
      → (store settings a body selected body.run_id).0 ≡ created row
      → IsCreated settings a body row (store settings a body selected body.run_id).1
  own_run row v b e =
      let (same, done) = store-created settings a body selected body.run_id row e in
      record {
        selected = selected;
        starting = false;
        run_id = body.run_id;
        before = [];
        validated = v;
        begins = has_own (own_run-cases body b);
        stored = same ∙ written_row a body selected body.run_id false b;
        ends = cc (done, same, written_request settings a body selected body.run_id false b);
      }

  queued_run :
      (row : SessionRow) (run : R.NewRun) (event : R.QueuedEvent) (request : R.SandboxRequest)
      → validate settings body a.definitions ≡ some selected
      → bootstraps body ≡ true
      → run.id ≡ a.trigger.run_id
      → request.run_id ≡ a.trigger.run_id
      → run.image_tag ≡ settings.image_tag
      → (after_trigger settings a body selected
          (T.created, R.commits run event ∷ R.publishes request ∷ [])).0
        ≡ created row
      → IsCreated settings a body row
          (after_trigger settings a body selected
            (T.created, R.commits run event ∷ R.publishes request ∷ [])).1
  queued_run row run event request v b i j k e = of_tag a.tag_succeeds e
    where
      begun : List Effect
      begun = triggers (R.commits run event) ∷ triggers (R.publishes request) ∷ []

      rest : Reply × List Effect
      rest = store settings a body selected (some a.trigger.run_id)

      result : Bool → Reply × List Effect
      result c =
          if c
          then (rest.0, begun ++ (tags a.trigger.run_id a.session_id ∷ rest.1))
          else (server_error, begun)

      of_tag : (c : Bool) → (result c).0 ≡ created row → IsCreated settings a body row (result c).1
      of_tag false e = ground arith
      of_tag true e =
          let (same, done) = store-created settings a body selected (some a.trigger.run_id) row e in
          let both = queued_run-both body b in
          record {
            selected = selected;
            starting = true;
            run_id = some a.trigger.run_id;
            before = begun ++ (tags a.trigger.run_id a.session_id ∷ []);
            validated = v;
            begins = queues_run both.0 both.1 i j k;
            stored = same ∙ written_row a body selected (some a.trigger.run_id) true b;
            ends = cc (
              ap (λ es. begun ++ (tags a.trigger.run_id a.session_id ∷ es)) done,
              same,
              written_request settings a body selected (some a.trigger.run_id) true b,
            );
          }

  pub after_trigger-created :
      (uuid_of : String → Option String) (row : SessionRow)
      → validate settings body a.definitions ≡ some selected
      → bootstraps body ≡ true
      → (after_trigger settings a body selected
          (T.trigger_run uuid_of a.trigger (bootstrap_run settings))).0
        ≡ created row
      → IsCreated settings a body row
          (after_trigger settings a body selected
            (T.trigger_run uuid_of a.trigger (bootstrap_run settings))).1
  unfolding T.trigger_run T.resolve_app T.after_app T.suite_uuids T.after_suites T.store_and_publish
  after_trigger-created uuid_of row v b e =
      of_tests a.trigger.commit_succeeds (a.trigger.lookup_succeeds && a.trigger.publish_succeeds) e
    where
      app : T.App
      app = record { id = none; name = none; github_url = none }

      run : R.NewRun
      run = T.row_of uuid_of a.trigger (bootstrap_run settings) app [] R.user

      event : R.QueuedEvent
      event = record { run_id = a.trigger.run_id; release_tag = settings.release_tag }

      request : R.SandboxRequest
      request = T.sandbox_request uuid_of a.trigger (bootstrap_run settings) app

      triggered : Bool → Bool → T.Reply × List R.Effect
      triggered c d =
          if not c
          then (T.server_error, [])
          else (if d
              then (T.created, R.commits run event ∷ R.publishes request ∷ [])
              else (T.server_error, R.commits run event ∷ []))

      of_tests :
          (c d : Bool)
          → (after_trigger settings a body selected (triggered c d)).0 ≡ created row
          → IsCreated settings a body row (after_trigger settings a body selected (triggered c d)).1
      of_tests false d e = ground arith
      of_tests true false e = ground arith
      of_tests true true e = queued_run row run event request v b refl refl refl e
