-- ===== src/Releases/Trigger.antt =====
-- services/orchestrator/api/routes/runs.py: `trigger_run`, POST /runs.
use cartesi_release_validati.Prelude.{
  ℕ, zero, suc, Bool, not, ◌&&◌, String, Option, none, some, List, [], ◌∷◌, if◌then◌else◌, lookup,
}
use cartesi_release_validati.Text.{truthy, or_else, ℤ, pos, negsuc}
use cartesi_release_validati.Versions.{node_major_version}
use cartesi_release_validati.Releases.{
  TriggeredBy, NewRun, Chain, SandboxRequest, Effect, commits, publishes, Catalogs, CatalogRow,
  catalog_row,
}

-- The body of the request. A list that is missing or null is the empty one; triggered_by is none if it
-- is none of the three texts of the column's type.
pub record TriggerRunRequest : Type 0 where
  pub release_tag : String
  pub image_tag : String
  pub suite_ids : List String
  pub run_tags : List String
  pub category_filter : List String
  pub priority : ℕ
  pub triggered_by : Option TriggeredBy
  pub triggered_by_user : Option String
  pub app_id : Option String
  pub sdk_version : Option String
  pub cli_version : Option String
  pub node_major_version : Option ℤ

-- A row of tests.applications.
pub record Application : Type 0 where
  pub name : String
  pub github_url : Option String
  pub is_active : Bool

-- The response: 400, 404, 409, 500 where an exception leaves the handler, and 201.
pub data Reply : Type 0 where
  bad_request not_found conflict server_error created : Reply

-- What the world answers: the applications by their id, the catalogs, the new run's id, and whether
-- the transaction, the lookup in the catalogs and the publishing succeed.
pub record Answers : Type 0 where
  pub applications : List (String × Application)
  pub catalogs : Catalogs
  pub run_id : String
  pub commit_succeeds : Bool
  pub lookup_succeeds : Bool
  pub publish_succeeds : Bool

-- The application of the run: an id, its name and its address, each none for a run without one.
pub record App : Type 0 where
  pub id : Option String
  pub name : Option String
  pub github_url : Option String

-- A refusal, or the value to go on with.
pub data Checked (A : Type 0) : Type 0 where
  refused : Reply → Checked A
  accepted : A → Checked A

-- `major or otherwise` for an optional integer.
abbrev pub major_or_else : Option ℤ → Option ℤ → Option ℤ
major_or_else none otherwise = otherwise
major_or_else (some (pos zero)) otherwise = otherwise
major_or_else (some (pos (suc n))) otherwise = some (pos (suc n))
major_or_else (some (negsuc n)) otherwise = some (negsuc n)

-- The versions of the request: those that are given first, then the catalog's.
unfoldable pub chain_of : Option CatalogRow → TriggerRunRequest → Chain
chain_of none body = record {
  sdk_version = truthy body.sdk_version;
  cli_version = truthy body.cli_version;
  devnet_version = none;
  contracts_version = none;
  node_major_version =
      major_or_else body.node_major_version (some (node_major_version body.release_tag));
}
chain_of (some row) body = record {
  sdk_version = or_else (truthy body.sdk_version) row.chain.sdk_version;
  cli_version = or_else (truthy body.cli_version) row.chain.cli_version;
  devnet_version = row.chain.devnet_version;
  contracts_version = row.chain.contracts_version;
  node_major_version = major_or_else body.node_major_version row.chain.node_major_version;
}

-- `uuid.UUID`, none where it raises ValueError.
module _ (uuid_of : String → Option String) where
  -- The block on `body.app_id`.
  unfoldable pub resolve_app : List (String × Application) → Option String → Checked App
  resolve_app applications app_id = elim (truthy app_id) [
    | none ↦ accepted (record { id = none; name = none; github_url = none })
    | some given ↦ elim (uuid_of given) [
      | none ↦ refused bad_request
      | some id ↦ elim (lookup id applications) [
        | none ↦ refused not_found
        | some app ↦
            if app.is_active
            then accepted
                (record { id = some id; name = some app.name; github_url = app.github_url })
            else refused conflict
      ]
    ]
  ]

  -- `[uuid.UUID(s) for s in suite_ids]`.
  unfoldable pub suite_uuids : List String → Option (List String)
  suite_uuids [] = some []
  suite_uuids (s ∷ rest) = elim (uuid_of s) [
    | none ↦ none
    | some id ↦ elim (suite_uuids rest) [ none ↦ none | some ids ↦ some (id ∷ ids) ]
  ]

  abbrev pub row_of : Answers → TriggerRunRequest → App → List String → TriggeredBy → NewRun
  row_of a body app suites triggered_by = record {
    id = a.run_id;
    release_tag = body.release_tag;
    image_tag = body.image_tag;
    priority = body.priority;
    triggered_by = triggered_by;
    triggered_by_user = body.triggered_by_user;
    suite_ids = suites;
    app_id = app.id;
    tags_filter = body.run_tags;
    category_filter = body.category_filter;
  }

  abbrev pub sandbox_request : Answers → TriggerRunRequest → App → SandboxRequest
  sandbox_request a body app = record {
    run_id = a.run_id;
    release_tag = body.release_tag;
    image_tag = body.image_tag;
    priority = body.priority;
    requested_by = body.triggered_by_user;
    chain = chain_of (catalog_row a.catalogs body.release_tag) body;
    app_id = app.id;
    app_name = app.name;
    app_github_url = app.github_url;
  }

  -- From the commit on.
  unfoldable pub store_and_publish :
      Answers → TriggerRunRequest → App → List String → Reply × List Effect
  store_and_publish a body app suites = elim body.triggered_by [
    | none ↦ (server_error, [])
    | some triggered_by ↦
        let stored =
          commits (row_of a body app suites triggered_by)
            (record { run_id = a.run_id; release_tag = body.release_tag }) in
        if not a.commit_succeeds
        then (server_error, [])
        else (if a.lookup_succeeds && a.publish_succeeds
            then (created, stored ∷ publishes (sandbox_request a body app) ∷ [])
            else (server_error, stored ∷ []))
  ]

  unfoldable pub after_suites :
      Answers → TriggerRunRequest → App → Option (List String) → Reply × List Effect
  after_suites a body app none = (server_error, [])
  after_suites a body app (some suites) = store_and_publish a body app suites

  unfoldable pub after_app : Answers → TriggerRunRequest → Checked App → Reply × List Effect
  after_app a body (refused reply) = (reply, [])
  after_app a body (accepted app) = after_suites a body app (suite_uuids body.suite_ids)

  unfoldable pub trigger_run : Answers → TriggerRunRequest → Reply × List Effect
  trigger_run a body = after_app a body (resolve_app a.applications body.app_id)
