-- ===== src/SessionRoutes/Tests.antt =====
-- Requests to POST /sessions, and instances of their theorems.
use cartesi_release_validati.Prelude.{
  ◌≤◌, ◌≡◌, refl, true, false, String, Option, none, some, List, [], ◌∷◌, length, All, lookup,
}
use cartesi_release_validati.Text.{strip}
use cartesi_release_validati.Releases.Trigger as T
use cartesi_release_validati.SessionRoutes.{
  autonomous, ai_manual, SessionCreate, Settings, is_nil, has_target, clean_option, is_runnable,
  validate, with_phases, SessionRow, Answers, created, bootstraps, new_row, create_session,
}
use cartesi_release_validati.SessionRoutes.Creation.{
  create_session-IsCreated, create_session-selects,
}
use cartesi_release_validati.SessionRoutes.Created.{IsCreated}

abbrev settings : Settings
settings = record {
  max_phases = 2;
  release_tag = "v2.0.0-alpha.11";
  image_tag = "cartesi/rollups-runtime:0.12.0-alpha.39";
}

abbrev body : SessionCreate
body = record {
  mode = autonomous;
  run_id = none;
  sandbox_id = none;
  goal = none;
  execution_mode = ai_manual;
  selected_tests = none;
  selected_phases = some ("deposits" ∷ []);
  bootstrap = true;
  has_api_key = false;
  model_id = "claude-opus-4-6";
}

abbrev world : Answers
world = record {
  definitions =
      ("ether_deposit", record { phase = "deposits"; is_active = true; ai_allowed = true })
      ∷ ("token_deposit", record { phase = "deposits"; is_active = true; ai_allowed = false })
      ∷ [];
  session_id = "s1";
  trigger = record {
    applications = [];
    catalogs = record { releases = []; clis = []; devnets = [] };
    run_id = "r1";
    commit_succeeds = true;
    lookup_succeeds = true;
    publish_succeeds = true;
  };
  encrypt_succeeds = true;
  tag_succeeds = true;
  insert_succeeds = true;
  publish_succeeds = true;
}

abbrev uuid_of : String → Option String
uuid_of s = some s

abbrev row : SessionRow
row = record {
  id = "s1";
  run_id = some "r1";
  sandbox_id = none;
  mode = autonomous;
  is_starting = true;
  goal = none;
  model_id = "claude-opus-4-6";
  has_key = false;
  execution_mode = ai_manual;
  selected_tests = some ("ether_deposit" ∷ []);
}

makes_row : (create_session uuid_of settings world body).0 ≡ created row
unfolding create_session validate with_phases bootstraps new_row strip T.trigger_run T.resolve_app
    T.after_app T.suite_uuids T.after_suites T.store_and_publish
makes_row = refl

create_session-IsCreated_example :
    IsCreated settings world body row (create_session uuid_of settings world body).1
create_session-IsCreated_example =
    create_session-IsCreated uuid_of settings world body row makes_row

create_session-selects_example :
    ((selected : List String) × ((row.selected_tests ≡ some selected)
        × ((is_nil selected ≡ false)
            × All (λ s. is_runnable (lookup s world.definitions) ≡ true) selected)))
    × ((has_target body ≡ true)
        × (length (clean_option body.selected_phases) ≤ settings.max_phases))
create_session-selects_example =
    create_session-selects uuid_of settings world body row refl makes_row
