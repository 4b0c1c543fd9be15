-- ===== src/Releases/Tests.antt =====
-- Runs of the releases consumer and of POST /runs, and instances of their theorems.
use cartesi_release_validati.Prelude.{
  ◌≡◌, refl, inl, inr, true, false, String, Option, none, some, List, [], ◌∷◌, arith, str_eq,
  if◌then◌else◌, length, take, count,
}
use cartesi_release_validati.Text.{pos, lstrip}
use cartesi_release_validati.Releases.{
  user, State, apply_all, Catalogs, ReleaseRow, CliRow, Answers, is_run_of, handle, run,
  image_and_chain, catalog_row, catalog_image_tag, apply, new_run,
}
use cartesi_release_validati.Releases.Trigger as T
use cartesi_release_validati.Releases.Once.{github_tags, add_all, run-refines, run-exactly_once}
use cartesi_release_validati.Releases.Order.{
  AllHaveRows, at_start, handles, triggers, Reaches-AllHaveRows,
}

abbrev catalogs : Catalogs
catalogs =
    let release : ReleaseRow = record {
      cli_tag = some "v2.0.0-alpha.34";
      node_major_version = some (pos 2);
    } in
    let cli : CliRow = record { sdk_tag = some "0.12.0-alpha.39"; devnet_tag = some "v2.1.0" } in
    record {
      releases = ("v2.0.0-alpha.11", release) ∷ [];
      clis = ("v2.0.0-alpha.34", cli) ∷ [];
      devnets = ("v2.1.0", some "v2.2.0") ∷ [];
    }

abbrev answers : Answers
answers = record {
  catalogs = catalogs;
  run_id = "r1";
  commit_succeeds = true;
  publish_succeeds = true;
}

abbrev failing : Answers
failing = record answers { commit_succeeds = false }

abbrev empty : State
empty = record { runs = []; events = []; requests = [] }

image : (image_and_chain catalogs "v2.0.0-alpha.11").0 ≡ "cartesi/rollups-runtime:0.12.0-alpha.39"
unfolding image_and_chain catalog_row catalog_image_tag lstrip
image = refl

abbrev messages : List (Answers × Option String)
messages =
    (failing, some "v2.0.0-alpha.11")
    ∷ (answers, some "v2.0.0-alpha.11")
    ∷ (answers, none)
    ∷ (answers, some "v2.0.0-alpha.11")
    ∷ []

made_two : length (run messages empty).runs ≡ 2
unfolding handle apply new_run
made_two = refl

run-refines_example :
    github_tags (run messages empty).runs ≡ add_all messages (github_tags empty.runs)
run-refines_example = run-refines messages empty

run-exactly_once_example : count (is_run_of "v2.0.0-alpha.11") (run messages empty).runs ≡ 1
run-exactly_once_example =
    run-exactly_once answers (some "v2.0.0-alpha.11") messages empty (omega arith) (inr (inl refl))
      refl

abbrev uuid_of : String → Option String
uuid_of s = if str_eq s "not-a-uuid" then none else some s

abbrev api : T.Answers
api = record {
  applications = [];
  catalogs = catalogs;
  run_id = "r2";
  commit_succeeds = true;
  lookup_succeeds = true;
  publish_succeeds = true;
}

abbrev body : T.TriggerRunRequest
body = record {
  release_tag = "v2.0.0-alpha.11";
  image_tag = "cartesi/rollups-runtime:0.12.0-alpha.39";
  suite_ids = "s1" ∷ [];
  run_tags = [];
  category_filter = [];
  priority = 5;
  triggered_by = some user;
  triggered_by_user = none;
  app_id = none;
  sdk_version = none;
  cli_version = none;
  node_major_version = none;
}

created : (T.trigger_run uuid_of api body).0 ≡ T.created
unfolding T.trigger_run T.resolve_app T.store_and_publish T.after_app T.after_suites T.suite_uuids
created = refl

bad_app : (T.trigger_run uuid_of api (record body { app_id = some "not-a-uuid" })).0 ≡ T.bad_request
unfolding T.trigger_run T.resolve_app T.after_app
bad_app = refl

abbrev reached : State
reached =
    apply_all (apply_all empty (take 1 (handle answers (some "v2.0.0-alpha.11") empty)))
      (take 2 (T.trigger_run uuid_of api body).1)

Reaches-AllHaveRows_example : AllHaveRows reached
unfolding handle apply T.trigger_run
Reaches-AllHaveRows_example =
    Reaches-AllHaveRows uuid_of empty reached
      (triggers api body 2 (handles answers (some "v2.0.0-alpha.11") 1 at_start)) tt
