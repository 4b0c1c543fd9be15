-- ===== src/Watcher/Tests.antt =====
-- Rounds of the watchers, and instances of their theorems.
use cartesi_release_validati.Prelude.{
  ◌+◌, ◌≤◌, ◌≡◌, refl, inr, true, false, none, some, List, [], ◌∷◌, count, lookup,
}
use cartesi_release_validati.Text.{pos, strip, search, group_at}
use cartesi_release_validati.Releases as R
use cartesi_release_validati.Catalog.{ReleaseRow, Tables, labelled, catalogs_of}
use cartesi_release_validati.Watcher.{
  Answers, GithubRelease, World, done, answers, cut_body, event_of, poll_node, is_listed,
  get_latest_release, fetch_cli_releases,
}
use cartesi_release_validati.Watcher.Toolchain.{
  CliAnswers, named_in, process_cli_release, poll_cli, poll_cli_once, synthetic_release, stripped,
}
use cartesi_release_validati.Watcher.Rounds.{Round, attempt, run_poller}
use cartesi_release_validati.Watcher.Completion.{Succeeds, attempt-completes, poll_cli-completes}
use cartesi_release_validati.Watcher.Repeats.{poll_cli-repeats}
use cartesi_release_validati.Watcher.Backfill.{poll_cli_once-keeps_toolchain}
use cartesi_release_validati.Watcher.Lost.{poll_node-IsLost}
use cartesi_release_validati.Watcher.Announcement.{process_cli_release-announces}
use cartesi_release_validati.Watcher.Announced.{is_for, still, has_cli}
use cartesi_release_validati.Watcher.Announced.Polling.{run_poller-announces_twice}

-- v2.0.0-alpha.12 has no CLI, and v2.0.0-alpha.11 has one.
abbrev waiting : ReleaseRow
waiting = record {
  cli_tag = none;
  node_major_version = some (pos 2);
  meta = labelled "v2.0.0-alpha.12" "alpha";
}

abbrev complete : ReleaseRow
complete = record {
  cli_tag = some "v2.0.0-alpha.34";
  node_major_version = some (pos 2);
  meta = labelled "v2.0.0-alpha.11" "alpha";
}

abbrev tables : Tables
tables = record {
  sdks = [];
  contracts = [];
  devnets = [];
  clis =
      (
        "v2.0.0-alpha.34",
        record { sdk_tag = none; devnet_tag = none; meta = labelled "v2.0.0-alpha.34" "alpha" },
      )
      ∷ [];
  releases = ("v2.0.0-alpha.12", waiting) ∷ ("v2.0.0-alpha.11", complete) ∷ [];
}

abbrev world : World
world = record {
  releases = "v2.0.0-alpha.11" ∷ [];
  run_tags = [];
  tables = tables;
  published = [];
  known = record { sdk = []; cli = []; devnet = []; contracts = [] };
}

abbrev cli_release : GithubRelease
cli_release = record {
  tag_name = "v2.0.0-alpha.35";
  name = none;
  body = some "rollups-node 2.0.0-alpha.12, @cartesi/sdk@0.12.0-alpha.40";
  html_url = none;
  published_at = some "2026-01-02T00:00:00+00:00";
  author_login = none;
  download_counts = 3 ∷ 4 ∷ [];
}

abbrev node_release : GithubRelease
node_release = record cli_release { tag_name = "v2.0.0-alpha.13"; body = none }

abbrev fine : CliAnswers
fine = record { commit_succeeds = true; publish_succeeds = true }

abbrev node_fine : Answers
node_fine = record {
  prs = [];
  page = none;
  insert_succeeds = true;
  commit_succeeds = true;
  publish_succeeds = true;
}

abbrev unpublished : Answers
unpublished = record node_fine { publish_succeeds = false }

abbrev page : List (CliAnswers × GithubRelease)
page = (fine, cli_release) ∷ []

abbrev calm : Round
calm = record {
  node = answers 200 none node_release;
  node_answers = node_fine;
  cli = answers 200 none page;
  contracts = answers 404 none node_release;
  contracts_commits = true;
}

process_cli_release-announces_example :
    let after = (process_cli_release fine cli_release world).world in
    let taken = R.image_and_chain (catalogs_of after.tables) "v2.0.0-alpha.12" in
    let sdk_tag = (named_in (cut_body 5000 cli_release.body)).sdk_tag in
    (after.published
      ≡ event_of (synthetic_release cli_release "v2.0.0-alpha.12") [] ∷ world.published)
    × ((taken.0 ≡ R.catalog_image_tag "v2.0.0-alpha.12" (some (pos 2)) sdk_tag)
        × ((taken.1.cli_version ≡ R.ltrim_v (some "v2.0.0-alpha.35"))
            × (taken.1.sdk_version ≡ R.ltrim_v sdk_tag)))
unfolding named_in cut_body search group_at
process_cli_release-announces_example =
    process_cli_release-announces fine cli_release world "v2.0.0-alpha.12" (some (pos 2))
      (labelled "v2.0.0-alpha.12" "alpha") refl refl refl refl refl refl refl

run_poller-announces_twice_example :
    count
      (is_for "v2.0.0-alpha.12")
      (run_poller true ((calm, []) ∷ (calm, []) ∷ []) world).published
    ≤ count (is_for "v2.0.0-alpha.12") world.published
      + (still (is_listed "v2.0.0-alpha.12" world.releases)
          + still (has_cli (lookup "v2.0.0-alpha.12" world.tables.releases)))
run_poller-announces_twice_example =
    run_poller-announces_twice true ((calm, []) ∷ (calm, []) ∷ []) world "v2.0.0-alpha.12"

calm-Succeeds : Succeeds calm
unfolding get_latest_release fetch_cli_releases
calm-Succeeds = record {
  node = (refl, (refl, (refl, refl)));
  clis = ((refl, refl), tt);
  contracts = refl;
}

attempt-completes_example : (attempt true calm world).raised ≡ false
attempt-completes_example = attempt-completes true calm world calm-Succeeds

poll_cli-repeats_example :
    poll_cli page (poll_cli page world).world ≡ done (poll_cli page world).world
unfolding stripped strip
poll_cli-repeats_example =
    poll_cli-repeats page page world (refl, tt) refl
      (poll_cli-completes page world ((refl, refl), tt))

poll_cli_once-keeps_toolchain_example :
    lookup "v2.0.0-alpha.11" (poll_cli_once (answers 200 none page) world).world.tables.releases
    ≡ some complete
poll_cli_once-keeps_toolchain_example =
    poll_cli_once-keeps_toolchain (answers 200 none page) world "v2.0.0-alpha.11" "v2.0.0-alpha.34"
      (some (pos 2)) (labelled "v2.0.0-alpha.11" "alpha") refl

poll_node-IsLost_example :
    let after = (poll_node unpublished (some node_release) world).world in
    (after.published ≡ world.published)
    × (poll_node node_fine (some node_release) after ≡ done after)
poll_node-IsLost_example =
    poll_node-IsLost unpublished node_fine node_release world refl refl refl (inr refl)
