-- ===== src/Watcher/Foreign.antt =====
-- The rounds of `run_poller` and the foreign keys of the catalog: no round fails for a foreign key, and
-- each keeps them, whatever fails.
use cartesi_release_validati.Prelude.{
  ◌≡◌, refl, Bool, true, false, ◌&&◌, String, Option, none, some, List, [], ◌∷◌, ◌++◌,
  if◌then◌else◌, has_key,
}
use cartesi_release_validati.Text.{is_some}
use cartesi_release_validati.Catalog.{Tables, Statement, transaction}
use cartesi_release_validati.Catalog.Keys.{WellFormed, transaction-WellFormed}
use cartesi_release_validati.Catalog.Transactions.{effects}
use cartesi_release_validati.Watcher.{
  Answers, GithubRelease, World, Outcome, done, raises, then_call, node_statements,
  upsert_node_catalog, resolved_versions, commit, insert_release_row, process_release,
  publish_release_event, is_listed, poll_node, poll_node_once, get_latest_release,
  fetch_cli_releases,
}
use cartesi_release_validati.Watcher.Toolchain.{
  cli_statements, CliAnswers, poll_cli, poll_cli_once, contracts_statements, poll_contracts,
  poll_contracts_once,
}
use cartesi_release_validati.Watcher.Rounds.{Round, attempt, run_poller}
use cartesi_release_validati.Watcher.Keeping.{poll_cli-keeps}
use cartesi_release_validati.Watcher.Catalogued.{then_call-keeps}

abbrev IsSound : World → Type 0
IsSound w = WellFormed w.tables

commit-IsSound :
    (succeeds : Bool) (ss : List Statement) (w : World) (t : Tables)
    → WellFormed t
    → IsSound w
    → IsSound (commit succeeds (transaction ss t) w).world
commit-IsSound succeeds ss w t ht h = of_end succeeds (transaction ss t) refl
  where
    of_end :
        (b : Bool) (end : Option Tables) → transaction ss t ≡ end → IsSound (commit b end w).world
    of_end b none e = h
    of_end false (some u) e = h
    of_end true (some u) e = transaction-WellFormed ss t u e ht

insert_release_row-IsSound :
    (b : Bool) (release : GithubRelease) (w : World)
    → IsSound w
    → IsSound (insert_release_row b release w).world
unfolding insert_release_row
insert_release_row-IsSound b release w h = of_test (b && is_some release.published_at)
  where
    of_test :
        (c : Bool)
        → IsSound
            (if c
              then done (record w {
                releases =
                    if is_listed release.tag_name w.releases
                    then w.releases
                    else release.tag_name ∷ w.releases;
              })
              else raises w).world
    of_test true = h
    of_test false = h

publish-IsSound :
    (b : Bool) (release : GithubRelease) (prs : List String) (w : World)
    → IsSound w
    → IsSound (publish_release_event b release prs w).world
publish-IsSound true release prs w h = h
publish-IsSound false release prs w h = h

upsert_node_catalog-IsSound :
    (a : Answers) (release : GithubRelease) (w : World)
    → IsSound w
    → IsSound (upsert_node_catalog a release w).world
unfolding upsert_node_catalog
upsert_node_catalog-IsSound a release w h =
    let (found, known) = resolved_versions a.page release.tag_name w.known in
    commit-IsSound a.commit_succeeds (node_statements release found) (record w { known = known })
      w.tables h h

process_release-IsSound :
    (a : Answers) (release : GithubRelease) (w : World)
    → IsSound w
    → IsSound (process_release a release w).world
unfolding process_release
process_release-IsSound a release w h =
    then_call-keeps IsSound (insert_release_row a.insert_succeeds release w)
      (λ w.
        then_call (upsert_node_catalog a release w)
          (λ w. publish_release_event a.publish_succeeds release a.prs w))
      (insert_release_row-IsSound a.insert_succeeds release w h)
      (λ w h.
        then_call-keeps IsSound (upsert_node_catalog a release w)
          (λ w. publish_release_event a.publish_succeeds release a.prs w)
          (upsert_node_catalog-IsSound a release w h)
          (publish-IsSound a.publish_succeeds release a.prs))

unless-IsSound :
    (b : Bool) (o : Outcome) (w : World)
    → IsSound w
    → IsSound o.world
    → IsSound (if b then done w else o).world
unless-IsSound true o w h k = h
unless-IsSound false o w h k = k

poll_node-IsSound :
    (a : Answers) (latest : Option GithubRelease) (w : World)
    → IsSound w
    → IsSound (poll_node a latest w).world
poll_node-IsSound a none w h = h
poll_node-IsSound a (some release) w h =
    unless-IsSound (is_listed release.tag_name w.releases) (process_release a release w) w h
      (process_release-IsSound a release w h)

poll_cli-IsSound :
    (page : List (CliAnswers × GithubRelease)) (w : World)
    → IsSound w
    → IsSound (poll_cli page w).world
poll_cli-IsSound =
    poll_cli-keeps IsSound
      (λ release named w e h.
        transaction-WellFormed (cli_statements release named) w.tables
          (effects (cli_statements release named) w.tables) e h)
      (λ event w h. h)

poll_contracts-IsSound :
    (b : Bool) (latest : Option GithubRelease) (w : World)
    → IsSound w
    → IsSound (poll_contracts b latest w).world
poll_contracts-IsSound b none w h = h
poll_contracts-IsSound b (some release) w h =
    unless-IsSound (has_key release.tag_name w.tables.contracts)
      (commit b (transaction (contracts_statements release) w.tables) w) w h
      (commit-IsSound b (contracts_statements release) w w.tables h h)

pub attempt-IsSound :
    (cli_enabled : Bool) (r : Round) (w : World)
    → IsSound w
    → IsSound (attempt cli_enabled r w).world
unfolding attempt poll_node_once poll_cli_once poll_contracts_once
attempt-IsSound cli_enabled r w h =
    let contracts : World → Outcome =
      λ w. poll_contracts r.contracts_commits (get_latest_release r.contracts) w in
    let cli : World → Outcome =
      λ w. if cli_enabled then poll_cli (fetch_cli_releases r.cli) w else done w in
    then_call-keeps IsSound (poll_node r.node_answers (get_latest_release r.node) w)
      (λ w. then_call (cli w) contracts)
      (poll_node-IsSound r.node_answers (get_latest_release r.node) w h)
      (λ w h.
        then_call-keeps IsSound (cli w) contracts (of_test cli_enabled w h)
          (poll_contracts-IsSound r.contracts_commits (get_latest_release r.contracts)))
  where
    of_test :
        (b : Bool) (w : World)
        → IsSound w
        → IsSound (if b then poll_cli (fetch_cli_releases r.cli) w else done w).world
    of_test true w h = poll_cli-IsSound (fetch_cli_releases r.cli) w h
    of_test false w h = h

pub run_poller-IsSound :
    (cli_enabled : Bool) (rounds : List (Round × List String)) (w : World)
    → WellFormed w.tables
    → WellFormed (run_poller cli_enabled rounds w).tables
unfolding run_poller
run_poller-IsSound cli_enabled [] w h = h
run_poller-IsSound cli_enabled ((r, new_runs) ∷ rest) w h =
    run_poller-IsSound cli_enabled rest
      (attempt cli_enabled r (record w { run_tags = new_runs ++ w.run_tags })).world
      (attempt-IsSound cli_enabled r (record w { run_tags = new_runs ++ w.run_tags }) h)
