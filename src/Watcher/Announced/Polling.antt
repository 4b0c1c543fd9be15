-- ===== src/Watcher/Announced/Polling.antt =====
-- The budget of announcements over the CLI's watcher and over the rounds of `run_poller`.
use cartesi_release_validati.Prelude.{
  ℕ, ◌+◌, ◌≤◌, ◌≡◌, refl, Bool, true, false, String, Option, none, some, List, [], ◌∷◌, ◌++◌, arith,
  eq_iff, str_eq, if◌then◌else◌, count, lookup, has_key,
}
use cartesi_release_validati.Text.{or_else}
use cartesi_release_validati.Catalog.{Tables, ReleaseRow, transaction, effect, is_allowed}
use cartesi_release_validati.Catalog.References.{lookup-update}
use cartesi_release_validati.Catalog.Transactions.{effects, transaction-effects}
use cartesi_release_validati.Watcher.{
  GithubRelease, World, Outcome, done, then_call, commit, cut_body, publish_release_event,
  is_listed, poll_node, poll_node_once, get_latest_release, fetch_cli_releases,
}
use cartesi_release_validati.Watcher.Toolchain.{
  Named, named_in, cli_statements, upsert_cli_chain, process_cli_release, CliAnswers, announce,
  updated_node_tag, lacks_cli, synthetic_release, is_new_cli, poll_cli, poll_cli_once,
  poll_contracts, poll_contracts_once, contracts_statements,
}
use cartesi_release_validati.Watcher.Rounds.{Round, attempt, run_poller}
use cartesi_release_validati.Watcher.Catalogued.{then_call-keeps}
use cartesi_release_validati.Watcher.Backfill.{filled, cli_statements-releases}
use cartesi_release_validati.Watcher.Announced.{
  is_for, has_cli, still, budget, still-le, filled-has_cli, has_cli-updated, one_for,
  publish-budget, Within, unless-Within, poll_node-Within,
}

lacks-has_cli : (row : Option ReleaseRow) → lacks_cli row ≡ true → has_cli row ≡ false
lacks-has_cli none h = refl
lacks-has_cli (some row) h = ground arith

module _ (tag : String) where
  -- The announcement that a backfill leads to.
  abbrev pending : Option String → ℕ
  pending none = 0
  pending (some node) = one_for tag node

  filled-pending :
      (node_tag : Option String) (c : String) (rows : List (String × ReleaseRow))
      → pending (updated_node_tag node_tag rows)
          + still (has_cli (lookup tag (filled node_tag c rows)))
        ≤ still (has_cli (lookup tag rows))
  filled-pending none c rows = omega arith
  filled-pending (some node) c rows =
      of_cases (str_eq node tag) refl (lacks_cli (lookup node rows)) refl
    where
      kept :
          still (has_cli (lookup tag (filled (some node) c rows)))
          ≤ still (has_cli (lookup tag rows))
      kept =
          still-le (has_cli (lookup tag rows)) (has_cli (lookup tag (filled (some node) c rows)))
            (filled-has_cli (some node) c rows tag)

      of_cases :
          (same : Bool)
          → str_eq node tag ≡ same
          → (lacks : Bool) → lacks_cli (lookup node rows) ≡ lacks
          → pending (if lacks then some node else none)
              + still (has_cli (lookup tag (filled (some node) c rows)))
            ≤ still (has_cli (lookup tag rows))
      of_cases s e false l = let le = kept in omega arith
      of_cases false e true l = let le = kept in rw e (omega arith)
      of_cases true e true l =
          let same : node ≡ tag = ground (arith, eq_iff node tag) in
          let now : has_cli (lookup tag (filled (some node) c rows)) ≡ true =
            rw
              (
                lookup-update node tag
                    (λ row. record row { cli_tag = or_else row.cli_tag (some c) }) rows,
                e,
              )
              (has_cli-updated (lookup node rows) c (ground arith)) in
          let before : has_cli (lookup tag rows) ≡ false =
            rw (← same) (lacks-has_cli (lookup node rows) l) in
          rw (e, now, before) (omega arith)

  cli_statements-pending :
      (release : GithubRelease) (named : Named) (w : World)
      → pending (updated_node_tag named.node_tag w.tables.releases)
          + budget tag (record w { tables = effects (cli_statements release named) w.tables })
        ≤ budget tag w
  cli_statements-pending release named w =
      rw (cli_statements-releases release named w.tables)
        (let le = filled-pending named.node_tag release.tag_name w.tables.releases in omega arith)

  announce-Within :
      (n : ℕ) (b : Bool) (release : GithubRelease) (node_tag : Option String) (w : World)
      → pending node_tag + budget tag w ≤ n
      → Within tag n (announce b release node_tag w).world
  unfolding synthetic_release
  announce-Within n b release none w h = omega arith
  announce-Within n b release (some node) w h =
      unless-Within tag n (is_listed node w.run_tags)
        (publish_release_event b (synthetic_release release node) [] w) w (omega arith)
        (λ e. let le = published in omega arith)
    where
      published :
          budget tag (publish_release_event b (synthetic_release release node) [] w).world
          ≤ one_for tag node + budget tag w
      published = publish-budget tag b (synthetic_release release node) [] w

  process_cli_release-Within :
      (n : ℕ) (a : CliAnswers) (release : GithubRelease) (w : World)
      → Within tag n w
      → Within tag n (process_cli_release a release w).world
  unfolding process_cli_release upsert_cli_chain
  process_cli_release-Within n a release w h =
      of_end a.commit_succeeds
        (transaction (cli_statements release (named_in (cut_body 5000 release.body))) w.tables) refl
    where
      named : Named
      named = named_in (cut_body 5000 release.body)

      next : World → Outcome
      next = announce a.publish_succeeds release (updated_node_tag named.node_tag w.tables.releases)

      of_end :
          (b : Bool) (end : Option Tables)
          → transaction (cli_statements release named) w.tables ≡ end
          → Within tag n (then_call (commit b end w) next).world
      of_end b none e = h
      of_end false (some u) e = h
      of_end true (some u) e =
          let le = cli_statements-pending release named w in
          let room : pending (updated_node_tag named.node_tag w.tables.releases)
                + budget tag (record w { tables = u })
              ≤ n =
            rw (← transaction-effects (cli_statements release named) w.tables u e) (omega arith) in
          announce-Within n a.publish_succeeds release
            (updated_node_tag named.node_tag w.tables.releases) (record w { tables = u }) room

  poll_cli-Within :
      (n : ℕ) (page : List (CliAnswers × GithubRelease)) (w : World)
      → Within tag n w
      → Within tag n (poll_cli page w).world
  unfolding poll_cli
  poll_cli-Within n [] w h = h
  poll_cli-Within n ((a, release) ∷ rest) w h =
      then_call-keeps (Within tag n)
        (if is_new_cli release w then process_cli_release a release w else done w) (poll_cli rest)
        (of_test (is_new_cli release w)) (poll_cli-Within n rest)
    where
      of_test :
          (b : Bool) → Within tag n (if b then process_cli_release a release w else done w).world
      of_test true = process_cli_release-Within n a release w h
      of_test false = h

  poll_contracts-Within :
      (n : ℕ) (b : Bool) (latest : Option GithubRelease) (w : World)
      → Within tag n w
      → Within tag n (poll_contracts b latest w).world
  unfolding contracts_statements effect transaction is_allowed
  poll_contracts-Within n b none w h = h
  poll_contracts-Within n b (some release) w h =
      unless-Within tag n (has_key release.tag_name w.tables.contracts)
        (commit b (transaction (contracts_statements release) w.tables) w) w h (λ e. of_commit b)
    where
      of_commit :
          (b : Bool)
          → Within tag n (commit b (transaction (contracts_statements release) w.tables) w).world
      of_commit true = h
      of_commit false = h

  attempt-Within :
      (n : ℕ) (cli_enabled : Bool) (r : Round) (w : World)
      → Within tag n w
      → Within tag n (attempt cli_enabled r w).world
  unfolding attempt poll_node_once poll_cli_once poll_contracts_once
  attempt-Within n cli_enabled r w h =
      let contracts : World → Outcome =
        λ w. poll_contracts r.contracts_commits (get_latest_release r.contracts) w in
      let cli : World → Outcome =
        λ w. if cli_enabled then poll_cli (fetch_cli_releases r.cli) w else done w in
      then_call-keeps (Within tag n) (poll_node r.node_answers (get_latest_release r.node) w)
        (λ w. then_call (cli w) contracts)
        (poll_node-Within tag n r.node_answers (get_latest_release r.node) w h)
        (λ w h.
          then_call-keeps (Within tag n) (cli w) contracts (of_test cli_enabled w h)
            (poll_contracts-Within n r.contracts_commits (get_latest_release r.contracts)))
    where
      of_test :
          (b : Bool) (w : World)
          → Within tag n w
          → Within tag n (if b then poll_cli (fetch_cli_releases r.cli) w else done w).world
      of_test true w h = poll_cli-Within n (fetch_cli_releases r.cli) w h
      of_test false w h = h

  rounds-Within :
      (n : ℕ) (cli_enabled : Bool) (rounds : List (Round × List String)) (w : World)
      → Within tag n w
      → Within tag n (run_poller cli_enabled rounds w)
  unfolding run_poller
  rounds-Within n cli_enabled [] w h = h
  rounds-Within n cli_enabled ((r, new_runs) ∷ rest) w h =
      rounds-Within n cli_enabled rest
        (attempt cli_enabled r (record w { run_tags = new_runs ++ w.run_tags })).world
        (attempt-Within n cli_enabled r (record w { run_tags = new_runs ++ w.run_tags }) h)

-- Whatever fails in the rounds, the watchers publish at most one event for a release that
-- `github.releases` does not list yet, and one more if its row in the catalog has no CLI yet or
-- is not there: at most two, and none for a release that is listed and has its CLI.
pub run_poller-announces_twice :
    (cli_enabled : Bool) (rounds : List (Round × List String)) (w : World) (tag : String)
    → count (is_for tag) (run_poller cli_enabled rounds w).published
      ≤ count (is_for tag) w.published
        + (still (is_listed tag w.releases) + still (has_cli (lookup tag w.tables.releases)))
run_poller-announces_twice cli_enabled rounds w tag =
    let le = rounds-Within tag (budget tag w) cli_enabled rounds w (omega arith) in omega arith
