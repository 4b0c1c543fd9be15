-- ===== src/Watcher/Keeping.antt =====
-- Whatever each transaction and each publication keeps, the watcher of the CLI's releases keeps.
use cartesi_release_validati.Prelude.{
  ◌≡◌, refl, sym, ap, ◌∙◌, Bool, true, false, String, Option, none, some, List, [], ◌∷◌,
  if◌then◌else◌,
}
use cartesi_release_validati.Catalog.{Tables, transaction}
use cartesi_release_validati.Catalog.Transactions.{effects, transaction-effects}
use cartesi_release_validati.Watcher.{
  GithubRelease, World, done, commit, cut_body, ReleaseEvent, publish_release_event, event_of,
  is_listed,
}
use cartesi_release_validati.Watcher.Toolchain.{
  Named, named_in, cli_statements, upsert_cli_chain, process_cli_release, CliAnswers, announce,
  updated_node_tag, synthetic_release, is_new_cli, poll_cli,
}
use cartesi_release_validati.Watcher.Catalogued.{then_call-keeps}

module _ (P : World → Type 0)
    (on_tables : (release : GithubRelease) (named : Named) (w : World)
      → transaction (cli_statements release named) w.tables
        ≡ some (effects (cli_statements release named) w.tables)
      → P w
      → P (record w { tables = effects (cli_statements release named) w.tables }))
    (on_event : (event : ReleaseEvent) (w : World)
      → P w
      → P (record w { published = event ∷ w.published })) where
  commit-keeps :
      (b : Bool) (release : GithubRelease) (named : Named) (w : World)
      → P w
      → P (commit b (transaction (cli_statements release named) w.tables) w).world
  commit-keeps b release named w h =
      of_end b (transaction (cli_statements release named) w.tables) refl
    where
      of_end :
          (b : Bool) (end : Option Tables)
          → transaction (cli_statements release named) w.tables ≡ end
          → P (commit b end w).world
      of_end b none e = h
      of_end false (some u) e = h
      of_end true (some u) e =
          rw (← transaction-effects (cli_statements release named) w.tables u e) (
            on_tables release named w
              (e ∙ ap some (sym (transaction-effects (cli_statements release named) w.tables u e)))
              h)

  pub announce-keeps :
      (b : Bool) (release : GithubRelease) (node_tag : Option String) (w : World)
      → P w
      → P (announce b release node_tag w).world
  announce-keeps b release none w h = h
  announce-keeps b release (some node) w h = of_test (is_listed node w.run_tags) b
    where
      of_test :
          (c d : Bool)
          → P
              (if c
                then done w
                else publish_release_event d (synthetic_release release node) [] w).world
      of_test true d = h
      of_test false true = on_event (event_of (synthetic_release release node) []) w h
      of_test false false = h

  pub process_cli_release-keeps :
      (a : CliAnswers) (release : GithubRelease) (w : World)
      → P w
      → P (process_cli_release a release w).world
  unfolding process_cli_release upsert_cli_chain
  process_cli_release-keeps a release w h =
      let named = named_in (cut_body 5000 release.body) in
      let node_tag = updated_node_tag named.node_tag w.tables.releases in
      then_call-keeps P
        (commit a.commit_succeeds (transaction (cli_statements release named) w.tables) w)
        (announce a.publish_succeeds release node_tag)
        (commit-keeps a.commit_succeeds release named w h)
        (announce-keeps a.publish_succeeds release node_tag)

  pub poll_cli-keeps :
      (page : List (CliAnswers × GithubRelease)) (w : World) → P w → P (poll_cli page w).world
  unfolding poll_cli
  poll_cli-keeps [] w h = h
  poll_cli-keeps ((a, release) ∷ rest) w h =
      then_call-keeps P (if is_new_cli release w then process_cli_release a release w else done w)
        (poll_cli rest) (of_test (is_new_cli release w)) (poll_cli-keeps rest)
    where
      of_test : (b : Bool) → P (if b then process_cli_release a release w else done w).world
      of_test true = process_cli_release-keeps a release w h
      of_test false = h
