-- ===== src/Watcher/Completion.antt =====
-- A round of `run_poller` in which the services answer ends without an exception: no statement of it
-- breaks a foreign key.
use cartesi_release_validati.Prelude.{
  ◌≡◌, refl, Bool, true, false, not, ◌&&◌, String, Option, none, some, List, [], ◌∷◌, arith,
  if◌then◌else◌, All, has_key,
}
use Prim.Native.String.{[] as nil, ◌∷◌ as ◌∷ᶜ◌}
use cartesi_release_validati.Text.{chars, text, is_some, is_empty, strip}
use cartesi_release_validati.Catalog.{Tables, transaction, is_allowed}
use cartesi_release_validati.Catalog.Transactions.{effects, transaction-AllAllowed}
use cartesi_release_validati.Watcher.{
  Answers, GithubRelease, World, Outcome, done, then_call, node_statements, upsert_node_catalog,
  resolved_versions, commit, cut_body, insert_release_row, process_release, publish_release_event,
  is_listed, poll_node, poll_node_once, get_latest_release, fetch_cli_releases,
}
use cartesi_release_validati.Watcher.Toolchain.{
  named_in, cli_statements, upsert_cli_chain, process_cli_release, CliAnswers, announce,
  updated_node_tag, synthetic_release, stripped, is_new_cli, is_cli_tag, poll_cli, poll_cli_once,
  contracts_statements, poll_contracts, poll_contracts_once,
}
use cartesi_release_validati.Watcher.Rounds.{Round, attempt}
use cartesi_release_validati.Watcher.Catalogued.{IsNamed, node-ends, cli-ends, then_call-completes}

-- Every service answers, and the node release has the date that GitHub gives a release.
abbrev NodeAnswers : Answers → Option GithubRelease → Type 0
NodeAnswers a none = Unit
NodeAnswers a (some release) =
    (a.insert_succeeds ≡ true)
    × ((a.commit_succeeds ≡ true)
        × ((a.publish_succeeds ≡ true) × (is_some release.published_at ≡ true)))

abbrev CliSucceeds : CliAnswers × GithubRelease → Type 0
CliSucceeds (a, release) = (a.commit_succeeds ≡ true) × (a.publish_succeeds ≡ true)

pub record Succeeds (r : Round) : Type 0 where
  pub node : NodeAnswers r.node_answers (get_latest_release r.node)
  pub clis : All CliSucceeds (fetch_cli_releases r.cli)
  pub contracts : r.contracts_commits ≡ true

commit-completes :
    (b : Bool) (end : Option Tables) (t : Tables) (w : World)
    → b ≡ true
    → end ≡ some t
    → (commit b end w).raised ≡ false
commit-completes b end t w h e = rw (h, e) refl

publish-completes :
    (b : Bool) (release : GithubRelease) (prs : List String) (w : World)
    → b ≡ true
    → (publish_release_event b release prs w).raised ≡ false
publish-completes b release prs w h = rw h refl

unless-completes :
    (b : Bool) (o : Outcome) (w : World)
    → o.raised ≡ false
    → (if b then done w else o).raised ≡ false
unless-completes true o w h = refl
unless-completes false o w h = h

insert_release_row-completes :
    (b : Bool) (release : GithubRelease) (w : World)
    → b ≡ true
    → is_some release.published_at ≡ true
    → (insert_release_row b release w).raised ≡ false
unfolding insert_release_row
insert_release_row-completes b release w h d = rw (h, d) refl

upsert_node_catalog-completes :
    (a : Answers) (release : GithubRelease) (w : World)
    → a.commit_succeeds ≡ true
    → (upsert_node_catalog a release w).raised ≡ false
unfolding upsert_node_catalog
upsert_node_catalog-completes a release w h =
    let (found, known) = resolved_versions a.page release.tag_name w.known in
    let ss = node_statements release found in
    commit-completes a.commit_succeeds (transaction ss w.tables) (effects ss w.tables)
      (record w { known = known }) h (node-ends release found w.tables)

poll_node-completes :
    (a : Answers) (latest : Option GithubRelease) (w : World)
    → NodeAnswers a latest
    → (poll_node a latest w).raised ≡ false
unfolding process_release
poll_node-completes a none w h = refl
poll_node-completes a (some release) w (i, (c, (p, d))) =
    let first = insert_release_row a.insert_succeeds release w in
    let second = upsert_node_catalog a release first.world in
    unless-completes (is_listed release.tag_name w.releases) (process_release a release w) w (
      then_call-completes first
        (λ w.
          then_call (upsert_node_catalog a release w)
            (λ w. publish_release_event a.publish_succeeds release a.prs w))
        (insert_release_row-completes a.insert_succeeds release w i d)
        (then_call-completes second (λ w. publish_release_event a.publish_succeeds release a.prs w)
          (upsert_node_catalog-completes a release first.world c)
          (publish-completes a.publish_succeeds release a.prs second.world p)))

announce-completes :
    (b : Bool) (release : GithubRelease) (node_tag : Option String) (w : World)
    → b ≡ true
    → (announce b release node_tag w).raised ≡ false
announce-completes b release none w h = refl
announce-completes b release (some tag) w h =
    unless-completes (is_listed tag w.run_tags)
      (publish_release_event b (synthetic_release release tag) [] w) w
      (publish-completes b (synthetic_release release tag) [] w h)

pub process_cli_release-completes :
    (a : CliAnswers) (release : GithubRelease) (w : World)
    → IsNamed release
    → CliSucceeds (a, release)
    → (process_cli_release a release w).raised ≡ false
unfolding process_cli_release upsert_cli_chain
process_cli_release-completes a release w n (c, p) =
    let body = cut_body 5000 release.body in
    let named = named_in body in
    let ss = cli_statements release named in
    let node_tag = updated_node_tag named.node_tag w.tables.releases in
    let first = commit a.commit_succeeds (transaction ss w.tables) w in
    then_call-completes first (announce a.publish_succeeds release node_tag)
      (commit-completes a.commit_succeeds (transaction ss w.tables) (effects ss w.tables) w c
        (cli-ends release body w.tables n))
      (announce-completes a.publish_succeeds release node_tag first.world p)

nothing_stripped :
    (tag : String) → is_empty (text (strip (chars tag))) ≡ false → is_empty tag ≡ false
unfolding strip
nothing_stripped nil h = h
nothing_stripped (c ∷ᶜ s) h = refl

-- A release that the loop takes has a tag.
pub is_new_cli-IsNamed :
    (release : GithubRelease) (w : World) → is_new_cli release w ≡ true → IsNamed release
unfolding is_new_cli stripped
is_new_cli-IsNamed release w h = nothing_stripped release.tag_name (
    first (is_empty (stripped release)) (is_cli_tag (stripped release))
      (has_key (stripped release) w.tables.clis) h)
  where
    first : (a b c : Bool) → not a && b && not c ≡ true → a ≡ false
    first a b c h = ground arith

pub poll_cli-completes :
    (page : List (CliAnswers × GithubRelease)) (w : World)
    → All CliSucceeds page
    → (poll_cli page w).raised ≡ false
unfolding poll_cli
poll_cli-completes [] w h = refl
poll_cli-completes ((a, release) ∷ rest) w (h, hs) =
    let step = if is_new_cli release w then process_cli_release a release w else done w in
    then_call-completes step (poll_cli rest) (of_test (is_new_cli release w) refl)
      (poll_cli-completes rest step.world hs)
  where
    of_test :
        (b : Bool)
        → is_new_cli release w ≡ b
        → (if b then process_cli_release a release w else done w).raised ≡ false
    of_test false e = refl
    of_test true e = process_cli_release-completes a release w (is_new_cli-IsNamed release w e) h

poll_contracts-completes :
    (b : Bool) (latest : Option GithubRelease) (w : World)
    → b ≡ true
    → (poll_contracts b latest w).raised ≡ false
unfolding contracts_statements is_allowed
poll_contracts-completes b none w h = refl
poll_contracts-completes b (some release) w h =
    let ss = contracts_statements release in
    unless-completes (has_key release.tag_name w.tables.contracts)
      (commit b (transaction ss w.tables) w) w
      (commit-completes b (transaction ss w.tables) (effects ss w.tables) w h
        (transaction-AllAllowed ss w.tables (refl, tt)))

-- A round in which the insertion, the commits and the publications succeed, and in which the node
-- release has its date, ends without an exception, whatever the tables and the notes are: no
-- statement of it breaks a foreign key.
pub attempt-completes :
    (cli_enabled : Bool) (r : Round) (w : World)
    → Succeeds r
    → (attempt cli_enabled r w).raised ≡ false
unfolding attempt poll_node_once poll_cli_once poll_contracts_once
attempt-completes cli_enabled r w h =
    let node = poll_node r.node_answers (get_latest_release r.node) w in
    let cli : World → Outcome =
      λ w. if cli_enabled then poll_cli (fetch_cli_releases r.cli) w else done w in
    let contracts : World → Outcome =
      λ w. poll_contracts r.contracts_commits (get_latest_release r.contracts) w in
    then_call-completes node (λ w. then_call (cli w) contracts)
      (poll_node-completes r.node_answers (get_latest_release r.node) w h.node)
      (then_call-completes (cli node.world) contracts (of_test cli_enabled node.world) (
        poll_contracts-completes r.contracts_commits (get_latest_release r.contracts)
          (cli node.world).world h.contracts))
  where
    of_test :
        (b : Bool) (w : World)
        → (if b then poll_cli (fetch_cli_releases r.cli) w else done w).raised ≡ false
    of_test true w = poll_cli-completes (fetch_cli_releases r.cli) w h.clis
    of_test false w = refl
