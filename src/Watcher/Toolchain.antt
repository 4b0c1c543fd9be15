-- ===== src/Watcher/Toolchain.antt =====
-- services/github-watcher/poller.py: the watcher of the CLI's releases, which writes the chain of a CLI
-- and fills in the toolchain of the node release that the CLI's notes name, and the watcher of the
-- contracts' releases.
use cartesi_release_validati.Prelude.{
  Bool, true, false, not, ◌&&◌, String, Option, none, some, List, [], ◌∷◌, ◌++◌, if◌then◌else◌,
  lookup, has_key,
}
use Prim.Native.Char.{Char}
use cartesi_release_validati.Text.{
  chars, text, is_some, is_empty, strip, lstrip, before, ℤ, int_of, Pattern, seq, either, search,
}
use cartesi_release_validati.Versions.{
  version, node_bump, devnet_in_body, contracts_in_body, sdk_package, sdk_runtime, sdk_database,
  optional_v, at_least_two,
}
use cartesi_release_validati.Versions.Resolve.{as_text}
use cartesi_release_validati.Catalog.{
  ReleaseRow, labelled, do_nothing, Statement, insert_sdk, insert_contracts, insert_devnet,
  insert_cli, fill_cli_tag, transaction, derive_channel,
}
use cartesi_release_validati.Watcher.{
  GithubRelease, World, Outcome, done, then_call, is_listed, cut_body, or_default,
  publish_release_event, details_of, described, fresh_row, commit, Response, get_latest_release,
  fetch_cli_releases,
}

-- _SDK_IN_BODY_RE.
abbrev pub sdk_in_body : Pattern
sdk_in_body = seq (either sdk_package (either sdk_runtime sdk_database)) optional_v

-- What the notes of a CLI release name.
pub record Named : Type 0 where
  pub sdk_tag : Option String
  pub devnet_tag : Option String
  pub contracts_tag : Option String
  pub node_tag : Option String

abbrev pub v_group : Option (List Char) → Option String
v_group none = none
v_group (some s) = some (text (chars "v" ++ s))

unfoldable pub named_in : List Char → Named
named_in body = record {
  sdk_tag = v_group (search sdk_in_body version body);
  devnet_tag = as_text (search devnet_in_body version body);
  contracts_tag = v_group (search contracts_in_body version body);
  node_tag = v_group (search node_bump version body);
}

-- The backfill, if the notes name a node release.
abbrev pub backfill : Option String → String → List Statement
backfill none cli_tag = []
backfill (some node_tag) cli_tag = fill_cli_tag node_tag cli_tag ∷ []

-- The statements of `_upsert_cli_chain`. A CLI release that has no tag is not processed.
unfoldable pub cli_statements : GithubRelease → Named → List Statement
cli_statements release named =
    let tag = release.tag_name in
    let channel = derive_channel tag in
    insert_sdk named.sdk_tag (λ k. labelled k channel) do_nothing
    ∷ insert_contracts named.contracts_tag (λ k. labelled k channel) do_nothing
    ∷ insert_devnet named.devnet_tag named.contracts_tag (λ k. labelled k channel)
    ∷ insert_cli (some tag) named.sdk_tag named.devnet_tag (fresh_row channel (details_of release))
        (described channel (details_of release))
    ∷ backfill named.node_tag tag

-- `RETURNING tag` of the backfill: the node release is in the catalog without a CLI.
abbrev pub lacks_cli : Option ReleaseRow → Bool
lacks_cli none = false
lacks_cli (some row) = not (is_some row.cli_tag)

abbrev pub updated_node_tag : Option String → List (String × ReleaseRow) → Option String
updated_node_tag none rows = none
updated_node_tag (some node_tag) rows =
    if lacks_cli (lookup node_tag rows) then some node_tag else none

-- `_upsert_cli_chain` and what it returns.
unfoldable pub upsert_cli_chain : Bool → GithubRelease → World → Outcome × Option String
upsert_cli_chain commit_succeeds release w =
    let named = named_in (cut_body 5000 release.body) in
    (
      commit commit_succeeds (transaction (cli_statements release named) w.tables) w,
      updated_node_tag named.node_tag w.tables.releases,
    )

unfoldable pub synthetic_release : GithubRelease → String → GithubRelease
synthetic_release release node_tag = record {
  tag_name = node_tag;
  name = some node_tag;
  body = some (text (chars "Toolchain resolved via CLI release " ++ chars release.tag_name));
  html_url = some (or_default release.html_url "");
  published_at = none;
  author_login = none;
  download_counts = [];
}

-- The end of `process_cli_release`: the event for a node release that no run has had.
abbrev pub announce : Bool → GithubRelease → Option String → World → Outcome
announce publish_succeeds release none w = done w
announce publish_succeeds release (some node_tag) w =
    if is_listed node_tag w.run_tags
    then done w
    else publish_release_event publish_succeeds (synthetic_release release node_tag) [] w

-- Whether the transaction's commit and the publication succeed.
pub record CliAnswers : Type 0 where
  pub commit_succeeds : Bool
  pub publish_succeeds : Bool

unfoldable pub process_cli_release : CliAnswers → GithubRelease → World → Outcome
process_cli_release a release w =
    let (chain, node_tag) = upsert_cli_chain a.commit_succeeds release w in
    then_call chain (λ w. announce a.publish_succeeds release node_tag w)

-- `int(tag.lstrip("v").split(".")[0]) >= 2`, where `int` does not raise.
abbrev pub at_least_two_of : Option ℤ → Bool
at_least_two_of none = false
at_least_two_of (some major) = at_least_two major

unfoldable pub is_cli_tag : String → Bool
is_cli_tag tag = at_least_two_of (int_of (before 46 (lstrip 118 (chars tag))))

-- The loop of `_poll_cli_once`.
unfoldable pub stripped : GithubRelease → String
stripped release = text (strip (chars release.tag_name))

unfoldable pub is_new_cli : GithubRelease → World → Bool
is_new_cli release w =
    let tag = stripped release in
    not (is_empty tag) && is_cli_tag tag && not (has_key tag w.tables.clis)

unfoldable pub poll_cli : List (CliAnswers × GithubRelease) → World → Outcome
poll_cli [] w = done w
poll_cli ((a, release) ∷ rest) w =
    then_call (if is_new_cli release w then process_cli_release a release w else done w)
      (λ w. poll_cli rest w)

unfoldable pub poll_cli_once : Response (List (CliAnswers × GithubRelease)) → World → Outcome
poll_cli_once response w = poll_cli (fetch_cli_releases response) w

-- `_upsert_contracts_catalog`, which sets no label and leaves the one that is there.
unfoldable pub contracts_statements : GithubRelease → List Statement
contracts_statements release =
    let channel = derive_channel release.tag_name in
    insert_contracts (some release.tag_name)
      (λ k. record {
        channel = channel;
        label = none;
        is_active = true;
        details = details_of release;
      })
      (λ meta. record meta { channel = channel; is_active = true; details = details_of release })
    ∷ []

-- `_poll_contracts_once`.
abbrev pub poll_contracts : Bool → Option GithubRelease → World → Outcome
poll_contracts commit_succeeds none w = done w
poll_contracts commit_succeeds (some release) w =
    if has_key release.tag_name w.tables.contracts
    then done w
    else commit commit_succeeds (transaction (contracts_statements release) w.tables) w

unfoldable pub poll_contracts_once : Bool → Response GithubRelease → World → Outcome
poll_contracts_once commit_succeeds response w =
    poll_contracts commit_succeeds (get_latest_release response) w
