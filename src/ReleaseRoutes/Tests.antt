-- ===== src/ReleaseRoutes/Tests.antt =====
-- Requests to the routes of the catalog, and instances of their theorems.
use cartesi_release_validati.Prelude.{
  ◌≡◌, refl, true, String, none, some, List, [], ◌∷◌, lookup, none≢some,
}
use cartesi_release_validati.Text.{pos, lstrip}
use cartesi_release_validati.Catalog.{
  Meta, CliRow, ReleaseRow, Tables, labelled, do_nothing, Statement, insert_sdk, insert_devnet,
  insert_cli, insert_release, transaction, is_allowed, effect, upsert,
}
use cartesi_release_validati.Catalog.Keys.{WellFormed, transaction-WellFormed}
use cartesi_release_validati.Watcher.{GithubRelease, World, done, Response, answers}
use cartesi_release_validati.Watcher.Toolchain.{poll_cli}
use cartesi_release_validati.ReleaseRoutes.{fetch_releases, sync_cli_from_github}
use cartesi_release_validati.Releases as R
use cartesi_release_validati.ReleaseRoutes.{fetch_releases}
use cartesi_release_validati.ReleaseRoutes.Toolchain.{
  ToolchainUpdate, sdk_of_row, devnet_of_row, update_toolchain, vtag,
}
use cartesi_release_validati.ReleaseRoutes.Toolchain.Links.{
  asked, missing, only_cli, cli_tag_of, update_toolchain-links, update_toolchain-overwrites,
}
use cartesi_release_validati.ReleaseRoutes.Preempts.{poll_cli-after_sync}

abbrev alpha : String → Meta
alpha k = labelled k "alpha"

abbrev row : ReleaseRow
row = record {
  cli_tag = some "v2.0.0-alpha.34";
  node_major_version = some (pos 2);
  meta = alpha "v2.0.0-alpha.11";
}

abbrev cli : String → String → CliRow
cli tag sdk = record { sdk_tag = some sdk; devnet_tag = some "2.2.0"; meta = alpha tag }

-- Two CLIs, the second of which no release has.
abbrev tables : Tables
tables = record {
  sdks =
      ("v0.12.0-alpha.39", alpha "v0.12.0-alpha.39")
      ∷ ("v0.12.0-alpha.40", alpha "v0.12.0-alpha.40")
      ∷ [];
  contracts = [];
  devnets = ("2.2.0", record { contracts_tag = none; meta = alpha "2.2.0" }) ∷ [];
  clis =
      ("v2.0.0-alpha.34", cli "v2.0.0-alpha.34" "v0.12.0-alpha.39")
      ∷ ("v2.0.0-alpha.35", cli "v2.0.0-alpha.35" "v0.12.0-alpha.40")
      ∷ [];
  releases = ("v2.0.0-alpha.11", row) ∷ [];
}

abbrev no_rows : Tables
no_rows = record { sdks = []; contracts = []; devnets = []; clis = []; releases = [] }

no_rows-WellFormed : WellFormed no_rows
no_rows-WellFormed = record {
  contracts_of_devnets = λ k v e. elim (none≢some e) [ ];
  sdk_of_clis = λ k v e. elim (none≢some e) [ ];
  devnet_of_clis = λ k v e. elim (none≢some e) [ ];
  cli_of_releases = λ k v e. elim (none≢some e) [ ];
}

-- The statements that write the tables.
abbrev seeding : List Statement
seeding =
    insert_sdk (some "v0.12.0-alpha.39") alpha do_nothing
    ∷ insert_sdk (some "v0.12.0-alpha.40") alpha do_nothing
    ∷ insert_devnet (some "2.2.0") none alpha
    ∷ insert_cli (some "v2.0.0-alpha.34") (some "v0.12.0-alpha.39") (some "2.2.0") alpha do_nothing
    ∷ insert_cli (some "v2.0.0-alpha.35") (some "v0.12.0-alpha.40") (some "2.2.0") alpha do_nothing
    ∷ insert_release "v2.0.0-alpha.11" (some "v2.0.0-alpha.34") (pos 2) (alpha "v2.0.0-alpha.11")
        do_nothing
    ∷ []

tables-WellFormed : WellFormed tables
unfolding transaction is_allowed effect upsert
tables-WellFormed = transaction-WellFormed seeding no_rows tables refl no_rows-WellFormed

abbrev cli_release : GithubRelease
cli_release = record {
  tag_name = "v2.0.0-alpha.36";
  name = none;
  body = some "rollups-node 2.0.0-alpha.12";
  html_url = none;
  published_at = none;
  author_login = none;
  download_counts = [];
}

abbrev page : Response (List GithubRelease)
page = answers 200 none (cli_release ∷ [])

abbrev cli_and_sdk : ToolchainUpdate
cli_and_sdk = record {
  cli_version = some "2.0.0-alpha.35";
  sdk_version = some "v0.12.0-alpha.41";
  devnet_version = none;
  contracts_version = none;
}

-- The release gets the CLI and that CLI the SDK, as asked, and the devnet of the first.
update_toolchain-links_example :
    let after = (update_toolchain "v2.0.0-alpha.11" cli_and_sdk tables).1 in
    (cli_tag_of (lookup "v2.0.0-alpha.11" after.releases) ≡ some "v2.0.0-alpha.35")
    × ((sdk_of_row (lookup "v2.0.0-alpha.35" after.clis) ≡ some "v0.12.0-alpha.41")
        × (devnet_of_row (lookup "v2.0.0-alpha.35" after.clis) ≡ some "2.2.0"))
unfolding lstrip
update_toolchain-links_example =
    update_toolchain-links "v2.0.0-alpha.11" "v2.0.0-alpha.35" (some "v0.12.0-alpha.41")
      (some "2.2.0") cli_and_sdk row tables tables-WellFormed refl (λ x n. elim (none≢some n) [ ])
      refl (asked refl) (asked refl) missing

update_toolchain-overwrites_example :
    let after = (update_toolchain "v2.0.0-alpha.11" (only_cli "2.0.0-alpha.35") tables).1 in
    (sdk_of_row (lookup "v2.0.0-alpha.35" after.clis) ≡ some "v0.12.0-alpha.39")
    × (devnet_of_row (lookup "v2.0.0-alpha.35" after.clis) ≡ some "2.2.0")
unfolding vtag lstrip
update_toolchain-overwrites_example =
    update_toolchain-overwrites "v2.0.0-alpha.11" "2.0.0-alpha.35" "v2.0.0-alpha.34"
      "v2.0.0-alpha.35" "v0.12.0-alpha.39" "2.2.0" row tables tables-WellFormed refl refl refl refl
      refl refl

abbrev synced : World
synced = record {
  releases = [];
  run_tags = [];
  tables = (sync_cli_from_github page tables).1;
  published = [];
  known = record { sdk = []; cli = []; devnet = []; contracts = [] };
}

poll_cli-after_sync_example :
    poll_cli ((record { commit_succeeds = true; publish_succeeds = true }, cli_release) ∷ []) synced
    ≡ done synced
unfolding fetch_releases
poll_cli-after_sync_example =
    poll_cli-after_sync page (cli_release ∷ []) tables
      ((record { commit_succeeds = true; publish_succeeds = true }, cli_release) ∷ []) synced refl
      refl refl
