-- ===== src/Watcher/Backfill.antt =====
-- The backfill of the CLI's watcher: it sets a toolchain only where there was none, and the event that
-- it publishes is for a release whose toolchain the orchestrator's consumer finds.
use cartesi_release_validati.Prelude.{
  ◌≡◌, refl, inl, inr, String, Option, none, some, List, arith, eq_iff, str_eq, Bool-cases, lookup,
}
use cartesi_release_validati.Text.{or_else, ℤ}
use cartesi_release_validati.Catalog.{Tables, Meta, ReleaseRow, effect, update}
use cartesi_release_validati.Catalog.References.{lookup-update}
use cartesi_release_validati.Catalog.Transactions.{effects}
use cartesi_release_validati.Watcher.{GithubRelease, World, fetch_cli_releases, Response}
use cartesi_release_validati.Watcher.Toolchain.{
  Named, backfill, cli_statements, CliAnswers, poll_cli_once,
}
use cartesi_release_validati.Watcher.Keeping.{poll_cli-keeps}

-- The rows of the releases after a backfill.
abbrev pub filled : Option String → String → List (String × ReleaseRow) → List (String × ReleaseRow)
filled none cli_tag rows = rows
filled (some node_tag) cli_tag rows =
    update node_tag (λ row. record row { cli_tag = or_else row.cli_tag (some cli_tag) }) rows

backfill-releases :
    (node_tag : Option String) (cli_tag : String) (t : Tables)
    → (effects (backfill node_tag cli_tag) t).releases ≡ filled node_tag cli_tag t.releases
unfolding effect
backfill-releases none cli_tag t = refl
backfill-releases (some node) cli_tag t = refl

pub backfill-clis :
    (node_tag : Option String) (cli_tag : String) (t : Tables)
    → (effects (backfill node_tag cli_tag) t).clis ≡ t.clis
unfolding effect
backfill-clis none cli_tag t = refl
backfill-clis (some node) cli_tag t = refl

pub cli_statements-releases :
    (release : GithubRelease) (named : Named) (t : Tables)
    → (effects (cli_statements release named) t).releases
      ≡ filled named.node_tag release.tag_name t.releases
unfolding cli_statements effect
cli_statements-releases release named t = backfill-releases named.node_tag release.tag_name _

module _ (tag cli : String) (major : Option ℤ) (meta : Meta) where
  abbrev row_with_cli : ReleaseRow
  row_with_cli = record { cli_tag = some cli; node_major_version = major; meta = meta }

  abbrev HasRow : World → Type 0
  HasRow w = lookup tag w.tables.releases ≡ some row_with_cli

  filled-keeps :
      (node_tag : Option String) (cli_tag : String) (rows : List (String × ReleaseRow))
      → lookup tag rows ≡ some row_with_cli
      → lookup tag (filled node_tag cli_tag rows) ≡ some row_with_cli
  filled-keeps none cli_tag rows h = h
  filled-keeps (some node) cli_tag rows h = elim (Bool-cases (str_eq node tag)) [
    | inl y ↦
        let same : node ≡ tag = ground (arith, eq_iff node tag) in
        rw
          (
            lookup-update node tag
                (λ row. record row { cli_tag = or_else row.cli_tag (some cli_tag) }) rows,
            y,
            same,
            h,
          )
          refl
    | inr n ↦
        rw
          (
            lookup-update node tag
                (λ row. record row { cli_tag = or_else row.cli_tag (some cli_tag) }) rows,
            n,
          )
          h
  ]

cli_statements-keeps :
    (release : GithubRelease) (named : Named) (w : World)
    → (tag cli : String) (major : Option ℤ) (meta : Meta)
    → lookup tag w.tables.releases ≡ some (row_with_cli tag cli major meta)
    → lookup tag (effects (cli_statements release named) w.tables).releases
      ≡ some (row_with_cli tag cli major meta)
cli_statements-keeps release named w tag cli major meta h =
    rw (cli_statements-releases release named w.tables)
      (filled-keeps tag cli major meta named.node_tag release.tag_name w.tables.releases h)

-- The watcher of the CLI's releases leaves each release's row that has a CLI as it is, whatever
-- GitHub answers and whatever fails.
pub poll_cli_once-keeps_toolchain :
    (response : Response (List (CliAnswers × GithubRelease))) (w : World)
    → (tag cli : String) (major : Option ℤ) (meta : Meta)
    → lookup tag w.tables.releases
      ≡ some (record { cli_tag = some cli; node_major_version = major; meta = meta })
    → lookup tag (poll_cli_once response w).world.tables.releases
      ≡ some (record { cli_tag = some cli; node_major_version = major; meta = meta })
unfolding poll_cli_once
poll_cli_once-keeps_toolchain response w tag cli major meta h =
    poll_cli-keeps (λ w. lookup tag w.tables.releases ≡ some (row_with_cli tag cli major meta))
      (λ release named w e h. cli_statements-keeps release named w tag cli major meta h)
      (λ event w h. h) (fetch_cli_releases response) w h
