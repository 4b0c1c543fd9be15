-- ===== src/ReleaseRoutes/Toolchain/Replies.antt =====
-- PATCH /releases/{tag}/toolchain: that it answers with the release's row.
use cartesi_release_validati.Prelude.{
  ◌≡◌, refl, ap, ◌≢◌, arith, ◌∙◌, String, Option, none, some, eq_refl, lookup,
}
use cartesi_release_validati.Releases as R
use cartesi_release_validati.Catalog.{Tables, ReleaseRow, catalogs_of, effect}
use cartesi_release_validati.Catalog.References.{lookup-update, mapped, lookup-map_values}
use cartesi_release_validati.Catalog.Keys.{WellFormed}
use cartesi_release_validati.Catalog.Transactions.{effects}
use cartesi_release_validati.ReleaseRoutes.{success}
use cartesi_release_validati.ReleaseRoutes.Toolchain.{
  ToolchainUpdate, Tags, current_tags, new_tags, toolchain_statements, update_toolchain, row_reply,
}
use cartesi_release_validati.ReleaseRoutes.Toolchain.Updates.{
  IsDevnetGiven, new_tags-Writable, toolchain-ends,
}

catalog_row-found :
    (catalogs : R.Catalogs) (tag : String) (rc : R.ReleaseRow)
    → lookup tag catalogs.releases ≡ some rc
    → R.catalog_row catalogs tag ≢ none
unfolding R.catalog_row
catalog_row-found catalogs tag rc h e = ground (arith, h, e)

row_reply-success :
    (catalogs : R.Catalogs) (tag : String) (rc : R.ReleaseRow)
    → lookup tag catalogs.releases ≡ some rc
    → (v : R.CatalogRow) × (row_reply (R.catalog_row catalogs tag) ≡ success v)
row_reply-success catalogs tag rc h = of_row (R.catalog_row catalogs tag) refl
  where
    of_row :
        (o : Option R.CatalogRow)
        → R.catalog_row catalogs tag ≡ o
        → (v : R.CatalogRow) × (row_reply o ≡ success v)
    of_row none e = elim (catalog_row-found catalogs tag rc h e) [ ]
    of_row (some v) e = (v, refl)

final-release :
    (tag : String) (new : Tags) (row : ReleaseRow) (t : Tables)
    → lookup tag t.releases ≡ some row
    → lookup tag (effects (toolchain_statements tag new) t).releases
      ≡ some (record row { cli_tag = new.cli_tag })
unfolding toolchain_statements effect
final-release tag new row t h =
    rw
      (
        lookup-update tag tag (λ row. record row { cli_tag = new.cli_tag }) t.releases,
        eq_refl tag,
        h,
      )
      refl

released :
    (u : Tables) (tag : String) (row : ReleaseRow)
    → lookup tag u.releases ≡ some row
    → (v : R.CatalogRow) × (row_reply (R.catalog_row (catalogs_of u) tag) ≡ success v)
released u tag row h = row_reply-success (catalogs_of u) tag _ (
    lookup-map_values
      (λ row. record { cli_tag = row.cli_tag; node_major_version = row.node_major_version }) tag
      u.releases
    ∙ ap
        (mapped
          (λ row. record { cli_tag = row.cli_tag; node_major_version = row.node_major_version }))
        h)

pub update_toolchain-succeeds :
    (tag : String) (payload : ToolchainUpdate) (row : ReleaseRow) (t : Tables)
    → WellFormed t
    → lookup tag t.releases ≡ some row
    → IsDevnetGiven payload.devnet_version
    → (v : R.CatalogRow) × ((update_toolchain tag payload t).0 ≡ success v)
unfolding update_toolchain
update_toolchain-succeeds tag payload row t h l d =
    let new = new_tags payload (current_tags row.cli_tag t) in
    let u = effects (toolchain_statements tag new) t in
    let (v, answered) = released u tag _ (final-release tag new row t l) in
    (v, rw (l, toolchain-ends tag new t (new_tags-Writable payload row tag t h l d)) answered)
