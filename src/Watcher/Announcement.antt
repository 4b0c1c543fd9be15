-- ===== src/Watcher/Announcement.antt =====
-- What the watcher of the CLI's releases announces, read by the consumer of the orchestrator: the
-- version chain of the release has the CLI, and the SDK that the CLI's notes name.
use cartesi_release_validati.Prelude.{
  ◌≡◌, refl, ap, ◌∙◌, true, false, String, Option, none, some, List, [], ◌∷◌, arith, eq_refl,
  lookup,
}
use cartesi_release_validati.Text.{or_else, is_empty, ℤ, truthy}
use cartesi_release_validati.Releases as R
use cartesi_release_validati.Catalog.{
  Tables, Meta, ReleaseRow, CliRow, upserted, upsert_tag, catalogs_of, effect, cli_change,
  derive_channel,
}
use cartesi_release_validati.Catalog.References.{lookup-update, lookup-upsert}
use cartesi_release_validati.Catalog.Transactions.{effects}
use cartesi_release_validati.Watcher.{
  GithubRelease, World, done, cut_body, described, fresh_row, details_of, event_of, is_listed,
}
use cartesi_release_validati.Catalog.References.{mapped, lookup-map_values}
use cartesi_release_validati.Watcher.Toolchain.{
  Named, named_in, cli_statements, upsert_cli_chain, process_cli_release, CliAnswers, lacks_cli,
  synthetic_release,
}
use cartesi_release_validati.Watcher.Catalogued.{IsNamed, cli-ends}
use cartesi_release_validati.Watcher.Backfill.{filled, cli_statements-releases, backfill-clis}

-- What the consumer takes for a release whose CLI is in the catalog.
image_and_chain-versions :
    (catalogs : R.Catalogs) (tag cli : String) (major : Option ℤ) (sdk devnet : Option String)
    → lookup tag catalogs.releases
      ≡ some (record { cli_tag = some cli; node_major_version = major })
    → lookup cli catalogs.clis ≡ some (record { sdk_tag = sdk; devnet_tag = devnet })
    → ((R.image_and_chain catalogs tag).0 ≡ R.catalog_image_tag tag major sdk)
      × (((R.image_and_chain catalogs tag).1.cli_version ≡ R.ltrim_v (some cli))
          × ((R.image_and_chain catalogs tag).1.sdk_version ≡ R.ltrim_v sdk))
unfolding R.image_and_chain R.catalog_row
image_and_chain-versions catalogs tag cli major sdk devnet h k =
    (ground arith, (ground arith, ground arith))

-- The row of the CLI that its release leaves.
abbrev cli_row : GithubRelease → Named → Tables → CliRow
cli_row release named t =
    let channel = derive_channel release.tag_name in
    upserted (lookup release.tag_name t.clis)
      (record {
        sdk_tag = named.sdk_tag;
        devnet_tag = named.devnet_tag;
        meta = fresh_row channel (details_of release) release.tag_name;
      })
      (cli_change named.sdk_tag named.devnet_tag (described channel (details_of release)))

upsert_tag-found :
    {V : Type 0} (tag : String) (fresh : String → V) (change : V → V) (m : List (String × V))
    → is_empty tag ≡ false
    → lookup tag (upsert_tag (truthy (some tag)) fresh change m)
      ≡ some (upserted (lookup tag m) (fresh tag) change)
upsert_tag-found tag fresh change m h =
    rw (h, lookup-upsert tag tag (fresh tag) change m, eq_refl tag) refl

lookup-cli_statements :
    (release : GithubRelease) (named : Named) (t : Tables)
    → IsNamed release
    → lookup release.tag_name (effects (cli_statements release named) t).clis
      ≡ some (cli_row release named t)
unfolding cli_statements effect
lookup-cli_statements release named t h =
    let channel = derive_channel release.tag_name in
    ap (lookup release.tag_name) (backfill-clis named.node_tag release.tag_name _)
    ∙ upsert_tag-found release.tag_name
        (λ k. record {
          sdk_tag = named.sdk_tag;
          devnet_tag = named.devnet_tag;
          meta = fresh_row channel (details_of release) k;
        })
        (cli_change named.sdk_tag named.devnet_tag (described channel (details_of release))) t.clis
        h

filled-found :
    (node cli : String) (major : Option ℤ) (meta : Meta) (rows : List (String × ReleaseRow))
    → lookup node rows ≡ some (record { cli_tag = none; node_major_version = major; meta = meta })
    → lookup node (filled (some node) cli rows)
      ≡ some (record { cli_tag = some cli; node_major_version = major; meta = meta })
filled-found node cli major meta rows h =
    rw
      (
        lookup-update node node (λ row. record row { cli_tag = or_else row.cli_tag (some cli) })
            rows,
        eq_refl node,
        h,
      )
      refl

process_cli_release-ends :
    (a : CliAnswers) (release : GithubRelease) (w : World) (node : String)
    → IsNamed release
    → a.commit_succeeds ≡ true
    → a.publish_succeeds ≡ true
    → (named_in (cut_body 5000 release.body)).node_tag ≡ some node
    → lacks_cli (lookup node w.tables.releases) ≡ true
    → is_listed node w.run_tags ≡ false
    → process_cli_release a release w
      ≡ done (record w {
        tables = effects (cli_statements release (named_in (cut_body 5000 release.body))) w.tables;
        published = event_of (synthetic_release release node) [] ∷ w.published;
      })
unfolding process_cli_release upsert_cli_chain
process_cli_release-ends a release w node n c p e l r =
    rw (cli-ends release (cut_body 5000 release.body) w.tables n, c, e, l, r, p) refl

-- What the consumer takes for the release that was filled in.
chain_after :
    (release : GithubRelease) (named : Named) (t : Tables) (node : String)
    → (major : Option ℤ) (meta : Meta) → IsNamed release
    → lookup release.tag_name t.clis ≡ none
    → named.node_tag ≡ some node
    → lookup node t.releases
      ≡ some (record { cli_tag = none; node_major_version = major; meta = meta })
    → let taken = R.image_and_chain (catalogs_of (effects (cli_statements release named) t)) node in
      (taken.0 ≡ R.catalog_image_tag node major named.sdk_tag)
      × ((taken.1.cli_version ≡ R.ltrim_v (some release.tag_name))
          × (taken.1.sdk_version ≡ R.ltrim_v named.sdk_tag))
chain_after release named t node major meta n new e l =
    let after = effects (cli_statements release named) t in
    image_and_chain-versions (catalogs_of after) node release.tag_name major named.sdk_tag
      named.devnet_tag
      (lookup-map_values
          (λ row. record { cli_tag = row.cli_tag; node_major_version = row.node_major_version })
          node after.releases
        ∙ ap
            (mapped (λ row. record {
              cli_tag = row.cli_tag;
              node_major_version = row.node_major_version;
            }))
            in_releases)
      (lookup-map_values (λ row. record { sdk_tag = row.sdk_tag; devnet_tag = row.devnet_tag })
          release.tag_name after.clis
        ∙ ap (mapped (λ row. record { sdk_tag = row.sdk_tag; devnet_tag = row.devnet_tag }))
            in_clis)
  where
    in_releases :
        lookup node (effects (cli_statements release named) t).releases
        ≡ some (record { cli_tag = some release.tag_name; node_major_version = major; meta = meta })
    in_releases =
        rw (cli_statements-releases release named t, e)
          (filled-found node release.tag_name major meta t.releases l)

    in_clis :
        lookup release.tag_name (effects (cli_statements release named) t).clis
        ≡ some (record {
          sdk_tag = named.sdk_tag;
          devnet_tag = named.devnet_tag;
          meta = fresh_row (derive_channel release.tag_name) (details_of release) release.tag_name;
        })
    in_clis =
        lookup-cli_statements release named t n
        ∙ ap
            (λ row. some (
              upserted row
                (record {
                  sdk_tag = named.sdk_tag;
                  devnet_tag = named.devnet_tag;
                  meta =
                      fresh_row (derive_channel release.tag_name) (details_of release)
                        release.tag_name;
                })
                (cli_change named.sdk_tag named.devnet_tag
                  (described (derive_channel release.tag_name) (details_of release)))))
            new

-- If a CLI release has a tag that is not in the catalog yet, its notes name a node release that
-- is in the catalog without a CLI and has had no run, and the commit and the publication succeed,
-- then `process_cli_release` publishes the event of that node release, and for it the
-- orchestrator's consumer finds the version of this CLI, the SDK that the notes name, and the
-- image that belongs to that SDK.
pub process_cli_release-announces :
    (a : CliAnswers) (release : GithubRelease) (w : World) (node : String)
    → (major : Option ℤ) (meta : Meta) → IsNamed release
    → a.commit_succeeds ≡ true
    → a.publish_succeeds ≡ true
    → lookup release.tag_name w.tables.clis ≡ none
    → (named_in (cut_body 5000 release.body)).node_tag ≡ some node
    → lookup node w.tables.releases
      ≡ some (record { cli_tag = none; node_major_version = major; meta = meta })
    → is_listed node w.run_tags ≡ false
    → let after = (process_cli_release a release w).world in
      let taken = R.image_and_chain (catalogs_of after.tables) node in
      let sdk_tag = (named_in (cut_body 5000 release.body)).sdk_tag in
      (after.published ≡ event_of (synthetic_release release node) [] ∷ w.published)
      × ((taken.0 ≡ R.catalog_image_tag node major sdk_tag)
          × ((taken.1.cli_version ≡ R.ltrim_v (some release.tag_name))
              × (taken.1.sdk_version ≡ R.ltrim_v sdk_tag)))
process_cli_release-announces a release w node major meta n c p new e l r =
    rw (process_cli_release-ends a release w node n c p e (ap lacks_cli l) r) (
      refl,
      chain_after release (named_in (cut_body 5000 release.body)) w.tables node major meta n new e
          l,
    )
