-- ===== src/Watcher/Stored.antt =====
-- The watcher of the CLI's releases keeps the tags of the catalog, and stores what it has processed.
use cartesi_release_validati.Prelude.{
  ◌≡◌, refl, inl, Bool, true, false, String, Option, none, some, List, arith, if◌then◌else◌,
  has_key,
}
use Prim.Native.Char.{Char}
use cartesi_release_validati.Text.{truthy}
use cartesi_release_validati.Catalog.{
  Tables, upsert_tag, transaction, effect, cli_change, derive_channel,
}
use cartesi_release_validati.Catalog.References.{upsert-grow}
use cartesi_release_validati.Catalog.Leaves.{refers-upsert_tag}
use cartesi_release_validati.Catalog.Transactions.{effects}
use cartesi_release_validati.Watcher.{
  GithubRelease, World, Outcome, then_call, commit, cut_body, described, fresh_row, details_of,
}
use cartesi_release_validati.Watcher.Toolchain.{
  Named, named_in, cli_statements, upsert_cli_chain, process_cli_release, CliAnswers, announce,
  updated_node_tag, poll_cli,
}
use cartesi_release_validati.Watcher.Catalogued.{IsNamed, named-IsTag, cli-ends}
use cartesi_release_validati.Watcher.Keeping.{announce-keeps, poll_cli-keeps}
use cartesi_release_validati.Watcher.Backfill.{backfill-clis}

cli_statements-clis :
    (release : GithubRelease) (named : Named) (t : Tables)
    → (effects (cli_statements release named) t).clis
      ≡ upsert_tag
          (truthy (some release.tag_name))
          (λ k. record {
            sdk_tag = named.sdk_tag;
            devnet_tag = named.devnet_tag;
            meta = fresh_row (derive_channel release.tag_name) (details_of release) k;
          })
          (cli_change named.sdk_tag named.devnet_tag
            (described (derive_channel release.tag_name) (details_of release)))
          t.clis
unfolding cli_statements effect
cli_statements-clis release named t = backfill-clis named.node_tag release.tag_name _

pub upsert_tag-keeps :
    {V : Type 0} (tag : Option String) (fresh : String → V) (change : V → V) (m : List (String × V))
    → (k : String) → has_key k m ≡ true
    → has_key k (upsert_tag tag fresh change m) ≡ true
upsert_tag-keeps none fresh change m k h = h
upsert_tag-keeps (some tag) fresh change m k h = upsert-grow tag (fresh tag) change m k h

module _ (k : String) where
  abbrev pub IsStored : World → Type 0
  IsStored w = has_key k w.tables.clis ≡ true

  cli_statements-IsStored :
      (release : GithubRelease) (named : Named) (w : World)
      → transaction (cli_statements release named) w.tables
        ≡ some (effects (cli_statements release named) w.tables)
      → IsStored w
      → has_key k (effects (cli_statements release named) w.tables).clis ≡ true
  cli_statements-IsStored release named w e h = rw (cli_statements-clis release named w.tables) (
      upsert_tag-keeps (truthy (some release.tag_name))
        (λ j. record {
          sdk_tag = named.sdk_tag;
          devnet_tag = named.devnet_tag;
          meta = fresh_row (derive_channel release.tag_name) (details_of release) j;
        })
        (cli_change named.sdk_tag named.devnet_tag
          (described (derive_channel release.tag_name) (details_of release)))
        w.tables.clis k h)

  pub poll_cli-IsStored :
      (page : List (CliAnswers × GithubRelease)) (w : World)
      → IsStored w
      → IsStored (poll_cli page w).world
  poll_cli-IsStored = poll_cli-keeps IsStored cli_statements-IsStored (λ event w h. h)

announce-IsStored :
    (k : String) (b : Bool) (release : GithubRelease) (node_tag : Option String) (w : World)
    → IsStored k w
    → IsStored k (announce b release node_tag w).world
announce-IsStored k = announce-keeps (IsStored k) (cli_statements-IsStored k) (λ event w h. h)

pub then_call-first :
    (o : Outcome) (next : World → Outcome)
    → (then_call o next).raised ≡ false
    → (o.raised ≡ false) × (then_call o next ≡ next o.world)
then_call-first o next h = of_test o.raised refl h
  where
    of_test :
        (b : Bool)
        → o.raised ≡ b
        → (if b then o else next o.world).raised ≡ false
        → (o.raised ≡ false) × ((if b then o else next o.world) ≡ next o.world)
    of_test true e h = ground arith
    of_test false e h = (e, refl)

commit-IsStored :
    (b : Bool) (release : GithubRelease) (body : List Char) (w : World)
    → IsNamed release
    → (commit b (transaction (cli_statements release (named_in body)) w.tables) w).raised ≡ false
    → IsStored release.tag_name
        (commit b (transaction (cli_statements release (named_in body)) w.tables) w).world
commit-IsStored b release body w n h =
    rw (cli-ends release body w.tables n) (of_test b (rw (cli-ends release body w.tables n) at h))
  where
    written : Tables
    written = effects (cli_statements release (named_in body)) w.tables

    stored : has_key release.tag_name written.clis ≡ true
    stored = rw (cli_statements-clis release (named_in body) w.tables) (
        refers-upsert_tag (some release.tag_name)
          (λ k. record {
            sdk_tag = (named_in body).sdk_tag;
            devnet_tag = (named_in body).devnet_tag;
            meta = fresh_row (derive_channel release.tag_name) (details_of release) k;
          })
          (cli_change (named_in body).sdk_tag (named_in body).devnet_tag
            (described (derive_channel release.tag_name) (details_of release)))
          w.tables.clis (inl (named-IsTag release n)))

    of_test :
        (b : Bool)
        → (commit b (some written) w).raised ≡ false
        → IsStored release.tag_name (commit b (some written) w).world
    of_test true h = stored
    of_test false h = ground arith

pub process_cli_release-IsStored :
    (a : CliAnswers) (release : GithubRelease) (w : World)
    → IsNamed release
    → (process_cli_release a release w).raised ≡ false
    → IsStored release.tag_name (process_cli_release a release w).world
unfolding process_cli_release upsert_cli_chain
process_cli_release-IsStored a release w n h =
    let body = cut_body 5000 release.body in
    let named = named_in body in
    let node_tag = updated_node_tag named.node_tag w.tables.releases in
    let first = commit a.commit_succeeds (transaction (cli_statements release named) w.tables) w in
    let next = announce a.publish_succeeds release node_tag in
    let (ok, same) = then_call-first first next h in
    rw same (
      announce-IsStored release.tag_name a.publish_succeeds release node_tag first.world
        (commit-IsStored a.commit_succeeds release body w n ok))
