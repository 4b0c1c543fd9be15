-- ===== src/Watcher/Catalogued.antt =====
-- What the watchers write breaks no foreign key: a transaction of theirs ends as the database and the
-- exchange let it end.
use cartesi_release_validati.Prelude.{
  ◌≡◌, refl, inl, Bool, true, false, not, String, Option, none, some, List, [], ◌∷◌, if◌then◌else◌,
  has_key,
}
use cartesi_release_validati.Text.{text, truthy, is_empty}
use Prim.Native.Char.{Char}
use cartesi_release_validati.Text.{Pattern, search}
use cartesi_release_validati.Text.Matching.{Matches, search-Occurs}
use cartesi_release_validati.Versions.{
  node_major_version, version, node_bump, devnet_in_body, contracts_in_body,
}
use cartesi_release_validati.Versions.Resolve.{Found, as_text}
use cartesi_release_validati.Catalog.{
  Meta, Tables, labelled, do_nothing, insert_release, transaction, prefix_v, derive_channel,
  is_allowed, refers,
}
use cartesi_release_validati.Catalog.Transactions.{AllAllowed, effects, transaction-AllAllowed}
use cartesi_release_validati.Catalog.Leaves.{
  IsTag, truthy-IsTag, prefix_v-IsTag, chain-AllAllowed, chain-refers_cli, after_chain, either_true,
}
use cartesi_release_validati.Watcher.{
  GithubRelease, World, Outcome, then_call, fresh_row, described, details_of, node_statements,
}
use cartesi_release_validati.Watcher.Toolchain.{
  named_in, v_group, backfill, cli_statements, sdk_in_body,
}

node_statements-AllAllowed :
    (release : GithubRelease) (found : Found) (t : Tables)
    → AllAllowed (node_statements release found) t
unfolding node_statements is_allowed
node_statements-AllAllowed release found t =
    let channel = derive_channel release.tag_name in
    let cli = prefix_v found.cli in
    let sdk = prefix_v found.sdk in
    let devnet = truthy found.devnet in
    let contracts = prefix_v found.contracts in
    let fresh : String → Meta = λ k. labelled k channel in
    chain-AllAllowed sdk contracts devnet cli fresh fresh do_nothing t
      (insert_release release.tag_name cli (node_major_version release.tag_name)
          (fresh_row channel (details_of release) release.tag_name)
          (described channel (details_of release))
        ∷ [])
      (inl (prefix_v-IsTag found.sdk)) (inl (prefix_v-IsTag found.contracts))
      (inl (truthy-IsTag found.devnet))
      (
        chain-refers_cli sdk contracts devnet cli fresh fresh do_nothing t
            (inl (prefix_v-IsTag found.cli)),
        tt,
      )

-- A version that a pattern finds is not the empty text.
version_not_empty : (v : List Char) → Matches version v → is_empty (text v) ≡ false
unfolding Matches
version_not_empty v (x, (y, (e, ((a, (b, (f, ((c, (g, d)), m)))), n)))) = rw (e, f, g) refl

pub found-IsTag :
    (prefix : Pattern) (body : List Char) → IsTag (as_text (search prefix version body))
found-IsTag prefix body = of_found (search prefix version body) refl
  where
    of_found : (r : Option (List Char)) → search prefix version body ≡ r → IsTag (as_text r)
    of_found none e = refl
    of_found (some v) e =
        rw (version_not_empty v (search-Occurs prefix version body v e).group_matches) refl

pub v_group-IsTag : (r : Option (List Char)) → IsTag (v_group r)
v_group-IsTag none = refl
v_group-IsTag (some s) = refl

backfill-AllAllowed :
    (node_tag : Option String) (tag : String) (t : Tables)
    → refers (some tag) t.clis ≡ true
    → AllAllowed (backfill node_tag tag) t
unfolding is_allowed
backfill-AllAllowed none tag t h = tt
backfill-AllAllowed (some node) tag t h =
    (either_true (not (has_key node t.releases)) (has_key tag t.clis) h, tt)

abbrev pub IsNamed : GithubRelease → Type 0
IsNamed release = is_empty release.tag_name ≡ false

pub named-IsTag : (release : GithubRelease) → IsNamed release → IsTag (some release.tag_name)
named-IsTag release h = rw h refl

cli_statements-AllAllowed :
    (release : GithubRelease) (body : List Char) (t : Tables)
    → IsNamed release
    → AllAllowed (cli_statements release (named_in body)) t
unfolding cli_statements named_in
cli_statements-AllAllowed release body t h =
    let channel = derive_channel release.tag_name in
    let cli = some release.tag_name in
    let sdk = v_group (search sdk_in_body version body) in
    let devnet = as_text (search devnet_in_body version body) in
    let contracts = v_group (search contracts_in_body version body) in
    let fresh : String → Meta = λ k. labelled k channel in
    let cli_fresh = fresh_row channel (details_of release) in
    let cli_write = described channel (details_of release) in
    chain-AllAllowed sdk contracts devnet cli fresh cli_fresh cli_write t
      (backfill (v_group (search node_bump version body)) release.tag_name)
      (inl (v_group-IsTag (search sdk_in_body version body)))
      (inl (v_group-IsTag (search contracts_in_body version body)))
      (inl (found-IsTag devnet_in_body body))
      (backfill-AllAllowed (v_group (search node_bump version body)) release.tag_name
        (after_chain sdk contracts devnet cli fresh cli_fresh cli_write t)
        (chain-refers_cli sdk contracts devnet cli fresh cli_fresh cli_write t
          (inl (named-IsTag release h))))

-- The transactions of the two watchers end.
pub node-ends :
    (release : GithubRelease) (found : Found) (t : Tables)
    → transaction (node_statements release found) t
      ≡ some (effects (node_statements release found) t)
node-ends release found t =
    transaction-AllAllowed (node_statements release found) t
      (node_statements-AllAllowed release found t)

pub cli-ends :
    (release : GithubRelease) (body : List Char) (t : Tables)
    → IsNamed release
    → transaction (cli_statements release (named_in body)) t
      ≡ some (effects (cli_statements release (named_in body)) t)
cli-ends release body t h =
    transaction-AllAllowed (cli_statements release (named_in body)) t
      (cli_statements-AllAllowed release body t h)

-- What holds after a call and is kept by the next one holds after both.
pub then_call-keeps :
    (P : World → Type 0) (o : Outcome) (next : World → Outcome)
    → P o.world
    → ((w : World) → P w → P (next w).world)
    → P (then_call o next).world
then_call-keeps P o next h k = of_test o.raised
  where
    of_test : (b : Bool) → P (if b then o else next o.world).world
    of_test true = h
    of_test false = k o.world h

pub then_call-completes :
    (o : Outcome) (next : World → Outcome)
    → o.raised ≡ false
    → (next o.world).raised ≡ false
    → (then_call o next).raised ≡ false
then_call-completes o next h k = rw h k
