-- ===== src/ReleaseRoutes/Foreign.antt =====
-- The synchronisations break no foreign key: each of their transactions ends.
use cartesi_release_validati.Prelude.{
  ◌≡◌, refl, inl, Bool, true, false, not, String, Option, none, some, List, [], ◌∷◌, ◌++◌,
  if◌then◌else◌, ◌==◌, count,
}
use Prim.Native.Char.{Char, code}
use cartesi_release_validati.Text.{chars, text, truthy, is_empty, search, ℤ}
use cartesi_release_validati.Versions.{
  version, devnet_in_body, contracts_in_body, node_major_version, at_least_two,
}
use cartesi_release_validati.Versions.Resolve.{CliRelease, Found, Known, as_text}
use cartesi_release_validati.Catalog.{
  Meta, Tables, labelled, do_nothing, Statement, insert_release, transaction, prefix_v,
  derive_channel, is_allowed, effect,
}
use cartesi_release_validati.Catalog.Transactions.{AllAllowed, effects, transaction-AllAllowed}
use cartesi_release_validati.Catalog.Leaves.{
  IsTag, truthy-IsTag, prefix_v-IsTag, chain-AllAllowed, chain-refers_cli, after_chain,
}
use cartesi_release_validati.Watcher.{
  GithubRelease, cut_body, details_of, fresh_row, described, Response,
}
use cartesi_release_validati.Watcher.Toolchain.{stripped, v_group}
use cartesi_release_validati.Watcher.Catalogued.{v_group-IsTag, found-IsTag}
use cartesi_release_validati.ReleaseRoutes.{
  success, fetch_releases, sdk_in_body, with_v, v_tag, cli_chain, is_cli_release, cli_sync, finish,
  given_v_tag, node_chain, resolved, node_sync, sync_cli_from_github, sync_from_github,
}

with_v-not_empty : (s : List Char) → is_empty (with_v s) ≡ false
with_v-not_empty [] = refl
with_v-not_empty (c ∷ s) = of_test (code c == 118)
  where
    of_test :
        (b : Bool) → is_empty (if b then text (c ∷ s) else text (chars "v" ++ (c ∷ s))) ≡ false
    of_test true = refl
    of_test false = refl

v_tag-IsTag : (r : Option (List Char)) → IsTag (v_tag r)
v_tag-IsTag none = refl
v_tag-IsTag (some s) = rw (with_v-not_empty s) refl

given_v_tag-IsTag : (r : Option String) → IsTag (given_v_tag r)
given_v_tag-IsTag none = refl
given_v_tag-IsTag (some s) = v_tag-IsTag (some (chars s))

-- Statements that are allowed whatever the tables are.
abbrev AlwaysAllowed : List Statement → Type 0
AlwaysAllowed ss = (t : Tables) → AllAllowed ss t

cli_chain-AlwaysAllowed :
    (release : GithubRelease) (rest : List Statement)
    → AlwaysAllowed rest
    → AlwaysAllowed (cli_chain release rest)
unfolding cli_chain
cli_chain-AlwaysAllowed release rest h t =
    let tag = stripped release in
    let channel = derive_channel tag in
    let body = cut_body 5000 release.body in
    let sdk = v_group (search sdk_in_body version body) in
    let devnet = as_text (search devnet_in_body version body) in
    let contracts = v_tag (search contracts_in_body version body) in
    let fresh : String → Meta = λ k. labelled k channel in
    let cli_fresh = fresh_row channel (details_of release) in
    let cli_write = described channel (details_of release) in
    chain-AllAllowed sdk contracts devnet (some tag) fresh cli_fresh cli_write t rest
      (inl (v_group-IsTag (search sdk_in_body version body)))
      (inl (v_tag-IsTag (search contracts_in_body version body)))
      (inl (found-IsTag devnet_in_body body))
      (h (after_chain sdk contracts devnet (some tag) fresh cli_fresh cli_write t))

branch :
    (b : Bool) (ss rs : List Statement)
    → AlwaysAllowed ss
    → AlwaysAllowed rs
    → AlwaysAllowed (if b then ss else rs)
branch true ss rs h k = h
branch false ss rs h k = k

cli_sync-AlwaysAllowed : (releases : List GithubRelease) → AlwaysAllowed (cli_sync releases)
cli_sync-AlwaysAllowed [] = λ t. tt
cli_sync-AlwaysAllowed (release ∷ rest) =
    branch (is_cli_release release) (cli_chain release (cli_sync rest)) (cli_sync rest)
      (cli_chain-AlwaysAllowed release (cli_sync rest) (cli_sync-AlwaysAllowed rest))
      (cli_sync-AlwaysAllowed rest)

node_chain-AlwaysAllowed :
    (release : GithubRelease) (found : Found) (rest : List Statement)
    → AlwaysAllowed rest
    → AlwaysAllowed (node_chain release found rest)
unfolding node_chain is_allowed
node_chain-AlwaysAllowed release found rest h =
    branch (at_least_two major) _ (insert_release tag none major fresh write ∷ rest)
      (λ t.
        chain-AllAllowed sdk contracts devnet cli leaf leaf do_nothing t
          (insert_release tag cli major fresh write ∷ rest) (inl (prefix_v-IsTag found.sdk))
          (inl (given_v_tag-IsTag (truthy found.contracts))) (inl (truthy-IsTag found.devnet))
          (
            chain-refers_cli sdk contracts devnet cli leaf leaf do_nothing t
                (inl (prefix_v-IsTag found.cli)),
            h (
                effect (insert_release tag cli major fresh write)
                  (after_chain sdk contracts devnet cli leaf leaf do_nothing t)),
          ))
      (λ t. (refl, h (effect (insert_release tag none major fresh write) t)))
  where
    tag : String
    tag = stripped release

    channel : String
    channel = derive_channel tag

    major : ℤ
    major = node_major_version tag

    cli : Option String
    cli = prefix_v found.cli

    sdk : Option String
    sdk = prefix_v found.sdk

    devnet : Option String
    devnet = truthy found.devnet

    contracts : Option String
    contracts = given_v_tag (truthy found.contracts)

    leaf : String → Meta
    leaf k = labelled k channel

    fresh : Meta
    fresh = fresh_row channel (details_of release) tag

    write : Meta → Meta
    write = described channel (details_of release)

node_sync-AlwaysAllowed :
    (releases : List (GithubRelease × Option (List CliRelease))) (known : Known)
    → AlwaysAllowed (node_sync releases known).0
unfolding node_sync
node_sync-AlwaysAllowed [] known = λ t. tt
node_sync-AlwaysAllowed ((release, page) ∷ rest) known =
    of_test (is_empty (stripped release)) (if is_empty (stripped release) then known else next)
      (λ k. node_sync-AlwaysAllowed rest k)
  where
    found : Found
    found = (resolved page (stripped release) known).0

    next : Known
    next = (resolved page (stripped release) known).1

    of_test :
        (b : Bool) (after : Known)
        → ((k : Known) → AlwaysAllowed (node_sync rest k).0)
        → AlwaysAllowed
            (if b
              then node_sync rest after
              else (node_chain release found (node_sync rest after).0, (node_sync rest after).1)).0
    of_test true after h = h after
    of_test false after h =
        node_chain-AlwaysAllowed release found (node_sync rest after).0 (h after)

finish-ends :
    {A : Type 0} (a : A) (ss : List Statement) (t : Tables)
    → AlwaysAllowed ss
    → finish a t (transaction ss t) ≡ (success a, effects ss t)
finish-ends a ss t h = rw (transaction-AllAllowed ss t (h t)) refl

pub sync_cli_from_github-ends :
    (response : Response (List GithubRelease)) (releases : List GithubRelease) (t : Tables)
    → fetch_releases response ≡ success releases
    → sync_cli_from_github response t
      ≡ (success (count is_cli_release releases), effects (cli_sync releases) t)
unfolding sync_cli_from_github
sync_cli_from_github-ends response releases t h = rw h (
    finish-ends (count is_cli_release releases) (cli_sync releases) t
      (cli_sync-AlwaysAllowed releases))

pub sync_from_github-ends :
    (response : Response (List (GithubRelease × Option (List CliRelease))))
    → (releases : List (GithubRelease × Option (List CliRelease))) (t : Tables) (known : Known)
    → fetch_releases response ≡ success releases
    → (sync_from_github response t known).0 ≡ (
      success (count (λ entry. not (is_empty (stripped entry.0))) releases),
      effects (node_sync releases known).0 t,
    )
unfolding sync_from_github
sync_from_github-ends response releases t known h = rw h (
    finish-ends (count (λ entry. not (is_empty (stripped entry.0))) releases)
      (node_sync releases known).0 t (node_sync-AlwaysAllowed releases known))
