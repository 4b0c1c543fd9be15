-- ===== src/Versions/Resolve/Cached.antt =====
-- What the dictionaries spare the functions that resolve versions.
use cartesi_release_validati.Prelude.{
  ◌≡◌, refl, true, String, Option, none, some, List, arith, eq_refl, lookup,
}
use cartesi_release_validati.Prelude.Dict.{lookup-insert}
use cartesi_release_validati.Text.{is_some, truthy}
use cartesi_release_validati.Versions.Resolve.{
  Known, CliRelease, Found, remember, learn, scan_cli_releases, version_of, resolve_versions,
}

lookup-remember :
    (v s : String) (m : List (String × String)) → lookup v (remember v (some s) m) ≡ some s
lookup-remember v s m = ground (arith, lookup-insert v v s m, eq_refl v)

lookup-learn :
    (v : String) (sdk cli devnet contracts : Option String) (known : Known)
    → is_some (truthy sdk) ≡ true
    → is_some (truthy cli) ≡ true
    → (let found : Found = record {
      sdk = sdk;
      cli = cli;
      devnet = devnet;
      contracts = contracts;
    } in
        (lookup v (learn v found known).sdk ≡ sdk) × (lookup v (learn v found known).cli ≡ cli))
lookup-learn v none cli devnet contracts known sdk_set cli_set = ground arith
lookup-learn v (some s) none devnet contracts known sdk_set cli_set = ground arith
lookup-learn v (some s) (some c) devnet contracts known sdk_set cli_set =
    (lookup-remember v s known.sdk, lookup-remember v c known.cli)

resolve_versions-miss :
    (node_tag : String) (page : Option (List CliRelease)) (known : Known)
    → truthy (lookup (version_of node_tag) known.sdk) ≡ none
    → truthy (lookup (version_of node_tag) known.cli) ≡ none
    → resolve_versions node_tag page known ≡ record {
      versions = (
        (scan_cli_releases (version_of node_tag) page known).0.sdk,
        (scan_cli_releases (version_of node_tag) page known).0.cli,
      );
      known = (scan_cli_releases (version_of node_tag) page known).1;
      requests = 1;
    }
unfolding resolve_versions
resolve_versions-miss node_tag page known no_sdk no_cli = rw (no_sdk, no_cli) refl

resolve_versions-hit :
    (node_tag : String) (page : Option (List CliRelease)) (known : Known)
    → is_some (truthy (lookup (version_of node_tag) known.sdk)) ≡ true
    → is_some (truthy (lookup (version_of node_tag) known.cli)) ≡ true
    → resolve_versions node_tag page known ≡ record {
      versions = (lookup (version_of node_tag) known.sdk, lookup (version_of node_tag) known.cli);
      known = known;
      requests = 0;
    }
unfolding resolve_versions
resolve_versions-hit node_tag page known sdk cli = rw (sdk, cli) refl

again :
    (node_tag : String) (page : List CliRelease) (later : Option (List CliRelease)) (known : Known)
    → (let found = (scan_cli_releases (version_of node_tag) (some page) known).0 in
        is_some (truthy found.sdk) ≡ true
        → is_some (truthy found.cli) ≡ true
        → resolve_versions node_tag later
            (scan_cli_releases (version_of node_tag) (some page) known).1
          ≡ record {
            versions = (found.sdk, found.cli);
            known = (scan_cli_releases (version_of node_tag) (some page) known).1;
            requests = 0;
          })
unfolding scan_cli_releases
again node_tag page later known sdk cli =
    let found = (scan_cli_releases (version_of node_tag) (some page) known).0 in
    let (s, c) =
      lookup-learn (version_of node_tag) found.sdk found.cli found.devnet found.contracts known sdk
        cli in
    rw
      (
        resolve_versions-hit node_tag later (learn (version_of node_tag) found known) (rw s sdk)
            (rw c cli),
        s,
        c,
      )
      refl

-- If neither version was known and the page gave both, a later call of `resolve_versions` for the
-- tag returns the same versions without a request and leaves the dictionaries as they are,
-- whatever the API would answer.
pub resolve_versions-again :
    (node_tag : String) (page : List CliRelease) (later : Option (List CliRelease)) (known : Known)
    → truthy (lookup (version_of node_tag) known.sdk) ≡ none
    → truthy (lookup (version_of node_tag) known.cli) ≡ none
    → is_some (truthy (resolve_versions node_tag (some page) known).versions.0) ≡ true
    → is_some (truthy (resolve_versions node_tag (some page) known).versions.1) ≡ true
    → resolve_versions node_tag later (resolve_versions node_tag (some page) known).known ≡ record {
      versions = (resolve_versions node_tag (some page) known).versions;
      known = (resolve_versions node_tag (some page) known).known;
      requests = 0;
    }
resolve_versions-again node_tag page later known no_sdk no_cli sdk cli =
    let first = resolve_versions-miss node_tag (some page) known no_sdk no_cli in
    rw first (again node_tag page later known (rw first at sdk) (rw first at cli))
