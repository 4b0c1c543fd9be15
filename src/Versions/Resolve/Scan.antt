-- ===== src/Versions/Resolve/Scan.antt =====
-- Which versions `_scan_cli_releases` finds on a page.
use cartesi_release_validati.Prelude.{◌≡◌, String, Option, none, some, List, [], ◌∷◌, arith, keep}
use cartesi_release_validati.Text.{or_else}
use cartesi_release_validati.Versions.Resolve.{
  Known, CliRelease, Found, nothing_found, cli_of, sdk_of, targets, collect, scan_loop,
  scan_cli_releases,
}

-- The first release that gives a value.
unfoldable pub first {ℓ} : {A : Type ℓ} → (CliRelease → Option A) → List CliRelease → Option A
first f [] = none
first f (rel ∷ rels) = or_else (f rel) (first f rels)

scan_loop-sdk :
    (node_ver : String) (found : Found) (rels : List CliRelease)
    → (scan_loop node_ver found rels).sdk
      ≡ or_else found.sdk (first sdk_of (keep (targets node_ver) rels))
unfolding scan_loop first
scan_loop-sdk node_ver found [] = ground arith
scan_loop-sdk node_ver found (rel ∷ rels) =
    ground
      (arith, scan_loop-sdk node_ver (collect rel found) rels, scan_loop-sdk node_ver found rels)

scan_loop-cli :
    (node_ver : String) (found : Found) (rels : List CliRelease)
    → (scan_loop node_ver found rels).cli
      ≡ or_else found.cli (first cli_of (keep (targets node_ver) rels))
unfolding scan_loop first
scan_loop-cli node_ver found [] = ground arith
scan_loop-cli node_ver found (rel ∷ rels) =
    ground
      (arith, scan_loop-cli node_ver (collect rel found) rels, scan_loop-cli node_ver found rels)

-- The SDK version and the CLI version that the scan of a page finds are those of the first
-- release for the node's version that gives one, although the loop stops early.
pub scan_cli_releases-first :
    (node_ver : String) (page : List CliRelease) (known : Known)
    → ((scan_cli_releases node_ver (some page) known).0.sdk
        ≡ first sdk_of (keep (targets node_ver) page))
      × ((scan_cli_releases node_ver (some page) known).0.cli
          ≡ first cli_of (keep (targets node_ver) page))
unfolding scan_cli_releases
scan_cli_releases-first node_ver page known =
    (scan_loop-sdk node_ver nothing_found page, scan_loop-cli node_ver nothing_found page)
