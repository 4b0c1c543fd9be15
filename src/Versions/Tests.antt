-- ===== src/Versions/Tests.antt =====
-- Runs of shared/sdk_resolver.py, and instances of its theorems.
use cartesi_release_validati.Prelude.{◌≡◌, refl, ◌⊎◌, String, none, some, List, [], ◌∷◌, keep}
use Prim.Native.Char.{Char}
use cartesi_release_validati.Text.{chars, pos, int_of, lstrip, before, search, group_at}
use cartesi_release_validati.Versions.{extract_sdk_from_body, node_major_version, derive_image_tag}
use cartesi_release_validati.Versions.Body.{NamesSdk, extract_sdk_from_body-cases}
use cartesi_release_validati.Versions.Resolve.{
  CliRelease, initially_known, cli_of, sdk_of, targets, scan_loop, scan_cli_releases,
  resolve_versions,
}
use cartesi_release_validati.Versions.Resolve.Scan.{first, scan_cli_releases-first}

major_2 : node_major_version "v2.0.0-alpha.11" ≡ pos 2
unfolding node_major_version int_of lstrip before
major_2 = refl

major_none : node_major_version "nightly" ≡ pos 1
unfolding node_major_version int_of lstrip before
major_none = refl

image_1 : derive_image_tag "v1.5.1" (some "0.12.0") ≡ "cartesi/rollups-node:1.5.1"
unfolding derive_image_tag int_of lstrip before
image_1 = refl

image_2 :
    derive_image_tag "v2.0.0" (some "0.12.0-alpha.39") ≡ "cartesi/rollups-runtime:0.12.0-alpha.39"
unfolding derive_image_tag int_of lstrip before
image_2 = refl

abbrev body_text : String
body_text =
    "Bump Rollups-Node to v2.0.0-alpha.12 and @cartesi/sdk@0.12.0-alpha.40, @cartesi/devnet: v2.1.0"

body_sdk : extract_sdk_from_body (chars body_text) ≡ some (chars "0.12.0-alpha.40")
unfolding extract_sdk_from_body search group_at
body_sdk = refl

abbrev page : List CliRelease
page =
    let sdk_release : CliRelease = record { tag_name = none; body = some body_text } in
    let cli_release : CliRelease = record {
      tag_name = some "v2.0.0-alpha.35";
      body = some "bump rollups-node to v2.0.0-alpha.12";
    } in
    let older : CliRelease = record {
      tag_name = some "v1.0.0";
      body = some "rollups-node v2.0.0-alpha.11";
    } in
    older ∷ sdk_release ∷ cli_release ∷ []

found_on_page :
    (resolve_versions "v2.0.0-alpha.12" (some page) initially_known).versions
    ≡ (some "0.12.0-alpha.40", some "2.0.0-alpha.35")
unfolding resolve_versions scan_cli_releases scan_loop targets cli_of sdk_of extract_sdk_from_body
    search group_at lstrip
found_on_page = refl

extract_sdk_from_body-cases_example :
    ((v : List Char) × ((extract_sdk_from_body (chars body_text) ≡ some v)
        × NamesSdk (chars body_text) v))
    ⊎ ((extract_sdk_from_body (chars body_text) ≡ none)
        × ((v : List Char) → ¬ NamesSdk (chars body_text) v))
extract_sdk_from_body-cases_example = extract_sdk_from_body-cases (chars body_text)

scan_cli_releases-first_example :
    ((scan_cli_releases "2.0.0-alpha.12" (some page) initially_known).0.sdk
      ≡ first sdk_of (keep (targets "2.0.0-alpha.12") page))
    × ((scan_cli_releases "2.0.0-alpha.12" (some page) initially_known).0.cli
        ≡ first cli_of (keep (targets "2.0.0-alpha.12") page))
scan_cli_releases-first_example = scan_cli_releases-first "2.0.0-alpha.12" page initially_known
