-- ===== src/Versions/Resolve.antt =====
-- shared/sdk_resolver.py: `_scan_cli_releases` and the functions that resolve the versions of a
-- release, with the four dictionaries that they keep.
pub mod Scan
pub mod Cached
use cartesi_release_validati.Prelude.{
  ℕ, zero, suc, ◌+◌, ◌-◌, ◌*◌, ◌/◌, ◌%◌, ◌≤◌, ◌<◌, min, max, ◌≡◌, refl, sym, ap, ◌∙◌, ◌≢◌, ◌↔◌, ◌⊎◌,
  inl, inr, Bool, true, false, not, ◌&&◌, ◌||◌, String, Option, none, some, List, [], ◌∷◌, ◌++◌,
  map, append-nil, append_assoc, arith, eq_iff, eq_refl, str_eq, if◌then◌else◌, ltb, leb, ◌==◌,
  ==_iff, ltb→lt, lt→ltb, leb→le, Bool-cases, Option-cases, length, take, drop, keep, count, all,
  any, All, length-append, length-take, length-drop, take-append-drop, count-le-length,
  count-append, lookup, has_key, insert, remove, HasDistinctKeys, In, In-keep_iff, Empty,
}
use Prim.Native.Char.{Char}
use cartesi_release_validati.Text.{chars, text, or_else, is_some, truthy, lstrip, search}
use cartesi_release_validati.Versions.{
  version, node_bump, devnet_in_body, contracts_in_body, extract_sdk_from_body,
}

-- KNOWN, KNOWN_CLI, KNOWN_DEVNET and KNOWN_CONTRACTS.
pub record Known : Type 0 where
  pub sdk : List (String × String)
  pub cli : List (String × String)
  pub devnet : List (String × String)
  pub contracts : List (String × String)

-- As the module starts.
abbrev pub initially_known : Known
initially_known = record {
  sdk =
      ("2.0.0-alpha.11", "0.12.0-alpha.39")
      ∷ ("2.0.0-alpha.9", "0.12.0-alpha.27")
      ∷ ("2.0.0-alpha.8", "0.12.0-alpha.23")
      ∷ ("2.0.0-alpha.7", "0.12.0-alpha.22")
      ∷ [];
  cli =
      ("2.0.0-alpha.11", "2.0.0-alpha.34")
      ∷ ("2.0.0-alpha.9", "2.0.0-alpha.22")
      ∷ ("2.0.0-alpha.8", "2.0.0-alpha.19")
      ∷ ("2.0.0-alpha.7", "2.0.0-alpha.13")
      ∷ [];
  devnet = [];
  contracts = [];
}

pub record CliRelease : Type 0 where
  pub tag_name : Option String
  pub body : Option String

pub record Found : Type 0 where
  pub sdk : Option String
  pub cli : Option String
  pub devnet : Option String
  pub contracts : Option String

abbrev pub nothing_found : Found
nothing_found = record { sdk = none; cli = none; devnet = none; contracts = none }

-- `rel.get("body") or ""`, and `rel.get("tag_name", "")`.
abbrev pub or_blank : Option String → List Char
or_blank none = []
or_blank (some s) = chars s

abbrev pub as_text : Option (List Char) → Option String
as_text none = none
as_text (some s) = some (text s)

-- The values that one release gives, none where the code takes it as no value.
unfoldable pub cli_of : CliRelease → Option String
cli_of rel = truthy (some (text (lstrip 118 (or_blank rel.tag_name))))

unfoldable pub sdk_of : CliRelease → Option String
sdk_of rel = truthy (as_text (extract_sdk_from_body (or_blank rel.body)))

unfoldable pub devnet_of : CliRelease → Option String
devnet_of rel = truthy (as_text (search devnet_in_body version (or_blank rel.body)))

unfoldable pub contracts_of : CliRelease → Option String
contracts_of rel = truthy (as_text (search contracts_in_body version (or_blank rel.body)))

-- `bump and bump.group(1) == node_ver`.
unfoldable pub targets : String → CliRelease → Bool
targets node_ver rel = elim (as_text (search node_bump version (or_blank rel.body))) [
  | none ↦ false
  | some bumped ↦ str_eq bumped node_ver
]

-- The body of the loop for a release that targets the version.
abbrev pub collect : CliRelease → Found → Found
collect rel found = record {
  sdk = or_else found.sdk (sdk_of rel);
  cli = or_else found.cli (cli_of rel);
  devnet = or_else found.devnet (devnet_of rel);
  contracts = or_else found.contracts (contracts_of rel);
}

-- The loop over the page: `continue` on another version, `break` once both are found.
unfoldable pub scan_loop : String → Found → List CliRelease → Found
scan_loop node_ver found [] = found
scan_loop node_ver found (rel ∷ rels) =
    let next = if targets node_ver rel then collect rel found else found in
    let rest = scan_loop node_ver next rels in
    if targets node_ver rel && (is_some next.cli && is_some next.sdk) then next else rest

abbrev pub remember : String → Option String → List (String × String) → List (String × String)
remember node_ver none known = known
remember node_ver (some found) known = insert node_ver found known

-- The dictionaries after the scan.
abbrev pub learn : String → Found → Known → Known
learn node_ver found known =
    if is_some found.cli || is_some found.sdk
    then record {
      sdk = remember node_ver found.sdk known.sdk;
      cli = remember node_ver found.cli known.cli;
      devnet = remember node_ver found.devnet known.devnet;
      contracts = remember node_ver found.contracts known.contracts;
    }
    else known

-- `_scan_cli_releases`, on the page that the API returned.
unfoldable pub scan_cli_releases : String → Option (List CliRelease) → Known → Found × Known
scan_cli_releases node_ver none known = (nothing_found, known)
scan_cli_releases node_ver (some page) known =
    let found = scan_loop node_ver nothing_found page in (found, learn node_ver found known)

-- What a function returns, the dictionaries after it, and how many requests it made.
pub record Resolved (A : Type 0) : Type 0 where
  pub versions : A
  pub known : Known
  pub requests : ℕ

abbrev pub version_of : String → String
version_of node_tag = text (lstrip 118 (chars node_tag))

-- `resolve_sdk_version`.
unfoldable pub resolve_sdk_version :
    String → Option (List CliRelease) → Known → Resolved (Option String)
resolve_sdk_version node_tag page known =
    let node_ver = version_of node_tag in
    let (found, after) = scan_cli_releases node_ver page known in
    elim (lookup node_ver known.sdk) [
      | some sdk ↦ record { versions = some sdk; known = known; requests = 0 }
      | none ↦ record { versions = found.sdk; known = after; requests = 1 }
    ]

-- `resolve_cli_version`.
unfoldable pub resolve_cli_version :
    String → Option (List CliRelease) → Known → Resolved (Option String)
resolve_cli_version node_tag page known =
    let node_ver = version_of node_tag in
    let (found, after) = scan_cli_releases node_ver page known in
    elim (lookup node_ver known.cli) [
      | some cli ↦ record { versions = some cli; known = known; requests = 0 }
      | none ↦ record { versions = found.cli; known = after; requests = 1 }
    ]

-- `resolve_versions`.
unfoldable pub resolve_versions :
    String → Option (List CliRelease) → Known → Resolved (Option String × Option String)
resolve_versions node_tag page known =
    let node_ver = version_of node_tag in
    let sdk = lookup node_ver known.sdk in
    let cli = lookup node_ver known.cli in
    let (found, after) = scan_cli_releases node_ver page known in
    if is_some (truthy sdk) && is_some (truthy cli)
    then record { versions = (sdk, cli); known = known; requests = 0 }
    else record {
      versions = (or_else (truthy sdk) found.sdk, or_else (truthy cli) found.cli);
      known = after;
      requests = 1;
    }

-- `resolve_all_versions`.
unfoldable pub resolve_all_versions : String → Option (List CliRelease) → Known → Resolved Found
resolve_all_versions node_tag page known =
    let node_ver = version_of node_tag in
    let (found, after) = scan_cli_releases node_ver page known in
    let cached : Found = record {
      sdk = lookup node_ver known.sdk;
      cli = lookup node_ver known.cli;
      devnet = lookup node_ver known.devnet;
      contracts = lookup node_ver known.contracts;
    } in
    if is_some (truthy cached.sdk) && is_some (truthy cached.cli)
    then record { versions = cached; known = known; requests = 0 }
    else record {
      versions = record {
        sdk = or_else (truthy cached.sdk) found.sdk;
        cli = or_else (truthy cached.cli) found.cli;
        devnet = or_else (truthy cached.devnet) found.devnet;
        contracts = or_else (truthy cached.contracts) found.contracts;
      };
      known = after;
      requests = 1;
    }
