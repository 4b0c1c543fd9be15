-- ===== src/ReleaseRoutes.antt =====
-- services/orchestrator/api/routes/releases.py: the routes that write the version chain of the catalog.
-- Each handler's statements are one transaction; what GitHub answers is an argument.
mod Tests
pub mod Foreign
pub mod States
pub mod Preempts
pub mod Toolchain
use cartesi_release_validati.Prelude.{
  ℕ, zero, suc, ◌+◌, ◌-◌, ◌*◌, ◌/◌, ◌%◌, ◌≤◌, ◌<◌, min, max, ◌≡◌, refl, sym, ap, ◌∙◌, ◌≢◌, ◌↔◌, ◌⊎◌,
  inl, inr, Bool, true, false, not, ◌&&◌, ◌||◌, String, Option, none, some, List, [], ◌∷◌, ◌++◌,
  map, append-nil, append_assoc, arith, eq_iff, eq_refl, str_eq, if◌then◌else◌, ltb, leb, ◌==◌,
  ==_iff, ltb→lt, lt→ltb, leb→le, Bool-cases, Option-cases, length, take, drop, keep, count, all,
  any, All, length-append, length-take, length-drop, take-append-drop, count-le-length,
  count-append, lookup, has_key, insert, remove, HasDistinctKeys, In, In-keep_iff, Empty, none≢some,
  some_injective,
}
use Prim.Native.Char.{Char, code}
use cartesi_release_validati.Text.{
  chars, text, or_else, is_some, truthy, is_empty, strip, lstrip, before, ℤ, pos, negsuc, int_of,
  Pattern, seq, either, search,
}
use cartesi_release_validati.Versions.{
  version, devnet_in_body, contracts_in_body, sdk_package, sdk_runtime, optional_v,
  node_major_version, at_least_two,
}
use cartesi_release_validati.Versions.Resolve.{
  CliRelease, Found, Known, resolve_all_versions, as_text,
}
use cartesi_release_validati.Releases as R
use cartesi_release_validati.Catalog.{
  Details, no_details, Meta, ReleaseRow, Tables, labelled, do_nothing, Statement, insert_sdk,
  insert_contracts, insert_devnet, insert_cli, insert_release, deactivate, transaction, prefix_v,
  derive_channel, catalogs_of,
}
use cartesi_release_validati.Watcher.{
  GithubRelease, Response, fails, answers, is_success, details_of, cut_body, fresh_row, described,
}
use cartesi_release_validati.Watcher.Toolchain.{stripped, is_cli_tag, v_group}

-- _SDK_IN_BODY_RE of this module, which does not look for rollups-database.
abbrev pub sdk_in_body : Pattern
sdk_in_body = seq (either sdk_package sdk_runtime) optional_v

-- What a handler answers: its result, or the status of the HTTPException; 500 is an exception that
-- nothing catches.
pub data Reply (A : Type 0) : Type 0 where
  success : A → Reply A
  error : ℕ → Reply A

-- `_fetch_cli_repo_releases` and `_fetch_contracts_releases`, and the request of /sync.
unfoldable pub fetch_releases : {A : Type 0} → Response (List A) → Reply (List A)
fetch_releases fails = error 502
fetch_releases (answers status remaining releases) =
    if is_success status then success releases else error 502

-- `x if x.startswith("v") else f"v{x}"`.
abbrev pub with_v : List Char → String
with_v [] = "v"
with_v (c ∷ s) = if code c == 118 then text (c ∷ s) else text (chars "v" ++ (c ∷ s))

abbrev pub v_tag : Option (List Char) → Option String
v_tag none = none
v_tag (some s) = some (with_v s)

-- The statements of /cli/sync for one release, before those of the releases after it.
unfoldable pub cli_chain : GithubRelease → List Statement → List Statement
cli_chain release rest =
    let tag = stripped release in
    let channel = derive_channel tag in
    let body = cut_body 5000 release.body in
    let sdk_tag = v_group (search sdk_in_body version body) in
    let devnet_tag = as_text (search devnet_in_body version body) in
    let contracts_tag = v_tag (search contracts_in_body version body) in
    insert_sdk sdk_tag (λ k. labelled k channel) do_nothing
    ∷ insert_contracts contracts_tag (λ k. labelled k channel) do_nothing
    ∷ insert_devnet devnet_tag contracts_tag (λ k. labelled k channel)
    ∷ insert_cli (some tag) sdk_tag devnet_tag (fresh_row channel (details_of release))
        (described channel (details_of release))
    ∷ rest

-- The releases that a loop takes: `continue` for the others.
unfoldable pub is_cli_release : GithubRelease → Bool
is_cli_release release = not (is_empty (stripped release)) && is_cli_tag (stripped release)

abbrev is_zero : Option ℤ → Bool
is_zero (some (pos zero)) = true
is_zero _ = false

unfoldable pub is_sdk_release : GithubRelease → Bool
is_sdk_release release =
    not (is_empty (stripped release))
    && is_zero (int_of (before 46 (lstrip 118 (chars (stripped release)))))

abbrev pub cli_sync : List GithubRelease → List Statement
cli_sync [] = []
cli_sync (release ∷ rest) =
    if is_cli_release release then cli_chain release (cli_sync rest) else cli_sync rest

abbrev pub sdk_sync : List GithubRelease → List Statement
sdk_sync [] = []
sdk_sync (release ∷ rest) =
    let channel = derive_channel (stripped release) in
    if is_sdk_release release
    then insert_sdk (some (stripped release)) (fresh_row channel (details_of release))
        (described channel (details_of release))
      ∷ sdk_sync rest
    else sdk_sync rest

abbrev pub contracts_sync : List GithubRelease → List Statement
contracts_sync [] = []
contracts_sync (release ∷ rest) =
    let channel = derive_channel (stripped release) in
    if is_empty (stripped release)
    then contracts_sync rest
    else insert_contracts (some (stripped release)) (fresh_row channel (details_of release))
        (described channel (details_of release))
      ∷ contracts_sync rest

-- A transaction and its reply: the tables are the old ones where it raises.
abbrev pub finish : {A : Type 0} → A → Tables → Option Tables → Reply A × Tables
finish a t none = (error 500, t)
finish a t (some u) = (success a, u)

abbrev pub synced_with :
    (List GithubRelease → List Statement)
    → (GithubRelease → Bool)
    → Reply (List GithubRelease)
    → Tables
    → Reply ℕ × Tables
synced_with statements takes (error status) t = (error status, t)
synced_with statements takes (success releases) t =
    finish (count takes releases) t (transaction (statements releases) t)

-- `sync_cli_from_github`, `sync_sdk_from_github` and `sync_contracts_from_github`.
unfoldable pub sync_cli_from_github : Response (List GithubRelease) → Tables → Reply ℕ × Tables
sync_cli_from_github response t = synced_with cli_sync is_cli_release (fetch_releases response) t

unfoldable pub sync_sdk_from_github : Response (List GithubRelease) → Tables → Reply ℕ × Tables
sync_sdk_from_github response t = synced_with sdk_sync is_sdk_release (fetch_releases response) t

unfoldable pub sync_contracts_from_github :
    Response (List GithubRelease) → Tables → Reply ℕ × Tables
sync_contracts_from_github response t =
    synced_with contracts_sync (λ release. not (is_empty (stripped release)))
      (fetch_releases response) t

-- `if contracts_version:` and its tag.
abbrev pub given_v_tag : Option String → Option String
given_v_tag none = none
given_v_tag (some s) = some (with_v (chars s))

-- The statements of /sync for one release.
unfoldable pub node_chain : GithubRelease → Found → List Statement → List Statement
node_chain release found rest =
    let tag = stripped release in
    let channel = derive_channel tag in
    let major = node_major_version tag in
    let cli_tag = prefix_v found.cli in
    let sdk_tag = prefix_v found.sdk in
    let devnet_tag = truthy found.devnet in
    let contracts_tag = given_v_tag (truthy found.contracts) in
    let fresh = fresh_row channel (details_of release) tag in
    let write = described channel (details_of release) in
    if at_least_two major
    then insert_sdk sdk_tag (λ k. labelled k channel) do_nothing
      ∷ insert_contracts contracts_tag (λ k. labelled k channel) do_nothing
      ∷ insert_devnet devnet_tag contracts_tag (λ k. labelled k channel)
      ∷ insert_cli cli_tag sdk_tag devnet_tag (λ k. labelled k channel) do_nothing
      ∷ insert_release tag cli_tag major fresh write
      ∷ rest
    else insert_release tag none major fresh write ∷ rest

-- The versions that /sync resolves for a tag, and the dictionaries after it.
abbrev pub resolved : Option (List CliRelease) → String → Known → Found × Known
resolved page tag known =
    let r = resolve_all_versions tag page known in
    if at_least_two (node_major_version tag)
    then (r.versions, r.known)
    else (record { sdk = none; cli = none; devnet = none; contracts = none }, known)

-- The loop of /sync: each release comes with the page that GitHub returns while its versions are
-- resolved.
unfoldable pub node_sync :
    List (GithubRelease × Option (List CliRelease)) → Known → List Statement × Known
node_sync [] known = ([], known)
node_sync ((release, page) ∷ rest) known =
    let (found, next) = resolved page (stripped release) known in
    let later = node_sync rest (if is_empty (stripped release) then known else next) in
    if is_empty (stripped release) then later else (node_chain release found later.0, later.1)

abbrev pub synced_nodes :
    Reply (List (GithubRelease × Option (List CliRelease)))
    → Tables
    → Known
    → (Reply ℕ × Tables) × Known
synced_nodes (error status) t known = ((error status, t), known)
synced_nodes (success releases) t known =
    let (statements, learned) = node_sync releases known in
    (
      finish (count (λ entry. not (is_empty (stripped entry.0))) releases) t
          (transaction statements t),
      learned,
    )

-- `sync_from_github`. The dictionaries keep what was learned even if the transaction raises.
unfoldable pub sync_from_github :
    Response (List (GithubRelease × Option (List CliRelease)))
    → Tables
    → Known
    → (Reply ℕ × Tables) × Known
sync_from_github response t known = synced_nodes (fetch_releases response) t known
