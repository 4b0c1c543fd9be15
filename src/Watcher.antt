-- ===== src/Watcher.antt =====
-- services/github-watcher/poller.py: the three watchers of GitHub, which write the version chain of the
-- catalog and announce releases on rvp.releases. The state is the database, the exchange and the
-- dictionaries of shared/sdk_resolver.py; what GitHub answers is an argument, and so is whether a
-- transaction or a publication succeeds. An exception ends the round that it is raised in.
mod Tests
pub mod Toolchain
pub mod Rounds
pub mod Catalogued
pub mod Foreign
pub mod Completion
pub mod Keeping
pub mod Backfill
pub mod Stored
pub mod Repeats
pub mod Lost
pub mod Announced
pub mod Announcement
use cartesi_release_validati.Prelude.{
  ℕ, zero, suc, ◌+◌, ◌-◌, ◌*◌, ◌/◌, ◌%◌, ◌≤◌, ◌<◌, min, max, ◌≡◌, refl, sym, ap, ◌∙◌, ◌≢◌, ◌↔◌, ◌⊎◌,
  inl, inr, Bool, true, false, not, ◌&&◌, ◌||◌, String, Option, none, some, List, [], ◌∷◌, ◌++◌,
  map, append-nil, append_assoc, arith, eq_iff, eq_refl, str_eq, if◌then◌else◌, ltb, leb, ◌==◌,
  ==_iff, ltb→lt, lt→ltb, leb→le, Bool-cases, Option-cases, length, take, drop, keep, count, all,
  any, All, length-append, length-take, length-drop, take-append-drop, count-le-length,
  count-append, lookup, has_key, insert, remove, HasDistinctKeys, In, In-keep_iff, Empty, none≢some,
  some_injective,
}
use Prim.Native.Char.{Char, code}
use cartesi_release_validati.Text.{
  chars, text, or_else, is_some, truthy, is_empty, strip, lstrip, before, ℤ, pos, negsuc, int_of,
  Pattern, seq, either, search,
}
use cartesi_release_validati.Versions.{
  version, node_bump, devnet_in_body, contracts_in_body, sdk_package, sdk_runtime, sdk_database,
  optional_v, node_major_version, at_least_two,
}
use cartesi_release_validati.Versions.Resolve.{
  CliRelease, Found, nothing_found, Known, resolve_all_versions, as_text,
}
use cartesi_release_validati.Catalog.{
  Details, no_details, Meta, Tables, labelled, do_nothing, Statement, insert_sdk, insert_contracts,
  insert_devnet, insert_cli, insert_release, fill_cli_tag, transaction, prefix_v, derive_channel,
}

-- A response of the GitHub API: no response, or its status, the header X-RateLimit-Remaining and what
-- the body holds.
pub data Response (A : Type 0) : Type 0 where
  fails : Response A
  answers : ℕ → Option ℕ → A → Response A

-- RATE_LIMIT_FLOOR is an argument.
unfoldable pub check_rate_limit : ℕ → Option ℕ → Bool
check_rate_limit floor none = leb floor 999
check_rate_limit floor (some remaining) = leb floor remaining

-- `raise_for_status` lets only a status of 2xx pass.
abbrev pub is_success : ℕ → Bool
is_success status = leb 200 status && ltb status 300

-- `_get_latest_release` and `_get_latest_contracts_release`; the rate limit is only logged.
unfoldable pub get_latest_release : {A : Type 0} → Response A → Option A
get_latest_release fails = none
get_latest_release (answers status remaining release) =
    if status == 404
    then none
    else (if status == 403 || status == 429
        then none
        else (if is_success status then some release else none))

-- `_fetch_cli_releases`.
unfoldable pub fetch_cli_releases : {A : Type 0} → Response (List A) → List A
fetch_cli_releases fails = []
fetch_cli_releases (answers status remaining releases) =
    if status == 403 || status == 429 then [] else (if status == 200 then releases else [])

-- What the watchers read of a release's JSON: a name or a body that is missing is none, and a
-- published_at that is missing or empty is none.
pub record GithubRelease : Type 0 where
  pub tag_name : String
  pub name : Option String
  pub body : Option String
  pub html_url : Option String
  pub published_at : Option String
  pub author_login : Option String
  pub download_counts : List ℕ

-- A message on rvp.releases; the prs are their JSON texts.
pub record ReleaseEvent : Type 0 where
  pub tag_name : String
  pub release_name : String
  pub body : String
  pub author : String
  pub prs : List String
  pub html_url : String

-- The tags of github.releases and the release tags of orchestrator.runs, the tables of the chain,
-- the messages published, the newest first, and the dictionaries.
pub record World : Type 0 where
  pub releases : List String
  pub run_tags : List String
  pub tables : Tables
  pub published : List ReleaseEvent
  pub known : Known

-- What a call leaves, and whether it raises.
pub record Outcome : Type 0 where
  pub world : World
  pub raised : Bool

abbrev pub done : World → Outcome
done w = record { world = w; raised = false }

abbrev pub raises : World → Outcome
raises w = record { world = w; raised = true }

-- One call after the other.
abbrev pub then_call : Outcome → (World → Outcome) → Outcome
then_call o next = if o.raised then o else next o.world

abbrev pub is_listed : String → List String → Bool
is_listed tag tags = any (λ t. str_eq t tag) tags

abbrev pub total : List ℕ → ℕ
total [] = 0
total (n ∷ ns) = n + total ns

-- `(release.get("body") or "")[:n]`, and `.get(key, default)`.
unfoldable pub cut_body : ℕ → Option String → List Char
cut_body n none = []
cut_body n (some body) = take n (chars body)

abbrev pub or_default : Option String → String → String
or_default none s = s
or_default (some s) _ = s

unfoldable pub event_of : GithubRelease → List String → ReleaseEvent
event_of release prs = record {
  tag_name = release.tag_name;
  release_name = or_default release.name release.tag_name;
  body = text (cut_body 2000 release.body);
  author = or_default release.author_login "unknown";
  prs = prs;
  html_url = or_default release.html_url "";
}

-- `_publish_release_event`.
abbrev pub publish_release_event : Bool → GithubRelease → List String → World → Outcome
publish_release_event succeeds release prs w =
    if succeeds
    then done (record w { published = event_of release prs ∷ w.published })
    else raises w

unfoldable pub details_of : GithubRelease → Details
details_of release = record {
  published_at = release.published_at;
  downloads = total release.download_counts;
  body = some (text (cut_body 5000 release.body));
  html_url = some (or_default release.html_url "");
}

-- `channel = EXCLUDED.channel, published_at = …` of the UPDATE: the label and is_active stay.
abbrev pub described : String → Details → Meta → Meta
described channel details meta = record meta { channel = channel; details = details }

abbrev pub fresh_row : String → Details → String → Meta
fresh_row channel details tag = record {
  channel = channel;
  label = some tag;
  is_active = true;
  details = details;
}

-- What GitHub and the services answer while one release is processed.
pub record Answers : Type 0 where
  pub prs : List String
  pub page : Option (List CliRelease)
  pub insert_succeeds : Bool
  pub commit_succeeds : Bool
  pub publish_succeeds : Bool

-- `_insert_release`, which raises for a release without published_at.
unfoldable pub insert_release_row : Bool → GithubRelease → World → Outcome
insert_release_row succeeds release w =
    if succeeds && is_some release.published_at
    then done (record w {
      releases =
          if is_listed release.tag_name w.releases
          then w.releases
          else release.tag_name ∷ w.releases;
    })
    else raises w

-- The statements of `_upsert_node_catalog`, for the versions that were resolved.
unfoldable pub node_statements : GithubRelease → Found → List Statement
node_statements release found =
    let tag = release.tag_name in
    let channel = derive_channel tag in
    let cli_tag = prefix_v found.cli in
    let sdk_tag = prefix_v found.sdk in
    let devnet_tag = truthy found.devnet in
    let contracts_tag = prefix_v found.contracts in
    insert_sdk sdk_tag (λ k. labelled k channel) do_nothing
    ∷ insert_contracts contracts_tag (λ k. labelled k channel) do_nothing
    ∷ insert_devnet devnet_tag contracts_tag (λ k. labelled k channel)
    ∷ insert_cli cli_tag sdk_tag devnet_tag (λ k. labelled k channel) do_nothing
    ∷ insert_release tag cli_tag (node_major_version tag)
        (fresh_row channel (details_of release) tag) (described channel (details_of release))
    ∷ []

-- A transaction's end: its tables if the statements and the commit succeed.
abbrev pub commit : Bool → Option Tables → World → Outcome
commit succeeds none w = raises w
commit succeeds (some t) w = if succeeds then done (record w { tables = t }) else raises w

-- The versions of a node release and the dictionaries after they were resolved.
unfoldable pub resolved_versions : Option (List CliRelease) → String → Known → Found × Known
resolved_versions page tag known =
    let resolved = resolve_all_versions tag page known in
    if at_least_two (node_major_version tag)
    then (resolved.versions, resolved.known)
    else (nothing_found, known)

-- `_upsert_node_catalog`.
unfoldable pub upsert_node_catalog : Answers → GithubRelease → World → Outcome
upsert_node_catalog a release w =
    let (found, known) = resolved_versions a.page release.tag_name w.known in
    commit a.commit_succeeds (transaction (node_statements release found) w.tables)
      (record w { known = known })

-- `process_release`.
unfoldable pub process_release : Answers → GithubRelease → World → Outcome
process_release a release w = then_call (insert_release_row a.insert_succeeds release w) (λ w.
    then_call (upsert_node_catalog a release w)
      (λ w. publish_release_event a.publish_succeeds release a.prs w))

-- Watcher 1, for the latest release.
abbrev pub poll_node : Answers → Option GithubRelease → World → Outcome
poll_node a none w = done w
poll_node a (some release) w =
    if is_listed release.tag_name w.releases then done w else process_release a release w

unfoldable pub poll_node_once : Answers → Response GithubRelease → World → Outcome
poll_node_once a response w = poll_node a (get_latest_release response) w
