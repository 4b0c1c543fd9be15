-- ===== src/Releases.antt =====
-- services/orchestrator/consumers/releases.py, which makes a run for each new release of the node, and
-- what it shares with POST /runs: the rows that a new run writes, the lookup in the catalogs of
-- github.* and services/orchestrator/publishers/sandbox_requests.py. What an operation does to the
-- database and the queue is the list of its effects, in the order in which they take place.
mod Tests
pub mod Trigger
pub mod Once
pub mod Order
use cartesi_release_validati.Prelude.{
  ℕ, zero, suc, ◌+◌, ◌-◌, ◌*◌, ◌/◌, ◌%◌, ◌≤◌, ◌<◌, min, max, ◌≡◌, refl, sym, ap, ◌∙◌, ◌≢◌, ◌↔◌, ◌⊎◌,
  inl, inr, Bool, true, false, not, ◌&&◌, ◌||◌, String, Option, none, some, List, [], ◌∷◌, ◌++◌,
  map, append-nil, append_assoc, arith, eq_iff, eq_refl, str_eq, if◌then◌else◌, ltb, leb, ◌==◌,
  ==_iff, ltb→lt, lt→ltb, leb→le, Bool-cases, Option-cases, length, take, drop, keep, count, all,
  any, All, length-append, length-take, length-drop, take-append-drop, count-le-length,
  count-append, lookup, has_key, insert, remove, HasDistinctKeys, In, In-keep_iff, Empty,
}
use cartesi_release_validati.Text.{chars, text, lstrip, truthy, ℤ, pos, negsuc}
use cartesi_release_validati.Versions.{node_major_version, at_least_two, derive_image_tag}

-- triggered_by_type.
pub data TriggeredBy : Type 0 where
  github_release user scheduled : TriggeredBy

abbrev pub is_github_release : TriggeredBy → Bool
is_github_release github_release = true
is_github_release _ = false

-- A new row of orchestrator.runs, its status being 'queued'.
pub record NewRun : Type 0 where
  pub id : String
  pub release_tag : String
  pub image_tag : String
  pub priority : ℕ
  pub triggered_by : TriggeredBy
  pub triggered_by_user : Option String
  pub suite_ids : List String
  pub app_id : Option String
  pub tags_filter : List String
  pub category_filter : List String

-- What the version chain gives for a release.
pub record Chain : Type 0 where
  pub sdk_version : Option String
  pub cli_version : Option String
  pub devnet_version : Option String
  pub contracts_version : Option String
  pub node_major_version : Option ℤ

-- A row of orchestrator.run_events with the type 'run.queued'.
pub record QueuedEvent : Type 0 where
  pub run_id : String
  pub release_tag : String

-- The message on sandbox.queue.
pub record SandboxRequest : Type 0 where
  pub run_id : String
  pub release_tag : String
  pub image_tag : String
  pub priority : ℕ
  pub requested_by : Option String
  pub chain : Chain
  pub app_id : Option String
  pub app_name : Option String
  pub app_github_url : Option String

pub data Effect : Type 0 where
  commits : NewRun → QueuedEvent → Effect
  publishes : SandboxRequest → Effect

-- The tables and the queue, the newest entry first.
pub record State : Type 0 where
  pub runs : List NewRun
  pub events : List QueuedEvent
  pub requests : List SandboxRequest

unfoldable pub apply : State → Effect → State
apply s (commits run event) = record s { runs = run ∷ s.runs; events = event ∷ s.events }
apply s (publishes request) = record s { requests = request ∷ s.requests }

abbrev pub apply_all : State → List Effect → State
apply_all s [] = s
apply_all s (e ∷ es) = apply_all (apply s e) es

pub record CliRow : Type 0 where
  pub sdk_tag : Option String
  pub devnet_tag : Option String

pub record ReleaseRow : Type 0 where
  pub cli_tag : Option String
  pub node_major_version : Option ℤ

-- github.release_catalog, cli_catalog and devnet_catalog by their primary key, the tag; the last with
-- its contracts_tag.
pub record Catalogs : Type 0 where
  pub releases : List (String × ReleaseRow)
  pub clis : List (String × CliRow)
  pub devnets : List (String × Option String)

abbrev pub then_lookup {ℓ} : {A : Type ℓ} → Option String → List (String × A) → Option A
then_lookup none table = none
then_lookup (some tag) table = lookup tag table

abbrev pub bind_option {ℓ κ} : {A : Type ℓ} {B : Type κ} → Option A → (A → Option B) → Option B
bind_option none f = none
bind_option (some a) f = f a

-- `LTRIM(tag, 'v')`, which is NULL for NULL.
abbrev pub ltrim_v : Option String → Option String
ltrim_v none = none
ltrim_v (some tag) = some (text (lstrip 118 (chars tag)))

-- `rc.node_major_version >= 2`, which does not hold for NULL.
abbrev pub has_runtime_image : Option ℤ → Bool
has_runtime_image none = false
has_runtime_image (some major) = at_least_two major

pub record CatalogRow : Type 0 where
  pub image_tag : String
  pub chain : Chain

unfoldable pub catalog_image_tag : String → Option ℤ → Option String → String
catalog_image_tag tag major sdk_tag =
    let plain = text (chars "cartesi/rollups-node:" ++ lstrip 118 (chars tag)) in
    if has_runtime_image major
    then (elim sdk_tag [
      | none ↦ plain
      | some sdk ↦ text (chars "cartesi/rollups-runtime:" ++ lstrip 118 (chars sdk))
    ])
    else plain

-- The SELECT with its two joins, for `rc.tag = :tag`.
unfoldable pub catalog_row : Catalogs → String → Option CatalogRow
catalog_row catalogs tag = elim (lookup tag catalogs.releases) [
  | none ↦ none
  | some rc ↦
      let c = then_lookup rc.cli_tag catalogs.clis in
      let sdk_tag = bind_option c (λ row. row.sdk_tag) in
      let devnet_tag = bind_option c (λ row. row.devnet_tag) in
      let d = then_lookup devnet_tag catalogs.devnets in
      some (record {
        image_tag = catalog_image_tag tag rc.node_major_version sdk_tag;
        chain = record {
          sdk_version = ltrim_v sdk_tag;
          cli_version = elim c [ none ↦ none | some row ↦ ltrim_v rc.cli_tag ];
          devnet_version = devnet_tag;
          contracts_version = bind_option d (λ contracts_tag. contracts_tag);
          node_major_version = rc.node_major_version;
        };
      })
]

-- `major or otherwise`: None and 0 are no value.
abbrev pub major_or : Option ℤ → ℤ → ℤ
major_or none otherwise = otherwise
major_or (some (pos zero)) otherwise = otherwise
major_or (some (pos (suc n))) otherwise = pos (suc n)
major_or (some (negsuc n)) otherwise = negsuc n

-- The image and the versions that the consumer takes.
unfoldable pub image_and_chain : Catalogs → String → String × Chain
image_and_chain catalogs tag = elim (catalog_row catalogs tag) [
  | some row ↦ (
    row.image_tag,
    record row.chain {
      node_major_version = some (major_or row.chain.node_major_version (node_major_version tag));
    },
  )
  | none ↦ (
    derive_image_tag tag none,
    record {
      sdk_version = none;
      cli_version = none;
      devnet_version = none;
      contracts_version = none;
      node_major_version = some (node_major_version tag);
    },
  )
]

-- `WHERE release_tag = :tag AND triggered_by = 'github_release'`.
abbrev pub is_run_of : String → NewRun → Bool
is_run_of tag run = str_eq run.release_tag tag && is_github_release run.triggered_by

-- `msg.get("tag_name", "unknown")`, none for a message without the key. The html_url only goes into the
-- event's payload.
abbrev pub tag_of : Option String → String
tag_of none = "unknown"
tag_of (some tag) = tag

-- What the world answers while one message is handled: the catalogs, the new run's id, and whether the
-- transaction and the publishing succeed. Where one raises, `run` logs it and goes on.
pub record Answers : Type 0 where
  pub catalogs : Catalogs
  pub run_id : String
  pub commit_succeeds : Bool
  pub publish_succeeds : Bool

unfoldable pub new_run : Answers → String → NewRun
new_run a tag = record {
  id = a.run_id;
  release_tag = tag;
  image_tag = (image_and_chain a.catalogs tag).0;
  priority = 9;
  triggered_by = github_release;
  triggered_by_user = none;
  suite_ids = [];
  app_id = none;
  tags_filter = [];
  category_filter = [];
}

unfoldable pub request_for : Answers → String → SandboxRequest
request_for a tag =
    let (image_tag, chain) = image_and_chain a.catalogs tag in
    record {
      run_id = a.run_id;
      release_tag = tag;
      image_tag = image_tag;
      priority = 9;
      requested_by = some "github-watcher";
      chain = chain;
      app_id = none;
      app_name = none;
      app_github_url = none;
    }

-- `_handle` of a message with this tag_name.
unfoldable pub handle : Answers → Option String → State → List Effect
handle a tag_name s =
    let tag = tag_of tag_name in
    if any (is_run_of tag) s.runs
    then []
    else (if a.commit_succeeds
        then commits (new_run a tag) (record { run_id = a.run_id; release_tag = tag })
          ∷ (if a.publish_succeeds then publishes (request_for a tag) ∷ [] else [])
        else [])

-- `run` over the messages of the queue, one after the other.
abbrev pub run : List (Answers × Option String) → State → State
run [] s = s
run ((a, tag_name) ∷ rest) s = run rest (apply_all s (handle a tag_name s))
