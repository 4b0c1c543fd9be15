-- ===== src/ReleaseRoutes/States.antt =====
-- The watchers and the routes write the same catalog: its states, and their foreign keys.
use cartesi_release_validati.Prelude.{
  ◌≡◌, refl, Bool, true, false, not, String, Option, none, some, List, [], ◌∷◌, if◌then◌else◌,
  count, lookup, has_key,
}
use cartesi_release_validati.Text.{is_empty, strip, text, chars}
use cartesi_release_validati.Releases as R
use cartesi_release_validati.Versions.Resolve.{CliRelease, Known}
use cartesi_release_validati.Catalog.{Tables, ReleaseRow, Statement, transaction, deactivate}
use cartesi_release_validati.Catalog.Keys.{WellFormed, transaction-WellFormed}
use cartesi_release_validati.Watcher.{GithubRelease, World, Response}
use cartesi_release_validati.Watcher.Toolchain.{stripped}
use cartesi_release_validati.Watcher.Rounds.{Round, attempt}
use cartesi_release_validati.Watcher.Foreign.{attempt-IsSound}
use cartesi_release_validati.ReleaseRoutes.{
  Reply, success, error, fetch_releases, finish, sync_cli_from_github, sync_sdk_from_github,
  sync_contracts_from_github, sync_from_github, synced_with, synced_nodes, node_sync, cli_sync,
  sdk_sync, contracts_sync, is_cli_release, is_sdk_release,
}
use cartesi_release_validati.ReleaseRoutes.Toolchain.{
  ToolchainUpdate, update_toolchain, update_row, read_again, toolchain_statements, new_tags,
  current_tags, ReleaseCreate, Tags, added_chain, add_statements, add_release, remove_release,
}

-- A round of the watchers, which may end with an exception, or a request.
pub data Step : Type 0 where
  polls : Bool → Round → World → Step
  syncs_cli syncs_sdk syncs_contracts : Response (List GithubRelease) → Step
  syncs : Response (List (GithubRelease × Option (List CliRelease))) → Known → Step
  updates : String → ToolchainUpdate → Step
  adds : ReleaseCreate → Option (List CliRelease) → Known → Step
  removes : String → Step

-- The tables after a step; the rest of the watchers' world is that of the step.
abbrev pub after_step : Step → Tables → Tables
after_step (polls cli_enabled r w) t =
    (attempt cli_enabled r (record w { tables = t })).world.tables
after_step (syncs_cli response) t = (sync_cli_from_github response t).1
after_step (syncs_sdk response) t = (sync_sdk_from_github response t).1
after_step (syncs_contracts response) t = (sync_contracts_from_github response t).1
after_step (syncs response known) t = (sync_from_github response t known).0.1
after_step (updates tag payload) t = (update_toolchain tag payload t).1
after_step (adds body page known) t = (add_release body page t known).0.1
after_step (removes tag) t = (remove_release tag t).1

pub data Reaches (start : Tables) : Tables → Type 0 where
  at_start : Reaches start start
  steps : {t : Tables} (s : Step) → Reaches start t → Reaches start (after_step s t)

finish-WellFormed :
    {A : Type 0} (a : A) (ss : List Statement) (t : Tables)
    → WellFormed t
    → WellFormed (finish a t (transaction ss t)).1
finish-WellFormed a ss t h = of_end (transaction ss t) refl
  where
    of_end : (end : Option Tables) → transaction ss t ≡ end → WellFormed (finish a t end).1
    of_end none e = h
    of_end (some u) e = transaction-WellFormed ss t u e h

read_again-WellFormed :
    (tag : String) (ss : List Statement) (t : Tables)
    → WellFormed t
    → WellFormed (read_again tag t (transaction ss t)).1
read_again-WellFormed tag ss t h = of_end (transaction ss t) refl
  where
    of_end : (end : Option Tables) → transaction ss t ≡ end → WellFormed (read_again tag t end).1
    of_end none e = h
    of_end (some u) e = transaction-WellFormed ss t u e h

synced_with-WellFormed :
    (statements : List GithubRelease → List Statement) (takes : GithubRelease → Bool)
    → (reply : Reply (List GithubRelease)) (t : Tables) → WellFormed t
    → WellFormed (synced_with statements takes reply t).1
synced_with-WellFormed statements takes (error status) t h = h
synced_with-WellFormed statements takes (success releases) t h =
    finish-WellFormed (count takes releases) (statements releases) t h

synced_nodes-WellFormed :
    (reply : Reply (List (GithubRelease × Option (List CliRelease)))) (t : Tables) (known : Known)
    → WellFormed t
    → WellFormed (synced_nodes reply t known).0.1
synced_nodes-WellFormed (error status) t known h = h
synced_nodes-WellFormed (success releases) t known h =
    finish-WellFormed (count (λ entry. not (is_empty (stripped entry.0))) releases)
      (node_sync releases known).0 t h

update_row-WellFormed :
    (tag : String) (payload : ToolchainUpdate) (t : Tables) (row : Option ReleaseRow)
    → WellFormed t
    → WellFormed (update_row tag payload t row).1
update_row-WellFormed tag payload t none h = h
update_row-WellFormed tag payload t (some row) h =
    read_again-WellFormed tag
      (toolchain_statements tag (new_tags payload (current_tags row.cli_tag t))) t h

pub after_step-WellFormed : (s : Step) (t : Tables) → WellFormed t → WellFormed (after_step s t)
unfolding sync_cli_from_github sync_sdk_from_github sync_contracts_from_github sync_from_github
    update_toolchain add_release remove_release
after_step-WellFormed (polls cli_enabled r w) t h =
    attempt-IsSound cli_enabled r (record w { tables = t }) h
after_step-WellFormed (syncs_cli response) t h =
    synced_with-WellFormed cli_sync is_cli_release (fetch_releases response) t h
after_step-WellFormed (syncs_sdk response) t h =
    synced_with-WellFormed sdk_sync is_sdk_release (fetch_releases response) t h
after_step-WellFormed (syncs_contracts response) t h =
    synced_with-WellFormed contracts_sync (λ release. not (is_empty (stripped release)))
      (fetch_releases response) t h
after_step-WellFormed (syncs response known) t h =
    synced_nodes-WellFormed (fetch_releases response) t known h
after_step-WellFormed (updates tag payload) t h =
    update_row-WellFormed tag payload t (lookup tag t.releases) h
after_step-WellFormed (adds body page known) t h = of_test (is_empty tag)
  where
    tag : String
    tag = text (strip (chars body.tag))

    tags : Tags
    tags = (added_chain body tag page known).0

    learned : Known
    learned = (added_chain body tag page known).1

    of_test :
        (b : Bool)
        → WellFormed
            (if◌then◌else◌ {A = (Reply R.CatalogRow × Tables) × Known} b
              ((error 422, t), known)
              (read_again tag t (transaction (add_statements body tag tags) t), learned)).0.1
    of_test true = h
    of_test false = read_again-WellFormed tag (add_statements body tag tags) t h
after_step-WellFormed (removes tag) t h = of_test (has_key tag t.releases)
  where
    of_test :
        (b : Bool)
        → WellFormed
            (if b then finish tt t (transaction (deactivate tag ∷ []) t) else (error 404, t)).1
    of_test true = finish-WellFormed tt (deactivate tag ∷ []) t h
    of_test false = h
