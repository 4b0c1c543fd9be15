-- ===== src/Watcher/Announced.antt =====
-- How often the watchers announce a release: the node's watcher once, when it lists the release, and the
-- CLI's watcher once, when it fills in the release's toolchain.
pub mod Polling
use cartesi_release_validati.Prelude.{
  ℕ, zero, suc, ◌+◌, ◌-◌, ◌*◌, ◌/◌, ◌%◌, ◌≤◌, ◌<◌, min, max, ◌≡◌, refl, sym, ap, ◌∙◌, ◌≢◌, ◌↔◌, ◌⊎◌,
  inl, inr, Bool, true, false, not, ◌&&◌, ◌||◌, String, Option, none, some, List, [], ◌∷◌, ◌++◌,
  map, append-nil, append_assoc, arith, eq_iff, eq_refl, str_eq, if◌then◌else◌, ltb, leb, ◌==◌,
  ==_iff, ltb→lt, lt→ltb, leb→le, Bool-cases, Option-cases, length, take, drop, keep, count, all,
  any, All, length-append, length-take, length-drop, take-append-drop, count-le-length,
  count-append, lookup, has_key, insert, remove, HasDistinctKeys, In, In-keep_iff, Empty, none≢some,
  some_injective,
}
use Prim.Native.Char.{Char, code}
use cartesi_release_validati.Text.{chars, text, or_else, is_some, is_empty, truthy, ℤ}
use cartesi_release_validati.Versions.Resolve.{Found}
use cartesi_release_validati.Versions.{node_major_version}
use cartesi_release_validati.Catalog.{
  prefix_v, derive_channel, Tables, Meta, ReleaseRow, upserted, upsert, update, Statement,
  transaction, effect, release_change,
}
use cartesi_release_validati.Catalog.References.{lookup-upsert, lookup-update, updated}
use cartesi_release_validati.Catalog.Transactions.{effects, transaction-effects}
use cartesi_release_validati.Watcher.{
  Answers, GithubRelease, World, Outcome, done, raises, then_call, commit, cut_body, ReleaseEvent,
  publish_release_event, event_of, is_listed, described, details_of, insert_release_row,
  node_statements, resolved_versions, upsert_node_catalog, process_release, poll_node,
  poll_node_once, get_latest_release, fetch_cli_releases,
}
use cartesi_release_validati.Watcher.Toolchain.{
  Named, named_in, cli_statements, upsert_cli_chain, process_cli_release, CliAnswers, announce,
  updated_node_tag, lacks_cli, synthetic_release, is_new_cli, poll_cli, poll_cli_once,
  poll_contracts, poll_contracts_once, contracts_statements,
}
use cartesi_release_validati.Watcher.Rounds.{Round, attempt, run_poller}
use cartesi_release_validati.Watcher.Catalogued.{then_call-keeps}
use cartesi_release_validati.Watcher.Backfill.{filled, cli_statements-releases}

abbrev pub is_for : String → ReleaseEvent → Bool
is_for tag event = str_eq event.tag_name tag

abbrev pub has_cli : Option ReleaseRow → Bool
has_cli none = false
has_cli (some row) = is_some row.cli_tag

abbrev pub still : Bool → ℕ
still true = 0
still false = 1

-- The announcements of a release that there are, and those that may still come.
abbrev pub budget : String → World → ℕ
budget tag w =
    count (is_for tag) w.published
    + (still (is_listed tag w.releases) + still (has_cli (lookup tag w.tables.releases)))

pub still-le : (a b : Bool) → (a ≡ true → b ≡ true) → still b ≤ still a
still-le true b h = rw (h refl) refl_le
  where
    refl_le : 0 ≤ 0
    refl_le = omega arith
still-le false true h = omega arith
still-le false false h = omega arith

has_cli-upserted :
    (row : Option ReleaseRow) (fresh : ReleaseRow) (cli : Option String) (major : ℤ)
    → (change : Meta → Meta) → has_cli row ≡ true
    → is_some (upserted row fresh (release_change cli major change)).cli_tag ≡ true
has_cli-upserted none fresh cli major change h = ground arith
has_cli-upserted (some row) fresh none major change h = h
has_cli-upserted (some row) fresh (some c) major change h = refl

upsert-has_cli :
    (k tag : String) (fresh : ReleaseRow) (cli : Option String) (major : ℤ) (change : Meta → Meta)
    → (rows : List (String × ReleaseRow)) → has_cli (lookup tag rows) ≡ true
    → has_cli (lookup tag (upsert k fresh (release_change cli major change) rows)) ≡ true
upsert-has_cli k tag fresh cli major change rows h = elim (Bool-cases (str_eq k tag)) [
  | inl y ↦
      let same : k ≡ tag = ground (arith, eq_iff k tag) in
      rw (lookup-upsert k tag fresh (release_change cli major change) rows, y, same)
        (has_cli-upserted (lookup tag rows) fresh cli major change h)
  | inr n ↦ rw (lookup-upsert k tag fresh (release_change cli major change) rows, n) h
]

node_statements-has_cli :
    (release : GithubRelease) (found : Found) (t : Tables) (tag : String)
    → has_cli (lookup tag t.releases) ≡ true
    → has_cli (lookup tag (effects (node_statements release found) t).releases) ≡ true
unfolding node_statements effect
node_statements-has_cli release found t tag h =
    upsert-has_cli release.tag_name tag _ (prefix_v found.cli) (node_major_version release.tag_name)
      (described (derive_channel release.tag_name) (details_of release)) t.releases h

is_some-or_else : (a : Option String) (c : String) → is_some (or_else a (some c)) ≡ true
is_some-or_else none c = refl
is_some-or_else (some a) c = refl

pub has_cli-updated :
    (row : Option ReleaseRow) (c : String)
    → has_cli row || lacks_cli row ≡ true
    → has_cli (updated row (λ row. record row { cli_tag = or_else row.cli_tag (some c) })) ≡ true
has_cli-updated none c h = h
has_cli-updated (some row) c h = is_some-or_else row.cli_tag c

pub filled-has_cli :
    (node_tag : Option String) (c : String) (rows : List (String × ReleaseRow)) (tag : String)
    → has_cli (lookup tag rows) ≡ true
    → has_cli (lookup tag (filled node_tag c rows)) ≡ true
filled-has_cli none c rows tag h = h
filled-has_cli (some node) c rows tag h = elim (Bool-cases (str_eq node tag)) [
  | inl y ↦
      let same : node ≡ tag = ground (arith, eq_iff node tag) in
      rw
        (
          lookup-update node tag (λ row. record row { cli_tag = or_else row.cli_tag (some c) })
              rows,
          y,
          same,
        )
        (has_cli-updated (lookup tag rows) c (rw h refl))
  | inr n ↦
      rw
        (
          lookup-update node tag (λ row. record row { cli_tag = or_else row.cli_tag (some c) })
              rows,
          n,
        )
        h
]

module _ (tag : String) where
  -- 1 for a publication for the release.
  abbrev pub one_for : String → ℕ
  one_for t = if str_eq t tag then 1 else 0

  count-event :
      (event : ReleaseEvent) (events : List ReleaseEvent)
      → count (is_for tag) (event ∷ events) ≡ one_for event.tag_name + count (is_for tag) events
  count-event event events = ground arith

  commit-budget :
      (b : Bool) (release : GithubRelease) (found : Found) (w : World)
      → budget tag (commit b (transaction (node_statements release found) w.tables) w).world
        ≤ budget tag w
  commit-budget b release found w =
      of_end b (transaction (node_statements release found) w.tables) refl
    where
      same : budget tag w ≤ budget tag w
      same = omega arith

      of_end :
          (b : Bool) (end : Option Tables)
          → transaction (node_statements release found) w.tables ≡ end
          → budget tag (commit b end w).world ≤ budget tag w
      of_end b none e = same
      of_end false (some u) e = same
      of_end true (some u) e =
          let kept : has_cli (lookup tag w.tables.releases) ≡ true
              → has_cli (lookup tag u.releases) ≡ true =
            λ h.
              rw (← transaction-effects (node_statements release found) w.tables u e)
                (node_statements-has_cli release found w.tables tag h) in
          let le =
            still-le (has_cli (lookup tag w.tables.releases)) (has_cli (lookup tag u.releases))
              kept in
          omega arith

  upsert_node_catalog-budget :
      (a : Answers) (release : GithubRelease) (w : World)
      → budget tag (upsert_node_catalog a release w).world ≤ budget tag w
  unfolding upsert_node_catalog
  upsert_node_catalog-budget a release w =
      let (found, known) = resolved_versions a.page release.tag_name w.known in
      commit-budget a.commit_succeeds release found (record w { known = known })

  pub publish-budget :
      (b : Bool) (release : GithubRelease) (prs : List String) (w : World)
      → budget tag (publish_release_event b release prs w).world
        ≤ one_for release.tag_name + budget tag w
  unfolding event_of
  publish-budget true release prs w = ground arith
  publish-budget false release prs w = omega arith

  listed-budget :
      (release : GithubRelease) (w : World)
      → is_listed release.tag_name w.releases ≡ false
      → one_for release.tag_name
          + budget tag (record w { releases = release.tag_name ∷ w.releases })
        ≤ budget tag w
  listed-budget release w h = ground (arith, eq_iff release.tag_name tag)

  abbrev pub Within : ℕ → World → Type 0
  Within n w = budget tag w ≤ n

  pub unless-Within :
      (n : ℕ) (b : Bool) (o : Outcome) (w : World)
      → Within n w
      → (b ≡ false → Within n o.world)
      → Within n (if b then done w else o).world
  unless-Within n true o w h k = h
  unless-Within n false o w h k = k refl

  process_release-Within :
      (n : ℕ) (a : Answers) (release : GithubRelease) (w : World)
      → is_listed release.tag_name w.releases ≡ false
      → Within n w
      → Within n (process_release a release w).world
  unfolding process_release insert_release_row
  process_release-Within n a release w new h =
      of_test (a.insert_succeeds && is_some release.published_at)
    where
      inserted : World
      inserted = record w {
        releases =
            if is_listed release.tag_name w.releases
            then w.releases
            else release.tag_name ∷ w.releases;
      }

      room : one_for release.tag_name + budget tag inserted ≤ n
      room =
          let le = listed-budget release w new in
          let cut : one_for release.tag_name
                + budget tag (record w { releases = release.tag_name ∷ w.releases })
              ≤ n =
            omega arith in
          rw new cut

      next : World → Outcome
      next w =
          then_call (upsert_node_catalog a release w)
            (λ w. publish_release_event a.publish_succeeds release a.prs w)

      next-Within :
          (v : World) → one_for release.tag_name + budget tag v ≤ n → Within n (next v).world
      next-Within v r =
          of_second (upsert_node_catalog a release v) (upsert_node_catalog-budget a release v)
        where
          of_second :
              (o : Outcome)
              → budget tag o.world ≤ budget tag v
              → Within n
                  (then_call o
                    (λ w. publish_release_event a.publish_succeeds release a.prs w)).world
          of_second o le =
              let le2 = publish-budget a.publish_succeeds release a.prs o.world in
              of_raised o.raised (omega arith) (omega arith)
            where
              of_raised :
                  (b : Bool)
                  → Within n o.world
                  → Within n (publish_release_event a.publish_succeeds release a.prs o.world).world
                  → Within n
                      (if b
                        then o
                        else publish_release_event a.publish_succeeds release a.prs o.world).world
              of_raised true x y = x
              of_raised false x y = y

      of_test : (b : Bool) → Within n (then_call (if b then done inserted else raises w) next).world
      of_test true = next-Within inserted room
      of_test false = h

  pub poll_node-Within :
      (n : ℕ) (a : Answers) (latest : Option GithubRelease) (w : World)
      → Within n w
      → Within n (poll_node a latest w).world
  poll_node-Within n a none w h = h
  poll_node-Within n a (some release) w h =
      unless-Within n (is_listed release.tag_name w.releases) (process_release a release w) w h
        (λ new. process_release-Within n a release w new h)
