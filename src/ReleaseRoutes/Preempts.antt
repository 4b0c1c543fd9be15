-- ===== src/ReleaseRoutes/Preempts.antt =====
-- POST /releases/cli/sync before the watcher has seen a CLI release: the watcher takes the release as
-- processed, so that its toolchain is never filled in.
use cartesi_release_validati.Prelude.{
  ◌≡◌, refl, sym, ap, ◌∙◌, inl, Bool, true, false, not, ◌&&◌, ◌||◌, String, some, List, [], ◌∷◌,
  if◌then◌else◌, has_key,
}
use cartesi_release_validati.Text.{is_empty, truthy}
use cartesi_release_validati.Catalog.{Tables, effect, Statement}
use cartesi_release_validati.Catalog.Transactions.{effects}
use cartesi_release_validati.Catalog.Leaves.{refers-upsert_tag}
use cartesi_release_validati.Watcher.{GithubRelease, World, done, Response}
use cartesi_release_validati.Watcher.Toolchain.{
  stripped, is_cli_tag, is_new_cli, poll_cli, CliAnswers,
}
use cartesi_release_validati.Watcher.Repeats.{
  releases_of, NoneNew, poll_cli-NoneNew, stored-is_new_cli, skipped-is_new_cli,
}
use cartesi_release_validati.Watcher.Stored.{upsert_tag-keeps}
use cartesi_release_validati.ReleaseRoutes.{
  success, fetch_releases, cli_chain, is_cli_release, cli_sync, sync_cli_from_github,
}
use cartesi_release_validati.ReleaseRoutes.Foreign.{sync_cli_from_github-ends}

-- The tables after the statements of one release.
abbrev after_cli : GithubRelease → Tables → Tables
after_cli release t = effects (cli_chain release []) t

chain-effects :
    (release : GithubRelease) (rest : List Statement) (t : Tables)
    → effects (cli_chain release rest) t ≡ effects rest (after_cli release t)
unfolding cli_chain
chain-effects release rest t = refl

chain-keeps :
    (k : String) (release : GithubRelease) (t : Tables)
    → has_key k t.clis ≡ true
    → has_key k (after_cli release t).clis ≡ true
unfolding cli_chain effect
chain-keeps k release t h = upsert_tag-keeps (truthy (some (stripped release))) _ _ t.clis k h

chain-has_key :
    (release : GithubRelease) (t : Tables)
    → is_empty (stripped release) ≡ false
    → has_key (stripped release) (after_cli release t).clis ≡ true
unfolding cli_chain effect
chain-has_key release t h = refers-upsert_tag (some (stripped release)) _ _ t.clis (inl (rw h refl))

-- The synchronisation keeps the tags of the catalog.
cli_sync-keeps :
    (k : String) (releases : List GithubRelease) (t : Tables)
    → has_key k t.clis ≡ true
    → has_key k (effects (cli_sync releases) t).clis ≡ true
cli_sync-keeps k [] t h = h
cli_sync-keeps k (release ∷ rest) t h =
    of_test (is_cli_release release) (λ u. cli_sync-keeps k rest u)
  where
    of_test :
        (b : Bool)
        → ((u : Tables)
            → has_key k u.clis ≡ true
            → has_key k (effects (cli_sync rest) u).clis ≡ true)
        → has_key k
            (effects (if b then cli_chain release (cli_sync rest) else cli_sync rest) t).clis
          ≡ true
    of_test true keeps =
        rw (chain-effects release (cli_sync rest) t)
          (keeps (after_cli release t) (chain-keeps k release t h))
    of_test false keeps = keeps t h

not_cli : (a b : Bool) → not a && b ≡ false → a || not b ≡ true
not_cli true b h = refl
not_cli false false h = refl
not_cli false true h = sym h

is_cli : (a b : Bool) → not a && b ≡ true → a ≡ false
is_cli true b h = sym h
is_cli false b h = refl

skipped :
    (release : GithubRelease) (w : World)
    → is_cli_release release ≡ false
    → is_new_cli release w ≡ false
unfolding is_cli_release
skipped release w n =
    skipped-is_new_cli release w
      (not_cli (is_empty (stripped release)) (is_cli_tag (stripped release)) n)

named :
    (release : GithubRelease) → is_cli_release release ≡ true → is_empty (stripped release) ≡ false
unfolding is_cli_release
named release y = is_cli (is_empty (stripped release)) (is_cli_tag (stripped release)) y

-- A release of the page is not new to the watcher once the page is in the tables.
cli_sync-NoneNew :
    (releases : List GithubRelease) (w : World)
    → (t : Tables) → w.tables ≡ effects (cli_sync releases) t
    → NoneNew releases w
cli_sync-NoneNew [] w t e = tt
cli_sync-NoneNew (release ∷ rest) w t e =
    of_test (is_cli_release release) refl (λ u f. cli_sync-NoneNew rest w u f) e
  where
    of_test :
        (b : Bool)
        → is_cli_release release ≡ b
        → ((u : Tables) → w.tables ≡ effects (cli_sync rest) u → NoneNew rest w)
        → w.tables ≡ effects (if b then cli_chain release (cli_sync rest) else cli_sync rest) t
        → (is_new_cli release w ≡ false) × NoneNew rest w
    of_test false n others f = (skipped release w n, others t f)
    of_test true y others f =
        let now : w.tables ≡ effects (cli_sync rest) (after_cli release t) =
          f ∙ chain-effects release (cli_sync rest) t in
        (
          stored-is_new_cli release w (
              ap (λ tables. has_key (stripped release) tables.clis) now
              ∙ cli_sync-keeps (stripped release) rest (after_cli release t)
                  (chain-has_key release t (named release y))),
          others (after_cli release t) now,
        )

-- If /releases/cli/sync has stored a page of releases, the watcher's pass over the same releases
-- on these tables changes nothing: it fills in no toolchain and announces nothing.
pub poll_cli-after_sync :
    (response : Response (List GithubRelease)) (releases : List GithubRelease) (t : Tables)
    → (page : List (CliAnswers × GithubRelease)) (w : World)
    → fetch_releases response ≡ success releases
    → w.tables ≡ (sync_cli_from_github response t).1
    → releases_of page ≡ releases
    → poll_cli page w ≡ done w
poll_cli-after_sync response releases t page w f e p = poll_cli-NoneNew page w (
    rw p (
      cli_sync-NoneNew releases w t
        (e ∙ ap (λ r. r.1) (sync_cli_from_github-ends response releases t f))))
