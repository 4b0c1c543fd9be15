-- ===== src/Watcher/Repeats.antt =====
-- The watcher of the CLI's releases looks at a page again: what it has processed it leaves alone.
use cartesi_release_validati.Prelude.{
  ◌≡◌, refl, sym, ◌⊎◌, inl, inr, Bool, true, false, not, ◌&&◌, ◌||◌, List, [], ◌∷◌, map, arith,
  if◌then◌else◌, All, has_key,
}
use cartesi_release_validati.Text.{is_empty}
use cartesi_release_validati.Watcher.{GithubRelease, World, Outcome, done}
use cartesi_release_validati.Watcher.Toolchain.{
  process_cli_release, CliAnswers, stripped, is_cli_tag, is_new_cli, poll_cli,
}
use cartesi_release_validati.Watcher.Completion.{is_new_cli-IsNamed}
use cartesi_release_validati.Watcher.Stored.{
  IsStored, poll_cli-IsStored, then_call-first, process_cli_release-IsStored,
}

-- The pages with the same releases, whatever is answered.
abbrev pub releases_of : List (CliAnswers × GithubRelease) → List GithubRelease
releases_of page = map (λ entry. entry.1) page

abbrev pub NoneNew : List GithubRelease → World → Type 0
NoneNew releases w = All (λ release. is_new_cli release w ≡ false) releases

pub poll_cli-NoneNew :
    (page : List (CliAnswers × GithubRelease)) (w : World)
    → NoneNew (releases_of page) w
    → poll_cli page w ≡ done w
unfolding poll_cli
poll_cli-NoneNew [] w h = refl
poll_cli-NoneNew ((a, release) ∷ rest) w (h, hs) = rw h (poll_cli-NoneNew rest w hs)

-- A tag in the catalog is not new.
pub stored-is_new_cli :
    (release : GithubRelease) (w : World)
    → IsStored (stripped release) w
    → is_new_cli release w ≡ false
unfolding is_new_cli
stored-is_new_cli release w h = ground arith

old-is_new_cli :
    (release : GithubRelease) (w : World)
    → is_new_cli release w ≡ false
    → (is_empty (stripped release) || not (is_cli_tag (stripped release)) ≡ true)
      ⊎ IsStored (stripped release) w
unfolding is_new_cli
old-is_new_cli release w h =
    split (is_empty (stripped release)) (is_cli_tag (stripped release))
      (has_key (stripped release) w.tables.clis) h
  where
    split : (a b c : Bool) → not a && b && not c ≡ false → (a || not b ≡ true) ⊎ (c ≡ true)
    split true b c h = inl refl
    split false false c h = inl refl
    split false true true h = inr refl
    split false true false h = inl (sym h)

pub skipped-is_new_cli :
    (release : GithubRelease) (w : World)
    → is_empty (stripped release) || not (is_cli_tag (stripped release)) ≡ true
    → is_new_cli release w ≡ false
unfolding is_new_cli
skipped-is_new_cli release w h =
    split (is_empty (stripped release)) (is_cli_tag (stripped release))
      (has_key (stripped release) w.tables.clis) h
  where
    split : (a b c : Bool) → a || not b ≡ true → not a && b && not c ≡ false
    split true b c h = refl
    split false false c h = refl
    split false true c h = ground arith

-- Nothing becomes new again.
poll_cli-stays_old :
    (release : GithubRelease) (page : List (CliAnswers × GithubRelease)) (w : World)
    → is_new_cli release w ≡ false
    → is_new_cli release (poll_cli page w).world ≡ false
poll_cli-stays_old release page w h = elim (old-is_new_cli release w h) [
  | inl s ↦ skipped-is_new_cli release (poll_cli page w).world s
  | inr k ↦
      stored-is_new_cli release (poll_cli page w).world
        (poll_cli-IsStored (stripped release) page w k)
]

-- What a step of the loop leaves.
step-not_new :
    (a : CliAnswers) (release : GithubRelease) (w : World)
    → stripped release ≡ release.tag_name
    → (if is_new_cli release w then process_cli_release a release w else done w).raised ≡ false
    → is_new_cli release
        (if is_new_cli release w then process_cli_release a release w else done w).world
      ≡ false
step-not_new a release w s h = of_test (is_new_cli release w) refl h
  where
    of_test :
        (b : Bool)
        → is_new_cli release w ≡ b
        → (if b then process_cli_release a release w else done w).raised ≡ false
        → is_new_cli release (if b then process_cli_release a release w else done w).world ≡ false
    of_test false e h = e
    of_test true e h =
        stored-is_new_cli release (process_cli_release a release w).world
          (rw s (process_cli_release-IsStored a release w (is_new_cli-IsNamed release w e) h))

NoneNew-same :
    (releases : List GithubRelease) (o p : Outcome)
    → o ≡ p
    → NoneNew releases p.world
    → NoneNew releases o.world
NoneNew-same releases o p e h = rw e h

poll_cli-settles :
    (page : List (CliAnswers × GithubRelease)) (w : World)
    → All (λ release. stripped release ≡ release.tag_name) (releases_of page)
    → (poll_cli page w).raised ≡ false
    → NoneNew (releases_of page) (poll_cli page w).world
unfolding poll_cli
poll_cli-settles [] w s h = tt
poll_cli-settles ((a, release) ∷ rest) w (s, ss) h =
    let step = if is_new_cli release w then process_cli_release a release w else done w in
    let (ok, same) = then_call-first step (poll_cli rest) h in
    NoneNew-same (release ∷ releases_of rest) (poll_cli ((a, release) ∷ rest) w)
      (poll_cli rest step.world) same
      (
        poll_cli-stays_old release rest step.world (step-not_new a release w s ok),
        poll_cli-settles rest step.world ss (rw same at h),
      )

-- After a pass over a page of CLI releases that raises nothing, another pass over the same
-- releases changes nothing and publishes nothing, if no tag has white space at its ends.
pub poll_cli-repeats :
    (page again : List (CliAnswers × GithubRelease)) (w : World)
    → All (λ release. stripped release ≡ release.tag_name) (releases_of page)
    → releases_of again ≡ releases_of page
    → (poll_cli page w).raised ≡ false
    → poll_cli again (poll_cli page w).world ≡ done (poll_cli page w).world
poll_cli-repeats page again w s e h =
    poll_cli-NoneNew again (poll_cli page w).world (rw e (poll_cli-settles page w s h))
