-- ===== src/Watcher/Lost.antt =====
-- A node release whose processing fails after `_insert_release` has committed.
use cartesi_release_validati.Prelude.{
  ◌≡◌, refl, ◌⊎◌, inl, inr, Bool, true, false, ◌&&◌, String, Option, none, some, List, ◌∷◌, arith,
  eq_refl, if◌then◌else◌,
}
use cartesi_release_validati.Text.{is_some}
use cartesi_release_validati.Catalog.{Tables, transaction}
use cartesi_release_validati.Watcher.{
  Answers, ReleaseEvent, GithubRelease, World, Outcome, done, raises, then_call, commit,
  publish_release_event, is_listed, insert_release_row, node_statements, resolved_versions,
  upsert_node_catalog, process_release, poll_node,
}

listed :
    (release : GithubRelease) (w : World)
    → is_listed release.tag_name (
        if is_listed release.tag_name w.releases then w.releases else release.tag_name ∷ w.releases)
      ≡ true
listed release w = of_test (is_listed release.tag_name w.releases) refl
  where
    of_test :
        (b : Bool)
        → is_listed release.tag_name w.releases ≡ b
        → is_listed release.tag_name (if b then w.releases else release.tag_name ∷ w.releases)
          ≡ true
    of_test true e = e
    of_test false e = ground (arith, eq_refl release.tag_name)

-- What is lost: the message is not there, and the release is listed.
abbrev IsLost : GithubRelease → List ReleaseEvent → World → Type 0
IsLost release published v =
    (v.published ≡ published) × (is_listed release.tag_name v.releases ≡ true)

commit-IsLost :
    (b : Bool) (end : Option Tables) (release : GithubRelease) (ps : List ReleaseEvent) (w : World)
    → IsLost release ps w
    → IsLost release ps (commit b end w).world
commit-IsLost b none release ps w h = h
commit-IsLost false (some t) release ps w h = h
commit-IsLost true (some t) release ps w h = h

fails-raised : (end : Option Tables) (w : World) → (commit false end w).raised ≡ true
fails-raised none w = refl
fails-raised (some t) w = refl

upsert-IsLost :
    (a : Answers) (release : GithubRelease) (ps : List ReleaseEvent) (w : World)
    → IsLost release ps w
    → IsLost release ps (upsert_node_catalog a release w).world
unfolding upsert_node_catalog
upsert-IsLost a release ps w h =
    let (found, known) = resolved_versions a.page release.tag_name w.known in
    commit-IsLost a.commit_succeeds (transaction (node_statements release found) w.tables) release
      ps (record w { known = known }) h

upsert-raised :
    (a : Answers) (release : GithubRelease) (w : World)
    → a.commit_succeeds ≡ false
    → (upsert_node_catalog a release w).raised ≡ true
unfolding upsert_node_catalog
upsert-raised a release w h =
    let (found, known) = resolved_versions a.page release.tag_name w.known in
    of_commit a.commit_succeeds h (transaction (node_statements release found) w.tables)
      (record w { known = known })
  where
    of_commit :
        (b : Bool) → b ≡ false → (end : Option Tables) (w : World) → (commit b end w).raised ≡ true
    of_commit false e end w = fails-raised end w
    of_commit true e end w = ground arith

publish-IsLost :
    (p : Bool) (release : GithubRelease) (prs : List String) (ps : List ReleaseEvent) (o : Outcome)
    → IsLost release ps o.world
    → (o.raised ≡ true) ⊎ (p ≡ false)
    → IsLost release ps (then_call o (λ w. publish_release_event p release prs w)).world
publish-IsLost p release prs ps o h f = of_test o.raised refl p f
  where
    of_test :
        (b : Bool)
        → o.raised ≡ b
        → (p : Bool) → (o.raised ≡ true) ⊎ (p ≡ false)
        → IsLost release ps (if b then o else publish_release_event p release prs o.world).world
    of_test true e p f = h
    of_test false e false f = h
    of_test false e true (inl r) = elim (absurd e r) [ ]
      where
        absurd : o.raised ≡ false → o.raised ≡ true → ⊥
        absurd e r = ground arith
    of_test false e true (inr r) = elim (absurd r) [ ]
      where
        absurd : true ≡ false → ⊥
        absurd r = ground arith

process_release-IsLost :
    (a : Answers) (release : GithubRelease) (w : World)
    → a.insert_succeeds ≡ true
    → is_some release.published_at ≡ true
    → (a.commit_succeeds ≡ false) ⊎ (a.publish_succeeds ≡ false)
    → IsLost release w.published (process_release a release w).world
unfolding process_release insert_release_row
process_release-IsLost a release w i d f =
    of_insert (a.insert_succeeds && is_some release.published_at) (ground arith)
  where
    inserted : World
    inserted = record w {
      releases =
          if is_listed release.tag_name w.releases
          then w.releases
          else release.tag_name ∷ w.releases;
    }

    next : World → Outcome
    next w =
        then_call (upsert_node_catalog a release w)
          (λ w. publish_release_event a.publish_succeeds release a.prs w)

    fails :
        (a.commit_succeeds ≡ false) ⊎ (a.publish_succeeds ≡ false)
        → ((upsert_node_catalog a release inserted).raised ≡ true) ⊎ (a.publish_succeeds ≡ false)
    fails (inl c) = inl (upsert-raised a release inserted c)
    fails (inr p) = inr p

    of_insert :
        (b : Bool)
        → b ≡ true
        → IsLost release w.published (then_call (if b then done inserted else raises w) next).world
    of_insert true e =
        publish-IsLost a.publish_succeeds release a.prs w.published
          (upsert_node_catalog a release inserted)
          (upsert-IsLost a release w.published inserted (refl, listed release w)) (fails f)
    of_insert false e = ground arith

-- If a release that has its date is not listed yet and its insertion succeeds, but the catalog's
-- commit or the publication fails, then nothing is published for it, and the next poll that gets
-- it does nothing, whatever then succeeds.
pub poll_node-IsLost :
    (a again : Answers) (release : GithubRelease) (w : World)
    → is_listed release.tag_name w.releases ≡ false
    → a.insert_succeeds ≡ true
    → is_some release.published_at ≡ true
    → (a.commit_succeeds ≡ false) ⊎ (a.publish_succeeds ≡ false)
    → let after = (poll_node a (some release) w).world in
      (after.published ≡ w.published) × (poll_node again (some release) after ≡ done after)
poll_node-IsLost a again release w new i d f =
    let (same, l) = process_release-IsLost a release w i d f in rw new (same, rw l refl)
