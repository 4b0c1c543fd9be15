-- ===== src/Releases/Once.antt =====
-- How often the consumer makes a run for a release.
use cartesi_release_validati.Prelude.{
  ◌≤◌, ◌≡◌, refl, ap, ◌∙◌, inl, inr, true, not, ◌&&◌, String, Option, List, [], ◌∷◌, arith, eq_iff,
  eq_refl, str_eq, if◌then◌else◌, ◌==◌, count, any, In,
}
use cartesi_release_validati.Releases.{
  is_github_release, NewRun, State, apply, apply_all, is_run_of, tag_of, Answers, new_run, handle,
  run,
}

-- The abstract view: the tags that have a run of the watcher's, the newest first.
unfoldable pub github_tags : List NewRun → List String
github_tags [] = []
github_tags (r ∷ runs) =
    if is_github_release r.triggered_by then r.release_tag ∷ github_tags runs else github_tags runs

-- A release adds its tag if it is not there.
unfoldable pub add_once : String → List String → List String
add_once tag tags = if any (λ t. str_eq t tag) tags then tags else tag ∷ tags

-- The messages one after the other; one whose transaction fails adds nothing.
unfoldable pub add_all : List (Answers × Option String) → List String → List String
add_all [] tags = tags
add_all ((a, tag_name) ∷ rest) tags =
    add_all rest (if a.commit_succeeds then add_once (tag_of tag_name) tags else tags)

any-github_tags :
    (tag : String) (runs : List NewRun)
    → any (λ t. str_eq t tag) (github_tags runs) ≡ any (is_run_of tag) runs
unfolding github_tags
any-github_tags tag [] = refl
any-github_tags tag (r ∷ runs) = ground (arith, any-github_tags tag runs)

handle-refines :
    (a : Answers) (tag_name : Option String) (s : State)
    → github_tags (apply_all s (handle a tag_name s)).runs ≡ (
        if a.commit_succeeds
        then add_once (tag_of tag_name) (github_tags s.runs)
        else github_tags s.runs)
unfolding handle apply add_once github_tags new_run
handle-refines a tag_name s = ground (arith, any-github_tags (tag_of tag_name) s.runs)

-- After any sequence of release messages, the tags that have a run of the watcher's are those
-- that one obtains by adding the tag of each message whose transaction succeeds, in order, unless
-- it is there.
pub run-refines :
    (messages : List (Answers × Option String)) (s : State)
    → github_tags (run messages s).runs ≡ add_all messages (github_tags s.runs)
unfolding add_all
run-refines [] s = refl
run-refines ((a, tag_name) ∷ rest) s =
    rw (← handle-refines a tag_name s) (run-refines rest (apply_all s (handle a tag_name s)))

any-count :
    (tag : String) (runs : List NewRun)
    → any (is_run_of tag) runs ≡ not (count (is_run_of tag) runs == 0)
any-count tag [] = refl
any-count tag (r ∷ runs) = ground (arith, any-count tag runs)

handle-count :
    (tag : String) (a : Answers) (tag_name : Option String) (s : State)
    → count (is_run_of tag) s.runs ≤ 1
    → (count (is_run_of tag) (apply_all s (handle a tag_name s)).runs ≡ (
        if str_eq (tag_of tag_name) tag && a.commit_succeeds
        then 1
        else count (is_run_of tag) s.runs))
unfolding handle apply new_run
handle-count tag a tag_name s h = ground (arith, any-count tag s.runs, eq_iff (tag_of tag_name) tag)

run-keeps_one :
    (tag : String) (messages : List (Answers × Option String)) (s : State)
    → count (is_run_of tag) s.runs ≡ 1
    → count (is_run_of tag) (run messages s).runs ≡ 1
run-keeps_one tag [] s h = h
run-keeps_one tag ((a, tag_name) ∷ rest) s h =
    run-keeps_one tag rest (apply_all s (handle a tag_name s))
      (ground (arith, handle-count tag a tag_name s))

-- If a tag has at most one run of the watcher's and one of the messages for it has a transaction
-- that succeeds, then after the messages the tag has exactly one, however often it is announced.
pub run-exactly_once :
    (a : Answers) (tag_name : Option String) (messages : List (Answers × Option String)) (s : State)
    → count (is_run_of (tag_of tag_name)) s.runs ≤ 1
    → In (a, tag_name) messages
    → a.commit_succeeds ≡ true
    → count (is_run_of (tag_of tag_name)) (run messages s).runs ≡ 1
run-exactly_once a tag_name [] s few member ok = elim member [ ]
run-exactly_once a tag_name ((b, other) ∷ rest) s few (inl e) ok =
    let succeeds : b.commit_succeeds ≡ true = ap (λ m. m.0.commit_succeeds) e ∙ ok in
    let same : tag_of other ≡ tag_of tag_name = ap (λ m. tag_of m.1) e in
    let counted = handle-count (tag_of tag_name) b other s few in
    run-keeps_one (tag_of tag_name) rest (apply_all s (handle b other s))
      (counted ∙ rw (same, eq_refl (tag_of tag_name), succeeds) refl)
run-exactly_once a tag_name ((b, other) ∷ rest) s few (inr i) ok =
    run-exactly_once a tag_name rest (apply_all s (handle b other s))
      (ground (arith, handle-count (tag_of tag_name) b other s few)) i ok
