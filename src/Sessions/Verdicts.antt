-- ===== src/Sessions/Verdicts.antt =====
-- What an autonomous session leaves in ai.test_verdicts and ai.sessions.
use cartesi_release_validati.Prelude.{
  ◌≡◌, refl, ap, ◌∙◌, ◌⊎◌, inl, inr, Bool, true, not, ◌&&◌, String, Option, none, some, List, [],
  ◌∷◌, map, arith, eq_iff, eq_refl, str_eq, if◌then◌else◌, Bool-cases, Option-cases, keep, any, In,
}
use cartesi_release_validati.Text.{is_some}
use cartesi_release_validati.Verdicts.{Verdict, blocked}
use cartesi_release_validati.Sessions.{
  active, Recorded, Event, World, SessionManager, emit, emit_all, save_session, verdict_of,
  insert_blocked, insert_all_blocked, is_recorded, record_missing_verdicts, auto_verdict,
}
use cartesi_release_validati.Sessions.Modes.{
  returned, crashed, Answers, upsert_all, save_then, after_loop, run_loop, autonomous_body,
}

abbrev pub or_blocked : Option Verdict → Verdict
or_blocked none = blocked
or_blocked (some v) = v

verdict_of-insert_blocked :
    (session_id slug other : String) (rows : List Recorded)
    → verdict_of session_id other (insert_blocked session_id slug rows) ≡ (
        if str_eq slug other
        then some (or_blocked (verdict_of session_id other rows))
        else verdict_of session_id other rows)
unfolding insert_blocked
verdict_of-insert_blocked session_id slug other rows =
    elim (Option-cases (verdict_of session_id slug rows)) [
      | inl e ↦ ground (arith, e, eq_refl session_id, eq_iff slug other)
      | inr (v, e) ↦ ground (arith, e, eq_iff slug other)
    ]

verdict_of-insert_all_blocked :
    (session_id other : String) (slugs : List String) (rows : List Recorded)
    → verdict_of session_id other (insert_all_blocked session_id slugs rows) ≡ (
        if any (λ s. str_eq s other) slugs
        then some (or_blocked (verdict_of session_id other rows))
        else verdict_of session_id other rows)
verdict_of-insert_all_blocked session_id other [] rows = refl
verdict_of-insert_all_blocked session_id other (slug ∷ slugs) rows = ground (
  arith,
  verdict_of-insert_all_blocked session_id other slugs (insert_blocked session_id slug rows),
  verdict_of-insert_blocked session_id slug other rows,
)

emit_all-verdicts : (es : List Event) (w : World) → (emit_all es w).verdicts ≡ w.verdicts
unfolding emit
emit_all-verdicts [] w = refl
emit_all-verdicts (e ∷ es) w = emit_all-verdicts es (emit e w)

is_recorded-verdict_of :
    (session_id slug : String) (rows : List Recorded)
    → is_recorded session_id rows slug ≡ is_some (verdict_of session_id slug rows)
is_recorded-verdict_of session_id slug [] = refl
is_recorded-verdict_of session_id slug (r ∷ rows) =
    ground (arith, is_recorded-verdict_of session_id slug rows)

any-keep :
    (p : String → Bool) (slug : String) (slugs : List String)
    → any (λ s. str_eq s slug) (keep p slugs) ≡ (any (λ s. str_eq s slug) slugs && p slug)
any-keep p slug [] = refl
any-keep p slug (s ∷ slugs) = elim (Bool-cases (str_eq s slug)) [
  | inl y ↦
      let same : p s ≡ p slug = ap p ((eq_iff s slug).0 y) in
      ground (arith, y, same, any-keep p slug slugs)
  | inr n ↦ ground (arith, n, any-keep p slug slugs)
]

any-In :
    (slug : String) (slugs : List String) → In slug slugs → any (λ s. str_eq s slug) slugs ≡ true
any-In slug [] i = elim i [ ]
any-In slug (s ∷ slugs) (inl e) = ground (arith, eq_iff s slug)
any-In slug (s ∷ slugs) (inr i) = ground (arith, any-In slug slugs i)

missing : SessionManager → World → List String
missing m w = keep (λ slug. not (is_recorded m.session_id w.verdicts slug)) m.selected_tests

record_missing-verdicts :
    (m : SessionManager) (w : World)
    → m.is_manual ≡ true
    → (record_missing_verdicts true m w).verdicts
      ≡ insert_all_blocked m.session_id (missing m w) w.verdicts
unfolding record_missing_verdicts missing
record_missing-verdicts m w manual = ground (
  arith,
  emit_all-verdicts (map auto_verdict (missing m w))
      (record w { verdicts = insert_all_blocked m.session_id (missing m w) w.verdicts }),
)

any-missing :
    (m : SessionManager) (w : World) (slug : String)
    → In slug m.selected_tests
    → any (λ s. str_eq s slug) (missing m w)
      ≡ not (is_some (verdict_of m.session_id slug w.verdicts))
unfolding missing
any-missing m w slug chosen = ground (
  arith,
  any-keep (λ s. not (is_recorded m.session_id w.verdicts s)) slug m.selected_tests,
  any-In slug m.selected_tests chosen,
  is_recorded-verdict_of m.session_id slug w.verdicts,
)

record_missing-verdict :
    (m : SessionManager) (w : World) (slug : String)
    → m.is_manual ≡ true
    → In slug m.selected_tests
    → verdict_of m.session_id slug (record_missing_verdicts true m w).verdicts
      ≡ some (or_blocked (verdict_of m.session_id slug w.verdicts))
record_missing-verdict m w slug manual chosen =
    let at_end = record_missing-verdicts m w manual in
    let inserted = verdict_of-insert_all_blocked m.session_id slug (missing m w) w.verdicts in
    let asked = any-missing m w slug chosen in
    ap (verdict_of m.session_id slug) at_end
    ∙ inserted
    ∙ (elim (Option-cases (verdict_of m.session_id slug w.verdicts)) [
      | inl e ↦ ground (arith, e, asked)
      | inr (v, e) ↦ ground (arith, e, asked)
    ])

pub autonomous_body-loop :
    (a : Answers) (m : SessionManager) (w : World)
    → a.setup_succeeds ≡ true
    → a.active_saved ≡ true
    → autonomous_body a m w
      ≡ after_loop a m (run_loop a.loop (save_session m a.findings active none none w))
unfolding autonomous_body save_then
autonomous_body-loop a m w setup saved = ground arith

after_loop-verdicts :
    (a : Answers) (m : SessionManager) (w : World)
    → (a.loop.outcome ≡ returned) ⊎ (a.loop.outcome ≡ crashed)
    → (after_loop a m w).1.verdicts ≡ (record_missing_verdicts a.verdicts_saved m w).verdicts
unfolding after_loop save_then save_session emit
after_loop-verdicts a m w (inl e) = ground arith
after_loop-verdicts a m w (inr e) = ground arith

-- If an autonomous session with manual execution is set up, its saves succeed and its loop
-- returns or raises, then each selected test has the verdict that the agent recorded for it, or
-- else 'blocked'.
pub autonomous_body-verdicts :
    (a : Answers) (m : SessionManager) (w : World) (slug : String)
    → m.is_manual ≡ true
    → a.setup_succeeds ≡ true
    → a.active_saved ≡ true
    → a.verdicts_saved ≡ true
    → (a.loop.outcome ≡ returned) ⊎ (a.loop.outcome ≡ crashed)
    → In slug m.selected_tests
    → verdict_of m.session_id slug (autonomous_body a m w).1.verdicts
      ≡ some (or_blocked (verdict_of m.session_id slug (upsert_all a.loop.recorded w.verdicts)))
unfolding run_loop save_session
autonomous_body-verdicts a m w slug manual setup saved committed ended chosen =
    let v = run_loop a.loop (save_session m a.findings active none none w) in
    let missed = record_missing-verdict m v slug manual chosen in
    ap (λ r. verdict_of m.session_id slug r.1.verdicts) (autonomous_body-loop a m w setup saved)
    ∙ ap (verdict_of m.session_id slug) (after_loop-verdicts a m v ended)
    ∙ ap (λ c. verdict_of m.session_id slug (record_missing_verdicts c m v).verdicts) committed
    ∙ missed
