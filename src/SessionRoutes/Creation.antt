-- ===== src/SessionRoutes/Creation.antt =====
-- POST /sessions: what a creation writes and publishes, and for which tests.
use cartesi_release_validati.Prelude.{
  ◌≤◌, ◌≡◌, refl, ap, ◌∙◌, Bool, true, false, not, ◌&&◌, String, Option, none, some, List, [], ◌∷◌,
  arith, if◌then◌else◌, length, All, lookup,
}
use cartesi_release_validati.Releases.Trigger as T
use cartesi_release_validati.SessionRoutes.{
  SessionCreate, Settings, clean_option, is_manual, is_nil, has_target, is_runnable, validate,
  SessionRow, Effect, Answers, Reply, server_error, created, or_none, bootstraps, new_row, store,
  bootstrap_run, after_trigger, after_validation, create_session,
}
use cartesi_release_validati.SessionRoutes.Created.{IsCreated, own_run, after_trigger-created}
use cartesi_release_validati.SessionRoutes.Selection.{validate-selects}

-- If `create_session` answers with a row, the request has passed its checks, and the effects end
-- with the insertion of this row and the message to the agent. Both have the session's id, the
-- selected tests, where the row has null for none, the same run and the request's sandbox, mode,
-- execution mode and goal; a bootstrap also puts its flag and its release's tag into the message.
-- Before them there is nothing and the run is the request's, or the session bootstraps: then come
-- first the new run's rows, the request to the sandbox manager and, after both, the tag of that
-- run with the session's id.
pub create_session-IsCreated :
    (uuid_of : String → Option String) (settings : Settings) (a : Answers) (body : SessionCreate)
    → (row : SessionRow) → (create_session uuid_of settings a body).0 ≡ created row
    → IsCreated settings a body row (create_session uuid_of settings a body).1
unfolding create_session
create_session-IsCreated uuid_of settings a body row e =
    of_selection (validate settings body a.definitions) refl e
  where
    of_selection :
        (v : Option (List String))
        → validate settings body a.definitions ≡ v
        → (after_validation uuid_of settings a body v).0 ≡ created row
        → IsCreated settings a body row (after_validation uuid_of settings a body v).1
    of_selection none v e = ground arith
    of_selection (some selected) v e =
        of_key (body.has_api_key && not a.encrypt_succeeds) (bootstraps body) refl e
      where
        result : Bool → Bool → Reply × List Effect
        result b c =
            if b
            then (server_error, [])
            else (if c
                then after_trigger settings a body selected
                    (T.trigger_run uuid_of a.trigger (bootstrap_run settings))
                else store settings a body selected body.run_id)

        of_key :
            (b c : Bool)
            → bootstraps body ≡ c
            → (result b c).0 ≡ created row
            → IsCreated settings a body row (result b c).1
        of_key true c k e = ground arith
        of_key false true k e = after_trigger-created settings a body selected uuid_of row v k e
        of_key false false k e = own_run settings a body selected row v k e

or_none-some : (xs : List String) → is_nil xs ≡ false → or_none xs ≡ some xs
or_none-some [] h = ground arith
or_none-some (x ∷ xs) h = refl

-- A session of the execution mode 'ai_manual' that is created has at least one selected test,
-- each of them is a definition that the agent may run, it has a sandbox or bootstraps one, and
-- its request names at most AI_MANUAL_MAX_PHASES phases.
pub create_session-selects :
    (uuid_of : String → Option String) (settings : Settings) (a : Answers) (body : SessionCreate)
    → (row : SessionRow) → is_manual body.execution_mode ≡ true
    → (create_session uuid_of settings a body).0 ≡ created row
    → ((selected : List String) × ((row.selected_tests ≡ some selected)
          × ((is_nil selected ≡ false)
              × All (λ s. is_runnable (lookup s a.definitions) ≡ true) selected)))
      × ((has_target body ≡ true)
          × (length (clean_option body.selected_phases) ≤ settings.max_phases))
unfolding new_row
create_session-selects uuid_of settings a body row m e =
    let c = create_session-IsCreated uuid_of settings a body row e in
    let ((given, runnable), rest) =
      validate-selects settings body a.definitions c.selected m c.validated in
    (
      (
        c.selected,
        (ap (λ r. r.selected_tests) c.stored ∙ or_none-some c.selected given, (given, runnable)),
      ),
      rest,
    )
