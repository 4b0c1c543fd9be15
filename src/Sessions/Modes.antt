-- ===== src/Sessions/Modes.antt =====
-- services/ai-agent/session_manager.py: the session modes, from the request to the session's end.
use cartesi_release_validati.Prelude.{
  ℕ, Bool, false, ◌&&◌, String, Option, none, some, List, [], ◌∷◌, str_eq, if◌then◌else◌,
}
use cartesi_release_validati.Text.{truthy}
use cartesi_release_validati.Sessions.{
  SessionStatus, active, completed, failed, Recorded, Event, session_started, session_completed,
  session_failed, World, Summary, SessionManager, emit, save_session, record_missing_verdicts,
}
use cartesi_release_validati.Sessions.Bootstrap.{
  Poll, BootstrapEnd, became_ready, raised, cancelled, bootstrap_environment,
}

-- How a mode ends: its summary is returned, an exception leaves it, or the CancelledError does.
pub data Outcome : Type 0 where
  returned crashed was_cancelled : Outcome

-- `record_test_verdict`'s INSERT ... ON CONFLICT DO UPDATE, by a tool of the agent.
unfoldable pub upsert_verdict : Recorded → List Recorded → List Recorded
upsert_verdict r [] = r ∷ []
upsert_verdict r (old ∷ rows) =
    if str_eq old.session_id r.session_id && str_eq old.definition_slug r.definition_slug
    then r ∷ rows
    else old ∷ upsert_verdict r rows

abbrev pub upsert_all : List Recorded → List Recorded → List Recorded
upsert_all [] rows = rows
upsert_all (r ∷ rs) rows = upsert_all rs (upsert_verdict r rows)

-- One run of the agent's loop: the verdicts that its tools record for the session, in order, whether
-- it returns, raises or is cancelled, and the counts and the transcript that it then has.
pub record LoopRun : Type 0 where
  pub recorded : List Recorded
  pub outcome : Outcome
  pub summary : Summary
  pub transcript : String

-- What the world answers in an autonomous session. `setup_succeeds` is about what is read before the
-- loop is built; each save is a transaction that succeeds or raises.
pub record Answers : Type 0 where
  pub bootstrap_timeout : ℕ
  pub polls : ℕ → Poll
  pub fuel : ℕ
  pub failed_saved : Bool
  pub setup_succeeds : Bool
  pub active_saved : Bool
  pub loop : LoopRun
  pub verdicts_saved : Bool
  pub final_saved : Bool
  pub findings : String

-- A save, and what follows it unless it raises.
unfoldable pub save_then :
    Bool
    → SessionManager
    → String
    → SessionStatus
    → Option Summary
    → Option String
    → (World → Outcome × World)
    → World
    → Outcome × World
save_then saves m findings status summary transcript next w =
    let saved = next (save_session m findings status summary transcript w) in
    if saves then saved else (crashed, w)

-- After `loop.run`, in autonomous mode.
unfoldable pub after_loop : Answers → SessionManager → World → Outcome × World
after_loop a m w =
    let recorded = record_missing_verdicts a.verdicts_saved m w in
    let close : SessionStatus → Event → Outcome → Outcome × World = λ status event outcome.
      save_then a.final_saved m a.findings status (some a.loop.summary) (some a.loop.transcript)
        (λ v. (outcome, emit event v)) recorded in
    elim a.loop.outcome [
      | returned ↦ close completed session_completed returned
      | crashed ↦ close failed session_failed crashed
      | was_cancelled ↦ (was_cancelled, w)
    ]

-- The agent's loop on the tables.
unfoldable pub run_loop : LoopRun → World → World
run_loop loop w = record w { verdicts = upsert_all loop.recorded w.verdicts }

-- From `_load_sandbox_ports` on.
unfoldable pub autonomous_body : Answers → SessionManager → World → Outcome × World
autonomous_body a m w =
    if a.setup_succeeds
    then save_then a.active_saved m a.findings active none none
        (λ v. after_loop a m (run_loop a.loop v)) w
    else (crashed, w)

-- What follows the bootstrap: its exceptions are saved, announced and raised again, but not the
-- CancelledError, which is no Exception.
unfoldable pub after_bootstrap :
    Bool
    → String
    → (SessionManager → World → Option (Outcome × World))
    → BootstrapEnd × (SessionManager × World)
    → Option (Outcome × World)
after_bootstrap failed_saved findings body (became_ready sandbox_id, (m, w)) = body m w
after_bootstrap failed_saved findings body (raised, (m, w)) =
    some
      (save_then failed_saved m findings failed none none (λ v. (crashed, emit session_failed v)) w)
after_bootstrap failed_saved findings body (cancelled, (m, w)) = some (was_cancelled, w)

-- `self.bootstrap and not self.sandbox_id`.
abbrev pub needs_bootstrap : SessionManager → Bool
needs_bootstrap m = elim (truthy m.sandbox_id) [ none ↦ m.bootstrap | some id ↦ false ]

abbrev pub map_option {ℓ κ} : {A : Type ℓ} {B : Type κ} → (A → B) → Option A → Option B
map_option f none = none
map_option f (some a) = some (f a)

abbrev pub bind_option {ℓ κ} : {A : Type ℓ} {B : Type κ} → Option A → (A → Option B) → Option B
bind_option none f = none
bind_option (some a) f = f a

-- The beginning of each mode.
unfoldable pub bootstrap_then :
    Answers
    → (SessionManager → World → Option (Outcome × World))
    → SessionManager
    → World
    → Option (Outcome × World)
bootstrap_then a body m w =
    if needs_bootstrap m
    then bind_option (bootstrap_environment a.bootstrap_timeout a.polls m a.fuel w)
        (after_bootstrap a.failed_saved a.findings body)
    else body m w

-- `run_autonomous`, none where the fuel of the bootstrap is too small.
unfoldable pub run_autonomous : Answers → SessionManager → World → Option (Outcome × World)
run_autonomous a m w = bootstrap_then a (λ n v. some (autonomous_body a n v)) m w

-- What the queue of a collaborative or interactive session gives: a message with the run of the loop
-- on it, the end that the user or the platform asks for, or nothing for an hour.
pub data Incoming : Type 0 where
  message : LoopRun → Incoming
  done timed_out : Incoming

-- The `while True`, none where it waits for more than is given. The counts and the transcript at its
-- end are those of the last run.
unfoldable pub message_loop : List Incoming → LoopRun → World → Option (Outcome × (LoopRun × World))
message_loop [] last w = none
message_loop (done ∷ rest) last w = some (returned, (last, w))
message_loop (timed_out ∷ rest) last w = some (returned, (last, w))
message_loop (message run ∷ rest) last w =
    let after = message_loop rest run (run_loop run w) in
    elim run.outcome [
      | returned ↦ after
      | crashed ↦ some (crashed, (run, run_loop run w))
      | was_cancelled ↦ some (was_cancelled, (run, run_loop run w))
    ]

-- After the loop of messages: only an end without an exception is saved.
unfoldable pub after_messages :
    Bool → String → SessionManager → Outcome × (LoopRun × World) → Outcome × World
after_messages final_saved findings m (returned, (last, w)) =
    save_then final_saved m findings completed (some last.summary) (some last.transcript)
      (λ v. (returned, emit session_completed v)) w
after_messages final_saved findings m (crashed, (last, w)) = (crashed, w)
after_messages final_saved findings m (was_cancelled, (last, w)) = (was_cancelled, w)

-- `run_collaborative`: the loop's first run, on the kickoff message, is that of the answers.
unfoldable pub collaborative_body :
    Answers → List Incoming → SessionManager → World → Option (Outcome × World)
collaborative_body a incoming m w =
    let saved = save_session m a.findings active none none w in
    let rest = message_loop (message a.loop ∷ incoming) a.loop saved in
    if a.setup_succeeds && a.active_saved
    then map_option (after_messages a.final_saved a.findings m) rest
    else some (crashed, w)

unfoldable pub run_collaborative :
    Answers → List Incoming → SessionManager → World → Option (Outcome × World)
run_collaborative a incoming m w = bootstrap_then a (collaborative_body a incoming) m w

-- `run_interactive`: the loop of the answers is the one before its first message.
unfoldable pub interactive_body :
    Answers → List Incoming → SessionManager → World → Option (Outcome × World)
interactive_body a incoming m w =
    let saved = emit session_started (save_session m a.findings active none none w) in
    let rest = message_loop incoming a.loop saved in
    if a.setup_succeeds && a.active_saved
    then map_option (after_messages a.final_saved a.findings m) rest
    else some (crashed, w)

unfoldable pub run_interactive :
    Answers → List Incoming → SessionManager → World → Option (Outcome × World)
run_interactive a incoming m w = bootstrap_then a (interactive_body a incoming) m w
