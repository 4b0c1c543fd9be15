-- ===== src/Sessions/Status.antt =====
-- With which status an autonomous session ends.
use cartesi_release_validati.Prelude.{
  ◌≡◌, String, Option, none, some, List, [], ◌∷◌, str_eq, if◌then◌else◌,
}
use cartesi_release_validati.Sessions.{
  SessionStatus, active, completed, failed, SessionRow, World, SessionManager,
}
use cartesi_release_validati.Sessions.Bootstrap.{BootstrapEnd, cancelled}
use cartesi_release_validati.Sessions.Modes.{Outcome, returned, crashed, was_cancelled}

-- The status that the table has for a session.
abbrev pub status_in : String → List SessionRow → Option SessionStatus
status_in session_id [] = none
status_in session_id (row ∷ rows) =
    if str_eq row.id session_id then some row.status else status_in session_id rows

-- The session ended, and its row says how. `before` are the rows at the start.
pub data Closes (session_id : String) (before : List SessionRow) : Outcome × World → Type 0 where
  as_completed :
      {w : World}
      → status_in session_id w.sessions ≡ some completed
      → Closes session_id before (returned, w)
  as_failed :
      {w : World}
      → status_in session_id w.sessions ≡ some failed
      → Closes session_id before (crashed, w)
  cancelled_in_loop :
      {w : World}
      → status_in session_id w.sessions ≡ some active
      → Closes session_id before (was_cancelled, w)
  cancelled_in_bootstrap :
      {w : World} → w.sessions ≡ before → Closes session_id before (was_cancelled, w)

-- The manager keeps its session's id, and a bootstrap that is cancelled leaves the rows.
abbrev Keeps : SessionManager → List SessionRow → BootstrapEnd × (SessionManager × World) → Type 0
Keeps m before r = (r.1.0.session_id ≡ m.session_id) × (r.0 ≡ cancelled → r.1.1.sessions ≡ before)
