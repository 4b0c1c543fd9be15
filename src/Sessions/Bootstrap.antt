-- ===== src/Sessions/Bootstrap.antt =====
-- services/ai-agent/session_manager.py: `_bootstrap_environment`, which waits until the sandbox of the
-- session's run is ready. The answers of the clock and of the database at each turn of the loop are
-- an argument; the loop runs on fuel.
pub mod Ending
use cartesi_release_validati.Prelude.{
  ℕ, zero, suc, ◌+◌, ◌-◌, ◌*◌, ◌/◌, ◌%◌, ◌≤◌, ◌<◌, min, max, ◌≡◌, refl, sym, ap, ◌∙◌, ◌≢◌, ◌↔◌, ◌⊎◌,
  inl, inr, Bool, true, false, not, ◌&&◌, ◌||◌, String, Option, none, some, List, [], ◌∷◌, ◌++◌,
  map, append-nil, append_assoc, arith, eq_iff, eq_refl, str_eq, if◌then◌else◌, ltb, leb, ◌==◌,
  ==_iff, ltb→lt, lt→ltb, leb→le, Bool-cases, Option-cases, length, take, drop, keep, count, all,
  any, All, length-append, length-take, length-drop, take-append-drop, count-le-length,
  count-append, lookup, has_key, insert, remove, HasDistinctKeys, In, In-keep_iff, Empty,
}
use cartesi_release_validati.Text.{is_some, truthy}
use cartesi_release_validati.Sessions.{
  SessionStatus, active, aborted, SandboxStatus, SessionRow, Event, bootstrap_started,
  bootstrap_ready, bootstrap_log, bootstrap_progress, World, SessionManager, emit, emit_all,
}

-- A row of orchestrator.run_logs of the run; the table is in the order of ts.
pub record LogRow : Type 0 where
  pub ts : ℕ
  pub message : String

-- The row that the query on sandbox.sandboxes gives.
pub record SandboxRow : Type 0 where
  pub id : String
  pub status : SandboxStatus

-- What one turn reads, and whether the UPDATE of a ready sandbox succeeds.
pub record Snapshot : Type 0 where
  pub session_status : Option SessionStatus
  pub sandbox : Option SandboxRow
  pub logs : List LogRow
  pub activation_succeeds : Bool

-- One turn: the seconds since the start at the loop's test, and the reads, none where one raises.
pub record Poll : Type 0 where
  pub elapsed : ℕ
  pub read : Option Snapshot

-- The sandbox became ready; a RuntimeError, or what a query raised, left the function; or the
-- CancelledError did.
pub data BootstrapEnd : Type 0 where
  became_ready : String → BootstrapEnd
  raised cancelled : BootstrapEnd

abbrev pub log_batch : ℕ
log_batch = 8

abbrev pub poll_seconds : ℕ
poll_seconds = 5

-- `sess and sess.status == "aborted"`.
abbrev pub is_aborted : Option SessionStatus → Bool
is_aborted (some aborted) = true
is_aborted _ = false

-- The tests on `status`, after the logs and the progress.
unfoldable pub status_end : Bool → Option SandboxRow → Option BootstrapEnd
status_end activation_succeeds none = none
status_end activation_succeeds (some row) = elim row.status [
  | SandboxStatus.ready ↦ some (if activation_succeeds then became_ready row.id else raised)
  | SandboxStatus.failed ↦ some raised
  | _ ↦ none
]

-- How the turn ends the loop, none where it sleeps and goes on.
unfoldable pub decision : ℕ → Poll → Option BootstrapEnd
decision timeout p =
    if ltb p.elapsed timeout
    then (elim p.read [
      | none ↦ some raised
      | some s ↦
          if is_aborted s.session_status
          then some cancelled
          else status_end s.activation_succeeds s.sandbox
    ])
    else some raised

-- `last_log_ts` and `last_status`.
pub record LoopState : Type 0 where
  pub last_log_ts : Option ℕ
  pub last_status : Option SandboxStatus

-- `AND ts > :after`, where there is one.
abbrev pub is_after : Option ℕ → LogRow → Bool
is_after none row = true
is_after (some ts) row = ltb ts row.ts

unfoldable pub log_rows : Option ℕ → List LogRow → List LogRow
log_rows last_log_ts logs = take log_batch (keep (is_after last_log_ts) logs)

abbrev pub last_ts : Option ℕ → List LogRow → Option ℕ
last_ts previous [] = previous
last_ts previous (row ∷ rows) = last_ts (some row.ts) rows

abbrev pub status_number : SandboxStatus → ℕ
status_number SandboxStatus.requested = 0
status_number SandboxStatus.queued = 1
status_number SandboxStatus.provisioning = 2
status_number SandboxStatus.ready = 3
status_number SandboxStatus.running = 4
status_number SandboxStatus.teardown = 5
status_number SandboxStatus.closed = 6
status_number SandboxStatus.failed = 7

-- `status == last_status`.
abbrev pub same_status : Option SandboxStatus → Option SandboxStatus → Bool
same_status none none = true
same_status (some a) (some b) = status_number a == status_number b
same_status _ _ = false

abbrev pub status_of : Option SandboxRow → Option SandboxStatus
status_of none = none
status_of (some row) = some row.status

-- What the turn emits before the tests on `status`, and the variables after it.
unfoldable pub relay : Snapshot → LoopState → List Event × LoopState
relay s st =
    let rows = log_rows st.last_log_ts s.logs in
    let status = status_of s.sandbox in
    (
      map (λ row. bootstrap_log row.message) rows
          ++ (if same_status status st.last_status then [] else bootstrap_progress status ∷ []),
      record { last_log_ts = last_ts st.last_log_ts rows; last_status = status },
    )

-- A turn that ends before its logs are relayed emits nothing.
unfoldable pub turn : ℕ → Poll → LoopState → List Event × LoopState
turn timeout p st =
    if ltb p.elapsed timeout
    then (elim p.read [
      | none ↦ ([], st)
      | some s ↦ if is_aborted s.session_status then ([], st) else relay s st
    ])
    else ([], st)

-- `UPDATE ai.sessions SET sandbox_id = :sbx, status = 'active' WHERE id = :id`.
unfoldable pub activate : String → String → List SessionRow → List SessionRow
activate session_id sandbox_id [] = []
activate session_id sandbox_id (row ∷ rows) =
    (if str_eq row.id session_id
      then record row { sandbox_id = some sandbox_id; status = active }
      else row)
    ∷ activate session_id sandbox_id rows

-- What follows the loop: `sandbox_id` of the manager is set too.
unfoldable pub finish :
    BootstrapEnd → SessionManager → World → BootstrapEnd × (SessionManager × World)
finish (became_ready sandbox_id) m w = (
  became_ready sandbox_id,
  (
    record m { sandbox_id = some sandbox_id },
    emit bootstrap_ready (record w { sessions = activate m.session_id sandbox_id w.sessions }),
  ),
)
finish raised m w = (raised, (m, w))
finish cancelled m w = (cancelled, (m, w))

module _ (timeout : ℕ) (polls : ℕ → Poll) (m : SessionManager) where
  -- The loop from its turn n on, over the fuel that is left.
  unfoldable pub bootstrap_loop :
      ℕ → ℕ → LoopState → World → Option (BootstrapEnd × (SessionManager × World))
  bootstrap_loop zero n st w = none
  bootstrap_loop (suc fuel) n st w =
      let (events, after) = turn timeout (polls n) st in
      let rest = bootstrap_loop fuel (suc n) after (emit_all events w) in
      elim (decision timeout (polls n)) [
        | some ended ↦ some (finish ended m (emit_all events w))
        | none ↦ rest
      ]

  -- `_bootstrap_environment`.
  unfoldable pub bootstrap_environment :
      ℕ → World → Option (BootstrapEnd × (SessionManager × World))
  bootstrap_environment fuel w =
      let started : LoopState = record { last_log_ts = none; last_status = none } in
      if is_some (truthy m.run_id)
      then bootstrap_loop fuel 0 started (emit bootstrap_started w)
      else some (raised, (m, w))
