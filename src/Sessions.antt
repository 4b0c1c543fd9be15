-- ===== src/Sessions.antt =====
-- services/ai-agent/session_manager.py: the row of a session in ai.sessions, the verdicts that the
-- manager writes itself, and the budgets. Child modules have the bootstrap and the modes.
mod Tests
pub mod Bootstrap
pub mod Modes
pub mod Verdicts
pub mod Status
use cartesi_release_validati.Prelude.{
  ℕ, zero, suc, ◌+◌, ◌-◌, ◌*◌, ◌/◌, ◌%◌, ◌≤◌, ◌<◌, min, max, ◌≡◌, refl, sym, ap, ◌∙◌, ◌≢◌, ◌↔◌, ◌⊎◌,
  inl, inr, Bool, true, false, not, ◌&&◌, ◌||◌, String, Option, none, some, List, [], ◌∷◌, ◌++◌,
  map, append-nil, append_assoc, arith, eq_iff, eq_refl, str_eq, if◌then◌else◌, ltb, leb, ◌==◌,
  ==_iff, ltb→lt, lt→ltb, leb→le, Bool-cases, Option-cases, length, take, drop, keep, count, all,
  any, All, length-append, length-take, length-drop, take-append-drop, count-le-length,
  count-append, lookup, has_key, insert, remove, HasDistinctKeys, In, In-keep_iff, Empty,
}
use cartesi_release_validati.Text.{or_else, truthy}
use cartesi_release_validati.Verdicts.{Verdict, blocked}

-- ai_session_status.
pub data SessionStatus : Type 0 where
  starting active paused completed failed aborted : SessionStatus

-- A row of ai.sessions: the columns that the manager writes. `history` and `findings` are JSON texts,
-- and `closed` says that closed_at is not NULL.
pub record SessionRow : Type 0 where
  pub id : String
  pub sandbox_id : Option String
  pub run_id : Option String
  pub status : SessionStatus
  pub history : String
  pub findings : String
  pub tool_call_count : ℕ
  pub total_tokens : ℕ
  pub is_manual : Bool
  pub selected_tests : Option (List String)
  pub closed : Bool

-- A row of ai.test_verdicts: what the manager reads and writes of it.
pub record Recorded : Type 0 where
  pub session_id : String
  pub definition_slug : String
  pub verdict : Verdict

-- sandbox_status.
pub data SandboxStatus : Type 0 where
  requested queued provisioning ready running teardown closed failed : SandboxStatus

-- The events that the manager emits itself.
pub data Event : Type 0 where
  bootstrap_started bootstrap_ready session_started session_completed session_failed : Event
  bootstrap_log : String → Event
  bootstrap_progress : Option SandboxStatus → Event
  auto_verdict : String → Event

-- The tables, and the events in the order in which they are emitted.
pub record World : Type 0 where
  pub sessions : List SessionRow
  pub verdicts : List Recorded
  pub events : List Event

-- The fields of the SessionManager that change or decide. `is_manual` is execution_mode == "ai_manual".
pub record SessionManager : Type 0 where
  pub session_id : String
  pub run_id : Option String
  pub sandbox_id : Option String
  pub is_manual : Bool
  pub selected_tests : List String
  pub bootstrap : Bool

unfoldable pub emit : Event → World → World
emit e w = record w { events = w.events ++ (e ∷ []) }

pub record Summary : Type 0 where
  pub tool_call_count : ℕ
  pub total_tokens : ℕ

abbrev pub tool_calls_of : Option Summary → ℕ
tool_calls_of none = 0
tool_calls_of (some s) = s.tool_call_count

abbrev pub tokens_of : Option Summary → ℕ
tokens_of none = 0
tokens_of (some s) = s.total_tokens

abbrev pub or_empty_list : Option String → String
or_empty_list none = "[]"
or_empty_list (some json) = json

-- `self.selected_tests or None`.
abbrev pub selected_or_none : List String → Option (List String)
selected_or_none [] = none
selected_or_none (s ∷ rest) = some (s ∷ rest)

-- The row that the INSERT writes; the transcript is its JSON text.
unfoldable pub new_row :
    SessionManager → String → SessionStatus → Option Summary → Option String → SessionRow
new_row m findings status summary transcript = record {
  id = m.session_id;
  sandbox_id = m.sandbox_id;
  run_id = m.run_id;
  status = status;
  history = or_empty_list transcript;
  findings = findings;
  tool_call_count = tool_calls_of summary;
  total_tokens = tokens_of summary;
  is_manual = m.is_manual;
  selected_tests = selected_or_none m.selected_tests;
  closed = false;
}

-- `ON CONFLICT (id) DO UPDATE`: the row that was there, after it.
unfoldable pub updated_row : SessionRow → Option String → SessionRow → SessionRow
updated_row new transcript old = record old {
  status = new.status;
  findings = new.findings;
  history = elim transcript [ none ↦ old.history | some json ↦ new.history ];
  tool_call_count = new.tool_call_count;
  total_tokens = new.total_tokens;
  is_manual = new.is_manual;
  selected_tests = or_else old.selected_tests new.selected_tests;
  closed = true;
}

unfoldable pub upsert_session : SessionRow → Option String → List SessionRow → List SessionRow
upsert_session new transcript [] = new ∷ []
upsert_session new transcript (old ∷ rows) =
    if str_eq old.id new.id
    then updated_row new transcript old ∷ rows
    else old ∷ upsert_session new transcript rows

-- `_save_session`. `findings` is what `get_all_findings` holds.
unfoldable pub save_session :
    SessionManager → String → SessionStatus → Option Summary → Option String → World → World
save_session m findings status summary transcript w = record w {
  sessions = upsert_session (new_row m findings status summary transcript) transcript w.sessions;
}

-- The verdict of a test in a session; the pair is unique in the table.
abbrev pub verdict_of : String → String → List Recorded → Option Verdict
verdict_of session_id slug [] = none
verdict_of session_id slug (r ∷ rows) =
    if str_eq r.session_id session_id && str_eq r.definition_slug slug
    then some r.verdict
    else verdict_of session_id slug rows

-- `INSERT ... ON CONFLICT (session_id, definition_slug) DO NOTHING` of a 'blocked' verdict.
unfoldable pub insert_blocked : String → String → List Recorded → List Recorded
insert_blocked session_id slug rows = elim (verdict_of session_id slug rows) [
  | some v ↦ rows
  | none ↦ record { session_id = session_id; definition_slug = slug; verdict = blocked } ∷ rows
]

abbrev pub insert_all_blocked : String → List String → List Recorded → List Recorded
insert_all_blocked session_id [] rows = rows
insert_all_blocked session_id (slug ∷ slugs) rows =
    insert_all_blocked session_id slugs (insert_blocked session_id slug rows)

abbrev pub is_recorded : String → List Recorded → String → Bool
is_recorded session_id rows slug =
    any (λ r. str_eq r.session_id session_id && str_eq r.definition_slug slug) rows

abbrev pub emit_all : List Event → World → World
emit_all [] w = w
emit_all (e ∷ es) w = emit_all es (emit e w)

-- `_record_missing_verdicts`; where the transaction raises, the exception is logged.
unfoldable pub record_missing_verdicts : Bool → SessionManager → World → World
record_missing_verdicts commits m w =
    let missing = keep (λ slug. not (is_recorded m.session_id w.verdicts slug)) m.selected_tests in
    if m.is_manual && commits
    then emit_all (map auto_verdict missing)
        (record w { verdicts = insert_all_blocked m.session_id missing w.verdicts })
    else w

-- `_manual_max_tool_calls` and `_manual_max_duration`, none for another execution mode.
unfoldable pub manual_max_tool_calls : SessionManager → Option ℕ
manual_max_tool_calls m =
    if not m.is_manual || length m.selected_tests == 0
    then none
    else some (min 200 (max 60 (15 * length m.selected_tests + 15)))

unfoldable pub manual_max_duration : SessionManager → Option ℕ
manual_max_duration m =
    if not m.is_manual || length m.selected_tests == 0
    then none
    else some (min 3600 (max 600 (180 * length m.selected_tests)))

-- `_excluded_tools`.
unfoldable pub excluded_tools : SessionManager → List String
excluded_tools m =
    let manual = if m.is_manual then "trigger_test" ∷ [] else [] in
    elim (truthy m.sandbox_id) [
      | some id ↦ manual ++ ("provision_sandbox" ∷ "teardown_sandbox" ∷ [])
      | none ↦
          if m.bootstrap then manual ++ ("provision_sandbox" ∷ "teardown_sandbox" ∷ []) else manual
    ]
