-- ===== src/Runs/Status.antt =====
-- services/orchestrator/consumers/sandbox_events.py: the run's status and the log rows.
use cartesi_release_validati.Prelude.{
  ℕ, zero, suc, ◌≤◌, ◌≡◌, refl, ap, ◌∙◌, inl, inr, Bool, true, false, String, Option, none, some,
  List, [], ◌∷◌, arith, str_eq, Bool-cases, length, count, All,
}
use Prim.Native.String.{[] as nil, ◌∷◌ as ◌∷ᶜ◌}
use cartesi_release_validati.Runs.{RunStatus, is_cancelled, running}
use cartesi_release_validati.Runs.Dispatch.{Definition, dispatch_tests, set_dispatched}
use cartesi_release_validati.Runs.Events.{
  LogValue, dict, not_a_dict, clamp, or_default, log_rows, SandboxEvent, log_batch, step,
  provisioning_event, ready_event, failed_event, closed_event, other_event, State, dispatch,
  handle_event, handle, handle_all, record_event, set_run_status,
}

cancelled-handle :
    (sandbox_id : String) (definitions : List Definition) (e : SandboxEvent) (s : State)
    → s.run.status ≡ RunStatus.cancelled
    → handle sandbox_id definitions e s ≡ s
unfolding handle
cancelled-handle sandbox_id definitions e s c = rw (c, handle) refl

-- No sequence of sandbox events changes the row or the logs of a cancelled run or publishes
-- anything for it.
pub handle_all-cancelled :
    (sandbox_id : String) (definitions : List Definition) (events : List SandboxEvent) (s : State)
    → s.run.status ≡ RunStatus.cancelled
    → handle_all sandbox_id definitions events s ≡ s
unfolding handle_all
handle_all-cancelled sandbox_id definitions [] s c = refl
handle_all-cancelled sandbox_id definitions (e ∷ events) s c =
    rw (cancelled-handle sandbox_id definitions e s c)
      (handle_all-cancelled sandbox_id definitions events s c)

-- The status that an event sets, if any.
pub decides : SandboxEvent → Option RunStatus
decides (ready_event app_address) = some running
decides failed_event = some RunStatus.failed
decides _ = none

pub next_status : RunStatus → SandboxEvent → RunStatus
next_status status e = elim (decides e) [ none ↦ status | some status2 ↦ status2 ]

pub last_decision : RunStatus → List SandboxEvent → RunStatus
last_decision status [] = status
last_decision status (e ∷ events) = last_decision (next_status status e) events

dispatch-status :
    (sandbox_id : String) (app : Option String) (definitions : List Definition) (s : State)
    → (dispatch sandbox_id app definitions s).run.status ≡ s.run.status
unfolding dispatch dispatch_tests set_dispatched
dispatch-status sandbox_id app definitions s = elim (Bool-cases s.run.metadata.ai_session) [
  | inl e ↦ rw e refl
  | inr e ↦ rw e refl
]

handle_event-status :
    (sandbox_id : String) (definitions : List Definition) (e : SandboxEvent) (s : State)
    → (handle_event sandbox_id definitions e s).run.status ≡ next_status s.run.status e
unfolding handle_event next_status decides
handle_event-status sandbox_id definitions (log_batch lines) s = refl
handle_event-status sandbox_id definitions (step name) s =
    elim (Bool-cases (str_eq name "service_log")) [ inl e ↦ rw e refl | inr e ↦ rw e refl ]
handle_event-status sandbox_id definitions provisioning_event s = refl
handle_event-status sandbox_id definitions (ready_event app) s =
    dispatch-status sandbox_id app definitions
      (record_event "sandbox.ready" (set_run_status running s))
handle_event-status sandbox_id definitions failed_event s = refl
handle_event-status sandbox_id definitions closed_event s = refl
handle_event-status sandbox_id definitions other_event s = refl

stays_open :
    (status : RunStatus) (e : SandboxEvent)
    → is_cancelled status ≡ false
    → is_cancelled (next_status status e) ≡ false
unfolding next_status decides
stays_open status (log_batch lines) h = h
stays_open status (step name) h = h
stays_open status provisioning_event h = h
stays_open status (ready_event app) h = refl
stays_open status failed_event h = refl
stays_open status closed_event h = h
stays_open status other_event h = h

open-handle :
    (sandbox_id : String) (definitions : List Definition) (e : SandboxEvent) (s : State)
    → is_cancelled s.run.status ≡ false
    → (handle sandbox_id definitions e s).run.status ≡ next_status s.run.status e
unfolding handle
open-handle sandbox_id definitions e s h =
    rw (h, handle) (handle_event-status sandbox_id definitions e s)

-- After a sequence of sandbox events, the status of a run that was not cancelled is the one that
-- the last ready or failed event sets, whatever the status was before, and the old one if there
-- is no such event.
pub handle_all-status :
    (sandbox_id : String) (definitions : List Definition) (events : List SandboxEvent) (s : State)
    → is_cancelled s.run.status ≡ false
    → (handle_all sandbox_id definitions events s).run.status ≡ last_decision s.run.status events
unfolding handle_all last_decision
handle_all-status sandbox_id definitions [] s h = refl
handle_all-status sandbox_id definitions (e ∷ events) s h =
    let next = open-handle sandbox_id definitions e s h in
    handle_all-status sandbox_id definitions events (handle sandbox_id definitions e s)
      (ap is_cancelled next ∙ stays_open s.run.status e h)
    ∙ ap (λ status. last_decision status events) next

pub text_length : String → ℕ
text_length nil = 0
text_length (c ∷ᶜ text) = suc (text_length text)

clamp-text_length : (n : ℕ) (text : String) → text_length (clamp n text) ≤ n
unfolding clamp text_length
clamp-text_length zero text = ground arith
clamp-text_length (suc n) nil = ground arith
clamp-text_length (suc n) (c ∷ᶜ text) = ground (arith, clamp-text_length n text)

pub is_dict : LogValue → Bool
is_dict (dict source level message ts) = true
is_dict not_a_dict = false

-- A batch of lines stores a row for each of its dicts, with a source of at most 64 and a message
-- of at most 4096 characters.
pub log_rows_lem :
    (lines : List LogValue)
    → (length (log_rows lines) ≡ count is_dict lines)
      × All (λ r. (text_length r.source ≤ 64) × (text_length r.message ≤ 4096)) (log_rows lines)
unfolding log_rows is_dict
log_rows_lem [] = (refl, tt)
log_rows_lem (not_a_dict ∷ lines) =
    let (same, bounded) = log_rows_lem lines in (ground (arith, same), bounded)
log_rows_lem (dict source level message ts ∷ lines) =
    let (same, bounded) = log_rows_lem lines in
    (
      ground (arith, same),
      (
        (
          clamp-text_length 64 (or_default source "unknown"),
          clamp-text_length 4096 (or_default message ""),
        ),
        bounded,
      ),
    )
