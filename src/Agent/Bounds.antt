-- ===== src/Agent/Bounds.antt =====
-- services/ai-agent/agent_loop.py: the tool calls and the turns of a session.
use cartesi_release_validati.Prelude.{
  ℕ, ◌+◌, ◌≤◌, ◌<◌, ◌≡◌, refl, ◌≢◌, ◌⊎◌, inl, inr, true, false, String, Option, none, some, List,
  [], ◌∷◌, arith, if◌then◌else◌, leb, Bool-cases, Option-cases, length, All,
}
use cartesi_release_validati.Agent.{
  Limits, Usage, StopReason, end_turn, called_tools, unexpected, Reply, Attempt, replied, Session,
  emit, call_api, retry_schedule, tool_calls_of, account, stream_turn, compress_context, over_limit,
  is_large, Turn, limit_hit, completed, stopped, api_failed, run_from, run, limit_reached,
  session_complete,
}
use cartesi_release_validati.Agent.Retries.{
  AnsweredAt-attempt, call_api_iff, stream_turn-reply, call_api-count, run_tools-count,
}

-- No reply has more than c tool calls.
unfoldable pub IsFrugal : ℕ → (ℕ → Attempt) → Type 0
IsFrugal c attempts =
    (k : ℕ) (r : Reply) → attempts k ≡ replied r → length (tool_calls_of r.content) ≤ c

account-count : (u : Usage) (s : Session) → (account u s).tool_call_count ≡ s.tool_call_count
unfolding account
account-count u s = refl

-- A turn adds at most c tool calls.
pub stream_turn-count :
    (c : ℕ) (attempts : ℕ → Attempt) (s : Session)
    → IsFrugal c attempts
    → (stream_turn attempts s).1.tool_call_count ≤ s.tool_call_count + c
unfolding IsFrugal
stream_turn-count c attempts s frugal =
    let same = call_api-count retry_schedule 1 attempts s in
    elim (Option-cases (call_api retry_schedule 1 attempts s).0) [
      | inl e ↦ rw (stream_turn-reply attempts s none e) (ground (arith, same))
      | inr (r, e) ↦
          (let (k, lt, a) = (call_api_iff retry_schedule 1 attempts s r).0 e in
            let (j, eq) = AnsweredAt-attempt attempts 1 k r a in
            let called = (call_api retry_schedule 1 attempts s).1 in
            let ran = run_tools-count (tool_calls_of r.content) (account r.usage called) in
            rw (stream_turn-reply attempts s (some r) e)
              (ground (arith, same, frugal j r eq, ran, account-count r.usage called)))
    ]

compress_context-count :
    (summary : String) (s : Session)
    → (compress_context summary s).tool_call_count ≡ s.tool_call_count
unfolding compress_context
compress_context-count summary s = elim (Bool-cases (leb (length s.messages) 6)) [
  | inl e ↦ rw e refl
  | inr e ↦ rw e refl
]

-- The session that a turn starts from.
unfoldable pub shrunk : Turn → Session → Session
shrunk t s = if is_large s then compress_context t.summary s else s

shrunk-count : (t : Turn) (s : Session) → (shrunk t s).tool_call_count ≡ s.tool_call_count
unfolding shrunk
shrunk-count t s = elim (Bool-cases (is_large s)) [
  | inl e ↦ rw e (compress_context-count t.summary s)
  | inr e ↦ rw e refl
]

pub run_from-limit :
    (l : Limits) (t : Turn) (turns : List Turn) (s : Session)
    → over_limit l t.elapsed s ≡ true
    → run_from l (t ∷ turns) s ≡ (some limit_hit, emit limit_reached s)
unfolding run_from
run_from-limit l t turns s e = rw (e, run_from) refl

-- What the loop does after a turn that ends with o.
pub run_from-turn :
    (l : Limits) (t : Turn) (turns : List Turn) (s : Session) (o : Option StopReason)
    → over_limit l t.elapsed s ≡ false
    → (stream_turn t.attempts (shrunk t s)).0 ≡ o
    → run_from l (t ∷ turns) s ≡ (
        let s2 = (stream_turn t.attempts (shrunk t s)).1 in
        elim o [
          | none ↦ (some api_failed, s2)
          | some r ↦ elim r [
            | end_turn ↦ (some completed, emit session_complete s2)
            | called_tools ↦ run_from l turns s2
            | unexpected ↦ (some stopped, s2)
          ]
        ])
unfolding run_from shrunk
run_from-turn l t turns s none e r = rw (e, run_from) (rw (r, run_from) refl)
run_from-turn l t turns s (some end_turn) e r = rw (e, run_from) (rw (r, run_from) refl)
run_from-turn l t turns s (some called_tools) e r = rw (e, run_from) (rw (r, run_from) refl)
run_from-turn l t turns s (some unexpected) e r = rw (e, run_from) (rw (r, run_from) refl)

run_from-end : (l : Limits) (s : Session) → run_from l [] s ≡ (none, s)
unfolding run_from
run_from-end l s = refl

-- A turn that does not stop for tool calls ends the loop.
pub run_from-stops :
    (l : Limits) (t : Turn) (turns : List Turn) (s : Session) (o : Option StopReason)
    → over_limit l t.elapsed s ≡ false
    → (stream_turn t.attempts (shrunk t s)).0 ≡ o
    → o ≢ some called_tools
    → ((run_from l (t ∷ turns) s).1.tool_call_count
        ≡ (stream_turn t.attempts (shrunk t s)).1.tool_call_count)
      × ((run_from l (t ∷ turns) s).0 ≢ none)
run_from-stops l t turns s none e r n = rw (run_from-turn l t turns s none e r) (refl, λ h. cc)
run_from-stops l t turns s (some end_turn) e r n =
    rw (run_from-turn l t turns s (some end_turn) e r) (refl, λ h. cc)
run_from-stops l t turns s (some called_tools) e r n = elim (n refl) [ ]
run_from-stops l t turns s (some unexpected) e r n =
    rw (run_from-turn l t turns s (some unexpected) e r) (refl, λ h. cc)

pub calls-cases : (o : Option StopReason) → (o ≡ some called_tools) ⊎ (o ≢ some called_tools)
calls-cases none = inr (λ h. cc)
calls-cases (some end_turn) = inr (λ h. cc)
calls-cases (some called_tools) = inl refl
calls-cases (some unexpected) = inr (λ h. cc)

under_limit :
    (l : Limits) (elapsed : ℕ) (s : Session)
    → over_limit l elapsed s ≡ false
    → s.tool_call_count < l.max_tool_calls
unfolding over_limit
under_limit l elapsed s e = ground arith

-- Each turn makes at most c tool calls.
abbrev pub AreFrugal : ℕ → List Turn → Type 0
AreFrugal c turns = All (λ t. IsFrugal c t.attempts) turns

run_from-count :
    (c : ℕ) (l : Limits) (turns : List Turn) (s : Session)
    → AreFrugal c turns
    → s.tool_call_count < l.max_tool_calls + c
    → (run_from l turns s).1.tool_call_count < l.max_tool_calls + c
run_from-count c l [] s h lt = rw (run_from-end l s) lt
run_from-count c l (t ∷ turns) s (frugal, h) lt = elim (Bool-cases (over_limit l t.elapsed s)) [
  | inl e ↦ rw (run_from-limit l t turns s e) lt
  | inr e ↦
      (let added = stream_turn-count c t.attempts (shrunk t s) frugal in
        let below = under_limit l t.elapsed s e in
        let same = shrunk-count t s in
        elim (calls-cases (stream_turn t.attempts (shrunk t s)).0) [
          | inl r ↦
              rw (run_from-turn l t turns s (some called_tools) e r)
                (run_from-count c l turns (stream_turn t.attempts (shrunk t s)).1 h (ground arith))
          | inr n ↦
              (let (ends, some_ending) = run_from-stops l t turns s _ e refl n in ground arith)
        ])
]

-- A session that starts with no tool calls, with a positive limit and replies of at most c tool
-- calls each, makes fewer tool calls than the limit and c together.
pub run-tool_call_count :
    (c : ℕ) (l : Limits) (initial_message : String) (turns : List Turn) (s : Session)
    → AreFrugal c turns
    → s.tool_call_count ≡ 0
    → 0 < l.max_tool_calls
    → (run l initial_message turns s).1.tool_call_count < l.max_tool_calls + c
unfolding run
run-tool_call_count c l initial_message turns s h z lt = run_from-count c l turns _ h (ground arith)
