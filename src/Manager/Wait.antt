-- ===== src/Manager/Wait.antt =====
-- services/sandbox-manager/consumers/sandbox_queue.py, `_wait_for_tests`: the poll loop that keeps a
-- sandbox alive while its tests, or its AI sessions, are running.
pub mod Ending
use cartesi_release_validati.Prelude.{
  ℕ, zero, suc, ◌+◌, ◌-◌, ◌*◌, ◌/◌, ◌%◌, ◌≤◌, ◌<◌, min, max, ◌≡◌, refl, sym, ap, ◌∙◌, ◌≢◌, ◌↔◌, ◌⊎◌,
  inl, inr, Bool, true, false, not, ◌&&◌, ◌||◌, String, Option, none, some, List, [], ◌∷◌, ◌++◌,
  map, append-nil, append_assoc, arith, eq_iff, eq_refl, str_eq, if◌then◌else◌, ltb, leb, ◌==◌,
  ==_iff, ltb→lt, lt→ltb, leb→le, Bool-cases, Option-cases, length, take, drop, keep, count, all,
  any, All, length-append, length-take, length-drop, take-append-drop, count-le-length,
  count-append, lookup, has_key, insert, remove, HasDistinctKeys,
}

-- The row that the two COUNT queries and the dispatched_count query give.
pub record TestCounts : Type 0 where
  pub dispatched : ℕ
  pub in_flight : ℕ
  pub total_started : ℕ

-- What one turn of the loop reads from the database. `counts` is none where its queries raise; the
-- other reads catch their own errors.
pub record Poll : Type 0 where
  pub cancelled : Bool
  pub session_exists : Bool
  pub session_active : Bool
  pub counts : Option TestCounts

pub data WaitEnd : Type 0 where
  run_cancelled sessions_finished no_session tests_done query_raised timed_out : WaitEnd

-- AI_SESSION_START_GRACE_S and `timeout` of the environment and the caller.
abbrev pub poll_seconds : ℕ
poll_seconds = 5

unfoldable pub tests_all_done : TestCounts → Bool
tests_all_done c = ltb 0 c.dispatched && leb c.dispatched c.total_started && c.in_flight == 0

-- The body of the loop: none where it goes on to the next turn.
unfoldable pub poll_end : (grace : ℕ) → (ai_session_run : Bool) → ℕ → Poll → Option WaitEnd
unfolding tests_all_done
poll_end grace ai_session_run elapsed p =
    if p.cancelled
    then some run_cancelled
    else (if ai_session_run
        then (if p.session_exists && not p.session_active
            then some sessions_finished
            else (if not p.session_exists && ltb grace elapsed then some no_session else none))
        else elim p.counts [
          | none ↦ some query_raised
          | some c ↦ if tests_all_done c then some tests_done else none
        ])

module _ (grace : ℕ) (ai_session_run : Bool) (polls : ℕ → Poll) where
  -- The `for _ in range(...)`, over the turns that are left. The result is the reason, with the
  -- seconds that the loop slept.
  pub wait_from : ℕ → ℕ → WaitEnd × ℕ
  unfolding poll_end
  wait_from zero elapsed = (timed_out, elapsed)
  wait_from (suc left) elapsed =
      let slept = elapsed + poll_seconds in
      let rest = wait_from left slept in
      elim (poll_end grace ai_session_run slept (polls slept)) [
        | none ↦ rest
        | some reason ↦ (reason, slept)
      ]

  unfoldable pub wait_for_tests : ℕ → WaitEnd × ℕ
  unfolding wait_from
  wait_for_tests timeout = wait_from (timeout / poll_seconds) 0
