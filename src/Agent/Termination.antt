-- ===== src/Agent/Termination.antt =====
-- services/ai-agent/agent_loop.py: the time limit of `run`.
use cartesi_release_validati.Prelude.{
  ℕ, ◌≡◌, refl, ◌≢◌, inl, inr, true, String, none, some, List, [], ◌∷◌, arith, leb, Bool-cases, any,
}
use cartesi_release_validati.Agent.{
  Limits, called_tools, Session, stream_turn, over_limit, Turn, run_from, run,
}
use cartesi_release_validati.Agent.Bounds.{
  shrunk, run_from-limit, run_from-turn, run_from-stops, calls-cases,
}

out_of_time :
    (l : Limits) (elapsed : ℕ) (s : Session)
    → leb l.max_duration elapsed ≡ true
    → over_limit l elapsed s ≡ true
unfolding over_limit
out_of_time l elapsed s h = ground arith

run_from-ends :
    (l : Limits) (turns : List Turn) (s : Session)
    → any (λ t. leb l.max_duration t.elapsed) turns ≡ true
    → (run_from l turns s).0 ≢ none
run_from-ends l [] s h = cc
run_from-ends l (t ∷ turns) s h = elim (Bool-cases (over_limit l t.elapsed s)) [
  | inl e ↦ rw (run_from-limit l t turns s e) (λ h. cc)
  | inr e ↦ elim (calls-cases (stream_turn t.attempts (shrunk t s)).0) [
    | inl r ↦ rw (run_from-turn l t turns s (some called_tools) e r) (
        run_from-ends l turns (stream_turn t.attempts (shrunk t s)).1
          (ground (arith, out_of_time l t.elapsed s)))
    | inr n ↦ (run_from-stops l t turns s _ e refl n).1
  ]
]

-- If one of the turns would start when the time limit is reached, the loop of the session ends at
-- that turn or before it, whatever the API answers.
pub run-ends :
    (l : Limits) (initial_message : String) (turns : List Turn) (s : Session)
    → any (λ t. leb l.max_duration t.elapsed) turns ≡ true
    → (run l initial_message turns s).0 ≢ none
unfolding run
run-ends l initial_message turns s h = run_from-ends l turns _ h
