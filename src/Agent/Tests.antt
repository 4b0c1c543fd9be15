-- ===== src/Agent/Tests.antt =====
-- Sample runs of the theorems about sessions.
use cartesi_release_validati.Prelude.{
  ℕ, zero, suc, ◌≤◌, ◌<◌, ◌≡◌, refl, ◌≢◌, none, some, List, [], ◌∷◌, arith, length,
}
use mathlib.Core.Path.{subst}
use cartesi_release_validati.Agent.{
  Limits, Block, tool_use, user_text, Usage, called_tools, Reply, Attempt, replied, transient,
  Session, call_api, tool_calls_of, stream_turn, Turn, run,
}
use cartesi_release_validati.Agent.Bounds.{IsFrugal, run-tool_call_count, shrunk}
use cartesi_release_validati.Agent.Termination.{run-ends}
use cartesi_release_validati.Agent.Compression.{
  HasNoCalls, IsExchanges, IsPaired, CallsTools, turn-IsPaired,
}

abbrev new_session : Session
new_session = record {
  messages = [];
  compression_summaries = [];
  tool_call_count = 0;
  total_tokens = 0;
  cache_read_tokens = 0;
  context_tokens = 0;
  events = [];
}

abbrev no_usage : Usage
no_usage = record { input_tokens = 9; output_tokens = 1; cache_creation = 0; cache_read = 0 }

abbrev two_calls : Reply
two_calls = record {
  stop_reason = called_tools;
  content = tool_use "t1" "read_logs" ∷ tool_use "t2" "call_jsonrpc" ∷ [];
  usage = no_usage;
}

-- A transient error, and then the reply.
abbrev second_try : ℕ → Attempt
second_try zero = transient
second_try (suc zero) = transient
second_try (suc (suc k)) = replied two_calls

abbrev turn_at : ℕ → Turn
turn_at elapsed = record { elapsed = elapsed; summary = ""; attempts = second_try }

abbrev three_at_most : Limits
three_at_most = record { max_tool_calls = 3; max_duration = 600 }

content_of : Attempt → List Block
content_of (replied r) = r.content
content_of _ = []

second_try-IsFrugal : IsFrugal 2 second_try
unfolding IsFrugal content_of tool_calls_of
second_try-IsFrugal zero r e = cc
second_try-IsFrugal (suc zero) r e = cc
second_try-IsFrugal (suc (suc k)) r e =
    subst (λ a. length (tool_calls_of (content_of a)) ≤ 2) e (omega arith)

run-tool_call_count_example :
    (run three_at_most "go"
      (turn_at 0 ∷ turn_at 9 ∷ turn_at 600 ∷ [])
      new_session).1.tool_call_count
    < 5
run-tool_call_count_example =
    run-tool_call_count 2 three_at_most "go" (turn_at 0 ∷ turn_at 9 ∷ turn_at 600 ∷ []) new_session
      (second_try-IsFrugal, (second_try-IsFrugal, (second_try-IsFrugal, tt))) refl (omega arith)

run-ends_example : (run three_at_most "go" (turn_at 0 ∷ turn_at 600 ∷ []) new_session).0 ≢ none
run-ends_example = run-ends three_at_most "go" (turn_at 0 ∷ turn_at 600 ∷ []) new_session refl

second_try-CallsTools : CallsTools second_try
unfolding CallsTools content_of tool_calls_of
second_try-CallsTools zero r e stop = cc
second_try-CallsTools (suc zero) r e stop = cc
second_try-CallsTools (suc (suc k)) r e stop =
    subst (λ a. length (tool_calls_of (content_of a)) ≢ 0) e (λ h. ground arith)

abbrev started : Session
started = record new_session { messages = user_text "go" ∷ [] }

started-IsPaired : IsPaired started.messages
unfolding HasNoCalls IsExchanges
started-IsPaired = record {
  opening = user_text "go" ∷ [];
  exchanges = [];
  split = refl;
  short = omega arith;
  calls_nothing = (tt, tt);
  paired = tt;
}

stops_for_tools : (stream_turn second_try (shrunk (turn_at 0) started)).0 ≡ some called_tools
unfolding stream_turn call_api shrunk
stops_for_tools = refl

turn-IsPaired_example : IsPaired (stream_turn second_try (shrunk (turn_at 0) started)).1.messages
turn-IsPaired_example =
    turn-IsPaired (turn_at 0) started second_try-CallsTools started-IsPaired stops_for_tools

abbrev dots : ℕ → List ℕ
dots omitted = 8230 ∷ []
