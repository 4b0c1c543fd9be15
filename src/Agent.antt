-- ===== src/Agent.antt =====
-- services/ai-agent/agent_loop.py: the loop of a session with the model. The model's API and the tools
-- are parameters: a turn is what the API answers to each attempt. The results of the tools and the
-- markers for the API's cache are left out.
mod Tests
pub mod Retries
pub mod Bounds
pub mod Content
pub mod Termination
pub mod Compression
use Prim.Native.String.{◌++◌ as ◌++ₛ◌}
use cartesi_release_validati.Prelude.{
  ℕ, zero, suc, ◌+◌, ◌-◌, ◌*◌, ◌/◌, ◌%◌, ◌≤◌, ◌<◌, min, max, ◌≡◌, refl, sym, ap, ◌∙◌, ◌≢◌, ◌↔◌, ◌⊎◌,
  inl, inr, Bool, true, false, not, ◌&&◌, ◌||◌, String, Option, none, some, List, [], ◌∷◌, ◌++◌,
  map, append-nil, append_assoc, arith, eq_iff, eq_refl, str_eq, if◌then◌else◌, ltb, leb, ◌==◌,
  ==_iff, ltb→lt, lt→ltb, leb→le, Bool-cases, Option-cases, length, take, drop, keep, count, all,
  any, All, length-append, length-take, length-drop, take-append-drop, count-le-length,
  count-append, lookup, has_key, insert, remove, HasDistinctKeys, In, In-keep_iff, Empty,
}

pub data Mode : Type 0 where
  autonomous collaborative interactive chaos unlisted_mode : Mode

pub record Limits : Type 0 where
  pub max_tool_calls : ℕ
  pub max_duration : ℕ

-- `LIMITS.get(self.mode, LIMITS["autonomous"])`.
abbrev pub limits_of : Mode → Limits
limits_of autonomous = record { max_tool_calls = 50; max_duration = 600 }
limits_of collaborative = record { max_tool_calls = 200; max_duration = 3600 }
limits_of interactive = record { max_tool_calls = 200; max_duration = 3600 }
limits_of chaos = record { max_tool_calls = 100; max_duration = 1800 }
limits_of unlisted_mode = record { max_tool_calls = 50; max_duration = 600 }

-- An override, where None and 0 leave the limit as it is.
abbrev pub overridden_by : Option ℕ → ℕ → ℕ
overridden_by none n = n
overridden_by (some zero) n = n
overridden_by (some (suc k)) n = suc k

-- `_limits`.
unfoldable pub limits : Mode → Option ℕ → Option ℕ → Limits
limits mode max_tool_calls max_duration =
    let base = limits_of mode in
    record {
      max_tool_calls = overridden_by max_tool_calls base.max_tool_calls;
      max_duration = overridden_by max_duration base.max_duration;
    }

-- A block of a reply: a text, or a call with the tool's name and the id that its result will name.
pub data Block : Type 0 where
  text_block : String → Block
  tool_use : (id : String) → (name : String) → Block

pub data Message : Type 0 where
  user_text : String → Message
  assistant : List Block → Message
  tool_results : List String → Message

pub record Usage : Type 0 where
  pub input_tokens : ℕ
  pub output_tokens : ℕ
  pub cache_creation : ℕ
  pub cache_read : ℕ

pub data StopReason : Type 0 where
  end_turn called_tools unexpected : StopReason

pub record Reply : Type 0 where
  pub stop_reason : StopReason
  pub content : List Block
  pub usage : Usage

-- What the API does with one attempt: a final message, an error that is retried, or another one.
pub data Attempt : Type 0 where
  replied : Reply → Attempt
  transient : Attempt
  fatal : Attempt

-- The events on the live stream, without the deltas of the text, the findings and the verdicts.
pub data Event : Type 0 where
  session_started session_complete context_compressed : Event
  limit_reached : Event
  retry : (delay : ℕ) → (attempt : ℕ) → Event
  tool_call : (name : String) → (call_number : ℕ) → Event
  tool_result : (name : String) → Event

pub record Session : Type 0 where
  pub messages : List Message
  pub compression_summaries : List (ℕ × String)
  pub tool_call_count : ℕ
  pub total_tokens : ℕ
  pub cache_read_tokens : ℕ
  pub context_tokens : ℕ
  pub events : List Event

abbrev pub emit : Event → Session → Session
emit e s = record s { events = s.events ++ (e ∷ []) }

-- The loop over `(0,) + RETRY_DELAYS_S` from attempt number n on: the reply, and none for an exception.
-- `attempts` says what the API does with each; the error of the last attempt is raised.
unfoldable pub call_api : List ℕ → ℕ → (ℕ → Attempt) → Session → Option Reply × Session
call_api [] n attempts s = (none, s)
call_api (delay ∷ delays) n attempts s =
    let waited = if delay == 0 then s else emit (retry delay n) s in
    let later = call_api delays (suc n) attempts waited in
    elim (attempts n) [ replied r ↦ (some r, waited) | transient ↦ later | fatal ↦ (none, waited) ]

abbrev pub retry_schedule : List ℕ
retry_schedule = 0 ∷ 5 ∷ 15 ∷ 30 ∷ []

-- The tool calls of a reply: the id and the name of each.
unfoldable pub tool_calls_of : List Block → List (String × String)
tool_calls_of [] = []
tool_calls_of (text_block t ∷ bs) = tool_calls_of bs
tool_calls_of (tool_use id name ∷ bs) = (id, name) ∷ tool_calls_of bs

-- The usage accounting of `_stream_turn`.
unfoldable pub account : Usage → Session → Session
account u s = record s {
  total_tokens = s.total_tokens + (u.input_tokens + u.output_tokens + u.cache_creation);
  cache_read_tokens = s.cache_read_tokens + u.cache_read;
  context_tokens = u.input_tokens + u.cache_read + u.cache_creation;
}

-- The loop over the tool calls. An executor's result goes to the results and, cut, to the stream.
unfoldable pub run_tools : List (String × String) → Session → Session
run_tools [] s = s
run_tools ((id, name) ∷ calls) s =
    let n = suc s.tool_call_count in
    run_tools calls (record s {
      tool_call_count = n;
      events = s.events ++ (tool_call name n ∷ tool_result name ∷ []);
    })

abbrev pub result_message : List (String × String) → List Message
result_message [] = []
result_message (c ∷ calls) = tool_results (map (λ (id, name). id) (c ∷ calls)) ∷ []

-- `_stream_turn` and the extension of the messages by what it returns; none for an exception.
unfoldable pub stream_turn : (ℕ → Attempt) → Session → Option StopReason × Session
stream_turn attempts s =
    let (reply, called) = call_api retry_schedule 1 attempts s in
    elim reply [
      | none ↦ (none, called)
      | some r ↦
          (let calls = tool_calls_of r.content in
            let done = run_tools calls (account r.usage called) in
            (
              some r.stop_reason,
              record done {
                messages = done.messages ++ (assistant r.content ∷ result_message calls);
              },
            ))
    ]

abbrev pub summarised : String → String
summarised summary = "[Context summary from earlier in this session]\n" ++ₛ summary

-- `_compress_context` with the summary that the model writes, where int(x * 0.4) is 2 * x / 5.
unfoldable pub compress_context : String → Session → Session
compress_context summary s =
    if leb (length s.messages) 6
    then s
    else emit context_compressed (record s {
      messages =
          user_text (summarised summary)
          ∷ assistant (text_block "Understood. I'll continue from where we left off." ∷ [])
          ∷ drop (length s.messages - 4) s.messages;
      compression_summaries = s.compression_summaries ++ ((length s.messages - 4, summary) ∷ []);
      context_tokens = 2 * s.context_tokens / 5;
    })

-- `_over_limit` after `elapsed` seconds.
unfoldable pub over_limit : Limits → ℕ → Session → Bool
over_limit l elapsed s = leb l.max_tool_calls s.tool_call_count || leb l.max_duration elapsed

-- `context_tokens > CONTEXT_WINDOW * COMPRESS_THRESHOLD`.
abbrev pub is_large : Session → Bool
is_large s = ltb 160000 s.context_tokens

-- What the outside does for one turn: the time at its start, the summary if one is asked for, whose
-- call does not raise, and the API's answers to the attempts.
pub record Turn : Type 0 where
  pub elapsed : ℕ
  pub summary : String
  pub attempts : ℕ → Attempt

pub data Ending : Type 0 where
  limit_hit completed stopped api_failed : Ending

-- The loop of `run`. It ends with none where the list of turns is too short for it.
unfoldable pub run_from : Limits → List Turn → Session → Option Ending × Session
run_from l [] s = (none, s)
run_from l (t ∷ turns) s =
    let shrunk = if is_large s then compress_context t.summary s else s in
    let (reason, s2) = stream_turn t.attempts shrunk in
    let rest = run_from l turns s2 in
    if over_limit l t.elapsed s then (some limit_hit, emit limit_reached s) else elim reason [
      | none ↦ (some api_failed, s2)
      | some r ↦ elim r [
        | end_turn ↦ (some completed, emit session_complete s2)
        | called_tools ↦ rest
        | unexpected ↦ (some stopped, s2)
      ]
    ]

unfoldable pub run : Limits → String → List Turn → Session → Option Ending × Session
run l initial_message turns s =
    run_from l turns (emit session_started (record s { messages = user_text initial_message ∷ [] }))
