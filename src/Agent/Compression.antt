-- ===== src/Agent/Compression.antt =====
-- services/ai-agent/agent_loop.py: the calls and the tool results in the messages, under compression.
use cartesi_release_validati.Prelude.{
  ℕ, zero, suc, ◌+◌, ◌-◌, ◌≤◌, ◌<◌, ◌≡◌, refl, sym, ap, ◌∙◌, ◌≢◌, inl, inr, String, none, some,
  List, [], ◌∷◌, ◌++◌, map, append_assoc, arith, leb, ◌==◌, Bool-cases, Option-cases, length, drop,
  All, length-append, Empty,
}
use mathlib.Core.Path.{subst}
use cartesi_release_validati.Agent.{
  Block, text_block, Message, user_text, assistant, tool_results, Usage, called_tools, Reply,
  Attempt, replied, transient, fatal, Session, call_api, retry_schedule, tool_calls_of, account,
  run_tools, result_message, stream_turn, compress_context, summarised, is_large, Turn,
}
use cartesi_release_validati.Agent.Retries.{
  Attempt-cases, call_api-end, call_api-next, waited, stream_turn-reply, call_api_iff,
  AnsweredAt-attempt,
}
use cartesi_release_validati.Agent.Bounds.{shrunk}

-- Replies with their tool results, which name just the ids of the reply's calls, in order.
unfoldable pub IsExchanges : List Message → Type 0
IsExchanges [] = Unit
IsExchanges (assistant bs ∷ tool_results ids ∷ ms) =
    (ids ≡ map (λ (id, name). id) (tool_calls_of bs)) × IsExchanges ms
IsExchanges _ = Empty

unfoldable pub HasNoCalls : Message → Type 0
HasNoCalls (user_text t) = Unit
HasNoCalls (assistant bs) = tool_calls_of bs ≡ []
HasNoCalls (tool_results ids) = Empty

-- At most two messages without calls, and then exchanges.
pub record IsPaired (ms : List Message) : Type 0 where
  pub opening : List Message
  pub exchanges : List Message
  pub split : ms ≡ (opening ++ exchanges)
  pub short : length opening ≤ 2
  pub calls_nothing : All HasNoCalls opening
  pub paired : IsExchanges exchanges

lone : (m : Message) → ¬ IsExchanges (m ∷ [])
unfolding IsExchanges
lone (user_text t) h = elim h [ ]
lone (assistant bs) h = elim h [ ]
lone (tool_results ids) h = elim h [ ]

drop-append : (n m : ℕ) (xs ys : List Message) → m ≡ length xs + n → drop m (xs ++ ys) ≡ drop n ys
drop-append n m [] ys e = ap (λ k. drop k ys) (e ∙ ground arith)
drop-append n zero (x ∷ xs) ys e = ground arith
drop-append n (suc m) (x ∷ xs) ys e = drop-append n m xs ys (ground arith)

drop_exchange :
    (m : ℕ) (r q : Message) (ms : List Message)
    → 4 ≤ length ms
    → m ≡ length ms - 4
    → drop (suc (suc (length ms)) - 4) (r ∷ q ∷ ms) ≡ drop m ms
drop_exchange m r q ms le e =
    drop-append m (suc (suc (length ms)) - 4) (r ∷ q ∷ []) ms (ground arith)

-- The last four messages of exchanges are exchanges.
last-IsExchanges : (ms : List Message) → IsExchanges ms → IsExchanges (drop (length ms - 4) ms)
unfolding IsExchanges
last-IsExchanges [] h = tt
last-IsExchanges (assistant bs ∷ tool_results ids ∷ []) h = h
last-IsExchanges (assistant bs ∷ tool_results ids ∷ assistant cs ∷ tool_results js ∷ []) h = h
last-IsExchanges (assistant bs ∷ tool_results ids ∷ assistant cs ∷ tool_results js ∷ m ∷ []) h =
    elim (lone m h.1.1) [ ]
last-IsExchanges (assistant bs ∷ tool_results ids ∷ assistant cs ∷ tool_results js ∷ m ∷ k ∷ ms) h =
    let rest = assistant cs ∷ tool_results js ∷ m ∷ k ∷ ms in
    subst (λ x. IsExchanges x)
      (sym (
        drop_exchange (length rest - 4) (assistant bs) (tool_results ids) rest (ground arith) refl))
      (last-IsExchanges (assistant cs ∷ tool_results js ∷ m ∷ k ∷ ms) h.1)
last-IsExchanges (assistant bs ∷ tool_results ids ∷ m ∷ []) h = elim (lone m h.1) [ ]
last-IsExchanges (assistant bs ∷ tool_results ids ∷ user_text t ∷ m ∷ ms) h = elim h.1 [ ]
last-IsExchanges (assistant bs ∷ tool_results ids ∷ tool_results t ∷ m ∷ ms) h = elim h.1 [ ]
last-IsExchanges (assistant bs ∷ tool_results ids ∷ assistant cs ∷ user_text t ∷ ms) h =
    elim h.1 [ ]
last-IsExchanges (assistant bs ∷ tool_results ids ∷ assistant cs ∷ assistant t ∷ ms) h =
    elim h.1 [ ]
last-IsExchanges (user_text t ∷ ms) h = elim h [ ]
last-IsExchanges (tool_results t ∷ ms) h = elim h [ ]
last-IsExchanges (assistant bs ∷ []) h = elim h [ ]
last-IsExchanges (assistant bs ∷ user_text t ∷ ms) h = elim h [ ]
last-IsExchanges (assistant bs ∷ assistant t ∷ ms) h = elim h [ ]

last_of_paired :
    (ms : List Message) (p : IsPaired ms)
    → 6 < length ms
    → drop (length ms - 4) ms ≡ drop (length p.exchanges - 4) p.exchanges
last_of_paired ms p lt =
    let len = ap length p.split in
    let sum = length-append p.opening p.exchanges in
    let short = p.short in
    ap (drop (length ms - 4)) p.split
    ∙ drop-append (length p.exchanges - 4) (length ms - 4) p.opening p.exchanges (ground arith)

kept-IsExchanges :
    (ms : List Message) (p : IsPaired ms) → 6 < length ms → IsExchanges (drop (length ms - 4) ms)
kept-IsExchanges ms p lt =
    subst (λ x. IsExchanges x) (sym (last_of_paired ms p lt))
      (last-IsExchanges p.exchanges p.paired)

understood-HasNoCalls :
    (summary t : String)
    → All HasNoCalls (user_text (summarised summary) ∷ assistant (text_block t ∷ []) ∷ [])
unfolding HasNoCalls tool_calls_of
understood-HasNoCalls summary t = (tt, (refl, tt))

compress_context-IsPaired :
    (summary : String) (s : Session)
    → IsPaired s.messages
    → IsPaired (compress_context summary s).messages
unfolding compress_context
compress_context-IsPaired summary s p = elim (Bool-cases (leb (length s.messages) 6)) [
  | inl e ↦ rw e p
  | inr e ↦ rw e (record {
    opening =
        user_text (summarised summary)
        ∷ assistant (text_block "Understood. I'll continue from where we left off." ∷ [])
        ∷ [];
    exchanges = drop (length s.messages - 4) s.messages;
    split = refl;
    short = ground arith;
    calls_nothing = understood-HasNoCalls summary _;
    paired = kept-IsExchanges s.messages p (ground arith);
  })
]

waited-messages : (d n : ℕ) (s : Session) → (waited d n s).messages ≡ s.messages
unfolding waited
waited-messages d n s = elim (Bool-cases (d == 0)) [ inl e ↦ rw e refl | inr e ↦ rw e refl ]

call_api-messages :
    (delays : List ℕ) (n : ℕ) (attempts : ℕ → Attempt) (s : Session)
    → (call_api delays n attempts s).1.messages ≡ s.messages
call_api-messages [] n attempts s = ap (λ o. o.1.messages) (call_api-end n attempts s)
call_api-messages (d ∷ ds) n attempts s = elim (Attempt-cases (attempts n)) [
  | inl (r, e) ↦ rw (call_api-next d ds n attempts s (replied r) e) (waited-messages d n s)
  | inr (inl e) ↦
      rw (call_api-next d ds n attempts s transient e)
        (call_api-messages ds (suc n) attempts (waited d n s) ∙ waited-messages d n s)
  | inr (inr e) ↦ rw (call_api-next d ds n attempts s fatal e) (waited-messages d n s)
]

run_tools-messages :
    (calls : List (String × String)) (s : Session) → (run_tools calls s).messages ≡ s.messages
unfolding run_tools
run_tools-messages [] s = refl
run_tools-messages ((i, n) ∷ calls) s = run_tools-messages calls _

account-messages : (u : Usage) (s : Session) → (account u s).messages ≡ s.messages
unfolding account
account-messages u s = refl

IsExchanges-append :
    (xs : List Message) (bs : List Block) (calls : List (String × String))
    → tool_calls_of bs ≡ calls
    → length calls ≢ 0
    → IsExchanges xs
    → IsExchanges (xs ++ (assistant bs ∷ result_message calls))
unfolding IsExchanges
IsExchanges-append [] bs [] e n h = elim (n refl) [ ]
IsExchanges-append [] bs (c ∷ calls) e n h = (ap (map (λ (id, name). id)) (sym e), tt)
IsExchanges-append (assistant cs ∷ tool_results ids ∷ ms) bs calls e n h =
    (h.0, IsExchanges-append ms bs calls e n h.1)
IsExchanges-append (user_text t ∷ ms) bs calls e n h = elim h [ ]
IsExchanges-append (tool_results t ∷ ms) bs calls e n h = elim h [ ]
IsExchanges-append (assistant cs ∷ []) bs calls e n h = elim h [ ]
IsExchanges-append (assistant cs ∷ user_text t ∷ ms) bs calls e n h = elim h [ ]
IsExchanges-append (assistant cs ∷ assistant t ∷ ms) bs calls e n h = elim h [ ]

shrunk-IsPaired : (t : Turn) (s : Session) → IsPaired s.messages → IsPaired (shrunk t s).messages
unfolding shrunk
shrunk-IsPaired t s p = elim (Bool-cases (is_large s)) [
  | inl e ↦ rw e (compress_context-IsPaired t.summary s p)
  | inr e ↦ rw e p
]

-- A reply that stops for tool calls has one.
unfoldable pub CallsTools : (ℕ → Attempt) → Type 0
CallsTools attempts =
    (k : ℕ) (r : Reply)
    → attempts k ≡ replied r
    → r.stop_reason ≡ called_tools
    → length (tool_calls_of r.content) ≢ 0

stream_turn-messages :
    (attempts : ℕ → Attempt) (s : Session) (r : Reply)
    → (call_api retry_schedule 1 attempts s).0 ≡ some r
    → (stream_turn attempts s).1.messages
      ≡ (s.messages ++ (assistant r.content ∷ result_message (tool_calls_of r.content)))
stream_turn-messages attempts s r e =
    let called = (call_api retry_schedule 1 attempts s).1 in
    rw (stream_turn-reply attempts s (some r) e) (
      ap (λ ms. ms ++ (assistant r.content ∷ result_message (tool_calls_of r.content)))
        (run_tools-messages (tool_calls_of r.content) (account r.usage called)
          ∙ account-messages r.usage called
          ∙ call_api-messages retry_schedule 1 attempts s))

IsPaired-append :
    (ms : List Message) (bs : List Block)
    → IsPaired ms
    → length (tool_calls_of bs) ≢ 0
    → IsPaired (ms ++ (assistant bs ∷ result_message (tool_calls_of bs)))
IsPaired-append ms bs p n = record {
  opening = p.opening;
  exchanges = p.exchanges ++ (assistant bs ∷ result_message (tool_calls_of bs));
  split =
      ap (λ xs. xs ++ (assistant bs ∷ result_message (tool_calls_of bs))) p.split
      ∙ append_assoc p.opening p.exchanges _;
  short = p.short;
  calls_nothing = p.calls_nothing;
  paired = IsExchanges-append p.exchanges bs (tool_calls_of bs) refl n p.paired;
}

-- If each reply that stops for tool calls has one, then a turn that stops for tool calls, with
-- the compression before it, keeps this: after at most two messages without calls, each reply is
-- followed by the results of just its calls, in order.
pub turn-IsPaired :
    (t : Turn) (s : Session)
    → CallsTools t.attempts
    → IsPaired s.messages
    → (stream_turn t.attempts (shrunk t s)).0 ≡ some called_tools
    → IsPaired (stream_turn t.attempts (shrunk t s)).1.messages
unfolding CallsTools
turn-IsPaired t s calls p stop =
    let s1 = shrunk t s in
    let p1 = shrunk-IsPaired t s p in
    elim (Option-cases (call_api retry_schedule 1 t.attempts s1).0) [
      | inl e ↦
          (let h = ap (λ o. o.0) (stream_turn-reply t.attempts s1 none e) in
            elim (absent h stop) [ ])
      | inr (r, e) ↦
          (let (k, lt, a) = (call_api_iff retry_schedule 1 t.attempts s1 r).0 e in
            let (j, eq) = AnsweredAt-attempt t.attempts 1 k r a in
            let same = ap (λ o. o.0) (stream_turn-reply t.attempts s1 (some r) e) in
            subst (λ ms. IsPaired ms) (sym (stream_turn-messages t.attempts s1 r e))
              (IsPaired-append s1.messages r.content p1
                (calls j r eq (ground (arith, same, stop)))))
    ]
  where
    absent :
        (stream_turn t.attempts (shrunk t s)).0 ≡ none
        → ¬ ((stream_turn t.attempts (shrunk t s)).0 ≡ some called_tools)
    absent a b = cc
