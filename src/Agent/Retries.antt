-- ===== src/Agent/Retries.antt =====
-- services/ai-agent/agent_loop.py: the attempts of a call of the API, and the turn by the reply that they give.
use cartesi_release_validati.Prelude.{
  ℕ, zero, suc, ◌+◌, ◌<◌, ◌≡◌, refl, ap, ◌∙◌, ◌↔◌, ◌⊎◌, inl, inr, String, Option, none, some, List,
  [], ◌∷◌, ◌++◌, arith, if◌then◌else◌, ◌==◌, Bool-cases, length,
}
use cartesi_release_validati.Agent.{
  assistant, Reply, Attempt, replied, transient, fatal, retry, Session, emit, call_api,
  retry_schedule, tool_calls_of, account, run_tools, result_message, stream_turn,
}

pub Attempt-cases :
    (a : Attempt) → ((r : Reply) × (a ≡ replied r)) ⊎ ((a ≡ transient) ⊎ (a ≡ fatal))
Attempt-cases (replied r) = inl (r, refl)
Attempt-cases transient = inr (inl refl)
Attempt-cases fatal = inr (inr refl)

-- The attempt k from n on is answered, and the ones before it have transient errors.
pub AnsweredAt : (ℕ → Attempt) → ℕ → ℕ → Reply → Type 0
AnsweredAt attempts n zero r = attempts n ≡ replied r
AnsweredAt attempts n (suc k) r = (attempts n ≡ transient) × AnsweredAt attempts (suc n) k r

-- The session after the wait for attempt n.
unfoldable pub waited : ℕ → ℕ → Session → Session
waited d n s = if d == 0 then s else emit (retry d n) s

waited-count : (d n : ℕ) (s : Session) → (waited d n s).tool_call_count ≡ s.tool_call_count
unfolding waited
waited-count d n s = elim (Bool-cases (d == 0)) [ inl e ↦ rw e refl | inr e ↦ rw e refl ]

pub call_api-end :
    (n : ℕ) (attempts : ℕ → Attempt) (s : Session) → call_api [] n attempts s ≡ (none, s)
unfolding call_api
call_api-end n attempts s = refl

pub call_api-next :
    (d : ℕ) (ds : List ℕ) (n : ℕ) (attempts : ℕ → Attempt) (s : Session) (x : Attempt)
    → attempts n ≡ x
    → call_api (d ∷ ds) n attempts s ≡ elim x [
      | replied r ↦ (some r, waited d n s)
      | transient ↦ call_api ds (suc n) attempts (waited d n s)
      | fatal ↦ (none, waited d n s)
    ]
unfolding call_api waited
call_api-next d ds n attempts s x e = rw (e, call_api) refl

-- The call of the API has a reply exactly when one of the attempts, as many as there are delays,
-- is answered with it and each attempt before has a transient error.
pub call_api_iff :
    (delays : List ℕ) (n : ℕ) (attempts : ℕ → Attempt) (s : Session) (r : Reply)
    → ((call_api delays n attempts s).0 ≡ some r)
      ↔ ((k : ℕ) × (k < length delays) × AnsweredAt attempts n k r)
unfolding AnsweredAt
call_api_iff [] n attempts s r =
    ((λ h. let e = call_api-end n attempts s in cc), (λ (k, lt, h). ground arith))
call_api_iff (d ∷ ds) n attempts s r = elim (Attempt-cases (attempts n)) [
  | inl (r2, e) ↦
      rw (call_api-next d ds n attempts s (replied r2) e)
        ((λ h. (0, ground arith, ground (arith, e, h))), at_once r2 e)
  | inr (inl e) ↦
      (let (to, from) = call_api_iff ds (suc n) attempts (waited d n s) r in
        rw (call_api-next d ds n attempts s transient e)
          ((λ h. let (k, lt, a) = to h in (suc k, ground arith, (e, a))), later from e))
  | inr (inr e) ↦ rw (call_api-next d ds n attempts s fatal e) ((λ h. cc), never e)
]
  where
    at_once :
        (r2 : Reply)
        → attempts n ≡ replied r2
        → ((k : ℕ) × (k < suc (length ds)) × AnsweredAt attempts n k r)
        → some r2 ≡ some r
    at_once r2 e (zero, lt, h) = ground (arith, e, h)
    at_once r2 e (suc k, lt, (h, a)) = ground (arith, e, h)

    later :
        (((k : ℕ) × (k < length ds) × AnsweredAt attempts (suc n) k r)
          → (call_api ds (suc n) attempts (waited d n s)).0 ≡ some r)
        → attempts n ≡ transient
        → ((k : ℕ) × (k < suc (length ds)) × AnsweredAt attempts n k r)
        → (call_api ds (suc n) attempts (waited d n s)).0 ≡ some r
    later from e (zero, lt, h) = ground (arith, e, h)
    later from e (suc k, lt, (h, a)) = from (k, ground arith, a)

    never :
        attempts n ≡ fatal
        → ((k : ℕ) × (k < suc (length ds)) × AnsweredAt attempts n k r)
        → none ≡ some r
    never e (zero, lt, h) = ground (arith, e, h)
    never e (suc k, lt, (h, a)) = ground (arith, e, h)

pub run_tools-count :
    (calls : List (String × String)) (s : Session)
    → (run_tools calls s).tool_call_count ≡ s.tool_call_count + length calls
unfolding run_tools
run_tools-count [] s = ground arith
run_tools-count ((i, n) ∷ calls) s = run_tools-count calls _ ∙ (ground arith)

pub call_api-count :
    (delays : List ℕ) (n : ℕ) (attempts : ℕ → Attempt) (s : Session)
    → (call_api delays n attempts s).1.tool_call_count ≡ s.tool_call_count
call_api-count [] n attempts s = ap (λ o. o.1.tool_call_count) (call_api-end n attempts s)
call_api-count (d ∷ ds) n attempts s = elim (Attempt-cases (attempts n)) [
  | inl (r, e) ↦ rw (call_api-next d ds n attempts s (replied r) e) (waited-count d n s)
  | inr (inl e) ↦
      rw (call_api-next d ds n attempts s transient e)
        (call_api-count ds (suc n) attempts (waited d n s) ∙ waited-count d n s)
  | inr (inr e) ↦ rw (call_api-next d ds n attempts s fatal e) (waited-count d n s)
]

pub AnsweredAt-attempt :
    (attempts : ℕ → Attempt) (n k : ℕ) (r : Reply)
    → AnsweredAt attempts n k r
    → (j : ℕ) × (attempts j ≡ replied r)
unfolding AnsweredAt
AnsweredAt-attempt attempts n zero r h = (n, h)
AnsweredAt-attempt attempts n (suc k) r (t, h) = AnsweredAt-attempt attempts (suc n) k r h

-- What a turn is, by the reply of the API.
pub stream_turn-reply :
    (attempts : ℕ → Attempt) (s : Session) (o : Option Reply)
    → (call_api retry_schedule 1 attempts s).0 ≡ o
    → stream_turn attempts s ≡ elim o [
      | none ↦ (none, (call_api retry_schedule 1 attempts s).1)
      | some r ↦
          (let calls = tool_calls_of r.content in
            let done = run_tools calls (account r.usage (call_api retry_schedule 1 attempts s).1) in
            (
              some r.stop_reason,
              record done {
                messages = done.messages ++ (assistant r.content ∷ result_message calls);
              },
            ))
    ]
unfolding stream_turn
stream_turn-reply attempts s o e = rw (e, stream_turn) refl
