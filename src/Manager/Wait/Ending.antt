-- ===== src/Manager/Wait/Ending.antt =====
-- When and why the poll loop of `_wait_for_tests` ends.
use cartesi_release_validati.Prelude.{
  true, not, ◌&&◌, if◌then◌else◌, ltb, ltb→lt, Bool-cases, none≢some, some_injective, ℕ, zero, suc,
  ◌+◌, ◌*◌, ◌/◌, ◌≤◌, ◌<◌, ◌≡◌, refl, sym, ap, ◌∙◌, ◌⊎◌, inl, inr, Bool, false, Option, none, some,
  arith,
}
use cartesi_release_validati.Manager.Wait.{
  TestCounts, Poll, WaitEnd, run_cancelled, sessions_finished, no_session, query_raised, tests_done,
  timed_out, tests_all_done, poll_end, wait_from, wait_for_tests,
}

-- Why a poll after `elapsed` seconds ends the wait.
pub data Decides (grace : ℕ) (ai_session_run : Bool) (elapsed : ℕ) (p : Poll)
    : WaitEnd → Type 0 where
  on_cancel : p.cancelled ≡ true → Decides grace ai_session_run elapsed p run_cancelled
  on_end :
      p.cancelled ≡ false
      → ai_session_run ≡ true
      → p.session_exists ≡ true
      → p.session_active ≡ false
      → Decides grace ai_session_run elapsed p sessions_finished
  on_grace :
      p.cancelled ≡ false
      → ai_session_run ≡ true
      → p.session_exists ≡ false
      → grace < elapsed
      → Decides grace ai_session_run elapsed p no_session
  on_error :
      p.cancelled ≡ false
      → ai_session_run ≡ false
      → p.counts ≡ none
      → Decides grace ai_session_run elapsed p query_raised
  on_done :
      p.cancelled ≡ false
      → ai_session_run ≡ false
      → (c : TestCounts) → p.counts ≡ some c
      → 0 < c.dispatched
      → c.dispatched ≤ c.total_started
      → c.in_flight ≡ 0
      → Decides grace ai_session_run elapsed p tests_done

all_done_lem :
    (c : TestCounts)
    → tests_all_done c ≡ true
    → (0 < c.dispatched) × ((c.dispatched ≤ c.total_started) × (c.in_flight ≡ 0))
unfolding tests_all_done
all_done_lem c h = ground arith

poll_end-done :
    (grace elapsed : ℕ) (p : Poll) (c : TestCounts)
    → p.cancelled ≡ false
    → p.counts ≡ some c
    → (0 < c.dispatched) × ((c.dispatched ≤ c.total_started) × (c.in_flight ≡ 0))
    → poll_end grace false elapsed p ≡ some tests_done
unfolding poll_end
poll_end-done grace elapsed p c n e h = rw (n, e) (ground arith)

Decides-poll_end :
    (grace : ℕ) (ai_session_run : Bool) (elapsed : ℕ) (p : Poll) (r : WaitEnd)
    → Decides grace ai_session_run elapsed p r
    → poll_end grace ai_session_run elapsed p ≡ some r
unfolding poll_end
Decides-poll_end grace ai elapsed p r (on_cancel c) = rw c refl
Decides-poll_end grace ai elapsed p r (on_end n a e d) = rw (n, a, e, d) refl
Decides-poll_end grace ai elapsed p r (on_grace n a e l) = rw (n, a, e) (ground arith)
Decides-poll_end grace ai elapsed p r (on_error n a e) = rw (n, a, e) refl
Decides-poll_end grace ai elapsed p r (on_done n a c e i j k) =
    rw a (poll_end-done grace elapsed p c n e (i, (j, k)))

poll_end-Decides :
    (grace : ℕ) (ai_session_run : Bool) (elapsed : ℕ) (p : Poll) (r : WaitEnd)
    → poll_end grace ai_session_run elapsed p ≡ some r
    → Decides grace ai_session_run elapsed p r
unfolding poll_end
poll_end-Decides grace ai elapsed p r e =
    of_tests p.cancelled ai p.session_exists p.session_active p.counts refl refl refl refl refl e
  where
    result : Bool → Bool → Bool → Bool → Option TestCounts → Option WaitEnd
    result cancelled ai exists active counts =
        if cancelled
        then some run_cancelled
        else (if ai
            then (if exists && not active
                then some sessions_finished
                else (if not exists && ltb grace elapsed then some no_session else none))
            else elim counts [
              | none ↦ some query_raised
              | some c ↦ if tests_all_done c then some tests_done else none
            ])

    of_tests :
        (cancelled b exists active : Bool) (counts : Option TestCounts)
        → p.cancelled ≡ cancelled
        → ai ≡ b
        → p.session_exists ≡ exists
        → p.session_active ≡ active
        → p.counts ≡ counts
        → result cancelled b exists active counts ≡ some r
        → Decides grace ai elapsed p r
    of_tests true b exists active counts n a x y k e = rw (← some_injective _ _ e) (on_cancel n)
    of_tests false true true false counts n a x y k e = rw (← some_injective _ _ e) (on_end n a x y)
    of_tests false true true true counts n a x y k e = elim (none≢some e) [ ]
    of_tests false true false active counts n a x y k e = elim (Bool-cases (ltb grace elapsed)) [
      | inl late ↦
          rw (← some_injective _ _ (rw late at e)) (on_grace n a x (ltb→lt grace elapsed late))
      | inr early ↦ elim (none≢some (rw early at e)) [ ]
    ]
    of_tests false false exists active none n a x y k e =
        rw (← some_injective _ _ e) (on_error n a k)
    of_tests false false exists active (some c) n a x y k e = elim (Bool-cases (tests_all_done c)) [
      | inl all_done ↦
          let (i, (j, z)) = all_done_lem c all_done in
          rw (← some_injective _ _ (rw all_done at e)) (on_done n a c k i j z)
      | inr some_left ↦ elim (none≢some (rw some_left at e)) [ ]
    ]

module _ (grace : ℕ) (ai_session_run : Bool) (polls : ℕ → Poll) where
  -- What the turn reads and decides that ends after `k` earlier turns.
  abbrev turn : ℕ → ℕ → Option WaitEnd
  turn elapsed k = poll_end grace ai_session_run (elapsed + 5 * suc k) (polls (elapsed + 5 * suc k))

  -- For this reason the turn after `k` earlier ones ends the wait.
  abbrev pub DecidesAt : ℕ → ℕ → WaitEnd → Type 0
  DecidesAt elapsed k reason =
      Decides grace ai_session_run (elapsed + 5 * suc k) (polls (elapsed + 5 * suc k)) reason

  -- The loop ended at the first turn that decides something, with its reason.
  pub record StopsAt (elapsed left : ℕ) (r : WaitEnd × ℕ) (k : ℕ) : Type 0 where
    pub in_time : k < left
    pub slept : r.1 ≡ elapsed + 5 * suc k
    pub decided : DecidesAt elapsed k r.0
    pub first : (j : ℕ) → j < k → (reason : WaitEnd) → ¬ DecidesAt elapsed j reason

  -- No turn decided anything.
  pub record RunsOut (elapsed left : ℕ) (r : WaitEnd × ℕ) : Type 0 where
    pub reason : r.0 ≡ timed_out
    pub slept : r.1 ≡ elapsed + 5 * left
    pub silent : (j : ℕ) → j < left → (reason : WaitEnd) → ¬ DecidesAt elapsed j reason

  record Stops (elapsed left : ℕ) (r : WaitEnd × ℕ) (k : ℕ) : Type 0 where
    in_time : k < left
    slept : r.1 ≡ elapsed + 5 * suc k
    decided : turn elapsed k ≡ some r.0
    first : (j : ℕ) → j < k → turn elapsed j ≡ none

  record Silent (elapsed left : ℕ) (r : WaitEnd × ℕ) : Type 0 where
    reason : r.0 ≡ timed_out
    slept : r.1 ≡ elapsed + 5 * left
    silent : (j : ℕ) → j < left → turn elapsed j ≡ none

  shift : (elapsed j : ℕ) → turn (elapsed + 5) j ≡ turn elapsed (suc j)
  shift elapsed j =
      let e : elapsed + 5 + 5 * suc j ≡ elapsed + 5 * suc (suc j) = omega arith in
      ap (λ t. poll_end grace ai_session_run t (polls t)) e

  first_turn :
      (elapsed : ℕ)
      → turn elapsed 0 ≡ poll_end grace ai_session_run (elapsed + 5) (polls (elapsed + 5))
  first_turn elapsed =
      let e : elapsed + 5 * 1 ≡ elapsed + 5 = omega arith in
      ap (λ t. poll_end grace ai_session_run t (polls t)) e

  below_suc :
      (elapsed k : ℕ)
      → turn elapsed 0 ≡ none
      → ((j : ℕ) → j < k → turn (elapsed + 5) j ≡ none)
      → (j : ℕ) → j < suc k
      → turn elapsed j ≡ none
  below_suc elapsed k h later zero lt = h
  below_suc elapsed k h later (suc j) lt = sym (shift elapsed j) ∙ later j (omega arith)

  wait_from_lem :
      (left elapsed : ℕ)
      → ((k : ℕ) × Stops elapsed left (wait_from grace ai_session_run polls left elapsed) k)
        ⊎ Silent elapsed left (wait_from grace ai_session_run polls left elapsed)
  unfolding wait_from
  wait_from_lem zero elapsed =
      inr (record { reason = refl; slept = omega arith; silent = λ j h. elim h [ ] })
  wait_from_lem (suc left) elapsed =
      go (poll_end grace ai_session_run (elapsed + 5) (polls (elapsed + 5))) refl
        (wait_from_lem left (elapsed + 5))
    where
      go :
          (o : Option WaitEnd)
          → poll_end grace ai_session_run (elapsed + 5) (polls (elapsed + 5)) ≡ o
          → ((k : ℕ) × Stops
                (elapsed + 5)
                left
                (wait_from grace ai_session_run polls left (elapsed + 5))
                k)
            ⊎ Silent (elapsed + 5) left (wait_from grace ai_session_run polls left (elapsed + 5))
          → ((k : ℕ) × Stops elapsed
                (suc left)
                (wait_from grace ai_session_run polls (suc left) elapsed)
                k)
            ⊎ Silent elapsed (suc left) (wait_from grace ai_session_run polls (suc left) elapsed)
      go (some reason) e ih = inl (
        0,
        record {
          in_time = omega arith;
          slept = rw (e, wait_from) (omega arith);
          decided = first_turn elapsed ∙ (rw (e, wait_from) refl);
          first = λ j h. elim h [ ];
        },
      )
      go none e (inl (k, s)) = inl (
        suc k,
        record {
          in_time = omega (arith, s.in_time);
          slept = rw (e, wait_from) (omega (arith, s.slept));
          decided = sym (shift elapsed k) ∙ (rw (e, wait_from) s.decided);
          first = below_suc elapsed k (first_turn elapsed ∙ e) s.first;
        },
      )
      go none e (inr s) = inr (record {
        reason = rw (e, wait_from) s.reason;
        slept = rw (e, wait_from) (omega (arith, s.slept));
        silent = below_suc elapsed left (first_turn elapsed ∙ e) s.silent;
      })

  undecided :
      (elapsed k : ℕ) → turn elapsed k ≡ none → (reason : WaitEnd) → ¬ DecidesAt elapsed k reason
  undecided elapsed k e reason d =
      none≢some (sym e ∙ Decides-poll_end grace ai_session_run _ _ reason d)

  -- `_wait_for_tests` returns after the first poll that gives a reason to, polls lying five
  -- seconds apart, with that reason, or it times out after `timeout / 5` polls of which none
  -- gives one. The reasons are: the run is cancelled; an AI session's run has its session ended,
  -- or none after the grace time; for any other run the query raises, or the dispatched count is
  -- positive, at least that many tests have started and none is in flight.
  pub wait_for_tests_lem :
      (timeout : ℕ)
      → ((k : ℕ) × StopsAt 0 (timeout / 5) (wait_for_tests grace ai_session_run polls timeout) k)
        ⊎ RunsOut 0 (timeout / 5) (wait_for_tests grace ai_session_run polls timeout)
  unfolding wait_for_tests
  wait_for_tests_lem timeout = elim (wait_from_lem (timeout / 5) 0) [
    | inl (k, s) ↦ inl (
      k,
      record {
        in_time = s.in_time;
        slept = s.slept;
        decided = poll_end-Decides grace ai_session_run _ _ _ s.decided;
        first = λ j h. undecided 0 j (s.first j h);
      },
    )
    | inr s ↦ inr (record {
      reason = s.reason;
      slept = s.slept;
      silent = λ j h. undecided 0 j (s.silent j h);
    })
  ]
