-- ===== src/Sessions/Bootstrap/Ending.antt =====
-- That `_bootstrap_environment` returns, and what it returns.
use cartesi_release_validati.Prelude.{
  none≢some, ℕ, zero, suc, ◌+◌, ◌*◌, ◌/◌, ◌≤◌, ◌<◌, ◌≡◌, refl, sym, ap, ◌∙◌, ◌⊎◌, inl, inr, true,
  Option, none, some, List, arith, Option-cases,
}
use cartesi_release_validati.Text.{is_some, truthy}
use cartesi_release_validati.Sessions.{
  World, SessionManager, emit, emit_all, Event, bootstrap_started,
}
use cartesi_release_validati.Sessions.Bootstrap.{
  Poll, LoopState, BootstrapEnd, raised, poll_seconds, decision, turn, finish, bootstrap_loop,
  bootstrap_environment,
}

module _ (timeout : ℕ) (polls : ℕ → Poll) (m : SessionManager) where
  -- The first turn from `n` on that decides how the loop ends.
  pub record EndsAt (n : ℕ) (r : Option (BootstrapEnd × (SessionManager × World))) (k : ℕ)
      : Type 0 where
    pub ended : BootstrapEnd
    pub decided : decision timeout (polls (n + k)) ≡ some ended
    pub earlier : (j : ℕ) → j < k → decision timeout (polls (n + j)) ≡ none
    pub left : World
    pub returns : r ≡ some (finish ended m left)

  shift : (n j : ℕ) → decision timeout (polls (suc n + j)) ≡ decision timeout (polls (n + suc j))
  shift n j = let e : suc n + j ≡ n + suc j = omega arith in ap (λ t. decision timeout (polls t)) e

  here : (n : ℕ) → decision timeout (polls (n + 0)) ≡ decision timeout (polls n)
  here n = let e : n + 0 ≡ n = omega arith in ap (λ t. decision timeout (polls t)) e

  earlier_too :
      (n k : ℕ)
      → decision timeout (polls n) ≡ none
      → ((j : ℕ) → j < k → decision timeout (polls (suc n + j)) ≡ none)
      → (j : ℕ) → j < suc k
      → decision timeout (polls (n + j)) ≡ none
  earlier_too n k e h zero lt = here n ∙ e
  earlier_too n k e h (suc j) lt = sym (shift n j) ∙ h j (omega arith)

  bootstrap_loop-ends :
      (fuel n : ℕ) (st : LoopState) (w : World)
      → ((j : ℕ) → j < fuel → decision timeout (polls (n + j)) ≡ none)
        ⊎ ((k : ℕ) × EndsAt n (bootstrap_loop timeout polls m fuel n st w) k)
  unfolding bootstrap_loop
  bootstrap_loop-ends zero n st w = inl (λ j h. elim h [ ])
  bootstrap_loop-ends (suc fuel) n st w = elim (Option-cases (decision timeout (polls n))) [
    | inl e ↦ goes_on e (bootstrap_loop-ends fuel (suc n) next (emit_all events w))
    | inr (ended, e) ↦ inr (
      0,
      record {
        ended = ended;
        decided = here n ∙ e;
        earlier = λ j h. elim h [ ];
        left = emit_all events w;
        returns = rw (bootstrap_loop, e) refl;
      },
    )
  ]
    where
      events : List Event
      events = (turn timeout (polls n) st).0

      next : LoopState
      next = (turn timeout (polls n) st).1

      goes_on :
          decision timeout (polls n) ≡ none
          → ((j : ℕ) → j < fuel → decision timeout (polls (suc n + j)) ≡ none)
            ⊎ ((k : ℕ) × EndsAt
                  (suc n)
                  (bootstrap_loop timeout polls m fuel (suc n) next (emit_all events w))
                  k)
          → ((j : ℕ) → j < suc fuel → decision timeout (polls (n + j)) ≡ none)
            ⊎ ((k : ℕ) × EndsAt n (bootstrap_loop timeout polls m (suc fuel) n st w) k)
      goes_on e (inl silent) = inl (earlier_too n fuel e silent)
      goes_on e (inr (k, r)) = inr (
        suc k,
        record {
          ended = r.ended;
          decided = sym (shift n k) ∙ r.decided;
          earlier = earlier_too n k e r.earlier;
          left = r.left;
          returns = rw (bootstrap_loop, e) r.returns;
        },
      )

  -- After so many turns the time is over.
  late :
      ((n : ℕ) → (polls n).elapsed + poll_seconds ≤ (polls (suc n)).elapsed)
      → (n : ℕ) → 5 * n ≤ (polls n).elapsed
  late clock zero = omega arith
  late clock (suc n) = omega (arith, late clock n, clock n)

  late-decision : (n : ℕ) → timeout ≤ (polls n).elapsed → decision timeout (polls n) ≡ some raised
  unfolding decision
  late-decision n h = ground arith

  bootstrap_environment-loop :
      (fuel : ℕ) (w : World)
      → is_some (truthy m.run_id) ≡ true
      → bootstrap_environment timeout polls m fuel w
        ≡ bootstrap_loop timeout polls m fuel 0
            (record { last_log_ts = none; last_status = none })
            (emit bootstrap_started w)
  unfolding bootstrap_environment
  bootstrap_environment-loop fuel w e = rw e refl

  -- If the session has a run and at least five seconds lie between two turns,
  -- `_bootstrap_environment` ends within `timeout / 5 + 2` turns, at the first turn that decides
  -- something, and as that turn decides.
  pub bootstrap_environment-ends :
      (fuel : ℕ) (w : World)
      → is_some (truthy m.run_id) ≡ true
      → ((n : ℕ) → (polls n).elapsed + poll_seconds ≤ (polls (suc n)).elapsed)
      → timeout / poll_seconds + 1 < fuel
      → (k : ℕ) × EndsAt 0 (bootstrap_environment timeout polls m fuel w) k
  bootstrap_environment-ends fuel w e clock enough =
      go (bootstrap_loop-ends fuel 0 first (emit bootstrap_started w))
    where
      first : LoopState
      first = record { last_log_ts = none; last_status = none }

      over : ℕ
      over = timeout / poll_seconds + 1

      go :
          ((j : ℕ) → j < fuel → decision timeout (polls (0 + j)) ≡ none)
            ⊎ ((k : ℕ) × EndsAt 0
                  (bootstrap_loop timeout polls m fuel 0 first (emit bootstrap_started w))
                  k)
          → (k : ℕ) × EndsAt 0 (bootstrap_environment timeout polls m fuel w) k
      go (inl silent) =
          let last = late-decision (0 + over) (omega (arith, late clock (0 + over))) in
          elim (none≢some (sym (silent over enough) ∙ last)) [ ]
      go (inr (k, r)) = (
        k,
        record {
          ended = r.ended;
          decided = r.decided;
          earlier = r.earlier;
          left = r.left;
          returns = bootstrap_environment-loop fuel w e ∙ r.returns;
        },
      )
