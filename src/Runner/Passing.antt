-- ===== src/Runner/Passing.antt =====
-- services/test-runner/executor.py: the statuses that `run_test` reports.
use cartesi_release_validati.Prelude.{
  ℕ, ◌≡◌, refl, sym, ap, ◌∙◌, ◌↔◌, ◌⊎◌, inl, inr, true, String, Option, none, some, List, [], ◌∷◌,
  ◌++◌, arith, Bool-cases, Option-cases, all, All,
}
use cartesi_release_validati.Runs.{
  TestStatus, passed, failed, error, timeout, is_passed, skipped, pending,
}
use mathlib.Core.Path.{subst}
use cartesi_release_validati.Runner.{
  Assertion, AssertionResult, Execution, returned, timed_out, raised, exceeded_timeout, exception,
  Outcome, Executors, type_of, unknown_type, status_after, outcome_of, run_from, Definition,
  run_test,
}

-- What the executor of the assertion's type does with it, if there is one.
pub execution : Executors → Assertion → Option Execution
execution executors a = elim (executors (type_of a)) [ none ↦ none | some f ↦ some (f a) ]

-- The executor of the assertion's type returns, in time, results that have all passed.
pub Holds : Executors → Assertion → Type 0
Holds executors a =
    (items : List AssertionResult) × (execution executors a ≡ some (returned items))
    × (all (λ i. i.passed) items ≡ true)

is_passed_iff : (s : TestStatus) → (is_passed s ≡ true) ↔ (s ≡ passed)
is_passed_iff pending = ((λ h. cc), (λ h. cc))
is_passed_iff TestStatus.running = ((λ h. cc), (λ h. cc))
is_passed_iff passed = ((λ h. refl), (λ h. refl))
is_passed_iff failed = ((λ h. cc), (λ h. cc))
is_passed_iff TestStatus.error = ((λ h. cc), (λ h. cc))
is_passed_iff skipped = ((λ h. cc), (λ h. cc))
is_passed_iff TestStatus.timeout = ((λ h. cc), (λ h. cc))

pub Execution-cases :
    (x : Execution)
    → ((items : List AssertionResult) × (x ≡ returned items))
      ⊎ ((x ≡ timed_out) ⊎ ((text : String) × (x ≡ raised text)))
Execution-cases (returned items) = inl (items, refl)
Execution-cases timed_out = inr (inl refl)
Execution-cases (raised text) = inr (inr (text, refl))

status_after_iff :
    (s : TestStatus) (items : List AssertionResult)
    → (status_after s items ≡ passed) ↔ ((s ≡ passed) × (all (λ i. i.passed) items ≡ true))
status_after_iff s items =
    elim (Bool-cases (all (λ i. i.passed) items))
      as (λ c.
        (status_after s items ≡ passed) ↔ ((s ≡ passed) × (all (λ i. i.passed) items ≡ true))) [
          | inl t ↦ rw t ((λ h. (h, refl)), (λ h. h.0))
          | inr f ↦ rw f ((λ h. cc), (λ h. cc))
        ]

pub run_from-nil :
    (executors : Executors) (limit : ℕ) (s : TestStatus) (rs : List AssertionResult)
    → run_from executors limit [] s rs ≡ outcome_of s rs none
unfolding run_from
run_from-nil executors limit s rs = refl

pub run_from-unknown :
    (executors : Executors) (limit : ℕ) (a : Assertion) (assertions : List Assertion)
    (s : TestStatus) (rs : List AssertionResult)
    → executors (type_of a) ≡ none
    → run_from executors limit (a ∷ assertions) s rs
      ≡ run_from executors limit assertions failed (rs ++ (unknown_type (type_of a) ∷ []))
unfolding run_from
run_from-unknown executors limit a assertions s rs e = rw (e, run_from) refl

-- What the loop does after the executor f of the assertion a has ended with x.
pub run_from-known :
    (executors : Executors) (limit : ℕ) (a : Assertion) (assertions : List Assertion)
    (s : TestStatus) (rs : List AssertionResult) (f : Assertion → Execution) (x : Execution)
    → executors (type_of a) ≡ some f
    → f a ≡ x
    → run_from executors limit (a ∷ assertions) s rs ≡ elim x [
      | returned items ↦ run_from executors limit assertions (status_after s items) (rs ++ items)
      | timed_out ↦ outcome_of timeout rs (some (exceeded_timeout limit))
      | raised text ↦ outcome_of error rs (some (exception text))
    ]
unfolding run_from
run_from-known executors limit a assertions s rs f x e r = rw (e, run_from) (rw (r, run_from) refl)

pub execution-known :
    (executors : Executors) (a : Assertion) (f : Assertion → Execution) (x : Execution)
    → executors (type_of a) ≡ some f
    → f a ≡ x
    → execution executors a ≡ some x
unfolding execution
execution-known executors a f x e r = rw (e, execution) (rw r refl)

pub execution-unknown :
    (executors : Executors) (a : Assertion)
    → executors (type_of a) ≡ none
    → execution executors a ≡ none
unfolding execution
execution-unknown executors a e = rw (e, execution) refl

-- The loop from status s passes exactly when s is passed and all that is left holds.
run_from-passed_iff :
    (executors : Executors) (limit : ℕ) (assertions : List Assertion) (s : TestStatus)
    (rs : List AssertionResult)
    → ((run_from executors limit assertions s rs).status ≡ passed)
      ↔ ((s ≡ passed) × All (Holds executors) assertions)
unfolding run_from Holds
run_from-passed_iff executors limit [] s rs = ((λ h. (h, tt)), (λ h. h.0))
run_from-passed_iff executors limit (a ∷ assertions) s rs =
    elim (Option-cases (executors (type_of a))) [
      | inl e ↦
          (let (to, from) =
              run_from-passed_iff executors limit assertions failed
                (rs ++ (unknown_type (type_of a) ∷ [])) in
            (
              (λ h.
                  let (p, q) = to (
                    ap (λ o. o.status) (sym (run_from-unknown executors limit a assertions s rs e))
                    ∙ h) in
                  cc),
              (λ w. let d = w.1.0.1 in let o = execution-unknown executors a e in cc),
            ))
      | inr (f, e) ↦ elim (Execution-cases (f a)) [
        | inl (items, r) ↦
            (let (to, from) =
                run_from-passed_iff executors limit assertions (status_after s items)
                  (rs ++ items) in
              let (to2, from2) = status_after_iff s items in
              let known = run_from-known executors limit a assertions s rs f (returned items) e r in
              (
                (λ h.
                    let (p, q) = to (ap (λ o. o.status) (sym known) ∙ h) in
                    let (b, c) = to2 p in
                    (b, ((items, execution-known executors a f (returned items) e r, c), q))),
                (λ w.
                    let b = w.0 in
                    let q = w.1.1 in
                    let d = w.1.0.1 in
                    let c = w.1.0.2 in
                    ap (λ o. o.status) known
                    ∙ from (
                      from2 (
                        b,
                        ground (arith, d, c, execution-known executors a f (returned items) e r),
                      ),
                      q,
                    )),
              ))
        | inr (inl r) ↦ (
          (λ h. let known = run_from-known executors limit a assertions s rs f timed_out e r in cc),
          (λ w. let d = w.1.0.1 in let o = execution-known executors a f timed_out e r in cc),
        )
        | inr (inr (text, r)) ↦ (
          (λ h.
              let known = run_from-known executors limit a assertions s rs f (raised text) e r in
              cc),
          (λ w. let d = w.1.0.1 in let o = execution-known executors a f (raised text) e r in cc),
        )
      ]
    ]

abbrev in_option : Option (List Assertion) → List Assertion
in_option none = []
in_option (some xs) = xs

same_assertions :
    (executors : Executors) (xs ys : List Assertion)
    → some xs ≡ some ys
    → All (Holds executors) ys
    → All (Holds executors) xs
same_assertions executors xs ys p q = subst (λ o. All (Holds executors) (in_option o)) (sym p) q

-- `run_test` returns the status 'passed' exactly when the definition's assertions are parsed and
-- the executor of each returns, in time, results that have all passed. So a definition without
-- assertions passes.
pub run_test-passed_iff :
    (executors : Executors) (d : Definition)
    → ((o : Outcome) × (run_test executors d ≡ inr o) × (o.status ≡ passed)) ↔ (
        (assertions : List Assertion) × (d.definition_parsed ≡ some assertions)
        × All (Holds executors) assertions)
unfolding run_test
run_test-passed_iff executors d = elim (Option-cases d.definition_parsed) [
  | inl e ↦ rw e ((λ (o, p, q). cc), (λ (xs, p, q). cc))
  | inr (xs, e) ↦
      (let (to, from) = run_from-passed_iff executors d.timeout_seconds xs passed [] in
        rw e (
          (λ (o, p, q). (xs, refl, (to (ground (arith, p, q))).1)),
          (λ (ys, p, q). (_, refl, from (refl, same_assertions executors xs ys p q))),
        ))
]
