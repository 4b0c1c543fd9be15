-- ===== src/Verdicts/Claims.antt =====
-- services/ai-agent/tools/verdicts.py: the claims of tool calls and the gate, over the stored rows.
use cartesi_release_validati.Prelude.{
  ℕ, zero, suc, ◌≤◌, ◌<◌, ◌≡◌, refl, sym, ap, ◌∙◌, ◌⊎◌, inl, inr, Bool, true, ◌&&◌, ◌||◌, String,
  some, List, [], ◌∷◌, arith, eq_refl, str_eq, Bool-cases, Option-cases, length, take, keep, All,
  In, In-keep_iff,
}
use mathlib.Core.Path.{subst}
use cartesi_release_validati.Verdicts.{
  Verdict, verdict_named, Invocation, is_claimable, Trail, claim_trail, VerdictRow, State,
  is_decisive, gate, upsert, has_id, link, is_blank, commit, record_test_verdict,
}

link-keeps :
    (vid slug : String) (steps invocations : List Invocation) (i : Invocation) (v : String)
    → i.verdict_id ≡ some v
    → In i invocations
    → In i (link vid slug steps invocations)
unfolding link
link-keeps vid slug steps [] i v e h = elim h [ ]
link-keeps vid slug steps (j ∷ js) i v e (inl p) = inl (ground (arith, p, e))
link-keeps vid slug steps (j ∷ js) i v e (inr h) = inr (link-keeps vid slug steps js i v e h)

-- A row whose decisive verdict has a trail.
pub IsJustified : VerdictRow → Type 0
IsJustified row = is_decisive row.verdict ≡ true → 0 < row.trail_step_count

gate-decisive :
    (v : Verdict) (trail : Trail) → is_decisive (gate v trail) ≡ true → 0 < length trail.steps
unfolding gate
gate-decisive v trail h = ground arith

upsert-All :
    (row : VerdictRow) (rows : List VerdictRow)
    → IsJustified row
    → All IsJustified rows
    → All IsJustified (upsert row rows).1
unfolding upsert IsJustified
upsert-All row [] j h = (j, tt)
upsert-All row (old ∷ rows) j h =
    elim (Bool-cases
      (str_eq old.session_id row.session_id && str_eq old.definition_slug row.definition_slug)) [
        | inl e ↦ rw e (j, h.1)
        | inr e ↦ rw e (h.0, upsert-All row rows j h.1)
      ]

commit-IsJustified :
    (session_id slug : String) (v : Verdict) (validated : List Invocation → Bool) (new_id : String)
    (s : State)
    → All IsJustified s.verdicts
    → All IsJustified (commit session_id slug v validated new_id s).verdicts
unfolding commit IsJustified
commit-IsJustified session_id slug v validated new_id s h =
    upsert-All _ s.verdicts (gate-decisive v (claim_trail session_id s.invocations)) h

module _ (strip : String → String) (session_id slug verdict reasoning : String)
    (validated : List Invocation → Bool) (new_id : String) where
  recorded : State → Bool × State
  recorded s = record_test_verdict strip session_id slug verdict reasoning validated new_id s

  -- Either nothing is recorded or a verdict is.
  recorded-cases :
      (s : State)
      → ((recorded s).1 ≡ s)
        ⊎ ((v : Verdict) × ((recorded s).1 ≡ commit session_id slug v validated new_id s))
  unfolding recorded record_test_verdict
  recorded-cases s = elim (Option-cases (verdict_named verdict)) [
    | inl e ↦ inl (rw (e, record_test_verdict) refl)
    | inr (v, e) ↦
        elim (Bool-cases
          (is_blank strip slug || is_blank strip reasoning || str_eq session_id "")) [
            | inl b ↦ inl (rw (e, record_test_verdict) (rw (b, record_test_verdict) refl))
            | inr b ↦ inr (v, rw (e, record_test_verdict) (rw (b, record_test_verdict) refl))
          ]
  ]

  -- If each stored verdict that is passed or failed has at least one step in its trail, this is
  -- so after `record_test_verdict`, for every verdict it is called with.
  pub record_test_verdict-IsJustified :
      (s : State)
      → All IsJustified s.verdicts
      → All IsJustified
          (record_test_verdict strip session_id slug verdict reasoning validated new_id
            s).1.verdicts
  unfolding recorded
  record_test_verdict-IsJustified s h = elim (recorded-cases s) [
    | inl e ↦ subst (λ t. All IsJustified t.verdicts) (sym e) h
    | inr (v, e) ↦
        subst (λ t. All IsJustified t.verdicts) (sym e)
          (commit-IsJustified session_id slug v validated new_id s h)
  ]

  -- A tool call that a verdict has claimed is in the table as it was after `record_test_verdict`
  -- for any verdict.
  pub record_test_verdict-keeps_claims :
      (s : State) (i : Invocation) (v : String)
      → i.verdict_id ≡ some v
      → In i s.invocations
      → In i
          (record_test_verdict strip session_id slug verdict reasoning validated new_id
            s).1.invocations
  unfolding recorded commit
  record_test_verdict-keeps_claims s i v c h = elim (recorded-cases s) [
    | inl e ↦ subst (λ t. In i t.invocations) (sym e) h
    | inr (w, e) ↦
        subst (λ t. In i t.invocations) (sym e) (link-keeps _ slug _ s.invocations i v c h)
  ]

take-all : (n : ℕ) (xs : List Invocation) → length xs ≤ n → take n xs ≡ xs
take-all zero [] h = refl
take-all zero (x ∷ xs) h = ground arith
take-all (suc n) [] h = refl
take-all (suc n) (x ∷ xs) h = ap (λ ys. x ∷ ys) (take-all n xs (ground arith))

In-has_id : (i : Invocation) (steps : List Invocation) → In i steps → has_id steps i ≡ true
In-has_id i [] h = elim h [ ]
In-has_id i (x ∷ steps) (inl p) = ground (arith, p, eq_refl i.id, ap (λ j. j.id) p)
In-has_id i (x ∷ steps) (inr h) = ground (arith, In-has_id i steps h)

link-claims :
    (session_id vid slug : String) (steps invocations : List Invocation)
    → ((i : Invocation)
        → In i invocations
        → is_claimable session_id i ≡ true
        → has_id steps i ≡ true)
    → keep (is_claimable session_id) (link vid slug steps invocations) ≡ []
unfolding link is_claimable
link-claims session_id vid slug steps [] h = refl
link-claims session_id vid slug steps (i ∷ is) h =
    let rest = link-claims session_id vid slug steps is (λ j k. h j (inr k)) in
    let claimed = h i (inl refl) in ground (arith, rest, claimed)

-- If a session has at most 400 tool calls to claim, none is left to claim after a verdict of the
-- session is stored.
pub commit-claims :
    (session_id slug : String) (v : Verdict) (validated : List Invocation → Bool) (new_id : String)
    (s : State)
    → length (keep (is_claimable session_id) s.invocations) ≤ 400
    → keep (is_claimable session_id) (commit session_id slug v validated new_id s).invocations ≡ []
unfolding commit claim_trail
commit-claims session_id slug v validated new_id s le =
    let claimable = keep (is_claimable session_id) s.invocations in
    let all_taken =
      ap (take 400) (take-all 401 claimable (ground arith)) ∙ take-all 400 claimable le in
    link-claims session_id _ slug _ s.invocations (λ i h c.
      In-has_id i (claim_trail session_id s.invocations).steps (
        subst (λ xs. In i xs) (sym all_taken)
          ((In-keep_iff (is_claimable session_id) i s.invocations).1 (h, c))))
