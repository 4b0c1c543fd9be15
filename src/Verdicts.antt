-- ===== src/Verdicts.antt =====
-- services/ai-agent/tools/verdicts.py: `record_test_verdict` and `_claim_trail`, which tool calls of a
-- session a verdict claims as its trail, and the gate that a verdict passes. The digests of the steps
-- and the columns that are only stored are left out; `_evidence_validated` is an argument.
mod Tests
pub mod Claims
use cartesi_release_validati.Prelude.{
  ℕ, zero, suc, ◌+◌, ◌-◌, ◌*◌, ◌/◌, ◌%◌, ◌≤◌, ◌<◌, min, max, ◌≡◌, refl, sym, ap, ◌∙◌, ◌≢◌, ◌↔◌, ◌⊎◌,
  inl, inr, Bool, true, false, not, ◌&&◌, ◌||◌, String, Option, none, some, List, [], ◌∷◌, ◌++◌,
  map, append-nil, append_assoc, arith, eq_iff, eq_refl, str_eq, if◌then◌else◌, ltb, leb, ◌==◌,
  ==_iff, ltb→lt, lt→ltb, leb→le, Bool-cases, Option-cases, length, take, drop, keep, count, all,
  any, All, length-append, length-take, length-drop, take-append-drop, count-le-length,
  count-append, lookup, has_key, insert, remove, HasDistinctKeys, In, In-keep_iff, Empty,
}

pub data Verdict : Type 0 where
  passed failed blocked skipped inconclusive : Verdict

-- VALID_VERDICTS: the verdict that a text names.
unfoldable pub verdict_named : String → Option Verdict
verdict_named v =
    if str_eq v "passed"
    then some passed
    else (if str_eq v "failed"
        then some failed
        else (if str_eq v "blocked"
            then some blocked
            else (if str_eq v "skipped"
                then some skipped
                else (if str_eq v "inconclusive" then some inconclusive else none))))

-- A row of ai.tool_invocations. The table is in the order of created_at. `mutating` is what
-- `_is_mutating` says of the tool and its input.
pub record Invocation : Type 0 where
  pub id : String
  pub session_id : String
  pub tool_name : String
  pub mutating : Bool
  pub verdict_id : Option String
  pub definition_slug : Option String

abbrev pub is_none {ℓ} : {A : Type ℓ} → Option A → Bool
is_none none = true
is_none (some a) = false

abbrev pub trail_cap : ℕ
trail_cap = 400

-- The WHERE clause of `_claim_trail`.
unfoldable pub is_claimable : String → Invocation → Bool
is_claimable session_id i =
    str_eq i.session_id session_id
    && is_none i.verdict_id
    && not (
        str_eq i.tool_name "read_test_definition"
        || str_eq i.tool_name "record_test_verdict"
        || str_eq i.tool_name "record_test_plan")

pub record Trail : Type 0 where
  pub steps : List Invocation
  pub truncated : Bool
  pub mutating : ℕ

-- `_claim_trail`.
unfoldable pub claim_trail : String → List Invocation → Trail
unfolding is_claimable
claim_trail session_id invocations =
    let rows = take (trail_cap + 1) (keep (is_claimable session_id) invocations) in
    let steps = take trail_cap rows in
    record {
      steps = steps;
      truncated = ltb trail_cap (length rows);
      mutating = count (λ i. i.mutating) steps;
    }

-- A row of ai.test_verdicts.
pub record VerdictRow : Type 0 where
  pub id : String
  pub session_id : String
  pub definition_slug : String
  pub verdict : Verdict
  pub auto_downgraded_from : Option Verdict
  pub evidence_validated : Bool
  pub trail_step_count : ℕ
  pub trail_mutating_count : ℕ
  pub trail_truncated : Bool

pub record State : Type 0 where
  pub invocations : List Invocation
  pub verdicts : List VerdictRow

abbrev pub is_decisive : Verdict → Bool
is_decisive passed = true
is_decisive failed = true
is_decisive _ = false

-- The validation gate.
unfoldable pub gate : Verdict → Trail → Verdict
gate v trail = if is_decisive v && length trail.steps == 0 then inconclusive else v

unfoldable pub downgraded_from : Verdict → Trail → Option Verdict
downgraded_from v trail = if is_decisive v && length trail.steps == 0 then some v else none

-- `INSERT ... ON CONFLICT (session_id, definition_slug) DO UPDATE`, which keeps the id of the old row:
-- the table and the id of the row.
unfoldable pub upsert : VerdictRow → List VerdictRow → String × List VerdictRow
upsert row [] = (row.id, row ∷ [])
upsert row (old ∷ rows) =
    let (id, rest) = upsert row rows in
    if str_eq old.session_id row.session_id && str_eq old.definition_slug row.definition_slug
    then (old.id, record row { id = old.id } ∷ rows)
    else (id, old ∷ rest)

-- `id = ANY(ids)`.
abbrev pub has_id : List Invocation → Invocation → Bool
has_id steps i = any (λ step. str_eq step.id i.id) steps

-- `UPDATE ai.tool_invocations ... WHERE id = ANY(ids) AND verdict_id IS NULL`.
unfoldable pub link : String → String → List Invocation → List Invocation → List Invocation
link verdict_id slug steps [] = []
link verdict_id slug steps (i ∷ invocations) =
    (if has_id steps i && is_none i.verdict_id
      then record i { verdict_id = some verdict_id; definition_slug = some slug }
      else i)
    ∷ link verdict_id slug steps invocations

-- `if not s or not s.strip()`: `strip` is an argument of the caller.
abbrev pub is_blank : (String → String) → String → Bool
is_blank strip s = str_eq (strip s) ""

-- The transaction of `record_test_verdict`, where the trail can be read. `validated` is
-- `_evidence_validated` of the trail, and new_id the id of a new row.
unfoldable pub commit :
    String → String → Verdict → (List Invocation → Bool) → String → State → State
unfolding claim_trail gate downgraded_from upsert link
commit session_id slug v validated new_id s =
    let trail = claim_trail session_id s.invocations in
    let row : VerdictRow = record {
      id = new_id;
      session_id = session_id;
      definition_slug = slug;
      verdict = gate v trail;
      auto_downgraded_from = downgraded_from v trail;
      evidence_validated = validated trail.steps;
      trail_step_count = length trail.steps;
      trail_mutating_count = trail.mutating;
      trail_truncated = trail.truncated;
    } in
    let (verdict_id, verdicts) = upsert row s.verdicts in
    record { invocations = link verdict_id slug trail.steps s.invocations; verdicts = verdicts }

-- `record_test_verdict`: whether it succeeds, and the state. A refused verdict leaves the state.
unfoldable pub record_test_verdict :
    (String → String)
    → String
    → String
    → String
    → String
    → (List Invocation → Bool)
    → String
    → State
    → Bool × State
unfolding verdict_named commit
record_test_verdict strip session_id slug verdict reasoning validated new_id s =
    elim (verdict_named verdict) [
      | none ↦ (false, s)
      | some v ↦
          if is_blank strip slug || is_blank strip reasoning || str_eq session_id ""
          then (false, s)
          else (true, commit session_id slug v validated new_id s)
    ]
