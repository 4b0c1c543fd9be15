-- ===== src/Runner/Commands/Publishing.antt =====
-- What a test command leaves in the table of results and what it publishes.
use cartesi_release_validati.Prelude.{
  ◌∙◌, any, eq_refl, none≢some, ℕ, ◌≡◌, refl, sym, ap, ◌≢◌, ◌↔◌, inl, inr, true, false, String,
  Option, none, some, List, [], ◌∷◌, ◌++◌, arith, eq_iff, str_eq, Bool-cases, Option-cases, length,
  all, In,
}
use cartesi_release_validati.Text.{is_empty}
use cartesi_release_validati.Runs.{TestStatus, passed, failed, running, skipped, is_in_flight}
use cartesi_release_validati.Runner.Passing.{
  Execution-cases, run_from-nil, run_from-known, run_from-unknown,
}
use cartesi_release_validati.Runner.{
  Assertion, AssertionResult, returned, timed_out, raised, run_cancelled, Outcome, Executors,
  type_of, unknown_type, status_after, outcome_of, run_from, Definition, run_test,
}
use cartesi_release_validati.Runner.Commands.{
  TestCommand, overridden, ResultRow, Published, State, insert_row, update_row, caught, log_lines,
  row_of, result_id_of, skip, execute, handle,
}

-- The loop never ends with a status in flight if it starts without one.
run_from-settles :
    (executors : Executors) (limit : ℕ) (assertions : List Assertion) (s : TestStatus)
    (rs : List AssertionResult)
    → is_in_flight s ≡ false
    → is_in_flight (run_from executors limit assertions s rs).status ≡ false
run_from-settles executors limit [] s rs h = rw (run_from-nil executors limit s rs) h
run_from-settles executors limit (a ∷ assertions) s rs h =
    elim (Option-cases (executors (type_of a))) [
      | inl e ↦ rw (run_from-unknown executors limit a assertions s rs e) (
          run_from-settles executors limit assertions failed (rs ++ (unknown_type (type_of a) ∷ []))
            refl)
      | inr (f, e) ↦ elim (Execution-cases (f a)) [
        | inl (items, r) ↦
            rw (run_from-known executors limit a assertions s rs f (returned items) e r) (
              run_from-settles executors limit assertions (status_after s items) (rs ++ items)
                (elim (Bool-cases (all (λ i. i.passed) items)) [
                  | inl t ↦ rw t h
                  | inr t ↦ rw t refl
                ]))
        | inr (inl r) ↦ rw (run_from-known executors limit a assertions s rs f timed_out e r) refl
        | inr (inr (text, r)) ↦
            rw (run_from-known executors limit a assertions s rs f (raised text) e r) refl
      ]
    ]

run_test-settles :
    (executors : Executors) (d : Definition)
    → is_in_flight (caught (run_test executors d)).status ≡ false
unfolding run_test
run_test-settles executors d = elim (Option-cases d.definition_parsed) [
  | inl e ↦ rw (e, run_test) refl
  | inr (xs, e) ↦ rw (e, run_test) (run_from-settles executors d.timeout_seconds xs passed [] refl)
]

pub In-update_row :
    (id : String) (o : Outcome) (rows : List ResultRow) (row : ResultRow)
    → In row (update_row id o rows)
    → row.id ≡ id
    → row.status ≡ o.status
unfolding update_row
In-update_row id o [] row i e = elim i [ ]
In-update_row id o (r ∷ rows) row (inl p) e = elim (Bool-cases (str_eq r.id id)) [
  | inl t ↦ ground (arith, p, e, t)
  | inr t ↦ ground (arith, p, e, t, (eq_iff r.id id).1)
]
In-update_row id o (r ∷ rows) row (inr i) e = In-update_row id o rows row i e

-- No row has this id.
abbrev pub IsNew : String → List ResultRow → Type 0
IsNew id rows = (row : ResultRow) → In row rows → row.id ≢ id

-- The id of the row that a command is to get: the one that it names if it names one that is not
-- empty, else the fresh uuid.
pub data Names (cmd : TestCommand) (new_id : String) : String → Type 0 where
  own : {id : String} → cmd.result_id ≡ some id → is_empty id ≡ false → Names cmd new_id id
  unnamed : cmd.result_id ≡ none → Names cmd new_id new_id
  blank : {id : String} → cmd.result_id ≡ some id → is_empty id ≡ true → Names cmd new_id new_id

any-IsNew :
    (id : String) (rows : List ResultRow) → any (λ r. str_eq r.id id) rows ≡ false → IsNew id rows
any-IsNew id [] h row i e = elim i [ ]
any-IsNew id (r ∷ rows) h row (inl p) e = ground (arith, h, p, e, (eq_iff r.id id).1)
any-IsNew id (r ∷ rows) h row (inr i) e = any-IsNew id rows (ground (arith, h)) row i e

IsNew-any :
    (id : String) (rows : List ResultRow) → IsNew id rows → any (λ r. str_eq r.id id) rows ≡ false
IsNew-any id [] h = refl
IsNew-any id (r ∷ rows) h = elim (Bool-cases (str_eq r.id id)) [
  | inl t ↦ elim (h r (inl refl) ((eq_iff r.id id).0 t)) [ ]
  | inr t ↦ ground (arith, t, IsNew-any id rows (λ row i. h row (inr i)))
]

result_id_of-Names :
    (cmd : TestCommand) (new_id id : String) → Names cmd new_id id → result_id_of cmd new_id ≡ id
result_id_of-Names cmd new_id id (own e k) = ground (arith, e, k)
result_id_of-Names cmd new_id id (unnamed e) = ground (arith, e)
result_id_of-Names cmd new_id id (blank e k) = ground (arith, e, k)

-- A result of the command with this id is published, with a final status, which the row of this id
-- has: there is one, and each has it.
pub record Answers (cmd : TestCommand) (id : String) (s s2 : State) : Type 0 where
  pub answer : Published
  pub added : s2.published ≡ (answer ∷ s.published)
  pub command : answer.command ≡ cmd
  pub same_id : answer.result_id ≡ id
  pub settled : is_in_flight answer.outcome.status ≡ false
  pub present : any (λ r. str_eq r.id id) s2.rows ≡ true
  pub stored : (row : ResultRow) → In row s2.rows → row.id ≡ id → row.status ≡ answer.outcome.status

update_row-present :
    (id : String) (o : Outcome) (row : ResultRow) (rows : List ResultRow)
    → row.id ≡ id
    → any (λ r. str_eq r.id id) (update_row id o (row ∷ rows)) ≡ true
unfolding update_row
update_row-present id o row rows e = rw e (ground (arith, eq_refl id))

not_longer : (p : Published) (ps : List Published) → ps ≢ (p ∷ ps)
not_longer p ps e = let l = ap length e in ground arith

module _ (executors : Executors) (format_exc : String → List String) (new_id : String)
    (cmd : TestCommand) (s : State) where
  execute-new :
      (d : Definition)
      → IsNew (result_id_of cmd new_id) s.rows
      → let id = result_id_of cmd new_id in
        let result = run_test executors (overridden cmd d) in
        execute executors format_exc cmd new_id d s ≡ record s {
          rows = update_row id (caught result) (row_of cmd id running ∷ s.rows);
          logs = s.logs ++ log_lines format_exc result;
          published =
              record { result_id = id; command = cmd; outcome = caught result } ∷ s.published;
        }
  unfolding execute insert_row
  execute-new d fresh =
      rw (IsNew-any (result_id_of cmd new_id) s.rows fresh, execute, insert_row) refl

  execute-Answers :
      (d : Definition)
      → IsNew (result_id_of cmd new_id) s.rows
      → Answers cmd (result_id_of cmd new_id) s (execute executors format_exc cmd new_id d s)
  execute-Answers d fresh =
      let id = result_id_of cmd new_id in
      let o = caught (run_test executors (overridden cmd d)) in
      rw (execute-new d fresh) (record {
        answer = record { result_id = id; command = cmd; outcome = o };
        added = refl;
        command = refl;
        same_id = refl;
        settled = run_test-settles executors (overridden cmd d);
        present = update_row-present id o (row_of cmd id running) s.rows refl;
        stored = In-update_row id o (row_of cmd id running ∷ s.rows);
      })

  execute-taken :
      (d : Definition)
      → any (λ r. str_eq r.id (result_id_of cmd new_id)) s.rows ≡ true
      → execute executors format_exc cmd new_id d s ≡ s
  unfolding execute insert_row
  execute-taken d taken = rw (taken, execute, insert_row) refl

  skip-new :
      IsNew new_id s.rows
      → skip cmd new_id s ≡ record s {
        rows = row_of cmd new_id skipped ∷ s.rows;
        published =
            record {
              result_id = new_id;
              command = cmd;
              outcome = outcome_of skipped [] (some run_cancelled);
            }
            ∷ s.published;
      }
  unfolding skip insert_row
  skip-new fresh = rw (IsNew-any new_id s.rows fresh, skip, insert_row) refl

  skip-Answers : IsNew new_id s.rows → Answers cmd new_id s (skip cmd new_id s)
  skip-Answers fresh = rw (skip-new fresh) (record {
    answer = record {
      result_id = new_id;
      command = cmd;
      outcome = outcome_of skipped [] (some run_cancelled);
    };
    added = refl;
    command = refl;
    same_id = refl;
    settled = refl;
    present = ground (arith, eq_refl new_id);
    stored = skipped_row;
  })
    where
      skipped_row :
          (row : ResultRow)
          → In row (row_of cmd new_id skipped ∷ s.rows)
          → row.id ≡ new_id
          → row.status ≡ skipped
      skipped_row row (inl p) e = ap (λ r. r.status) (sym p)
      skipped_row row (inr i) e = elim (fresh row i e) [ ]

  -- If no row has the fresh uuid, the command of a cancelled run is answered under it, and any
  -- other exactly when the cache has its definition and no row has its id yet, which is the id
  -- that it names if that is not empty and else the uuid. To answer is to publish one result of
  -- that id with a status that is neither pending nor running, which the row of the id has: there
  -- is one.
  pub handle-Answers_iff :
      (id : String) (cached : Option Definition)
      → Names cmd new_id id
      → IsNew new_id s.rows
      → Answers cmd new_id s (handle executors format_exc true cached new_id cmd s)
        × (Answers cmd id s (handle executors format_exc false cached new_id cmd s)
            ↔ (((d : Definition) × (cached ≡ some d)) × IsNew id s.rows))
  unfolding handle
  handle-Answers_iff id (some d) names fresh = (
    skip-Answers fresh,
    rw (← result_id_of-Names cmd new_id id names)
        ((λ a. ((d, refl), new_of_answer a)), (λ h. execute-Answers d h.1)),
  )
    where
      new_of_answer :
          Answers cmd (result_id_of cmd new_id) s (execute executors format_exc cmd new_id d s)
          → IsNew (result_id_of cmd new_id) s.rows
      new_of_answer a =
          elim (Bool-cases (any (λ r. str_eq r.id (result_id_of cmd new_id)) s.rows)) [
            | inl taken ↦
                elim (not_longer a.answer s.published
                  (ap (λ t. t.published) (sym (execute-taken d taken)) ∙ a.added)) [ ]
            | inr free ↦ any-IsNew (result_id_of cmd new_id) s.rows free
          ]
  handle-Answers_iff id none names fresh = (
    skip-Answers fresh,
    ((λ a. elim (not_longer a.answer s.published a.added) [ ]), (λ h. elim (none≢some h.0.1) [ ])),
  )
