-- ===== src/SessionRoutes/Selection.antt =====
-- POST /sessions: the tests that a session gets.
use cartesi_release_validati.Prelude.{
  ◌≤◌, ◌≡◌, refl, Bool, true, false, not, ◌&&◌, ◌||◌, String, Option, none, some, List, [], ◌∷◌,
  arith, if◌then◌else◌, ltb, length, all, All, lookup, none≢some, some_injective,
}
use cartesi_release_validati.SessionRoutes.{
  SessionCreate, Definition, Settings, is_allowed_model, clean_option, is_autonomous, is_manual,
  is_blank, is_nil, has_target, with_phases, is_runnable, checked, validate,
}

all-All : (p : String → Bool) (xs : List String) → all p xs ≡ true → All (λ x. p x ≡ true) xs
all-All p [] h = tt
all-All p (x ∷ xs) h = let (a, b) = split (p x) (all p xs) h in (a, all-All p xs b)
  where
    split : (a b : Bool) → a && b ≡ true → (a ≡ true) × (b ≡ true)
    split true b h = (refl, h)
    split false b h = (h, ground arith)

-- A selection that passes the last tests.
checked-selects :
    (definitions : List (String × Definition)) (candidate : Option (List String))
    → (selected : List String) → checked definitions candidate ≡ some selected
    → (is_nil selected ≡ false) × All (λ s. is_runnable (lookup s definitions) ≡ true) selected
checked-selects definitions none selected e = elim (none≢some e) [ ]
checked-selects definitions (some xs) selected e =
    of_tests (is_nil xs) refl (all (λ s. is_runnable (lookup s definitions)) xs) refl e
  where
    of_tests :
        (b : Bool)
        → is_nil xs ≡ b
        → (c : Bool) → all (λ s. is_runnable (lookup s definitions)) xs ≡ c
        → (if b then none else (if c then some xs else none)) ≡ some selected
        → (is_nil selected ≡ false) × All (λ s. is_runnable (lookup s definitions) ≡ true) selected
    of_tests true n c a e = elim (none≢some e) [ ]
    of_tests false n false a e = elim (none≢some e) [ ]
    of_tests false n true a e =
        let same : xs ≡ selected = some_injective xs selected e in
        rw (← same) (n, all-All (λ s. is_runnable (lookup s definitions)) xs a)

-- The checks of a manual session.
pub validate-selects :
    (settings : Settings) (body : SessionCreate) (definitions : List (String × Definition))
    → (selected : List String) → is_manual body.execution_mode ≡ true
    → validate settings body definitions ≡ some selected
    → ((is_nil selected ≡ false) × All (λ s. is_runnable (lookup s definitions) ≡ true) selected)
      × ((has_target body ≡ true)
          × (length (clean_option body.selected_phases) ≤ settings.max_phases))
unfolding validate
validate-selects settings body definitions selected m e =
    of_tests (not (is_allowed_model body.model_id))
      (is_autonomous body.mode
        && (not (has_target body) || (not (is_manual body.execution_mode) && is_blank body.goal)))
      (is_manual body.execution_mode) m (has_target body) refl
      (ltb settings.max_phases (length (clean_option body.selected_phases))) refl e
  where
    candidate : Option (List String)
    candidate =
        with_phases (clean_option body.selected_phases) (clean_option body.selected_tests)
          definitions

    of_tests :
        (a b c : Bool)
        → c ≡ true
        → (d : Bool) → has_target body ≡ d
        → (f : Bool) → ltb settings.max_phases (length (clean_option body.selected_phases)) ≡ f
        → (if a
            then none
            else (if b
                then none
                else (if c
                    then (if not d || f then none else checked definitions candidate)
                    else some (clean_option body.selected_tests))))
          ≡ some selected
        → ((is_nil selected ≡ false)
            × All (λ s. is_runnable (lookup s definitions) ≡ true) selected)
          × ((has_target body ≡ true)
              × (length (clean_option body.selected_phases) ≤ settings.max_phases))
    of_tests true b c m d t f l e = elim (none≢some e) [ ]
    of_tests false true c m d t f l e = elim (none≢some e) [ ]
    of_tests false false false m d t f l e = ground arith
    of_tests false false true m false t f l e = elim (none≢some e) [ ]
    of_tests false false true m true t true l e = elim (none≢some e) [ ]
    of_tests false false true m true t false l e =
        (checked-selects definitions candidate selected e, (t, ground (arith, l)))
