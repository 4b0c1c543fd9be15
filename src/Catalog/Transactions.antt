-- ===== src/Catalog/Transactions.antt =====
-- Transactions that end: what they write, and when each of their statements is allowed.
use cartesi_release_validati.Prelude.{
  ◌≡◌, refl, inl, inr, true, some, List, [], ◌∷◌, Bool-cases, none≢some, some_injective,
}
use cartesi_release_validati.Catalog.{Tables, Statement, effect, is_allowed, transaction}

-- Every statement is allowed when its turn comes.
abbrev pub AllAllowed : List Statement → Tables → Type 0
AllAllowed [] t = Unit
AllAllowed (s ∷ ss) t = (is_allowed s t ≡ true) × AllAllowed ss (effect s t)

abbrev pub effects : List Statement → Tables → Tables
effects [] t = t
effects (s ∷ ss) t = effects ss (effect s t)

pub transaction-AllAllowed :
    (ss : List Statement) (t : Tables) → AllAllowed ss t → transaction ss t ≡ some (effects ss t)
unfolding transaction
transaction-AllAllowed [] t a = refl
transaction-AllAllowed (s ∷ ss) t (a, rest) = rw a (transaction-AllAllowed ss (effect s t) rest)

pub transaction-effects :
    (ss : List Statement) (t u : Tables) → transaction ss t ≡ some u → effects ss t ≡ u
unfolding transaction
transaction-effects [] t u e = some_injective t u e
transaction-effects (s ∷ ss) t u e = elim (Bool-cases (is_allowed s t)) [
  | inl y ↦ transaction-effects ss (effect s t) u (rw y at e)
  | inr n ↦ elim (none≢some (rw n at e)) [ ]
]
