-- ===== src/Runner/Commands/Overrides.antt =====
-- What parameter overrides leave of the assertions of a definition.
use cartesi_release_validati.Prelude.{
  ◌≡◌, refl, ap, ◌∙◌, inl, inr, true, String, List, [], ◌∷◌, map, arith, ◌==◌, Bool-cases, count,
  All, insert, Empty,
}
use cartesi_release_validati.Prelude.Dict.{lookup-insert}
use cartesi_release_validati.Runner.{Assertion, type_of}
use cartesi_release_validati.Runner.Commands.{
  OverrideKey, scoped, bare, owns, set_owner, apply_override, apply_overrides,
}

owner-type : (k v : String) (x : Assertion) → owns k x ≡ true → type_of (insert k v x) ≡ type_of x
owner-type k v x o = ground (arith, lookup-insert k "type" v x)

set_owner-types :
    (k v : String) (xs : List Assertion) → map type_of (set_owner k v xs) ≡ map type_of xs
unfolding set_owner
set_owner-types k v [] = refl
set_owner-types k v (x ∷ xs) = elim (Bool-cases (owns k x)) [
  | inl o ↦ rw o (ap (λ t. t ∷ map type_of xs) (owner-type k v x o))
  | inr o ↦ rw o (ap (λ ts. type_of x ∷ ts) (set_owner-types k v xs))
]

unfoldable pub IsBare : OverrideKey × String → Type 0
IsBare (scoped i leaf, v) = Empty
IsBare (bare k, v) = Unit

apply_override-types :
    (xs : List Assertion) (o : OverrideKey × String)
    → IsBare o
    → map type_of (apply_override xs o) ≡ map type_of xs
unfolding apply_override IsBare
apply_override-types xs (scoped i leaf, v) b = elim b [ ]
apply_override-types xs (bare k, v) b = elim (Bool-cases (count (owns k) xs == 1)) [
  | inl o ↦ rw o (set_owner-types k v xs)
  | inr o ↦ rw o refl
]

-- Parameter overrides with bare keys keep the number of the assertions and the type of each.
pub apply_overrides-types :
    (xs : List Assertion) (os : List (OverrideKey × String))
    → All IsBare os
    → map type_of (apply_overrides xs os) ≡ map type_of xs
unfolding apply_overrides
apply_overrides-types xs [] b = refl
apply_overrides-types xs (o ∷ os) b =
    apply_overrides-types (apply_override xs o) os b.1 ∙ apply_override-types xs o b.0
