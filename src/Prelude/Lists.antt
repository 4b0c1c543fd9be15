-- ===== src/Prelude/Lists.antt =====
-- Lists measured by native numbers, under the library's names, and dictionaries as lists of pairs
-- in insertion order, as Python keeps them.
use Prim.Native.Nat.{ℕ, zero, suc, ◌+◌, ◌-◌, ◌≤◌, min}
use Prim.Native.String.{String}
use mathlib.Core.Path.{◌≡◌, refl, ap, ◌∙◌}
use mathlib.Core.Logic.{◌⊎◌, ◌↔◌, inl, inr}
use mathlib.Core.Bool.{Bool, true, false, ◌&&◌, ◌||◌}
use mathlib.Core.List.{List, [], ◌∷◌, ◌++◌}
use mathlib.Core.Option.{Option, none, some}
use native.Mathlib.Omega.{arith}
use text.Mathlib.Text.{◌==◌ as str_eq}
use cartesi_release_validati.Prelude.Tests.{if◌then◌else◌, Bool-cases}

-- No element, at every level.
pub data Empty {ℓ} : Type ℓ where

module _ {ℓ} {A : Type ℓ} where
  abbrev pub length : List A → ℕ
  length [] = 0
  length (x ∷ xs) = suc (length xs)

  abbrev pub take : ℕ → List A → List A
  take zero xs = []
  take (suc n) [] = []
  take (suc n) (x ∷ xs) = x ∷ take n xs

  abbrev pub drop : ℕ → List A → List A
  drop zero xs = xs
  drop (suc n) [] = []
  drop (suc n) (x ∷ xs) = drop n xs

  -- The elements that pass a test, in order.
  abbrev pub keep : (A → Bool) → List A → List A
  keep p [] = []
  keep p (x ∷ xs) = if p x then x ∷ keep p xs else keep p xs

  -- How many pass it: SQL's COUNT(*) FILTER.
  abbrev pub count : (A → Bool) → List A → ℕ
  count p [] = 0
  count p (x ∷ xs) = (if p x then 1 else 0) + count p xs

  abbrev pub all : (A → Bool) → List A → Bool
  all p [] = true
  all p (x ∷ xs) = p x && all p xs

  abbrev pub any : (A → Bool) → List A → Bool
  any p [] = false
  any p (x ∷ xs) = p x || any p xs

  abbrev pub All {κ} : (A → Type κ) → List A → Type κ
  All P [] = Unit
  All P (x ∷ xs) = P x × All P xs

  -- Membership as data that the tactics read.
  abbrev pub In : A → List A → Type ℓ
  In a [] = Empty
  In a (x ∷ xs) = (x ≡ a) ⊎ In a xs

  pub length-append : (xs ys : List A) → length (xs ++ ys) ≡ length xs + length ys
  length-append [] ys = omega arith
  length-append (x ∷ xs) ys = omega (arith, length-append xs ys)

  pub length-take : (n : ℕ) (xs : List A) → length (take n xs) ≡ min n (length xs)
  length-take zero xs = omega arith
  length-take (suc n) [] = omega arith
  length-take (suc n) (x ∷ xs) = omega (arith, length-take n xs)

  pub length-drop : (n : ℕ) (xs : List A) → length (drop n xs) ≡ length xs - n
  length-drop zero xs = omega arith
  length-drop (suc n) [] = omega arith
  length-drop (suc n) (x ∷ xs) = omega (arith, length-drop n xs)

  pub take-append-drop : (n : ℕ) (xs : List A) → take n xs ++ drop n xs ≡ xs
  take-append-drop zero xs = refl
  take-append-drop (suc n) [] = refl
  take-append-drop (suc n) (x ∷ xs) = ap (λ r. x ∷ r) (take-append-drop n xs)

  pub count-le-length : (p : A → Bool) (xs : List A) → count p xs ≤ length xs
  count-le-length p [] = omega arith
  count-le-length p (x ∷ xs) = ground (arith, count-le-length p xs)

  pub count-append : (p : A → Bool) (xs ys : List A) → count p (xs ++ ys) ≡ count p xs + count p ys
  count-append p [] ys = omega arith
  count-append p (x ∷ xs) ys = omega (arith, count-append p xs ys)

module _ {ℓ} {A : Type ℓ} where
  pub In-keep_iff :
      (p : A → Bool) (a : A) (xs : List A) → In a (keep p xs) ↔ (In a xs × (p a ≡ true))
  In-keep_iff p a [] = ((λ h. elim h [ ]), (λ h. elim h.0 [ ]))
  In-keep_iff p a (x ∷ xs) = let (to, from) = In-keep_iff p a xs in (to_all to, from_all from)
    where
      to_all :
          (In a (keep p xs) → In a xs × (p a ≡ true))
          → In a (keep p (x ∷ xs))
          → In a (x ∷ xs) × (p a ≡ true)
      to_all to h = elim (Bool-cases (p x)) [
        | inl y ↦ kept to y (rw y at h)
        | inr n ↦ let (i, e) = to (rw n at h) in (inr i, e)
      ]
        where
          kept :
              (In a (keep p xs) → In a xs × (p a ≡ true))
              → p x ≡ true
              → (x ≡ a) ⊎ In a (keep p xs)
              → In a (x ∷ xs) × (p a ≡ true)
          kept to y (inl e) = (inl e, rw (← e) y)
          kept to y (inr i) = let (j, e) = to i in (inr j, e)

      from_all :
          (In a xs × (p a ≡ true) → In a (keep p xs))
          → In a (x ∷ xs) × (p a ≡ true)
          → In a (keep p (x ∷ xs))
      from_all from (inl e, h) = let px : p x ≡ true = ap p e ∙ h in rw px (inl e)
      from_all from (inr i, h) = elim (Bool-cases (p x)) [
        | inl y ↦ rw y (inr (from (i, h)))
        | inr n ↦ rw n (from (i, h))
      ]

module _ {ℓ} {V : Type ℓ} where
  abbrev pub lookup : String → List (String × V) → Option V
  lookup k [] = none
  lookup k ((j, v) ∷ m) = if str_eq j k then some v else lookup k m

  abbrev pub has_key : String → List (String × V) → Bool
  has_key k [] = false
  has_key k ((j, v) ∷ m) = str_eq j k || has_key k m

  -- `d[k] = v`: a key that is there keeps its place.
  abbrev pub insert : String → V → List (String × V) → List (String × V)
  insert k v [] = (k, v) ∷ []
  insert k v ((j, w) ∷ m) = if str_eq j k then (j, v) ∷ m else (j, w) ∷ insert k v m

  -- `d.pop(k, None)`.
  abbrev pub remove : String → List (String × V) → List (String × V)
  remove k [] = []
  remove k ((j, w) ∷ m) = if str_eq j k then m else (j, w) ∷ remove k m

  -- A dictionary has each key once.
  abbrev pub HasDistinctKeys : List (String × V) → Type 0
  HasDistinctKeys [] = Unit
  HasDistinctKeys ((j, w) ∷ m) = (has_key j m ≡ false) × HasDistinctKeys m
