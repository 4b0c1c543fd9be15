-- ===== src/Prelude/Pick.antt =====
-- Taking the element at an index out of a list.
use cartesi_release_validati.Prelude.{
  ℕ, zero, suc, ◌+◌, ◌≡◌, refl, ap, ◌∙◌, Bool, Option, none, some, List, [], ◌∷◌, arith, length,
  count, none≢some, some_injective,
}

abbrev pub keep_head {ℓ} : {A : Type ℓ} → A → Option (A × List A) → Option (A × List A)
keep_head x none = none
keep_head x (some (y, rest)) = some (y, x ∷ rest)

-- The element at an index, if there is one, with the others in their order.
unfoldable pub pick {ℓ} : {A : Type ℓ} → ℕ → List A → Option (A × List A)
pick n [] = none
pick zero (x ∷ xs) = some (x, xs)
pick (suc n) (x ∷ xs) = keep_head x (pick n xs)

length-keep_head {ℓ} :
    {A : Type ℓ} (y : A) (ys : List A) (o : Option (A × List A)) (x : A) (rest : List A)
    → ((z : A) (zs : List A) → o ≡ some (z, zs) → length ys ≡ suc (length zs))
    → keep_head y o ≡ some (x, rest)
    → suc (length ys) ≡ suc (length rest)
length-keep_head y ys none x rest ih e = elim (none≢some e) [ ]
length-keep_head y ys (some (z, zs)) x rest ih e =
    ap suc (ih z zs refl ∙ ap (λ r. length r.1) (some_injective _ _ e))

pub length-pick {ℓ} :
    {A : Type ℓ} (n : ℕ) (xs : List A) (x : A) (rest : List A)
    → pick n xs ≡ some (x, rest)
    → length xs ≡ suc (length rest)
unfolding pick
length-pick n [] x rest e = elim (none≢some e) [ ]
length-pick zero (y ∷ ys) x rest e = ap (λ r. suc (length r.1)) (some_injective _ _ e)
length-pick (suc n) (y ∷ ys) x rest e =
    length-keep_head y ys (pick n ys) x rest (length-pick n ys) e

count-keep_head {ℓ} :
    {A : Type ℓ} (p : A → Bool) (y : A) (ys : List A) (o : Option (A × List A)) (x : A)
    (rest : List A)
    → ((z : A) (zs : List A) → o ≡ some (z, zs) → count p ys ≡ count p (z ∷ []) + count p zs)
    → keep_head y o ≡ some (x, rest)
    → count p (y ∷ ys) ≡ count p (x ∷ []) + count p rest
count-keep_head p y ys none x rest ih e = elim (none≢some e) [ ]
count-keep_head p y ys (some (z, zs)) x rest ih e =
    let same : count p (z ∷ []) + count p (y ∷ zs) ≡ count p (x ∷ []) + count p rest =
      ap (λ r. count p (r.0 ∷ []) + count p r.1) (some_injective _ _ e) in
    ground (arith, ih z zs refl, same)

pub count-pick {ℓ} :
    {A : Type ℓ} (p : A → Bool) (n : ℕ) (xs : List A) (x : A) (rest : List A)
    → pick n xs ≡ some (x, rest)
    → count p xs ≡ count p (x ∷ []) + count p rest
unfolding pick
count-pick p n [] x rest e = elim (none≢some e) [ ]
count-pick p zero (y ∷ ys) x rest e =
    let same : count p (y ∷ []) + count p ys ≡ count p (x ∷ []) + count p rest =
      ap (λ r. count p (r.0 ∷ []) + count p r.1) (some_injective _ _ e) in
    ground (arith, same)
count-pick p (suc n) (y ∷ ys) x rest e =
    count-keep_head p y ys (pick n ys) x rest (count-pick p n ys) e
