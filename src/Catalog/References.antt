-- ===== src/Catalog/References.antt =====
-- The foreign keys of the version chain: every statement that PostgreSQL allows keeps them.
use cartesi_release_validati.Prelude.{
  Bool, false, ◌≡◌, refl, ◌∙◌, inl, inr, true, String, Option, none, some, List, [], ◌∷◌, arith,
  eq_iff, str_eq, if◌then◌else◌, Bool-cases, lookup, has_key, none≢some, some_injective,
}
use cartesi_release_validati.Prelude.Dict.{lookup-insert, has_key-insert}
use cartesi_release_validati.Text.{or_else, is_some}
use cartesi_release_validati.Catalog.{upsert, upserted, write_back, update, refers, map_values}

module _ {V : Type 0} where
  pub has_key-lookup : (k : String) (m : List (String × V)) → has_key k m ≡ is_some (lookup k m)
  has_key-lookup k [] = refl
  has_key-lookup k ((j, v) ∷ m) = ground (arith, has_key-lookup k m)

  pub lookup-upsert :
      (k j : String) (fresh : V) (change : V → V) (m : List (String × V))
      → lookup j (upsert k fresh change m)
        ≡ (if str_eq k j then some (upserted (lookup k m) fresh change) else lookup j m)
  unfolding upsert
  lookup-upsert k j fresh change m = lookup-insert k j (upserted (lookup k m) fresh change) m

  pub has_key-upsert :
      (k j : String) (fresh : V) (change : V → V) (m : List (String × V))
      → has_key j (upsert k fresh change m) ≡ (if str_eq k j then true else has_key j m)
  unfolding upsert
  has_key-upsert k j fresh change m = has_key-insert k j (upserted (lookup k m) fresh change) m

  abbrev pub updated : Option V → (V → V) → Option V
  updated none change = none
  updated (some v) change = some (change v)

  write_back_lem :
      (k j : String) (change : V → V) (row : Option V) (m : List (String × V))
      → lookup k m ≡ row
      → lookup j (write_back k change row m)
        ≡ (if str_eq k j then updated row change else lookup j m)
  write_back_lem k j change none m e = ground (arith, eq_iff k j)
  write_back_lem k j change (some v) m e = lookup-insert k j (change v) m

  pub lookup-update :
      (k j : String) (change : V → V) (m : List (String × V))
      → lookup j (update k change m)
        ≡ (if str_eq k j then updated (lookup k m) change else lookup j m)
  unfolding update
  lookup-update k j change m = write_back_lem k j change (lookup k m) m refl

  is_some-updated : (row : Option V) (change : V → V) → is_some (updated row change) ≡ is_some row
  is_some-updated none change = refl
  is_some-updated (some v) change = refl

  pub has_key-update :
      (k j : String) (change : V → V) (m : List (String × V))
      → has_key j (update k change m) ≡ has_key j m
  has_key-update k j change m = ground (
    arith,
    eq_iff k j,
    has_key-lookup j m,
    has_key-lookup j (update k change m),
    lookup-update k j change m,
    is_some-updated (lookup k m) change,
  )

  pub upsert-grow :
      (k : String) (fresh : V) (change : V → V) (m : List (String × V)) (j : String)
      → has_key j m ≡ true
      → has_key j (upsert k fresh change m) ≡ true
  upsert-grow k fresh change m j h = ground (arith, has_key-upsert k j fresh change m)

  pub update-grow :
      (k : String) (change : V → V) (m : List (String × V)) (j : String)
      → has_key j m ≡ true
      → has_key j (update k change m) ≡ true
  update-grow k change m j h = has_key-update k j change m ∙ h

-- Each row's reference is NULL or a tag of the other table.
abbrev pub References :
    {V W : Type 0} → (V → Option String) → List (String × V) → List (String × W) → Type 0
References {V} ref m target =
    (k : String) (v : V) → lookup k m ≡ some v → refers (ref v) target ≡ true

module _ {W : Type 0} where
  pub refers-or_else :
      (a b : Option String) (m : List (String × W))
      → refers a m ≡ true
      → refers b m ≡ true
      → refers (or_else a b) m ≡ true
  refers-or_else none b m p q = q
  refers-or_else (some a) b m p q = p

  pub refers-grow :
      (a : Option String) (m n : List (String × W))
      → ((j : String) → has_key j m ≡ true → has_key j n ≡ true)
      → refers a m ≡ true
      → refers a n ≡ true
  refers-grow none m n grow p = refl
  refers-grow (some a) m n grow p = grow a p

module _ {V W : Type 0} (ref : V → Option String) where
  pub References-grow :
      (m : List (String × V)) (target bigger : List (String × W))
      → ((j : String) → has_key j target ≡ true → has_key j bigger ≡ true)
      → References ref m target
      → References ref m bigger
  References-grow m target bigger grow h k v e = refers-grow (ref v) target bigger grow (h k v e)

  ref_of_upserted :
      (row : Option V) (fresh : V) (change : V → V) (target : List (String × W))
      → refers (ref fresh) target ≡ true
      → ((v : V) → refers (ref v) target ≡ true → refers (ref (change v)) target ≡ true)
      → ((v : V) → row ≡ some v → refers (ref v) target ≡ true)
      → refers (ref (upserted row fresh change)) target ≡ true
  ref_of_upserted none fresh change target f c h = f
  ref_of_upserted (some v) fresh change target f c h = c v (h v refl)

  pub References-upsert :
      (k : String) (fresh : V) (change : V → V) (m : List (String × V)) (target : List (String × W))
      → refers (ref fresh) target ≡ true
      → ((v : V) → refers (ref v) target ≡ true → refers (ref (change v)) target ≡ true)
      → References ref m target
      → References ref (upsert k fresh change m) target
  References-upsert k fresh change m target f c h j v e = elim (Bool-cases (str_eq k j)) [
    | inl y ↦
        let now = upserted (lookup k m) fresh change in
        let same : now ≡ v = some_injective now v (rw (lookup-upsert k j fresh change m, y) at e) in
        rw (← same) (ref_of_upserted (lookup k m) fresh change target f c (h k))
    | inr n ↦ h j v (rw (lookup-upsert k j fresh change m, n) at e)
  ]

  ref_of_updated :
      (row : Option V) (change : V → V) (target : List (String × W)) (w : V)
      → ((v : V) → row ≡ some v → refers (ref (change v)) target ≡ true)
      → updated row change ≡ some w
      → refers (ref w) target ≡ true
  ref_of_updated none change target w c e = elim (none≢some e) [ ]
  ref_of_updated (some v) change target w c e =
      let same : change v ≡ w = some_injective (change v) w e in rw (← same) (c v refl)

  pub References-update :
      (k : String) (change : V → V) (m : List (String × V)) (target : List (String × W))
      → ((v : V) → lookup k m ≡ some v → refers (ref (change v)) target ≡ true)
      → References ref m target
      → References ref (update k change m) target
  References-update k change m target c h j v e = elim (Bool-cases (str_eq k j)) [
    | inl y ↦
        ref_of_updated (lookup k m) change target v c (rw (lookup-update k j change m, y) at e)
    | inr n ↦ h j v (rw (lookup-update k j change m, n) at e)
  ]

abbrev pub mapped : {V W : Type 0} → (V → W) → Option V → Option W
mapped f none = none
mapped f (some v) = some (f v)

mapped-if :
    {V W : Type 0} (f : V → W) (b : Bool) (x y : Option V)
    → mapped f (if b then x else y) ≡ (if b then mapped f x else mapped f y)
mapped-if f true x y = refl
mapped-if f false x y = refl

pub lookup-map_values :
    {V W : Type 0} (f : V → W) (k : String) (m : List (String × V))
    → lookup k (map_values f m) ≡ mapped f (lookup k m)
lookup-map_values f k [] = refl
lookup-map_values f k ((j, v) ∷ m) =
    rw (mapped-if f (str_eq j k) (some v) (lookup k m), lookup-map_values f k m) refl
