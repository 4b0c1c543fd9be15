-- ===== src/Runs/Dispatch/Selection.antt =====
-- Which definitions a run dispatches.
use cartesi_release_validati.Prelude.{
  ℕ, ◌≡◌, refl, ◌≢◌, ◌↔◌, inl, inr, Bool, true, not, String, Option, none, some, List, [], ◌∷◌,
  arith, eq_iff, if◌then◌else◌, ==_iff, Bool-cases, keep, any, In, In-keep_iff,
}
use cartesi_release_validati.Runs.{Run}
use cartesi_release_validati.Runs.Dispatch.{
  Definition, contains, is_empty, overlaps, overlaps_not, is_any_of, fetches, select_definitions,
}

-- A text of both lists.
abbrev pub Shares : List String → List String → Type 0
Shares xs ys = (x : String) × In x xs × In x ys

-- What the tags and the category filter of a run ask of a definition.
pub Matches : List String → List String → Definition → Type 0
Matches [] [] d = (tags : List String) × (d.tags ≡ some tags) × (¬ In "standalone" tags)
Matches [] (c ∷ cs) d = (x : String) × (d.category ≡ some x) × In x (c ∷ cs)
Matches (t ∷ ts) cs d = (tags : List String) × (d.tags ≡ some tags) × Shares tags (t ∷ ts)

-- What a run asks of a definition.
pub record IsWanted (run : Run) (d : Definition) : Type 0 where
  pub active : d.is_active ≡ true
  pub version : d.min_node_major_version ≡ run.node_major_version
  pub matches : Matches run.metadata.tags_filter run.metadata.category_filter d
  pub in_suite : run.suite_ids ≢ [] → In d.id run.suite_ids

contains_iff : (a : String) (xs : List String) → (contains xs a ≡ true) ↔ In a xs
contains_iff a [] = ((λ h. cc), (λ h. elim h [ ]))
contains_iff a (x ∷ xs) =
    let (to, from) = contains_iff a xs in
    ((λ h. ground (arith, eq_iff x a, to)), (λ h. ground (arith, eq_iff x a, from)))

any-Shares : (xs ys : List String) → (any (λ x. contains ys x) xs ≡ true) ↔ Shares xs ys
any-Shares xs ys = (to xs, from xs)
  where
    to : (xs : List String) → any (λ x. contains ys x) xs ≡ true → Shares xs ys
    to [] h = cc
    to (x ∷ xs) h = elim (Bool-cases (contains ys x)) [
      | inl e ↦ (x, inl refl, (contains_iff x ys).0 e)
      | inr e ↦ (let (z, i, j) = to xs (ground arith) in (z, inr i, j))
    ]

    from : (xs : List String) → Shares xs ys → any (λ x. contains ys x) xs ≡ true
    from [] (z, i, j) = elim i [ ]
    from (x ∷ xs) (z, inl e, j) = ground (arith, (contains_iff x ys).1)
    from (x ∷ xs) (z, inr i, j) = ground (arith, from xs (z, i, j))

is_empty_iff : (xs : List String) → (is_empty xs ≡ true) ↔ (xs ≡ [])
is_empty_iff [] = ((λ h. refl), (λ h. refl))
is_empty_iff (x ∷ xs) = ((λ h. cc), (λ h. cc))

In-suite_iff :
    (suite_ids : List String) (fetched : List Definition) (d : Definition)
    → In d
        (if not (is_empty suite_ids) then keep (λ d. contains suite_ids d.id) fetched else fetched)
      ↔ (In d fetched × (suite_ids ≢ [] → In d.id suite_ids))
In-suite_iff [] fetched d = ((λ h. (h, λ n. elim (n refl) [ ])), (λ h. h.0))
In-suite_iff (s ∷ suite_ids) fetched d =
    let (to, from) = In-keep_iff (λ d. contains (s ∷ suite_ids) d.id) d fetched in
    let (to2, from2) = contains_iff d.id (s ∷ suite_ids) in
    ((λ h. ((to h).0, λ n. to2 (to h).1)), (λ h. from (h.0, from2 (h.1 (λ e. cc)))))

overlaps_iff :
    (tags : Option (List String)) (ys : List String)
    → (overlaps tags ys ≡ true) ↔ ((xs : List String) × (tags ≡ some xs) × Shares xs ys)
unfolding overlaps
overlaps_iff none ys = ((λ h. cc), (λ h. cc))
overlaps_iff (some xs) ys =
    let (to, from) = any-Shares xs ys in
    ((λ h. (xs, refl, to h)), (λ (zs, e, s). ground (arith, from, e, s)))

shares_one :
    (y z : String) (xs zs : List String) → some xs ≡ some zs → In z xs → In z (y ∷ []) → In y zs
shares_one y z xs zs e i (inl p) = ground (arith, e, i, p)
shares_one y z xs zs e i (inr k) = elim k [ ]

overlaps_not_iff :
    (tags : Option (List String)) (y : String)
    → (overlaps_not tags (y ∷ []) ≡ true) ↔ ((xs : List String) × (tags ≡ some xs) × (¬ In y xs))
unfolding overlaps_not
overlaps_not_iff none y = ((λ h. cc), (λ h. cc))
overlaps_not_iff (some xs) y =
    let (to, from) = any-Shares xs (y ∷ []) in
    (
      (λ h. (xs, refl, λ i. ground (arith, from (y, i, inl refl)))),
      (λ (zs, e, n). elim (Bool-cases (any (λ x. contains (y ∷ []) x) xs)) [
        | inl a ↦ (let (z, i, j) = to a in elim (n (shares_one y z xs zs e i j)) [ ])
        | inr a ↦ rw a refl
      ]),
    )

is_any_of_iff :
    (c : Option String) (cats : List String)
    → (is_any_of c cats ≡ true) ↔ ((x : String) × (c ≡ some x) × In x cats)
unfolding is_any_of
is_any_of_iff none cats = ((λ h. cc), (λ h. cc))
is_any_of_iff (some c) cats =
    let (to, from) = contains_iff c cats in
    ((λ h. (c, refl, to h)), (λ (x, e, i). ground (arith, from, e, i)))

Matches-iff :
    (ts cs : List String) (d : Definition)
    → ((if not (is_empty ts)
          then overlaps d.tags ts
          else (if not (is_empty cs)
              then is_any_of d.category cs
              else overlaps_not d.tags ("standalone" ∷ [])))
        ≡ true)
      ↔ Matches ts cs d
unfolding Matches
Matches-iff [] [] d = overlaps_not_iff d.tags "standalone"
Matches-iff [] (c ∷ cs) d = is_any_of_iff d.category (c ∷ cs)
Matches-iff (t ∷ ts) [] d = overlaps_iff d.tags (t ∷ ts)
Matches-iff (t ∷ ts) (c ∷ cs) d = overlaps_iff d.tags (t ∷ ts)

fetches_iff :
    (v : ℕ) (ts cs : List String) (d : Definition)
    → (fetches v ts cs d ≡ true)
      ↔ ((d.is_active ≡ true) × (d.min_node_major_version ≡ v) × Matches ts cs d)
unfolding fetches
fetches_iff v ts cs d =
    let (to, from) = Matches-iff ts cs d in
    (
      (λ h. (ground arith, ground (arith, ==_iff d.min_node_major_version v), to (ground arith))),
      (λ (a, b, m). ground (arith, ==_iff d.min_node_major_version v, from m)),
    )

-- A definition is selected for a run exactly when it is a row of the table, active, of the run's
-- node version and, where the run has suite ids, one of them, and it shares a tag with the tags
-- filter, or without one has a category of the category filter, or without both has tags that
-- lack 'standalone'.
pub In-select_definitions_iff :
    (run : Run) (definitions : List Definition) (d : Definition)
    → In d (select_definitions run definitions) ↔ (In d definitions × IsWanted run d)
unfolding select_definitions
In-select_definitions_iff run definitions d = (to, from)
  where
    p : Definition → Bool
    p = fetches run.node_major_version run.metadata.tags_filter run.metadata.category_filter

    to :
        In d (
          if not (is_empty run.suite_ids)
          then keep (λ d. contains run.suite_ids d.id) (keep p definitions)
          else keep p definitions)
        → In d definitions × IsWanted run d
    to h =
        let (kept, suite) = (In-suite_iff run.suite_ids (keep p definitions) d).0 h in
        let (i, e) = (In-keep_iff p d definitions).0 kept in
        let (a, v, m) = (fetches_iff _ _ _ d).0 e in
        (i, record { active = a; version = v; matches = m; in_suite = suite })

    from :
        In d definitions × IsWanted run d
        → In d (
            if not (is_empty run.suite_ids)
            then keep (λ d. contains run.suite_ids d.id) (keep p definitions)
            else keep p definitions)
    from (i, w) = (In-suite_iff run.suite_ids (keep p definitions) d).1 (
      (In-keep_iff p d definitions).1 (i, (fetches_iff _ _ _ d).1 (w.active, w.version, w.matches)),
      w.in_suite,
    )
