-- ===== src/Versions/Body.antt =====
-- What the search in the body of a CLI release finds.
use cartesi_release_validati.Prelude.{◌≡◌, refl, ◌⊎◌, inl, inr, none, some, List, Option-cases}
use Prim.Native.Char.{Char}
use cartesi_release_validati.Text.{search}
use cartesi_release_validati.Text.Matching.{Occurs, search-Occurs, search-misses}
use cartesi_release_validati.Versions.{
  version, sdk_package, sdk_runtime, sdk_database, extract_sdk_from_body,
}

-- The three places that name a version of the SDK.
pub data NamesSdk (body v : List Char) : Type 0 where
  in_package : Occurs sdk_package version body v → NamesSdk body v
  in_runtime : Occurs sdk_runtime version body v → NamesSdk body v
  in_database : Occurs sdk_database version body v → NamesSdk body v

-- Either the version that `_extract_sdk_from_body` returns stands in the body behind a match of
-- what one of the three patterns has before its group, and has the form of a version; or it
-- returns none, and no pattern matches anywhere.
pub extract_sdk_from_body-cases :
    (body : List Char)
    → ((v : List Char) × ((extract_sdk_from_body body ≡ some v) × NamesSdk body v))
      ⊎ ((extract_sdk_from_body body ≡ none) × ((v : List Char) → ¬ NamesSdk body v))
unfolding extract_sdk_from_body
extract_sdk_from_body-cases body = elim (Option-cases (search sdk_package version body)) [
  | inl e ↦ elim (Option-cases (search sdk_runtime version body)) [
    | inl f ↦ elim (Option-cases (search sdk_database version body)) [
      | inl g ↦ inr (rw (e, f, g) refl, nowhere e f g)
      | inr (v, g) ↦ inl (v, (rw (e, f, g) refl, in_database (search-Occurs _ _ body v g)))
    ]
    | inr (v, f) ↦ inl (v, (rw (e, f) refl, in_runtime (search-Occurs _ _ body v f)))
  ]
  | inr (v, e) ↦ inl (v, (rw e refl, in_package (search-Occurs _ _ body v e)))
]
  where
    nowhere :
        search sdk_package version body ≡ none
        → search sdk_runtime version body ≡ none
        → search sdk_database version body ≡ none
        → (v : List Char) → ¬ NamesSdk body v
    nowhere e f g v (in_package o) = search-misses _ _ body v e o
    nowhere e f g v (in_runtime o) = search-misses _ _ body v f o
    nowhere e f g v (in_database o) = search-misses _ _ body v g o
