-- ===== src/Versions.antt =====
-- shared/sdk_resolver.py: the versions of the SDK, the CLI, the devnet and the contracts that belong
-- to a release of the rollups node. The four dictionaries of the process are the state; the answer of
-- the GitHub API is an argument, none where the request fails or its status is not 200. A release is
-- what the scan reads of its JSON; texts are in ASCII.
pub mod Body
pub mod Resolve
mod Tests
use cartesi_release_validati.Prelude.{
  ℕ, zero, suc, ◌+◌, ◌-◌, ◌*◌, ◌/◌, ◌%◌, ◌≤◌, ◌<◌, min, max, ◌≡◌, refl, sym, ap, ◌∙◌, ◌≢◌, ◌↔◌, ◌⊎◌,
  inl, inr, Bool, true, false, not, ◌&&◌, ◌||◌, String, Option, none, some, List, [], ◌∷◌, ◌++◌,
  map, append-nil, append_assoc, arith, eq_iff, eq_refl, str_eq, if◌then◌else◌, ltb, leb, ◌==◌,
  ==_iff, ltb→lt, lt→ltb, leb→le, Bool-cases, Option-cases, length, take, drop, keep, count, all,
  any, All, length-append, length-take, length-drop, take-append-drop, count-le-length,
  count-append, lookup, has_key, insert, remove, HasDistinctKeys, In, In-keep_iff, Empty,
}
use Prim.Native.Char.{Char, code}
use cartesi_release_validati.Text.{
  chars, text, or_else, is_some, truthy, is_digit, is_word, lower, lstrip, before, ℤ, pos, negsuc,
  int_of, Pattern, one, many, seq, either, nothing, search,
}

abbrev digit_run : Pattern
digit_run = seq (one is_digit) (many is_digit)

abbrev char_pattern : ℕ → Pattern
char_pattern n = one (λ c. code c == n)

-- `(\d+\.\d+\.\d+(?:-\w+\.\d+)?)`.
abbrev pub version : Pattern
version =
    let suffix =
      seq (char_pattern 45)
        (seq (one is_word) (seq (many is_word) (seq (char_pattern 46) digit_run))) in
    seq digit_run (
      seq (char_pattern 46)
        (seq digit_run (seq (char_pattern 46) (seq digit_run (either suffix nothing)))))

-- A text in a pattern, with IGNORECASE.
abbrev pub literal : List Char → Pattern
literal [] = nothing
literal (c ∷ s) = seq (one (λ d. lower (code d) == lower (code c))) (literal s)

-- `[@: ]+`.
abbrev separators : Pattern
separators =
    let is_separator : Char → Bool = λ c. code c == 64 || code c == 58 || code c == 32 in
    seq (one is_separator) (many is_separator)

-- `v?`, with IGNORECASE.
abbrev pub optional_v : Pattern
optional_v = either (one (λ c. lower (code c) == 118)) nothing

-- What stands before the group in each of _SDK_PATTERNS.
abbrev pub sdk_package : Pattern
sdk_package = seq (literal (chars "@cartesi/sdk")) separators

abbrev pub sdk_runtime : Pattern
sdk_runtime = literal (chars "cartesi/rollups-runtime:")

abbrev pub sdk_database : Pattern
sdk_database = literal (chars "cartesi/rollups-database:")

-- _NODE_BUMP_RE, _DEVNET_IN_BODY_RE and _CONTRACTS_IN_BODY_RE.
abbrev pub node_bump : Pattern
node_bump = seq (literal (chars "rollups")) (
    seq (one (λ c. code c == 45 || code c == 32))
      (seq (literal (chars "node")) (seq (many (λ c. not (is_digit c))) optional_v)))

abbrev pub devnet_in_body : Pattern
devnet_in_body = seq (literal (chars "@cartesi/devnet")) (seq separators optional_v)

abbrev pub contracts_in_body : Pattern
contracts_in_body =
    seq
      (either (literal (chars "@cartesi/rollups-contracts")) (literal (chars "rollups-contracts")))
      (seq separators optional_v)

-- `_extract_sdk_from_body`: the loop over the three patterns.
unfoldable pub extract_sdk_from_body : List Char → Option (List Char)
extract_sdk_from_body body =
    or_else (search sdk_package version body)
      (or_else (search sdk_runtime version body) (search sdk_database version body))

pub record BodyVersions : Type 0 where
  pub sdk_version : Option (List Char)
  pub devnet_version : Option (List Char)
  pub contracts_version : Option (List Char)
  pub node_version : Option (List Char)

unfoldable pub extract_versions_from_cli_body : List Char → BodyVersions
extract_versions_from_cli_body body = record {
  sdk_version = extract_sdk_from_body body;
  devnet_version = search devnet_in_body version body;
  contracts_version = search contracts_in_body version body;
  node_version = search node_bump version body;
}

-- `node_major_version`: `int` raises no IndexError, for split never returns an empty list.
unfoldable pub node_major_version : String → ℤ
node_major_version node_tag = elim (int_of (before 46 (lstrip 118 (chars node_tag)))) [
  | none ↦ pos 1
  | some major ↦ major
]

-- `n >= 2`.
abbrev pub at_least_two : ℤ → Bool
at_least_two (pos n) = leb 2 n
at_least_two (negsuc n) = false

unfoldable pub derive_image_tag : String → Option String → String
unfolding node_major_version
derive_image_tag node_tag sdk_version =
    let plain = text (chars "cartesi/rollups-node:" ++ lstrip 118 (chars node_tag)) in
    if at_least_two (node_major_version node_tag)
    then (elim (truthy sdk_version) [
      | none ↦ plain
      | some sdk ↦ text (chars "cartesi/rollups-runtime:" ++ chars sdk)
    ])
    else plain
