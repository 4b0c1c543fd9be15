-- ===== src/Executors/Notice.antt =====
-- services/test-runner/executors/notice_check.py: `execute`, which polls the outputs of an application
-- until enough notices match. The answers to the polls and the clock are an argument, and so are the
-- decoding of a payload and `str` of a number; the loop runs on fuel. The texts of the result say what
-- the code's do without the payload.
pub mod Passing
use cartesi_release_validati.Prelude.{
  ℕ, zero, suc, ◌+◌, ◌-◌, ◌*◌, ◌/◌, ◌%◌, ◌≤◌, ◌<◌, min, max, ◌≡◌, refl, sym, ap, ◌∙◌, ◌≢◌, ◌↔◌, ◌⊎◌,
  inl, inr, Bool, true, false, not, ◌&&◌, ◌||◌, String, Option, none, some, List, [], ◌∷◌, ◌++◌,
  map, append-nil, append_assoc, arith, eq_iff, eq_refl, str_eq, if◌then◌else◌, ltb, leb, ◌==◌,
  ==_iff, ltb→lt, lt→ltb, leb→le, Bool-cases, Option-cases, length, take, drop, keep, count, all,
  any, All, length-append, length-take, length-drop, take-append-drop, count-le-length,
  count-append, lookup, has_key, insert, remove, HasDistinctKeys, In, In-keep_iff, Empty, none≢some,
  some_injective,
}
use Prim.Native.Char.{Char, code}
use Prim.Native.String.{◌++◌ as ◌++ₛ◌}
use cartesi_release_validati.Text.{chars, is_some, truthy, is_empty, lower}
use cartesi_release_validati.Runner.{AssertionResult, Execution, returned}
use cartesi_release_validati.Executors.{count_before_result, count_after_result}

-- An output: the keys that the executor reads. `decoded_data`, where it is there, is an object.
pub record Output : Type 0 where
  pub typename : Option String
  pub type_key : Option String
  pub output_enum : Option String
  pub destination : Option String
  pub decoded_type : Option String
  pub decoded_destination : Option String
  pub payload : Option String
  pub raw_data : Option String

abbrev is_text : String → Option String → Bool
is_text s none = false
is_text s (some t) = str_eq t s

-- `a in b`, with the letters of b in lower case if `folds` says so.
begins_with : Bool → List Char → List Char → Bool
begins_with folds [] s = true
begins_with folds (c ∷ n) [] = false
begins_with folds (c ∷ n) (d ∷ s) =
    (if folds then lower (code d) else code d) == code c && begins_with folds n s

unfoldable pub contains : Bool → List Char → List Char → Bool
unfolding begins_with
contains folds n [] = begins_with folds n []
contains folds n (d ∷ s) = begins_with folds n (d ∷ s) || contains folds n s

abbrev text_or_blank : Option String → List Char
text_or_blank none = []
text_or_blank (some s) = chars s

-- The test of the first comprehension.
unfoldable pub is_notice : Output → Bool
is_notice o =
    is_text "Notice" o.typename
    || is_text "Notice" o.type_key
    || contains true (chars "notice") (text_or_blank o.typename)
    || is_text "Notice" o.output_enum
    || is_text "Notice" o.decoded_type

unfoldable pub has_no_destination : Output → Bool
has_no_destination o =
    not (is_some (truthy o.destination)) && not (is_some (truthy o.decoded_destination))

unfoldable pub notices_of : List Output → List Output
notices_of outputs =
    let notices = keep is_notice outputs in
    if length notices == 0 then keep has_no_destination outputs else notices

-- `o.get("payload", o.get("raw_data", "0x"))`.
abbrev pub payload_of : Output → String
payload_of o = elim o.payload [ some p ↦ p | none ↦ elim o.raw_data [ some r ↦ r | none ↦ "0x" ] ]

module _ (decode : String → Option (List Char)) where
  -- `_matches`, where `decode` is none if it raises.
  unfoldable pub matches : String → Output → Bool
  matches contains_text o = elim (decode (payload_of o)) [
    | none ↦ false
    | some decoded ↦ contains false (chars contains_text) decoded
  ]

  unfoldable pub matching : String → List Output → List Output
  matching contains_text outputs =
      let notices = notices_of outputs in
      if is_empty contains_text then notices else keep (matches contains_text) notices

-- What a poll gets: an exception, a body with an error, or the outputs.
pub data Answer : Type 0 where
  raises has_error : Answer
  outputs : List Output → Answer

-- One turn: the time at the loop's test, since the start, and the answer.
pub record Poll : Type 0 where
  pub now : ℕ
  pub answer : Answer

-- The fields of the assertion, for a min_count that is not negative.
pub record NoticeCheck : Type 0 where
  pub min_count : ℕ
  pub contains_text : String
  pub poll_timeout : ℕ

-- before_count and last_count.
pub record Counts : Type 0 where
  pub before : Option ℕ
  pub last : ℕ

abbrev pub before_or : Option ℕ → ℕ → ℕ
before_or none n = n
before_or (some b) n = b

module _ (decode : String → Option (List Char)) (str : ℕ → String) (check : NoticeCheck) where
  -- The number of matching notices, none without outputs.
  unfoldable pub seen : Answer → Option ℕ
  seen raises = none
  seen has_error = none
  seen (outputs os) = some (length (matching decode check.contains_text os))

  -- `len(matching) >= min_count`; without a match, `matching[0]` raises, and the loop goes on.
  unfoldable pub is_enough : Option ℕ → Bool
  is_enough none = false
  is_enough (some n) = leb check.min_count n && not (n == 0)

  unfoldable pub count_seen : Option ℕ → Counts → Counts
  count_seen none c = c
  count_seen (some n) c = record { before = some (before_or c.before n); last = n }

  abbrev main : Bool → String → AssertionResult
  main ok detail = record { assertion_type = "notice_check"; passed = ok; detail = detail }

  -- The three results, where a count was taken before.
  unfoldable pub found : Counts → Execution
  found c = returned (
      count_before_result str "notices" (before_or c.before c.last)
      ∷ main true
          ("Found " ++ₛ str c.last ++ₛ " notice(s) (expected >= " ++ₛ str check.min_count ++ₛ ")")
      ∷ count_after_result str "notices" (before_or c.before c.last) c.last false
      ∷ [])

  unfoldable pub timed_out : ℕ → AssertionResult
  timed_out last = main false (
      "Timed out after "
      ++ₛ str check.poll_timeout
      ++ₛ "s — last seen: "
      ++ₛ str last
      ++ₛ " (expected >= "
      ++ₛ str check.min_count
      ++ₛ ")")

  unfoldable pub gave_up : Option ℕ → ℕ → Execution
  gave_up none last = returned (timed_out last ∷ [])
  gave_up (some before) last = returned (
      count_before_result str "notices" before
      ∷ timed_out last
      ∷ count_after_result str "notices" before last false
      ∷ [])

  -- The loop from its turn n on, over the fuel that is left.
  unfoldable pub poll_from : (ℕ → Poll) → ℕ → ℕ → Counts → Option Execution
  poll_from polls zero n c = none
  poll_from polls (suc fuel) n c =
      let p = polls n in
      let counted = seen p.answer in
      let after = count_seen counted c in
      let rest = poll_from polls fuel (suc n) after in
      if ltb p.now check.poll_timeout
      then (if is_enough counted then some (found after) else rest)
      else some (gave_up c.before c.last)

  -- `NoticeCheckExecutor.execute`.
  unfoldable pub execute : (ℕ → Poll) → ℕ → Option Execution
  execute polls fuel = poll_from polls fuel 0 (record { before = none; last = 0 })
