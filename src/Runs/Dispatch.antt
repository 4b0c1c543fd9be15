-- ===== src/Runs/Dispatch.antt =====
-- services/orchestrator/consumers/sandbox_events.py: `_dispatch_tests`, which selects the test
-- definitions of a run and publishes a command for each.
pub mod Selection
use cartesi_release_validati.Prelude.{
  ℕ, zero, suc, ◌+◌, ◌-◌, ◌*◌, ◌/◌, ◌%◌, ◌≤◌, ◌<◌, min, max, ◌≡◌, refl, sym, ap, ◌∙◌, ◌≢◌, ◌↔◌, ◌⊎◌,
  inl, inr, Bool, true, false, not, ◌&&◌, ◌||◌, String, Option, none, some, List, [], ◌∷◌, ◌++◌,
  map, append-nil, append_assoc, arith, eq_iff, eq_refl, str_eq, if◌then◌else◌, ltb, leb, ◌==◌,
  ==_iff, ltb→lt, lt→ltb, leb→le, Bool-cases, Option-cases, length, take, drop, keep, count, all,
  any, All, length-append, length-take, length-drop, take-append-drop, count-le-length,
  count-append, lookup, has_key, insert, remove, HasDistinctKeys, In, In-keep_iff, Empty,
}
use cartesi_release_validati.Runs.{Metadata, Run}

-- A row of tests.definitions. The columns tags and category may be NULL.
pub record Definition : Type 0 where
  pub id : String
  pub slug : String
  pub version : ℕ
  pub is_active : Bool
  pub min_node_major_version : ℕ
  pub tags : Option (List String)
  pub category : Option String

pub record Command : Type 0 where
  pub run_id : String
  pub sandbox_id : String
  pub definition_id : String
  pub definition_version : ℕ
  pub definition_slug : String
  pub node_major_version : ℕ
  pub app_address : Option String

abbrev pub contains : List String → String → Bool
contains xs a = any (λ x. str_eq x a) xs

abbrev pub is_empty {ℓ} : {A : Type ℓ} → List A → Bool
is_empty [] = true
is_empty (x ∷ xs) = false

-- SQL's `a && b` on arrays, as a WHERE condition: NULL counts as false, and so does its negation.
unfoldable pub overlaps : Option (List String) → List String → Bool
overlaps none ys = false
overlaps (some xs) ys = any (λ x. contains ys x) xs

unfoldable pub overlaps_not : Option (List String) → List String → Bool
overlaps_not none ys = false
overlaps_not (some xs) ys = not (any (λ x. contains ys x) xs)

-- `category = ANY(...)`.
unfoldable pub is_any_of : Option String → List String → Bool
is_any_of none cats = false
is_any_of (some c) cats = contains cats c

-- The WHERE clause of the query that is run: by tags, else by categories, else without 'standalone'.
unfoldable pub fetches : ℕ → List String → List String → Definition → Bool
unfolding overlaps overlaps_not is_any_of
fetches node_version tags_filter category_filter d =
    d.is_active
    && d.min_node_major_version == node_version
    && (if not (is_empty tags_filter)
        then overlaps d.tags tags_filter
        else (if not (is_empty category_filter)
            then is_any_of d.category category_filter
            else overlaps_not d.tags ("standalone" ∷ [])))

-- The definitions that are dispatched: the fetched rows, then the filter by suite ids.
unfoldable pub select_definitions : Run → List Definition → List Definition
select_definitions run definitions =
    let fetched =
      keep (fetches run.node_major_version run.metadata.tags_filter run.metadata.category_filter)
        definitions in
    if not (is_empty run.suite_ids)
    then keep (λ d. contains run.suite_ids d.id) fetched
    else fetched

-- `sandbox_msg.get("app_address") or run.app_address`.
abbrev pub or_else : Option String → Option String → Option String
or_else none b = b
or_else (some a) b = some a

unfoldable pub make_command : Run → String → Option String → Definition → Command
make_command run sandbox_id app_address d = record {
  run_id = run.id;
  sandbox_id = sandbox_id;
  definition_id = d.id;
  definition_version = d.version;
  definition_slug = d.slug;
  node_major_version = run.node_major_version;
  app_address = or_else app_address run.app_address;
}

unfoldable pub set_dispatched : ℕ → Run → Run
set_dispatched n run =
    let m = run.metadata in record run { metadata = record m { dispatched_count = some n } }

-- `_dispatch_tests` for a run that is in the table: its row afterwards, and the commands published.
unfoldable pub dispatch_tests : Run → String → Option String → List Definition → Run × List Command
dispatch_tests run sandbox_id app_address definitions =
    if run.metadata.ai_session
    then (set_dispatched 0 run, [])
    else (let selected = select_definitions run definitions in
        (
          set_dispatched (length selected) run,
          map (make_command run sandbox_id app_address) selected,
        ))
