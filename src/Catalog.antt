-- ===== src/Catalog.antt =====
-- The version chain of the schema github.*, which services/github-watcher/poller.py and
-- services/orchestrator/api/routes/releases.py write and the consumers read: the five tables of
-- infra/postgres/init.sql with their foreign keys, the SQL statements that write them, and the
-- transactions, which PostgreSQL takes back if one of their statements breaks a foreign key. The
-- column added_at, which only orders the lists that the API returns, is left out.
mod Tests
pub mod References
pub mod Keys
pub mod Transactions
pub mod Leaves
use cartesi_release_validati.Prelude.{
  ℕ, zero, suc, ◌+◌, ◌-◌, ◌*◌, ◌/◌, ◌%◌, ◌≤◌, ◌<◌, min, max, ◌≡◌, refl, sym, ap, ◌∙◌, ◌≢◌, ◌↔◌, ◌⊎◌,
  inl, inr, Bool, true, false, not, ◌&&◌, ◌||◌, String, Option, none, some, List, [], ◌∷◌, ◌++◌,
  map, append-nil, append_assoc, arith, eq_iff, eq_refl, str_eq, if◌then◌else◌, ltb, leb, ◌==◌,
  ==_iff, ltb→lt, lt→ltb, leb→le, Bool-cases, Option-cases, length, take, drop, keep, count, all,
  any, All, length-append, length-take, length-drop, take-append-drop, count-le-length,
  count-append, lookup, has_key, insert, remove, HasDistinctKeys, In, In-keep_iff, Empty, none≢some,
  some_injective,
}
use cartesi_release_validati.Text.{
  chars, text, or_else, is_some, truthy, lower, lstrip, ℤ, pos, negsuc, is_empty,
}
use Prim.Native.Char.{Char, code}
use cartesi_release_validati.Releases as R

-- published_at, downloads, body and html_url.
pub record Details : Type 0 where
  pub published_at : Option String
  pub downloads : ℕ
  pub body : Option String
  pub html_url : Option String

-- What every row has beside its tag and the tags that it refers to.
pub record Meta : Type 0 where
  pub channel : String
  pub label : Option String
  pub is_active : Bool
  pub details : Details

pub record DevnetRow : Type 0 where
  pub contracts_tag : Option String
  pub meta : Meta

pub record CliRow : Type 0 where
  pub sdk_tag : Option String
  pub devnet_tag : Option String
  pub meta : Meta

pub record ReleaseRow : Type 0 where
  pub cli_tag : Option String
  pub node_major_version : Option ℤ
  pub meta : Meta

-- sdk_catalog, contracts_catalog, devnet_catalog, cli_catalog and release_catalog by their primary
-- key, the tag.
pub record Tables : Type 0 where
  pub sdks : List (String × Meta)
  pub contracts : List (String × Meta)
  pub devnets : List (String × DevnetRow)
  pub clis : List (String × CliRow)
  pub releases : List (String × ReleaseRow)

-- The columns' defaults, and a row that the chain's statements insert: its label is its tag.
abbrev pub no_details : Details
no_details = record { published_at = none; downloads = 0; body = none; html_url = none }

abbrev pub labelled : String → String → Meta
labelled tag channel = record {
  channel = channel;
  label = some tag;
  is_active = true;
  details = no_details;
}

-- `INSERT … ON CONFLICT (tag) DO UPDATE`: a fresh row, or the change of the one that is there; and
-- `UPDATE … WHERE tag = :tag`.
module _ {V : Type 0} where
  abbrev pub upserted : Option V → V → (V → V) → V
  upserted none fresh change = fresh
  upserted (some v) fresh change = change v

  unfoldable pub upsert : String → V → (V → V) → List (String × V) → List (String × V)
  upsert k fresh change m = insert k (upserted (lookup k m) fresh change) m

  abbrev pub write_back : String → (V → V) → Option V → List (String × V) → List (String × V)
  write_back k change none m = m
  write_back k change (some v) m = insert k (change v) m

  unfoldable pub update : String → (V → V) → List (String × V) → List (String × V)
  update k change m = write_back k change (lookup k m) m

  -- The statement under its `if tag:`.
  abbrev pub upsert_tag :
      Option String → (String → V) → (V → V) → List (String × V) → List (String × V)
  upsert_tag none fresh change m = m
  upsert_tag (some k) fresh change m = upsert k (fresh k) change m

  abbrev pub update_tag : Option String → (V → V) → List (String × V) → List (String × V)
  update_tag none change m = m
  update_tag (some k) change m = update k change m

-- `ON CONFLICT (tag) DO NOTHING` leaves the row as it is.
abbrev pub do_nothing : Meta → Meta
do_nothing meta = meta

-- The statements that write. The tag of the first four is an Option for the `if tag:` before them,
-- which skips the statement for None and for the empty text.
pub data Statement : Type 0 where
  insert_sdk insert_contracts : Option String → (String → Meta) → (Meta → Meta) → Statement
  insert_devnet : Option String → Option String → (String → Meta) → Statement
  insert_cli :
      Option String → Option String → Option String → (String → Meta) → (Meta → Meta) → Statement
  insert_release : String → Option String → ℤ → Meta → (Meta → Meta) → Statement
  fill_cli_tag : String → String → Statement
  set_cli_tag : String → Option String → Statement
  set_toolchain : Option String → Option String → Option String → Statement
  set_contracts_tag : Option String → Option String → Statement
  deactivate : String → Statement

abbrev pub devnet_change : Option String → DevnetRow → DevnetRow
devnet_change contracts_tag row = record row {
  contracts_tag = or_else contracts_tag row.contracts_tag;
}

abbrev pub cli_change : Option String → Option String → (Meta → Meta) → CliRow → CliRow
cli_change sdk_tag devnet_tag change row = record {
  sdk_tag = or_else sdk_tag row.sdk_tag;
  devnet_tag = or_else devnet_tag row.devnet_tag;
  meta = change row.meta;
}

abbrev pub release_change : Option String → ℤ → (Meta → Meta) → ReleaseRow → ReleaseRow
release_change cli_tag major change row = record {
  cli_tag = or_else cli_tag row.cli_tag;
  node_major_version = some major;
  meta = change row.meta;
}

-- What a statement writes.
unfoldable pub effect : Statement → Tables → Tables
effect (insert_sdk tag fresh change) t = record t {
  sdks = upsert_tag (truthy tag) fresh change t.sdks;
}
effect (insert_contracts tag fresh change) t = record t {
  contracts = upsert_tag (truthy tag) fresh change t.contracts;
}
effect (insert_devnet tag contracts_tag fresh) t = record t {
  devnets =
      upsert_tag (truthy tag) (λ k. record { contracts_tag = contracts_tag; meta = fresh k })
        (devnet_change contracts_tag) t.devnets;
}
effect (insert_cli tag sdk_tag devnet_tag fresh change) t = record t {
  clis =
      upsert_tag (truthy tag)
        (λ k. record { sdk_tag = sdk_tag; devnet_tag = devnet_tag; meta = fresh k })
        (cli_change sdk_tag devnet_tag change) t.clis;
}
effect (insert_release tag cli_tag major fresh change) t = record t {
  releases =
      upsert tag (record { cli_tag = cli_tag; node_major_version = some major; meta = fresh })
        (release_change cli_tag major change) t.releases;
}
effect (fill_cli_tag tag cli_tag) t = record t {
  releases =
      update tag (λ row. record row { cli_tag = or_else row.cli_tag (some cli_tag) }) t.releases;
}
effect (set_cli_tag tag cli_tag) t = record t {
  releases = update tag (λ row. record row { cli_tag = cli_tag }) t.releases;
}
effect (set_toolchain tag sdk_tag devnet_tag) t = record t {
  clis = update_tag (truthy tag) (cli_change sdk_tag devnet_tag (λ meta. meta)) t.clis;
}
effect (set_contracts_tag tag contracts_tag) t = record t {
  devnets =
      update_tag (if is_some (truthy contracts_tag) then truthy tag else none)
        (λ row. record row { contracts_tag = contracts_tag }) t.devnets;
}
effect (deactivate tag) t = record t {
  releases =
      update tag (λ row. record row { meta = record row.meta { is_active = false } }) t.releases;
}

-- A foreign key: NULL, or a tag of the other table.
abbrev pub refers : {V : Type 0} → Option String → List (String × V) → Bool
refers none m = true
refers (some tag) m = has_key tag m

-- Whether `WHERE tag = :tag` finds a row.
abbrev pub has_row : {V : Type 0} → Option String → List (String × V) → Bool
has_row none m = false
has_row (some k) m = has_key k m

-- Whether PostgreSQL takes a statement, as far as the foreign keys decide: each reference that it writes
-- is null or a tag of its table. That the major version fits its column is taken for granted.
unfoldable pub is_allowed : Statement → Tables → Bool
is_allowed (insert_sdk tag fresh change) t = true
is_allowed (insert_contracts tag fresh change) t = true
is_allowed (insert_devnet tag contracts_tag fresh) t =
    not (is_some (truthy tag)) || refers contracts_tag t.contracts
is_allowed (insert_cli tag sdk_tag devnet_tag fresh change) t =
    not (is_some (truthy tag)) || (refers sdk_tag t.sdks && refers devnet_tag t.devnets)
is_allowed (insert_release tag cli_tag major fresh change) t = refers cli_tag t.clis
is_allowed (fill_cli_tag tag cli_tag) t =
    not (has_key tag t.releases) || refers (some cli_tag) t.clis
is_allowed (set_cli_tag tag cli_tag) t = not (has_key tag t.releases) || refers cli_tag t.clis
is_allowed (set_toolchain tag sdk_tag devnet_tag) t =
    not (has_row (truthy tag) t.clis) || (refers sdk_tag t.sdks && refers devnet_tag t.devnets)
is_allowed (set_contracts_tag tag contracts_tag) t =
    not (has_row (if is_some (truthy contracts_tag) then truthy tag else none) t.devnets)
    || refers contracts_tag t.contracts
is_allowed (deactivate tag) t = true

-- A transaction: none where a statement raises, and nothing of it stays.
unfoldable pub transaction : List Statement → Tables → Option Tables
transaction [] t = some t
transaction (s ∷ ss) t =
    let rest = transaction ss (effect s t) in if is_allowed s t then rest else none

-- `f"v{x}" if x else None`.
unfoldable pub prefix_v : Option String → Option String
prefix_v x = elim (truthy x) [ none ↦ none | some s ↦ some (text (chars "v" ++ chars s)) ]

abbrev is_prefix : List Char → List Char → Bool
is_prefix [] s = true
is_prefix (c ∷ p) [] = false
is_prefix (c ∷ p) (d ∷ s) = (code c == lower (code d)) && is_prefix p s

-- `needle in s.lower()`.
unfoldable pub contains_lower : List Char → List Char → Bool
contains_lower needle [] = is_prefix needle []
contains_lower needle (c ∷ s) = is_prefix needle (c ∷ s) || contains_lower needle s

-- `_derive_channel`.
unfoldable pub derive_channel : String → String
derive_channel tag =
    if contains_lower (chars "alpha") (chars tag)
    then "alpha"
    else (if contains_lower (chars "beta") (chars tag) then "beta" else "stable")

abbrev pub map_values : {V W : Type 0} → (V → W) → List (String × V) → List (String × W)
map_values f [] = []
map_values f ((k, v) ∷ m) = (k, f v) ∷ map_values f m

-- What the joins of the consumers and of the API read of the tables.
abbrev pub catalogs_of : Tables → R.Catalogs
catalogs_of t = record {
  releases =
      map_values
        (λ row. record { cli_tag = row.cli_tag; node_major_version = row.node_major_version })
        t.releases;
  clis = map_values (λ row. record { sdk_tag = row.sdk_tag; devnet_tag = row.devnet_tag }) t.clis;
  devnets = map_values (λ row. row.contracts_tag) t.devnets;
}
