-- ===== src/Catalog/Keys.antt =====
-- What the statements of a transaction keep: the foreign keys of the five tables, and every row's key.
use cartesi_release_validati.Prelude.{
  ◌≡◌, refl, inl, inr, Bool, true, false, not, ◌&&◌, ◌||◌, String, Option, none, some, List, [],
  ◌∷◌, arith, if◌then◌else◌, Bool-cases, lookup, has_key, none≢some, some_injective,
}
use cartesi_release_validati.Text.{or_else, is_some, truthy}
use cartesi_release_validati.Catalog.{
  Meta, DevnetRow, CliRow, ReleaseRow, Tables, upsert, update, Statement, insert_sdk,
  insert_contracts, insert_devnet, insert_cli, insert_release, fill_cli_tag, set_cli_tag,
  set_toolchain, set_contracts_tag, deactivate, upsert_tag, update_tag, effect, refers, is_allowed,
  transaction, has_row, devnet_change, cli_change, release_change,
}
use cartesi_release_validati.Catalog.References.{
  has_key-lookup, References, refers-or_else, References-grow, References-upsert, References-update,
  upsert-grow, update-grow,
}

-- The four foreign keys hold.
pub record WellFormed (t : Tables) : Type 0 where
  pub contracts_of_devnets : References (λ row. row.contracts_tag) t.devnets t.contracts
  pub sdk_of_clis : References (λ row. row.sdk_tag) t.clis t.sdks
  pub devnet_of_clis : References (λ row. row.devnet_tag) t.clis t.devnets
  pub cli_of_releases : References (λ row. row.cli_tag) t.releases t.clis

both : (a b : Bool) → a && b ≡ true → (a ≡ true) × (b ≡ true)
both true b h = (refl, h)
both false b h = (h, ground arith)

-- A table by another one that has all its tags.
abbrev Grows : {V : Type 0} → List (String × V) → List (String × V) → Type 0
Grows m n = (j : String) → has_key j m ≡ true → has_key j n ≡ true

module _ (t : Tables) (h : WellFormed t) where
  with_sdks :
      (sdks : List (String × Meta)) → Grows t.sdks sdks → WellFormed (record t { sdks = sdks })
  with_sdks sdks g = record {
    contracts_of_devnets = h.contracts_of_devnets;
    sdk_of_clis = References-grow (λ row. row.sdk_tag) t.clis t.sdks sdks g h.sdk_of_clis;
    devnet_of_clis = h.devnet_of_clis;
    cli_of_releases = h.cli_of_releases;
  }

  with_contracts :
      (contracts : List (String × Meta))
      → Grows t.contracts contracts
      → WellFormed (record t { contracts = contracts })
  with_contracts contracts g = record {
    contracts_of_devnets =
        References-grow (λ row. row.contracts_tag) t.devnets t.contracts contracts g
          h.contracts_of_devnets;
    sdk_of_clis = h.sdk_of_clis;
    devnet_of_clis = h.devnet_of_clis;
    cli_of_releases = h.cli_of_releases;
  }

  with_devnets :
      (devnets : List (String × DevnetRow))
      → Grows t.devnets devnets
      → References (λ row. row.contracts_tag) devnets t.contracts
      → WellFormed (record t { devnets = devnets })
  with_devnets devnets g r = record {
    contracts_of_devnets = r;
    sdk_of_clis = h.sdk_of_clis;
    devnet_of_clis =
        References-grow (λ row. row.devnet_tag) t.clis t.devnets devnets g h.devnet_of_clis;
    cli_of_releases = h.cli_of_releases;
  }

  with_clis :
      (clis : List (String × CliRow))
      → Grows t.clis clis
      → References (λ row. row.sdk_tag) clis t.sdks
      → References (λ row. row.devnet_tag) clis t.devnets
      → WellFormed (record t { clis = clis })
  with_clis clis g rs rd = record {
    contracts_of_devnets = h.contracts_of_devnets;
    sdk_of_clis = rs;
    devnet_of_clis = rd;
    cli_of_releases =
        References-grow (λ row. row.cli_tag) t.releases t.clis clis g h.cli_of_releases;
  }

  with_releases :
      (releases : List (String × ReleaseRow))
      → References (λ row. row.cli_tag) releases t.clis
      → WellFormed (record t { releases = releases })
  with_releases releases r = record {
    contracts_of_devnets = h.contracts_of_devnets;
    sdk_of_clis = h.sdk_of_clis;
    devnet_of_clis = h.devnet_of_clis;
    cli_of_releases = r;
  }

  sdk_statement :
      (tag : Option String) (fresh : String → Meta) (change : Meta → Meta)
      → WellFormed (record t { sdks = upsert_tag tag fresh change t.sdks })
  sdk_statement none fresh change = h
  sdk_statement (some k) fresh change =
      with_sdks (upsert k (fresh k) change t.sdks) (upsert-grow k (fresh k) change t.sdks)

  contracts_statement :
      (tag : Option String) (fresh : String → Meta) (change : Meta → Meta)
      → WellFormed (record t { contracts = upsert_tag tag fresh change t.contracts })
  contracts_statement none fresh change = h
  contracts_statement (some k) fresh change =
      with_contracts (upsert k (fresh k) change t.contracts)
        (upsert-grow k (fresh k) change t.contracts)

  devnet_statement :
      (tag contracts_tag : Option String) (fresh : String → Meta)
      → not (is_some tag) || refers contracts_tag t.contracts ≡ true
      → WellFormed (record t {
        devnets =
            upsert_tag tag
              (λ k. record { contracts_tag = contracts_tag; meta = fresh k })
              (devnet_change contracts_tag)
              t.devnets;
      })
  devnet_statement none contracts_tag fresh a = h
  devnet_statement (some k) contracts_tag fresh a =
      let row : DevnetRow = record { contracts_tag = contracts_tag; meta = fresh k } in
      with_devnets (upsert k row (devnet_change contracts_tag) t.devnets)
        (upsert-grow k row (devnet_change contracts_tag) t.devnets)
        (References-upsert (λ row. row.contracts_tag) k row (devnet_change contracts_tag) t.devnets
          t.contracts a (λ v. refers-or_else contracts_tag v.contracts_tag t.contracts a)
          h.contracts_of_devnets)

  cli_statement :
      (tag sdk_tag devnet_tag : Option String) (fresh : String → Meta) (change : Meta → Meta)
      → not (is_some tag) || (refers sdk_tag t.sdks && refers devnet_tag t.devnets) ≡ true
      → WellFormed (record t {
        clis =
            upsert_tag tag
              (λ k. record { sdk_tag = sdk_tag; devnet_tag = devnet_tag; meta = fresh k })
              (cli_change sdk_tag devnet_tag change)
              t.clis;
      })
  cli_statement none sdk_tag devnet_tag fresh change a = h
  cli_statement (some k) sdk_tag devnet_tag fresh change a =
      let row : CliRow = record { sdk_tag = sdk_tag; devnet_tag = devnet_tag; meta = fresh k } in
      let write = cli_change sdk_tag devnet_tag change in
      let (s, d) = both (refers sdk_tag t.sdks) (refers devnet_tag t.devnets) a in
      with_clis (upsert k row write t.clis) (upsert-grow k row write t.clis)
        (References-upsert (λ row. row.sdk_tag) k row write t.clis t.sdks s
          (λ v. refers-or_else sdk_tag v.sdk_tag t.sdks s) h.sdk_of_clis)
        (References-upsert (λ row. row.devnet_tag) k row write t.clis t.devnets d
          (λ v. refers-or_else devnet_tag v.devnet_tag t.devnets d) h.devnet_of_clis)

  cli_tag_statement :
      (tag : String) (change : ReleaseRow → ReleaseRow)
      → ((v : ReleaseRow)
          → lookup tag t.releases ≡ some v
          → refers (change v).cli_tag t.clis ≡ true)
      → WellFormed (record t { releases = update tag change t.releases })
  cli_tag_statement tag change r =
      with_releases (update tag change t.releases)
        (References-update (λ row. row.cli_tag) tag change t.releases t.clis r h.cli_of_releases)

found :
    (V : Type 0) (k : String) (m : List (String × V)) (v : V)
    → lookup k m ≡ some v
    → has_key k m ≡ true
found V k m v e = ground (arith, has_key-lookup k m)

module _ (t : Tables) (h : WellFormed t) where
  toolchain_statement :
      (tag sdk_tag devnet_tag : Option String)
      → not (has_row tag t.clis) || (refers sdk_tag t.sdks && refers devnet_tag t.devnets) ≡ true
      → WellFormed
          (record t { clis = update_tag tag (cli_change sdk_tag devnet_tag (λ meta. meta)) t.clis })
  toolchain_statement none sdk_tag devnet_tag a = h
  toolchain_statement (some k) sdk_tag devnet_tag a =
      let write = cli_change sdk_tag devnet_tag (λ meta. meta) in
      with_clis t h (update k write t.clis) (update-grow k write t.clis)
        (References-update (λ row. row.sdk_tag) k write t.clis t.sdks
          (λ v e. refers-or_else sdk_tag v.sdk_tag t.sdks (checked v e).0 (h.sdk_of_clis k v e))
          h.sdk_of_clis)
        (References-update (λ row. row.devnet_tag) k write t.clis t.devnets
          (λ v e.
            refers-or_else devnet_tag v.devnet_tag t.devnets (checked v e).1
              (h.devnet_of_clis k v e))
          h.devnet_of_clis)
    where
      checked :
          (v : CliRow)
          → lookup k t.clis ≡ some v
          → (refers sdk_tag t.sdks ≡ true) × (refers devnet_tag t.devnets ≡ true)
      checked v e =
          both (refers sdk_tag t.sdks) (refers devnet_tag t.devnets)
            (rw (found CliRow k t.clis v e) at a)

  contracts_tag_statement :
      (tag contracts_tag : Option String)
      → not (has_row tag t.devnets) || refers contracts_tag t.contracts ≡ true
      → WellFormed (record t {
        devnets = update_tag tag (λ row. record row { contracts_tag = contracts_tag }) t.devnets;
      })
  contracts_tag_statement none contracts_tag a = h
  contracts_tag_statement (some k) contracts_tag a =
      let write : DevnetRow → DevnetRow = λ row. record row { contracts_tag = contracts_tag } in
      with_devnets t h (update k write t.devnets) (update-grow k write t.devnets) (
        References-update (λ row. row.contracts_tag) k write t.devnets t.contracts
          (λ v e. rw (found DevnetRow k t.devnets v e) at a) h.contracts_of_devnets)

-- A statement that is allowed keeps the foreign keys.
pub effect-WellFormed :
    (s : Statement) (t : Tables) → is_allowed s t ≡ true → WellFormed t → WellFormed (effect s t)
unfolding effect is_allowed
effect-WellFormed (insert_sdk tag fresh change) t a h = sdk_statement t h (truthy tag) fresh change
effect-WellFormed (insert_contracts tag fresh change) t a h =
    contracts_statement t h (truthy tag) fresh change
effect-WellFormed (insert_devnet tag contracts_tag fresh) t a h =
    devnet_statement t h (truthy tag) contracts_tag fresh a
effect-WellFormed (insert_cli tag sdk_tag devnet_tag fresh change) t a h =
    cli_statement t h (truthy tag) sdk_tag devnet_tag fresh change a
effect-WellFormed (insert_release tag cli_tag major fresh change) t a h =
    let row : ReleaseRow = record {
      cli_tag = cli_tag;
      node_major_version = some major;
      meta = fresh;
    } in
    let write = release_change cli_tag major change in
    with_releases t h (upsert tag row write t.releases) (
      References-upsert (λ row. row.cli_tag) tag row write t.releases t.clis a
        (λ v. refers-or_else cli_tag v.cli_tag t.clis a) h.cli_of_releases)
effect-WellFormed (fill_cli_tag tag cli_tag) t a h =
    cli_tag_statement t h tag (λ row. record row { cli_tag = or_else row.cli_tag (some cli_tag) })
      (λ v e.
        refers-or_else v.cli_tag (some cli_tag) t.clis (h.cli_of_releases tag v e)
          (rw (found ReleaseRow tag t.releases v e) at a))
effect-WellFormed (set_cli_tag tag cli_tag) t a h =
    cli_tag_statement t h tag (λ row. record row { cli_tag = cli_tag })
      (λ v e. rw (found ReleaseRow tag t.releases v e) at a)
effect-WellFormed (set_toolchain tag sdk_tag devnet_tag) t a h =
    toolchain_statement t h (truthy tag) sdk_tag devnet_tag a
effect-WellFormed (set_contracts_tag tag contracts_tag) t a h =
    contracts_tag_statement t h (if is_some (truthy contracts_tag) then truthy tag else none)
      contracts_tag a
effect-WellFormed (deactivate tag) t a h =
    cli_tag_statement t h tag (λ row. record row { meta = record row.meta { is_active = false } })
      (λ v e. h.cli_of_releases tag v e)

pub transaction-WellFormed :
    (ss : List Statement) (t u : Tables) → transaction ss t ≡ some u → WellFormed t → WellFormed u
unfolding transaction
transaction-WellFormed [] t u e h = let same : t ≡ u = some_injective t u e in rw (← same) h
transaction-WellFormed (s ∷ ss) t u e h = elim (Bool-cases (is_allowed s t)) [
  | inl y ↦ transaction-WellFormed ss (effect s t) u (rw y at e) (effect-WellFormed s t y h)
  | inr n ↦ elim (none≢some (rw n at e)) [ ]
]
