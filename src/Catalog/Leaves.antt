-- ===== src/Catalog/Leaves.antt =====
-- The statements that write a chain, leaf to root: the references that they write are rows that they
-- have inserted, so that PostgreSQL allows each of them.
use cartesi_release_validati.Prelude.{
  ◌≡◌, refl, ◌⊎◌, inl, inr, Bool, true, false, not, ◌&&◌, ◌||◌, String, Option, none, some, List,
  ◌∷◌, ◌++◌, arith, eq_refl, if◌then◌else◌, has_key, none≢some, some_injective,
}
use cartesi_release_validati.Text.{chars, text, is_some, is_empty, truthy}
use cartesi_release_validati.Catalog.{
  Meta, Tables, upsert_tag, Statement, insert_sdk, insert_contracts, insert_devnet, insert_cli,
  effect, refers, is_allowed, devnet_change, cli_change, prefix_v,
}
use cartesi_release_validati.Catalog.Transactions.{AllAllowed}
use cartesi_release_validati.Catalog.References.{has_key-upsert, upsert-grow}

-- A tag that the test `if tag:` takes as it is.
abbrev pub IsTag : Option String → Type 0
IsTag tag = truthy tag ≡ tag

pub truthy-IsTag : (x : Option String) → IsTag (truthy x)
truthy-IsTag none = refl
truthy-IsTag (some s) = of_test (is_empty s) refl
  where
    of_test : (b : Bool) → is_empty s ≡ b → IsTag (if b then none else some s)
    of_test true e = refl
    of_test false e = rw e refl

abbrev v_of : Option String → Option String
v_of none = none
v_of (some s) = some (text (chars "v" ++ chars s))

pub prefix_v-IsTag : (x : Option String) → IsTag (prefix_v x)
unfolding prefix_v
prefix_v-IsTag x = of_given (truthy x)
  where
    of_given : (y : Option String) → IsTag (v_of y)
    of_given none = refl
    of_given (some s) = refl

module _ {V : Type 0} where
  -- After its INSERT a tag is a tag of the table.
  pub refers-upsert_tag :
      (tag : Option String) (fresh : String → V) (change : V → V) (m : List (String × V))
      → (IsTag tag) ⊎ (refers tag m ≡ true)
      → refers tag (upsert_tag (truthy tag) fresh change m) ≡ true
  refers-upsert_tag none fresh change m h = refl
  refers-upsert_tag (some k) fresh change m h = of_given (truthy (some k)) h
    where
      of_given :
          (given : Option String)
          → (given ≡ some k) ⊎ (has_key k m ≡ true)
          → has_key k (upsert_tag given fresh change m) ≡ true
      of_given none (inl e) = elim (none≢some e) [ ]
      of_given none (inr h) = h
      of_given (some j) (inl e) =
          let same : j ≡ k = some_injective j k e in
          ground (arith, eq_refl k, has_key-upsert j k (fresh j) change m)
      of_given (some j) (inr h) = upsert-grow j (fresh j) change m k h

pub either_true : (a b : Bool) → b ≡ true → a || b ≡ true
either_true true b h = refl
either_true false b h = h

pub both_true : (a b : Bool) → a ≡ true → b ≡ true → a && b ≡ true
both_true a b p q = ground arith

-- `if tag:` inserts the tag, or it is there.
abbrev pub Insertable : {V : Type 0} → Option String → List (String × V) → Type 0
Insertable tag m = (IsTag tag) ⊎ (refers tag m ≡ true)

abbrev pub chain :
    (sdk contracts devnet cli : Option String)
    → (fresh : String → Meta) → (cli_fresh : String → Meta) → (cli_write : Meta → Meta)
    → List Statement
    → List Statement
chain sdk contracts devnet cli fresh cli_fresh cli_write rest =
    insert_sdk sdk fresh (λ meta. meta)
    ∷ insert_contracts contracts fresh (λ meta. meta)
    ∷ insert_devnet devnet contracts fresh
    ∷ insert_cli cli sdk devnet cli_fresh cli_write
    ∷ rest

module _ (sdk contracts devnet cli : Option String) (fresh cli_fresh : String → Meta)
    (cli_write : Meta → Meta) (t : Tables) where
  -- The tables after the four statements.
  abbrev pub after_chain : Tables
  after_chain = record t {
    sdks = upsert_tag (truthy sdk) fresh (λ meta. meta) t.sdks;
    contracts = upsert_tag (truthy contracts) fresh (λ meta. meta) t.contracts;
    devnets =
        upsert_tag (truthy devnet) (λ k. record { contracts_tag = contracts; meta = fresh k })
          (devnet_change contracts) t.devnets;
    clis =
        upsert_tag (truthy cli)
          (λ k. record { sdk_tag = sdk; devnet_tag = devnet; meta = cli_fresh k })
          (cli_change sdk devnet cli_write) t.clis;
  }

  -- The four statements of a chain, whose tags can be inserted, are allowed where those after them
  -- are.
  pub chain-AllAllowed :
      (rest : List Statement)
      → Insertable sdk t.sdks
      → Insertable contracts t.contracts
      → Insertable devnet t.devnets
      → AllAllowed rest after_chain
      → AllAllowed (chain sdk contracts devnet cli fresh cli_fresh cli_write rest) t
  unfolding is_allowed effect
  chain-AllAllowed rest s c d r =
      let in_contracts = refers-upsert_tag contracts fresh (λ meta. meta) t.contracts c in
      let in_sdks = refers-upsert_tag sdk fresh (λ meta. meta) t.sdks s in
      let in_devnets =
        refers-upsert_tag devnet (λ k. record { contracts_tag = contracts; meta = fresh k })
          (devnet_change contracts) t.devnets d in
      (
        refl,
        (
          refl,
          (
            either_true (not (is_some (truthy devnet))) (refers contracts after_chain.contracts)
                in_contracts,
            (
              either_true (not (is_some (truthy cli)))
                  (refers sdk after_chain.sdks && refers devnet after_chain.devnets)
                  (both_true (refers sdk after_chain.sdks) (refers devnet after_chain.devnets)
                    in_sdks in_devnets),
              r,
            ),
          ),
        ),
      )

  pub chain-refers_cli : Insertable cli t.clis → refers cli after_chain.clis ≡ true
  chain-refers_cli h =
      refers-upsert_tag cli (λ k. record { sdk_tag = sdk; devnet_tag = devnet; meta = cli_fresh k })
        (cli_change sdk devnet cli_write) t.clis h
