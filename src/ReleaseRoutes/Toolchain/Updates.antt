-- ===== src/ReleaseRoutes/Toolchain/Updates.antt =====
-- PATCH /releases/{tag}/toolchain: its transaction ends, and the chain that it leaves.
use cartesi_release_validati.Prelude.{
  ◌≡◌, refl, inl, inr, true, not, ◌&&◌, String, Option, none, some, List, [], ◌∷◌, ◌++◌, lookup,
  has_key,
}
use cartesi_release_validati.Text.{chars, text, truthy, lstrip}
use cartesi_release_validati.Releases as R
use cartesi_release_validati.Catalog.{
  DevnetRow, CliRow, ReleaseRow, Tables, do_nothing, set_cli_tag, set_toolchain, set_contracts_tag,
  transaction, is_allowed, effect, refers, devnet_change,
}
use cartesi_release_validati.Catalog.Keys.{WellFormed}
use cartesi_release_validati.Catalog.Transactions.{AllAllowed, effects, transaction-AllAllowed}
use cartesi_release_validati.Catalog.Leaves.{
  IsTag, Insertable, chain-AllAllowed, chain-refers_cli, after_chain, refers-upsert_tag,
  either_true, both_true,
}
use cartesi_release_validati.ReleaseRoutes.Toolchain.{
  ToolchainUpdate, vtag, plain_tag, given_or, sdk_of_row, devnet_of_row, contracts_of_row, Tags,
  current_tags, new_tags, own_channel, toolchain_statements,
}

v_form : Option String → Option String
v_form none = none
v_form (some s) = some (text (chars "v" ++ lstrip 118 (chars s)))

vtag-IsTag : (v : Option String) → IsTag (vtag v)
unfolding vtag
vtag-IsTag v = of_given (truthy v)
  where
    of_given :
        (g : Option String)
        → IsTag (elim g as (λ x. Option String) [
          | none ↦ none
          | some s ↦ some (text (chars "v" ++ lstrip 118 (chars s)))
        ])
    of_given none = refl
    of_given (some s) = refl

module _ (t : Tables) (h : WellFormed t) where
  refers-sdk_of_row :
      (cli_tag : Option String) → refers (sdk_of_row (R.then_lookup cli_tag t.clis)) t.sdks ≡ true
  refers-sdk_of_row none = refl
  refers-sdk_of_row (some k) = of_row (lookup k t.clis) refl
    where
      of_row : (row : Option CliRow) → lookup k t.clis ≡ row → refers (sdk_of_row row) t.sdks ≡ true
      of_row none e = refl
      of_row (some row) e = h.sdk_of_clis k row e

  refers-devnet_of_row :
      (cli_tag : Option String)
      → refers (devnet_of_row (R.then_lookup cli_tag t.clis)) t.devnets ≡ true
  refers-devnet_of_row none = refl
  refers-devnet_of_row (some k) = of_row (lookup k t.clis) refl
    where
      of_row :
          (row : Option CliRow)
          → lookup k t.clis ≡ row
          → refers (devnet_of_row row) t.devnets ≡ true
      of_row none e = refl
      of_row (some row) e = h.devnet_of_clis k row e

  refers-contracts_of_row :
      (devnet_tag : Option String)
      → refers (contracts_of_row (R.then_lookup devnet_tag t.devnets)) t.contracts ≡ true
  refers-contracts_of_row none = refl
  refers-contracts_of_row (some k) = of_row (lookup k t.devnets) refl
    where
      of_row :
          (row : Option DevnetRow)
          → lookup k t.devnets ≡ row
          → refers (contracts_of_row row) t.contracts ≡ true
      of_row none e = refl
      of_row (some row) e = h.contracts_of_devnets k row e

given_or-Insertable :
    {V : Type 0} (f : Option String → Option String) (v current : Option String)
    → (m : List (String × V)) → ((x : String) → v ≡ some x → IsTag (f (some x)))
    → refers current m ≡ true
    → Insertable (given_or f v current) m
given_or-Insertable f none current m g r = inr r
given_or-Insertable f (some x) current m g r = inl (g x refl)

-- The tags of a chain that can be written.
pub record Writable (new : Tags) (t : Tables) : Type 0 where
  cli : Insertable new.cli_tag t.clis
  sdk : Insertable new.sdk_tag t.sdks
  devnet : Insertable new.devnet_tag t.devnets
  contracts : Insertable new.contracts_tag t.contracts

-- A devnet_version that is more than 'v's.
abbrev pub IsDevnetGiven : Option String → Type 0
IsDevnetGiven v = (x : String) → v ≡ some x → IsTag (plain_tag (some x))

pub new_tags-Writable :
    (payload : ToolchainUpdate) (row : ReleaseRow) (tag : String) (t : Tables)
    → WellFormed t
    → lookup tag t.releases ≡ some row
    → IsDevnetGiven payload.devnet_version
    → Writable (new_tags payload (current_tags row.cli_tag t)) t
unfolding new_tags current_tags
new_tags-Writable payload row tag t h l d = record {
  cli =
      given_or-Insertable vtag payload.cli_version row.cli_tag t.clis (λ x e. vtag-IsTag (some x))
        (h.cli_of_releases tag row l);
  sdk =
      given_or-Insertable vtag payload.sdk_version (sdk_of_row (R.then_lookup row.cli_tag t.clis))
        t.sdks (λ x e. vtag-IsTag (some x)) (refers-sdk_of_row t h row.cli_tag);
  devnet =
      given_or-Insertable plain_tag payload.devnet_version
        (devnet_of_row (R.then_lookup row.cli_tag t.clis)) t.devnets d
        (refers-devnet_of_row t h row.cli_tag);
  contracts =
      given_or-Insertable vtag payload.contracts_version
        (contracts_of_row
          (R.then_lookup (devnet_of_row (R.then_lookup row.cli_tag t.clis)) t.devnets))
        t.contracts (λ x e. vtag-IsTag (some x))
        (refers-contracts_of_row t h (devnet_of_row (R.then_lookup row.cli_tag t.clis)));
}

toolchain_statements-AllAllowed :
    (tag : String) (new : Tags) (t : Tables)
    → Writable new t
    → AllAllowed (toolchain_statements tag new) t
unfolding toolchain_statements is_allowed effect
toolchain_statements-AllAllowed tag new t w =
    let middle =
      after_chain new.sdk_tag new.contracts_tag new.devnet_tag new.cli_tag own_channel own_channel
        do_nothing t in
    let in_clis =
      chain-refers_cli new.sdk_tag new.contracts_tag new.devnet_tag new.cli_tag own_channel
        own_channel do_nothing t w.cli in
    let in_sdks = refers-upsert_tag new.sdk_tag own_channel do_nothing t.sdks w.sdk in
    let in_contracts =
      refers-upsert_tag new.contracts_tag own_channel do_nothing t.contracts w.contracts in
    let in_devnets : refers new.devnet_tag middle.devnets ≡ true =
      refers-upsert_tag new.devnet_tag
        (λ k. record { contracts_tag = new.contracts_tag; meta = own_channel k })
        (devnet_change new.contracts_tag) t.devnets w.devnet in
    chain-AllAllowed new.sdk_tag new.contracts_tag new.devnet_tag new.cli_tag own_channel
      own_channel do_nothing t
      (set_cli_tag tag new.cli_tag
        ∷ set_toolchain new.cli_tag new.sdk_tag new.devnet_tag
        ∷ set_contracts_tag new.devnet_tag new.contracts_tag
        ∷ [])
      w.sdk w.contracts w.devnet
      (
        either_true (not (has_key tag t.releases)) (refers new.cli_tag middle.clis) in_clis,
        (
          either_true _ (refers new.sdk_tag middle.sdks && refers new.devnet_tag middle.devnets) (
              both_true (refers new.sdk_tag middle.sdks) (refers new.devnet_tag middle.devnets)
                in_sdks in_devnets),
          (either_true _ (refers new.contracts_tag middle.contracts) in_contracts, tt),
        ),
      )

pub toolchain-ends :
    (tag : String) (new : Tags) (t : Tables)
    → Writable new t
    → transaction (toolchain_statements tag new) t ≡ some (effects (toolchain_statements tag new) t)
toolchain-ends tag new t w =
    transaction-AllAllowed (toolchain_statements tag new) t
      (toolchain_statements-AllAllowed tag new t w)
