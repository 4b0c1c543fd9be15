-- ===== src/ReleaseRoutes/Toolchain/Links.antt =====
-- PATCH /releases/{tag}/toolchain: the rows that it leaves, and what it does to a CLI that the release
-- is switched to.
use cartesi_release_validati.Prelude.{
  true, false, ◌++◌, ◌≡◌, refl, ap, ◌∙◌, String, Option, none, some, List, eq_refl, lookup,
  none≢some,
}
use cartesi_release_validati.Text.{or_else, truthy, is_empty, text, chars, lstrip}
use cartesi_release_validati.Releases as R
use cartesi_release_validati.Catalog.{
  CliRow, ReleaseRow, Tables, upserted, upsert, upsert_tag, update_tag, effect, cli_change,
}
use cartesi_release_validati.Catalog.References.{lookup-update, lookup-upsert}
use cartesi_release_validati.Catalog.Keys.{WellFormed}
use cartesi_release_validati.Catalog.Transactions.{effects}
use cartesi_release_validati.Catalog.Leaves.{IsTag}
use cartesi_release_validati.ReleaseRoutes.Toolchain.{
  ToolchainUpdate, vtag, plain_tag, given_or, sdk_of_row, devnet_of_row, Tags, current_tags,
  new_tags, own_channel, toolchain_statements, update_toolchain,
}
use cartesi_release_validati.ReleaseRoutes.Toolchain.Updates.{
  IsDevnetGiven, new_tags-Writable, toolchain-ends,
}

or_else-same : (a b : Option String) → or_else a (or_else a b) ≡ or_else a b
or_else-same none b = refl
or_else-same (some a) b = refl

or_else-none : (a : Option String) → or_else a a ≡ or_else a none
or_else-none none = refl
or_else-none (some a) = refl

abbrev pub cli_tag_of : Option ReleaseRow → Option String
cli_tag_of none = none
cli_tag_of (some row) = row.cli_tag

module _ (sdk devnet : Option String) where
  abbrev write : CliRow → CliRow
  write = cli_change sdk devnet (λ meta. meta)

  abbrev fresh : String → CliRow
  fresh k = record { sdk_tag = sdk; devnet_tag = devnet; meta = own_channel k }

  written_twice :
      (row : Option CliRow) (k : String)
      → (sdk_of_row (some (write (upserted row (fresh k) write))) ≡ or_else sdk (sdk_of_row row))
        × (devnet_of_row (some (write (upserted row (fresh k) write)))
            ≡ or_else devnet (devnet_of_row row))
  written_twice none k = (or_else-none sdk, or_else-none devnet)
  written_twice (some row) k = (or_else-same sdk row.sdk_tag, or_else-same devnet row.devnet_tag)

  lookup-written :
      (c : String) (clis : List (String × CliRow))
      → IsTag (some c)
      → lookup c
          (update_tag (truthy (some c)) write (upsert_tag (truthy (some c)) fresh write clis))
        ≡ some (write (upserted (lookup c clis) (fresh c) write))
  lookup-written c clis e =
      rw
        (
          e,
          lookup-update c c write (upsert c (fresh c) write clis),
          eq_refl c,
          lookup-upsert c c (fresh c) write clis,
          eq_refl c,
        )
        refl

module _ (tag : String) (new : Tags) (t : Tables) where
  abbrev final : Tables
  final = effects (toolchain_statements tag new) t

  final-cli_tag :
      (row : ReleaseRow)
      → lookup tag t.releases ≡ some row
      → cli_tag_of (lookup tag final.releases) ≡ new.cli_tag
  unfolding toolchain_statements effect
  final-cli_tag row h =
      rw
        (
          lookup-update tag tag (λ row. record row { cli_tag = new.cli_tag }) t.releases,
          eq_refl tag,
          h,
        )
        refl

  final-cli_row :
      (c : String)
      → new.cli_tag ≡ some c
      → IsTag (some c)
      → (sdk_of_row (lookup c final.clis) ≡ or_else new.sdk_tag (sdk_of_row (lookup c t.clis)))
        × (devnet_of_row (lookup c final.clis)
            ≡ or_else new.devnet_tag (devnet_of_row (lookup c t.clis)))
  unfolding toolchain_statements effect
  final-cli_row c e i =
      rw (e, lookup-written new.sdk_tag new.devnet_tag c t.clis i)
        (written_twice new.sdk_tag new.devnet_tag (lookup c t.clis) c)

update_toolchain-final :
    (tag : String) (payload : ToolchainUpdate) (row : ReleaseRow) (t : Tables)
    → WellFormed t
    → lookup tag t.releases ≡ some row
    → IsDevnetGiven payload.devnet_version
    → (update_toolchain tag payload t).1
      ≡ final tag (new_tags payload (current_tags row.cli_tag t)) t
unfolding update_toolchain
update_toolchain-final tag payload row t h l d =
    rw
      (
        l,
        toolchain-ends tag (new_tags payload (current_tags row.cli_tag t)) t
            (new_tags-Writable payload row tag t h l d),
      )
      refl

update_toolchain-new :
    (tag : String) (payload : ToolchainUpdate) (row : ReleaseRow) (t : Tables) (c : String)
    → WellFormed t
    → lookup tag t.releases ≡ some row
    → IsDevnetGiven payload.devnet_version
    → let new = new_tags payload (current_tags row.cli_tag t) in
      let after = (update_toolchain tag payload t).1 in
      new.cli_tag ≡ some c
      → IsTag (some c)
      → (cli_tag_of (lookup tag after.releases) ≡ some c)
        × ((sdk_of_row (lookup c after.clis) ≡ or_else new.sdk_tag (sdk_of_row (lookup c t.clis)))
            × (devnet_of_row (lookup c after.clis)
                ≡ or_else new.devnet_tag (devnet_of_row (lookup c t.clis))))
update_toolchain-new tag payload row t c h l d e i =
    let new = new_tags payload (current_tags row.cli_tag t) in
    rw (update_toolchain-final tag payload row t h l d)
      (final-cli_tag tag new t row l ∙ e, final-cli_row tag new t c e i)

-- The tag that a field of the request asks for, with its prefix: the former one where the field is
-- missing, none where it is empty, else the version without the 'v's at its start.
pub data Asks (prefix : String) (former : Option String)
    : Option String → Option String → Type 0 where
  missing : Asks prefix former none former
  blank : {v : String} → is_empty v ≡ true → Asks prefix former (some v) none
  asked :
      {v : String}
      → is_empty v ≡ false
      → Asks prefix former (some v) (some (text (chars prefix ++ lstrip 118 (chars v))))

Asks-vtag :
    (former field tag : Option String)
    → Asks "v" former field tag
    → given_or vtag field former ≡ tag
unfolding vtag
Asks-vtag former field tag missing = refl
Asks-vtag former field tag (blank e) = rw (e, vtag) refl
Asks-vtag former field tag (asked e) = rw (e, vtag) refl

Asks-plain_tag :
    (former field tag : Option String)
    → Asks "" former field tag
    → given_or plain_tag field former ≡ tag
unfolding plain_tag
Asks-plain_tag former field tag missing = refl
Asks-plain_tag former field tag (blank e) = rw (e, plain_tag) refl
Asks-plain_tag former field tag (asked e) = rw (e, plain_tag) refl

-- If the foreign keys hold, the release is in the catalog, a devnet_version that is given is more
-- than 'v's, and the CLI tag that the request asks for is a tag, then `update_toolchain` links
-- the release to that CLI, and the CLI's row to the SDK and the devnet that the request asks for,
-- where it asks for none keeping its own. A field asks for its version, with one 'v' at its start
-- but for the devnet; an empty one asks for none, and a missing one for what the release had: its
-- CLI, and that CLI's SDK and devnet, also where the request names another CLI.
pub update_toolchain-links :
    (tag c : String) (sdk devnet : Option String) (payload : ToolchainUpdate) (row : ReleaseRow)
    (t : Tables)
    → WellFormed t
    → lookup tag t.releases ≡ some row
    → IsDevnetGiven payload.devnet_version
    → IsTag (some c)
    → Asks "v" row.cli_tag payload.cli_version (some c)
    → Asks "v" (sdk_of_row (R.then_lookup row.cli_tag t.clis)) payload.sdk_version sdk
    → Asks "" (devnet_of_row (R.then_lookup row.cli_tag t.clis)) payload.devnet_version devnet
    → let after = (update_toolchain tag payload t).1 in
      (cli_tag_of (lookup tag after.releases) ≡ some c)
      × ((sdk_of_row (lookup c after.clis) ≡ or_else sdk (sdk_of_row (lookup c t.clis)))
          × (devnet_of_row (lookup c after.clis)
              ≡ or_else devnet (devnet_of_row (lookup c t.clis))))
unfolding new_tags current_tags
update_toolchain-links tag c sdk devnet payload row t h l d i asks_cli asks_sdk asks_devnet =
    let (link, (a, b)) =
      update_toolchain-new tag payload row t c h l d (Asks-vtag _ _ _ asks_cli) i in
    (
      link,
      (
        a ∙ ap (λ x. or_else x (sdk_of_row (lookup c t.clis))) (Asks-vtag _ _ _ asks_sdk),
        b
            ∙ ap (λ x. or_else x (devnet_of_row (lookup c t.clis)))
                (Asks-plain_tag _ _ _ asks_devnet),
      ),
    )

-- A request that only names a CLI.
abbrev pub only_cli : String → ToolchainUpdate
only_cli version = record {
  cli_version = some version;
  sdk_version = none;
  devnet_version = none;
  contracts_version = none;
}

-- If the foreign keys hold and the release has a CLI with an SDK and a devnet, then a request
-- with only a cli_version writes this SDK and this devnet into the row of the CLI that it names,
-- whatever that row had.
pub update_toolchain-overwrites :
    (tag version former c s d : String) (row : ReleaseRow) (t : Tables)
    → WellFormed t
    → lookup tag t.releases ≡ some row
    → row.cli_tag ≡ some former
    → sdk_of_row (lookup former t.clis) ≡ some s
    → devnet_of_row (lookup former t.clis) ≡ some d
    → vtag (some version) ≡ some c
    → IsTag (some c)
    → let after = (update_toolchain tag (only_cli version) t).1 in
      (sdk_of_row (lookup c after.clis) ≡ some s) × (devnet_of_row (lookup c after.clis) ≡ some d)
unfolding new_tags current_tags
update_toolchain-overwrites tag version former c s d row t h l f sdk devnet e i =
    let (same, (a, b)) =
      update_toolchain-new tag (only_cli version) row t c h l (λ x n. elim (none≢some n) [ ]) e i in
    (
      a ∙ ap (λ x. or_else x (sdk_of_row (lookup c t.clis))) (former_sdk ∙ sdk),
      b ∙ ap (λ x. or_else x (devnet_of_row (lookup c t.clis))) (former_devnet ∙ devnet),
    )
  where
    former_sdk : sdk_of_row (R.then_lookup row.cli_tag t.clis) ≡ sdk_of_row (lookup former t.clis)
    former_sdk = ap (λ k. sdk_of_row (R.then_lookup k t.clis)) f

    former_devnet :
        devnet_of_row (R.then_lookup row.cli_tag t.clis) ≡ devnet_of_row (lookup former t.clis)
    former_devnet = ap (λ k. devnet_of_row (R.then_lookup k t.clis)) f
