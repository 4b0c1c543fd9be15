-- ===== src/ReleaseRoutes/Toolchain.antt =====
-- services/orchestrator/api/routes/releases.py: PATCH /releases/{tag}/toolchain, POST /releases and
-- DELETE /releases/{tag}.
pub mod Updates
pub mod Links
pub mod Replies
use cartesi_release_validati.Prelude.{
  ℕ, zero, suc, ◌+◌, ◌-◌, ◌*◌, ◌/◌, ◌%◌, ◌≤◌, ◌<◌, min, max, ◌≡◌, refl, sym, ap, ◌∙◌, ◌≢◌, ◌↔◌, ◌⊎◌,
  inl, inr, Bool, true, false, not, ◌&&◌, ◌||◌, String, Option, none, some, List, [], ◌∷◌, ◌++◌,
  map, append-nil, append_assoc, arith, eq_iff, eq_refl, str_eq, if◌then◌else◌, ltb, leb, ◌==◌,
  ==_iff, ltb→lt, lt→ltb, leb→le, Bool-cases, Option-cases, length, take, drop, keep, count, all,
  any, All, length-append, length-take, length-drop, take-append-drop, count-le-length,
  count-append, lookup, has_key, insert, remove, HasDistinctKeys, In, In-keep_iff, Empty, none≢some,
  some_injective,
}
use cartesi_release_validati.Text.{
  chars, text, or_else, is_some, truthy, is_empty, strip, lstrip, ℤ,
}
use cartesi_release_validati.Versions.{node_major_version, at_least_two}
use cartesi_release_validati.Versions.Resolve.{CliRelease, Found, Known, resolve_all_versions}
use cartesi_release_validati.Releases as R
use cartesi_release_validati.Catalog.{
  Details, no_details, Meta, DevnetRow, CliRow, ReleaseRow, Tables, labelled, do_nothing, Statement,
  insert_sdk, insert_contracts, insert_devnet, insert_cli, insert_release, set_cli_tag,
  set_toolchain, set_contracts_tag, deactivate, transaction, prefix_v, derive_channel, catalogs_of,
}
use cartesi_release_validati.ReleaseRoutes.{Reply, success, error, finish}

-- The body of the request, none for a field that is missing or null.
pub record ToolchainUpdate : Type 0 where
  pub cli_version : Option String
  pub sdk_version : Option String
  pub devnet_version : Option String
  pub contracts_version : Option String

-- `_vtag`, with and without `prefix`.
unfoldable pub vtag : Option String → Option String
vtag v = elim (truthy v) [ none ↦ none | some s ↦ some (text (chars "v" ++ lstrip 118 (chars s))) ]

unfoldable pub plain_tag : Option String → Option String
plain_tag v = elim (truthy v) [ none ↦ none | some s ↦ some (text (lstrip 118 (chars s))) ]

-- `f(x) if x is not None else current`.
abbrev pub given_or :
    (Option String → Option String) → Option String → Option String → Option String
given_or f none current = current
given_or f (some v) current = f (some v)

abbrev pub sdk_of_row : Option CliRow → Option String
sdk_of_row none = none
sdk_of_row (some row) = row.sdk_tag

abbrev pub devnet_of_row : Option CliRow → Option String
devnet_of_row none = none
devnet_of_row (some row) = row.devnet_tag

abbrev pub contracts_of_row : Option DevnetRow → Option String
contracts_of_row none = none
contracts_of_row (some row) = row.contracts_tag

-- The tags of a chain.
pub record Tags : Type 0 where
  pub cli_tag : Option String
  pub sdk_tag : Option String
  pub devnet_tag : Option String
  pub contracts_tag : Option String

-- The SELECT through the joins, for a release with this cli_tag.
unfoldable pub current_tags : Option String → Tables → Tags
current_tags cli_tag t =
    let c = R.then_lookup cli_tag t.clis in
    let d = R.then_lookup (devnet_of_row c) t.devnets in
    record {
      cli_tag = cli_tag;
      sdk_tag = sdk_of_row c;
      devnet_tag = devnet_of_row c;
      contracts_tag = contracts_of_row d;
    }

-- new_cli_tag and the other three.
unfoldable pub new_tags : ToolchainUpdate → Tags → Tags
new_tags payload row = record {
  cli_tag = given_or vtag payload.cli_version row.cli_tag;
  sdk_tag = given_or vtag payload.sdk_version row.sdk_tag;
  devnet_tag = given_or plain_tag payload.devnet_version row.devnet_tag;
  contracts_tag = given_or vtag payload.contracts_version row.contracts_tag;
}

abbrev pub own_channel : String → Meta
own_channel tag = labelled tag (derive_channel tag)

unfoldable pub toolchain_statements : String → Tags → List Statement
toolchain_statements tag new =
    insert_sdk new.sdk_tag own_channel do_nothing
    ∷ insert_contracts new.contracts_tag own_channel do_nothing
    ∷ insert_devnet new.devnet_tag new.contracts_tag own_channel
    ∷ insert_cli new.cli_tag new.sdk_tag new.devnet_tag own_channel do_nothing
    ∷ set_cli_tag tag new.cli_tag
    ∷ set_toolchain new.cli_tag new.sdk_tag new.devnet_tag
    ∷ set_contracts_tag new.devnet_tag new.contracts_tag
    ∷ []

-- The row that a handler reads again and answers, of which the model keeps the image and the chain.
-- `_row(None)` raises.
abbrev pub row_reply : Option R.CatalogRow → Reply R.CatalogRow
row_reply none = error 500
row_reply (some row) = success row

abbrev pub read_again : String → Tables → Option Tables → Reply R.CatalogRow × Tables
read_again tag t none = (error 500, t)
read_again tag t (some u) = (row_reply (R.catalog_row (catalogs_of u) tag), u)

-- `update_toolchain`.
abbrev pub update_row :
    String → ToolchainUpdate → Tables → Option ReleaseRow → Reply R.CatalogRow × Tables
update_row tag payload t none = (error 404, t)
update_row tag payload t (some row) =
    let new = new_tags payload (current_tags row.cli_tag t) in
    read_again tag t (transaction (toolchain_statements tag new) t)

unfoldable pub update_toolchain : String → ToolchainUpdate → Tables → Reply R.CatalogRow × Tables
update_toolchain tag payload t = update_row tag payload t (lookup tag t.releases)

-- The body of POST /releases; the channel is there, for its default is 'stable'.
pub record ReleaseCreate : Type 0 where
  pub tag : String
  pub cli_version : Option String
  pub channel : String
  pub label : Option String

-- What a new release refers to, and the dictionaries after the lookup.
abbrev chain_for : Option String → String → Option (List CliRelease) → Known → Tags × Known
chain_for (some cli) tag page known = (
  record {
    cli_tag = some (text (chars "v" ++ lstrip 118 (chars cli)));
    sdk_tag = none;
    devnet_tag = none;
    contracts_tag = none;
  },
  known,
)
chain_for none tag page known =
    let r = resolve_all_versions tag page known in
    (
      record {
        cli_tag = prefix_v r.versions.cli;
        sdk_tag = prefix_v r.versions.sdk;
        devnet_tag = truthy r.versions.devnet;
        contracts_tag = prefix_v r.versions.contracts;
      },
      r.known,
    )

abbrev no_tags : Tags
no_tags = record { cli_tag = none; sdk_tag = none; devnet_tag = none; contracts_tag = none }

abbrev pub or_text : Option String → String → String
or_text none s = s
or_text (some s) _ = s

-- `body.channel or _derive_channel(tag)`.
abbrev channel_for : ReleaseCreate → String → String
channel_for body tag = if is_empty body.channel then derive_channel tag else body.channel

-- ON CONFLICT sets the channel, the label and is_active.
unfoldable pub add_statements : ReleaseCreate → String → Tags → List Statement
add_statements body tag tags =
    let channel = channel_for body tag in
    let label = or_text (truthy body.label) tag in
    let fresh : Meta = record {
      channel = channel;
      label = some label;
      is_active = true;
      details = no_details;
    } in
    let write : Meta → Meta =
      λ meta. record meta { channel = channel; label = some label; is_active = true } in
    let release = insert_release tag tags.cli_tag (node_major_version tag) fresh write ∷ [] in
    if at_least_two (node_major_version tag)
    then insert_sdk tags.sdk_tag (λ k. labelled k channel) do_nothing
      ∷ insert_contracts tags.contracts_tag (λ k. labelled k channel) do_nothing
      ∷ insert_devnet tags.devnet_tag tags.contracts_tag (λ k. labelled k channel)
      ∷ insert_cli tags.cli_tag tags.sdk_tag tags.devnet_tag (λ k. labelled k channel) do_nothing
      ∷ release
    else release

abbrev pub added_chain : ReleaseCreate → String → Option (List CliRelease) → Known → Tags × Known
added_chain body tag page known =
    if at_least_two (node_major_version tag)
    then chain_for (truthy body.cli_version) tag page known
    else (no_tags, known)

-- `add_release`.
unfoldable pub add_release :
    ReleaseCreate
    → Option (List CliRelease)
    → Tables
    → Known
    → (Reply R.CatalogRow × Tables) × Known
add_release body page t known =
    let tag = text (strip (chars body.tag)) in
    let (tags, learned) = added_chain body tag page known in
    if is_empty tag
    then ((error 422, t), known)
    else (read_again tag t (transaction (add_statements body tag tags) t), learned)

-- `remove_release`.
unfoldable pub remove_release : String → Tables → Reply Unit × Tables
remove_release tag t =
    if has_key tag t.releases
    then finish tt t (transaction (deactivate tag ∷ []) t)
    else (error 404, t)
