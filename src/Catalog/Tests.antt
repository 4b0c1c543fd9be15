-- ===== src/Catalog/Tests.antt =====
-- Statements on small tables.
use cartesi_release_validati.Prelude.{◌≡◌, refl, String, none, some, [], ◌∷◌}
use cartesi_release_validati.Catalog.{
  Meta, Tables, labelled, do_nothing, insert_sdk, insert_cli, transaction, effect, is_allowed,
  upsert, derive_channel, contains_lower,
}

abbrev no_rows : Tables
no_rows = record { sdks = []; contracts = []; devnets = []; clis = []; releases = [] }

abbrev alpha : String → Meta
alpha k = labelled k "alpha"

-- A CLI before its SDK breaks the foreign key, and nothing stays.
sdk_missing :
    transaction (insert_cli (some "v2") (some "v0") none alpha do_nothing ∷ []) no_rows ≡ none
unfolding transaction is_allowed
sdk_missing = refl

sdk_first :
    transaction
      (insert_sdk (some "v0") alpha do_nothing
        ∷ insert_cli (some "v2") (some "v0") none alpha do_nothing
        ∷ [])
      no_rows
    ≡ some (record no_rows {
      sdks = ("v0", alpha "v0") ∷ [];
      clis = ("v2", record { sdk_tag = some "v0"; devnet_tag = none; meta = alpha "v2" }) ∷ [];
    })
unfolding transaction is_allowed effect upsert
sdk_first = refl

channel : derive_channel "V2.0.0-Alpha.1" ≡ "alpha"
unfolding derive_channel contains_lower
channel = refl
