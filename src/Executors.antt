-- ===== src/Executors.antt =====
-- services/test-runner/executors/base.py: the connection of a sandbox and the counts that executors log
-- before and after an action. `str` of a number is an argument, and so is SANDBOX_HOST; ports are
-- given by their digits.
mod Tests
pub mod Notice
use cartesi_release_validati.Prelude.{
  ℕ, zero, suc, ◌+◌, ◌-◌, ◌*◌, ◌/◌, ◌%◌, ◌≤◌, ◌<◌, min, max, ◌≡◌, refl, sym, ap, ◌∙◌, ◌≢◌, ◌↔◌, ◌⊎◌,
  inl, inr, Bool, true, false, not, ◌&&◌, ◌||◌, String, Option, none, some, List, [], ◌∷◌, ◌++◌,
  map, append-nil, append_assoc, arith, eq_iff, eq_refl, str_eq, if◌then◌else◌, ltb, leb, ◌==◌,
  ==_iff, ltb→lt, lt→ltb, leb→le, Bool-cases, Option-cases, length, take, drop, keep, count, all,
  any, All, length-append, length-take, length-drop, take-append-drop, count-le-length,
  count-append, lookup, has_key, insert, remove, HasDistinctKeys, In, In-keep_iff, Empty, none≢some,
  some_injective,
}
use Prim.Native.Char.{Char, code}
use Prim.Native.String.{◌++◌ as ◌++ₛ◌}
use cartesi_release_validati.Text.{chars, text, truthy}
use cartesi_release_validati.Runner.{AssertionResult}

abbrev v2_devnet_inputbox : String
v2_devnet_inputbox = "0x1b51e2992A2755Ba4D6F7094032DF91991a0Cfac"

abbrev v1_devnet_inputbox : String
v1_devnet_inputbox = "0x59b22D57D4f067708AB0c00552767405926dc768"

-- V2_DEVNET_PORTALS.
pub record Portals : Type 0 where
  pub ether : String
  pub erc20 : String
  pub erc721 : String
  pub erc1155 : String

abbrev pub v2_devnet_portals : Portals
v2_devnet_portals = record {
  ether = "0xA632c5c05812c6a6149B7af5C56117d1D2603828";
  erc20 = "0xaca6586a0cf05bd831f2501e7b4aea550da6562d";
  erc721 = "0x9e8851dadb2b77103928518846c4678d48b5e371";
  erc1155 = "0x18558398dd1a8ce20956287a4da7b76ae7a96662";
}

-- The arguments of the constructor.
pub record Given : Type 0 where
  pub sandbox_id : String
  pub run_id : String
  pub anvil_port : String
  pub node_port : String
  pub graphql_port : String
  pub docker_network : String
  pub node_major_version : ℕ
  pub cli_container_name : Option String
  pub app_address : Option String
  pub inputbox_address : Option String
  pub ether_portal_address : Option String
  pub erc20_portal_address : Option String
  pub erc721_portal_address : Option String
  pub erc1155_portal_address : Option String
  pub erc20_token_address : Option String
  pub erc721_token_address : Option String
  pub erc1155_token_address : Option String

-- SandboxContext: what the constructor adds to its arguments.
pub record SandboxContext : Type 0 where
  pub given : Given
  pub inputbox_address : String
  pub portals : Portals
  pub erc20_token_address : Option String
  pub erc721_token_address : Option String
  pub erc1155_token_address : Option String

-- `address or default`.
abbrev pub address_or : Option String → String → String
address_or address default = elim (truthy address) [ none ↦ default | some a ↦ a ]

unfoldable pub sandbox_context : Given → SandboxContext
sandbox_context g = record {
  given = g;
  inputbox_address =
      address_or g.inputbox_address
        (if leb 2 g.node_major_version then v2_devnet_inputbox else v1_devnet_inputbox);
  portals = record {
    ether = address_or g.ether_portal_address v2_devnet_portals.ether;
    erc20 = address_or g.erc20_portal_address v2_devnet_portals.erc20;
    erc721 = address_or g.erc721_portal_address v2_devnet_portals.erc721;
    erc1155 = address_or g.erc1155_portal_address v2_devnet_portals.erc1155;
  };
  erc20_token_address = truthy g.erc20_token_address;
  erc721_token_address = truthy g.erc721_token_address;
  erc1155_token_address = truthy g.erc1155_token_address;
}

abbrev all_are : ℕ → List Char → Bool
all_are n s = all (λ c. code c == n) s

-- `s.rstrip(c)`, for the character with the number n.
unfoldable pub rstrip : ℕ → List Char → List Char
rstrip n [] = []
rstrip n (c ∷ s) = if all_are n (c ∷ s) then [] else c ∷ rstrip n s

module _ (host : String) where
  abbrev at_port : String → String → String
  at_port port path = "http://" ++ₛ host ++ₛ ":" ++ₛ port ++ₛ path

  unfoldable pub jsonrpc_url : SandboxContext → String
  jsonrpc_url c = at_port c.given.node_port ""

  unfoldable pub jsonrpc_rpc_url : SandboxContext → String
  jsonrpc_rpc_url c = at_port c.given.node_port "/rpc"

  unfoldable pub graphql_url : SandboxContext → String
  graphql_url c = at_port c.given.graphql_port "/graphql"

  unfoldable pub inspect_url : SandboxContext → String
  inspect_url c =
      if leb 2 c.given.node_major_version
      then at_port c.given.graphql_port "/inspect"
      else at_port c.given.node_port "/inspect"

  unfoldable pub app_inspect_url : SandboxContext → String → String
  app_inspect_url c path =
      let base = at_port c.given.graphql_port "/inspect" in
      let url : String = elim (truthy c.given.app_address) [
        | none ↦ base ++ₛ "/" ++ₛ path
        | some app ↦ base ++ₛ "/" ++ₛ app ++ₛ "/" ++ₛ path
      ] in
      text (rstrip 47 (chars url))

  unfoldable pub anvil_rpc_url : SandboxContext → String
  anvil_rpc_url c = at_port c.given.anvil_port ""

module _ (str : ℕ → String) where
  unfoldable pub count_before_result : String → ℕ → AssertionResult
  count_before_result noun count = record {
    assertion_type = "count_before";
    passed = true;
    detail = noun ++ₛ " before: " ++ₛ str count;
  }

  -- For counts that are not -1, which stands for a failed query.
  unfoldable pub count_after_result : String → ℕ → ℕ → Bool → AssertionResult
  count_after_result noun before after require_increase =
      if ltb before after
      then record {
        assertion_type = "count_after";
        passed = true;
        detail = noun ++ₛ " after: " ++ₛ str after ++ₛ " (+" ++ₛ str (after - before) ++ₛ ")";
      }
      else (if after == before
          then record {
            assertion_type = "count_after";
            passed = not require_increase;
            detail = noun ++ₛ " after: " ++ₛ str after ++ₛ " (no change)";
          }
          else record {
            assertion_type = "count_after";
            passed = false;
            detail =
                noun ++ₛ " after: " ++ₛ str after ++ₛ " (decreased from " ++ₛ str before ++ₛ ")";
          })
