-- ===== src/Executors/Tests.antt =====
-- Runs of the executors, and instances of their theorems.
use cartesi_release_validati.Prelude.{
  ℕ, ◌*◌, ◌≡◌, refl, String, Option, none, some, List, [], ◌∷◌, arith, if◌then◌else◌, ◌==◌,
}
use Prim.Native.Char.{Char}
use cartesi_release_validati.Text.{chars}
use cartesi_release_validati.Executors.{Given, sandbox_context, app_inspect_url, rstrip}
use cartesi_release_validati.Executors.Notice.{
  Output, is_notice, contains, notices_of, matches, matching, Poll, outputs, has_error, NoticeCheck,
  execute, seen,
}
use cartesi_release_validati.Executors.Notice.Passing.{EndsAt, execute-EndsAt}

abbrev given : Given
given = record {
  sandbox_id = "b1";
  run_id = "r1";
  anvil_port = "8545";
  node_port = "10011";
  graphql_port = "10012";
  docker_network = "n";
  node_major_version = 2;
  cli_container_name = none;
  app_address = some "0xab";
  inputbox_address = none;
  ether_portal_address = none;
  erc20_portal_address = none;
  erc721_portal_address = none;
  erc1155_portal_address = none;
  erc20_token_address = none;
  erc721_token_address = some "";
  erc1155_token_address = none;
}

inputbox : (sandbox_context given).inputbox_address ≡ "0x1b51e2992A2755Ba4D6F7094032DF91991a0Cfac"
unfolding sandbox_context
inputbox = refl

inspect_path : app_inspect_url "h" (sandbox_context given) "" ≡ "http://h:10012/inspect/0xab"
unfolding app_inspect_url sandbox_context rstrip
inspect_path = refl

abbrev notice : Output
notice = record {
  typename = none;
  type_key = some "Notice";
  output_enum = none;
  destination = none;
  decoded_type = none;
  decoded_destination = none;
  payload = some "pong";
  raw_data = none;
}

abbrev check : NoticeCheck
check = record { min_count = 1; contains_text = "on"; poll_timeout = 60 }

abbrev decode : String → Option (List Char)
decode s = some (chars s)

abbrev str : ℕ → String
str n = "n"

-- An error at first, and then a notice.
abbrev polls : ℕ → Poll
polls n = record { now = 3 * n; answer = if n == 0 then has_error else outputs (notice ∷ []) }

one_matches : seen decode str check (polls 1).answer ≡ some 1
unfolding seen matching notices_of is_notice matches contains
one_matches = refl

execute-EndsAt_example :
    (k : ℕ) × EndsAt decode str check polls 0 (execute decode str check polls 61) k
execute-EndsAt_example = execute-EndsAt decode str check polls 61 (λ n. omega arith) (omega arith)
