-- ===== src/Watcher/Rounds.antt =====
-- services/github-watcher/poller.py: `run_poller`, one round after the other.
use cartesi_release_validati.Prelude.{Bool, String, List, [], ◌∷◌, ◌++◌, if◌then◌else◌}
use cartesi_release_validati.Watcher.{
  Answers, GithubRelease, World, Outcome, done, then_call, Response, poll_node_once,
}
use cartesi_release_validati.Watcher.Toolchain.{CliAnswers, poll_cli_once, poll_contracts_once}

-- What the services answer in one round.
pub record Round : Type 0 where
  pub node : Response GithubRelease
  pub node_answers : Answers
  pub cli : Response (List (CliAnswers × GithubRelease))
  pub contracts : Response GithubRelease
  pub contracts_commits : Bool

-- The body of `run_poller`'s loop up to the exception that it logs, with CLI_POLL_ENABLED.
unfoldable pub attempt : Bool → Round → World → Outcome
attempt cli_enabled r w = then_call (poll_node_once r.node_answers r.node w) (λ w.
    then_call (if cli_enabled then poll_cli_once r.cli w else done w)
      (λ w. poll_contracts_once r.contracts_commits r.contracts w))

-- The rounds, each after the one before, whether that raised or not. Between two rounds the
-- orchestrator may have made runs: their release tags come with the round.
unfoldable pub run_poller : Bool → List (Round × List String) → World → World
run_poller cli_enabled [] w = w
run_poller cli_enabled ((r, new_runs) ∷ rest) w =
    run_poller cli_enabled rest
      (attempt cli_enabled r (record w { run_tags = new_runs ++ w.run_tags })).world
