-- ===== src/Runs/Ready.antt =====
-- services/orchestrator/consumers: from the sandbox's ready event to the end of the run: the event consumer and the result consumer.
use cartesi_release_validati.Prelude.{String, Option, List}
use cartesi_release_validati.Runs.Dispatch.{Definition}
use cartesi_release_validati.Runs.Events.{ready_event, State, handle}
use cartesi_release_validati.Runs.Results as Results

module _ (sandbox_id : String) (app_address : Option String) (definitions : List Definition)
    (s : State) where
  ready : State
  ready = handle sandbox_id definitions (ready_event app_address) s
