-- ===== src/Manager/Tests.antt =====
-- Sample runs of the theorems about the tasks of the queue.
use cartesi_release_validati.Prelude.{
  ℕ, ◌≡◌, refl, ◌⊎◌, Bool, true, false, String, Option, none, some, List, [], ◌∷◌, arith, any,
}
use cartesi_release_validati.Pool.{empty_pool, acquire}
use cartesi_release_validati.Pool.Capacity.{IsValid}
use cartesi_release_validati.Manager.Wait.{TestCounts, Poll, wait_for_tests}
use cartesi_release_validati.Manager.Wait.Ending.{StopsAt, RunsOut, wait_for_tests_lem}
use cartesi_release_validati.Manager.Effects.{
  Effect, read_row, Exception, error, Info, World, State, is_removal,
}
use cartesi_release_validati.Manager.{Request, handle}
use cartesi_release_validati.Manager.Cleanup.{IsQuiet, handle_releases}
use cartesi_release_validati.Manager.Leaks.{Provisions, handle_keeps_containers}
use cartesi_release_validati.Manager.Queue.{Consumer, receive, claim_slot, give_back, run}
use cartesi_release_validati.Manager.Queue.Lost.{messages, run_keeps, second_message_lost}

abbrev all_done : ℕ → Poll
all_done elapsed =
    let c : TestCounts = record { dispatched = 3; in_flight = 0; total_started = 3 } in
    record { cancelled = false; session_exists = false; session_active = false; counts = some c }

abbrev seven : List String
seven = "1" ∷ "2" ∷ "3" ∷ "4" ∷ "5" ∷ "6" ∷ "7" ∷ []

abbrev world_with : (Effect → Option Exception) → Bool → World
world_with raises late =
    let i : Info = record { container_ids = seven; app_address = none } in
    record {
      raises = raises;
      info = i;
      cancelled_before = false;
      cancelled_after = late;
      ai_session_run = false;
      polls = all_done;
    }

abbrev calm : Effect → Option Exception
calm effect = none

abbrev read_fails : Effect → Option Exception
read_fails read_row = some error
read_fails _ = none

abbrev request : Request
request = record { run_id = "r1"; node_major_version = 2 }

abbrev idle : State
idle = record {
  pool = empty_pool;
  port_offset_counter = 0;
  provisioned = false;
  row = none;
  trace = [];
}

calm-IsQuiet : (late : Bool) → IsQuiet (world_with calm late)
calm-IsQuiet late = record { reads = refl; tears = refl; marks = refl; announces = refl }

handle_releases_example : (handle 2 60 (world_with calm false) request "s1" idle).1.pool.active ≡ []
handle_releases_example =
    handle_releases 2 60 (world_with calm false) request "s1" idle (calm-IsQuiet false) refl

slot_free : (acquire 2 "s1" "r1" empty_pool).1 ≡ true
unfolding acquire
slot_free = refl

read_fails-Provisions : Provisions (world_with read_fails false)
read_fails-Provisions = record { wanted = refl; stored = refl; announced = refl; built = refl }

handle_keeps_containers_example :
    any is_removal (handle 2 60 (world_with calm true) request "s1" idle).1.trace ≡ false
handle_keeps_containers_example =
    handle_keeps_containers 2 60 (world_with calm true) request "s1" idle refl refl refl slot_free

wait_for_tests_lem_example :
    ((k : ℕ) × StopsAt 60 false all_done 0 20 (wait_for_tests 60 false all_done 100) k)
    ⊎ RunsOut 60 false all_done 0 20 (wait_for_tests 60 false all_done 100)
wait_for_tests_lem_example = wait_for_tests_lem 60 false all_done 100

abbrev consumer : Consumer
consumer = record {
  pool = empty_pool;
  waiting = "r1" ∷ "r2" ∷ [];
  started = [];
  holding = [];
  closed = [];
  lost = [];
}

empty_pool-IsValid : IsValid 1 empty_pool
empty_pool-IsValid = record { bounded = omega arith; distinct = tt; awake = λ h. cc }

run_keeps_example :
    IsValid 1
      (run 1
        (receive ∷ receive ∷ claim_slot 1 "s1" ∷ claim_slot 0 "s2" ∷ give_back 0 ∷ [])
        consumer).pool
    × (messages (
          run 1
            (receive ∷ receive ∷ claim_slot 1 "s1" ∷ claim_slot 0 "s2" ∷ give_back 0 ∷ [])
            consumer)
        ≡ 2)
run_keeps_example =
    run_keeps 1 (receive ∷ receive ∷ claim_slot 1 "s1" ∷ claim_slot 0 "s2" ∷ give_back 0 ∷ [])
      consumer empty_pool-IsValid

second_message_lost_example :
    (run 1 (receive ∷ receive ∷ claim_slot 0 "s1" ∷ claim_slot 0 "s2" ∷ []) consumer).lost
    ≡ "r2" ∷ []
second_message_lost_example =
    second_message_lost 1 "r1" "r2" "s1" "s2" [] consumer refl refl refl refl
