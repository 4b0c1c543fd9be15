-- ===== src/Manager.antt =====
-- services/sandbox-manager/consumers/sandbox_queue.py: what `_handle` does for one message, from the
-- pool slot to the teardown. The database, Docker and the message broker are a `World` that says
-- which awaited calls raise; the effects are recorded in order.
mod Tests
pub mod Wait
pub mod Effects
pub mod Frame
pub mod Cleanup
pub mod Leaks
pub mod Queue
pub mod Startup
use cartesi_release_validati.Prelude.{
  ℕ, zero, suc, ◌+◌, ◌-◌, ◌*◌, ◌/◌, ◌%◌, ◌≤◌, ◌<◌, min, max, ◌≡◌, refl, sym, ap, ◌∙◌, ◌≢◌, ◌↔◌, ◌⊎◌,
  inl, inr, Bool, true, false, not, ◌&&◌, ◌||◌, String, Option, none, some, List, [], ◌∷◌, ◌++◌,
  map, append-nil, append_assoc, arith, eq_iff, eq_refl, str_eq, if◌then◌else◌, ltb, leb, ◌==◌,
  ==_iff, ltb→lt, lt→ltb, leb→le, Bool-cases, Option-cases, length, take, drop, keep, count, all,
  any, All, length-append, length-take, length-drop, take-append-drop, count-le-length,
  count-append, lookup, has_key, insert, remove, HasDistinctKeys,
}
use cartesi_release_validati.Pool.{SandboxPool, acquire, release}
use cartesi_release_validati.Manager.Wait.{WaitEnd, query_raised, wait_for_tests}
use cartesi_release_validati.Manager.Effects.{
  SandboxStatus, provisioning, ready, failed, closed, Effect, upsert, publish, provision,
  wait_for_v2_ready, ready_delay, set_app_address, read_row, docker_teardown, mark_closed,
  Exception, error, cancelled, Result, return, raise, Info, Row, World, State, Task, get, modify,
  pure, throw, except_error, finally, ◌>>=◌, ◌>>◌, perform,
}

-- The fields of the queue message that `_handle` acts on.
pub record Request : Type 0 where
  pub run_id : String
  pub node_major_version : ℕ

-- `_upsert_sandbox` with a status alone: a new row has no containers, an old one keeps its own.
abbrev pub relabelled : SandboxStatus → Option Row → Option Row
relabelled status none = some (record { status = status; container_ids = [] })
relabelled status (some r) = some (record r { status = status })

pub set_status : SandboxStatus → State → State
set_status status s = record s { row = relabelled status s.row }

pub upsert_status : World → SandboxStatus → Task (Unit {0})
upsert_status world status = do perform world (upsert status); modify (set_status status)

-- The same call with the columns of the ready row.
pub store_ready : World → State → State
store_ready world s = record s {
  row = some (record { status = ready; container_ids = world.info.container_ids });
}

pub upsert_ready : World → Task (Unit {0})
upsert_ready world = do perform world (upsert ready); modify (store_ready world)

-- The two statements that stand in both `except` blocks.
pub report_failure : World → Task (Unit {0})
report_failure world = do upsert_status world failed; perform world (publish failed)

-- `if node_major_version >= 2 and len(info["container_ids"]) >= 7`, then the delay.
pub await_node : World → Request → Task (Unit {0})
await_node world msg = do
  if leb 2 msg.node_major_version && leb 7 (length world.info.container_ids)
      then perform world wait_for_v2_ready
      else pure tt
  perform world ready_delay

-- The call of `_wait_for_tests`, with the default timeout of two hours. Only a failing query is an
-- exception here.
pub await_end : WaitEnd → Task (Unit {0})
await_end query_raised = throw error
await_end _ = pure tt

pub await_tests : ℕ → World → Task (Unit {0})
await_tests grace world = await_end (wait_for_tests grace world.ai_session_run world.polls 7200).0

-- `if app_address`, where an empty address was already turned into none.
pub set_address : World → Option String → Task (Unit {0})
set_address world none = pure tt
set_address world (some a) = perform world set_app_address

-- From "Mark ready" to the end of the `try` block.
pub serve : ℕ → World → Task (Unit {0})
serve grace world = do
  upsert_ready world
  set_address world world.info.app_address
  perform world (publish ready)
  await_tests grace world

-- After a successful provisioning: the wait for the node and the second cancellation check.
pub settle : ℕ → World → Request → Task (Unit {0})
settle grace world msg = do
  await_node world msg
  if world.cancelled_after then pure tt else serve grace world

pub mark_provisioned : State → State
mark_provisioned s = record s { provisioned = true }

-- `try: info = await provision(...); sandbox_provisioned = True` / `except Exception`; true if the
-- handler returned.
pub try_provision : World → Task Bool
try_provision world =
    except_error (do perform world provision; modify mark_provisioned; pure false)
      (do report_failure world; pure true)

-- The outer `try` block.
pub body : ℕ → World → Request → Task (Unit {0})
body grace world msg = if world.cancelled_before then pure tt else (do
  upsert_status world provisioning
  perform world (publish provisioning)
  stopped ← try_provision world
  if stopped then pure tt else settle grace world msg)

-- `if sbx and sbx.container_ids`.
pub remove_containers : World → Option Row → Task (Unit {0})
remove_containers world none = pure tt
remove_containers world (some r) =
    if ltb 0 (length r.container_ids) then perform world docker_teardown else pure tt

-- The UPDATE to 'closed', which finds the row or changes nothing.
abbrev pub closed_row : Option Row → Option Row
closed_row none = none
closed_row (some r) = some (record r { status = closed })

pub close_row : State → State
close_row s = record s { row = closed_row s.row }

-- The outer `try` block with its `except Exception`.
pub guarded : ℕ → World → Request → Task (Unit {0})
guarded grace world msg = except_error (body grace world msg) (report_failure world)

-- The end of `_teardown`.
pub close_sandbox : World → Task (Unit {0})
close_sandbox world = do perform world mark_closed; modify close_row; perform world (publish closed)

-- `_teardown`: the containers are those of the database row.
pub teardown : World → Task (Unit {0})
teardown world = do
  perform world read_row
  s ← get
  remove_containers world s.row
  close_sandbox world

-- The `finally` block.
pub cleanup : World → ℕ → String → Task (Unit {0})
cleanup world max_sandboxes sandbox_id = do
  s ← get
  if s.provisioned then teardown world else pure tt
  modify (λ t. record t { pool = release max_sandboxes sandbox_id t.pool })

pub claim : ℕ → String → String → Task Bool
claim max_sandboxes sandbox_id run_id s =
    let (pool, acquired) = acquire max_sandboxes sandbox_id run_id s.pool in
    (return acquired, record s { pool = pool })

-- `_handle`, after the message's fields are read.
pub handle : ℕ → ℕ → World → Request → String → Task (Unit {0})
handle max_sandboxes grace world msg sandbox_id = do
  acquired ← claim max_sandboxes sandbox_id msg.run_id
  if not acquired then pure tt else (do
    modify (λ s. record s { port_offset_counter = s.port_offset_counter + 1 })
    finally (guarded grace world msg) (cleanup world max_sandboxes sandbox_id))
