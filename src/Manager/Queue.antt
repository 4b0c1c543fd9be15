-- ===== src/Manager/Queue.antt =====
-- services/sandbox-manager/consumers/sandbox_queue.py, `run`: the consumer loop beside the tasks that
-- it starts. The event loop interleaves them at every await, so a run of the service is a list of
-- events; each event is one stretch of code between two awaits.
pub mod Lost
use cartesi_release_validati.Prelude.{
  ℕ, zero, suc, ◌+◌, ◌-◌, ◌*◌, ◌/◌, ◌%◌, ◌≤◌, ◌<◌, min, max, ◌≡◌, refl, sym, ap, ◌∙◌, ◌≢◌, ◌↔◌, ◌⊎◌,
  inl, inr, Bool, true, false, not, ◌&&◌, ◌||◌, String, Option, none, some, List, [], ◌∷◌, ◌++◌,
  map, append-nil, append_assoc, arith, eq_iff, eq_refl, str_eq, if◌then◌else◌, ltb, leb, ◌==◌,
  ==_iff, ltb→lt, lt→ltb, leb→le, Bool-cases, Option-cases, length, take, drop, keep, count, all,
  any, All, length-append, length-take, length-drop, take-append-drop, count-le-length,
  count-append, lookup, has_key, insert, remove, HasDistinctKeys,
}
use cartesi_release_validati.Prelude.Pick.{pick}
use cartesi_release_validati.Pool.{SandboxPool, acquire, release, wait_for_slot}

-- A task of `_handle` by the run that its message asks for; `sandbox_id` once it has one.
pub record Holder : Type 0 where
  pub run_id : String
  pub sandbox_id : String

-- `lost` holds the messages whose task returned because `acquire` gave no slot: they were already
-- acknowledged.
pub record Consumer : Type 0 where
  pub pool : SandboxPool
  pub waiting : List String
  pub started : List String
  pub holding : List Holder
  pub closed : List String
  pub lost : List String

pub data Event : Type 0 where
  -- The loop takes the next message if `wait_for_slot` returns, acknowledges it, starts its task.
  receive : Event
  -- The task at this index of `started` reaches `pool.acquire` with its new uuid.
  claim_slot : (index : ℕ) → (sandbox_id : String) → Event
  -- The holder at this index reaches `pool.release`.
  give_back : (index : ℕ) → Event

module _ (max_sandboxes : ℕ) where
  pub receive_next : List String → Consumer → Consumer
  receive_next [] c = c
  receive_next (run_id ∷ rest) c =
      let (pool, free) = wait_for_slot max_sandboxes c.pool in
      if free
      then record c { pool = pool; waiting = rest; started = c.started ++ (run_id ∷ []) }
      else record c { pool = pool }

  pub claim_next : String → Option (String × List String) → Consumer → Consumer
  claim_next sandbox_id none c = c
  claim_next sandbox_id (some (run_id, rest)) c =
      let (pool, acquired) = acquire max_sandboxes sandbox_id run_id c.pool in
      if acquired
      then record c {
        pool = pool;
        started = rest;
        holding = c.holding ++ (record { run_id = run_id; sandbox_id = sandbox_id } ∷ []);
      }
      else record c { pool = pool; started = rest; lost = c.lost ++ (run_id ∷ []) }

  pub release_next : Option (Holder × List Holder) → Consumer → Consumer
  release_next none c = c
  release_next (some (h, rest)) c = record c {
    pool = release max_sandboxes h.sandbox_id c.pool;
    holding = rest;
    closed = c.closed ++ (h.run_id ∷ []);
  }

  unfoldable pub step : Event → Consumer → Consumer
  unfolding receive_next claim_next release_next pick
  step receive c = receive_next c.waiting c
  step (claim_slot index sandbox_id) c = claim_next sandbox_id (pick index c.started) c
  step (give_back index) c = release_next (pick index c.holding) c

  unfoldable pub run : List Event → Consumer → Consumer
  run [] c = c
  run (e ∷ es) c = run es (step e c)
