-- ===== src/Pool.antt =====
-- services/sandbox-manager/pool.py: the slots of the sandbox pool. Every method runs under the
-- pool's lock (or with no suspension inside), so each is one function on the state.
mod Tests
pub mod Capacity
use cartesi_release_validati.Prelude.{
  ℕ, Bool, true, false, not, String, List, [], if◌then◌else◌, ltb, length, insert, remove,
}

pub record Metadata : Type 0 where
  pub run_id : String
  pub sandbox_id : String

-- `slot_available` is the asyncio.Event's flag.
pub record SandboxPool : Type 0 where
  pub active : List (String × Metadata)
  pub slot_available : Bool

abbrev pub empty_pool : SandboxPool
empty_pool = record { active = []; slot_available = true }

abbrev pub active_count : SandboxPool → ℕ
active_count pool = length pool.active

-- `max_sandboxes` is MAX_SANDBOXES, which the environment sets.
module _ (max_sandboxes : ℕ) where
  unfoldable pub has_capacity : SandboxPool → Bool
  has_capacity pool = ltb (active_count pool) max_sandboxes

  unfoldable pub acquire : String → String → SandboxPool → SandboxPool × Bool
  unfolding has_capacity
  acquire sandbox_id run_id pool =
      if not (has_capacity pool)
      then (pool, false)
      else (let entry : Metadata = record { run_id = run_id; sandbox_id = sandbox_id } in
          let claimed = record pool { active = insert sandbox_id entry pool.active } in
          if not (has_capacity claimed)
          then (record claimed { slot_available = false }, true)
          else (claimed, true))

  unfoldable pub release : String → SandboxPool → SandboxPool
  release sandbox_id pool = record { active = remove sandbox_id pool.active; slot_available = true }

  -- One turn of the loop in `wait_for_slot`: true if it returns, false if it waits for the event.
  -- A waiter whose event is set takes another turn.
  unfoldable pub wait_for_slot : SandboxPool → SandboxPool × Bool
  unfolding has_capacity
  wait_for_slot pool =
      if not (has_capacity pool)
      then (record pool { slot_available = false }, false)
      else (pool, true)
