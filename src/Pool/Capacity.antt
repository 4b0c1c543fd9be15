-- ===== src/Pool/Capacity.antt =====
-- The pool's invariant, and what each method does to the slots.
use cartesi_release_validati.Prelude.{
  ℕ, ◌≤◌, ◌<◌, ◌≡◌, ◌↔◌, ◌⊎◌, inl, inr, true, false, String, some, arith, eq_iff, str_eq,
  if◌then◌else◌, ltb, Bool-cases, lookup, has_key, HasDistinctKeys,
}
use cartesi_release_validati.Prelude.Dict.{
  lookup-insert, has_key-insert, length-insert, insert-HasDistinctKeys, remove-HasDistinctKeys,
  length-remove, remove-insert,
}
use cartesi_release_validati.Pool.{
  Metadata, SandboxPool, active_count, acquire, release, wait_for_slot,
}

-- At most `max_sandboxes` slots are taken, each by one sandbox, and the event is only down while
-- the pool is full, so no waiter sleeps beside a free slot.
pub record IsValid (max_sandboxes : ℕ) (pool : SandboxPool) : Type 0 where
  pub bounded : active_count pool ≤ max_sandboxes
  pub distinct : HasDistinctKeys pool.active
  pub awake : pool.slot_available ≡ false → max_sandboxes ≤ active_count pool

module _ (max_sandboxes : ℕ) (sandbox_id run_id : String) where
  -- `acquire` keeps it, whether it gets a slot or not, that at most `max_sandboxes` slots are
  -- taken, by different sandboxes, and that the event is cleared only when all are.
  pub acquire-IsValid :
      (pool : SandboxPool)
      → IsValid max_sandboxes pool
      → IsValid max_sandboxes (acquire max_sandboxes sandbox_id run_id pool).0
  unfolding acquire
  acquire-IsValid pool v =
      let entry : Metadata = record { run_id = run_id; sandbox_id = sandbox_id } in
      ground (
        arith,
        length-insert sandbox_id entry pool.active,
        insert-HasDistinctKeys sandbox_id entry pool.active v.distinct,
      )

  -- `release` keeps the invariant, also for a sandbox that holds no slot.
  pub release-IsValid :
      (pool : SandboxPool)
      → IsValid max_sandboxes pool
      → IsValid max_sandboxes (release max_sandboxes sandbox_id pool)
  unfolding release
  release-IsValid pool v = ground (
    arith,
    length-remove sandbox_id pool.active,
    remove-HasDistinctKeys sandbox_id pool.active v.distinct,
  )

  -- Either a slot is free, and `acquire` takes one, which records the sandbox with its run and
  -- leaves every other entry; or all slots are taken, and it refuses and changes nothing.
  pub acquire-cases :
      (pool : SandboxPool)
      → ((active_count pool < max_sandboxes)
          × ((acquire max_sandboxes sandbox_id run_id pool).1 ≡ true)
          × ((j : String)
              → lookup j (acquire max_sandboxes sandbox_id run_id pool).0.active ≡ (
                  if str_eq sandbox_id j
                  then some (record { run_id = run_id; sandbox_id = sandbox_id })
                  else lookup j pool.active)))
        ⊎ ((max_sandboxes ≤ active_count pool)
            × (acquire max_sandboxes sandbox_id run_id pool ≡ (pool, false)))
  unfolding acquire
  acquire-cases pool =
      let entry : Metadata = record { run_id = run_id; sandbox_id = sandbox_id } in
      elim (Bool-cases (ltb (active_count pool) max_sandboxes)) [
        | inl free ↦ inl (
          ground arith,
          ground arith,
          (λ j. ground (arith, lookup-insert sandbox_id j entry pool.active)),
        )
        | inr full ↦ inr (ground arith, ground arith)
      ]

  pub acquire-full :
      (pool : SandboxPool)
      → (acquire max_sandboxes sandbox_id run_id pool).1 ≡ false
      → (acquire max_sandboxes sandbox_id run_id pool).0 ≡ pool
  unfolding acquire
  acquire-full pool = ground arith

  -- For a sandbox that holds no slot and is given one by `acquire`, `release` restores the taken
  -- slots, and `wait_for_slot` then returns.
  pub release-acquire :
      (pool : SandboxPool)
      → has_key sandbox_id pool.active ≡ false
      → (acquire max_sandboxes sandbox_id run_id pool).1 ≡ true
      → ((release max_sandboxes sandbox_id (acquire max_sandboxes sandbox_id run_id pool).0).active
          ≡ pool.active)
        × ((wait_for_slot max_sandboxes
              (release max_sandboxes sandbox_id (acquire max_sandboxes sandbox_id run_id pool).0)).1
            ≡ true)
  unfolding acquire release wait_for_slot
  release-acquire pool fresh h =
      let entry : Metadata = record { run_id = run_id; sandbox_id = sandbox_id } in
      ground (arith, remove-insert sandbox_id entry pool.active fresh)

-- A turn of `wait_for_slot` keeps the invariant, and returns exactly when a slot is free.
pub wait_for_slot-IsValid :
    (max_sandboxes : ℕ) (pool : SandboxPool)
    → IsValid max_sandboxes pool
    → IsValid max_sandboxes (wait_for_slot max_sandboxes pool).0
      × (((wait_for_slot max_sandboxes pool).1 ≡ true) ↔ (active_count pool < max_sandboxes))
unfolding wait_for_slot
wait_for_slot-IsValid max_sandboxes pool v = (ground arith, ground arith)

-- A sandbox that got a slot is among the active ones.
pub has_key-acquire :
    (max_sandboxes : ℕ) (sandbox_id run_id : String) (pool : SandboxPool)
    → (acquire max_sandboxes sandbox_id run_id pool).1 ≡ true
    → has_key sandbox_id (acquire max_sandboxes sandbox_id run_id pool).0.active ≡ true
unfolding acquire
has_key-acquire max_sandboxes sandbox_id run_id pool h =
    let entry : Metadata = record { run_id = run_id; sandbox_id = sandbox_id } in
    ground
      (arith, eq_iff sandbox_id sandbox_id, has_key-insert sandbox_id sandbox_id entry pool.active)
