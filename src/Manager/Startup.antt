-- ===== src/Manager/Startup.antt =====
-- services/sandbox-manager/consumers/sandbox_queue.py: what the consumer does when it starts,
-- `_init_port_offset` and `_sweep_orphaned_sandboxes`, and `_run_gc`. Docker's teardown is an argument
-- that says for which sandboxes it raises.
mod Tests
pub mod Sweep
use cartesi_release_validati.Prelude.{
  ℕ, zero, suc, ◌+◌, ◌-◌, ◌*◌, ◌/◌, ◌%◌, ◌≤◌, ◌<◌, min, max, ◌≡◌, refl, sym, ap, ◌∙◌, ◌≢◌, ◌↔◌, ◌⊎◌,
  inl, inr, Bool, true, false, not, ◌&&◌, ◌||◌, String, Option, none, some, List, [], ◌∷◌, ◌++◌,
  map, append-nil, append_assoc, arith, eq_iff, eq_refl, str_eq, if◌then◌else◌, ltb, leb, ◌==◌,
  ==_iff, ltb→lt, lt→ltb, leb→le, Bool-cases, Option-cases, length, take, drop, keep, count, all,
  any, All, length-append, length-take, length-drop, take-append-drop, count-le-length,
  count-append, lookup, has_key, insert, remove, HasDistinctKeys, In, In-keep_iff, Empty, none≢some,
  some_injective,
}
use Prim.Native.String.{◌++◌ as ◌++ₛ◌}
use cartesi_release_validati.Text.{truthy, chars, text}
use cartesi_release_validati.Manager.Effects.{SandboxStatus, provisioning, ready, closed}

-- A row of sandbox.sandboxes, with the columns that are read here.
pub record SandboxRow : Type 0 where
  pub id : String
  pub status : SandboxStatus
  pub container_ids : List String
  pub docker_network : Option String
  pub snapshot_volume : Option String
  pub anvil_port : Option ℕ

-- `status IN ('provisioning', 'ready')`.
abbrev pub is_live : SandboxStatus → Bool
is_live provisioning = true
is_live ready = true
is_live _ = false

-- A call of provisioner.teardown.
pub record Teardown : Type 0 where
  pub sandbox_id : String
  pub container_ids : List String
  pub docker_network : String
  pub per_sandbox_volume : Option String

-- `sbx.docker_network or f"rvp-sbx-{sid[:8]}"`.
unfoldable pub network_of : SandboxRow → String
network_of row = elim (truthy row.docker_network) [
  | some network ↦ network
  | none ↦ "rvp-sbx-" ++ₛ text (take 8 (chars row.id))
]

unfoldable pub teardown_of : SandboxRow → Teardown
teardown_of row = record {
  sandbox_id = row.id;
  container_ids = row.container_ids;
  docker_network = network_of row;
  per_sandbox_volume = row.snapshot_volume;
}

-- `UPDATE sandbox.sandboxes SET status = 'closed' WHERE id = :id`.
unfoldable pub mark_closed : String → List SandboxRow → List SandboxRow
mark_closed id [] = []
mark_closed id (row ∷ rows) =
    (if str_eq row.id id then record row { status = closed } else row) ∷ mark_closed id rows

-- The table, and the teardowns that were called.
pub record Swept : Type 0 where
  pub rows : List SandboxRow
  pub calls : List Teardown

-- The inner `try` around the update.
abbrev pub finally_mark : Bool → String → List SandboxRow → List SandboxRow
finally_mark update_raises id rows = if update_raises then rows else mark_closed id rows

-- `try: teardown` with its `except`, which only logs, and its `finally`.
abbrev pub sweep_one : (teardown_raises update_raises : Bool) → SandboxRow → Swept → Swept
sweep_one true update_raises sbx s = record {
  rows = finally_mark update_raises sbx.id s.rows;
  calls = s.calls ++ (teardown_of sbx ∷ []);
}
sweep_one false update_raises sbx s = record {
  rows = finally_mark update_raises sbx.id s.rows;
  calls = s.calls ++ (teardown_of sbx ∷ []);
}

-- The `for` loop. The two tests say for which sandboxes the call and the update raise.
unfoldable pub sweep_each :
    (teardown_raises update_raises : String → Bool) → List SandboxRow → Swept → Swept
sweep_each teardown_raises update_raises [] s = s
sweep_each teardown_raises update_raises (sbx ∷ orphans) s =
    sweep_each teardown_raises update_raises orphans
      (sweep_one (teardown_raises sbx.id) (update_raises sbx.id) sbx s)

-- `_sweep_orphaned_sandboxes`.
unfoldable pub sweep_orphaned_sandboxes :
    Bool → (teardown_raises update_raises : String → Bool) → List SandboxRow → Swept
sweep_orphaned_sandboxes query_raises teardown_raises update_raises rows =
    let start : Swept = record { rows = rows; calls = [] } in
    let orphans = keep (λ r. is_live r.status) rows in
    if query_raises then start else sweep_each teardown_raises update_raises orphans start

-- The ports in use.
unfoldable pub used_ports : List SandboxRow → List ℕ
used_ports [] = []
used_ports (row ∷ rows) =
    let rest = used_ports rows in
    if is_live row.status
    then (elim row.anvil_port [ none ↦ rest | some port ↦ port ∷ rest ])
    else rest

-- The loop over range(200), from an offset on: none where each port is in use.
unfoldable pub free_offset : ℕ → List ℕ → ℕ → ℕ → Option ℕ
free_offset anvil_port_base used zero offset = none
free_offset anvil_port_base used (suc left) offset =
    let rest = free_offset anvil_port_base used left (suc offset) in
    if any (λ port. port == anvil_port_base + offset * 10) used then rest else some offset

-- `_init_port_offset`: the counter after it.
unfoldable pub init_port_offset : ℕ → Bool → List SandboxRow → ℕ → ℕ
init_port_offset anvil_port_base query_raises rows counter =
    let used = used_ports rows in
    if query_raises || length used == 0
    then counter
    else elim (free_offset anvil_port_base used 200 0) [ none ↦ counter | some offset ↦ offset ]

-- `_run_gc`: the ids that it asks the provisioner to spare, none where the query raises.
unfoldable pub gc_spares : Bool → List SandboxRow → Option (List String)
gc_spares query_raises rows =
    if query_raises then none else some (map (λ r. r.id) (keep (λ r. is_live r.status) rows))
