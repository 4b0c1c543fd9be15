-- ===== src/Manager/Startup/Tests.antt =====
-- Runs of the consumer's start, and instances of its theorems.
use cartesi_release_validati.Prelude.{
  ◌≡◌, refl, true, false, not, ◌||◌, none, some, List, [], ◌∷◌, map, keep, all,
}
use cartesi_release_validati.Manager.Effects.{provisioning, ready, closed}
use cartesi_release_validati.Manager.Startup.{
  SandboxRow, is_live, teardown_of, sweep_orphaned_sandboxes, sweep_each, mark_closed,
  init_port_offset, used_ports, free_offset,
}
use cartesi_release_validati.Manager.Startup.Sweep.{sweep_orphaned_sandboxes_lem}

abbrev table : List SandboxRow
table =
    let first : SandboxRow = record {
      id = "0123456789";
      status = provisioning;
      container_ids = "c1" ∷ [];
      docker_network = none;
      snapshot_volume = none;
      anvil_port = some 18545;
    } in
    let second : SandboxRow = record {
      id = "b2";
      status = ready;
      container_ids = [];
      docker_network = some "net";
      snapshot_volume = none;
      anvil_port = some 18565;
    } in
    first ∷ second ∷ []

-- The ports of the first and of the third offset are in use: the counter starts at the second, and
-- the offset after it is in use.
offset : init_port_offset 18545 false table 0 ≡ 1
unfolding init_port_offset used_ports free_offset
offset = refl

both_closed :
    map (λ r. r.status) (sweep_orphaned_sandboxes false (λ _. true) (λ _. false) table).rows
    ≡ closed ∷ closed ∷ []
unfolding sweep_orphaned_sandboxes sweep_each mark_closed
both_closed = refl

sweep_orphaned_sandboxes_lem_example :
    (all
        (λ r. not (is_live r.status) || false)
        (sweep_orphaned_sandboxes false (λ _. true) (λ _. false) table).rows
      ≡ true)
    × ((sweep_orphaned_sandboxes false (λ _. true) (λ _. false) table).calls
        ≡ map teardown_of (keep (λ r. is_live r.status) table))
sweep_orphaned_sandboxes_lem_example = sweep_orphaned_sandboxes_lem (λ _. true) (λ _. false) table
