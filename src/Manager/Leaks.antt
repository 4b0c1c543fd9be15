-- ===== src/Manager/Leaks.antt =====
-- services/sandbox-manager/consumers/sandbox_queue.py, `_handle`: a teardown that raises, and a run
-- that is cancelled between provisioning and the ready row.
use cartesi_release_validati.Prelude.{
  ℕ, ◌≡◌, refl, sym, ap, ◌∙◌, Bool, true, false, String, Option, none, some, List, [], ◌∷◌, ◌++◌,
  arith, any, has_key,
}
use cartesi_release_validati.Manager.Effects.{
  SandboxStatus, provisioning, closed, Effect, upsert, publish, provision, read_row, mark_closed,
  Exception, Row, World, State, Task, get, modify, pure, except_error, ◌>>=◌, ◌>>◌, logged, perform,
  is_removal,
}
use cartesi_release_validati.Manager.{
  Request, relabelled, set_status, closed_row, close_sandbox, store_ready, mark_provisioned,
  remove_containers, close_row, guarded, upsert_status, report_failure, settle, try_provision, body,
  teardown, cleanup, handle,
}
use cartesi_release_validati.Pool.{acquire, release}
use mathlib.Core.Bool.{false≢true}
use cartesi_release_validati.Pool.Capacity.{has_key-acquire}
use cartesi_release_validati.Manager.Frame.{
  >>=-Keeps, get-Keeps, if-Keeps, perform-Keeps, pure-Keeps, modify-Keeps, >>-Keeps, Keeps,
  guarded-Keeps, settle-Keeps, serve-Keeps, report_failure-Keeps, except_error-from,
}
use cartesi_release_validati.Manager.Cleanup.{
  guarded-HasPool, cleanup_keeps_slot, started, handle_lem,
}

-- Nothing stops the task before Docker has provisioned the sandbox.
pub record Provisions (world : World) : Type 0 where
  pub wanted : world.cancelled_before ≡ false
  pub stored : world.raises (upsert provisioning) ≡ none
  pub announced : world.raises (publish provisioning) ≡ none
  pub built : world.raises provision ≡ none

-- The state that `settle` starts from.
abbrev settled_from : State → State
settled_from s = mark_provisioned (
    logged provision
      (logged (publish provisioning) (set_status provisioning (logged (upsert provisioning) s))))

body-Provisions :
    (grace : ℕ) (world : World) (msg : Request) (s : State)
    → Provisions world
    → body grace world msg s ≡ settle grace world msg (settled_from s)
unfolding body upsert_status try_provision perform ◌>>=◌ ◌>>◌ pure modify except_error
body-Provisions grace world msg s h = simp (h.wanted, h.stored, h.announced, h.built)

abbrev IsMarked : State → Type 0
IsMarked s = s.provisioned ≡ true

report_failure-IsMarked : (world : World) → Keeps IsMarked (report_failure world)
unfolding logged set_status mark_provisioned
report_failure-IsMarked world =
    report_failure-Keeps IsMarked (λ e s _ h. h) (λ st s h. h) (λ s h. refl) world

settle-IsMarked :
    (grace : ℕ) (world : World) (msg : Request) → Keeps IsMarked (settle grace world msg)
unfolding logged set_status mark_provisioned store_ready
settle-IsMarked grace world msg =
    settle-Keeps IsMarked (λ e s _ h. h) (λ st s h. h) (λ s h. refl) grace world msg
      (λ _. serve-Keeps IsMarked (λ e s _ h. h) (λ st s h. h) (λ s h. refl) grace world (λ s h. h))

settled_from-IsMarked : (s : State) → IsMarked (settled_from s)
unfolding mark_provisioned
settled_from-IsMarked s = refl

guarded-IsMarked :
    (grace : ℕ) (world : World) (msg : Request) (s : State)
    → Provisions world
    → IsMarked (guarded grace world msg s).1
unfolding guarded
guarded-IsMarked grace world msg s h =
    except_error-from IsMarked (body grace world msg) (report_failure world) s
      (rw (body-Provisions grace world msg s h)
        ((settle-IsMarked grace world msg).kept _ (settled_from-IsMarked s)))
      (report_failure-IsMarked world)

-- If the task is given a slot, the sandbox is provisioned and the first query of the teardown
-- raises, the slot is still taken when `_handle` has ended.
pub handle_leaks_slot :
    (max_sandboxes grace : ℕ) (world : World) (msg : Request) (sandbox_id : String) (s : State)
    (e : Exception)
    → Provisions world
    → world.raises read_row ≡ some e
    → (acquire max_sandboxes sandbox_id msg.run_id s.pool).1 ≡ true
    → has_key sandbox_id (handle max_sandboxes grace world msg sandbox_id s).1.pool.active ≡ true
handle_leaks_slot max_sandboxes grace world msg sandbox_id s e h broken took =
    let t = started max_sandboxes msg sandbox_id s in
    let after = (guarded grace world msg t).1 in
    cc (
      ap (λ u. has_key sandbox_id u.pool.active)
          (handle_lem max_sandboxes grace world msg sandbox_id s took),
      cleanup_keeps_slot world max_sandboxes sandbox_id after (guarded-IsMarked grace world msg t h)
          broken,
      (guarded-HasPool t.pool grace world msg).kept t refl,
      has_key-acquire max_sandboxes sandbox_id msg.run_id s.pool took,
    )

-- No container was removed so far, and the database knows of none.
abbrev HasNoContainers : Option Row → Type 0
HasNoContainers none = Unit
HasNoContainers (some r) = r.container_ids ≡ []

record IsBare (s : State) : Type 0 where
  row : HasNoContainers s.row
  trace : any is_removal s.trace ≡ false

any-append :
    (p : Effect → Bool) (xs : List Effect) (e : Effect)
    → any p xs ≡ false
    → p e ≡ false
    → any p (xs ++ (e ∷ [])) ≡ false
any-append p [] e h k = rw k
any-append p (x ∷ xs) e h k = ground (arith, any-append p xs e)

logged-IsBare : (e : Effect) (s : State) → is_removal e ≡ false → IsBare s → IsBare (logged e s)
unfolding logged
logged-IsBare e s h b = record { row = b.row; trace = any-append is_removal s.trace e b.trace h }

set_status-HasNoContainers :
    (st : SandboxStatus) (r : Option Row) → HasNoContainers r → HasNoContainers (relabelled st r)
set_status-HasNoContainers st none h = refl
set_status-HasNoContainers st (some r) h = h

set_status-IsBare : (st : SandboxStatus) (s : State) → IsBare s → IsBare (set_status st s)
unfolding set_status
set_status-IsBare st s b = record {
  row = set_status-HasNoContainers st s.row b.row;
  trace = b.trace;
}

mark_provisioned-IsBare : (s : State) → IsBare s → IsBare (mark_provisioned s)
unfolding mark_provisioned
mark_provisioned-IsBare s b = record { row = b.row; trace = b.trace }

close_row-IsBare : (s : State) → IsBare s → IsBare (close_row s)
unfolding close_row
close_row-IsBare s b = record { row = go s.row b.row; trace = b.trace }
  where
    go : (r : Option Row) → HasNoContainers r → HasNoContainers (closed_row r)
    go none h = tt
    go (some r) h = h

perform-IsBare :
    (world : World) (e : Effect) → is_removal e ≡ false → Keeps IsBare (perform world e)
perform-IsBare = perform-Keeps IsBare logged-IsBare set_status-IsBare mark_provisioned-IsBare

remove_containers-IsBare :
    (world : World) (r : Option Row) → HasNoContainers r → Keeps IsBare (remove_containers world r)
unfolding remove_containers
remove_containers-IsBare world none h = pure-Keeps _ tt
remove_containers-IsBare world (some r) h = rw h (pure-Keeps _ tt)

close-IsBare : (world : World) → Keeps IsBare (close_sandbox world)
unfolding close_sandbox
close-IsBare world = >>-Keeps _ _ _ (perform-IsBare world mark_closed refl) (
    >>-Keeps _ _ _ (modify-Keeps _ close_row close_row-IsBare)
      (perform-IsBare world (publish closed) refl))

-- The rest of `_teardown` behind its query.
remove_known : World → Task (Unit {0})
remove_known world = get >>= λ s. remove_containers world s.row >> close_sandbox world

remove_known-IsBare : (world : World) → Keeps IsBare (remove_known world)
unfolding remove_known ◌>>=◌ get
remove_known-IsBare world = record {
  kept = λ t b.
      (>>-Keeps IsBare _ _ (remove_containers-IsBare world t.row b.row) (close-IsBare world)).kept t
        b;
}

teardown-IsBare : (world : World) → Keeps IsBare (teardown world)
unfolding teardown remove_known
teardown-IsBare world =
    >>-Keeps _ _ _ (perform-IsBare world read_row refl) (remove_known-IsBare world)

release-IsBare :
    (max_sandboxes : ℕ) (sandbox_id : String) (s : State)
    → IsBare s
    → IsBare (record s { pool = release max_sandboxes sandbox_id s.pool })
release-IsBare max_sandboxes sandbox_id s b = record { row = b.row; trace = b.trace }

cleanup-IsBare :
    (world : World) (max_sandboxes : ℕ) (sandbox_id : String)
    → Keeps IsBare (cleanup world max_sandboxes sandbox_id)
unfolding cleanup
cleanup-IsBare world max_sandboxes sandbox_id = >>=-Keeps _ _ _ (get-Keeps _) λ s.
    >>-Keeps _ _ _
      (if-Keeps _ s.provisioned _ _ (λ _. teardown-IsBare world) (λ _. pure-Keeps _ tt))
      (modify-Keeps _ _ (release-IsBare max_sandboxes sandbox_id))

-- If the run is found cancelled after the provisioning, the sandbox has no row before, nothing
-- was removed before and the task is given a slot, then `_handle` makes no call that removes
-- containers.
pub handle_keeps_containers :
    (max_sandboxes grace : ℕ) (world : World) (msg : Request) (sandbox_id : String) (s : State)
    → world.cancelled_after ≡ true
    → s.row ≡ none
    → any is_removal s.trace ≡ false
    → (acquire max_sandboxes sandbox_id msg.run_id s.pool).1 ≡ true
    → any is_removal (handle max_sandboxes grace world msg sandbox_id s).1.trace ≡ false
handle_keeps_containers max_sandboxes grace world msg sandbox_id s late new clean took =
    let t = started max_sandboxes msg sandbox_id s in
    let start : IsBare t = record { row = rw new tt; trace = clean } in
    let body_kept =
      guarded-Keeps IsBare logged-IsBare set_status-IsBare mark_provisioned-IsBare grace world msg
        (λ early. absurd (false≢true (sym early ∙ late))) in
    let end = (cleanup-IsBare world max_sandboxes sandbox_id).kept _ (body_kept.kept t start) in
    rw (handle_lem max_sandboxes grace world msg sandbox_id s took) end.trace
