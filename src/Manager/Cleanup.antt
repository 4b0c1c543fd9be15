-- ===== src/Manager/Cleanup.antt =====
-- The `finally` block of `_handle`: when the pool slot is given back, and when containers are removed.
use cartesi_release_validati.Prelude.{
  ℕ, ◌+◌, ◌≡◌, refl, ap, inl, inr, true, false, String, Option, none, some, arith, ltb, Bool-cases,
  length, has_key,
}
use cartesi_release_validati.Manager.Effects.{
  closed, Effect, publish, read_row, docker_teardown, mark_closed, Exception, Result, return, raise,
  Row, World, State, Task, get, modify, pure, throw, finally, ◌>>=◌, ◌>>◌, and_then, logged,
  perform,
}
use cartesi_release_validati.Manager.{
  Request, set_status, store_ready, mark_provisioned, guarded, close_row, close_sandbox,
  remove_containers, teardown, cleanup, claim, handle,
}
use cartesi_release_validati.Pool.{SandboxPool, acquire, release}
use cartesi_release_validati.Pool.Capacity.{acquire-full, release-acquire}
use cartesi_release_validati.Manager.Frame.{
  Keeps, pure-Keeps, get-Keeps, modify-Keeps, >>=-Keeps, >>-Keeps, guarded-Keeps, serve-Keeps,
}

-- The awaited calls of `_teardown` go through.
pub record IsQuiet (world : World) : Type 0 where
  pub reads : world.raises read_row ≡ none
  pub tears : world.raises docker_teardown ≡ none
  pub marks : world.raises mark_closed ≡ none
  pub announces : world.raises (publish closed) ≡ none

-- A task that hands back a value from every state.
record Succeeds {A : Type 0} (m : Task A) : Type 0 where
  value : (s : State) → (a : A) × ((m s).0 ≡ return a)

perform-Succeeds :
    (world : World) (effect : Effect) → world.raises effect ≡ none → Succeeds (perform world effect)
unfolding perform logged
perform-Succeeds world effect q = record { value = λ s. (tt, ground arith) }

get-Succeeds : Succeeds get
unfolding get
get-Succeeds = record { value = λ s. (s, refl) }

pure-Succeeds : {A : Type 0} (a : A) → Succeeds (pure a)
unfolding pure
pure-Succeeds a = record { value = λ s. (a, refl) }

modify-Succeeds : (f : State → State) → Succeeds (modify f)
unfolding modify
modify-Succeeds f = record { value = λ s. (tt, refl) }

>>=-Succeeds :
    {A B : Type 0} (m : Task A) (f : A → Task B)
    → Succeeds m
    → ((a : A) → Succeeds (f a))
    → Succeeds (m >>= f)
unfolding ◌>>=◌
>>=-Succeeds m f h k = record { value = λ s. go (m s).0 (m s).1 (h.value s) }
  where
    go :
        (r : Result _) (t : State)
        → (a : _) × (r ≡ return a)
        → (b : _) × ((and_then r f t).0 ≡ return b)
    go (return a) t e = (k a).value t
    go (raise x) t (a, e) = cc

>>-Succeeds : {A B : Type 0} (m : Task A) (n : Task B) → Succeeds m → Succeeds n → Succeeds (m >> n)
unfolding ◌>>◌
>>-Succeeds m n h k = record { value = (>>=-Succeeds m (λ _. n) h (λ _. k)).value }

remove_containers-Succeeds :
    (world : World) (r : Option Row)
    → world.raises docker_teardown ≡ none
    → Succeeds (remove_containers world r)
unfolding remove_containers
remove_containers-Succeeds world none q = pure-Succeeds tt
remove_containers-Succeeds world (some r) q = elim (Bool-cases (ltb 0 (length r.container_ids))) [
  | inl some_left ↦ rw some_left (perform-Succeeds world docker_teardown q)
  | inr all_gone ↦ rw all_gone (pure-Succeeds tt)
]

ruleset succeeds = (
  perform-Succeeds, get-Succeeds, pure-Succeeds, modify-Succeeds, >>=-Succeeds, >>-Succeeds,
  remove_containers-Succeeds,
)

teardown-Succeeds : (world : World) → IsQuiet world → Succeeds (teardown world)
unfolding teardown close_sandbox
teardown-Succeeds world q = search (succeeds, q.reads, q.tears, q.marks, q.announces) depth 10

-- Only the first and the last step of `_handle` touch the pool.
abbrev pub HasPool : SandboxPool → State → Type 0
HasPool p s = s.pool ≡ p

pub guarded-HasPool :
    (p : SandboxPool) (grace : ℕ) (world : World) (msg : Request)
    → Keeps (HasPool p) (guarded grace world msg)
unfolding logged set_status mark_provisioned store_ready
guarded-HasPool p grace world msg =
    guarded-Keeps (HasPool p) (λ e s _ h. h) (λ st s h. h) (λ s h. h) grace world msg
      (λ _. serve-Keeps (HasPool p) (λ e s _ h. h) (λ st s h. h) (λ s h. h) grace world (λ s h. h))

perform-HasPool :
    (p : SandboxPool) (world : World) (e : Effect) → Keeps (HasPool p) (perform world e)
unfolding perform logged
perform-HasPool p world e = record { kept = λ s h. ground arith }

remove_containers-HasPool :
    (p : SandboxPool) (world : World) (r : Option Row)
    → Keeps (HasPool p) (remove_containers world r)
unfolding remove_containers
remove_containers-HasPool p world none = pure-Keeps _ tt
remove_containers-HasPool p world (some r) = elim (Bool-cases (ltb 0 (length r.container_ids))) [
  | inl some_left ↦ rw some_left (perform-HasPool p world docker_teardown)
  | inr all_gone ↦ rw all_gone (pure-Keeps _ tt)
]

close_row-HasPool : (p : SandboxPool) (s : State) → HasPool p s → HasPool p (close_row s)
unfolding close_row
close_row-HasPool p s h = h

teardown-HasPool : (p : SandboxPool) (world : World) → Keeps (HasPool p) (teardown world)
unfolding teardown close_sandbox
teardown-HasPool p world = >>-Keeps _ _ _ (perform-HasPool p world read_row) (
    >>=-Keeps _ _ _ (get-Keeps _) λ s. >>-Keeps _ _ _ (remove_containers-HasPool p world s.row) (
      >>-Keeps _ _ _ (perform-HasPool p world mark_closed) (
        >>-Keeps _ _ _ (modify-Keeps _ close_row (close_row-HasPool p))
          (perform-HasPool p world (publish closed)))))

cleanup-pool :
    (world : World) (max_sandboxes : ℕ) (sandbox_id : String) (s : State)
    → IsQuiet world
    → (cleanup world max_sandboxes sandbox_id s).1.pool ≡ release max_sandboxes sandbox_id s.pool
unfolding cleanup ◌>>=◌ ◌>>◌ get modify pure
cleanup-pool world max_sandboxes sandbox_id s q =
    let (a, e) = (teardown-Succeeds world q).value s in
    ground (arith, e, (teardown-HasPool s.pool world).kept s refl)

pub cleanup_keeps_slot :
    (world : World) (max_sandboxes : ℕ) (sandbox_id : String) (s : State) {e : Exception}
    → s.provisioned ≡ true
    → world.raises read_row ≡ some e
    → (cleanup world max_sandboxes sandbox_id s).1.pool ≡ s.pool
unfolding cleanup teardown ◌>>=◌ ◌>>◌ get modify perform logged throw
cleanup_keeps_slot world max_sandboxes sandbox_id s p r = ground arith

-- The state in which the `try` block starts.
abbrev pub started : ℕ → Request → String → State → State
started max_sandboxes msg sandbox_id s = record s {
  pool = (acquire max_sandboxes sandbox_id msg.run_id s.pool).0;
  port_offset_counter = s.port_offset_counter + 1;
}

pub handle_lem :
    (max_sandboxes grace : ℕ) (world : World) (msg : Request) (sandbox_id : String) (s : State)
    → (acquire max_sandboxes sandbox_id msg.run_id s.pool).1 ≡ true
    → (handle max_sandboxes grace world msg sandbox_id s).1
      ≡ (cleanup world max_sandboxes sandbox_id
          (guarded grace world msg (started max_sandboxes msg sandbox_id s)).1).1
unfolding handle claim ◌>>=◌ ◌>>◌ modify finally
handle_lem max_sandboxes grace world msg sandbox_id s h = ground arith

-- For a sandbox id that holds no slot, and if the calls of the teardown itself do not raise,
-- `_handle` leaves the taken slots as they were before, whichever of the other calls raises and
-- whether the task was given a slot or not.
pub handle_releases :
    (max_sandboxes grace : ℕ) (world : World) (msg : Request) (sandbox_id : String) (s : State)
    → IsQuiet world
    → has_key sandbox_id s.pool.active ≡ false
    → (handle max_sandboxes grace world msg sandbox_id s).1.pool.active ≡ s.pool.active
unfolding handle claim ◌>>=◌ ◌>>◌ pure
handle_releases max_sandboxes grace world msg sandbox_id s q fresh =
    elim (Bool-cases (acquire max_sandboxes sandbox_id msg.run_id s.pool).1) [
      | inl took ↦
          let t = started max_sandboxes msg sandbox_id s in
          cc (
            ap (λ u. u.pool.active) (handle_lem max_sandboxes grace world msg sandbox_id s took),
            cleanup-pool world max_sandboxes sandbox_id (guarded grace world msg t).1 q,
            (guarded-HasPool t.pool grace world msg).kept t refl,
            (release-acquire max_sandboxes sandbox_id msg.run_id s.pool fresh took).0,
          )
      | inr full ↦ cc (full, acquire-full max_sandboxes sandbox_id msg.run_id s.pool full)
    ]
