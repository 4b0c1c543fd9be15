-- ===== src/Releases/Order.antt =====
-- The order of a new run's row and its request to the sandbox manager.
use cartesi_release_validati.Prelude.{
  ℕ, zero, suc, ◌≡◌, refl, inl, inr, Bool, true, false, ◌&&◌, String, Option, none, some, List, [],
  ◌∷◌, if◌then◌else◌, Bool-cases, Option-cases, take, any, All, In,
}
use cartesi_release_validati.Releases.{
  NewRun, SandboxRequest, QueuedEvent, Effect, commits, publishes, State, apply, apply_all, new_run,
  request_for, Answers, tag_of, is_run_of, handle,
}
use cartesi_release_validati.Releases.Trigger as T

-- The request is for this row.
pub record IsFor (request : SandboxRequest) (row : NewRun) : Type 0 where
  pub same_id : row.id ≡ request.run_id
  pub same_release : row.release_tag ≡ request.release_tag
  pub same_image : row.image_tag ≡ request.image_tag
  pub same_priority : row.priority ≡ request.priority

-- The request has its row in the table and its event.
abbrev pub HasRow : State → SandboxRequest → Type 0
HasRow s request =
    ((row : NewRun) × (In row s.runs × IsFor request row))
    × ((event : QueuedEvent) × (In event s.events × (event.run_id ≡ request.run_id)))

abbrev pub AllHaveRows : State → Type 0
AllHaveRows s = All (HasRow s) s.requests

apply-commits-AllHaveRows :
    (s : State) (row : NewRun) (event : QueuedEvent)
    → AllHaveRows s
    → AllHaveRows (apply s (commits row event))
unfolding apply
apply-commits-AllHaveRows s row event h = later s.requests h
  where
    later :
        (requests : List SandboxRequest)
        → All (HasRow s) requests
        → All (HasRow (apply s (commits row event))) requests
    later [] hs = tt
    later (r ∷ rs) (((x, (i, f)), (e, (j, g))), hs) =
        (((x, (inr i, f)), (e, (inr j, g))), later rs hs)

apply-publishes-AllHaveRows :
    (s : State) (request : SandboxRequest)
    → AllHaveRows s
    → HasRow s request
    → AllHaveRows (apply s (publishes request))
unfolding apply
apply-publishes-AllHaveRows s request h r = (r, h)

-- A list of effects that is nothing, a commit, or a commit and then the request for its row.
pub data IsOrdered : List Effect → Type 0 where
  none_at_all : IsOrdered []
  row_only : {row : NewRun} {event : QueuedEvent} → IsOrdered (commits row event ∷ [])
  row_first :
      {row : NewRun} {event : QueuedEvent} {request : SandboxRequest}
      → IsFor request row
      → event.run_id ≡ request.run_id
      → IsOrdered (commits row event ∷ publishes request ∷ [])

take-nil : (n : ℕ) → take {A = Effect} n [] ≡ []
take-nil zero = refl
take-nil (suc n) = refl

take-AllHaveRows :
    {effects : List Effect} (n : ℕ) (s : State)
    → IsOrdered effects
    → AllHaveRows s
    → AllHaveRows (apply_all s (take n effects))
unfolding apply
take-AllHaveRows zero s o h = h
take-AllHaveRows (suc n) s none_at_all h = h
take-AllHaveRows (suc zero) s (row_only {row} {event}) h = apply-commits-AllHaveRows s row event h
take-AllHaveRows (suc (suc n)) s (row_only {row} {event}) h =
    apply-commits-AllHaveRows s row event h
take-AllHaveRows (suc zero) s (row_first {row} {event} {request} f e) h =
    apply-commits-AllHaveRows s row event h
take-AllHaveRows (suc (suc n)) s (row_first {row} {event} {request} f e) h =
    let stored = apply-commits-AllHaveRows s row event h in
    let own : HasRow (apply s (commits row event)) request =
      ((row, (inl refl, f)), (event, (inl refl, e))) in
    let both = apply-publishes-AllHaveRows (apply s (commits row event)) request stored own in
    rw (take-nil n) both

IsOrdered-then :
    (publishes_too : Bool) (row : NewRun) (event : QueuedEvent) (request : SandboxRequest)
    → IsFor request row
    → event.run_id ≡ request.run_id
    → IsOrdered (commits row event ∷ (if publishes_too then publishes request ∷ [] else []))
IsOrdered-then true row event request f e = row_first f e
IsOrdered-then false row event request f e = row_only

handle-IsOrdered :
    (a : Answers) (tag_name : Option String) (s : State) → IsOrdered (handle a tag_name s)
unfolding handle new_run request_for
handle-IsOrdered a tag_name s = elim (Bool-cases (any (is_run_of (tag_of tag_name)) s.runs)) [
  | inl y ↦ rw y none_at_all
  | inr y ↦ elim (Bool-cases a.commit_succeeds) [
    | inl c ↦
        rw (y, c)
          (IsOrdered-then a.publish_succeeds _ _ (request_for a (tag_of tag_name))
            (record {
              same_id = refl;
              same_release = refl;
              same_image = refl;
              same_priority = refl;
            })
            refl)
    | inr c ↦ rw (y, c) none_at_all
  ]
]

store_and_publish-IsOrdered :
    (uuid_of : String → Option String) (a : T.Answers) (body : T.TriggerRunRequest) (app : T.App)
    (suites : List String)
    → IsOrdered (T.store_and_publish uuid_of a body app suites).1
unfolding T.store_and_publish
store_and_publish-IsOrdered uuid_of a body app suites = elim (Option-cases body.triggered_by) [
  | inl e ↦ rw e none_at_all
  | inr (t, e) ↦ elim (Bool-cases a.commit_succeeds) [
    | inl c ↦ elim (Bool-cases (a.lookup_succeeds && a.publish_succeeds)) [
      | inl p ↦
          rw (e, c, p)
            (row_first
              (record {
                same_id = refl;
                same_release = refl;
                same_image = refl;
                same_priority = refl;
              })
              refl)
      | inr p ↦ rw (e, c, p) row_only
    ]
    | inr c ↦ rw (e, c) none_at_all
  ]
]

trigger_run-IsOrdered :
    (uuid_of : String → Option String) (a : T.Answers) (body : T.TriggerRunRequest)
    → IsOrdered (T.trigger_run uuid_of a body).1
unfolding T.trigger_run T.after_app T.after_suites
trigger_run-IsOrdered uuid_of a body = of_app (T.resolve_app uuid_of a.applications body.app_id)
  where
    of_suites :
        (app : T.App) (suites : Option (List String))
        → IsOrdered (T.after_suites uuid_of a body app suites).1
    of_suites app none = none_at_all
    of_suites app (some ids) = store_and_publish-IsOrdered uuid_of a body app ids

    of_app : (c : T.Checked T.App) → IsOrdered (T.after_app uuid_of a body c).1
    of_app (T.refused reply) = none_at_all
    of_app (T.accepted app) = of_suites app (T.suite_uuids uuid_of body.suite_ids)

-- The states that the service passes through: the consumer handles a message, or the route a request,
-- and either may have come only as far as its first effects.
pub data Reaches (uuid_of : String → Option String) (start : State) : State → Type 0 where
  at_start : Reaches uuid_of start start
  handles :
      {s : State} (a : Answers) (tag_name : Option String) (n : ℕ)
      → Reaches uuid_of start s
      → Reaches uuid_of start (apply_all s (take n (handle a tag_name s)))
  triggers :
      {s : State} (a : T.Answers) (body : T.TriggerRunRequest) (n : ℕ)
      → Reaches uuid_of start s
      → Reaches uuid_of start (apply_all s (take n (T.trigger_run uuid_of a body).1))

-- In every state that the service reaches by handling release messages and requests to POST
-- /runs, each of them possibly interrupted after some of its effects, each request on the sandbox
-- queue has a row of its run, with its id, release, image and priority, and the run's queued
-- event, if this is so at the start.
pub Reaches-AllHaveRows :
    (uuid_of : String → Option String) (start s : State)
    → Reaches uuid_of start s
    → AllHaveRows start
    → AllHaveRows s
Reaches-AllHaveRows uuid_of start s at_start h = h
Reaches-AllHaveRows uuid_of start _ (handles {s} a tag_name n r) h =
    take-AllHaveRows n s (handle-IsOrdered a tag_name s) (Reaches-AllHaveRows uuid_of start s r h)
Reaches-AllHaveRows uuid_of start _ (triggers {s} a body n r) h =
    take-AllHaveRows n s (trigger_run-IsOrdered uuid_of a body)
      (Reaches-AllHaveRows uuid_of start s r h)
