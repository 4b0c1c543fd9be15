-- ===== src/Manager/Effects.antt =====
-- The state, the effects and the exceptions of one `_handle` task.
use cartesi_release_validati.Prelude.{
  ℕ, Bool, true, false, String, Option, none, some, List, [], ◌∷◌, ◌++◌,
}
use cartesi_release_validati.Pool.{SandboxPool}
use cartesi_release_validati.Manager.Wait.{Poll}

pub data SandboxStatus : Type 0 where
  provisioning ready failed closed : SandboxStatus

-- The awaited calls that may raise.
pub data Effect : Type 0 where
  upsert publish : SandboxStatus → Effect
  provision wait_for_v2_ready ready_delay set_app_address : Effect
  read_row docker_teardown mark_closed : Effect

-- `cancelled` is asyncio.CancelledError, which `except Exception` lets pass.
pub data Exception : Type 0 where
  error cancelled : Exception

pub data Result (A : Type 0) : Type 0 where
  return : A → Result A
  raise : Exception → Result A

-- What provisioning hands back, as far as `_handle` looks at it.
pub record Info : Type 0 where
  pub container_ids : List String
  pub app_address : Option String

-- The row of sandbox.sandboxes.
pub record Row : Type 0 where
  pub status : SandboxStatus
  pub container_ids : List String

pub record World : Type 0 where
  pub raises : Effect → Option Exception
  pub info : Info
  pub cancelled_before : Bool
  pub cancelled_after : Bool
  pub ai_session_run : Bool
  pub polls : ℕ → Poll

-- `provisioned` is the local variable sandbox_provisioned.
pub record State : Type 0 where
  pub pool : SandboxPool
  pub port_offset_counter : ℕ
  pub provisioned : Bool
  pub row : Option Row
  pub trace : List Effect

abbrev pub Task : Type 0 → Type 0
Task A = State → Result A × State

unfoldable pub get : Task State
get s = (return s, s)

unfoldable pub modify : (State → State) → Task (Unit {0})
modify f s = (return tt, f s)

module _ {A : Type 0} where
  unfoldable pub pure : A → Task A
  pure a s = (return a, s)

  unfoldable pub throw : Exception → Task A
  throw e s = (raise e, s)

  -- `try: body` / `except Exception: handler`.
  abbrev pub handled : Task A → Result A → Task A
  handled handler (return a) = pure a
  handled handler (raise error) = handler
  handled handler (raise cancelled) = throw cancelled

  unfoldable pub except_error : Task A → Task A → Task A
  except_error body handler s = let (r, after) = body s in handled handler r after

  -- `try: body` / `finally: cleanup`. An exception of the cleanup takes the place of the result.
  unfoldable pub finally : Task A → Task (Unit {0}) → Task A
  finally body cleanup s =
      let (r, after) = body s in
      let (c, last) = cleanup after in elim c [ raise e ↦ (raise e, last) | return _ ↦ (r, last) ]

module _ {A B : Type 0} where
  abbrev pub and_then : Result A → (A → Task B) → Task B
  and_then (return a) f = f a
  and_then (raise e) f = throw e

  infixl 5 ◌>>=◌ ◌>>◌
  unfoldable pub ◌>>=◌ : Task A → (A → Task B) → Task B
  m >>= f = λ s. let (r, after) = m s in and_then r f after

  unfoldable pub ◌>>◌ : Task A → Task B → Task B
  unfolding ◌>>=◌
  m >> n = m >>= λ _. n

-- An awaited call is recorded, and then raises if the world says so.
unfoldable pub logged : Effect → State → State
logged effect s = record s { trace = s.trace ++ (effect ∷ []) }

abbrev pub outcome : Option Exception → Effect → Task (Unit {0})
outcome none effect s = (return tt, logged effect s)
outcome (some e) effect s = (raise e, logged effect s)

unfoldable pub perform : World → Effect → Task (Unit {0})
perform world effect s = outcome (world.raises effect) effect s

abbrev pub is_removal : Effect → Bool
is_removal docker_teardown = true
is_removal _ = false
