-- ===== src/Manager/Frame.antt =====
-- Invariants of the steps of `_handle`: a rule for each combinator, and from them for the whole body.
use cartesi_release_validati.Prelude.{
  ℕ, ◌≡◌, refl, Bool, true, false, String, Option, none, some, if◌then◌else◌,
}
use cartesi_release_validati.Manager.Wait.{WaitEnd, query_raised, wait_for_tests}
use cartesi_release_validati.Manager.Effects.{
  SandboxStatus, provisioning, ready, Effect, upsert, publish, provision, set_app_address,
  Exception, error, cancelled, Result, return, raise, World, State, Task, get, modify, pure, throw,
  handled, except_error, ◌>>=◌, ◌>>◌, and_then, logged, outcome, perform, is_removal,
}
use cartesi_release_validati.Manager.{
  Request, set_status, store_ready, mark_provisioned, upsert_status, upsert_ready, report_failure,
  await_node, await_tests, set_address, await_end, serve, settle, try_provision, body, guarded,
}

module _ (P : State → Type 0) where
  -- What holds before a task holds after it, on every way out.
  pub record Keeps {A : Type 0} (m : Task A) : Type 0 where
    pub kept : (s : State) → P s → P (m s).1

  pub pure-Keeps : {A : Type 0} (a : A) → Keeps (pure a)
  unfolding pure
  pure-Keeps a = record { kept = λ s h. h }

  pub throw-Keeps : {A : Type 0} (e : Exception) → Keeps (throw {A = A} e)
  unfolding throw
  throw-Keeps e = record { kept = λ s h. h }

  pub get-Keeps : Keeps get
  unfolding get
  get-Keeps = record { kept = λ s h. h }

  pub modify-Keeps : (f : State → State) → ((s : State) → P s → P (f s)) → Keeps (modify f)
  unfolding modify
  modify-Keeps f h = record { kept = h }

  pub >>=-Keeps :
      {A B : Type 0} (m : Task A) (f : A → Task B)
      → Keeps m
      → ((a : A) → Keeps (f a))
      → Keeps (m >>= f)
  unfolding ◌>>=◌ throw
  >>=-Keeps m f h k = record { kept = λ s p. go (m s).0 (m s).1 (h.kept s p) }
    where
      go : (r : Result _) (t : State) → P t → P (and_then r f t).1
      go (return a) t p = (k a).kept t p
      go (raise x) t p = p

  pub >>-Keeps : {A B : Type 0} (m : Task A) (n : Task B) → Keeps m → Keeps n → Keeps (m >> n)
  unfolding ◌>>◌
  >>-Keeps m n h k = record { kept = (>>=-Keeps m (λ _. n) h (λ _. k)).kept }

  -- The handler starts from where the body stopped.
  pub except_error-from :
      {A : Type 0} (m h : Task A) (s : State) → P (m s).1 → Keeps h → P (except_error m h s).1
  unfolding except_error pure throw
  except_error-from m h s p q = go (m s).0 (m s).1 p
    where
      go : (r : Result _) (t : State) → P t → P (handled h r t).1
      go (return a) t b = b
      go (raise error) t b = q.kept t b
      go (raise cancelled) t b = b

  pub except_error-Keeps :
      {A : Type 0} (m h : Task A) → Keeps m → Keeps h → Keeps (except_error m h)
  except_error-Keeps m h p q = record { kept = λ s b. except_error-from m h s (p.kept s b) q }

  pub if-Keeps :
      {A : Type 0} (b : Bool) (m n : Task A)
      → (b ≡ true → Keeps m)
      → (b ≡ false → Keeps n)
      → Keeps (if b then m else n)
  if-Keeps true m n p q = p refl
  if-Keeps false m n p q = q refl

  -- The hypotheses say which changes of the state the property survives.
  module _ (logs : (e : Effect) (s : State) → is_removal e ≡ false → P s → P (logged e s))
      (relabels : (st : SandboxStatus) (s : State) → P s → P (set_status st s))
      (marks : (s : State) → P s → P (mark_provisioned s)) where
    pub perform-Keeps :
        (world : World) (e : Effect) → is_removal e ≡ false → Keeps (perform world e)
    unfolding perform
    perform-Keeps world e h = record { kept = λ s p. go (world.raises e) s p }
      where
        go : (o : Option Exception) (s : State) → P s → P (outcome o e s).1
        go none s p = logs e s h p
        go (some x) s p = logs e s h p

    ruleset frame = (
      perform-Keeps, pure-Keeps, throw-Keeps, get-Keeps, modify-Keeps, >>=-Keeps, >>-Keeps,
      except_error-Keeps, if-Keeps,
    )

    upsert_status-Keeps : (world : World) (st : SandboxStatus) → Keeps (upsert_status world st)
    unfolding upsert_status
    upsert_status-Keeps world st =
        >>-Keeps _ _ (perform-Keeps world (upsert st) refl)
          (modify-Keeps (set_status st) (relabels st))

    pub report_failure-Keeps : (world : World) → Keeps (report_failure world)
    unfolding report_failure upsert_status
    report_failure-Keeps world = search (frame, relabels) depth 8

    await_node-Keeps : (world : World) (msg : Request) → Keeps (await_node world msg)
    unfolding await_node
    await_node-Keeps world msg = search frame depth 8

    try_provision-Keeps : (world : World) → Keeps (try_provision world)
    unfolding try_provision
    try_provision-Keeps world =
        except_error-Keeps _ _
          (>>-Keeps _ _ (perform-Keeps world provision refl)
            (>>-Keeps _ _ (modify-Keeps mark_provisioned marks) (pure-Keeps false)))
          (>>-Keeps _ _ (report_failure-Keeps world) (pure-Keeps true))

    set_address-Keeps : (world : World) (a : Option String) → Keeps (set_address world a)
    unfolding set_address
    set_address-Keeps world none = pure-Keeps tt
    set_address-Keeps world (some a) = perform-Keeps world set_app_address refl

    await_tests-Keeps : (grace : ℕ) (world : World) → Keeps (await_tests grace world)
    unfolding await_tests await_end
    await_tests-Keeps grace world =
        go (wait_for_tests grace world.ai_session_run world.polls 7200).0
      where
        go : (e : WaitEnd) → Keeps (await_end e)
        go query_raised = throw-Keeps error
        go _ = pure-Keeps tt

    pub settle-Keeps :
        (grace : ℕ) (world : World) (msg : Request)
        → (world.cancelled_after ≡ false → Keeps (serve grace world))
        → Keeps (settle grace world msg)
    unfolding settle
    settle-Keeps grace world msg later = search (frame, later, await_node-Keeps) depth 8

    -- `serve` runs only where the run was not cancelled after the provisioning.
    pub guarded-Keeps :
        (grace : ℕ) (world : World) (msg : Request)
        → (world.cancelled_after ≡ false → Keeps (serve grace world))
        → Keeps (guarded grace world msg)
    unfolding guarded body
    guarded-Keeps grace world msg later =
        except_error-Keeps _ _
          (if-Keeps _ _ _ (λ _. pure-Keeps tt)
            (λ _. >>-Keeps _ _ (upsert_status-Keeps world provisioning) (
              >>-Keeps _ _ (perform-Keeps world (publish provisioning) refl) (
                >>=-Keeps _ _ (try_provision-Keeps world) λ stopped.
                  if-Keeps stopped _ _ (λ _. pure-Keeps tt)
                    (λ _. settle-Keeps grace world msg later)))))
          (report_failure-Keeps world)

    pub serve-Keeps :
        (grace : ℕ) (world : World)
        → ((s : State) → P s → P (store_ready world s))
        → Keeps (serve grace world)
    unfolding serve upsert_ready
    serve-Keeps grace world stores =
        >>-Keeps _ _
          (>>-Keeps _ _ (perform-Keeps world (upsert ready) refl)
            (modify-Keeps (store_ready world) stores))
          (>>-Keeps _ _ (set_address-Keeps world world.info.app_address) (
            >>-Keeps _ _ (perform-Keeps world (publish ready) refl)
              (await_tests-Keeps grace world)))
