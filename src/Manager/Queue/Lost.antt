-- ===== src/Manager/Queue/Lost.antt =====
-- services/sandbox-manager/consumers/sandbox_queue.py, `run`: the messages under interleavings.
use cartesi_release_validati.Prelude.{
  Option, none, some, ℕ, ◌+◌, ◌≡◌, refl, ap, ◌∙◌, inl, inr, false, String, List, [], ◌∷◌, ◌++◌,
  arith, Bool-cases, length, length-append, has_key,
}
use cartesi_release_validati.Prelude.Dict.{length-insert}
use cartesi_release_validati.Pool.{Metadata, active_count, acquire, wait_for_slot}
use cartesi_release_validati.Pool.Capacity.{
  IsValid, acquire-IsValid, release-IsValid, wait_for_slot-IsValid,
}
use cartesi_release_validati.Prelude.Pick.{length-pick, pick}
use cartesi_release_validati.Manager.Queue.{
  Holder, Consumer, Event, receive, claim_slot, give_back, step, run, receive_next, claim_next,
  release_next,
}

-- How many messages there are, wherever they stand.
abbrev pub messages : Consumer → ℕ
messages c =
    length c.waiting + length c.started + length c.holding + length c.closed + length c.lost

module _ (max_sandboxes : ℕ) where
  receive-messages :
      (l : List String) (c : Consumer)
      → c.waiting ≡ l
      → messages (receive_next max_sandboxes l c) ≡ messages c
  unfolding receive_next
  receive-messages [] c e = refl
  receive-messages (r ∷ rest) c e = ground (arith, ap length e, length-append c.started (r ∷ []))

  claim-messages :
      (sandbox_id : String) (n : ℕ) (c : Consumer)
      → messages (claim_next max_sandboxes sandbox_id (pick n c.started) c) ≡ messages c
  unfolding claim_next
  claim-messages sandbox_id n c = go (pick n c.started) refl
    where
      go :
          (o : Option (String × List String))
          → pick n c.started ≡ o
          → messages (claim_next max_sandboxes sandbox_id o c) ≡ messages c
      go none e = refl
      go (some (r, rest)) e =
          let h : Holder = record { run_id = r; sandbox_id = sandbox_id } in
          ground (
            arith,
            length-pick n c.started r rest e,
            length-append c.holding (h ∷ []),
            length-append c.lost (r ∷ []),
          )

  release-messages :
      (n : ℕ) (c : Consumer)
      → messages (release_next max_sandboxes (pick n c.holding) c) ≡ messages c
  unfolding release_next
  release-messages n c = go (pick n c.holding) refl
    where
      go :
          (o : Option (Holder × List Holder))
          → pick n c.holding ≡ o
          → messages (release_next max_sandboxes o c) ≡ messages c
      go none e = refl
      go (some (h, rest)) e =
          ground (arith, length-pick n c.holding h rest e, length-append c.closed (h.run_id ∷ []))

  step-messages : (e : Event) (c : Consumer) → messages (step max_sandboxes e c) ≡ messages c
  unfolding step
  step-messages receive c = receive-messages c.waiting c refl
  step-messages (claim_slot index sandbox_id) c = claim-messages sandbox_id index c
  step-messages (give_back index) c = release-messages index c

  receive-IsValid :
      (l : List String) (c : Consumer)
      → IsValid max_sandboxes c.pool
      → IsValid max_sandboxes (receive_next max_sandboxes l c).pool
  unfolding receive_next
  receive-IsValid [] c v = v
  receive-IsValid (r ∷ rest) c v =
      let kept = (wait_for_slot-IsValid max_sandboxes c.pool v).0 in
      elim (Bool-cases (wait_for_slot max_sandboxes c.pool).1) [
        | inl free ↦ rw free kept
        | inr full ↦ rw full kept
      ]

  claim-IsValid :
      (sandbox_id : String) (l : Option (String × List String)) (c : Consumer)
      → IsValid max_sandboxes c.pool
      → IsValid max_sandboxes (claim_next max_sandboxes sandbox_id l c).pool
  unfolding claim_next
  claim-IsValid sandbox_id none c v = v
  claim-IsValid sandbox_id (some (r, rest)) c v =
      let kept = acquire-IsValid max_sandboxes sandbox_id r c.pool v in
      elim (Bool-cases (acquire max_sandboxes sandbox_id r c.pool).1) [
        | inl took ↦ rw took kept
        | inr full ↦ rw full kept
      ]

  release_next-IsValid :
      (l : Option (Holder × List Holder)) (c : Consumer)
      → IsValid max_sandboxes c.pool
      → IsValid max_sandboxes (release_next max_sandboxes l c).pool
  unfolding release_next
  release_next-IsValid none c v = v
  release_next-IsValid (some (h, rest)) c v =
      release-IsValid max_sandboxes h.sandbox_id h.run_id c.pool v

  step-IsValid :
      (e : Event) (c : Consumer)
      → IsValid max_sandboxes c.pool
      → IsValid max_sandboxes (step max_sandboxes e c).pool
  unfolding step
  step-IsValid receive c v = receive-IsValid c.waiting c v
  step-IsValid (claim_slot index sandbox_id) c v =
      claim-IsValid sandbox_id (pick index c.started) c v
  step-IsValid (give_back index) c v = release_next-IsValid (pick index c.holding) c v

  -- If the pool is valid, then after every interleaving of the consumer loop with its tasks, of
  -- which any may reach `acquire` or `release` next, it is valid, so at most `max_sandboxes`
  -- sandboxes hold slots, and there are as many messages as before: waiting, in a started task,
  -- with a slot, closed, or lost.
  pub run_keeps :
      (es : List Event) (c : Consumer)
      → IsValid max_sandboxes c.pool
      → IsValid max_sandboxes (run max_sandboxes es c).pool
        × (messages (run max_sandboxes es c) ≡ messages c)
  unfolding run
  run_keeps [] c v = (v, refl)
  run_keeps (e ∷ es) c v =
      let (valid, same) = run_keeps es (step max_sandboxes e c) (step-IsValid e c v) in
      (valid, same ∙ step-messages e c)

  receive_claim :
      (sandbox_id : String) (l : List String) (c : Consumer)
      → c.started ≡ []
      → let t = receive_next max_sandboxes l c in
        ((claim_next max_sandboxes sandbox_id (pick 0 t.started) t).started ≡ [])
        × ((claim_next max_sandboxes sandbox_id (pick 0 t.started) t).lost ≡ c.lost)
  unfolding receive_next wait_for_slot claim_next acquire pick
  receive_claim sandbox_id [] c e = ground arith
  receive_claim sandbox_id (r ∷ rest) c e = ground arith

  -- While each task reaches `acquire` before the loop takes the next message, none is lost.
  pub receive_claim_keeps :
      (sandbox_id : String) (c : Consumer)
      → c.started ≡ []
      → ((run max_sandboxes (receive ∷ claim_slot 0 sandbox_id ∷ []) c).started ≡ [])
        × ((run max_sandboxes (receive ∷ claim_slot 0 sandbox_id ∷ []) c).lost ≡ c.lost)
  unfolding run step
  receive_claim_keeps sandbox_id c none_started = receive_claim sandbox_id c.waiting c none_started

  -- With just one slot free, no task started and two messages waiting, if the loop takes both
  -- before their tasks reach `acquire`, and the first task's sandbox id is new, then the second
  -- message is lost: it is acknowledged and its task gets no slot.
  pub second_message_lost :
      (first second sandbox_id sandbox_id' : String) (rest : List String) (c : Consumer)
      → c.waiting ≡ first ∷ second ∷ rest
      → c.started ≡ []
      → active_count c.pool + 1 ≡ max_sandboxes
      → has_key sandbox_id c.pool.active ≡ false
      → (run max_sandboxes
          (receive ∷ receive ∷ claim_slot 0 sandbox_id ∷ claim_slot 0 sandbox_id' ∷ [])
          c).lost
        ≡ c.lost ++ (second ∷ [])
  unfolding run step receive_next claim_next wait_for_slot acquire pick
  second_message_lost first second sandbox_id sandbox_id' rest c two none_started room fresh =
      let entry : Metadata = record { run_id = first; sandbox_id = sandbox_id } in
      ground (arith, length-insert sandbox_id entry c.pool.active)
