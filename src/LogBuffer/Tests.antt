-- ===== src/LogBuffer/Tests.antt =====
-- Sample runs of the theorems about the log buffer.
use cartesi_release_validati.Prelude.{ℕ, refl, List, [], ◌∷◌}
use cartesi_release_validati.LogBuffer.{Entry, new_buffer}
use cartesi_release_validati.LogBuffer.Delivery.{
  IsSplit, Step, add, flush_at, tick_at, deliver_at, take_steps, added, take_steps-IsSplit,
}

abbrev entry : ℕ → Entry
entry n = record { source = []; level = []; message = n ∷ []; ts = n }

-- The timer's batch is overtaken by the explicit flush's.
abbrev steps : List Step
steps =
    add (entry 1)
    ∷ tick_at 900
    ∷ add (entry 2)
    ∷ flush_at 901
    ∷ deliver_at 1
    ∷ deliver_at 0
    ∷ add (entry 3)
    ∷ []

new_buffer-IsSplit : IsSplit (new_buffer 0) []
new_buffer-IsSplit = record { batches = []; whole = refl; once = λ p. refl }

take_steps-IsSplit_example : IsSplit (take_steps 50 500 steps (new_buffer 0)) (added 50 500 steps)
take_steps-IsSplit_example = take_steps-IsSplit 50 500 steps (new_buffer 0) [] new_buffer-IsSplit
