-- ===== src/Pool/Tests.antt =====
-- Sample runs of the theorems about the pool.
use cartesi_release_validati.Prelude.{◌≡◌, refl, true, [], arith}
use cartesi_release_validati.Pool.{empty_pool, acquire, release, wait_for_slot}
use cartesi_release_validati.Pool.Capacity.{IsValid, release-acquire}

one_taken : (acquire 2 "s1" "r1" empty_pool).1 ≡ true
unfolding acquire
one_taken = refl

release-acquire_example :
    ((release 2 "s1" (acquire 2 "s1" "r1" empty_pool).0).active ≡ [])
    × ((wait_for_slot 2 (release 2 "s1" (acquire 2 "s1" "r1" empty_pool).0)).1 ≡ true)
release-acquire_example = release-acquire 2 "s1" "r1" empty_pool refl one_taken

empty_pool-IsValid : IsValid 2 empty_pool
empty_pool-IsValid = record { bounded = omega arith; distinct = tt; awake = λ h. cc }
