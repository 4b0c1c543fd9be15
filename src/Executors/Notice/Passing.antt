-- ===== src/Executors/Notice/Passing.antt =====
-- When the notice check passes.
use cartesi_release_validati.Prelude.{
  ℕ, zero, suc, ◌+◌, ◌≤◌, ◌<◌, ◌≡◌, refl, ◌⊎◌, inl, inr, Bool, true, false, ◌&&◌, ◌||◌, String,
  Option, none, some, List, arith, ltb, ◌==◌, ltb→lt, Bool-cases, all,
}
use Prim.Native.Char.{Char}
use cartesi_release_validati.Runner.{AssertionResult, Execution, returned}
use cartesi_release_validati.Executors.{count_before_result, count_after_result}
use cartesi_release_validati.Executors.Notice.{
  Poll, NoticeCheck, Counts, before_or, seen, is_enough, count_seen, found, gave_up, timed_out,
  poll_from, execute,
}

-- The execution has returned results that have all passed, or of which one has not.
pub record Returns (ok : Bool) (r : Option Execution) : Type 0 where
  pub results : List AssertionResult
  pub returns : r ≡ some (returned results)
  pub verdict : all (λ i. i.passed) results ≡ ok

first_or_later : (n j : ℕ) → n ≤ j → (j ≡ n) ⊎ (suc n ≤ j)
first_or_later n j h = elim (Bool-cases (ltb n j)) [
  | inl l ↦ inr (ltb→lt n j l)
  | inr g ↦ inl (ground arith)
]

module _ (decode : String → Option (List Char)) (str : ℕ → String) (check : NoticeCheck) where
  -- What was counted before is too little, or there was nothing.
  is_low : Option ℕ → Bool
  is_low none = true
  is_low (some b) = ltb b check.min_count || b == 0

  count_seen-low :
      (o : Option ℕ) (c : Counts)
      → is_enough decode str check o ≡ false
      → is_low c.before ≡ true
      → is_low (count_seen decode str check o c).before ≡ true
  unfolding is_enough count_seen is_low
  count_seen-low none c h low = low
  count_seen-low (some n) c h low = by_before c.before low
    where
      by_before : (b : Option ℕ) → is_low b ≡ true → is_low (some (before_or b n)) ≡ true
      by_before none l = ground arith
      by_before (some b) l = l

  found-Returns :
      (o : Option ℕ) (c : Counts)
      → is_enough decode str check o ≡ true
      → is_low c.before ≡ true
      → Returns true (some (found decode str check (count_seen decode str check o c)))
  unfolding is_enough count_seen is_low found count_before_result count_after_result
  found-Returns none c h low = ground arith
  found-Returns (some n) c h low = record {
    results = _;
    returns = refl;
    verdict = by_before c.before low;
  }
    where
      by_before :
          (b : Option ℕ)
          → is_low b ≡ true
          → (true
              && (true
                  && ((count_after_result str "notices" (before_or b n) n false).passed && true)))
            ≡ true
      by_before none l = ground arith
      by_before (some b) l = ground arith

  gave_up-Returns :
      (before : Option ℕ) (last : ℕ) → Returns false (some (gave_up decode str check before last))
  unfolding gave_up timed_out count_before_result
  gave_up-Returns none last = record { results = _; returns = refl; verdict = refl }
  gave_up-Returns (some b) last = record { results = _; returns = refl; verdict = refl }

  -- The loop from turn n on ends at turn k: it gets enough there, or the time is over.
  pub record EndsAt (polls : ℕ → Poll) (n : ℕ) (r : Option Execution) (k : ℕ) : Type 0 where
    pub from : n ≤ k
    pub earlier_in_time : (j : ℕ) → n ≤ j → j < k → (polls j).now < check.poll_timeout
    pub earlier_too_few :
        (j : ℕ)
        → n ≤ j
        → j < k
        → is_enough decode str check (seen decode str check (polls j).answer) ≡ false
    pub ending :
        (((polls k).now < check.poll_timeout)
          × ((is_enough decode str check (seen decode str check (polls k).answer) ≡ true)
              × Returns true r))
        ⊎ ((check.poll_timeout ≤ (polls k).now) × Returns false r)

  late :
      (polls : ℕ → Poll)
      → ((n : ℕ) → (polls n).now < (polls (suc n)).now)
      → (n : ℕ) → n ≤ (polls n).now
  late polls clock zero = omega arith
  late polls clock (suc n) = omega (arith, late polls clock n, clock n)

  after_turn : (ℕ → Poll) → ℕ → Counts → Counts
  after_turn polls n c = count_seen decode str check (seen decode str check (polls n).answer) c

  poll_from-over :
      (polls : ℕ → Poll) (fuel n : ℕ) (c : Counts)
      → ltb (polls n).now check.poll_timeout ≡ false
      → poll_from decode str check polls (suc fuel) n c
        ≡ some (gave_up decode str check c.before c.last)
  unfolding poll_from
  poll_from-over polls fuel n c over = ground arith

  poll_from-found :
      (polls : ℕ → Poll) (fuel n : ℕ) (c : Counts)
      → ltb (polls n).now check.poll_timeout ≡ true
      → is_enough decode str check (seen decode str check (polls n).answer) ≡ true
      → poll_from decode str check polls (suc fuel) n c
        ≡ some (found decode str check (after_turn polls n c))
  unfolding poll_from after_turn
  poll_from-found polls fuel n c in_time sufficient = ground arith

  poll_from-next :
      (polls : ℕ → Poll) (fuel n : ℕ) (c : Counts)
      → ltb (polls n).now check.poll_timeout ≡ true
      → is_enough decode str check (seen decode str check (polls n).answer) ≡ false
      → poll_from decode str check polls (suc fuel) n c
        ≡ poll_from decode str check polls fuel (suc n) (after_turn polls n c)
  unfolding poll_from after_turn
  poll_from-next polls fuel n c in_time few = ground arith

  -- A turn that goes on, in front of the loop's end.
  EndsAt-earlier :
      (polls : ℕ → Poll) (n k : ℕ) (r : Option Execution)
      → (polls n).now < check.poll_timeout
      → is_enough decode str check (seen decode str check (polls n).answer) ≡ false
      → EndsAt polls (suc n) r k
      → EndsAt polls n r k
  EndsAt-earlier polls n k r in_time few e = record {
    from = omega (arith, e.from);
    earlier_in_time = λ j h l. elim (first_or_later n j h) [
      | inl same ↦ rw same in_time
      | inr later ↦ e.earlier_in_time j later l
    ];
    earlier_too_few = λ j h l. elim (first_or_later n j h) [
      | inl same ↦ rw same few
      | inr later ↦ e.earlier_too_few j later l
    ];
    ending = e.ending;
  }

  poll_from-EndsAt :
      (polls : ℕ → Poll) (fuel n : ℕ) (c : Counts)
      → ((m : ℕ) → (polls m).now < (polls (suc m)).now)
      → is_low c.before ≡ true
      → n ≤ check.poll_timeout
      → check.poll_timeout < n + fuel
      → (k : ℕ) × EndsAt polls n (poll_from decode str check polls fuel n c) k
  unfolding after_turn
  poll_from-EndsAt polls zero n c clock low here enough = let no : ⊥ = omega arith in elim no [ ]
  poll_from-EndsAt polls (suc fuel) n c clock low here enough =
      elim (Bool-cases (ltb (polls n).now check.poll_timeout)) [
        | inl in_time ↦
            elim (Bool-cases
              (is_enough decode str check (seen decode str check (polls n).answer))) [
                | inl sufficient ↦ rw (poll_from-found polls fuel n c in_time sufficient) (
                  n,
                  record {
                    from = omega arith;
                    earlier_in_time = λ j h l. let no : ⊥ = omega arith in elim no [ ];
                    earlier_too_few = λ j h l. let no : ⊥ = omega arith in elim no [ ];
                    ending =
                        inl (ltb→lt _ _ in_time, (sufficient, found-Returns _ c sufficient low));
                  },
                )
                | inr few ↦
                    let soon : suc n ≤ check.poll_timeout =
                      omega (arith, ltb→lt _ _ in_time, late polls clock n) in
                    let (k, e) =
                      poll_from-EndsAt polls fuel (suc n) (after_turn polls n c) clock
                        (count_seen-low (seen decode str check (polls n).answer) c few low) soon
                        (omega arith) in
                    rw (poll_from-next polls fuel n c in_time few)
                      (k, EndsAt-earlier polls n k _ (ltb→lt _ _ in_time) few e)
              ]
        | inr over ↦ rw (poll_from-over polls fuel n c over) (
          n,
          record {
            from = omega arith;
            earlier_in_time = λ j h l. let no : ⊥ = omega arith in elim no [ ];
            earlier_too_few = λ j h l. let no : ⊥ = omega arith in elim no [ ];
            ending = inr (ground arith, gave_up-Returns c.before c.last);
          },
        )
      ]

  -- If the clock advances between the turns and the fuel exceeds the timeout, the notice check
  -- ends: at the first turn in time that sees at least one and at least min_count matching
  -- notices, with results that have all passed, or at the first turn after the timeout, with one
  -- that has not.
  pub execute-EndsAt :
      (polls : ℕ → Poll) (fuel : ℕ)
      → ((n : ℕ) → (polls n).now < (polls (suc n)).now)
      → check.poll_timeout < fuel
      → (k : ℕ) × EndsAt polls 0 (execute decode str check polls fuel) k
  unfolding execute is_low
  execute-EndsAt polls fuel clock enough =
      poll_from-EndsAt polls fuel 0 (record { before = none; last = 0 }) clock refl (omega arith)
        (omega arith)
