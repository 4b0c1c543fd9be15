-- ===== src/LogBuffer/Delivery.antt =====
-- services/sandbox-manager/log_buffer.py: the lines under interleaved steps of the threads.
use cartesi_release_validati.Prelude.{
  false, ℕ, ◌+◌, ◌-◌, ◌≡◌, refl, sym, ap, ◌∙◌, inl, inr, Bool, true, Option, none, some, List, [],
  ◌∷◌, ◌++◌, append-nil, append_assoc, arith, leb, ◌==◌, Bool-cases, length, count, count-append,
  if◌then◌else◌,
}
use cartesi_release_validati.Prelude.Pick.{pick, count-pick}
use cartesi_release_validati.LogBuffer.{
  Entry, Buffer, add_entry, drain, hand_over, deliver, flush, stop, timer_turn,
}

abbrev pub concat {ℓ} : {A : Type ℓ} → List (List A) → List A
concat [] = []
concat (xs ∷ xss) = xs ++ concat xss

concat-append {ℓ} :
    {A : Type ℓ} (xss : List (List A)) (xs : List A) → concat (xss ++ (xs ∷ [])) ≡ concat xss ++ xs
concat-append [] xs = append-nil xs
concat-append (ys ∷ xss) xs = rw (concat-append xss xs) (sym (append_assoc ys (concat xss) xs))

-- The lines that reached the buffer, in order, split into batches in the order in which they were
-- drained, with the buffered ones after them. Each batch was passed to the callback or is held by a
-- thread that is about to do so, and as often as it was drained.
pub record IsSplit (b : Buffer) (entries : List Entry) : Type 0 where
  pub batches : List (List Entry)
  pub whole : concat batches ++ b.lines ≡ entries
  pub once : (p : List Entry → Bool) → count p b.handed + count p b.drained ≡ count p batches

-- A step of some thread. The timer tests the age before it takes the lock: a thread that is late to drain
-- is a `flush_at`, as is one whose `append` has filled the buffer.
pub data Step : Type 0 where
  add : Entry → Step
  flush_at tick_at stop_at : (now : ℕ) → Step
  deliver_at : (index : ℕ) → Step

module _ (max_lines max_age : ℕ) where
  unfoldable pub take_step : Step → Buffer → Buffer
  unfolding add_entry flush timer_turn stop deliver
  take_step (add entry) b = (add_entry max_lines entry b).0
  take_step (flush_at now) b = flush now b
  take_step (tick_at now) b = timer_turn max_age now b
  take_step (stop_at now) b = stop now b
  take_step (deliver_at index) b = deliver index b

  unfoldable pub take_steps : List Step → Buffer → Buffer
  take_steps [] b = b
  take_steps (s ∷ ss) b = take_steps ss (take_step s b)

  abbrev pub added : List Step → List Entry
  added [] = []
  added (add entry ∷ ss) = entry ∷ added ss
  added (_ ∷ ss) = added ss

  drain-IsSplit :
      (now : ℕ) (b : Buffer) (entries : List Entry)
      → IsSplit b entries
      → IsSplit (drain now b) entries
  unfolding drain
  drain-IsSplit now b entries i = elim (Bool-cases (length b.lines == 0)) [
    | inl none_left ↦ rw none_left i
    | inr some_left ↦ rw some_left (record {
      batches = i.batches ++ (b.lines ∷ []);
      whole = append-nil _ ∙ concat-append i.batches b.lines ∙ i.whole;
      once = λ p. omega (
        arith,
        i.once p,
        count-append p b.drained (b.lines ∷ []),
        count-append p i.batches (b.lines ∷ []),
      );
    })
  ]

  deliver-IsSplit :
      (index : ℕ) (b : Buffer) (entries : List Entry)
      → IsSplit b entries
      → IsSplit (deliver index b) entries
  unfolding deliver
  deliver-IsSplit index b entries i = go (pick index b.drained) refl
    where
      go :
          (o : Option (List Entry × List (List Entry)))
          → pick index b.drained ≡ o
          → IsSplit (hand_over o b) entries
      go none e = i
      go (some (batch, rest)) e = record {
        batches = i.batches;
        whole = i.whole;
        once = λ p. omega (
          arith,
          i.once p,
          count-append p b.handed (batch ∷ []),
          count-pick p index b.drained batch rest e,
        );
      }

  take_step-IsSplit :
      (s : Step) (b : Buffer) (entries : List Entry)
      → IsSplit b entries
      → IsSplit (take_step s b) (entries ++ added (s ∷ []))
  unfolding take_step add_entry flush timer_turn stop
  take_step-IsSplit (add entry) b entries i = record {
    batches = i.batches;
    whole =
        sym (append_assoc (concat i.batches) b.lines (entry ∷ []))
        ∙ ap (λ es. es ++ (entry ∷ [])) i.whole;
    once = i.once;
  }
  take_step-IsSplit (flush_at now) b entries i =
      rw (append-nil entries) (drain-IsSplit now b entries i)
  take_step-IsSplit (tick_at now) b entries i =
      rw (append-nil entries) (of_tests b.stopped (leb max_age (now - b.last_flush)))
    where
      of_tests :
          (stopped old : Bool)
          → IsSplit (if stopped then b else (if old then drain now b else b)) entries
      of_tests true old = i
      of_tests false true = drain-IsSplit now b entries i
      of_tests false false = i
  take_step-IsSplit (stop_at now) b entries i =
      let same : IsSplit (record b { stopped = true }) entries = record {
        batches = i.batches;
        whole = i.whole;
        once = i.once;
      } in
      rw (append-nil entries) (drain-IsSplit now (record b { stopped = true }) entries same)
  take_step-IsSplit (deliver_at index) b entries i =
      rw (append-nil entries) (deliver-IsSplit index b entries i)

  added-cons : (s : Step) (ss : List Step) → added (s ∷ ss) ≡ added (s ∷ []) ++ added ss
  added-cons (add entry) ss = refl
  added-cons (flush_at now) ss = refl
  added-cons (tick_at now) ss = refl
  added-cons (stop_at now) ss = refl
  added-cons (deliver_at index) ss = refl

  -- If the lines so far are, in order, some batches with the buffered lines after them, and each
  -- batch was passed to the callback or is held by a thread, as often as it is among them, then
  -- this holds of these lines and those added, after every interleaving of appending threads,
  -- explicit flushes, stops, the timer and the callback's calls, which each thread makes outside
  -- the lock: no line is lost or repeated. In which order the callback gets the batches is left
  -- open.
  pub take_steps-IsSplit :
      (ss : List Step) (b : Buffer) (entries : List Entry)
      → IsSplit b entries
      → IsSplit (take_steps ss b) (entries ++ added ss)
  unfolding take_steps
  take_steps-IsSplit [] b entries i = rw (append-nil entries) i
  take_steps-IsSplit (s ∷ ss) b entries i =
      let whole = added-cons s ss in
      rw (whole, ← append_assoc entries (added (s ∷ [])) (added ss))
        (take_steps-IsSplit ss (take_step s b) (entries ++ added (s ∷ []))
          (take_step-IsSplit s b entries i))
