-- ===== src/LogBuffer.antt =====
-- services/sandbox-manager/log_buffer.py: LogBatchBuffer. A text is the list of its code points. The
-- lock makes each of `add_entry` and `drain` one step; the callback gets the drained batch outside
-- the lock, as a step of its own. The timer thread and the threads that append interleave them.
mod Tests
pub mod Delivery
use cartesi_release_validati.Prelude.{
  ℕ, zero, suc, ◌+◌, ◌-◌, ◌*◌, ◌/◌, ◌%◌, ◌≤◌, ◌<◌, min, max, ◌≡◌, refl, sym, ap, ◌∙◌, ◌≢◌, ◌↔◌, ◌⊎◌,
  inl, inr, Bool, true, false, not, ◌&&◌, ◌||◌, String, Option, none, some, List, [], ◌∷◌, ◌++◌,
  map, append-nil, append_assoc, arith, eq_iff, eq_refl, str_eq, if◌then◌else◌, ltb, leb, ◌==◌,
  ==_iff, ltb→lt, lt→ltb, leb→le, Bool-cases, Option-cases, length, take, drop, keep, count, all,
  any, All, length-append, length-take, length-drop, take-append-drop, count-le-length,
  count-append, lookup, has_key, insert, remove, HasDistinctKeys,
}
use cartesi_release_validati.Prelude.Pick.{pick}

pub record Entry : Type 0 where
  pub source : List ℕ
  pub level : List ℕ
  pub message : List ℕ
  pub ts : ℕ

-- `drained` are the batches that a thread has taken out but not yet passed to `flush_cb`, the oldest
-- first, and `handed` those passed to it, in this order; times are in milliseconds.
pub record Buffer : Type 0 where
  pub lines : List Entry
  pub last_flush : ℕ
  pub drained : List (List Entry)
  pub handed : List (List Entry)
  pub stopped : Bool

abbrev pub new_buffer : ℕ → Buffer
new_buffer now = record { lines = []; last_flush = now; drained = []; handed = []; stopped = false }

unfoldable pub make_entry : List ℕ → List ℕ → List ℕ → ℕ → Entry
make_entry source level message ts = record {
  source = take 64 source;
  level = level;
  message = take 4096 message;
  ts = ts;
}

-- The locked part of `append`: the new buffer, and whether it is time to flush.
unfoldable pub add_entry : ℕ → Entry → Buffer → Buffer × Bool
add_entry max_lines entry b =
    let lines = b.lines ++ (entry ∷ []) in
    (record b { lines = lines }, leb max_lines (length lines))

-- The locked part of `_do_flush`.
unfoldable pub drain : ℕ → Buffer → Buffer
drain now b =
    if length b.lines == 0
    then b
    else record b { lines = []; last_flush = now; drained = b.drained ++ (b.lines ∷ []) }

abbrev pub hand_over : Option (List Entry × List (List Entry)) → Buffer → Buffer
hand_over none b = b
hand_over (some (batch, rest)) b = record b { drained = rest; handed = b.handed ++ (batch ∷ []) }

-- The call of `flush_cb` in the thread that holds the drained batch at this index. An exception of
-- the callback is swallowed, so the result is the same with it.
unfoldable pub deliver : ℕ → Buffer → Buffer
deliver index b = hand_over (pick index b.drained) b

-- `_do_flush` in a thread that nothing interrupts: its batch is the last drained one.
unfoldable pub do_flush : ℕ → Buffer → Buffer
unfolding drain deliver
do_flush now b = deliver (length b.drained) (drain now b)

-- `append` in a thread that nothing interrupts.
unfoldable pub append : ℕ → List ℕ → List ℕ → List ℕ → ℕ → Buffer → Buffer
unfolding make_entry add_entry do_flush
append max_lines source level message now b =
    let (after, flush_now) = add_entry max_lines (make_entry source level message now) b in
    if flush_now then do_flush now after else after

-- `flush`, `stop` and one turn of `_timer_loop` that the stop event has not ended, up to the callback.
unfoldable pub flush : ℕ → Buffer → Buffer
flush now b = drain now b

unfoldable pub stop : ℕ → Buffer → Buffer
stop now b = drain now (record b { stopped = true })

unfoldable pub timer_turn : ℕ → ℕ → Buffer → Buffer
unfolding drain
timer_turn max_age now b =
    if b.stopped then b else (if leb max_age (now - b.last_flush) then drain now b else b)
