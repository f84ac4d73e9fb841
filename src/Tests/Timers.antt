-- ===== src/Tests/Timers.antt =====
-- Examples of the theorems on timers.
use yvent.Prelude.{
  leb, ◌≡◌, if◌then◌else◌, ℕ, suc, ◌+◌, ◌*◌, ◌≤◌, ◌<◌, refl, ◌⊎◌, List, [], ◌∷◌, ◌++◌, false, ◌==◌,
  none, arith,
}
use yvent.Fault.{Returns}
use yvent.Timer.{
  Timer, TimerQueue, Program, done, add, cancel_then, entry, before, lookup, get_expired, set_timer,
  handle_read, delete_all,
}
use yvent.Timer.Sound.{IsSound}
use yvent.Timer.Calls.{Fresh}
use yvent.Timer.Expiry.{due, set_timer_lem}
use yvent.Timer.Batch.{Misused, Ran, handle_read-Ran}
use yvent.Timer.Quiet.{Quiet, running}
use yvent.Timer.Runs.{handle_read_lem}
use yvent.Timer.Order.{count}
use yvent.EventLoop.Timers.{run_at, run_after, run_every}
use yvent.EventLoop.Timers.Ahead.{run-due}
use yvent.Timer.Destruct.{delete_all-heap}

-- The state of the user is a counter.
abbrev Memory : Type 0
Memory = List (ℕ × Timer ℕ)

abbrev total : Memory → ℕ
total [] = 0
total (c ∷ h) = c.0 + total h

abbrev next_address : Memory → ℕ
next_address h = suc (total h)

above : (p : ℕ) (h : Memory) → total h < p → lookup p h ≡ none
unfolding lookup
above p [] l = refl
above p (c ∷ h) l = let e : (p == c.0) ≡ false = ground arith in rw e (above p h (omega arith))

next_address-Fresh : Fresh next_address
next_address-Fresh h = above (next_address h) h (omega arith)

abbrev counts : ℕ → Program ℕ
counts n = done (suc n)

-- It adds a timer, and counts its runs.
abbrev adds : ℕ → Program ℕ
adds n = add 7 12 0 counts (λ p. done (suc n))

-- It cancels the timer that is due behind it.
abbrev cancels : ℕ → Program ℕ
cancels n = cancel_then 2 (done n)

abbrev timer : (ℕ → Program ℕ) → ℕ → ℕ → Timer ℕ
timer callback when interval = record {
  when = when;
  callback = callback;
  interval = interval;
  repeats = interval == 10;
  canceled = false;
}

abbrev queue : (ℕ → Program ℕ) → TimerQueue ℕ
queue callback = record {
  timers = entry 5 1 ∷ entry 6 2 ∷ entry 9 3 ∷ [];
  heap = (1, timer callback 5 10) ∷ (2, timer counts 6 0) ∷ (3, timer counts 9 0) ∷ [];
  armed = none;
  state = 0;
  ran = [];
}

queue-IsSound : (callback : ℕ → Program ℕ) → IsSound [] (queue callback)
unfolding before lookup
queue-IsSound callback = record {
  sorted = ((refl, (refl, tt)), ((refl, tt), (tt, tt)));
  keyed_batch = tt;
  keyed = (
    (timer callback 5 10, refl, refl),
    ((timer counts 6 0, refl, refl), ((timer counts 9 0, refl, refl), tt)),
  );
  counted = λ p. ground arith;
}

queue-Quiet : Quiet (queue adds).heap
unfolding lookup
queue-Quiet p t e s = ground arith

handle_read-Ran_example :
    Misused next_address (get_expired 7 (queue cancels)).0 (get_expired 7 (queue cancels)).1
    ⊎ Returns
        (Ran next_address (due 7 (queue cancels).timers) (queue cancels))
        (handle_read next_address 7 8 (queue cancels))
handle_read-Ran_example =
    handle_read-Ran next_address next_address-Fresh 7 8 (queue cancels) (queue-IsSound cancels)

handle_read_example :
    Returns
      (λ r.
        IsSound [] r
        × Quiet r.heap
        × (r.ran ≡ [] ++ running (queue adds).heap (due 7 (queue adds).timers)))
      (handle_read next_address 7 8 (queue adds))
handle_read_example =
    handle_read_lem next_address next_address-Fresh 7 8 (queue adds) (queue-IsSound adds)
      queue-Quiet

delete_all-heap_example :
    Returns (λ r. (p : ℕ) → lookup p r.heap ≡ none) (delete_all (queue adds).timers (queue adds))
delete_all-heap_example = delete_all-heap (queue adds) (queue-IsSound adds)

run-due_example :
    (let r = run_at next_address 2 20 counts (queue cancels) in
      count r.0 (get_expired 30 r.1).0 ≡ (if leb 20 30 then 1 else 0))
    × (let r = run_after next_address 1 2 40 counts (queue cancels) in
        count r.0 (get_expired 30 r.1).0 ≡ (if leb (1 + 40) 30 then 1 else 0))
    × (let r = run_every next_address 1 2 40 counts (queue cancels) in
        count r.0 (get_expired 30 r.1).0 ≡ (if leb (1 + 40) 30 then 1 else 0))
run-due_example =
    run-due next_address next_address-Fresh 30 1 2 20 40 counts (queue cancels)
      (queue-IsSound cancels)

set_timer_example :
    ((set_timer 10 3000000010).1 < 1000000000)
    × (1000000 ≤ (set_timer 10 3000000010).0 * 1000000000 + (set_timer 10 3000000010).1)
    × (10 + 1000000 ≤ 3000000010
        → 10 + ((set_timer 10 3000000010).0 * 1000000000 + (set_timer 10 3000000010).1)
          ≡ 3000000010)
    × (3000000010 < 10 + 1000000
        → (set_timer 10 3000000010).0 * 1000000000 + (set_timer 10 3000000010).1 ≡ 1000000)
set_timer_example = set_timer_lem 10 3000000010
