-- ===== src/EventLoop/Timers.antt =====
-- The timers of a loop in yvent/EventLoop.cpp, in the loop's thread: `runAt`, `runAfter`, `runEvery` and
-- `cancelTimer`. `clock` is the reading of the clock in the call and `now` that in `setTimer`.
pub mod Ahead
use yvent.Prelude.{ℕ, ◌+◌, List}
use yvent.Fault.{Result}
use yvent.Timer
use yvent.Timer.{Timer, TimerQueue, Program, add_timer}

module _ {S : Type 0} (alloc : List (ℕ × Timer S) → ℕ) where
  unfoldable pub run_at : (now when : ℕ) → (S → Program S) → TimerQueue S → ℕ × TimerQueue S
  unfolding add_timer
  run_at now when callback q = (alloc q.heap, add_timer alloc now when 0 callback q)

  unfoldable pub run_after :
      (clock now interval : ℕ) → (S → Program S) → TimerQueue S → ℕ × TimerQueue S
  unfolding add_timer
  run_after clock now interval callback q =
      (alloc q.heap, add_timer alloc now (clock + interval) 0 callback q)

  unfoldable pub run_every :
      (clock now interval : ℕ) → (S → Program S) → TimerQueue S → ℕ × TimerQueue S
  unfolding add_timer
  run_every clock now interval callback q =
      (alloc q.heap, add_timer alloc now (clock + interval) interval callback q)

unfoldable pub cancel_timer : {S : Type 0} → ℕ → TimerQueue S → Result (TimerQueue S)
unfolding Timer.cancel_timer
cancel_timer p q = Timer.cancel_timer p q
