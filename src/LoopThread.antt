-- ===== src/LoopThread.antt =====
-- yvent/EventLoopThread.h and yvent/EventLoopThread.cpp: a thread with a loop of its own, and the call that
-- starts it and waits until the loop is there. The caller's thread and the new one take steps in any order. The
-- new thread never takes the mutex, so the mutex alone keeps nobody waiting, and is left out. The loop is
-- known by its address, and runs until it is told to quit, by the destructor or by anybody else who has it,
-- such as a callback; what it does until then is in EventLoop.antt. The test of `loop_` in the destructor and
-- the call behind it are one step.
pub mod Agreement
pub mod Handshake
use yvent.Prelude.{ℕ, ◌≡◌, Bool, true, false, Option, none, some}

-- The thread that uses the object: it has not called `starLoop`; is in it, before the test of the `while`,
-- behind a test that failed, or asleep in `wait`; has a loop back; is in the destructor before `join`, or
-- behind it.
pub data Caller : Type 0 where
  outside testing deciding waiting : Caller
  returned : ℕ → Caller
  joining joined : Caller

-- The new thread: not there yet; before it sets `loop_`; before `notify_all`; in `loop`; at its end.
pub data Worker : Type 0 where
  absent spawned published looping ended : Worker

pub record EventLoopThread : Type 0 where
  pub loop : Option ℕ
  pub start : Bool
  pub quitting : Bool
  pub caller : Caller
  pub worker : Worker

-- The constructor. The callback that it is given is kept, and nothing calls it.
unfoldable pub make : EventLoopThread
make = record { loop = none; start = false; quitting = false; caller = outside; worker = absent }

-- `starLoop` up to its wait: the new thread is there.
unfoldable pub star_loop : EventLoopThread → EventLoopThread
star_loop t = record t { start = true; caller = testing; worker = spawned }

-- The test of the `while`; with a loop, `starLoop` returns it.
unfoldable pub test_loop : EventLoopThread → EventLoopThread
test_loop t = elim t.loop [
  | none ↦ record t { caller = deciding }
  | some p ↦ record t { caller = returned p }
]

unfoldable pub wait : EventLoopThread → EventLoopThread
wait t = record t { caller = waiting }

-- `threadFunc`: the loop is there, the notification, and the end of `loop`.
unfoldable pub publish : ℕ → EventLoopThread → EventLoopThread
publish addr t = record t { loop = some addr; worker = published }

abbrev pub woken : Caller → Caller
woken waiting = testing
woken c = c

unfoldable pub notify_all : EventLoopThread → EventLoopThread
notify_all t = record t { caller = woken t.caller; worker = looping }

unfoldable pub leave_loop : EventLoopThread → EventLoopThread
leave_loop t = record t { loop = none; worker = ended }

-- The destructor of a thread that was started, up to `join`.
unfoldable pub tell_quit : EventLoopThread → EventLoopThread
tell_quit t = elim t.loop [
  | none ↦ record t { caller = joining }
  | some p ↦ record t { quitting = true; caller = joining }
]

-- `EventLoop::quit`, called by somebody else.
unfoldable pub quit_loop : EventLoopThread → EventLoopThread
quit_loop t = record t { quitting = true }

unfoldable pub join : EventLoopThread → EventLoopThread
join t = record t { caller = joined }

-- One step of one of the two threads.
pub data Step (addr : ℕ) (t : EventLoopThread) : EventLoopThread → Type 0 where
  starts : t.caller ≡ outside → t.start ≡ false → t.loop ≡ none → Step addr t (star_loop t)
  tests : t.caller ≡ testing → Step addr t (test_loop t)
  waits : t.caller ≡ deciding → Step addr t (wait t)
  publishes : t.worker ≡ spawned → Step addr t (publish addr t)
  notifies : t.worker ≡ published → Step addr t (notify_all t)
  ends : t.worker ≡ looping → t.quitting ≡ true → Step addr t (leave_loop t)
  quits : (p : ℕ) → t.caller ≡ returned p → Step addr t (tell_quit t)
  joins : t.caller ≡ joining → t.worker ≡ ended → Step addr t (join t)

-- What can be reached from a new object. A `wait` may also end without a notification, and a loop that is
-- there may be told to quit by others, once `starLoop` has returned it: before, nobody else has it, since
-- a new loop calls nothing but its own handler of wakeups.
pub data Reach (addr : ℕ) : EventLoopThread → Type 0 where
  new : Reach addr make
  step : {t u : EventLoopThread} → Reach addr t → Step addr t u → Reach addr u
  spurious :
      {t : EventLoopThread}
      → Reach addr t
      → t.caller ≡ waiting
      → Reach addr (record t { caller = testing })
  told :
      {t : EventLoopThread} (p : ℕ)
      → Reach addr t
      → t.caller ≡ returned p
      → t.loop ≡ some p
      → Reach addr (quit_loop t)
