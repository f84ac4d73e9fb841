-- ===== src/EventLoop.antt =====
-- yvent/EventLoop.h and yvent/EventLoop.cpp: the loop's thread, the tasks that threads leave for it, and
-- the eventfd that ends its wait. A task is a number. `wakeups` is the counter of the eventfd; `owed`
-- counts the other threads that stand in `addTask` or `quit` before their call of `wakeup`; `phase` is
-- where the loop's thread stands; `batch` is the local vector of `runTasks`; `ran` are the tasks that
-- were run, in order. What handlers and tasks do with the loop is a step of its own, so the calls of
-- handlers themselves are not in the model, nor are the timers, which Timer.antt has.
pub mod Safety
pub mod Wakeup
pub mod Threads
pub mod Timers
use yvent.Prelude.{
  ℕ, zero, suc, ◌+◌, ◌<◌, ◌≡◌, ◌≢◌, List, [], ◌∷◌, ◌++◌, Bool, true, false, not, ◌&&◌, ◌||◌, ltb,
  if◌then◌else◌,
}
use yvent.Fault.{Result, ok, err, ◌>>=◌, ◌>>◌, check}

-- Outside `loop`; in `epoll_wait` or on the way there; in the loop over the channels; in `runTasks`
-- before the swap; in `runTasks` behind it.
pub data Phase : Type 0 where
  idle polling handling swapping draining : Phase

pub record EventLoop : Type 0 where
  pub quitting : Bool
  pub looping : Bool
  pub running_tasks : Bool
  pub tasks : List ℕ
  pub wakeups : ℕ
  pub owed : ℕ
  pub phase : Phase
  pub batch : List ℕ
  pub ran : List ℕ

unfoldable pub make : EventLoop
make = record {
  quitting = false;
  looping = false;
  running_tasks = false;
  tasks = [];
  wakeups = 0;
  owed = 0;
  phase = idle;
  batch = [];
  ran = [];
}

-- The test of `while(!quit_)`.
abbrev pub next_turn : EventLoop → EventLoop
next_turn l =
    if l.quitting then record l { looping = false; phase = idle } else record l { phase = polling }

-- The begin of `loop`.
unfoldable pub start : EventLoop → Result EventLoop
start l = do check (not l.looping); ok (next_turn (record l { looping = true }))

unfoldable pub wakeup : EventLoop → EventLoop
wakeup l = record l { wakeups = l.wakeups + 1 }

abbrev pub push_back : ℕ → EventLoop → EventLoop
push_back task l = record l { tasks = l.tasks ++ task ∷ [] }

-- `addTask` in the loop's thread.
unfoldable pub add_task : ℕ → EventLoop → EventLoop
unfolding wakeup
add_task task l = if l.running_tasks then wakeup (push_back task l) else push_back task l

-- `addTask` in another thread, up to its `wakeup`.
unfoldable pub post_task : ℕ → EventLoop → EventLoop
post_task task l = record (push_back task l) { owed = l.owed + 1 }

-- `quit` in the loop's thread, and in another up to its `wakeup`.
unfoldable pub quit : EventLoop → EventLoop
quit l = record l { quitting = true }

unfoldable pub post_quit : EventLoop → EventLoop
post_quit l = record l { quitting = true; owed = l.owed + 1 }

-- `handleRead`: the read of an eventfd takes the whole counter.
unfoldable pub handle_read : EventLoop → EventLoop
handle_read l = record l { wakeups = 0 }

-- The parts of `runTasks`: up to the lock, the swap, one task, the end.
unfoldable pub begin_tasks : EventLoop → EventLoop
begin_tasks l = record l { running_tasks = true; phase = swapping }

unfoldable pub swap_tasks : EventLoop → EventLoop
swap_tasks l = record l { tasks = []; batch = l.tasks; phase = draining }

unfoldable pub run_front : ℕ → List ℕ → EventLoop → EventLoop
run_front task rest l = record l { batch = rest; ran = l.ran ++ task ∷ [] }

unfoldable pub end_tasks : EventLoop → EventLoop
end_tasks l = next_turn (record l { running_tasks = false })

-- One step of one thread. The loop's thread calls the loop itself before `loop` and behind it, in a handler,
-- or in a task.
pub data Step (l : EventLoop) : EventLoop → Type 0 where
  owner_adds : (task : ℕ) → l.phase ≡ idle → Step l (add_task task l)
  owner_quits : l.phase ≡ idle → Step l (quit l)
  begins : (m : EventLoop) → l.phase ≡ idle → start l ≡ ok m → Step l m
  other_adds : (task : ℕ) → Step l (post_task task l)
  other_quits : Step l (post_quit l)
  other_wakes : (n : ℕ) → l.owed ≡ suc n → Step l (wakeup (record l { owed = n }))
  poll_returns : l.phase ≡ polling → Step l (record l { phase = handling })
  wakeup_handled : l.phase ≡ handling → 0 < l.wakeups → Step l (handle_read l)
  handler_adds : (task : ℕ) → l.phase ≡ handling → Step l (add_task task l)
  handler_quits : l.phase ≡ handling → Step l (quit l)
  tasks_begin : l.phase ≡ handling → Step l (begin_tasks l)
  tasks_swap : l.phase ≡ swapping → Step l (swap_tasks l)
  task_runs :
      (task : ℕ) (rest : List ℕ)
      → l.phase ≡ draining
      → l.batch ≡ task ∷ rest
      → Step l (run_front task rest l)
  task_adds : (task : ℕ) → l.phase ≡ draining → Step l (add_task task l)
  task_quits : l.phase ≡ draining → Step l (quit l)
  tasks_end : l.phase ≡ draining → l.batch ≡ [] → Step l (end_tasks l)

pub data Steps : EventLoop → EventLoop → Type 0 where
  done : (l : EventLoop) → Steps l l
  and_then : {l m n : EventLoop} → Steps l m → Step m n → Steps l n

-- The tasks that a step gives to `addTask`, and those of all steps in their order.
abbrev pub asked : {l m : EventLoop} → Step l m → List ℕ
asked (owner_adds task e) = task ∷ []
asked (other_adds task) = task ∷ []
asked (handler_adds task e) = task ∷ []
asked (task_adds task e) = task ∷ []
asked _ = []

abbrev pub asked_all : {l m : EventLoop} → Steps l m → List ℕ
asked_all (done l) = []
asked_all (and_then t u) = asked_all t ++ asked u

-- Whether the loop's own thread calls `addTask` outside of `loop`, in a step and in any.
abbrev pub adds_outside : {l m : EventLoop} → Step l m → Bool
adds_outside (owner_adds task e) = true
adds_outside _ = false

abbrev pub any_outside : {l m : EventLoop} → Steps l m → Bool
any_outside (done l) = false
any_outside (and_then t u) = adds_outside u || any_outside t
