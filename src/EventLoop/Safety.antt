-- ===== src/EventLoop/Safety.antt =====
-- What holds of a loop in each phase of its thread, so that it does not sleep on what was left for it.
use mathlib.Core.Path.{subst}
use yvent.Prelude.{
  ℕ, ◌+◌, ◌<◌, ◌≡◌, ◌≢◌, refl, inl, inr, List, [], Bool, true, false, Bool-cases, ◌||◌, arith,
}
use yvent.Fault.{ok, err, assertion}
use yvent.EventLoop.{
  owner_adds, owner_quits, begins, adds_outside, any_outside, EventLoop, Phase, idle, polling,
  handling, swapping, draining, make, next_turn, start, wakeup, push_back, add_task, post_task,
  quit, post_quit, handle_read, begin_tasks, swap_tasks, run_front, end_tasks, Step, other_adds,
  other_quits, other_wakes, poll_returns, wakeup_handled, handler_adds, handler_quits, tasks_begin,
  tasks_swap, task_runs, task_adds, task_quits, tasks_end, Steps, done, and_then,
}

-- What must hold of a phase: `signals` counts the wakeups that came or will come; `outside` says that the
-- loop's own thread has left a task outside of `loop`, which wakes nobody up.
abbrev pub IsSafe : Bool → Phase → (running quitting : Bool) → List ℕ → List ℕ → ℕ → Type 0
IsSafe outside idle running quitting tasks batch signals =
    (running ≡ false) × (batch ≡ []) × (outside ≡ false → tasks ≢ [] → 0 < signals)
IsSafe outside polling running quitting tasks batch signals =
    (running ≡ false)
    × (batch ≡ [])
    × (outside ≡ false → tasks ≢ [] → 0 < signals)
    × (quitting ≡ true → 0 < signals)
IsSafe outside handling running quitting tasks batch signals = (running ≡ false) × (batch ≡ [])
IsSafe outside swapping running quitting tasks batch signals = (running ≡ true) × (batch ≡ [])
IsSafe outside draining running quitting tasks batch signals =
    (running ≡ true) × (tasks ≢ [] → 0 < signals)

abbrev pub Safe : Bool → EventLoop → Type 0
Safe o l = IsSafe o l.phase l.running_tasks l.quitting l.tasks l.batch (l.wakeups + l.owed)

-- More signals do no harm, whatever the other fields that another thread changes become.
more_signals :
    (o : Bool) (p : Phase) (r q s : Bool) (ts us b : List ℕ) (m n : ℕ)
    → 0 < n
    → IsSafe o p r q ts b m
    → IsSafe o p r s us b n
more_signals o idle r q s ts us b m n h i = (i.0, i.1, λ _ _. h)
more_signals o polling r q s ts us b m n h i = (i.0, i.1, λ _ _. h, λ _. h)
more_signals o handling r q s ts us b m n h i = i
more_signals o swapping r q s ts us b m n h i = i
more_signals o draining r q s ts us b m n h i = (i.0, λ _. h)

pub in_phase :
    (o : Bool) {p : Phase} (l : EventLoop)
    → l.phase ≡ p
    → Safe o l
    → IsSafe o p l.running_tasks l.quitting l.tasks l.batch (l.wakeups + l.owed)
in_phase o l e s = rw⁻¹ e s

pub at_phase :
    (o : Bool) {p : Phase} (l : EventLoop)
    → l.phase ≡ p
    → IsSafe o p l.running_tasks l.quitting l.tasks l.batch (l.wakeups + l.owed)
    → Safe o l
at_phase o l e i = rw e i

pub add_quiet :
    (task : ℕ) (l : EventLoop) → l.running_tasks ≡ false → add_task task l ≡ push_back task l
unfolding add_task
add_quiet task l e = simp (e) refl

pub add_waking :
    (task : ℕ) (l : EventLoop)
    → l.running_tasks ≡ true
    → add_task task l ≡ wakeup (push_back task l)
unfolding add_task
add_waking task l e = simp (e) refl

-- The next turn of the loop, where nothing is left to do unsignalled.
pub next_turn-Safe :
    (o : Bool) (l : EventLoop)
    → l.running_tasks ≡ false
    → l.batch ≡ []
    → (o ≡ false → l.tasks ≢ [] → 0 < l.wakeups + l.owed)
    → Safe o (next_turn l)
next_turn-Safe o l r b t = elim (Bool-cases l.quitting) [
  | inl q ↦
      let e : next_turn l ≡ record l { looping = false; phase = idle } = simp (q) refl in
      rw (e) (r, b, t)
  | inr q ↦
      let e : next_turn l ≡ record l { phase = polling } = simp (q) refl in
      rw (e) (r, b, t, λ h. absurd cc)
]

pub start_eq :
    (l : EventLoop) {m : EventLoop} → start l ≡ ok m → next_turn (record l { looping = true }) ≡ m
unfolding start
start_eq l {m} e = elim (Bool-cases l.looping) [
  | inl q ↦ let w : err assertion ≡ ok m = rw (start, q) at e in absurd cc
  | inr q ↦ let w : ok (next_turn (record l { looping = true })) ≡ ok m = rw (start, q) at e in cc
]

-- Every step keeps the loop safe, from the flag on that the step itself may raise.
pub Step-Safe :
    (o : Bool) {l m : EventLoop} (t : Step l m) → Safe o l → Safe (adds_outside t || o) m
unfolding post_task post_quit wakeup handle_read add_task quit begin_tasks swap_tasks run_front
    end_tasks
Step-Safe o {l} (owner_adds task e) s =
    let i = in_phase o l e s in
    rw (add_quiet task l i.0) (at_phase _ (push_back task l) e (i.0, i.1, λ h. absurd cc))
Step-Safe o {l} (owner_quits e) s = let i = in_phase o l e s in at_phase _ (quit l) e i
Step-Safe o {l} (begins m e h) s =
    let i = in_phase o l e s in
    subst (λ n. Safe o n) (start_eq l h)
      (next_turn-Safe o (record l { looping = true }) i.0 i.1 i.2)
Step-Safe o {l} (other_adds task) s =
    more_signals o l.phase l.running_tasks l.quitting l.quitting l.tasks _ l.batch _ _ (omega arith)
      s
Step-Safe o {l} other_quits s =
    more_signals o l.phase l.running_tasks l.quitting true l.tasks l.tasks l.batch _ _ (omega arith)
      s
Step-Safe o {l} (other_wakes n e) s =
    more_signals o l.phase l.running_tasks l.quitting l.quitting l.tasks l.tasks l.batch _ _
      (omega arith) s
Step-Safe o {l} (poll_returns e) s = let i = in_phase o l e s in (i.0, i.1)
Step-Safe o {l} (wakeup_handled e h) s = let i = in_phase o l e s in at_phase _ (handle_read l) e i
Step-Safe o {l} (handler_adds task e) s =
    let i = in_phase o l e s in rw (add_quiet task l i.0) (at_phase _ (push_back task l) e i)
Step-Safe o {l} (handler_quits e) s = let i = in_phase o l e s in at_phase _ (quit l) e i
Step-Safe o {l} (tasks_begin e) s = let i = in_phase o l e s in (refl, i.1)
Step-Safe o {l} (tasks_swap e) s = let i = in_phase o l e s in (i.0, λ n. absurd (n refl))
Step-Safe o {l} (task_runs task rest e b) s =
    let i = in_phase o l e s in at_phase _ (run_front task rest l) e i
Step-Safe o {l} (task_adds task e) s =
    let i = in_phase o l e s in
    rw (add_waking task l i.0) (at_phase _ (wakeup (push_back task l)) e (i.0, λ _. omega arith))
Step-Safe o {l} (task_quits e) s = let i = in_phase o l e s in at_phase _ (quit l) e i
Step-Safe o {l} (tasks_end e b) s =
    let i = in_phase o l e s in
    next_turn-Safe o (record l { running_tasks = false }) refl b (λ _. i.1)

pub make-Safe : Safe false make
unfolding make
make-Safe = (refl, refl, λ _ n. absurd (n refl))

pub Steps-Safe : {m : EventLoop} (t : Steps make m) → Safe (any_outside t) m
Steps-Safe (done l) = make-Safe
Steps-Safe (and_then t u) = Step-Safe _ u (Steps-Safe t)
