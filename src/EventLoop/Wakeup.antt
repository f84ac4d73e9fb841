-- ===== src/EventLoop/Wakeup.antt =====
-- What the loop's thread may sleep on, and the order of its tasks.
use yvent.Prelude.{
  ℕ, ◌+◌, ◌<◌, ◌≡◌, ◌≢◌, refl, sym, ap, ◌∙◌, ◌⊎◌, inl, inr, List, [], ◌∷◌, ◌++◌, append-nil,
  append_assoc, Bool, true, false, Bool-cases, ◌||◌,
}
use yvent.EventLoop.{
  owner_adds, owner_quits, begins, asked, asked_all, adds_outside, any_outside, EventLoop, idle,
  polling, handling, make, next_turn, start, wakeup, push_back, add_task, post_task, quit,
  post_quit, handle_read, begin_tasks, swap_tasks, run_front, end_tasks, Step, other_adds,
  other_quits, other_wakes, poll_returns, wakeup_handled, handler_adds, handler_quits, tasks_begin,
  tasks_swap, task_runs, task_adds, task_quits, tasks_end, Steps, done, and_then,
}
use yvent.EventLoop.Safety.{Safe, in_phase, add_quiet, add_waking, start_eq, Step-Safe, Steps-Safe}

-- No wakeup is lost: in every state that the loop and the other threads can reach in any interleaving
-- from a new loop on, before `loop`, in it and behind it, where the loop's thread is about to wait in
-- `epoll_wait` and it is to quit, or tasks are left and the loop's own thread has called `addTask`
-- nowhere but in `loop`, the eventfd is readable or a thread is about to make it so.
pub no_lost_wakeup :
    {m : EventLoop} (t : Steps make m)
    → m.phase ≡ polling
    → ((m.tasks ≢ []) × (any_outside t ≡ false)) ⊎ (m.quitting ≡ true)
    → 0 < m.wakeups + m.owed
no_lost_wakeup {m} t p h =
    let i = in_phase _ m p (Steps-Safe t) in elim h [ inl (n, quiet) ↦ i.2 quiet n | inr q ↦ i.3 q ]

-- A task that the loop's own thread leaves before `loop` wakes nobody up: the loop then waits, with
-- the task there and no wakeup under way.
pub own_task_waits :
    (task : ℕ)
    → (m : EventLoop) × (t : Steps make m) × (m.phase ≡ polling)
      × (m.tasks ≡ task ∷ [])
      × (m.wakeups + m.owed ≡ 0)
unfolding make add_task start
own_task_waits task = (
  _,
  and_then (and_then (done make) (owner_adds task refl)) (begins _ refl refl),
  refl,
  refl,
  refl,
)

-- Everything that was posted: what ran, what is about to run, and what waits.
abbrev pub posted : EventLoop → List ℕ
posted l = l.ran ++ (l.batch ++ l.tasks)

push_posted : (task : ℕ) (l : EventLoop) → posted (push_back task l) ≡ posted l ++ task ∷ []
push_posted task l =
    ap (◌++◌ l.ran) (sym (append_assoc l.batch l.tasks (task ∷ [])))
    ∙ sym (append_assoc l.ran (l.batch ++ l.tasks) (task ∷ []))

-- These later posts and no others, behind what was posted before.
abbrev pub Extends : List ℕ → EventLoop → EventLoop → Type 0
Extends new l m = posted m ≡ posted l ++ new

same_posts : (l m : EventLoop) → posted m ≡ posted l → Extends [] l m
same_posts l m e = e ∙ sym (append-nil (posted l))

add_posted : (task : ℕ) (l : EventLoop) → posted (add_task task l) ≡ posted l ++ task ∷ []
unfolding add_task wakeup
add_posted task l = elim (Bool-cases l.running_tasks) [
  | inl r ↦ rw (add_waking task l r) (push_posted task l)
  | inr r ↦ rw (add_quiet task l r) (push_posted task l)
]

next_turn-posted : (l : EventLoop) → posted (next_turn l) ≡ posted l
next_turn-posted l = elim (Bool-cases l.quitting) [
  | inl q ↦
      let e : next_turn l ≡ record l { looping = false; phase = idle } = simp (q) refl in
      rw (e) refl
  | inr q ↦ let e : next_turn l ≡ record l { phase = polling } = simp (q) refl in rw (e) refl
]

Step-Extends : (o : Bool) {l m : EventLoop} (t : Step l m) → Safe o l → Extends (asked t) l m
unfolding post_task post_quit wakeup handle_read quit begin_tasks swap_tasks run_front end_tasks
Step-Extends o {l} (owner_adds task e) s = add_posted task l
Step-Extends o {l} (owner_quits e) s = same_posts l (quit l) refl
Step-Extends o {l} (begins m e h) s =
    same_posts l m (ap posted (sym (start_eq l h)) ∙ next_turn-posted (record l { looping = true }))
Step-Extends o {l} (other_adds task) s = push_posted task l
Step-Extends o {l} other_quits s = same_posts l (post_quit l) refl
Step-Extends o {l} (other_wakes n e) s = same_posts l (wakeup (record l { owed = n })) refl
Step-Extends o {l} (poll_returns e) s = same_posts l (record l { phase = handling }) refl
Step-Extends o {l} (wakeup_handled e h) s = same_posts l (handle_read l) refl
Step-Extends o {l} (handler_adds task e) s = add_posted task l
Step-Extends o {l} (handler_quits e) s = same_posts l (quit l) refl
Step-Extends o {l} (tasks_begin e) s = same_posts l (begin_tasks l) refl
Step-Extends o {l} (tasks_swap e) s = same_posts l (swap_tasks l) (
    ap (◌++◌ l.ran) (append-nil l.tasks)
    ∙ ap (λ b. l.ran ++ (b ++ l.tasks)) (sym (in_phase o l e s).1))
Step-Extends o {l} (task_runs task rest e b) s =
    same_posts l (run_front task rest l)
      (append_assoc l.ran (task ∷ []) (rest ++ l.tasks) ∙ ap (λ b. l.ran ++ (b ++ l.tasks)) (sym b))
Step-Extends o {l} (task_adds task e) s = add_posted task l
Step-Extends o {l} (task_quits e) s = same_posts l (quit l) refl
Step-Extends o {l} (tasks_end e b) s =
    same_posts l (end_tasks l) (next_turn-posted (record l { running_tasks = false }))

Safe-Steps : (o : Bool) {m n : EventLoop} (u : Steps m n) → Safe o m → (p : Bool) × Safe p n
Safe-Steps o (done m) s = (o, s)
Safe-Steps o (and_then u v) s =
    let (p, h) = Safe-Steps o u s in (adds_outside v || p, Step-Safe p v h)

Safe-Extends : (o : Bool) {m n : EventLoop} (u : Steps m n) → Safe o m → Extends (asked_all u) m n
Safe-Extends o (done m) s = same_posts m m refl
Safe-Extends o {m} (and_then u v) s =
    Step-Extends _ v (Safe-Steps o u s).1
    ∙ ap (λ ps. ps ++ asked v) (Safe-Extends o u s)
    ∙ append_assoc (posted m) (asked_all u) (asked v)

-- Tasks run once each and in the order in which they were posted: from any state that a new loop
-- reaches, every interleaving leaves what was posted before as it is and in order, split into what
-- ran, what is about to run and what waits, with the tasks of the calls of `addTask` in between behind
-- it, once each and in the order of the calls.
pub Steps-Extends : {m n : EventLoop} (t : Steps make m) (u : Steps m n) → Extends (asked_all u) m n
Steps-Extends t u = Safe-Extends _ u (Steps-Safe t)
