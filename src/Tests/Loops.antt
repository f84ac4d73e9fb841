-- ===== src/Tests/Loops.antt =====
-- Examples of the theorems on the loop, its timers, its channels and the pool.
use yvent.Prelude.{
  ℕ, ◌+◌, ◌<◌, ◌≡◌, inl, refl, ap, [], ◌∷◌, true, false, ◌==◌, if◌then◌else◌, Option, none, some,
  arith,
}
use yvent.Fault.{ok, err, assertion, Returns, ◌>>=◌}
use yvent.Connector
use yvent.Connector.{in_progress}
use yvent.Connector.Outcomes.{heard, handle_write_lem, start_at_once}
use yvent.Channel.{Channel, new, deleted}
use yvent.Poll.{Op, ctl_add, ctl_mod, ctl_del, update_channel}
use yvent.Poll.Sync.{Epoll, issue, Follows, changed, update_channel-InSync, update_channel_lost}
use yvent.EventLoop.{
  EventLoop, make, start, Steps, done, and_then, begins, other_adds, idle, polling, post_task,
  asked_all, any_outside,
}
use yvent.EventLoop.Threads.{
  Threads, put, construct, gettid, is_in_loop_thread, destroy, constructs,
}
use yvent.EventLoop.Threads
use yvent.EventLoop.Threads.Owners.{one_loop_per_thread}
use yvent.EventLoop.Wakeup.{Extends, no_lost_wakeup, Steps-Extends}

-- A kernel is what it watches each descriptor for.
abbrev Watches : Type 0
Watches = ℕ → Option ℕ

abbrev set : ℕ → Option ℕ → Watches → Watches
set fd v k x = if x == fd then v else k x

abbrev ctl_known : Op → ℕ → ℕ → Watches → Option ℕ → Option Watches
ctl_known ctl_add fd ev k none = some (set fd (some ev) k)
ctl_known ctl_add fd ev k (some old) = none
ctl_known ctl_mod fd ev k none = none
ctl_known ctl_mod fd ev k (some old) = some (set fd (some ev) k)
ctl_known ctl_del fd ev k none = none
ctl_known ctl_del fd ev k (some old) = some (set fd none k)

abbrev watched : Watches → ℕ → Option ℕ
watched k fd = k fd

abbrev ctl : Op → ℕ → ℕ → Watches → Option Watches
ctl op fd ev k = ctl_known op fd ev k (watched k fd)

set-watched : (fd : ℕ) (v : Option ℕ) (k : Watches) → watched (set fd v k) fd ≡ v
set-watched fd v k = let e : (fd == fd) ≡ true = ground arith in rw e refl

not_short : (op : Op) (k : Watches) (fd ev : ℕ) → false ≡ true → ctl op fd ev k ≡ none
not_short op k fd ev s = absurd cc

abbrev kernel : Epoll
kernel = record {
  Kernel = Watches;
  watched = watched;
  ctl = ctl;
  short = λ op fd k. false;
  short_fails = not_short;
  add_fresh = λ k fd ev h s.
      (set fd (some ev) k, ap (ctl_known ctl_add fd ev k) h, set-watched fd (some ev) k);
  mod_known = λ k fd ev old h s.
      (set fd (some ev) k, ap (ctl_known ctl_mod fd ev k) h, set-watched fd (some ev) k);
  del_known =
      λ k fd ev old h s. (set fd none k, ap (ctl_known ctl_del fd ev k) h, set-watched fd none k);
  mod_missing = λ k fd ev h. ap (ctl_known ctl_mod fd ev k) h;
  del_missing = λ k fd ev h. ap (ctl_known ctl_del fd ev k) h;
}

abbrev nobody : Watches
nobody fd = none

abbrev fresh_channel : Channel
fresh_channel = record { fd = 4; events = 0; revents = 0; state = new }

abbrev removed_channel : Channel
removed_channel = record { fd = 4; events = 0; revents = 0; state = deleted }

update_channel-InSync_example :
    Returns
      (λ r. Follows kernel r.1 r.0 nobody × (r.0.events ≡ 3))
      (update_channel (changed kernel fresh_channel 3))
update_channel-InSync_example =
    update_channel-InSync kernel fresh_channel nobody 3 new refl refl (λ e. cc) (λ e z. omega arith)

lost_example :
    Returns
      (λ r. (r.0.events ≡ 3) × (watched (issue kernel r.1 r.0 nobody) r.0.fd ≡ none))
      (update_channel (changed kernel removed_channel 3))
lost_example =
    update_channel_lost kernel removed_channel nobody 3 refl (refl, refl) (λ z. omega arith)

-- Another thread posts a task before the loop begins, and one when it waits.
abbrev before_loop : EventLoop
before_loop = record {
  quitting = false;
  looping = false;
  running_tasks = false;
  tasks = 4 ∷ [];
  wakeups = 0;
  owed = 1;
  phase = idle;
  batch = [];
  ran = [];
}

abbrev waiting_loop : EventLoop
waiting_loop = record before_loop { looping = true; phase = polling }

abbrev later_loop : EventLoop
later_loop = record waiting_loop { tasks = 4 ∷ 5 ∷ []; owed = 2 }

posts : Steps make before_loop
unfolding make post_task
posts = and_then (done make) (other_adds 4)

posts_and_begins : Steps make waiting_loop
unfolding start
posts_and_begins = and_then posts (begins waiting_loop refl refl)

posts_again : Steps waiting_loop later_loop
unfolding post_task
posts_again = and_then (done waiting_loop) (other_adds 5)

none_outside : any_outside posts_and_begins ≡ false
unfolding posts_and_begins posts
none_outside = refl

no_lost_wakeup_example : 0 < waiting_loop.wakeups + waiting_loop.owed
no_lost_wakeup_example = no_lost_wakeup posts_and_begins refl (inl ((λ e. cc), none_outside))

Steps-Extends_example : Extends (asked_all posts_again) waiting_loop later_loop
Steps-Extends_example = Steps-Extends posts_and_begins posts_again

connector_handle_write_example :
    Returns
      (λ c. (c.calls ≡ heard 111) × (c.connected ≡ (111 == 0)) × (c.channel.state ≡ deleted))
      (Connector.start (some in_progress) 0 (Connector.make 5 true true)
        >>= Connector.handle_write 111)
connector_handle_write_example = handle_write_lem 5 0 111

start_at_once_example : Connector.start none 0 (Connector.make 5 true true) ≡ err assertion
start_at_once_example = start_at_once 5 0 none true true (λ e. cc)

-- A thread with a loop.
abbrev with_loop : Threads
with_loop = record {
  event_loop = put 7 (some 1) (λ t. none);
  cached_tid = put 7 7 (λ t. 0);
  tid = put 1 (some 7) (λ l. none);
}

with_loop-Steps : Threads.Steps with_loop
unfolding construct gettid is_in_loop_thread
with_loop-Steps = Threads.and_then Threads.start (constructs 7 1 (λ e. omega arith) refl refl)

one_loop_per_thread_example :
    (with_loop.event_loop 7 ≡ some 1)
    × ((is_in_loop_thread 8 1 with_loop).0 ≡ (7 == 8))
    × (construct true 7 2 with_loop ≡ err assertion)
    × (destroy 8 1 with_loop ≡ (
        if 7 == 8
        then ok (record with_loop {
          event_loop = put 8 none with_loop.event_loop;
          tid = put 1 none with_loop.tid;
        })
        else err assertion))
one_loop_per_thread_example = one_loop_per_thread 1 7 8 2 with_loop-Steps refl
