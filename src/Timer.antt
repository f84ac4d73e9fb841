-- ===== src/Timer.antt =====
-- yvent/Timer.h, yvent/Timer.cpp, yvent/TimerQueue.h and yvent/TimerQueue.cpp: the timers of a loop, as
-- the loop's thread works on them. Times are nanoseconds since the epoch, intervals are not negative.
--
-- `heap` holds the timers that `new` made and no `delete` destroyed, at their addresses; `alloc` is what
-- `new` answers. The set `timers_` is the list of its entries in increasing order. `armed` is what
-- `timerfd_settime` was last given. A callback is a program that works on the state of the user and may add
-- and cancel timers; it learns the address of each timer that it adds. An empty callback is one that does
-- nothing. The timers that ran are listed in `ran`.
pub mod Heap
pub mod Order
pub mod Sound
pub mod Calls
pub mod Expiry
pub mod Batch
pub mod Quiet
pub mod Runs
pub mod Destruct
use yvent.Prelude.{
  ℕ, ◌+◌, ◌-◌, ◌/◌, ◌%◌, List, [], ◌∷◌, ◌++◌, Bool, true, false, not, ◌&&◌, ◌||◌, ltb, ◌==◌,
  if◌then◌else◌, Option, none, some,
}
use yvent.Fault.{Result, ok, err, dangling, ◌>>=◌, ◌>>◌, check}

-- The calls that a callback makes: `add_timer` with the reading of the clock in that call, the time, the
-- interval and the callback of the new timer, and then what is done with its address; `cancel_timer`; the
-- end, with the new state of the user.
pub data Program (S : Type 0) : Type 0 where
  done : S → Program S
  add : (now when interval : ℕ) → (S → Program S) → (ℕ → Program S) → Program S
  cancel_then : ℕ → Program S → Program S

pub record Timer (S : Type 0) : Type 0 where
  pub when : ℕ
  pub callback : S → Program S
  pub interval : ℕ
  pub repeats : Bool
  pub canceled : Bool

-- An element of `timers_`: the time and the address of a timer.
pub record Entry : Type 0 where
  pub key : ℕ
  pub timer : ℕ

pub record TimerQueue (S : Type 0) : Type 0 where
  pub timers : List Entry
  pub heap : List (ℕ × Timer S)
  pub armed : Option (ℕ × ℕ)
  pub state : S
  pub ran : List ℕ

abbrev pub entry : ℕ → ℕ → Entry
entry key timer = record { key = key; timer = timer }

-- The order of `std::pair<TimePoint, Timer*>`.
unfoldable pub before : Entry → Entry → Bool
before s t = ltb s.key t.key || s.key == t.key && ltb s.timer t.timer

abbrev pub same : Entry → Entry → Bool
same s t = s.key == t.key && s.timer == t.timer

-- `std::set::insert`: an entry with the same key stays as it is.
unfoldable pub insert : Entry → List Entry → List Entry
unfolding before
insert t [] = t ∷ []
insert t (s ∷ ts) =
    let rest = insert t ts in
    if before t s then t ∷ s ∷ ts else if before s t then s ∷ rest else s ∷ ts

-- `std::set::find` and `erase`.
unfoldable pub has : Entry → List Entry → Bool
has t [] = false
has t (s ∷ ts) = let rest = has t ts in if same s t then true else rest

unfoldable pub erase : Entry → List Entry → List Entry
erase t [] = []
erase t (s ∷ ts) = let rest = erase t ts in if same s t then ts else s ∷ rest

-- Whether the entry that was inserted is the first of the set.
abbrev pub is_first : Entry → List Entry → Bool
is_first t [] = false
is_first t (s ∷ ts) = same s t

-- What `setTimer` hands to `timerfd_settime`: at least a millisecond from `now`, in seconds and
-- nanoseconds. The signed difference is below a millisecond wherever `when` is not later.
unfoldable pub set_timer : ℕ → ℕ → ℕ × ℕ
set_timer now when =
    let duration = if ltb (when - now) 1000000 then 1000000 else when - now in
    (duration / 1000000000, duration % 1000000000)

-- The entries before `lower_bound` of the given time, and the others.
unfoldable pub split_at : ℕ → List Entry → List Entry × List Entry
split_at time [] = ([], [])
split_at time (t ∷ ts) =
    let rest = split_at time ts in if ltb t.key time then (t ∷ rest.0, rest.1) else ([], t ∷ ts)

module _ {S : Type 0} where
  -- The constructor of a timer.
  unfoldable pub make : ℕ → (S → Program S) → ℕ → Timer S
  make when callback interval = record {
    when = when;
    callback = callback;
    interval = interval;
    repeats = ltb 0 interval;
    canceled = false;
  }

  unfoldable pub restart : Timer S → Result (Timer S)
  restart t = do check t.repeats; ok (record t { when = t.when + t.interval })

  unfoldable pub cancel : Timer S → Result (Timer S)
  cancel t = do check (not t.canceled); ok (record t { canceled = true })

  -- The timer at an address.
  unfoldable pub lookup : ℕ → List (ℕ × Timer S) → Option (Timer S)
  lookup p [] = none
  lookup p (c ∷ h) = let rest = lookup p h in if p == c.0 then some c.1 else rest

  abbrev pub found : Option (Timer S) → Result (Timer S)
  found none = err dangling
  found (some t) = ok t

  -- A use of the timer at an address.
  unfoldable pub load : ℕ → List (ℕ × Timer S) → Result (Timer S)
  unfolding lookup
  load p h = found (lookup p h)

  -- What a member function left of the timer at an address.
  unfoldable pub store : ℕ → Timer S → List (ℕ × Timer S) → List (ℕ × Timer S)
  store p t [] = []
  store p t (c ∷ h) = let rest = store p t h in if p == c.0 then (p, t) ∷ rest else c ∷ rest

  unfoldable pub remove : ℕ → List (ℕ × Timer S) → List (ℕ × Timer S)
  remove p [] = []
  remove p (c ∷ h) = let rest = remove p h in if p == c.0 then rest else c ∷ rest

  -- `delete`, of an address that `new` gave and that was not deleted since.
  unfoldable pub free : ℕ → TimerQueue S → Result (TimerQueue S)
  unfolding load remove
  free p q = do t ← load p q.heap; ok (record q { heap = remove p q.heap })

  -- `getExpired`: the bound is `now + 1ns` with the null pointer, before every entry of that time.
  unfoldable pub get_expired : ℕ → TimerQueue S → List Entry × TimerQueue S
  unfolding split_at
  get_expired now q = let r = split_at (now + 1) q.timers in (r.0, record q { timers = r.1 })

  -- What `cancelTimer` does in the loop.
  unfoldable pub cancel_timer : ℕ → TimerQueue S → Result (TimerQueue S)
  unfolding load cancel store has erase free
  cancel_timer p q = do
    t ← load p q.heap
    s ← cancel t
    let r = record q { heap = store p s q.heap }
    if has (entry s.when p) q.timers
        then free p (record r { timers = erase (entry s.when p) q.timers })
        else ok r

  -- A timer that started again.
  abbrev pub again : Entry → Timer S → TimerQueue S → TimerQueue S
  again e s q = record q {
    timers = insert (entry s.when e.timer) q.timers;
    heap = store e.timer s q.heap;
  }

  -- A turn of the loop of `handleRead`: behind the callback the timer goes, or starts again.
  unfoldable pub finish : Entry → TimerQueue S → Result (TimerQueue S)
  unfolding load free restart store insert
  finish e q = do
    t ← load e.timer q.heap
    if t.repeats then (do s ← restart t; ok (again e s q)) else free e.timer q

  -- What `handleRead` does behind its loop.
  abbrev pub rearm : ℕ → TimerQueue S → List Entry → TimerQueue S
  unfolding set_timer
  rearm now q [] = q
  rearm now q (t ∷ ts) = record q { armed = some (set_timer now t.key) }

module _ {S : Type 0} (alloc : List (ℕ × Timer S) → ℕ) where
  -- What `addTimer` does in the loop.
  unfoldable pub add_timer : (now when interval : ℕ) → (S → Program S) → TimerQueue S → TimerQueue S
  unfolding make insert set_timer
  add_timer now when interval callback q =
      let p = alloc q.heap in
      let timers = insert (entry when p) q.timers in
      record q {
        timers = timers;
        heap = (p, make when callback interval) ∷ q.heap;
        armed = if is_first (entry when p) timers then some (set_timer now when) else q.armed;
      }

  -- A callback at work.
  unfoldable pub run : Program S → TimerQueue S → Result (TimerQueue S)
  unfolding add_timer cancel_timer
  run (done s) q = ok (record q { state = s })
  run (add now when interval callback next) q =
      run (next (alloc q.heap)) (add_timer now when interval callback q)
  run (cancel_then p next) q = do r ← cancel_timer p q; run next r

  -- A canceled timer goes, another runs.
  unfoldable pub turn : Entry → TimerQueue S → Result (TimerQueue S)
  unfolding load free run finish
  turn e q = do
    t ← load e.timer q.heap
    if t.canceled then free e.timer q else (do
      r ← run (t.callback q.state) (record q { ran = q.ran ++ e.timer ∷ [] })
      finish e r)

  unfoldable pub run_expired : List Entry → TimerQueue S → Result (TimerQueue S)
  unfolding turn
  run_expired [] q = ok q
  run_expired (e ∷ es) q = do r ← turn e q; run_expired es r

  -- `handleRead`, with the two readings of the clock.
  unfoldable pub handle_read : ℕ → ℕ → TimerQueue S → Result (TimerQueue S)
  unfolding get_expired run_expired
  handle_read now later q = do
    let r = get_expired now q
    p ← run_expired r.0 r.1
    ok (rearm later p p.timers)

-- The loop of the destructor.
unfoldable pub delete_all : {S : Type 0} → List Entry → TimerQueue S → Result (TimerQueue S)
unfolding free
delete_all [] q = ok q
delete_all (e ∷ es) q = do r ← free e.timer q; delete_all es r
