-- ===== src/EventLoop/Threads.antt =====
-- The constructor, the destructor and `isInLoopThread` in yvent/EventLoop.cpp: which loop belongs to which
-- thread. A loop is known by its address and a thread by the number that the kernel gives it, which is not
-- zero. `event_loop` is `t_Eventloop` and `cached_tid` is `t_cachedTid` of each thread; `tid` is the field
-- `tid_` of each loop that is there.
pub mod Maps
pub mod Owners
use yvent.Prelude.{ℕ, ◌≡◌, ◌≢◌, Bool, true, false, Option, none, some, ◌==◌, if◌then◌else◌}
use yvent.Fault.{Result, ok, err, fatal, ◌>>=◌, ◌>>◌, check}

pub record Threads : Type 0 where
  pub event_loop : ℕ → Option ℕ
  pub cached_tid : ℕ → ℕ
  pub tid : ℕ → Option ℕ

abbrev pub at_start : Threads
at_start = record { event_loop = λ t. none; cached_tid = λ t. 0; tid = λ l. none }

abbrev pub put {ℓ} : {A : Type ℓ} → ℕ → A → (ℕ → A) → ℕ → A
put i a f j = if j == i then a else f j

-- Whether the pointer is this, and whether it is null.
abbrev pub is_this : ℕ → Option ℕ → Bool
is_this l none = false
is_this l (some m) = m == l

abbrev pub is_null : Option ℕ → Bool
is_null none = true
is_null (some m) = false

-- `gettid` in a thread.
unfoldable pub gettid : ℕ → Threads → ℕ × Threads
gettid t w =
    if w.cached_tid t == 0
    then (t, record w { cached_tid = put t t w.cached_tid })
    else (w.cached_tid t, w)

-- `isInLoopThread`, called in a thread for a loop that is there.
unfoldable pub is_in_loop_thread : ℕ → ℕ → Threads → Bool × Threads
unfolding gettid
is_in_loop_thread t l w = let r = gettid t w in (is_this r.0 (w.tid l), r.1)

-- `runInLoop`, with what the task does and what `addTask` does.
unfoldable pub run_in_loop {ℓ} :
    {A : Type ℓ} → ℕ → ℕ → (task add_task : A → A) → Threads × A → Threads × A
unfolding is_in_loop_thread
run_in_loop t l task add_task (w, a) =
    let r = is_in_loop_thread t l w in (r.1, if r.0 then task a else add_task a)

-- The constructor, with whether `eventfd` gave a descriptor. The queue of timers, the last of the fields,
-- asserts that it is in the thread of the loop.
unfoldable pub construct : Bool → ℕ → ℕ → Threads → Result Threads
unfolding gettid is_in_loop_thread
construct has_fd t l w = do
  let r = gettid t w
  let v = record r.1 { tid = put l (some r.0) r.1.tid }
  let s = is_in_loop_thread t l v
  check s.0
  if has_fd then ok tt else err fatal
  check (is_null (s.1.event_loop t))
  ok (record s.1 { event_loop = put t (some l) s.1.event_loop })

-- The destructor.
unfoldable pub destroy : ℕ → ℕ → Threads → Result Threads
destroy t l w = do
  check (is_this l (w.event_loop t))
  ok (record w { event_loop = put t none w.event_loop; tid = put l none w.tid })

-- What threads do: a new loop at an address that is free, the end of a loop, and a call of `gettid`.
pub data Step (w : Threads) : Threads → Type 0 where
  constructs :
      {v : Threads} (t l : ℕ) → t ≢ 0 → w.tid l ≡ none → construct true t l w ≡ ok v → Step w v
  destroys : {v : Threads} (t l s : ℕ) → w.tid l ≡ some s → destroy t l w ≡ ok v → Step w v
  asks : (t : ℕ) → t ≢ 0 → Step w (gettid t w).1

pub data Steps : Threads → Type 0 where
  start : Steps at_start
  and_then : {v w : Threads} → Steps v → Step v w → Steps w
