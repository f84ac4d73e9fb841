-- ===== src/ThreadPool.antt =====
-- yvent/EventLoopThreadPool.h and yvent/EventLoopThreadPool.cpp: the loops that connections are spread
-- over. A loop is known by a number; `new_loop` says which loop a new thread brings. The check of the
-- calling thread is left out. Numbers are below the sizes of a vector, so `int` does not overflow.
pub mod Rounds
use yvent.Prelude.{
  ℕ, zero, suc, ◌+◌, ◌%◌, List, [], ◌∷◌, ◌++◌, Bool, true, false, not, ◌==◌, if◌then◌else◌, Option,
  none, some, length, get_elem?,
}
use yvent.Fault.{Result, ok, err, assertion, ◌>>=◌, ◌>>◌, check}

pub record EventLoopThreadPool : Type 0 where
  pub base_loop : ℕ
  pub started : Bool
  pub thread_num : ℕ
  pub next_event_loop : ℕ
  pub loops : List ℕ

unfoldable pub make : ℕ → EventLoopThreadPool
make base_loop = record {
  base_loop = base_loop;
  started = false;
  thread_num = 0;
  next_event_loop = 0;
  loops = [];
}

unfoldable pub set_thread_num : ℕ → EventLoopThreadPool → EventLoopThreadPool
set_thread_num n p = record p { thread_num = n }

-- The loop of `start`, with `i` from `from` and `n` threads left.
abbrev pub start_threads : (ℕ → ℕ) → ℕ → ℕ → List ℕ → List ℕ
start_threads new_loop from zero loops = loops
start_threads new_loop from (suc n) loops =
    start_threads new_loop (suc from) n (loops ++ new_loop from ∷ [])

unfoldable pub start : (ℕ → ℕ) → EventLoopThreadPool → Result EventLoopThreadPool
start new_loop p = do
  check (not p.started)
  ok (record p { started = true; loops = start_threads new_loop 0 p.thread_num p.loops })

-- `getNextEventLoop`. A vector read behind its end, which is undefined, is a failed assertion here.
unfoldable pub get_next_event_loop : EventLoopThreadPool → Result (ℕ × EventLoopThreadPool)
get_next_event_loop p =
    if length p.loops == 0
    then ok (p.base_loop, p)
    else elim (get_elem? p.loops p.next_event_loop) [
      | none ↦ err assertion
      | some loop ↦
          ok (loop, record p { next_event_loop = (p.next_event_loop + 1) % length p.loops })
    ]
