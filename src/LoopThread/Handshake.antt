-- ===== src/LoopThread/Handshake.antt =====
-- What the caller gets back, and how it may never get anything.
use yvent.Prelude.{ℕ, ◌≡◌, refl, ◌⊎◌, inl, inr, true, false, none, some, Option-cases}
use yvent.LoopThread.{
  Caller, outside, testing, waiting, returned, Worker, absent, spawned, published, looping, ended,
  EventLoopThread, make, star_loop, test_loop, wait, publish, notify_all, leave_loop, tell_quit,
  join, Step, starts, tests, waits, publishes, notifies, ends, quits, joins, Reach, new, step,
  spurious, told, quit_loop,
}
use yvent.LoopThread.Agreement.{
  Agrees, IsSound, make-IsSound, test_none, test_some, quit_none, quit_some, tested, waited,
  woken_again, asked, IsStarting-awaits, HasOrAwaits-woken, HasOrAwaits-IsInside,
}

module _ {addr : ℕ} (t : EventLoopThread) (s : IsSound addr t) where
  where_caller : {c : Caller} → t.caller ≡ c → Agrees addr t.worker t.loop c
  where_caller e = rw e at s.agrees

  where_worker : {w : Worker} → t.worker ≡ w → Agrees addr w t.loop t.caller
  where_worker e = rw e at s.agrees

  joined_after : t.worker ≡ ended → (t.loop ≡ none) × Unit {0}
  joined_after w = ((where_worker w).0, tt)

  test-IsSound : t.caller ≡ testing → IsSound addr (test_loop t)
  test-IsSound e = elim (tested addr t.worker t.loop (where_caller e)) [
    | inl (n, a) ↦ rw (test_none t n) (record { agrees = a; quit_first = s.quit_first })
    | inr (p, l, a) ↦ rw (test_some t p l) (record { agrees = a; quit_first = s.quit_first })
  ]

  quit-IsSound : (p : ℕ) → t.caller ≡ returned p → IsSound addr (tell_quit t)
  quit-IsSound p e = elim (Option-cases t.loop) [
    | inl n ↦ rw (quit_none t n) (record {
      agrees = asked addr p t.worker t.loop (where_caller e);
      quit_first = s.quit_first;
    })
    | inr (x, l) ↦
        rw (quit_some t x l) (record {
          agrees = asked addr p t.worker t.loop (where_caller e);
          quit_first = λ w. refl;
        })
  ]

Step-IsSound : {addr : ℕ} {t u : EventLoopThread} → Step addr t u → IsSound addr t → IsSound addr u
unfolding star_loop wait publish notify_all leave_loop join
Step-IsSound {addr} {t} (starts e n o) s = record { agrees = (o, tt); quit_first = λ w. absurd cc }
Step-IsSound {addr} {t} (tests e) s = test-IsSound t s e
Step-IsSound {addr} {t} (waits e) s = record {
  agrees = waited addr t.worker t.loop (where_caller t s e);
  quit_first = s.quit_first;
}
Step-IsSound {addr} {t} (publishes e) s = record {
  agrees = (refl, IsStarting-awaits addr t.caller (where_worker t s e).1);
  quit_first = λ w. absurd cc;
}
Step-IsSound {addr} {t} (notifies e) s = record {
  agrees = ((where_worker t s e).0, HasOrAwaits-woken addr t.caller (where_worker t s e).1);
  quit_first = λ w. absurd cc;
}
Step-IsSound {addr} {t} (ends e q) s = record {
  agrees = (refl, HasOrAwaits-IsInside addr t.caller (where_worker t s e).1);
  quit_first = λ w. q;
}
Step-IsSound {addr} {t} (quits p e) s = quit-IsSound t s p e
Step-IsSound {addr} {t} (joins e w) s = record {
  agrees = rw w (joined_after t s w);
  quit_first = s.quit_first;
}

Reach-IsSound : {addr : ℕ} {t : EventLoopThread} → Reach addr t → IsSound addr t
unfolding quit_loop
Reach-IsSound new = make-IsSound _
Reach-IsSound (step r st) = Step-IsSound st (Reach-IsSound r)
Reach-IsSound (told {t} p r e l) =
    let s = Reach-IsSound r in record { agrees = s.agrees; quit_first = λ w. refl }
Reach-IsSound (spurious {t} r e) =
    let s = Reach-IsSound r in
    record {
      agrees = woken_again _ t.worker t.loop (where_caller t s e);
      quit_first = s.quit_first;
    }

-- A loop that `starLoop` returned is the loop of the new thread, in every interleaving; and `loop_` points at
-- it, or the thread has ended, which it does only when somebody else has told the loop to quit.
pub returned_loop_lem :
    {addr p : ℕ} {t : EventLoopThread}
    → Reach addr t
    → t.caller ≡ returned p
    → (p ≡ addr)
      × ((t.loop ≡ some addr) ⊎ ((t.worker ≡ ended) × (t.loop ≡ none) × (t.quitting ≡ true)))
returned_loop_lem {addr} {p} {t} r e =
    let s = Reach-IsSound r in go t.worker (where_caller t s e) s.quit_first
  where
    go :
        (w : Worker)
        → Agrees addr w t.loop (returned p)
        → (w ≡ ended → t.quitting ≡ true)
        → (p ≡ addr)
          × ((t.loop ≡ some addr) ⊎ ((w ≡ ended) × (t.loop ≡ none) × (t.quitting ≡ true)))
    go absent a q = absurd (let x : returned p ≡ outside = a.1 in cc)
    go spawned a q = absurd a.1
    go published a q = (a.1, inl a.0)
    go looping a q = (a.1, inl a.0)
    go ended a q = (a.1, inr (refl, a.0, q refl))

-- The caller asleep, with the loop there and running.
abbrev pub stuck : ℕ → EventLoopThread
stuck addr = record {
  loop = some addr;
  start = true;
  quitting = false;
  caller = waiting;
  worker = looping;
}

-- The new thread sets `loop_` and notifies between the caller's test and its wait, since it does not hold the
-- mutex: then the caller sleeps though the loop is there, and neither thread has a step left. Only a wait that
-- ends without a notification could help.
pub star_loop_lost :
    (addr : ℕ) → Reach addr (stuck addr) × ((u : EventLoopThread) → ¬ Step addr (stuck addr) u)
unfolding make star_loop test_loop publish notify_all wait
star_loop_lost addr = (
  step
      (step (step (step (step new (starts refl refl refl)) (tests refl)) (publishes refl))
        (notifies refl))
      (waits refl),
  λ u st. nowhere st,
)
  where
    nowhere : {u : EventLoopThread} → Step addr (stuck addr) u → ⊥
    nowhere (starts e n o) = cc
    nowhere (tests e) = cc
    nowhere (waits e) = cc
    nowhere (publishes e) = cc
    nowhere (notifies e) = cc
    nowhere (ends e q) = cc
    nowhere (quits p e) = cc
    nowhere (joins e w) = cc
