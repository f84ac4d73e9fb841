-- ===== src/LoopThread/Agreement.antt =====
-- What the caller of `starLoop` and the new thread know of each other, and how the steps of both keep it.
use yvent.Prelude.{ℕ, ◌≡◌, refl, ap, ◌⊎◌, inl, inr, true, Option, none, some}
use yvent.LoopThread.{
  Caller, outside, testing, deciding, waiting, returned, joining, joined, Worker, absent, spawned,
  published, looping, ended, EventLoopThread, make, test_loop, woken, tell_quit,
}

-- In `starLoop`, without a loop.
abbrev pub IsStarting : Caller → Type 0
IsStarting testing = Unit
IsStarting deciding = Unit
IsStarting waiting = Unit
IsStarting _ = ⊥

-- In `starLoop`, or back from it with this loop, or in the destructor.
abbrev pub HasOrAwaits : ℕ → Caller → Type 0
HasOrAwaits addr outside = ⊥
HasOrAwaits addr (returned p) = p ≡ addr
HasOrAwaits addr joined = ⊥
HasOrAwaits addr _ = Unit

-- The same, or behind the destructor.
abbrev pub IsInside : ℕ → Caller → Type 0
IsInside addr outside = ⊥
IsInside addr (returned p) = p ≡ addr
IsInside addr _ = Unit

-- What the two threads know of each other.
abbrev pub Agrees : ℕ → Worker → Option ℕ → Caller → Type 0
Agrees addr absent loop caller = (loop ≡ none) × (caller ≡ outside)
Agrees addr spawned loop caller = (loop ≡ none) × IsStarting caller
Agrees addr published loop caller = (loop ≡ some addr) × HasOrAwaits addr caller
Agrees addr looping loop caller = (loop ≡ some addr) × HasOrAwaits addr caller
Agrees addr ended loop caller = (loop ≡ none) × IsInside addr caller

pub record IsSound (addr : ℕ) (t : EventLoopThread) : Type 0 where
  pub agrees : Agrees addr t.worker t.loop t.caller
  pub quit_first : t.worker ≡ ended → t.quitting ≡ true

pub make-IsSound : (addr : ℕ) → IsSound addr make
unfolding make
make-IsSound addr = record { agrees = (refl, refl); quit_first = λ q. absurd cc }

pub test_none : (t : EventLoopThread) → t.loop ≡ none → test_loop t ≡ record t { caller = deciding }
unfolding test_loop
test_none t e =
    ap
      (λ l. elim l [
        | none ↦ record t { caller = deciding }
        | some p ↦ record t { caller = returned p }
      ])
      e

pub test_some :
    (t : EventLoopThread) (p : ℕ) → t.loop ≡ some p → test_loop t ≡ record t { caller = returned p }
unfolding test_loop
test_some t p e =
    ap
      (λ l. elim l [
        | none ↦ record t { caller = deciding }
        | some q ↦ record t { caller = returned q }
      ])
      e

pub quit_none : (t : EventLoopThread) → t.loop ≡ none → tell_quit t ≡ record t { caller = joining }
unfolding tell_quit
quit_none t e =
    ap
      (λ l. elim l [
        | none ↦ record t { caller = joining }
        | some p ↦ record t { quitting = true; caller = joining }
      ])
      e

pub quit_some :
    (t : EventLoopThread) (p : ℕ)
    → t.loop ≡ some p
    → tell_quit t ≡ record t { quitting = true; caller = joining }
unfolding tell_quit
quit_some t p e =
    ap
      (λ l. elim l [
        | none ↦ record t { caller = joining }
        | some q ↦ record t { quitting = true; caller = joining }
      ])
      e

-- The caller's move from one place to another, for each place of the worker.
pub tested :
    (addr : ℕ) (w : Worker) (l : Option ℕ)
    → Agrees addr w l testing
    → ((l ≡ none) × Agrees addr w l deciding)
      ⊎ ((p : ℕ) × (l ≡ some p) × Agrees addr w l (returned p))
tested addr absent l a = absurd (let e : testing ≡ outside = a.1 in cc)
tested addr spawned l a = inl (a.0, (a.0, tt))
tested addr published l a = inr (addr, a.0, (a.0, refl))
tested addr looping l a = inr (addr, a.0, (a.0, refl))
tested addr ended l a = inl (a.0, a)

pub waited :
    (addr : ℕ) (w : Worker) (l : Option ℕ) → Agrees addr w l deciding → Agrees addr w l waiting
waited addr absent l a = absurd (let e : deciding ≡ outside = a.1 in cc)
waited addr spawned l a = a
waited addr published l a = a
waited addr looping l a = a
waited addr ended l a = a

pub woken_again :
    (addr : ℕ) (w : Worker) (l : Option ℕ) → Agrees addr w l waiting → Agrees addr w l testing
woken_again addr absent l a = absurd (let e : waiting ≡ outside = a.1 in cc)
woken_again addr spawned l a = a
woken_again addr published l a = a
woken_again addr looping l a = a
woken_again addr ended l a = a

pub asked :
    (addr p : ℕ) (w : Worker) (l : Option ℕ)
    → Agrees addr w l (returned p)
    → Agrees addr w l joining
asked addr p absent l a = absurd (let e : returned p ≡ outside = a.1 in cc)
asked addr p spawned l a = absurd a.1
asked addr p published l a = (a.0, tt)
asked addr p looping l a = (a.0, tt)
asked addr p ended l a = (a.0, tt)

pub IsStarting-awaits : (addr : ℕ) (c : Caller) → IsStarting c → HasOrAwaits addr c
IsStarting-awaits addr outside h = h
IsStarting-awaits addr testing h = tt
IsStarting-awaits addr deciding h = tt
IsStarting-awaits addr waiting h = tt
IsStarting-awaits addr (returned p) h = absurd h
IsStarting-awaits addr joining h = tt
IsStarting-awaits addr joined h = h

pub HasOrAwaits-woken : (addr : ℕ) (c : Caller) → HasOrAwaits addr c → HasOrAwaits addr (woken c)
HasOrAwaits-woken addr outside h = h
HasOrAwaits-woken addr testing h = tt
HasOrAwaits-woken addr deciding h = tt
HasOrAwaits-woken addr waiting h = tt
HasOrAwaits-woken addr (returned p) h = h
HasOrAwaits-woken addr joining h = tt
HasOrAwaits-woken addr joined h = h

pub HasOrAwaits-IsInside : (addr : ℕ) (c : Caller) → HasOrAwaits addr c → IsInside addr c
HasOrAwaits-IsInside addr outside h = h
HasOrAwaits-IsInside addr testing h = tt
HasOrAwaits-IsInside addr deciding h = tt
HasOrAwaits-IsInside addr waiting h = tt
HasOrAwaits-IsInside addr (returned p) h = h
HasOrAwaits-IsInside addr joining h = tt
HasOrAwaits-IsInside addr joined h = tt
