-- ===== src/Timer/Expiry.antt =====
-- `setTimer` and `getExpired`: what is asked for, and what is taken.
use yvent.Prelude.{
  refl, ◌∷◌, [], ◌++◌, List, leb, if◌then◌else◌, Bool-cases, inl, inr, true, false, ◌∙◌, sym,
  append-nil, ℕ, ◌+◌, ◌-◌, ◌*◌, ◌≤◌, ◌<◌, ◌≡◌, ap, All, ltb, arith,
}
use yvent.Timer.{Entry, TimerQueue, set_timer, split_at, get_expired}
use yvent.Timer.Order.{
  IsSorted, count, All-weaken, All-append, IsSorted-rest, count-append, split_at_lem,
}
use yvent.Timer.Sound.{Keyed, IsSound}

-- What `setTimer` asks for is a valid `timespec` and lasts until `when`, or a millisecond where that is
-- nearer or past.
pub set_timer_lem :
    (now when : ℕ)
    → ((set_timer now when).1 < 1000000000)
      × (1000000 ≤ (set_timer now when).0 * 1000000000 + (set_timer now when).1)
      × (now + 1000000 ≤ when
          → now + ((set_timer now when).0 * 1000000000 + (set_timer now when).1) ≡ when)
      × (when < now + 1000000
          → (set_timer now when).0 * 1000000000 + (set_timer now when).1 ≡ 1000000)
unfolding set_timer
set_timer_lem now when = elim (Bool-cases (ltb (when - now) 1000000)) [
  | inl b ↦
      let h : when - now < 1000000 = ground arith in
      rw (b) (omega arith, omega arith, λ k. absurd (omega arith), λ k. omega arith)
  | inr b ↦
      let h : 1000000 ≤ when - now = ground arith in
      rw (b) (omega arith, omega arith, λ k. omega arith, λ k. absurd (omega arith))
]

-- `getExpired` takes every timer whose time has come and no other, in order, and leaves the rest.
get_expired_lem :
    {S : Type 0} (now : ℕ) (q : TimerQueue S)
    → IsSorted q.timers
    → All (λ t. t.key ≤ now) (get_expired now q).0
      × All (λ t. now < t.key) (get_expired now q).1.timers
      × ((get_expired now q).0 ++ (get_expired now q).1.timers ≡ q.timers)
unfolding get_expired
get_expired_lem now q o =
    let (a, b, c) = split_at_lem (now + 1) q.timers o in
    (
      All-weaken (λ t. t.key < now + 1) (λ t. t.key ≤ now) (λ t h. omega arith)
          (split_at (now + 1) q.timers).0 a,
      All-weaken (λ t. now + 1 ≤ t.key) (λ t. now < t.key) (λ t h. omega arith)
          (split_at (now + 1) q.timers).1 b,
      c,
    )

-- The entries whose time has come.
abbrev pub due : ℕ → List Entry → List Entry
due now [] = []
due now (t ∷ ts) = if leb t.key now then t ∷ due now ts else due now ts

due-append : (now : ℕ) (ss ts : List Entry) → due now (ss ++ ts) ≡ due now ss ++ due now ts
due-append now [] ts = refl
due-append now (s ∷ ss) ts = elim (Bool-cases (leb s.key now)) [
  | inl b ↦ rw (b, due-append now ss ts)
  | inr b ↦ rw (b, due-append now ss ts)
]

due_all : (now : ℕ) (ts : List Entry) → All (λ t. t.key ≤ now) ts → due now ts ≡ ts
due_all now [] a = refl
due_all now (t ∷ ts) (k, a) =
    let b : leb t.key now ≡ true = ground arith in rw (b, due_all now ts a)

due_none : (now : ℕ) (ts : List Entry) → All (λ t. now < t.key) ts → due now ts ≡ []
due_none now [] a = refl
due_none now (t ∷ ts) (k, a) =
    let b : leb t.key now ≡ false = ground arith in rw (b, due_none now ts a)

pub get_expired-due :
    {S : Type 0} (now : ℕ) (q : TimerQueue S)
    → IsSorted q.timers
    → (get_expired now q).0 ≡ due now q.timers
get_expired-due now q o =
    let (a, b, c) = get_expired_lem now q o in
    let r = get_expired now q in
    sym (append-nil r.0)
    ∙ ap (λ x. r.0 ++ x) (sym (due_none now r.1.timers b))
    ∙ ap (λ x. x ++ due now r.1.timers) (sym (due_all now r.0 a))
    ∙ sym (due-append now r.0 r.1.timers)
    ∙ ap (due now) c

-- What is taken is owned by the batch.
pub get_expired-IsSound :
    {S : Type 0} (now : ℕ) (q : TimerQueue S)
    → IsSound [] q
    → IsSound (get_expired now q).0 (get_expired now q).1
unfolding get_expired
get_expired-IsSound now q i =
    let (a, b, c) = split_at_lem (now + 1) q.timers i.sorted in
    let r = split_at (now + 1) q.timers in
    let k = All-append (Keyed q.heap) r.0 r.1 (rw c i.keyed) in
    record {
      sorted = IsSorted-rest r.0 r.1 (rw c i.sorted);
      keyed_batch = k.0;
      keyed = k.1;
      counted = λ p.
          let n = count-append p r.0 r.1 in
          let m : count p (r.0 ++ r.1) ≡ count p q.timers = ap (count p) c in
          let o = i.counted p in omega arith;
    }
