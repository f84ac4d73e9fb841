-- ===== src/EventLoop/Timers/Ahead.antt =====
-- When the timers of `runAt`, `runAfter` and `runEvery` are due.
use yvent.Prelude.{
  ℕ, ◌+◌, ◌≡◌, sym, ap, ◌∙◌, inl, inr, List, [], ◌∷◌, All, leb, true, false, ◌==◌, ==_iff,
  if◌then◌else◌, Bool-cases, some, arith,
}
use yvent.Timer.{Timer, Entry, TimerQueue, Program, lookup, add_timer, make, get_expired}
use yvent.Timer.Heap.{live, lookup-new, lookup-live}
use yvent.Timer.Order.{count, All-weaken}
use yvent.Timer.Sound.{Keyed, IsSound}
use yvent.Timer.Calls.{Fresh, add_timer-IsSound}
use yvent.Timer.Expiry.{due, get_expired-due}
use yvent.EventLoop.Timers.{run_at, run_after, run_every}

count-due :
    (t when p : ℕ) (ts : List Entry)
    → All (λ s. s.timer ≡ p → s.key ≡ when) ts
    → count p (due t ts) ≡ (if leb when t then count p ts else 0)
count-due t when p [] a = elim (Bool-cases (leb when t)) [ inl b ↦ rw b | inr b ↦ rw b ]
count-due t when p (s ∷ ts) (k, a) =
    let r = count-due t when p ts a in
    elim (Bool-cases (p == s.timer)) [
      | inl c ↦
          let i : s.key ≡ when = k (sym ((==_iff p s.timer).0 c)) in
          elim (Bool-cases (leb when t)) [
            | inl b ↦
                let d : leb s.key t ≡ true = ap (λ x. leb x t) i ∙ b in
                rw (d, b, c) (omega (arith, rw b at r))
            | inr b ↦ let d : leb s.key t ≡ false = ap (λ x. leb x t) i ∙ b in rw (d, b) (rw b at r)
          ]
      | inr c ↦ elim (Bool-cases (leb s.key t)) [
        | inl d ↦
            rw (d, c)
              (elim (Bool-cases (leb when t)) [
                | inl b ↦ rw b (omega (arith, rw b at r))
                | inr b ↦ rw b (omega (arith, rw b at r))
              ])
        | inr d ↦
            rw (d, c)
              (elim (Bool-cases (leb when t)) [
                | inl b ↦ rw b (omega (arith, rw b at r))
                | inr b ↦ rw b (rw b at r)
              ])
      ]
    ]

module _ {S : Type 0} (alloc : List (ℕ × Timer S) → ℕ) (fresh : Fresh alloc) where
  add_timer-due :
      (t now when interval : ℕ) (callback : S → Program S) (q : TimerQueue S)
      → IsSound [] q
      → count (alloc q.heap) (get_expired t (add_timer alloc now when interval callback q)).0
        ≡ (if leb when t then 1 else 0)
  unfolding add_timer make
  add_timer-due t now when interval callback q i =
      let p = alloc q.heap in
      let u = make when callback interval in
      let r = add_timer alloc now when interval callback q in
      let j : IsSound [] r = add_timer-IsSound alloc fresh [] now when interval callback q i in
      let l : lookup p r.heap ≡ some u = lookup-new p u q.heap in
      let one : live p r.heap ≡ 1 = lookup-live p r.heap l in
      let c : count p r.timers ≡ 1 = let y = j.counted p in omega arith in
      let keys : All (λ s. s.timer ≡ p → s.key ≡ when) r.timers =
        All-weaken (Keyed r.heap) (λ s. s.timer ≡ p → s.key ≡ when)
          (λ s k e.
            let f : some k.0 ≡ some u = sym k.1 ∙ ap (λ x. lookup x r.heap) e ∙ l in
            let g : k.0 ≡ u = cc in sym k.2 ∙ ap (λ x. x.when) g)
          r.timers j.keyed in
      ap (count p) (get_expired-due t r j.sorted)
      ∙ count-due t when p r.timers keys
      ∙ ap (λ x. if leb when t then x else 0) c

  -- In a queue that owns its timers, a `handleRead` takes the timer of `runAt` exactly from its time on,
  -- and those of `runAfter` and `runEvery` exactly from the end of their interval on.
  pub run-due :
      (t clock now when interval : ℕ) (callback : S → Program S) (q : TimerQueue S)
      → IsSound [] q
      → (let r = run_at alloc now when callback q in
          count r.0 (get_expired t r.1).0 ≡ (if leb when t then 1 else 0))
        × (let r = run_after alloc clock now interval callback q in
            count r.0 (get_expired t r.1).0 ≡ (if leb (clock + interval) t then 1 else 0))
        × (let r = run_every alloc clock now interval callback q in
            count r.0 (get_expired t r.1).0 ≡ (if leb (clock + interval) t then 1 else 0))
  unfolding run_at run_after run_every
  run-due t clock now when interval callback q i = (
    add_timer-due t now when 0 callback q i,
    add_timer-due t now (clock + interval) 0 callback q i,
    add_timer-due t now (clock + interval) interval callback q i,
  )
