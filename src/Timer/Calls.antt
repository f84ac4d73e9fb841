-- ===== src/Timer/Calls.antt =====
-- What a call of a callback does to the timers that a queue owns.
use yvent.Prelude.{
  ℕ, ◌+◌, ◌≡◌, refl, sym, ◌∙◌, ◌⊎◌, inl, inr, List, ◌∷◌, true, false, ◌==◌, ==_iff, Bool-cases,
  Option-cases, none, some, arith,
}
use yvent.Fault.{ok, err, assertion, dangling, Returns, returned, Returns-ok}
use yvent.Timer.{
  Timer, Entry, TimerQueue, Program, done, add, cancel_then, entry, insert, has, erase, make,
  lookup, store, remove, cancel, cancel_timer, add_timer, run,
}
use yvent.Timer.Heap.{
  live, lookup-load, load_fails, lookup-live, live_zero, lookup-new, new-Apart, lookup-store,
  lookup-remove, remove-Apart, Apart-live,
}
use yvent.Timer.Order.{
  count, insert-All, insert-IsSorted, count-insert, erase-All, erase-IsSorted, count-erase,
}
use yvent.Timer.Sound.{Keyed, Keyed-Apart, Keyed-store, live-store, IsSound, free_lem}

module _ {S : Type 0} where
  -- What a call of a callback leaves: the same timers ran, and the queue is sound.
  abbrev pub Kept : List Entry → TimerQueue S → TimerQueue S → Type 0
  Kept batch q r = IsSound batch r × (r.ran ≡ q.ran)

  -- The state of the user, what is armed and what ran do not matter.
  pub IsSound-same :
      (batch : List Entry) (q r : TimerQueue S)
      → r.timers ≡ q.timers
      → r.heap ≡ q.heap
      → IsSound batch q
      → IsSound batch r
  IsSound-same batch q r e f i = record {
    sorted = rw e i.sorted;
    keyed_batch = rw f i.keyed_batch;
    keyed = rw (e, f) i.keyed;
    counted = λ p. rw (e, f) (i.counted p);
  }

  -- A canceled timer that the set holds goes.
  erased-IsSound :
      (batch : List Entry) (q : TimerQueue S) (p : ℕ) {t : Timer S}
      → IsSound batch q
      → lookup p q.heap ≡ some t
      → has (entry t.when p) q.timers ≡ true
      → IsSound batch
          (record q { timers = erase (entry t.when p) q.timers; heap = remove p q.heap })
  erased-IsSound batch q p {t} i l h =
      let one : live p q.heap ≡ 1 = lookup-live p q.heap l in
      let r : (p == p) ≡ true = ground arith in
      let c = i.counted p in
      let d = rw r at (count-erase p (entry t.when p) q.timers h) in
      let a = remove-Apart p q.heap in
      record {
        sorted = erase-IsSorted (entry t.when p) q.timers i.sorted;
        keyed_batch = Keyed-Apart p q.heap (remove p q.heap) batch a (omega arith) i.keyed_batch;
        keyed =
            Keyed-Apart p q.heap (remove p q.heap) (erase (entry t.when p) q.timers) a (omega arith)
              (erase-All (Keyed q.heap) (entry t.when p) q.timers i.keyed);
        counted = λ x. elim (Bool-cases (x == p)) [
          | inl b ↦
              let j : x ≡ p = (==_iff x p).0 b in
              let n : live p (remove p q.heap) ≡ 0 =
                live_zero p (remove p q.heap) (lookup-remove p q.heap) in
              rw j (omega arith)
          | inr b ↦
              let m = Apart-live p q.heap (remove p q.heap) a x b in
              let y = i.counted x in
              let z = rw b at (count-erase x (entry t.when p) q.timers h) in omega arith
        ];
      }

  -- `cancelTimer` fails where the timer was deleted or canceled before, and nowhere else.
  abbrev pub BadCancel : ℕ → TimerQueue S → Type 0
  BadCancel p q =
      (lookup p q.heap ≡ none) ⊎ ((t : Timer S) × (lookup p q.heap ≡ some t) × (t.canceled ≡ true))

  abbrev pub marked : Timer S → Timer S
  marked t = record t { canceled = true }

  abbrev pub gone : ℕ → Timer S → TimerQueue S → TimerQueue S
  gone p t q = record q {
    timers = erase (entry t.when p) q.timers;
    heap = remove p (store p (marked t) q.heap);
  }

  pub cancel_timer_found :
      (p : ℕ) (q : TimerQueue S) {t : Timer S}
      → lookup p q.heap ≡ some t
      → t.canceled ≡ false
      → has (entry t.when p) q.timers ≡ true
      → cancel_timer p q ≡ ok (gone p t q)
  unfolding cancel_timer cancel
  cancel_timer_found p q {t} l c h =
      let f =
        free_lem p
          (record q { timers = erase (entry t.when p) q.timers; heap = store p (marked t) q.heap })
          (lookup-store p (marked t) t q.heap l) in
      rw (lookup-load p q.heap l, c, h) f

  pub cancel_timer_marks :
      (p : ℕ) (q : TimerQueue S) {t : Timer S}
      → lookup p q.heap ≡ some t
      → t.canceled ≡ false
      → has (entry t.when p) q.timers ≡ false
      → cancel_timer p q ≡ ok (record q { heap = store p (marked t) q.heap })
  unfolding cancel_timer cancel
  cancel_timer_marks p q l c h = rw (lookup-load p q.heap l, c, h)

  cancel_timer_fails :
      (p : ℕ) (q : TimerQueue S)
      → BadCancel p q
      → (cancel_timer p q ≡ err dangling) ⊎ (cancel_timer p q ≡ err assertion)
  unfolding cancel_timer cancel
  cancel_timer_fails p q (inl n) = inl (rw (load_fails p q.heap n))
  cancel_timer_fails p q (inr (t, l, c)) = inr (rw (lookup-load p q.heap l, c))

  marked-IsSound :
      (batch : List Entry) (q : TimerQueue S) (p : ℕ) {t : Timer S}
      → IsSound batch q
      → lookup p q.heap ≡ some t
      → IsSound batch (record q { heap = store p (marked t) q.heap })
  marked-IsSound batch q p {t} i l = record {
    sorted = i.sorted;
    keyed_batch = Keyed-store p (marked t) t q.heap batch l refl i.keyed_batch;
    keyed = Keyed-store p (marked t) t q.heap q.timers l refl i.keyed;
    counted = λ x. i.counted x ∙ sym (live-store p x (marked t) t q.heap l);
  }

  -- `cancelTimer` is called badly, or the queue is as sound as before.
  pub cancel_timer-IsSound :
      (batch : List Entry) (p : ℕ) (q : TimerQueue S)
      → IsSound batch q
      → BadCancel p q ⊎ Returns (Kept batch q) (cancel_timer p q)
  cancel_timer-IsSound batch p q i = elim (Option-cases (lookup p q.heap)) [
    | inl n ↦ inl (inl n)
    | inr (t, l) ↦ elim (Bool-cases t.canceled) [
      | inl c ↦ inl (inr (t, l, c))
      | inr c ↦ elim (Bool-cases (has (entry t.when p) q.timers)) [
        | inl h ↦ inr (
            returned _ (cancel_timer_found p q l c h) (
              erased-IsSound batch (record q { heap = store p (marked t) q.heap }) p
                  (marked-IsSound batch q p i l) (lookup-store p (marked t) t q.heap l) h,
              refl,
            ))
        | inr h ↦
            inr (returned _ (cancel_timer_marks p q l c h) (marked-IsSound batch q p i l, refl))
      ]
    ]
  ]

-- An allocator gives addresses that are not in use.
abbrev pub Fresh : {S : Type 0} → (List (ℕ × Timer S) → ℕ) → Type 0
Fresh {S} alloc = (h : List (ℕ × Timer S)) → lookup (alloc h) h ≡ none

-- In this queue the program comes to a call of `cancelTimer` with a timer that was deleted or canceled.
pub data CancelsBadly {S : Type 0} (alloc : List (ℕ × Timer S) → ℕ)
    : Program S → TimerQueue S → Type 0 where
  bad_cancel :
      {p : ℕ} {next : Program S} {q : TimerQueue S}
      → BadCancel p q
      → CancelsBadly alloc (cancel_then p next) q
  after_cancel :
      {p : ℕ} {next : Program S} {q r : TimerQueue S}
      → cancel_timer p q ≡ ok r
      → CancelsBadly alloc next r
      → CancelsBadly alloc (cancel_then p next) q
  after_add :
      {now when interval : ℕ} {callback : S → Program S} {next : ℕ → Program S} {q : TimerQueue S}
      → CancelsBadly alloc (next (alloc q.heap)) (add_timer alloc now when interval callback q)
      → CancelsBadly alloc (add now when interval callback next) q

module _ {S : Type 0} (alloc : List (ℕ × Timer S) → ℕ) (fresh : Fresh alloc) where
  pub add_timer-IsSound :
      (batch : List Entry) (now when interval : ℕ) (callback : S → Program S) (q : TimerQueue S)
      → IsSound batch q
      → IsSound batch (add_timer alloc now when interval callback q)
  unfolding add_timer make
  add_timer-IsSound batch now when interval callback q i =
      let p = alloc q.heap in
      let t = make when callback interval in
      let a = new-Apart p t q.heap in
      let c : live p q.heap ≡ 0 = live_zero p q.heap (fresh q.heap) in
      let d = i.counted p in
      record {
        sorted = insert-IsSorted (entry when p) q.timers i.sorted;
        keyed_batch = Keyed-Apart p q.heap ((p, t) ∷ q.heap) batch a (omega arith) i.keyed_batch;
        keyed =
            insert-All (Keyed ((p, t) ∷ q.heap)) (entry when p) q.timers
              (t, lookup-new p t q.heap, refl)
              (Keyed-Apart p q.heap ((p, t) ∷ q.heap) q.timers a (omega arith) i.keyed);
        counted = λ x. elim (Bool-cases (x == p)) [
          | inl b ↦
              let j : x ≡ p = (==_iff x p).0 b in
              let m : live p ((p, t) ∷ q.heap) ≡ 1 =
                lookup-live p ((p, t) ∷ q.heap) (lookup-new p t q.heap) in
              let r : (p == p) ≡ true = ground arith in
              let k = rw r at (count-insert p (entry when p) q.timers (omega arith)) in
              let g : count p batch + count p (insert (entry when p) q.timers)
                  ≡ live p ((p, t) ∷ q.heap) =
                omega arith in
              rw j g
          | inr b ↦
              let n = count-insert x (entry when p) q.timers (omega arith) in
              let m = Apart-live p q.heap ((p, t) ∷ q.heap) a x b in
              let y = i.counted x in let k = rw b at n in omega arith
        ];
      }

  add_timer-ran :
      (now when interval : ℕ) (callback : S → Program S) (q : TimerQueue S)
      → (add_timer alloc now when interval callback q).ran ≡ q.ran
  unfolding add_timer
  add_timer-ran now when interval callback q = refl

  -- A callback calls `cancelTimer` badly, or leaves the queue sound.
  pub run-IsSound :
      (batch : List Entry) (program : Program S) (q : TimerQueue S)
      → IsSound batch q
      → CancelsBadly alloc program q ⊎ Returns (Kept batch q) (run alloc program q)
  unfolding run
  run-IsSound batch (done s) q i =
      inr (returned _ refl (IsSound-same batch q (record q { state = s }) refl refl i, refl))
  run-IsSound batch (add now when interval callback next) q i =
      elim (run-IsSound batch (next (alloc q.heap)) (add_timer alloc now when interval callback q)
        (add_timer-IsSound batch now when interval callback q i)) [
          | inl b ↦ inl (after_add b)
          | inr r ↦
              let (p, e, (j, l)) = Returns-ok r in
              inr (returned _ e (j, l ∙ add_timer-ran now when interval callback q))
        ]
  run-IsSound batch (cancel_then p next) q i = elim (cancel_timer-IsSound batch p q i) [
    | inl b ↦ inl (bad_cancel b)
    | inr c ↦
        let (r, e, (j, k)) = Returns-ok c in
        elim (run-IsSound batch next r j) [
          | inl b ↦ inl (after_cancel e b)
          | inr d ↦ let (u, f, (m, l)) = Returns-ok d in inr (rw e (returned _ f (m, l ∙ k)))
        ]
  ]
