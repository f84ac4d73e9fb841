-- ===== src/Timer/Destruct.antt =====
-- The destructor of a queue.
use yvent.Prelude.{ℕ, ◌≡◌, refl, inl, inr, List, [], ◌∷◌, none, Option-cases, arith}
use yvent.Fault.{Returns, returned}
use yvent.Timer.{Entry, TimerQueue, lookup, remove, delete_all}
use yvent.Timer.Heap.{live, lookup-live}
use yvent.Timer.Sound.{IsSound, free_lem, removed-IsSound}

module _ {S : Type 0} where
  abbrev cleared : TimerQueue S → TimerQueue S
  cleared q = record q { timers = [] }

  none_left : (q : TimerQueue S) → IsSound [] (cleared q) → (p : ℕ) → lookup p q.heap ≡ none
  none_left q i p = elim (Option-cases (lookup p q.heap)) [
    | inl n ↦ n
    | inr (t, l) ↦
        let one : live p q.heap ≡ 1 = lookup-live p q.heap l in
        let c = i.counted p in absurd (omega arith)
  ]

  delete_each :
      (es : List Entry) (q : TimerQueue S)
      → IsSound es (cleared q)
      → Returns (λ r. (p : ℕ) → lookup p r.heap ≡ none) (delete_all es q)
  unfolding delete_all
  delete_each [] q i = returned _ refl (none_left q i)
  delete_each (e ∷ es) q i =
      let (t, l, w) = i.keyed_batch.0 in
      rw (free_lem e.timer q l) (
        delete_each es (record q { heap = remove e.timer q.heap })
          (removed-IsSound e es (cleared q) i l))

  -- The destructor of a queue that owns its timers deletes each of them once, and leaves none.
  pub delete_all-heap :
      (q : TimerQueue S)
      → IsSound [] q
      → Returns (λ r. (p : ℕ) → lookup p r.heap ≡ none) (delete_all q.timers q)
  delete_all-heap q i = delete_each q.timers q (record {
    sorted = tt;
    keyed_batch = i.keyed;
    keyed = tt;
    counted = λ p. let c = i.counted p in omega arith;
  })
