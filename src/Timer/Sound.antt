-- ===== src/Timer/Sound.antt =====
-- Which timers a queue owns while `handleRead` has still a batch of entries to treat, and that every call
-- of a callback keeps it so.
use yvent.Prelude.{
  ℕ, ◌+◌, ◌≡◌, refl, sym, ap, ◌∙◌, inl, inr, List, [], ◌∷◌, All, true, false, ◌==◌, ==_iff,
  Bool-cases, some, arith,
}
use yvent.Fault.{ok}
use yvent.Timer.{Timer, Entry, TimerQueue, entry, lookup, store, remove, free, again}
use yvent.Timer.Heap.{
  live, Apart, lookup-load, lookup-live, live_zero, lookup-store, store-Apart, lookup-remove,
  remove-Apart, Apart-live,
}
use yvent.Timer.Order.{IsSorted, count, All-weaken, insert-All, insert-IsSorted, count-insert}

-- The entry's timer is there and has the time of the entry.
abbrev pub Keyed : {S : Type 0} → List (ℕ × Timer S) → Entry → Type 0
Keyed {S} h e = (t : Timer S) × (lookup e.timer h ≡ some t) × (t.when ≡ e.key)

-- The set is in order, the entries point to timers with their times, and every timer that is there is
-- pointed to once, by the set or by the batch.
pub record IsSound {S : Type 0} (batch : List Entry) (q : TimerQueue S) : Type 0 where
  pub sorted : IsSorted q.timers
  pub keyed_batch : All (Keyed q.heap) batch
  pub keyed : All (Keyed q.heap) q.timers
  pub counted : (p : ℕ) → count p batch + count p q.timers ≡ live p q.heap

module _ {S : Type 0} where
  pub Keyed-Apart :
      (p : ℕ) (g h : List (ℕ × Timer S)) (es : List Entry)
      → Apart p g h
      → count p es ≡ 0
      → All (Keyed g) es
      → All (Keyed h) es
  Keyed-Apart p g h [] a z k = tt
  Keyed-Apart p g h (e ∷ es) a z ((t, l, w), k) = elim (Bool-cases (p == e.timer)) [
    | inl b ↦ absurd (let y = rw b at z in omega arith)
    | inr b ↦
        let d : (e.timer == p) ≡ false = ground arith in
        ((t, a e.timer d ∙ l, w), Keyed-Apart p g h es a (let y = rw b at z in omega arith) k)
  ]

  pub Keyed-store :
      (p : ℕ) (s t : Timer S) (h : List (ℕ × Timer S)) (es : List Entry)
      → lookup p h ≡ some t
      → s.when ≡ t.when
      → All (Keyed h) es
      → All (Keyed (store p s h)) es
  Keyed-store p s t h es l w k =
      All-weaken (Keyed h) (Keyed (store p s h))
        (λ e x. elim (Bool-cases (e.timer == p)) [
          | inl b ↦
              let i : e.timer ≡ p = (==_iff e.timer p).0 b in
              let j : some x.0 ≡ some t = sym x.1 ∙ ap (λ a. lookup a h) i ∙ l in
              let v : x.0.when ≡ t.when = cc in
              (s, ap (λ a. lookup a (store p s h)) i ∙ lookup-store p s t h l, w ∙ sym v ∙ x.2)
          | inr b ↦ (x.0, store-Apart p s h e.timer b ∙ x.1, x.2)
        ])
        es k

  pub live-store :
      (p q : ℕ) (s t : Timer S) (h : List (ℕ × Timer S))
      → lookup p h ≡ some t
      → live q (store p s h) ≡ live q h
  live-store p q s t h l = elim (Bool-cases (q == p)) [
    | inl b ↦
        let i : q ≡ p = (==_iff q p).0 b in
        rw i (lookup-live p (store p s h) (lookup-store p s t h l) ∙ sym (lookup-live p h l))
    | inr b ↦ Apart-live p h (store p s h) (store-Apart p s h) q b
  ]

  -- The timer of the first entry of the batch is in no other entry.
  pub front_alone :
      (e : Entry) (es : List Entry) (q : TimerQueue S) {t : Timer S}
      → IsSound (e ∷ es) q
      → lookup e.timer q.heap ≡ some t
      → (count e.timer es ≡ 0) × (count e.timer q.timers ≡ 0)
  front_alone e es q i l =
      let one : live e.timer q.heap ≡ 1 = lookup-live e.timer q.heap l in
      let r : (e.timer == e.timer) ≡ true = ground arith in
      let c = rw r at (i.counted e.timer) in (omega arith, omega arith)

  pub free_lem :
      (p : ℕ) (q : TimerQueue S) {t : Timer S}
      → lookup p q.heap ≡ some t
      → free p q ≡ ok (record q { heap = remove p q.heap })
  unfolding free
  free_lem p q l = rw (lookup-load p q.heap l)

  -- A timer goes with its entry.
  pub removed-IsSound :
      (e : Entry) (es : List Entry) (q : TimerQueue S) {t : Timer S}
      → IsSound (e ∷ es) q
      → lookup e.timer q.heap ≡ some t
      → IsSound es (record q { heap = remove e.timer q.heap })
  removed-IsSound e es q i l =
      let (y, z) = front_alone e es q i l in
      record {
        sorted = i.sorted;
        keyed_batch =
            Keyed-Apart e.timer q.heap (remove e.timer q.heap) es (remove-Apart e.timer q.heap) y
              i.keyed_batch.1;
        keyed =
            Keyed-Apart e.timer q.heap (remove e.timer q.heap) q.timers
              (remove-Apart e.timer q.heap) z i.keyed;
        counted = λ p. elim (Bool-cases (p == e.timer)) [
          | inl b ↦
              let j : p ≡ e.timer = (==_iff p e.timer).0 b in
              let n : live e.timer (remove e.timer q.heap) ≡ 0 =
                live_zero e.timer (remove e.timer q.heap) (lookup-remove e.timer q.heap) in
              rw j (omega arith)
          | inr b ↦
              let a =
                Apart-live e.timer q.heap (remove e.timer q.heap) (remove-Apart e.timer q.heap) p
                  b in
              let c = rw b at (i.counted p) in omega arith
        ];
      }

  -- A timer that starts again is in the set again, and not in the batch any more.
  pub again-IsSound :
      (e : Entry) (es : List Entry) (q : TimerQueue S) (s : Timer S) {t : Timer S}
      → IsSound (e ∷ es) q
      → lookup e.timer q.heap ≡ some t
      → IsSound es (again e s q)
  again-IsSound e es q s {t} i l =
      let (y, z) = front_alone e es q i l in
      let a = store-Apart e.timer s q.heap in
      record {
        sorted = insert-IsSorted (entry s.when e.timer) q.timers i.sorted;
        keyed_batch = Keyed-Apart e.timer q.heap (store e.timer s q.heap) es a y i.keyed_batch.1;
        keyed =
            insert-All (Keyed (store e.timer s q.heap)) (entry s.when e.timer) q.timers
              (s, lookup-store e.timer s t q.heap l, refl)
              (Keyed-Apart e.timer q.heap (store e.timer s q.heap) q.timers a z i.keyed);
        counted = λ p.
            let c = i.counted p in
            let n = count-insert p (entry s.when e.timer) q.timers z in
            let m = live-store e.timer p s t q.heap l in omega arith;
      }
