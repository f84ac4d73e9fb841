-- ===== src/Timer/Runs.antt =====
-- `handleRead` where the callbacks cancel nothing, which leaves it to the queue alone which timers run.
use yvent.Prelude.{
  ℕ, ◌≡◌, refl, sym, ap, ◌∙◌, inl, inr, List, [], ◌∷◌, ◌++◌, All, append_assoc, append-nil, true,
  false, Bool-cases, some,
}
use yvent.Fault.{ok, ◌>>=◌, Returns, returned, Returns-ok, ok-inj}
use yvent.Timer.{
  Timer, Entry, TimerQueue, lookup, remove, store, get_expired, finish, turn, run_expired,
  handle_read, rearm,
}
use yvent.Timer.Heap.{lookup-store, store-Apart, lookup-remove, remove-Apart}
use yvent.Timer.Sound.{IsSound, front_alone, removed-IsSound, again-IsSound}
use yvent.Timer.Calls.{IsSound-same, Fresh, run-IsSound}
use yvent.Timer.Expiry.{get_expired-IsSound, get_expired-due, due}
use yvent.Timer.Batch.{started, turn_canceled, turn_runs, next_time, finish_restarts, finish_goes}
use yvent.Timer.Quiet.{
  Quiet, is_off, running, Alike, Quiet-Apart, running-Alike, Apart-Alike, Grows-Alike, Alike-trans,
  AddsOnly-CancelsBadly, run-Quiet,
}

module _ {S : Type 0} (alloc : List (ℕ × Timer S) → ℕ) (fresh : Fresh alloc) where
  -- What a turn and the whole loop leave of the timers, and what they ran.
  record Went (es ds : List Entry) (q r : TimerQueue S) : Type 0 where
    sound : IsSound ds r
    quiet : Quiet r.heap
    alike : All (Alike q.heap r.heap) ds
    list : r.ran ≡ q.ran ++ running q.heap es

  -- A timer that goes.
  gone-Went :
      (e : Entry) (es : List Entry) (q p : TimerQueue S) {t : Timer S}
      → IsSound (e ∷ es) p
      → Quiet p.heap
      → All (Alike q.heap p.heap) es
      → p.ran ≡ q.ran ++ running q.heap (e ∷ [])
      → lookup e.timer p.heap ≡ some t
      → Went (e ∷ []) es q (record p { heap = remove e.timer p.heap })
  gone-Went e es q p {t} i k a n l =
      let (y, z) = front_alone e es p i l in
      record {
        sound = removed-IsSound e es p i l;
        quiet =
            Quiet-Apart e.timer p.heap (remove e.timer p.heap) (remove-Apart e.timer p.heap)
              (λ u v s. let c = sym (lookup-remove e.timer p.heap) ∙ v in absurd cc) k;
        alike =
            Alike-trans q.heap p.heap (remove e.timer p.heap) es a (
              Apart-Alike e.timer p.heap (remove e.timer p.heap) es (remove-Apart e.timer p.heap)
                y);
        list = n;
      }

  finish-Went :
      (e : Entry) (es : List Entry) (q p : TimerQueue S)
      → IsSound (e ∷ es) p
      → Quiet p.heap
      → All (Alike q.heap p.heap) es
      → p.ran ≡ q.ran ++ running q.heap (e ∷ [])
      → Returns (Went (e ∷ []) es q) (finish e p)
  finish-Went e es q p i k a n =
      let (t, l, w) = i.keyed_batch.0 in
      let (y, z) = front_alone e es p i l in
      elim (Bool-cases t.repeats) [
        | inl r ↦
            let h = store e.timer (next_time t) p.heap in
            returned _ (finish_restarts e p l r) (record {
              sound = again-IsSound e es p (next_time t) i l;
              quiet =
                  Quiet-Apart e.timer p.heap h (store-Apart e.timer (next_time t) p.heap)
                    (λ u v s.
                      let c : some (next_time t) ≡ some u =
                        sym (lookup-store e.timer (next_time t) t p.heap l) ∙ v in
                      let d : next_time t ≡ u = cc in rw (sym d) (k e.timer t l s))
                    k;
              alike =
                  Alike-trans q.heap p.heap h es a
                    (Apart-Alike e.timer p.heap h es (store-Apart e.timer (next_time t) p.heap) y);
              list = n;
            })
        | inr r ↦ returned _ (finish_goes e p l r) (gone-Went e es q p i k a n l)
      ]

  All-Alike : (h : List (ℕ × Timer S)) (es : List Entry) → All (Alike h h) es
  All-Alike h [] = tt
  All-Alike h (e ∷ es) = (refl, All-Alike h es)

  turn-Went :
      (e : Entry) (es : List Entry) (q : TimerQueue S)
      → IsSound (e ∷ es) q
      → Quiet q.heap
      → Returns (Went (e ∷ []) es q) (turn alloc e q)
  turn-Went e es q i k =
      let (t, l, w) = i.keyed_batch.0 in
      elim (Bool-cases t.canceled) [
        | inl c ↦
            returned _ (turn_canceled alloc e q l c)
              (gone-Went e es q q i k (All-Alike q.heap es) (off e q l c) l)
        | inr c ↦
            let j : IsSound (e ∷ es) (started alloc e q) =
              IsSound-same (e ∷ es) q (started alloc e q) refl refl i in
            let (r, f, (m, n)) = Returns-ok (
              run-Quiet alloc fresh (t.callback q.state) (started alloc e q) (k e.timer t l q.state)
                k) in
            elim (run-IsSound alloc fresh (e ∷ es) (t.callback q.state) (started alloc e q) j) [
              | inl b ↦ absurd (
                  AddsOnly-CancelsBadly alloc (t.callback q.state) (started alloc e q)
                    (k e.timer t l q.state) b)
              | inr d ↦
                  let (p, g, (o, u)) = Returns-ok d in
                  let v : p ≡ r = ok-inj (sym g ∙ f) in
                  let (x, h, y) = Returns-ok (
                    finish-Went e es q p o (rw v m)
                      (rw v (Grows-Alike q.heap r.heap es n i.keyed_batch.1)) (u ∙ on e q l c)) in
                  returned _ (turn_runs alloc e q l c ∙ ap (λ z. z >>= finish e) g ∙ h) y
            ]
      ]
    where
      off :
          (e : Entry) (q : TimerQueue S) {t : Timer S}
          → lookup e.timer q.heap ≡ some t
          → t.canceled ≡ true
          → q.ran ≡ q.ran ++ running q.heap (e ∷ [])
      off e q l c = rw (l, c) (sym (append-nil q.ran))

      on :
          (e : Entry) (q : TimerQueue S) {t : Timer S}
          → lookup e.timer q.heap ≡ some t
          → t.canceled ≡ false
          → q.ran ++ e.timer ∷ [] ≡ q.ran ++ running q.heap (e ∷ [])
      on e q l c = rw (l, c)

  running_front :
      (h : List (ℕ × Timer S)) (e : Entry) (es : List Entry)
      → running h (e ∷ []) ++ running h es ≡ running h (e ∷ es)
  running_front h e es = elim (Bool-cases (is_off (lookup e.timer h))) [
    | inl b ↦ rw b
    | inr b ↦ rw b
  ]

  run_expired-Went :
      (es : List Entry) (q : TimerQueue S)
      → IsSound es q
      → Quiet q.heap
      → Returns (Went es [] q) (run_expired alloc es q)
  unfolding run_expired
  run_expired-Went [] q i k =
      returned _ refl (record { sound = i; quiet = k; alike = tt; list = sym (append-nil q.ran) })
  run_expired-Went (e ∷ es) q i k =
      let (p, f, w) = Returns-ok (turn-Went e es q i k) in
      let (r, g, v) = Returns-ok (run_expired-Went es p w.sound w.quiet) in
      rw f (
        returned _ g (record {
          sound = v.sound;
          quiet = v.quiet;
          alike = tt;
          list =
              v.list
              ∙ ap (λ x. x ++ running p.heap es) w.list
              ∙ append_assoc q.ran (running q.heap (e ∷ [])) (running p.heap es)
              ∙ ap (λ x. q.ran ++ (running q.heap (e ∷ []) ++ x))
                  (running-Alike q.heap p.heap es w.alike)
              ∙ ap (λ x. q.ran ++ x) (running_front q.heap e es);
        }))

  -- Where no callback cancels a timer, `handleRead` comes back with a queue that owns its timers, and
  -- has run exactly the timers that were due and not canceled, in the order of their times; so it is
  -- again with the timers that the callbacks added.
  pub handle_read_lem :
      (now later : ℕ) (q : TimerQueue S)
      → IsSound [] q
      → Quiet q.heap
      → Returns
          (λ r. IsSound [] r × Quiet r.heap × (r.ran ≡ q.ran ++ running q.heap (due now q.timers)))
          (handle_read alloc now later q)
  unfolding handle_read get_expired rearm
  handle_read_lem now later q i k =
      let (r, f, w) = Returns-ok (
        run_expired-Went (get_expired now q).0 (get_expired now q).1 (get_expired-IsSound now q i)
          k) in
      returned _ (ap (λ x. x >>= λ p. ok (rearm later p p.timers)) f) (
        kept r later r.timers (
          w.sound,
          w.quiet,
          w.list ∙ ap (λ x. q.ran ++ running q.heap x) (get_expired-due now q i.sorted),
        ))
    where
      kept :
          (r : TimerQueue S) (later : ℕ) (ts : List Entry) {ps : List ℕ}
          → IsSound [] r × Quiet r.heap × (r.ran ≡ ps)
          → IsSound [] (rearm later r ts)
            × Quiet (rearm later r ts).heap
            × ((rearm later r ts).ran ≡ ps)
      kept r later [] w = w
      kept r later (t ∷ ts) w = (IsSound-same [] r (rearm later r (t ∷ ts)) refl refl w.0, w.1, w.2)
