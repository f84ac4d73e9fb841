-- ===== src/Timer/Batch.antt =====
-- A batch of `handleRead`: each turn, and the timers that the queue owns behind it, whatever the callbacks do.
use yvent.Prelude.{
  ℕ, ◌+◌, ◌≡◌, refl, sym, ap, ◌∙◌, ◌⊎◌, inl, inr, List, [], ◌∷◌, ◌++◌, append_assoc, append-nil,
  true, false, Bool-cases, some,
}
use yvent.Fault.{ok, Returns, returned, Returns-ok, ◌>>=◌}
use yvent.Timer.{
  Timer, Entry, TimerQueue, get_expired, lookup, remove, again, rearm, restart, run, finish, turn,
  run_expired, handle_read,
}
use yvent.Timer.Expiry.{get_expired-IsSound, get_expired-due, due}
use yvent.Timer.Heap.{lookup-load}
use yvent.Timer.Sound.{IsSound, removed-IsSound, again-IsSound}
use yvent.Timer.Calls.{Kept, IsSound-same, Fresh, CancelsBadly, run-IsSound}

-- Some of these, in the same order.
pub data Some : List ℕ → List Entry → Type 0 where
  none_left : Some [] []
  skipped : {e : Entry} {ps : List ℕ} {es : List Entry} → Some ps es → Some ps (e ∷ es)
  chosen : {e : Entry} {ps : List ℕ} {es : List Entry} → Some ps es → Some (e.timer ∷ ps) (e ∷ es)

module _ {S : Type 0} where
  abbrev pub next_time : Timer S → Timer S
  next_time t = record t { when = t.when + t.interval }

  pub finish_restarts :
      (e : Entry) (q : TimerQueue S) {t : Timer S}
      → lookup e.timer q.heap ≡ some t
      → t.repeats ≡ true
      → finish e q ≡ ok (again e (next_time t) q)
  unfolding finish restart
  finish_restarts e q l r = simp (lookup-load e.timer q.heap l, r) refl

  pub finish_goes :
      (e : Entry) (q : TimerQueue S) {t : Timer S}
      → lookup e.timer q.heap ≡ some t
      → t.repeats ≡ false
      → finish e q ≡ ok (record q { heap = remove e.timer q.heap })
  unfolding finish
  finish_goes e q l r = rw (lookup-load e.timer q.heap l, r)

  finish-Kept :
      (e : Entry) (es : List Entry) (q : TimerQueue S)
      → IsSound (e ∷ es) q
      → Returns (Kept es q) (finish e q)
  finish-Kept e es q i =
      let (t, l, w) = i.keyed_batch.0 in
      elim (Bool-cases t.repeats) [
        | inl r ↦
            returned _ (finish_restarts e q l r) (again-IsSound e es q (next_time t) i l, refl)
        | inr r ↦ returned _ (finish_goes e q l r) (removed-IsSound e es q i l, refl)
      ]

module _ {S : Type 0} (alloc : List (ℕ × Timer S) → ℕ) where
  abbrev pub started : Entry → TimerQueue S → TimerQueue S
  started e q = record q { ran = q.ran ++ e.timer ∷ [] }

  pub turn_canceled :
      (e : Entry) (q : TimerQueue S) {t : Timer S}
      → lookup e.timer q.heap ≡ some t
      → t.canceled ≡ true
      → turn alloc e q ≡ ok (record q { heap = remove e.timer q.heap })
  unfolding turn
  turn_canceled e q l c = rw (lookup-load e.timer q.heap l, c)

  pub turn_runs :
      (e : Entry) (q : TimerQueue S) {t : Timer S}
      → lookup e.timer q.heap ≡ some t
      → t.canceled ≡ false
      → turn alloc e q ≡ run alloc (t.callback q.state) (started e q) >>= finish e
  unfolding turn
  turn_runs e q l c = rw (lookup-load e.timer q.heap l, c)

  -- The loop of `handleRead` comes from a batch and a queue to others.
  pub data Comes (es : List Entry) (q : TimerQueue S) : List Entry → TimerQueue S → Type 0 where
    here : Comes es q es q
    later :
        {e : Entry} {ds : List Entry} {p r : TimerQueue S}
        → Comes es q (e ∷ ds) p
        → turn alloc e p ≡ ok r
        → Comes es q ds r

  -- A callback that the loop ran canceled a timer badly.
  pub record Misused (es : List Entry) (q : TimerQueue S) : Type 0 where
    pub current : Entry
    pub rest : List Entry
    pub queue : TimerQueue S
    pub timer : Timer S
    pub comes : Comes es q (current ∷ rest) queue
    pub there : lookup current.timer queue.heap ≡ some timer
    pub calls : CancelsBadly alloc (timer.callback queue.state) (started current queue)

  Misused-later :
      (e : Entry) (es : List Entry) (q r : TimerQueue S)
      → turn alloc e q ≡ ok r
      → Misused es r
      → Misused (e ∷ es) q
  Misused-later e es q r f m = record {
    current = m.current;
    rest = m.rest;
    queue = m.queue;
    timer = m.timer;
    comes = sooner e es q r f m.comes;
    there = m.there;
    calls = m.calls;
  }
    where
      sooner :
          (e : Entry) (es : List Entry) (q r : TimerQueue S)
          → turn alloc e q ≡ ok r
          → {ds : List Entry} {p : TimerQueue S} → Comes es r ds p
          → Comes (e ∷ es) q ds p
      sooner e es q r f here = later here f
      sooner e es q r f (later c g) = later (sooner e es q r f c) g

  -- What the loop leaves: a sound queue, and more timers that ran, some of the batch.
  abbrev pub Ran : List Entry → TimerQueue S → TimerQueue S → Type 0
  Ran es q r = IsSound [] r × ((ps : List ℕ) × Some ps es × (r.ran ≡ q.ran ++ ps))

  module _ (fresh : Fresh alloc) where
    -- A turn of the loop.
    turn-Kept :
        (e : Entry) (es : List Entry) (q : TimerQueue S)
        → IsSound (e ∷ es) q
        → Misused (e ∷ es) q
          ⊎ Returns
              (λ r. IsSound es r × ((r.ran ≡ q.ran) ⊎ (r.ran ≡ q.ran ++ e.timer ∷ [])))
              (turn alloc e q)
    turn-Kept e es q i =
        let (t, l, w) = i.keyed_batch.0 in
        elim (Bool-cases t.canceled) [
          | inl c ↦ inr (returned _ (turn_canceled e q l c) (removed-IsSound e es q i l, inl refl))
          | inr c ↦
              let j : IsSound (e ∷ es) (started e q) =
                IsSound-same (e ∷ es) q (started e q) refl refl i in
              elim (run-IsSound alloc fresh (e ∷ es) (t.callback q.state) (started e q) j) [
                | inl b ↦ inl (record {
                  current = e;
                  rest = es;
                  queue = q;
                  timer = t;
                  comes = here;
                  there = l;
                  calls = b;
                })
                | inr d ↦
                    let (p, f, (k, n)) = Returns-ok d in
                    let (r, g, (m, o)) = Returns-ok (finish-Kept e es p k) in
                    inr (
                      returned _ (turn_runs e q l c ∙ ap (λ x. x >>= finish e) f ∙ g)
                        (m, inr (o ∙ n)))
              ]
        ]

    -- The whole loop.
    pub run_expired-Ran :
        (es : List Entry) (q : TimerQueue S)
        → IsSound es q
        → Misused es q ⊎ Returns (Ran es q) (run_expired alloc es q)
    unfolding run_expired
    run_expired-Ran [] q i = inr (returned _ refl (i, ([], none_left, sym (append-nil q.ran))))
    run_expired-Ran (e ∷ es) q i = elim (turn-Kept e es q i) [
      | inl m ↦ inl m
      | inr d ↦
          let (p, f, (j, o)) = Returns-ok d in
          elim (run_expired-Ran es p j) [
            | inl m ↦ inl (Misused-later e es q p f m)
            | inr k ↦
                let (r, g, (n, (ps, s, u))) = Returns-ok k in
                inr (rw f (returned _ g (n, more e es q p r ps s u o)))
          ]
    ]
      where
        more :
            (e : Entry) (es : List Entry) (q p r : TimerQueue S) (ps : List ℕ)
            → Some ps es
            → r.ran ≡ p.ran ++ ps
            → (p.ran ≡ q.ran) ⊎ (p.ran ≡ q.ran ++ e.timer ∷ [])
            → (os : List ℕ) × Some os (e ∷ es) × (r.ran ≡ q.ran ++ os)
        more e es q p r ps s u (inl o) = (ps, skipped s, u ∙ ap (λ x. x ++ ps) o)
        more e es q p r ps s u (inr o) =
            (e.timer ∷ ps, chosen s, u ∙ ap (λ x. x ++ ps) o ∙ append_assoc q.ran (e.timer ∷ []) ps)

    rearm-Ran :
        (es ts : List Entry) (behind : ℕ) (q r : TimerQueue S)
        → Ran es q r
        → Ran es q (rearm behind r ts)
    unfolding rearm
    rearm-Ran es [] behind q r h = h
    rearm-Ran es (t ∷ ts) behind q r h =
        (IsSound-same [] r (rearm behind r (t ∷ ts)) refl refl h.0, h.1)

    -- `handleRead` in a queue that owns its timers comes back, with a queue that owns its timers: each
    -- timer that was not deleted is in the set once, under its time, in order. What ran is some of what
    -- was due, in order. The one exception is a callback that cancels a timer that was deleted or
    -- canceled before.
    pub handle_read-Ran :
        (now behind : ℕ) (q : TimerQueue S)
        → IsSound [] q
        → Misused (get_expired now q).0 (get_expired now q).1
          ⊎ Returns (Ran (due now q.timers) q) (handle_read alloc now behind q)
    unfolding handle_read get_expired
    handle_read-Ran now behind q i =
        elim (run_expired-Ran (get_expired now q).0 (get_expired now q).1
          (get_expired-IsSound now q i)) [
            | inl m ↦ inl m
            | inr d ↦
                let (r, f, h) = Returns-ok d in
                inr (
                  returned _ (ap (λ x. x >>= λ p. ok (rearm behind p p.timers)) f) (
                    rearm-Ran (due now q.timers) r.timers behind q r
                      (rw (sym (get_expired-due now q i.sorted)) h)))
          ]
