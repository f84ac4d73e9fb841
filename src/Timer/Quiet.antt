-- ===== src/Timer/Quiet.antt =====
-- Callbacks that cancel no timer, and what they leave of the timers.
use yvent.Prelude.{
  ℕ, ◌≡◌, refl, sym, ap, ◌∙◌, inl, inr, List, [], ◌∷◌, All, Bool, true, false, ◌==◌, ==_iff,
  if◌then◌else◌, Bool-cases, Option, none, some, arith,
}
use yvent.Fault.{Returns, returned, Returns-ok}
use yvent.Timer.{
  Timer, Entry, TimerQueue, Program, done, add, cancel_then, lookup, add_timer, make, run,
}
use yvent.Timer.Heap.{Apart, lookup-new, new-Apart}
use yvent.Timer.Order.{count}
use yvent.Timer.Sound.{Keyed}
use yvent.Timer.Calls.{Fresh, CancelsBadly, after_add}

module _ {S : Type 0} where
  -- Neither this program nor the callbacks that it adds cancel a timer.
  abbrev pub AddsOnly : Program S → Type 0
  AddsOnly (done s) = Unit
  AddsOnly (add now when interval callback next) =
      ((s : S) → AddsOnly (callback s)) × ((p : ℕ) → AddsOnly (next p))
  AddsOnly (cancel_then p next) = ⊥

  abbrev pub Quiet : List (ℕ × Timer S) → Type 0
  Quiet h = (p : ℕ) (t : Timer S) → lookup p h ≡ some t → (s : S) → AddsOnly (t.callback s)

  abbrev pub is_off : Option (Timer S) → Bool
  is_off none = true
  is_off (some t) = t.canceled

  -- The addresses of the timers of these entries that are not canceled.
  abbrev pub running : List (ℕ × Timer S) → List Entry → List ℕ
  running h [] = []
  running h (e ∷ es) = if is_off (lookup e.timer h) then running h es else e.timer ∷ running h es

  abbrev pub Alike : (g h : List (ℕ × Timer S)) → Entry → Type 0
  Alike g h e = lookup e.timer h ≡ lookup e.timer g

  -- Every timer of the first is in the second, as it was.
  abbrev pub Grows : (g h : List (ℕ × Timer S)) → Type 0
  Grows g h = (p : ℕ) (t : Timer S) → lookup p g ≡ some t → lookup p h ≡ some t

  pub Quiet-Apart :
      (p : ℕ) (g h : List (ℕ × Timer S))
      → Apart p g h
      → ((t : Timer S) → lookup p h ≡ some t → (s : S) → AddsOnly (t.callback s))
      → Quiet g
      → Quiet h
  Quiet-Apart p g h a f k x t l s = elim (Bool-cases (x == p)) [
    | inl b ↦ f t (sym (ap (λ y. lookup y h) ((==_iff x p).0 b)) ∙ l) s
    | inr b ↦ k x t (sym (a x b) ∙ l) s
  ]

  pub running-Alike :
      (g h : List (ℕ × Timer S)) (es : List Entry)
      → All (Alike g h) es
      → running h es ≡ running g es
  running-Alike g h [] a = refl
  running-Alike g h (e ∷ es) (b, a) = rw (b, running-Alike g h es a)

  pub Apart-Alike :
      (p : ℕ) (g h : List (ℕ × Timer S)) (es : List Entry)
      → Apart p g h
      → count p es ≡ 0
      → All (Alike g h) es
  Apart-Alike p g h [] a z = tt
  Apart-Alike p g h (e ∷ es) a z = elim (Bool-cases (p == e.timer)) [
    | inl b ↦ absurd (let y = rw b at z in omega arith)
    | inr b ↦
        let d : (e.timer == p) ≡ false = ground arith in
        (a e.timer d, Apart-Alike p g h es a (let y = rw b at z in omega arith))
  ]

  pub Grows-Alike :
      (g h : List (ℕ × Timer S)) (es : List Entry)
      → Grows g h
      → All (Keyed g) es
      → All (Alike g h) es
  Grows-Alike g h [] f k = tt
  Grows-Alike g h (e ∷ es) f ((t, l, w), k) = (f e.timer t l ∙ sym l, Grows-Alike g h es f k)

  pub Alike-trans :
      (f g h : List (ℕ × Timer S)) (es : List Entry)
      → All (Alike f g) es
      → All (Alike g h) es
      → All (Alike f h) es
  Alike-trans f g h [] a b = tt
  Alike-trans f g h (e ∷ es) (x, a) (y, b) = (y ∙ x, Alike-trans f g h es a b)

module _ {S : Type 0} (alloc : List (ℕ × Timer S) → ℕ) where
  pub AddsOnly-CancelsBadly :
      (program : Program S) (q : TimerQueue S) → AddsOnly program → CancelsBadly alloc program q → ⊥
  AddsOnly-CancelsBadly (done s) q a c = elim c [ ]
  AddsOnly-CancelsBadly (add now when interval callback next) q (f, a) (after_add c) =
      AddsOnly-CancelsBadly (next (alloc q.heap)) (add_timer alloc now when interval callback q)
        (a (alloc q.heap)) c
  AddsOnly-CancelsBadly (cancel_then p next) q a c = absurd a

  module _ (fresh : Fresh alloc) where
    -- A callback that only adds timers.
    pub run-Quiet :
        (program : Program S) (q : TimerQueue S)
        → AddsOnly program
        → Quiet q.heap
        → Returns (λ r. Quiet r.heap × Grows q.heap r.heap) (run alloc program q)
    unfolding run add_timer make
    run-Quiet (done s) q a k = returned _ refl (k, λ p t l. l)
    run-Quiet (add now when interval callback next) q (f, a) k =
        let p = alloc q.heap in
        let t = make when callback interval in
        let d = new-Apart p t q.heap in
        let k2 : Quiet ((p, t) ∷ q.heap) =
          Quiet-Apart p q.heap ((p, t) ∷ q.heap) d
            (λ u l s.
              let e : some t ≡ some u = sym (lookup-new p t q.heap) ∙ l in
              let e2 : t ≡ u = cc in rw (sym e2) (f s))
            k in
        let (r, e, (m, n)) =
          Returns-ok (run-Quiet (next p) (add_timer alloc now when interval callback q) (a p) k2) in
        returned _ e (
          m,
          λ x u l. n x u (
              d x (elim (Bool-cases (x == p)) [
                | inl b ↦
                    let i : x ≡ p = (==_iff x p).0 b in
                    let c = sym (fresh q.heap) ∙ sym (ap (λ y. lookup y q.heap) i) ∙ l in absurd cc
                | inr b ↦ b
              ])
              ∙ l),
        )
    run-Quiet (cancel_then p next) q a k = absurd a
