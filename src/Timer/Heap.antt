-- ===== src/Timer/Heap.antt =====
-- What the heap of a queue holds behind a new timer, a change and a `delete`.
use yvent.Prelude.{
  ℕ, ◌≡◌, refl, ap, List, [], ◌∷◌, true, false, ◌==◌, Bool-cases, Option, none, some, inl, inr,
  arith,
}
use yvent.Fault.{ok, err, dangling}
use yvent.Timer.{Timer, found, lookup, load, store, remove}

abbrev pub alive : {S : Type 0} → Option (Timer S) → ℕ
alive none = 0
alive (some t) = 1

-- Whether an address is in use, as a number.
abbrev pub live : {S : Type 0} → ℕ → List (ℕ × Timer S) → ℕ
live p h = alive (lookup p h)

-- Only `p` may differ.
abbrev pub Apart : {S : Type 0} → ℕ → List (ℕ × Timer S) → List (ℕ × Timer S) → Type 0
Apart p g h = (q : ℕ) → (q == p) ≡ false → lookup q h ≡ lookup q g

module _ {S : Type 0} where
  pub lookup-load :
      (p : ℕ) (h : List (ℕ × Timer S)) {t : Timer S} → lookup p h ≡ some t → load p h ≡ ok t
  unfolding load
  lookup-load p h e = ap found e

  pub load_fails : (p : ℕ) (h : List (ℕ × Timer S)) → lookup p h ≡ none → load p h ≡ err dangling
  unfolding load
  load_fails p h e = ap found e

  pub lookup-live :
      (p : ℕ) (h : List (ℕ × Timer S)) {t : Timer S} → lookup p h ≡ some t → live p h ≡ 1
  lookup-live p h e = ap alive e

  pub live_zero : (p : ℕ) (h : List (ℕ × Timer S)) → lookup p h ≡ none → live p h ≡ 0
  live_zero p h e = ap alive e

  pub lookup-new : (p : ℕ) (t : Timer S) (h : List (ℕ × Timer S)) → lookup p ((p, t) ∷ h) ≡ some t
  unfolding lookup
  lookup-new p t h = let e : (p == p) ≡ true = ground arith in rw e

  pub new-Apart : (p : ℕ) (t : Timer S) (h : List (ℕ × Timer S)) → Apart p h ((p, t) ∷ h)
  unfolding lookup
  new-Apart p t h q d = rw d

  pub lookup-store :
      (p : ℕ) (s t : Timer S) (h : List (ℕ × Timer S))
      → lookup p h ≡ some t
      → lookup p (store p s h) ≡ some s
  unfolding lookup store
  lookup-store p s t [] e = cc
  lookup-store p s t (c ∷ h) e = elim (Bool-cases (p == c.0)) [
    | inl b ↦ let r : (p == p) ≡ true = ground arith in rw (b, r)
    | inr b ↦ rw (b, b) (lookup-store p s t h (rw b at e))
  ]

  pub store-Apart : (p : ℕ) (s : Timer S) (h : List (ℕ × Timer S)) → Apart p h (store p s h)
  unfolding lookup store
  store-Apart p s [] q d = refl
  store-Apart p s (c ∷ h) q d = elim (Bool-cases (p == c.0)) [
    | inl b ↦ let k : (q == c.0) ≡ false = ground arith in rw (b, k, d) (store-Apart p s h q d)
    | inr b ↦ rw (b, store-Apart p s h q d)
  ]

  pub lookup-remove : (p : ℕ) (h : List (ℕ × Timer S)) → lookup p (remove p h) ≡ none
  unfolding lookup remove
  lookup-remove p [] = refl
  lookup-remove p (c ∷ h) = elim (Bool-cases (p == c.0)) [
    | inl b ↦ rw (b, lookup-remove p h)
    | inr b ↦ rw (b, b) (lookup-remove p h)
  ]

  pub remove-Apart : (p : ℕ) (h : List (ℕ × Timer S)) → Apart p h (remove p h)
  unfolding lookup remove
  remove-Apart p [] q d = refl
  remove-Apart p (c ∷ h) q d = elim (Bool-cases (p == c.0)) [
    | inl b ↦ let k : (q == c.0) ≡ false = ground arith in rw (b, k) (remove-Apart p h q d)
    | inr b ↦ rw (b, remove-Apart p h q d)
  ]

  pub Apart-live :
      (p : ℕ) (g h : List (ℕ × Timer S))
      → Apart p g h
      → (q : ℕ) → (q == p) ≡ false
      → live q h ≡ live q g
  Apart-live p g h a q d = ap alive (a q d)
