-- ===== src/EventLoop/Threads/Maps.antt =====
-- The maps between loops and threads, behind a new loop and behind the end of one.
use yvent.Prelude.{
  ℕ, ◌≡◌, ◌≢◌, inl, inr, sym, ap, ◌∙◌, true, Option, none, some, ◌==◌, ==_iff, Bool-cases, arith,
}
use yvent.EventLoop.Threads.{put}

-- The field `tid_` of the loops and `t_Eventloop` of the threads agree.
pub record Agree (tid event_loop : ℕ → Option ℕ) : Type 0 where
  pub owned : (l t : ℕ) → tid l ≡ some t → event_loop t ≡ some l
  pub known : (l t : ℕ) → event_loop t ≡ some l → tid l ≡ some t
  pub real : (l t : ℕ) → tid l ≡ some t → t ≢ 0

pub put_same : {A : Type 0} (i : ℕ) (a : A) (f : ℕ → A) → put i a f i ≡ a
put_same i a f = let b : (i == i) ≡ true = ground arith in rw b

pub some-inj : {a b : ℕ} → some a ≡ some b → a ≡ b
some-inj e = cc

pub none-some : {a : ℕ} → none ≡ some a → ⊥
none-some e = cc

-- A new loop of a thread that had none.
pub added-Agree :
    (l t : ℕ) (tid event_loop : ℕ → Option ℕ)
    → t ≢ 0
    → tid l ≡ none
    → event_loop t ≡ none
    → Agree tid event_loop
    → Agree (put l (some t) tid) (put t (some l) event_loop)
added-Agree l t tid event_loop z n o a = record {
  owned = λ m u e. elim (Bool-cases (m == l)) [
    | inl b ↦
        let i : m ≡ l = (==_iff m l).0 b in
        let j : t ≡ u = some-inj (rw b at e) in let k : (u == t) ≡ true = ground arith in rw (k, i)
    | inr b ↦
        let f : tid m ≡ some u = rw b at e in
        elim (Bool-cases (u == t)) [
          | inl k ↦
              let j : u ≡ t = (==_iff u t).0 k in
              absurd (none-some (sym o ∙ sym (ap event_loop j) ∙ a.owned m u f))
          | inr k ↦ rw k (a.owned m u f)
        ]
  ];
  known = λ m u e. elim (Bool-cases (u == t)) [
    | inl b ↦
        let i : u ≡ t = (==_iff u t).0 b in
        let j : l ≡ m = some-inj (rw b at e) in let k : (m == l) ≡ true = ground arith in rw (k, i)
    | inr b ↦
        let f : event_loop u ≡ some m = rw b at e in
        elim (Bool-cases (m == l)) [
          | inl k ↦
              let j : m ≡ l = (==_iff m l).0 k in
              absurd (none-some (sym n ∙ sym (ap tid j) ∙ a.known m u f))
          | inr k ↦ rw k (a.known m u f)
        ]
  ];
  real = λ m u e. elim (Bool-cases (m == l)) [
    | inl b ↦ let j : t ≡ u = some-inj (rw b at e) in rw (sym j) z
    | inr b ↦ a.real m u (rw b at e)
  ];
}

-- The end of a loop in its thread.
pub removed-Agree :
    (l t : ℕ) (tid event_loop : ℕ → Option ℕ)
    → event_loop t ≡ some l
    → Agree tid event_loop
    → Agree (put l none tid) (put t none event_loop)
removed-Agree l t tid event_loop o a = record {
  owned = λ m u e. elim (Bool-cases (m == l)) [
    | inl b ↦ absurd (none-some (rw b at e))
    | inr b ↦
        let f : tid m ≡ some u = rw b at e in
        elim (Bool-cases (u == t)) [
          | inl k ↦
              let j : u ≡ t = (==_iff u t).0 k in
              let h : l ≡ m = some-inj (sym o ∙ sym (ap event_loop j) ∙ a.owned m u f) in
              let c : (m == l) ≡ true = ground arith in absurd cc
          | inr k ↦ rw k (a.owned m u f)
        ]
  ];
  known = λ m u e. elim (Bool-cases (u == t)) [
    | inl b ↦ absurd (none-some (rw b at e))
    | inr b ↦
        let f : event_loop u ≡ some m = rw b at e in
        elim (Bool-cases (m == l)) [
          | inl k ↦
              let j : m ≡ l = (==_iff m l).0 k in
              let h : t ≡ u = some-inj (sym (a.known l t o) ∙ sym (ap tid j) ∙ a.known m u f) in
              let c : (u == t) ≡ true = ground arith in absurd cc
          | inr k ↦ rw k (a.known m u f)
        ]
  ];
  real = λ m u e. elim (Bool-cases (m == l)) [
    | inl b ↦ absurd (none-some (rw b at e))
    | inr b ↦ a.real m u (rw b at e)
  ];
}
