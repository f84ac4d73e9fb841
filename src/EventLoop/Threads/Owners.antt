-- ===== src/EventLoop/Threads/Owners.antt =====
-- Each thread has one loop at most, and each loop knows its thread.
use yvent.Prelude.{
  ℕ, ◌≡◌, ◌⊎◌, inl, inr, refl, sym, ap, ◌∙◌, true, false, Option, none, some, ◌==◌, ==_iff,
  if◌then◌else◌, Bool-cases, arith,
}
use yvent.Fault.{◌>>◌, ok, err, assertion, bind-ok, ok-inj, check}
use yvent.EventLoop.Threads.{
  Threads, put, is_this, is_null, gettid, is_in_loop_thread, construct, destroy, Step, constructs,
  destroys, asks, Steps, start, and_then,
}
use yvent.EventLoop.Threads.Maps.{Agree, put_same, some-inj, none-some, added-Agree, removed-Agree}

-- What is cached is right.
abbrev Cached : (ℕ → ℕ) → Type 0
Cached cached_tid = (t : ℕ) → (cached_tid t ≡ 0) ⊎ (cached_tid t ≡ t)

gettid_tid : (t : ℕ) (w : Threads) → Cached w.cached_tid → (gettid t w).0 ≡ t
unfolding gettid
gettid_tid t w i = elim (Bool-cases (w.cached_tid t == 0)) [
  | inl b ↦ rw b
  | inr b ↦ elim (i t) [
    | inl e ↦ let c : (w.cached_tid t == 0) ≡ true = ground arith in absurd cc
    | inr e ↦ rw b e
  ]
]

gettid-Cached : (t : ℕ) (w : Threads) → Cached w.cached_tid → Cached (gettid t w).1.cached_tid
unfolding gettid
gettid-Cached t w i = elim (Bool-cases (w.cached_tid t == 0)) [
  | inl b ↦ rw b (λ u. elim (Bool-cases (u == t)) [
    | inl c ↦ let e : u ≡ t = (==_iff u t).0 c in inr (rw c (sym e))
    | inr c ↦ rw c (i u)
  ])
  | inr b ↦ rw b i
]

gettid_rest :
    (t : ℕ) (w : Threads)
    → ((gettid t w).1.event_loop ≡ w.event_loop) × ((gettid t w).1.tid ≡ w.tid)
unfolding gettid
gettid_rest t w = elim (Bool-cases (w.cached_tid t == 0)) [
  | inl b ↦ rw b (refl, refl)
  | inr b ↦ rw b (refl, refl)
]

record Holds (w : Threads) : Type 0 where
  cached : Cached w.cached_tid
  agree : Agree w.tid w.event_loop

gettid-Holds : (t : ℕ) (w : Threads) → Holds w → Holds (gettid t w).1
gettid-Holds t w h = record {
  cached = gettid-Cached t w h.cached;
  agree = let (a, b) = gettid_rest t w in rw (a, b) h.agree;
}

-- The state in which the constructor looks for a loop of the thread.
abbrev entered : ℕ → ℕ → Threads → Threads
entered t l w = let r = gettid t w in (gettid t (record r.1 { tid = put l (some r.0) r.1.tid })).1

-- What the constructor does in a thread.
construct_lem :
    (t l : ℕ) (w : Threads)
    → Cached w.cached_tid
    → construct true t l w ≡ (do
      check (is_null (w.event_loop t))
      ok (record (entered t l w) { event_loop = put t (some l) (entered t l w).event_loop }))
unfolding construct is_in_loop_thread
construct_lem t l w c =
    let r = gettid t w in
    let v : Threads = record r.1 { tid = put l (some r.0) r.1.tid } in
    let same : r.0 ≡ (gettid t v).0 =
      gettid_tid t w c ∙ sym (gettid_tid t v (gettid-Cached t w c)) in
    let eq : (r.0 == (gettid t v).0) ≡ true = (==_iff r.0 (gettid t v).0).1 same in
    let mine : is_this (gettid t v).0 (put l (some r.0) r.1.tid l) ≡ true =
      ap (is_this (gettid t v).0) (put_same l (some r.0) r.1.tid) ∙ eq in
    let seen : (gettid t v).1.event_loop t ≡ w.event_loop t =
      ap (λ f. f t) ((gettid_rest t v).0 ∙ (gettid_rest t w).0) in
    rw (mine, seen) refl

entered_lem :
    (t l : ℕ) (w : Threads)
    → Cached w.cached_tid
    → ((entered t l w).event_loop ≡ w.event_loop) × ((entered t l w).tid ≡ put l (some t) w.tid)
entered_lem t l w c =
    let r = gettid t w in
    let v : Threads = record r.1 { tid = put l (some r.0) r.1.tid } in
    let (a, b) = gettid_rest t v in
    let (d, e) = gettid_rest t w in
    (a ∙ d, b ∙ ap (λ x. put l (some x) r.1.tid) (gettid_tid t w c) ∙ ap (put l (some t)) e)

null : (o : Option ℕ) {u : Unit {0}} → check (is_null o) ≡ ok u → o ≡ none
null none q = refl
null (some m) q = absurd cc

this : (l : ℕ) (o : Option ℕ) {u : Unit {0}} → check (is_this l o) ≡ ok u → o ≡ some l
this l none q = absurd cc
this l (some m) q = elim (Bool-cases (m == l)) [
  | inl b ↦ ap some ((==_iff m l).0 b)
  | inr b ↦ absurd (let r = rw b at q in cc)
]

Step-Holds : (w v : Threads) → Holds w → Step w v → Holds v
unfolding destroy
Step-Holds w v h (constructs t l z n e) =
    let (u, q, f) =
      bind-ok (check (is_null (w.event_loop t))) _ (sym (construct_lem t l w h.cached) ∙ e) in
    let (a, b) = entered_lem t l w h.cached in
    let o : w.event_loop t ≡ none = null (w.event_loop t) q in
    rw (sym (ok-inj f)) (record {
      cached =
          gettid-Cached t
            (record (gettid t w).1 { tid = put l (some (gettid t w).0) (gettid t w).1.tid })
            (gettid-Cached t w h.cached);
      agree = rw (a, b) (added-Agree l t w.tid w.event_loop z n o h.agree);
    })
Step-Holds w v h (destroys t l s n e) =
    let (u, q, f) = bind-ok (check (is_this l (w.event_loop t))) _ e in
    rw (sym (ok-inj f)) (record {
      cached = h.cached;
      agree = removed-Agree l t w.tid w.event_loop (this l (w.event_loop t) q) h.agree;
    })
Step-Holds w v h (asks t z) = gettid-Holds t w h

Steps-Holds : {w : Threads} → Steps w → Holds w
Steps-Holds start = record {
  cached = λ t. inl refl;
  agree = record {
    owned = λ l t e. absurd (none-some e);
    known = λ l t e. absurd (none-some e);
    real = λ l t e. absurd (none-some e);
  };
}
Steps-Holds (and_then {v} {w} s d) = Step-Holds v w (Steps-Holds s) d

built_twice :
    (t m l : ℕ) (w : Threads) (o : Option ℕ)
    → o ≡ some l
    → (do check (is_null o); ok (record w { event_loop = put t (some m) w.event_loop }))
      ≡ err assertion
built_twice t m l w none e = absurd (none-some e)
built_twice t m l w (some k) e = refl

other : (l : ℕ) (o : Option ℕ) → (o ≡ some l → ⊥) → is_this l o ≡ false
other l none f = refl
other l (some m) f = elim (Bool-cases (m == l)) [
  | inl b ↦ absurd (f (ap some ((==_iff m l).0 b)))
  | inr b ↦ b
]

-- In every state that threads can reach by making and ending loops, a loop is the one loop of its thread:
-- `isInLoopThread` is true of it in that thread and in no other, a second loop in that thread fails an
-- assertion, and the destructor comes back in that thread and fails an assertion in any other.
pub one_loop_per_thread :
    {w : Threads} (l t u m : ℕ)
    → Steps w
    → w.tid l ≡ some t
    → (w.event_loop t ≡ some l)
      × ((is_in_loop_thread u l w).0 ≡ (t == u))
      × (construct true t m w ≡ err assertion)
      × (destroy u l w ≡ (
          if t == u
          then ok (record w { event_loop = put u none w.event_loop; tid = put l none w.tid })
          else err assertion))
unfolding is_in_loop_thread destroy
one_loop_per_thread {w} l t u m s e =
    let h = Steps-Holds s in
    let o = h.agree.owned l t e in
    (
      o,
      rw (e, gettid_tid u w h.cached),
      construct_lem t m w h.cached ∙ built_twice t m l (entered t m w) (w.event_loop t) o,
      elim (Bool-cases (t == u)) [
        | inl b ↦
            let i : t ≡ u = (==_iff t u).0 b in
            let j : (l == l) ≡ true = ground arith in rw (b, ap w.event_loop (sym i) ∙ o, j)
        | inr b ↦
            let j : is_this l (w.event_loop u) ≡ false = other l (w.event_loop u) (λ k.
              let f : t ≡ u = some-inj (sym e ∙ h.agree.known l u k) in
              let g : (t == u) ≡ true = (==_iff t u).1 f in absurd cc) in
            rw (b, j)
      ],
    )
