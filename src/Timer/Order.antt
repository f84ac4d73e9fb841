-- ===== src/Timer/Order.antt =====
-- The set of a queue: its order, and how often an address is in it.
use yvent.Prelude.{
  ℕ, ◌+◌, ◌≤◌, ◌<◌, ◌≡◌, refl, ap, inl, inr, List, [], ◌∷◌, ◌++◌, All, true, false, ltb, ◌==◌,
  if◌then◌else◌, Bool-cases, arith,
}
use yvent.Timer.{Entry, before, same, insert, has, erase, split_at}

-- In strictly increasing order, as a `std::set` keeps its entries.
abbrev pub IsSorted : List Entry → Type 0
IsSorted [] = Unit
IsSorted (t ∷ ts) = All (λ s. before t s ≡ true) ts × IsSorted ts

-- How often the address is in the list.
abbrev pub count : ℕ → List Entry → ℕ
count p [] = 0
count p (e ∷ es) = (if p == e.timer then 1 else 0) + count p es

pub All-weaken :
    (P Q : Entry → Type 0) → ((s : Entry) → P s → Q s) → (ts : List Entry) → All P ts → All Q ts
All-weaken P Q f [] e = tt
All-weaken P Q f (t ∷ ts) (p, e) = (f t p, All-weaken P Q f ts e)

before_trans : (r s t : Entry) → before r s ≡ true → before s t ≡ true → before r t ≡ true
unfolding before
before_trans r s t h k = ground arith

before_total :
    (s t : Entry) → before s t ≡ false → before t s ≡ false → (s.key ≡ t.key) × (s.timer ≡ t.timer)
unfolding before
before_total s t h k = ground arith

pub before_when : (s t : Entry) → before s t ≡ true → s.key ≤ t.key
unfolding before
before_when s t h = ground arith

pub insert-All :
    (P : Entry → Type 0) (t : Entry) (ts : List Entry) → P t → All P ts → All P (insert t ts)
unfolding insert
insert-All P t [] p e = (p, tt)
insert-All P t (s ∷ ts) p (q, e) = elim (Bool-cases (before t s)) [
  | inl b ↦ rw (b) (p, (q, e))
  | inr b ↦ elim (Bool-cases (before s t)) [
    | inl c ↦ rw (b, c) (q, insert-All P t ts p e)
    | inr c ↦ rw (b, c) (q, e)
  ]
]

-- `insert` keeps the order.
pub insert-IsSorted : (t : Entry) (ts : List Entry) → IsSorted ts → IsSorted (insert t ts)
unfolding insert
insert-IsSorted t [] o = (tt, tt)
insert-IsSorted t (s ∷ ts) (e, o) = elim (Bool-cases (before t s)) [
  | inl b ↦ rw (b) (
    (
      b,
      All-weaken (λ u. before s u ≡ true) (λ u. before t u ≡ true) (λ u k. before_trans t s u b k)
          ts e,
    ),
    (e, o),
  )
  | inr b ↦ elim (Bool-cases (before s t)) [
    | inl c ↦ rw (b, c) (insert-All (λ u. before s u ≡ true) t ts c e, insert-IsSorted t ts o)
    | inr c ↦ rw (b, c) (e, o)
  ]
]

-- An address that was not in the set is in it once more.
pub count-insert :
    (q : ℕ) (t : Entry) (ts : List Entry)
    → count t.timer ts ≡ 0
    → count q (insert t ts) ≡ count q (t ∷ ts)
unfolding insert
count-insert q t [] z = refl
count-insert q t (s ∷ ts) z = elim (Bool-cases (before t s)) [
  | inl b ↦ rw (b)
  | inr b ↦ elim (Bool-cases (before s t)) [
    | inl c ↦ rw (b, c) (omega (arith, count-insert q t ts (omega arith)))
    | inr c ↦
        let (k, m) = before_total s t c b in
        let r : (t.timer == s.timer) ≡ true = ground arith in
        absurd (let z2 = rw r at z in omega arith)
  ]
]

pub erase-All : (P : Entry → Type 0) (t : Entry) (ts : List Entry) → All P ts → All P (erase t ts)
unfolding erase
erase-All P t [] e = tt
erase-All P t (s ∷ ts) (p, e) = elim (Bool-cases (same s t)) [
  | inl b ↦ rw (b) e
  | inr b ↦ rw (b) (p, erase-All P t ts e)
]

pub erase-IsSorted : (t : Entry) (ts : List Entry) → IsSorted ts → IsSorted (erase t ts)
unfolding erase
erase-IsSorted t [] o = tt
erase-IsSorted t (s ∷ ts) (e, o) = elim (Bool-cases (same s t)) [
  | inl b ↦ rw (b) o
  | inr b ↦ rw (b) (erase-All (λ u. before s u ≡ true) t ts e, erase-IsSorted t ts o)
]

-- An entry that is found and erased was there once more.
pub count-erase :
    (q : ℕ) (t : Entry) (ts : List Entry) → has t ts ≡ true → count q ts ≡ count q (t ∷ erase t ts)
unfolding has erase
count-erase q t [] h = absurd cc
count-erase q t (s ∷ ts) h = elim (Bool-cases (same s t)) [
  | inl b ↦ let e : s.timer ≡ t.timer = ground arith in rw (b, e)
  | inr b ↦ rw (b) (omega (arith, count-erase q t ts (rw b at h)))
]

-- An address that is in the set with this key is found.
pub has-count :
    (t : Entry) (ts : List Entry)
    → All (λ s. s.timer ≡ t.timer → s.key ≡ t.key) ts
    → has t ts ≡ false
    → count t.timer ts ≡ 0
unfolding has
has-count t [] a h = refl
has-count t (s ∷ ts) (k, a) h = elim (Bool-cases (t.timer == s.timer)) [
  | inl b ↦
      let e : s.timer ≡ t.timer = ground arith in
      let f : s.key ≡ t.key = k e in
      let g : same s t ≡ true = ground arith in absurd (let h2 = rw g at h in cc)
  | inr b ↦
      let g : same s t ≡ false = ground arith in
      rw (b) (omega (arith, has-count t ts a (rw g at h)))
]

pub count-append : (q : ℕ) (ss ts : List Entry) → count q (ss ++ ts) ≡ count q ss + count q ts
count-append q [] ts = omega arith
count-append q (s ∷ ss) ts = omega (arith, count-append q ss ts)

pub All-append : (P : Entry → Type 0) (ss ts : List Entry) → All P (ss ++ ts) → All P ss × All P ts
All-append P [] ts a = (tt, a)
All-append P (s ∷ ss) ts (p, a) = let (b, c) = All-append P ss ts a in ((p, b), c)

pub IsSorted-rest : (ss ts : List Entry) → IsSorted (ss ++ ts) → IsSorted ts
IsSorted-rest [] ts o = o
IsSorted-rest (s ∷ ss) ts (e, o) = IsSorted-rest ss ts o

pub split_at_lem :
    (time : ℕ) (ts : List Entry)
    → IsSorted ts
    → (All (λ t. t.key < time) (split_at time ts).0)
      × (All (λ t. time ≤ t.key) (split_at time ts).1)
      × ((split_at time ts).0 ++ (split_at time ts).1 ≡ ts)
unfolding split_at
split_at_lem time [] o = (tt, tt, refl)
split_at_lem time (t ∷ ts) (e, o) =
    let (p, q, r) = split_at_lem time ts o in
    elim (Bool-cases (ltb t.key time)) [
      | inl b ↦ rw (b) ((ground arith, p), q, ap (◌∷◌ t) r)
      | inr b ↦ rw (b) (
        tt,
        (
          ground arith,
          All-weaken (λ u. before t u ≡ true) (λ u. time ≤ u.key)
              (λ u k. let h : t.key ≤ u.key = before_when t u k in ground arith) ts e,
        ),
        refl,
      )
    ]
