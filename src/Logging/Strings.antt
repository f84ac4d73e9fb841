-- ===== src/Logging/Strings.antt =====
-- Texts without a zero, in an array and as they are printed.
use yvent.Prelude.{
  ℕ, zero, suc, ◌+◌, ◌-◌, ◌/◌, ◌%◌, ◌^◌, ◌≤◌, ◌<◌, ◌≡◌, refl, ap, ◌∙◌, inl, inr, List, [], ◌∷◌,
  ◌++◌, Bool, true, not, ◌&&◌, leb, ltb, ◌==◌, Bool-cases, length, take, drop, replicate,
  length-append, length-drop, length-replicate, take-length-append, arith,
}
use yvent.Fault.{Returns, returned}
use yvent.Text.{digits, decimal}
use yvent.Logging.{padded, write_at, c_string, max_line}

-- No byte of it is a zero.
abbrev pub is_string : List ℕ → Bool
is_string [] = true
is_string (b ∷ bs) = not (b == 0) && is_string bs

pub is_string-append :
    (xs ys : List ℕ) → is_string xs ≡ true → is_string ys ≡ true → is_string (xs ++ ys) ≡ true
is_string-append [] ys h k = k
is_string-append (x ∷ xs) ys h k = ground (arith, is_string-append xs ys)

pub is_string-take : (n : ℕ) (xs : List ℕ) → is_string xs ≡ true → is_string (take n xs) ≡ true
is_string-take zero xs h = refl
is_string-take (suc n) [] h = refl
is_string-take (suc n) (x ∷ xs) h = ground (arith, is_string-take n xs)

is_string-digits : (fuel n : ℕ) → is_string (digits fuel n) ≡ true
is_string-digits zero n = ground arith
is_string-digits (suc fuel) n = elim (Bool-cases (ltb n 10)) [
  | inl lt ↦ rw lt (ground arith)
  | inr ge ↦ rw ge (
      is_string-append (digits fuel (n / 10)) ((b'0' + n % 10) ∷ [])
        (is_string-digits fuel (n / 10)) (ground arith))
]

pub is_string-decimal : (n : ℕ) → is_string (decimal n) ≡ true
unfolding decimal
is_string-decimal n = is_string-digits 20 n

is_string-replicate : (n fill : ℕ) → not (fill == 0) ≡ true → is_string (replicate n fill) ≡ true
is_string-replicate zero fill h = refl
is_string-replicate (suc n) fill h = rw (h, is_string-replicate n fill h)

pub is_string-padded :
    (width fill n : ℕ) → not (fill == 0) ≡ true → is_string (padded width fill n) ≡ true
unfolding padded
is_string-padded width fill n h =
    is_string-append (replicate (width - length (decimal n)) fill) (decimal n)
      (is_string-replicate (width - length (decimal n)) fill h) (is_string-decimal n)

length-digits_below : (k fuel n : ℕ) → n < 10 ^ suc k → length (digits fuel n) ≤ suc k
length-digits_below k zero n h = omega arith
length-digits_below zero (suc fuel) n h =
    let b : ltb n 10 ≡ true = ground arith in rw b (omega arith)
length-digits_below (suc k) (suc fuel) n h = elim (Bool-cases (ltb n 10)) [
  | inl lt ↦ rw lt (omega arith)
  | inr ge ↦ rw ge (
      omega (
        arith,
        length-append (digits fuel (n / 10)) ((b'0' + n % 10) ∷ []),
        length-digits_below k fuel (n / 10) (omega arith),
      ))
]

pub length-decimal_below : (k n : ℕ) → n < 10 ^ suc k → length (decimal n) ≤ suc k
unfolding decimal
length-decimal_below k n h = length-digits_below k 20 n h

pub length-padded_below :
    (k width fill n : ℕ) → n < 10 ^ suc k → width ≤ suc k → length (padded width fill n) ≤ suc k
unfolding padded
length-padded_below k width fill n h w = omega (
  arith,
  length-append (replicate (width - length (decimal n)) fill) (decimal n),
  length-replicate (width - length (decimal n)) fill,
  length-decimal_below k n h,
)

-- An array of `max_line` bytes that begins with a text, and with a text and a zero behind it.
pub record Begins (xs buffer : List ℕ) : Type 0 where
  pub whole : length buffer ≡ max_line
  pub front : take (length xs) buffer ≡ xs

pub record Stores (xs buffer : List ℕ) : Type 0 where
  pub begins : Begins xs buffer
  pub rest : List ℕ
  pub split : buffer ≡ xs ++ 0 ∷ rest

-- Each write puts its bytes behind those before, if there is room for them and a zero.
pub write_at-Stores :
    (i : ℕ) (xs ys buffer : List ℕ)
    → Begins xs buffer
    → i ≡ length xs
    → length xs + length ys + 1 ≤ max_line
    → Returns (Stores (xs ++ ys)) (write_at i ys buffer)
unfolding write_at
write_at-Stores i xs ys buffer b e h =
    let n = b.whole in
    let t : take i buffer ≡ xs = ap (λ x. take x buffer) e ∙ b.front in
    let room : leb (i + length ys + 1) (length buffer) ≡ true = ground arith in
    let r = drop (i + length ys + 1) buffer in
    let out = xs ++ ys ++ 0 ∷ r in
    returned _ (rw (room, t)) (record {
      begins = record {
        whole = omega (
          arith,
          length-append (xs ++ ys) (0 ∷ r),
          length-append xs ys,
          length-drop (i + length ys + 1) buffer,
        );
        front = take-length-append (length (xs ++ ys)) (xs ++ ys) (0 ∷ r) refl;
      };
      rest = r;
      split = refl;
    })

pub c_string-Stores :
    (xs buffer : List ℕ) → is_string xs ≡ true → Stores xs buffer → c_string buffer ≡ xs
unfolding c_string
c_string-Stores xs buffer h s = ap c_string s.split ∙ stops xs s.rest h
  where
    stops : (xs rest : List ℕ) → is_string xs ≡ true → c_string (xs ++ 0 ∷ rest) ≡ xs
    stops [] rest h = refl
    stops (x ∷ xs) rest h = elim (Bool-cases (x == 0)) [
      | inl b ↦ absurd (let k = rw b at h in cc)
      | inr b ↦ rw b (ap (◌∷◌ x) (stops xs rest (let k = rw b at h in k)))
    ]
