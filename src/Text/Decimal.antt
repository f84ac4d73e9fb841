-- ===== src/Text/Decimal.antt =====
-- Numbers in decimal, and texts that are cut at their last `#`.
use yvent.Prelude.{
  ℕ, zero, suc, ◌+◌, ◌-◌, ◌*◌, ◌/◌, ◌%◌, ◌^◌, ◌<◌, ◌≡◌, ◌≢◌, refl, sym, ap, ◌∙◌, List, [], ◌∷◌,
  ◌++◌, ltb, Bool-cases, length, length-append, ◌≤◌, arith, inl, inr,
}
use yvent.Text.{digits, decimal}

-- The number that a text of digits stands for, behind another.
value_from : ℕ → List ℕ → ℕ
value_from acc [] = acc
value_from acc (x ∷ xs) = value_from (acc * 10 + (x - b'0')) xs

value_from-append :
    (acc : ℕ) (xs ys : List ℕ) → value_from acc (xs ++ ys) ≡ value_from (value_from acc xs) ys
unfolding value_from
value_from-append acc [] ys = refl
value_from-append acc (x ∷ xs) ys = value_from-append (acc * 10 + (x - b'0')) xs ys

value_from-digits : (fuel n : ℕ) → n < 10 ^ suc fuel → value_from 0 (digits fuel n) ≡ n
unfolding value_from
value_from-digits zero n h = omega arith
value_from-digits (suc fuel) n h = elim (Bool-cases (ltb n 10)) [
  | inl lt ↦ rw lt (omega arith)
  | inr ge ↦
      rw
        (
          ge,
          value_from-append 0 (digits fuel (n / 10)) ((b'0' + n % 10) ∷ []),
          value_from-digits fuel (n / 10) (omega arith),
        )
        (omega arith)
]

pub decimal-inj : (m n : ℕ) → m < 10 ^ 20 → n < 10 ^ 20 → decimal m ≡ decimal n → m ≡ n
unfolding decimal
decimal-inj m n hm hn e =
    sym (value_from-digits 20 m (omega arith))
    ∙ ap (value_from 0) e
    ∙ value_from-digits 20 n (omega arith)

length-digits : (fuel n : ℕ) → length (digits fuel n) ≤ suc fuel
length-digits zero n = omega arith
length-digits (suc fuel) n = elim (Bool-cases (ltb n 10)) [
  | inl lt ↦ rw lt (omega arith)
  | inr ge ↦ rw ge (
      omega (
        arith,
        length-append (digits fuel (n / 10)) ((b'0' + n % 10) ∷ []),
        length-digits fuel (n / 10),
      ))
]

pub length-decimal : (n : ℕ) → length (decimal n) ≤ 21
unfolding decimal
length-decimal n = length-digits 20 n

-- No byte of it is a `#`.
abbrev pub HasNoHash : List ℕ → Type 0
HasNoHash [] = Unit
HasNoHash (x ∷ xs) = (x ≢ b'#') × HasNoHash xs

HasNoHash-append : (xs ys : List ℕ) → HasNoHash xs → HasNoHash ys → HasNoHash (xs ++ ys)
HasNoHash-append [] ys h k = k
HasNoHash-append (x ∷ xs) ys h k = (h.0, HasNoHash-append xs ys h.1 k)

digits-HasNoHash : (fuel n : ℕ) → HasNoHash (digits fuel n)
digits-HasNoHash zero n = (λ q. omega arith, tt)
digits-HasNoHash (suc fuel) n = elim (Bool-cases (ltb n 10)) [
  | inl lt ↦ rw lt (λ q. omega arith, tt)
  | inr ge ↦ rw ge (
      HasNoHash-append (digits fuel (n / 10)) ((b'0' + n % 10) ∷ [])
        (digits-HasNoHash fuel (n / 10)) (λ q. omega arith, tt))
]

pub decimal-HasNoHash : (n : ℕ) → HasNoHash (decimal n)
unfolding decimal
decimal-HasNoHash n = digits-HasNoHash 20 n

no_hash_inside : (d ys e : List ℕ) → HasNoHash d → d ≡ ys ++ b'#' ∷ e → ⊥
no_hash_inside [] [] e h q = cc
no_hash_inside [] (y ∷ ys) e h q = cc
no_hash_inside (x ∷ d) [] e h q = h.0 cc
no_hash_inside (x ∷ d) (y ∷ ys) e h q = no_hash_inside d ys e h.1 cc

-- What stands behind the last `#` of a text.
pub last_hash :
    (xs ys d e : List ℕ) → HasNoHash d → HasNoHash e → xs ++ b'#' ∷ d ≡ ys ++ b'#' ∷ e → d ≡ e
last_hash [] [] d e hd he q = cc
last_hash [] (y ∷ ys) d e hd he q = absurd (no_hash_inside d ys e hd cc)
last_hash (x ∷ xs) [] d e hd he q = absurd (no_hash_inside e xs d he cc)
last_hash (x ∷ xs) (y ∷ ys) d e hd he q = last_hash xs ys d e hd he cc
