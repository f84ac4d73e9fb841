-- ===== src/Text/Bytes.antt =====
-- Runs of bytes in which one byte does not occur, and searches for that byte.

use yvent.Prelude.{
  ℕ, ◌≡◌, refl, List, [], ◌∷◌, ◌++◌, Bool, true, not, ◌&&◌, ◌==◌, none, some, arith,
}
use yvent.Text.{split_byte}

-- The byte does not occur.
abbrev pub lacks : ℕ → List ℕ → Bool
lacks c [] = true
lacks c (x ∷ xs) = not (x == c) && lacks c xs

pub lacks-append :
    (c : ℕ) (xs ys : List ℕ) → lacks c xs ≡ true → lacks c ys ≡ true → lacks c (xs ++ ys) ≡ true
lacks-append c [] ys p q = q
lacks-append c (x ∷ xs) ys p q = ground (arith, lacks-append c xs ys)

pub split_byte-append :
    (c : ℕ) (xs ys : List ℕ) → lacks c xs ≡ true → split_byte c (xs ++ (c ∷ ys)) ≡ some (xs, ys)
unfolding split_byte
split_byte-append c [] ys p = ground arith
split_byte-append c (x ∷ xs) ys p = ground (arith, split_byte-append c xs ys)

pub split_byte-none : (c : ℕ) (xs : List ℕ) → lacks c xs ≡ true → split_byte c xs ≡ none
unfolding split_byte
split_byte-none c [] p = refl
split_byte-none c (x ∷ xs) p = ground (arith, split_byte-none c xs)
