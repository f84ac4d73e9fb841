-- ===== src/Http/Context/Fields.antt =====
-- The header lines that a client writes: what a value may be, and what may stand around it.

use mathlib.Core.List.{reverse, reverse-cons, reverse-append, reverse-reverse}
use yvent.Prelude.{
  ℕ, ◌≡◌, refl, sym, ap, ◌∙◌, List, [], ◌∷◌, ◌++◌, append-nil, append_assoc, Bool, true, ◌&&◌, ◌||◌,
  ltb, ◌==◌, arith,
}
use yvent.Text.{trim_start, trim_end}

-- A header line: the key, a colon, blanks, the value, and blanks.
pub record Field : Type 0 where
  pub key : List ℕ
  pub before : List ℕ
  pub value : List ℕ
  pub after : List ℕ

-- Spaces and tabs.
abbrev pub are_blanks : List ℕ → Bool
are_blanks [] = true
are_blanks (x ∷ xs) = (x == b' ' || x == 9) && are_blanks xs

-- The first byte, if there is one, is a character that is seen.
abbrev pub starts_seen : List ℕ → Bool
starts_seen [] = true
starts_seen (x ∷ xs) = ltb b' ' x

-- The first byte and the last are characters that are seen, or there is none.
abbrev pub is_bare : List ℕ → Bool
is_bare value = starts_seen value && starts_seen (reverse value)

trim_start-blanks : (s t : List ℕ) → are_blanks s ≡ true → trim_start (s ++ t) ≡ trim_start t
unfolding trim_start
trim_start-blanks [] t h = refl
trim_start-blanks (x ∷ s) t h = ground (arith, trim_start-blanks s t)

trim_start-seen : (x : ℕ) (s : List ℕ) → ltb b' ' x ≡ true → trim_start (x ∷ s) ≡ x ∷ s
unfolding trim_start
trim_start-seen x s h = ground arith

trim_start-bare : (s : List ℕ) → starts_seen s ≡ true → trim_start s ≡ s
unfolding trim_start
trim_start-bare [] h = refl
trim_start-bare (x ∷ s) h = trim_start-seen x s h

trim_start-reverse :
    (s t : List ℕ) → are_blanks s ≡ true → trim_start (reverse s ++ t) ≡ trim_start t
trim_start-reverse [] t h = refl
trim_start-reverse (x ∷ s) t h =
    ap (λ r. trim_start (r ++ t)) (reverse-cons x s)
    ∙ ap trim_start (append_assoc (reverse s) (x ∷ []) t)
    ∙ trim_start-reverse s (x ∷ t) (ground arith)
    ∙ trim_start-blanks (x ∷ []) t (ground arith)

trim_end-blanks :
    (value after : List ℕ)
    → starts_seen (reverse value) ≡ true
    → are_blanks after ≡ true
    → trim_end (value ++ after) ≡ value
unfolding trim_end
trim_end-blanks value after h k =
    ap reverse (
      ap trim_start (reverse-append value after)
      ∙ trim_start-reverse after (reverse value) k
      ∙ trim_start-bare (reverse value) h)
    ∙ reverse-reverse value

-- What the parser takes off is what stands around the value.
pub trim-bare :
    (before value after : List ℕ)
    → are_blanks before ≡ true
    → is_bare value ≡ true
    → are_blanks after ≡ true
    → trim_end (trim_start (before ++ (value ++ after))) ≡ value
trim-bare before [] after h b k =
    ap trim_end (
      trim_start-blanks before after h
      ∙ ap trim_start (sym (append-nil after))
      ∙ trim_start-blanks after [] k)
    ∙ (unfold trim_end trim_start in refl)
trim-bare before (x ∷ value) after h b k =
    ap trim_end (
      trim_start-blanks before ((x ∷ value) ++ after) h
      ∙ trim_start-seen x (value ++ after) (ground arith))
    ∙ trim_end-blanks (x ∷ value) after (ground arith) k
