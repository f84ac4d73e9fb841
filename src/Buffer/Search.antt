-- ===== src/Buffer/Search.antt =====
-- `findCRLF`: the first "\r\n" in the buffer, or none.
use mathlib.Core.Option
use yvent.Prelude.{
  ℕ, zero, suc, ◌+◌, ◌<◌, ◌≡◌, refl, List, [], ◌∷◌, ◌++◌, Option, none, some, arith, length, inl,
  inr, Bool-cases, true, false, Bool, get_elem?, ◌==◌, ◌&&◌,
}
use yvent.Text.Bytes.{lacks}
use yvent.Buffer.{Buffer, contents, search_crlf, find_crlf}

-- "\r\n" stands at offset `k`.
abbrev pub CrlfAt : ℕ → List ℕ → Type 0
CrlfAt k xs = (get_elem? xs k ≡ some b'\r') × (get_elem? xs (suc k) ≡ some b'\n')

-- What a search answers: the least such offset, or none where there is no such offset.
abbrev pub IsFirstCrlf : List ℕ → Option ℕ → Type 0
IsFirstCrlf xs (some k) = CrlfAt k xs × ((j : ℕ) → j < k → ¬ CrlfAt j xs)
IsFirstCrlf xs none = (j : ℕ) → ¬ CrlfAt j xs

abbrev is_crlf : ℕ → ℕ → Bool
is_crlf x y = x == b'\r' && y == b'\n'

module _ (x y : ℕ) (rest : List ℕ) where
  no_start : is_crlf x y ≡ false → ¬ CrlfAt 0 (x ∷ y ∷ rest)
  no_start h (p, q) = ground arith

  none_before :
      is_crlf x y ≡ false
      → (k : ℕ) → ((j : ℕ) → j < k → ¬ CrlfAt j (y ∷ rest))
      → (j : ℕ) → j < suc k
      → ¬ CrlfAt j (x ∷ y ∷ rest)
  none_before h k f zero l = no_start h
  none_before h k f (suc j) l = f j (omega arith)

  none_at_all :
      is_crlf x y ≡ false → ((j : ℕ) → ¬ CrlfAt j (y ∷ rest)) → (j : ℕ) → ¬ CrlfAt j (x ∷ y ∷ rest)
  none_at_all h f zero = no_start h
  none_at_all h f (suc j) = f j

  first-cons :
      (o : Option ℕ)
      → is_crlf x y ≡ false
      → IsFirstCrlf (y ∷ rest) o
      → IsFirstCrlf (x ∷ y ∷ rest) (Option.map suc o)
  first-cons none h f = none_at_all h f
  first-cons (some k) h f = (f.0, none_before h k f.1)

search_crlf-IsFirstCrlf : (xs : List ℕ) → IsFirstCrlf xs (search_crlf xs)
search_crlf-IsFirstCrlf [] = λ j h. cc
search_crlf-IsFirstCrlf (x ∷ []) = λ j h. cc
search_crlf-IsFirstCrlf (x ∷ y ∷ rest) = elim (Bool-cases (is_crlf x y)) [
  | inl hit ↦ rw (hit, search_crlf) (ground arith, λ j l. elim l [ ])
  | inr miss ↦
      rw (miss, search_crlf)
        (first-cons x y rest (search_crlf (y ∷ rest)) miss (search_crlf-IsFirstCrlf (y ∷ rest)))
]

-- `findCRLF` answers with the first "\r\n" of what the buffer holds, as a pointer behind the read
-- index, and with NULL only where there is none.
pub find_crlf_lem :
    (b : Buffer)
    → (o : Option ℕ) × (find_crlf b ≡ Option.map (λ k. b.reader_index + k) o)
      × IsFirstCrlf (contents b) o
unfolding find_crlf
find_crlf_lem b = (search_crlf (contents b), refl, search_crlf-IsFirstCrlf (contents b))

-- The two bytes found lie within the bytes searched.
pub search_crlf-lt-length : (xs : List ℕ) (k : ℕ) → search_crlf xs ≡ some k → suc k < length xs
search_crlf-lt-length [] k e = cc
search_crlf-lt-length (x ∷ []) k e = cc
search_crlf-lt-length (x ∷ y ∷ rest) zero e = omega arith
search_crlf-lt-length (x ∷ y ∷ rest) (suc k) e = ground (arith, search_crlf-lt-length (y ∷ rest) k)

-- A line that holds no "\r" is found whole, whatever stands behind it.
pub search_crlf_line :
    (line rest : List ℕ)
    → lacks b'\r' line ≡ true
    → search_crlf (line ++ (b'\r' ∷ b'\n' ∷ rest)) ≡ some (length line)
search_crlf_line [] rest h = refl
search_crlf_line (x ∷ []) rest h = ground arith
search_crlf_line (x ∷ y ∷ line) rest h = ground (arith, search_crlf_line (y ∷ line) rest)
