-- ===== src/Text.antt =====
-- What the code uses of `std::string`, `std::map<std::string, std::string>` and `<cctype>`: bytes are
-- numbers below 256, a string is the list of its bytes, and a map is the list of its entries in the
-- order of their keys, in which it is iterated.
pub mod Keys
pub mod Bytes
pub mod Decimal
use Prim.Native.Char.{code}
use Prim.Native.String.{String}
use mathlib.Core.List.{reverse}
use mathlib.Core.Option
use yvent.Prelude.{
  ℕ, zero, suc, ◌+◌, ◌/◌, ◌%◌, ◌++◌, List, [], ◌∷◌, Bool, true, false, ◌&&◌, ◌||◌, not, leb, ltb,
  ◌==◌, if◌then◌else◌, Option, none, some,
}

abbrev pub codes : String → List ℕ
codes String.[] = []
codes (String.◌∷◌ c s) = code c ∷ codes s

-- `==` of two strings.
unfoldable pub equal : List ℕ → List ℕ → Bool
equal [] [] = true
equal (x ∷ xs) (y ∷ ys) = x == y && equal xs ys
equal _ _ = false

-- `<` of two strings, byte by byte.
unfoldable pub less : List ℕ → List ℕ → Bool
less [] [] = false
less [] (y ∷ ys) = true
less (x ∷ xs) [] = false
less (x ∷ xs) (y ∷ ys) = ltb x y || (x == y && less xs ys)

abbrev pub Entry : Type 0
Entry = List ℕ × List ℕ

-- `m[key] = value`.
unfoldable pub assign : List ℕ → List ℕ → List Entry → List Entry
assign key value [] = (key, value) ∷ []
assign key value ((k, v) ∷ m) =
    let rest = assign key value m in
    if less key k
    then (key, value) ∷ (k, v) ∷ m
    else if equal key k
    then (k, value) ∷ m
    else (k, v) ∷ rest

-- `m.find(key)`.
unfoldable pub find : List ℕ → List Entry → Option (List ℕ)
find key [] = none
find key ((k, v) ∷ m) = let rest = find key m in if equal key k then some v else rest

-- `std::find` of a byte: what stands before it and behind it, or none.
unfoldable pub split_byte : ℕ → List ℕ → Option (List ℕ × List ℕ)
split_byte c [] = none
split_byte c (x ∷ xs) =
    let later = split_byte c xs in
    if x == c then some ([], xs) else Option.map (λ r. (x ∷ r.0, r.1)) later

-- `isspace` and `isdigit` in the C locale.
abbrev pub is_space : ℕ → Bool
is_space c = c == 32 || (leb 9 c && leb c 13)

abbrev pub is_digit : ℕ → Bool
is_digit c = leb b'0' c && leb c b'9'

-- Leading spaces off.
unfoldable pub trim_start : List ℕ → List ℕ
trim_start [] = []
trim_start (x ∷ xs) = let rest = trim_start xs in if is_space x then rest else x ∷ xs

-- Trailing spaces off, by taking the last byte away while it is one.
unfoldable pub trim_end : List ℕ → List ℕ
unfolding trim_start
trim_end s = reverse (trim_start (reverse s))

-- The decimal digits of a number, on fuel: twenty rounds are enough for 64 bits.
abbrev pub digits : ℕ → ℕ → List ℕ
digits zero n = (b'0' + n) ∷ []
digits (suc fuel) n =
    let front = digits fuel (n / 10) in
    if ltb n 10 then (b'0' + n) ∷ [] else front ++ (b'0' + n % 10) ∷ []

-- `%d` of a number that is not negative.
unfoldable pub decimal : ℕ → List ℕ
decimal n = digits 20 n
