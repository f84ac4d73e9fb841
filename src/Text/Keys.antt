-- ===== src/Text/Keys.antt =====
-- Laws of `std::map` as the code uses it, and of a search for one byte.

use yvent.Prelude.{ℕ, ◌≡◌, refl, ◌↔◌, List, [], ◌∷◌, true, false, if◌then◌else◌, some, arith}
use yvent.Text.{equal, less, Entry, assign, find}

-- `equal` decides whether two strings are the same.
pub equal_iff : (s t : List ℕ) → (equal s t ≡ true) ↔ (s ≡ t)
unfolding equal
equal_iff (c ∷ s) (d ∷ t) = ground (equal_iff s t, arith)
equal_iff _ _ = ground arith

less_irrefl : (a : List ℕ) → less a a ≡ false
unfolding less
less_irrefl [] = refl
less_irrefl (x ∷ a) = ground (arith, less_irrefl a)

less_trans : (a b c : List ℕ) → less a b ≡ true → less b c ≡ true → less a c ≡ true
unfolding less
less_trans [] [] c p q = cc
less_trans [] (y ∷ b) [] p q = cc
less_trans [] (y ∷ b) (z ∷ c) p q = refl
less_trans (x ∷ a) [] c p q = cc
less_trans (x ∷ a) (y ∷ b) [] p q = cc
less_trans (x ∷ a) (y ∷ b) (z ∷ c) p q = ground (arith, less_trans a b c)

less_total : (a b : List ℕ) → less a b ≡ false → equal a b ≡ false → less b a ≡ true
unfolding less equal
less_total [] [] p q = cc
less_total [] (y ∷ b) p q = cc
less_total (x ∷ a) [] p q = refl
less_total (x ∷ a) (y ∷ b) p q = ground (arith, less_total a b)

-- Every key of the map is above this one.
abbrev pub Above : List ℕ → List Entry → Type 0
Above k [] = Unit
Above k ((j, v) ∷ m) = (less k j ≡ true) × Above k m

-- The keys are in strict order: the invariant of `std::map`.
abbrev pub IsMap : List Entry → Type 0
IsMap [] = Unit
IsMap ((k, v) ∷ m) = Above k m × IsMap m

Above-trans : (a b : List ℕ) (m : List Entry) → less a b ≡ true → Above b m → Above a m
Above-trans a b [] p h = tt
Above-trans a b ((k, v) ∷ m) p h = (less_trans a b k p h.0, Above-trans a b m p h.1)

assign-Above :
    (a k v : List ℕ) (m : List Entry) → less a k ≡ true → Above a m → Above a (assign k v m)
unfolding assign
assign-Above a k v [] p h = (p, tt)
assign-Above a k v ((j, w) ∷ m) p h = ground (arith, assign-Above a k v m p h.1)

-- An assignment keeps the keys in order.
pub assign-IsMap : (k v : List ℕ) (m : List Entry) → IsMap m → IsMap (assign k v m)
unfolding assign
assign-IsMap k v [] h = (tt, tt)
assign-IsMap k v ((j, w) ∷ m) h =
    ground (arith, assign-IsMap k v m h.1, assign-Above j k v m, less_total k j, Above-trans k j m)

-- Reading back: the key assigned has the new value, every other key what it had.
pub find-assign :
    (j k v : List ℕ) (m : List Entry)
    → find j (assign k v m) ≡ (if equal j k then some v else find j m)
unfolding find assign
find-assign j k v [] = refl
find-assign j k v ((i, w) ∷ m) =
    ground (arith, equal_iff j k, equal_iff k i, equal_iff j i, find-assign j k v m)
