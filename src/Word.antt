-- ===== src/Word.antt =====
-- Machine words: `size_t` arithmetic, with the wrap-around written out, and the largest size of a
-- `std::vector<char>`.
use yvent.Prelude.{ℕ, ◌+◌, ◌-◌, ◌%◌, ◌^◌, ◌≤◌, ◌<◌, ◌≡◌, arith}

abbrev pub add_size : ℕ → ℕ → ℕ
add_size a b = (a + b) % 2 ^ 64

abbrev pub sub_size : ℕ → ℕ → ℕ
sub_size a b = (a + 2 ^ 64 - b) % 2 ^ 64

-- `PTRDIFF_MAX`, the limit of `std::vector<char>::max_size`.
abbrev pub max_size : ℕ
max_size = 2 ^ 63 - 1

pub add_size_exact : (a b : ℕ) → a + b < 2 ^ 64 → add_size a b ≡ a + b
add_size_exact a b h = omega arith

pub sub_size_exact : (a b : ℕ) → b ≤ a → a < 2 ^ 64 → sub_size a b ≡ a - b
sub_size_exact a b h k = omega arith

-- The values of an `int`.
pub data ℤ : Type 0 where
  pos negsuc : ℕ → ℤ
