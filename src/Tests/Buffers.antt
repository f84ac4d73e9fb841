-- ===== src/Tests/Buffers.antt =====
-- Examples of the theorems on buffers and channels.

use yvent.Prelude.{ℕ, ◌≤◌, ◌≡◌, ap, List, [], ◌∷◌, length, take, arith, length-take}
use yvent.Fault.{Returns}
use yvent.Buffer
use yvent.Buffer.{Buffer, contents, find_crlf, ReadResult, failed, received}
use yvent.Buffer.Contents.{IsValid, Appended, append-Appended}
use yvent.Buffer.Input.{ReadFrom, read_fd_lem}

-- Five bytes, with "\r\n" after the second, at the end of a vector of 13.
abbrev sample : Buffer
sample = record {
  buffer = 0 ∷ 0 ∷ 0 ∷ 0 ∷ 0 ∷ 0 ∷ 0 ∷ 0 ∷ 97 ∷ 98 ∷ 13 ∷ 10 ∷ 99 ∷ [];
  reader_index = 8;
  writer_index = 13;
}

sample-IsValid : IsValid sample
sample-IsValid = record {
  head_room = omega arith;
  ordered = omega arith;
  within = omega arith;
  bounded = omega arith;
}

append-Appended_example :
    Returns (Appended sample (100 ∷ 101 ∷ [])) (Buffer.append sample (100 ∷ 101 ∷ []))
append-Appended_example = append-Appended sample (100 ∷ 101 ∷ []) sample-IsValid (omega arith)

abbrev readv : ℕ → ReadResult
readv n = received (take n (1 ∷ 2 ∷ 3 ∷ []))

readv_delivers : (n : ℕ) (bytes : List ℕ) → readv n ≡ received bytes → length bytes ≤ n
readv_delivers n bytes e =
    let q : take n (1 ∷ 2 ∷ 3 ∷ []) ≡ bytes =
      ap (λ r. elim r [ failed x ↦ [] | received b ↦ b ]) e in
    omega (arith, ap length q, length-take {A = ℕ} n (1 ∷ 2 ∷ 3 ∷ []))

read_fd_example :
    Returns
      (λ p. (p.0 ≡ readv (Buffer.offered sample)) × ReadFrom sample p)
      (Buffer.read_fd readv sample)
read_fd_example = read_fd_lem readv sample sample-IsValid readv_delivers (omega arith)
