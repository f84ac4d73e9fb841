-- ===== src/Buffer/Slices.antt =====
-- Laws of `slice` and `write_at`, the ranges of bytes that the buffer reads and writes.
use yvent.Prelude.{
  ℕ, ◌+◌, ◌≤◌, ◌≡◌, sym, ap, ◌∙◌, List, ◌++◌, append_assoc, arith, length, take, drop,
  length-append, length-take, length-drop, take-append, drop-append, take-length-append,
  drop-length-append, drop-drop, take-take, drop-take, take-add-append,
}
use yvent.Buffer.{slice, write_at}

module _ (s : List ℕ) where
  pub length-slice : (i n : ℕ) → i + n ≤ length s → length (slice i n s) ≡ n
  length-slice i n h = omega (arith, length-take n (drop i s), length-drop i s)

  pub slice-append : (i n : ℕ) (t : List ℕ) → i + n ≤ length s → slice i n (s ++ t) ≡ slice i n s
  slice-append i n t h =
      ap (take n) (drop-append i s t (omega arith))
      ∙ take-append n (drop i s) t (omega (arith, length-drop i s))

  -- What is left of a slice behind its first `k` bytes.
  pub drop-slice : (i n k j m : ℕ) → j ≡ i + k → n ≡ k + m → drop k (slice i n s) ≡ slice j m s
  drop-slice i n k j m e f = drop-take k n m (drop i s) f ∙ ap (take m) (drop-drop i k j s e)

  pub take-slice : (i n k : ℕ) → k ≤ n → take k (slice i n s) ≡ slice i k s
  take-slice i n k h = take-take k n (drop i s) h

  module _ (bytes : List ℕ) where
    pub length-write_at :
        (i : ℕ) → i + length bytes ≤ length s → length (write_at i bytes s) ≡ length s
    length-write_at i h = omega (
      arith,
      length-append (take i s) (bytes ++ drop (i + length bytes) s),
      length-append bytes (drop (i + length bytes) s),
      length-take i s,
      length-drop (i + length bytes) s,
    )

    drop-write_at :
        (i : ℕ) → i ≤ length s → drop i (write_at i bytes s) ≡ bytes ++ drop (i + length bytes) s
    drop-write_at i h = drop-length-append i (take i s) _ (omega (arith, length-take i s))

    -- Bytes written behind a slice extend it.
    pub slice-write_at_end :
        (i n w : ℕ)
        → i + n ≡ w
        → w + length bytes ≤ length s
        → slice i (n + length bytes) (write_at w bytes s) ≡ slice i n s ++ bytes
    slice-write_at_end i n w e h =
        ap (take (n + length bytes)) (
          drop-append i (take w s) _ (omega (arith, length-take w s))
          ∙ ap (λ t. t ++ (bytes ++ drop (w + length bytes) s)) (drop-take i w n s (omega arith))
          ∙ sym (append_assoc (slice i n s) bytes (drop (w + length bytes) s)))
        ∙ take-length-append (n + length bytes) (slice i n s ++ bytes) _
            (omega (arith, length-append (slice i n s) bytes, length-slice i n (omega arith)))

    pub slice-write_at_self :
        (i n : ℕ) → n ≡ length bytes → i + n ≤ length s → slice i n (write_at i bytes s) ≡ bytes
    slice-write_at_self i n e h =
        ap (take n) (drop-write_at i (omega arith))
        ∙ take-length-append n bytes (drop (i + length bytes) s) e

    -- Bytes written in front of a slice extend it.
    pub slice-write_at_front :
        (i n r m : ℕ)
        → r ≡ i + length bytes
        → m ≡ length bytes + n
        → r + n ≤ length s
        → slice i m (write_at i bytes s) ≡ bytes ++ slice r n s
    slice-write_at_front i n r m e f h =
        ap (take m) (drop-write_at i (omega arith) ∙ ap (λ j. bytes ++ drop j s) (sym e))
        ∙ take-add-append bytes (drop r s) n m f
