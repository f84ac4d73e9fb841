-- ===== src/Codec/Frames.antt =====
-- The wire format, and what the codec's sender makes of a message.
use yvent.Prelude.{
  ℕ, ◌+◌, ◌*◌, ◌/◌, ◌%◌, ◌^◌, ◌<◌, ◌≡◌, ap, ◌∙◌, List, [], ◌∷◌, ◌++◌, arith, length,
}
use yvent.Fault.{Result, ok, Returns-ok}
use yvent.Buffer.Contents.{Holds, Appended, append-Appended, make-Holds}
use yvent.Buffer.Retrieve.{prepend-Holds}
use yvent.Buffer.{Buffer, make, initial_size, append, prepend, little_endian}
use yvent.Codec.{swap32, bytes32, send}

-- The length in network order, the most significant byte first, then the message.
abbrev pub header : ℕ → List ℕ
header n = n / 2 ^ 24 % 256 ∷ n / 2 ^ 16 % 256 ∷ n / 2 ^ 8 % 256 ∷ n % 256 ∷ []

abbrev pub frame : List ℕ → List ℕ
frame m = header (length m) ++ m

abbrev pub frames : List (List ℕ) → List ℕ
frames [] = []
frames (m ∷ ms) = frame m ++ frames ms

pub swap32-header : (n : ℕ) → n < 2 ^ 32 → swap32 (little_endian (header n)) ≡ n
swap32-header n h = omega arith

bytes32_sum :
    (a b c d : ℕ)
    → a < 256
    → b < 256
    → c < 256
    → d < 256
    → bytes32 (a * 2 ^ 24 + b * 2 ^ 16 + c * 2 ^ 8 + d) ≡ d ∷ c ∷ b ∷ a ∷ []
bytes32_sum a b c d p q r s = ground arith

pub bytes32-swap32 : (n : ℕ) → bytes32 (swap32 n) ≡ header n
bytes32-swap32 n =
    bytes32_sum (n % 256) (n / 2 ^ 8 % 256) (n / 2 ^ 16 % 256) (n / 2 ^ 24 % 256) (omega arith)
      (omega arith) (omega arith) (omega arith)

module _ {ℓ} {C : Type ℓ} (conn_send : C → Buffer → Result C) (conn : C) (m : List ℕ) where
  abbrev net_len : List ℕ
  net_len = bytes32 (swap32 (length m % 2 ^ 32))

  send_steps :
      {filled framed : Buffer}
      → append (make initial_size) m ≡ ok filled
      → prepend filled net_len ≡ ok framed
      → send conn_send conn m ≡ conn_send conn framed
  unfolding send
  send_steps e f = rw (e, f)

  send_filled :
      length m < 2 ^ 32
      → (filled : Buffer) → append (make initial_size) m ≡ ok filled
      → Appended (make initial_size) m filled
      → (b : Buffer) × Holds (frame m) b × (send conn_send conn m ≡ conn_send conn b)
  unfolding make
  send_filled h filled e a =
      let (framed, f, holds) =
        Returns-ok (prepend-Holds filled a.holds.valid net_len (omega (arith, a.front))) in
      (
        framed,
        record {
          valid = holds.valid;
          held =
              holds.held
              ∙ ap (λ t. net_len ++ t) a.holds.held
              ∙ ap (λ t. t ++ m)
                  (bytes32-swap32 (length m % 2 ^ 32)
                    ∙ ap header (let q : length m % 2 ^ 32 ≡ length m = omega arith in q));
        },
        send_steps e f,
      )

  -- What `send` hands to the connection: a valid buffer that holds the frame of the message and
  -- nothing else, for every message whose length fits an `int32_t`'s 32 bits.
  pub send-frame :
      length m < 2 ^ 32
      → (b : Buffer) × Holds (frame m) b × (send conn_send conn m ≡ conn_send conn b)
  unfolding make
  send-frame h =
      let (filled, e, a) =
        Returns-ok
          (append-Appended (make initial_size) m (make-Holds initial_size).valid (omega arith)) in
      send_filled h filled e a
