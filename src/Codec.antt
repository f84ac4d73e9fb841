-- ===== src/Codec.antt =====
-- example/chat/codec.h: messages with a length header in front, four bytes in network order.
-- The connection is a parameter: its type, `conn->send` and `conn->shutdown()`, and the callback
-- that receives a message, each as a function on it.
pub mod Frames
pub mod Receive
pub mod Stream
use yvent.Prelude.{
  ℕ, zero, suc, ◌+◌, ◌*◌, ◌/◌, ◌%◌, ◌^◌, List, [], ◌∷◌, Bool, ◌||◌, ◌&&◌, not, ltb, leb,
  if◌then◌else◌, length,
}
use yvent.Fault.{Result, ok, err, out_of_fuel, ◌>>=◌, ◌>>◌}
use yvent.Word.{add_size}
use yvent.Buffer.{
  Buffer, make, initial_size, append, prepend, readable_bytes, peek_int32, retrieve,
  retrieve_as_string,
}

abbrev pub header_len : ℕ
header_len = 4

-- The largest length that a receiver takes.
abbrev pub max_len : ℕ
max_len = 65536

-- `ntohl` and `htonl` on a little-endian host: the four bytes in the other order.
abbrev pub swap32 : ℕ → ℕ
swap32 u = u % 256 * 2 ^ 24 + u / 2 ^ 8 % 256 * 2 ^ 16 + u / 2 ^ 16 % 256 * 2 ^ 8 + u / 2 ^ 24 % 256

-- The bytes of an `int32_t` in memory.
abbrev pub bytes32 : ℕ → List ℕ
bytes32 u = u % 256 ∷ u / 2 ^ 8 % 256 ∷ u / 2 ^ 16 % 256 ∷ u / 2 ^ 24 % 256 ∷ []

-- `int32_t` values are bit patterns below 2 ^ 32; from 2 ^ 31 on they are negative.
abbrev pub is_negative : ℕ → Bool
is_negative u = leb (2 ^ 31) u

-- `len > 65536 || len < 0`.
abbrev pub is_bad_len : ℕ → Bool
is_bad_len len = (not (is_negative len) && ltb max_len len) || is_negative len

module _ {ℓ} {C : Type ℓ} where
  -- `send`: the message in a buffer of its own, its length in front of it.
  unfoldable pub send : (C → Buffer → Result C) → C → List ℕ → Result C
  send conn_send conn message = do
    filled ← append (make initial_size) message
    let len = length message % 2 ^ 32
    framed ← prepend filled (bytes32 (swap32 len))
    conn_send conn framed

  -- The loop of `onMessage`, on fuel.
  unfoldable pub on_message : (C → List ℕ → C) → (C → C) → ℕ → C → Buffer → Result (C × Buffer)
  on_message deliver shutdown zero conn b = err out_of_fuel
  on_message deliver shutdown (suc fuel) conn b =
      let len = swap32 (peek_int32 b) in
      let next : Result (C × Buffer) = (do
        behind ← retrieve b header_len
        taken ← retrieve_as_string behind len
        on_message deliver shutdown fuel (deliver conn taken.0) taken.1) in
      if leb header_len (readable_bytes b)
      then (if is_bad_len len
          then ok (shutdown conn, b)
          else if leb (add_size len header_len) (readable_bytes b)
          then next
          else ok (conn, b))
      else ok (conn, b)
