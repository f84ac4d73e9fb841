-- ===== src/Codec/Receive.antt =====
-- The loop of `onMessage` over a buffer that holds whole frames and the beginning of one more.
use yvent.Prelude.{
  ℕ, zero, suc, ◌+◌, ◌-◌, ◌^◌, ◌≤◌, ◌<◌, ◌≡◌, refl, sym, ap, ◌∙◌, List, [], ◌∷◌, ◌++◌, append_assoc,
  arith, inl, inr, Bool-cases, length, take, drop, length-append, length-drop, take-append-drop,
  ltb, take-append,
}
use yvent.Fault.{ok, Returns, returned, Returns-ok}
use yvent.Buffer.Slices.{take-slice}
use yvent.Buffer.Contents.{IsValid, Holds, length-contents}
use yvent.Buffer.Retrieve.{retrieve_front, retrieve_string_front}
use yvent.Buffer.{
  Buffer, contents, little_endian, peek_int32, readable_bytes, retrieve, retrieve_as_string,
}
use yvent.Codec.{swap32, max_len, header_len, on_message}
use yvent.Codec.Frames.{header, frame, frames, swap32-header}

-- A beginning of a frame that lacks at least one byte.
pub record IsPartial (q : List ℕ) : Type 0 where
  pub message : List ℕ
  pub missing : List ℕ
  pub short : length message ≤ max_len
  pub unfinished : 0 < length missing
  pub completes : q ++ missing ≡ frame message

abbrev pub AllShort : List (List ℕ) → Type 0
AllShort [] = Unit
AllShort (m ∷ ms) = (length m ≤ max_len) × AllShort ms

-- The callback, called for each message in turn.
abbrev pub deliver_all : {C : Type 0} → (C → List ℕ → C) → C → List (List ℕ) → C
deliver_all deliver conn [] = conn
deliver_all deliver conn (m ∷ ms) = deliver_all deliver (deliver conn m) ms

peek_contents :
    (b : Buffer)
    → IsValid b
    → 4 ≤ length (contents b)
    → peek_int32 b ≡ little_endian (take 4 (contents b))
unfolding peek_int32
peek_contents b v h = sym (
    ap little_endian (
      take-slice b.buffer b.reader_index (b.writer_index - b.reader_index) 4
        (omega (arith, length-contents b v))))

-- The length that the loop reads, where a header stands in front.
module _ {b : Buffer} (n : ℕ) (rest : List ℕ) (v : IsValid b)
    (e : contents b ≡ header n ++ rest) where
  size_header : readable_bytes b ≡ 4 + length rest
  size_header = omega (arith, length-contents b v, ap length e)

  len_header : n < 2 ^ 32 → swap32 (peek_int32 b) ≡ n
  len_header h =
      ap swap32
        (peek_contents b v (omega (arith, ap length e)) ∙ ap (λ t. little_endian (take 4 t)) e)
      ∙ swap32-header n h

module _ {C : Type 0} (deliver : C → List ℕ → C) (shutdown : C → C) (fuel : ℕ) (conn : C)
    (b : Buffer) where
  round_frame :
      {behind : Buffer} {r : List ℕ × Buffer} (m rest : List ℕ)
      → Holds (frame m ++ rest) b
      → length m ≤ max_len
      → retrieve b header_len ≡ ok behind
      → retrieve_as_string behind (length m) ≡ ok r
      → on_message deliver shutdown (suc fuel) conn b
        ≡ on_message deliver shutdown fuel (deliver conn r.0) r.1
  unfolding on_message
  round_frame {behind} {r} m rest h k e f =
      rw (len_header (length m) (m ++ rest) h.valid h.held (omega arith), on_message)
        (ground (arith, size_header (length m) (m ++ rest) h.valid h.held, length-append m rest))

  round_bad :
      (n : ℕ) (rest : List ℕ)
      → IsValid b
      → contents b ≡ header n ++ rest
      → max_len < n
      → n < 2 ^ 32
      → on_message deliver shutdown (suc fuel) conn b ≡ ok (shutdown conn, b)
  unfolding on_message
  round_bad n rest v e k h =
      rw (len_header n rest v e h, on_message) (ground (arith, size_header n rest v e))

  round_short :
      IsValid b
      → length (contents b) < header_len
      → on_message deliver shutdown (suc fuel) conn b ≡ ok (conn, b)
  unfolding on_message
  round_short v h = ground (arith, length-contents b v)

  round_wait :
      (n : ℕ) (rest : List ℕ)
      → IsValid b
      → contents b ≡ header n ++ rest
      → n ≤ max_len
      → length rest < n
      → on_message deliver shutdown (suc fuel) conn b ≡ ok (conn, b)
  unfolding on_message
  round_wait n rest v e k h =
      rw (len_header n rest v e (omega arith), on_message) (ground (arith, size_header n rest v e))

IsPartial-header :
    {q : List ℕ} → (p : IsPartial q) → 4 ≤ length q → q ≡ header (length p.message) ++ drop 4 q
IsPartial-header {q} p h =
    sym (take-append-drop 4 q)
    ∙ ap (λ t. t ++ drop 4 q) (sym (take-append 4 q p.missing h) ∙ ap (take 4) p.completes)

module _ {C : Type 0} (deliver : C → List ℕ → C) (shutdown : C → C) where
  -- A whole frame in front: its message is delivered, and the loop goes on behind it.
  round-frame :
      (fuel : ℕ) (conn : C) (b : Buffer) (m rest : List ℕ)
      → Holds (frame m ++ rest) b
      → length m ≤ max_len
      → (c : Buffer) × Holds rest c
        × (on_message deliver shutdown (suc fuel) conn b
            ≡ on_message deliver shutdown fuel (deliver conn m) c)
  round-frame fuel conn b m rest h k =
      let (behind, e, hb) = Returns-ok (retrieve_front (header (length m)) (m ++ rest) h) in
      let (r, f, hr) = Returns-ok (retrieve_string_front m rest hb) in
      (
        r.1,
        hr.1,
        round_frame deliver shutdown fuel conn b m rest h k e f
            ∙ ap (λ s. on_message deliver shutdown fuel (deliver conn s) r.1) hr.0,
      )

  round-IsPartial :
      (fuel : ℕ) (conn : C) (b : Buffer) (q : List ℕ)
      → Holds q b
      → IsPartial q
      → on_message deliver shutdown (suc fuel) conn b ≡ ok (conn, b)
  round-IsPartial fuel conn b q h p = elim (Bool-cases (ltb (length q) 4)) [
    | inl few ↦ round_short deliver shutdown fuel conn b h.valid (ground (arith, ap length h.held))
    | inr more ↦
        round_wait deliver shutdown fuel conn b (length p.message) (drop 4 q) h.valid
          (h.held ∙ IsPartial-header p (ground arith)) p.short
          (ground (arith, size, length-drop 4 q))
  ]
    where
      size : length q + length p.missing ≡ 4 + length p.message
      size = omega (arith, ap length p.completes, length-append q p.missing)

  -- `onMessage` delivers every whole message in the buffer, in order and once, asks for no shutdown,
  -- and leaves the beginning of the next frame in the buffer. A round of the loop for each message
  -- and one more are enough.
  pub on_message-frames :
      (fuel : ℕ) (conn : C) (b : Buffer) (ms : List (List ℕ)) (q : List ℕ)
      → Holds (frames ms ++ q) b
      → AllShort ms
      → IsPartial q
      → length ms < fuel
      → Returns
          (λ r. (r.0 ≡ deliver_all deliver conn ms) × Holds q r.1)
          (on_message deliver shutdown fuel conn b)
  on_message-frames zero conn b ms q h s p l = absurd (omega arith)
  on_message-frames (suc fuel) conn b [] q h s p l =
      returned _ (round-IsPartial fuel conn b q h p) (refl, h)
  on_message-frames (suc fuel) conn b (m ∷ ms) q h s p l =
      let (c, hc, e) =
        round-frame fuel conn b m (frames ms ++ q)
          (record { valid = h.valid; held = h.held ∙ append_assoc (frame m) (frames ms) q }) s.0 in
      rw e (on_message-frames fuel (deliver conn m) c ms q hc s.1 p (omega arith))

  -- A length above 65536, or one that is negative as an `int32_t`, ends the connection: nothing is
  -- delivered and nothing is taken from the buffer.
  pub on_message_bad_len :
      (fuel : ℕ) (conn : C) (b : Buffer) (n : ℕ) (rest : List ℕ)
      → Holds (header n ++ rest) b
      → max_len < n
      → n < 2 ^ 32
      → on_message deliver shutdown (suc fuel) conn b ≡ ok (shutdown conn, b)
  on_message_bad_len fuel conn b n rest h k l =
      round_bad deliver shutdown fuel conn b n rest h.valid h.held k l
