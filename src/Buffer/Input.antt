-- ===== src/Buffer/Input.antt =====
-- `readFd`: one `readv` into the free space of the buffer and a stack buffer behind it.
use yvent.Prelude.{
  ℕ, ◌+◌, ◌*◌, ◌≤◌, ◌<◌, ◌≡◌, refl, ap, List, arith, length, take, drop, inl, inr, Bool-cases, leb,
  take-append-drop, length-take, length-drop, length-append,
}
use yvent.Fault.{ok, Returns, returns, returned, Returns-ok}
use yvent.Word.{max_size}
use yvent.Buffer.Contents.{
  length-contents, IsValid, Appended, append-Appended, Appended-trans, Room, written,
  written-Appended,
}
use yvent.Buffer.{
  cheap_prepend, Buffer, contents, writable_bytes, append, take_in, read_fd, ReadResult, failed,
  received, offered,
}

module _ (b : Buffer) (v : IsValid b) where
  Room-left : (bytes : List ℕ) → length bytes ≤ writable_bytes b → Room b (length bytes) b
  Room-left bytes h = record {
    holds = record { valid = v; held = refl };
    room = omega arith;
    front = omega arith;
  }

  -- The bytes that fit stand in the buffer, the others in `extrabuf`.
  abbrev fit : List ℕ → List ℕ
  fit bytes = take (writable_bytes b) bytes

  module _ (bytes : List ℕ) where
    take_in_fits : length bytes ≤ writable_bytes b → take_in b bytes ≡ ok (written b bytes)
    unfolding take_in
    take_in_fits h = ground arith

    take_in_more :
        writable_bytes b < length bytes
        → take_in b bytes ≡ append (written b (fit bytes)) (drop (writable_bytes b) bytes)
    unfolding take_in
    take_in_more h = ground (arith, length-take (writable_bytes b) bytes)

    spill-Appended :
        writable_bytes b < length bytes
        → length (contents b) + 2 * length bytes + cheap_prepend ≤ max_size
        → Returns
            (Appended b bytes)
            (append (written b (fit bytes)) (drop (writable_bytes b) bytes))
    spill-Appended h k =
        let size = length-take (writable_bytes b) bytes in
        let first = written-Appended b b (fit bytes) (Room-left (fit bytes) (omega arith)) in
        let (c, e, second) = Returns-ok (
          append-Appended (written b (fit bytes)) (drop (writable_bytes b) bytes) first.holds.valid
            (omega (
              arith,
              size,
              length-contents b v,
              ap length first.holds.held,
              length-append (contents b) (fit bytes),
              length-drop (writable_bytes b) bytes,
            ))) in
        returned _ e (
          rw (take-append-drop (writable_bytes b) bytes) at
            (Appended-trans (fit bytes) _ first second))

    -- Bytes that `readv` delivered go behind those that were there, the ones in `extrabuf` too.
    pub take_in-Appended :
        length (contents b) + 2 * length bytes + cheap_prepend ≤ max_size
        → Returns (Appended b bytes) (take_in b bytes)
    take_in-Appended k = elim (Bool-cases (leb (length bytes) (writable_bytes b))) [
      | inl fits ↦
          returned _ (take_in_fits (ground arith))
            (written-Appended b b bytes (Room-left bytes (ground arith)))
      | inr more ↦ rw (take_in_more (ground arith)) (spill-Appended (ground arith) k)
    ]

-- What `readFd` hands back: nothing changed on a failure, or all that was received is there.
abbrev pub ReadFrom : Buffer → ReadResult × Buffer → Type 0
ReadFrom b (failed e, c) = c ≡ b
ReadFrom b (received bytes, c) = Appended b bytes c

module _ (readv : ℕ → ReadResult) where
  read_fd_cases :
      (b : Buffer) (r : ReadResult)
      → readv (offered b) ≡ r
      → IsValid b
      → ((bytes : List ℕ)
          → r ≡ received bytes
          → length (contents b) + 2 * length bytes + cheap_prepend ≤ max_size)
      → Returns (λ p. (p.0 ≡ r) × ReadFrom b p) (read_fd readv b)
  unfolding read_fd
  read_fd_cases b (failed e) q v room = rw (q, read_fd) (returns _ (refl, refl))
  read_fd_cases b (received bytes) q v room =
      let (c, e, a) = Returns-ok (take_in-Appended b v bytes (room bytes refl)) in
      rw (q, read_fd) (rw e (returns _ (refl, a)))

  -- `readFd` leaves a valid buffer with every byte that `readv` delivered behind those that were
  -- there, also where they overflow into `extrabuf`. On an error the buffer is unchanged. `readv`
  -- is only assumed to deliver no more than it was offered.
  pub read_fd_lem :
      (b : Buffer)
      → IsValid b
      → ((n : ℕ) (bytes : List ℕ) → readv n ≡ received bytes → length bytes ≤ n)
      → length (contents b) + 2 * offered b + cheap_prepend ≤ max_size
      → Returns (λ p. (p.0 ≡ readv (offered b)) × ReadFrom b p) (read_fd readv b)
  read_fd_lem b v delivers room =
      read_fd_cases b (readv (offered b)) refl v
        (λ bytes e. let fits = delivers (offered b) bytes e in omega arith)
