-- ===== src/Buffer/Contents.antt =====
-- A valid buffer is a queue of the bytes between its two indices.
use yvent.Prelude.{
  ℕ, zero, ◌+◌, ◌-◌, ◌*◌, ◌≤◌, ◌<◌, ◌≡◌, refl, ap, ◌∙◌, List, [], ◌++◌, append_assoc, arith, min,
  length, replicate, length-append, length-replicate, inl, inr, Bool-cases, ltb, leb,
}
use yvent.Fault.{ok, err, length_error, Returns, returned, Returns-bind}
use yvent.Word.{max_size}
use yvent.Buffer.Slices.{
  length-slice, slice-append, length-write_at, slice-write_at_end, slice-write_at_self,
}
use yvent.Buffer.{
  Buffer, slice, write_at, contents, make, writable_bytes, readable_bytes, prependable_bytes,
  cheap_prepend, ensure_writable_bytes, has_written, append,
}

pub record IsValid (b : Buffer) : Type 0 where
  pub head_room : cheap_prepend ≤ length b.buffer
  pub ordered : b.reader_index ≤ b.writer_index
  pub within : b.writer_index ≤ length b.buffer
  pub bounded : length b.buffer ≤ max_size

-- A buffer that a call leaves behind is valid and holds these bytes.
pub record Holds (bytes : List ℕ) (b : Buffer) : Type 0 where
  pub valid : IsValid b
  pub held : contents b ≡ bytes

-- What `ensureWritableBytes` leaves: the same bytes, with room for `len` more.
pub record Room (b : Buffer) (len : ℕ) (c : Buffer) : Type 0 where
  pub holds : Holds (contents b) c
  pub room : c.writer_index + len ≤ length c.buffer
  pub front : min b.reader_index cheap_prepend ≤ c.reader_index

-- What `append` leaves: the bytes behind those that were there.
pub record Appended (b : Buffer) (bytes : List ℕ) (c : Buffer) : Type 0 where
  pub holds : Holds (contents b ++ bytes) c
  pub front : min b.reader_index cheap_prepend ≤ c.reader_index

-- A new buffer is valid and empty.
pub make-Holds : (size : ℕ) → Holds [] (make size)
unfolding make
make-Holds size = record { valid = omega (arith, length-replicate 1032 zero); held = refl }

pub length-contents : (b : Buffer) → IsValid b → length (contents b) ≡ readable_bytes b
length-contents b v =
    omega (arith, length-slice b.buffer b.reader_index (b.writer_index - b.reader_index))

-- The three ways of `ensureWritableBytes`.
module _ (b : Buffer) (len : ℕ) (v : IsValid b) where
  abbrev grown : Buffer
  grown = record b { buffer = b.buffer ++ replicate (b.writer_index + len - length b.buffer) 0 }

  abbrev moved : Buffer
  moved = record {
    buffer = write_at cheap_prepend (contents b) b.buffer;
    reader_index = cheap_prepend;
    writer_index = cheap_prepend + (b.writer_index - b.reader_index);
  }

  grown-Room : writable_bytes b < len → b.writer_index + len ≤ max_size → Room b len grown
  grown-Room h k = record {
    holds = record {
      valid = omega (arith, length-append b.buffer (replicate fill 0), length-replicate fill zero);
      held = slice-append b.buffer b.reader_index (b.writer_index - b.reader_index) _ (omega arith);
    };
    room = omega (arith, length-append b.buffer (replicate fill 0), length-replicate fill zero);
    front = omega arith;
  }
    where
      fill : ℕ
      fill = b.writer_index + len - length b.buffer

  moved-Room :
      cheap_prepend < b.reader_index
      → len + cheap_prepend ≤ writable_bytes b + prependable_bytes b
      → Room b len moved
  moved-Room h k = record {
    holds = record {
      valid = omega (arith, kept, size);
      held =
          ap (λ n. slice cheap_prepend n (write_at cheap_prepend (contents b) b.buffer))
            (let q : cheap_prepend + (b.writer_index - b.reader_index) - cheap_prepend
                  ≡ b.writer_index - b.reader_index =
                omega arith in
              q)
          ∙ slice-write_at_self b.buffer (contents b) cheap_prepend
              (b.writer_index - b.reader_index) (omega (arith, size)) (omega arith);
    };
    room = omega (arith, kept, size);
    front = omega arith;
  }
    where
      size : length (contents b) ≡ b.writer_index - b.reader_index
      size = length-slice b.buffer b.reader_index (b.writer_index - b.reader_index) (omega arith)

      kept : length (write_at cheap_prepend (contents b) b.buffer) ≡ length b.buffer
      kept = length-write_at b.buffer (contents b) cheap_prepend (omega (arith, size))

  ensure-grown :
      writable_bytes b < len
      → b.writer_index + len ≤ max_size
      → writable_bytes b + prependable_bytes b < len + cheap_prepend
      → ensure_writable_bytes b len ≡ ok grown
  unfolding ensure_writable_bytes
  ensure-grown h k m = ground (
    arith,
    length-append b.buffer (replicate (b.writer_index + len - length b.buffer) 0),
    length-replicate (b.writer_index + len - length b.buffer) zero,
  )

  ensure-moved :
      writable_bytes b < len
      → len ≤ max_size
      → len + cheap_prepend ≤ writable_bytes b + prependable_bytes b
      → ensure_writable_bytes b len ≡ ok moved
  unfolding ensure_writable_bytes
  ensure-moved h k m = ground (
    arith,
    length-slice b.buffer b.reader_index (b.writer_index - b.reader_index),
    length-write_at b.buffer (contents b) cheap_prepend,
  )

  ensure_enough : len ≤ writable_bytes b → ensure_writable_bytes b len ≡ ok b
  unfolding ensure_writable_bytes
  ensure_enough h = ground arith

  -- Enough room, or growth, or a move of the bytes to the front: the bytes stay, and there is room.
  pub ensure-Room :
      length (contents b) + 2 * len + cheap_prepend ≤ max_size
      → Returns (Room b len) (ensure_writable_bytes b len)
  ensure-Room k = elim (Bool-cases (leb len (writable_bytes b))) [
    | inl fits ↦ returned _ (ensure_enough (ground arith)) (record {
      holds = record { valid = v; held = refl };
      room = ground arith;
      front = omega arith;
    })
    | inr short ↦
        elim (Bool-cases (ltb (writable_bytes b + prependable_bytes b) (len + cheap_prepend))) [
          | inl low ↦
              let small : b.writer_index + len ≤ max_size = ground (arith, length-contents b v) in
              returned _ (ensure-grown (ground arith) small (ground arith))
                (grown-Room (ground arith) small)
          | inr high ↦
              returned _ (ensure-moved (ground arith) (omega arith) (ground arith))
                (moved-Room (ground arith) (ground arith))
        ]
  ]

  -- Where neither the free bytes nor a vector of the largest size suffice, growth throws.
  pub ensure_throws :
      len ≤ max_size
      → max_size < b.writer_index + len
      → writable_bytes b + prependable_bytes b < len + cheap_prepend
      → ensure_writable_bytes b len ≡ err length_error
  unfolding ensure_writable_bytes
  ensure_throws m h k = ground arith

abbrev pub written : Buffer → List ℕ → Buffer
written c bytes = record c {
  buffer = write_at c.writer_index bytes c.buffer;
  writer_index = c.writer_index + length bytes;
}

module _ (b c : Buffer) (bytes : List ℕ) (r : Room b (length bytes) c) where
  has_written_ok :
      has_written (record c { buffer = write_at c.writer_index bytes c.buffer }) (length bytes)
      ≡ ok (written c bytes)
  unfolding has_written
  has_written_ok =
      ground (arith, length-write_at c.buffer bytes c.writer_index r.room, r.holds.valid)

  pub written-Appended : Appended b bytes (written c bytes)
  written-Appended = record {
    holds = record {
      valid = omega (arith, length-write_at c.buffer bytes c.writer_index r.room, r.holds.valid);
      held =
          ap (λ n. slice c.reader_index n (write_at c.writer_index bytes c.buffer))
            (let q : c.writer_index + length bytes - c.reader_index
                  ≡ c.writer_index - c.reader_index + length bytes =
                omega (arith, r.holds.valid) in
              q)
          ∙ slice-write_at_end c.buffer bytes c.reader_index (c.writer_index - c.reader_index)
              c.writer_index (omega (arith, r.holds.valid)) r.room
          ∙ ap (λ t. t ++ bytes) r.holds.held;
    };
    front = r.front;
  }

-- Two appends are one of both runs of bytes.
pub Appended-trans :
    {b c d : Buffer} (xs ys : List ℕ) → Appended b xs c → Appended c ys d → Appended b (xs ++ ys) d
Appended-trans {b} xs ys p q = record {
  holds = record {
    valid = q.holds.valid;
    held = q.holds.held ∙ ap (λ t. t ++ ys) p.holds.held ∙ append_assoc (contents b) xs ys;
  };
  front = omega (arith, p.front, q.front);
}

-- `append` puts its bytes behind those in the buffer and keeps it valid, whatever room there is:
-- where the buffer holds so little that it cannot come to the largest size of a vector.
pub append-Appended :
    (b : Buffer) (bytes : List ℕ)
    → IsValid b
    → length (contents b) + 2 * length bytes + cheap_prepend ≤ max_size
    → Returns (Appended b bytes) (append b bytes)
unfolding append
append-Appended b bytes v h =
    Returns-bind (ensure_writable_bytes b (length bytes)) _ (ensure-Room b (length bytes) v h)
      λ c r. returned _ (has_written_ok b c bytes r) (written-Appended b c bytes r)

-- `append` of more than fits throws, before it changes the buffer.
pub append_throws :
    (b : Buffer) (bytes : List ℕ)
    → IsValid b
    → length bytes ≤ max_size
    → max_size < b.writer_index + length bytes
    → writable_bytes b + prependable_bytes b < length bytes + cheap_prepend
    → append b bytes ≡ err length_error
unfolding append
append_throws b bytes v m h k = rw (ensure_throws b (length bytes) v m h k)
