-- ===== src/Buffer/Retrieve.antt =====
-- The calls that take bytes from the front of a valid buffer, and `prepend`, which puts them there.
use yvent.Prelude.{
  ℕ, ◌+◌, ◌-◌, ◌≤◌, ◌<◌, ◌≡◌, refl, sym, ap, ◌∙◌, List, [], ◌++◌, arith, length, take, drop, inl,
  inr, Bool-cases, ltb, drop-all, take-all, length-append, drop-length-append, take-length-append,
}
use yvent.Fault.{ok, err, assertion, Returns, returned, Returns-ok}
use yvent.Buffer.Slices.{drop-slice, take-slice, length-write_at, slice-write_at_front}
use yvent.Buffer.Contents.{IsValid, Holds, length-contents}
use yvent.Buffer.{
  Buffer, slice, write_at, contents, readable_bytes, prepend, retrieve, retrieve_all,
  retrieve_as_string, retrieve_all_as_string, retrieve_until,
}

module _ (b : Buffer) (v : IsValid b) where
  retrieve_all-Holds : Holds [] (retrieve_all b)
  unfolding retrieve_all
  retrieve_all-Holds = record { valid = omega arith; held = refl }

  module _ (len : ℕ) where
    retrieve_part :
        len < readable_bytes b
        → Holds (drop len (contents b)) (record b { reader_index = b.reader_index + len })
    retrieve_part h = record {
      valid = omega arith;
      held = sym (
          drop-slice b.buffer b.reader_index (b.writer_index - b.reader_index) len
            (b.reader_index + len) (b.writer_index - (b.reader_index + len)) refl (omega arith));
    }

    retrieve_whole : readable_bytes b ≤ len → Holds (drop len (contents b)) (retrieve_all b)
    retrieve_whole h =
        rw (drop-all len (contents b) (omega (arith, length-contents b v))) retrieve_all-Holds

    -- `retrieve` drops exactly `len` bytes of those that are there.
    pub retrieve-Holds :
        len ≤ length (contents b) → Returns (Holds (drop len (contents b))) (retrieve b len)
    unfolding retrieve
    retrieve-Holds h = elim (Bool-cases (ltb len (readable_bytes b))) [
      | inl part ↦ returned _ (ground (arith, length-contents b v)) (retrieve_part (ground arith))
      | inr whole ↦ returned _ (ground (arith, length-contents b v)) (retrieve_whole (ground arith))
    ]

    -- Asked for more, it fails its assertion.
    pub retrieve_fails : length (contents b) < len → retrieve b len ≡ err assertion
    unfolding retrieve
    retrieve_fails h = ground (arith, length-contents b v)

    as_string_ok :
        {c : Buffer}
        → len ≤ length (contents b)
        → retrieve b len ≡ ok c
        → retrieve_as_string b len ≡ ok (slice b.reader_index len b.buffer, c)
    unfolding retrieve_as_string
    as_string_ok h e = ground (arith, length-contents b v)

    -- `retrieveAsString` of no more bytes than a valid buffer holds returns the first `len` of them, and
    -- leaves a valid buffer with the others.
    pub retrieve_as_string_lem :
        len ≤ length (contents b)
        → Returns
            (λ r. (r.0 ≡ take len (contents b)) × Holds (drop len (contents b)) r.1)
            (retrieve_as_string b len)
    retrieve_as_string_lem h =
        let (c, e, holds) = Returns-ok (retrieve-Holds h) in
        returned _ (as_string_ok h e) (
          sym (
              take-slice b.buffer b.reader_index (b.writer_index - b.reader_index) len
                (omega (arith, length-contents b v))),
          holds,
        )

  -- `retrieveAllAsString` returns all of them.
  pub retrieve_all_as_string_lem :
      Returns (λ r. (r.0 ≡ contents b) × Holds [] r.1) (retrieve_all_as_string b)
  unfolding retrieve_all_as_string
  retrieve_all_as_string_lem =
      let (r, e, q) =
        Returns-ok
          (retrieve_as_string_lem (readable_bytes b) (omega (arith, length-contents b v))) in
      returned _ e (
        q.0 ∙ take-all (readable_bytes b) (contents b) (omega (arith, length-contents b v)),
        rw (drop-all (readable_bytes b) (contents b) (omega (arith, length-contents b v))) at q.1,
      )

  -- `retrieveUntil` a pointer between the two indices of a valid buffer drops exactly the bytes before it.
  pub retrieve_until-Holds :
      (end : ℕ)
      → b.reader_index ≤ end
      → end ≤ b.writer_index
      → Returns (Holds (drop (end - b.reader_index) (contents b))) (retrieve_until b end)
  unfolding retrieve_until
  retrieve_until-Holds end h k =
      let (c, e, holds) =
        Returns-ok (retrieve-Holds (end - b.reader_index) (omega (arith, length-contents b v))) in
      returned _ (ground arith) holds

  module _ (bytes : List ℕ) where
    prepended : Buffer
    prepended = record b {
      reader_index = b.reader_index - length bytes;
      buffer = write_at (b.reader_index - length bytes) bytes b.buffer;
    }

    prepended-Holds : length bytes ≤ b.reader_index → Holds (bytes ++ contents b) prepended
    unfolding prepended
    prepended-Holds h = record {
      valid = omega (arith, length-write_at b.buffer bytes (b.reader_index - length bytes));
      held =
          slice-write_at_front b.buffer bytes (b.reader_index - length bytes)
            (b.writer_index - b.reader_index) b.reader_index
            (b.writer_index - (b.reader_index - length bytes)) (omega arith) (omega arith)
            (omega arith);
    }

    -- `prepend` puts its bytes in front of those of a valid buffer, if they fit before the read index.
    pub prepend-Holds :
        length bytes ≤ b.reader_index → Returns (Holds (bytes ++ contents b)) (prepend b bytes)
    unfolding prepend prepended
    prepend-Holds h = returned _ (ground arith) (prepended-Holds h)

-- A known front is taken whole, and what stands behind it stays.
module _ {b : Buffer} (front behind : List ℕ) (h : Holds (front ++ behind) b) where
  front_size : length front ≤ length (contents b)
  front_size = omega (arith, ap length h.held, length-append front behind)

  front_dropped : {c : Buffer} → Holds (drop (length front) (contents b)) c → Holds behind c
  front_dropped k = record {
    valid = k.valid;
    held =
        k.held
        ∙ ap (drop (length front)) h.held
        ∙ drop-length-append (length front) front behind refl;
  }

  pub retrieve_front : Returns (Holds behind) (retrieve b (length front))
  retrieve_front =
      let (c, e, k) = Returns-ok (retrieve-Holds b h.valid (length front) front_size) in
      returned _ e (front_dropped k)

  pub retrieve_string_front :
      Returns (λ r. (r.0 ≡ front) × Holds behind r.1) (retrieve_as_string b (length front))
  retrieve_string_front =
      let (r, e, k) = Returns-ok (retrieve_as_string_lem b h.valid (length front) front_size) in
      returned _ e (
        k.0 ∙ ap (take (length front)) h.held ∙ take-length-append (length front) front behind refl,
        front_dropped k.1,
      )
