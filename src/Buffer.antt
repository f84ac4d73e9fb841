-- ===== src/Buffer.antt =====
-- yvent/Buffer.h and yvent/Buffer.cpp: a growing byte buffer with a read and a write index.
-- A pointer into the buffer is the index that it has in `buffer_`, and `NULL` is `none`.
pub mod Slices
pub mod Contents
pub mod Retrieve
pub mod Search
pub mod Input
use yvent.Prelude.{
  ℕ, zero, suc, ◌+◌, ◌-◌, ◌*◌, List, [], ◌∷◌, ◌++◌, Bool, ltb, leb, ◌==◌, ◌&&◌, if◌then◌else◌,
  Option, none, some, length, take, drop, replicate,
}
use mathlib.Core.Option
use yvent.Fault.{Fault, Result, ok, err, assertion, length_error, ◌>>=◌, ◌>>◌, check}
use yvent.Word.{add_size, sub_size, max_size}

pub record Buffer : Type 0 where
  pub buffer : List ℕ
  pub reader_index : ℕ
  pub writer_index : ℕ

abbrev pub cheap_prepend : ℕ
cheap_prepend = 8

abbrev pub initial_size : ℕ
initial_size = 1024

-- The constructor. It allocates `kInitialSize` bytes whatever size is asked for.
unfoldable pub make : ℕ → Buffer
make size = record {
  buffer = replicate (add_size cheap_prepend initial_size) 0;
  reader_index = cheap_prepend;
  writer_index = cheap_prepend;
}

-- `swap` of two buffers: the first becomes the second, and the other way round.
unfoldable pub swap : Buffer → Buffer → Buffer × Buffer
swap a b = (
  record { buffer = b.buffer; reader_index = b.reader_index; writer_index = b.writer_index },
  record { buffer = a.buffer; reader_index = a.reader_index; writer_index = a.writer_index },
)

abbrev pub writable_bytes : Buffer → ℕ
writable_bytes b = sub_size (length b.buffer) b.writer_index

abbrev pub readable_bytes : Buffer → ℕ
readable_bytes b = sub_size b.writer_index b.reader_index

abbrev pub prependable_bytes : Buffer → ℕ
prependable_bytes b = b.reader_index

-- `len` bytes from index `i` on.
abbrev pub slice : ℕ → ℕ → List ℕ → List ℕ
slice i len s = take len (drop i s)

-- `std::copy` of `bytes` to index `i`.
abbrev pub write_at : ℕ → List ℕ → List ℕ → List ℕ
write_at i bytes s = take i s ++ (bytes ++ drop (i + length bytes) s)

-- What a reader may take: the bytes from `peek()` up to `beginWrite()`.
abbrev pub contents : Buffer → List ℕ
contents b = slice b.reader_index (b.writer_index - b.reader_index) b.buffer

-- `std::vector::resize`: new bytes are 0, and a size above `max_size` throws.
unfoldable pub resize : ℕ → List ℕ → Result (List ℕ)
resize n s =
    if ltb max_size n
    then err length_error
    else ok (if leb n (length s) then take n s else s ++ replicate (n - length s) 0)

-- The copy moves bytes towards the front, so that reading them all first gives the same result.
unfoldable pub make_space : Buffer → ℕ → Result Buffer
unfolding resize
make_space b len =
    if ltb (add_size (writable_bytes b) (prependable_bytes b)) (add_size len cheap_prepend)
    then (do s ← resize (add_size b.writer_index len) b.buffer; ok (record b { buffer = s }))
    else (do
      check (ltb cheap_prepend b.reader_index)
      let readable = readable_bytes b
      let moved : Buffer = record {
        buffer = write_at cheap_prepend (slice b.reader_index readable b.buffer) b.buffer;
        reader_index = cheap_prepend;
        writer_index = add_size cheap_prepend readable;
      }
      check (readable == readable_bytes moved)
      ok moved)

unfoldable pub ensure_writable_bytes : Buffer → ℕ → Result Buffer
unfolding make_space
ensure_writable_bytes b len = do
  grown ← (if ltb (writable_bytes b) len then make_space b len else ok b)
  check (leb len (writable_bytes grown))
  ok grown

unfoldable pub has_written : Buffer → ℕ → Result Buffer
has_written b len = do
  check (leb len (writable_bytes b))
  ok (record b { writer_index = add_size b.writer_index len })

unfoldable pub append : Buffer → List ℕ → Result Buffer
append b bytes = do
  c ← ensure_writable_bytes b (length bytes)
  has_written (record c { buffer = write_at c.writer_index bytes c.buffer }) (length bytes)

unfoldable pub prepend : Buffer → List ℕ → Result Buffer
prepend b bytes = do
  check (leb (length bytes) (prependable_bytes b))
  let start = sub_size b.reader_index (length bytes)
  ok (record b { reader_index = start; buffer = write_at start bytes b.buffer })

unfoldable pub retrieve_all : Buffer → Buffer
retrieve_all b = record b { reader_index = cheap_prepend; writer_index = cheap_prepend }

unfoldable pub retrieve : Buffer → ℕ → Result Buffer
unfolding retrieve_all
retrieve b len = do
  check (leb len (readable_bytes b))
  ok (
      if ltb len (readable_bytes b)
      then record b { reader_index = add_size b.reader_index len }
      else retrieve_all b)

unfoldable pub retrieve_as_string : Buffer → ℕ → Result (List ℕ × Buffer)
retrieve_as_string b len = do
  check (leb len (readable_bytes b))
  let result = slice b.reader_index len b.buffer
  c ← retrieve b len
  ok (result, c)

unfoldable pub retrieve_all_as_string : Buffer → Result (List ℕ × Buffer)
retrieve_all_as_string b = retrieve_as_string b (readable_bytes b)

unfoldable pub retrieve_until : Buffer → ℕ → Result Buffer
retrieve_until b end = do
  check (leb b.reader_index end)
  check (leb end b.writer_index)
  retrieve b (sub_size end b.reader_index)

-- The number that bytes stand for, the least significant first: the host's byte order.
abbrev pub little_endian : List ℕ → ℕ
little_endian [] = 0
little_endian (x ∷ xs) = x + 256 * little_endian xs

-- The four bytes at `peek()` as an `int32_t`, given as the bit pattern that it has.
unfoldable pub peek_int32 : Buffer → ℕ
peek_int32 b = little_endian (slice b.reader_index 4 b.buffer)

unfoldable pub retrieve_int32 : Buffer → Result (ℕ × Buffer)
retrieve_int32 b = do
  check (leb 4 (readable_bytes b))
  let value = peek_int32 b
  c ← retrieve b 4
  ok (value, c)

-- The offset of the first "\r\n" in a run of bytes, as `std::search` finds it.
abbrev pub search_crlf : List ℕ → Option ℕ
search_crlf [] = none
search_crlf (x ∷ []) = none
search_crlf (x ∷ y ∷ rest) =
    let later = search_crlf (y ∷ rest) in
    if x == b'\r' && y == b'\n' then some 0 else Option.map suc later

unfoldable pub find_crlf_from : Buffer → ℕ → Result (Option ℕ)
find_crlf_from b start = do
  check (leb b.reader_index start)
  check (leb start b.writer_index)
  ok (
      Option.map (λ k. start + k)
        (search_crlf (slice start (sub_size b.writer_index start) b.buffer)))

unfoldable pub find_crlf : Buffer → Option ℕ
find_crlf b = Option.map (λ k. b.reader_index + k) (search_crlf (contents b))

-- What `readv` may answer: -1 with an errno, or the bytes that it stored in the two vectors.
pub data ReadResult : Type 0 where
  failed : ℕ → ReadResult
  received : List ℕ → ReadResult

abbrev pub extra_size : ℕ
extra_size = 65536

-- The room that `readFd` offers to `readv`: the buffer's own, and `extrabuf` if that is used.
abbrev pub offered : Buffer → ℕ
offered b =
    if ltb (writable_bytes b) extra_size then writable_bytes b + extra_size else writable_bytes b

-- The tail of `readFd`, with the bytes that came: the kernel has filled the free space of the
-- buffer first and `extrabuf` behind it.
unfoldable pub take_in : Buffer → List ℕ → Result Buffer
take_in b bytes =
    if leb (length bytes) (writable_bytes b)
    then ok (record b {
      buffer = write_at b.writer_index bytes b.buffer;
      writer_index = add_size b.writer_index (length bytes);
    })
    else append
        (record b {
          buffer = write_at b.writer_index (take (writable_bytes b) bytes) b.buffer;
          writer_index = length b.buffer;
        })
        (drop (writable_bytes b) bytes)

-- `readFd`: the room offered goes to `readv`. The result is -1 with the errno, or the count.
unfoldable pub read_fd : (ℕ → ReadResult) → Buffer → Result (ReadResult × Buffer)
read_fd readv b = elim (readv (offered b)) [
  | failed e ↦ ok (failed e, b)
  | received bytes ↦ do c ← take_in b bytes; ok (received bytes, c)
]
