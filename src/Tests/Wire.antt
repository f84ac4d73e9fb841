-- ===== src/Tests/Wire.antt =====
-- Examples of the theorems on the codec.
use yvent.Prelude.{ℕ, ◌+◌, ◌≡◌, refl, List, [], ◌∷◌, ◌++◌, length, arith}
use yvent.Fault.{Result, ok, Returns}
use yvent.Buffer.Contents.{Holds}
use yvent.Buffer.{Buffer}
use yvent.Codec.{on_message}
use yvent.Codec.Frames.{header}
use yvent.Codec.Receive.{IsPartial, deliver_all, on_message_bad_len}
use yvent.Codec.Stream.{feed, feed-frames}

-- A connection that collects its messages, and forgets them when it is shut down.
abbrev deliver : List (List ℕ) → List ℕ → List (List ℕ)
deliver conn m = conn ++ m ∷ []

abbrev shut : List (List ℕ) → List (List ℕ)
shut conn = []

abbrev conn_send : List (List ℕ) → Buffer → Result (List (List ℕ))
conn_send conn b = ok conn

abbrev holding : List ℕ → Buffer
holding bytes = record {
  buffer = (0 ∷ 0 ∷ 0 ∷ 0 ∷ 0 ∷ 0 ∷ 0 ∷ 0 ∷ []) ++ bytes;
  reader_index = 8;
  writer_index = 8 + length bytes;
}

abbrev nothing : List ℕ
nothing = []

abbrev two_messages : List (List ℕ)
two_messages = (7 ∷ 8 ∷ []) ∷ (9 ∷ []) ∷ []

-- The header of a message of three bytes, but for its last byte.
abbrev open_header : List ℕ
open_header = 0 ∷ 0 ∷ 0 ∷ []

open_header-IsPartial : IsPartial open_header
open_header-IsPartial = record {
  message = 1 ∷ 2 ∷ 3 ∷ [];
  missing = 3 ∷ 1 ∷ 2 ∷ 3 ∷ [];
  short = omega arith;
  unfinished = omega arith;
  completes = refl;
}

pub nothing-IsPartial : IsPartial nothing
nothing-IsPartial = record {
  message = 1 ∷ 2 ∷ 3 ∷ [];
  missing = 0 ∷ 0 ∷ 0 ∷ 3 ∷ 1 ∷ 2 ∷ 3 ∷ [];
  short = omega arith;
  unfinished = omega arith;
  completes = refl;
}

nothing-Holds : Holds nothing (holding [])
nothing-Holds = record { valid = omega arith; held = refl }

-- The two messages and the open header in three chunks, none of which ends where a message does.
abbrev chunks : List (List ℕ)
chunks = (0 ∷ 0 ∷ []) ∷ (0 ∷ 2 ∷ 7 ∷ 8 ∷ 0 ∷ 0 ∷ 0 ∷ []) ∷ (1 ∷ 9 ∷ 0 ∷ 0 ∷ 0 ∷ []) ∷ []

feed_example :
    Returns
      (λ r. (r.0 ≡ deliver_all deliver [] two_messages) × Holds open_header r.1)
      (feed deliver shut 3 [] (holding []) chunks)
feed_example =
    feed-frames deliver shut 3 chunks [] (holding []) two_messages nothing open_header nothing-Holds
      nothing-IsPartial refl (omega arith, (omega arith, (omega arith, tt)))
      (omega arith, (omega arith, tt)) open_header-IsPartial (omega arith)

negative-Holds : Holds (header 4294967295 ++ 5 ∷ []) (holding (header 4294967295 ++ 5 ∷ []))
negative-Holds = record { valid = omega arith; held = refl }

bad_len_example :
    on_message deliver shut 1 (nothing ∷ []) (holding (header 4294967295 ++ 5 ∷ []))
    ≡ ok (shut (nothing ∷ []), holding (header 4294967295 ++ 5 ∷ []))
bad_len_example =
    on_message_bad_len deliver shut 0 (nothing ∷ []) (holding (header 4294967295 ++ 5 ∷ []))
      4294967295 (5 ∷ []) negative-Holds (omega arith) (omega arith)
