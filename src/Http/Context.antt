-- ===== src/Http/Context.antt =====
-- yvent/http/HttpContext.h and yvent/http/HttpContext.cpp: the parser of one request, which goes on
-- where it stopped when more bytes have come. The loop `while (hasMore)` of `parseRequest` runs on
-- fuel; a round of it is `step`.
pub mod Fields
pub mod Headers
pub mod Lines
pub mod Refine
pub mod Total
pub mod Resume
pub mod Extends
pub mod Midway
pub mod Written
pub mod RoundTrip
pub mod Faults
use yvent.Prelude.{
  ℕ, zero, suc, List, [], ◌∷◌, Bool, true, false, ◌&&◌, ◌==◌, if◌then◌else◌, Option, none, some,
  length, take, drop,
}
use yvent.Fault.{Result, ok, err, out_of_fuel, ◌>>=◌}
use yvent.Word.{add_size, sub_size}
use yvent.Text.{codes, equal, split_byte}
use yvent.Buffer.{Buffer, slice, find_crlf, retrieve_until}
use yvent.Http.Request.{
  HttpRequest, fresh, http10, http11, set_method, set_path, set_query, set_version, add_header,
}

pub data ParseState : Type 0 where
  request_line headers body all_done : ParseState

pub record HttpContext : Type 0 where
  pub state : ParseState
  pub request : HttpRequest

-- The constructor.
abbrev pub initial : HttpContext
initial = record { state = request_line; request = fresh }

abbrev pub is_all_done : ParseState → Bool
is_all_done all_done = true
is_all_done _ = false

abbrev pub parse_done : HttpContext → Bool
parse_done c = is_all_done c.state

-- `reset`: the state and the request of a new context.
unfoldable pub reset : HttpContext → HttpContext
reset c = record { state = request_line; request = fresh }

-- The path and, from a question mark on, the query. The byte behind the path is that mark, or the
-- space behind the target.
unfoldable pub set_target : HttpRequest → List ℕ → HttpRequest
set_target r target = elim (split_byte b'?' target) [
  | some (path, query) ↦ set_query (set_path b'?' r path) (b'?' ∷ query)
  | none ↦ set_path b' ' r target
]

unfoldable pub parse_minor : HttpRequest → List ℕ → Bool × HttpRequest
parse_minor r [] = (false, r)
parse_minor r (c ∷ rest) =
    if c == b'0'
    then (true, set_version r http10)
    else if c == b'1'
    then (true, set_version r http11)
    else (false, r)

unfoldable pub parse_version : HttpRequest → List ℕ → Bool × HttpRequest
unfolding parse_minor
parse_version r v =
    if length v == 8 && equal (take 7 v) (codes "HTTP/1.")
    then parse_minor r (drop 7 v)
    else (false, r)

-- What `parseRequestLine` does behind the method.
unfoldable pub parse_target : HttpRequest → List ℕ → Bool × HttpRequest
unfolding set_target parse_version
parse_target r rest = elim (split_byte b' ' rest) [
  | none ↦ (false, r)
  | some (target, version) ↦ parse_version (set_target r target) version
]

unfoldable pub parse_request_line : HttpRequest → List ℕ → Result (Bool × HttpRequest)
parse_request_line r line = elim (split_byte b' ' line) [
  | none ↦ ok (false, r)
  | some (method, rest) ↦ do
    set ← set_method r method
    ok (if set.0 then parse_target set.1 rest else (false, set.1))
]

-- How a round ends: the loop stops with the result, or goes on.
pub data Outcome (B : Type 0) : Type 0 where
  stop : Bool → HttpContext → B → Outcome B
  more : HttpContext → B → Outcome B

-- The bytes from `peek()` up to the pointer.
abbrev pub line_to : Buffer → ℕ → List ℕ
line_to b crlf = slice b.reader_index (sub_size crlf b.reader_index) b.buffer

unfoldable pub step_line : HttpContext → Buffer → ℕ → Result (Outcome Buffer)
step_line c b crlf = do
  parsed ← parse_request_line c.request (line_to b crlf)
  if parsed.0
      then (do
        behind ← retrieve_until b (add_size crlf 2)
        ok (more (record { state = headers; request = parsed.1 }) behind))
      else ok (stop false (record c { request = parsed.1 }) b)

-- A header, or, where the line has no colon, the end of the headers.
unfoldable pub step_header : HttpContext → Buffer → ℕ → Result (Outcome Buffer)
step_header c b crlf = elim (split_byte b':' (line_to b crlf)) [
  | some (key, rest) ↦ do
    behind ← retrieve_until b (add_size crlf 2)
    ok (more (record c { request = add_header c.request key rest }) behind)
  | none ↦ do
    behind ← retrieve_until b (add_size crlf 2)
    ok (stop true (record c { state = all_done }) behind)
]

unfoldable pub step : ParseState → HttpContext → Buffer → Result (Outcome Buffer)
step request_line c b = elim (find_crlf b) [
  | none ↦ ok (stop true c b)
  | some crlf ↦ step_line c b crlf
]
step headers c b = elim (find_crlf b) [
  | none ↦ ok (stop true c b)
  | some crlf ↦ step_header c b crlf
]
step body c b = ok (more c b)
step all_done c b = ok (more c b)

unfoldable pub parse_request : ℕ → HttpContext → Buffer → Result (Bool × HttpContext × Buffer)
parse_request zero c b = err out_of_fuel
parse_request (suc fuel) c b = do
  o ← step c.state c b
  elim o [ stop good d e ↦ ok (good, d, e) | more d e ↦ parse_request fuel d e ]
