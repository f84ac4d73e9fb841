-- ===== src/Http/Context/Lines.antt =====
-- The parser on bare lists of bytes: what `parseRequest` does, with the buffer seen as the bytes that
-- it holds. The lines end at the first "\r\n".
use yvent.Prelude.{
  ℕ, zero, suc, List, Bool, true, false, if◌then◌else◌, Option, none, some, take, drop,
}
use yvent.Fault.{Result, ok, err, out_of_fuel, ◌>>=◌}
use yvent.Text.{split_byte}
use yvent.Buffer.{search_crlf}
use yvent.Http.Request.{add_header}
use yvent.Http.Context.{
  HttpContext, ParseState, request_line, headers, body, all_done, Outcome, stop, more,
  parse_request_line,
}

abbrev pub line_outcome : HttpContext → List ℕ → ℕ → Result (Outcome (List ℕ))
line_outcome c xs k = do
  parsed ← parse_request_line c.request (take k xs)
  if parsed.0
      then ok (more (record { state = headers; request = parsed.1 }) (drop (suc (suc k)) xs))
      else ok (stop false (record c { request = parsed.1 }) xs)

abbrev pub header_case : HttpContext → List ℕ → Option (List ℕ × List ℕ) → Result (Outcome (List ℕ))
header_case c ys (some (key, rest)) =
    ok (more (record c { request = add_header c.request key rest }) ys)
header_case c ys none = ok (stop true (record c { state = all_done }) ys)

abbrev pub header_outcome : HttpContext → List ℕ → ℕ → Result (Outcome (List ℕ))
header_outcome c xs k = header_case c (drop (suc (suc k)) xs) (split_byte b':' (take k xs))

unfoldable pub step_bytes : ParseState → HttpContext → List ℕ → Result (Outcome (List ℕ))
step_bytes request_line c xs = elim (search_crlf xs) [
  | none ↦ ok (stop true c xs)
  | some k ↦ line_outcome c xs k
]
step_bytes headers c xs = elim (search_crlf xs) [
  | none ↦ ok (stop true c xs)
  | some k ↦ header_outcome c xs k
]
step_bytes body c xs = ok (more c xs)
step_bytes all_done c xs = ok (more c xs)

unfoldable pub parse_bytes : ℕ → HttpContext → List ℕ → Result (Bool × HttpContext × List ℕ)
parse_bytes zero c xs = err out_of_fuel
parse_bytes (suc fuel) c xs = do
  o ← step_bytes c.state c xs
  elim o [ stop good d ys ↦ ok (good, d, ys) | more d ys ↦ parse_bytes fuel d ys ]
