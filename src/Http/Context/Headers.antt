-- ===== src/Http/Context/Headers.antt =====
-- The rounds of the parser over lines that a client writes, and over its header lines.

use yvent.Prelude.{
  ℕ, zero, suc, ◌<◌, ◌≡◌, refl, List, [], ◌∷◌, ◌++◌, Bool, true, false, if◌then◌else◌, length, take,
  drop, take-length-append, arith,
}
use yvent.Fault.{ok}
use yvent.Text.{split_byte, Entry, assign}
use yvent.Text.Bytes.{lacks, lacks-append, split_byte-append, split_byte-none}
use yvent.Buffer.Search.{search_crlf_line}
use yvent.Http.Request.{HttpRequest, add_header}
use yvent.Http.Context.Fields.{Field, are_blanks, is_bare, trim-bare}
use yvent.Http.Context.{
  HttpContext, request_line, headers, all_done, stop, more, parse_request_line,
}
use yvent.Http.Context.Lines.{header_case, step_bytes, parse_bytes}

abbrev pub crlf : List ℕ → List ℕ
crlf rest = b'\r' ∷ b'\n' ∷ rest

-- What stands behind the colon of a header line; the line; the lines of several.
abbrev pub behind_colon : Field → List ℕ
behind_colon f = f.before ++ (f.value ++ f.after)

abbrev pub header_text : Field → List ℕ
header_text f = f.key ++ (b':' ∷ behind_colon f)

abbrev pub headers_text : List Field → List ℕ → List ℕ
headers_text [] rest = crlf rest
headers_text (f ∷ fs) rest = header_text f ++ crlf (headers_text fs rest)

-- What a header may hold: no colon or carriage return in the key, no carriage return in the value, which
-- begins and ends with characters that are seen, and blanks around it.
abbrev pub AreHeaders : List Field → Type 0
AreHeaders [] = Unit
AreHeaders (f ∷ fs) =
    (lacks b':' f.key ≡ true)
    × (lacks b'\r' f.key ≡ true)
    × (lacks b'\r' f.value ≡ true)
    × (is_bare f.value ≡ true)
    × (are_blanks f.before ≡ true)
    × (are_blanks f.after ≡ true)
    × AreHeaders fs

abbrev pub assign_all : List Field → List Entry → List Entry
assign_all [] m = m
assign_all (f ∷ fs) m = assign_all fs (assign f.key f.value m)

take_line : (line rest : List ℕ) → take (length line) (line ++ crlf rest) ≡ line
take_line line rest = take-length-append (length line) line (crlf rest) refl

drop_line : (line rest : List ℕ) → drop (suc (suc (length line))) (line ++ crlf rest) ≡ rest
drop_line [] rest = refl
drop_line (x ∷ line) rest = drop_line line rest

-- A round over a line that ends where its "\r\n" stands.
module _ (c : HttpContext) (line rest : List ℕ) (h : lacks b'\r' line ≡ true) where
  pub step_header_line :
      step_bytes headers c (line ++ crlf rest) ≡ header_case c rest (split_byte b':' line)
  unfolding step_bytes
  step_header_line =
      rw (search_crlf_line line rest h, step_bytes, take_line line rest, drop_line line rest)

  pub step_first_line :
      {p : Bool × HttpRequest}
      → parse_request_line c.request line ≡ ok p
      → step_bytes request_line c (line ++ crlf rest)
        ≡ ok (
            if p.0
            then more (record { state = headers; request = p.1 }) rest
            else stop false (record c { request = p.1 }) (line ++ crlf rest))
  unfolding step_bytes
  step_first_line {p} e =
      rw (search_crlf_line line rest h, step_bytes, take_line line rest, e, drop_line line rest)
        (pick p)
    where
      pick :
          (p : Bool × HttpRequest)
          → (if p.0
              then ok (more (record { state = headers; request = p.1 }) rest)
              else ok (stop false (record c { request = p.1 }) (line ++ crlf rest)))
            ≡ ok (
                if p.0
                then more (record { state = headers; request = p.1 }) rest
                else stop false (record c { request = p.1 }) (line ++ crlf rest))
      pick (true, r) = refl
      pick (false, r) = refl

abbrev pub with_headers : HttpRequest → List Field → HttpRequest
with_headers r hs = record r { headers = assign_all hs r.headers }

lacks-blanks : (s : List ℕ) → are_blanks s ≡ true → lacks b'\r' s ≡ true
lacks-blanks [] h = refl
lacks-blanks (x ∷ s) h = ground (arith, lacks-blanks s)

lacks-header_text :
    (f : Field)
    → lacks b'\r' f.key ≡ true
    → lacks b'\r' f.value ≡ true
    → are_blanks f.before ≡ true
    → are_blanks f.after ≡ true
    → lacks b'\r' (header_text f) ≡ true
lacks-header_text f p q h k = lacks-append b'\r' f.key (b':' ∷ behind_colon f) p (
    lacks-append b'\r' f.before (f.value ++ f.after) (lacks-blanks f.before h)
      (lacks-append b'\r' f.value f.after q (lacks-blanks f.after k)))

-- The header lines, one round each, and the empty line that ends them.
pub parse_headers :
    (fs : List Field) (r : HttpRequest) (rest : List ℕ) (fuel : ℕ)
    → AreHeaders fs
    → length fs < fuel
    → parse_bytes fuel (record { state = headers; request = r }) (headers_text fs rest)
      ≡ ok (true, record { state = all_done; request = with_headers r fs }, rest)
unfolding parse_bytes add_header
parse_headers fs r rest zero h l = absurd (omega arith)
parse_headers [] r rest (suc fuel) h l =
    rw
      (
        step_header_line (record { state = headers; request = r }) [] rest refl,
        split_byte-none b':' [] refl,
      )
      refl
parse_headers (f ∷ fs) r rest (suc fuel) h l =
    rw
      (
        step_header_line (record { state = headers; request = r }) (header_text f)
            (headers_text fs rest) (lacks-header_text f h.1 h.2 h.4 h.5),
        split_byte-append b':' f.key (behind_colon f) h.0,
      )
      (rw (trim-bare f.before f.value f.after h.4 h.3 h.5) (
        parse_headers fs (record r { headers = assign f.key f.value r.headers }) rest fuel h.6
          (omega arith)))
