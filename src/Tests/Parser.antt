-- ===== src/Tests/Parser.antt =====
-- Examples of the theorems on the parser of requests.
use yvent.Prelude.{
  if◌then◌else◌, ℕ, ◌+◌, ◌≡◌, refl, inl, List, [], ◌∷◌, ◌++◌, true, ◌&&◌, ◌||◌, leb, ◌==◌, some,
  length, arith,
}
use yvent.Fault.{ok, err, out_of_fuel, Returns}
use yvent.Text
use yvent.Text.{codes, equal, split_byte}
use yvent.Buffer
use yvent.Buffer.{Buffer, contents, search_crlf}
use yvent.Buffer.Contents.{IsValid, Holds}
use yvent.Http.Request
use yvent.Http.Request.{HttpRequest, fresh, get, http10, http11, set_path}
use yvent.Http.Request.Path.{Writing, as_it_is, escaped, encode, set_path-encode}
use yvent.Http.Context
use yvent.Http.Context.{HttpContext, initial, all_done, headers, request_line, parse_request}
use yvent.Http.Context.Lines.{parse_bytes}
use yvent.Http.Context.Refine.{Same, parse_request-Same}
use yvent.Http.Context.Total.{Fate, parse_request-Fate}
use yvent.Http.Context.Resume.{parse_request_resumes}
use yvent.Http.Context.Written.{Sent, IsSendable, request_text}
use yvent.Http.Context.Headers.{crlf}
use yvent.Http.Context.RoundTrip.{meant, parse_request-request_text}
use yvent.Http.Context.Faults.{parse_request_spins}

abbrev pub holding : List ℕ → Buffer
holding bytes = record {
  buffer = (0 ∷ 0 ∷ 0 ∷ 0 ∷ 0 ∷ 0 ∷ 0 ∷ 0 ∷ []) ++ bytes;
  reader_index = 8;
  writer_index = 8 + length bytes;
}

-- Small letters and slashes are sent as they are, other bytes by digits: small ones at the begin of a
-- text, later capitals.
abbrev pub chosen : ℕ → ℕ → Writing
chosen i c =
    if (leb b'a' c && leb c b'z') || c == b'/' then as_it_is else escaped (leb i 2) (leb i 2)

-- A path with bytes that are escaped, a query and a header with blanks around its value.
abbrev pub sent : Sent
sent = record {
  method = get;
  path = codes "/a:*Z";
  query = some (codes "x=1");
  version = http11;
  headers =
      (record { key = codes "host"; before = codes "  "; value = codes "4 me"; after = codes " " })
      ∷ [];
}

pub sent-IsSendable : IsSendable chosen sent
sent-IsSendable = record {
  escapes_percent = λ i. refl;
  escapes_space = λ i. refl;
  escapes_mark = λ i. refl;
  escapes_return = λ i. refl;
  known_method = refl;
  has_version = refl;
  bytes = (omega arith, (omega arith, (omega arith, (omega arith, (omega arith, tt)))));
  query_space = refl;
  query_return = refl;
  header_lines = (refl, refl, refl, refl, refl, refl, tt);
}

abbrev pub text : List ℕ
text = request_text chosen sent (codes "GE")

pub text-Holds : Holds text (holding text)
unfolding Request.method_string
text-Holds = record { valid = omega arith; held = refl }

request_text_example :
    Returns
      (λ r.
        (r.0 ≡ true)
        × (r.1 ≡ record { state = all_done; request = meant sent })
        × Holds (codes "GE") r.2)
      (parse_request 3 initial (holding text))
request_text_example =
    parse_request-request_text chosen sent (codes "GE") 3 (holding text) sent-IsSendable text-Holds
      (omega arith)

parse_request-Same_example :
    Same (parse_bytes 3 initial text) (parse_request 3 initial (holding text))
parse_request-Same_example = parse_request-Same 3 initial (holding text) text text-Holds

parse_request-Fate_example :
    Returns
      (λ r. IsValid r.2 × Fate (λ d. search_crlf (contents d)) r.0 r.1 r.2)
      (parse_request 3 initial (holding (codes "GE")))
parse_request-Fate_example =
    parse_request-Fate 3 initial (holding (codes "GE")) (omega arith) refl (omega arith)

set_path_example :
    set_path b'?' fresh (encode chosen 0 (codes "/a B")) ≡ record fresh { path = codes "/a B" }
set_path_example =
    set_path-encode chosen (λ i. refl) b'?' fresh (codes "/a B") refl
      (omega arith, (omega arith, (omega arith, (omega arith, tt))))

abbrev pub bad_line : List ℕ
bad_line = codes "GET /"

pub bad_line-Holds :
    Holds
      ((Request.method_string get ++ (b' ' ∷ b'/' ∷ [])) ++ crlf [])
      (holding (bad_line ++ crlf []))
unfolding Request.method_string
bad_line-Holds = record { valid = omega arith; held = refl }

pub bad_line_later-Holds :
    Holds
      ((Request.method_string get ++ (b' ' ∷ b'/' ∷ [])) ++ crlf ([] ++ (b'X' ∷ [])))
      (holding (bad_line ++ crlf (b'X' ∷ [])))
unfolding Request.method_string
bad_line_later-Holds = record { valid = omega arith; held = refl }

-- A request that comes in two parts.
abbrev first_part : Buffer
first_part = holding (codes "GET / HTTP/1.0" ++ crlf (codes "h"))

abbrev left_part : Buffer
left_part = record first_part { reader_index = 24 }

abbrev second_part : Buffer
second_part = holding (codes "h" ++ (codes ": 1" ++ crlf (crlf [])))

abbrev last_part : Buffer
last_part = record second_part { reader_index = 8; writer_index = 8 }

abbrev whole : Buffer
whole = holding (codes "GET / HTTP/1.0" ++ crlf (codes "h" ++ (codes ": 1" ++ crlf (crlf []))))

abbrev half : HttpContext
half = record {
  state = headers;
  request = record fresh { method = get; path = codes "/"; version = http10 };
}

abbrev ended : HttpContext
ended = record {
  state = all_done;
  request = record half.request { headers = (codes "h", codes "1") ∷ [] };
}

first_call : parse_request 2 initial first_part ≡ ok (true, half, left_part)
unfolding parse_request Context.step Buffer.find_crlf Context.step_line Context.parse_request_line
    split_byte Request.set_method Request.method_of equal Context.parse_target Buffer.retrieve_until
    Buffer.retrieve Request.set_version set_path Request.decode
first_call = refl

second_call : parse_request 2 half second_part ≡ ok (true, ended, last_part)
unfolding parse_request Context.step Buffer.find_crlf Context.step_header split_byte
    Buffer.retrieve_until Buffer.retrieve Request.add_header Text.assign Text.trim_end
second_call = refl

left_part-Holds : Holds (contents left_part ++ (codes ": 1" ++ crlf (crlf []))) second_part
left_part-Holds = record { valid = omega arith; held = refl }

whole-Holds : Holds (contents first_part ++ (codes ": 1" ++ crlf (crlf []))) whole
whole-Holds = record { valid = omega arith; held = refl }

resumes_example :
    Returns
      (λ r. (r.0 ≡ true) × (r.1 ≡ ended) × Holds (contents last_part) r.2)
      (parse_request (2 + 2) initial whole)
resumes_example =
    parse_request_resumes 2 2 initial half ended first_part left_part second_part last_part whole
      (codes ": 1" ++ crlf (crlf [])) true (omega arith) first_call refl left_part-Holds second_call
      whole-Holds

spins_example :
    parse_request 5 (record { state = all_done; request = fresh }) (holding text) ≡ err out_of_fuel
spins_example =
    parse_request_spins 5 (record { state = all_done; request = fresh }) (holding text) (inl refl)
