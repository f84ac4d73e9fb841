-- ===== src/Http/Response.antt =====
-- yvent/http/HttpResponse.h and yvent/http/HttpResponse.cpp: a response, and how it is written into a
-- buffer. `snprintf` keeps what fits its 32 bytes with the NUL behind it.
pub mod Sent
use yvent.Prelude.{
  ℕ, zero, suc, ◌+◌, ◌-◌, ◌/◌, ◌%◌, ◌^◌, List, [], ◌∷◌, ◌++◌, Bool, true, false, ltb, ◌==◌,
  if◌then◌else◌, length, take,
}
use yvent.Fault.{Result, ok, err, ◌>>=◌}
use yvent.Text.{codes, Entry, assign, digits}
use yvent.Buffer
use yvent.Buffer.{Buffer}

pub record HttpResponse : Type 0 where
  pub status_code : ℕ
  pub headers : List Entry
  pub status_message : List ℕ
  pub close_connection : Bool
  pub body : List ℕ
  pub body_len : ℕ

-- The constructor; `kUnknown` is 0.
unfoldable pub make : Bool → HttpResponse
make close = record {
  status_code = 0;
  headers = [];
  status_message = [];
  close_connection = close;
  body = [];
  body_len = 0;
}

unfoldable pub add_header : List ℕ → List ℕ → HttpResponse → HttpResponse
add_header key value r = record r { headers = assign key value r.headers }

unfoldable pub set_content_type : List ℕ → HttpResponse → HttpResponse
unfolding add_header
set_content_type content_type r = add_header (codes "Content-Type") content_type r

unfoldable pub append_body : List ℕ → HttpResponse → HttpResponse
append_body body r = record r { body = r.body ++ body }

-- `%zd` reads a `size_t` as a signed number; twenty rounds are enough for 64 bits.
abbrev pub signed : ℕ → List ℕ
signed n = if ltb n (2 ^ 63) then digits 20 n else b'-' ∷ digits 20 (2 ^ 64 - n)

abbrev pub snprintf : List ℕ → List ℕ
snprintf text = take 31 text

-- What the loop over the headers appends, in order.
abbrev pub header_pieces : List Entry → List (List ℕ)
header_pieces [] = []
header_pieces ((key, value) ∷ hs) = key ∷ codes ": " ∷ value ∷ codes "\r\n" ∷ header_pieces hs

abbrev pub connection_pieces : HttpResponse → List (List ℕ)
connection_pieces r =
    if r.close_connection
    then codes "Connection: close\r\n" ∷ []
    else (let body_len = if r.body_len == 0 then length r.body else r.body_len in
        snprintf (codes "Content-Length: " ++ (signed body_len ++ codes "\r\n"))
        ∷ codes "Connection: Keep-Alive\r\n"
        ∷ [])

-- The arguments of the calls of `append` that `appendToBuffer` makes, in order.
abbrev pub pieces : HttpResponse → List (List ℕ)
pieces r =
    snprintf (codes "HTTP/1.1 " ++ (digits 20 r.status_code ++ codes " "))
    ∷ r.status_message
    ∷ codes "\r\n"
    ∷ (connection_pieces r ++ (header_pieces r.headers ++ (codes "\r\n" ∷ r.body ∷ [])))

abbrev pub append_all : Buffer → List (List ℕ) → Result Buffer
append_all output [] = ok output
append_all output (x ∷ xs) = do next ← Buffer.append output x; append_all next xs

unfoldable pub append_to_buffer : HttpResponse → Buffer → Result Buffer
append_to_buffer r output = append_all output (pieces r)
