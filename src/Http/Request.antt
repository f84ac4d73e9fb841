-- ===== src/Http/Request.antt =====
-- yvent/http/HttpRequest.h and yvent/http/HttpRequest.cpp.
pub mod Path
use Prim.Native.Nat.{bit_or}
use yvent.Prelude.{
  ℕ, zero, suc, ◌+◌, ◌-◌, ◌*◌, List, [], ◌∷◌, ◌++◌, Bool, true, false, not, ◌&&◌, leb, ◌==◌,
  if◌then◌else◌, Option, none, some,
}
use yvent.Fault.{Result, ok, err, ◌>>=◌, ◌>>◌, check}
use yvent.Text.{codes, equal, Entry, assign, find, is_digit, trim_start, trim_end}

pub data Method : Type 0 where
  invalid get post head put delete : Method

pub data Version : Type 0 where
  unknown http10 http11 : Version

pub record HttpRequest : Type 0 where
  pub method : Method
  pub version : Version
  pub path : List ℕ
  pub query : List ℕ
  pub headers : List Entry

abbrev pub fresh : HttpRequest
fresh = record { method = invalid; version = unknown; path = []; query = []; headers = [] }

abbrev pub is_invalid : Method → Bool
is_invalid invalid = true
is_invalid _ = false

unfoldable pub method_of : List ℕ → Method
method_of m =
    if equal m (codes "GET")
    then get
    else if equal m (codes "POST")
    then post
    else if equal m (codes "HEAD")
    then head
    else if equal m (codes "PUT")
    then put
    else if equal m (codes "DELETE")
    then delete
    else invalid

-- `setMethod`. Its assertion wants a request whose method was never set.
unfoldable pub set_method : HttpRequest → List ℕ → Result (Bool × HttpRequest)
set_method r m = do
  check (is_invalid r.method)
  ok (not (is_invalid (method_of m)), record r { method = method_of m })

unfoldable pub method_string : Method → List ℕ
method_string get = codes "GET"
method_string post = codes "POST"
method_string head = codes "HEAD"
method_string put = codes "PUT"
method_string delete = codes "DELETE"
method_string invalid = codes "UNKNOWN"

-- The value of a hexadecimal digit, of either case.
unfoldable pub hex_value : ℕ → Option ℕ
hex_value c =
    let low = bit_or c 0x20 in
    if is_digit c
    then some (c - b'0')
    else if leb b'a' low && leb low b'f'
    then some (low - b'a' + 10)
    else none

pub data PathState : Type 0 where
  start percent : PathState

-- The loop of `setPath`. The byte behind a first digit is read even where the range ends there: it is
-- then `stop`, the byte at `end`, and the loop is over.
unfoldable pub decode : ℕ → PathState → List ℕ → List ℕ → List ℕ
decode stop s path [] = path
decode stop start path (c ∷ rest) =
    decode stop (if c == b'%' then percent else start)
      (if c == b'%' then path else path ++ (c ∷ [])) rest
decode stop percent path (c ∷ []) = elim (hex_value c) [
  | none ↦ path
  | some high ↦ elim (hex_value stop) [ none ↦ path | some low ↦ path ++ ((high * 16 + low) ∷ []) ]
]
decode stop percent path (c ∷ d ∷ rest) = elim (hex_value c) [
  | none ↦ decode stop percent path (d ∷ rest)
  | some high ↦ elim (hex_value d) [
    | none ↦ decode stop percent path rest
    | some low ↦ decode stop start (path ++ ((high * 16 + low) ∷ [])) rest
  ]
]

unfoldable pub set_path : ℕ → HttpRequest → List ℕ → HttpRequest
set_path stop r bytes = record r { path = decode stop start r.path bytes }

unfoldable pub set_query : HttpRequest → List ℕ → HttpRequest
set_query r bytes = record r { query = bytes }

unfoldable pub set_version : HttpRequest → Version → HttpRequest
set_version r v = record r { version = v }

-- `addHeader`: the bytes before the colon, and those behind it.
unfoldable pub add_header : HttpRequest → List ℕ → List ℕ → HttpRequest
add_header r key rest = record r { headers = assign key (trim_end (trim_start rest)) r.headers }

-- `getHeader`: the empty string where there is none.
unfoldable pub get_header : HttpRequest → List ℕ → List ℕ
get_header r key = elim (find key r.headers) [ none ↦ [] | some v ↦ v ]
