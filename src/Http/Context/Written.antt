-- ===== src/Http/Context/Written.antt =====
-- A request as a client writes it, and what the parser makes of it.

use yvent.Prelude.{
  ℕ, suc, ◌<◌, ◌≡◌, refl, ap, List, [], ◌∷◌, ◌++◌, ◌/◌, ◌%◌, Bool, true, false, Option, none, some,
  arith, inl, inr, ◌⊎◌, Bool-cases, ==_iff, ◌==◌,
}
use yvent.Text.{codes, equal}
use yvent.Text.Bytes.{lacks}
use yvent.Http.Request.{
  HttpRequest, Method, invalid, get, post, head, put, delete, Version, unknown, http10, http11,
  is_invalid, method_of, method_string, set_version,
}
use yvent.Http.Request.Path.{
  Writing, as_it_is, escaped, is_plain, hex_digit, written, encode, AllBytes,
}
use yvent.Http.Context.Fields.{Field}
use yvent.Http.Context.{parse_version}
use yvent.Http.Context.Headers.{crlf, headers_text, AreHeaders}

abbrev pub version_text : Version → List ℕ
version_text http10 = codes "HTTP/1.0"
version_text _ = codes "HTTP/1.1"

-- A request: the path as it is meant; the query, if there is one, without its question mark.
pub record Sent : Type 0 where
  pub method : Method
  pub path : List ℕ
  pub query : Option (List ℕ)
  pub version : Version
  pub headers : List Field

abbrev pub query_text : Option (List ℕ) → List ℕ
query_text none = []
query_text (some q) = b'?' ∷ q

abbrev pub line_text : (ℕ → ℕ → Writing) → Sent → List ℕ
line_text choose t =
    method_string t.method
    ++ (b' ' ∷ ((encode choose 0 t.path ++ query_text t.query) ++ (b' ' ∷ version_text t.version)))

abbrev pub request_text : (ℕ → ℕ → Writing) → Sent → List ℕ → List ℕ
request_text choose t rest = line_text choose t ++ crlf (headers_text t.headers rest)

abbrev pub known_version : Version → Bool
known_version unknown = false
known_version _ = true

abbrev pub query_lacks : ℕ → Option (List ℕ) → Bool
query_lacks c none = true
query_lacks c (some q) = lacks c q

-- Bytes that stand for something else are escaped, the method and the version are known, the query has
-- no space or carriage return, and the headers are well formed.
pub record IsSendable (choose : ℕ → ℕ → Writing) (t : Sent) : Type 0 where
  pub escapes_percent : (i : ℕ) → is_plain (choose i b'%') ≡ false
  pub escapes_space : (i : ℕ) → is_plain (choose i b' ') ≡ false
  pub escapes_mark : (i : ℕ) → is_plain (choose i b'?') ≡ false
  pub escapes_return : (i : ℕ) → is_plain (choose i b'\r') ≡ false
  pub known_method : is_invalid t.method ≡ false
  pub has_version : known_version t.version ≡ true
  pub bytes : AllBytes t.path
  pub query_space : query_lacks b' ' t.query ≡ true
  pub query_return : query_lacks b'\r' t.query ≡ true
  pub header_lines : AreHeaders t.headers

-- A byte that is always escaped, and is neither the percent sign nor a digit, does not occur in an
-- encoding.
module _ (choose : ℕ → ℕ → Writing) (c : ℕ) (escapes : (i : ℕ) → is_plain (choose i c) ≡ false)
    (odd : (c < b'%') ⊎ ((b'9' < c) × (c < b'A'))) where
  lacks-written :
      (x i : ℕ) (w : Writing) (rest : List ℕ)
      → choose i x ≡ w
      → x < 256
      → lacks c rest ≡ true
      → lacks c (written x w rest) ≡ true
  lacks-written x i as_it_is rest e h k = rw (differs, k) refl
    where
      differs : (x == c) ≡ false
      differs = elim (Bool-cases (x == c)) [
        | inl q ↦ cc (ap (λ y. is_plain (choose i y)) ((==_iff x c).0 q), ap is_plain e, escapes i)
        | inr q ↦ q
      ]
  lacks-written x i (escaped u v) rest e h k =
      rw
        (
          differs_percent,
          hex_digit-differs u (x / 16) (omega arith),
          hex_digit-differs v (x % 16) (omega arith),
        )
        k
    where
      differs_percent : (b'%' == c) ≡ false
      differs_percent = ground arith

      hex_digit-differs : (small : Bool) (d : ℕ) → d < 16 → (hex_digit small d == c) ≡ false
      hex_digit-differs true d l = ground arith
      hex_digit-differs false d l = ground arith

  pub lacks-encode : (i : ℕ) (s : List ℕ) → AllBytes s → lacks c (encode choose i s) ≡ true
  lacks-encode i [] h = refl
  lacks-encode i (x ∷ s) h =
      lacks-written x i (choose i x) (encode choose (suc i) s) refl h.0 (lacks-encode (suc i) s h.1)

module _ (c : ℕ) where
  pub lacks-query_text :
      (q : Option (List ℕ))
      → (c == b'?') ≡ false
      → query_lacks c q ≡ true
      → lacks c (query_text q) ≡ true
  lacks-query_text none n h = refl
  lacks-query_text (some q) n h = ground arith

pub method_facts :
    (m : Method)
    → is_invalid m ≡ false
    → (method_of (method_string m) ≡ m)
      × (lacks b' ' (method_string m) ≡ true)
      × (lacks b'\r' (method_string m) ≡ true)
unfolding method_of method_string equal
method_facts invalid h = cc
method_facts get h = (refl, refl, refl)
method_facts post h = (refl, refl, refl)
method_facts head h = (refl, refl, refl)
method_facts put h = (refl, refl, refl)
method_facts delete h = (refl, refl, refl)

pub version_facts :
    (v : Version) (r : HttpRequest)
    → known_version v ≡ true
    → (parse_version r (version_text v) ≡ (true, set_version r v))
      × (lacks b'\r' (version_text v) ≡ true)
unfolding parse_version equal
version_facts unknown r h = cc
version_facts http10 r h = (refl, refl)
version_facts http11 r h = (refl, refl)
