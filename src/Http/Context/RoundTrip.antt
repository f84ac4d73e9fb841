-- ===== src/Http/Context/RoundTrip.antt =====
-- The parser over the text of a request.

use mathlib.Core.Path.{subst}
use yvent.Prelude.{
  ℕ, zero, suc, ◌+◌, ◌<◌, ◌≡◌, refl, ap, inl, inr, List, [], ◌∷◌, ◌++◌, append-nil, Bool, true,
  Option, none, some, length, arith,
}
use yvent.Fault.{Result, ok, Returns, returns}
use yvent.Text.Bytes.{lacks, lacks-append, split_byte-append, split_byte-none}
use yvent.Buffer.Contents.{Holds}
use yvent.Buffer.{Buffer}
use yvent.Http.Request.{
  HttpRequest, fresh, method_of, method_string, set_method, set_query, set_version,
}
use yvent.Http.Request.Path.{Writing, encode, set_path-encode}
use yvent.Http.Context.{
  HttpContext, initial, all_done, set_target, parse_target, parse_request_line, parse_request,
}
use yvent.Http.Context.Lines.{parse_bytes}
use yvent.Http.Context.Written.{
  version_text, Sent, IsSendable, query_text, line_text, request_text, lacks-encode,
  lacks-query_text, method_facts, version_facts,
}
use yvent.Http.Context.Headers.{headers_text, assign_all, step_first_line, parse_headers}
use yvent.Http.Context.Refine.{Same, same_ok, same_err, parse_request-Same}

-- The request that is meant: the query keeps its question mark.
abbrev pub meant : Sent → HttpRequest
meant t = record {
  method = t.method;
  version = t.version;
  path = t.path;
  query = query_text t.query;
  headers = assign_all t.headers [];
}

module _ (choose : ℕ → ℕ → Writing) (t : Sent) (h : IsSendable choose t) where
  abbrev named : HttpRequest
  named = record fresh { method = t.method }

  abbrev target : List ℕ
  target = encode choose 0 t.path ++ query_text t.query

  set_target_lem :
      (q : Option (List ℕ))
      → set_target named (encode choose 0 t.path ++ query_text q)
        ≡ record named { path = t.path; query = query_text q }
  unfolding set_target set_query
  set_target_lem none =
      rw
        (
          append-nil (encode choose 0 t.path),
          split_byte-none b'?' (encode choose 0 t.path)
              (lacks-encode choose b'?' h.escapes_mark (inr (omega arith)) 0 t.path h.bytes),
          set_target,
          append-nil (encode choose 0 t.path),
        )
        (set_path-encode choose h.escapes_percent b' ' named t.path refl h.bytes)
  set_target_lem (some q) =
      rw
        (
          split_byte-append b'?' (encode choose 0 t.path) q
              (lacks-encode choose b'?' h.escapes_mark (inr (omega arith)) 0 t.path h.bytes),
          set_target,
        )
        (ap (λ (r : HttpRequest). record r { query = b'?' ∷ q })
          (set_path-encode choose h.escapes_percent b'?' named t.path refl h.bytes))

  target_space : lacks b' ' target ≡ true
  target_space =
      lacks-append b' ' (encode choose 0 t.path) (query_text t.query)
        (lacks-encode choose b' ' h.escapes_space (inl (omega arith)) 0 t.path h.bytes)
        (lacks-query_text b' ' t.query refl h.query_space)

  target_return : lacks b'\r' target ≡ true
  target_return =
      lacks-append b'\r' (encode choose 0 t.path) (query_text t.query)
        (lacks-encode choose b'\r' h.escapes_return (inl (omega arith)) 0 t.path h.bytes)
        (lacks-query_text b'\r' t.query refl h.query_return)

  parse_target_lem :
      parse_target named (target ++ (b' ' ∷ version_text t.version))
      ≡ (true, record (meant t) { headers = [] })
  unfolding parse_target
  parse_target_lem =
      rw
        (
          split_byte-append b' ' target (version_text t.version) target_space,
          parse_target,
          set_target_lem t.query,
          (version_facts t.version (record named { path = t.path; query = query_text t.query })
              h.has_version).0,
        )
        (unfold set_version in refl)

  parse_line :
      parse_request_line fresh (line_text choose t) ≡ ok (true, record (meant t) { headers = [] })
  unfolding parse_request_line set_method
  parse_line =
      rw
        (
          split_byte-append b' ' (method_string t.method)
              (target ++ (b' ' ∷ version_text t.version)) facts.1,
          parse_request_line,
          facts.0,
          h.known_method,
        )
        (ap ok parse_target_lem)
    where
      facts :
          (method_of (method_string t.method) ≡ t.method)
          × (lacks b' ' (method_string t.method) ≡ true)
          × (lacks b'\r' (method_string t.method) ≡ true)
      facts = method_facts t.method h.known_method

  line_return : lacks b'\r' (line_text choose t) ≡ true
  line_return =
      let facts = method_facts t.method h.known_method in
      lacks-append b'\r' (method_string t.method)
        (b' ' ∷ (target ++ (b' ' ∷ version_text t.version))) facts.2
        (lacks-append b'\r' target (b' ' ∷ version_text t.version) target_return
          (version_facts t.version fresh h.has_version).1)

  pub parse_bytes-request_text :
      (rest : List ℕ) (fuel : ℕ)
      → length t.headers + 1 < fuel
      → parse_bytes fuel initial (request_text choose t rest)
        ≡ ok (true, record { state = all_done; request = meant t }, rest)
  unfolding parse_bytes
  parse_bytes-request_text rest zero l = elim l [ ]
  parse_bytes-request_text rest (suc fuel) l =
      rw
        (step_first_line initial (line_text choose t) (headers_text t.headers rest) line_return
          parse_line)
        (parse_headers t.headers (record (meant t) { headers = [] }) rest fuel h.header_lines
          (omega arith))

-- `parseRequest` reads a whole request from a buffer, with whatever stands behind it: the method, the
-- path with its escapes undone, the query, the version and the headers are those that were sent, the
-- parser is done, and the bytes behind the request stay in the buffer. The request has one of the five
-- methods, one space between the parts of its first line and the version 1.0 or 1.1. In its path any
-- bytes, the percent sign, the space, the question mark and the carriage return always, are sent by two
-- hexadecimal digits in small letters or capitals; the query has no space and no carriage return. No
-- line has a carriage return before its end, and no key a colon; spaces and tabs may stand before and
-- behind a value, which has none of them nor another control character at its ends, or is empty.
pub parse_request-request_text :
    (choose : ℕ → ℕ → Writing) (t : Sent) (rest : List ℕ) (fuel : ℕ) (b : Buffer)
    → IsSendable choose t
    → Holds (request_text choose t rest) b
    → length t.headers + 1 < fuel
    → Returns
        (λ r.
          (r.0 ≡ true) × (r.1 ≡ record { state = all_done; request = meant t }) × Holds rest r.2)
        (parse_request fuel initial b)
parse_request-request_text choose t rest fuel b h k l =
    go (parse_bytes-request_text choose t h rest fuel l)
      (parse_request-Same fuel initial b (request_text choose t rest) k)
  where
    go :
        {m : Result (Bool × HttpContext × List ℕ)} {n : Result (Bool × HttpContext × Buffer)}
        → m ≡ ok (true, record { state = all_done; request = meant t }, rest)
        → Same m n
        → Returns
            (λ r.
              (r.0 ≡ true)
              × (r.1 ≡ record { state = all_done; request = meant t })
              × Holds rest r.2)
            n
    go e (same_ok {xs} {b} s) = returns _ (cc, cc, subst (λ z. Holds z b) (cc) s)
    go e same_err = cc
