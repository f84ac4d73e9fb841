-- ===== src/Http/Context/Faults.antt =====
-- Two states in which `parseRequest` must not be called.
use mathlib.Core.Path.{subst}
use yvent.Prelude.{
  ℕ, zero, suc, ◌≡◌, refl, ◌⊎◌, inl, inr, List, ◌∷◌, ◌++◌, Bool, true, false, length,
  take-length-append,
}
use yvent.Fault.{Result, ok, err, out_of_fuel, assertion, Returns, returns}
use yvent.Text.Bytes.{lacks, lacks-append, split_byte-append, split_byte-none}
use yvent.Buffer.Contents.{Holds}
use yvent.Buffer.Search.{search_crlf_line}
use yvent.Buffer.{Buffer}
use yvent.Http.Request.{HttpRequest, Method, fresh, is_invalid, method_string, set_method}
use yvent.Http.Context.{
  HttpContext, initial, request_line, body, all_done, step, parse_target, parse_request_line,
  parse_request,
}
use yvent.Http.Context.Lines.{step_bytes, parse_bytes}
use yvent.Http.Context.Written.{method_facts}
use yvent.Http.Context.Headers.{crlf, step_first_line}
use yvent.Http.Context.Refine.{Same, same_ok, same_err, parse_request-Same}

-- Called again on a context that is done, or that is in the state `Body`, the loop never ends: no
-- number of rounds is enough.
pub parse_request_spins :
    (fuel : ℕ) (c : HttpContext) (b : Buffer)
    → (c.state ≡ all_done) ⊎ (c.state ≡ body)
    → parse_request fuel c b ≡ err out_of_fuel
unfolding parse_request step
parse_request_spins zero c b h = refl
parse_request_spins (suc fuel) c b (inl h) =
    rw h (parse_request_spins fuel (record c { state = all_done }) b (inl refl))
parse_request_spins (suc fuel) c b (inr h) =
    rw h (parse_request_spins fuel (record c { state = body }) b (inr refl))

module _ (m : Method) (known : is_invalid m ≡ false) (junk : List ℕ)
    (no_space : lacks b' ' junk ≡ true) where
  abbrev bad_line : List ℕ
  bad_line = method_string m ++ (b' ' ∷ junk)

  abbrev left : HttpRequest
  left = record fresh { method = m }

  first_time : parse_request_line fresh bad_line ≡ ok (false, left)
  unfolding parse_request_line set_method parse_target
  first_time =
      let f = method_facts m known in
      rw (
        split_byte-append b' ' (method_string m) junk f.1,
        parse_request_line,
        f.0,
        known,
        parse_target,
        split_byte-none b' ' junk no_space,
        f.0,
      )

  second_time : parse_request_line left bad_line ≡ err assertion
  unfolding parse_request_line set_method
  second_time =
      let f = method_facts m known in
      rw (split_byte-append b' ' (method_string m) junk f.1, parse_request_line, known)

  line_return : lacks b'\r' junk ≡ true → lacks b'\r' bad_line ≡ true
  line_return h = lacks-append b'\r' (method_string m) (b' ' ∷ junk) (method_facts m known).2 h

  module _ (rest : List ℕ) (h : lacks b'\r' junk ≡ true) (fuel : ℕ) where
    refuses_bytes :
        parse_bytes (suc fuel) initial (bad_line ++ crlf rest)
        ≡ ok (false, record { state = request_line; request = left }, bad_line ++ crlf rest)
    unfolding parse_bytes
    refuses_bytes = rw (step_first_line initial bad_line rest (line_return h) first_time)

    aborts_bytes :
        parse_bytes
          (suc fuel)
          (record { state = request_line; request = left })
          (bad_line ++ crlf rest)
        ≡ err assertion
    unfolding parse_bytes step_bytes
    aborts_bytes = rw (
      search_crlf_line bad_line rest (line_return h),
      step_bytes,
      take-length-append (length bad_line) bad_line (crlf rest) refl,
      second_time,
    )

-- A request line with a known method but no second space is refused and stays in the buffer. The
-- method stays in the context, so that the next call, with the same line still in front of whatever
-- has come since, fails the assertion of `setMethod`.
pub parse_request_twice :
    (m : Method) (junk rest : List ℕ) (f g : ℕ) (b later : Buffer) (since : List ℕ)
    → is_invalid m ≡ false
    → lacks b' ' junk ≡ true
    → lacks b'\r' junk ≡ true
    → Holds ((method_string m ++ (b' ' ∷ junk)) ++ crlf rest) b
    → Holds ((method_string m ++ (b' ' ∷ junk)) ++ crlf (rest ++ since)) later
    → let c : HttpContext = record {
      state = request_line;
      request = record fresh { method = m };
    } in
      Returns
        (λ r.
          (r.0 ≡ false) × (r.1 ≡ c) × Holds ((method_string m ++ (b' ' ∷ junk)) ++ crlf rest) r.2)
        (parse_request (suc f) initial b)
      × (parse_request (suc g) c later ≡ err assertion)
parse_request_twice m junk rest f g b later since known s r h k = (
  once (refuses_bytes m known junk s rest r f) (parse_request-Same (suc f) initial b _ h),
  again (aborts_bytes m known junk s (rest ++ since) r g) (parse_request-Same (suc g) _ later _ k),
)
  where
    once :
        {t : Result (Bool × HttpContext × List ℕ)} {n : Result (Bool × HttpContext × Buffer)}
        {c : HttpContext} {ys : List ℕ}
        → t ≡ ok (false, c, ys)
        → Same t n
        → Returns (λ r. (r.0 ≡ false) × (r.1 ≡ c) × Holds ys r.2) n
    once e (same_ok {xs} {b} q) = returns _ (cc, cc, subst (λ z. Holds z b) (cc) q)
    once e same_err = cc

    again :
        {t : Result (Bool × HttpContext × List ℕ)} {n : Result (Bool × HttpContext × Buffer)}
        → t ≡ err assertion
        → Same t n
        → n ≡ err assertion
    again e (same_ok q) = cc
    again e same_err = cc
