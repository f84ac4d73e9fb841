-- ===== src/Http/Context/Total.antt =====
-- `parseRequest` ends, and what it leaves behind.

use yvent.Prelude.{
  ℕ, zero, suc, ◌<◌, ◌≡◌, refl, ap, ◌∙◌, List, Bool, true, false, not, if◌then◌else◌, Option, none,
  some, length, take, drop, length-drop, arith,
}
use yvent.Fault.{Result, ok, ◌>>=◌, Returns, returns, Returns-bind}
use yvent.Text.{split_byte}
use yvent.Buffer.Contents.{IsValid}
use yvent.Buffer.Search.{search_crlf-lt-length}
use yvent.Buffer.{Buffer, contents, search_crlf}
use yvent.Http.Request.{HttpRequest, is_invalid, method_of, set_method}
use yvent.Http.Context.{
  HttpContext, ParseState, request_line, headers, body, all_done, Outcome, stop, more, parse_target,
  parse_request_line, parse_request,
}
use yvent.Http.Context.Lines.{line_outcome, header_outcome, header_case, step_bytes, parse_bytes}
use yvent.Http.Context.Refine.{Same, same_ok, parse_request-Same}

-- The states in which `parseRequest` may be called: before a request line with no method set, or
-- among the headers.
abbrev pub IsReady : ParseState → HttpRequest → Type 0
IsReady request_line r = is_invalid r.method ≡ true
IsReady headers r = Unit
IsReady body r = ⊥
IsReady all_done r = ⊥

-- How a call may end: with a bad request line, with a whole request, or waiting for a line that has
-- not come to its end.
pub data Fate {B : Type 0} (line_end : B → Option ℕ) : Bool → HttpContext → B → Type 0 where
  refused : {c : HttpContext} {b : B} → c.state ≡ request_line → Fate line_end false c b
  finished : {c : HttpContext} {b : B} → c.state ≡ all_done → Fate line_end true c b
  waits :
      {c : HttpContext} {b : B}
      → IsReady c.state c.request
      → line_end b ≡ none
      → Fate line_end true c b

abbrev pub StepFate : List ℕ → Outcome (List ℕ) → Type 0
StepFate xs (stop good d ys) = Fate search_crlf good d ys
StepFate xs (more d ys) = IsReady d.state d.request × (length ys < length xs)

set_method_ok :
    (r : HttpRequest) (m : List ℕ)
    → is_invalid r.method ≡ true
    → set_method r m ≡ ok (not (is_invalid (method_of m)), record r { method = method_of m })
unfolding set_method
set_method_ok r m h = rw h

-- With no method set, a line is parsed without a fault.
parse_request_line-Returns :
    (r : HttpRequest) (line : List ℕ)
    → is_invalid r.method ≡ true
    → Returns (λ _. Unit {0}) (parse_request_line r line)
unfolding parse_request_line
parse_request_line-Returns r line h = go (split_byte b' ' line)
  where
    go :
        (o : Option (List ℕ × List ℕ))
        → Returns {A = Bool × HttpRequest}
            (λ _. Unit {0})
            (elim o [
              | none ↦ ok (false, r)
              | some (method, rest) ↦
                  (set_method r method >>= λ set.
                  ok (if set.0 then parse_target set.1 rest else (false, set.1)))
            ])
    go none = returns _ tt
    go (some (m, rest)) = rw (set_method_ok r m h) (returns _ tt)

module _ (c : HttpContext) (xs : List ℕ) where
  shorter : (k : ℕ) → search_crlf xs ≡ some k → length (drop (suc (suc k)) xs) < length xs
  shorter k e = omega (arith, length-drop (suc (suc k)) xs, search_crlf-lt-length xs k e)

  line-Fate :
      (k : ℕ)
      → c.state ≡ request_line
      → is_invalid c.request.method ≡ true
      → search_crlf xs ≡ some k
      → Returns (StepFate xs) (line_outcome c xs k)
  line-Fate k s h e =
      Returns-bind (parse_request_line c.request (take k xs)) _
        (parse_request_line-Returns c.request (take k xs) h) (λ p _. go p)
    where
      go :
          (p : Bool × HttpRequest)
          → Returns (StepFate xs) (
              if p.0
              then ok (more (record { state = headers; request = p.1 }) (drop (suc (suc k)) xs))
              else ok (stop false (record c { request = p.1 }) xs))
      go (true, r) = returns _ (tt, shorter k e)
      go (false, r) = returns _ (refused s)

  header-Fate :
      (k : ℕ)
      → c.state ≡ headers
      → search_crlf xs ≡ some k
      → Returns (StepFate xs) (header_outcome c xs k)
  header-Fate k s e = go (split_byte b':' (take k xs))
    where
      go :
          (o : Option (List ℕ × List ℕ))
          → Returns (StepFate xs) (header_case c (drop (suc (suc k)) xs) o)
      go none = returns _ (finished refl)
      go (some (key, rest)) = returns _ (rw s tt, shorter k e)

  pub step-Fate :
      (s : ParseState) (o : Option ℕ)
      → c.state ≡ s
      → IsReady s c.request
      → search_crlf xs ≡ o
      → Returns (StepFate xs) (step_bytes s c xs)
  unfolding step_bytes
  step-Fate request_line none s h e = rw (e, step_bytes) (returns _ (waits (rw s h) e))
  step-Fate request_line (some k) s h e = rw (e, step_bytes) (line-Fate k s h e)
  step-Fate headers none s h e = rw (e, step_bytes) (returns _ (waits (rw s tt) e))
  step-Fate headers (some k) s h e = rw (e, step_bytes) (header-Fate k s e)
  step-Fate body o s h e = elim h [ ]
  step-Fate all_done o s h e = elim h [ ]

pub parse_bytes-Fate :
    (fuel : ℕ) (c : HttpContext) (xs : List ℕ)
    → IsReady c.state c.request
    → length xs < fuel
    → Returns (λ r. Fate search_crlf r.0 r.1 r.2) (parse_bytes fuel c xs)
unfolding parse_bytes
parse_bytes-Fate zero c xs h l = elim l [ ]
parse_bytes-Fate (suc fuel) c xs h l =
    Returns-bind (step_bytes c.state c xs) _ (step-Fate c xs c.state (search_crlf xs) refl h refl)
      (go (parse_bytes-Fate fuel))
  where
    go :
        ((d : HttpContext) (ys : List ℕ)
          → IsReady d.state d.request
          → length ys < fuel
          → Returns (λ r. Fate search_crlf r.0 r.1 r.2) (parse_bytes fuel d ys))
        → (o : Outcome (List ℕ)) → StepFate xs o
        → Returns {A = Bool × HttpContext × List ℕ}
            (λ r. Fate search_crlf r.0 r.1 r.2)
            (elim o [ stop good d ys ↦ ok (good, d, ys) | more d ys ↦ parse_bytes fuel d ys ])
    go ih (stop good d ys) f = returns _ f
    go ih (more d ys) f = ih d ys f.0 (omega (arith, f.1))

-- From a state in which it may be called, `parseRequest` comes back without a fault, within as many
-- rounds as the buffer has bytes and one more. The buffer stays valid, and the request line was
-- refused, or the request is complete, or the parser waits, in a state from which it may be called
-- again, because no "\r\n" is left in the buffer.
pub parse_request-Fate :
    (fuel : ℕ) (c : HttpContext) (b : Buffer)
    → IsValid b
    → IsReady c.state c.request
    → length (contents b) < fuel
    → Returns
        (λ r. IsValid r.2 × Fate (λ d. search_crlf (contents d)) r.0 r.1 r.2)
        (parse_request fuel c b)
parse_request-Fate fuel c b v h l =
    go (parse_bytes-Fate fuel c (contents b) h l)
      (parse_request-Same fuel c b (contents b) (record { valid = v; held = refl }))
  where
    seen :
        {good : Bool} {d : HttpContext} {ys : List ℕ} {e : Buffer}
        → contents e ≡ ys
        → Fate search_crlf good d ys
        → Fate (λ t. search_crlf (contents t)) good d e
    seen q (refused s) = refused s
    seen q (finished s) = finished s
    seen q (waits r n) = waits r (ap search_crlf q ∙ n)

    go :
        {m : Result (Bool × HttpContext × List ℕ)} {n : Result (Bool × HttpContext × Buffer)}
        → Returns (λ r. Fate search_crlf r.0 r.1 r.2) m
        → Same m n
        → Returns (λ r. IsValid r.2 × Fate (λ d. search_crlf (contents d)) r.0 r.1 r.2) n
    go (returns _ f) (same_ok k) = returns _ (k.valid, seen k.held f)
