-- ===== src/Http/Context/Refine.antt =====
-- The parser over a buffer does what the parser over bytes does with the bytes that the buffer holds.
use mathlib.Core.Option
use mathlib.Core.Path.{subst}
use yvent.Prelude.{
  ℕ, zero, suc, ◌+◌, ◌-◌, ◌<◌, ◌≡◌, refl, sym, ap, ◌∙◌, List, Bool, true, false, if◌then◌else◌,
  Option, none, some, length, take, drop, arith,
}
use yvent.Fault.{Result, ok, err, Fault, ◌>>=◌, Returns, returns, returned, Returns-ok}
use yvent.Word.{add_size, sub_size}
use yvent.Text.{split_byte}
use yvent.Buffer.Slices.{take-slice}
use yvent.Buffer.Contents.{Holds, length-contents}
use yvent.Buffer.Retrieve.{retrieve_until-Holds}
use yvent.Buffer.Search.{search_crlf-lt-length}
use yvent.Buffer.{Buffer, contents, slice, search_crlf, find_crlf, retrieve_until}
use yvent.Http.Request.{add_header, HttpRequest}
use yvent.Http.Context.{
  HttpContext, ParseState, request_line, headers, body, all_done, Outcome, stop, more,
  parse_request_line, line_to, step_line, step_header, step, parse_request,
}
use yvent.Http.Context.Lines.{line_outcome, header_outcome, header_case, step_bytes, parse_bytes}

-- The same round, with the bytes left in a valid buffer; or the same fault.
data Agrees : Result (Outcome (List ℕ)) → Result (Outcome Buffer) → Type 0 where
  stops :
      {good : Bool} {c : HttpContext} {xs : List ℕ} {b : Buffer}
      → Holds xs b
      → Agrees (ok (stop good c xs)) (ok (stop good c b))
  goes :
      {c : HttpContext} {xs : List ℕ} {b : Buffer}
      → Holds xs b
      → Agrees (ok (more c xs)) (ok (more c b))
  fails : {e : Fault} → Agrees (err e) (err e)

-- The same result, with the bytes left in a valid buffer; or the same fault.
pub data Same
    : Result (Bool × HttpContext × List ℕ) → Result (Bool × HttpContext × Buffer) → Type 0 where
  same_ok :
      {good : Bool} {c : HttpContext} {xs : List ℕ} {b : Buffer}
      → Holds xs b
      → Same (ok (good, c, xs)) (ok (good, c, b))
  same_err : {e : Fault} → Same (err e) (err e)

goes_on :
    (c : HttpContext) {ys : List ℕ} {m : Result Buffer}
    → Returns (Holds ys) m
    → Agrees (ok (more c ys)) (m >>= λ d. ok (more c d))
goes_on c (returns d h) = goes h

stops_there :
    (c : HttpContext) {ys : List ℕ} {m : Result Buffer}
    → Returns (Holds ys) m
    → Agrees (ok (stop true c ys)) (m >>= λ d. ok (stop true c d))
stops_there c (returns d h) = stops h

module _ {xs : List ℕ} {b : Buffer} (h : Holds xs b) where
  find_held :
      (o : Option ℕ) → search_crlf xs ≡ o → find_crlf b ≡ Option.map (λ k. b.reader_index + k) o
  unfolding find_crlf
  find_held o e =
      ap (λ t. Option.map (λ k. b.reader_index + k) (search_crlf t)) h.held
      ∙ ap (Option.map (λ k. b.reader_index + k)) e

  module _ (k : ℕ) (inside : suc k < length xs) where
    size_held : b.writer_index - b.reader_index ≡ length xs
    size_held = omega (arith, length-contents b h.valid, ap length h.held, h.valid)

    line_held : line_to b (b.reader_index + k) ≡ take k xs
    line_held =
        ap (λ n. slice b.reader_index n b.buffer)
          (let q : sub_size (b.reader_index + k) b.reader_index ≡ k =
              omega (arith, size_held, h.valid) in
            q)
        ∙ sym (
            take-slice b.buffer b.reader_index (b.writer_index - b.reader_index) k
              (omega (arith, size_held)))
        ∙ ap (take k) h.held

    until_held :
        Returns (Holds (drop (suc (suc k)) xs)) (retrieve_until b (add_size (b.reader_index + k) 2))
    until_held =
        let (c, e, d) = Returns-ok (
          retrieve_until-Holds b h.valid (b.reader_index + suc (suc k)) (omega arith)
            (omega (arith, size_held, h.valid))) in
        let there : add_size (b.reader_index + k) 2 ≡ b.reader_index + suc (suc k) =
          omega (arith, size_held, h.valid) in
        returned _ (ap (retrieve_until b) there ∙ e) (record {
          valid = d.valid;
          held =
              d.held
              ∙ ap (λ n. drop n (contents b))
                  (let q : b.reader_index + suc (suc k) - b.reader_index ≡ suc (suc k) =
                      omega arith in
                    q)
              ∙ ap (drop (suc (suc k))) h.held;
        })

    line-Agrees :
        (c : HttpContext) → Agrees (line_outcome c xs k) (step_line c b (b.reader_index + k))
    unfolding step_line
    line-Agrees c = rw line_held (go (parse_request_line c.request (take k xs)))
      where
        go :
            (r : Result (Bool × HttpRequest))
            → Agrees
                (r >>= λ parsed.
                  if parsed.0
                  then ok (
                      more (record { state = headers; request = parsed.1 }) (drop (suc (suc k)) xs))
                  else ok (stop false (record c { request = parsed.1 }) xs))
                (r >>= λ parsed.
                  if parsed.0
                  then (retrieve_until b (add_size (b.reader_index + k) 2) >>= λ behind.
                      ok (more (record { state = headers; request = parsed.1 }) behind))
                  else ok (stop false (record c { request = parsed.1 }) b))
        go (err e) = fails
        go (ok (true, r)) = goes_on (record { state = headers; request = r }) until_held
        go (ok (false, r)) = stops h

    header-Agrees :
        (c : HttpContext) → Agrees (header_outcome c xs k) (step_header c b (b.reader_index + k))
    unfolding step_header
    header-Agrees c = rw (line_held, step_header) (go (split_byte b':' (take k xs)))
      where
        go :
            (r : Option (List ℕ × List ℕ))
            → Agrees (header_case c (drop (suc (suc k)) xs) r) (elim r [
              | some (key, rest) ↦
                  (retrieve_until b (add_size (b.reader_index + k) 2) >>= λ behind.
                  ok (more (record c { request = add_header c.request key rest }) behind))
              | none ↦
                  (retrieve_until b (add_size (b.reader_index + k) 2) >>= λ behind.
                  ok (stop true (record c { state = all_done }) behind))
            ])
        go none = stops_there (record c { state = all_done }) until_held
        go (some (key, rest)) =
            goes_on (record c { request = add_header c.request key rest }) until_held

  step-Agrees :
      (s : ParseState) (c : HttpContext) (o : Option ℕ)
      → search_crlf xs ≡ o
      → Agrees (step_bytes s c xs) (step s c b)
  unfolding step step_bytes
  step-Agrees request_line c none e = rw (e, find_held none e, step_bytes, step) (stops h)
  step-Agrees request_line c (some k) e =
      rw (e, find_held (some k) e, step_bytes, step)
        (line-Agrees k (search_crlf-lt-length xs k e) c)
  step-Agrees headers c none e = rw (e, find_held none e, step_bytes, step) (stops h)
  step-Agrees headers c (some k) e =
      rw (e, find_held (some k) e, step_bytes, step)
        (header-Agrees k (search_crlf-lt-length xs k e) c)
  step-Agrees body c o e = goes h
  step-Agrees all_done c o e = goes h

-- `parseRequest` does with a buffer what the parser over bytes does with the bytes that it holds: the
-- same result, the same context, and the buffer left holding the bytes that are left; or the same
-- fault.
pub parse_request-Same :
    (fuel : ℕ) (c : HttpContext) (b : Buffer) (xs : List ℕ)
    → Holds xs b
    → Same (parse_bytes fuel c xs) (parse_request fuel c b)
unfolding parse_request parse_bytes
parse_request-Same zero c b xs h = same_err
parse_request-Same (suc fuel) c b xs h =
    go (parse_request-Same fuel) (step-Agrees h c.state c (search_crlf xs) refl)
  where
    go :
        ((d : HttpContext) (e : Buffer) (ys : List ℕ)
          → Holds ys e
          → Same (parse_bytes fuel d ys) (parse_request fuel d e))
        → {m : Result (Outcome (List ℕ))} {n : Result (Outcome Buffer)} → Agrees m n
        → Same
            (m >>= λ o. elim o [
              | stop good d ys ↦ ok (good, d, ys)
              | more d ys ↦ parse_bytes fuel d ys
            ])
            (n >>= λ o. elim o [
              | stop good d ys ↦ ok (good, d, ys)
              | more d ys ↦ parse_request fuel d ys
            ])
    go ih (stops k) = same_ok k
    go ih (goes {c = d} {xs = ys} {b = e} k) = ih d e ys k
    go ih fails = same_err

-- A result over a buffer, read back as one over bytes.
pub Same-ok :
    {m : Result (Bool × HttpContext × List ℕ)} {n : Result (Bool × HttpContext × Buffer)}
    {good : Bool} {c : HttpContext} {b : Buffer}
    → Same m n
    → n ≡ ok (good, c, b)
    → (ys : List ℕ) × (m ≡ ok (good, c, ys)) × Holds ys b
Same-ok (same_ok {xs = ys} k) e = (ys, cc, subst (Holds ys) (cc) k)
Same-ok same_err e = cc
