-- ===== src/Http/Context/Resume.antt =====
-- `parseRequest` does not depend on how the bytes of a request are split over reads.

use mathlib.Core.Path.{subst}
use yvent.Prelude.{
  ℕ, zero, suc, ◌+◌, ◌<◌, ◌≡◌, refl, sym, ap, ◌∙◌, List, [], ◌∷◌, ◌++◌, Bool, true, false,
  if◌then◌else◌, Option, none, some, length, take, drop, take-append, drop-append, arith,
}
use yvent.Fault.{Result, ok, err, ◌>>=◌, Returns, returns}
use yvent.Text.{split_byte}
use yvent.Buffer.Contents.{IsValid, Holds}
use yvent.Buffer.Search.{search_crlf-lt-length}
use yvent.Buffer.{Buffer, contents, search_crlf}
use yvent.Http.Request.{HttpRequest}
use yvent.Http.Context.{
  HttpContext, ParseState, request_line, headers, body, all_done, is_all_done, Outcome, stop, more,
  parse_request_line, parse_request,
}
use yvent.Http.Context.Lines.{line_outcome, header_outcome, header_case, step_bytes, parse_bytes}
use yvent.Http.Context.Refine.{Same, same_ok, Same-ok, parse_request-Same}

abbrev pub Parsed : Type 0
Parsed = Bool × HttpContext × List ℕ

abbrev pub go_on : ℕ → Outcome (List ℕ) → Result Parsed
go_on fuel o = elim o [ stop good d ys ↦ ok (good, d, ys) | more d ys ↦ parse_bytes fuel d ys ]

-- More fuel than enough changes nothing.
pub parse_bytes_mono :
    (f g : ℕ) (c : HttpContext) (xs : List ℕ) {r : Parsed}
    → parse_bytes f c xs ≡ ok r
    → parse_bytes (f + g) c xs ≡ ok r
unfolding parse_bytes
parse_bytes_mono zero g c xs e = cc
parse_bytes_mono (suc f) g c xs {r} e =
    rw (let q : suc f + g ≡ suc (f + g) = omega arith in q)
      (go (λ d ys q. parse_bytes_mono f g d ys q) (step_bytes c.state c xs) e)
  where
    go :
        ((d : HttpContext) (ys : List ℕ)
          → parse_bytes f d ys ≡ ok r
          → parse_bytes (f + g) d ys ≡ ok r)
        → (m : Result (Outcome (List ℕ))) → (m >>= go_on f) ≡ ok r
        → (m >>= go_on (f + g)) ≡ ok r
    go ih (err x) h = cc
    go ih (ok (stop good d ys)) h = h
    go ih (ok (more d ys)) h = ih d ys h

pub search_crlf-append :
    (xs ys : List ℕ) (k : ℕ) → search_crlf xs ≡ some k → search_crlf (xs ++ ys) ≡ some k
search_crlf-append [] ys k e = cc
search_crlf-append (x ∷ []) ys k e = cc
search_crlf-append (x ∷ y ∷ rest) ys zero e = ground (arith)
search_crlf-append (x ∷ y ∷ rest) ys (suc k) e = ground (arith, search_crlf-append (y ∷ rest) ys k)

module _ (c : HttpContext) (xs ys : List ℕ) where
  line_more :
      (k : ℕ) {d : HttpContext} {zs : List ℕ}
      → suc k < length xs
      → line_outcome c xs k ≡ ok (more d zs)
      → line_outcome c (xs ++ ys) k ≡ ok (more d (zs ++ ys))
  line_more k {d} {zs} l e =
      rw (take-append k xs ys (omega arith), drop-append (suc (suc k)) xs ys l)
        (go (parse_request_line c.request (take k xs)) e)
    where
      go :
          (m : Result (Bool × HttpRequest))
          → (m >>= λ p.
              if p.0
              then ok (more (record { state = headers; request = p.1 }) (drop (suc (suc k)) xs))
              else ok (stop false (record c { request = p.1 }) xs))
            ≡ ok (more d zs)
          → (m >>= λ p.
              if p.0
              then ok
                  (more (record { state = headers; request = p.1 }) (drop (suc (suc k)) xs ++ ys))
              else ok (stop false (record c { request = p.1 }) (xs ++ ys)))
            ≡ ok (more d (zs ++ ys))
      go (err x) h = cc
      go (ok (true, r)) h = ground arith
      go (ok (false, r)) h = ground arith

  header_more :
      (k : ℕ) {d : HttpContext} {zs : List ℕ}
      → suc k < length xs
      → header_outcome c xs k ≡ ok (more d zs)
      → header_outcome c (xs ++ ys) k ≡ ok (more d (zs ++ ys))
  header_more k {d} {zs} l e =
      rw (take-append k xs ys (omega arith), drop-append (suc (suc k)) xs ys l)
        (go (split_byte b':' (take k xs)) e)
    where
      go :
          (m : Option (List ℕ × List ℕ))
          → (header_case c (drop (suc (suc k)) xs) m) ≡ ok (more d zs)
          → (header_case c (drop (suc (suc k)) xs ++ ys) m) ≡ ok (more d (zs ++ ys))
      go none h = ground arith
      go (some (key, rest)) h = ground arith

  -- A round that went on goes on in the same way with more bytes behind.
  pub step_more :
      (s : ParseState) (o : Option ℕ) {d : HttpContext} {zs : List ℕ}
      → search_crlf xs ≡ o
      → step_bytes s c xs ≡ ok (more d zs)
      → step_bytes s c (xs ++ ys) ≡ ok (more d (zs ++ ys))
  unfolding step_bytes
  step_more request_line none e h = cc (rw (e, step_bytes) at h)
  step_more request_line (some k) e h =
      rw (search_crlf-append xs ys k e, step_bytes)
        (line_more k (search_crlf-lt-length xs k e) (rw (e, step_bytes) at h))
  step_more headers none e h = cc (rw (e, step_bytes) at h)
  step_more headers (some k) e h =
      rw (search_crlf-append xs ys k e, step_bytes)
        (header_more k (search_crlf-lt-length xs k e) (rw (e, step_bytes) at h))
  step_more body o e h = ground arith
  step_more all_done o e h = ground arith

  -- A round that stopped without an error and before the end of the request changed nothing.
  step_waits :
      (s : ParseState) (o : Option ℕ) {d : HttpContext} {zs : List ℕ}
      → search_crlf xs ≡ o
      → step_bytes s c xs ≡ ok (stop true d zs)
      → is_all_done d.state ≡ false
      → (d ≡ c) × (zs ≡ xs)
  unfolding step_bytes
  step_waits request_line none e h n = ground (arith, rw (e, step_bytes) at h)
  step_waits request_line (some k) {d} {zs} e h n =
      cc (go (parse_request_line c.request (take k xs)) (rw (e, step_bytes) at h))
    where
      go :
          (m : Result (Bool × HttpRequest))
          → (m >>= λ p.
              if p.0
              then ok (more (record { state = headers; request = p.1 }) (drop (suc (suc k)) xs))
              else ok (stop false (record c { request = p.1 }) xs))
            ≡ ok (stop true d zs)
          → true ≡ false
      go (err x) q = cc
      go (ok (true, r)) q = ground arith
      go (ok (false, r)) q = ground arith
  step_waits headers none e h n = ground (arith, rw (e, step_bytes) at h)
  step_waits headers (some k) {d} {zs} e h n =
      cc (go (split_byte b':' (take k xs)) (rw (e, step_bytes) at h))
    where
      go :
          (m : Option (List ℕ × List ℕ))
          → (header_case c (drop (suc (suc k)) xs) m) ≡ ok (stop true d zs)
          → true ≡ false
      go none q = ground (arith, n)
      go (some (key, rest)) q = ground arith
  step_waits body o e h n = cc
  step_waits all_done o e h n = cc

pub resume_bytes :
    (f g : ℕ) (c : HttpContext) (xs ys : List ℕ) {d : HttpContext} {zs : List ℕ} {r : Parsed}
    → parse_bytes f c xs ≡ ok (true, d, zs)
    → is_all_done d.state ≡ false
    → parse_bytes g d (zs ++ ys) ≡ ok r
    → parse_bytes (f + g) c (xs ++ ys) ≡ ok r
unfolding parse_bytes
resume_bytes zero g c xs ys e n h = cc
resume_bytes (suc f) g c xs ys {d} {zs} {r} e n h =
    go (step_bytes c.state c xs) refl e (λ k us p. resume_bytes f g k us ys p n h)
  where
    waited :
        (good : Bool) (k : HttpContext) (us : List ℕ)
        → step_bytes c.state c xs ≡ ok (stop good k us)
        → ◌≡◌ {A = Result Parsed} (ok (good, k, us)) (ok (true, d, zs))
        → (d ≡ c) × (zs ≡ xs)
    waited good k us s q = step_waits c xs ys c.state (search_crlf xs) refl (cc (s, q)) n

    go :
        (m : Result (Outcome (List ℕ)))
        → step_bytes c.state c xs ≡ m
        → (m >>= go_on f) ≡ ok (true, d, zs)
        → ((k : HttpContext) (us : List ℕ)
            → parse_bytes f k us ≡ ok (true, d, zs)
            → parse_bytes (f + g) k (us ++ ys) ≡ ok r)
        → parse_bytes (suc f + g) c (xs ++ ys) ≡ ok r
    go (err x) s q ih = cc
    go (ok (stop good k us)) s q ih =
        let (dc, zx) = waited good k us s q in
        let j : suc f + g ≡ g + suc f = omega arith in
        rw j (
          parse_bytes_mono g (suc f) c (xs ++ ys) (
            cc
              (h, ap (λ t. parse_bytes g t (zs ++ ys)) dc, ap (λ t. parse_bytes g c (t ++ ys)) zx)))
    go (ok (more k us)) s q ih =
        rw (let j : suc f + g ≡ suc (f + g) = omega arith in j)
          (rw (step_more c xs ys c.state (search_crlf xs) refl s) (ih k us q))

-- A call that stopped in the middle of a request, and a second one when more bytes have come, end
-- with the result, the context and the bytes left with which one call would have ended, had all the
-- bytes been there from the start.
pub parse_request_resumes :
    (f g : ℕ) (c d t : HttpContext) (b rest later last whole : Buffer) (ys : List ℕ) (good : Bool)
    → IsValid b
    → parse_request f c b ≡ ok (true, d, rest)
    → is_all_done d.state ≡ false
    → Holds (contents rest ++ ys) later
    → parse_request g d later ≡ ok (good, t, last)
    → Holds (contents b ++ ys) whole
    → Returns
        (λ r. (r.0 ≡ good) × (r.1 ≡ t) × Holds (contents last) r.2)
        (parse_request (f + g) c whole)
parse_request_resumes f g c d t b rest later last whole ys good v first n hl second hw =
    let (zs, e, hr) =
      Same-ok (parse_request-Same f c b (contents b) (record { valid = v; held = refl })) first in
    let (us, e', hu) = Same-ok (parse_request-Same g d later (contents rest ++ ys) hl) second in
    let all : parse_bytes (f + g) c (contents b ++ ys) ≡ ok (good, t, us) =
      resume_bytes f g c (contents b) ys e n
        (ap (λ z. parse_bytes g d (z ++ ys)) (sym hr.held) ∙ e') in
    through good t us last hu (
      subst (λ m. Same m (parse_request (f + g) c whole)) all
        (parse_request-Same (f + g) c whole (contents b ++ ys) hw))
  where
    through :
        (good : Bool) (t : HttpContext) (us : List ℕ) (last : Buffer)
        → Holds us last
        → {n : Result (Bool × HttpContext × Buffer)} → Same (ok (good, t, us)) n
        → Returns (λ r. (r.0 ≡ good) × (r.1 ≡ t) × Holds (contents last) r.2) n
    through good t us last hu (same_ok k) =
        returns _ (refl, refl, record { valid = k.valid; held = k.held ∙ sym hu.held })
