-- ===== src/Http/Context/Extends.antt =====
-- What a call of `parseRequest` that ended would have done with more bytes behind, and how many it leaves.
use mathlib.Core.Path.{subst}
use yvent.Prelude.{
  ℕ, zero, suc, ◌<◌, ◌≤◌, ◌≡◌, refl, sym, ap, ◌∙◌, List, ◌++◌, Bool, true, false, not, ◌||◌,
  if◌then◌else◌, Option, none, some, length, take, drop, take-append, drop-append, length-drop,
  arith,
}
use yvent.Fault.{Result, ok, err, ◌>>=◌, Returns, Returns-ok, ok-inj}
use yvent.Text.{split_byte}
use yvent.Buffer.Search.{search_crlf-lt-length}
use yvent.Buffer.{search_crlf}
use yvent.Http.Request.{HttpRequest}
use yvent.Http.Context.{
  HttpContext, ParseState, request_line, headers, body, all_done, is_all_done, Outcome, stop, more,
  parse_request_line,
}
use yvent.Http.Context.Lines.{line_outcome, header_outcome, header_case, step_bytes, parse_bytes}
use yvent.Http.Context.Total.{IsReady, StepFate, step-Fate}
use yvent.Http.Context.Resume.{go_on, search_crlf-append, step_more}

-- A call that refused a request line, or came to the end of a request.
abbrev pub is_end : Bool → HttpContext → Bool
is_end good d = not good || is_all_done d.state

module _ (c : HttpContext) (xs ys : List ℕ) where
  line_ends :
      (k : ℕ) {good : Bool} {d : HttpContext} {zs : List ℕ}
      → suc k < length xs
      → line_outcome c xs k ≡ ok (stop good d zs)
      → line_outcome c (xs ++ ys) k ≡ ok (stop good d (zs ++ ys))
  line_ends k {good} {d} {zs} l e =
      rw (take-append k xs ys (omega arith), drop-append (suc (suc k)) xs ys l)
        (go (parse_request_line c.request (take k xs)) e)
    where
      go :
          (m : Result (Bool × HttpRequest))
          → (m >>= λ p.
              if p.0
              then ok (more (record { state = headers; request = p.1 }) (drop (suc (suc k)) xs))
              else ok (stop false (record c { request = p.1 }) xs))
            ≡ ok (stop good d zs)
          → (m >>= λ p.
              if p.0
              then ok
                  (more (record { state = headers; request = p.1 }) (drop (suc (suc k)) xs ++ ys))
              else ok (stop false (record c { request = p.1 }) (xs ++ ys)))
            ≡ ok (stop good d (zs ++ ys))
      go (err x) h = cc
      go (ok (true, r)) h = ground arith
      go (ok (false, r)) h = ground arith

  header_ends :
      (k : ℕ) {good : Bool} {d : HttpContext} {zs : List ℕ}
      → suc k < length xs
      → header_outcome c xs k ≡ ok (stop good d zs)
      → header_outcome c (xs ++ ys) k ≡ ok (stop good d (zs ++ ys))
  header_ends k {good} {d} {zs} l e =
      rw (take-append k xs ys (omega arith), drop-append (suc (suc k)) xs ys l)
        (go (split_byte b':' (take k xs)) e)
    where
      go :
          (m : Option (List ℕ × List ℕ))
          → (header_case c (drop (suc (suc k)) xs) m) ≡ ok (stop good d zs)
          → (header_case c (drop (suc (suc k)) xs ++ ys) m) ≡ ok (stop good d (zs ++ ys))
      go none h = ground arith
      go (some (key, rest)) h = ground arith

  -- A round that ended ends in the same way with more bytes behind.
  step_ends :
      (s : ParseState) (o : Option ℕ) {good : Bool} {d : HttpContext} {zs : List ℕ}
      → is_all_done c.state ≡ false
      → search_crlf xs ≡ o
      → step_bytes s c xs ≡ ok (stop good d zs)
      → is_end good d ≡ true
      → step_bytes s c (xs ++ ys) ≡ ok (stop good d (zs ++ ys))
  unfolding step_bytes
  step_ends request_line none n e h q = absurd (let k = rw (e, step_bytes) at h in ground arith)
  step_ends request_line (some k) n e h q =
      rw (search_crlf-append xs ys k e, step_bytes)
        (line_ends k (search_crlf-lt-length xs k e) (rw (e, step_bytes) at h))
  step_ends headers none n e h q = absurd (let k = rw (e, step_bytes) at h in ground arith)
  step_ends headers (some k) n e h q =
      rw (search_crlf-append xs ys k e, step_bytes)
        (header_ends k (search_crlf-lt-length xs k e) (rw (e, step_bytes) at h))
  step_ends body o n e h q = cc
  step_ends all_done o n e h q = cc

module _ (c : HttpContext) (xs : List ℕ) where
  -- A round that stopped left no more bytes than there were.
  stop_shrinks :
      (s : ParseState) (o : Option ℕ) {good : Bool} {d : HttpContext} {zs : List ℕ}
      → search_crlf xs ≡ o
      → step_bytes s c xs ≡ ok (stop good d zs)
      → length zs ≤ length xs
  unfolding step_bytes
  stop_shrinks request_line none e h = let q = rw (e, step_bytes) at h in ground arith
  stop_shrinks request_line (some k) {good} {d} {zs} e h =
      go (parse_request_line c.request (take k xs)) (rw (e, step_bytes) at h)
    where
      go :
          (m : Result (Bool × HttpRequest))
          → (m >>= λ p.
              if p.0
              then ok (more (record { state = headers; request = p.1 }) (drop (suc (suc k)) xs))
              else ok (stop false (record c { request = p.1 }) xs))
            ≡ ok (stop good d zs)
          → length zs ≤ length xs
      go (err x) q = absurd cc
      go (ok (true, r)) q = absurd cc
      go (ok (false, r)) q = let w : xs ≡ zs = cc in omega (arith, ap length w)
  stop_shrinks headers none e h = let q = rw (e, step_bytes) at h in ground arith
  stop_shrinks headers (some k) {good} {d} {zs} e h =
      go (split_byte b':' (take k xs)) (rw (e, step_bytes) at h)
    where
      go :
          (m : Option (List ℕ × List ℕ))
          → (header_case c (drop (suc (suc k)) xs) m) ≡ ok (stop good d zs)
          → length zs ≤ length xs
      go none q =
          let w : drop (suc (suc k)) xs ≡ zs = cc in
          omega (arith, ap length w, length-drop (suc (suc k)) xs)
      go (some (key, rest)) q = absurd cc
  stop_shrinks body o e h = absurd cc
  stop_shrinks all_done o e h = absurd cc

pub ready_open : (s : ParseState) (r : HttpRequest) → IsReady s r → is_all_done s ≡ false
ready_open request_line r h = refl
ready_open headers r h = refl
ready_open body r h = absurd h
ready_open all_done r h = absurd h

-- A call that ended would have ended in the same way with more bytes behind, and would have left these too;
-- and no call leaves more bytes than there were.
pub parse_bytes_ends :
    (f : ℕ) (c : HttpContext) (xs ys : List ℕ) {good : Bool} {d : HttpContext} {us : List ℕ}
    → IsReady c.state c.request
    → parse_bytes f c xs ≡ ok (good, d, us)
    → (length us ≤ length xs)
      × (is_end good d ≡ true → parse_bytes f c (xs ++ ys) ≡ ok (good, d, us ++ ys))
unfolding parse_bytes
parse_bytes_ends zero c xs ys i e = absurd cc
parse_bytes_ends (suc f) c xs ys {good} {d} {us} i e =
    go (step_bytes c.state c xs) refl e (step-Fate c xs c.state (search_crlf xs) refl i refl)
      (λ k zs h p. parse_bytes_ends f k zs ys h p)
  where
    go :
        (m : Result (Outcome (List ℕ)))
        → step_bytes c.state c xs ≡ m
        → (m >>= go_on f) ≡ ok (good, d, us)
        → Returns (StepFate xs) m
        → ((k : HttpContext) (zs : List ℕ)
            → IsReady k.state k.request
            → parse_bytes f k zs ≡ ok (good, d, us)
            → (length us ≤ length zs)
              × (is_end good d ≡ true → parse_bytes f k (zs ++ ys) ≡ ok (good, d, us ++ ys)))
        → (length us ≤ length xs)
          × (is_end good d ≡ true → parse_bytes (suc f) c (xs ++ ys) ≡ ok (good, d, us ++ ys))
    go (err x) s q w ih = absurd cc
    go (ok (stop g k zs)) s q w ih =
        let a : g ≡ good = cc in
        let b : k ≡ d = cc in
        let z : zs ≡ us = cc in
        (
          omega (arith, ap length z, stop_shrinks c xs c.state (search_crlf xs) refl s),
          λ n.
              let t =
                step_ends c xs ys c.state (search_crlf xs) (ready_open c.state c.request i) refl s
                  (ap (λ x. is_end x k) a ∙ ap (is_end good) b ∙ n) in
              rw t (cc),
        )
    go (ok (more k zs)) s q w ih =
        let (o, p, v) = Returns-ok w in
        let v2 : StepFate xs (more k zs) = subst (StepFate xs) (sym (ok-inj p)) v in
        let (l, r) = ih k zs v2.0 q in
        (omega (arith, v2.1, l), λ n. rw (step_more c xs ys c.state (search_crlf xs) refl s) (r n))
