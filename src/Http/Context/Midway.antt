-- ===== src/Http/Context/Midway.antt =====
-- A request of which a part has come.
use yvent.Prelude.{
  ℕ, suc, ◌+◌, ◌<◌, ◌≤◌, ◌≡◌, refl, sym, ap, ◌∙◌, List, [], ◌++◌, Bool, true, false, length,
  length-append, arith,
}
use yvent.Fault.{ok, Returns-ok, ok-inj}
use yvent.Buffer.{search_crlf}
use yvent.Http.Context.{HttpContext, is_all_done}
use yvent.Http.Context.Lines.{parse_bytes}
use yvent.Http.Context.Total.{IsReady, Fate, refused, finished, waits, parse_bytes-Fate}
use yvent.Http.Context.Resume.{Parsed, parse_bytes_mono, resume_bytes}
use yvent.Http.Context.Extends.{is_end, ready_open, parse_bytes_ends}

-- Two calls with enough fuel end alike.
parse_bytes_same :
    (f g : ℕ) (c : HttpContext) (xs : List ℕ) {r s : Parsed}
    → parse_bytes f c xs ≡ ok r
    → parse_bytes g c xs ≡ ok s
    → r ≡ s
parse_bytes_same f g c xs a b =
    let e : g + f ≡ f + g = omega arith in
    let p = parse_bytes_mono f g c xs a in
    let q = parse_bytes_mono g f c xs b in ok-inj (sym p ∙ ap (λ n. parse_bytes n c xs) (sym e) ∙ q)

-- As many rounds as there are bytes and one more are enough for the result that more rounds have.
pub parse_bytes_enough :
    (g : ℕ) (c : HttpContext) (xs : List ℕ) {r : Parsed}
    → IsReady c.state c.request
    → parse_bytes g c xs ≡ ok r
    → parse_bytes (suc (length xs)) c xs ≡ ok r
parse_bytes_enough g c xs i e =
    let (s, f, _) = Returns-ok (parse_bytes-Fate (suc (length xs)) c xs i (omega arith)) in
    f ∙ ap ok (parse_bytes_same (suc (length xs)) g c xs f e)

-- What the parser leaves of a part of a request, of which bytes are to come.
pub record Midway (g : ℕ) (c : HttpContext) (xs ys : List ℕ) (r : Parsed) : Type 0 where
  pub context : HttpContext
  pub left : List ℕ
  pub parsed : parse_bytes (suc (length xs)) c xs ≡ ok (true, context, left)
  pub ready : IsReady context.state context.request
  pub fewer : length left ≤ length xs
  pub rest : parse_bytes (suc (length (left ++ ys))) context (left ++ ys) ≡ ok r

pub parse_bytes-Midway :
    (g : ℕ) (c : HttpContext) (xs ys : List ℕ) {d : HttpContext}
    → IsReady c.state c.request
    → 0 < length ys
    → parse_bytes g c (xs ++ ys) ≡ ok (true, d, [])
    → Midway g c xs ys (true, d, [])
parse_bytes-Midway g c xs ys {d} i l e =
    let (r, f, fate) = Returns-ok (parse_bytes-Fate (suc (length xs)) c xs i (omega arith)) in
    go r.0 r.1 r.2 f fate
  where
    ended :
        (good : Bool) (k : HttpContext) (us : List ℕ)
        → parse_bytes (suc (length xs)) c xs ≡ ok (good, k, us)
        → is_end good k ≡ true
        → ⊥
    ended good k us f n =
        let q = (parse_bytes_ends (suc (length xs)) c xs ys i f).1 n in
        let s = parse_bytes_same (suc (length xs)) g c (xs ++ ys) q e in
        let w : us ++ ys ≡ [] = ap (λ x. x.2) s in omega (arith, ap length w, length-append us ys)

    go :
        (good : Bool) (k : HttpContext) (us : List ℕ)
        → parse_bytes (suc (length xs)) c xs ≡ ok (good, k, us)
        → Fate search_crlf good k us
        → Midway g c xs ys (true, d, [])
    go good k us f (refused s) = absurd (ended false k us f refl)
    go good k us f (finished s) = absurd (ended true k us f (ap is_all_done s))
    go good k us f (waits ready n) =
        let (t, h, _) =
          Returns-ok
            (parse_bytes-Fate (suc (length (us ++ ys))) k (us ++ ys) ready (omega arith)) in
        let all =
          resume_bytes (suc (length xs)) (suc (length (us ++ ys))) c xs ys f
            (ready_open k.state k.request ready) h in
        record {
          context = k;
          left = us;
          parsed = f;
          ready = ready;
          fewer = (parse_bytes_ends (suc (length xs)) c xs ys i f).0;
          rest =
              h
              ∙ ap ok (
                  parse_bytes_same (suc (length xs) + suc (length (us ++ ys))) g c (xs ++ ys) all
                    e);
        }
