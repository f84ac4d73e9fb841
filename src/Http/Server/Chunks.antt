-- ===== src/Http/Server/Chunks.antt =====
-- A request that comes to a server in chunks, as a connection reads it.
use mathlib.Core.Path.{subst}
use yvent.Prelude.{
  ℕ, suc, ◌+◌, ◌*◌, ◌≤◌, ◌<◌, ◌≡◌, refl, sym, ap, ◌∙◌, List, [], ◌∷◌, ◌++◌, append_assoc,
  append-nil, concat, length-append, Bool, true, false, Option, some, length, arith,
}
use yvent.Fault.{Result, ok, Returns, returns, Returns-ok, ◌>>=◌}
use yvent.Word.{max_size}
use yvent.Buffer.Contents.{Holds}
use yvent.Buffer.Input.{take_in-Appended}
use yvent.Buffer.{Buffer, contents, take_in}
use yvent.TcpConnection.Ports.{stream, IsLive}
use yvent.TcpConnection.{TcpConnection, connected, WriteResult}
use yvent.Http.Request.{HttpRequest}
use yvent.Http.Context.{HttpContext, initial, all_done, is_all_done, parse_request}
use yvent.Http.Context.Lines.{parse_bytes}
use yvent.Http.Context.Refine.{Same, same_ok, parse_request-Same}
use yvent.Http.Context.Total.{IsReady}
use yvent.Http.Context.Extends.{ready_open}
use yvent.Http.Context.Midway.{parse_bytes_enough, parse_bytes-Midway}
use yvent.Http.Request.Path.{Writing}
use yvent.Http.Context.Written.{Sent, IsSendable, request_text}
use yvent.Http.Context.RoundTrip.{meant, parse_bytes-request_text}
use yvent.Http.Response.{HttpResponse}
use yvent.Http.Server.{Session, HttpCallback, on_message, answer}
use yvent.Http.Server.Answers.{
  filling, response_to, response_text, state_after, IsLive-input, on_request-Answered,
  on_message_done,
}

abbrev pub with_input : Buffer → Session → Session
with_input b s = record s { conn = record s.conn { in_buffer = b } }

-- The reads of a connection, one after the other: each puts a chunk into the input buffer, as `readFd` does,
-- and calls `onMessage`.
abbrev pub receive :
    (List ℕ → WriteResult) → Option HttpCallback → Session → List (List ℕ) → Result Session
receive write callback s [] = ok s
receive write callback s (x ∷ xs) = do
  b ← take_in s.conn.in_buffer x
  r ← on_message (suc (length (contents b))) write callback (with_input b s)
  receive write callback r xs

-- Every read brings something.
abbrev pub AllFull : List (List ℕ) → Type 0
AllFull [] = Unit
AllFull (x ∷ xs) = (0 < length x) × AllFull xs

-- A call over bytes, seen over the buffer that holds them.
over_buffer :
    {good : Bool} {d : HttpContext} {us : List ℕ} {n : Result (Bool × HttpContext × Buffer)}
    → Same (ok (good, d, us)) n
    → (b : Buffer) × (n ≡ ok (good, d, b)) × Holds us b
over_buffer {good} {d} {us} (same_ok {good = g} {c} {xs} {b} k) =
    (b, cc, subst (λ z. Holds z b) (cc) k)

parse_held :
    (c : HttpContext) (b : Buffer) (xs : List ℕ) {good : Bool} {d : HttpContext} {us : List ℕ}
    → Holds xs b
    → parse_bytes (suc (length xs)) c xs ≡ ok (good, d, us)
    → (e : Buffer) × (parse_request (suc (length (contents b))) c b ≡ ok (good, d, e)) × Holds us e
parse_held c b xs h e =
    let n : suc (length (contents b)) ≡ suc (length xs) = ap (λ x. suc (length x)) h.held in
    rw n (
      over_buffer (
        subst (λ m. Same m (parse_request (suc (length xs)) c b)) e
          (parse_request-Same (suc (length xs)) c b xs h)))

module _ (write : List ℕ → WriteResult) (respond : HttpRequest → HttpResponse → HttpResponse) where
  -- A call of `onMessage` while the request is not whole.
  on_message_waits :
      (fuel : ℕ) (callback : Option HttpCallback) (s : Session) {d : HttpContext} {e : Buffer}
      → parse_request fuel s.context s.conn.in_buffer ≡ ok (true, d, e)
      → is_all_done d.state ≡ false
      → on_message fuel write callback s
        ≡ ok (record { conn = record s.conn { in_buffer = e }; context = d })
  unfolding on_message answer
  on_message_waits fuel callback s e n = rw (e, n) refl

  -- What the client has heard.
  abbrev pub Heard : TcpConnection → HttpRequest → Session → Type 0
  Heard c req r =
      IsLive r.conn
      × (stream r.conn ≡ stream c ++ response_text (response_to write respond req))
      × (r.conn.state ≡ state_after (response_to write respond req).close_connection)
      × Holds [] r.conn.in_buffer
      × (r.context ≡ initial)

  receive-Heard :
      (x : List ℕ) (xs : List (List ℕ)) (c : TcpConnection) (b : Buffer) (zs : List ℕ)
      (context : HttpContext) (req : HttpRequest) (g : ℕ)
      → Holds zs b
      → IsReady context.state context.request
      → parse_bytes g context (zs ++ concat (x ∷ xs))
        ≡ ok (true, record { state = all_done; request = req }, [])
      → AllFull (x ∷ xs)
      → length zs + 2 * length (concat (x ∷ xs)) + 8 ≤ max_size
      → IsLive c
      → c.state ≡ connected
      → length (contents c.out_buffer)
          + 2 * length (response_text (response_to write respond req))
          + 8
        ≤ max_size
      → Returns (Heard c req) (
          receive write
            (some (filling respond))
            (record { conn = record c { in_buffer = b }; context = context })
            (x ∷ xs))
  receive-Heard x [] c b zs context req g h i e full small live was k =
      let (b1, e1, a) = Returns-ok (
        take_in-Appended b h.valid x
          (omega (arith, small, ap length h.held, length-append x []))) in
      let h1 : Holds (zs ++ x) b1 = record {
        valid = a.holds.valid;
        held = a.holds.held ∙ ap (λ t. t ++ x) h.held;
      } in
      let e2 = ap (λ t. parse_bytes g context (zs ++ t)) (sym (append-nil x)) ∙ e in
      let (b2, e3, h2) =
        parse_held context b1 (zs ++ x) h1 (parse_bytes_enough g context (zs ++ x) i e2) in
      let (d, f, r) = Returns-ok (
        on_request-Answered write respond (record c { in_buffer = b2 }) req
          (IsLive-input c b2 h2.valid live) was k) in
      let s : Session = record { conn = record c { in_buffer = b1 }; context = context } in
      rw (e1, on_message_done write respond (suc (length (contents b1))) s req b2 e3 f)
        (returns _ (r.live, r.heard, r.state, subst (Holds []) (sym r.input) h2, refl))
  receive-Heard x (y ∷ ys) c b zs context req g h i e full small live was k =
      let more : length (concat (x ∷ y ∷ ys)) ≡ length x + length (concat (y ∷ ys)) =
        length-append x (concat (y ∷ ys)) in
      let behind : length (concat (y ∷ ys)) ≡ length y + length (concat ys) =
        length-append y (concat ys) in
      let (b1, e1, a) =
        Returns-ok (take_in-Appended b h.valid x (omega (arith, small, ap length h.held, more))) in
      let h1 : Holds (zs ++ x) b1 = record {
        valid = a.holds.valid;
        held = a.holds.held ∙ ap (λ t. t ++ x) h.held;
      } in
      let m =
        parse_bytes-Midway g context (zs ++ x) (concat (y ∷ ys)) i (omega (arith, behind, full.1.0))
          (ap (parse_bytes g context) (append_assoc zs x (concat (y ∷ ys))) ∙ e) in
      let (b2, e3, h2) = parse_held context b1 (zs ++ x) h1 m.parsed in
      let s : Session = record { conn = record c { in_buffer = b1 }; context = context } in
      rw
        (
          e1,
          on_message_waits (suc (length (contents b1))) (some (filling respond)) s e3
              (ready_open m.context.state m.context.request m.ready),
        )
        (receive-Heard y ys c b2 m.left m.context req (suc (length (m.left ++ concat (y ∷ ys)))) h2
          m.ready m.rest full.1 (omega (arith, m.fewer, small, more, length-append zs x)) live was
          k)

  -- However a request is cut into the chunks that a live connection reads, `onMessage` answers it once, with
  -- the chunk that ends it: the response that the callback fills for the request that was sent goes behind
  -- everything that was sent before, the connection stays live and is shut down exactly where the response
  -- says so, no byte of the request is left, and the parser starts anew.
  pub receive-answers :
      (choose : ℕ → ℕ → Writing) (t : Sent) (x : List ℕ) (xs : List (List ℕ)) (s : Session)
      → IsSendable choose t
      → concat (x ∷ xs) ≡ request_text choose t []
      → AllFull (x ∷ xs)
      → Holds [] s.conn.in_buffer
      → s.context ≡ initial
      → 2 * length (request_text choose t []) + 8 ≤ max_size
      → IsLive s.conn
      → s.conn.state ≡ connected
      → length (contents s.conn.out_buffer)
          + 2 * length (response_text (response_to write respond (meant t)))
          + 8
        ≤ max_size
      → Returns (Heard s.conn (meant t)) (receive write (some (filling respond)) s (x ∷ xs))
  receive-answers choose t x xs s sendable e full empty start small live was k =
      let fuel = suc (length t.headers + 1) in
      let p =
        ap (parse_bytes fuel initial) e
        ∙ parse_bytes-request_text choose t sendable [] fuel (omega arith) in
      let same : record { conn = s.conn; context = initial } ≡ s =
        ap (λ d. record s { context = d }) (sym start) in
      subst
        (λ z. Returns (Heard s.conn (meant t)) (receive write (some (filling respond)) z (x ∷ xs)))
        same
        (receive-Heard x xs s.conn s.conn.in_buffer [] initial (meant t) fuel empty refl p full
          (omega (arith, small, ap length e)) live was k)
