-- ===== src/Http/Server/Refusals.antt =====
-- What a client hears of a bad request, and what the next bytes do then.
use mathlib.Core.Path.{subst}
use yvent.Prelude.{
  ℕ, suc, ◌+◌, ◌*◌, ◌≤◌, ◌≡◌, refl, sym, ap, ◌∙◌, List, ◌∷◌, ◌++◌, true, false, Option, length,
}
use yvent.Fault.{ok, err, assertion, Returns, returned, Returns-ok}
use yvent.Word.{max_size}
use yvent.Text.Bytes.{lacks}
use yvent.Buffer.Contents.{Holds}
use yvent.Buffer.{Buffer, contents}
use yvent.TcpConnection.Ports.{stream, IsLive}
use yvent.TcpConnection.{TcpConnection, connected, disconnecting, WriteResult}
use yvent.Http.Request.{Method, is_invalid, method_string}
use yvent.Http.Context.{HttpContext, initial, request_line, parse_request, is_all_done}
use yvent.Http.Context.Headers.{crlf}
use yvent.Http.Context.Faults.{parse_request_twice}
use yvent.Http.Server.{Session, HttpCallback, refuse, answer, on_message, bad_request}
use yvent.TcpConnection.Sends.{send-Given}
use yvent.Http.Server.Answers.{Answered, Answered-close, IsLive-input}

module _ (write : List ℕ → WriteResult) (callback : Option HttpCallback) where
  refuse-Answered :
      (c : TcpConnection)
      → IsLive c
      → c.state ≡ connected
      → length (contents c.out_buffer) + 2 * length bad_request + 8 ≤ max_size
      → Returns (Answered c bad_request true) (refuse write c)
  unfolding refuse
  refuse-Answered c l was k =
      let (d, e, g) = Returns-ok (send-Given write c l was bad_request k) in
      rw (e) (returned _ refl (Answered-close c d bad_request was g))

  on_message_refused :
      (fuel : ℕ) (s : Session) (context : HttpContext) (b : Buffer) {d : TcpConnection}
      → parse_request fuel s.context s.conn.in_buffer ≡ ok (false, context, b)
      → context.state ≡ request_line
      → refuse write (record s.conn { in_buffer = b }) ≡ ok d
      → on_message fuel write callback s ≡ ok (record { conn = d; context = context })
  unfolding on_message answer
  on_message_refused fuel s context b e q f =
      let open_request : is_all_done context.state ≡ false = ap is_all_done q in
      rw (e, f, open_request) refl

  on_message_aborts :
      (fuel : ℕ) (s : Session)
      → parse_request fuel s.context s.conn.in_buffer ≡ err assertion
      → on_message fuel write callback s ≡ err assertion
  unfolding on_message
  on_message_aborts fuel s e = rw (e) refl

  -- A client that sends a request line with a known method and no second space hears a 400, and the
  -- connection is shut down for writing; but the line stays in the input buffer and the method in the parser,
  -- so that whatever it sends next makes the server fail an assertion.
  pub on_message_refuses_then_aborts :
      (m : Method) (junk rest since : List ℕ) (f g : ℕ) (s : Session) (later : Buffer)
      → is_invalid m ≡ false
      → lacks b' ' junk ≡ true
      → lacks b'\r' junk ≡ true
      → Holds ((method_string m ++ (b' ' ∷ junk)) ++ crlf rest) s.conn.in_buffer
      → Holds ((method_string m ++ (b' ' ∷ junk)) ++ crlf (rest ++ since)) later
      → IsLive s.conn
      → s.conn.state ≡ connected
      → s.context ≡ initial
      → length (contents s.conn.out_buffer) + 2 * length bad_request + 8 ≤ max_size
      → Returns
          (λ r.
            (stream r.conn ≡ stream s.conn ++ bad_request)
            × (r.conn.state ≡ disconnecting)
            × Holds ((method_string m ++ (b' ' ∷ junk)) ++ crlf rest) r.conn.in_buffer
            × (on_message
                  (suc g)
                  write
                  callback
                  (record r { conn = record r.conn { in_buffer = later } })
                ≡ err assertion))
          (on_message (suc f) write callback s)
  on_message_refuses_then_aborts m junk rest since f g s later known space return holds more l was
        start k =
      let (first, second) =
        parse_request_twice m junk rest f g s.conn.in_buffer later since known space return holds
          more in
      let ((good, context, b), e, (is_bad, is_left, h)) = Returns-ok first in
      let (d, q, a) = Returns-ok (
        refuse-Answered (record s.conn { in_buffer = b }) (IsLive-input s.conn b h.valid l) was
          k) in
      let parsed : parse_request (suc f) s.context s.conn.in_buffer ≡ ok (false, context, b) =
        ap (λ x. parse_request (suc f) x s.conn.in_buffer) start ∙ cc (e, is_bad) in
      returned _
        (on_message_refused (suc f) s context b parsed (ap (λ (x : HttpContext). x.state) is_left)
          q)
        (
          a.heard,
          a.state,
          subst (Holds _) (sym a.input) h,
          on_message_aborts (suc g)
              (record { conn = record d { in_buffer = later }; context = context })
              (ap (λ x. parse_request (suc g) x later) is_left ∙ second),
        )
