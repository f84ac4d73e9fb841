-- ===== src/Http/Server/Answers.antt =====
-- What a client hears of its request.
use mathlib.Core.Path.{subst}
use yvent.Prelude.{
  ℕ, ◌+◌, ◌*◌, ◌≤◌, ◌<◌, ◌≡◌, refl, sym, ap, ◌∙◌, List, [], ◌∷◌, ◌++◌, Bool, true, false, not,
  if◌then◌else◌, some, length, arith,
}
use yvent.Fault.{ok, Returns, returns, returned, Returns-bind, Returns-ok, ◌>>=◌}
use yvent.Word.{max_size}
use yvent.Buffer
use yvent.Buffer.Contents.{IsValid, Holds, make-Holds}
use yvent.Buffer.{Buffer, contents}
use yvent.Channel.{is_writing}
use yvent.TcpConnection
use yvent.TcpConnection.Sends.{send_buffer-Given}
use yvent.TcpConnection.Flow.{Given}
use yvent.TcpConnection.Ports.{on_wire_quiet, stream, IsLive}
use yvent.TcpConnection.{
  TcpConnection, ConnectionState, connected, disconnecting, WriteResult, is_connected,
  shut_down_writing, shutdown_in_loop,
}
use yvent.Http.Request.{HttpRequest}
use yvent.Http.Context.{initial, all_done, reset, parse_request}
use yvent.Http.Request.Path.{Writing}
use yvent.Http.Context.Written.{Sent, IsSendable, request_text}
use yvent.Http.Context.RoundTrip.{meant, parse_request-request_text}
use yvent.Http.Response
use yvent.Http.Response.{HttpResponse, append_to_buffer}
use yvent.Http.Response.Sent.{head, append_to_buffer-Holds}
use yvent.Http.Server.{
  Session, HttpCallback, asks_close, shutdown_if, on_request, answer, on_message,
}

-- The whole text of a response.
abbrev pub response_text : HttpResponse → List ℕ
response_text r = head r ++ r.body

-- The state of a connection behind a response.
abbrev pub state_after : Bool → ConnectionState
state_after close = if close then disconnecting else connected

-- A connection that was connected, was given these bytes, and was shut down or not.
pub record Answered (c : TcpConnection) (text : List ℕ) (close : Bool) (d : TcpConnection)
    : Type 0 where
  pub live : IsLive d
  pub heard : stream d ≡ stream c ++ text
  pub state : d.state ≡ state_after close
  pub input : d.in_buffer ≡ c.in_buffer

module _ (c d : TcpConnection) (text : List ℕ) (was : c.state ≡ connected)
    (g : Given c text d) where
  now_connected : d.state ≡ connected
  now_connected = g.state ∙ was

  abbrev ended : TcpConnection
  ended = record d {
    state = disconnecting;
    trace = if not (is_writing d.channel) then d.trace ++ shut_down_writing ∷ [] else d.trace;
  }

  shutdown-ended : TcpConnection.shutdown true d ≡ ended
  unfolding TcpConnection.shutdown shutdown_in_loop
  shutdown-ended =
      let online : is_connected d.state ≡ true = ap is_connected now_connected in rw (online) refl

  pub Answered-close : Answered c text true (TcpConnection.shutdown true d)
  Answered-close = rw (shutdown-ended) (record {
    live = record {
      open_state = refl;
      in_valid = g.live.in_valid;
      out_valid = g.live.out_valid;
      bits = g.live.bits;
      reading = g.live.reading;
      registered = g.live.registered;
      armed = g.live.armed;
    };
    heard =
        ap (λ t. t ++ contents d.out_buffer)
          (on_wire_quiet (not (is_writing d.channel)) d.trace shut_down_writing refl)
        ∙ g.kept;
    state = refl;
    input = g.input;
  })

  Answered-shutdown_if : (close : Bool) → Answered c text close (shutdown_if close d)
  Answered-shutdown_if true = Answered-close
  Answered-shutdown_if false = record {
    live = g.live;
    heard = g.kept;
    state = now_connected;
    input = g.input;
  }

module _ (write : List ℕ → WriteResult) (c : TcpConnection) (l : IsLive c)
    (was : c.state ≡ connected) where
  -- A response that was filled in is sent whole.
  respond-Answered :
      (rsp : HttpResponse)
      → length (contents c.out_buffer) + 2 * length (response_text rsp) + 8 ≤ max_size
      → Returns (Answered c (response_text rsp) rsp.close_connection) (
          append_to_buffer rsp (Buffer.make Buffer.initial_size) >>= λ buf.
          TcpConnection.send_buffer true write buf c >>= λ sent.
          ok (shutdown_if rsp.close_connection sent.1))
  respond-Answered rsp k =
      let empty = make-Holds Buffer.initial_size in
      Returns-bind (append_to_buffer rsp (Buffer.make Buffer.initial_size)) _
        (append_to_buffer-Holds rsp (Buffer.make Buffer.initial_size) empty.valid
          (omega (arith, ap length empty.held)))
        λ buf h.
          Returns-bind (TcpConnection.send_buffer true write buf c) _
            (send_buffer-Given write c l was buf (response_text rsp)
              (subst (λ t. Holds (t ++ response_text rsp) buf) empty.held h) k)
            λ sent g.
              returns _
                (Answered-shutdown_if c sent.1 (response_text rsp) was g rsp.close_connection)

pub IsLive-input :
    (c : TcpConnection) (b : Buffer) → IsValid b → IsLive c → IsLive (record c { in_buffer = b })
IsLive-input c b v l = record {
  open_state = l.open_state;
  in_valid = v;
  out_valid = l.out_valid;
  bits = l.bits;
  reading = l.reading;
  registered = l.registered;
  armed = l.armed;
}

-- A user's callback that only fills the response.
abbrev pub filling : (HttpRequest → HttpResponse → HttpResponse) → HttpCallback
filling respond conn req response = ok (conn, respond req response)

module _ (write : List ℕ → WriteResult) (respond : HttpRequest → HttpResponse → HttpResponse) where
  abbrev pub response_to : HttpRequest → HttpResponse
  response_to req = respond req (Response.make (asks_close req))

  pub on_request-Answered :
      (c : TcpConnection) (req : HttpRequest)
      → IsLive c
      → c.state ≡ connected
      → length (contents c.out_buffer) + 2 * length (response_text (response_to req)) + 8 ≤ max_size
      → Returns
          (Answered c (response_text (response_to req)) (response_to req).close_connection)
          (on_request write (some (filling respond)) c req)
  unfolding on_request
  on_request-Answered c req l was k = respond-Answered write c l was (response_to req) k

  pub on_message_done :
      (fuel : ℕ) (s : Session) (req : HttpRequest) (b : Buffer) {d : TcpConnection}
      → parse_request fuel s.context s.conn.in_buffer
        ≡ ok (true, record { state = all_done; request = req }, b)
      → on_request write (some (filling respond)) (record s.conn { in_buffer = b }) req ≡ ok d
      → on_message fuel write (some (filling respond)) s
        ≡ ok (record { conn = d; context = initial })
  unfolding on_message answer reset
  on_message_done fuel s req b e f = rw (e, f) refl

  -- A whole request in the input buffer of a live connection is answered: the response that the callback
  -- fills for the request that was sent goes behind everything that was sent before, the connection stays
  -- live, the bytes behind the request stay in the input buffer, the parser starts anew, and the connection
  -- is shut down exactly where the response says so.
  pub on_message-answers :
      (choose : ℕ → ℕ → Writing) (t : Sent) (rest : List ℕ) (fuel : ℕ) (s : Session)
      → IsSendable choose t
      → Holds (request_text choose t rest) s.conn.in_buffer
      → length t.headers + 1 < fuel
      → IsLive s.conn
      → s.conn.state ≡ connected
      → s.context ≡ initial
      → length (contents s.conn.out_buffer) + 2 * length (response_text (response_to (meant t))) + 8
        ≤ max_size
      → Returns
          (λ r.
            IsLive r.conn
            × (stream r.conn ≡ stream s.conn ++ response_text (response_to (meant t)))
            × (r.conn.state ≡ state_after (response_to (meant t)).close_connection)
            × Holds rest r.conn.in_buffer
            × (r.context ≡ initial))
          (on_message fuel write (some (filling respond)) s)
  on_message-answers choose t rest fuel s sendable holds enough l was start k =
      let ((good, context, b), e, (is_good, is_done, h)) =
        Returns-ok
          (parse_request-request_text choose t rest fuel s.conn.in_buffer sendable holds enough) in
      let (d, f, a) = Returns-ok (
        on_request-Answered (record s.conn { in_buffer = b }) (meant t)
          (IsLive-input s.conn b h.valid l) was k) in
      let parsed : parse_request fuel s.context s.conn.in_buffer
          ≡ ok (true, record { state = all_done; request = meant t }, b) =
        ap (λ x. parse_request fuel x s.conn.in_buffer) start ∙ cc (e, is_good, is_done) in
      returned _ (on_message_done fuel s (meant t) b parsed f)
        (a.live, a.heard, a.state, subst (Holds rest) (sym a.input) h, refl)
