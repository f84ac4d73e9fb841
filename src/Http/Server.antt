-- ===== src/Http/Server.antt =====
-- yvent/http/HttpServer.cpp: what a server does with a connection and with the bytes that came on it. The
-- server sets these as the callbacks of its TcpServer; they run in the loop of the connection. A `Session`
-- is a connection with the parser that `context_` holds. The callback of a user is a parameter: it may use
-- the connection, and fills the response.
pub mod Answers
pub mod Chunks
pub mod Refusals
use yvent.Prelude.{ℕ, List, Bool, true, false, not, ◌&&◌, ◌||◌, if◌then◌else◌, Option, none, some}
use yvent.Fault.{Result, ok, ◌>>=◌}
use yvent.Text.{codes, equal}
use yvent.Buffer
use yvent.TcpConnection
use yvent.TcpConnection.{TcpConnection, WriteResult, is_connected}
use yvent.Http.Request.{HttpRequest, Version, http10, get_header}
use yvent.Http.Context.{HttpContext, initial, parse_done, parse_request, reset}
use yvent.Http.Response
use yvent.Http.Response.{HttpResponse, append_to_buffer}

pub record Session : Type 0 where
  pub conn : TcpConnection
  pub context : HttpContext

abbrev pub HttpCallback : Type 0
HttpCallback = TcpConnection → HttpRequest → HttpResponse → Result (TcpConnection × HttpResponse)

unfoldable pub on_connection : Session → Session
on_connection s = if is_connected s.conn.state then record s { context = initial } else s

abbrev pub is_http10 : Version → Bool
is_http10 http10 = true
is_http10 _ = false

-- `close` of `onRequest`.
unfoldable pub asks_close : HttpRequest → Bool
asks_close req =
    let connection = get_header req (codes "Connection") in
    equal connection (codes "close")
    || (is_http10 req.version && not (equal connection (codes "Keep-Alive")))

abbrev pub call_http : Option HttpCallback → HttpCallback
call_http none conn req response = ok (conn, response)
call_http (some callback) conn req response = callback conn req response

abbrev pub shutdown_if : Bool → TcpConnection → TcpConnection
shutdown_if b conn = if b then TcpConnection.shutdown true conn else conn

-- `onRequest`, in the connection's loop.
unfoldable pub on_request :
    (List ℕ → WriteResult)
    → Option HttpCallback
    → TcpConnection
    → HttpRequest
    → Result TcpConnection
on_request write callback conn req = do
  filled ← call_http callback conn req (Response.make (asks_close req))
  buf ← append_to_buffer filled.1 (Buffer.make Buffer.initial_size)
  sent ← TcpConnection.send_buffer true write buf filled.0
  ok (shutdown_if filled.1.close_connection sent.1)

abbrev pub bad_request : List ℕ
bad_request = codes "HTTP/1.1 400 Bad Request\r\n\r\n"

-- The first half of `onMessage`, behind `parseRequest`.
unfoldable pub refuse : (List ℕ → WriteResult) → TcpConnection → Result TcpConnection
refuse write conn = do
  sent ← TcpConnection.send true write bad_request conn
  ok (TcpConnection.shutdown true sent)

-- The second half.
unfoldable pub answer :
    (List ℕ → WriteResult) → Option HttpCallback → HttpContext → TcpConnection → Result Session
unfolding on_request
answer write callback context conn =
    if parse_done context
    then (do
      sent ← on_request write callback conn context.request
      ok (record { conn = sent; context = reset context }))
    else ok (record { conn = conn; context = context })

-- `onMessage` on the connection's input buffer; `fuel` is that of `parseRequest`.
unfoldable pub on_message :
    ℕ → (List ℕ → WriteResult) → Option HttpCallback → Session → Result Session
unfolding refuse answer
on_message fuel write callback s = do
  parsed ← parse_request fuel s.context s.conn.in_buffer
  let conn = record s.conn { in_buffer = parsed.2 }
  heard ← (if parsed.0 then ok conn else refuse write conn)
  answer write callback parsed.1 heard
