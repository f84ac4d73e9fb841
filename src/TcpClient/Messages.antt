-- ===== src/TcpClient/Messages.antt =====
-- What becomes of the messages of a client.
use mathlib.Core.Path.{subst}
use yvent.Prelude.{
  concat, ℕ, ◌+◌, ◌*◌, ◌≤◌, ◌≡◌, refl, sym, ap, ◌∙◌, List, [], ◌∷◌, ◌++◌, append_assoc, append-nil,
  length, length-append, Bool, true, if◌then◌else◌, none, some, arith,
}
use yvent.Fault.{err, dangling, ok-inj, ◌>>=◌, Returns, returns, Returns-bind, Returns-ok}
use yvent.Word.{max_size}
use yvent.Buffer.{contents}
use yvent.Channel
use yvent.Channel.{deleted, with_read, with_write, without_all}
use yvent.Poll.{update_channel}
use yvent.TcpConnection
use yvent.TcpConnection.{TcpConnection, WriteResult, connected, disconnected}
use yvent.TcpConnection.Ports.{IsLive, stream, on_wire}
use yvent.TcpConnection.Sends.{send-Given}
use yvent.TcpConnection.Life.{enable_read-IsLive, handle_close-Closed}
use yvent.Connector
use yvent.Connector.{called_new_connection, in_progress}
use yvent.TcpClient.{
  make, start, TcpClient, callbacks_of, new_connection, handle_connect, send_in_loop,
  close_connection, handle_close, run_tasks,
}

-- A client that is connected, with this to be sent or sent.
pub record IsOnline (sent : List ℕ) (c : TcpClient) : Type 0 where
  pub conn : TcpConnection
  pub there : c.connection ≡ some conn
  pub live : IsLive conn
  pub open_state : conn.state ≡ connected
  pub given : stream conn ≡ sent

send_in_loop-IsOnline :
    (write : List ℕ → WriteResult) (message sent : List ℕ) (c : TcpClient)
    → IsOnline sent c
    → length sent + 2 * length message + 8 ≤ max_size
    → Returns (IsOnline (sent ++ message)) (send_in_loop write message c)
unfolding send_in_loop
send_in_loop-IsOnline write message sent c o k =
    rw (send_in_loop, o.there)
      (Returns-bind (TcpConnection.send true write message o.conn) _
        (send-Given write o.conn o.live o.open_state message (
          omega (
            arith,
            ap length o.given,
            length-append (on_wire o.conn.trace) (contents o.conn.out_buffer),
          )))
        λ d g. returns _ (record {
          conn = d;
          there = refl;
          live = g.live;
          open_state = g.state ∙ o.open_state;
          given = g.kept ∙ ap (λ t. t ++ message) o.given;
        }))

run_tasks-IsOnline :
    (write : List ℕ → WriteResult) (messages : List (List ℕ)) (sent : List ℕ) (c : TcpClient)
    → IsOnline sent c
    → 2 * length (sent ++ concat messages) + 8 ≤ max_size
    → Returns (IsOnline (sent ++ concat messages)) (run_tasks write messages c)
unfolding run_tasks
run_tasks-IsOnline write [] sent c o k =
    returns _ (subst (λ t. IsOnline t c) (sym (append-nil sent)) o)
run_tasks-IsOnline write (message ∷ messages) sent c o k =
    let e : (sent ++ message) ++ concat messages ≡ sent ++ (message ++ concat messages) =
      append_assoc sent message (concat messages) in
    Returns-bind (send_in_loop write message c) _
      (send_in_loop-IsOnline write message sent c o (
        omega (
          arith,
          length-append sent (message ++ concat messages),
          length-append message (concat messages),
        )))
      λ d p.
        subst (λ t. Returns (IsOnline t) (run_tasks write messages d)) e
          (run_tasks-IsOnline write messages (sent ++ message) d p (omega (arith, ap length e)))

enable_read_connected :
    (fd : ℕ) (c : TcpClient)
    → Returns
        (λ d. d.state ≡ connected)
        (TcpConnection.enable_read (TcpConnection.make fd (callbacks_of c)))
unfolding TcpConnection.enable_read TcpConnection.make TcpConnection.update_events update_channel
    Channel.make with_read
enable_read_connected fd c = returns _ refl

new_connection-IsOnline : (fd : ℕ) (c : TcpClient) → Returns (IsOnline []) (new_connection fd c)
unfolding new_connection
new_connection-IsOnline fd c =
    let (d, e, (l, s)) = Returns-ok (enable_read-IsLive fd (callbacks_of c)) in
    let (d2, e2, o) = Returns-ok (enable_read_connected fd c) in
    let same : d2 ≡ d = ok-inj (sym e2 ∙ e) in
    rw e (
      returns _ (record {
        conn = d;
        there = refl;
        live = l;
        open_state = ap (λ x. x.state) (sym same) ∙ o;
        given = s;
      }))

-- The attempt to connect comes to its end without an error.
connects-IsOnline :
    (fd early : ℕ) (has_error has_connection has_message has_write_complete : Bool)
    → Returns (IsOnline []) (
        start
          (some in_progress)
          early
          (make fd has_error has_connection has_message has_write_complete)
        >>= handle_connect 0)
unfolding start make handle_connect Connector.start Connector.make Connector.handle_write
    update_channel Channel.make with_write without_all
connects-IsOnline fd early has_error has_connection has_message has_write_complete =
    new_connection-IsOnline fd
      (record (make fd has_error has_connection has_message has_write_complete) {
        connector = record (Connector.make fd true has_error) {
          connected = true;
          started = true;
          channel = record { fd = fd; events = 0; revents = 0; state = deleted };
          calls = called_new_connection ∷ [];
        };
      })

-- A client that connects in the background and then sends messages has them all, in order, on the wire or in
-- the connection's buffer, and stays connected; whatever the socket takes of them, if they fit a buffer.
pub run_tasks-sends :
    (fd early : ℕ) (has_error has_connection has_message has_write_complete : Bool)
    (write : List ℕ → WriteResult) (messages : List (List ℕ))
    → 2 * length (concat messages) + 8 ≤ max_size
    → Returns (IsOnline (concat messages)) (
        start
          (some in_progress)
          early
          (make fd has_error has_connection has_message has_write_complete)
        >>= handle_connect 0
        >>= run_tasks write messages)
run_tasks-sends fd early has_error has_connection has_message has_write_complete write messages k =
    Returns-bind
      (start (some in_progress) early
          (make fd has_error has_connection has_message has_write_complete)
        >>= handle_connect 0)
      _ (connects-IsOnline fd early has_error has_connection has_message has_write_complete)
      λ c o. run_tasks-IsOnline write messages [] c o k

no_connection :
    (c : TcpClient) (write : List ℕ → WriteResult) (message : List ℕ) (messages : List (List ℕ))
    → c.connection ≡ none
    → run_tasks write (message ∷ messages) c ≡ err dangling
unfolding run_tasks send_in_loop
no_connection c write message messages e = rw (run_tasks, send_in_loop, e) refl

-- Behind the close of its connection a client has none, the connection callback has heard of it, and every
-- message that is sent follows a null pointer.
pub send_closed_lem :
    (c : TcpClient) (sent : List ℕ) (online : IsOnline sent c)
    → Returns
        (λ d.
          (d.connection ≡ none)
          × (d.heard ≡ (if c.has_connection then c.heard ++ disconnected ∷ [] else c.heard))
          × ((write : List ℕ → WriteResult) (message : List ℕ) (messages : List (List ℕ))
              → run_tasks write (message ∷ messages) d ≡ err dangling))
        (handle_close online.conn c)
unfolding handle_close close_connection
send_closed_lem c sent online =
    let (d, e, closed) = Returns-ok (handle_close-Closed online.conn online.live) in
    let s : d.state ≡ disconnected = closed.state in
    rw (handle_close, e, close_connection, online.there, s)
      (returns _
        (refl, refl, λ write message messages. no_connection _ write message messages refl))
