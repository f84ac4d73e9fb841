-- ===== src/TcpClient.antt =====
-- yvent/TcpClient.h and yvent/TcpClient.cpp: a client and its one connection, in the thread of its loop.
-- `tasks` are the messages that other threads left for the loop; `heard` lists the calls of the connection
-- callback, by the state of the connection. Names, addresses and the checks of the calling
-- thread are left out.
pub mod Messages
use yvent.Prelude.{
  ℕ, List, [], ◌∷◌, ◌++◌, Bool, true, false, not, ◌&&◌, if◌then◌else◌, Option, none, some,
}
use yvent.Fault.{Result, ok, err, dangling, ◌>>=◌, ◌>>◌, check}
use yvent.TcpConnection
use yvent.TcpConnection.{TcpConnection, ConnectionState, Callbacks, WriteResult}
use yvent.Connector
use yvent.Connector.{Connector}

pub record TcpClient : Type 0 where
  pub connector : Connector
  pub connection : Option TcpConnection
  -- Which callbacks the user set.
  pub has_connection : Bool
  pub has_message : Bool
  pub has_write_complete : Bool
  pub tasks : List (List ℕ)
  pub heard : List ConnectionState

-- The constructor, with the callbacks that are set behind it.
unfoldable pub make :
    ℕ → (has_error has_connection has_message has_write_complete : Bool) → TcpClient
make cfd has_error has_connection has_message has_write_complete = record {
  connector = Connector.make cfd true has_error;
  connection = none;
  has_connection = has_connection;
  has_message = has_message;
  has_write_complete = has_write_complete;
  tasks = [];
  heard = [];
}

abbrev pub hear : ConnectionState → TcpClient → TcpClient
hear state c = record c { heard = if c.has_connection then c.heard ++ state ∷ [] else c.heard }

abbrev pub callbacks_of : TcpClient → Callbacks
callbacks_of c = record {
  connection = false;
  message = c.has_message;
  close = true;
  write_complete = c.has_write_complete;
}

-- `newConnection`. The connector calls it once at most, so there is no connection before.
unfoldable pub new_connection : ℕ → TcpClient → Result TcpClient
new_connection cfd c = do
  conn ← TcpConnection.enable_read (TcpConnection.make cfd (callbacks_of c))
  ok (hear conn.state (record c { connection = some conn }))

-- What the connector does, and the call of `newConnection` that it makes.
abbrev pub with_connector : Connector → TcpClient → Result TcpClient
with_connector after c =
    if after.connected && not c.connector.connected
    then new_connection after.channel.fd (record c { connector = after })
    else ok (record c { connector = after })

-- `start`, with what `connect` and the socket answer.
unfoldable pub start : Option ℕ → ℕ → TcpClient → Result TcpClient
unfolding new_connection
start connect errno c = do after ← Connector.start connect errno c.connector; with_connector after c

-- The socket can be written, so that the attempt to connect has come to its end.
unfoldable pub handle_connect : ℕ → TcpClient → Result TcpClient
unfolding new_connection
handle_connect errno c = do after ← Connector.handle_write errno c.connector; with_connector after c

-- The task of `send`.
unfoldable pub send_in_loop : (List ℕ → WriteResult) → List ℕ → TcpClient → Result TcpClient
send_in_loop write message c = elim c.connection [
  | none ↦ err dangling
  | some conn ↦ do
    sent ← TcpConnection.send true write message conn
    ok (record c { connection = some sent })
]

-- `send`, in the loop's thread or in another.
unfoldable pub send : Bool → (List ℕ → WriteResult) → List ℕ → TcpClient → Result TcpClient
unfolding send_in_loop
send in_loop write message c =
    if in_loop
    then send_in_loop write message c
    else ok (record c { tasks = c.tasks ++ message ∷ [] })

abbrev pub is_there : Option TcpConnection → Bool
is_there none = false
is_there (some conn) = true

-- `closeConnection`, for a connection in this state.
unfoldable pub close_connection : ConnectionState → TcpClient → Result TcpClient
close_connection state c = do
  check (is_there c.connection)
  ok (hear state (record c { connection = none }))

-- The connection's `handleClose`, which ends in the client's.
unfoldable pub handle_close : TcpConnection → TcpClient → Result TcpClient
unfolding close_connection
handle_close conn c = do closed ← TcpConnection.handle_close conn; close_connection closed.state c

-- The tasks of the loop, one after the other.
unfoldable pub run_tasks : (List ℕ → WriteResult) → List (List ℕ) → TcpClient → Result TcpClient
unfolding send_in_loop
run_tasks write [] c = ok c
run_tasks write (message ∷ messages) c = do
  sent ← send_in_loop write message c
  run_tasks write messages sent
