-- ===== src/Chat/Client.antt =====
-- example/chat/client.cpp: the client of the chat. `send` is called in the thread of `main`, the others in
-- that of the loop. `connection` is the pointer to
-- the connection, a null pointer before it is there and behind its end; `printed` are the messages that
-- were shown.
use yvent.Prelude.{ℕ, false, true, List, [], ◌∷◌, ◌++◌, Option, none, some, if◌then◌else◌}
use yvent.Fault.{Result, ok, err, dangling, ◌>>=◌}
use yvent.Buffer.{Buffer}
use yvent.Codec
use yvent.TcpConnection
use yvent.TcpConnection.{TcpConnection, Task, WriteResult, is_connected, shutdown}

pub record ChatClient : Type 0 where
  pub connection : Option TcpConnection
  pub printed : List (List ℕ)

-- `conn->send(buffer)` in the thread of `main`, which leaves a task for the loop.
abbrev pub conn_send : (List ℕ → WriteResult) → TcpConnection → Buffer → Result TcpConnection
conn_send write conn b = do sent ← TcpConnection.send_buffer false write b conn; ok sent.1

unfoldable pub send : (List ℕ → WriteResult) → List ℕ → ChatClient → Result ChatClient
send write message c = elim c.connection [
  | none ↦ err dangling
  | some conn ↦ do
    sent ← Codec.send (conn_send write) conn message
    ok (record c { connection = some sent })
]

unfoldable pub on_connection : TcpConnection → ChatClient → ChatClient
on_connection conn c = record c { connection = if is_connected conn.state then some conn else none }

unfoldable pub on_message : ChatClient → List ℕ → ChatClient
on_message c message = record c { printed = c.printed ++ message ∷ [] }

abbrev pub stop_option : Option TcpConnection → Option TcpConnection
unfolding shutdown
stop_option none = none
stop_option (some conn) = some (shutdown true conn)

abbrev pub stop : ChatClient → ChatClient
stop c = record c { connection = stop_option c.connection }

-- The message callback of the client.
unfoldable pub receive : ℕ → ChatClient → Buffer → Result (ChatClient × Buffer)
unfolding Codec.on_message on_message
receive fuel c b = Codec.on_message on_message stop fuel c b

-- The lines that `main` reads.
unfoldable pub send_all : (List ℕ → WriteResult) → List (List ℕ) → ChatClient → Result ChatClient
unfolding send
send_all write [] c = ok c
send_all write (line ∷ lines) c = do d ← send write line c; send_all write lines d

-- The loop, as it runs the tasks of a connection.
unfoldable pub run_tasks : (List ℕ → WriteResult) → List Task → TcpConnection → Result TcpConnection
unfolding TcpConnection.run_task
run_tasks write [] conn = ok conn
run_tasks write (task ∷ tasks) conn = do
  done ← TcpConnection.run_task write task conn
  run_tasks write tasks done

abbrev pub with_connection : TcpConnection → ChatClient → ChatClient
with_connection conn c = record c { connection = some conn }

unfoldable pub loop_runs : (List ℕ → WriteResult) → ChatClient → Result ChatClient
unfolding run_tasks
loop_runs write c = elim c.connection [
  | none ↦ ok c
  | some conn ↦ do
    done ← run_tasks write conn.tasks (record conn { tasks = [] })
    ok (with_connection done c)
]
