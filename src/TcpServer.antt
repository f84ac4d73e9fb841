-- ===== src/TcpServer.antt =====
-- yvent/TcpServer.h and yvent/TcpServer.cpp: the connections of a server, from the accept to the close. A
-- connection is known by the number that `nextConnId_` has when it is made; `objects` are all connections
-- ever made, `connections` is the map from names, `erasures` are the tasks `handleCloseInLoop` that other
-- loops left for the base loop. The map and the objects are functions, since nothing runs over them.
-- `text_of` is `inet_ntop`, and the user's connection callback is a parameter: it may use the connection.
-- The checks of the calling thread are left out.
pub mod Names
pub mod Objects
pub mod Held
pub mod Reached
pub mod Entries
pub mod Forgotten
pub mod Stuck
pub mod Early
use yvent.Prelude.{
  ℕ, ◌+◌, ◌-◌, ◌^◌, ◌≡◌, List, [], ◌∷◌, ◌++◌, Bool, true, false, ltb, ◌==◌, if◌then◌else◌, Option,
  none, some, take,
}
use yvent.Fault.{Result, ok, ◌>>=◌, ◌>>◌, check}
use yvent.Text.{decimal, equal}
use yvent.Channel
use yvent.Channel.{Channel}
use yvent.TcpConnection
use yvent.TcpConnection.{TcpConnection, Callbacks, is_connecting, is_disconnected}
use yvent.ThreadPool
use yvent.ThreadPool.{EventLoopThreadPool, get_next_event_loop}
use yvent.Acceptor
use yvent.InetAddr.{InetAddr, port, ip}
use yvent.Acceptor.{Accepted, Outcome, ignored, closed, handed_on}

-- What a connection has besides its own state.
pub record Connection : Type 0 where
  pub name : List ℕ
  pub peer : InetAddr
  pub loop : ℕ
  pub conn : TcpConnection

pub record TcpServer : Type 0 where
  pub next_conn_id : ℕ
  pub acceptor : Channel
  pub threads : EventLoopThreadPool
  pub connections : List ℕ → Option ℕ
  pub objects : ℕ → Option Connection
  pub erasures : List (List ℕ)

-- The constructor, for the loop and the listening socket.
unfoldable pub make : ℕ → ℕ → TcpServer
make base_loop lfd = record {
  next_conn_id = 0;
  acceptor = Channel.make lfd;
  threads = ThreadPool.make base_loop;
  connections = λ name. none;
  objects = λ id. none;
  erasures = [];
}

-- `start`; `new_loop` says which loops the threads bring.
unfoldable pub start : (ℕ → ℕ) → TcpServer → Result TcpServer
start new_loop s = do
  threads ← ThreadPool.start new_loop s.threads
  acceptor ← Acceptor.listen s.acceptor
  ok (record s { threads = threads; acceptor = acceptor })

-- `connections_[name] = conn` and `connections_.erase(name)`.
abbrev pub insert : List ℕ → ℕ → (List ℕ → Option ℕ) → List ℕ → Option ℕ
insert name id m = λ n. if equal n name then some id else m n

abbrev pub erase : List ℕ → (List ℕ → Option ℕ) → List ℕ → Option ℕ
erase name m = λ n. if equal n name then none else m n

abbrev pub store : ℕ → Connection → (ℕ → Option Connection) → ℕ → Option Connection
store id o m = λ i. if i == id then some o else m i

-- A new state of a connection.
abbrev pub update : ℕ → Connection → TcpConnection → TcpServer → TcpServer
update id o conn s = record s { objects = store id (record o { conn = conn }) s.objects }

-- `namebuf`, with its 128 bytes.
unfoldable pub connection_name : (ℕ → List ℕ) → InetAddr → ℕ → List ℕ
unfolding port ip
connection_name text_of peer id =
    take 127 ((ip text_of peer ++ b':' ∷ decimal (port peer)) ++ b'#' ∷ decimal id)

unfoldable pub handle_close_in_loop : List ℕ → TcpServer → TcpServer
handle_close_in_loop name s = record s { connections = erase name s.connections }

-- `handleClose`, in the base loop or in another.
unfoldable pub handle_close : Bool → List ℕ → TcpServer → TcpServer
unfolding handle_close_in_loop
handle_close in_loop name s =
    if in_loop then handle_close_in_loop name s else record s { erasures = s.erasures ++ name ∷ [] }

abbrev pub in_base : TcpServer → Connection → Bool
in_base s o = o.loop == s.threads.base_loop

-- The connection's own `handleClose`, which ends in the server's.
unfoldable pub close_connection : ℕ → Connection → TcpServer → Result TcpServer
unfolding handle_close
close_connection id o s = do
  conn ← TcpConnection.handle_close o.conn
  ok (handle_close (in_base s o) o.name (update id o conn s))

-- What the user set: the callbacks for a connection and for what it receives.
pub record User : Type 0 where
  pub connection : Option (TcpConnection → Result TcpConnection)
  pub has_message : Bool

abbrev pub is_set {ℓ} : {A : Type ℓ} → Option A → Bool
is_set none = false
is_set (some a) = true

abbrev pub callbacks_of : User → Callbacks
callbacks_of u = record {
  connection = is_set u.connection;
  message = u.has_message;
  close = true;
  write_complete = false;
}

abbrev pub call :
    Option (TcpConnection → Result TcpConnection) → TcpConnection → Result TcpConnection
call none conn = ok conn
call (some callback) conn = callback conn

-- The task of `newConnection`: `enableRead`, which calls the connection callback. A callback that closes
-- the connection has the server told.
unfoldable pub enable : User → ℕ → Connection → TcpServer → Result TcpServer
unfolding handle_close
enable user id o s = do
  opened ← TcpConnection.enable_read o.conn
  conn ← call user.connection opened
  let t = update id o conn s
  ok (if is_disconnected conn.state then handle_close (in_base s o) o.name t else t)

-- `newConnection`. The number is an `int`; its overflow, which is undefined, is a failed assertion here.
-- The task for another loop is there as long as the connection is `connecting`.
unfoldable pub new_connection : (ℕ → List ℕ) → User → ℕ → InetAddr → TcpServer → Result TcpServer
new_connection text_of user cfd peer s = do
  let id = s.next_conn_id
  check (ltb id (2 ^ 31 - 1))
  let name = connection_name text_of peer id
  chosen ← get_next_event_loop s.threads
  let o : Connection = record {
    name = name;
    peer = peer;
    loop = chosen.0;
    conn = TcpConnection.make cfd (callbacks_of user);
  }
  let made = record s { next_conn_id = id + 1; threads = chosen.1; objects = store id o s.objects }
  told ← (if in_base made o then enable user id o made else ok made)
  ok (record told { connections = insert name id told.connections })

-- What the acceptor hands on.
unfoldable pub handle_accept : (ℕ → List ℕ) → User → Accepted → TcpServer → Result TcpServer
handle_accept text_of user answer s = do
  outcome ← Acceptor.handle_read true answer
  elim outcome [
    | ignored ↦ ok s
    | closed cfd ↦ ok s
    | handed_on cfd peer ↦ new_connection text_of user cfd peer s
  ]

-- One step: an event at the acceptor, the task of a connection in its loop, a close, any other operation
-- of a connection, or a task of the base loop.
pub data Step (text_of : ℕ → List ℕ) (user : User) (s : TcpServer) : TcpServer → Type 0 where
  accepts :
      {t : TcpServer} (answer : Accepted)
      → handle_accept text_of user answer s ≡ ok t
      → Step text_of user s t
  enables :
      {t : TcpServer} (id : ℕ) (o : Connection)
      → s.objects id ≡ some o
      → enable user id o s ≡ ok t
      → Step text_of user s t
  closes :
      {t : TcpServer} (id : ℕ) (o : Connection)
      → s.objects id ≡ some o
      → close_connection id o s ≡ ok t
      → Step text_of user s t
  works :
      (id : ℕ) (o : Connection) (conn : TcpConnection)
      → s.objects id ≡ some o
      → is_disconnected conn.state ≡ is_disconnected o.conn.state
      → Step text_of user s (update id o conn s)
  erases :
      (name : List ℕ) (rest : List (List ℕ))
      → s.erasures ≡ name ∷ rest
      → Step text_of user s (handle_close_in_loop name (record s { erasures = rest }))

-- What can be reached from a server that was started.
pub data Reach (text_of : ℕ → List ℕ) (user : User) : TcpServer → Type 0 where
  started :
      {t : TcpServer} (base_loop lfd thread_num : ℕ) (new_loop : ℕ → ℕ)
      → (let s = make base_loop lfd in
          start new_loop (record s { threads = ThreadPool.set_thread_num thread_num s.threads }))
        ≡ ok t
      → Reach text_of user t
  later : {s t : TcpServer} → Reach text_of user s → Step text_of user s t → Reach text_of user t
