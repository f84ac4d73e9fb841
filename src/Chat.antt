-- ===== src/Chat.antt =====
-- example/chat/server.cpp: a server that hands each message on to all others who are online. Connections are
-- known by their addresses, by which a set of pointers is ordered; all are in the one loop of the server.
-- What is printed is left out.
pub mod Broadcast
pub mod Relay
pub mod Client
pub mod Talk
use yvent.Prelude.{ℕ, List, [], ◌∷◌, Bool, true, false, ltb, ◌==◌, if◌then◌else◌}
use yvent.Fault.{Result, ok, ◌>>=◌}
use yvent.Buffer.{Buffer}
use yvent.Codec
use yvent.TcpConnection
use yvent.TcpConnection.{TcpConnection, WriteResult, is_connected}

pub record ChatServer : Type 0 where
  pub connections : List ℕ
  pub objects : ℕ → TcpConnection

-- `insert` and `erase` of the set.
unfoldable pub insert : ℕ → List ℕ → List ℕ
insert c [] = c ∷ []
insert c (x ∷ xs) =
    let rest = insert c xs in if ltb c x then c ∷ x ∷ xs else if c == x then x ∷ xs else x ∷ rest

unfoldable pub erase : ℕ → List ℕ → List ℕ
erase c [] = []
erase c (x ∷ xs) = let rest = erase c xs in if c == x then rest else x ∷ rest

unfoldable pub on_connection : ℕ → ChatServer → ChatServer
unfolding insert erase
on_connection c s =
    if is_connected (s.objects c).state
    then record s { connections = insert c s.connections }
    else record s { connections = erase c s.connections }

abbrev pub store : ℕ → TcpConnection → (ℕ → TcpConnection) → ℕ → TcpConnection
store c conn objects = λ i. if i == c then conn else objects i

-- `conn->send(buffer)`, as the codec calls it.
abbrev pub conn_send : (List ℕ → WriteResult) → TcpConnection → Buffer → Result TcpConnection
conn_send write conn buffer = do sent ← TcpConnection.send_buffer true write buffer conn; ok sent.1

-- The loop of `onMessage`; `write` says what each socket answers.
unfoldable pub broadcast :
    (ℕ → List ℕ → WriteResult)
    → ℕ
    → List ℕ
    → List ℕ
    → (ℕ → TcpConnection)
    → Result (ℕ → TcpConnection)
broadcast write from message [] objects = ok objects
broadcast write from message (c ∷ cs) objects = elim (from == c) [
  | true ↦ broadcast write from message cs objects
  | false ↦ do
    sent ← Codec.send (conn_send (write c)) (objects c) message
    broadcast write from message cs (store c sent objects)
]

unfoldable pub on_message : (ℕ → List ℕ → WriteResult) → ℕ → List ℕ → ChatServer → Result ChatServer
unfolding broadcast
on_message write from message s = do
  objects ← broadcast write from message s.connections s.objects
  ok (record s { objects = objects })

-- The callback of the codec, `onMessage`, where the calls before it came back; and what the codec does with a
-- connection whose frames have a bad length.
abbrev pub told : (ℕ → List ℕ → WriteResult) → ℕ → Result ChatServer → List ℕ → Result ChatServer
told write from s message = do t ← s; on_message write from message t

abbrev pub stop : ℕ → Result ChatServer → Result ChatServer
stop from s = do
  t ← s
  ok (record t { objects = store from (TcpConnection.shutdown true (t.objects from)) t.objects })

-- The message callback of the server, which hands the buffer of a connection to the codec.
abbrev pub receive :
    (ℕ → List ℕ → WriteResult)
    → (from fuel : ℕ) → Result ChatServer
    → Buffer
    → Result (Result ChatServer × Buffer)
receive write from fuel s b = Codec.on_message (told write from) (stop from) fuel s b
