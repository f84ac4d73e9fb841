-- ===== src/Tests/Clients.antt =====
-- Examples of the theorems on clients, and on a server that closes a connection at once.
use yvent.Prelude.{
  at_head, further, length, ℕ, ◌≡◌, refl, List, [], ◌∷◌, ◌++◌, true, none, some, arith, concat,
  if◌then◌else◌,
}
use yvent.Fault.{ok, err, dangling, Returns, ◌>>=◌}
use yvent.Text.{codes}
use yvent.Channel
use yvent.Channel.{deleted, added}
use yvent.Poll
use yvent.ThreadPool
use yvent.Acceptor
use yvent.TcpConnection
use yvent.TcpConnection.{TcpConnection, WriteResult, disconnected}
use yvent.TcpConnection.Ports.{stream}
use yvent.Connector.{in_progress}
use yvent.TcpClient
use yvent.TcpClient.{TcpClient, handle_connect, run_tasks}
use yvent.TcpClient.Messages.{IsOnline, run_tasks-sends, send_closed_lem}
use yvent.TcpServer
use yvent.TcpServer.{TcpServer, User, Connection, Reach, connection_name, new_connection}
use yvent.TcpServer.Objects.{IsGone, handle_close_state}
use yvent.TcpServer.Stuck.{done}
use yvent.TcpServer.Early.{closed_early_stays}
use yvent.Chat.{ChatServer, told, stop}
use yvent.Buffer
use yvent.Buffer.Contents.{Holds, make-Holds}
use yvent.Codec.Frames.{frames}
use yvent.Codec.Stream.{feed}
use yvent.Chat.Client
use yvent.Chat.Client.{ChatClient, send_all, loop_runs, on_message}
use yvent.Chat.Talk.{conversation}
use yvent.Chat.Relay.{HasRoom, IsRelayed, feed-IsRelayed}
use yvent.Tests.Connections.{write_one}
use yvent.Tests.Wire.{nothing-IsPartial}
use yvent.Tests.Servers.{asked, asked-IsLive, no_text, no_text_short, peer, listening}

run_tasks-sends_example : Returns (IsOnline (concat (codes "a" ∷ codes "b" ∷ []))) (
    TcpClient.start (some in_progress) 0 (TcpClient.make 5 true true true true)
    >>= handle_connect 0
    >>= run_tasks write_one (codes "a" ∷ codes "b" ∷ []))
run_tasks-sends_example =
    run_tasks-sends 5 0 true true true true write_one (codes "a" ∷ codes "b" ∷ []) (omega arith)

abbrev client : TcpClient
client = record (TcpClient.make 5 true true true true) { connection = some (asked []) }

client-IsOnline : IsOnline [] client
unfolding TcpClient.make
client-IsOnline = record {
  conn = asked [];
  there = refl;
  live = asked-IsLive;
  open_state = refl;
  given = refl;
}

send_closed_example :
    Returns
      (λ d.
        (d.connection ≡ none)
        × (d.heard
            ≡ (if client.has_connection then client.heard ++ disconnected ∷ [] else client.heard))
        × ((write : List ℕ → WriteResult) (message : List ℕ) (messages : List (List ℕ))
            → run_tasks write (message ∷ messages) d ≡ err dangling))
      (TcpClient.handle_close client-IsOnline.conn client)
send_closed_example = send_closed_lem client [] client-IsOnline

abbrev closer : User
closer = record { connection = some TcpConnection.handle_close; has_message = true }

abbrev unopened : Connection
unopened = record {
  name = connection_name no_text peer 0;
  peer = peer;
  loop = 0;
  conn = TcpConnection.make 9 (TcpServer.callbacks_of closer);
}

abbrev refused : Connection
refused = record unopened {
  conn = record unopened.conn {
    state = disconnected;
    channel = record { fd = 9; events = 0; revents = 0; state = deleted };
    trace =
        TcpConnection.epoll_ctl Poll.ctl_add 3
        ∷ TcpConnection.called_connection
        ∷ TcpConnection.epoll_ctl Poll.ctl_del 0
        ∷ TcpConnection.called_connection
        ∷ TcpConnection.called_close
        ∷ [];
  };
}

abbrev leaking : TcpServer
leaking = record listening {
  next_conn_id = 1;
  connections = TcpServer.insert refused.name 0 (TcpServer.erase refused.name (λ name. none));
  objects = TcpServer.store 0 refused (TcpServer.store 0 unopened (λ id. none));
}

listening-Reach : Reach no_text closer listening
unfolding TcpServer.make TcpServer.start ThreadPool.make ThreadPool.start ThreadPool.set_thread_num
    Channel.make Channel.with_read Acceptor.listen Poll.update_channel
listening-Reach = TcpServer.started 0 7 0 (λ i. i) refl

leaks : new_connection no_text closer 9 peer listening ≡ ok leaking
unfolding new_connection ThreadPool.get_next_event_loop TcpServer.enable TcpConnection.enable_read
    TcpConnection.update_events TcpConnection.make Channel.make Channel.with_read
    Poll.update_channel TcpConnection.handle_close Channel.without_all TcpServer.handle_close
    TcpServer.handle_close_in_loop
leaks = refl

closed_early_example :
    (leaking.connections (connection_name no_text peer 0) ≡ some 0)
    × IsGone leaking.objects (connection_name no_text peer 0)
closed_early_example =
    closed_early_stays no_text closer 9 peer no_text_short (λ c d h. handle_close_state c h)
      listening-Reach refl leaks done

-- Two who are online, of whom the first sends.
abbrev chat : ChatServer
chat = record { connections = 1 ∷ 2 ∷ []; objects = λ c. asked [] }

abbrev room : HasRoom (length (frames (codes "hi" ∷ []))) (asked [])
room = record { live = asked-IsLive; open_state = refl; room = omega arith }

-- The frame of the message, in two chunks.
abbrev halves : List (List ℕ)
halves = (0 ∷ 0 ∷ []) ∷ (0 ∷ 2 ∷ codes "hi") ∷ []

feed-IsRelayed_example :
    Returns
      (λ r.
        Holds [] r.1
        × Returns
            (λ t.
              (t.connections ≡ chat.connections)
              × IsRelayed 1 (codes "hi" ∷ []) chat.connections chat.objects t.objects)
            r.0)
      (feed (told (λ c. write_one) 1) (stop 1) 2 (ok chat) (Buffer.make 16) halves)
feed-IsRelayed_example =
    feed-IsRelayed (λ c. write_one) 1 2 halves (Buffer.make 16) (codes "hi" ∷ []) [] [] chat
      (make-Holds 16) nothing-IsPartial refl (omega arith, (omega arith, tt)) (omega arith, tt)
      nothing-IsPartial (omega arith) ((omega arith, tt), (tt, tt)) (room, (room, tt))

abbrev chatter : ChatClient
chatter = record { connection = some (asked []); printed = [] }

conversation_example :
    Returns
      (λ c.
        (now : TcpConnection) × (c.connection ≡ some now) × (stream now ≡ frames (codes "hi" ∷ [])))
      (send_all write_one (codes "hi" ∷ []) chatter >>= loop_runs write_one)
    × Returns
        (λ r. Returns (λ t. stream (t.objects 2) ≡ frames (codes "hi" ∷ [])) r.0)
        (feed (told (λ c. write_one) 1) (stop 1) 2 (ok chat) (Buffer.make 16) halves)
    × Returns
        (λ r. r.0.printed ≡ [] ++ codes "hi" ∷ [])
        (feed on_message Client.stop 2 chatter (Buffer.make 16) halves)
conversation_example =
    conversation write_one (λ c. write_one) 1 2 2 (codes "hi" ∷ []) halves halves chatter chatter
      (asked []) chat (Buffer.make 16) (Buffer.make 16) refl refl refl room (omega arith, tt)
      (omega arith) ((omega arith, tt), (tt, tt)) (room, (room, tt)) (further (at_head refl))
      (λ e. omega arith) refl (make-Holds 16) (omega arith, (omega arith, tt)) refl (make-Holds 16)
      (omega arith, (omega arith, tt)) refl
