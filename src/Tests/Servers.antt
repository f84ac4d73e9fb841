-- ===== src/Tests/Servers.antt =====
-- Examples of the theorems on the servers.
use mathlib.Core.Path.{subst}
use yvent.Word.{max_size}
use yvent.Prelude.{
  take, drop, take-append-drop, append-nil, ap, ◌∙◌, ◌*◌, ℕ, ◌+◌, ◌≤◌, ◌≡◌, ◌⊎◌, inr, refl, List,
  [], ◌∷◌, ◌++◌, true, false, Option, none, some, length, arith,
}
use yvent.Fault.{err, assertion, out_of_range, Returns}
use yvent.Text
use yvent.Text.{codes, equal}
use yvent.Buffer
use yvent.Buffer.{Buffer}
use yvent.Buffer.Contents.{Holds}
use yvent.Channel
use yvent.Channel.{Channel, added}
use yvent.TcpConnection
use yvent.TcpConnection.{TcpConnection, connected, disconnecting, disconnected, is_disconnected}
use yvent.TcpConnection.Ports.{IsLive, stream}
use yvent.Http.Request
use yvent.Http.Request.{HttpRequest, fresh, get}
use yvent.Http.Context.{initial}
use yvent.Http.Context.Written.{request_text}
use yvent.Http.Context.Headers.{crlf}
use yvent.Http.Context.RoundTrip.{meant}
use yvent.Http.Response
use yvent.Http.Response.{HttpResponse}
use yvent.Http.Server.{asks_close, Session, on_message, bad_request}
use yvent.Http.Server.Answers.{filling, response_text, response_to, state_after, on_message-answers}
use yvent.Http.Server.Chunks.{AllFull, Heard, receive, receive-answers}
use yvent.Http.Server.Refusals.{on_message_refuses_then_aborts}
use yvent.LoopThread
use yvent.LoopThread.{EventLoopThread}
use yvent.LoopThread.Handshake.{returned_loop_lem, star_loop_lost}
use yvent.Acceptor
use yvent.Poll
use yvent.ThreadPool
use yvent.InetAddr
use yvent.InetAddr.{InetAddr}
use yvent.Acceptor.{accepted}
use yvent.TcpServer
use yvent.TcpServer.{TcpServer, User, Connection, Reach, Step, connection_name}
use yvent.TcpServer.Reached.{live_connection_held}
use yvent.TcpServer.Forgotten.{LeavesOpen, closed_connection_forgotten}
use yvent.WebServer.{Stat, site, on_request, from_last, c_str}
use yvent.WebServer.Files.{on_request_throws}
use yvent.Tests.Parser.{
  holding, chosen, sent, sent-IsSendable, text, text-Holds, bad_line, bad_line-Holds,
  bad_line_later-Holds,
}
use yvent.Tests.Connections.{callbacks, write_one}

-- A connection that received these bytes.
abbrev pub asked : List ℕ → TcpConnection
asked bytes = record {
  state = connected;
  channel = record { fd = 5; events = 7; revents = 0; state = added };
  callbacks = callbacks;
  in_buffer = holding bytes;
  out_buffer = holding [];
  send_fd = none;
  file_size = 0;
  tasks = [];
  trace = [];
}

asked-text-IsLive : IsLive (asked text)
unfolding Channel.is_reading Channel.is_writing Request.method_string
asked-text-IsLive = record {
  open_state = refl;
  in_valid = omega arith;
  out_valid = omega arith;
  bits = omega arith;
  reading = refl;
  registered = refl;
  armed = λ h. cc;
}

-- A response with the path as its body.
abbrev echo : HttpRequest → HttpResponse → HttpResponse
echo req rsp = record rsp { status_code = 200; body = req.path }

abbrev session : Session
session = record { conn = asked text; context = initial }

answer_fits :
    length (Buffer.contents session.conn.out_buffer)
      + 2 * length (response_text (response_to write_one echo (meant sent)))
      + 8
    ≤ max_size
unfolding asks_close Request.get_header Response.make Text.find equal Text.assign
answer_fits = omega arith

answers_example :
    Returns
      (λ r.
        IsLive r.conn
        × (stream r.conn
            ≡ stream (asked text) ++ response_text (response_to write_one echo (meant sent)))
        × (r.conn.state ≡ state_after (response_to write_one echo (meant sent)).close_connection)
        × Holds (codes "GE") r.conn.in_buffer
        × (r.context ≡ initial))
      (on_message 3 write_one (some (filling echo)) session)
answers_example =
    on_message-answers write_one echo chosen sent (codes "GE") 3 session sent-IsSendable text-Holds
      (omega arith) asked-text-IsLive refl refl answer_fits

pub asked-IsLive : IsLive (asked [])
unfolding Channel.is_reading Channel.is_writing
asked-IsLive = record {
  open_state = refl;
  in_valid = omega arith;
  out_valid = omega arith;
  bits = omega arith;
  reading = refl;
  registered = refl;
  armed = λ h. cc;
}

-- The same request in two chunks.
abbrev whole : List ℕ
whole = request_text chosen sent []

abbrev silent : Session
silent = record { conn = asked []; context = initial }

whole-append : take 7 whole ++ (drop 7 whole ++ []) ≡ whole
whole-append = ap (λ t. take 7 whole ++ t) (append-nil (drop 7 whole)) ∙ take-append-drop 7 whole

whole_full : AllFull (take 7 whole ∷ drop 7 whole ∷ [])
unfolding Request.method_string
whole_full = (omega arith, (omega arith, tt))

whole_fits : 2 * length whole + 8 ≤ max_size
unfolding Request.method_string
whole_fits = omega arith

silent_fits :
    length (Buffer.contents silent.conn.out_buffer)
      + 2 * length (response_text (response_to write_one echo (meant sent)))
      + 8
    ≤ max_size
unfolding asks_close Request.get_header Response.make Text.find equal Text.assign
silent_fits = omega arith

receive-answers_example :
    Returns
      (Heard write_one echo silent.conn (meant sent))
      (receive write_one (some (filling echo)) silent (take 7 whole ∷ drop 7 whole ∷ []))
receive-answers_example =
    receive-answers write_one echo chosen sent (take 7 whole) (drop 7 whole ∷ []) silent
      sent-IsSendable whole-append whole_full (record { valid = omega arith; held = refl }) refl
      whole_fits asked-IsLive refl silent_fits

abbrev bad_bytes : List ℕ
bad_bytes = bad_line ++ crlf []

asked-bad-IsLive : IsLive (asked bad_bytes)
unfolding Channel.is_reading Channel.is_writing
asked-bad-IsLive = record {
  open_state = refl;
  in_valid = omega arith;
  out_valid = omega arith;
  bits = omega arith;
  reading = refl;
  registered = refl;
  armed = λ h. cc;
}

abbrev bad_session : Session
bad_session = record { conn = asked bad_bytes; context = initial }

aborts_example :
    Returns
      (λ r.
        (stream r.conn ≡ stream (asked bad_bytes) ++ bad_request)
        × (r.conn.state ≡ disconnecting)
        × Holds ((Request.method_string get ++ (b' ' ∷ b'/' ∷ [])) ++ crlf []) r.conn.in_buffer
        × (on_message 1 write_one none (record r {
          conn = record r.conn { in_buffer = holding (bad_line ++ crlf (b'X' ∷ [])) };
        })
            ≡ err assertion))
      (on_message 1 write_one none bad_session)
aborts_example =
    on_message_refuses_then_aborts write_one none get (b'/' ∷ []) [] (b'X' ∷ []) 0 0 bad_session
      (holding (bad_line ++ crlf (b'X' ∷ []))) refl refl refl bad_line-Holds bad_line_later-Holds
      asked-bad-IsLive refl refl (omega arith)

-- The caller has the loop of a thread that a callback has told to quit, and that has ended.
abbrev has_loop : EventLoopThread
has_loop = record {
  loop = none;
  start = true;
  quitting = true;
  caller = LoopThread.returned 40;
  worker = LoopThread.ended;
}

abbrev address : ℕ
address = 40

has_loop-Reach : LoopThread.Reach 40 has_loop
unfolding LoopThread.make LoopThread.star_loop LoopThread.publish LoopThread.test_loop
    LoopThread.notify_all LoopThread.quit_loop LoopThread.leave_loop
has_loop-Reach =
    LoopThread.step
      (LoopThread.told 40
        (LoopThread.step
          (LoopThread.step
            (LoopThread.step (LoopThread.step LoopThread.new (LoopThread.starts refl refl refl))
              (LoopThread.publishes refl))
            (LoopThread.tests refl))
          (LoopThread.notifies refl))
        refl refl)
      (LoopThread.ends refl refl)

returned_loop_example :
    (address ≡ 40)
    × ((has_loop.loop ≡ some 40)
        ⊎ ((has_loop.worker ≡ LoopThread.ended)
            × (has_loop.loop ≡ none)
            × (has_loop.quitting ≡ true)))
returned_loop_example = returned_loop_lem has_loop-Reach refl

star_loop_lost_example :
    LoopThread.Reach 40 (LoopThread.Handshake.stuck 40)
    × ((u : EventLoopThread) → ¬ LoopThread.Step 40 (LoopThread.Handshake.stuck 40) u)
star_loop_lost_example = star_loop_lost 40

-- A server with one loop that has one connection.
abbrev pub no_text : ℕ → List ℕ
no_text host = []

pub no_text_short : (host : ℕ) → length (no_text host) ≤ 15
no_text_short host = omega arith

abbrev user : User
user = record { connection = none; has_message = true }

abbrev pub listening : TcpServer
listening = record {
  next_conn_id = 0;
  acceptor = record { fd = 7; events = 3; revents = 0; state = added };
  threads = record {
    base_loop = 0;
    started = true;
    thread_num = 0;
    next_event_loop = 0;
    loops = [];
  };
  connections = λ name. none;
  objects = λ id. none;
  erasures = [];
}

abbrev pub peer : InetAddr
peer = InetAddr.make 80 true

abbrev unopened : Connection
unopened = record {
  name = connection_name no_text peer 0;
  peer = peer;
  loop = 0;
  conn = TcpConnection.make 9 (TcpServer.callbacks_of user);
}

abbrev opened : Connection
opened = record unopened {
  conn = record unopened.conn {
    state = connected;
    channel = record { fd = 9; events = 3; revents = 0; state = added };
    trace = TcpConnection.epoll_ctl Poll.ctl_add 3 ∷ [];
  };
}

abbrev serving : TcpServer
serving = record listening {
  next_conn_id = 1;
  connections = TcpServer.insert opened.name 0 (λ name. none);
  objects = TcpServer.store 0 opened (TcpServer.store 0 unopened (λ id. none));
}

serving-Reach : Reach no_text user serving
unfolding TcpServer.make TcpServer.start ThreadPool.make ThreadPool.start ThreadPool.set_thread_num
    Channel.make Channel.with_read Acceptor.listen Poll.update_channel TcpServer.handle_accept
    Acceptor.handle_read TcpServer.new_connection ThreadPool.get_next_event_loop TcpServer.enable
    TcpConnection.enable_read TcpConnection.update_events TcpConnection.make
serving-Reach =
    TcpServer.later {s = listening} (TcpServer.started 0 7 0 (λ i. i) refl)
      (TcpServer.accepts (accepted 9 peer) refl)

live_connection_held_example : serving.connections opened.name ≡ some 0
live_connection_held_example =
    live_connection_held no_text no_text_short 0 opened serving-Reach refl refl

user-LeavesOpen : LeavesOpen user
user-LeavesOpen c d e h = let q : c ≡ d = cc in subst (λ x. is_disconnected x.state ≡ false) q h

opened_known : serving.connections opened.name ≡ some 0
unfolding connection_name Text.decimal equal InetAddr.make
opened_known = refl

forgotten_example :
    (o : Connection) × (serving.objects 0 ≡ some o)
    × (o.name ≡ opened.name)
    × (is_disconnected o.conn.state ≡ false)
forgotten_example =
    closed_connection_forgotten no_text user no_text_short user-LeavesOpen opened.name 0
      serving-Reach refl opened_known

-- A directory in which every path names a file of twelve bytes.
abbrev stat_of : List ℕ → Option Stat
stat_of [] = none
stat_of (x ∷ path) = some (record { mode = 0x8000; size = 12 })

-- A path is opened as the length of the path.
abbrev open_of : List ℕ → Option ℕ
open_of path = some (length path)

abbrev response : HttpResponse
response = Response.make false

abbrev request_for : List ℕ → HttpRequest
request_for path = record fresh { path = path }

no_dot : from_last b'.' (codes "/a") ≡ none
unfolding from_last
no_dot = refl

a_file : stat_of (c_str (codes "a")) ≡ some (record { mode = 0x8000; size = 12 })
unfolding c_str
a_file = refl

throws_example :
    on_request site stat_of open_of (asked []) (request_for (codes "/a")) response
    ≡ err out_of_range
throws_example =
    on_request_throws site stat_of open_of (asked []) (request_for (codes "/a")) response
      (inr (record { mode = 0x8000; size = 12 }, (λ e. cc), no_dot, a_file, refl))
