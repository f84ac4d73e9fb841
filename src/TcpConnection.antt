-- ===== src/TcpConnection.antt =====
-- yvent/TcpConnection.h and yvent/TcpConnection.cpp: one connection, as its loop's thread drives it,
-- and the tasks that other threads leave for that thread.
-- What a call does to the outside is recorded in `trace`, in order: bytes written to the socket or sent
-- from the file, `epoll_ctl`, `::shutdown`, the close of the file, and the calls of callbacks. A callback
-- may call the connection again; such a call is an operation of its own, made where the trace shows it.
-- System calls are arguments that say what they answer. Logging and names are left out.
pub mod Ports
pub mod Flow
pub mod Sends
pub mod Drain
pub mod Life
use yvent.Prelude.{
  ℕ, zero, suc, ◌+◌, ◌-◌, List, [], ◌∷◌, ◌++◌, Bool, true, false, not, ◌&&◌, ◌||◌, ltb, ◌==◌,
  if◌then◌else◌, Option, none, some, length, drop, take,
}
use yvent.Fault.{Result, ok, err, ◌>>=◌, ◌>>◌, check}
use yvent.Word.{sub_size}
use yvent.Buffer
use yvent.Buffer.{Buffer, readable_bytes, ReadResult, failed, received, contents, slice}
use yvent.Channel
use yvent.Channel.{Channel, is_writing, with_read, with_write, without_write, without_all}
use yvent.Poll.{Op, update_channel}

pub data ConnectionState : Type 0 where
  connecting connected disconnecting disconnected : ConnectionState

-- Which callbacks are set.
pub record Callbacks : Type 0 where
  pub connection : Bool
  pub message : Bool
  pub close : Bool
  pub write_complete : Bool

pub data Effect : Type 0 where
  wrote : List ℕ → Effect
  sent_file : ℕ → Effect
  epoll_ctl : Op → ℕ → Effect
  shut_down_writing : Effect
  closed_file : Effect
  called_connection called_message called_close called_write_complete : Effect

pub data Task : Type 0 where
  send_task : List ℕ → Task
  shutdown_task force_close_task : Task

pub record TcpConnection : Type 0 where
  pub state : ConnectionState
  pub channel : Channel
  pub callbacks : Callbacks
  pub in_buffer : Buffer
  pub out_buffer : Buffer
  -- `sendFd_`, or none for -1.
  pub send_fd : Option ℕ
  -- `sbuf_.st_size`, a signed 64-bit number, as its two's complement.
  pub file_size : ℕ
  pub tasks : List Task
  pub trace : List Effect

abbrev pub is_connecting : ConnectionState → Bool
is_connecting connecting = true
is_connecting _ = false

abbrev pub is_connected : ConnectionState → Bool
is_connected connected = true
is_connected _ = false

abbrev pub is_disconnecting : ConnectionState → Bool
is_disconnecting disconnecting = true
is_disconnecting _ = false

abbrev pub is_disconnected : ConnectionState → Bool
is_disconnected disconnected = true
is_disconnected _ = false

-- The constructor.
unfoldable pub make : ℕ → Callbacks → TcpConnection
make fd callbacks = record {
  state = connecting;
  channel = Channel.make fd;
  callbacks = callbacks;
  in_buffer = Buffer.make Buffer.initial_size;
  out_buffer = Buffer.make Buffer.initial_size;
  send_fd = none;
  file_size = 0;
  tasks = [];
  trace = [];
}

abbrev pub emit : Effect → TcpConnection → TcpConnection
emit e c = record c { trace = c.trace ++ e ∷ [] }

abbrev pub emit_if : Bool → Effect → TcpConnection → TcpConnection
emit_if b e c = record c { trace = if b then c.trace ++ e ∷ [] else c.trace }

-- New events for the channel, handed on through `Channel::update` to `Poll::updateChannel`.
unfoldable pub update_events : Channel → TcpConnection → Result TcpConnection
update_events ch c = do
  r ← update_channel ch
  ok (emit (epoll_ctl r.1 r.0.events) (record c { channel = r.0 }))

-- `enableRead`.
unfoldable pub enable_read : TcpConnection → Result TcpConnection
enable_read c = do
  check (is_connecting c.state)
  d ← update_events (with_read c.channel) (record c { state = connected })
  ok (emit_if d.callbacks.connection called_connection d)

unfoldable pub handle_close : TcpConnection → Result TcpConnection
handle_close c = do
  check (is_connected c.state || is_disconnecting c.state)
  d ← update_events (without_all c.channel) (record c { state = disconnected })
  ok (emit_if d.callbacks.close called_close (emit_if d.callbacks.connection called_connection d))

unfoldable pub received_from : ReadResult → TcpConnection → Result TcpConnection
received_from (failed e) c = ok c
received_from (received []) c = handle_close c
received_from (received (x ∷ bytes)) c = ok (emit_if c.callbacks.message called_message c)

-- `handleRead`. A read of no bytes is the end of the stream.
unfoldable pub handle_read : (ℕ → ReadResult) → TcpConnection → Result TcpConnection
handle_read readv c = do
  r ← Buffer.read_fd readv c.in_buffer
  received_from r.0 (record c { in_buffer = r.1 })

-- What `::write` answers: -1 with an errno, or how many of the bytes it took.
pub data WriteResult : Type 0 where
  write_failed : ℕ → WriteResult
  taken : ℕ → WriteResult

-- `n` of `sendInLoop`: what was written directly.
abbrev pub direct_count : WriteResult → ℕ
direct_count (write_failed e) = 0
direct_count (taken n) = n

abbrev pub is_taken : WriteResult → Bool
is_taken (write_failed e) = false
is_taken (taken n) = true

abbrev pub is_empty : List ℕ → Bool
is_empty [] = true
is_empty (x ∷ xs) = false

abbrev pub wrote_if : List ℕ → TcpConnection → TcpConnection
wrote_if bytes c = emit_if (not (is_empty bytes)) (wrote bytes) c

-- The direct write, if nothing waits to be written: how many bytes went, and the connection after it.
unfoldable pub write_directly : (List ℕ → WriteResult) → List ℕ → TcpConnection → ℕ × TcpConnection
write_directly write bytes c =
    if not (is_writing c.channel) && readable_bytes c.out_buffer == 0
    then (let r = write bytes in
        let n = direct_count r in
        (
          n,
          emit_if (is_taken r && not (ltb n (length bytes)) && c.callbacks.write_complete)
              called_write_complete (wrote_if (take n bytes) c),
        ))
    else (0, c)

-- What was not written is kept, and the channel waits until it can be.
unfoldable pub keep_rest : ℕ → List ℕ → TcpConnection → Result TcpConnection
keep_rest n bytes c =
    if ltb n (length bytes) || not (c.file_size == 0)
    then (do
      out ← Buffer.append c.out_buffer (drop n bytes)
      if is_writing c.channel
          then ok (record c { out_buffer = out })
          else update_events (with_write c.channel) (record c { out_buffer = out }))
    else ok c

unfoldable pub send_in_loop : (List ℕ → WriteResult) → List ℕ → TcpConnection → Result TcpConnection
send_in_loop write bytes c =
    if is_disconnected c.state
    then ok c
    else (let r = write_directly write bytes c in keep_rest r.0 bytes r.1)

unfoldable pub shutdown_in_loop : TcpConnection → TcpConnection
shutdown_in_loop c = emit_if (not (is_writing c.channel)) shut_down_writing c

-- The part of `handleWrite` behind a drained buffer: no more waiting for EPOLLOUT, and the shutdown that
-- was put off.
unfoldable pub stop_writing : TcpConnection → Result TcpConnection
unfolding shutdown_in_loop
stop_writing c = do
  d ← update_events (without_write c.channel) c
  ok (if is_disconnecting d.state then shutdown_in_loop d else d)

unfoldable pub written_out : WriteResult → TcpConnection → Result TcpConnection
written_out (write_failed e) c = ok c
written_out (taken n) c = do
  out ← Buffer.retrieve c.out_buffer n
  let d = wrote_if (take n (contents c.out_buffer)) (record c { out_buffer = out })
  if readable_bytes out == 0 && c.file_size == 0
      then (do e ← stop_writing d; ok (emit_if e.callbacks.write_complete called_write_complete e))
      else ok d

-- What `::sendfile` answers: -1, or how many bytes of the file went.
unfoldable pub file_sent : Option ℕ → TcpConnection → Result TcpConnection
file_sent none c = ok c
file_sent (some n) c =
    let left = sub_size c.file_size n in
    let d = emit (sent_file n) (record c { file_size = left }) in
    if left == 0 then (do e ← stop_writing d; ok (emit closed_file e)) else ok d

unfoldable pub handle_write :
    (List ℕ → WriteResult) → Option ℕ → TcpConnection → Result TcpConnection
handle_write write sendfile c =
    if is_writing c.channel
    then (if not (readable_bytes c.out_buffer == 0)
        then written_out (write (contents c.out_buffer)) c
        else if not (c.file_size == 0)
        then file_sent sendfile c
        else ok c)
    else ok c

unfoldable pub set_send_fd : Option ℕ → ℕ → TcpConnection → TcpConnection
set_send_fd fd size c = record c { send_fd = fd; file_size = size }

abbrev pub post : Task → TcpConnection → TcpConnection
post t c = record c { tasks = c.tasks ++ t ∷ [] }

-- `send`, in the loop's thread or in another.
unfoldable pub send : Bool → (List ℕ → WriteResult) → List ℕ → TcpConnection → Result TcpConnection
send in_loop write bytes c =
    if not (is_connected c.state)
    then ok c
    else if in_loop
    then send_in_loop write bytes c
    else ok (post (send_task bytes) c)

-- `send` of a buffer, which is empty afterwards.
unfoldable pub send_buffer :
    Bool → (List ℕ → WriteResult) → Buffer → TcpConnection → Result (Buffer × TcpConnection)
send_buffer in_loop write b c =
    if not (is_connected c.state)
    then ok (b, c)
    else if in_loop
    then (do
      d ← send_in_loop write (slice b.reader_index (readable_bytes b) b.buffer) c
      ok (Buffer.retrieve_all b, d))
    else (do r ← Buffer.retrieve_all_as_string b; ok (r.1, post (send_task r.0) c))

unfoldable pub shutdown : Bool → TcpConnection → TcpConnection
unfolding shutdown_in_loop
shutdown in_loop c =
    if is_connected c.state
    then (let d = record c { state = disconnecting } in
        if in_loop then shutdown_in_loop d else post shutdown_task d)
    else c

unfoldable pub force_close_in_loop : TcpConnection → Result TcpConnection
force_close_in_loop c = if not (is_disconnected c.state) then handle_close c else ok c

unfoldable pub force_close : Bool → TcpConnection → Result TcpConnection
force_close in_loop c =
    if not (is_disconnected c.state)
    then (if in_loop then force_close_in_loop c else ok (post force_close_task c))
    else ok c

-- A task that another thread posted, run by the loop.
unfoldable pub run_task : (List ℕ → WriteResult) → Task → TcpConnection → Result TcpConnection
run_task write (send_task bytes) c = send_in_loop write bytes c
run_task write shutdown_task c = ok (shutdown_in_loop c)
run_task write force_close_task c = force_close_in_loop c
