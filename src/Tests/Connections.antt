-- ===== src/Tests/Connections.antt =====
-- Examples of the theorems on connections.
use yvent.Prelude.{ℕ, refl, List, [], ◌∷◌, true, none, arith}
use yvent.Fault.{Returns}
use yvent.Buffer.{Buffer}
use yvent.Buffer.Contents.{IsValid}
use yvent.Channel
use yvent.Channel.{Channel, added}
use yvent.TcpConnection
use yvent.TcpConnection.{
  TcpConnection, Callbacks, WriteResult, write_failed, taken, connected, disconnecting, epoll_ctl,
}
use yvent.TcpConnection.Ports.{IsLive}
use yvent.TcpConnection.Flow.{Given, send_in_loop-Given}
use yvent.TcpConnection.Drain.{handle_write-Given}
use yvent.TcpConnection.Life.{Closed, handle_close-Closed}

abbrev pub callbacks : Callbacks
callbacks = record { connection = true; message = true; close = true; write_complete = true }

-- Two bytes wait to be written, and the peer is to see the end of the stream behind them.
abbrev waiting_bytes : Buffer
waiting_bytes = record {
  buffer = 0 ∷ 0 ∷ 0 ∷ 0 ∷ 0 ∷ 0 ∷ 0 ∷ 0 ∷ 97 ∷ 98 ∷ [];
  reader_index = 8;
  writer_index = 10;
}

waiting_bytes-IsValid : IsValid waiting_bytes
waiting_bytes-IsValid = record {
  head_room = omega arith;
  ordered = omega arith;
  within = omega arith;
  bounded = omega arith;
}

abbrev waiting : TcpConnection
waiting = record {
  state = disconnecting;
  channel = record { fd = 5; events = 7; revents = 0; state = added };
  callbacks = callbacks;
  in_buffer = waiting_bytes;
  out_buffer = waiting_bytes;
  send_fd = none;
  file_size = 0;
  tasks = [];
  trace = [];
}

waiting-IsLive : IsLive waiting
unfolding Channel.is_reading Channel.is_writing
waiting-IsLive = record {
  open_state = refl;
  in_valid = waiting_bytes-IsValid;
  out_valid = waiting_bytes-IsValid;
  bits = omega arith;
  reading = refl;
  registered = refl;
  armed = λ h. cc;
}

-- A socket that takes one byte at a time.
abbrev pub write_one : List ℕ → WriteResult
write_one bytes = taken 1

send_in_loop_example :
    Returns (Given waiting (99 ∷ [])) (TcpConnection.send_in_loop write_one (99 ∷ []) waiting)
send_in_loop_example = send_in_loop-Given waiting write_one (99 ∷ []) waiting-IsLive (omega arith)

handle_write_example :
    Returns (Given waiting []) (TcpConnection.handle_write write_one none waiting)
handle_write_example = handle_write-Given waiting waiting-IsLive write_one none (omega arith)

handle_close_example : Returns (Closed waiting) (TcpConnection.handle_close waiting)
handle_close_example = handle_close-Closed waiting waiting-IsLive
