-- ===== src/TcpConnection/Life.antt =====
-- The beginning and the end of a connection.
use yvent.Prelude.{ℕ, ◌≡◌, refl, ap, ◌∙◌, List, [], ◌∷◌, ◌++◌, true, if◌then◌else◌, arith}
use yvent.Fault.{ok, err, assertion, Returns, returns}
use yvent.Buffer
use yvent.Buffer.{contents}
use yvent.Buffer.Contents.{make-Holds}
use yvent.Channel
use yvent.Channel.{
  Channel, ChannelState, new, added, deleted, is_writing, is_reading, with_read, without_all,
}
use yvent.Poll.{ctl_add, ctl_del, update_channel}
use yvent.TcpConnection.Ports.{on_wire, on_wire_quiet, stream, IsLive}
use yvent.TcpConnection.{
  TcpConnection, Effect, epoll_ctl, disconnected, Callbacks, called_connection, called_close, emit,
  emit_if, make, enable_read, handle_close, force_close_in_loop, update_events,
}

-- `enableRead` on a new connection comes back with a live connection that was given nothing to send.
pub enable_read-IsLive :
    (fd : ℕ) (callbacks : Callbacks)
    → Returns (λ c. IsLive c × (stream c ≡ [])) (enable_read (make fd callbacks))
unfolding enable_read make update_events update_channel with_read is_reading Channel.make
enable_read-IsLive fd callbacks = returns _ (
  record {
    open_state = refl;
    in_valid = (make-Holds Buffer.initial_size).valid;
    out_valid = (make-Holds Buffer.initial_size).valid;
    bits = omega arith;
    reading = refl;
    registered = refl;
    armed = λ h. (make-Holds Buffer.initial_size).held;
  },
  ap (λ t. t ++ contents (Buffer.make Buffer.initial_size))
        (on_wire_quiet callbacks.connection (epoll_ctl ctl_add 3 ∷ []) called_connection refl)
      ∙ (make-Holds Buffer.initial_size).held,
)

-- What `handleClose` leaves.
pub record Closed (c d : TcpConnection) : Type 0 where
  pub state : d.state ≡ disconnected
  pub removed : d.channel.state ≡ deleted
  pub silent : d.channel.events ≡ 0
  pub wire : on_wire d.trace ≡ on_wire c.trace
  pub once : handle_close d ≡ err assertion
  pub forced : force_close_in_loop d ≡ ok d

close_twice : (d : TcpConnection) → d.state ≡ disconnected → handle_close d ≡ err assertion
unfolding handle_close
close_twice d h = rw (h)

force_after : (d : TcpConnection) → d.state ≡ disconnected → force_close_in_loop d ≡ ok d
unfolding force_close_in_loop
force_after d h = rw (h)

update_none :
    (c : TcpConnection)
    → c.channel.state ≡ added
    → update_events (without_all c.channel) (record c { state = disconnected })
      ≡ ok (
          emit (epoll_ctl ctl_del 0) (record c {
            state = disconnected;
            channel = record (without_all c.channel) { state = deleted };
          }))
unfolding update_events update_channel without_all
update_none c h = rw (h)

-- `handleClose` on a live connection comes back: the connection is disconnected, its channel is removed
-- and asks for nothing, nothing was written to the socket, a second `handleClose` fails its assertion, and
-- `forceCloseInLoop` does nothing.
pub handle_close-Closed : (c : TcpConnection) → IsLive c → Returns (Closed c) (handle_close c)
unfolding handle_close without_all
handle_close-Closed c l =
    rw (l.open_state, update_none c l.registered)
      (returns _ (record {
        state = refl;
        removed = refl;
        silent = refl;
        wire =
            on_wire_quiet c.callbacks.close
              (if c.callbacks.connection
                then removed_trace ++ called_connection ∷ []
                else removed_trace)
              called_close refl
            ∙ on_wire_quiet c.callbacks.connection removed_trace called_connection refl
            ∙ on_wire_quiet true c.trace (epoll_ctl ctl_del 0) refl;
        once = close_twice closed_now refl;
        forced = force_after closed_now refl;
      }))
  where
    removed_trace : List Effect
    removed_trace = c.trace ++ epoll_ctl ctl_del 0 ∷ []

    closed_now : TcpConnection
    closed_now = emit_if c.callbacks.close called_close (
        emit_if c.callbacks.connection called_connection (
          emit (epoll_ctl ctl_del 0) (record c {
            state = disconnected;
            channel = record (without_all c.channel) { state = deleted };
          })))
