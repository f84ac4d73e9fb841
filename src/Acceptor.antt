-- ===== src/Acceptor.antt =====
-- yvent/Acceptor.h and yvent/Acceptor.cpp: the socket that a server listens at. What `accept4` answers is an
-- argument; the addresses and options of the socket and the checks of the calling thread are left out. A
-- fatal message aborts the process.
use yvent.Prelude.{ℕ, Bool, ◌||◌, ◌==◌, if◌then◌else◌}
use yvent.Fault.{Result, ok, err, fatal, ◌>>=◌}
use yvent.Channel.{Channel, with_read}
use yvent.InetAddr.{InetAddr}
use yvent.Poll.{update_channel}

-- What `accept4` answers: -1 with an errno, or the descriptor and the address.
pub data Accepted : Type 0 where
  accept_failed : ℕ → Accepted
  accepted : ℕ → InetAddr → Accepted

-- What `handleRead` does with it.
pub data Outcome : Type 0 where
  ignored : Outcome
  closed : ℕ → Outcome
  handed_on : ℕ → InetAddr → Outcome

abbrev pub econnaborted : ℕ
econnaborted = 103

abbrev pub emfile : ℕ
emfile = 24

-- `listen`, for the channel of the socket.
unfoldable pub listen : Channel → Result Channel
listen c = do r ← update_channel (with_read c); ok r.0

-- `handleRead`, with whether the callback is set.
unfoldable pub handle_read : Bool → Accepted → Result Outcome
handle_read has_callback (accept_failed e) =
    if e == econnaborted || e == emfile then ok ignored else err fatal
handle_read has_callback (accepted cfd peer) =
    ok (if has_callback then handed_on cfd peer else closed cfd)
