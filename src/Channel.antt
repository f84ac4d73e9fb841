-- ===== src/Channel.antt =====
-- yvent/Channel.h and yvent/Channel.cpp: a descriptor, the events that it waits for, and the order in
-- which the events that came are handled. Event sets are the bit masks of <sys/epoll.h>.
pub mod Bits
use Prim.Native.Nat.{bit_and, bit_or}
use yvent.Prelude.{
  ℕ, ◌-◌, ◌^◌, Bool, true, false, not, ◌&&◌, ◌==◌, if◌then◌else◌, Option, none, some,
}
use yvent.Fault.{Result, ok, err, ◌>>=◌}

-- `kNew`, `kAdded` and `kDeleted`.
pub data ChannelState : Type 0 where
  new added deleted : ChannelState

pub record Channel : Type 0 where
  pub fd : ℕ
  pub events : ℕ
  pub revents : ℕ
  pub state : ChannelState

unfoldable pub make : ℕ → Channel
make fd = record { fd = fd; events = 0; revents = 0; state = new }

abbrev pub epoll_in : ℕ
epoll_in = 0x1

abbrev pub epoll_pri : ℕ
epoll_pri = 0x2

abbrev pub epoll_out : ℕ
epoll_out = 0x4

abbrev pub epoll_err : ℕ
epoll_err = 0x8

abbrev pub epoll_hup : ℕ
epoll_hup = 0x10

abbrev pub epoll_rdhup : ℕ
epoll_rdhup = 0x2000

-- `mask & bits` as a condition.
abbrev pub has : ℕ → ℕ → Bool
has mask bits = not (bit_and mask bits == 0)

abbrev pub is_no_event : Channel → Bool
is_no_event c = c.events == 0

unfoldable pub is_reading : Channel → Bool
is_reading c = has c.events epoll_in

unfoldable pub is_writing : Channel → Bool
is_writing c = has c.events epoll_out

-- The new event sets of `enableRead`, `enableWrite`, `disableWrite` and `disableAll`; each then calls
-- `update`, which ends in `Poll::updateChannel`. `~EPOLLOUT` is the complement in 32 bits.
unfoldable pub with_read : Channel → Channel
with_read c = record c { events = bit_or c.events (bit_or epoll_in epoll_pri) }

unfoldable pub with_write : Channel → Channel
with_write c = record c { events = bit_or c.events epoll_out }

unfoldable pub without_write : Channel → Channel
without_write c = record c { events = bit_and c.events (2 ^ 32 - 1 - epoll_out) }

unfoldable pub without_all : Channel → Channel
without_all c = record c { events = 0 }

unfoldable pub set_revent : Channel → ℕ → Channel
set_revent c revents = record c { revents = revents }

-- The four callbacks, on whatever state they change; `none` is an empty `std::function`.
pub record Handlers (S : Type 0) : Type 0 where
  pub read : Option (S → Result S)
  pub write : Option (S → Result S)
  pub close : Option (S → Result S)
  pub error : Option (S → Result S)

abbrev pub call : {S : Type 0} → Option (S → Result S) → S → Result S
call none s = ok s
call (some f) s = f s

unfoldable pub handle_events : {S : Type 0} → Handlers S → ℕ → S → Result S
handle_events h revents s = do
  a ← (if has revents epoll_hup && not (has revents epoll_in) then call h.close s else ok s)
  b ← (if has revents epoll_err then call h.error a else ok a)
  c ← (if has revents (bit_or epoll_in (bit_or epoll_pri epoll_rdhup)) then call h.read b else ok b)
  if has revents epoll_out then call h.write c else ok c
