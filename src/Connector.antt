-- ===== src/Connector.antt =====
-- yvent/Connector.h and yvent/Connector.cpp: the attempt to connect to a server. The answers of `connect`
-- and `getsockopt` are arguments; which callbacks are set is part of the state, and the calls of them are
-- listed in `calls`. Addresses are left out.
pub mod Outcomes
use yvent.Prelude.{
  ℕ, List, [], ◌∷◌, ◌++◌, Bool, true, false, not, ◌==◌, if◌then◌else◌, Option, none, some,
}
use yvent.Fault.{Result, ok, ◌>>=◌, ◌>>◌, check}
use yvent.Channel
use yvent.Channel.{Channel, with_write, without_all}
use yvent.Poll.{update_channel}

pub data Call : Type 0 where
  called_error called_new_connection : Call

pub record Connector : Type 0 where
  pub connected : Bool
  pub started : Bool
  pub channel : Channel
  pub has_new_connection : Bool
  pub has_error : Bool
  pub calls : List Call

unfoldable pub make : ℕ → (has_new_connection has_error : Bool) → Connector
make cfd has_new_connection has_error = record {
  connected = false;
  started = false;
  channel = Channel.make cfd;
  has_new_connection = has_new_connection;
  has_error = has_error;
  calls = [];
}

abbrev pub in_progress : ℕ
in_progress = 115

abbrev pub call_if : Bool → Call → Connector → Connector
call_if b call c = record c { calls = if b then c.calls ++ call ∷ [] else c.calls }

-- `handleWrite`, with what `errno` is behind `getsockopt`.
unfoldable pub handle_write : ℕ → Connector → Result Connector
handle_write errno c = do
  check c.started
  r ← update_channel (without_all c.channel)
  let d = record c { channel = r.0 }
  ok (
      if not (errno == 0)
      then call_if d.has_error called_error d
      else if d.has_new_connection
      then call_if true called_new_connection (record d { connected = true })
      else d)

-- `start`, with the `errno` of a `connect` that failed, and the one behind `getsockopt`.
unfoldable pub start : Option ℕ → ℕ → Connector → Result Connector
unfolding handle_write
start connect errno c = do
  check (not c.started)
  let d = record c { started = true }
  let now = handle_write errno d
  elim connect [
    | none ↦ now
    | some e ↦
        if not (e == in_progress)
        then now
        else (do r ← update_channel (with_write d.channel); ok (record d { channel = r.0 }))
  ]
