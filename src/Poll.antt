-- ===== src/Poll.antt =====
-- yvent/Poll.h and yvent/Poll.cpp: which `epoll_ctl` a change of a channel becomes, and how the events
-- of one `epoll_wait` reach the channels.
pub mod Sync
use yvent.Prelude.{
  ℕ, zero, suc, ◌*◌, List, [], ◌∷◌, ◌++◌, Bool, true, false, not, ◌==◌, if◌then◌else◌, Option, none,
  some, length,
}
use yvent.Fault.{Result, ok, err, ◌>>=◌, ◌>>◌, check}
use yvent.Channel.{Channel, ChannelState, new, added, deleted, is_no_event, set_revent}

pub data Op : Type 0 where
  ctl_add ctl_mod ctl_del : Op

abbrev pub is_new : ChannelState → Bool
is_new new = true
is_new _ = false

-- `updateChannel`: the new state of the channel and the operation that `update` hands to `epoll_ctl`
-- with the channel's descriptor and events.
unfoldable pub update_channel : Channel → Result (Channel × Op)
update_channel c =
    if is_new c.state
    then (do check (not (is_no_event c)); ok (record c { state = added }, ctl_add))
    else if is_no_event c
    then ok (record c { state = deleted }, ctl_del)
    else ok (c, ctl_mod)

-- What `epoll_wait` may answer: -1 with an errno, or the channels that have events, with these.
pub data WaitResult : Type 0 where
  wait_failed : ℕ → WaitResult
  ready : List (Channel × ℕ) → WaitResult

-- Each channel is told what came, and is put on the list.
unfoldable pub activate : List Channel → List (Channel × ℕ) → List Channel
activate active [] = active
activate active ((c, revents) ∷ rest) = activate (active ++ set_revent c revents ∷ []) rest

-- `poll`: the channels to handle, and the new size of `events_`, which doubles when it was filled.
unfoldable pub poll : (ℕ → WaitResult) → ℕ → List Channel → List Channel × ℕ
unfolding activate
poll epoll_wait size active = elim (epoll_wait size) [
  | wait_failed e ↦ (active, size)
  | ready events ↦
      if length events == 0
      then (active, size)
      else (activate active events, if length events == size then 2 * size else size)
]
