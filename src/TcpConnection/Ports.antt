-- ===== src/TcpConnection/Ports.antt =====
-- What a live connection is, and what its trace says of the bytes on the wire.
use yvent.Prelude.{
  ℕ, ◌<◌, ◌≡◌, refl, sym, ap, ◌∙◌, List, [], ◌∷◌, ◌++◌, append_assoc, append-nil, Bool, true, false,
  not, ◌||◌, if◌then◌else◌,
}
use yvent.Fault.{ok}
use yvent.Buffer.Contents.{IsValid}
use yvent.Buffer.{contents}
use yvent.Channel.{Channel, added, is_no_event, is_writing, is_reading}
use yvent.Poll.{ctl_mod, update_channel}
use yvent.TcpConnection.{
  TcpConnection, Effect, wrote, epoll_ctl, is_connected, is_disconnecting, is_empty, emit,
  update_events,
}

-- The bytes that went into the socket, in order.
abbrev pub on_wire : List Effect → List ℕ
on_wire [] = []
on_wire (wrote bytes ∷ es) = bytes ++ on_wire es
on_wire (_ ∷ es) = on_wire es

pub on_wire-append : (es fs : List Effect) → on_wire (es ++ fs) ≡ on_wire es ++ on_wire fs
on_wire-append [] fs = refl
on_wire-append (wrote bytes ∷ es) fs =
    ap (◌++◌ bytes) (on_wire-append es fs) ∙ sym (append_assoc bytes (on_wire es) (on_wire fs))
on_wire-append (_ ∷ es) fs = on_wire-append es fs

-- An effect that is no write adds nothing.
pub on_wire_quiet :
    (b : Bool) (es : List Effect) (e : Effect)
    → on_wire (e ∷ []) ≡ []
    → on_wire (if b then es ++ e ∷ [] else es) ≡ on_wire es
on_wire_quiet true es e h =
    on_wire-append es (e ∷ []) ∙ ap (◌++◌ (on_wire es)) h ∙ append-nil (on_wire es)
on_wire_quiet false es e h = refl

pub on_wire_wrote :
    (bytes : List ℕ) (es : List Effect)
    → on_wire (if not (is_empty bytes) then es ++ wrote bytes ∷ [] else es) ≡ on_wire es ++ bytes
on_wire_wrote [] es = sym (append-nil (on_wire es))
on_wire_wrote (x ∷ bytes) es =
    on_wire-append es (wrote (x ∷ bytes) ∷ []) ∙ ap (◌++◌ (on_wire es)) (append-nil (x ∷ bytes))

-- All that the connection was given to send and has not lost: what is on the wire, then what waits.
abbrev pub stream : TcpConnection → List ℕ
stream c = on_wire c.trace ++ contents c.out_buffer

-- Between the establishment of a connection and its end: its descriptor is with the kernel, for
-- reading at least, and whenever bytes wait to be written, EPOLLOUT is asked for.
pub record IsLive (c : TcpConnection) : Type 0 where
  pub open_state : (is_connected c.state || is_disconnecting c.state) ≡ true
  pub in_valid : IsValid c.in_buffer
  pub out_valid : IsValid c.out_buffer
  pub bits : c.channel.events < 8
  pub reading : is_reading c.channel ≡ true
  pub registered : c.channel.state ≡ added
  pub armed : is_writing c.channel ≡ false → contents c.out_buffer ≡ []

-- New events for a registered channel that asks for some are a modification.
pub update_events_live :
    (ch : Channel) (c : TcpConnection)
    → ch.state ≡ added
    → is_no_event ch ≡ false
    → update_events ch c ≡ ok (emit (epoll_ctl ctl_mod ch.events) (record c { channel = ch }))
unfolding update_events update_channel
update_events_live ch c h n = rw (h, n)
