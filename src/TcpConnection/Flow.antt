-- ===== src/TcpConnection/Flow.antt =====
-- What a live connection is given to send reaches the wire, in order.
use yvent.Prelude.{
  ℕ, ◌+◌, ◌*◌, ◌≤◌, ◌≡◌, refl, sym, ap, ◌∙◌, inl, inr, ◌⊎◌, List, [], ◌++◌, append_assoc,
  append-nil, true, false, not, ◌&&◌, ◌||◌, ◌==◌, ltb, if◌then◌else◌, Bool-cases, length, take,
  drop, drop-all, length-drop, take-append-drop, arith,
}
use yvent.Fault.{ok, Returns, returns, returned, Returns-bind, Returns-ok}
use yvent.Word.{max_size}
use yvent.Buffer
use yvent.Buffer.Contents.{Appended, append-Appended}
use yvent.Buffer.{Buffer, contents, readable_bytes}
use yvent.Channel.Bits.{with_write-writing, some_event}
use yvent.Channel.{Channel, is_writing, with_write}
use yvent.Poll.{ctl_mod}
use yvent.TcpConnection.Ports.{
  on_wire, on_wire_quiet, on_wire_wrote, stream, IsLive, update_events_live,
}
use yvent.TcpConnection.{
  is_connected, connected, TcpConnection, ConnectionState, connecting, connected, disconnecting,
  disconnected, WriteResult, direct_count, is_taken, is_disconnected, is_connected,
  is_disconnecting, emit, wrote_if, epoll_ctl, called_write_complete, update_events, write_directly,
  keep_rest, send_in_loop,
}

-- A connection whose trace alone is another is as live.
pub IsLive-trace : (c : TcpConnection) (t : List _) → IsLive c → IsLive (record c { trace = t })
IsLive-trace c t l = record {
  open_state = l.open_state;
  in_valid = l.in_valid;
  out_valid = l.out_valid;
  bits = l.bits;
  reading = l.reading;
  registered = l.registered;
  armed = l.armed;
}

-- What `keep_rest` leaves: the rest behind what waited.
record Kept (c : TcpConnection) (rest : List ℕ) (d : TcpConnection) : Type 0 where
  live : IsLive d
  wire : on_wire d.trace ≡ on_wire c.trace
  waits : contents d.out_buffer ≡ contents c.out_buffer ++ rest
  state : d.state ≡ c.state
  input : d.in_buffer ≡ c.in_buffer

with_write-state : (ch : Channel) → (with_write ch).state ≡ ch.state
unfolding with_write
with_write-state ch = refl

module _ (c : TcpConnection) (l : IsLive c) (out : Buffer) (rest : List ℕ)
    (a : Appended c.out_buffer rest out) where
  Kept-armed : is_writing c.channel ≡ true → Kept c rest (record c { out_buffer = out })
  Kept-armed w = record {
    live = record {
      open_state = l.open_state;
      in_valid = l.in_valid;
      out_valid = a.holds.valid;
      bits = l.bits;
      reading = l.reading;
      registered = l.registered;
      armed = λ h. cc;
    };
    wire = refl;
    waits = a.holds.held;
    state = refl;
    input = refl;
  }

  abbrev rearmed : TcpConnection
  rearmed =
      emit (epoll_ctl ctl_mod (with_write c.channel).events)
        (record c { channel = with_write c.channel; out_buffer = out })

  now_armed : Kept c rest rearmed
  now_armed = record {
    live = record {
      open_state = l.open_state;
      in_valid = l.in_valid;
      out_valid = a.holds.valid;
      bits = (with_write-writing c.channel l.bits).1;
      reading = (with_write-writing c.channel l.bits).2 ∙ l.reading;
      registered = with_write-state c.channel ∙ l.registered;
      armed = λ h. absurd (let w = (with_write-writing c.channel l.bits).0 in cc);
    };
    wire = on_wire_quiet true c.trace (epoll_ctl ctl_mod (with_write c.channel).events) refl;
    waits = a.holds.held;
    state = refl;
    input = refl;
  }

  update_write : update_events (with_write c.channel) (record c { out_buffer = out }) ≡ ok rearmed
  update_write =
      update_events_live (with_write c.channel) (record c { out_buffer = out })
        (with_write-state c.channel ∙ l.registered)
        (some_event (with_write c.channel) (with_write-writing c.channel l.bits).1
          (inr (with_write-writing c.channel l.bits).0))

  Kept-both : Returns (Kept c rest) (
      if is_writing c.channel
      then ok (record c { out_buffer = out })
      else update_events (with_write c.channel) (record c { out_buffer = out }))
  Kept-both = elim (Bool-cases (is_writing c.channel)) [
    | inl w ↦ rw (w) (returns _ (Kept-armed w))
    | inr w ↦ rw (w, update_write) (returns _ now_armed)
  ]

module _ (c : TcpConnection) (l : IsLive c) (n : ℕ) (bytes : List ℕ) where
  keep_rest-Kept :
      length (contents c.out_buffer) + 2 * length (drop n bytes) + 8 ≤ max_size
      → Returns (Kept c (drop n bytes)) (keep_rest n bytes c)
  unfolding keep_rest
  keep_rest-Kept k = elim (Bool-cases (ltb n (length bytes) || not (c.file_size == 0))) [
    | inl t ↦ rw (t) (
        Returns-bind (Buffer.append c.out_buffer (drop n bytes)) _
          (append-Appended c.out_buffer (drop n bytes) l.out_valid k)
          λ out a. Kept-both c l out (drop n bytes) a)
    | inr t ↦ rw (t) (
        returns _ (record {
          live = l;
          wire = refl;
          waits =
              sym (
                ap (◌++◌ (contents c.out_buffer)) (drop-all n bytes (ground arith)) ∙ append-nil _);
          state = refl;
          input = refl;
        }))
  ]

-- What `write_directly` leaves.
record Direct (c : TcpConnection) (bytes : List ℕ) (n : ℕ) (d : TcpConnection) : Type 0 where
  live : IsLive d
  wire : on_wire d.trace ≡ on_wire c.trace ++ take n bytes
  waits : d.out_buffer ≡ c.out_buffer
  order : (take n bytes ≡ []) × (drop n bytes ≡ bytes) ⊎ (contents c.out_buffer ≡ [])
  state : d.state ≡ c.state
  input : d.in_buffer ≡ c.in_buffer

module _ (c : TcpConnection) (l : IsLive c) (write : List ℕ → WriteResult) (bytes : List ℕ) where
  write_directly-Direct :
      Direct c bytes (write_directly write bytes c).0 (write_directly write bytes c).1
  unfolding write_directly
  write_directly-Direct =
      elim (Bool-cases (not (is_writing c.channel) && readable_bytes c.out_buffer == 0)) [
        | inl t ↦ rw (t) (record {
          live = IsLive-trace c _ l;
          wire =
              on_wire_quiet
                (is_taken (write bytes)
                  && not (ltb (direct_count (write bytes)) (length bytes))
                  && c.callbacks.write_complete)
                (wrote_if (take (direct_count (write bytes)) bytes) c).trace called_write_complete
                refl
              ∙ on_wire_wrote _ c.trace;
          waits = refl;
          state = refl;
          input = refl;
          order = inr (l.armed (ground arith));
        })
        | inr t ↦ rw (t) (record {
          live = l;
          wire = sym (append-nil _);
          waits = refl;
          state = refl;
          input = refl;
          order = inl (refl, refl);
        })
      ]

-- What the connection was given so far, and these bytes behind it. Its state and what it has received
-- are what they were.
pub record Given (c : TcpConnection) (bytes : List ℕ) (d : TcpConnection) : Type 0 where
  pub live : IsLive d
  pub kept : stream d ≡ stream c ++ bytes
  pub state : d.state ≡ c.state
  pub input : d.in_buffer ≡ c.in_buffer

open_not_closed :
    (s : ConnectionState)
    → (is_connected s || is_disconnecting s) ≡ true
    → is_disconnected s ≡ false
open_not_closed connecting h = refl
open_not_closed connected h = refl
open_not_closed disconnecting h = refl
open_not_closed disconnected h = cc

in_order :
    (w o : List ℕ) (n : ℕ) (bytes : List ℕ)
    → (take n bytes ≡ []) × (drop n bytes ≡ bytes) ⊎ (o ≡ [])
    → (w ++ take n bytes) ++ (o ++ drop n bytes) ≡ (w ++ o) ++ bytes
in_order w o n bytes (inl (t, d)) = rw (t, d, append-nil w) (sym (append_assoc w o bytes))
in_order w o n bytes (inr e) =
    rw (e, append-nil w)
      (append_assoc w (take n bytes) (drop n bytes) ∙ ap (◌++◌ w) (take-append-drop n bytes))

module _ (c : TcpConnection) (write : List ℕ → WriteResult) (bytes : List ℕ) where
  Kept-Given :
      (n : ℕ) (d e : TcpConnection) → Direct c bytes n d → Kept d (drop n bytes) e → Given c bytes e
  Kept-Given n d e p q = record {
    live = q.live;
    state = q.state ∙ p.state;
    input = q.input ∙ p.input;
    kept =
        ap (◌++◌ (on_wire e.trace)) q.waits
        ∙ ap (λ x. x ++ (contents d.out_buffer ++ drop n bytes)) (q.wire ∙ p.wire)
        ∙ ap (λ x. on_wire c.trace ++ take n bytes ++ (contents x ++ drop n bytes)) p.waits
        ∙ (in_order (on_wire c.trace) (contents c.out_buffer) n bytes p.order);
  }

  live_open : IsLive c → is_disconnected c.state ≡ false
  live_open l = open_not_closed c.state l.open_state

  -- `sendInLoop` on a live connection puts the bytes behind all that was sent before, on the wire or in
  -- the buffer, whatever `::write` answers, and the connection stays live: bytes that wait are
  -- waited for.
  pub send_in_loop-Given :
      IsLive c
      → length (contents c.out_buffer) + 2 * length bytes + 8 ≤ max_size
      → Returns (Given c bytes) (send_in_loop write bytes c)
  unfolding send_in_loop
  send_in_loop-Given l k =
      rw (live_open l)
        let (e, eq, q) =
            Returns-ok (
              keep_rest-Kept d p.live n bytes
                (rw (p.waits) (omega (arith, length-drop n bytes)))) in
          returned _ eq (Kept-Given n d e p q)
    where
      n : ℕ
      n = (write_directly write bytes c).0

      d : TcpConnection
      d = (write_directly write bytes c).1

      p : Direct c bytes n d
      p = write_directly-Direct c l write bytes
